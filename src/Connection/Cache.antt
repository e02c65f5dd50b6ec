-- ===== src/Connection/Cache.antt =====
-- The cache of queries of src/durable-object.ts and its index. Queries that run at the same time
-- are not modelled, so that `activeQueries` is empty whenever a query starts.
use Prim.Native.String
use open_dating.Prelude.{
  ℕ, ◌+◌, ◌-◌, ◌*◌, String, Bool, Option, none, some, List, [], ◌∷◌, ◌++◌, ◌==◌, ◌&&◌, ltb,
  if◌then◌else◌, exists, select, delete_from, insert_or_ignore, order_by, take, length, lookup,
  insert,
}
use open_dating.Json.{Number, whole}
use open_dating.Crypto.Hex.{bytes_to_hex}
use open_dating.Relay.Filters.{Filter}
use open_dating.Events.Model.{Event, Platform}
use open_dating.Connection.State.{Relay, Env, CacheEntry, GlobalEntry}

abbrev pub query_cache_ttl : ℕ
query_cache_ttl = 60000

abbrev pub max_cache_size : ℕ
max_cache_size = 100

abbrev pub kind_key : Platform → Number → String
kind_key p kind = String.◌++◌ "kind:" (p.number_text kind)

abbrev pub author_key : String → String
author_key author = String.◌++◌ "author:" author

abbrev pub tag_key : String → String → String
tag_key name value = String.◌++◌ "tag:" (String.◌++◌ name (String.◌++◌ ":" value))

-- The index keys of a filter.
abbrev keys_of_list {ℓ} : {A : Type ℓ} → (A → String) → List A → List String
keys_of_list f [] = []
keys_of_list f (x ∷ xs) = f x ∷ keys_of_list f xs

abbrev keys_of_option {ℓ} : {A : Type ℓ} → (A → String) → Option (List A) → List String
keys_of_option f none = []
keys_of_option f (some xs) = keys_of_list f xs

abbrev tag_keys : List (String × List String) → List String
tag_keys [] = []
tag_keys ((name, values) ∷ tags) = keys_of_list (tag_key name) values ++ tag_keys tags

unfoldable pub filter_keys : Platform → Filter → List String
filter_keys p f =
    keys_of_option (kind_key p) f.kinds ++ (keys_of_option author_key f.authors ++ tag_keys f.tags)

unfoldable pub filters_keys : Platform → List Filter → List String
filters_keys p [] = []
filters_keys p (f ∷ filters) = filter_keys p f ++ filters_keys p filters

abbrev is_entry : String → String → String × String → Bool
is_entry index_key key (i, k) = i == index_key && k == key

-- The sets of `queryCacheIndex`, each entry once.
unfoldable pub add_keys : String → List String → List (String × String) → List (String × String)
add_keys key [] index = index
add_keys key (index_key ∷ keys) index =
    add_keys key keys (insert_or_ignore (is_entry index_key key) (index_key, key) index)

-- `addToCacheIndex`.
unfoldable pub add_to_cache_index :
    Platform → String → List Filter → List (String × String) → List (String × String)
add_to_cache_index p key filters index = add_keys key (filters_keys p filters) index

-- `removeFromCacheIndex`.
unfoldable pub remove_from_cache_index : String → List (String × String) → List (String × String)
remove_from_cache_index key index = delete_from (λ (i : String × String). i.1 == key) index

-- `queryCache.delete(key)` with `removeFromCacheIndex(key)`.
unfoldable pub drop_entry : String → Relay → Relay
drop_entry key r = record r {
  query_cache = delete_from (λ (e : String × CacheEntry). e.0 == key) r.query_cache;
  query_cache_index = remove_from_cache_index key r.query_cache_index;
}

unfoldable pub drop_entries : List String → Relay → Relay
drop_entries [] r = r
drop_entries (key ∷ keys) r = drop_entries keys (drop_entry key r)

-- The index keys of an event: its kind, its author, and each tag with a value.
unfoldable pub event_tag_keys : List (List String) → List String
event_tag_keys [] = []
event_tag_keys ([] ∷ tags) = event_tag_keys tags
event_tag_keys ((name ∷ []) ∷ tags) = event_tag_keys tags
event_tag_keys ((name ∷ value ∷ rest) ∷ tags) = tag_key name value ∷ event_tag_keys tags

unfoldable pub event_keys : Platform → Event → List String
event_keys p e = kind_key p (whole e.kind) ∷ author_key e.pubkey ∷ event_tag_keys e.tags

abbrev pub is_listed : List String → String → Bool
is_listed keys key = exists (λ k. k == key) keys

abbrev seconds : List (String × String) → List String
seconds [] = []
seconds ((i, k) ∷ index) = k ∷ seconds index

-- `keysToInvalidate`.
unfoldable pub keys_to_invalidate : Platform → Event → List (String × String) → List String
unfolding exists
keys_to_invalidate p e index =
    seconds (select (λ (i : String × String). is_listed (event_keys p e) i.0) index)

-- `invalidateRelevantCaches`.
unfoldable pub invalidate_relevant_caches : Platform → Event → Relay → Relay
invalidate_relevant_caches p e r = drop_entries (keys_to_invalidate p e r.query_cache_index) r

abbrev pub is_expired : ℕ → String × CacheEntry → Bool
is_expired now (key, entry) = ltb query_cache_ttl (now - entry.timestamp)

abbrev pub firsts : List (String × CacheEntry) → List String
firsts [] = []
firsts ((key, entry) ∷ entries) = key ∷ firsts entries

-- Whether the first entry scores less: ten points for an access, and one off for a minute since the
-- last one, both sides times 60000.
abbrev pub scores_less : ℕ → String × CacheEntry → String × CacheEntry → Bool
scores_less now (k, a) (l, b) =
    ltb (600000 * a.access_count + (now - b.last_accessed))
      (600000 * b.access_count + (now - a.last_accessed))

-- `cleanupQueryCache`.
unfoldable pub evict : ℕ → Relay → Relay
evict now r =
    if ltb max_cache_size (length r.query_cache)
    then drop_entries (firsts (take 20 (order_by (scores_less now) r.query_cache))) r
    else r

unfoldable pub cleanup_query_cache : ℕ → Relay → Relay
unfolding evict
cleanup_query_cache now r =
    evict now (drop_entries (firsts (select (is_expired now) r.query_cache)) r)

-- An entry that was read once.
abbrev new_entry : ℕ → List Event → CacheEntry
new_entry now result = record {
  result = result;
  timestamp = now;
  access_count = 1;
  last_accessed = now;
}

unfoldable pub put_entry : Env → List Filter → List Event → Relay → Relay
put_entry env filters result r =
    let key = env.platform.query_text filters in
    record r {
      query_cache = insert key (new_entry env.now_ms result) r.query_cache;
      query_cache_index = add_to_cache_index env.platform key filters r.query_cache_index;
    }

-- `generateGlobalCacheKey`.
abbrev pub global_key : Env → List Filter → String
global_key env filters =
    String.◌++◌ "https://opendating-query-cache/"
      (bytes_to_hex (env.platform.sha256 (env.platform.query_text filters)))

abbrev touch : ℕ → CacheEntry → CacheEntry
touch now e = record e { access_count = e.access_count + 1; last_accessed = now }

-- A query that no cache answers.
unfoldable pub run_query : Env → List Filter → Relay → List Event × Relay
run_query env filters r =
    let result = env.query_events filters r.stores.event_db in
    let put = put_entry env filters result r in
    let cleaned =
      if ltb max_cache_size (length put.query_cache)
      then cleanup_query_cache env.now_ms put
      else put in
    (
      result,
      record cleaned {
        global_cache =
            insert (global_key env filters) (record { result = result; cache_time = env.now_ms })
              cleaned.global_cache;
      },
    )

-- The part behind the platform's cache.
unfoldable pub query_locally : Env → List Filter → Relay → List Event × Relay
query_locally env filters r = elim (lookup (env.platform.query_text filters) r.query_cache) [
  | none ↦ run_query env filters r
  | some entry ↦
      if ltb (env.now_ms - entry.timestamp) query_cache_ttl
      then (
        entry.result,
        record r {
          query_cache =
              insert (env.platform.query_text filters) (touch env.now_ms entry) r.query_cache;
        },
      )
      else run_query env filters r
]

-- `getCachedOrQuery`.
unfoldable pub get_cached_or_query : Env → List Filter → Relay → List Event × Relay
get_cached_or_query env filters r = elim (lookup (global_key env filters) r.global_cache) [
  | none ↦ query_locally env filters r
  | some entry ↦
      if ltb 300000 (env.now_ms - entry.cache_time)
      then query_locally env filters (record r {
        global_cache =
            delete_from (λ (g : String × GlobalEntry). g.0 == global_key env filters)
              r.global_cache;
      })
      else (entry.result, put_entry env filters entry.result r)
]
