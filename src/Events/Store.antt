-- ===== src/Events/Store.antt =====
-- The tables of the events and their writes: `processEvent`, `saveEventToDatabase` and
-- `processDeletionEvent` of src/relay-worker.ts. Bookmarks, which only choose a replica, and the
-- columns that no query reads are left out; of the database's errors, only the one for a bound
-- `undefined` is modelled.
use open_dating.Prelude.{
  ℕ, String, Bool, true, false, Option, none, some, List, [], ◌∷◌, ◌++◌, ◌==◌, ◌&&◌, ◌||◌, not, eqb,
  leb, ltb, if◌then◌else◌, exists, first, delete_from, insert_or_ignore,
}
use open_dating.Crypto.Hex.{bytes_to_hex}
use open_dating.Events.Model.{
  Event, Platform, tag_name, tag_value, is_tag, or_empty, is_true_text, find_tag,
}
use open_dating.Events.Config.{Config, holds_kind}

-- A row of `events`, with the column `tag_d`.
pub record EventRow : Type 0 where
  pub event : Event
  pub tag_d : Option String

-- A row of `tags`.
pub record TagRow : Type 0 where
  pub event_id : String
  pub tag_name : String
  pub tag_value : String

-- A row of `event_tags_cache_multi`.
pub record CachedTag : Type 0 where
  pub event_id : String
  pub pubkey : String
  pub kind : ℕ
  pub created_at : ℕ
  pub tag_type : String
  pub tag_value : String

-- A row of `content_hashes`.
pub record ContentHash : Type 0 where
  pub hash : String
  pub event_id : String
  pub pubkey : String
  pub created_at : ℕ

-- The tables, and the ids that the worker's cache holds for an hour.
pub record EventDb : Type 0 where
  pub events : List EventRow
  pub tags : List TagRow
  pub event_tags_cache_multi : List CachedTag
  pub content_hashes : List ContentHash
  pub paid_pubkeys : List String
  pub cached_ids : List String

pub record Outcome : Type 0 where
  pub success : Bool
  pub message : String

abbrev pub fail : String → Outcome
fail message = record { success = false; message = message }

abbrev pub succeed : String → Outcome
succeed message = record { success = true; message = message }

abbrev pub has_id : String → EventRow → Bool
has_id id r = r.event.id == id

-- `kind = ? AND pubkey = ?`, and the same with `tag_d = ?`; a column that is null equals nothing.
abbrev pub is_version : ℕ → String → EventRow → Bool
is_version kind pubkey r = eqb r.event.kind kind && r.event.pubkey == pubkey

abbrev is_text : String → Option String → Bool
is_text s none = false
is_text s (some t) = t == s

abbrev pub is_addressed_version : ℕ → String → String → EventRow → Bool
is_addressed_version kind pubkey d r = is_version kind pubkey r && is_text d r.tag_d

-- The four statements that delete an event.
unfoldable pub delete_event : String → EventDb → EventDb
delete_event id db = record db {
  tags = delete_from (λ t. t.event_id == id) db.tags;
  content_hashes = delete_from (λ h. h.event_id == id) db.content_hashes;
  event_tags_cache_multi = delete_from (λ t. t.event_id == id) db.event_tags_cache_multi;
  events = delete_from (has_id id) db.events;
}

abbrev pub is_replaceable : ℕ → Bool
is_replaceable kind = eqb kind 0 || eqb kind 3 || (leb 10000 kind && ltb kind 20000)

abbrev pub is_parameterized_replaceable : ℕ → Bool
is_parameterized_replaceable kind = leb 30000 kind && ltb kind 40000

-- The value of a tag's column: null, `undefined`, or a text. The loop keeps the first value that
-- counts as true, and else the last one.
pub data Column : Type 0 where
  null undefined : Column
  text : String → Column

abbrev of_value : Option String → Column
of_value none = undefined
of_value (some s) = text s

abbrev is_set : Column → Bool
is_set null = false
is_set undefined = false
is_set (text s) = not (s == "")

unfoldable pub column_from : String → List (List String) → Column → Column
column_from name [] column = column
column_from name (tag ∷ tags) column =
    column_from name tags
      (if is_tag name tag && not (is_set column) then of_value (tag_value tag) else column)

abbrev pub column : String → List (List String) → Column
column name tags = column_from name tags null

abbrev is_undefined : Column → Bool
is_undefined null = false
is_undefined undefined = true
is_undefined (text s) = false

abbrev stored : Column → Option String
stored null = none
stored undefined = none
stored (text s) = some s

-- The tags with a column of their own and an entry in the cache of tags.
abbrev pub cacheable_names : List String
cacheable_names = "p" ∷ "e" ∷ "a" ∷ "t" ∷ "d" ∷ "r" ∷ "L" ∷ "s" ∷ "u" ∷ []

abbrev pub is_cacheable : String → Bool
is_cacheable name = exists (λ n. n == name) cacheable_names

-- `tagInserts`: the rows of the tags with a name.
unfoldable pub tag_rows : String → List (List String) → List TagRow
tag_rows id [] = []
tag_rows id (tag ∷ tags) =
    let rest = tag_rows id tags in
    if is_true_text (tag_name tag)
    then (record {
      event_id = id;
      tag_name = or_empty (tag_name tag);
      tag_value = or_empty (tag_value tag);
    })
      ∷ rest
    else rest

abbrev cached_tag : Event → TagRow → CachedTag
cached_tag e t = record {
  event_id = e.id;
  pubkey = e.pubkey;
  kind = e.kind;
  created_at = e.created_at;
  tag_type = t.tag_name;
  tag_value = t.tag_value;
}

abbrev is_cached_tag : CachedTag → CachedTag → Bool
is_cached_tag t r =
    r.event_id == t.event_id && r.tag_type == t.tag_type && r.tag_value == t.tag_value

-- The statements for the cache of tags, one after the other.
unfoldable pub cache_tags : Event → List TagRow → List CachedTag → List CachedTag
unfolding exists
cache_tags e [] cached = cached
cache_tags e (t ∷ rows) cached = cache_tags e rows (
    if is_cacheable t.tag_name
    then insert_or_ignore (is_cached_tag (cached_tag e t)) (cached_tag e t) cached
    else cached)

abbrev add_hash : Event → Option String → List ContentHash → List ContentHash
add_hash e none hashes = hashes
add_hash e (some hash) hashes =
    insert_or_ignore (λ h. h.hash == hash)
      (record { hash = hash; event_id = e.id; pubkey = e.pubkey; created_at = e.created_at }) hashes

abbrev pub duplicate : Outcome
duplicate = fail "duplicate: event already exists"

-- Whether a column of the event's row is `undefined`, which the database does not bind.
unfoldable pub is_unbindable : Event → Bool
unfolding exists
is_unbindable e = exists (λ name. is_undefined (column name e.tags)) cacheable_names

unfoldable pub row_of : Event → EventRow
row_of e = record { event = e; tag_d = stored (column "d" e.tags) }

-- The insert of the event and what follows it.
unfoldable pub insert_event : Event → Option String → EventDb → Outcome × EventDb
insert_event e hash db =
    if is_unbindable e
    then (fail "error: D1_TYPE_ERROR", db)
    else if exists (has_id e.id) db.events
    then (duplicate, db)
    else (
      succeed "Event saved successfully",
      record db {
        events = db.events ++ row_of e ∷ [];
        tags = db.tags ++ tag_rows e.id e.tags;
        event_tags_cache_multi = cache_tags e (tag_rows e.id e.tags) db.event_tags_cache_multi;
        content_hashes = add_hash e hash db.content_hashes;
        cached_ids = db.cached_ids ++ e.id ∷ [];
      },
    )

abbrev is_content_duplicate : Config → Event → String → ContentHash → Bool
is_content_duplicate c e hash h =
    h.hash == hash && (c.enable_global_duplicate_check || h.pubkey == e.pubkey)

-- `shouldCheckForDuplicates`.
unfoldable pub should_check_for_duplicates : Config → ℕ → Bool
should_check_for_duplicates c kind = c.enable_anti_spam && holds_kind kind c.anti_spam_kinds

abbrev pub hash_content : Config → Platform → Event → String
hash_content c p e = bytes_to_hex (p.sha256 (p.content_text c.enable_global_duplicate_check e))

unfoldable pub has_equal_content : Config → Platform → Event → EventDb → Bool
unfolding exists
has_equal_content c p e db =
    exists (is_content_duplicate c e (hash_content c p e)) db.content_hashes

-- The check for equal content, if it is on, and the insert.
unfoldable pub check_content : Config → Platform → Event → EventDb → Outcome × EventDb
check_content c p e db =
    if not (should_check_for_duplicates c e.kind)
    then insert_event e none db
    else if has_equal_content c p e db
    then (fail "duplicate: content already exists", db)
    else insert_event e (some (hash_content c p e)) db

-- The part for a version that is there: it stays if it is not older, and else it is deleted.
unfoldable pub replace_version :
    Config → Platform → Event → String → Option EventRow → EventDb → Outcome × EventDb
replace_version c p e message none db = check_content c p e db
replace_version c p e message (some r) db =
    if leb e.created_at r.event.created_at
    then (fail message, db)
    else check_content c p e (delete_event r.event.id db)

abbrev pub newer_exists : String
newer_exists = "duplicate: a newer or equal replaceable event already exists"

abbrev pub newer_parameterized_exists : String
newer_parameterized_exists =
    "duplicate: a newer or equal parameterized replaceable event already exists"

-- No kind is of both classes, so one of the two replacements applies at most.
unfoldable pub save_version : Config → Platform → Event → EventDb → Outcome × EventDb
save_version c p e db =
    if is_replaceable e.kind
    then replace_version c p e newer_exists (first (is_version e.kind e.pubkey) db.events) db
    else if is_parameterized_replaceable e.kind
    then replace_version c p e newer_parameterized_exists
        (first (is_addressed_version e.kind e.pubkey (or_empty (find_tag "d" e.tags))) db.events) db
    else check_content c p e db

unfoldable pub save_event_to_database : Config → Platform → Event → EventDb → Outcome × EventDb
save_event_to_database c p e db =
    if exists (λ id. id == e.id) db.cached_ids
    then (duplicate, db)
    else if exists (has_id e.id) db.events
    then (duplicate, db)
    else save_version c p e db
