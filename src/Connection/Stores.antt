-- ===== src/Connection/Stores.antt =====
-- What the caches, the payments and the delivery of src/durable-object.ts leave as it is.
use open_dating.Prelude.{
  ◌≡◌, refl, ◌∙◌, ℕ, ◌-◌, String, Bool, List, [], ◌∷◌, Option, none, some, ◌==◌, ◌&&◌, not, eqb,
  ltb, length, lookup, take, select, delete_from, order_by, Option-cases, Bool-cases, inl, inr,
  arith,
}
use open_dating.Relay.Filters.{Filter}
use open_dating.Events.Model.{Event, Platform}
use open_dating.Connection.State.{Session, Relay, Env, Attachment, Stores, GlobalEntry}
use open_dating.Connection.Cache.{
  drop_entry, drop_entries, keys_to_invalidate, invalidate_relevant_caches, evict,
  cleanup_query_cache, put_entry, run_query, query_locally, get_cached_or_query, global_key,
  query_cache_ttl, max_cache_size, is_expired, scores_less, firsts,
}
use open_dating.Connection.Auth.{note_payment}
use open_dating.Connection.Broadcast.{keep_session, deliver_all, broadcast_to_local_sessions}
use open_dating.Connection.Checks.{
  get_cached_payment_status, set_cached_payment_status, look_up_payment, check_payment,
  payment_cache_ttl, has_paid_for_relay,
}

-- The object without its caches and the events that it has seen.
pub record Core : Type 0 where
  pub sessions : List Session
  pub sockets : List Attachment
  pub stored_subscriptions : List (String × List (String × List Filter))
  pub stores : Stores

abbrev pub core : Relay → Core
core r = record {
  sessions = r.sessions;
  sockets = r.sockets;
  stored_subscriptions = r.stored_subscriptions;
  stores = r.stores;
}

drop_entries-core : (keys : List String) (r : Relay) → core (drop_entries keys r) ≡ core r
unfolding drop_entries
drop_entries-core [] r = refl
drop_entries-core (key ∷ keys) r =
    drop_entries-core keys (drop_entry key r) ∙ unfold drop_entry in refl

pub invalidate-core :
    (p : Platform) (e : Event) (r : Relay) → core (invalidate_relevant_caches p e r) ≡ core r
unfolding invalidate_relevant_caches
invalidate-core p e r = drop_entries-core (keys_to_invalidate p e r.query_cache_index) r

evict-core : (now : ℕ) (r : Relay) → core (evict now r) ≡ core r
unfolding evict
evict-core now r = elim (Bool-cases (ltb max_cache_size (length r.query_cache))) [
  | inl h ↦ rw h (drop_entries-core (firsts (take 20 (order_by (scores_less now) r.query_cache))) r)
  | inr h ↦ rw h refl
]

cleanup-core : (now : ℕ) (r : Relay) → core (cleanup_query_cache now r) ≡ core r
unfolding cleanup_query_cache
cleanup-core now r =
    let old = firsts (select (is_expired now) r.query_cache) in
    evict-core now (drop_entries old r) ∙ drop_entries-core old r

put_entry-core :
    (env : Env) (filters : List Filter) (result : List Event) (r : Relay)
    → core (put_entry env filters result r) ≡ core r
unfolding put_entry
put_entry-core env filters result r = refl

module _ (env : Env) (filters : List Filter) where
  run_query-core : (r : Relay) → core (run_query env filters r).1 ≡ core r
  unfolding run_query
  run_query-core r =
      let put = put_entry env filters (env.query_events filters r.stores.event_db) r in
      let same = put_entry-core env filters (env.query_events filters r.stores.event_db) r in
      elim (Bool-cases (ltb max_cache_size (length put.query_cache))) [
        | inl h ↦ rw h (cleanup-core env.now_ms put ∙ same)
        | inr h ↦ rw h same
      ]

  query_locally-core : (r : Relay) → core (query_locally env filters r).1 ≡ core r
  unfolding query_locally
  query_locally-core r =
      elim (Option-cases (lookup (env.platform.query_text filters) r.query_cache)) [
        | inl h ↦ rw (h, query_locally) (run_query-core r)
        | inr (entry, h) ↦ elim (Bool-cases (ltb (env.now_ms - entry.timestamp) query_cache_ttl)) [
          | inl k ↦ rw (h, query_locally, k) refl
          | inr k ↦ rw (h, query_locally, k) (run_query-core r)
        ]
      ]

  pub get_cached_or_query-core : (r : Relay) → core (get_cached_or_query env filters r).1 ≡ core r
  unfolding get_cached_or_query
  get_cached_or_query-core r =
      elim (Option-cases (lookup (global_key env filters) r.global_cache)) [
        | inl h ↦ rw (h, get_cached_or_query) (query_locally-core r)
        | inr (entry, h) ↦
            let aged = record r {
              global_cache =
                  delete_from (λ (g : String × GlobalEntry). g.0 == global_key env filters)
                    r.global_cache;
            } in
            elim (Bool-cases (ltb 300000 (env.now_ms - entry.cache_time))) [
              | inl k ↦ rw (h, get_cached_or_query, k) (query_locally-core aged)
              | inr k ↦ rw (h, get_cached_or_query, k) (put_entry-core env filters entry.result r)
            ]
      ]

set_cached_payment_status-core :
    (now : ℕ) (pubkey : String) (paid : Bool) (r : Relay)
    → core (set_cached_payment_status now pubkey paid r) ≡ core r
unfolding set_cached_payment_status
set_cached_payment_status-core now pubkey paid r = refl

get_cached-core :
    (now : ℕ) (pubkey : String) (r : Relay)
    → core (get_cached_payment_status now pubkey r).1 ≡ core r
unfolding get_cached_payment_status
get_cached-core now pubkey r = elim (Option-cases (lookup pubkey r.payment_cache)) [
  | inl h ↦ rw (h, get_cached_payment_status) refl
  | inr (entry, h) ↦ elim (Bool-cases (ltb (now - entry.timestamp) payment_cache_ttl)) [
    | inl k ↦ rw (h, get_cached_payment_status, k) refl
    | inr k ↦ rw (h, get_cached_payment_status, k) refl
  ]
]

look_up-core :
    (env : Env) (pubkey : String) (cached : Option Bool) (r : Relay)
    → core (look_up_payment env pubkey (cached, r)).1 ≡ core r
look_up-core env pubkey none r =
    set_cached_payment_status-core env.now_ms pubkey (has_paid_for_relay env.config pubkey r) r
look_up-core env pubkey (some paid) r = refl

pub check_payment-core :
    (env : Env) (e : Event) (r : Relay) → core (check_payment env e r).1 ≡ core r
unfolding check_payment
check_payment-core env e r =
    let cached = get_cached_payment_status env.now_ms e.pubkey r in
    let known =
      look_up-core env e.pubkey cached.0 cached.1 ∙ get_cached-core env.now_ms e.pubkey r in
    elim (Bool-cases (env.config.pay_to_relay_enabled && not (eqb e.kind 1059))) [
      | inl h ↦ rw h known
      | inr h ↦ rw h refl
    ]

pub note_payment-core :
    (env : Env) (e : Event) (s : Session) (r : Relay) → core (note_payment env e s r).1 ≡ core r
unfolding note_payment
note_payment-core env e s r = elim (Bool-cases env.config.pay_to_relay_enabled) [
  | inl h ↦ rw h (set_cached_payment_status-core env.now_ms e.pubkey _ r)
  | inr h ↦ rw h refl
]

-- The payment is all that is noted in a session.
pub note_payment-session :
    (env : Env) (e : Event) (s : Session) (r : Relay)
    → record (note_payment env e s r).0 { has_paid = s.has_paid } ≡ s
unfolding note_payment
note_payment-session env e s r = elim (Bool-cases env.config.pay_to_relay_enabled) [
  | inl h ↦ rw h refl
  | inr h ↦ rw h refl
]

-- The delivery may make sessions again, and nothing else.
keep_session-stores :
    (env : Env) (a : Attachment) (r : Relay) → (keep_session env a r).stores ≡ r.stores
keep_session-stores env a r = ground arith

deliver_all-stores :
    (env : Env) (e : Event) (sockets : List Attachment) (r : Relay)
    → (deliver_all env e sockets r).1.stores ≡ r.stores
unfolding deliver_all
deliver_all-stores env e [] r = refl
deliver_all-stores env e (a ∷ sockets) r =
    deliver_all-stores env e sockets (keep_session env a r) ∙ keep_session-stores env a r

pub broadcast-stores :
    (env : Env) (e : Event) (r : Relay) → (broadcast_to_local_sessions env e r).1.stores ≡ r.stores
unfolding broadcast_to_local_sessions
broadcast-stores env e r = deliver_all-stores env e r.sockets r
