-- ===== src/Connection/Relaying.antt =====
-- Events that come from other objects: `handleDOBroadcast` of src/durable-object.ts.
use open_dating.Prelude.{
  ◌≡◌, refl, ◌∙◌, ◌+◌, ◌≤◌, ℕ, String, Bool, true, false, not, ◌&&◌, List, [], ◌∷◌, ◌==◌, ltb,
  exists, All, insert, delete_from, Bool-cases, inl, inr, eq_refl, arith,
}
use open_dating.Events.Model.{Event}
use open_dating.Connection.State.{Attachment, Relay, Env, is_session}
use open_dating.Connection.Cache.{
  drop_entry, drop_entries, keys_to_invalidate, invalidate_relevant_caches,
}
use open_dating.Connection.Broadcast.{
  keep_session, deliver_all, broadcast_to_local_sessions, handle_do_broadcast,
}

abbrev has_id : String → String × ℕ → Bool
has_id id (i, time) = i == id

-- The id was seen at this time or later.
abbrev is_seen_since : String → ℕ → String × ℕ → Bool
is_seen_since id time (i, t) = i == id && not (ltb t time)

drop_entries-seen :
    (keys : List String) (r : Relay) → (drop_entries keys r).processed_events ≡ r.processed_events
unfolding drop_entries drop_entry
drop_entries-seen [] r = refl
drop_entries-seen (key ∷ keys) r = drop_entries-seen keys (drop_entry key r)

keep_session-seen :
    (env : Env) (a : Attachment) (r : Relay)
    → (keep_session env a r).processed_events ≡ r.processed_events
keep_session-seen env a r = elim (Bool-cases (exists (is_session a.session_id) r.sessions)) [
  | inl h ↦ rw h refl
  | inr h ↦ rw h refl
]

deliver_all-seen :
    (env : Env) (e : Event) (sockets : List Attachment) (r : Relay)
    → (deliver_all env e sockets r).1.processed_events ≡ r.processed_events
unfolding deliver_all
deliver_all-seen env e [] r = refl
deliver_all-seen env e (a ∷ sockets) r =
    deliver_all-seen env e sockets (keep_session env a r) ∙ keep_session-seen env a r

-- What an object has seen when it has delivered an event.
seen_behind :
    (env : Env) (e : Event) (r : Relay)
    → (let after =
          broadcast_to_local_sessions env e (invalidate_relevant_caches env.platform e r) in
        after.1.processed_events)
      ≡ r.processed_events
unfolding broadcast_to_local_sessions invalidate_relevant_caches
seen_behind env e r =
    let keys = keys_to_invalidate env.platform e r.query_cache_index in
    deliver_all-seen env e (drop_entries keys r).sockets (drop_entries keys r)
    ∙ drop_entries-seen keys r

abbrev is_over : ℕ → String × ℕ → Bool
is_over now (i, t) = ltb (t + 300000) now

module _ (id : String) where
  seen-insert :
      (other : String) (time now : ℕ) (seen : List (String × ℕ))
      → exists (has_id other) seen ≡ false
      → exists (is_seen_since id time) seen ≡ true
      → exists (is_seen_since id time) (insert other now seen) ≡ true
  unfolding exists insert
  seen-insert other time now [] new h = ground arith
  seen-insert other time now ((i, t) ∷ seen) new h = ground (arith, seen-insert other time now seen)

  new-insert :
      (now : ℕ) (seen : List (String × ℕ))
      → exists (has_id id) seen ≡ false
      → exists (is_seen_since id now) (insert id now seen) ≡ true
  unfolding exists insert
  new-insert now [] new = ground (arith, eq_refl id)
  new-insert now ((i, t) ∷ seen) new = ground (arith, new-insert now seen)

  seen-delete_from :
      (time now : ℕ) (seen : List (String × ℕ))
      → now ≤ time + 300000
      → exists (is_seen_since id time) seen ≡ true
      → exists (is_seen_since id time) (delete_from (is_over now) seen) ≡ true
  unfolding exists delete_from
  seen-delete_from time now [] soon h = h
  seen-delete_from time now ((i, t) ∷ seen) soon h =
      ground (arith, seen-delete_from time now seen soon)

  has_id-seen :
      (time : ℕ) (seen : List (String × ℕ))
      → exists (is_seen_since id time) seen ≡ true
      → exists (has_id id) seen ≡ true
  unfolding exists
  has_id-seen time [] h = h
  has_id-seen time ((i, t) ∷ seen) h = ground (arith, has_id-seen time seen)

  handle_do_broadcast-seen :
      (env : Env) (e : Event) (r : Relay) (time : ℕ)
      → env.now_ms ≤ time + 300000
      → exists (is_seen_since id time) r.processed_events ≡ true
      → exists (is_seen_since id time) (handle_do_broadcast env e r).1.processed_events ≡ true
  unfolding handle_do_broadcast
  handle_do_broadcast-seen env e r time soon h =
      let marked = record r { processed_events = insert e.id env.now_ms r.processed_events } in
      elim (Bool-cases (exists (has_id e.id) r.processed_events)) [
        | inl k ↦ rw k h
        | inr k ↦
            rw (k, seen_behind env e marked)
              (seen-delete_from time env.now_ms (insert e.id env.now_ms r.processed_events) soon
                (seen-insert e.id time env.now_ms r.processed_events k h))
      ]

-- The events of other objects, one after the other, each with what its step reads.
abbrev pub hear_all : List (Env × Event) → Relay → Relay
hear_all [] r = r
hear_all ((env, e) ∷ events) r = hear_all events (handle_do_broadcast env e r).1

hear_all-seen :
    (id : String) (events : List (Env × Event)) (r : Relay) (time : ℕ)
    → All (λ o. o.0.now_ms ≤ time + 300000) events
    → exists (is_seen_since id time) r.processed_events ≡ true
    → exists (is_seen_since id time) (hear_all events r).processed_events ≡ true
hear_all-seen id [] r time soon h = h
hear_all-seen id ((env, e) ∷ events) r time (s, soon) h =
    hear_all-seen id events (handle_do_broadcast env e r).1 time soon
      (handle_do_broadcast-seen id env e r time s h)

first-seen :
    (env : Env) (e : Event) (r : Relay)
    → exists (has_id e.id) r.processed_events ≡ false
    → exists (is_seen_since e.id env.now_ms) (handle_do_broadcast env e r).1.processed_events ≡ true
unfolding handle_do_broadcast
first-seen env e r new =
    let marked = record r { processed_events = insert e.id env.now_ms r.processed_events } in
    rw (new, seen_behind env e marked)
      (seen-delete_from e.id env.now_ms env.now_ms (insert e.id env.now_ms r.processed_events)
        (omega arith) (new-insert e.id env.now_ms r.processed_events new))

-- An event that another object sends a second time is not delivered again: nothing is sent and the
-- object stays as it is, whatever other events came in between, as long as none of them came more
-- than five minutes after the first delivery.
pub handle_do_broadcast_once :
    (env later : Env) (e : Event) (between : List (Env × Event)) (r : Relay)
    → exists (λ (p : String × ℕ). p.0 == e.id) r.processed_events ≡ false
    → All (λ o. o.0.now_ms ≤ env.now_ms + 300000) between
    → (let before = hear_all between (handle_do_broadcast env e r).1 in
        handle_do_broadcast later e before ≡ ([], before))
unfolding handle_do_broadcast
handle_do_broadcast_once env later e between r new soon =
    let after = (handle_do_broadcast env e r).1 in
    rw
      (has_id-seen e.id env.now_ms (hear_all between after).processed_events
        (hear_all-seen e.id between after env.now_ms soon (first-seen env e r new)))
      refl
