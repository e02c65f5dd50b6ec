-- ===== src/Events/Deletions.antt =====
-- What a deletion event of src/relay-worker.ts takes away.
use open_dating.Prelude.{
  length, ◌≤◌, ◌≡◌, refl, sym, ◌∙◌, String, Bool, true, false, Option, none, some, List, [], ◌∷◌,
  ◌==◌, ◌&&◌, ◌||◌, not, eqb, exists, first, arith, Bool-cases, inl, inr, eq_iff, exists-append,
  exists-delete_from_le, exists-delete_from,
}
use open_dating.Events.Model.{Event, Platform}
use open_dating.Events.Config.{Config}
use open_dating.Events.Store.{
  EventRow, EventDb, Outcome, has_id, row_of, delete_event, save_event_to_database,
}
use open_dating.Events.Process.{
  names_none, is_unbound, is_refused, is_owner, owned_ids, delete_events, delete_named,
  deleted_event_ids, process_deletion_event, process_event,
}
use open_dating.Events.Consistency.{Adds}
use open_dating.Events.Ownership.{save_event_to_database-Adds}

delete_event-gone :
    (deleted id : String) (db : EventDb)
    → ((deleted == id) || not (exists (has_id id) db.events)) ≡ true
    → exists (has_id id) (delete_event deleted db).events ≡ false
unfolding delete_event
delete_event-gone deleted id db h = elim (Bool-cases (deleted == id)) [
  | inl k ↦
      let same : deleted ≡ id = (eq_iff deleted id).0 k in
      exists-delete_from (has_id id) (has_id deleted) db.events (λ x t. rw same t)
  | inr k ↦ exists-delete_from_le (has_id id) (has_id deleted) db.events (ground (arith, k))
]

delete_events-gone :
    (ids : List String) (id : String) (db : EventDb)
    → (exists (λ i. i == id) ids || not (exists (has_id id) db.events)) ≡ true
    → exists (has_id id) (delete_events ids db).events ≡ false
unfolding delete_events exists
delete_events-gone [] id db h = ground (arith, h)
delete_events-gone (deleted ∷ ids) id db h =
    delete_events-gone ids id (delete_event deleted db)
      (elim (Bool-cases (exists (λ i. i == id) ids)) [
        | inl k ↦ rw k refl
        | inr k ↦ ground (arith, k, delete_event-gone deleted id db)
      ])

-- The tag `tag` of a deletion names an id.
abbrev pub names : String → Option String → Bool
names id none = false
names id (some i) = i == id

not-names_none :
    (id : String) (ids : List (Option String))
    → exists (names id) ids ≡ true
    → names_none ids ≡ false
unfolding exists names_none
not-names_none id [] h = sym h
not-names_none id (i ∷ ids) h = refl

owned_ids-named :
    (pubkey id : String) (ids : List (Option String)) (events : List EventRow)
    → exists (names id) ids ≡ true
    → is_owner (λ owner. owner == pubkey) (first (has_id id) events) ≡ true
    → exists (λ i. i == id) (owned_ids pubkey ids events) ≡ true
unfolding owned_ids exists
owned_ids-named pubkey id [] events h o = h
owned_ids-named pubkey id (none ∷ ids) events h o = owned_ids-named pubkey id ids events h o
owned_ids-named pubkey id (some i ∷ ids) events h o = elim (Bool-cases (i == id)) [
  | inl k ↦
      let same : i ≡ id = (eq_iff i id).0 k in
      let owned : is_owner (λ owner. owner == pubkey) (first (has_id i) events) ≡ true =
        rw same o in
      rw owned (unfold exists in rw k refl)
  | inr k ↦
      let rest = owned_ids-named pubkey id ids events (ground (arith, h, k)) o in
      elim (Bool-cases (is_owner (λ owner. owner == pubkey) (first (has_id i) events))) [
        | inl l ↦ rw l (unfold exists in rw (k, rest) refl)
        | inr l ↦ rw l rest
      ]
]

Adds-gone :
    (e : Event) (id : String) (db : EventDb) (r : Outcome × EventDb)
    → (e.id == id) ≡ false
    → exists (has_id id) db.events ≡ false
    → Adds e db r
    → exists (has_id id) r.1.events ≡ false
unfolding row_of
Adds-gone e id db r h k (inl (_, l, _)) = rw l k
Adds-gone e id db r h k (inr (_, _, l, _)) =
    rw l (exists-append (has_id id) db.events (row_of e ∷ []) ∙ (unfold exists in rw (k, h) refl))

-- With the check for NIP-05 off, as it is in the settings, a deletion event whose 'e' tags all have
-- a value, and are at most as many as a statement can have parameters, takes away every event that it
-- names and that its author owns, other than itself.
pub process_event-deletes :
    (c : Config) (p : Platform) (e : Event) (db : EventDb) (id : String)
    → c.check_valid_nip05 ≡ false
    → e.kind ≡ 5
    → exists is_unbound (deleted_event_ids e.tags) ≡ false
    → length (deleted_event_ids e.tags) ≤ p.max_parameters
    → exists (names id) (deleted_event_ids e.tags) ≡ true
    → is_owner (λ owner. owner == e.pubkey) (first (has_id id) db.events) ≡ true
    → (e.id == id) ≡ false
    → exists (has_id id) (process_event c p e db).1.events ≡ false
unfolding process_event process_deletion_event delete_named is_refused
process_event-deletes c p e db id nip05 deletion bound few named o other =
    let ids = deleted_event_ids e.tags in
    let owned = owned_ids e.pubkey ids db.events in
    let some_named : names_none ids ≡ false = not-names_none id ids named in
    let listed : exists (λ i. i == id) owned ≡ true =
      owned_ids-named e.pubkey id ids db.events named o in
    let gone = delete_events-gone owned id db (rw listed refl) in
    let passes : (not (eqb e.kind 1059)
          && c.check_valid_nip05
          && not (eqb e.kind 0)
          && not (p.is_nip05_valid e.pubkey))
        ≡ false =
      ground (arith, nip05) in
    let asked : is_refused p ids ≡ false = ground (arith, bound, few) in
    let five : eqb e.kind 5 ≡ true = rw deletion refl in
    rw (passes, five, some_named, asked)
      (Adds-gone e id (delete_events owned db)
        (save_event_to_database c p e (delete_events owned db)) other gone
        (save_event_to_database-Adds c p e (delete_events owned db) (rw deletion refl)
          (rw deletion refl)))
