-- ===== src/Events/Register.antt =====
-- The register of the newest versions, for each kind and author, and one event in the table of
-- src/relay-worker.ts.
use mathlib.Core.Option
use open_dating.Prelude.{
  ℕ, ◌≡◌, refl, ◌∙◌, ap, String, Bool, true, false, Option, none, some, List, [], ◌∷◌, ◌++◌, ◌==◌,
  ◌&&◌, ◌||◌, not, eqb, leb, ltb, if◌then◌else◌, exists, first, delete_from, arith, eq_iff, eq_refl,
  Bool-cases, inl, inr, first-append, first-append_other, first-delete_from_other,
  exists-delete_from_le, exists_of_first_other, not-exists_of_first, first_holds,
}
use open_dating.Events.Model.{Event, Platform}
use open_dating.Events.Config.{Config}
use open_dating.Events.Store.{
  EventRow, EventDb, has_id, is_version, is_replaceable, is_unbindable, row_of, delete_event,
  insert_event, check_content, replace_version, save_version, newer_exists, save_event_to_database,
  should_check_for_duplicates,
}
use open_dating.Events.Process.{process_event}
use open_dating.Events.Consistency.{IsConsistent, delete_event-version}

-- The version that the table holds.
unfoldable pub version : ℕ → String → List EventRow → Option Event
version kind pubkey events = Option.map (λ r. r.event) (first (is_version kind pubkey) events)

-- The register: a newer version takes the place of an older one, and a version that is as old as
-- the one that is there does not.
unfoldable pub supersede : Event → Option Event → Option Event
supersede e none = some e
supersede e (some current) = if leb e.created_at current.created_at then some current else some e

unfoldable pub publish : Event → (ℕ → String → Option Event) → ℕ → String → Option Event
publish e register kind pubkey =
    if eqb e.kind kind && e.pubkey == pubkey
    then supersede e (register kind pubkey)
    else register kind pubkey

unfoldable pub publish_all : List Event → (ℕ → String → Option Event) → ℕ → String → Option Event
publish_all [] register = register
publish_all (e ∷ events) register = publish_all events (publish e register)

-- Whether an id is in the cache or the table.
unfoldable pub is_known : String → EventDb → Bool
unfolding exists
is_known id db = exists (λ i. i == id) db.cached_ids || exists (has_id id) db.events

-- A replaceable event that the database can bind.
pub record IsVersion (e : Event) : Type 0 where
  pub replaceable : is_replaceable e.kind ≡ true
  pub bindable : is_unbindable e ≡ false

-- The table after the part for the version that is there.
unfoldable pub replaced : Event → Option EventRow → EventDb → EventDb
replaced e none db = (insert_event e none db).1
replaced e (some r) db =
    if leb e.created_at r.event.created_at
    then db
    else (insert_event e none (delete_event r.event.id db)).1

module _ (c : Config) (p : Platform) (spam : c.enable_anti_spam ≡ false)
    (nip05 : c.check_valid_nip05 ≡ false) where
  check_content-insert_event :
      (e : Event) (db : EventDb) → check_content c p e db ≡ insert_event e none db
  unfolding check_content should_check_for_duplicates
  check_content-insert_event e db = rw spam refl

  replace_version-replaced :
      (e : Event) (o : Option EventRow) (db : EventDb)
      → (replace_version c p e newer_exists o db).1 ≡ replaced e o db
  unfolding replace_version replaced
  replace_version-replaced e none db = rw (check_content-insert_event e db) refl
  replace_version-replaced e (some r) db = elim (Bool-cases (leb e.created_at r.event.created_at)) [
    | inl h ↦ rw h refl
    | inr h ↦ rw h (rw (check_content-insert_event e (delete_event r.event.id db)) refl)
  ]

  pub process_event-replaced :
      (e : Event) (db : EventDb)
      → is_replaceable e.kind ≡ true
      → is_known e.id db ≡ false
      → (process_event c p e db).1 ≡ replaced e (first (is_version e.kind e.pubkey) db.events) db
  unfolding process_event save_event_to_database save_version is_known
  process_event-replaced e db h k =
      let plain : eqb e.kind 5 ≡ false = ground (arith, h) in
      let lasting : (leb 20000 e.kind && ltb e.kind 30000) ≡ false = ground (arith, h) in
      let uncached : exists (λ i. i == e.id) db.cached_ids ≡ false = ground (arith, k) in
      let absent : exists (has_id e.id) db.events ≡ false = ground (arith, k) in
      let passes : (not (eqb e.kind 1059)
            && c.check_valid_nip05
            && not (eqb e.kind 0)
            && not (p.is_nip05_valid e.pubkey))
          ≡ false =
        ground (arith, nip05) in
      rw (passes, plain, lasting)
        (rw (uncached, absent)
          (rw h (replace_version-replaced e (first (is_version e.kind e.pubkey) db.events) db)))

pub insert_event-events :
    (e : Event) (db : EventDb)
    → is_unbindable e ≡ false
    → exists (has_id e.id) db.events ≡ false
    → ((insert_event e none db).1.events ≡ db.events ++ row_of e ∷ [])
      × ((insert_event e none db).1.cached_ids ≡ db.cached_ids ++ e.id ∷ [])
unfolding insert_event
insert_event-events e db h k = rw (h, k) (refl, refl)

-- Appending the row of an event to a table without a version of its kind and author.
version-append :
    (e : Event) (kind : ℕ) (pubkey : String) (events : List EventRow)
    → exists (is_version e.kind e.pubkey) events ≡ false
    → version kind pubkey (events ++ row_of e ∷ [])
      ≡ (if eqb e.kind kind && e.pubkey == pubkey then some e else version kind pubkey events)
unfolding version row_of
version-append e kind pubkey events h = elim (Bool-cases (eqb e.kind kind && e.pubkey == pubkey)) [
  | inl k ↦
      let a : e.kind ≡ kind = ground (arith, k) in
      let b : e.pubkey ≡ pubkey = ground (arith, k, eq_iff e.pubkey pubkey) in
      let absent : exists (is_version kind pubkey) events ≡ false = rw (a, b) at h in
      rw k (
        ap (Option.map (λ r. r.event))
          (first-append (is_version kind pubkey) events (row_of e) k absent))
  | inr k ↦ rw k (
      ap (Option.map (λ r. r.event))
        (first-append_other (is_version kind pubkey) events (row_of e) k))
]

-- Deleting a version leaves those of other kinds and authors.
version-delete_from :
    (kind : ℕ) (pubkey : String) (e : Event) (events : List EventRow) {r : EventRow}
    → IsConsistent events
    → first (is_version e.kind e.pubkey) events ≡ some r
    → (eqb e.kind kind && e.pubkey == pubkey) ≡ false
    → version kind pubkey (delete_from (has_id r.event.id) events) ≡ version kind pubkey events
unfolding version
version-delete_from kind pubkey e events {r} h f k =
    let holds = first_holds (is_version e.kind e.pubkey) events {x = r} f in
    let same_kind : r.event.kind ≡ e.kind = ground (arith, holds) in
    let same_pubkey : r.event.pubkey ≡ e.pubkey =
      ground (arith, holds, eq_iff r.event.pubkey e.pubkey) in
    let other : is_version kind pubkey r ≡ false = rw (same_kind, same_pubkey) k in
    let apart : (has_id r.event.id r && not (is_version kind pubkey r)) ≡ true =
      rw (other, eq_refl r.event.id) refl in
    ap (Option.map (λ r. r.event)) (
      first-delete_from_other (is_version kind pubkey) (has_id r.event.id) events
        (exists_of_first_other (is_version e.kind e.pubkey)
          (λ x. has_id r.event.id x && not (is_version kind pubkey x)) events {r = r} f apart)
        (h.one_row r.event.id))

version_of :
    (e : Event) (events : List EventRow) (kind : ℕ) (pubkey : String)
    → (eqb e.kind kind && e.pubkey == pubkey) ≡ true
    → version kind pubkey events
      ≡ Option.map (λ r. r.event) (first (is_version e.kind e.pubkey) events)
unfolding version
version_of e events kind pubkey k =
    let a : e.kind ≡ kind = ground (arith, k) in
    let b : e.pubkey ≡ pubkey = ground (arith, k, eq_iff e.pubkey pubkey) in rw (a, b) refl

pub replaced-version :
    (e : Event) (o : Option EventRow) (db : EventDb) (kind : ℕ) (pubkey : String)
    → IsConsistent db.events
    → IsVersion e
    → exists (has_id e.id) db.events ≡ false
    → first (is_version e.kind e.pubkey) db.events ≡ o
    → version kind pubkey (replaced e o db).events
      ≡ publish e (λ k q. version k q db.events) kind pubkey
unfolding replaced publish supersede delete_event
replaced-version e none db kind pubkey h v absent f =
    let missing = not-exists_of_first (is_version e.kind e.pubkey) db.events f in
    let added = (insert_event-events e db v.bindable absent).0 in
    let appended = version-append e kind pubkey db.events missing in
    elim (Bool-cases (eqb e.kind kind && e.pubkey == pubkey)) [
      | inl k ↦ rw (k, added) (appended ∙ rw (k, version_of e db.events kind pubkey k, f) refl)
      | inr k ↦ rw (k, added) (appended ∙ rw k refl)
    ]
replaced-version e (some r) db kind pubkey h v absent f =
    elim (Bool-cases (leb e.created_at r.event.created_at)) [
      | inl l ↦ elim (Bool-cases (eqb e.kind kind && e.pubkey == pubkey)) [
        | inl k ↦ rw (l, k, version_of e db.events kind pubkey k, f) (rw l refl)
        | inr k ↦ rw (l, k) refl
      ]
      | inr l ↦
          let missing = delete_event-version e.kind e.pubkey db {r = r} h v.replaceable f in
          let still = exists-delete_from_le (has_id e.id) (has_id r.event.id) db.events absent in
          let added = (insert_event-events e (delete_event r.event.id db) v.bindable still).0 in
          let appended =
            version-append e kind pubkey (delete_from (has_id r.event.id) db.events) missing in
          elim (Bool-cases (eqb e.kind kind && e.pubkey == pubkey)) [
            | inl k ↦
                rw (l, k, added)
                  (appended ∙ rw (k, version_of e db.events kind pubkey k, f) (rw l refl))
            | inr k ↦
                rw (l, k, added)
                  (appended ∙ rw k (version-delete_from kind pubkey e db.events {r = r} h f k))
          ]
    ]
