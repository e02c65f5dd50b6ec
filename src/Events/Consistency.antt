-- ===== src/Events/Consistency.antt =====
-- What the table of events keeps: one row for an id, and one version of a replaceable event.
use open_dating.Prelude.{
  ℕ, ◌≤◌, ◌≡◌, refl, String, Bool, true, false, Option, none, some, List, [], ◌∷◌, ◌++◌, ◌==◌, ◌&&◌,
  not, eqb, leb, ltb, exists, first, delete_from, changes, arith, eq_iff, Bool-cases, sym, eq_refl,
  not-exists_of_first, ◌⊎◌, inl, inr, changes-append_one, changes-delete_from_le,
  changes-delete_first, changes-eq-zero, not-exists_of_changes,
}
use open_dating.Events.Model.{Event, Platform, or_empty, find_tag}
use open_dating.Events.Config.{Config}
use open_dating.Events.Store.{
  row_of, is_unbindable, should_check_for_duplicates, has_equal_content, hash_content, EventRow,
  EventDb, Outcome, has_id, is_version, is_replaceable, is_parameterized_replaceable, delete_event,
  insert_event, check_content, replace_version, save_version, save_event_to_database,
  is_addressed_version, newer_exists, newer_parameterized_exists,
}
use open_dating.Events.Process.{
  names_none, is_refused, delete_events, delete_named, process_deletion_event, process_event,
  process_events, empty_event_db, deleted_event_ids, owned_ids,
}

pub record IsConsistent (events : List EventRow) : Type 0 where
  pub one_row : (id : String) → changes (has_id id) events ≤ 1
  pub one_version :
      (kind : ℕ) (pubkey : String)
      → is_replaceable kind ≡ true
      → changes (is_version kind pubkey) events ≤ 1

delete_from-IsConsistent :
    (q : EventRow → Bool) (events : List EventRow)
    → IsConsistent events
    → IsConsistent (delete_from q events)
delete_from-IsConsistent q events h = record {
  one_row = λ id.
      let d = changes-delete_from_le (has_id id) q events in let k = h.one_row id in omega arith;
  one_version = λ kind pubkey r.
      let d = changes-delete_from_le (is_version kind pubkey) q events in
      let k = h.one_version kind pubkey r in omega arith;
}

-- A new row with a new id, of a kind of which its author has no version.
append-IsConsistent :
    (events : List EventRow) (row : EventRow)
    → IsConsistent events
    → exists (has_id row.event.id) events ≡ false
    → (is_replaceable row.event.kind ≡ true
        → exists (is_version row.event.kind row.event.pubkey) events ≡ false)
    → IsConsistent (events ++ row ∷ [])
append-IsConsistent events row h fresh unique = record {
  one_row = λ id. elim (Bool-cases (has_id id row)) [
    | inl e ↦
        let same : row.event.id ≡ id = (eq_iff row.event.id id).0 e in
        let z = changes-eq-zero (has_id id) events (rw same at fresh) in
        let a = changes-append_one (has_id id) events row in ground (arith, e, z, a)
    | inr e ↦
        let a = changes-append_one (has_id id) events row in
        let k = h.one_row id in ground (arith, e, a, k)
  ];
  one_version = λ kind pubkey r. elim (Bool-cases (is_version kind pubkey row)) [
    | inl e ↦
        let k : row.event.kind ≡ kind = ground (arith, e) in
        let p : row.event.pubkey ≡ pubkey = ground (arith, e, eq_iff row.event.pubkey pubkey) in
        let u : exists (is_version kind pubkey) events ≡ false = rw (k, p) at (unique (rw k r)) in
        let z = changes-eq-zero (is_version kind pubkey) events u in
        let a = changes-append_one (is_version kind pubkey) events row in ground (arith, e, z, a)
    | inr e ↦
        let a = changes-append_one (is_version kind pubkey) events row in
        let k = h.one_version kind pubkey r in ground (arith, e, a, k)
  ];
}

-- An insert fails and leaves the tables of events and ids, or adds the event, which was not there.
abbrev pub Adds : Event → EventDb → Outcome × EventDb → Type 0
Adds e db (o, db') =
    ((o.success ≡ false) × (db'.events ≡ db.events) × (db'.cached_ids ≡ db.cached_ids))
    ⊎ ((o.success ≡ true)
        × (exists (has_id e.id) db.events ≡ false)
        × (db'.events ≡ db.events ++ row_of e ∷ [])
        × (db'.cached_ids ≡ db.cached_ids ++ e.id ∷ []))

insert_event-Adds :
    (e : Event) (hash : Option String) (db : EventDb) → Adds e db (insert_event e hash db)
unfolding insert_event
insert_event-Adds e hash db = elim (Bool-cases (is_unbindable e)) [
  | inl h ↦ rw h (inl (refl, refl, refl))
  | inr h ↦ elim (Bool-cases (exists (has_id e.id) db.events)) [
    | inl k ↦ rw (h, k) (inl (refl, refl, refl))
    | inr k ↦ rw (h, k) (inr (refl, refl, refl, refl))
  ]
]

pub check_content-Adds :
    (c : Config) (p : Platform) (e : Event) (db : EventDb) → Adds e db (check_content c p e db)
unfolding check_content
check_content-Adds c p e db = elim (Bool-cases (should_check_for_duplicates c e.kind)) [
  | inr h ↦ rw h (insert_event-Adds e none db)
  | inl h ↦ elim (Bool-cases (has_equal_content c p e db)) [
    | inl k ↦ rw (h, k) (inl (refl, refl, refl))
    | inr k ↦ rw (h, k) (insert_event-Adds e (some (hash_content c p e)) db)
  ]
]

Adds-IsConsistent :
    (e : Event) (db : EventDb) (r : Outcome × EventDb)
    → IsConsistent db.events
    → (is_replaceable e.kind ≡ true → exists (is_version e.kind e.pubkey) db.events ≡ false)
    → Adds e db r
    → IsConsistent r.1.events
unfolding row_of
Adds-IsConsistent e db r h unique (inl (_, k, _)) = rw k h
Adds-IsConsistent e db r h unique (inr (_, fresh, k, _)) =
    rw k (append-IsConsistent db.events (row_of e) h fresh unique)

delete_event-IsConsistent :
    (id : String) (db : EventDb) → IsConsistent db.events → IsConsistent (delete_event id db).events
unfolding delete_event
delete_event-IsConsistent id db h = delete_from-IsConsistent (has_id id) db.events h

-- Without its version the author has none of that kind.
pub delete_event-version :
    (kind : ℕ) (pubkey : String) (db : EventDb) {r : EventRow}
    → IsConsistent db.events
    → is_replaceable kind ≡ true
    → first (is_version kind pubkey) db.events ≡ some r
    → exists (is_version kind pubkey) (delete_event r.event.id db).events ≡ false
unfolding delete_event
delete_event-version kind pubkey db {r} h k f =
    not-exists_of_changes (is_version kind pubkey) (delete_from (has_id r.event.id) db.events) (
      changes-delete_first (is_version kind pubkey) (has_id r.event.id) db.events {r = r} f
        (eq_refl r.event.id) (h.one_version kind pubkey k))

replace_version-IsConsistent :
    (c : Config) (p : Platform) (e : Event) (message : String) (o : Option EventRow) (db : EventDb)
    → IsConsistent db.events
    → (is_replaceable e.kind ≡ true → o ≡ first (is_version e.kind e.pubkey) db.events)
    → IsConsistent (replace_version c p e message o db).1.events
unfolding replace_version
replace_version-IsConsistent c p e message none db h f =
    Adds-IsConsistent e db (check_content c p e db) h
      (λ k. not-exists_of_first (is_version e.kind e.pubkey) db.events (sym (f k)))
      (check_content-Adds c p e db)
replace_version-IsConsistent c p e message (some r) db h f =
    elim (Bool-cases (leb e.created_at r.event.created_at)) [
      | inl k ↦ rw k h
      | inr k ↦
          let after = delete_event r.event.id db in
          rw k (
            Adds-IsConsistent e after (check_content c p e after)
              (delete_event-IsConsistent r.event.id db h)
              (λ v. delete_event-version e.kind e.pubkey db {r = r} h v (sym (f v)))
              (check_content-Adds c p e after))
    ]

save_version-IsConsistent :
    (c : Config) (p : Platform) (e : Event) (db : EventDb)
    → IsConsistent db.events
    → IsConsistent (save_version c p e db).1.events
unfolding save_version
save_version-IsConsistent c p e db h = elim (Bool-cases (is_replaceable e.kind)) [
  | inl k ↦ rw k (
      replace_version-IsConsistent c p e newer_exists (first (is_version e.kind e.pubkey) db.events)
        db h (λ _. refl))
  | inr k ↦ elim (Bool-cases (is_parameterized_replaceable e.kind)) [
    | inl l ↦
        rw (k, l)
          (replace_version-IsConsistent c p e newer_parameterized_exists
            (first (is_addressed_version e.kind e.pubkey (or_empty (find_tag "d" e.tags)))
              db.events)
            db h (λ v. absurd (ground (arith, k, v))))
    | inr l ↦
        rw (k, l)
          (Adds-IsConsistent e db (check_content c p e db) h (λ v. absurd (ground (arith, k, v)))
            (check_content-Adds c p e db))
  ]
]

save_event_to_database-IsConsistent :
    (c : Config) (p : Platform) (e : Event) (db : EventDb)
    → IsConsistent db.events
    → IsConsistent (save_event_to_database c p e db).1.events
unfolding save_event_to_database
save_event_to_database-IsConsistent c p e db h =
    elim (Bool-cases (exists (λ id. id == e.id) db.cached_ids)) [
      | inl k ↦ rw k h
      | inr k ↦ elim (Bool-cases (exists (has_id e.id) db.events)) [
        | inl l ↦ rw (k, l) h
        | inr l ↦ rw (k, l) (save_version-IsConsistent c p e db h)
      ]
    ]

delete_events-IsConsistent :
    (ids : List String) (db : EventDb)
    → IsConsistent db.events
    → IsConsistent (delete_events ids db).events
unfolding delete_events
delete_events-IsConsistent [] db h = h
delete_events-IsConsistent (id ∷ ids) db h =
    delete_events-IsConsistent ids (delete_event id db) (delete_event-IsConsistent id db h)

-- Processing an event keeps the table of events consistent.
pub process_event-IsConsistent :
    (c : Config) (p : Platform) (e : Event) (db : EventDb)
    → IsConsistent db.events
    → IsConsistent (process_event c p e db).1.events
unfolding process_event process_deletion_event delete_named
process_event-IsConsistent c p e db h =
    elim (Bool-cases (
      not (eqb e.kind 1059)
      && c.check_valid_nip05
      && not (eqb e.kind 0)
      && not (p.is_nip05_valid e.pubkey))) [
        | inl k ↦ rw k h
        | inr k ↦ elim (Bool-cases (eqb e.kind 5)) [
          | inl l ↦
              rw (k, l)
                (elim (Bool-cases (names_none (deleted_event_ids e.tags))) [
                  | inl n ↦ rw n h
                  | inr n ↦ rw n (elim (Bool-cases (is_refused p (deleted_event_ids e.tags))) [
                    | inl u ↦ rw u (save_event_to_database-IsConsistent c p e db h)
                    | inr u ↦ rw u (
                        save_event_to_database-IsConsistent c p e
                          (delete_events (owned_ids e.pubkey (deleted_event_ids e.tags) db.events)
                            db)
                          (delete_events-IsConsistent
                            (owned_ids e.pubkey (deleted_event_ids e.tags) db.events) db h))
                  ])
                ])
          | inr l ↦ elim (Bool-cases (leb 20000 e.kind && ltb e.kind 30000)) [
            | inl n ↦ rw (k, l, n) h
            | inr n ↦ rw (k, l, n) (save_event_to_database-IsConsistent c p e db h)
          ]
        ]
      ]

process_events-IsConsistent :
    (c : Config) (p : Platform) (events : List Event) (db : EventDb)
    → IsConsistent db.events
    → IsConsistent (process_events c p events db).events
unfolding process_events
process_events-IsConsistent c p [] db h = h
process_events-IsConsistent c p (e ∷ events) db h =
    process_events-IsConsistent c p events (process_event c p e db).1
      (process_event-IsConsistent c p e db h)

-- Whatever events are processed from an empty table on, it has one row for an id at most, and one
-- version of a replaceable kind for an author at most.
pub process_events-one_version :
    (c : Config) (p : Platform) (events : List Event)
    → IsConsistent (process_events c p events empty_event_db).events
unfolding changes
process_events-one_version c p events =
    process_events-IsConsistent c p events empty_event_db
      (record { one_row = λ id. omega arith; one_version = λ kind pubkey h. omega arith })
