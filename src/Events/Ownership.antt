-- ===== src/Events/Ownership.antt =====
-- Who can delete what: the deletion events of src/relay-worker.ts and the events of others.
use open_dating.Prelude.{
  ◌≡◌, refl, ◌∙◌, String, Bool, true, false, Option, none, some, List, [], ◌∷◌, ◌==◌, ◌&&◌, ◌||◌,
  not, eqb, exists, first, select, All, arith, Bool-cases, Option-cases, inl, inr, eq_refl,
  exists-delete_from_le, not-exists_both, select-delete_from, select-append_other,
}
use open_dating.Events.Model.{Event, Platform}
use open_dating.Events.Config.{Config}
use open_dating.Events.Store.{
  EventRow, EventDb, Outcome, has_id, is_replaceable, is_parameterized_replaceable, row_of,
  duplicate, delete_event, check_content, save_version, save_event_to_database,
}
use open_dating.Events.Process.{
  names_none, is_refused, is_owner, owned_ids, delete_events, delete_named, deleted_event_ids,
  process_deletion_event, process_event,
}
use open_dating.Events.Consistency.{IsConsistent, Adds, check_content-Adds}

abbrev pub is_foreign : String → EventRow → Bool
is_foreign pubkey r = not (r.event.pubkey == pubkey)

-- Under this id there is no row of another author.
abbrev IsOwn : String → List EventRow → String → Type 0
IsOwn pubkey events id = exists (λ r. has_id id r && is_foreign pubkey r) events ≡ false

is_owner-IsOwn :
    (pubkey id : String) (events : List EventRow)
    → IsConsistent events
    → is_owner (λ owner. owner == pubkey) (first (has_id id) events) ≡ true
    → IsOwn pubkey events id
is_owner-IsOwn pubkey id events h o = elim (Option-cases (first (has_id id) events)) [
  | inl e ↦ absurd (ground (arith, rw e at o))
  | inr (r, e) ↦
      let owned : (r.event.pubkey == pubkey) ≡ true = rw e at o in
      not-exists_both (is_foreign pubkey) (has_id id) events {r = r} e (ground (arith, owned))
        (h.one_row id)
]

owned_ids-IsOwn :
    (pubkey : String) (ids : List (Option String)) (events : List EventRow)
    → IsConsistent events
    → All (IsOwn pubkey events) (owned_ids pubkey ids events)
unfolding owned_ids
owned_ids-IsOwn pubkey [] events h = tt
owned_ids-IsOwn pubkey (none ∷ ids) events h = owned_ids-IsOwn pubkey ids events h
owned_ids-IsOwn pubkey (some id ∷ ids) events h =
    elim (Bool-cases (is_owner (λ owner. owner == pubkey) (first (has_id id) events))) [
      | inl o ↦ rw o (is_owner-IsOwn pubkey id events h o, owned_ids-IsOwn pubkey ids events h)
      | inr o ↦ rw o (owned_ids-IsOwn pubkey ids events h)
    ]

delete_event-All :
    (pubkey deleted : String) (ids : List String) (db : EventDb)
    → All (IsOwn pubkey db.events) ids
    → All (IsOwn pubkey (delete_event deleted db).events) ids
unfolding delete_event
delete_event-All pubkey deleted [] db h = tt
delete_event-All pubkey deleted (id ∷ ids) db (h, hs) = (
  exists-delete_from_le (λ r. has_id id r && is_foreign pubkey r) (has_id deleted) db.events h,
  delete_event-All pubkey deleted ids db hs,
)

delete_events-select :
    (pubkey : String) (ids : List String) (db : EventDb)
    → All (IsOwn pubkey db.events) ids
    → select (is_foreign pubkey) (delete_events ids db).events
      ≡ select (is_foreign pubkey) db.events
unfolding delete_events
delete_events-select pubkey [] db h = refl
delete_events-select pubkey (id ∷ ids) db (h, hs) =
    delete_events-select pubkey ids (delete_event id db) (delete_event-All pubkey id ids db hs)
    ∙ (unfold delete_event in select-delete_from (is_foreign pubkey) (has_id id) db.events h)

Adds-select :
    (e : Event) (db : EventDb) (r : Outcome × EventDb)
    → Adds e db r
    → select (is_foreign e.pubkey) r.1.events ≡ select (is_foreign e.pubkey) db.events
unfolding row_of
Adds-select e db r (inl (_, k, _)) = rw k refl
Adds-select e db r (inr (_, _, k, _)) = rw k (
    select-append_other (is_foreign e.pubkey) db.events (row_of e)
      (ground (arith, eq_refl e.pubkey)))

-- An event that replaces none.
save_event_to_database-check_content :
    (c : Config) (p : Platform) (e : Event) (db : EventDb)
    → is_replaceable e.kind ≡ false
    → is_parameterized_replaceable e.kind ≡ false
    → exists (λ id. id == e.id) db.cached_ids ≡ false
    → exists (has_id e.id) db.events ≡ false
    → save_event_to_database c p e db ≡ check_content c p e db
unfolding save_event_to_database save_version
save_event_to_database-check_content c p e db h k l m = rw (l, m, h, k) refl

save_event_to_database-duplicate :
    (c : Config) (p : Platform) (e : Event) (db : EventDb)
    → (exists (λ id. id == e.id) db.cached_ids || exists (has_id e.id) db.events) ≡ true
    → save_event_to_database c p e db ≡ (duplicate, db)
unfolding save_event_to_database
save_event_to_database-duplicate c p e db h =
    elim (Bool-cases (exists (λ id. id == e.id) db.cached_ids)) [
      | inl l ↦ rw l refl
      | inr l ↦
          let m : exists (has_id e.id) db.events ≡ true = ground (arith, h, l) in rw (l, m) refl
    ]

pub save_event_to_database-Adds :
    (c : Config) (p : Platform) (e : Event) (db : EventDb)
    → is_replaceable e.kind ≡ false
    → is_parameterized_replaceable e.kind ≡ false
    → Adds e db (save_event_to_database c p e db)
save_event_to_database-Adds c p e db h k =
    elim (Bool-cases (exists (λ id. id == e.id) db.cached_ids || exists (has_id e.id) db.events)) [
      | inl l ↦ rw (save_event_to_database-duplicate c p e db l) (inl (refl, refl, refl))
      | inr l ↦
          rw
            (save_event_to_database-check_content c p e db h k (ground (arith, l))
              (ground (arith, l)))
            (check_content-Adds c p e db)
    ]

module _ (c : Config) (p : Platform) (e : Event) (db : EventDb) (h : IsConsistent db.events)
    (deletion : e.kind ≡ 5) where
  save-select :
      (before : EventDb)
      → select (is_foreign e.pubkey) (save_event_to_database c p e before).1.events
        ≡ select (is_foreign e.pubkey) before.events
  save-select before =
      Adds-select e before (save_event_to_database c p e before)
        (save_event_to_database-Adds c p e before (rw deletion refl) (rw deletion refl))

  -- A deletion event takes away no event of another author, whatever it names.
  pub process_event-foreign :
      select (is_foreign e.pubkey) (process_event c p e db).1.events
      ≡ select (is_foreign e.pubkey) db.events
  unfolding process_event process_deletion_event delete_named
  process_event-foreign =
      let named = deleted_event_ids e.tags in
      elim (Bool-cases (
        not (eqb e.kind 1059)
        && c.check_valid_nip05
        && not (eqb e.kind 0)
        && not (p.is_nip05_valid e.pubkey))) [
          | inl k ↦ rw k refl
          | inr k ↦
              let five : eqb e.kind 5 ≡ true = rw deletion refl in
              rw (k, five)
                (elim (Bool-cases (names_none named)) [
                  | inl n ↦ rw n refl
                  | inr n ↦ elim (Bool-cases (is_refused p named)) [
                    | inl u ↦ rw (n, u) (save-select db)
                    | inr u ↦
                        let owned = owned_ids e.pubkey named db.events in
                        rw (n, u)
                          (save-select (delete_events owned db)
                            ∙ delete_events-select e.pubkey owned db
                                (owned_ids-IsOwn e.pubkey named db.events h))
                  ]
                ])
        ]
