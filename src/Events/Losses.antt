-- ===== src/Events/Losses.antt =====
-- Where src/relay-worker.ts keeps too many versions of an event, or none.
use open_dating.Prelude.{
  ◌≡◌, refl, true, false, none, some, ◌==◌, ◌&&◌, not, eqb, leb, ltb, exists, first, arith,
  first-eq-none,
}
use open_dating.Events.Model.{Event, Platform}
use open_dating.Events.Config.{Config}
use open_dating.Events.Store.{
  EventRow, EventDb, has_id, is_version, is_replaceable, is_unbindable, delete_event, insert_event,
  check_content, replace_version, save_version, save_event_to_database, should_check_for_duplicates,
}
use open_dating.Events.Process.{process_event}
use open_dating.Events.Consistency.{IsConsistent, delete_event-version}
use open_dating.Events.Register.{version, is_known}

module _ (c : Config) (p : Platform) (e : Event) (db : EventDb) (spam : c.enable_anti_spam ≡ false)
    (nip05 : c.check_valid_nip05 ≡ false) (fresh : is_known e.id db ≡ false) where
  process_event-save_version :
      eqb e.kind 5 ≡ false
      → (leb 20000 e.kind && ltb e.kind 30000) ≡ false
      → process_event c p e db ≡ save_version c p e db
  unfolding process_event save_event_to_database is_known
  process_event-save_version plain lasting =
      let uncached : exists (λ i. i == e.id) db.cached_ids ≡ false = ground (arith, fresh) in
      let absent : exists (has_id e.id) db.events ≡ false = ground (arith, fresh) in
      let passes : (not (eqb e.kind 1059)
            && c.check_valid_nip05
            && not (eqb e.kind 0)
            && not (p.is_nip05_valid e.pubkey))
          ≡ false =
        ground (arith, nip05) in
      rw (passes, plain, lasting) (rw (uncached, absent) refl)

  -- A newer version of a replaceable event that the database cannot bind, since one of its tags
  -- has a name and no value, is refused, and the older version is deleted all the same.
  pub process_event-lost :
      (r : EventRow)
      → IsConsistent db.events
      → is_replaceable e.kind ≡ true
      → is_unbindable e ≡ true
      → first (is_version e.kind e.pubkey) db.events ≡ some r
      → leb e.created_at r.event.created_at ≡ false
      → ((process_event c p e db).0.success ≡ false)
        × (version e.kind e.pubkey (process_event c p e db).1.events ≡ none)
  unfolding save_version replace_version check_content insert_event should_check_for_duplicates
      version
  process_event-lost r h k u f l =
      let none_left =
        first-eq-none (is_version e.kind e.pubkey) (delete_event r.event.id db).events
          (delete_event-version e.kind e.pubkey db {r = r} h k f) in
      rw (process_event-save_version (ground (arith, k)) (ground (arith, k)))
        (rw (k, f, l, spam, u) (refl, rw none_left refl))
