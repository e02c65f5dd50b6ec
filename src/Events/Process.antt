-- ===== src/Events/Process.antt =====
-- `processEvent` and `processDeletionEvent` of src/relay-worker.ts.
use Prim.Native.String
use open_dating.Prelude.{
  ◌||◌, ℕ, String, Bool, true, false, Option, none, some, List, [], ◌∷◌, ◌==◌, ◌&&◌, not, length,
  eqb, leb, ltb, if◌then◌else◌, exists, first,
}
use open_dating.Json.{whole}
use open_dating.Events.Model.{Event, Platform, tag_value, is_tag}
use open_dating.Events.Config.{Config}
use open_dating.Events.Store.{
  EventRow, EventDb, Outcome, fail, succeed, has_id, delete_event, save_event_to_database,
}

-- `event.tags.filter(tag => tag[0] === "e").map(tag => tag[1])`; an `undefined` equals no id.
unfoldable pub deleted_event_ids : List (List String) → List (Option String)
deleted_event_ids [] = []
deleted_event_ids (tag ∷ tags) =
    let rest = deleted_event_ids tags in if is_tag "e" tag then tag_value tag ∷ rest else rest

abbrev pub is_unbound : Option String → Bool
is_unbound none = true
is_unbound (some s) = false

-- Whose an event is: nobody's, where it is not there.
abbrev pub is_owner : (String → Bool) → Option EventRow → Bool
is_owner test none = false
is_owner test (some r) = test r.event.pubkey

-- The loop over the ids: those that the author of the deletion owns, and the first one that is
-- there and another's.
unfoldable pub owned_ids : String → List (Option String) → List EventRow → List String
owned_ids pubkey [] events = []
owned_ids pubkey (none ∷ ids) events = owned_ids pubkey ids events
owned_ids pubkey (some id ∷ ids) events =
    let rest = owned_ids pubkey ids events in
    if is_owner (λ owner. owner == pubkey) (first (has_id id) events) then id ∷ rest else rest

unfoldable pub first_foreign : String → List (Option String) → List EventRow → Option String
first_foreign pubkey [] events = none
first_foreign pubkey (none ∷ ids) events = first_foreign pubkey ids events
first_foreign pubkey (some id ∷ ids) events =
    let rest = first_foreign pubkey ids events in
    if is_owner (λ owner. not (owner == pubkey)) (first (has_id id) events) then some id else rest

unfoldable pub delete_events : List String → EventDb → EventDb
delete_events [] db = db
delete_events (id ∷ ids) db = delete_events ids (delete_event id db)

abbrev foreign_message : String → String
foreign_message id =
    String.◌++◌ "unauthorized: cannot delete event " (String.◌++◌ id " - wrong pubkey")

abbrev deleted_message : Platform → ℕ → String
deleted_message p n =
    String.◌++◌ "Successfully deleted " (String.◌++◌ (p.number_text (whole n)) " event(s)")

abbrev deletion_outcome : Platform → Option String → List String → Outcome
deletion_outcome p (some id) ids = fail (foreign_message id)
deletion_outcome p none [] = succeed "No matching events found to delete"
deletion_outcome p none (id ∷ ids) = succeed (deleted_message p (length (id ∷ ids)))

-- The query of the owners binds each id: it fails where one is `undefined` or there are too many.
unfoldable pub is_refused : Platform → List (Option String) → Bool
unfolding exists
is_refused p named = exists is_unbound named || ltb p.max_parameters (length named)

-- Where that query fails, nothing is deleted.
unfoldable pub delete_named :
    Config → Platform → Event → List (Option String) → EventDb → Outcome × EventDb
unfolding exists
delete_named c p e named db =
    if is_refused p named
    then (fail "error checking event ownership", (save_event_to_database c p e db).1)
    else (
      deletion_outcome p (first_foreign e.pubkey named db.events)
          (owned_ids e.pubkey named db.events),
      (save_event_to_database c p e (delete_events (owned_ids e.pubkey named db.events) db)).1,
    )

unfoldable pub names_none : List (Option String) → Bool
names_none [] = true
names_none (id ∷ ids) = false

unfoldable pub process_deletion_event : Config → Platform → Event → EventDb → Outcome × EventDb
process_deletion_event c p e db =
    if names_none (deleted_event_ids e.tags)
    then (succeed "No events to delete", db)
    else delete_named c p e (deleted_event_ids e.tags) db

unfoldable pub process_event : Config → Platform → Event → EventDb → Outcome × EventDb
process_event c p e db =
    if not (eqb e.kind 1059)
      && c.check_valid_nip05
      && not (eqb e.kind 0)
      && not (p.is_nip05_valid e.pubkey)
    then (fail "invalid: NIP-05 validation failed", db)
    else if eqb e.kind 5
    then process_deletion_event c p e db
    else if leb 20000 e.kind && ltb e.kind 30000
    then (succeed "Ephemeral event broadcast", db)
    else save_event_to_database c p e db

-- A sequence of events, one after the other.
unfoldable pub process_events : Config → Platform → List Event → EventDb → EventDb
process_events c p [] db = db
process_events c p (e ∷ events) db = process_events c p events (process_event c p e db).1

abbrev pub empty_event_db : EventDb
empty_event_db = record {
  events = [];
  tags = [];
  event_tags_cache_multi = [];
  content_hashes = [];
  paid_pubkeys = [];
  cached_ids = [];
}
