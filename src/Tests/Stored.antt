-- ===== src/Tests/Stored.antt =====
-- Examples of the table of events: src/relay-worker.ts.
use open_dating.Prelude.{
  ℕ, String, true, false, none, some, List, [], ◌∷◌, ◌≡◌, refl, ◌==◌, exists, first, select,
  changes, arith,
}
use open_dating.Text.{units}
use open_dating.Events.Model.{Event, Platform}
use open_dating.Events.Config.{default_config}
use open_dating.Events.Store.{EventDb, EventRow, column_from, is_version, has_id, is_unbindable}
use open_dating.Events.Process.{
  process_event, process_events, empty_event_db, deleted_event_ids, is_owner,
}
use open_dating.Events.Consistency.{IsConsistent, process_events-one_version}
use open_dating.Events.Register.{version, is_known}
use open_dating.Events.Losses.{process_event-lost}
use open_dating.Events.Ownership.{is_foreign, process_event-foreign}
use open_dating.Events.Deletions.{process_event-deletes}
use open_dating.Tests.Fixtures.{alice}

-- A platform on which every signature is valid.
abbrev pub platform : Platform
platform = record {
  lower_case = λ s. s;
  serialize = λ e. e.content;
  content_text = λ with_pubkey e. e.content;
  sha256 = λ s. units s;
  schnorr_verify = λ signature message key. some true;
  number_text = λ n. "1";
  url_host = λ s. some s;
  query_text = λ filters. "query";
  max_parameters = 100;
  is_nip05_valid = λ s. true;
}

abbrev pub event : String → String → ℕ → ℕ → List (List String) → Event
event id pubkey created_at kind tags = record {
  id = id;
  pubkey = pubkey;
  created_at = created_at;
  kind = kind;
  tags = tags;
  content = "hi";
  sig = "00";
}

-- Two versions of a profile, and a third whose tag has no value.
abbrev older : Event
older = event "1" alice 10 0 []

abbrev newer : Event
newer = event "2" alice 20 0 []

abbrev broken : Event
broken = event "3" alice 30 0 (("p" ∷ []) ∷ [])

process_events-one_version_example :
    IsConsistent
      (process_events default_config platform (older ∷ newer ∷ broken ∷ []) empty_event_db).events
process_events-one_version_example =
    process_events-one_version default_config platform (older ∷ newer ∷ broken ∷ [])

-- The table with the older version.
abbrev older_row : EventRow
older_row = record { event = older; tag_d = none }

abbrev one_db : EventDb
one_db = record empty_event_db { events = older_row ∷ [] }

one-IsConsistent : IsConsistent one_db.events
unfolding changes
one-IsConsistent = record {
  one_row = λ id. ground arith;
  one_version = λ kind pubkey r. ground arith;
}

has_older : first (is_version 0 alice) one_db.events ≡ some older_row
unfolding first
has_older = refl

unknown_broken : is_known "3" one_db ≡ false
unfolding is_known exists
unknown_broken = refl

broken_unbindable : is_unbindable broken ≡ true
unfolding is_unbindable exists column_from
broken_unbindable = refl

process_event-lost_example :
    ((process_event default_config platform broken one_db).0.success ≡ false)
    × (version 0 alice (process_event default_config platform broken one_db).1.events ≡ none)
process_event-lost_example =
    process_event-lost default_config platform broken one_db refl refl unknown_broken older_row
      one-IsConsistent refl broken_unbindable has_older refl

-- An event of a parameterized kind without a 'd' tag.
abbrev loose : Event
loose = event "4" alice 10 30000 []

-- A deletion of the older version by its author.
abbrev deletion : Event
deletion = event "5" alice 40 5 (("e" ∷ "1" ∷ []) ∷ [])

process_event-foreign_example :
    select (is_foreign alice) (process_event default_config platform deletion one_db).1.events
    ≡ select (is_foreign alice) one_db.events
process_event-foreign_example =
    process_event-foreign default_config platform deletion one_db one-IsConsistent refl

owned : is_owner (λ owner. owner == alice) (first (has_id "1") one_db.events) ≡ true
unfolding first
owned = refl

process_event-deletes_example :
    exists (has_id "1") (process_event default_config platform deletion one_db).1.events ≡ false
process_event-deletes_example =
    process_event-deletes default_config platform deletion one_db "1" refl refl
      (unfold exists deleted_event_ids in refl) (unfold deleted_event_ids in omega arith)
      (unfold exists deleted_event_ids in refl) owned refl
