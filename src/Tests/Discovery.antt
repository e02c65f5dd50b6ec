-- ===== src/Tests/Discovery.antt =====
-- Examples of discovery, profiles and their limits: services/discovery and services/profile of
-- src/protocols/opendating, and src/cloudflare/housekeeper.ts.
use open_dating.Prelude.{
  false, none, some, [], ◌∷◌, ◌≡◌, ◌↔◌, refl, ◌==◌, ◌&&◌, not, All, exists, arith,
}
use open_dating.Json.{str, num, whole, Fields, end, field}
use open_dating.Store.{Db}
use open_dating.Protocol.Validation.{Request}
use open_dating.Transport.Idempotency.{is_request}
use open_dating.Services.Matcher.{is_valid_grant}
use open_dating.Services.Profile.{validate_fields}
use open_dating.Services.Discovery.Preferences.{update_preferences}
use open_dating.Services.Discovery.Grants.{Viewer, generate_grants}
use open_dating.Housekeeper.{Housekeeper, run_housekeeper_tick, is_expired_request}
use open_dating.Safety.Candidates.{IsPage, generate_grants-IsPage}
use open_dating.Safety.Seen.{generate_grants_once}
use open_dating.Safety.Preferences.{HasRange, update_preferences-HasRange}
use open_dating.Safety.Adults.{IsAcceptable, validate_fields-eq-none_iff}
use open_dating.Safety.Maintenance.{run_housekeeper_tick-keeps}
use open_dating.Tests.Fixtures.{alice, bob, world, request, members_db, granted_db, index_row}

abbrev viewer : Viewer
viewer = record {
  row = index_row alice;
  prefs = record {
    age_min = 18;
    age_max = 99;
    max_distance_km = 100;
    genders = none;
    intent = none;
  };
}

generate_grants-IsPage_example :
    IsPage alice viewer.prefs 1000000 members_db 5
      (generate_grants world alice viewer 5 1000000 members_db).0
generate_grants-IsPage_example = generate_grants-IsPage world alice viewer 5 1000000 members_db

abbrev after : Db
after = (generate_grants world alice viewer 5 1000000 members_db).1

generate_grants_once_example :
    All
      (λ g.
        exists
          (λ h. h.candidate_id == g.candidate_id)
          (generate_grants world alice viewer 9 2000000 after).0
        ≡ false)
      (generate_grants world alice viewer 5 1000000 members_db).0
generate_grants_once_example =
    generate_grants_once world alice viewer viewer 5 9 1000000 2000000 members_db after refl

abbrev prefs_db : Db
prefs_db = record members_db {
  od_discovery_prefs =
      record {
        member_id = alice;
        age_min = 20;
        age_max = 40;
        max_distance_km = 10;
        genders = none;
        intent = none;
        updated_at = 1;
      }
      ∷ [];
}

abbrev prefs_request : Request
prefs_request =
    request "discovery.update_preferences"
      (field "min_age" (num (whole 15)) (field "max_age" (num (whole 200)) end))

stored_range : All HasRange prefs_db.od_discovery_prefs
stored_range = ((omega arith, omega arith, omega arith), tt)

update_preferences-HasRange_example :
    All HasRange (update_preferences world alice alice prefs_request prefs_db).1.od_discovery_prefs
update_preferences-HasRange_example =
    update_preferences-HasRange world alice alice prefs_request prefs_db stored_range

abbrev minor : Fields
minor = field "display_name" (str "Kim") (field "age" (num (whole 17)) end)

validate_fields-eq-none_iff_example : (validate_fields minor ≡ none) ↔ IsAcceptable minor
validate_fields-eq-none_iff_example = validate_fields-eq-none_iff minor

abbrev housekeeper : Housekeeper
housekeeper = record { last_maintenance_at = 0; db = granted_db }

run_housekeeper_tick-keeps_example :
    (exists
        (is_valid_grant alice bob (some "token") 1000)
        (run_housekeeper_tick 1000000 1000 housekeeper).1.db.od_candidate_grants
      ≡ exists (is_valid_grant alice bob (some "token") 1000) housekeeper.db.od_candidate_grants)
    × (exists
          (λ r. is_request "s" alice "request-1" r && not (is_expired_request 1000 r))
          (run_housekeeper_tick 1000000 1000 housekeeper).1.db.od_idempotency
        ≡ exists
            (λ r. is_request "s" alice "request-1" r && not (is_expired_request 1000 r))
            housekeeper.db.od_idempotency)
run_housekeeper_tick-keeps_example =
    run_housekeeper_tick-keeps 1000000 1000 housekeeper alice bob "s" alice "request-1"
      (some "token")
