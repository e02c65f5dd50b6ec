-- ===== src/Tests/Blocking.antt =====
-- Examples of blocks, closed matches and the message policy: services/matcher, services/block and
-- services/dm-policy.ts of src/protocols/opendating.
use mathlib.Core.List.{Memᴰ}
use open_dating.Prelude.{
  All, true, false, none, some, [], ◌∷◌, ◌≡◌, ◌≢◌, ◌↔◌, refl, ok, ◌==◌, ◌&&◌, ◌||◌, exists, all,
}
use open_dating.Json.{str, end, field, get}
use open_dating.Text.{is_pubkey, to_lower_case, before}
use open_dating.Crypto.Hex.{bytes_to_hex}
use open_dating.Store.{Db, Match, live, blocked_a}
use open_dating.Protocol.Validation.{Request}
use open_dating.Services.DmPolicy.{allowed, blocked, check_direct_message_policy}
use open_dating.Services.Block.{create_block, remove_block, read_target_pubkey}
use open_dating.Services.Matcher.{is_reciprocal, deterministic_match_id}
use open_dating.Safety.Policy.{IsBlockBetween, IsActiveMatch, check-eq-allowed_iff}
use open_dating.Safety.Blocking.{
  IsSevered, IsAimed, create_block-IsSevered, remove_block-ne-allowed,
}
use open_dating.Tests.Fixtures.{
  alice, bob, world, request, alice_id, bob_id, alice-IsPubkey, bob-IsPubkey, members_db,
}

program : Unit {0}
unfolding before is_pubkey to_lower_case exists all is_reciprocal deterministic_match_id get
    bytes_to_hex read_target_pubkey
program = tt

abbrev pub block_request : Request
block_request = request "block.create" (field "target_pubkey" (str bob) end)

pub block_request-IsAimed : IsAimed world block_request alice bob alice bob
unfolding program
block_request-IsAimed = record {
  reads = refl;
  other = refl;
  sender_valid = alice-IsPubkey;
  target_valid = bob-IsPubkey;
  member_derived = alice_id;
  target_derived = bob_id;
}

-- Bob likes Alice, and their match was closed.
abbrev closed_db : Db
closed_db = record members_db {
  od_intents =
      record {
        id = "1";
        from_member_id = bob;
        to_member_id = alice;
        state = live;
        created_at = 1;
        expires_at = 9000000;
        revoked_at = none;
      }
      ∷ [];
  od_matches =
      record {
        match_id = deterministic_match_id world alice bob;
        member_a = alice;
        member_b = bob;
        state = blocked_a;
        created_at = 1;
        updated_at = 1;
      }
      ∷ [];
}

create_block-IsSevered_example :
    IsSevered alice bob (create_block world alice block_request alice closed_db).1
    × (check_direct_message_policy world alice
          (some bob)
          (create_block world alice block_request alice closed_db).1
        ≡ ok blocked)
    × (check_direct_message_policy world bob
          (some alice)
          (create_block world alice block_request alice closed_db).1
        ≡ ok blocked)
create_block-IsSevered_example =
    create_block-IsSevered world block_request alice bob alice bob closed_db block_request-IsAimed

remove_block-ne-allowed_example :
    (check_direct_message_policy world alice
        (some bob)
        (remove_block world alice block_request
          (create_block world alice block_request alice closed_db).1).1
      ≢ ok allowed)
    × (check_direct_message_policy world bob
          (some alice)
          (remove_block world alice block_request
            (create_block world alice block_request alice closed_db).1).1
        ≢ ok allowed)
remove_block-ne-allowed_example =
    remove_block-ne-allowed world block_request alice bob alice bob closed_db block_request-IsAimed

different : (alice == bob) ≡ false
different = refl

check-eq-allowed_iff_example :
    (check_direct_message_policy world alice (some bob) closed_db ≡ ok allowed) ↔ (
      All (λ k. ¬ IsBlockBetween alice bob k) closed_db.od_blocks
      × ((m : Match) × Memᴰ m closed_db.od_matches × IsActiveMatch alice bob m))
check-eq-allowed_iff_example =
    check-eq-allowed_iff world alice bob alice bob closed_db bob-IsPubkey different alice_id bob_id

closed :
    exists
      (λ m.
        m.match_id == deterministic_match_id world alice bob
        || (m.member_a == alice && m.member_b == bob))
      closed_db.od_matches
    ≡ true
unfolding program
closed = refl
