-- ===== src/Tests/Matching.antt =====
-- Examples of likes, matches and blocks: src/protocols/opendating/services/matcher and block.
use mathlib.Core.List.{Memᴰ}
use open_dating.Prelude.{
  All, ◌⊎◌, true, false, none, [], ◌∷◌, ◌≡◌, refl, ok, ◌==◌, ◌&&◌, if◌then◌else◌, exists, first,
  lookup, arith,
}
use open_dating.Json.{str, end, field, get}
use open_dating.Text.{is_pubkey}
use open_dating.Crypto.Hex.{bytes_to_hex}
use open_dating.Store.{Db, Intent, Match, live}
use open_dating.Protocol.Validation.{Request}
use open_dating.Services.DmPolicy.{allowed, decide_members}
use open_dating.Services.Block.{read_target_pubkey}
use open_dating.Services.Matcher.{
  is_like_limited, handle_like, like_effects, is_reciprocal, intent_id, deterministic_match_id,
  create_match, revoke_statement, is_live,
}
use open_dating.Safety.Likes.{IsLike, refusal, limit_reply, at_time, handle_like_once}
use open_dating.Safety.Matching.{
  IsFresh, IsActiveLike, IsMatchOf, notified, like_effects-private, like_effects-allowed,
}
use open_dating.Safety.Rematching.{like_effects_of_revoked}
use open_dating.Tests.Fixtures.{alice, bob, world, request, bob_id, members_db, granted_db}

program : Unit {0}
unfolding is_pubkey exists first lookup is_like_limited is_reciprocal intent_id
    deterministic_match_id get bytes_to_hex read_target_pubkey
program = tt

abbrev like_request : Request
like_request =
    request "intent.like"
      (field "target_pubkey" (str bob) (field "candidate_grant" (str "token") end))

like_request-IsLike : IsLike world like_request alice bob "token" bob
unfolding program
like_request-IsLike = record {
  reads_target = refl;
  reads_grant = refl;
  has_target = refl;
  has_grant = refl;
  other = refl;
  derived = bob_id;
}

admitted : is_like_limited alice world.now granted_db ≡ false
unfolding program
admitted = refl

handle_like_once_example :
    handle_like
      (at_time 1000001 world)
      alice
      like_request
      alice
      (handle_like world alice like_request alice granted_db).1
    ≡ (
      ok (
          if is_like_limited alice 1000001 (handle_like world alice like_request alice granted_db).1
          then limit_reply (at_time 1000001 world) like_request
          else refusal (at_time 1000001 world) like_request),
      (handle_like world alice like_request alice granted_db).1,
    )
handle_like_once_example =
    handle_like_once world like_request alice bob "token" alice bob granted_db like_request-IsLike
      admitted 1000001 (omega arith)

different : (alice == bob) ≡ false
different = refl

different' : (bob == alice) ≡ false
different' = refl

like_effects-private_example :
    (All (λ i. ¬ IsActiveLike bob alice i) granted_db.od_intents
      × ((like_effects world alice bob alice bob granted_db).0 ≡ false)
      × ((like_effects world alice bob alice bob granted_db).1.od_matches ≡ granted_db.od_matches)
      × ((like_effects world alice bob alice bob granted_db).1.od_match_notifications
          ≡ granted_db.od_match_notifications))
    ⊎ (((i : Intent) × Memᴰ i granted_db.od_intents × IsActiveLike bob alice i)
        × ((like_effects world alice bob alice bob granted_db).0 ≡ true)
        × ((like_effects world alice bob alice bob granted_db).1.od_matches
            ≡ (create_match world
                (deterministic_match_id world alice bob)
                alice
                bob
                granted_db).od_matches)
        × ((like_effects world alice bob alice bob granted_db).1.od_match_notifications
            ≡ notified world alice bob alice bob granted_db)
        × ((m : Match) × Memᴰ m (like_effects world alice bob alice bob granted_db).1.od_matches
            × IsMatchOf (deterministic_match_id world alice bob) alice bob m))
like_effects-private_example = like_effects-private world alice bob alice bob granted_db different

fresh : IsFresh world (at_time 1000009 world) alice bob alice bob granted_db
unfolding program
fresh = record { not_liked = refl; not_returned = refl; not_matched = refl; not_blocked = refl }

like_effects-allowed_example :
    ((like_effects
        (at_time 1000009 world)
        bob
        alice
        bob
        alice
        (like_effects world alice bob alice bob granted_db).1).0
      ≡ true)
    × (decide_members alice bob
          (like_effects
            (at_time 1000009 world)
            bob
            alice
            bob
            alice
            (like_effects world alice bob alice bob granted_db).1).1
        ≡ allowed)
like_effects-allowed_example =
    like_effects-allowed world (at_time 1000009 world) alice bob alice bob granted_db different
      different' fresh

abbrev liked_db : Db
liked_db = record members_db {
  od_intents =
      record {
        id = intent_id world alice bob;
        from_member_id = alice;
        to_member_id = bob;
        state = live;
        created_at = 1;
        expires_at = 9000000;
        revoked_at = none;
      }
      ∷ [];
}

liked :
    exists (λ i. i.id == intent_id world alice bob && i.from_member_id == alice) liked_db.od_intents
    ≡ true
unfolding program
liked = refl

like_effects_of_revoked_example :
    exists
      (λ i. i.id == intent_id world alice bob && i.from_member_id == alice && is_live i.state)
      (like_effects world alice bob alice bob
        (revoke_statement (intent_id world alice bob) alice 1000000 liked_db)).1.od_intents
    ≡ false
like_effects_of_revoked_example =
    like_effects_of_revoked world alice bob alice bob 1000000 liked_db liked
