-- ===== src/Tests/Members.antt =====
-- Examples of memberships and what is stored of them: storage/d1/membership.ts, services/profile,
-- services/deletion and services/moderation of src/protocols/opendating.
use open_dating.Prelude.{
  ◌↔◌, true, ◌<◌, true, some, [], ◌∷◌, ◌≡◌, ◌≢◌, refl, ok, ◌==◌, ◌&&◌, ◌||◌, All, exists, first,
  length, arith,
}
use open_dating.Json.{str, obj, end, field, get}
use open_dating.Store.{Db, banned, active}
use open_dating.Membership.Keys.{get_data_key}
use open_dating.Membership.Members.{is_member, is_profile}
use open_dating.Membership.Profiles.{
  is_active, sync_statements, get_profile_content, update_profile_content,
}
use open_dating.Membership.Storage.{Restores, get_profile_content-update_profile_content}
use open_dating.Protocol.Envelope.{Envelope}
use open_dating.Protocol.Validation.{Request}
use open_dating.Services.Profile.{handle_resume, handle_visibility_update}
use open_dating.Services.Deletion.{handle}
use open_dating.Services.Moderation.{apply_action, is_moderator}
use open_dating.Safety.Visibility.{
  IsDiscoverable, is_shown, sync_statements-is_shown, handle_resume-active,
  handle_visibility_update-is_shown,
}
use open_dating.Safety.Deletion.{IsErased, handle-IsErased}
use open_dating.Safety.Moderation.{apply_action-ne-ok}
use open_dating.Tests.Fixtures.{
  alice, bob, world, request, alice_id, members_db, granted_db, member, profile,
}

program : Unit {0}
unfolding exists first get get_data_key is_moderator
program = tt

abbrev empty_request : Request
empty_request = request "profile.pause" end

alice_row : first (is_member alice) members_db.od_members ≡ some (member alice active)
unfolding program
alice_row = refl

profile_row : first (is_profile alice) members_db.od_profiles ≡ some (profile alice)
unfolding program
profile_row = refl

sync_statements-is_shown_example :
    (is_shown alice (sync_statements alice 1000000 members_db) ≡ true)
    ↔ ((active ≡ active) × IsDiscoverable (first (is_profile alice) members_db.od_profiles))
sync_statements-is_shown_example =
    sync_statements-is_shown alice 1000000 members_db (member alice active) alice_row

abbrev banned_db : Db
banned_db = record members_db { od_members = member alice banned ∷ [] }

banned_row : first (is_member alice) banned_db.od_members ≡ some (member alice banned)
unfolding program
banned_row = refl

handle_resume-active_example :
    (first (is_member alice) (handle_resume world empty_request alice banned_db).1.od_members
      ≡ some (record (member alice banned) { status = active; updated_at = world.now }))
    × (is_shown alice (handle_resume world empty_request alice banned_db).1 ≡ true)
handle_resume-active_example =
    handle_resume-active world empty_request alice alice banned_db alice_id (member alice banned)
      (profile alice) banned_row profile_row

abbrev hide_request : Request
hide_request = request "visibility.update" (field "visibility" (str "hidden") end)

hide_text : get "visibility" hide_request.payload ≡ some (str "hidden")
unfolding program
hide_text = refl

handle_visibility_update-is_shown_example :
    is_shown alice (handle_visibility_update world hide_request alice members_db).1
    ≡ (is_active active && "hidden" == "discoverable")
handle_visibility_update-is_shown_example =
    handle_visibility_update-is_shown world hide_request alice alice members_db alice_id
      (member alice active) (profile alice) alice_row profile_row "hidden" hide_text

handle-IsErased_example : IsErased alice (handle world empty_request alice granted_db).1
handle-IsErased_example = handle-IsErased world empty_request alice alice granted_db alice_id

abbrev moderated_db : Db
moderated_db = record members_db {
  od_moderators = record { pubkey = alice; role = "moderator" } ∷ [];
}

abbrev ban_request : Request
ban_request = request "moderation.action" (
    field "target_member_id" (str bob)
      (field "action_type" (str "ban") (field "reason" (str "scam") end)))

moderator : is_moderator alice moderated_db ≡ true
unfolding program
moderator = refl

ban : get "action_type" ban_request.payload ≡ some (str "ban")
unfolding program
ban = refl

banning : ("ban" == "suspend" || "ban" == "ban") ≡ true
banning = refl

abbrev reply : Envelope
reply = record {
  protocol = "opendating";
  version = "0.1";
  message_type = "moderation.action.result";
  request_id = str "request-1";
  created_at = 1000000;
  payload = end;
}

apply_action-ne-ok_example : (apply_action world ban_request alice moderated_db).0 ≢ ok reply
apply_action-ne-ok_example =
    apply_action-ne-ok world ban_request alice "ban" moderated_db moderator ban banning reply

data_key : get_data_key world ≡ ok (2 ∷ [])
unfolding program
data_key = refl

restores : Restores world (2 ∷ []) end
restores = record { decrypts = refl; bytes = (omega arith, (omega arith, tt)); parses = refl }

iv_length : length world.profile_iv ≡ 12
iv_length = refl

iv_bytes : All (λ b. b < 256) world.profile_iv
iv_bytes = (
  omega arith,
  (
    omega arith,
    (
      omega arith,
      (
        omega arith,
        (
          omega arith,
          (
            omega arith,
            (
              omega arith,
              (omega arith, (omega arith, (omega arith, (omega arith, (omega arith, tt))))),
            ),
          ),
        ),
      ),
    ),
  ),
)

get_profile_content-update_profile_content_example :
    (get_profile_content world alice (update_profile_content world alice end members_db).1).0
    ≡ ok (some (obj end))
get_profile_content-update_profile_content_example =
    get_profile_content-update_profile_content world alice alice (2 ∷ []) end members_db restores
      alice_id data_key iv_length iv_bytes
