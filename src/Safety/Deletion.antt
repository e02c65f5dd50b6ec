-- ===== src/Safety/Deletion.antt =====
-- What an account deletion takes away and what it leaves:
-- src/protocols/opendating/services/deletion/service.ts.
use mathlib.Core.Option
use open_dating.Prelude.{
  ℕ, String, false, Option, some, none, ◌≡◌, refl, ap, ◌∙◌, ◌==◌, ◌&&◌, ok, exists, first,
  first-update, exists-update, exists-eq-false, exists-delete_from, arith,
}
use open_dating.Store.{Db, Profile, deleted, revoked, unmatched_a}
use open_dating.World.{World}
use open_dating.Membership.Keys.{derive_member_id}
use open_dating.Membership.Members.{is_member, is_profile, is_index_row, delete_statements}
use open_dating.Membership.Profiles.{is_active, content_of, get_profile_content_by_member_id}
use open_dating.Protocol.Validation.{Request}
use open_dating.Services.DmPolicy.{is_open}
use open_dating.Services.Matcher.{is_live}
use open_dating.Services.Deletion.{
  is_match_of, is_block_with, is_grant_with, erase_statements, handle, request_hash_of,
}
use open_dating.Safety.Visibility.{is_shown}

-- No active membership, no row in the index that is shown, no active match, no active like of the
-- member's own, no block and no grant.
pub record IsErased (id : String) (db : Db) : Type 0 where
  pub not_active : exists (λ m. is_member id m && is_active m.status) db.od_members ≡ false
  pub not_shown : is_shown id db ≡ false
  pub no_match : exists (λ m. is_match_of id m && is_open m.state) db.od_matches ≡ false
  pub no_like : exists (λ i. i.from_member_id == id && is_live i.state) db.od_intents ≡ false
  pub no_block : exists (is_block_with id) db.od_blocks ≡ false
  pub no_grant : exists (is_grant_with id) db.od_candidate_grants ≡ false

erase-IsErased :
    (id hash : String) (now : ℕ) (db : Db)
    → IsErased id (erase_statements id hash now (delete_statements now id db))
unfolding erase_statements delete_statements
erase-IsErased id hash now db = record {
  not_active =
      exists-update (λ m. is_member id m && is_active m.status) (is_member id) (λ _. false)
        (λ m. record m { status = deleted; updated_at = now }) db.od_members (λ m. ground arith)
      ∙ exists-eq-false (λ _. false) db.od_members (λ _. refl);
  not_shown =
      exists-update (λ r. is_index_row id r && r.visible) (is_index_row id) (λ _. false)
        (λ r. record r { visible = false; updated_at = now }) db.od_discovery_index
        (λ r. ground arith)
      ∙ exists-eq-false (λ _. false) db.od_discovery_index (λ _. refl);
  no_match =
      exists-update (λ m. is_match_of id m && is_open m.state)
        (λ m. is_match_of id m && is_open m.state) (λ _. false)
        (λ m. record m { state = unmatched_a; updated_at = now }) db.od_matches (λ m. ground arith)
      ∙ exists-eq-false (λ _. false) db.od_matches (λ _. refl);
  no_like =
      exists-update (λ i. i.from_member_id == id && is_live i.state) (λ i. i.from_member_id == id)
        (λ _. false) (λ i. record i { state = revoked; revoked_at = some now }) db.od_intents
        (λ i. ground arith)
      ∙ exists-eq-false (λ _. false) db.od_intents (λ _. refl);
  no_block = exists-delete_from (is_block_with id) (is_block_with id) db.od_blocks (λ k h. h);
  no_grant =
      exists-delete_from (is_grant_with id) (is_grant_with id) db.od_candidate_grants (λ g h. h);
}

-- After an `account.delete` the sender is not active and not shown, and has no active match, no
-- active like of their own, no block and no grant in either direction.
pub handle-IsErased :
    (w : World) (request : Request) (sender id : String) (db : Db)
    → derive_member_id w sender ≡ ok id
    → IsErased id (handle w request sender db).1
unfolding handle
handle-IsErased w request sender id db h =
    rw (h, handle) (erase-IsErased id (request_hash_of w sender) w.now db)

content-kept :
    (w : World) (id visibility : String) (now : ℕ) (p : Option Profile)
    → content_of w (
        Option.map
          (λ (p : Profile). record p { visibility_state = visibility; updated_at = now })
          p)
      ≡ content_of w p
content-kept w id visibility now none = refl
content-kept w id visibility now (some p) = refl

-- The content of the sender's profile survives an `account.delete`: what is read under the member's
-- id is the same as before.
pub handle-get_profile_content_by_member_id :
    (w : World) (request : Request) (sender id : String) (db : Db)
    → derive_member_id w sender ≡ ok id
    → get_profile_content_by_member_id w id (handle w request sender db).1
      ≡ get_profile_content_by_member_id w id db
unfolding handle delete_statements erase_statements get_profile_content_by_member_id
handle-get_profile_content_by_member_id w request sender id db h =
    rw (h, handle)
      (ap (content_of w) (
          first-update (is_profile id)
            (λ p. record p { visibility_state = "hidden"; updated_at = w.now }) db.od_profiles
            (λ x k. k))
        ∙ content-kept w id "hidden" w.now (first (is_profile id) db.od_profiles))
