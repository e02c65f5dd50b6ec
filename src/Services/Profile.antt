-- ===== src/Services/Profile.antt =====
-- Profiles: src/protocols/opendating/services/profile/service.ts. A message that interpolates a
-- value holds the value of the constant.
use open_dating.Prelude.{
  ℕ, String, Bool, true, false, Option, none, some, ◌==◌, not, leb, ltb, eqb, if◌then◌else◌, length,
  ◌⊎◌, inl, inr,
}
use open_dating.Json.{
  Json, null, bool, num, str, arr, obj, Fields, end, field, get, as_string, whole, items, Number,
  is_integer, is_below, exceeds,
}
use open_dating.Text.{length_of, trim}
use open_dating.Store.{
  MemberState, Profile, onboarding, active, paused, limited, quarantined, suspended, banned,
  deleted,
}
use open_dating.World.{World, Run, ◌>>=◌, ◌>>◌, return, throw, lift, bind_text}
use open_dating.Membership.Members.{
  MemberRecord, get_member, ensure_member, pause_member, resume_member, delete_member,
  set_visibility,
}
use open_dating.Membership.Profiles.{
  profile_completeness, get_profile, update_profile_content, get_profile_content,
  sync_discovery_index,
}
use open_dating.Protocol.Envelope.{Envelope, create_envelope, create_error_envelope}
use open_dating.Protocol.Validation.{Request}

-- `p.name === undefined`, or an array of at most `n` items.
abbrev pub is_short_array : ℕ → Option Json → Bool
is_short_array n none = true
is_short_array n (some (arr js)) = leb (length (items js)) n
is_short_array n (some null) = false
is_short_array n (some (bool b)) = false
is_short_array n (some (num m)) = false
is_short_array n (some (str s)) = false
is_short_array n (some (obj fs)) = false

abbrev pub check_number : Number → Option String
check_number n =
    if not (is_integer n)
    then some "age must be a whole number"
    else if is_below n 18
    then some "age must be at least 18"
    else if exceeds n 120
    then some "age must be 120 or under"
    else none

-- The block `if (p.age !== undefined)`.
abbrev pub check_age : Option Json → Option String
check_age none = none
check_age (some (num n)) = check_number n
check_age (some null) = some "age must be a whole number"
check_age (some (bool b)) = some "age must be a whole number"
check_age (some (str s)) = some "age must be a whole number"
check_age (some (arr js)) = some "age must be a whole number"
check_age (some (obj fs)) = some "age must be a whole number"

abbrev pub name_of : Option String → String
name_of none = ""
name_of (some s) = trim s

abbrev pub is_long_text : ℕ → Option String → Bool
is_long_text n none = false
is_long_text n (some s) = ltb n (length_of s)

abbrev pub check_lists : Fields → Option String
check_lists p =
    if is_long_text 2000 (as_string (get "bio" p))
    then some "bio must be 2000 characters or fewer"
    else if not (is_short_array 30 (get "interests" p))
    then some "interests must be an array of at most 30 items"
    else if not (is_short_array 9 (get "photos" p))
    then some "photos must be an array of at most 9 items"
    else none

-- `validateProfileContent` on an object; none is its `null`.
unfoldable pub validate_fields : Fields → Option String
validate_fields p =
    let name = name_of (as_string (get "display_name" p)) in
    if eqb (length_of name) 0
    then some "display_name is required"
    else if ltb 80 (length_of name)
    then some "display_name must be 80 characters or fewer"
    else elim (check_age (get "age" p)) [ some message ↦ some message | none ↦ check_lists p ]

-- A message, or the fields of an acceptable profile.
unfoldable pub validate_profile_content : Json → String ⊎ Fields
unfolding validate_fields
validate_profile_content null = inl "profile must be an object"
validate_profile_content (bool b) = inl "profile must be an object"
validate_profile_content (num n) = inl "profile must be an object"
validate_profile_content (str s) = inl "profile must be an object"
validate_profile_content (arr js) = inl "profile must be an object"
validate_profile_content (obj p) = elim (validate_fields p) [
  | some message ↦ inl message
  | none ↦ inr p
]

-- A status as the text that the database and the reply hold.
abbrev status_text : MemberState → String
status_text onboarding = "onboarding"
status_text active = "active"
status_text paused = "paused"
status_text limited = "limited"
status_text quarantined = "quarantined"
status_text suspended = "suspended"
status_text banned = "banned"
status_text deleted = "deleted"

unfoldable pub handle_create : World → Request → String → Run Envelope
handle_create w request sender = do
  member ← ensure_member w sender
  return (
      create_envelope w.now "profile.create.result" (str request.request_id) (
        field "member_id" (str member.member_id) (
          field "status" (str (status_text member.status))
            (field "created_at" (num (whole member.created_at)) end))))

abbrev pub time_reply : World → Request → String → String → Envelope
time_reply w request message_type name =
    create_envelope w.now message_type (str request.request_id) (field name (num (whole w.now)) end)

-- The part of `handleUpdate` behind the test for `undefined`.
unfoldable pub store_profile : World → Request → String → Json → Run Envelope
store_profile w request sender profile = elim (validate_profile_content profile) [
  | inl invalid ↦
      return (create_error_envelope w.now (str request.request_id) "invalid_profile" invalid)
  | inr content ↦ do
    update_profile_content w sender content
    sync_discovery_index w sender
    return (
        create_envelope w.now "profile.update.result" (str request.request_id) (
          field "completeness" (num (whole (profile_completeness w content)))
            (field "updated_at" (num (whole w.now)) end)))
]

unfoldable pub handle_update : World → Request → String → Run Envelope
handle_update w request sender = do
  _ ← ensure_member w sender
  elim (get "profile" request.payload) [
    | none ↦ return (time_reply w request "profile.update.result" "updated_at")
    | some profile ↦ store_profile w request sender profile
  ]

abbrev visibility_of : Option Profile → String
visibility_of none = "hidden"
visibility_of (some p) = if p.visibility_state == "" then "hidden" else p.visibility_state

abbrev completeness_of : Option Profile → ℕ
completeness_of none = 0
completeness_of (some p) = p.completeness

abbrev or_null : Option Json → Json
or_null none = null
or_null (some j) = j

unfoldable pub show_profile : World → Request → String → MemberRecord → Run Envelope
show_profile w request sender member = do
  profile ← get_profile w sender
  content ← get_profile_content w sender
  return (
      create_envelope w.now "profile.get.result" (str request.request_id) (
        field "member_id" (str member.member_id) (
          field "status" (str (status_text member.status)) (
            field "trust_tier" (num (whole member.trust_tier)) (
              field "profile" (or_null content) (
                field "visibility" (str (visibility_of profile)) (
                  field "completeness" (num (whole (completeness_of profile))) (
                    field "created_at" (num (whole member.created_at))
                      (field "updated_at" (num (whole member.updated_at)) end)))))))))

unfoldable pub handle_get : World → Request → String → Run Envelope
handle_get w request sender = do
  member ← get_member w sender
  elim member [
    | none ↦
        return (create_error_envelope w.now (str request.request_id) "unauthorized" "No membership")
    | some m ↦ show_profile w request sender m
  ]

unfoldable pub handle_pause : World → Request → String → Run Envelope
handle_pause w request sender = do
  pause_member w sender
  sync_discovery_index w sender
  return (time_reply w request "profile.pause.result" "paused_at")

unfoldable pub handle_resume : World → Request → String → Run Envelope
handle_resume w request sender = do
  resume_member w sender
  sync_discovery_index w sender
  return (time_reply w request "profile.resume.result" "resumed_at")

unfoldable pub handle_delete : World → Request → String → Run Envelope
handle_delete w request sender = do
  delete_member w sender
  return (time_reply w request "profile.delete.result" "deleted_at")

unfoldable pub handle_visibility_update : World → Request → String → Run Envelope
handle_visibility_update w request sender = do
  visibility ← lift (bind_text w (get "visibility" request.payload))
  set_visibility w sender visibility
  sync_discovery_index w sender
  return (time_reply w request "visibility.update.result" "updated_at")

unfoldable pub handle : World → Request → String → Run Envelope
handle w request sender =
    if request.message_type == "profile.create"
    then handle_create w request sender
    else if request.message_type == "profile.update"
    then handle_update w request sender
    else if request.message_type == "profile.get"
    then handle_get w request sender
    else if request.message_type == "profile.pause"
    then handle_pause w request sender
    else if request.message_type == "profile.resume"
    then handle_resume w request sender
    else if request.message_type == "profile.delete"
    then handle_delete w request sender
    else if request.message_type == "visibility.update"
    then handle_visibility_update w request sender
    else throw "Profile service: unsupported type"
