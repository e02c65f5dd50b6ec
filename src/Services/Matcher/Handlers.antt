-- ===== src/Services/Matcher/Handlers.antt =====
-- `handle` of src/protocols/opendating/services/matcher/service.ts and its three operations.
use open_dating.Prelude.{
  ℕ, String, Bool, Option, none, some, ◌==◌, ◌&&◌, ◌||◌, if◌then◌else◌, List, [], ◌∷◌, select,
  update, changes, order_by, take, map, lookup, ltb, eqb, ok, thrown,
}
use open_dating.Json.{Json, bool, str, num, arr, obj, Fields, end, field, get, whole, of_items}
use open_dating.Store.{Db, revoked, Match}
use open_dating.World.{World, Run, ◌>>=◌, ◌>>◌, return, throw, lift, query, execute}
use open_dating.Membership.Keys.{derive_member_id}
use open_dating.Membership.Members.{ensure_member}
use open_dating.Membership.Profiles.{
  is_truthy, text_of, get_pubkeys_by_member_ids, get_profile_contents_by_member_ids,
}
use open_dating.Protocol.Envelope.{Envelope, create_envelope, create_error_envelope}
use open_dating.Protocol.Validation.{Request}
use open_dating.Services.DmPolicy.{is_open}
use open_dating.Services.Matcher.Effects.{
  target_of, token_of, is_like_limited, consume_grant, is_valid_grant, like_effects, intent_id,
}

abbrev like_error : World → Request → String → String → Envelope
like_error w request code message =
    create_error_envelope w.now (str request.request_id) code message

abbrev pub like_reply : World → Request → String → Bool → Envelope
like_reply w request iid match_created =
    create_envelope w.now "intent.like.result" (str request.request_id) (
      field "intent_id" (str iid)
        (field "match_created" (bool match_created) (field "created_at" (num (whole w.now)) end)))

-- `handleLike` from the quota check on.
unfoldable pub like_with_token :
    World → String → String → Request → String → String → Option String → Db → Envelope × Db
like_with_token w member sender request target_pubkey target token db =
    if is_like_limited member w.now db
    then (like_error w request "rate_limited" "Daily like limit reached", db)
    else if eqb (changes (is_valid_grant member target token w.now) db.od_candidate_grants) 1
    then (let (match_created, db') =
          like_effects w sender target_pubkey member target
            (consume_grant member target token w.now db) in
        (like_reply w request (intent_id w sender target_pubkey) match_created, db'))
    else (
      like_error w request "invalid_candidate_grant" "No valid grant found",
      consume_grant member target token w.now db,
    )

abbrev of_pair : (Db → Envelope × Db) → Run Envelope
of_pair f db = let (e, db') = f db in (ok e, db')

-- `handleLike` from the quota check on, with a grant that cannot be bound.
unfoldable pub like_unbound : World → String → Request → String → Run Envelope
like_unbound w member request error db =
    if is_like_limited member w.now db
    then (ok (like_error w request "rate_limited" "Daily like limit reached"), db)
    else (thrown error, db)

-- `handleLike` from the derivation of the target's id on.
unfoldable pub like_target : World → String → String → Request → Option Json → String → Run Envelope
like_target w member sender request grant target_pubkey = do
  target ← lift (derive_member_id w target_pubkey)
  elim grant [
    | none ↦
        return
          (like_error w request "invalid_candidate_grant" "This profile is no longer available.")
    | some j ↦ elim (token_of j) [
      | ok token ↦ of_pair (like_with_token w member sender request target_pubkey target token)
      | thrown e ↦ like_unbound w member request e
    ]
  ]

abbrev when_true : Option Json → Option Json
when_true j = if is_truthy j then j else none

-- `handleLike` from the comparison with the sender on.
unfoldable pub like_other : World → String → Request → String → String → Run Envelope
like_other w member request sender target_pubkey =
    if target_pubkey == sender
    then return (like_error w request "invalid_envelope" "Invalid target")
    else like_target w member sender request (when_true (get "candidate_grant" request.payload))
        target_pubkey

unfoldable pub handle_like : World → String → Request → String → Run Envelope
handle_like w member request sender = elim (when_true (get "target_pubkey" request.payload)) [
  | none ↦ return (like_error w request "invalid_envelope" "Invalid target")
  | some j ↦ lift (target_of j) >>= like_other w member request sender
]

unfoldable pub revoke_statement : String → String → ℕ → Db → Db
revoke_statement iid member now db = record db {
  od_intents =
      update (λ i. i.id == iid && i.from_member_id == member)
        (λ i. record i { state = revoked; revoked_at = some now }) db.od_intents;
}

unfoldable pub handle_revoke : World → String → Request → String → Run Envelope
handle_revoke w member request sender = do
  let target = text_of w (get "target_pubkey" request.payload)
  execute (revoke_statement (intent_id w sender target) member w.now)
  return (
      create_envelope w.now "intent.revoke.result" (str request.request_id)
        (field "revoked_at" (num (whole w.now)) end))

-- The other member of a match.
abbrev other_member : String → Match → String
other_member member m = if m.member_a == member then m.member_b else m.member_a

abbrev with_profile : Option Json → Fields → Fields
with_profile none fs = fs
with_profile (some content) fs = field "profile" content fs

-- The `flatMap` of `handleMatchList`: a member whose pubkey is not known is left out.
list_entries : String → List (String × String) → List (String × Json) → List Match → List Json
list_entries member pubkeys profiles [] = []
list_entries member pubkeys profiles (m ∷ rows) = elim (lookup (other_member member m) pubkeys) [
  | none ↦ list_entries member pubkeys profiles rows
  | some pubkey ↦
      if pubkey == ""
      then list_entries member pubkeys profiles rows
      else obj (
          field "match_id" (str m.match_id) (
            field "pubkey" (str pubkey) (
              with_profile (lookup (other_member member m) profiles) (
                field "state" (str "active") (field "created_at" (num (whole m.created_at)) end)))))
        ∷ list_entries member pubkeys profiles rows
]

unfoldable pub handle_match_list : World → String → Request → Run Envelope
unfolding list_entries
handle_match_list w member request = do
  rows ← query (λ db. take 50 (
      order_by (λ l m. ltb m.created_at l.created_at)
        (select (λ m. (m.member_a == member || m.member_b == member) && is_open m.state)
          db.od_matches)))
  pubkeys ← get_pubkeys_by_member_ids w (map (other_member member) rows)
  profiles ← get_profile_contents_by_member_ids w (map (other_member member) rows)
  return (
      create_envelope w.now "match.list.result" (str request.request_id)
        (field "matches" (arr (of_items (list_entries member pubkeys profiles rows))) end))

-- The `switch` of `handle`.
abbrev dispatch : World → Request → String → String → Run Envelope
dispatch w request sender member =
    if request.message_type == "intent.like"
    then handle_like w member request sender
    else if request.message_type == "intent.revoke"
    then handle_revoke w member request sender
    else if request.message_type == "match.list"
    then handle_match_list w member request
    else throw "Matcher service does not support the type"

unfoldable pub handle : World → Request → String → Run Envelope
handle w request sender = do
  member ← ensure_member w sender
  dispatch w request sender member.member_id
