-- ===== src/Services/Block.antt =====
-- Blocking and unmatching: src/protocols/opendating/services/block/service.ts.
use open_dating.Prelude.{
  ℕ, String, Bool, Option, none, some, ◌==◌, ◌&&◌, ◌||◌, if◌then◌else◌, List, [], ◌∷◌, delete_from,
  update, insert_or_replace, changes, select, order_by, ltb, eqb, map, lookup,
}
use open_dating.Json.{Json, str, num, arr, obj, end, field, get, as_string, whole, of_items}
use open_dating.Text.{is_pubkey, to_lower_case}
use open_dating.Store
use open_dating.Store.{Db, Intent, revoked, Match, unmatched_a, unmatched_b, blocked_a, Grant}
use open_dating.World.{World, Run, ◌>>=◌, ◌>>◌, return, throw, lift, query, execute}
use open_dating.Membership.Keys.{derive_member_id}
use open_dating.Membership.Members.{ensure_member}
use open_dating.Membership.Profiles.{get_pubkeys_by_member_ids}
use open_dating.Protocol.Envelope.{Envelope, create_envelope, create_error_envelope}
use open_dating.Protocol.Validation.{Request}
use open_dating.Services.DmPolicy.{is_match_between, is_open}

-- `readTargetPubkey`.
abbrev target_text : Option String → Option String
target_text none = none
target_text (some target) = if is_pubkey target then some (to_lower_case target) else none

unfoldable pub read_target_pubkey : Request → Option String
read_target_pubkey request = target_text (as_string (get "target_pubkey" request.payload))

abbrev pub is_intent_between : String → String → Intent → Bool
is_intent_between a b i =
    (i.from_member_id == a && i.to_member_id == b) || (i.from_member_id == b && i.to_member_id == a)

abbrev pub is_grant_between : String → String → Grant → Bool
is_grant_between a b g =
    (g.viewer_id == a && g.candidate_id == b) || (g.viewer_id == b && g.candidate_id == a)

abbrev pub is_block_of : String → String → Store.Block → Bool
is_block_of blocker target k = k.blocker_member_id == blocker && k.blocked_member_id == target

-- The four statements of `createBlock`.
unfoldable pub block_statements : String → String → ℕ → Db → Db
block_statements member target now db = record db {
  od_blocks =
      insert_or_replace (is_block_of member target)
        (record { blocker_member_id = member; blocked_member_id = target; created_at = now })
        db.od_blocks;
  od_matches =
      update (is_match_between member target)
        (λ m. record m { state = blocked_a; updated_at = now }) db.od_matches;
  od_intents =
      update (is_intent_between member target)
        (λ i. record i { state = revoked; revoked_at = some now }) db.od_intents;
  od_candidate_grants = delete_from (is_grant_between member target) db.od_candidate_grants;
}

unfoldable pub remove_block_statement : String → String → Db → Db
remove_block_statement member target db = record db {
  od_blocks = delete_from (is_block_of member target) db.od_blocks;
}

abbrev is_open_match_of : String → String → Match → Bool
is_open_match_of a b m = m.member_a == a && m.member_b == b && is_open m.state

-- The two updates of `createUnmatch`: the second runs only if the first changes no row.
unfoldable pub unmatch_statements : String → String → ℕ → Db → Db
unmatch_statements member target now db =
    if eqb (changes (is_open_match_of member target) db.od_matches) 0
    then record db {
      od_matches =
          update (is_open_match_of target member)
            (λ m. record m { state = unmatched_b; updated_at = now }) db.od_matches;
    }
    else record db {
      od_matches =
          update (is_open_match_of member target)
            (λ m. record m { state = unmatched_a; updated_at = now }) db.od_matches;
    }

abbrev invalid_target : World → Request → Envelope
invalid_target w request =
    create_error_envelope w.now (str request.request_id) "invalid_envelope" "Invalid target_pubkey"

-- A reply that carries one time.
abbrev time_reply : World → Request → String → String → Envelope
time_reply w request message_type name =
    create_envelope w.now message_type (str request.request_id) (field name (num (whole w.now)) end)

unfoldable pub remove_block : World → String → Request → Run Envelope
remove_block w member request = elim (read_target_pubkey request) [
  | none ↦ return (invalid_target w request)
  | some target_pubkey ↦ do
    target ← lift (derive_member_id w target_pubkey)
    execute (remove_block_statement member target)
    return (time_reply w request "block.remove.result" "removed_at")
]

unfoldable pub create_block : World → String → Request → String → Run Envelope
create_block w member request sender = elim (read_target_pubkey request) [
  | none ↦ return (invalid_target w request)
  | some target_pubkey ↦ if target_pubkey == sender then return (invalid_target w request) else do
    target ← lift (derive_member_id w target_pubkey)
    execute (block_statements member target w.now)
    return (time_reply w request "block.create.result" "blocked_at")
]

unfoldable pub create_unmatch : World → String → Request → String → Run Envelope
create_unmatch w member request sender = elim (read_target_pubkey request) [
  | none ↦ return (invalid_target w request)
  | some target_pubkey ↦ if target_pubkey == sender then return (invalid_target w request) else do
    target ← lift (derive_member_id w target_pubkey)
    execute (unmatch_statements member target w.now)
    return (time_reply w request "unmatch.create.result" "unmatched_at")
]

-- The `flatMap` of `listBlocks`: a member whose pubkey is not known is left out.
list_entries : List (String × String) → List Store.Block → List Json
list_entries pubkeys [] = []
list_entries pubkeys (k ∷ rows) = elim (lookup k.blocked_member_id pubkeys) [
  | none ↦ list_entries pubkeys rows
  | some pubkey ↦
      if pubkey == ""
      then list_entries pubkeys rows
      else obj
          (field "target_pubkey" (str pubkey) (field "created_at" (num (whole k.created_at)) end))
        ∷ list_entries pubkeys rows
]

unfoldable pub list_blocks : World → String → Request → Run Envelope
unfolding list_entries
list_blocks w member request = do
  rows ← query (λ db.
      order_by (λ j k. ltb k.created_at j.created_at)
        (select (λ (k : Store.Block). k.blocker_member_id == member) db.od_blocks))
  pubkeys ← get_pubkeys_by_member_ids w (map (λ (k : Store.Block). k.blocked_member_id) rows)
  return (
      create_envelope w.now "block.list.result" (str request.request_id)
        (field "blocks" (arr (of_items (list_entries pubkeys rows))) end))

-- The `switch` of `handle`.
abbrev dispatch : World → Request → String → String → Run Envelope
dispatch w request sender member =
    if request.message_type == "block.create"
    then create_block w member request sender
    else if request.message_type == "block.remove"
    then remove_block w member request
    else if request.message_type == "block.list"
    then list_blocks w member request
    else if request.message_type == "unmatch.create"
    then create_unmatch w member request sender
    else throw "Block service does not support the type"

unfoldable pub handle : World → Request → String → Run Envelope
handle w request sender = do
  member ← ensure_member w sender
  dispatch w request sender member.member_id
