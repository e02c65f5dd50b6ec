-- ===== src/Services/DmPolicy.antt =====
-- Who may write to whom: src/protocols/opendating/services/dm-policy.ts.
use open_dating.Prelude.{
  String, Bool, true, false, Option, none, some, ◌==◌, ◌&&◌, ◌||◌, if◌then◌else◌, Result, ok,
  thrown, exists,
}
use open_dating.Text.{is_pubkey}
use open_dating.Store.{Db, Block, Match, MatchState, matched, unmatched_a, unmatched_b, blocked_a}
use open_dating.World.{World}
use open_dating.Membership.Keys.{derive_member_id}

-- `DirectMessageDecision`.
pub data Decision : Type 0 where
  allowed blocked not_matched invalid_recipient : Decision

-- The condition on `od_blocks`, in either direction.
abbrev pub is_block_between : String → String → Block → Bool
is_block_between a b k =
    (k.blocker_member_id == a && k.blocked_member_id == b)
    || (k.blocker_member_id == b && k.blocked_member_id == a)

abbrev pub is_match_between : String → String → Match → Bool
is_match_between a b m =
    (m.member_a == a && m.member_b == b) || (m.member_a == b && m.member_b == a)

-- `state = 'active'`.
abbrev pub is_open : MatchState → Bool
is_open matched = true
is_open unmatched_a = false
is_open unmatched_b = false
is_open blocked_a = false

abbrev pub is_open_match_between : String → String → Match → Bool
is_open_match_between a b m = is_open m.state && is_match_between a b m

-- The query and what is made of its row, for two member ids.
unfoldable pub decide_members : String → String → Db → Decision
decide_members sender recipient db =
    if exists (is_block_between sender recipient) db.od_blocks
    then blocked
    else if exists (is_open_match_between sender recipient) db.od_matches
    then allowed
    else not_matched

-- The part behind the check of the recipient.
unfoldable pub decide_pubkeys : World → String → String → Db → Result Decision
decide_pubkeys w sender recipient db =
    if sender == recipient then ok allowed else elim (derive_member_id w sender) [
      | thrown e ↦ thrown e
      | ok sender_id ↦ elim (derive_member_id w recipient) [
        | thrown e ↦ thrown e
        | ok recipient_id ↦ ok (decide_members sender_id recipient_id db)
      ]
    ]

unfoldable pub check_direct_message_policy : World → String → Option String → Db → Result Decision
unfolding decide_pubkeys
check_direct_message_policy w sender none db = ok invalid_recipient
check_direct_message_policy w sender (some recipient) db =
    if is_pubkey recipient then decide_pubkeys w sender recipient db else ok invalid_recipient
