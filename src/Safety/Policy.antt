-- ===== src/Safety/Policy.antt =====
-- The direct-message policy: src/protocols/opendating/services/dm-policy.ts.
use open_dating.Prelude.{
  All, not-exists_iff, exists_iff, ◌⊎◌, Bool, if◌then◌else◌, String, true, false, some, ◌≡◌, ap,
  ◌↔◌, ◌==◌, ok, exists_congr, arith, eq_iff, Bool-cases, inl, inr,
}
use mathlib.Core.List.{Memᴰ}
use open_dating.Text.{is_pubkey}
use open_dating.Store.{Db, Block, Match, MatchState, matched, unmatched_a, unmatched_b, blocked_a}
use open_dating.World.{World}
use open_dating.Membership.Keys.{derive_member_id}
use open_dating.Services.DmPolicy.{
  allowed, blocked, not_matched, is_open, is_block_between, is_open_match_between, decide_members,
  check_direct_message_policy,
}

is_block_between_comm : (a b : String) (k : Block) → is_block_between a b k ≡ is_block_between b a k
is_block_between_comm a b k = ground arith

is_open_match_between_comm :
    (a b : String) (m : Match) → is_open_match_between a b m ≡ is_open_match_between b a m
is_open_match_between_comm a b m = ground arith

pub decide_members_comm : (a b : String) (db : Db) → decide_members a b db ≡ decide_members b a db
unfolding decide_members
decide_members_comm a b db = ground (
  arith,
  exists_congr (is_block_between a b) (is_block_between b a) db.od_blocks
      (is_block_between_comm a b),
  exists_congr (is_open_match_between a b) (is_open_match_between b a) db.od_matches
      (is_open_match_between_comm a b),
)

-- The decision for two different pubkeys is the one for their member ids.
pub check-decide_members :
    (w : World) (sender recipient sender_id recipient_id : String) (db : Db)
    → is_pubkey recipient ≡ true
    → (sender == recipient) ≡ false
    → derive_member_id w sender ≡ ok sender_id
    → derive_member_id w recipient ≡ ok recipient_id
    → check_direct_message_policy w sender (some recipient) db
      ≡ ok (decide_members sender_id recipient_id db)
unfolding check_direct_message_policy
check-decide_members w sender recipient sender_id recipient_id db p e s r = rw (p, e, s, r)

pub ==_comm_false : (s t : String) → (s == t) ≡ false → (t == s) ≡ false
==_comm_false s t h = ground (arith, eq_iff s t, eq_iff t s)

-- Two members with valid pubkeys get the same decision in both directions.
pub check_comm :
    (w : World) (sender recipient sender_id recipient_id : String) (db : Db)
    → is_pubkey sender ≡ true
    → is_pubkey recipient ≡ true
    → derive_member_id w sender ≡ ok sender_id
    → derive_member_id w recipient ≡ ok recipient_id
    → check_direct_message_policy w sender (some recipient) db
      ≡ check_direct_message_policy w recipient (some sender) db
check_comm w sender recipient sender_id recipient_id db ps pr s r =
    elim (Bool-cases (sender == recipient)) [
      | inl same ↦ rw ((eq_iff sender recipient).0 same)
      | inr other ↦
          rw
            (
              check-decide_members w sender recipient sender_id recipient_id db pr other s r,
              check-decide_members w recipient sender recipient_id sender_id db ps
                  (==_comm_false sender recipient other) r s,
            )
            (ap ok (decide_members_comm sender_id recipient_id db))
    ]

-- A block of one of two members by the other.
abbrev pub IsBlockBetween : String → String → Block → Type 0
IsBlockBetween a b k =
    ((k.blocker_member_id ≡ a) × (k.blocked_member_id ≡ b))
    ⊎ ((k.blocker_member_id ≡ b) × (k.blocked_member_id ≡ a))

-- An active match of two members, whoever of them stands first.
abbrev pub IsActiveMatch : String → String → Match → Type 0
IsActiveMatch a b m =
    (m.state ≡ matched)
    × (((m.member_a ≡ a) × (m.member_b ≡ b)) ⊎ ((m.member_a ≡ b) × (m.member_b ≡ a)))

decides_block : (a b : String) (k : Block) → (is_block_between a b k ≡ true) ↔ IsBlockBetween a b k
decides_block a b k = ground (
  arith,
  eq_iff k.blocker_member_id a,
  eq_iff k.blocked_member_id b,
  eq_iff k.blocker_member_id b,
  eq_iff k.blocked_member_id a,
)

decides_open : (s : MatchState) → (is_open s ≡ true) ↔ (s ≡ matched)
decides_open s = elim s [
  | matched ↦ ground arith
  | unmatched_a ↦ ground arith
  | unmatched_b ↦ ground arith
  | blocked_a ↦ ground arith
]

decides_match :
    (a b : String) (m : Match) → (is_open_match_between a b m ≡ true) ↔ IsActiveMatch a b m
decides_match a b m = ground (
  arith,
  decides_open m.state,
  eq_iff m.member_a a,
  eq_iff m.member_b b,
  eq_iff m.member_a b,
  eq_iff m.member_b a,
)

allowed_iff {ℓ κ} :
    {P : Type ℓ} {Q : Type κ} (b m : Bool)
    → (b ≡ false) ↔ P
    → (m ≡ true) ↔ Q
    → ((ok (if b then blocked else if m then allowed else not_matched)) ≡ ok allowed) ↔ (P × Q)
allowed_iff b m f g = (
  λ e. (f.0 (ground (arith, e)), g.0 (ground (arith, e))),
  λ (p, q). ground (arith, f.1 p, g.1 q),
)

-- A message between two different members is allowed exactly when no row of the blocks names one of
-- them as the blocker and the other as the blocked, in either direction, and some row of the matches
-- in the state 'active' names the two, in either order.
pub check-eq-allowed_iff :
    (w : World) (sender recipient sender_id recipient_id : String) (db : Db)
    → is_pubkey recipient ≡ true
    → (sender == recipient) ≡ false
    → derive_member_id w sender ≡ ok sender_id
    → derive_member_id w recipient ≡ ok recipient_id
    → (check_direct_message_policy w sender (some recipient) db ≡ ok allowed) ↔ (
        All (λ k. ¬ IsBlockBetween sender_id recipient_id k) db.od_blocks
        × ((m : Match) × Memᴰ m db.od_matches × IsActiveMatch sender_id recipient_id m))
unfolding decide_members
check-eq-allowed_iff w sender recipient sender_id recipient_id db p e s r =
    let b =
      not-exists_iff (is_block_between sender_id recipient_id)
        (IsBlockBetween sender_id recipient_id) (decides_block sender_id recipient_id)
        db.od_blocks in
    let m =
      exists_iff (is_open_match_between sender_id recipient_id)
        (IsActiveMatch sender_id recipient_id) (decides_match sender_id recipient_id)
        db.od_matches in
    rw (check-decide_members w sender recipient sender_id recipient_id db p e s r)
      (allowed_iff _ _ b m)
