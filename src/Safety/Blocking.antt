-- ===== src/Safety/Blocking.antt =====
-- What a block severs: src/protocols/opendating/services/block/service.ts with dm-policy.ts.
use open_dating.Prelude.{
  ℕ, String, true, false, some, ◌≡◌, refl, ap, ◌∙◌, ◌==◌, ◌&&◌, ok, exists, if◌then◌else◌, ◌≢◌,
  exists-insert_or_replace, exists-delete_from, exists-update, exists-eq-false, arith, eq_refl,
}
use open_dating.Text.{is_pubkey}
use open_dating.Store.{Db, Intent, revoked, Match, blocked_a}
use open_dating.World.{World}
use open_dating.Membership.Keys.{derive_member_id}
use open_dating.Protocol.Validation.{Request}
use open_dating.Services.DmPolicy.{
  allowed, blocked, is_block_between, is_match_between, is_open_match_between, decide_members,
  check_direct_message_policy,
}
use open_dating.Services.Block.{
  block_statements, remove_block_statement, create_block, read_target_pubkey, is_intent_between,
  is_grant_between, is_block_of, remove_block,
}
use open_dating.Services.Matcher.{is_live}
use open_dating.Safety.Policy.{check-decide_members, decide_members_comm, ==_comm_false}

-- No match in state 'active' and no intent in state 'active' joins two members, neither holds a
-- grant for the other, and a block stands between them.
pub record IsSevered (a b : String) (db : Db) : Type 0 where
  pub no_match : exists (is_open_match_between a b) db.od_matches ≡ false
  pub no_intent : exists (λ i. is_intent_between a b i && is_live i.state) db.od_intents ≡ false
  pub no_grant : exists (is_grant_between a b) db.od_candidate_grants ≡ false
  pub has_block : exists (is_block_between a b) db.od_blocks ≡ true

close_match :
    (a b : String) (now : ℕ) (m : Match)
    → is_open_match_between a b
        (if is_match_between a b m then record m { state = blocked_a; updated_at = now } else m)
      ≡ false
close_match a b now m = ground arith

revoke_intent :
    (a b : String) (now : ℕ) (i : Intent)
    → (let j : Intent =
          if is_intent_between a b i
          then record i { state = revoked; revoked_at = some now }
          else i in
        is_intent_between a b j && is_live j.state)
      ≡ false
revoke_intent a b now i = ground arith

pub block_statements-IsSevered :
    (a b : String) (now : ℕ) (db : Db) → IsSevered a b (block_statements a b now db)
unfolding block_statements
block_statements-IsSevered a b now db = record {
  no_match =
      exists-update (is_open_match_between a b) (is_match_between a b) (λ _. false)
        (λ m. record m { state = blocked_a; updated_at = now }) db.od_matches (close_match a b now)
      ∙ exists-eq-false (λ _. false) db.od_matches (λ m. refl);
  no_intent =
      exists-update (λ i. is_intent_between a b i && is_live i.state) (is_intent_between a b)
        (λ _. false) (λ i. record i { state = revoked; revoked_at = some now }) db.od_intents
        (revoke_intent a b now)
      ∙ exists-eq-false (λ _. false) db.od_intents (λ m. refl);
  no_grant =
      exists-delete_from (is_grant_between a b) (is_grant_between a b) db.od_candidate_grants
        (λ g h. h);
  has_block =
      exists-insert_or_replace (is_block_between a b) (is_block_of a b)
        (record { blocker_member_id = a; blocked_member_id = b; created_at = now }) db.od_blocks
        (rw (eq_refl a, eq_refl b) refl);
}

decide-IsSevered : (a b : String) (db : Db) → IsSevered a b db → decide_members a b db ≡ blocked
unfolding decide_members
decide-IsSevered a b db s = rw s.has_block refl

-- The request names another member by a valid pubkey, and both pubkeys have member ids.
pub record IsAimed (w : World) (request : Request) (sender t member target : String) : Type 0 where
  pub reads : read_target_pubkey request ≡ some t
  pub other : (t == sender) ≡ false
  pub sender_valid : is_pubkey sender ≡ true
  pub target_valid : is_pubkey t ≡ true
  pub member_derived : derive_member_id w sender ≡ ok member
  pub target_derived : derive_member_id w t ≡ ok target

module _ (w : World) (request : Request) (sender t member target : String) (db : Db)
    (aimed : IsAimed w request sender t member target) where
  create_block-block_statements :
      (create_block w member request sender db).1 ≡ block_statements member target w.now db
  unfolding create_block
  create_block-block_statements =
      rw (aimed.reads, create_block)
        (rw (aimed.other, create_block) (rw (aimed.target_derived, create_block) refl))

  -- After a `block.create` no active match and no active intent joins the two members, neither
  -- holds a grant for the other, and messages are refused as blocked in both directions.
  pub create_block-IsSevered :
      IsSevered member target (create_block w member request sender db).1
      × (check_direct_message_policy w sender (some t) (create_block w member request sender db).1
          ≡ ok blocked)
      × (check_direct_message_policy w t (some sender) (create_block w member request sender db).1
          ≡ ok blocked)
  create_block-IsSevered =
      let after = block_statements member target w.now db in
      let s = block_statements-IsSevered member target w.now db in
      let d = decide-IsSevered member target after s in
      rw create_block-block_statements (
        s,
        check-decide_members w sender t member target after aimed.target_valid
              (==_comm_false t sender aimed.other) aimed.member_derived aimed.target_derived
            ∙ ap ok d,
        check-decide_members w t sender target member after aimed.sender_valid aimed.other
              aimed.target_derived aimed.member_derived
            ∙ ap ok (decide_members_comm target member after ∙ d),
      )

  remove_block-remove_block_statement :
      (d : Db) → (remove_block w member request d).1 ≡ remove_block_statement member target d
  unfolding remove_block
  remove_block-remove_block_statement d = ground arith

  no_match-ne-allowed :
      (d : Db)
      → exists (is_open_match_between member target) d.od_matches ≡ false
      → decide_members member target d ≢ allowed
  unfolding decide_members
  no_match-ne-allowed d h = ground arith

  -- Taking a block back with `block.remove` does not allow messages again, in either direction: the
  -- match that the block closed stays closed.
  pub remove_block-ne-allowed :
      (check_direct_message_policy w sender
          (some t)
          (remove_block w member request (create_block w member request sender db).1).1
        ≢ ok allowed)
      × (check_direct_message_policy w t
            (some sender)
            (remove_block w member request (create_block w member request sender db).1).1
          ≢ ok allowed)
  unfolding remove_block_statement
  remove_block-ne-allowed =
      let after = block_statements member target w.now db in
      let s = block_statements-IsSevered member target w.now db in
      let undone = remove_block_statement member target after in
      let n = no_match-ne-allowed undone s.no_match in
      let there =
        check-decide_members w sender t member target undone aimed.target_valid
          (==_comm_false t sender aimed.other) aimed.member_derived aimed.target_derived in
      let back =
        check-decide_members w t sender target member undone aimed.sender_valid aimed.other
          aimed.target_derived aimed.member_derived in
      rw (create_block-block_statements, remove_block-remove_block_statement, there, back)
        (λ e. n (cc e), λ e. n (decide_members_comm member target undone ∙ cc e))
