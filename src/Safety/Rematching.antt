-- ===== src/Safety/Rematching.antt =====
-- What a record that is there already does to a later like: the inserts of
-- src/protocols/opendating/services/matcher/service.ts ignore a row that conflicts.
use open_dating.Prelude.{
  ℕ, ◌+◌, String, true, false, some, none, ◌≡◌, ◌≢◌, refl, ◌∙◌, ◌==◌, ◌&&◌, ◌||◌, exists,
  exists-update, exists-eq-false, exists_mono, insert_or_ignore-eq_self, arith,
}
use open_dating.Store.{Db, Intent, Match, matched, revoked, live}
use open_dating.World.{World}
use open_dating.Services.DmPolicy.{allowed, is_open_match_between, decide_members}
use open_dating.Services.Matcher.{
  deterministic_match_id, intent_id, is_intent_of, is_live, record_intent, create_match,
  is_reciprocal, like_effects, revoke_statement, like_expiry_sec,
}
use open_dating.Safety.Matching.{
  intents-like_effects, blocks-like_effects, like_effects-is_reciprocal,
}

-- A revoked like cannot be given again: where the intent of a pair is on record, revoking it and
-- liking once more leaves no active intent under its id.
pub like_effects_of_revoked :
    (w : World) (sender t member target : String) (now : ℕ) (db : Db)
    → exists (λ i. i.id == intent_id w sender t && i.from_member_id == member) db.od_intents ≡ true
    → exists
        (λ i. i.id == intent_id w sender t && i.from_member_id == member && is_live i.state)
        (like_effects w sender t member target
          (revoke_statement (intent_id w sender t) member now db)).1.od_intents
      ≡ false
unfolding revoke_statement record_intent
like_effects_of_revoked w sender t member target now db h =
    let iid = intent_id w sender t in
    let db' = revoke_statement iid member now db in
    let conflict =
      exists_mono (λ i. i.id == iid && i.from_member_id == member)
        (λ i. i.id == iid || is_intent_of member target i) db'.od_intents (λ i k. ground (arith, k))
        (exists-update (λ i. i.id == iid && i.from_member_id == member)
            (λ i. i.id == iid && i.from_member_id == member)
            (λ i. i.id == iid && i.from_member_id == member)
            (λ i. record i { state = revoked; revoked_at = some now }) db.od_intents
            (λ i. ground arith)
          ∙ h) in
    let row : Intent = record {
      id = iid;
      from_member_id = member;
      to_member_id = target;
      state = live;
      created_at = w.now;
      expires_at = w.now + like_expiry_sec;
      revoked_at = none;
    } in
    let same =
      insert_or_ignore-eq_self (λ i. i.id == iid || is_intent_of member target i) row db'.od_intents
        conflict in
    rw (intents-like_effects w sender t member target db', same)
      (exists-update (λ i. i.id == iid && i.from_member_id == member && is_live i.state)
          (λ i. i.id == iid && i.from_member_id == member) (λ _. false)
          (λ i. record i { state = revoked; revoked_at = some now }) db.od_intents
          (λ i. ground arith)
        ∙ exists-eq-false (λ _. false) db.od_intents (λ _. refl))

-- Where the pair has a match that is not active, a like that is returned reports a match, and
-- messages stay forbidden all the same.
pub like_effects_of_closed :
    (w : World) (sender t member target : String) (db : Db)
    → (member == target) ≡ false
    → is_reciprocal member target db ≡ true
    → exists
        (λ m.
          m.match_id == deterministic_match_id w sender t
          || (m.member_a == member && m.member_b == target))
        db.od_matches
      ≡ true
    → exists (is_open_match_between member target) db.od_matches ≡ false
    → ((like_effects w sender t member target db).0 ≡ true)
      × (decide_members member target (like_effects w sender t member target db).1 ≢ allowed)
unfolding decide_members create_match
like_effects_of_closed w sender t member target db h r c n =
    let p = like_effects-is_reciprocal w sender t member target db h in
    let row : Match = record {
      match_id = deterministic_match_id w sender t;
      member_a = member;
      member_b = target;
      state = matched;
      created_at = w.now;
      updated_at = w.now;
    } in
    let e =
      insert_or_ignore-eq_self
        (λ m.
          m.match_id == deterministic_match_id w sender t
          || (m.member_a == member && m.member_b == target))
        row db.od_matches c in
    (p.0 ∙ r, ground (arith, p.1, r, e, n, blocks-like_effects w sender t member target db))
