-- ===== src/Safety/Matching.antt =====
-- How likes become matches: src/protocols/opendating/services/matcher/service.ts, with the
-- direct-message policy that reads the matches.
use mathlib.Core.List.{Memᴰ}
use open_dating.Prelude.{
  found, none_of_not-exists, All, ◌⊎◌, ◌↔◌, eq_iff, Bool, Bool-cases, inl, inr, insert_or_ignore, ℕ,
  ◌+◌, String, true, false, none, ◌≡◌, ◌∙◌, ◌==◌, ◌&&◌, ◌||◌, exists, if◌then◌else◌,
  exists-insert_or_ignore, arith, eq_refl, List,
}
use open_dating.Text.{before_asymm, before_total}
use open_dating.Store.{Db, Notification, Intent, IntentState, Match, matched, live, revoked}
use open_dating.World.{World}
use open_dating.Services.DmPolicy.{allowed, is_block_between, is_open_match_between, decide_members}
use open_dating.Services.Matcher.{
  like_expiry_sec, deterministic_match_id, intent_id, is_intent_of, is_live_intent_of, is_live,
  record_intent, count_like, create_match, is_reciprocal, like_effects,
}

-- The id of a match does not depend on who liked first.
pub deterministic_match_id_comm :
    (w : World) (a b : String) → deterministic_match_id w a b ≡ deterministic_match_id w b a
unfolding deterministic_match_id
deterministic_match_id_comm w a b =
    ground (arith, before_asymm a b, before_asymm b a, before_total a b)

-- The intents after a like, under any test.
pub intents-like_effects :
    (w : World) (sender t member target : String) (db : Db)
    → (like_effects w sender t member target db).1.od_intents
      ≡ (record_intent (intent_id w sender t) member target w.now db).od_intents
unfolding like_effects create_match count_like
intents-like_effects w sender t member target db = ground arith

-- A like writes an intent from the member to the target, never one the other way.
is_reciprocal-record_intent :
    (iid member target : String) (now : ℕ) (db : Db)
    → (member == target) ≡ false
    → is_reciprocal member target (count_like member now (record_intent iid member target now db))
      ≡ is_reciprocal member target db
unfolding is_reciprocal record_intent count_like
is_reciprocal-record_intent iid member target now db h = ground (
  arith,
  exists-insert_or_ignore (is_live_intent_of target member)
      (λ i. i.id == iid || is_intent_of member target i)
      (record {
        id = iid;
        from_member_id = member;
        to_member_id = target;
        state = live;
        created_at = now;
        expires_at = now + like_expiry_sec;
        revoked_at = none;
      })
      db.od_intents,
)

abbrev pub notified : World → String → String → String → String → Db → List Notification
notified w sender t member target db =
    let db' = create_match w (deterministic_match_id w sender t) member target db in
    db'.od_match_notifications

pub like_effects-is_reciprocal :
    (w : World) (sender t member target : String) (db : Db)
    → (member == target) ≡ false
    → ((like_effects w sender t member target db).0 ≡ is_reciprocal member target db)
      × ((like_effects w sender t member target db).1.od_matches ≡ (
          if is_reciprocal member target db
          then (create_match w (deterministic_match_id w sender t) member target db).od_matches
          else db.od_matches))
      × ((like_effects w sender t member target db).1.od_match_notifications ≡ (
          if is_reciprocal member target db
          then notified w sender t member target db
          else db.od_match_notifications))
unfolding like_effects create_match count_like record_intent
like_effects-is_reciprocal w sender t member target db h =
    let r = is_reciprocal-record_intent (intent_id w sender t) member target w.now db h in
    (ground (arith, r), ground (arith, r), ground (arith, r))

-- A like that is recorded as active.
abbrev pub IsActiveLike : String → String → Intent → Type 0
IsActiveLike from to i = (i.from_member_id ≡ from) × (i.to_member_id ≡ to) × (i.state ≡ live)

decides_live : (s : IntentState) → (is_live s ≡ true) ↔ (s ≡ live)
decides_live s = elim s [ live ↦ ground arith | revoked ↦ ground arith ]

decides_like :
    (from to : String) (i : Intent) → (is_live_intent_of from to i ≡ true) ↔ IsActiveLike from to i
decides_like from to i =
    ground (arith, eq_iff i.from_member_id from, eq_iff i.to_member_id to, decides_live i.state)

-- A match under an id, or of a member with a target in this order.
abbrev pub IsMatchOf : String → String → String → Match → Type 0
IsMatchOf match_id member target m =
    (m.match_id ≡ match_id) ⊎ ((m.member_a ≡ member) × (m.member_b ≡ target))

create_match-matches :
    (w : World) (match_id member target : String) (db : Db)
    → (m : Match) × Memᴰ m (create_match w match_id member target db).od_matches
      × IsMatchOf match_id member target m
unfolding create_match
create_match-matches w match_id member target db =
    let row : Match = record {
      match_id = match_id;
      member_a = member;
      member_b = target;
      state = matched;
      created_at = w.now;
      updated_at = w.now;
    } in
    let key : Match → Bool =
      λ m. m.match_id == match_id || (m.member_a == member && m.member_b == target) in
    found key (IsMatchOf match_id member target)
      (λ m.
        ground
          (arith, eq_iff m.match_id match_id, eq_iff m.member_a member, eq_iff m.member_b target))
      (insert_or_ignore key row db.od_matches)
      (ground (arith, exists-insert_or_ignore key key row db.od_matches, eq_refl match_id))

-- One-way likes are invisible. A like of another member does one of two things. Where no active like
-- of the target for the member is on record, it reports no match and leaves the matches and the
-- notifications as they are. Where one is, it reports a match, the matches and the notifications are
-- those of `create_match`, and a match with the id of the two, or of the member with the target,
-- stands among them.
pub like_effects-private :
    (w : World) (sender t member target : String) (db : Db)
    → (member == target) ≡ false
    → (All (λ i. ¬ IsActiveLike target member i) db.od_intents
        × ((like_effects w sender t member target db).0 ≡ false)
        × ((like_effects w sender t member target db).1.od_matches ≡ db.od_matches)
        × ((like_effects w sender t member target db).1.od_match_notifications
            ≡ db.od_match_notifications))
      ⊎ (((i : Intent) × Memᴰ i db.od_intents × IsActiveLike target member i)
          × ((like_effects w sender t member target db).0 ≡ true)
          × ((like_effects w sender t member target db).1.od_matches
              ≡ (create_match w (deterministic_match_id w sender t) member target db).od_matches)
          × ((like_effects w sender t member target db).1.od_match_notifications
              ≡ notified w sender t member target db)
          × ((m : Match) × Memᴰ m (like_effects w sender t member target db).1.od_matches
              × IsMatchOf (deterministic_match_id w sender t) member target m))
unfolding is_reciprocal
like_effects-private w sender t member target db h =
    let (r, m, n) = like_effects-is_reciprocal w sender t member target db h in
    let likes = is_live_intent_of target member in
    let decides = decides_like target member in
    elim (Bool-cases (is_reciprocal member target db)) [
      | inr k ↦ inl (
        none_of_not-exists likes (IsActiveLike target member) decides db.od_intents k,
        r ∙ k,
        rw k at m,
        rw k at n,
      )
      | inl k ↦
          let m' = rw k at m in
          inr (
            found likes (IsActiveLike target member) decides db.od_intents k,
            r ∙ k,
            m',
            rw k at n,
            rw m' (create_match-matches w (deterministic_match_id w sender t) member target db),
          )
    ]

-- The first of two likes, before the other one: no like of the pair is on record, and the pair has
-- no match.
pub record IsFresh (v w : World) (sender t member target : String) (db : Db) : Type 0 where
  pub not_liked :
      exists (λ i. i.id == intent_id v sender t || is_intent_of member target i) db.od_intents
      ≡ false
  pub not_returned : is_reciprocal member target db ≡ false
  pub not_matched :
      exists
        (λ m.
          m.match_id == deterministic_match_id w t sender
          || (m.member_a == target && m.member_b == member))
        db.od_matches
      ≡ false
  pub not_blocked : exists (is_block_between member target) db.od_blocks ≡ false

is_reciprocal_of_like :
    (w x : World) (sender t member target : String) (db : Db)
    → IsFresh w x sender t member target db
    → is_reciprocal target member (like_effects w sender t member target db).1 ≡ true
unfolding is_reciprocal record_intent
is_reciprocal_of_like w x sender t member target db f =
    let row : Intent = record {
      id = intent_id w sender t;
      from_member_id = member;
      to_member_id = target;
      state = live;
      created_at = w.now;
      expires_at = w.now + like_expiry_sec;
      revoked_at = none;
    } in
    ground (
      arith,
      intents-like_effects w sender t member target db,
      exists-insert_or_ignore (is_live_intent_of member target)
          (λ i. i.id == intent_id w sender t || is_intent_of member target i) row db.od_intents,
      eq_refl member,
      eq_refl target,
      f.not_liked,
    )

matches-like_effects :
    (w : World) (sender t member target : String) (db : Db)
    → (member == target) ≡ false
    → is_reciprocal member target db ≡ false
    → (like_effects w sender t member target db).1.od_matches ≡ db.od_matches
matches-like_effects w sender t member target db h n =
    let (_, e, _) = like_effects-is_reciprocal w sender t member target db h in rw n at e

pub blocks-like_effects :
    (w : World) (sender t member target : String) (db : Db)
    → (like_effects w sender t member target db).1.od_blocks ≡ db.od_blocks
unfolding like_effects create_match count_like record_intent
blocks-like_effects w sender t member target db = ground arith

create_match-open :
    (w : World) (match_id member target : String) (db : Db)
    → exists
        (λ m. m.match_id == match_id || (m.member_a == member && m.member_b == target))
        db.od_matches
      ≡ false
    → exists
        (is_open_match_between target member)
        (create_match w match_id member target db).od_matches
      ≡ true
unfolding create_match
create_match-open w match_id member target db h =
    let row : Match = record {
      match_id = match_id;
      member_a = member;
      member_b = target;
      state = matched;
      created_at = w.now;
      updated_at = w.now;
    } in
    ground (
      arith,
      exists-insert_or_ignore (is_open_match_between target member)
          (λ m. m.match_id == match_id || (m.member_a == member && m.member_b == target)) row
          db.od_matches,
      eq_refl member,
      eq_refl target,
    )

-- Two members who have no record with one another and like each other may write to each other: the
-- second like reports the match, and the policy allows messages.
pub like_effects-allowed :
    (v w : World) (sender t member target : String) (db : Db)
    → (member == target) ≡ false
    → (target == member) ≡ false
    → IsFresh v w sender t member target db
    → ((like_effects w t sender target member (like_effects v sender t member target db).1).0
        ≡ true)
      × (decide_members member target
            (like_effects w t sender target member (like_effects v sender t member target db).1).1
          ≡ allowed)
unfolding decide_members
like_effects-allowed v w sender t member target db h k f =
    let once = (like_effects v sender t member target db).1 in
    let r = is_reciprocal_of_like v w sender t member target db f in
    let m = matches-like_effects v sender t member target db h f.not_returned in
    let b = blocks-like_effects v sender t member target db in
    let b' = blocks-like_effects w t sender target member once in
    let p = like_effects-is_reciprocal w t sender target member once k in
    let c = create_match-open w (deterministic_match_id w t sender) target member once in
    (p.0 ∙ r, ground (arith, b, b', p.1, r, m, c, f.not_blocked))
