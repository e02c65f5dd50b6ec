-- ===== src/Safety/Likes.antt =====
-- Grants, privacy and quotas of likes: src/protocols/opendating/services/matcher/service.ts.
use open_dating.Prelude.{
  ℕ, ◌+◌, ◌≤◌, String, true, false, Option, none, some, ◌≡◌, ◌≢◌, ◌==◌, ok, exists, if◌then◌else◌,
  first, changes-eq-zero, delete_from-eq_self, exists-delete_from, delete_from, first-upsert, arith,
  eq_refl, ltb,
}
use open_dating.Json.{str, get}
use open_dating.Store.{Db, Grant}
use open_dating.World.{World}
use open_dating.Membership.Keys.{derive_member_id}
use open_dating.Protocol.Envelope.{Envelope, create_error_envelope}
use open_dating.Protocol.Validation.{Request}
use open_dating.Services.Matcher.{
  is_valid_grant, is_quota_of, is_like_limited, consume_grant, count_like, first_like, one_more,
  next_reset, like_effects, create_match, record_intent, like_with_token, like_target, like_other,
  handle_like, max_daily_likes,
}

-- A like of another member: the request names a pubkey and a grant token as texts, and both pubkeys
-- have member ids.
pub record IsLike (w : World) (request : Request) (sender t token target : String) : Type 0 where
  pub reads_target : get "target_pubkey" request.payload ≡ some (str t)
  pub reads_grant : get "candidate_grant" request.payload ≡ some (str token)
  pub has_target : (t == "") ≡ false
  pub has_grant : (token == "") ≡ false
  pub other : (t == sender) ≡ false
  pub derived : derive_member_id w t ≡ ok target

abbrev pub refusal : World → Request → Envelope
refusal w request =
    create_error_envelope w.now (str request.request_id) "invalid_candidate_grant"
      "No valid grant found"

abbrev pub limit_reply : World → Request → Envelope
limit_reply w request =
    create_error_envelope w.now (str request.request_id) "rate_limited" "Daily like limit reached"

like_effects-grants :
    (w : World) (sender t member target : String) (db : Db)
    → (like_effects w sender t member target db).1.od_candidate_grants ≡ db.od_candidate_grants
unfolding like_effects create_match count_like record_intent
like_effects-grants w sender t member target db = ground arith

-- A grant that is valid later is valid now.
is_valid_grant_mono :
    (viewer candidate : String) (token : Option String) (now later : ℕ) (g : Grant)
    → now ≤ later
    → is_valid_grant viewer candidate token later g ≡ true
    → is_valid_grant viewer candidate token now g ≡ true
is_valid_grant_mono viewer candidate token now later g le h = ground arith

like_with_token_ungranted :
    (w : World) (member sender : String) (request : Request) (t target : String)
    (token : Option String) (db : Db)
    → exists (is_valid_grant member target token w.now) db.od_candidate_grants ≡ false
    → like_with_token w member sender request t target token db
      ≡ ((if is_like_limited member w.now db then limit_reply w request else refusal w request), db)
unfolding like_with_token consume_grant
like_with_token_ungranted w member sender request t target token db h = ground (
  arith,
  changes-eq-zero (is_valid_grant member target token w.now) db.od_candidate_grants h,
  delete_from-eq_self (is_valid_grant member target token w.now) db.od_candidate_grants h,
)

-- Where the quota admits a like, the grants that it could use are gone, whether it succeeds or not.
like_with_token-grants :
    (w : World) (member sender : String) (request : Request) (t target : String)
    (token : Option String) (db : Db)
    → is_like_limited member w.now db ≡ false
    → (like_with_token w member sender request t target token db).1.od_candidate_grants
      ≡ delete_from (is_valid_grant member target token w.now) db.od_candidate_grants
unfolding like_with_token consume_grant
like_with_token-grants w member sender request t target token db h = ground (
  arith,
  like_effects-grants w sender t member target (consume_grant member target token w.now db),
)

module _ (w : World) (request : Request) (sender t token member target : String) (db : Db)
    (like : IsLike w request sender t token target) where
  pub handle_like-like_with_token : handle_like w member request sender db ≡ (
    ok (like_with_token w member sender request t target (some token) db).0,
    (like_with_token w member sender request t target (some token) db).1,
  )
  unfolding handle_like like_other like_target
  handle_like-like_with_token = ground arith

  -- Without an unexpired grant for exactly this viewer, candidate and token a like is refused, and
  -- nothing changes.
  pub handle_like_ungranted :
      exists (is_valid_grant member target (some token) w.now) db.od_candidate_grants ≡ false
      → handle_like w member request sender db ≡ (
        ok (if is_like_limited member w.now db then limit_reply w request else refusal w request),
        db,
      )
  handle_like_ungranted none_valid = cc (
    handle_like-like_with_token,
    like_with_token_ungranted w member sender request t target (some token) db none_valid,
  )

  -- A like that the quota admits consumes its grant: at any later time no grant is left that the
  -- same request could use.
  pub handle_like_replay :
      is_like_limited member w.now db ≡ false
      → (later : ℕ) → w.now ≤ later
      → exists
          (is_valid_grant member target (some token) later)
          (handle_like w member request sender db).1.od_candidate_grants
        ≡ false
  handle_like_replay admitted later le =
      rw
        (
          handle_like-like_with_token,
          like_with_token-grants w member sender request t target (some token) db admitted,
        )
        (exists-delete_from (is_valid_grant member target (some token) later)
          (is_valid_grant member target (some token) w.now) db.od_candidate_grants
          (λ g. is_valid_grant_mono member target (some token) w.now later g le))

abbrev pub at_time : ℕ → World → World
at_time later w = record w { now = later }

at_time-IsLike :
    (w : World) (request : Request) (sender t token target : String) (later : ℕ)
    → IsLike w request sender t token target
    → IsLike (at_time later w) request sender t token target
unfolding derive_member_id
at_time-IsLike w request sender t token target later like = record {
  reads_target = like.reads_target;
  reads_grant = like.reads_grant;
  has_target = like.has_target;
  has_grant = like.has_grant;
  other = like.other;
  derived = like.derived;
}

-- A grant serves for one like at most: a like that the quota admits, sent again at any later time,
-- is refused and changes nothing.
pub handle_like_once :
    (w : World) (request : Request) (sender t token member target : String) (db : Db)
    → IsLike w request sender t token target
    → is_like_limited member w.now db ≡ false
    → (later : ℕ) → w.now ≤ later
    → handle_like (at_time later w) member request sender (handle_like w member request sender db).1
      ≡ (
        ok (
            if is_like_limited member later (handle_like w member request sender db).1
            then limit_reply (at_time later w) request
            else refusal (at_time later w) request),
        (handle_like w member request sender db).1,
      )
handle_like_once w request sender t token member target db like admitted later le =
    handle_like_ungranted (at_time later w) request sender t token member target
      (handle_like w member request sender db).1
      (at_time-IsLike w request sender t token target later like)
      (handle_like_replay w request sender t token member target db like admitted later le)

-- The number of likes that the row of a member counts; none is no row.
abbrev pub likes_sent : String → Db → ℕ
likes_sent member db = elim (first (is_quota_of member) db.od_discovery_quotas) [
  | none ↦ 0
  | some q ↦ q.daily_likes_sent
]

abbrev pub reset_time : String → Db → ℕ
reset_time member db = elim (first (is_quota_of member) db.od_discovery_quotas) [
  | none ↦ 0
  | some q ↦ q.daily_reset_at
]

-- What counting a like does to the member's counter: a rollover strictly after the reset time starts
-- at 1.
pub likes_sent-count_like :
    (member : String) (now : ℕ) (db : Db)
    → likes_sent member (count_like member now db)
      ≡ (if ltb (reset_time member db) now then 1 else likes_sent member db + 1)
unfolding count_like
likes_sent-count_like member now db = ground (
  arith,
  first-upsert (is_quota_of member) (first_like member (next_reset member now db) now)
      (one_more (next_reset member now db) now) db.od_discovery_quotas (eq_refl member) (λ q h. h),
)

-- An admitted like keeps the counter within the daily limit, but for the second in which the window
-- ends.
pub likes_sent-le :
    (member : String) (now : ℕ) (db : Db)
    → is_like_limited member now db ≡ false
    → reset_time member db ≢ now
    → likes_sent member (count_like member now db) ≤ max_daily_likes
unfolding is_like_limited
likes_sent-le member now db admitted h = ground (arith, likes_sent-count_like member now db)

-- In the second in which the window of the quota ends the limit does not hold: any member is
-- admitted, and the counter grows on.
pub likes_sent_overrun :
    (member : String) (now : ℕ) (db : Db)
    → reset_time member db ≡ now
    → (is_like_limited member now db ≡ false)
      × (likes_sent member (count_like member now db) ≡ likes_sent member db + 1)
unfolding is_like_limited
likes_sent_overrun member now db h = ground (arith, likes_sent-count_like member now db)
