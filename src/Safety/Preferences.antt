-- ===== src/Safety/Preferences.antt =====
-- What discovery stores for a member and counts: services/discovery/service.ts of
-- src/protocols/opendating, with the like quota of services/matcher/service.ts.
use mathlib.Core.Option
use open_dating.Prelude.{
  ℕ, ◌+◌, ◌≤◌, ◌<◌, String, true, false, Option, some, ◌≡◌, refl, ap, ◌∙◌, ◌==◌, ltb, leb, All,
  upsert-All, first, first-upsert, ok, arith, eq_refl, Bool-cases, inl, inr,
}
use open_dating.Json.{Json, get, as_array, as_string}
use open_dating.Store.{Db, Prefs, Quota}
use open_dating.World.{World, ◌>>◌, return}
use open_dating.Protocol.Envelope.{Envelope}
use open_dating.Membership.Profiles.{sync_discovery_index, sync_statements, write_index}
use open_dating.Protocol.Validation.{Request}
use open_dating.Services.Matcher.{is_quota_of, is_like_limited, day_sec}
use open_dating.Services.Discovery.Preferences.{
  clamp_age, genders_of, distance_of, update_preferences, write_preferences,
}
use open_dating.Services.Discovery.Candidates.{
  consume_quota, record_served, get_candidates, refusal,
}

-- A clamped age lies between 18 and 120, whatever the value is, where the fallback does.
pub clamp_age-le :
    (j : Option Json) (fallback : ℕ)
    → 18 ≤ fallback
    → fallback ≤ 120
    → (18 ≤ clamp_age j fallback) × (clamp_age j fallback ≤ 120)
unfolding clamp_age
clamp_age-le j fallback h k = (ground arith, ground arith)

-- The stored age range of a member is a range of ages from 18 to 120.
abbrev pub HasRange : Prefs → Type 0
HasRange p = (18 ≤ p.age_min) × (p.age_min ≤ p.age_max) × (p.age_max ≤ 120)

write_preferences-HasRange :
    (row : Prefs) (db : Db)
    → HasRange row
    → All HasRange db.od_discovery_prefs
    → All HasRange (write_preferences row db).od_discovery_prefs
unfolding write_preferences
write_preferences-HasRange row db h hs =
    upsert-All HasRange (λ (p : Prefs). p.member_id == row.member_id) row (λ p. row)
      db.od_discovery_prefs h (λ p k. h) hs

-- The end of a handler that synchronises the index and replies.
sync_then-prefs :
    (w : World) (sender : String) (e : Envelope) (db : Db)
    → ((sync_discovery_index w sender >> return e) db).1.od_discovery_prefs ≡ db.od_discovery_prefs
unfolding sync_discovery_index sync_statements write_index
sync_then-prefs w sender e db = ground arith

-- A `discovery.update_preferences` leaves every stored age range inside 18 to 120 with its ends in
-- order, where it was so before.
pub update_preferences-HasRange :
    (w : World) (sender member : String) (request : Request) (db : Db)
    → All HasRange db.od_discovery_prefs
    → All HasRange (update_preferences w sender member request db).1.od_discovery_prefs
unfolding update_preferences
update_preferences-HasRange w sender member request db hs =
    let lo = clamp_age (get "min_age" request.payload) 18 in
    let hi = clamp_age (get "max_age" request.payload) 99 in
    let l = clamp_age-le (get "min_age" request.payload) 18 (omega arith) (omega arith) in
    let h = clamp_age-le (get "max_age" request.payload) 99 (omega arith) (omega arith) in
    elim (Bool-cases (ltb hi lo)) [
      | inl e ↦ rw (e, update_preferences) hs
      | inr e ↦
          let row : Prefs = record {
            member_id = member;
            age_min = lo;
            age_max = hi;
            max_distance_km = distance_of (get "max_distance_km" request.payload);
            genders = genders_of (as_array (get "genders" request.payload));
            intent = as_string (get "intent" request.payload);
            updated_at = w.now;
          } in
          rw (e, update_preferences)
            (rw (sync_then-prefs w sender _ (write_preferences row db)) (
              write_preferences-HasRange row db
                (ground (arith, l), ground (arith, e), ground (arith, h)) hs))
    ]

-- The quota row of a member after serving.
first-record_served :
    (member : String) (count reset_at now : ℕ) (db : Db) (q : Quota)
    → first (is_quota_of member) db.od_discovery_quotas ≡ some q
    → first (is_quota_of member) (record_served member count reset_at now db).od_discovery_quotas
      ≡ some (record q {
        daily_candidates_served = count;
        daily_reset_at = reset_at;
        updated_at = now;
      })
unfolding record_served
first-record_served member count reset_at now db q h =
    let f = λ (q : Quota). record q {
      daily_candidates_served = count;
      daily_reset_at = reset_at;
      updated_at = now;
    } in
    let row : Quota = record {
      member_id = member;
      daily_candidates_served = count;
      daily_likes_sent = 0;
      daily_reset_at = reset_at;
      updated_at = now;
    } in
    first-upsert (is_quota_of member) row f db.od_discovery_quotas (eq_refl member) (λ x k. k)
    ∙ ap (λ (x : Option Quota). some (Option.get_or (Option.map f x) row)) h

-- Serving candidates where the window has ended opens a new window and keeps the likes of the old
-- one: a member who had sent 30 likes or more could like again before and is refused afterwards.
pub record_served-is_like_limited :
    (member : String) (count now : ℕ) (db : Db) (q : Quota)
    → first (is_quota_of member) db.od_discovery_quotas ≡ some q
    → q.daily_reset_at < now
    → 30 ≤ q.daily_likes_sent
    → (is_like_limited member now db ≡ false)
      × (is_like_limited member now
            (record_served member count (consume_quota member now db).reset_at now db)
          ≡ true)
unfolding is_like_limited consume_quota
record_served-is_like_limited member count now db q h l k =
    let reset_at = (consume_quota member now db).reset_at in
    let e = first-record_served member count reset_at now db q h in
    let r : reset_at ≡ now + day_sec = rw (h, consume_quota) (ground arith) in
    (rw (h, is_like_limited) (ground arith), rw (e, is_like_limited) (ground (arith, r)))

-- A member who has been served 50 candidates in a window gets no more before its end: the request is
-- refused and the database is unchanged.
pub get_candidates_exhausted :
    (w : World) (member : String) (request : Request) (db : Db) (q : Quota)
    → first (is_quota_of member) db.od_discovery_quotas ≡ some q
    → w.now ≤ q.daily_reset_at
    → 50 ≤ q.daily_candidates_served
    → get_candidates w member request db ≡ (
      ok (refusal w request "discovery_quota_exhausted" "Daily discovery limit reached (50)"),
      db,
    )
unfolding get_candidates consume_quota
get_candidates_exhausted w member request db q h l m =
    let e : ltb q.daily_reset_at w.now ≡ false = ground arith in
    let f : leb 50 q.daily_candidates_served ≡ true = ground arith in
    rw (h, get_candidates, consume_quota) (rw e (rw f refl))
