-- ===== src/Services/Discovery/Candidates.antt =====
-- `getCandidates`, `consumeQuota`, `recordServed` and `handle` of
-- src/protocols/opendating/services/discovery/service.ts.
use open_dating.Prelude.{
  ℕ, suc, ◌+◌, ◌-◌, ◌/◌, String, Bool, true, false, Option, none, some, List, [], ◌∷◌, ◌++◌, ◌==◌,
  leb, ltb, if◌then◌else◌, first, upsert, length, Result, ok, thrown,
}
use open_dating.Json.{
  Json, null, num, str, arr, obj, field, end, get, as_string, as_number, whole, of_items, Number,
  ratio, negative, infinite, minus_infinite, nan, is_integer, exceeds,
}
use open_dating.Store.{Db, Quota}
use open_dating.World.{World, Run, ◌>>=◌, ◌>>◌, return, throw, lift, query, execute}
use open_dating.Membership.Members.{ensure_member}
use open_dating.Protocol.Envelope.{Envelope, create_envelope, create_error_envelope}
use open_dating.Protocol.Validation.{Request}
use open_dating.Services.Matcher.{is_quota_of, day_sec}
use open_dating.Services.Discovery.Preferences.{update_location, update_preferences}
use open_dating.Services.Discovery.Grants.{GrantRow, Viewer, load_viewer, generate_grants}
use open_dating.Services.Discovery.Cards.{
  encode_base64url, read_cursor, Cursor, load_existing_grants, hydrate,
}

abbrev pub max_daily_candidates : ℕ
max_daily_candidates = 50

abbrev pub candidate_batch_size : ℕ
candidate_batch_size = 20

-- The result of `consumeQuota`.
pub record Allowance : Type 0 where
  pub exhausted : Bool
  pub served_today : ℕ
  pub reset_at : ℕ

abbrev allowance_of : ℕ → Option Quota → Allowance
allowance_of now none = record { exhausted = false; served_today = 0; reset_at = now + day_sec }
allowance_of now (some q) =
    if ltb q.daily_reset_at now
    then record { exhausted = false; served_today = 0; reset_at = now + day_sec }
    else record {
      exhausted = leb max_daily_candidates q.daily_candidates_served;
      served_today = q.daily_candidates_served;
      reset_at = q.daily_reset_at;
    }

unfoldable pub consume_quota : String → ℕ → Db → Allowance
consume_quota member now db = allowance_of now (first (is_quota_of member) db.od_discovery_quotas)

unfoldable pub record_served : String → ℕ → ℕ → ℕ → Db → Db
record_served member served reset_at now db = record db {
  od_discovery_quotas =
      upsert (is_quota_of member)
        (record {
          member_id = member;
          daily_candidates_served = served;
          daily_likes_sent = 0;
          daily_reset_at = reset_at;
          updated_at = now;
        })
        (λ q. record q {
          daily_candidates_served = served;
          daily_reset_at = reset_at;
          updated_at = now;
        })
        db.od_discovery_quotas;
}

-- `Math.min(payload.limit, 20)` as it is used: a whole number of rows, none where it is negative,
-- which the database takes for no limit; a number that is not whole is an error of the query.
abbrev limit_of_number : Number → Result (Option ℕ)
limit_of_number (ratio a d) =
    if exceeds (ratio a d) candidate_batch_size
    then ok (some candidate_batch_size)
    else if is_integer (ratio a d)
    then ok (some (a / suc d))
    else thrown "datatype mismatch"
limit_of_number (negative a d) =
    if is_integer (negative a d) then ok none else thrown "datatype mismatch"
limit_of_number infinite = ok (some candidate_batch_size)
limit_of_number minus_infinite = thrown "datatype mismatch"
limit_of_number nan = thrown "datatype mismatch"

unfoldable pub limit_of : Option Json → Result (Option ℕ)
limit_of j = elim (as_number j) [
  | none ↦ ok (some candidate_batch_size)
  | some n ↦ limit_of_number n
]

-- The grants in flight, and fresh ones behind them where the page is not full; `length < limit` is
-- false for a negative limit.
unfoldable pub page_of_grants :
    World → String → Viewer → Option ℕ → Option Cursor → Db → List GrantRow × Db
page_of_grants w member viewer none cursor db =
    (load_existing_grants member w.now none cursor db, db)
page_of_grants w member viewer (some limit) cursor db =
    let existing = load_existing_grants member w.now (some limit) cursor db in
    if ltb (length existing) limit
    then (let (fresh, db') = generate_grants w member viewer (limit - length existing) w.now db in
        (existing ++ fresh, db'))
    else (existing, db)

abbrev last_of : GrantRow → List GrantRow → GrantRow
last_of g [] = g
last_of g (h ∷ grants) = last_of h grants

abbrev cursor_text : World → GrantRow → Json
cursor_text w g = str (
    encode_base64url w (
      w.stringify (
        obj (
          field "granted_at" (num (whole g.granted_at))
            (field "candidate_id" (str g.candidate_id) end)))))

abbrev is_full : Option ℕ → ℕ → Bool
is_full none n = true
is_full (some limit) n = leb limit n

abbrev next_cursor : World → Option ℕ → ℕ → List GrantRow → Json
next_cursor w limit shown [] = null
next_cursor w limit shown (g ∷ grants) =
    if is_full limit shown then cursor_text w (last_of g grants) else null

abbrev of_pair {ℓ} : {A : Type ℓ} → (Db → A × Db) → Run A
of_pair f db = let (a, db') = f db in (ok a, db')

-- `getCandidates` behind the checks of the quota and of the viewer.
unfoldable pub serve : World → String → Request → Allowance → Viewer → Run Envelope
serve w member request quota viewer = do
  limit ← lift (limit_of (get "limit" request.payload))
  granted ← of_pair (
      page_of_grants w member viewer limit
        (read_cursor w (as_string (get "cursor" request.payload))))
  candidates ← hydrate w granted
  execute (record_served member (quota.served_today + length candidates) quota.reset_at w.now)
  return (
      create_envelope w.now "discovery.get_candidates.result" (str request.request_id) (
        field "candidates" (arr (of_items candidates)) (
          field "cursor" (next_cursor w limit (length candidates) granted) (
            field "remaining_today"
              (num (whole (max_daily_candidates - (quota.served_today + length candidates))))
              end))))

abbrev pub refusal : World → Request → String → String → Envelope
refusal w request code message = create_error_envelope w.now (str request.request_id) code message

abbrev serve_viewer : World → String → Request → Allowance → Option Viewer → Run Envelope
serve_viewer w member request quota none =
    return
      (refusal w request "invalid_location" "Set your location before discovering people nearby")
serve_viewer w member request quota (some viewer) = serve w member request quota viewer

unfoldable pub get_candidates : World → String → Request → Run Envelope
get_candidates w member request = do
  quota ← query (consume_quota member w.now)
  viewer ← query (load_viewer member)
  elim quota.exhausted [
    | true ↦
        return (refusal w request "discovery_quota_exhausted" "Daily discovery limit reached (50)")
    | false ↦ serve_viewer w member request quota viewer
  ]

-- The `switch` of `handle`.
abbrev dispatch : World → Request → String → String → Run Envelope
dispatch w request sender member =
    if request.message_type == "discovery.update_location"
    then update_location w sender member request
    else if request.message_type == "discovery.get_candidates"
    then get_candidates w member request
    else if request.message_type == "discovery.update_preferences"
    then update_preferences w sender member request
    else throw "Discovery service does not support the type"

unfoldable pub handle : World → Request → String → Run Envelope
handle w request sender = do
  member ← ensure_member w sender
  dispatch w request sender member.member_id
