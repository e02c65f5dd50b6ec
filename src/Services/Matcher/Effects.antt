-- ===== src/Services/Matcher/Effects.antt =====
-- The statements of a like: `handleLike` of src/protocols/opendating/services/matcher/service.ts, its
-- ids, grants, intents, quota and matches.
use Prim.Native.String
use open_dating.Prelude.{
  ℕ, ◌+◌, String, Bool, Option, none, some, ◌==◌, ◌&&◌, ◌||◌, if◌then◌else◌, List, exists, first,
  delete_from, insert_or_ignore, upsert, ltb, leb, Result, ok, thrown, true, false,
}
use open_dating.Json.{Json, null, bool, str, num, arr, obj, nil, cons}
use open_dating.Text.{before}
use open_dating.Crypto.Hex.{bytes_to_hex}
use open_dating.Store.{Db, Grant, Quota, Intent, IntentState, live, revoked, matched, Notification}
use open_dating.World.{World}

abbrev pub like_expiry_sec : ℕ
like_expiry_sec = 7776000

abbrev pub max_daily_likes : ℕ
max_daily_likes = 30

abbrev pub day_sec : ℕ
day_sec = 86400

-- The text that is hashed: the two pubkeys in sorted order.
abbrev sorted_text : String → String → String
sorted_text a b = if before b a then String.◌++◌ b a else String.◌++◌ a b

unfoldable pub deterministic_match_id : World → String → String → String
deterministic_match_id w a b = bytes_to_hex (w.sha256 (sorted_text a b))

unfoldable pub intent_id : World → String → String → String
intent_id w from to = bytes_to_hex (w.sha256 (String.◌++◌ from (String.◌++◌ to "like")))

-- `payload.target_pubkey` where it is true: a text, or an error of `hexToBytes` on any other value
-- but an empty array, which it reads as an empty text.
abbrev pub target_of : Json → Result String
target_of (str s) = ok s
target_of (arr nil) = ok ""
target_of (arr (cons j js)) = thrown "TypeError"
target_of null = thrown "Invalid hex string"
target_of (bool b) = thrown "Invalid hex string"
target_of (num n) = thrown "Invalid hex string"
target_of (obj fs) = thrown "Invalid hex string"

-- The grant token as it is bound in the statement; a number or a Boolean equals no token.
abbrev pub token_of : Json → Result (Option String)
token_of (str s) = ok (some s)
token_of null = ok none
token_of (bool b) = ok none
token_of (num n) = ok none
token_of (arr js) = thrown "D1_TYPE_ERROR"
token_of (obj fs) = thrown "D1_TYPE_ERROR"

abbrev pub is_unexpired : ℕ → Grant → Bool
is_unexpired now g = elim g.expires_at [ none ↦ true | some t ↦ ltb now t ]

abbrev has_token : Option String → Grant → Bool
has_token none g = false
has_token (some token) g = g.grant_token == token

-- The condition of the `DELETE` by which a like consumes its grant.
abbrev pub is_valid_grant : String → String → Option String → ℕ → Grant → Bool
is_valid_grant viewer candidate token now g =
    g.viewer_id == viewer && g.candidate_id == candidate && has_token token g && is_unexpired now g

abbrev pub is_quota_of : String → Quota → Bool
is_quota_of id q = q.member_id == id

abbrev sent_of : Option Quota → ℕ
sent_of none = 0
sent_of (some q) = q.daily_likes_sent

abbrev reset_of : Option Quota → ℕ
reset_of none = 0
reset_of (some q) = q.daily_reset_at

-- Whether the daily quota refuses a like.
unfoldable pub is_like_limited : String → ℕ → Db → Bool
is_like_limited member now db =
    let quota = first (is_quota_of member) db.od_discovery_quotas in
    ltb now (reset_of quota) && leb max_daily_likes (sent_of quota)

unfoldable pub consume_grant : String → String → Option String → ℕ → Db → Db
consume_grant member target token now db = record db {
  od_candidate_grants = delete_from (is_valid_grant member target token now) db.od_candidate_grants;
}

abbrev pub is_intent_of : String → String → Intent → Bool
is_intent_of from to i = i.from_member_id == from && i.to_member_id == to

abbrev pub is_live : IntentState → Bool
is_live live = true
is_live revoked = false

abbrev pub is_live_intent_of : String → String → Intent → Bool
is_live_intent_of from to i = is_intent_of from to i && is_live i.state

-- The row is ignored where the id or the pair is there already, in whatever state.
unfoldable pub record_intent : String → String → String → ℕ → Db → Db
record_intent iid member target now db = record db {
  od_intents =
      insert_or_ignore (λ i. i.id == iid || is_intent_of member target i)
        (record {
          id = iid;
          from_member_id = member;
          to_member_id = target;
          state = live;
          created_at = now;
          expires_at = now + like_expiry_sec;
          revoked_at = none;
        })
        db.od_intents;
}

-- The row that the upsert of a like inserts, and what it makes of a row that is there.
abbrev pub first_like : String → ℕ → ℕ → Quota
first_like member new_reset_at now = record {
  member_id = member;
  daily_candidates_served = 0;
  daily_likes_sent = 1;
  daily_reset_at = new_reset_at;
  updated_at = now;
}

abbrev pub one_more : ℕ → ℕ → Quota → Quota
one_more new_reset_at now q = record q {
  daily_likes_sent = if ltb q.daily_reset_at now then 1 else q.daily_likes_sent + 1;
  daily_reset_at = if ltb q.daily_reset_at now then new_reset_at else q.daily_reset_at;
  updated_at = now;
}

abbrev pub next_reset : String → ℕ → Db → ℕ
next_reset member now db =
    let reset_at = reset_of (first (is_quota_of member) db.od_discovery_quotas) in
    if leb reset_at now then now + day_sec else reset_at

unfoldable pub count_like : String → ℕ → Db → Db
count_like member now db = record db {
  od_discovery_quotas =
      upsert (is_quota_of member) (first_like member (next_reset member now db) now)
        (one_more (next_reset member now db) now) db.od_discovery_quotas;
}

abbrev notification : World → String → String → Notification
notification w match_id recipient = record {
  id = bytes_to_hex (w.sha256 (String.◌++◌ match_id (String.◌++◌ recipient "match_created")));
  match_id = match_id;
  recipient_member_id = recipient;
  created_at = w.now;
}

abbrev add_notification : Notification → List Notification → List Notification
add_notification n = insert_or_ignore (λ m. m.id == n.id) n

-- What a reciprocal like writes.
unfoldable pub create_match : World → String → String → String → Db → Db
create_match w match_id member target db = record db {
  od_matches =
      insert_or_ignore
        (λ m. m.match_id == match_id || (m.member_a == member && m.member_b == target))
        (record {
          match_id = match_id;
          member_a = member;
          member_b = target;
          state = matched;
          created_at = w.now;
          updated_at = w.now;
        })
        db.od_matches;
  od_match_notifications =
      add_notification (notification w match_id target)
        (add_notification (notification w match_id member) db.od_match_notifications);
}

-- Whether the target likes the member.
unfoldable pub is_reciprocal : String → String → Db → Bool
is_reciprocal member target db = exists (is_live_intent_of target member) db.od_intents

-- The effects of a like behind the consumed grant, and whether a match was reported.
unfoldable pub like_effects : World → String → String → String → String → Db → Bool × Db
like_effects w sender target_pubkey member target db =
    let noted =
      count_like member w.now
        (record_intent (intent_id w sender target_pubkey) member target w.now db) in
    if is_reciprocal member target noted
    then (true, create_match w (deterministic_match_id w sender target_pubkey) member target noted)
    else (false, noted)
