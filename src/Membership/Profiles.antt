-- ===== src/Membership/Profiles.antt =====
-- Profile content and the discovery index: `profileCompleteness` and `D1MembershipStore` of
-- src/protocols/opendating/storage/d1/membership.ts.
use mathlib.Core.Option
use open_dating.Prelude.{
  ℕ, ◌+◌, min, String, Bool, true, false, Option, none, some, List, [], ◌∷◌, ◌==◌, ◌&&◌, not, leb,
  eqb, if◌then◌else◌, length, exists, first, select, upsert, insert, Result, ok, thrown,
}
use open_dating.Json.{
  Json, Fields, ratio, get, as_string, as_number, as_array, null, bool, num, str, arr, obj,
  negative, infinite, minus_infinite, nan,
}
use open_dating.Text.{length_of, trim}
use open_dating.Store.{Db, Member, MemberState, Profile}
use open_dating.World.{World, Run, ◌>>=◌, return, lift, query, execute}
use open_dating.Membership.Keys.{derive_member_id, get_data_key, encrypt_string, decrypt_string}
use open_dating.Membership.Members.{is_member, is_profile, is_index_row}

-- Whether a value counts as true in a condition; none is `undefined`.
abbrev pub is_truthy : Option Json → Bool
is_truthy none = false
is_truthy (some null) = false
is_truthy (some (bool b)) = b
is_truthy (some (num (ratio a d))) = not (eqb a 0)
is_truthy (some (num (negative a d))) = true
is_truthy (some (num infinite)) = true
is_truthy (some (num minus_infinite)) = true
is_truthy (some (num nan)) = false
is_truthy (some (str s)) = not (s == "")
is_truthy (some (arr js)) = true
is_truthy (some (obj fs)) = true

-- `String(j)`.
abbrev pub text_of : World → Option Json → String
text_of w (some (str s)) = s
text_of w (some null) = w.text_of null
text_of w (some (bool b)) = w.text_of (bool b)
text_of w (some (num n)) = w.text_of (num n)
text_of w (some (arr js)) = w.text_of (arr js)
text_of w (some (obj fs)) = w.text_of (obj fs)
text_of w none = "undefined"

abbrev is_some {ℓ} : {A : Type ℓ} → Option A → Bool
is_some none = false
is_some (some a) = true

abbrev has_at_least : ℕ → Option (List Json) → Bool
has_at_least n none = false
has_at_least n (some js) = leb n (length js)

abbrev points : ℕ → Bool → ℕ
points n b = if b then n else 0

pub profile_completeness : World → Fields → ℕ
profile_completeness w content =
    let name = get "display_name" content in
    let bio = get "bio" content in
    let score =
      points 25 (is_truthy name && not (trim (text_of w name) == ""))
      + points 15 (is_some (as_number (get "age" content)))
      + points 10 (is_truthy (get "gender" content))
      + points 20 (is_truthy bio && leb 20 (length_of (trim (text_of w bio))))
      + points 20 (has_at_least 1 (as_array (get "photos" content)))
      + points 10 (has_at_least 3 (as_array (get "interests" content))) in
    min score 100

unfoldable pub get_profile : World → String → Run (Option Profile)
get_profile w pubkey = do
  id ← lift (derive_member_id w pubkey)
  query (λ db. first (is_profile id) db.od_profiles)

-- The statement of `updateProfileContent`.
unfoldable pub write_profile : String → String → Fields → ℕ → ℕ → Db → Db
write_profile id encrypted content completeness now db = record db {
  od_profiles =
      upsert (is_profile id)
        (record {
          member_id = id;
          profile_version = 1;
          encrypted_profile_payload = some encrypted;
          age = as_number (get "age" content);
          gender_category = as_string (get "gender" content);
          relationship_intent = as_string (get "relationship_intent" content);
          visibility_state = "discoverable";
          completeness = completeness;
          created_at = now;
          updated_at = now;
        })
        (λ p. record p {
          profile_version = p.profile_version + 1;
          encrypted_profile_payload = some encrypted;
          age = as_number (get "age" content);
          gender_category = as_string (get "gender" content);
          relationship_intent = as_string (get "relationship_intent" content);
          completeness = completeness;
          updated_at = now;
        })
        db.od_profiles;
}

unfoldable pub update_profile_content : World → String → Fields → Run (Unit {0})
update_profile_content w pubkey content = do
  id ← lift (derive_member_id w pubkey)
  key ← lift (get_data_key w)
  execute (
      write_profile id (encrypt_string w w.profile_iv (w.stringify (obj content)) key) content
        (profile_completeness w content) w.now)

-- A result or its absence: `try { … } catch { return null; }`.
abbrev attempt {ℓ} : {A : Type ℓ} → Result A → Option A
attempt (ok a) = some a
attempt (thrown e) = none

abbrev pub is_active : MemberState → Bool
is_active MemberState.onboarding = false
is_active MemberState.active = true
is_active MemberState.paused = false
is_active MemberState.limited = false
is_active MemberState.quarantined = false
is_active MemberState.suspended = false
is_active MemberState.banned = false
is_active MemberState.deleted = false

abbrev pub attempt_decrypt : World → String → Option String
attempt_decrypt w encrypted = elim (get_data_key w) [
  | thrown e ↦ none
  | ok key ↦ attempt (decrypt_string w encrypted key)
]

pub get_pubkey_by_member_id : World → String → Db → Option String
get_pubkey_by_member_id w id db =
    elim (first (λ m. is_member id m && is_active m.status) db.od_members) [
      | none ↦ none
      | some m ↦ attempt_decrypt w m.encrypted_pubkey
    ]

-- The decrypted and parsed payload of a row; none where it is absent, empty or unreadable.
abbrev pub read_payload : World → Option String → Option Json
read_payload w none = none
read_payload w (some blob) =
    if blob == ""
    then none
    else elim (attempt_decrypt w blob) [ none ↦ none | some text ↦ w.parse text ]

abbrev pub content_of : World → Option Profile → Option Json
content_of w none = none
content_of w (some p) = read_payload w p.encrypted_profile_payload

unfoldable pub get_profile_content_by_member_id : World → String → Db → Option Json
get_profile_content_by_member_id w id db = content_of w (first (is_profile id) db.od_profiles)

unfoldable pub get_profile_content : World → String → Run (Option Json)
get_profile_content w pubkey = do
  id ← lift (derive_member_id w pubkey)
  query (get_profile_content_by_member_id w id)

-- `member_id IN (…)`.
abbrev is_listed : List String → String → Bool
is_listed ids id = exists (λ i. id == i) ids

-- One round of the loop of `getPubkeysByMemberIds`; `attempt` is its `try`.
abbrev add_pubkey : World → List ℕ → Member → List (String × String) → List (String × String)
add_pubkey w key m result = elim (attempt (decrypt_string w m.encrypted_pubkey key)) [
  | none ↦ result
  | some pubkey ↦ insert m.member_id pubkey result
]

read_pubkeys : World → List ℕ → List Member → List (String × String) → List (String × String)
read_pubkeys w key [] result = result
read_pubkeys w key (m ∷ rows) result = read_pubkeys w key rows (add_pubkey w key m result)

unfoldable pub get_pubkeys_by_member_ids : World → List String → Run (List (String × String))
unfolding read_pubkeys
get_pubkeys_by_member_ids w [] = return []
get_pubkeys_by_member_ids w (id ∷ ids) = do
  rows ←
      query
        (λ db. select (λ m. is_listed (id ∷ ids) m.member_id && is_active m.status) db.od_members)
  key ← lift (get_data_key w)
  return (read_pubkeys w key rows [])

-- One round of the loop of `getProfileContentsByMemberIds`; the key is there when it runs.
abbrev add_content : World → Profile → List (String × Json) → List (String × Json)
add_content w p result = elim (read_payload w p.encrypted_profile_payload) [
  | none ↦ result
  | some content ↦ insert p.member_id content result
]

read_contents : World → List Profile → List (String × Json) → List (String × Json)
read_contents w [] result = result
read_contents w (p ∷ rows) result = read_contents w rows (add_content w p result)

unfoldable pub get_profile_contents_by_member_ids : World → List String → Run (List (String × Json))
unfolding read_contents
get_profile_contents_by_member_ids w [] = return []
get_profile_contents_by_member_ids w (id ∷ ids) = do
  rows ← query (λ db. select (λ p. is_listed (id ∷ ids) p.member_id) db.od_profiles)
  key ← lift (get_data_key w)
  return (read_contents w rows [])

-- `row.status === 'active' && row.visibility_state === 'discoverable'`, with no profile row as null.
unfoldable pub is_visible : Member → Option Profile → Bool
is_visible m none = false
is_visible m (some p) = is_active m.status && p.visibility_state == "discoverable"

-- The upsert of `syncDiscoveryIndex`.
unfoldable pub write_index : String → Member → Option Profile → ℕ → Db → Db
write_index id m p now db =
    let age = Option.bind p (λ q. q.age) in
    let gender = Option.bind p (λ q. q.gender_category) in
    let intent = Option.bind p (λ q. q.relationship_intent) in
    record db {
      od_discovery_index =
          upsert (is_index_row id)
            (record {
              member_id = id;
              geo_cell_p5 = none;
              geo_cell_p4 = none;
              geo_cell_p3 = none;
              age = age;
              gender_category = gender;
              intent_category = intent;
              visible = is_visible m p;
              trust_tier = m.trust_tier;
              activity_bucket = some "recently";
              updated_at = now;
            })
            (λ r. record r {
              age = age;
              gender_category = gender;
              intent_category = intent;
              visible = is_visible m p;
              trust_tier = m.trust_tier;
              activity_bucket = some "recently";
              updated_at = now;
            })
            db.od_discovery_index;
    }

unfoldable pub sync_statements : String → ℕ → Db → Db
unfolding write_index
sync_statements id now db = elim (first (is_member id) db.od_members) [
  | none ↦ db
  | some m ↦ write_index id m (first (is_profile id) db.od_profiles) now db
]

unfoldable pub sync_discovery_index : World → String → Run (Unit {0})
unfolding sync_statements
sync_discovery_index w pubkey = do
  id ← lift (derive_member_id w pubkey)
  execute (sync_statements id w.now)
