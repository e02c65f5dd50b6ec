-- ===== src/Tests/Fixtures.antt =====
-- Two members, a world and a database for the examples of src/protocols/opendating.
use open_dating.Prelude.{
  ℕ, String, true, false, none, some, List, [], ◌∷◌, ◌≡◌, refl, ok, ◌==◌, if◌then◌else◌,
}
use open_dating.Json.{whole, obj, Fields, end}
use open_dating.Text.{units, is_pubkey}
use open_dating.Crypto.Hex.{bytes_to_hex, hex_to_bytes}
use open_dating.Store.{Db, empty_db, Member, Profile, IndexRow, Grant, MemberState, active}
use open_dating.World.{World}
use open_dating.Membership.Keys.{derive_member_id}
use open_dating.Protocol.Validation.{Request}

-- Pubkeys of 64 hexadecimal digits.
abbrev pub alice : String
alice = "aaaaaaaaaaaaaaaaaaaaaaaaaaaaaaaaaaaaaaaaaaaaaaaaaaaaaaaaaaaaaaaa"

abbrev pub bob : String
bob = "bbbbbbbbbbbbbbbbbbbbbbbbbbbbbbbbbbbbbbbbbbbbbbbbbbbbbbbbbbbbbbbb"

abbrev iv : List ℕ
iv = 1 ∷ 2 ∷ 3 ∷ 4 ∷ 5 ∷ 6 ∷ 7 ∷ 8 ∷ 9 ∷ 10 ∷ 11 ∷ 12 ∷ []

-- A member's id is the pubkey, the digest of a text is its code units, and a text is encrypted to
-- the bytes of "{}", the only text that the examples store.
abbrev pub world : World
world = record {
  keys = record { index_key = some (1 ∷ []); data_key_raw = some (2 ∷ []); using_dev_keys = false };
  now = 1000000;
  member_iv = iv;
  profile_iv = iv;
  hmac = λ key msg. msg;
  sha256 = λ s. units s;
  encrypt = λ key i text. b'{' ∷ b'}' ∷ [];
  decrypt = λ key i bytes. some "{}";
  text_of = λ j. "1000000";
  column_text = λ j. "1";
  to_base64 = λ s. s;
  from_base64 = λ s. some s;
  stringify = λ j. "{}";
  parse = λ s. if s == "{}" then some (obj end) else none;
}

abbrev pub request : String → Fields → Request
request name payload = record {
  version = "0.1";
  message_type = name;
  request_id = "request-1";
  created_at = whole 1000000;
  payload = payload;
}

pub alice_id : derive_member_id world alice ≡ ok alice
unfolding derive_member_id hex_to_bytes bytes_to_hex
alice_id = refl

pub bob_id : derive_member_id world bob ≡ ok bob
unfolding derive_member_id hex_to_bytes bytes_to_hex
bob_id = refl

pub bob-IsPubkey : is_pubkey bob ≡ true
unfolding is_pubkey
bob-IsPubkey = refl

pub alice-IsPubkey : is_pubkey alice ≡ true
unfolding is_pubkey
alice-IsPubkey = refl

abbrev pub member : String → MemberState → Member
member id status = record {
  member_id = id;
  encrypted_pubkey = "";
  status = status;
  trust_tier = 0;
  last_active_bucket = none;
  protocol_version = "0.1";
  created_at = 1;
  updated_at = 1;
}

abbrev pub profile : String → Profile
profile id = record {
  member_id = id;
  profile_version = 1;
  encrypted_profile_payload = none;
  age = some (whole 30);
  gender_category = none;
  relationship_intent = none;
  visibility_state = "discoverable";
  completeness = 0;
  created_at = 1;
  updated_at = 1;
}

abbrev pub index_row : String → IndexRow
index_row id = record {
  member_id = id;
  geo_cell_p5 = some "u33db";
  geo_cell_p4 = some "u33d";
  geo_cell_p3 = some "u33";
  age = some (whole 30);
  gender_category = none;
  intent_category = none;
  visible = true;
  trust_tier = 0;
  activity_bucket = none;
  updated_at = 1;
}

-- Alice and Bob with their rows, and a grant of Alice's for Bob.
abbrev pub grant : Grant
grant = record {
  viewer_id = alice;
  candidate_id = bob;
  grant_token = "token";
  distance_bucket = "nearby";
  granted_at = 1;
  expires_at = some 2000000;
}

abbrev pub members_db : Db
members_db = record empty_db {
  od_members = member alice active ∷ member bob active ∷ [];
  od_profiles = profile alice ∷ profile bob ∷ [];
  od_discovery_index = index_row alice ∷ index_row bob ∷ [];
}

abbrev pub granted_db : Db
granted_db = record members_db { od_candidate_grants = grant ∷ [] }
