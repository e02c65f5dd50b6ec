-- ===== src/Membership/Keys.antt =====
-- Key management, pseudonymous member ids and the encryption of columns:
-- src/protocols/opendating/storage/d1/membership.ts.
use Prim.Native.Char.{code}
use open_dating.Prelude.{
  ℕ, ◌+◌, ◌/◌, ◌%◌, String, Bool, true, false, Option, none, some, List, [], ◌∷◌, ◌++◌, ◌==◌, ◌||◌,
  ltb, if◌then◌else◌, Result, ok, thrown, take, drop,
}
use open_dating.Text.{length_of, units}
use open_dating.Crypto.Hex.{bytes_to_hex, hex_to_bytes}
use open_dating.World.{Keys, World}

pub record KeyEnv : Type 0 where
  pub od_index_key_v1 : Option String
  pub od_data_key_v1 : Option String
  pub od_allow_dev_keys : Option String

-- `new TextEncoder().encode(s)`: UTF-8.
abbrev pub utf8 : String → List ℕ
utf8 String.[] = []
utf8 (String.◌∷◌ c s) =
    let u = code c in
    let rest = utf8 s in
    if ltb u 0x80
    then u ∷ rest
    else if ltb u 0x800
    then (0xc0 + u / 0x40) ∷ (0x80 + u % 0x40) ∷ rest
    else if ltb u 0x10000
    then (0xe0 + u / 0x1000) ∷ (0x80 + u / 0x40 % 0x40) ∷ (0x80 + u % 0x40) ∷ rest
    else (0xf0 + u / 0x40000)
      ∷ (0x80 + u / 0x1000 % 0x40)
      ∷ (0x80 + u / 0x40 % 0x40)
      ∷ (0x80 + u % 0x40)
      ∷ rest

abbrev dev_index_key : String
dev_index_key = "opendating-index-key-v1-dev-only-00000000000000"

abbrev dev_data_key : String
dev_data_key = "opendating-data-key-v1-dev-only-000000"

-- The value of an option that is set and not empty.
abbrev truthy : Option String → Option String
truthy none = none
truthy (some s) = if s == "" then none else some s

abbrev is_true : Option String → Bool
is_true none = false
is_true (some s) = s == "true"

-- The part of `initMembershipKeys` behind `if (indexSecret && dataSecret)`.
load_secrets : String → String → Result Keys
load_secrets index_secret data_secret =
    if ltb (length_of index_secret) 32 || ltb (length_of data_secret) 32
    then thrown "OD_INDEX_KEY_V1 and OD_DATA_KEY_V1 must each be at least 32 characters."
    else ok (record {
      index_key = some (utf8 index_secret);
      data_key_raw = some (utf8 data_secret);
      using_dev_keys = false;
    })

load_dev_keys : Bool → Result Keys
load_dev_keys false = thrown "OD_INDEX_KEY_V1 and OD_DATA_KEY_V1 are required."
load_dev_keys true = ok (record {
  index_key = some (utf8 dev_index_key);
  data_key_raw = some (utf8 dev_data_key);
  using_dev_keys = true;
})

-- When it throws, the module variables keep their values.
pub init_membership_keys : KeyEnv → Result Keys
unfolding load_secrets load_dev_keys
init_membership_keys env = elim (truthy env.od_index_key_v1) [
  | none ↦ load_dev_keys (is_true env.od_allow_dev_keys)
  | some index_secret ↦ elim (truthy env.od_data_key_v1) [
    | none ↦ load_dev_keys (is_true env.od_allow_dev_keys)
    | some data_secret ↦ load_secrets index_secret data_secret
  ]
]

pub reset_membership_keys : Keys
reset_membership_keys = record { index_key = none; data_key_raw = none; using_dev_keys = false }

abbrev not_initialised : String
not_initialised = "Membership keys not initialised — call initMembershipKeys(env) first."

-- `indexKey` and `deriveMemberId`.
unfoldable pub derive_member_id : World → String → Result String
derive_member_id w pubkey = elim w.keys.index_key [
  | none ↦ thrown not_initialised
  | some key ↦ elim (hex_to_bytes (units pubkey)) [
    | none ↦ thrown "Invalid hex string"
    | some msg ↦ ok (bytes_to_hex (w.hmac key msg))
  ]
]

unfoldable pub get_data_key : World → Result (List ℕ)
get_data_key w = elim w.keys.data_key_raw [
  | none ↦ thrown not_initialised
  | some raw ↦ ok (take 32 raw)
]

unfoldable pub encrypt_string : World → List ℕ → String → List ℕ → String
encrypt_string w iv plaintext key = bytes_to_hex (iv ++ w.encrypt key iv plaintext)

unfoldable pub decrypt_string : World → String → List ℕ → Result String
decrypt_string w encrypted key = elim (hex_to_bytes (units encrypted)) [
  | none ↦ thrown "Invalid hex string"
  | some combined ↦ elim (w.decrypt key (take 12 combined) (drop 12 combined)) [
    | none ↦ thrown "OperationError"
    | some text ↦ ok text
  ]
]
