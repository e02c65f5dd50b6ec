-- ===== src/Gateway/Wraps.antt =====
-- NIP-59 gift wraps: `buildGiftWrap` of src/protocols/opendating/crypto/gift-wrap.ts, with
-- `getEventHash` and `signEvent` of encryption.ts beside it. An error of the cryptography is none.
use open_dating.Prelude.{ℕ, ◌-◌, ◌%◌, String, Option, none, some, List, [], ◌∷◌, ok, thrown}
use open_dating.Crypto.Hex.{bytes_to_hex}
use open_dating.Crypto.Payload.{Primitives, nip44_encrypt, nip44_decrypt}
use open_dating.Events.Model.{Event, Platform}

-- The functions of @noble and of the platform.
pub record Crypto : Type 0 where
  pub platform : Platform
  pub primitives : Primitives
  -- `getConversationKey(privateKey, publicKey)`.
  pub conversation_key : String → String → Option (List ℕ)
  -- `schnorr.sign(hexToBytes(id), privateKey)`.
  pub sign : String → String → Option (List ℕ)
  -- `JSON.stringify(event)`.
  pub event_text : Event → String

-- What is drawn at random for a gift wrap.
pub record Draws : Type 0 where
  pub seal_nonce : List ℕ
  pub wrap_nonce : List ℕ
  pub seal_offset : ℕ
  pub wrap_offset : ℕ
  pub wrapper_private_key : String
  pub wrapper_public_key : String

abbrev max_past_offset_sec : ℕ
max_past_offset_sec = 172800

-- `randomPastTimestamp`, for times after the first two days.
unfoldable pub random_past_timestamp : ℕ → ℕ → ℕ
random_past_timestamp now offset = now - offset % max_past_offset_sec

unfoldable pub encrypt_text : Crypto → List ℕ → String → String → String → Option String
encrypt_text c nonce text private_key public_key =
    elim (c.conversation_key private_key public_key) [
      | none ↦ none
      | some key ↦ elim (nip44_encrypt c.primitives key nonce text) [
        | thrown e ↦ none
        | ok payload ↦ some payload
      ]
    ]

unfoldable pub decrypt_text : Crypto → String → String → String → Option String
decrypt_text c payload private_key public_key = elim (c.conversation_key private_key public_key) [
  | none ↦ none
  | some key ↦ elim (nip44_decrypt c.primitives key payload) [
    | thrown e ↦ none
    | ok text ↦ some text
  ]
]

-- `getEventHash`, of an event whose id and signature it does not read.
unfoldable pub get_event_hash : Crypto → Event → String
get_event_hash c e = bytes_to_hex (c.platform.sha256 (c.platform.serialize e))

abbrev pub with_id : Crypto → Event → Event
with_id c e = record e { id = get_event_hash c e }

-- `signEvent`, put into the event.
unfoldable pub sign_event : Crypto → Event → String → Option Event
sign_event c e private_key = elim (c.sign (get_event_hash c e) private_key) [
  | none ↦ none
  | some sig ↦ some (record (with_id c e) { sig = bytes_to_hex sig })
]

abbrev pub unsigned : String → ℕ → ℕ → List (List String) → String → Event
unsigned pubkey created_at kind tags content = record {
  id = "";
  pubkey = pubkey;
  created_at = created_at;
  kind = kind;
  tags = tags;
  content = content;
  sig = "";
}

-- Step 1, which leaves the event without a signature.
unfoldable pub make_rumor : Crypto → ℕ → ℕ → String → String → Event
make_rumor c now kind content pubkey = with_id c (unsigned pubkey now kind [] content)

-- Step 2.
unfoldable pub make_seal : Crypto → Draws → ℕ → Event → String → String → Option Event
make_seal c d now rumor private_key recipient =
    elim (encrypt_text c d.seal_nonce (c.event_text rumor) private_key recipient) [
      | none ↦ none
      | some content ↦
          sign_event c
            (unsigned rumor.pubkey (random_past_timestamp now d.seal_offset) 13 [] content)
            private_key
    ]

-- Steps 3 and 4.
unfoldable pub wrap_seal : Crypto → Draws → ℕ → Event → String → Option Event
wrap_seal c d now seal recipient =
    elim (encrypt_text c d.wrap_nonce (c.event_text seal) d.wrapper_private_key recipient) [
      | none ↦ none
      | some content ↦
          sign_event c
            (unsigned d.wrapper_public_key (random_past_timestamp now d.wrap_offset) 1059
              (("p" ∷ recipient ∷ []) ∷ []) content)
            d.wrapper_private_key
    ]

-- `buildGiftWrap`, and `buildServiceResponseGiftWrap`, which only calls it.
unfoldable pub build_gift_wrap :
    Crypto → Draws → ℕ → ℕ → String → String → String → String → Option Event
build_gift_wrap c d now kind content private_key public_key recipient =
    elim (make_seal c d now (make_rumor c now kind content public_key) private_key recipient) [
      | none ↦ none
      | some seal ↦ wrap_seal c d now seal recipient
    ]
