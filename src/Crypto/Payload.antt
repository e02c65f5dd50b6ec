-- ===== src/Crypto/Payload.antt =====
-- The payload of NIP-44 v2: `getMessageKeys`, `nip44Encrypt`, `nip44Decrypt` and
-- `constantTimeEqual` of src/protocols/opendating/crypto/encryption.ts. The conversation key is an
-- argument, and the libraries' functions are parameters.
use open_dating.Prelude.{
  ℕ, ◌-◌, ◌*◌, ◌≡◌, ◌<◌, ◌≤◌, suc, Bool, true, false, Option, none, some, String, List, [], ◌∷◌,
  ◌++◌, ◌&&◌, not, ltb, eqb, if◌then◌else◌, length, take, drop, Result, ok, thrown, All,
}
use open_dating.Text.{length_of, units}
use open_dating.Crypto.Padding.{pad, unpad}

-- The functions of @noble and of the platform.
pub record Primitives : Type 0 where
  -- `expand(sha256, key, nonce, 76)`.
  pub expand : List ℕ → List ℕ → List ℕ
  -- `chacha20(key, nonce, bytes)`.
  pub chacha20 : List ℕ → List ℕ → List ℕ → List ℕ
  -- `hmac(sha256, key, bytes)`.
  pub hmac : List ℕ → List ℕ → List ℕ
  -- `btoa` of the text whose code units are the bytes, and the code units of `atob`.
  pub to_base64 : List ℕ → String
  pub from_base64 : String → Option (List ℕ)
  -- `TextEncoder`, and the UTF-8 decoding of `TextDecoder`.
  pub encode : String → List ℕ
  pub decode : List ℕ → String
  -- How many arguments a call can have.
  pub max_arguments : ℕ

-- Whether the first character is '#'.
abbrev pub is_versioned : List ℕ → Bool
is_versioned [] = false
is_versioned (u ∷ us) = eqb u b'#'

abbrev pub AllBytes : List ℕ → Type 0
AllBytes = All (λ b. b < 256)

-- What they are documented to do: a stream cipher is its own inverse and keeps the length, a
-- digest has 32 bytes, and base64 reads back, uses letters, digits, '+', '/' and '=' only, and
-- makes four characters of three bytes.
pub record IsStandard (p : Primitives) : Type 0 where
  pub chacha20-chacha20 :
      (key nonce bytes : List ℕ) → p.chacha20 key nonce (p.chacha20 key nonce bytes) ≡ bytes
  pub length-chacha20 :
      (key nonce bytes : List ℕ) → length (p.chacha20 key nonce bytes) ≡ length bytes
  pub chacha20-AllBytes :
      (key nonce bytes : List ℕ) → AllBytes bytes → AllBytes (p.chacha20 key nonce bytes)
  pub length-hmac : (key bytes : List ℕ) → length (p.hmac key bytes) ≡ 32
  pub hmac-AllBytes : (key bytes : List ℕ) → AllBytes (p.hmac key bytes)
  pub from_base64-to_base64 :
      (bytes : List ℕ) → AllBytes bytes → p.from_base64 (p.to_base64 bytes) ≡ some bytes
  pub length-to_base64 :
      (bytes : List ℕ) → AllBytes bytes → 4 * length bytes ≤ 3 * length_of (p.to_base64 bytes)
  pub to_base64-unversioned :
      (bytes : List ℕ) → AllBytes bytes → is_versioned (units (p.to_base64 bytes)) ≡ false

-- `MessageKeys`.
pub record MessageKeys : Type 0 where
  pub chacha_key : List ℕ
  pub chacha_nonce : List ℕ
  pub hmac_key : List ℕ

unfoldable pub get_message_keys : Primitives → List ℕ → List ℕ → MessageKeys
get_message_keys p conversation_key nonce =
    let expanded = p.expand conversation_key nonce in
    record {
      chacha_key = take 32 expanded;
      chacha_nonce = take 12 (drop 32 expanded);
      hmac_key = drop 44 expanded;
    }

-- The loop of `constantTimeEqual`: whether `diff` stays 0.
unfoldable pub is_same : List ℕ → List ℕ → Bool
is_same [] bs = true
is_same (a ∷ xs) [] = true
is_same (a ∷ xs) (b ∷ bs) = eqb a b && is_same xs bs

unfoldable pub constant_time_equal : List ℕ → List ℕ → Bool
constant_time_equal a b = eqb (length a) (length b) && is_same a b

-- The payload's bytes: the version, the nonce, the ciphertext and the code of both.
unfoldable pub seal : Primitives → List ℕ → List ℕ → List ℕ → List ℕ
seal p conversation_key nonce padded =
    let keys = get_message_keys p conversation_key nonce in
    let ciphertext = p.chacha20 keys.chacha_key keys.chacha_nonce padded in
    2 ∷ nonce ++ ciphertext ++ p.hmac keys.hmac_key (nonce ++ ciphertext)

-- `bytesToBase64`: each byte is an argument of a call of `String.fromCharCode`.
unfoldable pub bytes_to_base64 : Primitives → List ℕ → Result String
bytes_to_base64 p bytes =
    if ltb p.max_arguments (length bytes)
    then thrown "RangeError: Maximum call stack size exceeded"
    else ok (p.to_base64 bytes)

-- `nip44Encrypt`, with a nonce of 32 bytes.
unfoldable pub nip44_encrypt : Primitives → List ℕ → List ℕ → String → Result String
nip44_encrypt p conversation_key nonce plaintext = elim (pad (p.encode plaintext)) [
  | thrown e ↦ thrown e
  | ok padded ↦ bytes_to_base64 p (seal p conversation_key nonce padded)
]

-- `nip44Decrypt` from the verification of the code on.
unfoldable pub verify_and_decrypt : Primitives → List ℕ → List ℕ → List ℕ → List ℕ → Result (List ℕ)
verify_and_decrypt p conversation_key nonce ciphertext mac =
    let keys = get_message_keys p conversation_key nonce in
    if not (constant_time_equal mac (p.hmac keys.hmac_key (nonce ++ ciphertext)))
    then thrown "nip44: MAC verification failed"
    else unpad (p.chacha20 keys.chacha_key keys.chacha_nonce ciphertext)

-- The three parts of `rest`, the bytes behind the version.
unfoldable pub open_payload : Primitives → List ℕ → List ℕ → Result (List ℕ)
open_payload p conversation_key rest =
    let body = drop 32 rest in
    verify_and_decrypt p conversation_key (take 32 rest) (take (length body - 32) body)
      (drop (length body - 32) body)

abbrev check_version : Primitives → List ℕ → List ℕ → Result (List ℕ)
check_version p conversation_key [] = thrown "nip44: decoded bytes too short"
check_version p conversation_key (version ∷ rest) =
    if ltb (suc (length rest)) 97
    then thrown "nip44: decoded bytes too short"
    else if not (eqb version 2)
    then thrown "nip44: unknown version"
    else open_payload p conversation_key rest

-- The bytes of the plaintext.
unfoldable pub decrypt_bytes : Primitives → List ℕ → String → Result (List ℕ)
decrypt_bytes p conversation_key payload =
    if ltb (length_of payload) 128
    then thrown "nip44: payload too short"
    else if is_versioned (units payload)
    then thrown "nip44: unknown encoding version"
    else elim (p.from_base64 payload) [
      | none ↦ thrown "InvalidCharacterError"
      | some bytes ↦ check_version p conversation_key bytes
    ]

-- What `TextDecoder` reads: a byte order mark at the start is left out.
abbrev pub without_mark : List ℕ → List ℕ
without_mark [] = []
without_mark (a ∷ []) = a ∷ []
without_mark (a ∷ b ∷ []) = a ∷ b ∷ []
without_mark (a ∷ b ∷ c ∷ bytes) =
    if eqb a 0xef && eqb b 0xbb && eqb c 0xbf then bytes else a ∷ b ∷ c ∷ bytes

abbrev pub decode_text : Primitives → List ℕ → String
decode_text p bytes = p.decode (without_mark bytes)

unfoldable pub nip44_decrypt : Primitives → List ℕ → String → Result String
nip44_decrypt p conversation_key payload = elim (decrypt_bytes p conversation_key payload) [
  | thrown e ↦ thrown e
  | ok bytes ↦ ok (decode_text p bytes)
]
