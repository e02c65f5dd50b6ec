-- ===== src/Crypto/RoundTrip.antt =====
-- What is padded and encrypted reads back: src/protocols/opendating/crypto/encryption.ts.
use open_dating.Prelude.{
  length-append, take-append, drop-append, ℕ, zero, suc, ◌+◌, ◌-◌, ◌≤◌, ◌<◌, true, false, String,
  ◌≡◌, refl, sym, ap, ◌∙◌, List, [], ◌∷◌, ◌++◌, ◌⊎◌, length, take, drop, ok, thrown, arith, ltb,
  append_assoc, Bool-cases, inl, inr,
}
use open_dating.Crypto.Padding.{calc_padded_len, zeros, length_prefix, fill, pad, unpad}
use open_dating.Crypto.Payload.{
  Primitives, IsStandard, AllBytes, get_message_keys, is_same, constant_time_equal, seal,
  nip44_encrypt, verify_and_decrypt, open_payload, nip44_decrypt, decrypt_bytes, bytes_to_base64,
  decode_text,
}
use open_dating.Text.{length_of}
use open_dating.Crypto.Unpadding.{calc_padded_len-32, fill_lem, unpad-pad}

ltb-false : {n : ℕ} → 97 ≤ n → ltb n 97 ≡ false
ltb-false h = ground arith

append-le : (xs ys : List ℕ) → AllBytes xs → AllBytes ys → AllBytes (xs ++ ys)
append-le [] ys h k = k
append-le (x ∷ xs) ys (h, hs) k = (h, append-le xs ys hs k)

is_same_refl : (xs : List ℕ) → is_same xs xs ≡ true
unfolding is_same
is_same_refl [] = refl
is_same_refl (x ∷ xs) = ground (arith, is_same_refl xs)

constant_time_equal_refl : (xs : List ℕ) → constant_time_equal xs xs ≡ true
unfolding constant_time_equal
constant_time_equal_refl xs = ground (arith, is_same_refl xs)

constant_time_equal-eq : (xs ys : List ℕ) → constant_time_equal xs ys ≡ true → xs ≡ ys
unfolding constant_time_equal is_same
constant_time_equal-eq [] [] h = refl
constant_time_equal-eq [] (y ∷ ys) h = ground arith
constant_time_equal-eq (x ∷ xs) [] h = ground arith
constant_time_equal-eq (x ∷ xs) (y ∷ ys) h = ground (arith, constant_time_equal-eq xs ys)

-- Splitting the bytes behind the version into the nonce, the ciphertext and the code.
module _ (nonce ciphertext mac : List ℕ) (hn : length nonce ≡ 32) (hm : length mac ≡ 32) where
  abbrev rest : List ℕ
  rest = nonce ++ (ciphertext ++ mac)

  body_of_rest : drop 32 rest ≡ ciphertext ++ mac
  body_of_rest = rw (sym hn) (drop-append nonce (ciphertext ++ mac))

  nonce_of_rest : take 32 rest ≡ nonce
  nonce_of_rest = rw (sym hn) (take-append nonce (ciphertext ++ mac))

  length-body : length (ciphertext ++ mac) - 32 ≡ length ciphertext
  length-body = ground (arith, length-append ciphertext mac)

  open_rest :
      (p : Primitives) (key : List ℕ)
      → open_payload p key rest ≡ verify_and_decrypt p key nonce ciphertext mac
  unfolding open_payload
  open_rest p key =
      rw
        (
          body_of_rest,
          nonce_of_rest,
          length-body,
          take-append ciphertext mac,
          drop-append ciphertext mac,
        )
        refl

-- A payload is decrypted only if its last 32 bytes are the code of the nonce and the ciphertext
-- under the conversation key: with any other code the decryption throws.
pub verify_and_decrypt-mac :
    (p : Primitives) (key nonce ciphertext mac plaintext : List ℕ)
    → verify_and_decrypt p key nonce ciphertext mac ≡ ok plaintext
    → mac ≡ p.hmac (get_message_keys p key nonce).hmac_key (nonce ++ ciphertext)
unfolding verify_and_decrypt
verify_and_decrypt-mac p key nonce ciphertext mac plaintext h =
    let code = p.hmac (get_message_keys p key nonce).hmac_key (nonce ++ ciphertext) in
    elim (Bool-cases (constant_time_equal mac code)) [
      | inl e ↦ constant_time_equal-eq mac code e
      | inr e ↦ absurd (ground (arith, h, e))
    ]

length-seal :
    (p : Primitives) (std : IsStandard p) (key nonce padded : List ℕ)
    → length nonce ≡ 32
    → 32 ≤ length padded
    → 97 ≤ length (seal p key nonce padded)
unfolding seal
length-seal p std key nonce padded hn hp =
    let k = get_message_keys p key nonce in
    let c = p.chacha20 k.chacha_key k.chacha_nonce padded in
    let lc = std.length-chacha20 k.chacha_key k.chacha_nonce padded in
    let lm = std.length-hmac k.hmac_key (nonce ++ c) in
    let l = length-append (nonce ++ c) (p.hmac k.hmac_key (nonce ++ c)) in
    let l' = length-append nonce c in omega arith

seal-AllBytes :
    (p : Primitives) (std : IsStandard p) (key nonce padded : List ℕ)
    → AllBytes nonce
    → AllBytes padded
    → AllBytes (seal p key nonce padded)
unfolding seal
seal-AllBytes p std key nonce padded hn hp =
    let k = get_message_keys p key nonce in
    let c = p.chacha20 k.chacha_key k.chacha_nonce padded in
    let hc = std.chacha20-AllBytes k.chacha_key k.chacha_nonce padded hp in
    let hnc = append-le nonce c hn hc in
    (
      omega arith,
      append-le (nonce ++ c) (p.hmac k.hmac_key (nonce ++ c)) hnc
          (std.hmac-AllBytes k.hmac_key (nonce ++ c)),
    )

open-seal :
    (p : Primitives) (std : IsStandard p) (key nonce padded : List ℕ)
    → length nonce ≡ 32
    → open_payload p key (drop 1 (seal p key nonce padded)) ≡ unpad padded
unfolding seal verify_and_decrypt
open-seal p std key nonce padded hn =
    let k = get_message_keys p key nonce in
    let c = p.chacha20 k.chacha_key k.chacha_nonce padded in
    let m = p.hmac k.hmac_key (nonce ++ c) in
    rw (append_assoc nonce c m) (
      open_rest nonce c m hn (std.length-hmac k.hmac_key (nonce ++ c)) p key
      ∙ rw (constant_time_equal_refl m, std.chacha20-chacha20 k.chacha_key k.chacha_nonce padded)
          refl)

pub zeros-AllBytes : (n : ℕ) → AllBytes (zeros n)
unfolding zeros
zeros-AllBytes zero = tt
zeros-AllBytes (suc n) = (omega arith, zeros-AllBytes n)

length_prefix-AllBytes : (n : ℕ) → AllBytes (length_prefix n)
length_prefix-AllBytes n = elim (Bool-cases (ltb n 65536)) [
  | inl h ↦ rw h (omega arith, (omega arith, tt))
  | inr h ↦
      rw h
        (omega arith, (omega arith, (omega arith, (omega arith, (omega arith, (omega arith, tt))))))
]

fill-AllBytes : (m : ℕ) (xs ys : List ℕ) → AllBytes xs → fill m xs ≡ ok ys → AllBytes ys
fill-AllBytes m xs ys h e = elim (fill_lem m xs) [
  | inl (lt, f) ↦ absurd (ground (arith, sym f ∙ e))
  | inr (le, f) ↦
      let z = zeros (m - length xs) in
      let same : xs ++ z ≡ ys = ground (arith, sym f ∙ e) in
      rw (sym same) (append-le xs z h (zeros-AllBytes (m - length xs)))
]

pad-AllBytes :
    (xs ys : List ℕ) (m : ℕ)
    → calc_padded_len (length xs) ≡ ok m
    → AllBytes xs
    → pad xs ≡ ok ys
    → AllBytes ys
unfolding pad
pad-AllBytes xs ys m e h f =
    let p = length_prefix (length xs) in
    fill-AllBytes m (p ++ xs) ys (append-le p xs (length_prefix-AllBytes (length xs)) h)
      (rw (e, pad) at f)

decrypt-seal :
    (p : Primitives) (std : IsStandard p) (key nonce padded : List ℕ)
    → length nonce ≡ 32
    → 32 ≤ length padded
    → AllBytes nonce
    → AllBytes padded
    → decrypt_bytes p key (p.to_base64 (seal p key nonce padded)) ≡ unpad padded
unfolding decrypt_bytes
decrypt-seal p std key nonce padded hn hp bn bp =
    let s = seal p key nonce padded in
    let bytes = seal-AllBytes p std key nonce padded bn bp in
    let l = length-seal p std key nonce padded hn hp in
    let long = std.length-to_base64 s bytes in
    let e : ltb (length_of (p.to_base64 s)) 128 ≡ false = ground (arith, l, long) in
    rw (e, std.to_base64-unversioned s bytes, std.from_base64-to_base64 s bytes)
      (unfold seal in rw (ltb-false l) (open-seal p std key nonce padded hn))

seal_size :
    (p : Primitives) (std : IsStandard p) (key nonce padded : List ℕ)
    → length nonce ≡ 32
    → length (seal p key nonce padded) ≡ length padded + 65
unfolding seal
seal_size p std key nonce padded hn =
    let k = get_message_keys p key nonce in
    let c = p.chacha20 k.chacha_key k.chacha_nonce padded in
    let lc = std.length-chacha20 k.chacha_key k.chacha_nonce padded in
    let lm = std.length-hmac k.hmac_key (nonce ++ c) in
    let l = length-append (nonce ++ c) (p.hmac k.hmac_key (nonce ++ c)) in
    let l' = length-append nonce c in omega arith

-- A text whose UTF-8 bytes `TextDecoder` reads back, of fewer than 2 ^ 31 bytes: one that is well
-- formed and does not start with a byte order mark.
pub record IsText (p : Primitives) (text : String) : Type 0 where
  pub decode-encode : decode_text p (p.encode text) ≡ text
  pub all_bytes : AllBytes (p.encode text)
  pub small : length (p.encode text) < 2147483648

-- Encrypting a text of 1 to 2 ^ 31 - 1 bytes in UTF-8, which `TextDecoder` reads back, with a nonce
-- of 32 bytes does one of three things: it fails because the length prefix does not fit into the
-- padded length; it fails because the padded length and 65 further bytes are more than the arguments
-- that a call can have; or it gives a payload that decrypts to the text.
pub nip44_decrypt-nip44_encrypt :
    (p : Primitives) (std : IsStandard p) (key nonce : List ℕ) (text : String) (m : ℕ)
    → length nonce ≡ 32
    → AllBytes nonce
    → IsText p text
    → calc_padded_len (length (p.encode text)) ≡ ok m
    → ((m < length (length_prefix (length (p.encode text))) + length (p.encode text))
        × (nip44_encrypt p key nonce text ≡ thrown "RangeError: offset is out of bounds"))
      ⊎ (((p.max_arguments < m + 65)
            × (nip44_encrypt p key nonce text
                ≡ thrown "RangeError: Maximum call stack size exceeded"))
          ⊎ ((payload : String) × (nip44_encrypt p key nonce text ≡ ok payload)
              × (nip44_decrypt p key payload ≡ ok text)))
unfolding nip44_encrypt bytes_to_base64 nip44_decrypt
nip44_decrypt-nip44_encrypt p std key nonce text m hn bn t e =
    let xs = p.encode text in
    elim (unpad-pad xs m e t.small) [
      | inl (lt, f) ↦ inl (lt, rw (f, nip44_encrypt) refl)
      | inr (ys, f, l, u) ↦
          let le : 32 ≤ length ys = ground (arith, l, calc_padded_len-32 (length xs) m e) in
          let size = seal_size p std key nonce ys hn in
          elim (Bool-cases (ltb p.max_arguments (length (seal p key nonce ys)))) [
            | inl k ↦ inr (inl (ground (arith, k, size, l), rw (f, nip44_encrypt) (rw k refl)))
            | inr k ↦
                let d =
                  decrypt-seal p std key nonce ys hn le bn (pad-AllBytes xs ys m e t.all_bytes f)
                  ∙ u in
                inr (
                  inr (
                    p.to_base64 (seal p key nonce ys),
                    rw (f, nip44_encrypt) (rw k refl),
                    rw (d, nip44_decrypt) (ap ok t.decode-encode),
                  ))
          ]
    ]
