-- ===== src/Tests/Payloads.antt =====
-- Examples of padding and encrypted payloads, with hexadecimal text in the place of base64, a
-- cipher that changes nothing and a code of zeros: crypto/encryption.ts of src/protocols/opendating.
use open_dating.Prelude.{
  eqb, ◌==◌, if◌then◌else◌, ℕ, ◌+◌, ◌*◌, ◌/◌, ◌≤◌, ◌<◌, String, false, List, [], ◌∷◌, ◌≡◌, ◌⊎◌,
  refl, ok, thrown, length, arith,
}
use open_dating.Text.{units}
use open_dating.Crypto.Hex.{
  bytes_to_hex, hex_to_bytes, hex_to_bytes-bytes_to_hex, units-bytes_to_hex, hex_digit-sign,
}
use open_dating.Crypto.Padding.{calc_padded_len, length_prefix, zeros}
use open_dating.Crypto.Payload.{
  Primitives, IsStandard, AllBytes, is_versioned, nip44_encrypt, nip44_decrypt,
}
use open_dating.Crypto.RoundTrip.{IsText, zeros-AllBytes, nip44_decrypt-nip44_encrypt}

-- Two texts.
abbrev text_of_code : List ℕ → String
text_of_code [] = ""
text_of_code (u ∷ us) = if eqb u b'S' then "S" else "R"

abbrev pub primitives : Primitives
primitives = record {
  expand = λ key nonce. key;
  chacha20 = λ key nonce bytes. bytes;
  hmac = λ key bytes. zeros 32;
  to_base64 = bytes_to_hex;
  from_base64 = λ s. hex_to_bytes (units s);
  encode = λ text. if text == "S" then b'S' ∷ [] else b'R' ∷ [];
  decode = text_of_code;
  max_arguments = 65536;
}

length-units : (bs : List ℕ) → AllBytes bs → 4 * length bs ≤ 3 * length (units (bytes_to_hex bs))
length-units [] h = omega arith
length-units (b ∷ bs) (h, hs) = ground (arith, units-bytes_to_hex b bs h, length-units bs hs)

unversioned : (bs : List ℕ) → AllBytes bs → is_versioned (units (bytes_to_hex bs)) ≡ false
unversioned [] h = unfold bytes_to_hex in refl
unversioned (b ∷ bs) (h, hs) =
    rw (units-bytes_to_hex b bs h) (hex_digit-sign (b / 16) (omega arith))

pub primitives-IsStandard : IsStandard primitives
unfolding zeros
primitives-IsStandard = record {
  chacha20-chacha20 = λ key nonce bytes. refl;
  length-chacha20 = λ key nonce bytes. refl;
  chacha20-AllBytes = λ key nonce bytes h. h;
  length-hmac = λ key bytes. refl;
  hmac-AllBytes = λ key bytes. zeros-AllBytes 32;
  from_base64-to_base64 = λ bytes h. hex_to_bytes-bytes_to_hex bytes h;
  length-to_base64 = λ bytes h. length-units bytes h;
  to_base64-unversioned = λ bytes h. unversioned bytes h;
}

length-text : calc_padded_len (length (primitives.encode "S")) ≡ ok 32
unfolding calc_padded_len
length-text = refl

sample-IsText : IsText primitives "S"
sample-IsText = record { decode-encode = refl; all_bytes = (omega arith, tt); small = omega arith }

pub nonce_length : length (zeros 32) ≡ 32
unfolding zeros
nonce_length = refl

nip44_decrypt-nip44_encrypt_example :
    ((32 < length (length_prefix (length (primitives.encode "S"))) + length (primitives.encode "S"))
      × (nip44_encrypt primitives [] (zeros 32) "S" ≡ thrown "RangeError: offset is out of bounds"))
    ⊎ (((primitives.max_arguments < 32 + 65)
          × (nip44_encrypt primitives [] (zeros 32) "S"
              ≡ thrown "RangeError: Maximum call stack size exceeded"))
        ⊎ ((payload : String) × (nip44_encrypt primitives [] (zeros 32) "S" ≡ ok payload)
            × (nip44_decrypt primitives [] payload ≡ ok "S")))
nip44_decrypt-nip44_encrypt_example =
    nip44_decrypt-nip44_encrypt primitives primitives-IsStandard [] (zeros 32) "S" 32 nonce_length
      (zeros-AllBytes 32) sample-IsText length-text
