-- ===== src/Crypto/Padding.antt =====
-- The padding of NIP-44 v2: `calcPaddedLen`, `pad` and `unpad` of
-- src/protocols/opendating/crypto/encryption.ts, on byte strings below 2 ^ 31 bytes.
use open_dating.Prelude.{
  ℕ, zero, suc, ◌+◌, ◌-◌, ◌*◌, ◌/◌, ◌%◌, List, [], ◌∷◌, ◌++◌, ◌&&◌, ◌||◌, ltb, leb, eqb,
  if◌then◌else◌, length, take, Result, ok, thrown,
}

-- The loop that doubles a power up to the first one that is not below `n`: for `n > 1` this is
-- `1 << (Math.floor(Math.log2(n - 1)) + 1)`. The fuel is the number of doublings allowed.
next_power : ℕ → ℕ → ℕ → ℕ
next_power zero n power = power
next_power (suc fuel) n power =
    let rest = next_power fuel n (2 * power) in if leb n power then power else rest

-- The power 2 ^ 31 is negative in the code's 32-bit integers, so it counts as at most 256.
abbrev chunk_of : ℕ → ℕ
chunk_of power = if leb power 256 || leb 2147483648 power then 32 else power / 8

unfoldable pub chunk : ℕ → ℕ
unfolding next_power
chunk n = chunk_of (next_power 31 n 1)

unfoldable pub calc_padded_len : ℕ → Result ℕ
calc_padded_len n =
    if ltb n 1
    then thrown "Plaintext must be at least 1 byte"
    else if leb n 32
    then ok 32
    else ok (chunk n * ((n - 1) / chunk n + 1))

unfoldable pub zeros : ℕ → List ℕ
zeros zero = []
zeros (suc n) = 0 ∷ zeros n

-- The two or six bytes before the plaintext.
abbrev pub length_prefix : ℕ → List ℕ
length_prefix n =
    if ltb n 65536
    then n / 256 % 256 ∷ n % 256 ∷ []
    else 0 ∷ 0 ∷ n / 16777216 % 256 ∷ n / 65536 % 256 ∷ n / 256 % 256 ∷ n % 256 ∷ []

-- The bytes written into a buffer of the padded length; `set` throws where they do not fit.
unfoldable pub fill : ℕ → List ℕ → Result (List ℕ)
fill padded_len bytes =
    if ltb padded_len (length bytes)
    then thrown "RangeError: offset is out of bounds"
    else ok (bytes ++ zeros (padded_len - length bytes))

unfoldable pub pad : List ℕ → Result (List ℕ)
pad plaintext = elim (calc_padded_len (length plaintext)) [
  | thrown e ↦ thrown e
  | ok padded_len ↦ fill padded_len (length_prefix (length plaintext) ++ plaintext)
]

-- The check of the length and the slice, for the bytes behind the prefix.
unfoldable pub slice_unpadded : ℕ → List ℕ → Result (List ℕ)
slice_unpadded n rest =
    if ltb n 1 || ltb (length rest) n then thrown "Invalid padding length" else ok (take n rest)

abbrev unpad_long : List ℕ → Result (List ℕ)
unpad_long (a ∷ b ∷ c ∷ d ∷ rest) = slice_unpadded (a * 16777216 + b * 65536 + c * 256 + d) rest
unpad_long (a ∷ b ∷ c ∷ []) = thrown "Padded data too short for long format"
unpad_long (a ∷ b ∷ []) = thrown "Padded data too short for long format"
unpad_long (a ∷ []) = thrown "Padded data too short for long format"
unpad_long [] = thrown "Padded data too short for long format"

unfoldable pub unpad : List ℕ → Result (List ℕ)
unpad [] = thrown "Padded data too short"
unpad (a ∷ []) = thrown "Padded data too short"
unpad (a ∷ b ∷ rest) =
    if eqb a 0 && eqb b 0 then unpad_long rest else slice_unpadded (a * 256 + b) rest
