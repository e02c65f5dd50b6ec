-- ===== src/Crypto/Hex.antt =====
-- `bytesToHex` and `hexToBytes` of src/protocols/opendating/crypto/encryption.ts.
use Prim.Native.Char.{Char, code}
use open_dating.Prelude.{
  ℕ, zero, suc, ◌+◌, ◌-◌, ◌*◌, ◌/◌, ◌%◌, ◌<◌, ◌≡◌, refl, ap, ◌∙◌, String, Bool, true, false, List,
  [], ◌∷◌, ◌&&◌, ◌||◌, leb, ltb, if◌then◌else◌, eqb, not, Option, none, some, All, arith, eqb_iff,
}
use mathlib.Core.Option
use open_dating.Text.{units, is_space}

-- `n.toString(16)` for one digit.
abbrev pub hex_digit : ℕ → Char
hex_digit n =
    if eqb n 0
    then "0"
    else if eqb n 1
    then "1"
    else if eqb n 2
    then "2"
    else if eqb n 3
    then "3"
    else if eqb n 4
    then "4"
    else if eqb n 5
    then "5"
    else if eqb n 6
    then "6"
    else if eqb n 7
    then "7"
    else if eqb n 8
    then "8"
    else if eqb n 9
    then "9"
    else if eqb n 10
    then "a"
    else if eqb n 11
    then "b"
    else if eqb n 12
    then "c"
    else if eqb n 13
    then "d"
    else if eqb n 14
    then "e"
    else "f"

unfoldable pub bytes_to_hex : List ℕ → String
bytes_to_hex [] = String.[]
bytes_to_hex (b ∷ bs) =
    String.◌∷◌ (hex_digit (b / 16)) (String.◌∷◌ (hex_digit (b % 16)) (bytes_to_hex bs))

-- The value of a hexadecimal digit, none for any other code unit.
abbrev digit_value : ℕ → Option ℕ
digit_value u =
    if leb b'0' u && leb u b'9'
    then some (u - b'0')
    else if leb b'a' u && leb u b'f'
    then some (u - b'a' + 10)
    else if leb b'A' u && leb u b'F'
    then some (u - b'A' + 10)
    else none

-- The byte that the assignment of `parseInt(…, 16)` stores for two code units: NaN gives 0, a
-- sign and white space are accepted, a digit before anything else counts alone.
abbrev parse_pair : ℕ → ℕ → ℕ
parse_pair u v = elim (digit_value u) [
  | some a ↦ elim (digit_value v) [ some b ↦ a * 16 + b | none ↦ a ]
  | none ↦
      if is_space u || eqb u b'+'
      then Option.get_or (digit_value v) 0
      else if eqb u b'-'
      then (256 - Option.get_or (digit_value v) 0) % 256
      else 0
]

-- The loop of `hexToBytes`; none is the error for an odd length.
unfoldable pub hex_to_bytes : List ℕ → Option (List ℕ)
hex_to_bytes [] = some []
hex_to_bytes (u ∷ []) = none
hex_to_bytes (u ∷ v ∷ us) = Option.map (◌∷◌ (parse_pair u v)) (hex_to_bytes us)

all_digits : (test : ℕ → Bool) (bound : ℕ) → Bool
all_digits test zero = true
all_digits test (suc bound) = test bound && all_digits test bound

all_digits_lem :
    (test : ℕ → Bool) (bound digit : ℕ)
    → digit < bound
    → all_digits test bound ≡ true
    → test digit ≡ true
unfolding all_digits
all_digits_lem test zero digit below all = absurd (omega arith)
all_digits_lem test (suc bound) digit below all = ground (arith, all_digits_lem test bound digit)

-- The first byte that the two functions make of the text for `b`.
abbrev again : ℕ → ℕ
again b = parse_pair (code (hex_digit (b / 16))) (code (hex_digit (b % 16)))

again_table : all_digits (λ b. eqb (again b) b) 256 ≡ true
unfolding all_digits
again_table = refl

again_lem : (b : ℕ) → b < 256 → again b ≡ b
again_lem b h = (eqb_iff (again b) b).0 (all_digits_lem (λ b. eqb (again b) b) 256 b h again_table)

ascii_table : all_digits (λ n. ltb (code (hex_digit n)) 0x10000) 16 ≡ true
unfolding all_digits
ascii_table = refl

hex_digit_ascii : (n : ℕ) → n < 16 → ltb (code (hex_digit n)) 0x10000 ≡ true
hex_digit_ascii n h = all_digits_lem (λ n. ltb (code (hex_digit n)) 0x10000) 16 n h ascii_table

sign_table : all_digits (λ n. not (eqb (code (hex_digit n)) b'#')) 16 ≡ true
unfolding all_digits
sign_table = refl

-- No digit is the sign '#'.
pub hex_digit-sign : (n : ℕ) → n < 16 → eqb (code (hex_digit n)) b'#' ≡ false
hex_digit-sign n h =
    ground (arith, all_digits_lem (λ n. not (eqb (code (hex_digit n)) b'#')) 16 n h sign_table)

units-cons :
    (c : Char) (s : String)
    → ltb (code c) 0x10000 ≡ true
    → units (String.◌∷◌ c s) ≡ code c ∷ units s
units-cons c s h = rw h refl

pub units-bytes_to_hex :
    (b : ℕ) (bs : List ℕ)
    → b < 256
    → units (bytes_to_hex (b ∷ bs))
      ≡ code (hex_digit (b / 16)) ∷ code (hex_digit (b % 16)) ∷ units (bytes_to_hex bs)
unfolding bytes_to_hex
units-bytes_to_hex b bs h =
    units-cons (hex_digit (b / 16)) (String.◌∷◌ (hex_digit (b % 16)) (bytes_to_hex bs))
      (hex_digit_ascii (b / 16) (omega arith))
    ∙ ap (◌∷◌ (code (hex_digit (b / 16))))
        (units-cons (hex_digit (b % 16)) (bytes_to_hex bs) (hex_digit_ascii (b % 16) (omega arith)))

-- Reading back the hexadecimal text of a byte string gives the byte string, whatever it is.
pub hex_to_bytes-bytes_to_hex :
    (bs : List ℕ) → All (λ b. b < 256) bs → hex_to_bytes (units (bytes_to_hex bs)) ≡ some bs
unfolding hex_to_bytes
hex_to_bytes-bytes_to_hex [] h = unfold bytes_to_hex in refl
hex_to_bytes-bytes_to_hex (b ∷ bs) (h, hs) =
    rw (units-bytes_to_hex b bs h, hex_to_bytes-bytes_to_hex bs hs)
      (ap (λ x. some (x ∷ bs)) (again_lem b h))
