-- ===== src/Text.antt =====
-- The strings of JavaScript, as far as the code measures, cuts and orders them. `length` counts
-- UTF-16 code units.
mod Order
unfoldable pub use Order.*
use Prim.Native.Char.{Char, code}
use Prim.Native.String
use open_dating.Prelude.{
  ℕ, zero, suc, ◌+◌, ◌-◌, ◌/◌, ◌%◌, String, Bool, true, false, List, [], ◌∷◌, ◌&&◌, ◌||◌, length,
  leb, ltb, if◌then◌else◌, eqb, all,
}

-- The code units of a character: one, or a surrogate pair.
abbrev pub char_units : Char → List ℕ → List ℕ
char_units c rest =
    if ltb (code c) 0x10000
    then code c ∷ rest
    else (0xd800 + (code c - 0x10000) / 0x400) ∷ (0xdc00 + (code c - 0x10000) % 0x400) ∷ rest

abbrev pub units : String → List ℕ
units String.[] = []
units (String.◌∷◌ c s) = char_units c (units s)

-- `s.length`.
abbrev pub length_of : String → ℕ
length_of s = length (units s)

-- `s.substring(0, n)`, for a string whose characters are single code units.
unfoldable pub prefix : ℕ → String → String
prefix zero s = String.[]
prefix (suc n) String.[] = String.[]
prefix (suc n) (String.◌∷◌ c s) = String.◌∷◌ c (prefix n s)

-- `[0-9a-f]` with the flag i, on a code unit.
abbrev pub is_hex_unit : ℕ → Bool
is_hex_unit u =
    (leb b'0' u && leb u b'9') || (leb b'a' u && leb u b'f') || (leb b'A' u && leb u b'F')

-- `/^[0-9a-f]{64}$/i.test(s)`.
unfoldable pub is_pubkey : String → Bool
unfolding all
is_pubkey s = eqb (length_of s) 64 && all is_hex_unit (units s)

-- White space, which `parseInt` and `trim` skip.
abbrev pub is_space : ℕ → Bool
is_space u =
    (leb 9 u && leb u 13)
    || eqb u 32
    || eqb u 0xa0
    || eqb u 0x1680
    || (leb 0x2000 u && leb u 0x200a)
    || eqb u 0x2028
    || eqb u 0x2029
    || eqb u 0x202f
    || eqb u 0x205f
    || eqb u 0x3000
    || eqb u 0xfeff

-- `s.trim()`.
trim_start : String → String
trim_start String.[] = String.[]
trim_start (String.◌∷◌ c s) =
    let rest = trim_start s in if is_space (code c) then rest else String.◌∷◌ c s

abbrev pub is_empty : String → Bool
is_empty String.[] = true
is_empty (String.◌∷◌ c s) = false

trim_end : String → String
trim_end String.[] = String.[]
trim_end (String.◌∷◌ c s) =
    let rest = trim_end s in
    if is_space (code c) && is_empty rest then String.[] else String.◌∷◌ c rest

unfoldable pub trim : String → String
unfolding trim_start trim_end
trim s = trim_end (trim_start s)

-- `toLowerCase` on a hexadecimal digit.
abbrev lower_hex : Char → Char
lower_hex c =
    if eqb (code c) b'A'
    then "a"
    else if eqb (code c) b'B'
    then "b"
    else if eqb (code c) b'C'
    then "c"
    else if eqb (code c) b'D'
    then "d"
    else if eqb (code c) b'E'
    then "e"
    else if eqb (code c) b'F'
    then "f"
    else c

-- `s.toLowerCase()` for a string that `is_pubkey` accepts.
unfoldable pub to_lower_case : String → String
to_lower_case String.[] = String.[]
to_lower_case (String.◌∷◌ c s) = String.◌∷◌ (lower_hex c) (to_lower_case s)
