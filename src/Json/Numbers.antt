-- ===== src/Json/Numbers.antt =====
-- The numbers of JavaScript, exactly: n / (d + 1), -(n + 1) / (d + 1), the infinities and NaN.
-- Every double but -0 is one of these.
use open_dating.Prelude.{ℕ, suc, ◌+◌, ◌*◌, ◌/◌, ◌%◌, Bool, true, false, ◌&&◌, ltb, leb, eqb}

pub data Number : Type 0 where
  ratio : ℕ → ℕ → Number
  negative : ℕ → ℕ → Number
  infinite minus_infinite nan : Number

-- A natural number as a JavaScript number.
abbrev pub whole : ℕ → Number
whole n = ratio n 0

-- `x > n` for a natural `n`.
abbrev pub exceeds : Number → ℕ → Bool
exceeds (ratio a d) n = ltb (n * suc d) a
exceeds (negative a d) n = false
exceeds infinite n = true
exceeds minus_infinite n = false
exceeds nan n = false

-- `x < n` for a natural `n`.
abbrev pub is_below : Number → ℕ → Bool
is_below (ratio a d) n = ltb a (n * suc d)
is_below (negative a d) n = true
is_below infinite n = false
is_below minus_infinite n = true
is_below nan n = false

-- `x >= lo && x <= hi`.
abbrev pub is_between : ℕ → ℕ → Number → Bool
is_between lo hi (ratio a d) = leb (lo * suc d) a && leb a (hi * suc d)
is_between lo hi (negative a d) = false
is_between lo hi infinite = false
is_between lo hi minus_infinite = false
is_between lo hi nan = false

-- `Number.isInteger`.
abbrev pub is_integer : Number → Bool
is_integer (ratio a d) = eqb (a % suc d) 0
is_integer (negative a d) = eqb (suc a % suc d) 0
is_integer infinite = false
is_integer minus_infinite = false
is_integer nan = false

-- `Math.round(a / (d + 1))`: the floor of the value plus one half.
abbrev pub round_ratio : ℕ → ℕ → ℕ
round_ratio a d = (2 * a + suc d) / (2 * suc d)
