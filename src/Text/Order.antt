-- ===== src/Text/Order.antt =====
-- The order by which `Array.prototype.sort` sorts pubkeys. It compares code units; on the
-- hexadecimal strings that are sorted these are the code points.
use Prim.Native.Char.{code}
use Prim.Native.String.{String, [], ◌∷◌}
use text.Mathlib.TextEquality.{codes_equal}
use text.Mathlib.TextPositions.{compare_self}
use open_dating.Prelude.{◌≡◌, refl, Bool, true, false, if◌then◌else◌, ltb, arith}
use mathlib.Core.Path.{ap₂}

-- `s < t`.
unfoldable pub before : String → String → Bool
before s [] = false
before [] (d ∷ t) = true
before (c ∷ s) (d ∷ t) =
    let rest = before s t in
    if ltb (code c) (code d) then true else if ltb (code d) (code c) then false else rest

pub before_asymm : (s t : String) → before s t ≡ true → before t s ≡ false
unfolding before
before_asymm [] [] h = refl
before_asymm [] (d ∷ t) h = refl
before_asymm (c ∷ s) [] h = ground arith
before_asymm (c ∷ s) (d ∷ t) h = ground (arith, before_asymm s t)

pub before_total : (s t : String) → before s t ≡ false → before t s ≡ false → s ≡ t
unfolding before
before_total [] [] h k = refl
before_total [] (d ∷ t) h k = ground arith
before_total (c ∷ s) [] h k = ground arith
before_total (c ∷ s) (d ∷ t) h k =
    let same : code c ≡ code d = ground arith in
    ap₂ ◌∷◌ (codes_equal c d (rw same (compare_self (code d))))
      (before_total s t (ground arith) (ground arith))
