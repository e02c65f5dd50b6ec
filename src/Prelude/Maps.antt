-- ===== src/Prelude/Maps.antt =====
-- The `Map` of JavaScript with strings as keys: its entries in the order of insertion.
use Prim.Native.String.{String}
use mathlib.Core.Option.{Option, none, some}
use mathlib.Core.List.{List, [], ◌∷◌}
use text.Mathlib.Text.{◌==◌}
use mathlib.Core.Path.{◌≡◌, refl}
use native.Mathlib.Omega.{arith}
use text.Mathlib.TextEquality.{eq_iff}
use open_dating.Prelude.Tests.{if◌then◌else◌}

module _ {ℓ} {Value : Type ℓ} where
  -- `m.get(key)`.
  unfoldable pub lookup : (key : String) (entries : List (String × Value)) → Option Value
  lookup key [] = none
  lookup key ((name, value) ∷ rest) = if name == key then some value else lookup key rest

  -- `m.set(key, value)`: an entry that is there keeps its place.
  unfoldable pub insert :
      (key : String) (value : Value) (entries : List (String × Value)) → List (String × Value)
  insert key value [] = (key, value) ∷ []
  insert key value ((name, old) ∷ rest) =
      if name == key then (name, value) ∷ rest else (name, old) ∷ insert key value rest

  pub lookup-insert :
      (entries : List (String × Value)) (written key : String) (value : Value)
      → lookup key (insert written value entries)
        ≡ (if written == key then some value else lookup key entries)
  unfolding lookup insert
  lookup-insert [] written key value = refl
  lookup-insert ((name, old) ∷ rest) written key value = ground (
    arith,
    eq_iff written key,
    eq_iff name written,
    eq_iff name key,
    lookup-insert rest written key value,
  )
