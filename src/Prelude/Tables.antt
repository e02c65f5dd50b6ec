-- ===== src/Prelude/Tables.antt =====
-- A table is the list of its rows. `select`, `delete_from`, `update` and the two inserts are the
-- statements that the code sends to the database, with their conditions as Boolean tests.
use Prim.Native.Nat.{ℕ, zero, suc}
use mathlib.Core.Bool.{Bool, true, false, ◌&&◌, ◌||◌}
use mathlib.Core.Option.{Option, none, some}
use mathlib.Core.List.{List, [], ◌∷◌, ◌++◌}
use open_dating.Prelude.Tests.{if◌then◌else◌}

module _ {ℓ} {A : Type ℓ} where
  abbrev pub length : List A → ℕ
  length [] = 0
  length (x ∷ xs) = suc (length xs)

  -- The first `n` elements: `slice(0, n)`, and a `LIMIT n`.
  abbrev pub take : ℕ → List A → List A
  take zero xs = []
  take (suc n) [] = []
  take (suc n) (x ∷ xs) = x ∷ take n xs

  -- The elements from place `n` on: `slice(n)`.
  abbrev pub drop : ℕ → List A → List A
  drop zero xs = xs
  drop (suc n) [] = []
  drop (suc n) (x ∷ xs) = drop n xs

  abbrev pub All {κ} : (A → Type κ) → List A → Type κ
  All P [] = Unit
  All P (x ∷ xs) = P x × All P xs

  module _ (p : A → Bool) where
    unfoldable pub exists : List A → Bool
    exists [] = false
    exists (x ∷ xs) = p x || exists xs

    unfoldable pub all : List A → Bool
    all [] = true
    all (x ∷ xs) = p x && all xs

    -- `SELECT … WHERE p`.
    unfoldable pub select : List A → List A
    select [] = []
    select (x ∷ xs) = if p x then x ∷ select xs else select xs

    -- The first row of a `SELECT … WHERE p`, or none.
    unfoldable pub first : List A → Option A
    first [] = none
    first (x ∷ xs) = if p x then some x else first xs

    -- `DELETE … WHERE p`.
    unfoldable pub delete_from : List A → List A
    delete_from [] = []
    delete_from (x ∷ xs) = if p x then delete_from xs else x ∷ delete_from xs

    -- How many rows a statement with this condition changes.
    unfoldable pub changes : List A → ℕ
    changes [] = 0
    changes (x ∷ xs) = if p x then suc (changes xs) else changes xs

    -- `UPDATE … SET f WHERE p`.
    unfoldable pub update : (A → A) → List A → List A
    update f [] = []
    update f (x ∷ xs) = (if p x then f x else x) ∷ update f xs

    -- `INSERT OR IGNORE`, where `p` is the conflict with a row that is there.
    unfoldable pub insert_or_ignore : A → List A → List A
    insert_or_ignore row xs = if exists xs then xs else xs ++ row ∷ []

    -- `INSERT OR REPLACE`.
    unfoldable pub insert_or_replace : A → List A → List A
    insert_or_replace row xs = delete_from xs ++ row ∷ []

    -- `INSERT … ON CONFLICT DO UPDATE SET f`.
    unfoldable pub upsert : A → (A → A) → List A → List A
    upsert row f xs = if exists xs then update f xs else xs ++ row ∷ []

    -- The place of a row in `ORDER BY`, where `p` says which rows stand before it.
    unfoldable pub place_row : A → List A → List A
    place_row row [] = row ∷ []
    place_row row (x ∷ xs) = if p x then x ∷ place_row row xs else row ∷ x ∷ xs

  -- `ORDER BY`, where `before x y` says that `x` stands before `y`. Rows that tie keep their order,
  -- which SQL leaves open.
  unfoldable pub order_by : (A → A → Bool) → List A → List A
  unfolding place_row
  order_by before [] = []
  order_by before (x ∷ xs) = place_row (λ y. before y x) x (order_by before xs)
