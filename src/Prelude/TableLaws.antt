-- ===== src/Prelude/TableLaws.antt =====
-- Laws of the table operations, each under a condition on single rows.
use mathlib.Core.Option
use open_dating.Prelude.Tests.{if◌then◌else◌, Bool-cases, Option-cases}
use open_dating.Prelude.Tables.{
  exists, select, first, delete_from, changes, update, insert_or_ignore, insert_or_replace, upsert,
  length, take, drop, All,
}
use Prim.Native.Nat.{◌≤◌, ◌+◌}
use mathlib.Core.Path.{◌≡◌, refl, ap, ◌∙◌}
use mathlib.Core.Logic.{inl, inr}
use mathlib.Core.Bool.{Bool, true, false, not, ◌&&◌, ◌||◌}
use mathlib.Core.Option.{Option, none, some}
use mathlib.Core.List.{List, [], ◌∷◌, ◌++◌}
use native.Mathlib.Omega.{arith}

pub &&-true : (a b : Bool) → a ≡ true → b ≡ true → (a && b) ≡ true
&&-true true true p q = refl
&&-true true false p q = q
&&-true false b p q = p

module _ {ℓ} {A : Type ℓ} where
  module _ (p : A → Bool) where
    pub exists-append : (xs ys : List A) → exists p (xs ++ ys) ≡ (exists p xs || exists p ys)
    unfolding exists
    exists-append [] ys = refl
    exists-append (x ∷ xs) ys = ground (arith, exists-append xs ys)

    pub exists-eq-false : (xs : List A) → ((x : A) → p x ≡ false) → exists p xs ≡ false
    unfolding exists
    exists-eq-false [] h = refl
    exists-eq-false (x ∷ xs) h = ground (arith, h x, exists-eq-false xs h)

    pub exists-insert_or_replace :
        (q : A → Bool) (row : A) (xs : List A)
        → p row ≡ true
        → exists p (insert_or_replace q row xs) ≡ true
    unfolding insert_or_replace exists
    exists-insert_or_replace q row xs h =
        ground (arith, exists-append (delete_from q xs) (row ∷ []))

    pub exists-insert_or_replace_other :
        (q : A → Bool) (row : A) (xs : List A)
        → exists p (insert_or_replace q row xs) ≡ (exists p (delete_from q xs) || p row)
    unfolding insert_or_replace exists
    exists-insert_or_replace_other q row xs =
        ground (arith, exists-append (delete_from q xs) (row ∷ []))

    pub exists-insert_or_ignore :
        (q : A → Bool) (row : A) (xs : List A)
        → exists p (insert_or_ignore q row xs) ≡ (exists p xs || (not (exists q xs) && p row))
    unfolding insert_or_ignore exists
    exists-insert_or_ignore q row xs = ground (arith, exists-append xs (row ∷ []))

    pub first-eq-none : (xs : List A) → exists p xs ≡ false → first p xs ≡ none
    unfolding exists first
    first-eq-none [] h = refl
    first-eq-none (x ∷ xs) h = ground (arith, first-eq-none xs)

    pub exists-of_first : (xs : List A) {x : A} → first p xs ≡ some x → exists p xs ≡ true
    unfolding exists first
    exists-of_first [] {x} h = ground arith
    exists-of_first (y ∷ xs) {x} h = ground (arith, exists-of_first xs {x = x})

    pub first_holds : (xs : List A) {x : A} → first p xs ≡ some x → p x ≡ true
    unfolding first
    first_holds [] {x} h = ground arith
    first_holds (y ∷ xs) {x} h = ground (arith, first_holds xs {x = x})

    pub not-exists_of_first : (xs : List A) → first p xs ≡ none → exists p xs ≡ false
    unfolding exists first
    not-exists_of_first [] h = refl
    not-exists_of_first (y ∷ xs) h = ground (arith, not-exists_of_first xs)

    pub changes-eq-zero : (xs : List A) → exists p xs ≡ false → changes p xs ≡ 0
    unfolding exists changes
    changes-eq-zero [] h = refl
    changes-eq-zero (x ∷ xs) h = ground (arith, changes-eq-zero xs)

    pub exists_of_changes : (xs : List A) → 1 ≤ changes p xs → exists p xs ≡ true
    unfolding exists changes
    exists_of_changes [] h = absurd (omega arith)
    exists_of_changes (x ∷ xs) h = ground (arith, exists_of_changes xs)

    pub length-select-le : (xs : List A) → length (select p xs) ≤ length xs
    unfolding select
    length-select-le [] = omega arith
    length-select-le (x ∷ xs) = ground (arith, length-select-le xs)

    pub select-All : (xs : List A) → All (λ x. p x ≡ true) (select p xs)
    unfolding select
    select-All [] = tt
    select-All (x ∷ xs) = elim (Bool-cases (p x)) [
      | inl h ↦ rw h (h, select-All xs)
      | inr h ↦ rw h (select-All xs)
    ]

  -- Two conditions `p` and `q`.
  module _ (p q : A → Bool) where
    pub exists-delete_from :
        (xs : List A) → ((x : A) → p x ≡ true → q x ≡ true) → exists p (delete_from q xs) ≡ false
    unfolding exists delete_from
    exists-delete_from [] h = refl
    exists-delete_from (x ∷ xs) h = ground (arith, h x, exists-delete_from xs h)

    pub exists-delete_from_other :
        (xs : List A)
        → ((x : A) → p x ≡ true → q x ≡ false)
        → exists p (delete_from q xs) ≡ exists p xs
    unfolding exists delete_from
    exists-delete_from_other [] h = refl
    exists-delete_from_other (x ∷ xs) h = ground (arith, h x, exists-delete_from_other xs h)

    pub exists-delete_from_le :
        (xs : List A) → exists p xs ≡ false → exists p (delete_from q xs) ≡ false
    unfolding exists delete_from
    exists-delete_from_le [] h = refl
    exists-delete_from_le (x ∷ xs) h = ground (arith, exists-delete_from_le xs)

    pub exists_mono :
        (xs : List A)
        → ((x : A) → p x ≡ true → q x ≡ true)
        → exists p xs ≡ true
        → exists q xs ≡ true
    unfolding exists
    exists_mono [] h e = ground arith
    exists_mono (x ∷ xs) h e = ground (arith, h x, exists_mono xs h)

    pub exists_congr : (xs : List A) → ((x : A) → p x ≡ q x) → exists p xs ≡ exists q xs
    unfolding exists
    exists_congr [] h = refl
    exists_congr (x ∷ xs) h = ground (arith, h x, exists_congr xs h)

    -- What an update does to a test `p`, row by row.
    pub exists-update :
        (r : A → Bool) (f : A → A) (xs : List A)
        → ((x : A) → p (if q x then f x else x) ≡ r x)
        → exists p (update q f xs) ≡ exists r xs
    unfolding exists update
    exists-update r f [] h = refl
    exists-update r f (x ∷ xs) h = ground (arith, h x, exists-update r f xs h)

  exists-and :
      (q : A → Bool) (b : Bool) (xs : List A) → exists q xs ≡ true → exists (λ x. q x && b) xs ≡ b
  exists-and q true xs h = exists_congr (λ x. q x && true) q xs (λ x. ground arith) ∙ h
  exists-and q false xs h = exists-eq-false (λ x. q x && false) xs (λ x. ground arith)

  pub exists_none :
      (p q : A → Bool) (xs : List A)
      → ((x : A) → p x ≡ true → q x ≡ true)
      → exists q xs ≡ false
      → exists p xs ≡ false
  exists_none p q xs l e = elim (Bool-cases (exists p xs)) [
    | inl h ↦ absurd (ground (arith, exists_mono p q xs l h, e))
    | inr h ↦ h
  ]

  exists-one : (p : A → Bool) (x : A) → exists p (x ∷ []) ≡ p x
  unfolding exists
  exists-one p x = ground arith

  module _ (p : A → Bool) where
    pub first-append :
        (xs : List A) (x : A) → p x ≡ true → exists p xs ≡ false → first p (xs ++ x ∷ []) ≡ some x
    unfolding exists first
    first-append [] x h e = ground arith
    first-append (y ∷ xs) x h e = ground (arith, first-append xs x h)

    pub first-update :
        (f : A → A) (xs : List A)
        → ((x : A) → p x ≡ true → p (f x) ≡ true)
        → first p (update p f xs) ≡ Option.map f (first p xs)
    unfolding first update
    first-update f [] h = refl
    first-update f (x ∷ xs) h = ground (arith, h x, first-update f xs h)

    -- After an upsert under a key, the key's row is the updated one or the new one.
    pub first-upsert :
        (row : A) (f : A → A) (xs : List A)
        → p row ≡ true
        → ((x : A) → p x ≡ true → p (f x) ≡ true)
        → first p (upsert p row f xs) ≡ some (Option.get_or (Option.map f (first p xs)) row)
    unfolding upsert
    first-upsert row f xs h k = elim (Option-cases (first p xs)) [
      | inl e ↦
          rw (not-exists_of_first p xs e, e) (first-append xs row h (not-exists_of_first p xs e))
      | inr (x, e) ↦ rw (exists-of_first p xs e, e) (rw (first-update f xs k, e) refl)
    ]

    pub exists-upsert :
        (q : A → Bool) (row : A) (f : A → A) (b : Bool) (xs : List A)
        → p row ≡ b
        → ((x : A) → p (if q x then f x else x) ≡ (q x && b))
        → ((x : A) → p x ≡ true → q x ≡ true)
        → exists p (upsert q row f xs) ≡ b
    unfolding upsert
    exists-upsert q row f b xs h k l = elim (Bool-cases (exists q xs)) [
      | inl e ↦ rw e (exists-update p q (λ x. q x && b) f xs k ∙ exists-and q b xs e)
      | inr e ↦ rw e (
          exists-append p xs (row ∷ [])
          ∙ ground (arith, h, exists_none p q xs l e, exists-one p row))
    ]

    pub delete_from-eq_self : (xs : List A) → exists p xs ≡ false → delete_from p xs ≡ xs
    unfolding exists delete_from
    delete_from-eq_self [] h = refl
    delete_from-eq_self (x ∷ xs) h = ground (arith, delete_from-eq_self xs)

    pub insert_or_ignore-eq_self :
        (row : A) (xs : List A) → exists p xs ≡ true → insert_or_ignore p row xs ≡ xs
    unfolding insert_or_ignore
    insert_or_ignore-eq_self row xs h = rw h refl

  -- Cutting a list where it was joined.
  pub length-append : (xs ys : List A) → length (xs ++ ys) ≡ length xs + length ys
  length-append [] ys = omega arith
  length-append (x ∷ xs) ys = ground (arith, length-append xs ys)

  pub take-append : (xs ys : List A) → take (length xs) (xs ++ ys) ≡ xs
  take-append [] ys = refl
  take-append (x ∷ xs) ys = ap (◌∷◌ x) (take-append xs ys)

  pub drop-append : (xs ys : List A) → drop (length xs) (xs ++ ys) ≡ ys
  drop-append [] ys = refl
  drop-append (x ∷ xs) ys = drop-append xs ys

  -- A property of all rows.
  module _ {κ} (P : A → Type κ) where
    pub append-All : (xs ys : List A) → All P xs → All P ys → All P (xs ++ ys)
    append-All [] ys h k = k
    append-All (x ∷ xs) ys (h, hs) k = (h, append-All xs ys hs k)

    pub update-All :
        (q : A → Bool) (f : A → A) (xs : List A)
        → ((x : A) → P x → P (f x))
        → All P xs
        → All P (update q f xs)
    unfolding update
    update-All q f [] h hs = tt
    update-All q f (x ∷ xs) h (k, hs) = elim (Bool-cases (q x)) [
      | inl e ↦ rw e (h x k, update-All q f xs h hs)
      | inr e ↦ rw e (k, update-All q f xs h hs)
    ]

    pub upsert-All :
        (q : A → Bool) (row : A) (f : A → A) (xs : List A)
        → P row
        → ((x : A) → P x → P (f x))
        → All P xs
        → All P (upsert q row f xs)
    unfolding upsert
    upsert-All q row f xs r h hs = elim (Bool-cases (exists q xs)) [
      | inl e ↦ rw e (update-All q f xs h hs)
      | inr e ↦ rw e (append-All xs (row ∷ []) hs (r, tt))
    ]
