-- ===== src/Prelude/Counting.antt =====
-- How many rows meet a condition, and the tables where one does at most.
use open_dating.Prelude.Tests.{if◌then◌else◌, Bool-cases}
use open_dating.Prelude.Tables.{exists, first, select, delete_from, changes}
use open_dating.Prelude.TableLaws.{exists_none, delete_from-eq_self}
use Prim.Native.Nat.{◌≤◌, ◌+◌}
use mathlib.Core.Path.{◌≡◌, refl}
use mathlib.Core.Logic.{inl, inr}
use mathlib.Core.Bool.{Bool, true, false, not, ◌&&◌}
use mathlib.Core.Option.{some}
use mathlib.Core.List.{List, [], ◌∷◌, ◌++◌}
use native.Mathlib.Omega.{arith}

module _ {ℓ} {A : Type ℓ} where
  pub not-exists_of_changes : (p : A → Bool) (xs : List A) → changes p xs ≡ 0 → exists p xs ≡ false
  unfolding exists changes
  not-exists_of_changes p [] h = refl
  not-exists_of_changes p (x ∷ xs) h = ground (arith, not-exists_of_changes p xs)

  pub exists_of_first_other :
      (p t : A → Bool) (xs : List A) {r : A} → first p xs ≡ some r → t r ≡ true → exists t xs ≡ true
  unfolding first exists
  exists_of_first_other p t [] {r} e h = ground arith
  exists_of_first_other p t (x ∷ xs) {r} e h = elim (Bool-cases (p x)) [
    | inl k ↦
        let same : x ≡ r = ground (arith, e, k) in let met : t x ≡ true = rw same h in rw met refl
    | inr k ↦ ground (arith, k, exists_of_first_other p t xs {r = r})
  ]

module _ {ℓ} {A : Type ℓ} (p : A → Bool) where
  pub changes-append : (xs ys : List A) → changes p (xs ++ ys) ≡ changes p xs + changes p ys
  unfolding changes
  changes-append [] ys = omega arith
  changes-append (x ∷ xs) ys = ground (arith, changes-append xs ys)

  pub changes-append_one :
      (xs : List A) (x : A) → changes p (xs ++ x ∷ []) ≡ changes p xs + (if p x then 1 else 0)
  unfolding changes
  changes-append_one xs x = ground (arith, changes-append xs (x ∷ []))

  pub first-append_other : (xs : List A) (x : A) → p x ≡ false → first p (xs ++ x ∷ []) ≡ first p xs
  unfolding first
  first-append_other [] x h = rw h refl
  first-append_other (y ∷ xs) x h = ground (arith, first-append_other xs x h)

  pub changes-delete_from_le :
      (q : A → Bool) (xs : List A) → changes p (delete_from q xs) ≤ changes p xs
  unfolding changes delete_from
  changes-delete_from_le q [] = omega arith
  changes-delete_from_le q (x ∷ xs) = ground (arith, changes-delete_from_le q xs)

  -- The only row that meets `p` is deleted with the rows that meet `q`.
  pub changes-delete_first :
      (q : A → Bool) (xs : List A) {r : A}
      → first p xs ≡ some r
      → q r ≡ true
      → changes p xs ≤ 1
      → changes p (delete_from q xs) ≡ 0
  unfolding changes first delete_from
  changes-delete_first q [] {r} e h k = ground arith
  changes-delete_first q (x ∷ xs) {r} e h k = elim (Bool-cases (p x)) [
    | inl t ↦
        let same : x ≡ r = ground (arith, e, t) in
        let gone : q x ≡ true = rw same h in
        rw gone (ground (arith, t, changes-delete_from_le q xs))
    | inr f ↦ ground (arith, f, changes-delete_first q xs {r = r})
  ]

  -- What meets `p` is there still, if the only row that meets `q` does not meet `p`.
  pub first-delete_from_other :
      (q : A → Bool) (xs : List A)
      → exists (λ x. q x && not (p x)) xs ≡ true
      → changes q xs ≤ 1
      → first p (delete_from q xs) ≡ first p xs
  unfolding exists changes first delete_from
  first-delete_from_other q [] e k = refl
  first-delete_from_other q (x ∷ xs) e k = elim (Bool-cases (q x)) [
    | inl t ↦
        let none_left : changes q xs ≡ 0 = ground (arith, t) in
        let absent = not-exists_of_changes q xs none_left in
        let kept = delete_from-eq_self q xs absent in
        let lone = exists_none (λ x. q x && not (p x)) q xs (λ y h. ground (arith, h)) absent in
        rw t (rw kept (ground (arith, e, t, lone)))
    | inr f ↦ ground (arith, f, first-delete_from_other q xs)
  ]

module _ {ℓ} {A : Type ℓ} (p q : A → Bool) where
  -- Where one row at most meets `q`, and the first that does not meet `p`, none meets both.
  pub not-exists_both :
      (xs : List A) {r : A}
      → first q xs ≡ some r
      → p r ≡ false
      → changes q xs ≤ 1
      → exists (λ x. q x && p x) xs ≡ false
  unfolding exists changes first
  not-exists_both [] {r} e h k = refl
  not-exists_both (x ∷ xs) {r} e h k = elim (Bool-cases (q x)) [
    | inl t ↦
        let none_left : changes q xs ≡ 0 = ground (arith, t) in
        let absent = not-exists_of_changes q xs none_left in
        let lone = exists_none (λ x. q x && p x) q xs (λ y h. ground (arith, h)) absent in
        let same : x ≡ r = ground (arith, e, t) in
        let missed : p x ≡ false = rw same h in rw (t, missed) lone
    | inr f ↦ ground (arith, f, not-exists_both xs {r = r})
  ]

  pub select-delete_from :
      (xs : List A)
      → exists (λ x. q x && p x) xs ≡ false
      → select p (delete_from q xs) ≡ select p xs
  unfolding exists select delete_from
  select-delete_from [] h = refl
  select-delete_from (x ∷ xs) h = ground (arith, select-delete_from xs)

module _ {ℓ} {A : Type ℓ} (p : A → Bool) where
  pub select-append_other :
      (xs : List A) (x : A) → p x ≡ false → select p (xs ++ x ∷ []) ≡ select p xs
  unfolding select
  select-append_other [] x h = rw h refl
  select-append_other (y ∷ xs) x h = ground (arith, select-append_other xs x h)
