-- ===== src/Prelude/Membership.antt =====
-- Properties of all the rows of a table, and the rows that stand in it.
use open_dating.Prelude.Tests.{Bool-cases}
use open_dating.Prelude.Tables.{exists, first, delete_from, insert_or_ignore, All}
use open_dating.Prelude.TableLaws.{append-All}
use mathlib.Core.Path.{◌≡◌, refl, subst}
use mathlib.Core.Logic.{◌↔◌, inl, inr}
use mathlib.Core.Bool.{Bool, true, false}
use mathlib.Core.Option.{Option, none, some}
use mathlib.Core.List.{List, [], ◌∷◌, Memᴰ}
use mathlib.Core.List.Memᴰ.{head, tail}
use native.Mathlib.Omega.{arith}

module _ {ℓ κ} {A : Type ℓ} (P : A → Type κ) where
  pub All-weaken : (Q : A → Type κ) (xs : List A) → ((x : A) → P x → Q x) → All P xs → All Q xs
  All-weaken Q [] f h = tt
  All-weaken Q (x ∷ xs) f (h, hs) = (f x h, All-weaken Q xs f hs)

  pub Memᴰ-All : {a : A} (xs : List A) → All P xs → Memᴰ a xs → P a
  Memᴰ-All [] h m = elim m [ ]
  Memᴰ-All (x ∷ xs) (h, hs) (head e) = rw e h
  Memᴰ-All (x ∷ xs) (h, hs) (tail m) = Memᴰ-All xs hs m

  abbrev HoldsIn : Option A → Type κ
  HoldsIn none = Unit
  HoldsIn (some x) = P x

  holds-first : (p : A → Bool) (xs : List A) → All P xs → HoldsIn (first p xs)
  unfolding first
  holds-first p [] h = tt
  holds-first p (x ∷ xs) (h, hs) = elim (Bool-cases (p x)) [
    | inl k ↦ rw k h
    | inr k ↦ rw k (holds-first p xs hs)
  ]

  pub first-All : (p : A → Bool) (xs : List A) (x : A) → All P xs → first p xs ≡ some x → P x
  first-All p xs x h e = subst HoldsIn e (holds-first p xs h)

  pub delete_from-All : (p : A → Bool) (xs : List A) → All P xs → All P (delete_from p xs)
  unfolding delete_from
  delete_from-All p [] h = tt
  delete_from-All p (x ∷ xs) (h, hs) = elim (Bool-cases (p x)) [
    | inl k ↦ rw k (delete_from-All p xs hs)
    | inr k ↦ rw k (h, delete_from-All p xs hs)
  ]

  pub insert_or_ignore-All :
      (p : A → Bool) (row : A) (xs : List A) → P row → All P xs → All P (insert_or_ignore p row xs)
  unfolding insert_or_ignore
  insert_or_ignore-All p row xs h hs = elim (Bool-cases (exists p xs)) [
    | inl k ↦ rw k hs
    | inr k ↦ rw k (append-All P xs (row ∷ []) hs (h, tt))
  ]

-- A test that decides a property finds a row exactly when some row of the table has it.
module _ {ℓ κ} {A : Type ℓ} (p : A → Bool) (P : A → Type κ)
    (decides : (x : A) → (p x ≡ true) ↔ P x) where
  pub found : (xs : List A) → exists p xs ≡ true → (x : A) × Memᴰ x xs × P x
  unfolding exists
  found [] h = absurd (ground (arith, h))
  found (x ∷ xs) h = elim (Bool-cases (p x)) [
    | inl k ↦ (x, head refl, (decides x).0 k)
    | inr k ↦ let (y, m, q) = found xs (rw k at h) in (y, tail m, q)
  ]

  pub exists_of_member : {x : A} (xs : List A) → Memᴰ x xs → P x → exists p xs ≡ true
  unfolding exists
  exists_of_member [] m q = elim m [ ]
  exists_of_member {x} (y ∷ xs) (head e) q =
      let k : p y ≡ true = subst (λ z. p z ≡ true) e ((decides x).1 q) in rw k refl
  exists_of_member {x} (y ∷ xs) (tail m) q =
      let r = exists_of_member {x = x} xs m q in ground (arith, r)

  pub exists_iff : (xs : List A) → (exists p xs ≡ true) ↔ ((x : A) × Memᴰ x xs × P x)
  exists_iff xs = (found xs, λ (x, m, q). exists_of_member {x = x} xs m q)

  pub none_of_not-exists : (xs : List A) → exists p xs ≡ false → All (λ x. ¬ P x) xs
  unfolding exists
  none_of_not-exists [] h = tt
  none_of_not-exists (x ∷ xs) h = elim (Bool-cases (p x)) [
    | inl k ↦ absurd (ground (arith, h, k))
    | inr k ↦ (λ q. ground (arith, (decides x).1 q, k), none_of_not-exists xs (rw k at h))
  ]

  pub not-exists_of_none : (xs : List A) → All (λ x. ¬ P x) xs → exists p xs ≡ false
  unfolding exists
  not-exists_of_none [] h = refl
  not-exists_of_none (x ∷ xs) (h, hs) = elim (Bool-cases (p x)) [
    | inl k ↦ absurd (h ((decides x).0 k))
    | inr k ↦ rw k (not-exists_of_none xs hs)
  ]

  pub not-exists_iff : (xs : List A) → (exists p xs ≡ false) ↔ All (λ x. ¬ P x) xs
  not-exists_iff xs = (none_of_not-exists xs, not-exists_of_none xs)
