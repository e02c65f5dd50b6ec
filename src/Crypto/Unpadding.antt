-- ===== src/Crypto/Unpadding.antt =====
-- What is padded reads back: src/protocols/opendating/crypto/encryption.ts.
use native.Mathlib.Nat.{mod-lt, div-add-mod}
use open_dating.Prelude.{
  length-append, take-append, ℕ, zero, suc, ◌+◌, ◌-◌, ◌*◌, ◌/◌, ◌≤◌, ◌<◌, ◌≡◌, refl, ap, sym, ◌∙◌,
  List, ◌++◌, ◌⊎◌, length, ok, thrown, arith, ltb, leb, Bool-cases, inl, inr,
}
use open_dating.Crypto.Padding.{
  chunk, calc_padded_len, zeros, length_prefix, fill, pad, slice_unpadded, unpad,
}

length-zeros : (n : ℕ) → length (zeros n) ≡ n
unfolding zeros
length-zeros zero = refl
length-zeros (suc n) = ap suc (length-zeros n)

chunk-pos : (n : ℕ) → 0 < chunk n
unfolding chunk
chunk-pos n = ground arith

round_up : (n c : ℕ) → 0 < c → 0 < n → n ≤ c * ((n - 1) / c + 1)
round_up n c hc hn = let m = mod-lt (n - 1) hc in let e = div-add-mod (n - 1) c in omega arith

-- A plaintext of at least one byte has a padded length, which is at least its own length and at
-- least 32; an empty plaintext has none.
pub calc_padded_len-le :
    (n : ℕ)
    → ((n ≡ 0) × (calc_padded_len n ≡ thrown "Plaintext must be at least 1 byte"))
      ⊎ ((m : ℕ) × (calc_padded_len n ≡ ok m) × (n ≤ m) × (32 ≤ m))
unfolding calc_padded_len
calc_padded_len-le n = elim (Bool-cases (ltb n 1)) [
  | inl h ↦ inl (ground arith, rw h refl)
  | inr h ↦ elim (Bool-cases (leb n 32)) [
    | inl k ↦ inr (32, rw (h, k) refl, ground arith, omega arith)
    | inr k ↦
        let m = chunk n * ((n - 1) / chunk n + 1) in
        let r = round_up n (chunk n) (chunk-pos n) (ground arith) in
        inr (m, rw (h, k) refl, r, ground (arith, r))
  ]
]

pub calc_padded_len-32 : (n m : ℕ) → calc_padded_len n ≡ ok m → 32 ≤ m
calc_padded_len-32 n m e = elim (calc_padded_len-le n) [
  | inl (_, f) ↦ absurd (ground (arith, sym f ∙ e))
  | inr (k, f, _, h) ↦ let same : k ≡ m = ground (arith, sym f ∙ e) in omega arith
]

slice-fill :
    (xs : List ℕ) (k : ℕ) → 0 < length xs → slice_unpadded (length xs) (xs ++ zeros k) ≡ ok xs
unfolding slice_unpadded
slice-fill xs k h =
    let e = take-append xs (zeros k) in let l = length-append xs (zeros k) in ground (arith, e, l)

-- A filled buffer starts with the length, which reads back.
unpad-prefix :
    (xs rest : List ℕ)
    → 0 < length xs
    → length xs < 2147483648
    → unpad (length_prefix (length xs) ++ xs ++ rest) ≡ slice_unpadded (length xs) (xs ++ rest)
unfolding unpad
unpad-prefix xs rest h k = elim (Bool-cases (ltb (length xs) 65536)) [
  | inl e ↦ rw e (ground arith)
  | inr e ↦ rw e (ap (λ n. slice_unpadded n (xs ++ rest)) (ground (arith, e)))
]

pub fill_lem :
    (m : ℕ) (xs : List ℕ)
    → ((m < length xs) × (fill m xs ≡ thrown "RangeError: offset is out of bounds"))
      ⊎ ((length xs ≤ m) × (fill m xs ≡ ok (xs ++ zeros (m - length xs))))
unfolding fill
fill_lem m xs = elim (Bool-cases (ltb m (length xs))) [
  | inl h ↦ inl (ground arith, rw h refl)
  | inr h ↦ inr (ground arith, rw h refl)
]

calc_padded_len-pos : (n m : ℕ) → calc_padded_len n ≡ ok m → 0 < n
unfolding calc_padded_len
calc_padded_len-pos n m e = ground arith

-- A plaintext of less than 2 ^ 31 bytes that has a padded length is refused exactly where its
-- length prefix and its bytes do not fit into the padded length; otherwise it is padded to that
-- length, and unpadding gives it back.
pub unpad-pad :
    (xs : List ℕ) (m : ℕ)
    → calc_padded_len (length xs) ≡ ok m
    → length xs < 2147483648
    → ((m < length (length_prefix (length xs)) + length xs)
        × (pad xs ≡ thrown "RangeError: offset is out of bounds"))
      ⊎ ((ys : List ℕ) × (pad xs ≡ ok ys) × (length ys ≡ m) × (unpad ys ≡ ok xs))
unfolding pad
unpad-pad xs m e h =
    let p = length_prefix (length xs) in
    let l = length-append p xs in
    let pos = calc_padded_len-pos (length xs) m e in
    elim (fill_lem m (p ++ xs)) [
      | inl (lt, f) ↦ inl (ground (arith, lt, l), rw (e, pad) f)
      | inr (le, f) ↦
          let z = zeros (m - length (p ++ xs)) in
          inr (
            p ++ xs ++ z,
            rw (e, pad) f,
            ground (arith, length-append (p ++ xs) z, length-zeros (m - length (p ++ xs)), le, l),
            unpad-prefix xs z pos h ∙ slice-fill xs (m - length (p ++ xs)) pos,
          )
    ]
