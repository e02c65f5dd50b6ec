-- ===== src/Safety/Adults.antt =====
-- Which profiles are stored: src/protocols/opendating/services/profile/service.ts.
use open_dating.Prelude.{
  ◌≤◌, String, Bool, true, false, Option, some, none, ◌≡◌, ◌↔◌, ◌⊎◌, inl, inr, refl, ◌&&◌, ltb, eqb,
  arith, Bool-cases, Option-cases,
}
use open_dating.Json.{
  Json, null, bool, num, str, arr, obj, Fields, get, as_string, Number, ratio, negative, infinite,
  minus_infinite, nan, is_integer, is_between, is_below, exceeds,
}
use open_dating.Text.{length_of}
use open_dating.Store.{Db}
use open_dating.World.{World}
use open_dating.Protocol.Validation.{Request}
use open_dating.Services.Profile.{
  validate_fields, validate_profile_content, store_profile, check_age, check_number, check_lists,
  name_of, is_long_text, is_short_array,
}

-- An age that a profile may state: none, or a whole number from 18 to 120.
abbrev pub is_adult : Option Json → Bool
is_adult none = true
is_adult (some (num n)) = is_integer n && is_between 18 120 n
is_adult (some null) = false
is_adult (some (bool b)) = false
is_adult (some (str s)) = false
is_adult (some (arr js)) = false
is_adult (some (obj fs)) = false

-- What the rules for a profile say, one by one.
pub record IsAcceptable (p : Fields) : Type 0 where
  pub named : 1 ≤ length_of (name_of (as_string (get "display_name" p)))
  pub short_name : length_of (name_of (as_string (get "display_name" p))) ≤ 80
  pub adult : is_adult (get "age" p) ≡ true
  pub short_bio : is_long_text 2000 (as_string (get "bio" p)) ≡ false
  pub few_interests : is_short_array 30 (get "interests" p) ≡ true
  pub few_photos : is_short_array 9 (get "photos" p) ≡ true

check_number-cases :
    (n : Number)
    → ((check_number n ≡ none) × ((is_integer n && is_between 18 120 n) ≡ true))
      ⊎ ((m : String) × (check_number n ≡ some m) × ((is_integer n && is_between 18 120 n) ≡ false))
check_number-cases (ratio a d) = elim (Bool-cases (is_integer (ratio a d))) [
  | inr h ↦ inr ("age must be a whole number", rw h refl, rw h refl)
  | inl h ↦ elim (Bool-cases (is_below (ratio a d) 18)) [
    | inl l ↦ inr ("age must be at least 18", rw (h, l) refl, rw h (ground (arith, l)))
    | inr l ↦ elim (Bool-cases (exceeds (ratio a d) 120)) [
      | inl g ↦ inr ("age must be 120 or under", rw (h, l, g) refl, rw h (ground (arith, g)))
      | inr g ↦ inl (rw (h, l, g) refl, rw h (ground (arith, l, g)))
    ]
  ]
]
check_number-cases (negative a d) = elim (Bool-cases (is_integer (negative a d))) [
  | inl h ↦ inr ("age must be at least 18", rw h refl, ground arith)
  | inr h ↦ inr ("age must be a whole number", rw h refl, ground arith)
]
check_number-cases infinite = inr (_, refl, refl)
check_number-cases minus_infinite = inr (_, refl, refl)
check_number-cases nan = inr (_, refl, refl)

check_age-cases :
    (j : Option Json)
    → ((check_age j ≡ none) × (is_adult j ≡ true))
      ⊎ ((m : String) × (check_age j ≡ some m) × (is_adult j ≡ false))
check_age-cases none = inl (refl, refl)
check_age-cases (some (num n)) = check_number-cases n
check_age-cases (some null) = inr (_, refl, refl)
check_age-cases (some (bool b)) = inr (_, refl, refl)
check_age-cases (some (str s)) = inr (_, refl, refl)
check_age-cases (some (arr js)) = inr (_, refl, refl)
check_age-cases (some (obj fs)) = inr (_, refl, refl)

check_lists-eq-none_iff :
    (p : Fields)
    → (check_lists p ≡ none) ↔ (
        (is_long_text 2000 (as_string (get "bio" p)) ≡ false)
        × (is_short_array 30 (get "interests" p) ≡ true)
        × (is_short_array 9 (get "photos" p) ≡ true))
check_lists-eq-none_iff p =
    let b = is_long_text 2000 (as_string (get "bio" p)) in
    let i = is_short_array 30 (get "interests" p) in
    let f = is_short_array 9 (get "photos" p) in
    elim (Bool-cases b) [
      | inl e ↦ (λ h. absurd (ground (arith, rw e at h)), λ h. absurd (ground (arith, e, h.0)))
      | inr e ↦ elim (Bool-cases i) [
        | inr g ↦
            (λ h. absurd (ground (arith, rw (e, g) at h)), λ h. absurd (ground (arith, g, h.1)))
        | inl g ↦ elim (Bool-cases f) [
          | inl k ↦ (λ h. (e, g, k), λ h. rw (e, g, k) refl)
          | inr k ↦ (
            λ h. absurd (ground (arith, rw (e, g, k) at h)),
            λ h. absurd (ground (arith, k, h.1)),
          )
        ]
      ]
    ]

-- The validation of a profile accepts exactly what the rules allow: a name of 1 to 80 characters
-- after trimming, no age or a whole number from 18 to 120, a bio of at most 2000 characters, at most
-- 30 interests and at most 9 photos.
pub validate_fields-eq-none_iff : (p : Fields) → (validate_fields p ≡ none) ↔ IsAcceptable p
unfolding validate_fields
validate_fields-eq-none_iff p =
    let name = name_of (as_string (get "display_name" p)) in
    let (to, from) = check_lists-eq-none_iff p in
    elim (Bool-cases (eqb (length_of name) 0)) [
      | inl e ↦ (
        λ h. absurd (ground (arith, rw (e, validate_fields) at h)),
        λ h. absurd (ground (arith, e, h.named)),
      )
      | inr e ↦ elim (Bool-cases (ltb 80 (length_of name))) [
        | inl l ↦ (
          λ h. absurd (ground (arith, rw l at (rw (e, validate_fields) at h))),
          λ h. absurd (ground (arith, l, h.short_name)),
        )
        | inr l ↦ elim (check_age-cases (get "age" p)) [
          | inr (m, a, n) ↦ (
            λ h. absurd (ground (arith, rw a at (rw l at (rw (e, validate_fields) at h)))),
            λ h. absurd (ground (arith, n, h.adult)),
          )
          | inl (a, y) ↦ (
            λ h.
                (let rules = to (rw a at (rw l at (rw (e, validate_fields) at h))) in
                  record {
                    named = ground (arith, e);
                    short_name = ground (arith, l);
                    adult = y;
                    short_bio = rules.0;
                    few_interests = rules.1;
                    few_photos = rules.2;
                  }),
            λ h.
                rw (e, validate_fields)
                  (rw l (rw a (from (h.short_bio, h.few_interests, h.few_photos)))),
          )
        ]
      ]
    ]

-- A profile that states an age and is not of a whole number from 18 to 120 is never stored: the
-- database is unchanged.
pub store_profile-minor :
    (w : World) (request : Request) (sender : String) (p : Fields) (db : Db)
    → is_adult (get "age" p) ≡ false
    → (store_profile w request sender (obj p) db).1 ≡ db
unfolding store_profile validate_profile_content
store_profile-minor w request sender p db h = elim (Option-cases (validate_fields p)) [
  | inr (m, e) ↦ rw (e, store_profile, validate_profile_content) refl
  | inl e ↦ absurd (ground (arith, h, ((validate_fields-eq-none_iff p).0 e).adult))
]
