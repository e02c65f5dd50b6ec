-- ===== src/Safety/Candidates.antt =====
-- Who is granted as a candidate: `generateGrants` of
-- src/protocols/opendating/services/discovery/service.ts.
use open_dating.Prelude.{
  place_row, ℕ, zero, suc, ◌+◌, ◌-◌, ◌≤◌, String, Bool, false, List, [], ◌∷◌, ◌++◌, ◌≡◌, refl, ◌∙◌,
  ◌==◌, ◌||◌, leb, ltb, All, exists, select, take, order_by, length, length-append, exists-append,
  arith, eq_refl, eq_iff, Bool-cases, Option-cases, inl, inr,
}
use open_dating.Store.{Db, IndexRow}
use open_dating.World.{World}
use open_dating.Safety.Eligible.{IsEligible, IsOffered, offered-IsEligible}
use open_dating.Services.Discovery.Grants.{
  Tier, precision, cell_of, Viewer, ViewerPrefs, GrantRow, is_match_row, query_tier, collect, widen,
  visit_tier, max_precision, generate_grants, grant_token, bucket, ranks_before, geo_tiers,
}

module _ {ℓ κ} {A : Type ℓ} (P : A → Type κ) where
  All-append : (xs ys : List A) → All P xs → All P ys → All P (xs ++ ys)
  All-append [] ys h k = k
  All-append (x ∷ xs) ys (h, hs) k = (h, All-append xs ys hs k)

  All-take : (n : ℕ) (xs : List A) → All P xs → All P (take n xs)
  All-take zero xs h = tt
  All-take (suc n) [] h = tt
  All-take (suc n) (x ∷ xs) (h, hs) = (h, All-take n xs hs)

module _ {ℓ κ} {A : Type ℓ} (P : A → Type κ) where
  place_row-All : (p : A → Bool) (x : A) (xs : List A) → P x → All P xs → All P (place_row p x xs)
  unfolding place_row
  place_row-All p x [] h hs = (h, tt)
  place_row-All p x (y ∷ xs) h (k, hs) = elim (Bool-cases (p y)) [
    | inl e ↦ rw e (k, place_row-All p x xs h hs)
    | inr e ↦ rw e (h, (k, hs))
  ]

  order_by-All : (p : A → A → Bool) (xs : List A) → All P xs → All P (order_by p xs)
  unfolding order_by
  order_by-All p [] hs = tt
  order_by-All p (x ∷ xs) (h, hs) =
      place_row-All (λ y. p y x) x (order_by p xs) h (order_by-All p xs hs)

module _ (viewer : String) (prefs : ViewerPrefs) (now : ℕ) (db : Db) where
  All-IsOffered_later :
      (x : IndexRow) (rows rs : List IndexRow)
      → All (IsOffered viewer prefs now db rows) rs
      → All (IsOffered viewer prefs now db (x ∷ rows)) rs
  unfolding exists
  All-IsOffered_later x rows [] h = tt
  All-IsOffered_later x rows (r ∷ rs) (h, hs) =
      (ground (arith, h), All-IsOffered_later x rows rs hs)

  select-IsOffered :
      (tier : Tier) (cell : String) (rows : List IndexRow)
      → All
          (IsOffered viewer prefs now db rows)
          (select (is_match_row viewer prefs now db tier cell) rows)
  unfolding select exists
  select-IsOffered tier cell [] = tt
  select-IsOffered tier cell (x ∷ rows) =
      elim (Bool-cases (is_match_row viewer prefs now db tier cell x)) [
        | inl h ↦ rw h (
          ground (arith, h, eq_refl x.member_id),
          All-IsOffered_later x rows _ (select-IsOffered tier cell rows),
        )
        | inr h ↦ rw h (All-IsOffered_later x rows _ (select-IsOffered tier cell rows))
      ]

  query_tier-IsOffered :
      (tier : Tier) (cell : String) (limit : ℕ)
      → All
          (IsOffered viewer prefs now db db.od_discovery_index)
          (query_tier viewer prefs now db tier cell limit)
  unfolding query_tier
  query_tier-IsOffered tier cell limit =
      All-take _ limit _
        (order_by-All _ ranks_before _ (select-IsOffered tier cell db.od_discovery_index))

-- No two grants of a list are for the same member.
unfoldable pub IsDistinct : List GrantRow → Type 0
IsDistinct [] = Unit
IsDistinct (g ∷ gs) = (exists (λ h. h.candidate_id == g.candidate_id) gs ≡ false) × IsDistinct gs

IsDistinct-append :
    (gs : List GrantRow) (g : GrantRow)
    → IsDistinct gs
    → exists (λ h. h.candidate_id == g.candidate_id) gs ≡ false
    → IsDistinct (gs ++ g ∷ [])
unfolding IsDistinct exists
IsDistinct-append [] g h e = (refl, tt)
IsDistinct-append (x ∷ gs) g (h, hs) e = (
  exists-append (λ k. k.candidate_id == x.candidate_id) gs (g ∷ [])
      ∙ ground
          (arith, h, e, eq_iff x.candidate_id g.candidate_id, eq_iff g.candidate_id x.candidate_id),
  IsDistinct-append gs g hs (ground (arith, e)),
)

-- A page of at most `want` grants, for different members, each of them eligible.
pub record IsPage (viewer : String) (prefs : ViewerPrefs) (now : ℕ) (db : Db) (want : ℕ)
    (gs : List GrantRow) : Type 0 where
  pub fits : length gs ≤ want
  pub distinct : IsDistinct gs
  pub eligible : All (IsEligible viewer prefs now db) gs

module _ (w : World) (viewer : String) (prefs : ViewerPrefs) (now want : ℕ) (db : Db) where
  IsPage-append :
      (gs : List GrantRow) (g : GrantRow)
      → IsPage viewer prefs now db want gs
      → length gs + 1 ≤ want
      → IsEligible viewer prefs now db g
      → exists (λ h. h.candidate_id == g.candidate_id) gs ≡ false
      → IsPage viewer prefs now db want (gs ++ g ∷ [])
  IsPage-append gs g p l e n = record {
    fits = ground (arith, length-append gs (g ∷ []), l);
    distinct = IsDistinct-append gs g p.distinct n;
    eligible = All-append (IsEligible viewer prefs now db) gs (g ∷ []) p.eligible (e, tt);
  }

  collect-IsPage :
      (tier : Tier) (rows : List IndexRow) (gs : List GrantRow)
      → All (IsOffered viewer prefs now db db.od_discovery_index) rows
      → length gs + 1 ≤ want
      → IsPage viewer prefs now db want gs
      → IsPage viewer prefs now db want (collect w viewer now want tier rows gs)
  unfolding collect
  collect-IsPage tier [] gs h l p = p
  collect-IsPage tier (r ∷ rows) gs (h, hs) l p =
      let g : GrantRow = record {
        candidate_id = r.member_id;
        grant_token = grant_token w viewer r.member_id now;
        distance_bucket = bucket tier;
        granted_at = now;
      } in
      let known = r.member_id == viewer || exists (λ k. k.candidate_id == r.member_id) gs in
      elim (Bool-cases known) [
        | inl k ↦ rw (k, collect) (collect-IsPage tier rows gs hs l p)
        | inr k ↦
            let e : IsEligible viewer prefs now db g = offered-IsEligible viewer prefs now db g h in
            let next = IsPage-append gs g p l e (ground (arith, k)) in
            elim (Bool-cases (leb want (length gs + 1))) [
              | inl f ↦ rw (k, collect) (rw f next)
              | inr f ↦
                  rw (k, collect)
                    (rw f (
                      collect-IsPage tier rows (gs ++ g ∷ []) hs
                        (ground (arith, f, length-append gs (g ∷ []))) next))
            ]
      ]

module _ (w : World) (viewer : String) (v : Viewer) (want now : ℕ) (db : Db) where
  visit_tier-IsPage :
      (tier : Tier) (gs : List GrantRow)
      → leb want (length gs) ≡ false
      → IsPage viewer v.prefs now db want gs
      → IsPage viewer v.prefs now db want (visit_tier w viewer v want now db tier gs)
  visit_tier-IsPage tier gs l p = elim (Option-cases (cell_of tier v.row)) [
    | inl e ↦ rw (e, visit_tier) p
    | inr (cell, e) ↦ elim (Bool-cases (cell == "")) [
      | inl b ↦ rw (e, visit_tier) (rw b p)
      | inr b ↦
          rw (e, visit_tier)
            (rw b (
              collect-IsPage w viewer v.prefs now want db tier _ gs
                (query_tier-IsOffered viewer v.prefs now db tier cell (want - length gs))
                (ground (arith, l)) p))
    ]
  ]

  widen-IsPage :
      (tiers : List Tier) (gs : List GrantRow)
      → IsPage viewer v.prefs now db want gs
      → IsPage viewer v.prefs now db want (widen w viewer v want now db tiers gs)
  unfolding widen
  widen-IsPage [] gs p = p
  widen-IsPage (tier ∷ tiers) gs p = elim (Bool-cases (leb want (length gs))) [
    | inl l ↦ rw (l, widen) p
    | inr l ↦ elim (Bool-cases (ltb (precision tier) (max_precision v.prefs))) [
      | inl m ↦ rw (l, widen) (rw m p)
      | inr m ↦ rw (l, widen) (rw m (widen-IsPage tiers _ (visit_tier-IsPage tier gs l p)))
    ]
  ]

  -- The fresh grants of a request are at most as many as wanted and are for different members. Each
  -- is for a member who has a visible row in the index with an age within the preferences and, where
  -- genders are preferred, one of these; who has an active membership and is not the viewer; whom
  -- the viewer has not seen; who has not blocked the viewer or been blocked by the viewer; and of
  -- whom the viewer holds no grant that has no end or ends later than now.
  pub generate_grants-IsPage :
      IsPage viewer v.prefs now db want (generate_grants w viewer v want now db).0
  unfolding generate_grants IsDistinct
  generate_grants-IsPage =
      widen-IsPage geo_tiers [] (record { fits = omega arith; distinct = tt; eligible = tt })
