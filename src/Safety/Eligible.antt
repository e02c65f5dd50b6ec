-- ===== src/Safety/Eligible.antt =====
-- Who may be granted to a viewer, as a rule on the tables: the query of `matchCell` in
-- src/protocols/opendating/services/discovery/service.ts is compared with it.
use mathlib.Core.List.{Memᴰ}
use open_dating.Prelude.{
  ℕ, ◌*◌, ◌≤◌, ◌<◌, suc, String, true, Option, none, some, List, ◌≡◌, ◌≢◌, ap, refl, sym, ◌==◌,
  ◌&&◌, ◌⊎◌, ◌↔◌, inl, inr, All, exists, found, none_of_not-exists, arith, eq_iff, Option-cases,
}
use open_dating.Json.{ratio, Number, negative, infinite, minus_infinite, nan}
use open_dating.Store.{Db, IndexRow, Member, MemberState, active, Grant, Seen, Block}
use open_dating.Membership.Members.{is_member}
use open_dating.Safety.Policy.{IsBlockBetween}
use open_dating.Services.Discovery.Grants.{
  ViewerPrefs, GrantRow, is_active_status, is_aged, has_gender, is_eligible, is_seen_by,
  is_block_either, is_granted_to,
}

-- A number between two natural numbers, as a fraction.
abbrev IsAged : ℕ → ℕ → Option Number → Type 0
IsAged lo hi age =
    (a : ℕ) × (d : ℕ) × (age ≡ some (ratio a d)) × (lo * suc d ≤ a) × (a ≤ hi * suc d)

-- One of the preferred genders, where there are any preferences.
abbrev IsPreferred : Option (List String) → Option String → Type 0
IsPreferred genders gender =
    (genders ≡ none)
    ⊎ ((gs : List String) × (g : String) × (genders ≡ some gs) × (gender ≡ some g) × Memᴰ g gs)

abbrev IsActiveMember : String → Member → Type 0
IsActiveMember id m = (m.member_id ≡ id) × (m.status ≡ active)

abbrev pub IsSeenBy : String → String → Seen → Type 0
IsSeenBy viewer id s = (s.viewer_id ≡ viewer) × (s.candidate_id ≡ id)

-- A grant that has no end, or one later than now.
abbrev IsGrantedTo : String → String → ℕ → Grant → Type 0
IsGrantedTo viewer id now g =
    (g.viewer_id ≡ viewer)
    × (g.candidate_id ≡ id)
    × ((g.expires_at ≡ none) ⊎ ((t : ℕ) × (g.expires_at ≡ some t) × (now < t)))

-- A row of the index, and its member, by the rule.
pub record IsCandidate (viewer : String) (prefs : ViewerPrefs) (now : ℕ) (db : Db) (r : IndexRow)
    : Type 0 where
  pub shown : r.visible ≡ true
  pub member : (m : Member) × Memᴰ m db.od_members × IsActiveMember r.member_id m
  pub aged : IsAged prefs.age_min prefs.age_max r.age
  pub preferred : IsPreferred prefs.genders r.gender_category
  pub other : r.member_id ≢ viewer
  pub unseen : All (λ s. ¬ IsSeenBy viewer r.member_id s) db.od_seen_candidates
  pub unblocked : All (λ k. ¬ IsBlockBetween viewer r.member_id k) db.od_blocks
  pub ungranted : All (λ g. ¬ IsGrantedTo viewer r.member_id now g) db.od_candidate_grants

-- The member of a grant has a row in the index that the rule allows.
abbrev pub IsEligible : String → ViewerPrefs → ℕ → Db → GrantRow → Type 0
IsEligible viewer prefs now db g =
    (r : IndexRow) × Memᴰ r db.od_discovery_index
    × (r.member_id ≡ g.candidate_id)
    × IsCandidate viewer prefs now db r

-- Every row that is selected is the row of a member that the query accepts.
abbrev pub IsOffered : String → ViewerPrefs → ℕ → Db → List IndexRow → IndexRow → Type 0
IsOffered viewer prefs now db rows r =
    exists (λ s. s.member_id == r.member_id && is_eligible viewer prefs now db s) rows ≡ true

decides_active : (s : MemberState) → (is_active_status s ≡ true) ↔ (s ≡ active)
decides_active s = elim s [
  | MemberState.onboarding ↦ ground arith
  | MemberState.active ↦ ground arith
  | MemberState.paused ↦ ground arith
  | MemberState.limited ↦ ground arith
  | MemberState.quarantined ↦ ground arith
  | MemberState.suspended ↦ ground arith
  | MemberState.banned ↦ ground arith
  | MemberState.deleted ↦ ground arith
]

decides_member :
    (id : String) (m : Member)
    → ((is_member id m && is_active_status m.status) ≡ true) ↔ IsActiveMember id m
decides_member id m = ground (arith, eq_iff m.member_id id, decides_active m.status)

pub decides_seen :
    (viewer id : String) (s : Seen) → (is_seen_by viewer id s ≡ true) ↔ IsSeenBy viewer id s
decides_seen viewer id s = ground (arith, eq_iff s.viewer_id viewer, eq_iff s.candidate_id id)

decides_block : (a b : String) (k : Block) → (is_block_either a b k ≡ true) ↔ IsBlockBetween a b k
decides_block a b k = ground (
  arith,
  eq_iff k.blocker_member_id a,
  eq_iff k.blocked_member_id b,
  eq_iff k.blocker_member_id b,
  eq_iff k.blocked_member_id a,
)

decides_grant :
    (viewer id : String) (now : ℕ) (g : Grant)
    → (is_granted_to viewer id now g ≡ true) ↔ IsGrantedTo viewer id now g
decides_grant viewer id now g = elim (Option-cases g.expires_at) [
  | inl e ↦ rw e (ground (arith, eq_iff g.viewer_id viewer, eq_iff g.candidate_id id))
  | inr (t, e) ↦ rw e (ground (arith, eq_iff g.viewer_id viewer, eq_iff g.candidate_id id))
]

is_aged-IsAged : (lo hi : ℕ) (age : Option Number) → is_aged lo hi age ≡ true → IsAged lo hi age
is_aged-IsAged lo hi none h = absurd (ground (arith, h))
is_aged-IsAged lo hi (some (ratio a d)) h = (a, d, refl, ground (arith, h), ground (arith, h))
is_aged-IsAged lo hi (some (negative a d)) h = absurd (ground (arith, h))
is_aged-IsAged lo hi (some infinite) h = absurd (ground (arith, h))
is_aged-IsAged lo hi (some minus_infinite) h = absurd (ground (arith, h))
is_aged-IsAged lo hi (some nan) h = absurd (ground (arith, h))

has_gender-IsPreferred :
    (genders : Option (List String)) (gender : Option String)
    → has_gender genders gender ≡ true
    → IsPreferred genders gender
has_gender-IsPreferred none gender h = inl refl
has_gender-IsPreferred (some gs) none h = absurd (ground (arith, h))
has_gender-IsPreferred (some gs) (some g) h =
    let (x, m, e) = found (λ x. x == g) (λ x. x ≡ g) (λ x. eq_iff x g) gs h in
    inr (gs, x, refl, ap some (sym e), m)

module _ (viewer : String) (prefs : ViewerPrefs) (now : ℕ) (db : Db) where
  eligible-IsCandidate :
      (r : IndexRow) → is_eligible viewer prefs now db r ≡ true → IsCandidate viewer prefs now db r
  unfolding is_eligible
  eligible-IsCandidate r h = record {
    shown = ground (arith, h);
    member =
        found (λ m. is_member r.member_id m && is_active_status m.status)
          (IsActiveMember r.member_id) (decides_member r.member_id) db.od_members
          (ground (arith, h));
    aged = is_aged-IsAged prefs.age_min prefs.age_max r.age (ground (arith, h));
    preferred = has_gender-IsPreferred prefs.genders r.gender_category (ground (arith, h));
    other = λ e. ground (arith, h, (eq_iff r.member_id viewer).1 e);
    unseen =
        none_of_not-exists (is_seen_by viewer r.member_id) (IsSeenBy viewer r.member_id)
          (decides_seen viewer r.member_id) db.od_seen_candidates (ground (arith, h));
    unblocked =
        none_of_not-exists (is_block_either viewer r.member_id) (IsBlockBetween viewer r.member_id)
          (decides_block viewer r.member_id) db.od_blocks (ground (arith, h));
    ungranted =
        none_of_not-exists (is_granted_to viewer r.member_id now)
          (IsGrantedTo viewer r.member_id now) (decides_grant viewer r.member_id now)
          db.od_candidate_grants (ground (arith, h));
  }

  pub offered-IsEligible :
      (g : GrantRow)
      → exists
          (λ s. s.member_id == g.candidate_id && is_eligible viewer prefs now db s)
          db.od_discovery_index
        ≡ true
      → IsEligible viewer prefs now db g
  offered-IsEligible g h =
      let (r, m, (e, k)) =
        found (λ s. s.member_id == g.candidate_id && is_eligible viewer prefs now db s)
          (λ s. (s.member_id ≡ g.candidate_id) × (is_eligible viewer prefs now db s ≡ true))
          (λ s. ground (arith, eq_iff s.member_id g.candidate_id)) db.od_discovery_index h in
      (r, m, e, eligible-IsCandidate r k)
