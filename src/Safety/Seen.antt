-- ===== src/Safety/Seen.antt =====
-- Whom a viewer sees twice: `persistGrants` of
-- src/protocols/opendating/services/discovery/service.ts and the ledger of seen candidates.
use open_dating.Prelude.{
  not-exists_of_none, sym, ℕ, String, Bool, true, false, List, [], ◌∷◌, ◌≡◌, refl, ◌∙◌, ◌==◌, All,
  exists, exists-insert_or_ignore, arith, eq_refl, eq_iff,
}
use open_dating.Store.{Db}
use open_dating.World.{World}
use open_dating.Services.Discovery.Grants.{
  Viewer, ViewerPrefs, GrantRow, generate_grants, persist_grants, persist_grant, is_seen_by,
}
use open_dating.Safety.Candidates.{generate_grants-IsPage}
use open_dating.Safety.Eligible.{IsEligible, IsSeenBy, decides_seen}

abbrev pub has_seen : String → String → Db → Bool
has_seen viewer candidate db = exists (is_seen_by viewer candidate) db.od_seen_candidates

module _ (viewer : String) (now : ℕ) where
  persist_grant-has_seen :
      (g : GrantRow) (candidate : String) (db : Db)
      → has_seen viewer candidate db ≡ true
      → has_seen viewer candidate (persist_grant viewer now g db) ≡ true
  unfolding persist_grant
  persist_grant-has_seen g candidate db h =
      exists-insert_or_ignore (is_seen_by viewer candidate) (is_seen_by viewer g.candidate_id)
        (record { viewer_id = viewer; candidate_id = g.candidate_id; seen_at = now })
        db.od_seen_candidates
      ∙ rw h refl

  persist_grant-marks :
      (g : GrantRow) (db : Db)
      → has_seen viewer g.candidate_id (persist_grant viewer now g db) ≡ true
  unfolding persist_grant
  persist_grant-marks g db =
      exists-insert_or_ignore (is_seen_by viewer g.candidate_id) (is_seen_by viewer g.candidate_id)
        (record { viewer_id = viewer; candidate_id = g.candidate_id; seen_at = now })
        db.od_seen_candidates
      ∙ ground (arith, eq_refl viewer, eq_refl g.candidate_id)

  persist_grants-has_seen :
      (gs : List GrantRow) (candidate : String) (db : Db)
      → has_seen viewer candidate db ≡ true
      → has_seen viewer candidate (persist_grants viewer now gs db) ≡ true
  unfolding persist_grants
  persist_grants-has_seen [] candidate db h = h
  persist_grants-has_seen (g ∷ gs) candidate db h =
      persist_grants-has_seen gs candidate (persist_grant viewer now g db)
        (persist_grant-has_seen g candidate db h)

  persist_grants-marks :
      (gs : List GrantRow) (db : Db)
      → All (λ g. has_seen viewer g.candidate_id (persist_grants viewer now gs db) ≡ true) gs
  unfolding persist_grants
  persist_grants-marks [] db = tt
  persist_grants-marks (g ∷ gs) db = (
    persist_grants-has_seen gs g.candidate_id (persist_grant viewer now g db)
        (persist_grant-marks g db),
    persist_grants-marks gs (persist_grant viewer now g db),
  )

eligible-unseen :
    (viewer : String) (prefs : ViewerPrefs) (now : ℕ) (db : Db) (g : GrantRow)
    → IsEligible viewer prefs now db g
    → has_seen viewer g.candidate_id db ≡ false
eligible-unseen viewer prefs now db g (r, m, e, c) = rw (sym e) (
    not-exists_of_none (is_seen_by viewer r.member_id) (IsSeenBy viewer r.member_id)
      (decides_seen viewer r.member_id) db.od_seen_candidates c.unseen)

unseen_page :
    (viewer : String) (prefs : ViewerPrefs) (now : ℕ) (db : Db) (candidate : String)
    (gs : List GrantRow)
    → All (IsEligible viewer prefs now db) gs
    → has_seen viewer candidate db ≡ true
    → exists (λ g. g.candidate_id == candidate) gs ≡ false
unfolding exists
unseen_page viewer prefs now db candidate [] h s = refl
unseen_page viewer prefs now db candidate (g ∷ gs) (h, hs) s = ground (
  arith,
  eligible-unseen viewer prefs now db g h,
  eq_iff g.candidate_id candidate,
  unseen_page viewer prefs now db candidate gs hs s,
)

All-unseen :
    (viewer : String) (prefs : ViewerPrefs) (now : ℕ) (db : Db) (gs old : List GrantRow)
    → All (IsEligible viewer prefs now db) gs
    → All (λ g. has_seen viewer g.candidate_id db ≡ true) old
    → All (λ g. exists (λ h. h.candidate_id == g.candidate_id) gs ≡ false) old
All-unseen viewer prefs now db gs [] h k = tt
All-unseen viewer prefs now db gs (g ∷ old) h (k, ks) = (
  unseen_page viewer prefs now db g.candidate_id gs h k,
  All-unseen viewer prefs now db gs old h ks,
)

-- Nobody who was granted to a viewer is granted to the same viewer again: no later generation, at
-- any time and with any preferences, yields one of them, as long as the ledger of seen candidates is
-- the one that the first generation left.
pub generate_grants_once :
    (w : World) (viewer : String) (v v' : Viewer) (want want' now now' : ℕ) (db later : Db)
    → later.od_seen_candidates ≡ (generate_grants w viewer v want now db).1.od_seen_candidates
    → All
        (λ g.
          exists
            (λ h. h.candidate_id == g.candidate_id)
            (generate_grants w viewer v' want' now' later).0
          ≡ false)
        (generate_grants w viewer v want now db).0
unfolding generate_grants
generate_grants_once w viewer v v' want want' now now' db later h =
    let gs = (generate_grants w viewer v want now db).0 in
    let page = generate_grants-IsPage w viewer v' want' now' later in
    All-unseen viewer v'.prefs now' later (generate_grants w viewer v' want' now' later).0 gs
      page.eligible (rw h (persist_grants-marks viewer now gs db))
