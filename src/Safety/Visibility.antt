-- ===== src/Safety/Visibility.antt =====
-- Who can be found: the discovery index against the membership rows, in
-- src/protocols/opendating/storage/d1/membership.ts and services/profile/service.ts.
use mathlib.Core.Option
use open_dating.Prelude.{
  ◌↔◌, eq_iff, ℕ, String, Bool, true, false, Option, some, none, ◌≡◌, refl, ap, ◌∙◌, ◌==◌, ◌&&◌, ok,
  exists, first, first-update, exists-update, exists-eq-false, exists-upsert, arith, eq_refl, inl,
  inr, Option-cases,
}
use open_dating.Store.{Db, Member, MemberState, Profile, active, paused}
use open_dating.World.{World}
use open_dating.Membership.Keys.{derive_member_id}
use open_dating.Membership.Members.{
  is_member, is_profile, is_index_row, set_status, set_visibility_state, set_visible, pause_member,
  resume_member, set_visibility,
}
use open_dating.Membership.Profiles.{
  is_visible, is_active, write_index, sync_statements, sync_discovery_index,
}
use open_dating.Json.{str, get}
use open_dating.Protocol.Validation.{Request}
use open_dating.Services.Profile.{handle_pause, handle_resume, handle_visibility_update}

-- Whether the discovery index shows a member.
abbrev pub is_shown : String → Db → Bool
is_shown id db = exists (λ r. is_index_row id r && r.visible) db.od_discovery_index

sync_statements-is_visible :
    (id : String) (now : ℕ) (db : Db) (m : Member)
    → first (is_member id) db.od_members ≡ some m
    → is_shown id (sync_statements id now db) ≡ is_visible m (first (is_profile id) db.od_profiles)
unfolding sync_statements
sync_statements-is_visible id now db m h =
    let p = first (is_profile id) db.od_profiles in
    let age = Option.bind p (λ q. q.age) in
    let gender = Option.bind p (λ q. q.gender_category) in
    let intent = Option.bind p (λ q. q.relationship_intent) in
    rw (h, sync_statements)
      (unfold write_index in
        exists-upsert (λ r. is_index_row id r && r.visible) (is_index_row id)
          (record {
            member_id = id;
            geo_cell_p5 = none;
            geo_cell_p4 = none;
            geo_cell_p3 = none;
            age = age;
            gender_category = gender;
            intent_category = intent;
            visible = is_visible m p;
            trust_tier = m.trust_tier;
            activity_bucket = some "recently";
            updated_at = now;
          })
          (λ r. record r {
            age = age;
            gender_category = gender;
            intent_category = intent;
            visible = is_visible m p;
            trust_tier = m.trust_tier;
            activity_bucket = some "recently";
            updated_at = now;
          })
          (is_visible m p) db.od_discovery_index (ground (arith, eq_refl id)) (λ r. ground arith)
          (λ r. ground arith))

-- A profile that the member has made discoverable.
abbrev pub IsDiscoverable : Option Profile → Type 0
IsDiscoverable profile = (p : Profile) × (profile ≡ some p) × (p.visibility_state ≡ "discoverable")

decides_active : (s : MemberState) → (is_active s ≡ true) ↔ (s ≡ active)
decides_active s = elim s [
  | MemberState.onboarding ↦ ground arith
  | MemberState.active ↦ ground arith
  | MemberState.paused ↦ ground arith
  | MemberState.limited ↦ ground arith
  | MemberState.quarantined ↦ ground arith
  | MemberState.suspended ↦ ground arith
  | MemberState.banned ↦ ground arith
  | MemberState.deleted ↦ ground arith
]

is_visible_iff :
    (m : Member) (profile : Option Profile)
    → (is_visible m profile ≡ true) ↔ ((m.status ≡ active) × IsDiscoverable profile)
unfolding is_visible
is_visible_iff m none =
    (λ e. absurd (ground (arith, e)), λ (a, (p, e, v)). absurd (ground (arith, e)))
is_visible_iff m (some p) =
    let d = decides_active m.status in
    let v = eq_iff p.visibility_state "discoverable" in
    (
      λ e. (d.0 (ground (arith, e)), (p, refl, v.0 (ground (arith, e)))),
      λ (a, (q, e, k)). ground (arith, d.1 a, v, e, k),
    )

-- After the index of a member with a membership row is synchronised, it shows the member exactly
-- when the status in that row is 'active' and the member has a profile row whose visibility is
-- 'discoverable'.
pub sync_statements-is_shown :
    (id : String) (now : ℕ) (db : Db) (m : Member)
    → first (is_member id) db.od_members ≡ some m
    → (is_shown id (sync_statements id now db) ≡ true)
      ↔ ((m.status ≡ active) × IsDiscoverable (first (is_profile id) db.od_profiles))
sync_statements-is_shown id now db m h =
    rw (sync_statements-is_visible id now db m h)
      (is_visible_iff m (first (is_profile id) db.od_profiles))

-- The statements of a change of status, of the profile's visibility and of the index flag.
abbrev changed : MemberState → String → Bool → ℕ → String → Db → Db
changed status visibility visible now id db =
    set_visible visible now id
      (set_visibility_state visibility now id (set_status status now id db))

set_visible-hidden :
    (now : ℕ) (id : String) (db : Db) → is_shown id (set_visible false now id db) ≡ false
set_visible-hidden now id db =
    exists-update (λ r. is_index_row id r && r.visible) (is_index_row id) (λ _. false)
      (λ r. record r { visible = false; updated_at = now }) db.od_discovery_index
      (λ r. ground arith)
    ∙ exists-eq-false (λ _. false) db.od_discovery_index (λ r. refl)

first-set_status :
    (status : MemberState) (now : ℕ) (id : String) (db : Db) (m : Member)
    → first (is_member id) db.od_members ≡ some m
    → first (is_member id) (set_status status now id db).od_members
      ≡ some (record m { status = status; updated_at = now })
first-set_status status now id db m h =
    first-update (is_member id) (λ m. record m { status = status; updated_at = now }) db.od_members
      (λ x k. k)
    ∙ ap (Option.map (λ (m : Member). record m { status = status; updated_at = now })) h

first-set_status_absent :
    (status : MemberState) (now : ℕ) (id : String) (db : Db)
    → first (is_member id) db.od_members ≡ none
    → first (is_member id) (set_status status now id db).od_members ≡ none
first-set_status_absent status now id db h =
    first-update (is_member id) (λ m. record m { status = status; updated_at = now }) db.od_members
      (λ x k. k)
    ∙ ap (Option.map (λ (m : Member). record m { status = status; updated_at = now })) h

sync_statements-members :
    (id : String) (now : ℕ) (db : Db) → (sync_statements id now db).od_members ≡ db.od_members
unfolding sync_statements write_index
sync_statements-members id now db = ground arith

first-set_visibility_state :
    (visibility : String) (now : ℕ) (id : String) (db : Db) (p : Profile)
    → first (is_profile id) db.od_profiles ≡ some p
    → first (is_profile id) (set_visibility_state visibility now id db).od_profiles
      ≡ some (record p { visibility_state = visibility; updated_at = now })
first-set_visibility_state visibility now id db p h =
    first-update (is_profile id) (λ p. record p { visibility_state = visibility; updated_at = now })
      db.od_profiles (λ x k. k)
    ∙ ap
        (Option.map (λ (p : Profile). record p { visibility_state = visibility; updated_at = now }))
        h

paused-invisible :
    (m : Member) (now : ℕ) (p : Option Profile)
    → is_visible (record m { status = paused; updated_at = now }) p ≡ false
unfolding is_visible
paused-invisible m now none = refl
paused-invisible m now (some p) = refl

sync_statements-absent :
    (id : String) (now : ℕ) (db : Db)
    → first (is_member id) db.od_members ≡ none
    → sync_statements id now db ≡ db
unfolding sync_statements
sync_statements-absent id now db h = rw (h, sync_statements) refl

module _ (w : World) (request : Request) (sender id : String) (db : Db)
    (derived : derive_member_id w sender ≡ ok id) where
  pause-db :
      (handle_pause w request sender db).1
      ≡ sync_statements id w.now (changed paused "paused" false w.now id db)
  unfolding handle_pause pause_member sync_discovery_index
  pause-db = rw (derived, handle_pause) refl

  resume-db :
      (handle_resume w request sender db).1
      ≡ sync_statements id w.now (changed active "discoverable" true w.now id db)
  unfolding handle_resume resume_member sync_discovery_index
  resume-db = rw (derived, handle_resume) refl

  visibility-db :
      (v : String)
      → get "visibility" request.payload ≡ some (str v)
      → (handle_visibility_update w request sender db).1
        ≡ sync_statements id w.now
            (set_visible (v == "discoverable") w.now id (set_visibility_state v w.now id db))
  unfolding handle_visibility_update set_visibility sync_discovery_index
  visibility-db v h = rw (h, handle_visibility_update) (rw derived refl)

  -- A member who pauses is not shown by the index any more.
  pub handle_pause-is_shown : is_shown id (handle_pause w request sender db).1 ≡ false
  handle_pause-is_shown =
      let after = changed paused "paused" false w.now id db in
      let hidden =
        set_visible-hidden w.now id
          (set_visibility_state "paused" w.now id (set_status paused w.now id db)) in
      elim (Option-cases (first (is_member id) db.od_members)) [
        | inl n ↦
            rw
              (
                pause-db,
                sync_statements-absent id w.now after
                    (first-set_status_absent paused w.now id db n),
              )
              hidden
        | inr (k, f) ↦ rw pause-db (
            sync_statements-is_visible id w.now after
              (record k { status = paused; updated_at = w.now })
              (first-set_status paused w.now id db k f)
            ∙ paused-invisible k w.now (first (is_profile id) after.od_profiles))
      ]

  module _ (m : Member) (p : Profile) (hm : first (is_member id) db.od_members ≡ some m)
      (hp : first (is_profile id) db.od_profiles ≡ some p) where
    -- A member with a membership and a profile row who resumes is active and shown by the index,
    -- whatever the status was before: also a deleted, a banned or a suspended member.
    pub handle_resume-active :
        (first (is_member id) (handle_resume w request sender db).1.od_members
          ≡ some (record m { status = active; updated_at = w.now }))
        × (is_shown id (handle_resume w request sender db).1 ≡ true)
    unfolding is_visible
    handle_resume-active =
        let after = changed active "discoverable" true w.now id db in
        let m' : Member = record m { status = active; updated_at = w.now } in
        let e = first-set_status active w.now id db m hm in
        let f =
          first-set_visibility_state "discoverable" w.now id (set_status active w.now id db) p hp in
        rw resume-db (
          ap (first (is_member id)) (sync_statements-members id w.now after) ∙ e,
          sync_statements-is_visible id w.now after m' e ∙ ap (is_visible m') f,
        )

    -- After a `visibility.update` with a text, the index shows a member with a membership and a
    -- profile row exactly when the member is active and the text is 'discoverable'.
    pub handle_visibility_update-is_shown :
        (v : String)
        → get "visibility" request.payload ≡ some (str v)
        → is_shown id (handle_visibility_update w request sender db).1
          ≡ (is_active m.status && v == "discoverable")
    unfolding is_visible
    handle_visibility_update-is_shown v h =
        let after =
          set_visible (v == "discoverable") w.now id (set_visibility_state v w.now id db) in
        let f = first-set_visibility_state v w.now id db p hp in
        rw (visibility-db v h)
          (sync_statements-is_visible id w.now after m hm ∙ ap (is_visible m) f)
