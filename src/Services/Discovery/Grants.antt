-- ===== src/Services/Discovery/Grants.antt =====
-- Who is shown to whom: `loadViewer`, `generateGrants` and `persistGrants` of
-- src/protocols/opendating/services/discovery/service.ts.
use Prim.Native.String
use open_dating.Prelude.{
  ℕ, ◌+◌, ◌-◌, String, Bool, true, false, Option, none, some, List, [], ◌∷◌, ◌++◌, ◌==◌, ◌&&◌, ◌||◌,
  not, leb, ltb, eqb, if◌then◌else◌, exists, first, select, insert_or_ignore, insert_or_replace,
  order_by, take, length,
}
use open_dating.Json.{num, whole, Number, is_between}
use open_dating.Text.{prefix}
use open_dating.Crypto.Hex.{bytes_to_hex}
use open_dating.Store
use open_dating.Store.{Db, IndexRow, Member, MemberState, Prefs, Grant, Seen}
use open_dating.World.{World}
use open_dating.Membership.Members.{is_index_row, is_member}
use open_dating.Services.Matcher.{is_unexpired}
use open_dating.Services.Discovery.Preferences.{clamp_age}

abbrev pub candidate_grant_ttl : ℕ
candidate_grant_ttl = 86400

-- `GEO_TIERS`, tightest first.
pub data Tier : Type 0 where
  p5 p4 p3 : Tier

abbrev pub precision : Tier → ℕ
precision p5 = 5
precision p4 = 4
precision p3 = 3

abbrev pub bucket : Tier → String
bucket p5 = "nearby"
bucket p4 = "within 10 mi"
bucket p3 = "10-50 mi"

abbrev pub cell_of : Tier → IndexRow → Option String
cell_of p5 r = r.geo_cell_p5
cell_of p4 r = r.geo_cell_p4
cell_of p3 r = r.geo_cell_p3

abbrev pub geo_tiers : List Tier
geo_tiers = p5 ∷ p4 ∷ p3 ∷ []

-- `ViewerPrefs`.
pub record ViewerPrefs : Type 0 where
  pub age_min : ℕ
  pub age_max : ℕ
  pub max_distance_km : ℕ
  pub genders : Option (List String)
  pub intent : Option String

-- The viewer's own index row, for its cells, and preferences.
pub record Viewer : Type 0 where
  pub row : IndexRow
  pub prefs : ViewerPrefs

-- The preferences of a viewer, defaults where there is no row.
abbrev read_prefs : Option Prefs → ViewerPrefs
read_prefs none = record {
  age_min = 18;
  age_max = 99;
  max_distance_km = 100;
  genders = none;
  intent = none;
}
read_prefs (some p) = record {
  age_min = clamp_age (some (num (whole p.age_min))) 18;
  age_max = clamp_age (some (num (whole p.age_max))) 99;
  max_distance_km = p.max_distance_km;
  genders = p.genders;
  intent = p.intent;
}

abbrev is_set : Option String → Bool
is_set none = false
is_set (some s) = not (s == "")

unfoldable pub load_viewer : String → Db → Option Viewer
load_viewer member db = elim (first (is_index_row member) db.od_discovery_index) [
  | none ↦ none
  | some r ↦
      if is_set r.geo_cell_p3
      then some (record {
        row = r;
        prefs = read_prefs (first (λ p. p.member_id == member) db.od_discovery_prefs);
      })
      else none
]

-- `GrantRow`.
pub record GrantRow : Type 0 where
  pub candidate_id : String
  pub grant_token : String
  pub distance_bucket : String
  pub granted_at : ℕ

unfoldable pub grant_token : World → String → String → ℕ → String
grant_token w viewer candidate now = prefix 32 (
    bytes_to_hex (
      w.sha256 (
        String.◌++◌ viewer (
          String.◌++◌ ":"
            (String.◌++◌ candidate (String.◌++◌ ":" (w.text_of (num (whole now)))))))))

abbrev pub is_active_status : MemberState → Bool
is_active_status MemberState.onboarding = false
is_active_status MemberState.active = true
is_active_status MemberState.paused = false
is_active_status MemberState.limited = false
is_active_status MemberState.quarantined = false
is_active_status MemberState.suspended = false
is_active_status MemberState.banned = false
is_active_status MemberState.deleted = false

abbrev pub is_aged : ℕ → ℕ → Option Number → Bool
is_aged lo hi none = false
is_aged lo hi (some n) = is_between lo hi n

abbrev pub has_gender : Option (List String) → Option String → Bool
has_gender none g = true
has_gender (some gs) none = false
has_gender (some gs) (some g) = exists (λ h. h == g) gs

abbrev has_cell : String → Option String → Bool
has_cell cell none = false
has_cell cell (some c) = c == cell

abbrev pub is_seen_by : String → String → Seen → Bool
is_seen_by viewer candidate s = s.viewer_id == viewer && s.candidate_id == candidate

abbrev pub is_block_either : String → String → Store.Block → Bool
is_block_either a b k =
    (k.blocker_member_id == a && k.blocked_member_id == b)
    || (k.blocked_member_id == a && k.blocker_member_id == b)

abbrev pub is_granted_to : String → String → ℕ → Grant → Bool
is_granted_to viewer candidate now g =
    g.viewer_id == viewer && g.candidate_id == candidate && is_unexpired now g

-- The part of the condition that does not read the cell.
unfoldable pub is_eligible : String → ViewerPrefs → ℕ → Db → IndexRow → Bool
is_eligible viewer prefs now db r =
    r.visible
    && exists (λ m. is_member r.member_id m && is_active_status m.status) db.od_members
    && is_aged prefs.age_min prefs.age_max r.age
    && has_gender prefs.genders r.gender_category
    && not (r.member_id == viewer)
    && not (exists (is_seen_by viewer r.member_id) db.od_seen_candidates)
    && not (exists (is_block_either viewer r.member_id) db.od_blocks)
    && not (exists (is_granted_to viewer r.member_id now) db.od_candidate_grants)

abbrev pub is_match_row : String → ViewerPrefs → ℕ → Db → Tier → String → IndexRow → Bool
is_match_row viewer prefs now db tier cell r =
    has_cell cell (cell_of tier r) && is_eligible viewer prefs now db r

abbrev pub ranks_before : IndexRow → IndexRow → Bool
ranks_before r s =
    if eqb r.trust_tier s.trust_tier
    then ltb s.updated_at r.updated_at
    else ltb s.trust_tier r.trust_tier

-- The query of one tier.
unfoldable pub query_tier : String → ViewerPrefs → ℕ → Db → Tier → String → ℕ → List IndexRow
query_tier viewer prefs now db tier cell limit = take limit (
    order_by ranks_before
      (select (is_match_row viewer prefs now db tier cell) db.od_discovery_index))

-- The inner loop: a row whose member was collected before is left out. `excluded` is the viewer and
-- the members collected.
unfoldable pub collect :
    World → String → ℕ → ℕ → Tier → List IndexRow → List GrantRow → List GrantRow
unfolding exists
collect w viewer now want tier [] collected = collected
collect w viewer now want tier (r ∷ rows) collected =
    let grant : GrantRow = record {
      candidate_id = r.member_id;
      grant_token = grant_token w viewer r.member_id now;
      distance_bucket = bucket tier;
      granted_at = now;
    } in
    let skipped = collect w viewer now want tier rows collected in
    let added = collect w viewer now want tier rows (collected ++ grant ∷ []) in
    if r.member_id == viewer || exists (λ g. g.candidate_id == r.member_id) collected
    then skipped
    else if leb want (length collected + 1)
    then collected ++ grant ∷ []
    else added

abbrev pub max_precision : ViewerPrefs → ℕ
max_precision prefs =
    if leb prefs.max_distance_km 10 then 5 else if leb prefs.max_distance_km 50 then 4 else 3

-- The body of the outer loop for a tier whose cell the viewer has.
abbrev pub visit_cell :
    World → String → Viewer → ℕ → ℕ → Db → Tier → String → List GrantRow → List GrantRow
visit_cell w viewer v want now db tier cell collected =
    collect w viewer now want tier
      (query_tier viewer v.prefs now db tier cell (want - length collected)) collected

abbrev pub visit_tier : World → String → Viewer → ℕ → ℕ → Db → Tier → List GrantRow → List GrantRow
visit_tier w viewer v want now db tier collected = elim (cell_of tier v.row) [
  | none ↦ collected
  | some cell ↦
      if cell == "" then collected else visit_cell w viewer v want now db tier cell collected
]

-- The outer loop: it widens tier by tier and ends where a page is full or the distance is reached.
unfoldable pub widen :
    World → String → Viewer → ℕ → ℕ → Db → List Tier → List GrantRow → List GrantRow
widen w viewer v want now db [] collected = collected
widen w viewer v want now db (tier ∷ tiers) collected =
    let next =
      widen w viewer v want now db tiers (visit_tier w viewer v want now db tier collected) in
    if leb want (length collected)
    then collected
    else if ltb (precision tier) (max_precision v.prefs)
    then collected
    else next

-- The two statements for a grant.
unfoldable pub persist_grant : String → ℕ → GrantRow → Db → Db
persist_grant viewer now g db = record db {
  od_candidate_grants =
      insert_or_replace (λ r. r.viewer_id == viewer && r.candidate_id == g.candidate_id)
        (record {
          viewer_id = viewer;
          candidate_id = g.candidate_id;
          grant_token = g.grant_token;
          distance_bucket = g.distance_bucket;
          granted_at = now;
          expires_at = some (now + candidate_grant_ttl);
        })
        db.od_candidate_grants;
  od_seen_candidates =
      insert_or_ignore (is_seen_by viewer g.candidate_id)
        (record { viewer_id = viewer; candidate_id = g.candidate_id; seen_at = now })
        db.od_seen_candidates;
}

unfoldable pub persist_grants : String → ℕ → List GrantRow → Db → Db
persist_grants viewer now [] db = db
persist_grants viewer now (g ∷ grants) db =
    persist_grants viewer now grants (persist_grant viewer now g db)

unfoldable pub generate_grants : World → String → Viewer → ℕ → ℕ → Db → List GrantRow × Db
generate_grants w viewer v want now db =
    let collected = widen w viewer v want now db geo_tiers [] in
    (collected, persist_grants viewer now collected db)
