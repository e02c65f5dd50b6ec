-- ===== src/Membership/Members.antt =====
-- The life of a member: `D1MembershipStore` of src/protocols/opendating/storage/d1/membership.ts.
use open_dating.Prelude.{
  ℕ, String, Bool, true, false, Option, none, some, ◌==◌, first, update, delete_from,
  insert_or_ignore,
}
use open_dating.Store.{
  Db, Member, MemberState, active, paused, deleted, banned, onboarding, limited, quarantined,
  suspended, Profile, IndexRow,
}
use open_dating.World.{World, Run, ◌>>=◌, ◌>>◌, return, throw, lift, query, execute}
use open_dating.Membership.Keys.{derive_member_id, get_data_key, encrypt_string, decrypt_string}

-- `MemberRecord`.
pub record MemberRecord : Type 0 where
  pub member_id : String
  pub pubkey : String
  pub status : MemberState
  pub trust_tier : ℕ
  pub last_active_bucket : Option String
  pub protocol_version : String
  pub created_at : ℕ
  pub updated_at : ℕ

abbrev pub is_member : String → Member → Bool
is_member id m = m.member_id == id

abbrev pub is_profile : String → Profile → Bool
is_profile id p = p.member_id == id

abbrev pub is_index_row : String → IndexRow → Bool
is_index_row id r = r.member_id == id

abbrev member_record : Member → String → MemberRecord
member_record m pubkey = record {
  member_id = m.member_id;
  pubkey = pubkey;
  status = m.status;
  trust_tier = m.trust_tier;
  last_active_bucket = m.last_active_bucket;
  protocol_version = m.protocol_version;
  created_at = m.created_at;
  updated_at = m.updated_at;
}

-- The part of `getMember` behind `if (!row) return null`.
read_member : World → Option Member → Run (Option MemberRecord)
read_member w none = return none
read_member w (some m) = do
  key ← lift (get_data_key w)
  pubkey ← lift (decrypt_string w m.encrypted_pubkey key)
  return (some (member_record m pubkey))

unfoldable pub get_member : World → String → Run (Option MemberRecord)
unfolding read_member
get_member w pubkey = do
  id ← lift (derive_member_id w pubkey)
  row ← query (λ db. first (is_member id) db.od_members)
  read_member w row

-- The three inserts of `createMember`.
unfoldable pub insert_member : String → String → ℕ → Db → Db
insert_member id encrypted now db = record db {
  od_members =
      insert_or_ignore (is_member id)
        (record {
          member_id = id;
          encrypted_pubkey = encrypted;
          status = active;
          trust_tier = 0;
          last_active_bucket = none;
          protocol_version = "0.1";
          created_at = now;
          updated_at = now;
        })
        db.od_members;
  od_profiles =
      insert_or_ignore (is_profile id)
        (record {
          member_id = id;
          profile_version = 1;
          encrypted_profile_payload = none;
          age = none;
          gender_category = none;
          relationship_intent = none;
          visibility_state = "discoverable";
          completeness = 0;
          created_at = now;
          updated_at = now;
        })
        db.od_profiles;
  od_discovery_index =
      insert_or_ignore (is_index_row id)
        (record {
          member_id = id;
          geo_cell_p5 = none;
          geo_cell_p4 = none;
          geo_cell_p3 = none;
          age = none;
          gender_category = none;
          intent_category = none;
          visible = false;
          trust_tier = 0;
          activity_bucket = none;
          updated_at = now;
        })
        db.od_discovery_index;
}

unfoldable pub create_member : World → String → Run MemberRecord
create_member w pubkey = do
  id ← lift (derive_member_id w pubkey)
  key ← lift (get_data_key w)
  execute (insert_member id (encrypt_string w w.member_iv pubkey key) w.now)
  return (record {
    member_id = id;
    pubkey = pubkey;
    status = active;
    trust_tier = 0;
    last_active_bucket = none;
    protocol_version = "0.1";
    created_at = w.now;
    updated_at = w.now;
  })

-- The part of `ensureMember` behind `if (existing)`.
unfoldable pub admit_member : MemberState → MemberRecord → Run MemberRecord
admit_member deleted m = throw "Member has been deleted"
admit_member banned m = throw "Member is banned"
admit_member onboarding m = return m
admit_member active m = return m
admit_member paused m = return m
admit_member limited m = return m
admit_member quarantined m = return m
admit_member suspended m = return m

unfoldable pub ensure_member : World → String → Run MemberRecord
unfolding admit_member
ensure_member w pubkey = do
  existing ← get_member w pubkey
  elim existing [ none ↦ create_member w pubkey | some m ↦ admit_member m.status m ]

abbrev pub set_status : MemberState → ℕ → String → Db → Db
set_status status now id db = record db {
  od_members =
      update (is_member id) (λ m. record m { status = status; updated_at = now }) db.od_members;
}

abbrev pub set_visibility_state : String → ℕ → String → Db → Db
set_visibility_state visibility now id db = record db {
  od_profiles =
      update (is_profile id) (λ p. record p { visibility_state = visibility; updated_at = now })
        db.od_profiles;
}

abbrev pub set_visible : Bool → ℕ → String → Db → Db
set_visible visible now id db = record db {
  od_discovery_index =
      update (is_index_row id) (λ r. record r { visible = visible; updated_at = now })
        db.od_discovery_index;
}

pub update_status : World → String → MemberState → Run (Unit {0})
update_status w pubkey status = do
  id ← lift (derive_member_id w pubkey)
  execute (set_status status w.now id)

-- A batch is one transaction.
unfoldable pub pause_member : World → String → Run (Unit {0})
pause_member w pubkey = do
  id ← lift (derive_member_id w pubkey)
  execute (λ db.
      set_visible false w.now id
        (set_visibility_state "paused" w.now id (set_status paused w.now id db)))

unfoldable pub resume_member : World → String → Run (Unit {0})
resume_member w pubkey = do
  id ← lift (derive_member_id w pubkey)
  execute (λ db.
      set_visible true w.now id
        (set_visibility_state "discoverable" w.now id (set_status active w.now id db)))

-- The batch of `deleteMember`.
unfoldable pub delete_statements : ℕ → String → Db → Db
delete_statements now id db =
    record (set_visible false now id
      (set_visibility_state "hidden" now id (set_status deleted now id db))) {
        od_profile_media = delete_from (λ m. m == id) db.od_profile_media;
      }

unfoldable pub delete_member : World → String → Run (Unit {0})
delete_member w pubkey = do
  id ← lift (derive_member_id w pubkey)
  execute (delete_statements w.now id)

-- `visibility === 'discoverable' ? 1 : 0`, for whatever text the request holds.
unfoldable pub set_visibility : World → String → String → Run (Unit {0})
set_visibility w pubkey visibility = do
  id ← lift (derive_member_id w pubkey)
  execute (λ db.
      set_visible (visibility == "discoverable") w.now id
        (set_visibility_state visibility w.now id db))
