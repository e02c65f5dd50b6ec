-- ===== src/Store.antt =====
-- The tables of migrations/0005 to 0012 that the services read and write, one record type for the
-- rows of each table and one field of `Db` for each table. A member's id is the pseudonym that
-- `deriveMemberId` computes. The columns that no query of the services reads or writes are left out.
use open_dating.Prelude.{ℕ, String, Bool, Option, List, []}
use open_dating.Json.{Number, Json}

-- `MemberState`.
pub data MemberState : Type 0 where
  onboarding active paused limited quarantined suspended banned deleted : MemberState

-- `MemberRecord`, with the pubkey as stored.
pub record Member : Type 0 where
  pub member_id : String
  pub encrypted_pubkey : String
  pub status : MemberState
  pub trust_tier : ℕ
  pub last_active_bucket : Option String
  pub protocol_version : String
  pub created_at : ℕ
  pub updated_at : ℕ

-- A row of `od_profiles`.
pub record Profile : Type 0 where
  pub member_id : String
  pub profile_version : ℕ
  pub encrypted_profile_payload : Option String
  pub age : Option Number
  pub gender_category : Option String
  pub relationship_intent : Option String
  pub visibility_state : String
  pub completeness : ℕ
  pub created_at : ℕ
  pub updated_at : ℕ

-- A row of `od_discovery_index`.
pub record IndexRow : Type 0 where
  pub member_id : String
  pub geo_cell_p5 : Option String
  pub geo_cell_p4 : Option String
  pub geo_cell_p3 : Option String
  pub age : Option Number
  pub gender_category : Option String
  pub intent_category : Option String
  pub visible : Bool
  pub trust_tier : ℕ
  pub activity_bucket : Option String
  pub updated_at : ℕ

-- A row of `od_discovery_prefs`; the genders are the parsed JSON array of the column.
pub record Prefs : Type 0 where
  pub member_id : String
  pub age_min : ℕ
  pub age_max : ℕ
  pub max_distance_km : ℕ
  pub genders : Option (List String)
  pub intent : Option String
  pub updated_at : ℕ

-- A row of `od_candidate_grants`.
pub record Grant : Type 0 where
  pub viewer_id : String
  pub candidate_id : String
  pub grant_token : String
  pub distance_bucket : String
  pub granted_at : ℕ
  pub expires_at : Option ℕ

pub record Seen : Type 0 where
  pub viewer_id : String
  pub candidate_id : String
  pub seen_at : ℕ

-- A row of `od_discovery_quotas`.
pub record Quota : Type 0 where
  pub member_id : String
  pub daily_candidates_served : ℕ
  pub daily_likes_sent : ℕ
  pub daily_reset_at : ℕ
  pub updated_at : ℕ

-- Whether an intent is in state 'active' or 'revoked', the two states that the code writes.
pub data IntentState : Type 0 where
  live revoked : IntentState

pub record Intent : Type 0 where
  pub id : String
  pub from_member_id : String
  pub to_member_id : String
  pub state : IntentState
  pub created_at : ℕ
  pub expires_at : ℕ
  pub revoked_at : Option ℕ

pub data MatchState : Type 0 where
  matched unmatched_a unmatched_b blocked_a : MatchState

pub record Match : Type 0 where
  pub match_id : String
  pub member_a : String
  pub member_b : String
  pub state : MatchState
  pub created_at : ℕ
  pub updated_at : ℕ

pub record Notification : Type 0 where
  pub id : String
  pub match_id : String
  pub recipient_member_id : String
  pub created_at : ℕ

pub record Block : Type 0 where
  pub blocker_member_id : String
  pub blocked_member_id : String
  pub created_at : ℕ

-- A row of `od_idempotency`.
pub record Processed : Type 0 where
  pub service_pubkey : String
  pub sender_pubkey : String
  pub request_id : String
  pub request_type : String
  pub created_at : ℕ
  pub expires_at : ℕ

pub record Report : Type 0 where
  pub report_id : String
  pub reporter_member_id : String
  pub subject_member_id : String
  pub report_type : String
  pub description_encrypted : Option String
  pub evidence_event_ids : Json
  pub created_at : ℕ

-- A row of `od_moderators`.
pub record Moderator : Type 0 where
  pub pubkey : String
  pub role : String

-- A row of `od_moderation_actions`.
pub record ModerationAction : Type 0 where
  pub action_id : String
  pub report_id : Option Json
  pub moderator_pubkey : String
  pub action_type : String
  pub target_member_id : String
  pub reason : String
  pub duration_seconds : Option Json
  pub created_at : ℕ

-- A row of `od_sanctions`. The time of expiry is a sum of the code, kept as its two terms.
pub record Sanction : Type 0 where
  pub target_member_id : String
  pub sanction_type : String
  pub reason : String
  pub expires_at : Option (ℕ × Json)
  pub created_at : ℕ
  pub created_by : String

pub record Tombstone : Type 0 where
  pub member_id : String
  pub cutoff_timestamp : ℕ
  pub request_hash : String
  pub created_at : ℕ

pub record Db : Type 0 where
  pub od_members : List Member
  pub od_profiles : List Profile
  pub od_discovery_index : List IndexRow
  -- The member ids of the rows of `od_profile_media`.
  pub od_profile_media : List String
  pub od_discovery_prefs : List Prefs
  pub od_candidate_grants : List Grant
  pub od_seen_candidates : List Seen
  pub od_discovery_quotas : List Quota
  pub od_intents : List Intent
  pub od_matches : List Match
  pub od_match_notifications : List Notification
  pub od_blocks : List Block
  pub od_idempotency : List Processed
  pub od_reports : List Report
  pub od_moderators : List Moderator
  pub od_moderation_actions : List ModerationAction
  pub od_sanctions : List Sanction
  pub od_vanish_tombstones : List Tombstone

abbrev pub empty_db : Db
empty_db = record {
  od_members = [];
  od_profiles = [];
  od_discovery_index = [];
  od_profile_media = [];
  od_discovery_prefs = [];
  od_candidate_grants = [];
  od_seen_candidates = [];
  od_discovery_quotas = [];
  od_intents = [];
  od_matches = [];
  od_match_notifications = [];
  od_blocks = [];
  od_idempotency = [];
  od_reports = [];
  od_moderators = [];
  od_moderation_actions = [];
  od_sanctions = [];
  od_vanish_tombstones = [];
}
