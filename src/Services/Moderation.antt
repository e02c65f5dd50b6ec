-- ===== src/Services/Moderation.antt =====
-- Reports and moderators' actions: src/protocols/opendating/services/moderation/service.ts.
use Prim.Native.String
use mathlib.Core.Option
use open_dating.Prelude.{
  ℕ, String, Bool, true, false, Option, none, some, List, [], ◌∷◌, ◌++◌, ◌==◌, ◌||◌, not, exists,
  insert_or_replace, if◌then◌else◌, Result, ok, thrown,
}
use open_dating.Json.{Json, null, bool, num, str, arr, obj, nil, end, field, get, as_string, whole}
use open_dating.Crypto.Hex.{bytes_to_hex}
use open_dating.Store.{Db, Report, ModerationAction, Sanction}
use open_dating.World.{World, Run, ◌>>=◌, ◌>>◌, return, throw, lift, query, execute, bind_text}
use open_dating.Membership.Keys.{derive_member_id}
use open_dating.Membership.Profiles.{is_truthy, text_of}
use open_dating.Protocol.Envelope.{Envelope, create_envelope, create_error_envelope, includes}
use open_dating.Protocol.Validation.{Request}

abbrev valid_types : List String
valid_types =
    "harassment" ∷ "scam" ∷ "catfish" ∷ "underage" ∷ "inappropriate_content" ∷ "other" ∷ []

-- `validTypes.includes(reportType)`, for any value.
abbrev is_valid_type : Option String → Bool
is_valid_type none = false
is_valid_type (some s) = includes valid_types s

abbrev pub invalid_report : World → Request → String → Envelope
invalid_report w request message =
    create_error_envelope w.now (str request.request_id) "invalid_envelope" message

-- `payload.description_encrypted || null`, and whether the database accepts it.
abbrev description_of : World → Option Json → Result (Option String)
description_of w j =
    if is_truthy j
    then elim (bind_text w j) [ ok s ↦ ok (some s) | thrown e ↦ thrown e ]
    else ok none

abbrev or_else : Option Json → Json → Json
or_else j d = if is_truthy j then elim j [ some i ↦ i | none ↦ d ] else d

-- An `INSERT` fails on a key that is there.
abbrev insert_report : Report → Run (Unit {0})
insert_report row db =
    if exists (λ (r : Report). r.report_id == row.report_id) db.od_reports
    then (thrown "UNIQUE constraint failed", db)
    else (ok tt, record db { od_reports = db.od_reports ++ row ∷ [] })

abbrev hash_of : World → String → String → String → String
hash_of w sender subject kind = bytes_to_hex (
    w.sha256
      (String.◌++◌ sender (String.◌++◌ subject (String.◌++◌ kind (w.text_of (num (whole w.now)))))))

-- `createReport` from the insert on.
unfoldable pub file_report : World → Request → String → String → String → Run Envelope
file_report w request sender subject_pubkey kind = do
  reporter ← lift (derive_member_id w sender)
  subject ← lift (derive_member_id w subject_pubkey)
  description ← lift (description_of w (get "description_encrypted" request.payload))
  insert_report (record {
    report_id = hash_of w sender subject_pubkey kind;
    reporter_member_id = reporter;
    subject_member_id = subject;
    report_type = kind;
    description_encrypted = description;
    evidence_event_ids = or_else (get "evidence_event_ids" request.payload) (arr nil);
    created_at = w.now;
  })
  return (
      create_envelope w.now "report.create.result" (str request.request_id) (
        field "report_id" (str (hash_of w sender subject_pubkey kind))
          (field "created_at" (num (whole w.now)) end)))

-- A subject that is no text fails in `hexToBytes`; an empty array counts as an empty text there.
abbrev subject_of : Option Json → Result String
subject_of (some (str s)) = ok s
subject_of (some (arr nil)) = ok ""
subject_of j = thrown "Invalid hex string"

unfoldable pub create_report : World → Request → String → Run Envelope
create_report w request sender =
    let subject = get "subject_pubkey" request.payload in
    let kind = get "report_type" request.payload in
    if not (is_truthy subject) || not (is_truthy kind)
    then return (invalid_report w request "Missing subject_pubkey or report_type")
    else if not (is_valid_type (as_string kind))
    then return (invalid_report w request "Invalid report_type")
    else do
      subject_pubkey ← lift (subject_of subject)
      file_report w request sender subject_pubkey (text_of w kind)

abbrev when_true : Option Json → Option Json
when_true j = if is_truthy j then j else none

-- `payload.report_id || null` is a reference to a report.
abbrev is_known_report : Option Json → Db → Bool
is_known_report none db = true
is_known_report (some j) db = elim (as_string (some j)) [
  | none ↦ false
  | some id ↦ exists (λ (r : Report). r.report_id == id) db.od_reports
]

abbrev is_scalar : Option Json → Bool
is_scalar none = true
is_scalar (some null) = true
is_scalar (some (bool b)) = true
is_scalar (some (num n)) = true
is_scalar (some (str s)) = true
is_scalar (some (arr js)) = false
is_scalar (some (obj fs)) = false

-- The error of the `INSERT`.
unfoldable pub insert_error : ModerationAction → Db → Option String
insert_error row db =
    if not (is_scalar row.report_id) || not (is_scalar row.duration_seconds)
    then some "D1_TYPE_ERROR"
    else if exists (λ (a : ModerationAction). a.action_id == row.action_id) db.od_moderation_actions
    then some "UNIQUE constraint failed"
    else if not (is_known_report row.report_id db)
    then some "FOREIGN KEY constraint failed"
    else none

unfoldable pub insert_action : ModerationAction → Run (Unit {0})
insert_action row db = elim (insert_error row db) [
  | some e ↦ (thrown e, db)
  | none ↦ (ok tt, record db { od_moderation_actions = db.od_moderation_actions ++ row ∷ [] })
]

abbrev is_sanction_type : Option String → Bool
is_sanction_type none = false
is_sanction_type (some s) = s == "suspend" || s == "ban"

abbrev expires_at_of : ℕ → Option Json → Option (ℕ × Json)
expires_at_of now none = none
expires_at_of now (some j) = some (now, j)

abbrev write_sanction : Sanction → Db → Db
write_sanction row db = record db {
  od_sanctions =
      insert_or_replace (λ (s : Sanction). s.target_member_id == row.target_member_id) row
        db.od_sanctions;
}

-- `UPDATE od_profiles SET visibility = 'hidden'`: the table has a column `visibility_state` and none
-- of that name, so the statement fails.
abbrev hide_profile : Run (Unit {0})
hide_profile = throw "no such column: visibility"

-- The block `if (['suspend', 'ban'].includes(actionType))`.
unfoldable pub apply_sanction :
    World → String → String → Option String → String → Option Json → Run (Unit {0})
apply_sanction w sender target action_type reason duration =
    if not (is_sanction_type action_type) then return tt else do
      execute (
          write_sanction (record {
            target_member_id = target;
            sanction_type = if Option.get_or action_type "" == "ban" then "banned" else "suspended";
            reason = reason;
            expires_at = expires_at_of w.now duration;
            created_at = w.now;
            created_by = sender;
          }))
      hide_profile

abbrev action_hash : World → Request → String → String
action_hash w request sender =
    hash_of w sender (text_of w (get "target_member_id" request.payload))
      (text_of w (get "action_type" request.payload))

abbrev pub action_row : World → Request → String → String → String → String → ModerationAction
action_row w request sender target action_type reason = record {
  action_id = action_hash w request sender;
  report_id = when_true (get "report_id" request.payload);
  moderator_pubkey = sender;
  action_type = action_type;
  target_member_id = target;
  reason = reason;
  duration_seconds = when_true (get "duration_seconds" request.payload);
  created_at = w.now;
}

-- `applyAction` behind the insert of the action.
unfoldable pub sanction_reply : World → Request → String → String → String → Run Envelope
sanction_reply w request sender target reason = do
  apply_sanction w sender target (as_string (get "action_type" request.payload)) reason
      (when_true (get "duration_seconds" request.payload))
  return (
      create_envelope w.now "moderation.action.result" (str request.request_id) (
        field "action_id" (str (action_hash w request sender))
          (field "applied_at" (num (whole w.now)) end)))

-- `applyAction` from the first statement that writes on.
unfoldable pub act_on : World → Request → String → String → String → String → Run Envelope
act_on w request sender target action_type reason =
    insert_action (action_row w request sender target action_type reason) >>= λ _.
    sanction_reply w request sender target reason

-- `applyAction` behind the check of the role.
unfoldable pub act : World → Request → String → Run Envelope
act w request sender = do
  target ← lift (bind_text w (get "target_member_id" request.payload))
  action_type ← lift (bind_text w (get "action_type" request.payload))
  reason ← lift (bind_text w (get "reason" request.payload))
  act_on w request sender target action_type reason

unfoldable pub is_moderator : String → Db → Bool
is_moderator sender db = exists (λ m. m.pubkey == sender) db.od_moderators

-- The branches of `if (!moderator)`.
unfoldable pub act_as : Bool → World → Request → String → Run Envelope
act_as true w request sender = act w request sender
act_as false w request sender =
    return (create_error_envelope w.now (str request.request_id) "unauthorized" "Not a moderator")

unfoldable pub apply_action : World → Request → String → Run Envelope
apply_action w request sender = do
  moderator ← query (is_moderator sender)
  act_as moderator w request sender

unfoldable pub handle : World → Request → String → Run Envelope
handle w request sender =
    if request.message_type == "report.create"
    then create_report w request sender
    else if request.message_type == "moderation.action"
    then apply_action w request sender
    else throw "Moderation service does not support the type"
