-- ===== src/Protocol/Messages.antt =====
-- The message types and their payload checks: src/protocols/opendating/protocol/message-types.ts.
use open_dating.Prelude.{
  String, Bool, true, false, Option, none, some, List, [], ◌∷◌, ◌||◌, ◌&&◌, if◌then◌else◌, Result,
  ok, thrown, lookup, exists,
}
use open_dating.Json.{
  Json, null, bool, num, str, arr, obj, nil, cons, Fields, end, field, get, as_string, as_number,
  as_array,
}
use open_dating.Protocol.Envelope.{includes}

-- The checks that the entries of `MESSAGE_VALIDATORS` name.
pub data PayloadCheck : Type 0 where
  empty_object pong capabilities_result has_code any_object : PayloadCheck

abbrev is_some {ℓ} : {A : Type ℓ} → Option A → Bool
is_some none = false
is_some (some a) = true

-- `typeof p === 'object' && p !== null`, and the properties of such a value: an array has none of
-- the names that are read.
abbrev pub as_object : Json → Option Fields
as_object null = none
as_object (bool b) = none
as_object (num n) = none
as_object (str s) = none
as_object (arr js) = some end
as_object (obj fs) = some fs

-- `Object.keys(p).length === 0`.
abbrev has_no_keys : Json → Bool
has_no_keys (arr nil) = true
has_no_keys (arr (cons j js)) = false
has_no_keys (obj end) = true
has_no_keys (obj (field k j fs)) = false
has_no_keys null = false
has_no_keys (bool b) = false
has_no_keys (num n) = false
has_no_keys (str s) = false

run_check : PayloadCheck → Json → Bool
run_check empty_object p = has_no_keys p
run_check pong p = elim (as_object p) [
  | none ↦ false
  | some o ↦
      is_some (as_number (get "server_time" o)) && is_some (as_string (get "protocol_version" o))
]
run_check capabilities_result p = elim (as_object p) [
  | none ↦ false
  | some o ↦
      is_some (as_array (get "versions" o))
      && is_some (as_array (get "services" o))
      && is_some (as_array (get "features" o))
]
run_check has_code p = elim (as_object p) [
  | none ↦ false
  | some o ↦ is_some (as_string (get "code" o))
]
run_check any_object p = is_some (as_object p)

abbrev plain : String → String × PayloadCheck
plain name = (name, any_object)

abbrev pub message_validators : List (String × PayloadCheck)
message_validators =
    ("system.ping", empty_object)
    ∷ ("system.pong", pong)
    ∷ ("system.capabilities", empty_object)
    ∷ ("system.capabilities.result", capabilities_result)
    ∷ ("system.error", has_code)
    ∷ plain "profile.create"
    ∷ plain "profile.create.result"
    ∷ plain "profile.update"
    ∷ plain "profile.update.result"
    ∷ plain "profile.get"
    ∷ plain "profile.get.result"
    ∷ plain "profile.pause"
    ∷ plain "profile.pause.result"
    ∷ plain "profile.resume"
    ∷ plain "profile.resume.result"
    ∷ plain "profile.delete"
    ∷ plain "profile.delete.result"
    ∷ plain "discovery.update_location"
    ∷ plain "discovery.update_location.result"
    ∷ plain "discovery.get_candidates"
    ∷ plain "discovery.get_candidates.result"
    ∷ plain "discovery.update_preferences"
    ∷ plain "discovery.update_preferences.result"
    ∷ plain "intent.like"
    ∷ plain "intent.like.result"
    ∷ plain "intent.revoke"
    ∷ plain "intent.revoke.result"
    ∷ plain "match.list"
    ∷ plain "match.list.result"
    ∷ plain "block.create"
    ∷ plain "block.create.result"
    ∷ plain "block.list"
    ∷ plain "block.list.result"
    ∷ plain "unmatch.create"
    ∷ plain "unmatch.create.result"
    ∷ plain "report.create"
    ∷ plain "report.create.result"
    ∷ plain "moderation.action"
    ∷ plain "moderation.action.result"
    ∷ plain "visibility.update"
    ∷ plain "visibility.update.result"
    ∷ plain "block.remove"
    ∷ plain "block.remove.result"
    ∷ plain "report.received"
    ∷ plain "verification.list"
    ∷ plain "verification.list.result"
    ∷ plain "account.delete"
    ∷ plain "account.delete.result"
    ∷ plain "service.ack"
    ∷ ("service.error", has_code)
    ∷ []

-- The names that every object has through its prototype. Read from `MESSAGE_VALIDATORS`, the first
-- two are functions that return a true value when they are called on a payload; a call of any of
-- the others throws a TypeError.
abbrev callable_names : List String
callable_names = "constructor" ∷ "toString" ∷ []

abbrev prototype_names : List String
prototype_names =
    "constructor" ∷ "toString" ∷ "__proto__" ∷ "hasOwnProperty" ∷ "isPrototypeOf"
    ∷ "propertyIsEnumerable" ∷ "toLocaleString" ∷ "valueOf" ∷ "__defineGetter__"
    ∷ "__defineSetter__" ∷ "__lookupGetter__" ∷ "__lookupSetter__" ∷ []

-- `type in MESSAGE_VALIDATORS`, which sees the prototype too.
unfoldable pub is_known_message_type : String → Bool
unfolding lookup exists
is_known_message_type name =
    is_some (lookup name message_validators) || includes prototype_names name

-- `payloadValidator(e.payload)`, for `getPayloadValidator(e.type)`; a type that has no validator
-- passes.
unfoldable pub validate_payload : String → Json → Result Bool
unfolding lookup exists run_check
validate_payload name payload = elim (lookup name message_validators) [
  | some check ↦ ok (run_check check payload)
  | none ↦
      if includes prototype_names name && (if includes callable_names name then false else true)
      then thrown "TypeError"
      else ok true
]
