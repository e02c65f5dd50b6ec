-- ===== src/Protocol/Validation.antt =====
-- `validateODRequest` of src/protocols/opendating/protocol/validation.ts.
use open_dating.Prelude.{
  String, Bool, true, false, Option, none, some, ◌==◌, leb, eqb, not, Result, ok, thrown,
}
use open_dating.Json.{
  Json, null, bool, num, str, arr, obj, Fields, get, as_string, as_number, Number, ratio, negative,
  infinite, minus_infinite, nan,
}
use open_dating.Text.{length_of}
use open_dating.World.{World}
use open_dating.Protocol.Envelope.{opendating_protocol, is_supported_version, max_od_payload_bytes}
use open_dating.Protocol.Messages.{as_object, is_known_message_type, validate_payload}

-- A request whose fields have the types of `OpenDatingEnvelope`.
pub record Request : Type 0 where
  pub version : String
  pub message_type : String
  pub request_id : String
  pub created_at : Number
  pub payload : Fields

-- `{ valid: true }`, with what the typed code reads from there on; an error with its code and its
-- message; or a TypeError.
pub data Check {ℓ} (A : Type ℓ) : Type ℓ where
  passed : A → Check A
  failed : String → String → Check A
  crashed : String → Check A

infixl 5 ◌>>=◌ ◌>>◌
unfoldable pub ◌>>=◌ {ℓ κ} : {A : Type ℓ} {B : Type κ} → Check A → (A → Check B) → Check B
passed a >>= f = f a
failed code message >>= f = failed code message
crashed e >>= f = crashed e

unfoldable pub ◌>>◌ {ℓ} : {B : Type ℓ} → Check (Unit {0}) → Check B → Check B
unfolding ◌>>=◌
m >> k = m >>= λ _. k

abbrev pub require : Bool → String → String → Check (Unit {0})
require true code message = passed tt
require false code message = failed code message

abbrev pub expect {ℓ} : {A : Type ℓ} → Option A → String → String → Check A
expect (some a) code message = passed a
expect none code message = failed code message

abbrev pub of_result : Result Bool → Check Bool
of_result (ok b) = passed b
of_result (thrown e) = crashed e

-- `n <= 0`.
abbrev pub is_not_positive : Number → Bool
is_not_positive (ratio a d) = eqb a 0
is_not_positive (negative a d) = true
is_not_positive infinite = false
is_not_positive minus_infinite = true
is_not_positive nan = false

-- `e.protocol === OPENDATING_PROTOCOL`.
abbrev pub is_text : String → Option Json → Bool
is_text t none = false
is_text t (some (str s)) = s == t
is_text t (some null) = false
is_text t (some (bool b)) = false
is_text t (some (num n)) = false
is_text t (some (arr js)) = false
is_text t (some (obj fs)) = false

unfoldable pub validate_od_request : World → Json → Check Request
unfolding ◌>>=◌ ◌>>◌
validate_od_request w envelope = do
  e ← expect (as_object envelope) "invalid_envelope" "Envelope must be an object"
  require (is_text opendating_protocol (get "protocol" e)) "invalid_envelope" "Unknown protocol"
  version ← expect (as_string (get "version" e)) "invalid_envelope" "Missing version"
  require (is_supported_version version) "unsupported_version" "Unsupported version"
  name ← expect (as_string (get "type" e)) "invalid_envelope" "Missing message type"
  require (not (name == "")) "invalid_envelope" "Missing message type"
  require (is_known_message_type name) "unsupported_type" "Unknown message type"
  id ← expect (as_string (get "request_id" e)) "invalid_envelope" "Invalid request_id"
  require (leb 8 (length_of id)) "invalid_envelope" "Invalid request_id"
  created_at ← expect (as_number (get "created_at" e)) "invalid_envelope" "Invalid created_at"
  require (not (is_not_positive created_at)) "invalid_envelope" "Invalid created_at"
  payload ← expect (get "payload" e) "invalid_envelope" "Payload must be an object"
  fields ← expect (as_object payload) "invalid_envelope" "Payload must be an object"
  accepted ← of_result (validate_payload name payload)
  require accepted "invalid_envelope" "Invalid payload for message type"
  require (leb (length_of (w.stringify envelope)) max_od_payload_bytes) "payload_too_large"
      "Payload too large"
  passed (record {
    version = version;
    message_type = name;
    request_id = id;
    created_at = created_at;
    payload = fields;
  })
