-- ===== src/Protocol/Acceptance.antt =====
-- What `validateODRequest` of src/protocols/opendating/protocol/validation.ts lets through.
use mathlib.Core.List.{Memᴰ}
use open_dating.Prelude.{ℕ, ◌≤◌, true, false, some, ◌≡◌, ◌⊎◌, ◌==◌, ok, suc}
use open_dating.Json.{Json, num, str, obj, Fields, get, Number, ratio, infinite, nan}
use open_dating.Text.{length_of}
use open_dating.World.{World}
use open_dating.Protocol.Envelope.{supported_versions}
use open_dating.Protocol.Messages.{as_object, is_known_message_type, validate_payload}
use open_dating.Protocol.Validation.{Request}

-- A number above zero, as a fraction, or what is neither above nor below it.
abbrev IsPositive : Number → Type 0
IsPositive n = ((a : ℕ) × (d : ℕ) × (n ≡ ratio (suc a) d)) ⊎ ((n ≡ infinite) ⊎ (n ≡ nan))

-- An object with the fields of a request, which are those that the request has.
pub record IsRequest (w : World) (e : Fields) (r : Request) : Type 0 where
  pub protocol : get "protocol" e ≡ some (str "opendating")
  pub version : get "version" e ≡ some (str r.version)
  pub supported : Memᴰ r.version supported_versions
  pub message_type : get "type" e ≡ some (str r.message_type)
  pub named : (r.message_type == "") ≡ false
  pub known : is_known_message_type r.message_type ≡ true
  pub request_id : get "request_id" e ≡ some (str r.request_id)
  pub long : 8 ≤ length_of r.request_id
  pub created_at : get "created_at" e ≡ some (num r.created_at)
  pub positive : IsPositive r.created_at
  pub payload :
      (j : Json) × (get "payload" e ≡ some j)
      × (as_object j ≡ some r.payload)
      × (validate_payload r.message_type j ≡ ok true)
  pub fits : length_of (w.stringify (obj e)) ≤ 16384
