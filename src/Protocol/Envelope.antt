-- ===== src/Protocol/Envelope.antt =====
-- Envelopes, versions and freshness: envelope.ts, version.ts and constants.ts of
-- src/protocols/opendating/protocol. A message that interpolates a value is cut to its fixed part.
use open_dating.Prelude.{
  ℕ, suc, ◌+◌, ◌*◌, String, Bool, true, false, Option, none, some, List, [], ◌∷◌, ◌==◌, ltb,
  if◌then◌else◌, exists,
}
use open_dating.Json.{
  Json, str, Fields, end, field, Number, ratio, negative, infinite, minus_infinite, nan, exceeds,
}

abbrev pub opendating_protocol : String
opendating_protocol = "opendating"

abbrev pub opendating_version : String
opendating_version = "0.1"

abbrev pub supported_versions : List String
supported_versions = "0.1" ∷ []

abbrev pub max_od_payload_bytes : ℕ
max_od_payload_bytes = 16384

abbrev pub od_request_max_age_sec : ℕ
od_request_max_age_sec = 300

abbrev pub od_request_max_future_sec : ℕ
od_request_max_future_sec = 60

abbrev pub od_idempotency_retention_sec : ℕ
od_idempotency_retention_sec = 86400

-- An `OpenDatingEnvelope` that the relay makes.
pub record Envelope : Type 0 where
  pub protocol : String
  pub version : String
  pub message_type : String
  pub request_id : Json
  pub created_at : ℕ
  pub payload : Fields

unfoldable pub create_envelope : ℕ → String → Json → Fields → Envelope
create_envelope now message_type request_id payload = record {
  protocol = opendating_protocol;
  version = "0.1";
  message_type = message_type;
  request_id = request_id;
  created_at = now;
  payload = payload;
}

unfoldable pub create_error_envelope : ℕ → Json → String → String → Envelope
create_error_envelope now request_id code message = record {
  protocol = opendating_protocol;
  version = "0.1";
  message_type = "system.error";
  request_id = request_id;
  created_at = now;
  payload = field "code" (str code) (field "message" (str message) end);
}

-- `versions.includes(v)`.
abbrev pub includes : List String → String → Bool
includes versions v = exists (λ s. s == v) versions

unfoldable pub is_supported_version : String → Bool
unfolding exists
is_supported_version version = includes supported_versions version

-- The loop of `negotiateVersion`.
negotiate : List String → List String → Option String
negotiate [] client_versions = none
negotiate (sv ∷ server_versions) client_versions =
    if includes client_versions sv then some sv else negotiate server_versions client_versions

pub negotiate_version : List String → Option String
unfolding negotiate
negotiate_version client_versions = negotiate supported_versions client_versions

pub data Staleness : Type 0 where
  expired future : Staleness

-- `now - created_at > max_age`.
abbrev pub is_older : ℕ → Number → ℕ → Bool
is_older now (ratio a d) max_age = ltb (a + max_age * suc d) (now * suc d)
is_older now (negative a d) max_age = ltb (max_age * suc d) (now * suc d + suc a)
is_older now infinite max_age = false
is_older now minus_infinite max_age = true
is_older now nan max_age = false

-- `now - created_at < -max_future` is `created_at > now + max_future`.
unfoldable pub check_request_freshness : ℕ → Number → ℕ → ℕ → Option Staleness
check_request_freshness now created_at max_age max_future =
    if is_older now created_at max_age
    then some expired
    else if exceeds created_at (now + max_future)
    then some future
    else none
