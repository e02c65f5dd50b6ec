-- ===== src/Services/System.antt =====
-- Ping and capabilities: src/protocols/opendating/services/system/service.ts, with
-- `buildCapabilities` of src/protocols/opendating/protocol/capabilities.ts.
use open_dating.Prelude.{String, List, [], ◌∷◌, ◌==◌, if◌then◌else◌, map, Result, ok, thrown}
use open_dating.Json.{Json, num, str, arr, obj, Fields, end, field, whole, of_items}
use open_dating.World.{World}
use open_dating.Protocol.Envelope.{
  Envelope, create_envelope, opendating_version, supported_versions,
}
use open_dating.Protocol.Validation.{Request}

abbrev od_features : List String
od_features = "private-service-requests" ∷ "nip42-required" ∷ "nip59-transport" ∷ []

-- A service as it is advertised: its role, its pubkey and its message types.
pub record Advertised : Type 0 where
  pub role : String
  pub pubkey : String
  pub supported_types : List String

abbrev texts : List String → Json
texts names = arr (of_items (map str names))

abbrev describe : Advertised → Json
describe s = obj (
    field "role" (str s.role)
      (field "pubkey" (str s.pubkey) (field "supported_types" (texts s.supported_types) end)))

unfoldable pub build_capabilities : List Advertised → Fields
build_capabilities services = field "versions" (texts supported_versions) (
    field "services" (arr (of_items (map describe services)))
      (field "features" (texts od_features) end))

unfoldable pub handle : World → List Advertised → Request → Result Envelope
handle w services request =
    if request.message_type == "system.ping"
    then ok (
        create_envelope w.now "system.pong" (str request.request_id) (
          field "server_time" (num (whole w.now))
            (field "protocol_version" (str opendating_version) end)))
    else if request.message_type == "system.capabilities"
    then ok (
        create_envelope w.now "system.capabilities.result" (str request.request_id)
          (build_capabilities services))
    else thrown "System service does not support type"
