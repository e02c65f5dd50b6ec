-- ===== src/Tests/Routing.antt =====
-- Examples of routed requests: src/protocols/opendating/transport and protocol.
use open_dating.Prelude.{String, true, false, [], ◌≡◌, refl, ok, exists, lookup, insert}
use open_dating.Json.{Json, Fields, str, num, whole, obj, end, field, get}
use open_dating.Protocol.Envelope.{create_envelope, is_supported_version, check_request_freshness}
use open_dating.Protocol.Messages.{is_known_message_type, validate_payload}
use open_dating.Protocol.Validation.{passed, ◌>>=◌, ◌>>◌, validate_od_request}
use open_dating.Protocol.Routes.{system, get_request_route, supports}
use open_dating.Services.System.{handle}
use open_dating.Transport.Idempotency.{is_duplicate, record_request}
use open_dating.Transport.Registry.{no_services, register, resolve_by_recipient, dispatch}
use open_dating.Transport.Router.{
  Context, Setup, RouteResult, execute_request, check_duplicate, check_sender, check_version,
  route_checked, route_request,
}
use open_dating.Transport.Delivery.{Outcome, check_version-Outcome, route_request_once}
use open_dating.Tests.Fixtures.{alice, bob, world, request, members_db}

unfoldable pub ponged_program : Unit {0}
unfolding exists lookup insert get create_envelope is_supported_version check_request_freshness
    is_known_message_type validate_payload ◌>>=◌ ◌>>◌ validate_od_request get_request_route supports
    handle is_duplicate record_request register resolve_by_recipient dispatch execute_request
    check_duplicate check_sender check_version route_checked route_request
ponged_program = tt

abbrev pub setup : Setup
setup = record {
  registry = register (record { role = system; pubkey = bob }) no_services;
  advertised = [];
  has_store = true;
}

abbrev context : String → Context
context authenticated = record {
  authenticated_pubkey = authenticated;
  sender_pubkey = alice;
  service_pubkey = bob;
}

abbrev pub ping_fields : Fields
ping_fields = field "protocol" (str "opendating") (
    field "version" (str "0.1") (
      field "type" (str "system.ping") (
        field "request_id" (str "request-1")
          (field "created_at" (num (whole 1000000)) (field "payload" (obj end) end)))))

abbrev ping : Json
ping = obj ping_fields

abbrev pub pong : RouteResult
pong = record {
  success = true;
  duplicate = false;
  envelope =
      create_envelope 1000000 "system.pong" (str "request-1")
        (field "server_time" (num (whole 1000000)) (field "protocol_version" (str "0.1") end));
}

ponged : (route_request world setup (context alice) ping members_db).0 ≡ ok pong
unfolding ponged_program
ponged = refl

route_request_once_example :
    (route_request
      (record world { now = 1000100 })
      setup
      (context alice)
      ping
      (route_request world setup (context alice) ping members_db).1).1
    ≡ (route_request world setup (context alice) ping members_db).1
route_request_once_example =
    route_request_once world 1000100 setup (context alice) ping members_db pong refl ponged refl

check_version-Outcome_example :
    Outcome world setup
      (context alice)
      (request "system.ping" end)
      members_db
      (check_version world setup (context alice) (request "system.ping" end) members_db)
check_version-Outcome_example =
    check_version-Outcome world setup (context alice) (request "system.ping" end) members_db

valid : validate_od_request world ping ≡ passed (request "system.ping" end)
unfolding ponged_program
valid = refl
