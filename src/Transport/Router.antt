-- ===== src/Transport/Router.antt =====
-- `routeRequest` of src/protocols/opendating/transport/router.ts with the idempotency store of the
-- extension, which is there or not. An import or a log call changes nothing.
use open_dating.Prelude.{
  ℕ, String, Bool, true, false, Option, none, some, List, ◌==◌, not, if◌then◌else◌, ok, thrown,
}
use open_dating.Json.{Json, str, get, exceeds}
use open_dating.Store.{Db}
use open_dating.World.{World, Run}
use open_dating.Membership.Profiles.{is_truthy}
use open_dating.Protocol.Envelope.{
  Envelope, Staleness, create_error_envelope, is_supported_version, check_request_freshness,
  expired, future, od_request_max_age_sec, od_request_max_future_sec,
}
use open_dating.Protocol.Messages.{as_object}
use open_dating.Protocol.Validation.{Request, Check, passed, failed, crashed, validate_od_request}
use open_dating.Protocol.Routes.{supports}
use open_dating.Services.System.{Advertised}
use open_dating.Transport.Idempotency.{is_duplicate, record_request}
use open_dating.Transport.Registry.{Service, Registry, resolve_by_recipient, dispatch}

-- The fields of `OpenDatingTransportContext` that the router and the services read.
pub record Context : Type 0 where
  pub authenticated_pubkey : String
  pub sender_pubkey : String
  pub service_pubkey : String

-- `RouteResult`.
pub record RouteResult : Type 0 where
  pub success : Bool
  pub envelope : Envelope
  pub duplicate : Bool

-- What the router finds around it: the registered services, the identities for the capabilities,
-- and whether the idempotency store is there.
pub record Setup : Type 0 where
  pub registry : Registry
  pub advertised : List Advertised
  pub has_store : Bool

abbrev pub reject : World → Json → String → String → RouteResult
reject w request_id code message = record {
  success = false;
  envelope = create_error_envelope w.now request_id code message;
  duplicate = false;
}

-- `envelope.request_id || 'unknown'`.
abbrev id_or_unknown : Option Json → Json
id_or_unknown none = str "unknown"
id_or_unknown (some j) = if is_truthy (some j) then j else str "unknown"

abbrev request_id_of : Json → Json
request_id_of j = elim (as_object j) [
  | none ↦ str "unknown"
  | some fs ↦ id_or_unknown (get "request_id" fs)
]

abbrev freshness_code : ℕ → Request → String
freshness_code now request =
    if exceeds request.created_at now then "future_request" else "expired_request"

abbrev freshness_message : Staleness → String
freshness_message expired = "Request expired"
freshness_message future = "Request from the future"

-- Step 8. An error of the handler is caught; what it wrote before stays.
unfoldable pub execute_request : World → Setup → Context → Service → Request → Db → RouteResult × Db
execute_request w setup ctx service request db =
    let (result, db') = dispatch w setup.advertised service.role request ctx.sender_pubkey db in
    elim result [
      | thrown e ↦
          (reject w (str request.request_id) "internal_error" "Internal processing error", db')
      | ok envelope ↦ (
        record { success = true; envelope = envelope; duplicate = false },
        if setup.has_store
            then record_request w.now ctx.service_pubkey ctx.sender_pubkey request.request_id
                request.message_type db'
            else db',
      )
    ]

-- Step 7.
abbrev pub duplicate_reply : World → Request → RouteResult
duplicate_reply w request = record {
  success = true;
  envelope =
      create_error_envelope w.now (str request.request_id) "duplicate_request"
        "Duplicate request — already processed";
  duplicate = true;
}

unfoldable pub check_duplicate : World → Setup → Context → Service → Request → Db → RouteResult × Db
check_duplicate w setup ctx service request db =
    let run = execute_request w setup ctx service request db in
    if not setup.has_store
    then run
    else if is_duplicate ctx.service_pubkey ctx.sender_pubkey request.request_id db
    then (duplicate_reply w request, db)
    else run

-- Steps 4 to 6.
unfoldable pub check_sender : World → Setup → Context → Request → Db → RouteResult × Db
check_sender w setup ctx request db =
    if not (ctx.authenticated_pubkey == ctx.sender_pubkey)
    then (
      reject w (str request.request_id) "sender_auth_mismatch"
          "Authenticated connection identity does not match request sender",
      db,
    )
    else elim (resolve_by_recipient ctx.service_pubkey setup.registry) [
      | none ↦ (reject w (str request.request_id) "unknown_service" "Unknown service recipient", db)
      | some service ↦
          if supports service.role request.message_type
          then check_duplicate w setup ctx service request db
          else (
            reject w (str request.request_id) "unsupported_type"
                "Service does not support the type",
            db,
          )
    ]

-- Steps 2 and 3.
unfoldable pub check_version : World → Setup → Context → Request → Db → RouteResult × Db
check_version w setup ctx request db =
    if not (is_supported_version request.version)
    then (reject w (str request.request_id) "unsupported_version" "Unsupported version", db)
    else elim (check_request_freshness w.now request.created_at od_request_max_age_sec
        od_request_max_future_sec) [
          | some s ↦ (
            reject w (str request.request_id) (freshness_code w.now request) (freshness_message s),
            db,
          )
          | none ↦ check_sender w setup ctx request db
        ]

-- What follows the validation of step 1. An error that is thrown there is not caught.
unfoldable pub route_checked : World → Setup → Context → Json → Check Request → Run RouteResult
route_checked w setup ctx envelope (crashed e) db = (thrown e, db)
route_checked w setup ctx envelope (failed code message) db =
    (ok (reject w (request_id_of envelope) code message), db)
route_checked w setup ctx envelope (passed request) db =
    let (r, db') = check_version w setup ctx request db in (ok r, db')

-- On an envelope that is not null.
unfoldable pub route_request : World → Setup → Context → Json → Run RouteResult
route_request w setup ctx envelope =
    route_checked w setup ctx envelope (validate_od_request w envelope)
