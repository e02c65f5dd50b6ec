-- ===== src/Gateway/Extension.antt =====
-- `openDatingExtension` of src/protocols/opendating/extension.ts: requests in gift wraps, and the
-- responses to them. Log calls change nothing, and a request id that is missing in an answer to
-- rejected content is null.
use Prim.Native.String
use open_dating.Prelude.{
  String, Bool, true, false, Option, none, some, List, [], ◌∷◌, ◌==◌, ◌||◌, ltb, if◌then◌else◌,
  Result, ok, thrown,
}
use open_dating.Json.{Json, null, obj, Fields, get, as_string}
use open_dating.Text.{length_of}
use open_dating.Store.{Db}
use open_dating.Protocol.Envelope.{Envelope, create_error_envelope}
use open_dating.Transport.Router.{Context, RouteResult, route_request}
use open_dating.Events.Model.{Event, or_empty}
use open_dating.Events.Process.{process_event}
use open_dating.Connection.State.{Stores, ExtensionResult, Handler}
use open_dating.Gateway.Identities.{get_signer}
use open_dating.Gateway.Incoming.{
  Gateway, fields_of, text_is, is_addressed_to_service, decrypt_and_parse,
}
use open_dating.Gateway.Wraps.{build_gift_wrap}

-- `sendResponse`: the gift wrap is stored, and returned for the delivery.
unfoldable pub send_response : Gateway → Envelope → String → String → Stores → Option Event × Stores
send_response g envelope sender service stores = elim (get_signer service g.identities) [
  | none ↦ (none, stores)
  | some signer ↦
      elim (build_gift_wrap g.crypto g.draws g.world.now 78 (g.envelope_text envelope)
        signer.private_key signer.pubkey sender) [
          | none ↦ (none, stores)
          | some e ↦ (
            some e,
            record stores {
              event_db = (process_event g.config g.crypto.platform e stores.event_db).1;
            },
          )
        ]
]

abbrev join_text : String → String → String
join_text name bio =
    if name == "" then bio else if bio == "" then name else String.◌++◌ name (String.◌++◌ " " bio)

abbrev object_at : String → Option Fields → Option Fields
object_at name none = none
object_at name (some fs) = fields_of (get name fs)

-- `screenProfileContent`: the message of a rejection.
unfoldable pub screen_profile_content : Gateway → Fields → Option String
screen_profile_content g envelope =
    elim (object_at "profile" (object_at "payload" (some envelope))) [
      | none ↦ none
      | some profile ↦
          let text =
            join_text (or_empty (as_string (get "display_name" profile)))
              (or_empty (as_string (get "bio" profile))) in
          if ltb (length_of text) 3 then none else elim g.moderate [
            | none ↦ none
            | some moderate ↦ elim (moderate text) [
              | none ↦ none
              | some explanation ↦ some (String.◌++◌ "Profile content rejected: " explanation)
            ]
          ]
    ]

abbrev is_profile_change : Fields → Bool
is_profile_change envelope =
    text_is "profile.create" (as_string (get "type" envelope))
    || text_is "profile.update" (as_string (get "type" envelope))

unfoldable pub screen : Gateway → Fields → Option String
screen g envelope =
    let rejected = screen_profile_content g envelope in
    if is_profile_change envelope then rejected else none

abbrev pub or_null : Option Json → Json
or_null none = null
or_null (some j) = j

abbrev published : Option Event → List Event
published none = []
published (some e) = e ∷ []

abbrev pub claimed : String → Option Event × Stores → Result ExtensionResult × Stores
claimed message (response, stores) = (
  ok (record {
    handled = true;
    store_normally = some false;
    message = message;
    publish = published response;
  }),
  stores,
)

abbrev pub outcome_message : RouteResult → String
outcome_message r =
    if r.success then "" else if r.envelope.message_type == "system.error" then "error" else ""

abbrev pub context_of : Option String → String → String → Context
context_of authenticated sender service = record {
  authenticated_pubkey = or_empty authenticated;
  sender_pubkey = sender;
  service_pubkey = service;
}

abbrev pub with_db : Stores → Db → Stores
with_db stores db = record stores { db = db }

-- A request that passed the screening.
unfoldable pub answer_request :
    Gateway → Option String → Fields → String → String → Stores → Result ExtensionResult × Stores
answer_request g authenticated envelope sender service stores =
    let (routed, db) =
      route_request g.world g.setup (context_of authenticated sender service) (obj envelope)
        stores.db in
    elim routed [
      | thrown e ↦ (thrown e, with_db stores db)
      | ok r ↦
          claimed (outcome_message r)
            (send_response g r.envelope sender service (with_db stores db))
    ]

abbrev pub rejection : Gateway → Fields → String → Envelope
rejection g envelope message =
    create_error_envelope g.world.now (or_null (get "request_id" envelope)) "content_rejected"
      message

abbrev pub not_handled : ExtensionResult
not_handled = record { handled = false; store_normally = none; message = ""; publish = [] }

unfoldable pub handle_request :
    Gateway → Option String → Fields → String → String → Stores → Result ExtensionResult × Stores
handle_request g authenticated envelope sender service stores = elim (screen g envelope) [
  | some message ↦
      claimed message (send_response g (rejection g envelope message) sender service stores)
  | none ↦ answer_request g authenticated envelope sender service stores
]

-- `handleEvent`.
unfoldable pub handle_gift_wrap :
    Gateway → Option String → Event → Stores → Result ExtensionResult × Stores
handle_gift_wrap g authenticated e stores = elim (is_addressed_to_service g.identities e) [
  | none ↦ (ok not_handled, stores)
  | some service ↦ elim (decrypt_and_parse g e service) [
    | none ↦ (ok not_handled, stores)
    | some request ↦ handle_request g authenticated request.0 request.1 service stores
  ]
]

abbrev is_addressed : Option String → Bool
is_addressed none = false
is_addressed (some service) = true

-- The extension as the relay sees it.
unfoldable pub open_dating_extension : Gateway → Handler
open_dating_extension g = record {
  can_handle_event = λ e. is_addressed (is_addressed_to_service g.identities e);
  handle_event = handle_gift_wrap g;
}
