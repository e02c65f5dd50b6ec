-- ===== src/Tests/Wrapped.antt =====
-- Examples of requests in gift wraps: src/protocols/opendating/extension.ts.
use open_dating.Prelude.{
  ℕ, String, Option, none, some, [], ◌∷◌, ◌≡◌, ◌⊎◌, refl, ok, ◌==◌, eqb, if◌then◌else◌, lookup,
  insert, arith,
}
use open_dating.Json.{str, num, whole, obj, Fields, end, field, get}
use open_dating.World.{World}
use open_dating.Crypto.Padding.{zeros, pad, fill, calc_padded_len}
use open_dating.Crypto.Payload.{nip44_encrypt, bytes_to_base64}
use open_dating.Transport.Router.{route_request}
use open_dating.Connection.State.{Stores}
use open_dating.Events.Model.{Event}
use open_dating.Events.Config.{default_config}
use open_dating.Events.Process.{empty_event_db}
use open_dating.Crypto.RoundTrip.{zeros-AllBytes}
use open_dating.Gateway.Identities.{
  Signer, register, register_signer, get_signer, is_service_pubkey,
}
use open_dating.Gateway.Wraps.{
  Crypto, Draws, encrypt_text, sign_event, make_rumor, make_seal, wrap_seal, build_gift_wrap,
}
use open_dating.Gateway.Incoming.{Gateway, is_addressed_to_service, decrypt_and_parse}
use open_dating.Gateway.Extension.{screen, context_of, handle_gift_wrap}
use open_dating.Gateway.Requests.{at_time, handle_gift_wrap-db, handle_gift_wrap_once}
use open_dating.Gateway.Opening.{
  IsReadBack, IsDelivery, IsEnvelope, decrypt_and_parse-build_gift_wrap,
}
use open_dating.Tests.Fixtures.{alice, bob, world, members_db}
use open_dating.Tests.Payloads.{primitives, primitives-IsStandard, nonce_length}
use open_dating.Tests.Routing.{setup, ping_fields, pong, ponged_program}
use open_dating.Tests.Stored.{platform, event}

program : Unit {0}
unfolding get make_rumor make_seal wrap_seal build_gift_wrap encrypt_text nip44_encrypt
    bytes_to_base64 pad fill calc_padded_len sign_event get_signer is_service_pubkey register_signer
    register lookup insert zeros screen open_dating.Crypto.Payload.seal
program = tt

abbrev crypto : Crypto
crypto = record {
  platform = platform;
  primitives = primitives;
  conversation_key = λ private_key public_key. some [];
  sign = λ id private_key. some (1 ∷ []);
  event_text = λ e. if eqb e.kind 13 then "S" else "R";
}

abbrev draws : Draws
draws = record {
  seal_nonce = zeros 32;
  wrap_nonce = zeros 32;
  seal_offset = 5;
  wrap_offset = 7;
  wrapper_private_key = "01";
  wrapper_public_key = "02";
}

abbrev from_some : Option Event → Event
from_some none = event "" "" 0 0 []
from_some (some e) = e

abbrev seal : Event
seal = from_some (make_seal crypto draws 1000000 (make_rumor crypto 1000000 78 "E" alice) "03" bob)

abbrev wrap : Event
wrap = from_some (build_gift_wrap crypto draws 1000000 78 "E" "03" alice bob)

abbrev fields : ℕ → String → Fields
fields kind content =
    field "kind" (num (whole kind)) (field "pubkey" (str alice) (field "content" (str content) end))

abbrev wrapped_world : World
wrapped_world = record world {
  parse = λ s.
      if s == "S"
      then some (obj (fields 13 seal.content))
      else if s == "R"
      then some (obj (fields 78 "E"))
      else if s == "E"
      then some (obj ping_fields)
      else none;
}

abbrev signer : Signer
signer = record { role = "system"; pubkey = bob; private_key = "04" }

abbrev gateway : Gateway
gateway = record {
  world = wrapped_world;
  config = default_config;
  setup = setup;
  identities = register_signer signer (record { by_role = []; by_pubkey = []; signers = [] });
  crypto = crypto;
  draws = draws;
  moderate = none;
  envelope_text = λ e. "{}";
}

sealed :
    make_seal crypto draws 1000000 (make_rumor crypto 1000000 78 "E" alice) "03" bob ≡ some seal
unfolding program
sealed = refl

built : build_gift_wrap crypto draws 1000000 78 "E" "03" alice bob ≡ some wrap
unfolding program
built = refl

way : IsDelivery gateway draws "03" alice bob signer
unfolding program
way = record {
  known = refl;
  registered = refl;
  seal_keys = refl;
  wrap_keys = refl;
  seal_nonce = record { has_length = nonce_length; all_bytes = zeros-AllBytes 32 };
  wrap_nonce = record { has_length = nonce_length; all_bytes = zeros-AllBytes 32 };
}

seal_back : IsReadBack wrapped_world crypto seal
unfolding program
seal_back = record {
  coded = record { decode-encode = refl; all_bytes = (omega arith, tt); small = omega arith };
  fields = fields 13 seal.content;
  reads = refl;
  kind = refl;
  author = refl;
  content = refl;
}

rumor_back : IsReadBack wrapped_world crypto (make_rumor crypto 1000000 78 "E" alice)
unfolding program
rumor_back = record {
  coded = record { decode-encode = refl; all_bytes = (omega arith, tt); small = omega arith };
  fields = fields 78 "E";
  reads = refl;
  kind = refl;
  author = refl;
  content = refl;
}

ping-IsEnvelope : IsEnvelope wrapped_world "E" ping_fields
unfolding program
ping-IsEnvelope = record { reads = refl; protocol = refl }

decrypt_and_parse-build_gift_wrap_example :
    (is_addressed_to_service gateway.identities wrap ≡ some bob)
    × (decrypt_and_parse gateway wrap bob ≡ some (ping_fields, alice))
decrypt_and_parse-build_gift_wrap_example =
    decrypt_and_parse-build_gift_wrap gateway draws "03" alice bob signer way primitives-IsStandard
      1000000 "E" ping_fields seal wrap sealed built rumor_back seal_back ping-IsEnvelope

abbrev stores : Stores
stores = record { event_db = empty_event_db; db = members_db }

handle_gift_wrap-db_example :
    ((handle_gift_wrap gateway (some bob) wrap stores).1.db ≡ members_db)
    ⊎ ((service : String) × (envelope : Fields) × (is_addressed_to_service gateway.identities wrap
          ≡ some service)
        × (decrypt_and_parse gateway wrap service ≡ some (envelope, bob)))
handle_gift_wrap-db_example = handle_gift_wrap-db gateway (some bob) wrap stores

passed : screen gateway ping_fields ≡ none
unfolding program
passed = refl

routed :
    (route_request wrapped_world setup
      (context_of (some alice) alice bob)
      (obj ping_fields)
      members_db).0
    ≡ ok pong
unfolding ponged_program
routed = refl

wrap_read :
    (is_addressed_to_service gateway.identities wrap ≡ some bob)
    × (decrypt_and_parse gateway wrap bob ≡ some (ping_fields, alice))
wrap_read =
    decrypt_and_parse-build_gift_wrap gateway draws "03" alice bob signer way primitives-IsStandard
      1000000 "E" ping_fields seal wrap sealed built rumor_back seal_back ping-IsEnvelope

handle_gift_wrap_once_example :
    (handle_gift_wrap
      (at_time 1000100 gateway)
      (some alice)
      wrap
      (record (handle_gift_wrap gateway (some alice) wrap stores).1 {
        event_db = empty_event_db;
      })).1.db
    ≡ (handle_gift_wrap gateway (some alice) wrap stores).1.db
handle_gift_wrap_once_example =
    handle_gift_wrap_once gateway 1000100 (some alice) wrap stores empty_event_db bob ping_fields
      alice pong refl wrap_read.0 wrap_read.1 passed routed refl
