-- ===== src/Gateway/Incoming.antt =====
-- The reading of a request: `isAddressedToService` and `decryptAndParse` of
-- src/protocols/opendating/extension.ts.
use open_dating.Prelude.{
  ℕ, String, Bool, false, Option, none, some, List, [], ◌∷◌, ◌==◌, ◌&&◌, eqb, if◌then◌else◌,
}
use open_dating.Json.{Json, null, bool, num, str, arr, obj, Fields, get, as_string}
use open_dating.World.{World}
use open_dating.Protocol.Envelope.{Envelope}
use open_dating.Transport.Router.{Setup}
use open_dating.Relay.Kinds.{equals}
use open_dating.Events.Model.{Event, is_tag, tag_value, or_empty}
use open_dating.Events.Config.{Config}
use open_dating.Gateway.Identities.{Identities, get_signer, is_service_pubkey}
use open_dating.Gateway.Wraps.{Crypto, Draws, decrypt_text}

-- What the extension finds around it.
pub record Gateway : Type 0 where
  pub world : World
  pub config : Config
  pub setup : Setup
  pub identities : Identities
  pub crypto : Crypto
  pub draws : Draws
  -- `moderateContent` with `shouldBlock`, where there is an AI: the explanation of a text that is
  -- blocked.
  pub moderate : Option (String → Option String)
  -- `JSON.stringify(envelope)`.
  pub envelope_text : Envelope → String

abbrev is_known : Identities → Option String → Bool
is_known ids none = false
is_known ids (some pubkey) = is_service_pubkey pubkey ids

unfoldable pub first_service : Identities → List (List String) → Option String
first_service ids [] = none
first_service ids (tag ∷ tags) =
    if is_tag "p" tag && is_known ids (tag_value tag) then tag_value tag else first_service ids tags

-- `isAddressedToService`.
unfoldable pub is_addressed_to_service : Identities → Event → Option String
is_addressed_to_service ids e = if eqb e.kind 1059 then first_service ids e.tags else none

-- The fields of a value; what is no object has none that the checks accept.
abbrev pub fields_of : Option Json → Option Fields
fields_of none = none
fields_of (some null) = none
fields_of (some (bool b)) = none
fields_of (some (num n)) = none
fields_of (some (str s)) = none
fields_of (some (arr js)) = none
fields_of (some (obj fs)) = some fs

-- `o.kind === kind`.
abbrev pub has_kind : ℕ → Fields → Bool
has_kind kind fs = elim (get "kind" fs) [
  | none ↦ false
  | some null ↦ false
  | some (bool b) ↦ false
  | some (num n) ↦ equals n kind
  | some (str s) ↦ false
  | some (arr js) ↦ false
  | some (obj gs) ↦ false
]

-- An event of a kind in an encrypted text. A key or a content that is no text is an error.
unfoldable pub open_layer :
    (String → Option Json) → Crypto → ℕ → Option String → Option String → String → Option Fields
open_layer parse c kind none pubkey private_key = none
open_layer parse c kind (some content) none private_key = none
open_layer parse c kind (some content) (some pubkey) private_key =
    elim (decrypt_text c content private_key pubkey) [
      | none ↦ none
      | some text ↦ elim (fields_of (parse text)) [
        | none ↦ none
        | some fs ↦ if has_kind kind fs then some fs else none
      ]
    ]

-- The text that `JSON.parse` reads of a value: a text itself, and `String(j)` of another value.
abbrev source_text : (Json → String) → Option Json → String
source_text text_of none = "undefined"
source_text text_of (some (str s)) = s
source_text text_of (some null) = text_of null
source_text text_of (some (bool b)) = text_of (bool b)
source_text text_of (some (num n)) = text_of (num n)
source_text text_of (some (arr js)) = text_of (arr js)
source_text text_of (some (obj fs)) = text_of (obj fs)

abbrev pub text_is : String → Option String → Bool
text_is s none = false
text_is s (some t) = t == s

-- The envelope of a rumor.
unfoldable pub envelope_of : (String → Option Json) → (Json → String) → Fields → Option Fields
envelope_of parse text_of rumor =
    elim (fields_of (parse (source_text text_of (get "content" rumor)))) [
      | none ↦ none
      | some fs ↦ if text_is "opendating" (as_string (get "protocol" fs)) then some fs else none
    ]

-- `decryptAndParse`: the envelope, and the pubkey of the seal.
unfoldable pub decrypt_and_parse : Gateway → Event → String → Option (Fields × String)
decrypt_and_parse g e service = elim (get_signer service g.identities) [
  | none ↦ none
  | some signer ↦
      elim (open_layer g.world.parse g.crypto 13 (some e.content) (some e.pubkey)
        signer.private_key) [
          | none ↦ none
          | some seal ↦
              elim (open_layer g.world.parse g.crypto 78 (as_string (get "content" seal))
                (as_string (get "pubkey" seal)) signer.private_key) [
                  | none ↦ none
                  | some rumor ↦ elim (envelope_of g.world.parse g.world.text_of rumor) [
                    | none ↦ none
                    | some fs ↦ some (fs, or_empty (as_string (get "pubkey" seal)))
                  ]
                ]
        ]
]
