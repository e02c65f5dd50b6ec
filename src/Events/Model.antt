-- ===== src/Events/Model.antt =====
-- `NostrEvent` of src/types.ts, its tags, and the check of its signature in src/relay-worker.ts.
-- Kinds and times are natural numbers, as NIP-01 has them.
use open_dating.Prelude.{
  ℕ, String, Bool, false, Option, none, some, List, [], ◌∷◌, ◌==◌, not, if◌then◌else◌,
}
use open_dating.Json.{Number}
use open_dating.Text.{units}
use open_dating.Relay.Filters.{Filter}
use open_dating.Crypto.Hex.{hex_to_bytes}

pub record Event : Type 0 where
  pub id : String
  pub pubkey : String
  pub created_at : ℕ
  pub kind : ℕ
  pub tags : List (List String)
  pub content : String
  pub sig : String

-- `tag[0]` and `tag[1]`; none is `undefined`.
abbrev pub tag_name : List String → Option String
tag_name [] = none
tag_name (name ∷ rest) = some name

abbrev pub tag_value : List String → Option String
tag_value [] = none
tag_value (name ∷ []) = none
tag_value (name ∷ value ∷ rest) = some value

-- `tag[0] === name`.
abbrev pub is_tag : String → List String → Bool
is_tag name [] = false
is_tag name (n ∷ rest) = n == name

-- `text || ''` and whether a text counts as true.
abbrev pub or_empty : Option String → String
or_empty none = ""
or_empty (some s) = s

abbrev pub is_true_text : Option String → Bool
is_true_text none = false
is_true_text (some s) = not (s == "")

-- `tags.find(t => t[0] === name)?.[1]`.
unfoldable pub find_tag : String → List (List String) → Option String
find_tag name [] = none
find_tag name (tag ∷ tags) = if is_tag name tag then tag_value tag else find_tag name tags

-- What the relay uses of the platform and the libraries.
pub record Platform : Type 0 where
  -- `text.toLowerCase()`.
  pub lower_case : String → String
  -- `JSON.stringify([0, pubkey, created_at, kind, tags, content])`.
  pub serialize : Event → String
  -- The text that `hashContent` hashes, with or without the pubkey.
  pub content_text : Bool → Event → String
  -- `sha256` of the UTF-8 coding of a text.
  pub sha256 : String → List ℕ
  -- `schnorr.verify(signature, message, key)`; none is an error.
  pub schnorr_verify : List ℕ → List ℕ → List ℕ → Option Bool
  -- `String(n)`.
  pub number_text : Number → String
  -- `new URL(text).host`; none is an error.
  pub url_host : String → Option String
  -- `JSON.stringify({ filters, bookmark })`, for the bookmark of the session.
  pub query_text : List Filter → String
  -- How many parameters a statement of the database can have.
  pub max_parameters : ℕ
  -- `validateNIP05FromKind0`, which asks other servers.
  pub is_nip05_valid : String → Bool

abbrev or_false : Option Bool → Bool
or_false none = false
or_false (some b) = b

-- `verifyEventSignature`: any error counts as an invalid signature.
unfoldable pub verify_event_signature : Platform → Event → Bool
verify_event_signature p event = elim (hex_to_bytes (units event.sig)) [
  | none ↦ false
  | some signature ↦ elim (hex_to_bytes (units event.pubkey)) [
    | none ↦ false
    | some key ↦ or_false (p.schnorr_verify signature (p.sha256 (p.serialize event)) key)
  ]
]
