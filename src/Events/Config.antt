-- ===== src/Events/Config.antt =====
-- The settings of src/config.ts and the checks that read them, the same in
-- src/relay/policy/default-policy.ts.
use Prim.Native.Char.{code}
use Prim.Native.String
use open_dating.Prelude.{
  ℕ, String, Bool, true, false, Option, none, some, List, [], ◌∷◌, ◌==◌, ◌&&◌, ◌||◌, not, eqb,
  exists, map, if◌then◌else◌,
}
use open_dating.Events.Model.{Event, Platform}

pub record Config : Type 0 where
  pub pay_to_relay_enabled : Bool
  pub auth_required : Bool
  pub enable_anti_spam : Bool
  pub enable_global_duplicate_check : Bool
  pub anti_spam_kinds : List ℕ
  pub blocked_pubkeys : List String
  pub allowed_pubkeys : List String
  pub blocked_event_kinds : List ℕ
  pub allowed_event_kinds : List ℕ
  pub blocked_content : List String
  pub check_valid_nip05 : Bool
  pub blocked_tags : List String
  pub allowed_tags : List String
  pub excluded_rate_limit_kinds : List ℕ

-- The settings of the repository, whose list of kinds for the anti-spam check is not read as long
-- as the check is off.
abbrev pub default_config : Config
default_config = record {
  pay_to_relay_enabled = false;
  auth_required = true;
  enable_anti_spam = false;
  enable_global_duplicate_check = false;
  anti_spam_kinds = [];
  blocked_pubkeys =
      "3c7f5948b5d80900046a67d8e3bf4971d6cba013abece1dd542eca223cf3dd3f"
      ∷ "fed5c0c3c8fe8f51629a0b39951acdf040fd40f53a327ae79ee69991176ba058"
      ∷ "e810fafa1e89cdf80cced8e013938e87e21b699b24c8570537be92aec4b12c18"
      ∷ "05aee96dd41429a3ae97a9dac4dfc6867fdfacebca3f3bdc051e5004b0751f01"
      ∷ "53a756bb596055219d93e888f71d936ec6c47d960320476c955efd8941af4362" ∷ [];
  allowed_pubkeys = [];
  blocked_event_kinds = 1064 ∷ [];
  allowed_event_kinds = [];
  blocked_content = "~~ hello world! ~~" ∷ [];
  check_valid_nip05 = false;
  blocked_tags = [];
  allowed_tags = [];
  excluded_rate_limit_kinds = [];
}

abbrev pub holds_kind : ℕ → List ℕ → Bool
holds_kind kind kinds = exists (λ k. eqb k kind) kinds

-- `set.has(text)`, where none is `undefined`.
abbrev pub holds_text : Option String → List String → Bool
holds_text none texts = false
holds_text (some s) texts = exists (λ t. t == s) texts

abbrev pub is_nil {ℓ} : {A : Type ℓ} → List A → Bool
is_nil [] = true
is_nil (x ∷ xs) = false

unfoldable pub is_pubkey_allowed : Config → String → Bool
is_pubkey_allowed c pubkey =
    if not (is_nil c.allowed_pubkeys) && not (holds_text (some pubkey) c.allowed_pubkeys)
    then false
    else not (holds_text (some pubkey) c.blocked_pubkeys)

unfoldable pub is_event_kind_allowed : Config → ℕ → Bool
is_event_kind_allowed c kind =
    if not (is_nil c.allowed_event_kinds) && not (holds_kind kind c.allowed_event_kinds)
    then false
    else not (holds_kind kind c.blocked_event_kinds)

unfoldable pub is_tag_allowed : Config → Option String → Bool
is_tag_allowed c tag =
    if not (is_nil c.allowed_tags) && not (holds_text tag c.allowed_tags)
    then false
    else not (holds_text tag c.blocked_tags)

-- `text.startsWith(part)` and `text.includes(part)`.
abbrev pub starts_with : String → String → Bool
starts_with text String.[] = true
starts_with String.[] (String.◌∷◌ c part) = false
starts_with (String.◌∷◌ d text) (String.◌∷◌ c part) = eqb (code d) (code c) && starts_with text part

abbrev pub includes : String → String → Bool
includes String.[] part = starts_with String.[] part
includes (String.◌∷◌ c text) part = starts_with (String.◌∷◌ c text) part || includes text part

-- `tag.join('')`.
abbrev pub join : List String → String
join [] = ""
join (s ∷ texts) = String.◌++◌ s (join texts)

unfoldable pub contains_blocked_content : Config → Platform → Event → Bool
unfolding exists
contains_blocked_content c p event =
    let content = p.lower_case event.content in
    let tags = map (λ tag. p.lower_case (join tag)) event.tags in
    exists
      (λ blocked.
        includes content (p.lower_case blocked)
        || exists (λ tag. includes tag (p.lower_case blocked)) tags)
      c.blocked_content
