-- ===== src/Relay/Extensions.antt =====
-- `ExtensionRegistry` of src/relay/services/registry.ts. An extension is its name with its two
-- callbacks, which are parameters; a callback is read at one event or query.
use open_dating.Prelude.{
  String, Bool, Option, none, some, List, [], ◌∷◌, ◌==◌, ◌++◌, exists, first, delete_from,
  if◌then◌else◌, Result, ok, thrown,
}

-- The decision of `authorizeQuery`: allowed, or denied with a reason.
pub data Decision : Type 0 where
  allowed : Decision
  denied : Option String → Decision

pub record Extension {ℓ κ} (Event : Type ℓ) (Query : Type κ) : Type (ℓ ⊔ κ) where
  pub name : String
  pub can_handle_event : Event → Bool
  -- none where the extension has no such callback.
  pub authorize_query : Option (Query → Decision)

module _ {ℓ κ} {Event : Type ℓ} {Query : Type κ} where
  abbrev pub is_named : String → Extension Event Query → Bool
  is_named name e = e.name == name

  unfoldable pub register :
      Extension Event Query → List (Extension Event Query) → Result (List (Extension Event Query))
  register e extensions =
      if exists (is_named e.name) extensions
      then thrown "Extension is already registered"
      else ok (extensions ++ e ∷ [])

  unfoldable pub unregister : String → List (Extension Event Query) → List (Extension Event Query)
  unregister name extensions = delete_from (is_named name) extensions

  unfoldable pub find_handler :
      Event → List (Extension Event Query) → Option (Extension Event Query)
  find_handler event extensions = first (λ e. e.can_handle_event event) extensions

  -- What an extension says of a query.
  abbrev pub opinion : Query → Extension Event Query → Decision
  opinion query e = elim e.authorize_query [ none ↦ allowed | some f ↦ f query ]

  unfoldable pub authorize_query : Query → List (Extension Event Query) → Decision
  authorize_query query [] = allowed
  authorize_query query (e ∷ extensions) =
      let rest = authorize_query query extensions in
      elim (opinion query e) [ denied reason ↦ denied reason | allowed ↦ rest ]
