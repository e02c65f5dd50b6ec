-- ===== src/Gateway/Identities.antt =====
-- The identities of the services: `InMemoryServiceIdentityRegistry` of
-- src/protocols/opendating/identities/registry.ts.
use open_dating.Prelude.{String, Bool, true, false, Option, none, some, List, lookup, insert}

-- `ServiceIdentity`.
pub record Identity : Type 0 where
  pub role : String
  pub pubkey : String

-- `ServiceSigner`, whose `signEvent` nothing calls here.
pub record Signer : Type 0 where
  pub role : String
  pub pubkey : String
  pub private_key : String

pub record Identities : Type 0 where
  pub by_role : List (String × Identity)
  pub by_pubkey : List (String × Identity)
  pub signers : List (String × Signer)

unfoldable pub register : Identity → Identities → Identities
register i ids = record ids {
  by_role = insert i.role i ids.by_role;
  by_pubkey = insert i.pubkey i ids.by_pubkey;
}

unfoldable pub register_signer : Signer → Identities → Identities
register_signer s ids =
    let known = register (record { role = s.role; pubkey = s.pubkey }) ids in
    record known { signers = insert s.pubkey s known.signers }

unfoldable pub get_signer : String → Identities → Option Signer
get_signer pubkey ids = lookup pubkey ids.signers

abbrev is_some {ℓ} : {A : Type ℓ} → Option A → Bool
is_some none = false
is_some (some x) = true

unfoldable pub is_service_pubkey : String → Identities → Bool
is_service_pubkey pubkey ids = is_some (lookup pubkey ids.by_pubkey)
