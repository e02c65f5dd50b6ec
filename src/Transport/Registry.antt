-- ===== src/Transport/Registry.antt =====
-- `OpenDatingServiceRegistry` of src/protocols/opendating/services/registry.ts, and the dispatch to
-- the services that extension.ts registers.
use open_dating.Prelude.{String, Bool, ◌==◌, Option, List, [], map, first, exists, lookup, insert}
use open_dating.World.{World, Run, throw, lift}
use open_dating.Protocol.Envelope.{Envelope}
use open_dating.Protocol.Validation.{Request}
use open_dating.Protocol.Routes.{
  Role, supports, system, profile, discovery, matcher, dm_policy, moderation, verification, media,
  deletion,
}
use open_dating.Services.System
use open_dating.Services.System.{Advertised}
use open_dating.Services.Profile
use open_dating.Services.Discovery.Candidates
use open_dating.Services.Matcher
use open_dating.Services.Block
use open_dating.Services.Moderation
use open_dating.Services.Deletion

-- A service: its role and its public key.
pub record Service : Type 0 where
  pub role : Role
  pub pubkey : String

-- The text of a role, the key of the first map.
abbrev role_text : Role → String
role_text system = "system"
role_text profile = "profile"
role_text discovery = "discovery"
role_text matcher = "matcher"
role_text dm_policy = "dm_policy"
role_text moderation = "moderation"
role_text verification = "verification"
role_text media = "media"
role_text deletion = "deletion"

pub record Registry : Type 0 where
  pub services : List (String × Service)
  pub by_pubkey : List (String × Service)

abbrev pub no_services : Registry
no_services = record { services = []; by_pubkey = [] }

unfoldable pub register : Service → Registry → Registry
register s r = record {
  services = insert (role_text s.role) s r.services;
  by_pubkey = insert s.pubkey s r.by_pubkey;
}

unfoldable pub resolve_by_recipient : String → Registry → Option Service
resolve_by_recipient pubkey r = lookup pubkey r.by_pubkey

unfoldable pub resolve_by_role : Role → Registry → Option Service
resolve_by_role role r = lookup (role_text role) r.services

-- `resolveByMessageType`, in the order of registration.
unfoldable pub resolve_by_message_type : String → Registry → Option Service
resolve_by_message_type name r =
    first (λ s. supports s.role name) (map (λ (e : String × Service). e.1) r.services)

unfoldable pub list_services : Registry → List (String × String)
list_services r = map (λ (e : String × Service). (role_text e.1.role, e.1.pubkey)) r.services

unfoldable pub is_service_pubkey : String → Registry → Bool
is_service_pubkey pubkey r = exists (λ e. e.0 == pubkey) r.by_pubkey

-- `service.handle(request, context)`: every handler reads `senderPubkey` of its context alone.
unfoldable pub dispatch : World → List Advertised → Role → Request → String → Run Envelope
dispatch w services system request sender = lift (System.handle w services request)
dispatch w services profile request sender = Profile.handle w request sender
dispatch w services discovery request sender = Candidates.handle w request sender
dispatch w services matcher request sender = Matcher.handle w request sender
dispatch w services dm_policy request sender = Block.handle w request sender
dispatch w services moderation request sender = Moderation.handle w request sender
dispatch w services verification request sender = throw "no service"
dispatch w services media request sender = throw "no service"
dispatch w services deletion request sender = Deletion.handle w request sender
