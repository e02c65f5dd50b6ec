-- ===== src/Protocol/Routes.antt =====
-- `REQUEST_ROUTES` of src/protocols/opendating/protocol/routing.ts, and the services' `supports`.
use open_dating.Prelude.{String, Bool, Option, List, [], ◌∷◌, lookup, exists}
use open_dating.Protocol.Envelope.{includes}

-- `OpenDatingServiceRole`.
pub data Role : Type 0 where
  system profile discovery matcher dm_policy moderation verification media deletion : Role

pub record RequestRoute : Type 0 where
  pub role : Role
  pub result_type : String

abbrev route : Role → String → String → String × RequestRoute
route role name result_type = (name, record { role = role; result_type = result_type })

abbrev pub request_routes : List (String × RequestRoute)
request_routes =
    route system "system.ping" "system.pong"
    ∷ route system "system.capabilities" "system.capabilities.result"
    ∷ route profile "profile.create" "profile.create.result"
    ∷ route profile "profile.update" "profile.update.result"
    ∷ route profile "profile.get" "profile.get.result"
    ∷ route profile "profile.pause" "profile.pause.result"
    ∷ route profile "profile.resume" "profile.resume.result"
    ∷ route profile "profile.delete" "profile.delete.result"
    ∷ route profile "visibility.update" "visibility.update.result"
    ∷ route discovery "discovery.update_location" "discovery.update_location.result"
    ∷ route discovery "discovery.get_candidates" "discovery.get_candidates.result"
    ∷ route discovery "discovery.update_preferences" "discovery.update_preferences.result"
    ∷ route matcher "intent.like" "intent.like.result"
    ∷ route matcher "intent.revoke" "intent.revoke.result"
    ∷ route matcher "match.list" "match.list.result"
    ∷ route dm_policy "block.create" "block.create.result"
    ∷ route dm_policy "block.remove" "block.remove.result"
    ∷ route dm_policy "block.list" "block.list.result"
    ∷ route dm_policy "unmatch.create" "unmatch.create.result"
    ∷ route moderation "report.create" "report.create.result"
    ∷ route moderation "moderation.action" "moderation.action.result"
    ∷ route verification "verification.list" "verification.list.result"
    ∷ route deletion "account.delete" "account.delete.result"
    ∷ []

-- Of a name that is a property of the prototype the code returns that property; no caller asks so.
unfoldable pub get_request_route : String → Option RequestRoute
unfolding lookup
get_request_route name = lookup name request_routes

-- `supports` of the service with a role; no service has the roles 'verification' and 'media'.
unfoldable pub supports : Role → String → Bool
unfolding exists
supports system = includes ("system.ping" ∷ "system.capabilities" ∷ [])
supports profile = includes (
    "profile.create" ∷ "profile.update" ∷ "profile.get" ∷ "profile.pause" ∷ "profile.resume"
    ∷ "profile.delete" ∷ "visibility.update" ∷ [])
supports discovery =
    includes (
      "discovery.update_location" ∷ "discovery.get_candidates" ∷ "discovery.update_preferences"
      ∷ [])
supports matcher = includes ("intent.like" ∷ "intent.revoke" ∷ "match.list" ∷ [])
supports dm_policy =
    includes ("block.create" ∷ "block.remove" ∷ "block.list" ∷ "unmatch.create" ∷ [])
supports moderation = includes ("report.create" ∷ "moderation.action" ∷ [])
supports verification = includes []
supports media = includes []
supports deletion = includes ("account.delete" ∷ [])
