-- ===== src/Protocol/Coverage.antt =====
-- That the request types have a service: src/protocols/opendating/protocol/routing.ts with the
-- services' `supports`, and what passes protocol/validation.ts.
use open_dating.Prelude.{
  String, Bool, true, false, some, ◌≡◌, refl, sym, inl, inr, List, [], ◌∷◌, ◌==◌, ◌||◌, ◌&&◌, all,
  lookup, exists, arith, eq_iff, Bool-cases,
}
use open_dating.Protocol.Messages.{is_known_message_type}
use open_dating.Protocol.Routes.{
  Role, RequestRoute, request_routes, get_request_route, supports, system, profile, discovery,
  matcher, dm_policy, moderation, verification, media, deletion,
}

lookup-all :
    {V : Type 0} (p : String → V → Bool) (m : List (String × V)) (k : String) (v : V)
    → all (λ (e : String × V). p e.0 e.1) m ≡ true
    → lookup k m ≡ some v
    → p k v ≡ true
unfolding lookup all
lookup-all p [] k v h e = absurd (ground (arith, e))
lookup-all p ((j, u) ∷ m) k v h e = elim (Bool-cases (j == k)) [
  | inl s ↦
      let same : u ≡ v = ground (arith, rw s at e) in
      rw (sym ((eq_iff j k).0 s), sym same) (ground (arith, h))
  | inr s ↦ lookup-all p m k v (ground (arith, h)) (rw s at e)
]

abbrev pub is_verification : Role → Bool
is_verification system = false
is_verification profile = false
is_verification discovery = false
is_verification matcher = false
is_verification dm_policy = false
is_verification moderation = false
is_verification verification = true
is_verification media = false
is_verification deletion = false

-- Every request type that has a route is a known message type with a known result type, and the
-- service with the route's role supports it, except for the role 'verification', which no service
-- has.
pub get_request_route-supports :
    (name : String) (route : RequestRoute)
    → get_request_route name ≡ some route
    → (is_known_message_type name
        && is_known_message_type route.result_type
        && (supports route.role name || is_verification route.role))
      ≡ true
unfolding get_request_route is_known_message_type supports lookup exists all
get_request_route-supports name route h =
    lookup-all
      (λ k v.
        is_known_message_type k
        && is_known_message_type v.result_type
        && (supports v.role k || is_verification v.role))
      request_routes name route refl h
