-- ===== src/Transport/Delivery.antt =====
-- How often a request is carried out, and what a refused one changes:
-- src/protocols/opendating/transport/router.ts.
use open_dating.Prelude.{
  ℕ, ◌+◌, ◌≤◌, String, true, false, some, none, ◌≡◌, ◌↔◌, refl, ap, sym, ◌∙◌, inl, inr, ◌==◌, ◌&&◌,
  ok, exists-insert_or_ignore, arith, eq_refl, Bool-cases, Option-cases, Result-cases,
}
use open_dating.Json.{Json, whole}
use open_dating.Store.{Db}
use open_dating.World.{World}
use open_dating.Protocol.Envelope.{
  check_request_freshness, is_supported_version, od_request_max_age_sec, od_request_max_future_sec,
}
use open_dating.Protocol.Validation.{Request, Check, passed, failed, crashed, validate_od_request}
use open_dating.Protocol.Routes.{supports}
use open_dating.Transport.Idempotency.{is_duplicate, record_request, is_request}
use open_dating.Transport.Registry.{Service, resolve_by_recipient, dispatch}
use open_dating.Transport.Router.{
  Context, Setup, RouteResult, duplicate_reply, execute_request, check_duplicate, check_sender,
  check_version, route_checked, route_request,
}

-- A whole-numbered time of creation is fresh exactly when it is neither more than `max_age` seconds
-- before the clock nor more than `max_future` seconds after it.
pub check_request_freshness-eq-none_iff :
    (now created max_age max_future : ℕ)
    → (check_request_freshness now (whole created) max_age max_future ≡ none)
      ↔ ((now ≤ created + max_age) × (created ≤ now + max_future))
unfolding check_request_freshness
check_request_freshness-eq-none_iff now created max_age max_future =
    (λ h. (ground (arith, h), ground (arith, h)), λ h. ground (arith, h.0, h.1))

record_request-is_duplicate :
    (now : ℕ) (service sender id kind : String) (db : Db)
    → is_duplicate service sender id (record_request now service sender id kind db) ≡ true
unfolding record_request is_duplicate
record_request-is_duplicate now service sender id kind db = ground (
  arith,
  exists-insert_or_ignore (is_request service sender id) (is_request service sender id)
      (record {
        service_pubkey = service;
        sender_pubkey = sender;
        request_id = id;
        request_type = kind;
        created_at = now;
        expires_at = now + 86400;
      })
      db.od_idempotency,
  eq_refl service,
  eq_refl sender,
  eq_refl id,
)

-- Every way through steps 2 to 7 either leaves the database as it is, or carries the request out
-- for a service that supports its type, with the connection's identity as the sender.
pub data Outcome (w : World) (setup : Setup) (ctx : Context) (request : Request) (db : Db)
    : RouteResult × Db → Type 0 where
  refused : (r : RouteResult) → r.success ≡ false → Outcome w setup ctx request db (r, db)
  repeated :
      setup.has_store ≡ true
      → is_duplicate ctx.service_pubkey ctx.sender_pubkey request.request_id db ≡ true
      → Outcome w setup ctx request db (duplicate_reply w request, db)
  carried_out :
      (service : Service)
      → resolve_by_recipient ctx.service_pubkey setup.registry ≡ some service
      → supports service.role request.message_type ≡ true
      → (ctx.authenticated_pubkey == ctx.sender_pubkey) ≡ true
      → (setup.has_store && is_duplicate ctx.service_pubkey ctx.sender_pubkey request.request_id db)
        ≡ false
      → Outcome w setup ctx request db (execute_request w setup ctx service request db)

module _ (w : World) (setup : Setup) (ctx : Context) (request : Request) (db : Db) where
  check_duplicate-Outcome :
      (service : Service)
      → resolve_by_recipient ctx.service_pubkey setup.registry ≡ some service
      → supports service.role request.message_type ≡ true
      → (ctx.authenticated_pubkey == ctx.sender_pubkey) ≡ true
      → Outcome w setup ctx request db (check_duplicate w setup ctx service request db)
  unfolding check_duplicate
  check_duplicate-Outcome service h k l = elim (Bool-cases setup.has_store) [
    | inr e ↦ rw (e, check_duplicate) (carried_out service h k l refl)
    | inl e ↦
        elim (Bool-cases
          (is_duplicate ctx.service_pubkey ctx.sender_pubkey request.request_id db)) [
            | inl d ↦ rw (e, check_duplicate) (rw d (repeated refl d))
            | inr d ↦ rw (e, check_duplicate) (rw d (carried_out service h k l d))
          ]
  ]

  check_sender-Outcome : Outcome w setup ctx request db (check_sender w setup ctx request db)
  unfolding check_sender
  check_sender-Outcome = elim (Bool-cases (ctx.authenticated_pubkey == ctx.sender_pubkey)) [
    | inr e ↦ rw (e, check_sender) (refused _ refl)
    | inl e ↦ elim (Option-cases (resolve_by_recipient ctx.service_pubkey setup.registry)) [
      | inl n ↦ rw (e, check_sender) (rw n (refused _ refl))
      | inr (service, n) ↦ elim (Bool-cases (supports service.role request.message_type)) [
        | inl s ↦ rw (e, check_sender) (rw n (rw s (check_duplicate-Outcome service n s e)))
        | inr s ↦ rw (e, check_sender) (rw n (rw s (refused _ refl)))
      ]
    ]
  ]

  -- A request that passed the validation is refused with the database unchanged, or answered as a
  -- duplicate with the database unchanged, or carried out: then the service that is addressed
  -- supports the type, the connection is authenticated as the sender, and the request is not on
  -- record.
  pub check_version-Outcome : Outcome w setup ctx request db (check_version w setup ctx request db)
  unfolding check_version
  check_version-Outcome = elim (Bool-cases (is_supported_version request.version)) [
    | inr e ↦ rw (e, check_version) (refused _ refl)
    | inl e ↦
        elim (Option-cases (
          check_request_freshness w.now request.created_at od_request_max_age_sec
            od_request_max_future_sec)) [
              | inr (s, f) ↦ rw (e, check_version) (rw f (refused _ refl))
              | inl f ↦ rw (e, check_version) (rw f check_sender-Outcome)
            ]
  ]

  execute_request-is_duplicate :
      (service : Service)
      → setup.has_store ≡ true
      → (execute_request w setup ctx service request db).0.success ≡ true
      → is_duplicate ctx.service_pubkey ctx.sender_pubkey request.request_id
          (execute_request w setup ctx service request db).1
        ≡ true
  unfolding execute_request
  execute_request-is_duplicate service h s =
      elim (Result-cases
        (dispatch w setup.advertised service.role request ctx.sender_pubkey db).0) [
          | inr (e, f) ↦ absurd (ground (arith, rw (f, execute_request) at s))
          | inl (envelope, f) ↦
              rw (f, execute_request)
                (rw h (
                  record_request-is_duplicate w.now ctx.service_pubkey ctx.sender_pubkey
                    request.request_id request.message_type
                    (dispatch w setup.advertised service.role request ctx.sender_pubkey db).1))
        ]

  Outcome-is_duplicate :
      {p : RouteResult × Db}
      → Outcome w setup ctx request db p
      → setup.has_store ≡ true
      → p.0.success ≡ true
      → is_duplicate ctx.service_pubkey ctx.sender_pubkey request.request_id p.1 ≡ true
  Outcome-is_duplicate (refused r f) h s = absurd (ground (arith, f, s))
  Outcome-is_duplicate (repeated k d) h s = d
  Outcome-is_duplicate (carried_out service h' k l n) h s = execute_request-is_duplicate service h s

  Outcome-unchanged :
      {p : RouteResult × Db}
      → Outcome w setup ctx request db p
      → setup.has_store ≡ true
      → is_duplicate ctx.service_pubkey ctx.sender_pubkey request.request_id db ≡ true
      → p.1 ≡ db
  Outcome-unchanged (refused r f) h d = refl
  Outcome-unchanged (repeated k e) h d = refl
  Outcome-unchanged (carried_out service h' k l n) h d = absurd (ground (arith, n, h, d))

ok_injective : {A : Type 0} {a b : A} → ok a ≡ ok b → a ≡ b
ok_injective h = ground (arith, h)

route_checked_once :
    (w : World) (later : ℕ) (setup : Setup) (ctx : Context) (envelope : Json) (db : Db)
    (r : RouteResult) (v : Check Request)
    → setup.has_store ≡ true
    → (route_checked w setup ctx envelope v db).0 ≡ ok r
    → r.success ≡ true
    → (route_checked
        (record w { now = later })
        setup
        ctx
        envelope
        v
        (route_checked w setup ctx envelope v db).1).1
      ≡ (route_checked w setup ctx envelope v db).1
unfolding route_checked
route_checked_once w later setup ctx envelope db r (crashed x) h e s = refl
route_checked_once w later setup ctx envelope db r (failed c m) h e s = refl
route_checked_once w later setup ctx envelope db r (passed request) h e s =
    let after = (check_version w setup ctx request db).1 in
    let w' : World = record w { now = later } in
    let success = ap (λ (x : RouteResult). x.success) (ok_injective e) ∙ s in
    Outcome-unchanged w' setup ctx request after (check_version-Outcome w' setup ctx request after)
      h
      (Outcome-is_duplicate w setup ctx request db (check_version-Outcome w setup ctx request db) h
        success)

check_version_mismatch :
    (w : World) (setup : Setup) (ctx : Context) (request : Request) (db : Db)
    → (ctx.authenticated_pubkey == ctx.sender_pubkey) ≡ false
    → ((check_version w setup ctx request db).1 ≡ db)
      × ((check_version w setup ctx request db).0.success ≡ false)
unfolding check_version check_sender
check_version_mismatch w setup ctx request db h = (ground (arith, h), ground (arith, h))

route_checked_mismatch :
    (w : World) (setup : Setup) (ctx : Context) (envelope : Json) (db : Db) (v : Check Request)
    → (ctx.authenticated_pubkey == ctx.sender_pubkey) ≡ false
    → ((route_checked w setup ctx envelope v db).1 ≡ db)
      × ((r : RouteResult) → (route_checked w setup ctx envelope v db).0 ≡ ok r → r.success ≡ false)
unfolding route_checked
route_checked_mismatch w setup ctx envelope db (crashed x) h =
    (refl, λ r e. absurd (ground (arith, e)))
route_checked_mismatch w setup ctx envelope db (failed c m) h =
    (refl, λ r e. sym (ap (λ (x : RouteResult). x.success) (ok_injective e)))
route_checked_mismatch w setup ctx envelope db (passed request) h =
    let p = check_version_mismatch w setup ctx request db h in
    (p.0, λ r e. sym (ap (λ (x : RouteResult). x.success) (ok_injective e)) ∙ p.1)

-- With the idempotency store, a request that was carried out is not carried out again: where the
-- router reports success, sending the same envelope once more, at any later time, leaves the
-- database as it is.
pub route_request_once :
    (w : World) (later : ℕ) (setup : Setup) (ctx : Context) (envelope : Json) (db : Db)
    (r : RouteResult)
    → setup.has_store ≡ true
    → (route_request w setup ctx envelope db).0 ≡ ok r
    → r.success ≡ true
    → (route_request
        (record w { now = later })
        setup
        ctx
        envelope
        (route_request w setup ctx envelope db).1).1
      ≡ (route_request w setup ctx envelope db).1
unfolding route_request validate_od_request
route_request_once w later setup ctx envelope db r h e s =
    route_checked_once w later setup ctx envelope db r (validate_od_request w envelope) h e s

-- A request whose sender is not the identity of the connection never changes the database, and is
-- never reported as a success.
pub route_request_mismatch :
    (w : World) (setup : Setup) (ctx : Context) (envelope : Json) (db : Db)
    → (ctx.authenticated_pubkey == ctx.sender_pubkey) ≡ false
    → ((route_request w setup ctx envelope db).1 ≡ db)
      × ((r : RouteResult) → (route_request w setup ctx envelope db).0 ≡ ok r → r.success ≡ false)
unfolding route_request
route_request_mismatch w setup ctx envelope db h =
    route_checked_mismatch w setup ctx envelope db (validate_od_request w envelope) h
