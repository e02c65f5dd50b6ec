-- ===== src/Gateway/Requests.antt =====
-- What a gift wrap does to the database of the services: `handleEvent` of
-- src/protocols/opendating/extension.ts with the router below it.
use open_dating.Prelude.{
  ℕ, ◌≡◌, refl, ◌∙◌, ◌⊎◌, inl, inr, String, true, Option, none, some, ◌==◌, ok, Bool-cases, eq_iff,
  Option-cases, Result-cases,
}
use open_dating.Json.{obj, Fields}
use open_dating.Protocol.Envelope.{Envelope}
use open_dating.Transport.Router.{RouteResult, route_request}
use open_dating.Transport.Delivery.{route_request_mismatch, route_request_once}
use open_dating.Events.Model.{Event, or_empty}
use open_dating.Events.Store.{EventDb}
use open_dating.Connection.State.{Stores}
use open_dating.Gateway.Identities.{get_signer}
use open_dating.Gateway.Wraps.{build_gift_wrap}
use open_dating.Gateway.Incoming.{Gateway, is_addressed_to_service, decrypt_and_parse}
use open_dating.Gateway.Extension.{
  send_response, screen, context_of, with_db, rejection, answer_request, handle_request,
  handle_gift_wrap,
}

send_response-db :
    (g : Gateway) (envelope : Envelope) (sender service : String) (stores : Stores)
    → (send_response g envelope sender service stores).1.db ≡ stores.db
unfolding send_response
send_response-db g envelope sender service stores =
    elim (Option-cases (get_signer service g.identities)) [
      | inl h ↦ rw (h, send_response) refl
      | inr (signer, h) ↦
          elim (Option-cases (
            build_gift_wrap g.crypto g.draws g.world.now 78 (g.envelope_text envelope)
              signer.private_key signer.pubkey sender)) [
                | inl k ↦ rw (h, send_response, k) refl
                | inr (e, k) ↦ rw (h, send_response, k) refl
              ]
    ]

module _ (g : Gateway) (authenticated : Option String) (envelope : Fields)
    (sender service : String) where
  answer_request-db :
      (stores : Stores)
      → (answer_request g authenticated envelope sender service stores).1.db
        ≡ (route_request g.world g.setup
            (context_of authenticated sender service)
            (obj envelope)
            stores.db).1
  unfolding answer_request
  answer_request-db stores =
      let routed =
        route_request g.world g.setup (context_of authenticated sender service) (obj envelope)
          stores.db in
      elim (Result-cases routed.0) [
        | inr (e, h) ↦ rw (h, answer_request) refl
        | inl (r, h) ↦
            rw (h, answer_request)
              (send_response-db g r.envelope sender service (with_db stores routed.1))
      ]

  handle_request-answer_request :
      (stores : Stores)
      → screen g envelope ≡ none
      → handle_request g authenticated envelope sender service stores
        ≡ answer_request g authenticated envelope sender service stores
  unfolding handle_request
  handle_request-answer_request stores h = rw (h, handle_request) refl

  -- What is screened out reaches no service.
  handle_request-db :
      (stores : Stores)
      → ((handle_request g authenticated envelope sender service stores).1.db ≡ stores.db)
        ⊎ ((handle_request g authenticated envelope sender service stores).1.db
            ≡ (route_request g.world g.setup
                (context_of authenticated sender service)
                (obj envelope)
                stores.db).1)
  unfolding handle_request
  handle_request-db stores = elim (Option-cases (screen g envelope)) [
    | inl h ↦ inr (rw (h, handle_request) (answer_request-db stores))
    | inr (message, h) ↦ inl (
        rw (h, handle_request)
          (send_response-db g (rejection g envelope message) sender service stores))
  ]

-- A gift wrap to a service leaves the database of the services as it is, or its seal is by the
-- first authenticated pubkey of the connection that brought it: nobody acts for somebody else.
pub handle_gift_wrap-db :
    (g : Gateway) (authenticated : Option String) (e : Event) (stores : Stores)
    → ((handle_gift_wrap g authenticated e stores).1.db ≡ stores.db)
      ⊎ ((service : String) × (envelope : Fields) × (is_addressed_to_service g.identities e
            ≡ some service)
          × (decrypt_and_parse g e service ≡ some (envelope, or_empty authenticated)))
unfolding handle_gift_wrap
handle_gift_wrap-db g authenticated e stores =
    elim (Option-cases (is_addressed_to_service g.identities e)) [
      | inl h ↦ inl (rw (h, handle_gift_wrap) refl)
      | inr (service, h) ↦ elim (Option-cases (decrypt_and_parse g e service)) [
        | inl k ↦ inl (rw (h, handle_gift_wrap, k) refl)
        | inr ((envelope, sender), k) ↦ elim (Bool-cases (or_empty authenticated == sender)) [
          | inl same ↦
              inr (service, envelope, h, rw ((eq_iff (or_empty authenticated) sender).0 same) k)
          | inr other ↦ inl (
              rw (h, handle_gift_wrap, k)
                (elim (handle_request-db g authenticated envelope sender service stores) [
                  | inl f ↦ f
                  | inr f ↦
                      f
                      ∙ (route_request_mismatch g.world g.setup
                          (context_of authenticated sender service) (obj envelope) stores.db
                          other).0
                ]))
        ]
      ]
    ]

abbrev pub at_time : ℕ → Gateway → Gateway
at_time later g = record g { world = record g.world { now = later } }

decrypt_and_parse-at_time :
    (g : Gateway) (later : ℕ) (e : Event) (service : String)
    → decrypt_and_parse (at_time later g) e service ≡ decrypt_and_parse g e service
unfolding decrypt_and_parse
decrypt_and_parse-at_time g later e service = refl

handle_gift_wrap-request :
    (g : Gateway) (authenticated : Option String) (e : Event) (stores : Stores) (service : String)
    (envelope : Fields) (sender : String)
    → is_addressed_to_service g.identities e ≡ some service
    → decrypt_and_parse g e service ≡ some (envelope, sender)
    → handle_gift_wrap g authenticated e stores
      ≡ handle_request g authenticated envelope sender service stores
unfolding handle_gift_wrap
handle_gift_wrap-request g authenticated e stores service envelope sender h k =
    rw (h, handle_gift_wrap, k) refl

-- A gift wrap whose request was carried out is not carried out again: sent once more on the same
-- connection, at any later time and with any events stored in between, it leaves the database of
-- the services as it is. The idempotency store is there, the request was not screened out, and
-- the router has reported success.
pub handle_gift_wrap_once :
    (g : Gateway) (later : ℕ) (authenticated : Option String) (e : Event) (stores : Stores)
    (again : EventDb) (service : String) (envelope : Fields) (sender : String) (r : RouteResult)
    → g.setup.has_store ≡ true
    → is_addressed_to_service g.identities e ≡ some service
    → decrypt_and_parse g e service ≡ some (envelope, sender)
    → screen g envelope ≡ none
    → (route_request g.world g.setup
        (context_of authenticated sender service)
        (obj envelope)
        stores.db).0
      ≡ ok r
    → r.success ≡ true
    → (let after = (handle_gift_wrap g authenticated e stores).1 in
        (handle_gift_wrap
          (at_time later g)
          authenticated
          e
          (record after { event_db = again })).1.db
        ≡ after.db)
handle_gift_wrap_once g later authenticated e stores again service envelope sender r has_store
      addressed opened passed routed success =
    let ctx = context_of authenticated sender service in
    let first_run : (handle_gift_wrap g authenticated e stores).1.db
        ≡ (route_request g.world g.setup ctx (obj envelope) stores.db).1 =
      rw
        (handle_gift_wrap-request g authenticated e stores service envelope sender addressed opened)
        (rw (handle_request-answer_request g authenticated envelope sender service stores passed)
          (answer_request-db g authenticated envelope sender service stores)) in
    let after = (handle_gift_wrap g authenticated e stores).1 in
    let replay = record after { event_db = again } in
    rw
      (handle_gift_wrap-request (at_time later g) authenticated e replay service envelope sender
        addressed (decrypt_and_parse-at_time g later e service ∙ opened))
      (elim (handle_request-db (at_time later g) authenticated envelope sender service replay) [
        | inl same ↦ same
        | inr runs ↦
            runs
            ∙ rw first_run (
                route_request_once g.world later g.setup ctx (obj envelope) stores.db r has_store
                  routed success)
      ])
