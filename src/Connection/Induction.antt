-- ===== src/Connection/Induction.antt =====
-- An induction over the handlers of src/durable-object.ts: what `handleMessage` makes of a message
-- is an answer, or one of the few results that do more, in a state that the checks have left.
use Prim.Native.String
use open_dating.Prelude.{
  ◌≡◌, refl, String, false, Option, none, some, List, ◌==◌, ◌&&◌, ◌||◌, eqb, ltb, exists, first,
  length, Bool-cases, Option-cases, Result-cases, inl, inr,
}
use open_dating.Relay.RateLimit.{remove_token}
use open_dating.Relay.Filters.{Filter}
use open_dating.Text.{length_of}
use open_dating.Events.Model.{Event, or_empty, verify_event_signature}
use open_dating.Events.Config.{holds_kind}
use open_dating.Connection.State.{Session, Relay, Env, ok_frame, closed, Handler, ExtensionResult}
use open_dating.Connection.Checks.{
  Draft, Step, event_of, check_identity, check_payment, check_settings, check_gift_wrap,
  broadcast_produced, first_pubkey,
}
use open_dating.Connection.Publish.{
  is_false, with_stores, save, store_event, finish, after_extension, run_extension, dispatch_event,
  check_event, check_rate, publish_event, handle_event,
}
use open_dating.Connection.Subscribe.{
  is_subscription, validate_filters, subscribe, request, handle_req, handle_close_subscription,
}
use open_dating.Connection.Auth.{check_auth, run_auth, handle_auth}
use open_dating.Connection.Socket.{
  Message, event_message, req_message, close_message, auth_message, other_message, no_array,
  no_json, handle_message,
}
use open_dating.Connection.Outcomes.{IsClosed}

module _ (env : Env) (m : Message) (Good : Session → Relay → Type 0) (Q : Step → Type 0)
    (c : IsClosed env m Good Q) where
  store_event-closed : (s : Session) (e : Event) (r : Relay) → Good s r → Q (store_event env s e r)
  unfolding store_event save
  store_event-closed s e r g =
      let good = c.ran s r (save env e r).1.stores g in
      elim (Bool-cases (save env e r).0.success) [
        | inr h ↦ rw h (c.answered s (save env e r).1 _ good refl)
        | inl h ↦ rw h (c.announced s (save env e r).1 e (save env e r).0.message good)
      ]

  finish-closed : (s : Session) (e : Event) (r : Relay) → Good s r → Q (finish env s e r)
  unfolding finish
  finish-closed s e r g = elim (Option-cases (check_gift_wrap env s e r)) [
    | inl h ↦ rw (h, finish) (store_event-closed s e r g)
    | inr (reason, h) ↦ rw (h, finish) (c.answered s r (ok_frame e.id false reason) g refl)
  ]

  after_extension-closed :
      (s : Session) (e : Event) (result : ExtensionResult) (r : Relay)
      → Good s r
      → Q (after_extension env s e result r)
  unfolding after_extension
  after_extension-closed s e result r g =
      let r' = (broadcast_produced env result.publish r).1 in
      let good = c.produced s r result.publish g in
      elim (Bool-cases (result.handled && is_false result.store_normally)) [
        | inl h ↦ rw h (c.took s e r result g)
        | inr h ↦ rw h (c.preceded r result (finish env s e r') (finish-closed s e r' good))
      ]

  run_extension-closed :
      (s : Session) (e : Event) (r : Relay) (h : Handler) → Good s r → Q (run_extension env s e r h)
  unfolding run_extension
  run_extension-closed s e r h g =
      let ran = h.handle_event (first_pubkey s.authenticated_pubkeys) e r.stores in
      let r' = with_stores r ran.1 in
      let good = c.ran s r ran.1 g in
      elim (Result-cases ran.0) [
        | inl (result, k) ↦ rw (k, run_extension) (after_extension-closed s e result r' good)
        | inr (error, k) ↦
            rw (k, run_extension)
              (c.answered s r' (ok_frame e.id false (String.◌++◌ "error: " error)) good refl)
      ]

  dispatch_event-closed :
      (s : Session) (e : Event) (r : Relay) → Good s r → Q (dispatch_event env s e r)
  unfolding dispatch_event
  dispatch_event-closed s e r g =
      elim (Option-cases (first (λ h. h.can_handle_event e) env.handlers)) [
        | inl k ↦ rw (k, dispatch_event) (finish-closed s e r g)
        | inr (h, k) ↦ rw (k, dispatch_event) (run_extension-closed s e r h g)
      ]

  check_event-closed : (s : Session) (e : Event) (r : Relay) → Good s r → Q (check_event env s e r)
  unfolding check_event
  check_event-closed s e r g = elim (Bool-cases (verify_event_signature env.platform e)) [
    | inr h ↦ rw h (c.answered s r _ g refl)
    | inl h ↦
        let r' = (check_payment env e r).1 in
        let good = c.paid s r e g in
        elim (Bool-cases (check_payment env e r).0) [
          | inr k ↦ rw (h, k) (c.answered s r' _ good refl)
          | inl k ↦ elim (Option-cases (check_settings env.config env.platform e)) [
            | inl n ↦ rw (h, k, n) (dispatch_event-closed s e r' good)
            | inr (message, n) ↦
                rw (h, k, n) (c.answered s r' (ok_frame e.id false message) good refl)
          ]
        ]
  ]

  check_rate-closed : (s : Session) (e : Event) (r : Relay) → Good s r → Q (check_rate env s e r)
  unfolding check_rate
  check_rate-closed s e r g =
      elim (Bool-cases (holds_kind e.kind env.config.excluded_rate_limit_kinds)) [
        | inl h ↦ rw h (check_event-closed s e r g)
        | inr h ↦
            let limited = remove_token env.now_ms s.pubkey_rate_limiter in
            let s' = record s { pubkey_rate_limiter = limited.1 } in
            let good = c.limited s r limited.1 g in
            elim (Bool-cases limited.0) [
              | inl k ↦ rw (h, k) (check_event-closed s' e r good)
              | inr k ↦ rw (h, k) (c.answered s' r _ good refl)
            ]
      ]

  publish_event-closed :
      (s : Session) (e : Event) (r : Relay) → Good s r → Q (publish_event env s e r)
  unfolding publish_event
  publish_event-closed s e r g = elim (Option-cases (check_identity env.config s e)) [
    | inl h ↦ rw (h, publish_event) (check_rate-closed s e r g)
    | inr (message, h) ↦ rw (h, publish_event) (c.answered s r (ok_frame e.id false message) g refl)
  ]

  handle_event-closed :
      (s : Session) (d : Option Draft) (r : Relay) → Good s r → Q (handle_event env s d r)
  unfolding handle_event
  handle_event-closed s none r g =
      c.answered s r (ok_frame "" false "invalid: event object required") g refl
  handle_event-closed s (some d) r g = elim (Option-cases (event_of d)) [
    | inl h ↦
        rw (h, handle_event)
          (c.answered s r (ok_frame (or_empty d.id) false "invalid: missing required fields") g
            refl)
    | inr (e, h) ↦ rw (h, handle_event) (publish_event-closed s e r g)
  ]

  subscribe-closed :
      (s : Session) (id : String) (filters : List (Option Filter)) (r : Relay)
      → Good s r
      → Q (subscribe env s id filters r)
  unfolding subscribe
  subscribe-closed s id filters r g = elim (Bool-cases (eqb (length filters) 0)) [
    | inl h ↦ rw h (c.answered s r _ g refl)
    | inr h ↦ elim (Result-cases (validate_filters env.config env.platform filters)) [
      | inl (gs, k) ↦ rw (h, k, subscribe) (c.opened s r id gs g)
      | inr (message, k) ↦ rw (h, k, subscribe) (c.answered s r (closed id message) g refl)
    ]
  ]

  request-closed :
      (s : Session) (id : String) (filters : List (Option Filter)) (r : Relay)
      → Good s r
      → Q (request env s id filters r)
  unfolding request
  request-closed s id filters r g =
      elim (Bool-cases (env.config.auth_required && eqb (length s.authenticated_pubkeys) 0)) [
        | inl h ↦ rw h (c.answered s r _ g refl)
        | inr h ↦
            let limited = remove_token env.now_ms s.req_rate_limiter in
            let s' = record s { req_rate_limiter = limited.1 } in
            let good = c.requested s r limited.1 g in
            elim (Bool-cases limited.0) [
              | inl k ↦ rw (h, k) (subscribe-closed s' id filters r good)
              | inr k ↦ rw (h, k) (c.answered s' r _ good refl)
            ]
      ]

  handle_req-closed :
      (s : Session) (id : Option String) (filters : List (Option Filter)) (r : Relay)
      → Good s r
      → Q (handle_req env s id filters r)
  unfolding handle_req
  handle_req-closed s none filters r g = c.answered s r _ g refl
  handle_req-closed s (some id) filters r g =
      elim (Bool-cases (id == "" || ltb 64 (length_of id))) [
        | inl h ↦ rw h (c.answered s r _ g refl)
        | inr h ↦ rw h (request-closed s id filters r g)
      ]

  handle_close_subscription-closed :
      (s : Session) (id : Option String) (r : Relay)
      → Good s r
      → Q (handle_close_subscription s id r)
  unfolding handle_close_subscription
  handle_close_subscription-closed s none r g = c.answered s r _ g refl
  handle_close_subscription-closed s (some id) r g = elim (Bool-cases (id == "")) [
    | inl h ↦ rw h (c.answered s r _ g refl)
    | inr h ↦ elim (Bool-cases (exists (is_subscription id) s.subscriptions)) [
      | inl k ↦ rw (h, k) (c.shut s r id g)
      | inr k ↦ rw (h, k) (c.answered s r _ g refl)
    ]
  ]

  handle_auth-closed :
      (s : Session) (d : Option Draft) (r : Relay)
      → m ≡ auth_message d
      → Good s r
      → Q (handle_auth env s d r)
  unfolding handle_auth run_auth
  handle_auth-closed s none r which g = c.answered s r _ g refl
  handle_auth-closed s (some d) r which g = elim (Option-cases (event_of d)) [
    | inl h ↦
        rw (h, handle_auth)
          (c.answered s r (ok_frame (or_empty d.id) false "invalid: missing required fields") g
            refl)
    | inr (e, h) ↦ elim (Option-cases (check_auth env s e)) [
      | inl k ↦ rw (h, handle_auth, k, run_auth) (c.authenticated s r d e which h k g)
      | inr (message, k) ↦
          rw (h, handle_auth, k, run_auth) (c.answered s r (ok_frame e.id false message) g refl)
    ]
  ]

pub handle_message-closed :
    (env : Env) (m : Message) (Good : Session → Relay → Type 0) (Q : Step → Type 0)
    → IsClosed env m Good Q
    → (s : Session) (r : Relay) → Good s r
    → Q (handle_message env s m r)
unfolding handle_message
handle_message-closed env (event_message d) Good Q c s r g =
    handle_event-closed env _ Good Q c s d r g
handle_message-closed env (req_message id filters) Good Q c s r g =
    handle_req-closed env _ Good Q c s id filters r g
handle_message-closed env (close_message id) Good Q c s r g =
    handle_close_subscription-closed env _ Good Q c s id r g
handle_message-closed env (auth_message d) Good Q c s r g =
    handle_auth-closed env _ Good Q c s d r refl g
handle_message-closed env (other_message name) Good Q c s r g = c.answered s r _ g refl
handle_message-closed env no_array Good Q c s r g = c.answered s r _ g refl
handle_message-closed env no_json Good Q c s r g = c.answered s r _ g refl
