-- ===== src/Connection/Admission.antt =====
-- What an EVENT message must pass before it is stored: `handleEvent` of src/durable-object.ts,
-- where no extension takes the event.
use mathlib.Core.List.{Memᴰ}
use open_dating.Prelude.{
  eqb, ◌≡◌, refl, ◌∙◌, ap, ◌⊎◌, inl, inr, String, true, none, sym, first, Bool-cases, Option-cases,
}
use open_dating.Relay.RateLimit.{RateLimiter, remove_token}
use open_dating.Events.Model.{Event, verify_event_signature}
use open_dating.Events.Config.{holds_kind}
use open_dating.Events.Process.{process_event}
use open_dating.Connection.State.{Session, Relay, Env, Stores}
use open_dating.Connection.Checks.{
  Step, check_identity, check_payment, check_settings, check_gift_wrap,
}
use open_dating.Connection.Publish.{
  save, announce, store_event, finish, dispatch_event, check_event, check_rate, publish_event,
  mark_processed,
}
use open_dating.Connection.Admitted.{
  IsAuthorized, IsPaid, IsFitting, IsDeliverable, check_identity-IsAuthorized, check_payment-IsPaid,
  check_settings-IsFitting, check_gift_wrap-IsDeliverable, member_of_exists, decides_kind,
}
use open_dating.Connection.Cache.{invalidate_relevant_caches}
use open_dating.Connection.Stores.{invalidate-core, broadcast-stores, check_payment-core}

-- The event does not exceed the rate of the connection, where its kind is limited.
abbrev IsRated : Env → Session → Event → Type 0
IsRated env s e =
    Memᴰ e.kind env.config.excluded_rate_limit_kinds
    ⊎ ((remove_token env.now_ms s.pubkey_rate_limiter).0 ≡ true)

-- What holds of an event that is stored, with the session that sent it.
pub record IsAdmitted (env : Env) (s : Session) (e : Event) (r : Relay) : Type 0 where
  pub authorized : IsAuthorized env.config s e
  pub rated : IsRated env s e
  pub signed : verify_event_signature env.platform e ≡ true
  pub paid : IsPaid env e r
  pub fitting : IsFitting env.config env.platform e
  pub deliverable : IsDeliverable env s e r

-- The checks that an event which is stored has passed, with the session that sent it.
pub record HasCleared (env : Env) (s : Session) (e : Event) (r : Relay) : Type 0 where
  pub identity : check_identity env.config s e ≡ none
  pub rated : IsRated env s e
  pub signed : verify_event_signature env.platform e ≡ true
  pub paid : (check_payment env e r).0 ≡ true
  pub fits : check_settings env.config env.platform e ≡ none
  pub wrapped : check_gift_wrap env s e r ≡ none

-- The databases behind `processEvent`.
abbrev pub stored : Env → Event → Stores → Stores
stored env e stores = record stores {
  event_db = (process_event env.config env.platform e stores.event_db).1;
}

module _ (env : Env) (s : Session) (e : Event) where
  announce-stores :
      (message : String) (r : Relay) → (announce env s e message r).relay.stores ≡ r.stores
  unfolding announce
  announce-stores message r =
      broadcast-stores env e (invalidate_relevant_caches env.platform e (mark_processed env e r))
      ∙ ap (λ c. c.stores) (invalidate-core env.platform e (mark_processed env e r))

  store_event-stores : (r : Relay) → (store_event env s e r).relay.stores ≡ stored env e r.stores
  unfolding store_event save
  store_event-stores r = elim (Bool-cases (save env e r).0.success) [
    | inl h ↦ rw h (announce-stores (save env e r).0.message (save env e r).1)
    | inr h ↦ rw h refl
  ]

  finish-stores :
      (r : Relay)
      → ((finish env s e r).relay.stores ≡ r.stores)
        ⊎ ((check_gift_wrap env s e r ≡ none)
            × ((finish env s e r).relay.stores ≡ stored env e r.stores))
  unfolding finish
  finish-stores r = elim (Option-cases (check_gift_wrap env s e r)) [
    | inl h ↦ inr (h, rw (h, finish) (store_event-stores r))
    | inr (reason, h) ↦ inl (rw (h, finish) refl)
  ]

  check_gift_wrap-stores :
      (q r : Relay) → q.stores ≡ r.stores → check_gift_wrap env s e q ≡ check_gift_wrap env s e r
  unfolding check_gift_wrap
  check_gift_wrap-stores q r h = rw (h, check_gift_wrap) refl

unlimited :
    (env : Env) (s : Session) (limiter : RateLimiter) (e : Event) (r : Relay)
    → check_gift_wrap env (record s { pubkey_rate_limiter = limiter }) e r
      ≡ check_gift_wrap env s e r
unfolding check_gift_wrap
unlimited env s limiter e r = refl

-- The checks behind the rate limit.
record HasPassed (env : Env) (s : Session) (e : Event) (r : Relay) : Type 0 where
  signed : verify_event_signature env.platform e ≡ true
  paid : (check_payment env e r).0 ≡ true
  fits : check_settings env.config env.platform e ≡ none
  wrapped : check_gift_wrap env s e r ≡ none

-- The databases stay as they are, or all the checks have passed and the event is processed.
abbrev pub Decides :
    (Session → Event → Relay → Type 0) → Env → Session → Event → Relay → Step → Type 0
Decides passed env s e r st =
    (st.relay.stores ≡ r.stores) ⊎ (passed s e r × (st.relay.stores ≡ stored env e r.stores))

module _ (env : Env) (e : Event)
    (alone : first (λ h. h.can_handle_event e) env.handlers ≡ none) where
  dispatch_event-finish : (s : Session) (r : Relay) → dispatch_event env s e r ≡ finish env s e r
  unfolding dispatch_event
  dispatch_event-finish s r = rw (alone, dispatch_event) refl

  check_event-stores :
      (s : Session) (r : Relay) → Decides (HasPassed env) env s e r (check_event env s e r)
  unfolding check_event
  check_event-stores s r =
      let paid = check_payment env e r in
      let same = ap (λ c. c.stores) (check_payment-core env e r) in
      elim (Bool-cases (verify_event_signature env.platform e)) [
        | inr h ↦ inl (rw h refl)
        | inl h ↦ elim (Bool-cases paid.0) [
          | inr k ↦ inl (rw (h, k) same)
          | inl k ↦ elim (Option-cases (check_settings env.config env.platform e)) [
            | inr (message, m) ↦ inl (rw (h, k, m) same)
            | inl m ↦ elim (finish-stores env s e paid.1) [
              | inl f ↦ inl (rw (h, k, m, dispatch_event-finish s paid.1) (f ∙ same))
              | inr (w, f) ↦ inr (
                record {
                  signed = h;
                  paid = k;
                  fits = m;
                  wrapped = sym (check_gift_wrap-stores env s e paid.1 r same) ∙ w;
                },
                rw (h, k, m, dispatch_event-finish s paid.1) (f ∙ ap (stored env e) same),
              )
            ]
          ]
        ]
      ]

  check_rate-stores :
      (s : Session) (r : Relay)
      → Decides (λ s e r. IsRated env s e × HasPassed env s e r) env s e r (check_rate env s e r)
  unfolding check_rate
  check_rate-stores s r =
      elim (Bool-cases (holds_kind e.kind env.config.excluded_rate_limit_kinds)) [
        | inl h ↦
            let free : IsRated env s e =
              inl
                (member_of_exists eqb decides_kind e.kind env.config.excluded_rate_limit_kinds h) in
            elim (check_event-stores s r) [
              | inl f ↦ inl (rw h f)
              | inr (p, f) ↦ inr ((free, p), rw h f)
            ]
        | inr h ↦
            let limited = remove_token env.now_ms s.pubkey_rate_limiter in
            elim (Bool-cases limited.0) [
              | inr k ↦ inl (rw (h, k) refl)
              | inl k ↦ elim (check_event-stores (record s { pubkey_rate_limiter = limited.1 }) r) [
                | inl f ↦ inl (rw (h, k) f)
                | inr (p, f) ↦ inr (
                  (
                    inr k,
                    record {
                      signed = p.signed;
                      paid = p.paid;
                      fits = p.fits;
                      wrapped = sym (unlimited env s limited.1 e r) ∙ p.wrapped;
                    },
                  ),
                  rw (h, k) f,
                )
              ]
            ]
      ]

  pub publish_event-HasCleared :
      (s : Session) (r : Relay) → Decides (HasCleared env) env s e r (publish_event env s e r)
  unfolding publish_event
  publish_event-HasCleared s r = elim (Option-cases (check_identity env.config s e)) [
    | inr (message, h) ↦ inl (rw (h, publish_event) refl)
    | inl h ↦ elim (check_rate-stores s r) [
      | inl f ↦ inl (rw (h, publish_event) f)
      | inr ((rated, p), f) ↦ inr (
        record {
          identity = h;
          rated = rated;
          signed = p.signed;
          paid = p.paid;
          fits = p.fits;
          wrapped = p.wrapped;
        },
        rw (h, publish_event) f,
      )
    ]
  ]

  -- Where no extension takes an event, publishing it leaves both databases as they are, or all of
  -- these hold. The kind is not 22242. Where authentication is asked for, the connection has an
  -- authenticated pubkey, and the author is one of them unless the kind is 1059. A token of the rate
  -- was left, unless the kind is excluded from the limit. The signature is valid. Where payments are
  -- asked for and the kind is not 1059, a payment of the author is on record or was found less than a
  -- minute ago. The kind, each tag, and the author unless the kind is 1059, are on the list of those
  -- allowed, where it is not empty, and not on the list of those blocked. Neither the content nor a
  -- tag contains a blocked phrase. If the kind is 1059, the policy for private messages allows it from
  -- the connection's first pubkey to the one in the first `p` tag. In the second case the database of
  -- events is what `processEvent` makes of it, and the other database is unchanged.
  pub publish_event-stores :
      (s : Session) (r : Relay) → Decides (IsAdmitted env) env s e r (publish_event env s e r)
  publish_event-stores s r = elim (publish_event-HasCleared s r) [
    | inl f ↦ inl f
    | inr (c, f) ↦ inr (
      record {
        authorized = check_identity-IsAuthorized env.config s e c.identity;
        rated = c.rated;
        signed = c.signed;
        paid = check_payment-IsPaid env e r c.paid;
        fitting = check_settings-IsFitting env.config env.platform e c.fits;
        deliverable = check_gift_wrap-IsDeliverable env s e r c.wrapped;
      },
      f,
    )
  ]
