-- ===== src/Connection/Sessions.antt =====
-- What holds of the pubkeys of every session and of every attachment: the handlers of
-- src/durable-object.ts keep it, where an authentication does.
use open_dating.Prelude.{
  ◌≡◌, refl, ap, ◌∙◌, String, List, [], ◌∷◌, none, some, exists, insert, All, append-All,
  Bool-cases, inl, inr,
}
use open_dating.Relay.Filters.{Filter}
use open_dating.Events.Model.{Event}
use open_dating.Connection.State.{Session, Attachment, Relay, Env, is_session, restore_session}
use open_dating.Connection.Cache.{invalidate_relevant_caches, get_cached_or_query}
use open_dating.Connection.Broadcast.{keep_session, deliver_all, broadcast_to_local_sessions}
use open_dating.Connection.Checks.{Draft, event_of, check_payment, broadcast_produced}
use open_dating.Connection.Publish.{announce, mark_processed}
use open_dating.Connection.Subscribe.{save_subscriptions, open_subscription}
use open_dating.Connection.Auth.{check_auth, accept_auth}
use open_dating.Connection.Socket.{Message, auth_message, handle_message}
use open_dating.Connection.Stores.{
  core, invalidate-core, get_cached_or_query-core, check_payment-core,
}
use open_dating.Connection.Induction.{handle_message-closed}

module _ (P : String → List String → Type 0) where
  abbrev pub HoldsOf : Session → Type 0
  HoldsOf s = P s.id s.authenticated_pubkeys

  abbrev pub HoldsAt : Attachment → Type 0
  HoldsAt a = P a.session_id a.authenticated_pubkeys

  -- Every session in memory and every attachment.
  abbrev pub Holds : Relay → Type 0
  Holds r = All HoldsOf r.sessions × All HoldsAt r.sockets

  pub Holds-core : (q r : Relay) → core q ≡ core r → Holds r → Holds q
  Holds-core q r same h = (rw (ap (λ c. c.sessions) same) h.0, rw (ap (λ c. c.sockets) same) h.1)

  module _ (env : Env) where
    keep_session-All :
        (a : Attachment) (r : Relay)
        → HoldsAt a
        → All HoldsOf r.sessions
        → All HoldsOf (keep_session env a r).sessions
    unfolding restore_session
    keep_session-All a r ha hs = elim (Bool-cases (exists (is_session a.session_id) r.sessions)) [
      | inl h ↦ rw h hs
      | inr h ↦ rw h (append-All HoldsOf r.sessions (restore_session env a r ∷ []) hs (ha, tt))
    ]

    keep_session-sockets : (a : Attachment) (r : Relay) → (keep_session env a r).sockets ≡ r.sockets
    keep_session-sockets a r = elim (Bool-cases (exists (is_session a.session_id) r.sessions)) [
      | inl h ↦ rw h refl
      | inr h ↦ rw h refl
    ]

    deliver_all-All :
        (e : Event) (sockets : List Attachment) (r : Relay)
        → All HoldsAt sockets
        → All HoldsOf r.sessions
        → All HoldsOf (deliver_all env e sockets r).1.sessions
    unfolding deliver_all
    deliver_all-All e [] r ha hs = hs
    deliver_all-All e (a ∷ sockets) r (h, ha) hs =
        deliver_all-All e sockets (keep_session env a r) ha (keep_session-All a r h hs)

    deliver_all-sockets :
        (e : Event) (sockets : List Attachment) (r : Relay)
        → (deliver_all env e sockets r).1.sockets ≡ r.sockets
    unfolding deliver_all
    deliver_all-sockets e [] r = refl
    deliver_all-sockets e (a ∷ sockets) r =
        deliver_all-sockets e sockets (keep_session env a r) ∙ keep_session-sockets a r

    pub broadcast-Holds :
        (e : Event) (r : Relay) → Holds r → Holds (broadcast_to_local_sessions env e r).1
    unfolding broadcast_to_local_sessions
    broadcast-Holds e r h =
        (deliver_all-All e r.sockets r h.1 h.0, rw (deliver_all-sockets e r.sockets r) h.1)

    broadcast_produced-Holds :
        (events : List Event) (r : Relay) → Holds r → Holds (broadcast_produced env events r).1
    unfolding broadcast_produced
    broadcast_produced-Holds [] r h = h
    broadcast_produced-Holds (e ∷ events) r h =
        broadcast_produced-Holds events (broadcast_to_local_sessions env e r).1
          (broadcast-Holds e r h)

    pub invalidate-Holds :
        (e : Event) (r : Relay) → Holds r → Holds (invalidate_relevant_caches env.platform e r)
    invalidate-Holds e r =
        Holds-core (invalidate_relevant_caches env.platform e r) r
          (invalidate-core env.platform e r)

    announce-Holds :
        (s : Session) (e : Event) (message : String) (r : Relay)
        → Holds r
        → Holds (announce env s e message r).relay
    unfolding announce
    announce-Holds s e message r h =
        let marked = mark_processed env e r in
        broadcast-Holds e (invalidate_relevant_caches env.platform e marked)
          (invalidate-Holds e marked h)

    module _ (id : String) where
      -- The session with this id, whose pubkeys hold, in an object where all do.
      abbrev pub IsSound : Session → Relay → Type 0
      IsSound s r = ((s.id ≡ id) × HoldsOf s) × Holds r

      open_subscription-IsSound :
          (s : Session) (r : Relay) (sub : String) (filters : List Filter)
          → IsSound s r
          → (let st = open_subscription env s sub filters r in IsSound st.session st.relay)
      unfolding open_subscription save_subscriptions
      open_subscription-IsSound s r sub filters (hs, hr) =
          let opened = record s { subscriptions = insert sub filters s.subscriptions } in
          let saved = save_subscriptions opened r in
          (
            hs,
            Holds-core (get_cached_or_query env filters saved).1 saved
                (get_cached_or_query-core env filters saved) hr,
          )

      -- The handling of a message keeps it, where its authentication does.
      pub handle_message-IsSound :
          (m : Message)
          → ((s : Session) (r : Relay) (d : Draft) (e : Event)
              → m ≡ auth_message (some d)
              → event_of d ≡ some e
              → check_auth env s e ≡ none
              → IsSound s r
              → IsSound (accept_auth env s e r).session (accept_auth env s e r).relay)
          → (s : Session) (r : Relay) → IsSound s r
          → (let st = handle_message env s m r in IsSound st.session st.relay)
      unfolding announce
      handle_message-IsSound m authenticated =
          handle_message-closed env m IsSound (λ st. IsSound st.session st.relay)
            (record {
              limited = λ s r limiter g. g;
              requested = λ s r limiter g. g;
              paid = λ s r e g.
                  (g.0, Holds-core (check_payment env e r).1 r (check_payment-core env e r) g.1);
              ran = λ s r stores g. g;
              produced = λ s r events g. (g.0, broadcast_produced-Holds events r g.1);
              answered = λ s r frame g final. g;
              announced = λ s r e message g. (g.0, announce-Holds s e message r g.1);
              took = λ s e r result g. (g.0, broadcast_produced-Holds result.publish r g.1);
              preceded = λ r result st g. g;
              opened = λ s r sub filters g. open_subscription-IsSound s r sub filters g;
              shut = λ s r sub g. (g.0, unfold save_subscriptions in g.1);
              authenticated = authenticated;
            })
