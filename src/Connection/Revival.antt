-- ===== src/Connection/Revival.antt =====
-- What survives the eviction of the object from memory: the storage of the subscriptions and the
-- attachments of src/durable-object.ts.
use open_dating.Prelude.{
  ◌≡◌, refl, sym, ap, ◌∙◌, String, List, [], ◌∷◌, ◌==◌, first, exists, insert, Bool-cases, inl, inr,
  eq_refl,
}
use open_dating.Relay.Filters.{Filter}
use open_dating.Events.Model.{Event}
use open_dating.Connection.State.{
  Session, Attachment, Relay, Env, load_subscriptions, restore_session, is_session, or_challenge,
  subscriptions_of, pubkey_limiter, req_limiter,
}
use open_dating.Connection.Cache.{invalidate_relevant_caches, get_cached_or_query}
use open_dating.Connection.Broadcast.{keep_session, deliver_all, broadcast_to_local_sessions}
use open_dating.Connection.Checks.{check_payment, broadcast_produced}
use open_dating.Connection.Publish.{announce, mark_processed, with_stores}
use open_dating.Connection.Subscribe.{save_subscriptions, open_subscription, without_subscription}
use open_dating.Connection.Auth.{authenticate, note_payment, accept_auth}
use open_dating.Connection.Socket.{Message, handle_message, attachment_of, hibernate}
use open_dating.Connection.Stores.{
  invalidate-core, get_cached_or_query-core, check_payment-core, note_payment-core,
  note_payment-session,
}
use open_dating.Connection.Induction.{handle_message-closed}

-- The storage has the subscriptions of the session.
abbrev IsStored : Session → Relay → Type 0
IsStored s r = load_subscriptions s.id r ≡ s.subscriptions

load_subscriptions-stored :
    (id : String) (q r : Relay)
    → q.stored_subscriptions ≡ r.stored_subscriptions
    → load_subscriptions id q ≡ load_subscriptions id r
unfolding load_subscriptions
load_subscriptions-stored id q r h = rw (h, load_subscriptions) refl

first-insert :
    (id : String) (v : List (String × List Filter))
    (entries : List (String × List (String × List Filter)))
    → subscriptions_of
        (first (λ (s : String × List (String × List Filter)). s.0 == id) (insert id v entries))
      ≡ v
unfolding first insert
first-insert id v [] = rw (eq_refl id) refl
first-insert id v ((name, old) ∷ entries) = elim (Bool-cases (name == id)) [
  | inl h ↦ rw (h, h) refl
  | inr h ↦ rw (h, h) (first-insert id v entries)
]

save_subscriptions-IsStored : (s : Session) (r : Relay) → IsStored s (save_subscriptions s r)
unfolding save_subscriptions load_subscriptions
save_subscriptions-IsStored s r = first-insert s.id s.subscriptions r.stored_subscriptions

module _ (env : Env) where
  deliver_all-stored :
      (e : Event) (sockets : List Attachment) (r : Relay)
      → (deliver_all env e sockets r).1.stored_subscriptions ≡ r.stored_subscriptions
  unfolding deliver_all
  deliver_all-stored e [] r = refl
  deliver_all-stored e (a ∷ sockets) r =
      deliver_all-stored e sockets (keep_session env a r)
      ∙ elim (Bool-cases (exists (is_session a.session_id) r.sessions)) [
        | inl h ↦ rw h refl
        | inr h ↦ rw h refl
      ]

  broadcast-stored :
      (e : Event) (r : Relay)
      → (broadcast_to_local_sessions env e r).1.stored_subscriptions ≡ r.stored_subscriptions
  unfolding broadcast_to_local_sessions
  broadcast-stored e r = deliver_all-stored e r.sockets r

  broadcast_produced-stored :
      (events : List Event) (r : Relay)
      → (broadcast_produced env events r).1.stored_subscriptions ≡ r.stored_subscriptions
  unfolding broadcast_produced
  broadcast_produced-stored [] r = refl
  broadcast_produced-stored (e ∷ events) r =
      broadcast_produced-stored events (broadcast_to_local_sessions env e r).1
      ∙ broadcast-stored e r

  announce-stored :
      (s : Session) (e : Event) (message : String) (r : Relay)
      → (announce env s e message r).relay.stored_subscriptions ≡ r.stored_subscriptions
  unfolding announce
  announce-stored s e message r =
      broadcast-stored e (invalidate_relevant_caches env.platform e (mark_processed env e r))
      ∙ ap (λ c. c.stored_subscriptions) (invalidate-core env.platform e (mark_processed env e r))

  same-IsStored :
      (s : Session) (q r : Relay)
      → q.stored_subscriptions ≡ r.stored_subscriptions
      → IsStored s r
      → IsStored s q
  same-IsStored s q r h k = load_subscriptions-stored s.id q r h ∙ k

  opened-IsStored :
      (s : Session) (r : Relay) (sub : String) (filters : List Filter)
      → (let st = open_subscription env s sub filters r in IsStored st.session st.relay)
  unfolding open_subscription
  opened-IsStored s r sub filters =
      let opened = record s { subscriptions = insert sub filters s.subscriptions } in
      let saved = save_subscriptions opened r in
      same-IsStored opened (get_cached_or_query env filters saved).1 saved
        (ap (λ c. c.stored_subscriptions) (get_cached_or_query-core env filters saved))
        (save_subscriptions-IsStored opened r)

  accepted-IsStored :
      (s : Session) (r : Relay) (e : Event)
      → IsStored s r
      → (let st = accept_auth env s e r in IsStored st.session st.relay)
  unfolding accept_auth authenticate
  accepted-IsStored s r e h =
      let noted = note_payment env e (authenticate env e s) r in
      let same = note_payment-session env e (authenticate env e s) r in
      rw (ap (λ t. t.id) same, ap (λ t. t.subscriptions) same)
        (same-IsStored s noted.1 r
          (ap (λ c. c.stored_subscriptions) (note_payment-core env e (authenticate env e s) r)) h)

  handle_message-IsStored :
      (m : Message) (s : Session) (r : Relay)
      → IsStored s r
      → (let st = handle_message env s m r in IsStored st.session st.relay)
  unfolding announce
  handle_message-IsStored m =
      handle_message-closed env m IsStored (λ st. IsStored st.session st.relay)
        (record {
          limited = λ s r limiter g. g;
          requested = λ s r limiter g. g;
          paid = λ s r e g.
              same-IsStored s (check_payment env e r).1 r
                (ap (λ c. c.stored_subscriptions) (check_payment-core env e r)) g;
          ran = λ s r stores g. load_subscriptions-stored s.id (with_stores r stores) r refl ∙ g;
          produced = λ s r events g.
              same-IsStored s (broadcast_produced env events r).1 r
                (broadcast_produced-stored events r) g;
          answered = λ s r frame g final. g;
          announced = λ s r e message g.
              same-IsStored s (announce env s e message r).relay r (announce-stored s e message r)
                g;
          took = λ s e r result g.
              same-IsStored s (broadcast_produced env result.publish r).1 r
                (broadcast_produced-stored result.publish r) g;
          preceded = λ r result st g. g;
          opened = λ s r sub filters g. opened-IsStored s r sub filters;
          shut = λ s r sub g. save_subscriptions-IsStored (without_subscription sub s) r;
          authenticated = λ s r d e which whole valid g. accepted-IsStored s r e g;
        })

-- When the object is evicted behind a message, the session that is made again from the attachment
-- and the storage is the one before, but for its two rate limiters, which are full: it has the
-- same id, subscriptions, host, challenge, authenticated pubkeys and payment state. Before the
-- message the storage has the session's subscriptions, and behind it the session has a challenge
-- or none is asked for.
pub handle_message-restore_session :
    (env later : Env) (m : Message) (s : Session) (r : Relay)
    → load_subscriptions s.id r ≡ s.subscriptions
    → (handle_message env s m r).session.challenge
      ≡ or_challenge later (handle_message env s m r).session.challenge
    → restore_session later
        (attachment_of (handle_message env s m r).session)
        (hibernate (handle_message env s m r).relay)
      ≡ record (handle_message env s m r).session {
        pubkey_rate_limiter = pubkey_limiter later.now_ms;
        req_rate_limiter = req_limiter later.now_ms;
      }
unfolding restore_session
handle_message-restore_session env later m s r stored challenge =
    let st = handle_message env s m r in
    let kept =
      load_subscriptions-stored st.session.id (hibernate st.relay) st.relay
        (unfold hibernate in refl)
      ∙ handle_message-IsStored env m s r stored in
    rw (kept, sym challenge) refl
