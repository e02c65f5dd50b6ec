-- ===== src/Connection/Turns.antt =====
-- What holds of the pubkeys of every session and of every attachment: an authentication, and the
-- two ends of `webSocketMessage` of src/durable-object.ts.
use open_dating.Prelude.{
  refl, ap, ◌∙◌, ℕ, String, List, [], ◌∷◌, ◌==◌, eqb, length, first, exists, insert,
  insert_or_ignore, append-All, update-All, upsert-All, Bool-cases, Option-cases, inl, inr,
  first-All, delete_from-All, first_holds, eq_iff,
}
use open_dating.Events.Model.{Event}
use open_dating.Connection.State.{
  Session, Attachment, Relay, Env, is_session, is_attached, put_session, restore_session,
}
use open_dating.Connection.Broadcast.{handle_do_broadcast}
use open_dating.Connection.Cache.{invalidate_relevant_caches}
use open_dating.Connection.Checks.{Step}
use open_dating.Connection.Auth.{accept_auth, note_payment, authenticate}
use open_dating.Connection.Socket.{
  Message, attachment_of, is_json, write_back, current_session, put_current, open_session, connect,
  web_socket_close, web_socket_error, hibernate, cleanup, alarm,
}
use open_dating.Connection.Stores.{note_payment-core, note_payment-session}
use open_dating.Connection.Sessions.{
  HoldsOf, HoldsAt, Holds, Holds-core, IsSound, broadcast-Holds, invalidate-Holds,
}

module _ (P : String → List String → Type 0) (env : Env) where
  pub accept_auth-IsSound :
      (id : String) (s : Session) (e : Event) (r : Relay)
      → P s.id (insert_or_ignore (λ p. p == e.pubkey) e.pubkey s.authenticated_pubkeys)
      → IsSound P env id s r
      → IsSound P env id (accept_auth env s e r).session (accept_auth env s e r).relay
  unfolding accept_auth authenticate
  accept_auth-IsSound id s e r holds ((same, hs), hr) =
      let same_session = note_payment-session env e (authenticate env e s) r in
      (
        (
          ap (λ t. t.id) same_session ∙ same,
          rw (ap (λ t. t.id) same_session, ap (λ t. t.authenticated_pubkeys) same_session) holds,
        ),
        Holds-core P (note_payment env e (authenticate env e s) r).1 r
            (note_payment-core env e (authenticate env e s) r) hr,
      )

  pub write_back-Holds :
      (id : String) (m : Message) (st : Step)
      → IsSound P env id st.session st.relay
      → Holds P (write_back m st)
  unfolding write_back put_session
  write_back-Holds id m st ((same, hs), (hr, ha)) = (
    upsert-All (HoldsOf P) (is_session st.session.id) st.session (λ _. st.session) st.relay.sessions
        hs (λ x k. hs) hr,
    elim (Bool-cases (is_json m)) [
      | inl h ↦ rw h (
          update-All (HoldsAt P) (is_attached st.session.id) (λ _. attachment_of st.session)
            st.relay.sockets (λ x k. hs) ha)
      | inr h ↦ rw h ha
    ],
  )

  pub current_session-IsSound :
      (a : Attachment) (r : Relay)
      → HoldsAt P a
      → Holds P r
      → IsSound P env a.session_id (current_session env a r).1 (put_current env a r)
  unfolding current_session restore_session put_session
  current_session-IsSound a r h (hs, ha) =
      elim (Option-cases (first (is_session a.session_id) r.sessions)) [
        | inl k ↦
            rw (k, current_session)
              (
                (refl, h),
                (
                  upsert-All (HoldsOf P) (is_session a.session_id) (restore_session env a r)
                      (λ _. restore_session env a r) r.sessions h (λ x l. h) hs,
                  ha,
                ),
              )
        | inr (s, k) ↦
            let same =
              (eq_iff s.id a.session_id).0 (first_holds (is_session a.session_id) r.sessions k) in
            let hold = first-All (HoldsOf P) (is_session a.session_id) r.sessions s hs k in
            rw (k, current_session)
              (
                (same, hold),
                (
                  upsert-All (HoldsOf P) (is_session s.id) s (λ _. s) r.sessions hold (λ x l. hold)
                      hs,
                  ha,
                ),
              )
      ]

  pub connect-Holds :
      (id host : String) (r : Relay) → P id [] → Holds P r → Holds P (connect env id host r).relay
  unfolding connect open_session put_session
  connect-Holds id host r h (hs, ha) =
      let s = open_session env id host in
      (
        upsert-All (HoldsOf P) (is_session id) s (λ _. s) r.sessions h (λ x k. h) hs,
        append-All (HoldsAt P) r.sockets (attachment_of s ∷ []) ha (h, tt),
      )

  pub handle_do_broadcast-Holds :
      (e : Event) (r : Relay) → Holds P r → Holds P (handle_do_broadcast env e r).1
  unfolding handle_do_broadcast
  handle_do_broadcast-Holds e r h =
      let marked = record r { processed_events = insert e.id env.now_ms r.processed_events } in
      elim (Bool-cases (exists (λ (p : String × ℕ). p.0 == e.id) r.processed_events)) [
        | inl k ↦ rw k h
        | inr k ↦ rw k (
            broadcast-Holds P env e (invalidate_relevant_caches env.platform e marked)
              (invalidate-Holds P env e marked h))
      ]

module _ (P : String → List String → Type 0) where
  pub close-Holds : (id : String) (r : Relay) → Holds P r → Holds P (web_socket_close id r)
  unfolding web_socket_close
  close-Holds id r (hs, ha) = (
    delete_from-All (HoldsOf P) (is_session id) r.sessions hs,
    delete_from-All (HoldsAt P) (is_attached id) r.sockets ha,
  )

  pub error-Holds : (id : String) (r : Relay) → Holds P r → Holds P (web_socket_error id r)
  unfolding web_socket_error
  error-Holds id r (hs, ha) = (delete_from-All (HoldsOf P) (is_session id) r.sessions hs, ha)

  pub hibernate-Holds : (r : Relay) → Holds P r → Holds P (hibernate r)
  unfolding hibernate
  hibernate-Holds r (hs, ha) = (tt, ha)

  pub alarm-Holds : (now_ms last : ℕ) (r : Relay) → Holds P r → Holds P (alarm now_ms last r).1
  unfolding alarm cleanup
  alarm-Holds now_ms last r (hs, ha) = elim (Bool-cases (eqb (length r.sockets) 0)) [
    | inl k ↦ rw k (tt, ha)
    | inr k ↦ rw k (hs, ha)
  ]
