-- ===== src/Connection/Answers.antt =====
-- Every message gets its answer: src/durable-object.ts.
use open_dating.Prelude.{
  ℕ, ◌+◌, ◌≡◌, refl, ap, ◌∙◌, String, Bool, true, List, [], ◌∷◌, ◌++◌, ◌==◌, ◌&&◌, changes, map,
  arith, eq_refl, insert, changes-append,
}
use open_dating.Relay.Filters.{Filter}
use open_dating.Events.Model.{Event}
use open_dating.Connection.State.{Session, Relay, Env, Sent, Attachment, Frame, ok_frame, eose}
use open_dating.Connection.Cache.{get_cached_or_query, invalidate_relevant_caches}
use open_dating.Connection.Broadcast.{
  deliver, session_of, keep_session, deliver_all, broadcast_to_local_sessions,
}
use open_dating.Connection.Checks.{Step, broadcast_produced, answer}
use open_dating.Connection.Publish.{mark_processed, announce}
use open_dating.Connection.Subscribe.{
  event_sent, without_subscription, save_subscriptions, open_subscription,
}
use open_dating.Connection.Auth.{authenticate, note_payment, accept_auth}
use open_dating.Connection.Socket.{Message, handle_message}
use open_dating.Connection.Stores.{note_payment-session}
use open_dating.Connection.Outcomes.{is_final, IsClosed}
use open_dating.Connection.Induction.{handle_message-closed}

-- What is counted of an answer: the sessions that it may go to.
abbrev is_answer : (String → Bool) → Sent → Bool
is_answer q s = is_final s.frame && q s.session_id

unfoldable pub answers : (String → Bool) → List Sent → ℕ
answers q sent = changes (is_answer q) sent

module _ (q : String → Bool) where
  answers-append : (xs ys : List Sent) → answers q (xs ++ ys) ≡ answers q xs + answers q ys
  unfolding answers
  answers-append = changes-append (is_answer q)

  answers-final :
      (s : Sent) (rest : List Sent)
      → is_answer q s ≡ true
      → answers q (s ∷ rest) ≡ 1 + answers q rest
  unfolding answers changes
  answers-final s rest h = rw h (omega arith)

  deliver-answers :
      (e : Event) (id : String) (subscriptions : List (String × List Filter))
      → answers q (deliver e id subscriptions) ≡ 0
  unfolding deliver answers changes
  deliver-answers e id [] = refl
  deliver-answers e id ((subscription, filters) ∷ subscriptions) =
      ground (arith, deliver-answers e id subscriptions)

  deliver_all-answers :
      (env : Env) (e : Event) (sockets : List Attachment) (r : Relay)
      → answers q (deliver_all env e sockets r).0 ≡ 0
  unfolding deliver_all
  deliver_all-answers env e [] r = unfold answers changes in refl
  deliver_all-answers env e (a ∷ sockets) r =
      answers-append (deliver e a.session_id (session_of env a r).subscriptions)
        (deliver_all env e sockets (keep_session env a r)).0
      ∙ omega (
        arith,
        deliver-answers e a.session_id (session_of env a r).subscriptions,
        deliver_all-answers env e sockets (keep_session env a r),
      )

  broadcast-answers :
      (env : Env) (e : Event) (r : Relay) → answers q (broadcast_to_local_sessions env e r).0 ≡ 0
  unfolding broadcast_to_local_sessions
  broadcast-answers env e r = deliver_all-answers env e r.sockets r

  broadcast_produced-answers :
      (env : Env) (events : List Event) (r : Relay)
      → answers q (broadcast_produced env events r).0 ≡ 0
  unfolding broadcast_produced
  broadcast_produced-answers env [] r = unfold answers changes in refl
  broadcast_produced-answers env (e ∷ events) r =
      let first_part = broadcast_to_local_sessions env e r in
      answers-append first_part.0 (broadcast_produced env events first_part.1).0
      ∙ omega (arith, broadcast-answers env e r, broadcast_produced-answers env events first_part.1)

-- One of the frames that are sent is an answer to the sessions that are counted.
abbrev IsAnswered : (String → Bool) → Step → Type 0
IsAnswered q st = answers q st.sent ≡ 1

answer-IsAnswered :
    (q : String → Bool) (s : Session) (r : Relay) (frame : Frame)
    → q s.id ≡ true
    → is_final frame ≡ true
    → IsAnswered q (answer s r frame)
unfolding answers changes
answer-IsAnswered q s r frame k h = rw (h, k) refl

module _ (q : String → Bool) (env : Env) where
  announce-IsAnswered :
      (s : Session) (mine : q s.id ≡ true) (e : Event) (message : String) (r : Relay)
      → IsAnswered q (announce env s e message r)
  unfolding announce
  announce-IsAnswered s mine e message r =
      answers-final q _ _ mine
      ∙ omega (
        arith,
        broadcast-answers q env e
            (invalidate_relevant_caches env.platform e (mark_processed env e r)),
      )

  events-answers :
      (id subscription : String) (events : List Event)
      → answers q (map (event_sent id subscription) events) ≡ 0
  unfolding answers changes
  events-answers id subscription [] = refl
  events-answers id subscription (e ∷ events) = events-answers id subscription events

  open_subscription-IsAnswered :
      (s : Session)
      → q s.id ≡ true
      → (subscription : String) (filters : List Filter) (r : Relay)
      → IsAnswered q (open_subscription env s subscription filters r)
  unfolding open_subscription
  open_subscription-IsAnswered s mine subscription filters r =
      let opened = record s { subscriptions = insert subscription filters s.subscriptions } in
      let events = (get_cached_or_query env filters (save_subscriptions opened r)).0 in
      answers-append q (map (event_sent s.id subscription) events) _
      ∙ omega (
        arith,
        events-answers s.id subscription events,
        answer-IsAnswered q s r (eose subscription) mine refl,
      )

  accept_auth-IsAnswered :
      (s : Session) → q s.id ≡ true → (e : Event) (r : Relay) → IsAnswered q (accept_auth env s e r)
  unfolding accept_auth authenticate
  accept_auth-IsAnswered s mine e r =
      let noted = note_payment env e (authenticate env e s) r in
      answer-IsAnswered q noted.0 noted.1 (ok_frame e.id true "")
        (rw (ap (λ t. t.id) (note_payment-session env e (authenticate env e s) r)) mine) refl

  counted-IsClosed : (m : Message) → IsClosed env m (λ s r. q s.id ≡ true) (IsAnswered q)
  counted-IsClosed m = record {
    limited = λ s r limiter mine. mine;
    requested = λ s r limiter mine. mine;
    paid = λ s r e mine. mine;
    ran = λ s r stores mine. mine;
    produced = λ s r events mine. mine;
    answered = λ s r frame mine final. answer-IsAnswered q s r frame mine final;
    announced = λ s r e message mine. announce-IsAnswered s mine e message r;
    took = λ s e r result mine.
        answers-append q (broadcast_produced env result.publish r).0 _
        ∙ omega (
          arith,
          broadcast_produced-answers q env result.publish r,
          answer-IsAnswered q s r (ok_frame e.id true result.message) mine refl,
        );
    preceded = λ r result st one.
        answers-append q (broadcast_produced env result.publish r).0 st.sent
        ∙ omega (arith, broadcast_produced-answers q env result.publish r, one);
    opened = λ s r id filters mine. open_subscription-IsAnswered s mine id filters r;
    shut = λ s r id mine.
        answer-IsAnswered q (without_subscription id s)
          (save_subscriptions (without_subscription id s) r) _ mine refl;
    authenticated = λ s r d e which whole valid mine. accept_auth-IsAnswered s mine e r;
  }

-- Every message, of any form and in any state, has exactly one answer (OK, NOTICE, EOSE or CLOSED)
-- among all the frames that its handling sends, and the answer goes to the client that sent it.
pub handle_message-answers :
    (env : Env) (s : Session) (m : Message) (r : Relay)
    → (answers (λ _. true) (handle_message env s m r).sent ≡ 1)
      × (answers (λ id. id == s.id) (handle_message env s m r).sent ≡ 1)
handle_message-answers env s m r = (
  handle_message-closed env m _ _ (counted-IsClosed (λ _. true) env m) s r refl,
  handle_message-closed env m _ _ (counted-IsClosed (λ id. id == s.id) env m) s r (eq_refl s.id),
)
