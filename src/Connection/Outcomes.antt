-- ===== src/Connection/Outcomes.antt =====
-- What the handlers of src/durable-object.ts make of a message: the results that `handleMessage` is
-- put together from, and the states between them.
use open_dating.Prelude.{◌≡◌, String, Bool, true, false, none, some, List}
use open_dating.Relay.RateLimit.{RateLimiter}
use open_dating.Relay.Filters.{Filter}
use open_dating.Events.Model.{Event}
use open_dating.Connection.State.{
  Session, Relay, Env, Stores, Frame, ok_frame, notice, eose, closed, event_frame, auth_frame,
  ExtensionResult,
}
use open_dating.Connection.Checks.{Draft, Step, event_of, check_payment, broadcast_produced, answer}
use open_dating.Connection.Publish.{taken, followed, with_stores, announce}
use open_dating.Connection.Subscribe.{without_subscription, save_subscriptions, open_subscription}
use open_dating.Connection.Auth.{check_auth, accept_auth}
use open_dating.Connection.Socket.{Message, auth_message}

-- The frames that end the handling of a message.
abbrev pub is_final : Frame → Bool
is_final (ok_frame id status message) = true
is_final (notice message) = true
is_final (eose subscription) = true
is_final (closed subscription message) = true
is_final (event_frame subscription e) = false
is_final (auth_frame challenge) = false

-- What the states (`Good`) and the results (`Q`) have throughout the handling of a message.
pub record IsClosed (env : Env) (m : Message) (Good : Session → Relay → Type 0) (Q : Step → Type 0)
    : Type 0 where
  pub limited :
      (s : Session) (r : Relay) (limiter : RateLimiter)
      → Good s r
      → Good (record s { pubkey_rate_limiter = limiter }) r
  pub requested :
      (s : Session) (r : Relay) (limiter : RateLimiter)
      → Good s r
      → Good (record s { req_rate_limiter = limiter }) r
  pub paid : (s : Session) (r : Relay) (e : Event) → Good s r → Good s (check_payment env e r).1
  pub ran : (s : Session) (r : Relay) (stores : Stores) → Good s r → Good s (with_stores r stores)
  pub produced :
      (s : Session) (r : Relay) (events : List Event)
      → Good s r
      → Good s (broadcast_produced env events r).1
  pub answered :
      (s : Session) (r : Relay) (frame : Frame)
      → Good s r
      → is_final frame ≡ true
      → Q (answer s r frame)
  pub announced :
      (s : Session) (r : Relay) (e : Event) (message : String)
      → Good s r
      → Q (announce env s e message r)
  pub took :
      (s : Session) (e : Event) (r : Relay) (result : ExtensionResult)
      → Good s r
      → Q (
          taken s e result
            (broadcast_produced env result.publish r).0
            (broadcast_produced env result.publish r).1)
  pub preceded :
      (r : Relay) (result : ExtensionResult) (st : Step)
      → Q st
      → Q (followed result (broadcast_produced env result.publish r).0 st)
  pub opened :
      (s : Session) (r : Relay) (subscription : String) (filters : List Filter)
      → Good s r
      → Q (open_subscription env s subscription filters r)
  pub shut :
      (s : Session) (r : Relay) (id : String)
      → Good s r
      → Q (
          answer
            (without_subscription id s)
            (save_subscriptions (without_subscription id s) r)
            (closed id "Subscription closed"))
  pub authenticated :
      (s : Session) (r : Relay) (d : Draft) (e : Event)
      → m ≡ auth_message (some d)
      → event_of d ≡ some e
      → check_auth env s e ≡ none
      → Good s r
      → Q (accept_auth env s e r)
