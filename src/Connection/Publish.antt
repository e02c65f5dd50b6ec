-- ===== src/Connection/Publish.antt =====
-- `handleEvent` of src/durable-object.ts: the checks of an EVENT message in their order, the
-- extension, the policy for private messages, and the storage.
use Prim.Native.String
use open_dating.Prelude.{
  String, Bool, true, false, Option, none, some, List, [], ◌∷◌, ◌++◌, ◌&&◌, not, if◌then◌else◌,
  first, insert, ok, thrown,
}
use open_dating.Relay.RateLimit.{remove_token}
use open_dating.Events.Model.{Event, or_empty, verify_event_signature}
use open_dating.Events.Config.{holds_kind}
use open_dating.Events.Store.{Outcome}
use open_dating.Events.Process.{process_event}
use open_dating.Connection.State.{
  Session, Relay, Env, Stores, ok_frame, ExtensionResult, Handler, Sent,
}
use open_dating.Connection.Cache.{invalidate_relevant_caches}
use open_dating.Connection.Broadcast.{broadcast_to_local_sessions}
use open_dating.Connection.Checks.{
  Draft, Step, answer, refuse, event_of, check_identity, check_payment, check_settings,
  check_gift_wrap, first_pubkey, broadcast_produced,
}

-- `processEvent` on the object's database.
unfoldable pub save : Env → Event → Relay → Outcome × Relay
save env e r =
    let (o, event_db) = process_event env.config env.platform e r.stores.event_db in
    (o, record r { stores = record r.stores { event_db = event_db } })

abbrev pub mark_processed : Env → Event → Relay → Relay
mark_processed env e r = record r { processed_events = insert e.id env.now_ms r.processed_events }

-- An event that was saved: the answer, and the delivery to this object's clients and to the others.
unfoldable pub announce : Env → Session → Event → String → Relay → Step
announce env s e message r =
    let (sent, r') =
      broadcast_to_local_sessions env e
        (invalidate_relevant_caches env.platform e (mark_processed env e r)) in
    record {
      session = s;
      relay = r';
      sent = record { session_id = s.id; frame = ok_frame e.id true message } ∷ sent;
      remote = e ∷ [];
    }

unfoldable pub store_event : Env → Session → Event → Relay → Step
store_event env s e r =
    let (o, r') = save env e r in
    if o.success then announce env s e o.message r' else refuse s r' e o.message

-- The part behind the extension.
unfoldable pub finish : Env → Session → Event → Relay → Step
finish env s e r = elim (check_gift_wrap env s e r) [
  | some reason ↦ refuse s r e reason
  | none ↦ store_event env s e r
]

abbrev pub is_false : Option Bool → Bool
is_false none = false
is_false (some b) = not b

-- The answer for an event that an extension has taken.
abbrev pub taken : Session → Event → ExtensionResult → List Sent → Relay → Step
taken s e result sent r = record {
  session = s;
  relay = r;
  sent = sent ++ record { session_id = s.id; frame = ok_frame e.id true result.message } ∷ [];
  remote = result.publish;
}

abbrev pub followed : ExtensionResult → List Sent → Step → Step
followed result sent st = record st { sent = sent ++ st.sent; remote = result.publish ++ st.remote }

unfoldable pub after_extension : Env → Session → Event → ExtensionResult → Relay → Step
after_extension env s e result r =
    let (sent, r') = broadcast_produced env result.publish r in
    if result.handled && is_false result.store_normally
    then taken s e result sent r'
    else followed result sent (finish env s e r')

abbrev pub with_stores : Relay → Stores → Relay
with_stores r stores = record r { stores = stores }

unfoldable pub run_extension : Env → Session → Event → Relay → Handler → Step
run_extension env s e r h =
    let (result, stores) = h.handle_event (first_pubkey s.authenticated_pubkeys) e r.stores in
    elim result [
      | thrown error ↦ refuse s (with_stores r stores) e (String.◌++◌ "error: " error)
      | ok res ↦ after_extension env s e res (with_stores r stores)
    ]

-- `extensionRegistry.findHandler`, and what follows.
unfoldable pub dispatch_event : Env → Session → Event → Relay → Step
dispatch_event env s e r = elim (first (λ h. h.can_handle_event e) env.handlers) [
  | none ↦ finish env s e r
  | some h ↦ run_extension env s e r h
]

-- The checks behind the rate limit.
unfoldable pub check_event : Env → Session → Event → Relay → Step
check_event env s e r =
    if not (verify_event_signature env.platform e)
    then refuse s r e "invalid: signature verification failed"
    else let (paid, r') = check_payment env e r in
      if not paid
      then refuse s r' e (
          String.◌++◌ "blocked: payment required. Visit https://"
            (String.◌++◌ s.host " to pay for relay access."))
      else elim (check_settings env.config env.platform e) [
        | some message ↦ refuse s r' e message
        | none ↦ dispatch_event env s e r'
      ]

unfoldable pub check_rate : Env → Session → Event → Relay → Step
check_rate env s e r =
    if holds_kind e.kind env.config.excluded_rate_limit_kinds
    then check_event env s e r
    else let (passed, limiter) = remove_token env.now_ms s.pubkey_rate_limiter in
      let s' = record s { pubkey_rate_limiter = limiter } in
      if passed then check_event env s' e r else refuse s' r e "rate-limited: slow down there chief"

unfoldable pub publish_event : Env → Session → Event → Relay → Step
publish_event env s e r = elim (check_identity env.config s e) [
  | some message ↦ refuse s r e message
  | none ↦ check_rate env s e r
]

-- `handleEvent`, where none is a value that is no object.
unfoldable pub handle_event : Env → Session → Option Draft → Relay → Step
handle_event env s none r = answer s r (ok_frame "" false "invalid: event object required")
handle_event env s (some d) r = elim (event_of d) [
  | none ↦ answer s r (ok_frame (or_empty d.id) false "invalid: missing required fields")
  | some e ↦ publish_event env s e r
]
