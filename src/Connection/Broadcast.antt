-- ===== src/Connection/Broadcast.antt =====
-- The delivery of events to open subscriptions: `broadcastToLocalSessions` and `handleDOBroadcast`
-- of src/durable-object.ts. A frame that a socket cannot take is lost, which changes nothing here.
use open_dating.Prelude.{
  ℕ, ◌+◌, String, Option, none, some, List, [], ◌∷◌, ◌++◌, ◌==◌, ltb, if◌then◌else◌, exists, first,
  delete_from, insert,
}
use open_dating.Relay.Filters.{Filter}
use open_dating.Events.Model.{Event}
use open_dating.Connection.State.{
  Session, Attachment, Relay, Env, Sent, event_frame, is_session, restore_session,
}
use open_dating.Connection.Matching.{matches_filters}
use open_dating.Connection.Cache.{invalidate_relevant_caches}

-- One frame for each subscription with a filter that the event meets.
unfoldable pub deliver : Event → String → List (String × List Filter) → List Sent
deliver e id [] = []
deliver e id ((subscription, filters) ∷ subscriptions) =
    let rest = deliver e id subscriptions in
    if matches_filters e filters
    then record { session_id = id; frame = event_frame subscription e } ∷ rest
    else rest

abbrev or_restored : Env → Attachment → Relay → Option Session → Session
or_restored env a r none = restore_session env a r
or_restored env a r (some s) = s

-- The session of a socket, made again where it is not in memory.
unfoldable pub session_of : Env → Attachment → Relay → Session
session_of env a r = or_restored env a r (first (is_session a.session_id) r.sessions)

abbrev pub keep_session : Env → Attachment → Relay → Relay
keep_session env a r =
    if exists (is_session a.session_id) r.sessions
    then r
    else record r { sessions = r.sessions ++ restore_session env a r ∷ [] }

unfoldable pub deliver_all : Env → Event → List Attachment → Relay → List Sent × Relay
unfolding exists session_of
deliver_all env e [] r = ([], r)
deliver_all env e (a ∷ sockets) r =
    let (sent, r') = deliver_all env e sockets (keep_session env a r) in
    (deliver e a.session_id (session_of env a r).subscriptions ++ sent, r')

-- `broadcastToLocalSessions`.
unfoldable pub broadcast_to_local_sessions : Env → Event → Relay → List Sent × Relay
broadcast_to_local_sessions env e r = deliver_all env e r.sockets r

-- `handleDOBroadcast`: an event from another object, which is delivered once.
unfoldable pub handle_do_broadcast : Env → Event → Relay → List Sent × Relay
unfolding exists
handle_do_broadcast env e r =
    if exists (λ (p : String × ℕ). p.0 == e.id) r.processed_events
    then ([], r)
    else let marked = record r { processed_events = insert e.id env.now_ms r.processed_events } in
      let (sent, r') =
        broadcast_to_local_sessions env e (invalidate_relevant_caches env.platform e marked) in
      (
        sent,
        record r' {
          processed_events =
              delete_from (λ (p : String × ℕ). ltb (p.1 + 300000) env.now_ms) r'.processed_events;
        },
      )
