-- ===== src/Connection/Socket.antt =====
-- The life of a connection: the handlers of the platform's WebSocket API in src/durable-object.ts,
-- and what happens when the object is evicted from memory.
use Prim.Native.String
use open_dating.Prelude.{
  ℕ, ◌/◌, String, Bool, true, false, Option, none, some, List, [], ◌∷◌, ◌++◌, ◌==◌, ◌&&◌, not, eqb,
  if◌then◌else◌, exists, first, delete_from, update, length,
}
use open_dating.Store.{Db}
use open_dating.Housekeeper.{run_housekeeper_tick}
use open_dating.Relay.Filters.{Filter}
use open_dating.Events.Model.{Event}
use open_dating.Connection.State.{
  Session, Attachment, Relay, Env, Sent, notice, auth_frame, is_session, is_attached, put_session,
  restore_session, pubkey_limiter, req_limiter,
}
use open_dating.Connection.Checks.{Draft, Step, answer}
use open_dating.Connection.Publish.{handle_event}
use open_dating.Connection.Subscribe.{handle_req, handle_close_subscription}
use open_dating.Connection.Auth.{handle_auth}

-- A parsed message; a text that is no JSON, and a value that is no array, have a constructor each.
pub data Message : Type 0 where
  event_message : Option Draft → Message
  req_message : Option String → List (Option Filter) → Message
  close_message : Option String → Message
  auth_message : Option Draft → Message
  other_message : String → Message
  no_array : Message
  no_json : Message

-- `handleMessage`, with the answer of `webSocketMessage` to a text that is no JSON.
unfoldable pub handle_message : Env → Session → Message → Relay → Step
handle_message env s (event_message d) r = handle_event env s d r
handle_message env s (req_message id filters) r = handle_req env s id filters r
handle_message env s (close_message id) r = handle_close_subscription s id r
handle_message env s (auth_message d) r = handle_auth env s d r
handle_message env s (other_message name) r =
    answer s r (notice (String.◌++◌ "Unknown message type: " name))
handle_message env s no_array r = answer s r (notice "Invalid message format: expected JSON array")
handle_message env s no_json r = answer s r (notice "Invalid JSON format")

-- The attachment that is written behind a message.
abbrev pub attachment_of : Session → Attachment
attachment_of s = record {
  session_id = s.id;
  host = s.host;
  has_paid = s.has_paid;
  authenticated_pubkeys = s.authenticated_pubkeys;
  challenge = s.challenge;
}

-- A text that is no JSON leaves the attachment as it is.
abbrev pub is_json : Message → Bool
is_json no_json = false
is_json (event_message d) = true
is_json (req_message id filters) = true
is_json (close_message id) = true
is_json (auth_message d) = true
is_json (other_message name) = true
is_json no_array = true

unfoldable pub write_back : Message → Step → Relay
write_back m st = record st.relay {
  sessions = put_session st.session st.relay.sessions;
  sockets =
      if is_json m
      then update (is_attached st.session.id) (λ _. attachment_of st.session) st.relay.sockets
      else st.relay.sockets;
}

-- The challenge that a session made again is sent, if nobody is authenticated.
abbrev greeting : Env → Session → List Sent
greeting env s = elim s.challenge [
  | none ↦ []
  | some challenge ↦
      if env.config.auth_required && eqb (length s.authenticated_pubkeys) 0
      then record { session_id = s.id; frame = auth_frame challenge } ∷ []
      else []
]

-- What a message is handled in: the session in memory, or the one made again.
unfoldable pub current_session : Env → Attachment → Relay → List Sent × Session
current_session env a r = elim (first (is_session a.session_id) r.sessions) [
  | some s ↦ ([], s)
  | none ↦ (greeting env (restore_session env a r), restore_session env a r)
]

abbrev pub put_current : Env → Attachment → Relay → Relay
put_current env a r = record r { sessions = put_session (current_session env a r).1 r.sessions }

pub record Turn : Type 0 where
  pub relay : Relay
  pub sent : List Sent
  pub remote : List Event

-- `webSocketMessage` on the socket with this attachment.
unfoldable pub web_socket_message : Env → Attachment → Message → Relay → Turn
unfolding current_session
web_socket_message env a m r =
    let (sent, s) = current_session env a r in
    let st = handle_message env s m (put_current env a r) in
    record { relay = write_back m st; sent = sent ++ st.sent; remote = st.remote }

-- The session of a new connection.
unfoldable pub open_session : Env → String → String → Session
open_session env id host = record {
  id = id;
  subscriptions = [];
  pubkey_rate_limiter = pubkey_limiter env.now_ms;
  req_rate_limiter = req_limiter env.now_ms;
  host = host;
  challenge = if env.config.auth_required then some env.next_challenge else none;
  authenticated_pubkeys = [];
  has_paid = none;
}

-- The upgrade of `fetch`, under a new session id.
unfoldable pub connect : Env → String → String → Relay → Turn
connect env id host r =
    let s = open_session env id host in
    record {
      relay = record r {
        sessions = put_session s r.sessions;
        sockets = r.sockets ++ attachment_of s ∷ [];
      };
      sent = greeting env s;
      remote = [];
    }

-- `webSocketClose`; the platform drops the socket.
unfoldable pub web_socket_close : String → Relay → Relay
web_socket_close id r = record r {
  sessions = delete_from (is_session id) r.sessions;
  sockets = delete_from (is_attached id) r.sockets;
  stored_subscriptions =
      delete_from (λ (s : String × List (String × List Filter)). s.0 == id) r.stored_subscriptions;
}

-- `webSocketError`.
unfoldable pub web_socket_error : String → Relay → Relay
web_socket_error id r = record r { sessions = delete_from (is_session id) r.sessions }

-- The eviction from memory: sockets, storage and databases stay.
unfoldable pub hibernate : Relay → Relay
hibernate r = record r {
  sessions = [];
  processed_events = [];
  query_cache = [];
  query_cache_index = [];
  payment_cache = [];
}

-- `cleanup` of an alarm without connections, with `cleanupOrphanedSubscriptions`.
unfoldable pub cleanup : Relay → Relay
unfolding exists
cleanup r = record r {
  sessions = [];
  processed_events = [];
  query_cache = [];
  query_cache_index = [];
  payment_cache = [];
  stored_subscriptions =
      delete_from
        (λ (s : String × List (String × List Filter)). not (exists (is_attached s.0) r.sockets))
        r.stored_subscriptions;
}

abbrev maintained : Db → Relay → Relay
maintained db r = record r { stores = record r.stores { db = db } }

-- `alarm` at a time in milliseconds, with the tick of the housekeeper, whose last time it is given
-- and passes on.
unfoldable pub alarm : ℕ → ℕ → Relay → ℕ × Relay
alarm now_ms last_maintenance_at r =
    let (counts, h) =
      run_housekeeper_tick now_ms (now_ms / 1000)
        (record { last_maintenance_at = last_maintenance_at; db = r.stores.db }) in
    let r' = maintained h.db r in
    (h.last_maintenance_at, if eqb (length r'.sockets) 0 then cleanup r' else r')
