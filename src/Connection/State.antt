-- ===== src/Connection/State.antt =====
-- The state of `RelayWebSocket` of src/durable-object.ts: sessions, the sockets with their
-- attachments, the stored subscriptions, the caches, and the database behind them.
use open_dating.Prelude.{
  ℕ, String, Bool, Option, none, some, List, [], ◌==◌, first, upsert, Result, if◌then◌else◌,
}
use open_dating.Store.{Db}
use open_dating.World.{World}
use open_dating.Relay.Filters.{Filter}
use open_dating.Relay.RateLimit.{RateLimiter, new_limiter}
use open_dating.Events.Model.{Event, Platform}
use open_dating.Events.Config.{Config}
use open_dating.Events.Store.{EventDb}

-- `WebSocketSession`, without its socket, which has the id of the session.
pub record Session : Type 0 where
  pub id : String
  pub subscriptions : List (String × List Filter)
  pub pubkey_rate_limiter : RateLimiter
  pub req_rate_limiter : RateLimiter
  pub host : String
  pub challenge : Option String
  pub authenticated_pubkeys : List String
  pub has_paid : Option Bool

-- `SessionAttachment`, which a socket keeps when the object is evicted from memory.
pub record Attachment : Type 0 where
  pub session_id : String
  pub host : String
  pub has_paid : Option Bool
  pub authenticated_pubkeys : List String
  pub challenge : Option String

-- `CacheEntry`.
pub record CacheEntry : Type 0 where
  pub result : List Event
  pub timestamp : ℕ
  pub access_count : ℕ
  pub last_accessed : ℕ

-- `PaymentCacheEntry`.
pub record PaymentEntry : Type 0 where
  pub has_paid : Bool
  pub timestamp : ℕ

-- An entry of the platform's cache, with the value of `X-Cache-Time`.
pub record GlobalEntry : Type 0 where
  pub result : List Event
  pub cache_time : ℕ

-- The two databases of the services and of the events.
pub record Stores : Type 0 where
  pub event_db : EventDb
  pub db : Db

pub record Relay : Type 0 where
  pub sessions : List Session
  -- `state.getWebSockets()`, as their attachments.
  pub sockets : List Attachment
  -- What `state.storage` holds under `subs:` and the id of a session.
  pub stored_subscriptions : List (String × List (String × List Filter))
  pub processed_events : List (String × ℕ)
  pub query_cache : List (String × CacheEntry)
  -- The entries of `queryCacheIndex`, an index key with a cache key.
  pub query_cache_index : List (String × String)
  pub payment_cache : List (String × PaymentEntry)
  -- The cache of the platform, under the hashes of the keys.
  pub global_cache : List (String × GlobalEntry)
  pub stores : Stores

-- What is sent to a client.
pub data Frame : Type 0 where
  ok_frame : String → Bool → String → Frame
  notice : String → Frame
  eose : String → Frame
  closed : String → String → Frame
  event_frame : String → Event → Frame
  auth_frame : String → Frame

-- A frame with the session that it is sent to.
pub record Sent : Type 0 where
  pub session_id : String
  pub frame : Frame

-- `ExtensionResult`.
pub record ExtensionResult : Type 0 where
  pub handled : Bool
  pub store_normally : Option Bool
  pub message : String
  pub publish : List Event

-- An extension of the relay, with `handleEvent` at the authenticated pubkey of the connection.
pub record Handler : Type 0 where
  pub can_handle_event : Event → Bool
  pub handle_event : Option String → Event → Stores → Result ExtensionResult × Stores

-- What a step of the object reads from outside.
pub record Env : Type 0 where
  pub config : Config
  pub platform : Platform
  pub world : World
  -- `Date.now()`, which is read once for a message.
  pub now_ms : ℕ
  -- What `generateAuthChallenge` draws.
  pub next_challenge : String
  pub handlers : List Handler
  -- `queryEvents`.
  pub query_events : List Filter → EventDb → List Event

abbrev pub is_session : String → Session → Bool
is_session id s = s.id == id

abbrev pub is_attached : String → Attachment → Bool
is_attached id a = a.session_id == id

-- 10 events and 50 requests in a minute.
abbrev pub pubkey_limiter : ℕ → RateLimiter
pubkey_limiter now = new_limiter 10 59999 10 now

abbrev pub req_limiter : ℕ → RateLimiter
req_limiter now = new_limiter 50 59999 50 now

-- `sessions.set(session.id, session)`.
unfoldable pub put_session : Session → List Session → List Session
put_session s sessions = upsert (is_session s.id) s (λ _. s) sessions

abbrev pub subscriptions_of :
    Option (String × List (String × List Filter)) → List (String × List Filter)
subscriptions_of none = []
subscriptions_of (some (id, subscriptions)) = subscriptions

-- `loadSubscriptions`.
unfoldable pub load_subscriptions : String → Relay → List (String × List Filter)
load_subscriptions id r =
    subscriptions_of
      (first (λ (s : String × List (String × List Filter)). s.0 == id) r.stored_subscriptions)

abbrev pub or_challenge : Env → Option String → Option String
or_challenge env (some c) = some c
or_challenge env none = if env.config.auth_required then some env.next_challenge else none

-- The session that is made again from an attachment.
unfoldable pub restore_session : Env → Attachment → Relay → Session
restore_session env a r = record {
  id = a.session_id;
  subscriptions = load_subscriptions a.session_id r;
  pubkey_rate_limiter = pubkey_limiter env.now_ms;
  req_rate_limiter = req_limiter env.now_ms;
  host = a.host;
  challenge = or_challenge env a.challenge;
  authenticated_pubkeys = a.authenticated_pubkeys;
  has_paid = a.has_paid;
}
