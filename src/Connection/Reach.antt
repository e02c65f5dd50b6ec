-- ===== src/Connection/Reach.antt =====
-- The object of src/durable-object.ts as a state machine: its sockets come and go, messages and
-- events of other objects arrive in any order, the object is evicted and made again, and the
-- databases change under it.
use open_dating.Prelude.{ℕ, ◌≡◌, String, true, List, [], ◌∷◌, none, some, eqb, All}
use mathlib.Core.List.{Memᴰ}
use open_dating.Events.Model.{Event, Platform, verify_event_signature}
use open_dating.Connection.State.{Attachment, Relay, Env, Stores}
use open_dating.Connection.Broadcast.{handle_do_broadcast}
use open_dating.Connection.Checks.{Draft, event_of}
use open_dating.Connection.Publish.{with_stores}
use open_dating.Connection.Socket.{
  Message, event_message, req_message, close_message, auth_message, other_message, no_array,
  no_json, web_socket_message, connect, web_socket_close, web_socket_error, hibernate, alarm,
}

-- The AUTH messages that have come, each with the session it came on.
abbrev pub Log : Type 0
Log = List (String × Draft)

abbrev pub logged : String → Message → Log → Log
logged id (auth_message (some d)) log = (id, d) ∷ log
logged id (auth_message none) log = log
logged id (event_message d) log = log
logged id (req_message sub filters) log = log
logged id (close_message sub) log = log
logged id (other_message name) log = log
logged id no_array log = log
logged id no_json log = log

pub data Moves (p : Platform) (log : Log) (r : Relay) (log' : Log) (r' : Relay) : Type 0 where
  connects :
      (env : Env) (id host : String)
      → log' ≡ log
      → r' ≡ (connect env id host r).relay
      → Moves p log r log' r'
  receives :
      (env : Env) (a : Attachment) (m : Message)
      → env.platform ≡ p
      → Memᴰ a r.sockets
      → log' ≡ logged a.session_id m log
      → r' ≡ (web_socket_message env a m r).relay
      → Moves p log r log' r'
  closes : (id : String) → log' ≡ log → r' ≡ web_socket_close id r → Moves p log r log' r'
  fails : (id : String) → log' ≡ log → r' ≡ web_socket_error id r → Moves p log r log' r'
  hears :
      (env : Env) (e : Event)
      → log' ≡ log
      → r' ≡ (handle_do_broadcast env e r).1
      → Moves p log r log' r'
  sleeps : log' ≡ log → r' ≡ hibernate r → Moves p log r log' r'
  rings : (now_ms last : ℕ) → log' ≡ log → r' ≡ (alarm now_ms last r).1 → Moves p log r log' r'
  -- Other objects and the housekeeper write to the databases.
  writes : (stores : Stores) → log' ≡ log → r' ≡ with_stores r stores → Moves p log r log' r'

abbrev pub new_relay : Stores → Relay
new_relay stores = record {
  sessions = [];
  sockets = [];
  stored_subscriptions = [];
  processed_events = [];
  query_cache = [];
  query_cache_index = [];
  payment_cache = [];
  global_cache = [];
  stores = stores;
}

pub data Reach (p : Platform) : Log → Relay → Type 0 where
  starts : (stores : Stores) → Reach p [] (new_relay stores)
  moves : {log log' : Log} {r r' : Relay} → Reach p log r → Moves p log r log' r' → Reach p log' r'

-- A pubkey with an AUTH message that came on this session: a complete event of kind 22242 that the
-- pubkey has signed.
pub record IsVouched (p : Platform) (log : Log) (id pubkey : String) : Type 0 where
  pub draft : Draft
  pub came : Memᴰ (id, draft) log
  pub event : Event
  pub whole : event_of draft ≡ some event
  pub author : event.pubkey ≡ pubkey
  pub kind : eqb event.kind 22242 ≡ true
  pub signed : verify_event_signature p event ≡ true

abbrev pub AreVouched : Platform → Log → String → List String → Type 0
AreVouched p log id pubkeys = All (IsVouched p log id) pubkeys
