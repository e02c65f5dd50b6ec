-- ===== src/Tests/Connected.antt =====
-- Examples of connections: src/durable-object.ts.
use open_dating.Prelude.{
  String, true, none, some, [], ◌∷◌, ◌≡◌, ◌⊎◌, inl, refl, ◌==◌, exists, first, All, arith,
}
use mathlib.Core.List.{Memᴰ}
use mathlib.Core.List.Memᴰ.{head}
use open_dating.Crypto.Hex.{hex_to_bytes}
use open_dating.Events.Model.{Event, find_tag, verify_event_signature}
use open_dating.Events.Config.{default_config}
use open_dating.Events.Process.{empty_event_db}
use open_dating.Connection.State.{
  Session, Attachment, Relay, Env, Stores, load_subscriptions, restore_session, or_challenge,
  pubkey_limiter, req_limiter,
}
use open_dating.Connection.Checks.{Draft, event_of, refuse}
use open_dating.Connection.Publish.{publish_event}
use open_dating.Connection.Auth.{
  check_auth, check_challenge, check_relay, host_of, strip_port, handle_auth,
}
use open_dating.Connection.Broadcast.{handle_do_broadcast}
use open_dating.Connection.Socket.{
  Message, auth_message, close_message, handle_message, attachment_of, open_session, connect,
  hibernate, web_socket_message,
}
use open_dating.Connection.Answers.{answers, handle_message-answers}
use open_dating.Connection.Admission.{IsAdmitted, Decides, publish_event-stores}
use open_dating.Connection.Replay.{
  IsVouching, Authenticates, handle_auth-Authenticates, handle_auth_once,
}
use open_dating.Connection.Reach.{Reach, starts, moves, connects, receives, AreVouched, new_relay}
use open_dating.Connection.Vouching.{Reach-AreVouched}
use open_dating.Connection.Revival.{handle_message-restore_session}
use open_dating.Connection.Relaying.{handle_do_broadcast_once, hear_all}
use open_dating.Connection.Subscribe.{handle_close_subscription}
use open_dating.Connection.Blocks.{with_block, publish_event-create_block}
use open_dating.Store.{empty_db}
use open_dating.Tests.Fixtures.{alice, bob, world}
use open_dating.Tests.Blocking.{block_request, block_request-IsAimed}
use open_dating.Tests.Stored.{platform, event}

abbrev pub env : Env
env = record {
  config = default_config;
  platform = platform;
  world = world;
  now_ms = 10000;
  next_challenge = "second";
  handlers = [];
  query_events = λ filters db. [];
}

abbrev pub stores : Stores
stores = record { event_db = empty_event_db; db = empty_db }

abbrev pub session : Session
session = record {
  id = "session";
  subscriptions = [];
  pubkey_rate_limiter = pubkey_limiter 0;
  req_rate_limiter = req_limiter 0;
  host = "relay";
  challenge = some "first";
  authenticated_pubkeys = [];
  has_paid = none;
}

-- The answer of Alice to the challenge.
abbrev proof : Draft
proof = record {
  id = some "6";
  pubkey = some alice;
  created_at = some 10;
  kind = some 22242;
  tags = some (("challenge" ∷ "first" ∷ []) ∷ ("relay" ∷ "relay" ∷ []) ∷ []);
  content = some "";
  sig = some "00";
}

abbrev proof_event : Event
proof_event = record {
  id = "6";
  pubkey = alice;
  created_at = 10;
  kind = 22242;
  tags = ("challenge" ∷ "first" ∷ []) ∷ ("relay" ∷ "relay" ∷ []) ∷ [];
  content = "";
  sig = "00";
}

handle_message-answers_example :
    (answers
        (λ _. true)
        (handle_message env session (auth_message (some proof)) (new_relay stores)).sent
      ≡ 1)
    × (answers
          (λ id. id == "session")
          (handle_message env session (auth_message (some proof)) (new_relay stores)).sent
        ≡ 1)
handle_message-answers_example =
    handle_message-answers env session (auth_message (some proof)) (new_relay stores)

proof_whole : event_of proof ≡ some proof_event
unfolding event_of
proof_whole = refl

proof_valid : check_auth env session proof_event ≡ none
unfolding check_auth verify_event_signature hex_to_bytes check_challenge check_relay host_of
    strip_port find_tag
proof_valid = refl

abbrev note : Event
note = event "7" alice 10 1 []

no_handler : first (λ h. h.can_handle_event note) env.handlers ≡ none
unfolding first
no_handler = refl

publish_event-stores_example :
    Decides
      (IsAdmitted env)
      env
      session
      note
      (new_relay stores)
      (publish_event env session note (new_relay stores))
publish_event-stores_example = publish_event-stores env note no_handler session (new_relay stores)

-- A gift wrap from Alice to Bob.
abbrev gift_wrap : Event
gift_wrap = event "8" alice 10 1059 (("p" ∷ bob ∷ []) ∷ [])

abbrev alice_session : Session
alice_session = record session { authenticated_pubkeys = alice ∷ [] }

no_gift_wrap_handler : first (λ h. h.can_handle_event gift_wrap) env.handlers ≡ none
unfolding first
no_gift_wrap_handler = refl

publish_event-create_block_example :
    (publish_event env alice_session gift_wrap
      (with_block env alice block_request alice (new_relay stores))).relay.stores
    ≡ (with_block env alice block_request alice (new_relay stores)).stores
publish_event-create_block_example =
    publish_event-create_block env block_request alice bob alice bob gift_wrap no_gift_wrap_handler
      block_request-IsAimed refl alice_session (new_relay stores)
      (inl (refl, unfold find_tag in refl))

handle_auth-Authenticates_example :
    ((handle_auth env session (some proof) (new_relay stores)).session ≡ session)
    ⊎ ((e : Event) × (event_of proof ≡ some e)
        × IsVouching env session e
        × Authenticates env session e
            (handle_auth env session (some proof) (new_relay stores)).session)
handle_auth-Authenticates_example = handle_auth-Authenticates env session proof (new_relay stores)

handle_auth_once_example :
    (message : String) × (handle_auth env
        (handle_auth env session (some proof) (new_relay stores)).session
        (some proof)
        (new_relay stores)
      ≡ refuse
          (handle_auth env session (some proof) (new_relay stores)).session
          (new_relay stores)
          proof_event
          message)
handle_auth_once_example =
    handle_auth_once env env session proof proof_event (new_relay stores) (new_relay stores)
      proof_whole proof_valid (unfold find_tag in refl)

-- A connection on which the proof comes.
abbrev first_env : Env
first_env = record env { next_challenge = "first" }

abbrev connected : Relay
connected = (connect first_env "session" "relay" (new_relay stores)).relay

abbrev attachment : Attachment
attachment = attachment_of (open_session first_env "session" "relay")

is_connected : Memᴰ attachment connected.sockets
unfolding connect
is_connected = head refl

abbrev spoken : Relay
spoken = (web_socket_message env attachment (auth_message (some proof)) connected).relay

spoken-Reach : Reach platform (("session", proof) ∷ []) spoken
unfolding open_session
spoken-Reach =
    moves (moves (starts stores) (connects first_env "session" "relay" refl refl))
      (receives env attachment (auth_message (some proof)) refl is_connected refl refl)

Reach-AreVouched_example :
    All
      (λ s. AreVouched platform (("session", proof) ∷ []) s.id s.authenticated_pubkeys)
      spoken.sessions
    × All
        (λ a. AreVouched platform (("session", proof) ∷ []) a.session_id a.authenticated_pubkeys)
        spoken.sockets
Reach-AreVouched_example = Reach-AreVouched platform (("session", proof) ∷ []) spoken spoken-Reach

-- A session with a subscription, which is stored.
abbrev subscribed : Session
subscribed = record session { subscriptions = ("sub", []) ∷ [] }

abbrev with_subscription : Relay
with_subscription = record (new_relay stores) {
  stored_subscriptions = ("session", subscribed.subscriptions) ∷ [];
}

all_stored : load_subscriptions "session" with_subscription ≡ subscribed.subscriptions
unfolding load_subscriptions first
all_stored = refl

abbrev later : Env
later = record env { now_ms = 20000 }

abbrev close : Message
close = close_message (some "sub")

challenge_kept :
    (handle_message env subscribed close with_subscription).session.challenge
    ≡ or_challenge later (handle_message env subscribed close with_subscription).session.challenge
unfolding handle_message handle_close_subscription exists
challenge_kept = refl

handle_message-restore_session_example :
    restore_session later
      (attachment_of (handle_message env subscribed close with_subscription).session)
      (hibernate (handle_message env subscribed close with_subscription).relay)
    ≡ record (handle_message env subscribed close with_subscription).session {
      pubkey_rate_limiter = pubkey_limiter 20000;
      req_rate_limiter = req_limiter 20000;
    }
handle_message-restore_session_example =
    handle_message-restore_session env later close subscribed with_subscription all_stored
      challenge_kept

handle_do_broadcast_once_example :
    handle_do_broadcast later note
      (hear_all ((later, gift_wrap) ∷ []) (handle_do_broadcast env note (new_relay stores)).1)
    ≡ ([], hear_all ((later, gift_wrap) ∷ []) (handle_do_broadcast env note (new_relay stores)).1)
handle_do_broadcast_once_example =
    handle_do_broadcast_once env later note ((later, gift_wrap) ∷ []) (new_relay stores)
      (unfold exists in refl) (omega arith, tt)
