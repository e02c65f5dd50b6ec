-- ===== src/Connection/Checks.antt =====
-- The checks that `handleEvent` of src/durable-object.ts makes of an EVENT message. An event's
-- fields are of the types of `NostrEvent` or missing.
use Prim.Native.String
use open_dating.Prelude.{
  ℕ, ◌-◌, ◌/◌, String, Bool, true, false, Option, none, some, List, [], ◌∷◌, ◌++◌, ◌==◌, ◌&&◌, not,
  eqb, ltb, if◌then◌else◌, exists, delete_from, order_by, take, length, lookup, insert, ok, thrown,
}
use open_dating.Json.{whole}
use open_dating.Services.DmPolicy.{
  Decision, allowed, blocked, not_matched, invalid_recipient, check_direct_message_policy,
}
use open_dating.Events.Model.{Event, Platform, tag_name, or_empty, find_tag}
use open_dating.Events.Config.{
  Config, is_pubkey_allowed, is_event_kind_allowed, is_tag_allowed, contains_blocked_content,
}
use open_dating.Connection.State.{Session, Relay, Env, Sent, Frame, ok_frame, PaymentEntry}
use open_dating.Connection.Broadcast.{broadcast_to_local_sessions}

-- An event as it is received; none is `undefined`. Values of other types, `null` among them, are left
-- out of the model.
pub record Draft : Type 0 where
  pub id : Option String
  pub pubkey : Option String
  pub created_at : Option ℕ
  pub kind : Option ℕ
  pub tags : Option (List (List String))
  pub content : Option String
  pub sig : Option String

abbrev true_text : Option String → Option String
true_text none = none
true_text (some s) = if s == "" then none else some s

abbrev true_number : Option ℕ → Option ℕ
true_number none = none
true_number (some n) = if eqb n 0 then none else some n

-- The event, where all required fields are there; a text must not be empty but for the content,
-- and the time must not be zero.
unfoldable pub event_of : Draft → Option Event
event_of d = elim (true_text d.id) [
  | none ↦ none
  | some id ↦ elim (true_text d.pubkey) [
    | none ↦ none
    | some pubkey ↦ elim (true_text d.sig) [
      | none ↦ none
      | some sig ↦ elim (true_number d.created_at) [
        | none ↦ none
        | some created_at ↦ elim d.kind [
          | none ↦ none
          | some kind ↦ elim d.tags [
            | none ↦ none
            | some tags ↦ elim d.content [
              | none ↦ none
              | some content ↦ some (record {
                id = id;
                pubkey = pubkey;
                created_at = created_at;
                kind = kind;
                tags = tags;
                content = content;
                sig = sig;
              })
            ]
          ]
        ]
      ]
    ]
  ]
]

-- What a message leaves: the session, the object, what is sent to clients, and the events that go
-- to the other objects.
pub record Step : Type 0 where
  pub session : Session
  pub relay : Relay
  pub sent : List Sent
  pub remote : List Event

-- An answer to the client of the session, with nothing else sent.
abbrev pub answer : Session → Relay → Frame → Step
answer s r frame = record {
  session = s;
  relay = r;
  sent = record { session_id = s.id; frame = frame } ∷ [];
  remote = [];
}

abbrev pub refuse : Session → Relay → Event → String → Step
refuse s r e message = answer s r (ok_frame e.id false message)

-- The checks of the connection's identity.
unfoldable pub check_identity : Config → Session → Event → Option String
unfolding exists
check_identity c s e =
    if eqb e.kind 22242
    then some "invalid: kind 22242 events are for authentication only"
    else if not c.auth_required
    then none
    else if eqb (length s.authenticated_pubkeys) 0
    then some "auth-required: authenticate to publish events"
    else if not (eqb e.kind 1059) && not (exists (λ p. p == e.pubkey) s.authenticated_pubkeys)
    then some "restricted: event pubkey does not match authenticated pubkey"
    else none

unfoldable pub first_blocked_tag : Config → List (List String) → Option (Option String)
first_blocked_tag c [] = none
first_blocked_tag c (tag ∷ tags) =
    if is_tag_allowed c (tag_name tag) then first_blocked_tag c tags else some (tag_name tag)

-- What a template text shows of `undefined`.
abbrev shown : Option String → String
shown none = "undefined"
shown (some s) = s

-- The checks of the settings.
unfoldable pub check_settings : Config → Platform → Event → Option String
check_settings c p e =
    if not (eqb e.kind 1059) && not (is_pubkey_allowed c e.pubkey)
    then some "blocked: pubkey not allowed"
    else if not (is_event_kind_allowed c e.kind)
    then some (
        String.◌++◌ "blocked: event kind "
          (String.◌++◌ (p.number_text (whole e.kind)) " not allowed"))
    else if contains_blocked_content c p e
    then some "blocked: content contains blocked phrases"
    else elim (first_blocked_tag c e.tags) [
      | none ↦ none
      | some tag ↦ some (String.◌++◌ "blocked: tag '" (String.◌++◌ (shown tag) "' not allowed"))
    ]

abbrev pub payment_cache_ttl : ℕ
payment_cache_ttl = 60000

-- `getCachedPaymentStatus`.
unfoldable pub get_cached_payment_status : ℕ → String → Relay → Option Bool × Relay
get_cached_payment_status now pubkey r = elim (lookup pubkey r.payment_cache) [
  | none ↦ (none, r)
  | some entry ↦
      if ltb (now - entry.timestamp) payment_cache_ttl then (some entry.has_paid, r) else (
        none,
        record r {
          payment_cache =
              delete_from (λ (p : String × PaymentEntry). p.0 == pubkey) r.payment_cache;
        },
      )
]

abbrev is_older_entry : String × PaymentEntry → String × PaymentEntry → Bool
is_older_entry (p, a) (q, b) = ltb a.timestamp b.timestamp

abbrev is_among : List (String × PaymentEntry) → String × PaymentEntry → Bool
is_among entries (p, a) = exists (λ (e : String × PaymentEntry). e.0 == p) entries

-- `setCachedPaymentStatus`: beyond a thousand entries the oldest fifth goes.
unfoldable pub set_cached_payment_status : ℕ → String → Bool → Relay → Relay
unfolding exists
set_cached_payment_status now pubkey paid r =
    let entries = insert pubkey (record { has_paid = paid; timestamp = now }) r.payment_cache in
    record r {
      payment_cache =
          if ltb 1000 (length entries)
          then delete_from (is_among (take (length entries / 5) (order_by is_older_entry entries)))
              entries
          else entries;
    }

-- `hasPaidForRelay`.
unfoldable pub has_paid_for_relay : Config → String → Relay → Bool
unfolding exists
has_paid_for_relay c pubkey r =
    if not c.pay_to_relay_enabled
    then true
    else exists (λ p. p == pubkey) r.stores.event_db.paid_pubkeys

abbrev pub look_up_payment : Env → String → Option Bool × Relay → Bool × Relay
look_up_payment env pubkey (some paid, r) = (paid, r)
look_up_payment env pubkey (none, r) =
    let paid = has_paid_for_relay env.config pubkey r in
    (paid, set_cached_payment_status env.now_ms pubkey paid r)

-- Whether the author of the event may publish as far as payments go.
unfoldable pub check_payment : Env → Event → Relay → Bool × Relay
check_payment env e r =
    if env.config.pay_to_relay_enabled && not (eqb e.kind 1059)
    then look_up_payment env e.pubkey (get_cached_payment_status env.now_ms e.pubkey r)
    else (true, r)

-- The events that an extension has made, one after the other.
unfoldable pub broadcast_produced : Env → List Event → Relay → List Sent × Relay
broadcast_produced env [] r = ([], r)
broadcast_produced env (e ∷ events) r =
    let (sent, r') = broadcast_to_local_sessions env e r in
    let (more, r'') = broadcast_produced env events r' in (sent ++ more, r'')

abbrev pub first_pubkey : List String → Option String
first_pubkey [] = none
first_pubkey (p ∷ pubkeys) = some p

abbrev pub reason_of : Decision → String
reason_of allowed = ""
reason_of blocked = "blocked: od:blocked"
reason_of not_matched = "restricted: od:not-matched"
reason_of invalid_recipient = "invalid: gift wrap recipient required"

-- The policy for private messages; none lets the event pass.
unfoldable pub check_gift_wrap : Env → Session → Event → Relay → Option String
check_gift_wrap env s e r =
    if not (eqb e.kind 1059)
    then none
    else elim (check_direct_message_policy env.world
        (or_empty (first_pubkey s.authenticated_pubkeys)) (find_tag "p" e.tags) r.stores.db) [
          | thrown error ↦ some "blocked: dm policy unavailable"
          | ok allowed ↦ none
          | ok blocked ↦ some (reason_of blocked)
          | ok not_matched ↦ some (reason_of not_matched)
          | ok invalid_recipient ↦ some (reason_of invalid_recipient)
        ]
