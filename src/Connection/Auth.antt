-- ===== src/Connection/Auth.antt =====
-- `handleAuth` of src/durable-object.ts: NIP-42 authentication.
use Prim.Native.Char.{code}
use Prim.Native.String
use open_dating.Prelude.{
  ℕ, ◌+◌, ◌-◌, ◌/◌, String, Bool, true, false, Option, none, some, ◌==◌, ◌&&◌, not, eqb, ltb, leb,
  if◌then◌else◌, insert_or_ignore,
}
use open_dating.Events.Model.{
  Event, Platform, or_empty, is_true_text, find_tag, verify_event_signature,
}
use open_dating.Connection.State.{Session, Relay, Env, ok_frame}
use open_dating.Connection.Checks.{
  Draft, Step, answer, refuse, event_of, has_paid_for_relay, set_cached_payment_status,
}

-- `AUTH_TIMEOUT_MS / 1000`.
abbrev pub auth_timeout_sec : ℕ
auth_timeout_sec = 60

abbrev all_digits : String → Bool
all_digits String.[] = true
all_digits (String.◌∷◌ c s) = leb b'0' (code c) && leb (code c) b'9' && all_digits s

abbrev is_digits : String → Bool
is_digits String.[] = false
is_digits (String.◌∷◌ c s) = all_digits (String.◌∷◌ c s)

-- `text.replace(/:\d+$/, '')`.
unfoldable pub strip_port : String → String
strip_port String.[] = String.[]
strip_port (String.◌∷◌ c s) =
    let rest = strip_port s in
    if eqb (code c) b':' && is_digits s then String.[] else String.◌∷◌ c rest

unfoldable pub host_of : Platform → String → String
host_of p host = strip_port (p.lower_case host)

-- The distance of two times.
abbrev pub distance : ℕ → ℕ → ℕ
distance a b = (a - b) + (b - a)

-- The check of the relay tag against the host of the session.
unfoldable pub check_relay : Platform → String → Option String → Option String
check_relay p host none = some "invalid: missing relay tag"
check_relay p host (some url) =
    if url == "" then some "invalid: missing relay tag" else elim (p.url_host url) [
      | none ↦ some "invalid: malformed relay URL"
      | some auth_host ↦
          if host_of p auth_host == host_of p host
          then none
          else some (
              String.◌++◌ "invalid: relay URL mismatch (expected "
                (String.◌++◌ (host_of p host) ")"))
    ]

-- The check of the challenge tag against the challenge of the session.
unfoldable pub check_challenge : Option String → Option String → Option String
check_challenge tag issued =
    if not (is_true_text tag)
    then some "invalid: missing challenge tag"
    else if not (is_true_text issued)
    then some "invalid: no challenge was issued"
    else if or_empty tag == or_empty issued
    then none
    else some "invalid: challenge mismatch"

-- Why an authentication event is refused; none where it passes.
unfoldable pub check_auth : Env → Session → Event → Option String
check_auth env s e =
    if not (eqb e.kind 22242)
    then some "invalid: auth event must be kind 22242"
    else if not (verify_event_signature env.platform e)
    then some "invalid: signature verification failed"
    else if ltb auth_timeout_sec (distance (env.now_ms / 1000) e.created_at)
    then some "invalid: auth event created_at is too far from current time"
    else elim (check_challenge (find_tag "challenge" e.tags) s.challenge) [
      | some message ↦ some message
      | none ↦ check_relay env.platform s.host (find_tag "relay" e.tags)
    ]

-- The pubkey is added, and the challenge is replaced.
unfoldable pub authenticate : Env → Event → Session → Session
authenticate env e s = record s {
  authenticated_pubkeys = insert_or_ignore (λ p. p == e.pubkey) e.pubkey s.authenticated_pubkeys;
  challenge = some env.next_challenge;
}

-- The state of the payment, where payments are asked for.
unfoldable pub note_payment : Env → Event → Session → Relay → Session × Relay
note_payment env e s r =
    if not env.config.pay_to_relay_enabled
    then (s, r)
    else let paid = has_paid_for_relay env.config e.pubkey r in
      (record s { has_paid = some paid }, set_cached_payment_status env.now_ms e.pubkey paid r)

unfoldable pub accept_auth : Env → Session → Event → Relay → Step
accept_auth env s e r =
    let (s', r') = note_payment env e (authenticate env e s) r in
    answer s' r' (ok_frame e.id true "")

unfoldable pub run_auth : Env → Session → Event → Relay → Step
run_auth env s e r = elim (check_auth env s e) [
  | some message ↦ refuse s r e message
  | none ↦ accept_auth env s e r
]

-- `handleAuth`.
unfoldable pub handle_auth : Env → Session → Option Draft → Relay → Step
handle_auth env s none r = answer s r (ok_frame "" false "invalid: auth event object required")
handle_auth env s (some d) r = elim (event_of d) [
  | none ↦ answer s r (ok_frame (or_empty d.id) false "invalid: missing required fields")
  | some e ↦ run_auth env s e r
]
