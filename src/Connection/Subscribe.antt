-- ===== src/Connection/Subscribe.antt =====
-- `handleReq` and `handleCloseSubscription` of src/durable-object.ts. A subscription id that is no
-- text, and a filter that is no object, are none; the fields of a filter have the types of
-- `NostrFilter`.
use Prim.Native.String
use open_dating.Prelude.{
  ℕ, String, Bool, false, Option, none, some, List, [], ◌∷◌, ◌++◌, ◌==◌, ◌&&◌, ◌||◌, not, eqb, ltb,
  leb, if◌then◌else◌, exists, first, all, select, delete_from, length, insert, map, Result, ok,
  thrown,
}
use open_dating.Json.{Number, whole, exceeds}
use open_dating.Text.{units, length_of}
use open_dating.Relay.Kinds.{equals}
use open_dating.Relay.RateLimit.{remove_token}
use open_dating.Relay.Filters.{Filter, is_true_number}
use open_dating.Events.Model.{Event, Platform}
use open_dating.Events.Config.{Config}
use open_dating.Connection.State.{Session, Relay, Env, Sent, notice, eose, closed, event_frame}
use open_dating.Connection.Cache.{get_cached_or_query}
use open_dating.Connection.Checks.{Step, answer}

-- `/^[a-f0-9]{64}$/.test(text)`.
abbrev is_lower_hex_unit : ℕ → Bool
is_lower_hex_unit u = (leb b'a' u && leb u b'f') || (leb b'0' u && leb u b'9')

unfoldable pub is_hex_id : String → Bool
unfolding all
is_hex_id s = eqb (length_of s) 64 && all is_lower_hex_unit (units s)

abbrev or_nil {ℓ} : {A : Type ℓ} → Option (List A) → List A
or_nil none = []
or_nil (some xs) = xs

-- `isEventKindAllowed` on a kind of a filter.
unfoldable pub is_kind_allowed : Config → Number → Bool
unfolding exists
is_kind_allowed c kind =
    if not (eqb (length c.allowed_event_kinds) 0)
      && not (exists (λ n. equals kind n) c.allowed_event_kinds)
    then false
    else not (exists (λ n. equals kind n) c.blocked_event_kinds)

-- `kinds.join(', ')`.
abbrev join_kinds : Platform → List Number → String
join_kinds p [] = ""
join_kinds p (k ∷ []) = p.number_text k
join_kinds p (k ∷ l ∷ kinds) =
    String.◌++◌ (p.number_text k) (String.◌++◌ ", " (join_kinds p (l ∷ kinds)))

-- The limit that is stored: at most 500, and 500 where there is none.
unfoldable pub cap_limit : Option Number → Number
cap_limit none = whole 500
cap_limit (some n) =
    if is_true_number (some n) then (if exceeds n 500 then whole 500 else n) else whole 500

-- The checks of one filter, in their order.
unfoldable pub validate_filter : Config → Platform → Filter → Result Filter
unfolding exists select
validate_filter c p f = elim (first (λ id. not (is_hex_id id)) (or_nil f.ids)) [
  | some id ↦ thrown (String.◌++◌ "invalid: Invalid event ID format: " id)
  | none ↦ elim (first (λ a. not (is_hex_id a)) (or_nil f.authors)) [
    | some a ↦ thrown (String.◌++◌ "invalid: Invalid author pubkey format: " a)
    | none ↦
        let blocked_kinds = select (λ k. not (is_kind_allowed c k)) (or_nil f.kinds) in
        if ltb 0 (length blocked_kinds)
        then thrown (
            String.◌++◌ "blocked: kinds " (String.◌++◌ (join_kinds p blocked_kinds) " not allowed"))
        else if ltb 5000 (length (or_nil f.ids))
        then thrown "invalid: too many event IDs (max 5000)"
        else ok (record f { limit = some (cap_limit f.limit) })
  ]
]

-- The loop over the filters; the first that fails decides.
unfoldable pub validate_filters : Config → Platform → List (Option Filter) → Result (List Filter)
validate_filters c p [] = ok []
validate_filters c p (none ∷ filters) = thrown "invalid: filter must be an object"
validate_filters c p (some f ∷ filters) =
    let rest = validate_filters c p filters in
    elim (validate_filter c p f) [
      | thrown e ↦ thrown e
      | ok g ↦ elim rest [ thrown e ↦ thrown e | ok gs ↦ ok (g ∷ gs) ]
    ]

-- `saveSubscriptions`.
unfoldable pub save_subscriptions : Session → Relay → Relay
save_subscriptions s r = record r {
  stored_subscriptions = insert s.id s.subscriptions r.stored_subscriptions;
}

abbrev pub event_sent : String → String → Event → Sent
event_sent id subscription e = record { session_id = id; frame = event_frame subscription e }

-- The subscription is stored, and the stored events are sent with EOSE behind them.
unfoldable pub open_subscription : Env → Session → String → List Filter → Relay → Step
open_subscription env s subscription filters r =
    let s' = record s { subscriptions = insert subscription filters s.subscriptions } in
    let (events, r') = get_cached_or_query env filters (save_subscriptions s' r) in
    record {
      session = s';
      relay = r';
      sent =
          map (event_sent s.id subscription) events
          ++ record { session_id = s.id; frame = eose subscription } ∷ [];
      remote = [];
    }

-- The part behind the rate limit.
unfoldable pub subscribe : Env → Session → String → List (Option Filter) → Relay → Step
subscribe env s subscription filters r =
    if eqb (length filters) 0
    then answer s r (closed subscription "error: at least one filter required")
    else elim (validate_filters env.config env.platform filters) [
      | thrown message ↦ answer s r (closed subscription message)
      | ok gs ↦ open_subscription env s subscription gs r
    ]

unfoldable pub request : Env → Session → String → List (Option Filter) → Relay → Step
request env s subscription filters r =
    if env.config.auth_required && eqb (length s.authenticated_pubkeys) 0
    then answer s r (closed subscription "auth-required: authentication required to subscribe")
    else let (passed, limiter) = remove_token env.now_ms s.req_rate_limiter in
      let s' = record s { req_rate_limiter = limiter } in
      if passed
      then subscribe env s' subscription filters r
      else answer s' r (closed subscription "rate-limited: slow down there chief")

abbrev invalid_subscription : String
invalid_subscription = "Invalid subscription ID: must be non-empty string of max 64 chars"

-- `handleReq`.
unfoldable pub handle_req : Env → Session → Option String → List (Option Filter) → Relay → Step
handle_req env s none filters r = answer s r (notice invalid_subscription)
handle_req env s (some subscription) filters r =
    if subscription == "" || ltb 64 (length_of subscription)
    then answer s r (notice invalid_subscription)
    else request env s subscription filters r

abbrev pub is_subscription : String → String × List Filter → Bool
is_subscription id (i, filters) = i == id

abbrev pub without_subscription : String → Session → Session
without_subscription id s = record s {
  subscriptions = delete_from (is_subscription id) s.subscriptions;
}

-- `handleCloseSubscription`.
unfoldable pub handle_close_subscription : Session → Option String → Relay → Step
unfolding exists
handle_close_subscription s none r = answer s r (notice "Invalid subscription ID for CLOSE")
handle_close_subscription s (some id) r =
    if id == ""
    then answer s r (notice "Invalid subscription ID for CLOSE")
    else if not (exists (is_subscription id) s.subscriptions)
    then answer s r (closed id "Subscription not found")
    else answer (without_subscription id s) (save_subscriptions (without_subscription id s) r)
        (closed id "Subscription closed")
