-- ===== src/Connection/Replay.antt =====
-- What an authentication needs, and why it works once: `handleAuth` of src/durable-object.ts.
use open_dating.Prelude.{
  ◌/◌, ◌≡◌, refl, sym, ap, ◌∙◌, ◌⊎◌, inl, inr, String, true, false, Option, none, some, ◌==◌, eqb,
  ltb, eq_iff, Bool-cases, Option-cases, insert_or_ignore, arith,
}
use open_dating.Events.Model.{
  Event, Platform, or_empty, is_true_text, find_tag, verify_event_signature,
}
use open_dating.Connection.State.{Session, Relay, Env}
use open_dating.Connection.Checks.{Draft, event_of, refuse}
use open_dating.Connection.Auth.{
  auth_timeout_sec, distance, check_challenge, check_relay, host_of, check_auth, authenticate,
  accept_auth, run_auth, handle_auth,
}
use open_dating.Connection.Stores.{note_payment-session}

-- A URL whose host is the one of the session, without the ports and whatever the case of the letters.
abbrev pub IsHere : Platform → String → Option String → Type 0
IsHere p host tag =
    (url : String) × (named_host : String) × (tag ≡ some url)
    × ((url == "") ≡ false)
    × (p.url_host url ≡ some named_host)
    × (host_of p named_host ≡ host_of p host)

check_relay-IsHere :
    (p : Platform) (host : String) (tag : Option String)
    → check_relay p host tag ≡ none
    → IsHere p host tag
unfolding check_relay
check_relay-IsHere p host none h = absurd (ground (arith, h))
check_relay-IsHere p host (some url) h = elim (Bool-cases (url == "")) [
  | inl k ↦ absurd (ground (arith, h, k))
  | inr k ↦ elim (Option-cases (p.url_host url)) [
    | inl l ↦ absurd (ground (arith, h, k, l))
    | inr (named_host, l) ↦ elim (Bool-cases (host_of p named_host == host_of p host)) [
      | inr m ↦ absurd (ground (arith, h, k, l, m))
      | inl m ↦ (url, named_host, refl, k, l, (eq_iff (host_of p named_host) (host_of p host)).0 m)
    ]
  ]
]

-- What the event of an authentication has.
pub record IsVouching (env : Env) (s : Session) (e : Event) : Type 0 where
  pub kind : eqb e.kind 22242 ≡ true
  pub signed : verify_event_signature env.platform e ≡ true
  pub recent : ltb auth_timeout_sec (distance (env.now_ms / 1000) e.created_at) ≡ false
  pub named : is_true_text (find_tag "challenge" e.tags) ≡ true
  pub issued : is_true_text s.challenge ≡ true
  pub matches : (or_empty (find_tag "challenge" e.tags) == or_empty s.challenge) ≡ true
  pub here : IsHere env.platform s.host (find_tag "relay" e.tags)

module _ (env : Env) (s : Session) (e : Event) where
  check_challenge-matches :
      (tag issued : Option String)
      → check_challenge tag issued ≡ none
      → (is_true_text tag ≡ true)
        × (is_true_text issued ≡ true)
        × ((or_empty tag == or_empty issued) ≡ true)
  unfolding check_challenge
  check_challenge-matches tag issued h = elim (Bool-cases (is_true_text tag)) [
    | inr k ↦ ground arith
    | inl k ↦ elim (Bool-cases (is_true_text issued)) [
      | inr l ↦ ground arith
      | inl l ↦ elim (Bool-cases (or_empty tag == or_empty issued)) [
        | inr m ↦ ground arith
        | inl m ↦ (k, l, m)
      ]
    ]
  ]

  -- The checks before those of the tags.
  check_auth-passed :
      check_auth env s e ≡ none
      → (eqb e.kind 22242 ≡ true)
        × (verify_event_signature env.platform e ≡ true)
        × (ltb auth_timeout_sec (distance (env.now_ms / 1000) e.created_at) ≡ false)
  unfolding check_auth
  check_auth-passed h = elim (Bool-cases (eqb e.kind 22242)) [
    | inr k ↦ ground arith
    | inl k ↦ elim (Bool-cases (verify_event_signature env.platform e)) [
      | inr l ↦ ground arith
      | inl l ↦
          elim (Bool-cases (ltb auth_timeout_sec (distance (env.now_ms / 1000) e.created_at))) [
            | inl m ↦ ground arith
            | inr m ↦ (k, l, m)
          ]
    ]
  ]

  pub check_auth-IsVouching : check_auth env s e ≡ none → IsVouching env s e
  unfolding check_auth
  check_auth-IsVouching h =
      let (kind, signed, recent) = check_auth-passed h in
      elim (Option-cases (check_challenge (find_tag "challenge" e.tags) s.challenge)) [
        | inr (message, c) ↦
            let refused : check_auth env s e ≡ some message =
              rw (kind, signed, recent, c, check_auth) refl in
            cc
        | inl c ↦
            let rest : check_auth env s e
                ≡ check_relay env.platform s.host (find_tag "relay" e.tags) =
              rw (kind, signed, recent, c, check_auth) refl in
            let (named, issued, matches) =
              check_challenge-matches (find_tag "challenge" e.tags) s.challenge c in
            record {
              kind = kind;
              signed = signed;
              recent = recent;
              named = named;
              issued = issued;
              matches = matches;
              here =
                  check_relay-IsHere env.platform s.host (find_tag "relay" e.tags) (sym rest ∙ h);
            }
      ]

-- What an authentication makes of the session: the author of the event is one of its pubkeys, and
-- the challenge is a new one.
abbrev pub Authenticates : Env → Session → Event → Session → Type 0
Authenticates env s e s' =
    (s'.authenticated_pubkeys
      ≡ insert_or_ignore (λ p. p == e.pubkey) e.pubkey s.authenticated_pubkeys)
    × (s'.challenge ≡ some env.next_challenge)

accept_auth-Authenticates :
    (env : Env) (s : Session) (e : Event) (r : Relay)
    → Authenticates env s e (accept_auth env s e r).session
unfolding accept_auth
accept_auth-Authenticates env s e r =
    let same = note_payment-session env e (authenticate env e s) r in
    (
      ap (λ t. t.authenticated_pubkeys) same ∙ unfold authenticate in refl,
      ap (λ t. t.challenge) same ∙ unfold authenticate in refl,
    )

-- An AUTH message either leaves the session as it is, or it carries an event that is complete, of
-- kind 22242, validly signed, at most a minute old or early, with the challenge that was issued to
-- this session and the host of this relay; then the author of the event is one of the session's
-- pubkeys, and the session has a new challenge.
pub handle_auth-Authenticates :
    (env : Env) (s : Session) (d : Draft) (r : Relay)
    → ((handle_auth env s (some d) r).session ≡ s)
      ⊎ ((e : Event) × (event_of d ≡ some e)
          × IsVouching env s e
          × Authenticates env s e (handle_auth env s (some d) r).session)
unfolding handle_auth run_auth
handle_auth-Authenticates env s d r = elim (Option-cases (event_of d)) [
  | inl h ↦ inl (rw (h, handle_auth) refl)
  | inr (e, h) ↦ elim (Option-cases (check_auth env s e)) [
    | inr (message, k) ↦ inl (rw (h, handle_auth, k, run_auth) refl)
    | inl k ↦ inr (
      e,
      h,
      check_auth-IsVouching env s e k,
      rw (h, handle_auth, k, run_auth) (accept_auth-Authenticates env s e r),
    )
  ]
]

handle_auth_refuses :
    (env : Env) (s : Session) (d : Draft) (e : Event) (r : Relay)
    → event_of d ≡ some e
    → (check_auth env s e ≡ none)
      ⊎ ((message : String) × (handle_auth env s (some d) r ≡ refuse s r e message))
unfolding handle_auth run_auth
handle_auth_refuses env s d e r h = elim (Option-cases (check_auth env s e)) [
  | inl k ↦ inl k
  | inr (message, k) ↦ inr (message, rw (h, handle_auth, k, run_auth) refl)
]

accepted-Authenticates :
    (env : Env) (s : Session) (d : Draft) (e : Event) (r : Relay)
    → event_of d ≡ some e
    → check_auth env s e ≡ none
    → Authenticates env s e (handle_auth env s (some d) r).session
unfolding handle_auth run_auth
accepted-Authenticates env s d e r h k =
    rw (h, handle_auth, k, run_auth) (accept_auth-Authenticates env s e r)

-- An event that has authenticated a session is refused when it is sent again, at any time and in
-- any state of the relay: the session and the relay stay as they are. The new challenge must
-- differ from the one that the event names.
pub handle_auth_once :
    (env later : Env) (s : Session) (d : Draft) (e : Event) (r r' : Relay)
    → event_of d ≡ some e
    → check_auth env s e ≡ none
    → (or_empty (find_tag "challenge" e.tags) == env.next_challenge) ≡ false
    → (let s' = (handle_auth env s (some d) r).session in
        (message : String) × (handle_auth later s' (some d) r' ≡ refuse s' r' e message))
handle_auth_once env later s d e r r' h k fresh =
    let s' = (handle_auth env s (some d) r).session in
    elim (handle_auth_refuses later s' d e r' h) [
      | inr refused ↦ refused
      | inl again ↦
          let (_, challenge) = accepted-Authenticates env s d e r h k in
          let same : (or_empty (find_tag "challenge" e.tags) == env.next_challenge) ≡ true =
            rw (ap or_empty (sym challenge)) (check_auth-IsVouching later s' e again).matches in
          cc
    ]
