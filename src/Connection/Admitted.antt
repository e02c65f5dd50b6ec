-- ===== src/Connection/Admitted.antt =====
-- What an event must be that is stored, as a rule on the settings, the connection and the tables: the
-- checks of `handleEvent` in src/durable-object.ts, of src/config.ts and of
-- src/relay/policy/default-policy.ts are compared with it.
use mathlib.Core.List.{Memᴰ}
use mathlib.Core.List.Memᴰ.{head}
use mathlib.Core.Path.{subst}
use open_dating.Prelude.{
  ℕ, ◌-◌, ◌<◌, String, Bool, true, false, Option, none, some, List, [], ◌∷◌, ◌≡◌, ◌≢◌, refl, ◌==◌,
  ◌||◌, ◌⊎◌, ◌↔◌, inl, inr, eqb, All, exists, found, exists_of_member, map, arith, eq_iff,
  Bool-cases, Option-cases, lookup, ok, length, ltb,
}
use open_dating.Services.DmPolicy.{allowed, check_direct_message_policy}
use open_dating.Events.Model.{Event, Platform, tag_name, or_empty, find_tag}
use open_dating.Events.Config.{
  Config, is_pubkey_allowed, is_event_kind_allowed, is_tag_allowed, contains_blocked_content,
  is_nil, includes, join,
}
use open_dating.Connection.State.{Session, Relay, Env, PaymentEntry}
use open_dating.Connection.Checks.{
  check_identity, check_payment, check_settings, check_gift_wrap, first_blocked_tag, first_pubkey,
  has_paid_for_relay, get_cached_payment_status, look_up_payment,
}

-- A value that is on the list of those allowed, where this list is not empty, and not on the list of
-- those blocked.
abbrev IsListed {ℓ} : {A : Type ℓ} → List A → List A → A → Type ℓ
IsListed open_to barred x = ((open_to ≡ []) ⊎ Memᴰ x open_to) × (¬ Memᴰ x barred)

-- A tag without a name is on no list.
abbrev IsTagListed : List String → List String → Option String → Type 0
IsTagListed open_to barred none = open_to ≡ []
IsTagListed open_to barred (some t) = IsListed open_to barred t

-- Content and tags without a phrase, whatever the case of the letters.
abbrev IsFreeOf : Platform → Event → String → Type 0
IsFreeOf p e phrase =
    (includes (p.lower_case e.content) (p.lower_case phrase) ≡ false)
    × All (λ tag. includes (p.lower_case (join tag)) (p.lower_case phrase) ≡ false) e.tags

-- A payment that is on record, or was found less than a minute ago.
abbrev HasPaid : Env → String → Relay → Type 0
HasPaid env pubkey r =
    Memᴰ pubkey r.stores.event_db.paid_pubkeys
    ⊎ ((entry : PaymentEntry) × (lookup pubkey r.payment_cache ≡ some entry)
        × (env.now_ms - entry.timestamp < 60000)
        × (entry.has_paid ≡ true))

-- The connection may publish the event.
pub record IsAuthorized (c : Config) (s : Session) (e : Event) : Type 0 where
  pub ordinary : e.kind ≢ 22242
  pub authenticated : (c.auth_required ≡ false) ⊎ ((p : String) × Memᴰ p s.authenticated_pubkeys)
  pub own : (c.auth_required ≡ false) ⊎ ((e.kind ≡ 1059) ⊎ Memᴰ e.pubkey s.authenticated_pubkeys)

-- The settings let the event pass.
pub record IsFitting (c : Config) (p : Platform) (e : Event) : Type 0 where
  pub author : (e.kind ≡ 1059) ⊎ IsListed c.allowed_pubkeys c.blocked_pubkeys e.pubkey
  pub kind : IsListed c.allowed_event_kinds c.blocked_event_kinds e.kind
  pub content : All (IsFreeOf p e) c.blocked_content
  pub tags : All (λ tag. IsTagListed c.allowed_tags c.blocked_tags (tag_name tag)) e.tags

nil_of_is_nil {ℓ} : {A : Type ℓ} (xs : List A) → is_nil xs ≡ true → xs ≡ []
nil_of_is_nil [] h = refl
nil_of_is_nil (x ∷ xs) h = absurd (ground (arith, h))

some_member {ℓ} : {A : Type ℓ} (xs : List A) → eqb (length xs) 0 ≡ false → (x : A) × Memᴰ x xs
some_member [] h = absurd (ground (arith, h))
some_member (x ∷ xs) h = (x, head refl)

module _ {ℓ} {A : Type ℓ} (same : A → A → Bool)
    (decides : (y x : A) → (same y x ≡ true) ↔ (y ≡ x)) where
  pub member_of_exists : (x : A) (xs : List A) → exists (λ y. same y x) xs ≡ true → Memᴰ x xs
  member_of_exists x xs h =
      let (y, m, e) = found (λ y. same y x) (λ y. y ≡ x) (λ y. decides y x) xs h in
      subst (λ z. Memᴰ z xs) e m

  allowed_from :
      (open_to barred : List A) (x : A)
      → (is_nil open_to || exists (λ y. same y x) open_to) ≡ true
      → exists (λ y. same y x) barred ≡ false
      → IsListed open_to barred x
  allowed_from open_to barred x h k = (
    elim (Bool-cases (exists (λ y. same y x) open_to)) [
      | inl there ↦ inr (member_of_exists x open_to there)
      | inr gone ↦ inl (nil_of_is_nil open_to (ground (arith, h, gone)))
    ],
    λ m.
        let there =
          exists_of_member (λ y. same y x) (λ y. y ≡ x) (λ y. decides y x) {x = x} barred m refl in
        ground (arith, there, k),
  )

pub decides_kind : (j k : ℕ) → (eqb j k ≡ true) ↔ (j ≡ k)
decides_kind j k = ground arith

author_of :
    (c : Config) (pubkey : String)
    → is_pubkey_allowed c pubkey ≡ true
    → IsListed c.allowed_pubkeys c.blocked_pubkeys pubkey
unfolding is_pubkey_allowed
author_of c pubkey h =
    allowed_from (λ t s. t == s) eq_iff c.allowed_pubkeys c.blocked_pubkeys pubkey
      (ground (arith, h)) (ground (arith, h))

kind_of :
    (c : Config) (kind : ℕ)
    → is_event_kind_allowed c kind ≡ true
    → IsListed c.allowed_event_kinds c.blocked_event_kinds kind
unfolding is_event_kind_allowed
kind_of c kind h =
    allowed_from eqb decides_kind c.allowed_event_kinds c.blocked_event_kinds kind
      (ground (arith, h)) (ground (arith, h))

tag_of :
    (c : Config) (tag : Option String)
    → is_tag_allowed c tag ≡ true
    → IsTagListed c.allowed_tags c.blocked_tags tag
unfolding is_tag_allowed
tag_of c none h = nil_of_is_nil c.allowed_tags (ground (arith, h))
tag_of c (some t) h =
    allowed_from (λ t s. t == s) eq_iff c.allowed_tags c.blocked_tags t (ground (arith, h))
      (ground (arith, h))

tags_of :
    (c : Config) (tags : List (List String))
    → first_blocked_tag c tags ≡ none
    → All (λ tag. IsTagListed c.allowed_tags c.blocked_tags (tag_name tag)) tags
unfolding first_blocked_tag
tags_of c [] h = tt
tags_of c (tag ∷ tags) h = elim (Bool-cases (is_tag_allowed c (tag_name tag))) [
  | inl k ↦ (tag_of c (tag_name tag) k, tags_of c tags (rw k at h))
  | inr k ↦ absurd (ground (arith, h, k))
]

tags_free :
    (p : Platform) (phrase : String) (tags : List (List String))
    → exists (λ tag. includes tag phrase) (map (λ tag. p.lower_case (join tag)) tags) ≡ false
    → All (λ tag. includes (p.lower_case (join tag)) phrase ≡ false) tags
unfolding exists
tags_free p phrase [] h = tt
tags_free p phrase (tag ∷ tags) h = (ground (arith, h), tags_free p phrase tags (ground (arith, h)))

free_of :
    (p : Platform) (e : Event) (phrases : List String)
    → exists
        (λ phrase.
          includes (p.lower_case e.content) (p.lower_case phrase)
          || exists
              (λ tag. includes tag (p.lower_case phrase))
              (map (λ tag. p.lower_case (join tag)) e.tags))
        phrases
      ≡ false
    → All (IsFreeOf p e) phrases
unfolding exists
free_of p e [] h = tt
free_of p e (phrase ∷ phrases) h = (
  (ground (arith, h), tags_free p (p.lower_case phrase) e.tags (ground (arith, h))),
  free_of p e phrases (ground (arith, h)),
)

content_of :
    (c : Config) (p : Platform) (e : Event)
    → contains_blocked_content c p e ≡ false
    → All (IsFreeOf p e) c.blocked_content
unfolding contains_blocked_content
content_of c p e h = free_of p e c.blocked_content h

pub check_settings-IsFitting :
    (c : Config) (p : Platform) (e : Event) → check_settings c p e ≡ none → IsFitting c p e
unfolding check_settings
check_settings-IsFitting c p e h = record {
  author = elim (Bool-cases (eqb e.kind 1059)) [
    | inl k ↦ inl (ground (arith, k))
    | inr k ↦ inr (author_of c e.pubkey (ground (arith, h, k)))
  ];
  kind = kind_of c e.kind (ground (arith, h));
  content = content_of c p e (ground (arith, h));
  tags = tags_of c e.tags (ground (arith, h));
}

pub check_identity-IsAuthorized :
    (c : Config) (s : Session) (e : Event) → check_identity c s e ≡ none → IsAuthorized c s e
unfolding check_identity
check_identity-IsAuthorized c s e h = record {
  ordinary = λ k. ground (arith, h, k);
  authenticated = elim (Bool-cases c.auth_required) [
    | inr k ↦ inl k
    | inl k ↦ inr (some_member s.authenticated_pubkeys (ground (arith, h, k)))
  ];
  own = elim (Bool-cases c.auth_required) [
    | inr k ↦ inl k
    | inl k ↦ inr (elim (Bool-cases (eqb e.kind 1059)) [
      | inl j ↦ inl (ground (arith, j))
      | inr j ↦ inr (
          member_of_exists (λ t s. t == s) eq_iff e.pubkey s.authenticated_pubkeys
            (ground (arith, h, k, j)))
    ])
  ];
}

-- The author of an event has paid, where payments are asked for and it is no gift wrap.
abbrev pub IsPaid : Env → Event → Relay → Type 0
IsPaid env e r =
    (env.config.pay_to_relay_enabled ≡ false) ⊎ ((e.kind ≡ 1059) ⊎ HasPaid env e.pubkey r)

recorded_of :
    (c : Config) (pubkey : String) (r : Relay)
    → c.pay_to_relay_enabled ≡ true
    → has_paid_for_relay c pubkey r ≡ true
    → Memᴰ pubkey r.stores.event_db.paid_pubkeys
unfolding has_paid_for_relay
recorded_of c pubkey r k h =
    member_of_exists (λ t s. t == s) eq_iff pubkey r.stores.event_db.paid_pubkeys
      (ground (arith, h, k))

look_up_payment-HasPaid :
    (env : Env) (pubkey : String) (r : Relay)
    → env.config.pay_to_relay_enabled ≡ true
    → (look_up_payment env pubkey (get_cached_payment_status env.now_ms pubkey r)).0 ≡ true
    → HasPaid env pubkey r
unfolding get_cached_payment_status has_paid_for_relay
look_up_payment-HasPaid env pubkey r k h = elim (Option-cases (lookup pubkey r.payment_cache)) [
  | inl n ↦ inl (recorded_of env.config pubkey r k (ground (arith, h, n)))
  | inr (entry, n) ↦ elim (Bool-cases (ltb (env.now_ms - entry.timestamp) 60000)) [
    | inl fresh ↦ inr (entry, n, ground (arith, fresh), ground (arith, h, n, fresh))
    | inr stale ↦ inl (recorded_of env.config pubkey r k (ground (arith, h, n, stale)))
  ]
]

pub check_payment-IsPaid :
    (env : Env) (e : Event) (r : Relay) → (check_payment env e r).0 ≡ true → IsPaid env e r
unfolding check_payment
check_payment-IsPaid env e r h = elim (Bool-cases env.config.pay_to_relay_enabled) [
  | inr k ↦ inl k
  | inl k ↦ inr (elim (Bool-cases (eqb e.kind 1059)) [
    | inl j ↦ inl (ground (arith, j))
    | inr j ↦ inr (look_up_payment-HasPaid env e.pubkey r k (ground (arith, h, k, j)))
  ])
]

-- The policy for private messages allows a gift wrap, from the first authenticated pubkey of the
-- connection to the one in the first `p` tag.
abbrev pub IsDeliverable : Env → Session → Event → Relay → Type 0
IsDeliverable env s e r =
    (e.kind ≢ 1059)
    ⊎ (check_direct_message_policy env.world (or_empty (first_pubkey s.authenticated_pubkeys))
          (find_tag "p" e.tags) r.stores.db
        ≡ ok allowed)

pub check_gift_wrap-IsDeliverable :
    (env : Env) (s : Session) (e : Event) (r : Relay)
    → check_gift_wrap env s e r ≡ none
    → IsDeliverable env s e r
unfolding check_gift_wrap
check_gift_wrap-IsDeliverable env s e r h = elim (Bool-cases (eqb e.kind 1059)) [
  | inr k ↦ inl (λ j. ground (arith, k, j))
  | inl k ↦ inr (ground (arith, h, k))
]
