-- ===== src/Relay/Authorization.antt =====
-- How the decisions of extensions combine: src/relay/services/registry.ts.
use open_dating.Prelude.{
  String, Bool, true, false, Option, List, [], ◌∷◌, ◌++◌, ◌≡◌, ◌↔◌, ◌⊎◌, inl, inr, refl, All,
  exists, ok, thrown, delete_from, arith, eq_refl, Bool-cases,
}
use open_dating.Relay.Extensions.{
  Decision, allowed, denied, Extension, is_named, register, unregister, opinion, authorize_query,
}

decision-cases : (d : Decision) → (d ≡ allowed) ⊎ ((reason : Option String) × (d ≡ denied reason))
decision-cases allowed = inl refl
decision-cases (denied reason) = inr (reason, refl)

delete_from-append :
    {A : Type 0} (p : A → Bool) (xs : List A) (x : A)
    → exists p xs ≡ false
    → p x ≡ true
    → delete_from p (xs ++ x ∷ []) ≡ xs
unfolding delete_from exists
delete_from-append p [] x h k = rw k refl
delete_from-append p (y ∷ xs) x h k = ground (arith, h, k, delete_from-append p xs x)

module _ {Event : Type 0} {Query : Type 0} where
  -- A query is allowed exactly when every extension allows it; one without the callback allows all.
  pub authorize_query-eq-allowed_iff :
      (query : Query) (extensions : List (Extension Event Query))
      → (authorize_query query extensions ≡ allowed)
        ↔ All (λ e. opinion query e ≡ allowed) extensions
  unfolding authorize_query
  authorize_query-eq-allowed_iff query [] = (λ h. tt, λ h. refl)
  authorize_query-eq-allowed_iff query (e ∷ extensions) =
      let (to, from) = authorize_query-eq-allowed_iff query extensions in
      elim (decision-cases (opinion query e)) [
        | inl a ↦
            (λ h. (a, to (rw (a, authorize_query) at h)), λ h. rw (a, authorize_query) (from h.1))
        | inr (reason, d) ↦ (
          λ h. absurd (ground (arith, rw (d, authorize_query) at h)),
          λ h. absurd (ground (arith, h.0, d)),
        )
      ]

  -- Registering an extension whose name is free and unregistering it again gives back the registry;
  -- a name that is taken is refused.
  pub unregister-register :
      (e : Extension Event Query) (extensions : List (Extension Event Query))
      → ((exists (is_named e.name) extensions ≡ true)
          × (register e extensions ≡ thrown "Extension is already registered"))
        ⊎ ((after : List (Extension Event Query)) × (register e extensions ≡ ok after)
            × (unregister e.name after ≡ extensions))
  unfolding register unregister
  unregister-register e extensions = elim (Bool-cases (exists (is_named e.name) extensions)) [
    | inl h ↦ inl (h, rw (h, register) refl)
    | inr h ↦ inr (
      extensions ++ e ∷ [],
      rw (h, register) refl,
      delete_from-append (is_named e.name) extensions e h (eq_refl e.name),
    )
  ]
