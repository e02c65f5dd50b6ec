-- ===== src/Connection/Matching.antt =====
-- `matchesFilter` and `matchesFilters` of src/durable-object.ts.
use open_dating.Prelude.{
  ℕ, String, Bool, true, false, Option, none, some, List, [], ◌∷◌, ◌==◌, ◌&&◌, ◌||◌, not, exists,
  all,
}
use open_dating.Json.{Number, exceeds, is_below}
use open_dating.Relay.Kinds.{equals}
use open_dating.Relay.Filters.{Filter, is_true_number}
use open_dating.Events.Model.{Event, tag_value, is_tag}

abbrev pub is_empty_list {ℓ} : {A : Type ℓ} → List A → Bool
is_empty_list [] = true
is_empty_list (x ∷ xs) = false

-- A list that is missing or empty admits everything.
abbrev pub admits {ℓ} : {A : Type ℓ} → (A → Bool) → Option (List A) → Bool
admits test none = true
admits test (some xs) = is_empty_list xs || exists test xs

-- `filter.since && created_at < filter.since`.
abbrev pub is_before : ℕ → Option Number → Bool
is_before time none = false
is_before time (some n) = is_true_number (some n) && exceeds n time

abbrev pub is_later : ℕ → Option Number → Bool
is_later time none = false
is_later time (some n) = is_true_number (some n) && is_below n time

abbrev pub is_value : String → Option String → Bool
is_value v none = false
is_value v (some s) = s == v

-- Whether one of the event's tags of this name has the value.
abbrev pub has_tag : Event → String → String → Bool
has_tag e name v = exists (λ tag. is_tag name tag && is_value v (tag_value tag)) e.tags

abbrev pub admits_tags : Event → String × List String → Bool
admits_tags e (name, values) = is_empty_list values || exists (λ v. has_tag e name v) values

unfoldable pub matches_filter : Event → Filter → Bool
unfolding exists all
matches_filter e f =
    admits (λ id. id == e.id) f.ids
    && admits (λ author. author == e.pubkey) f.authors
    && admits (λ kind. equals kind e.kind) f.kinds
    && not (is_before e.created_at f.since)
    && not (is_later e.created_at f.until)
    && all (admits_tags e) f.tags

unfoldable pub matches_filters : Event → List Filter → Bool
matches_filters e filters = exists (λ f. matches_filter e f) filters
