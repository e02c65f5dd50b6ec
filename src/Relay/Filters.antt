-- ===== src/Relay/Filters.antt =====
-- Queries: their cost and limits (src/relay/queries/complexity.ts) and the scope of their cached
-- results (src/relay/cache/classification.ts).
use open_dating.Prelude.{
  ℕ, ◌+◌, ◌*◌, String, Bool, true, false, Option, none, some, List, [], ◌∷◌, ◌==◌, ◌&&◌, ◌||◌, not,
  ltb, eqb, if◌then◌else◌, length, exists,
}
use open_dating.Json.{Number, ratio, negative, infinite, minus_infinite, nan, whole, exceeds}
use open_dating.Relay.Kinds.{equals, is_gift_wrap}

-- `NostrFilter`; `tags` holds the entries whose name starts with '#' and whose value is an array,
-- with their names without that sign.
pub record Filter : Type 0 where
  pub ids : Option (List String)
  pub authors : Option (List String)
  pub kinds : Option (List Number)
  pub tags : List (String × List String)
  pub since : Option Number
  pub until : Option Number
  pub limit : Option Number
  pub search : Option String

abbrev count {ℓ} : {A : Type ℓ} → Option (List A) → ℕ
count none = 0
count (some xs) = length xs

-- The loop over the tag filters.
abbrev tags_cost : List (String × List String) → ℕ
tags_cost [] = 0
tags_cost ((name, values) ∷ tags) = length values * 2 + tags_cost tags

-- Whether a number counts as true.
abbrev pub is_true_number : Option Number → Bool
is_true_number none = false
is_true_number (some (ratio a d)) = not (eqb a 0)
is_true_number (some (negative a d)) = true
is_true_number (some infinite) = true
is_true_number (some minus_infinite) = true
is_true_number (some nan) = false

abbrev is_large : Option Number → Bool
is_large none = false
is_large (some n) = exceeds n 1000

abbrev is_true_text : Option String → Bool
is_true_text none = false
is_true_text (some s) = not (s == "")

abbrev base_cost : Filter → ℕ
base_cost f = 1 + count f.ids + count f.authors + count f.kinds + tags_cost f.tags

abbrev bounds_multiplier : Filter → ℕ
bounds_multiplier f = if is_true_number f.since || is_true_number f.until then 1 else 2

-- Twice the complexity of a filter, since a large limit multiplies it by 1.5.
unfoldable pub filter_complexity_halves : Filter → ℕ
filter_complexity_halves f =
    base_cost f * bounds_multiplier f * (if is_large f.limit then 3 else 2)
    + (if is_true_text f.search then 20 else 0)

abbrev pub max_query_complexity : ℕ
max_query_complexity = 1000

unfoldable pub total_complexity_halves : List Filter → ℕ
total_complexity_halves [] = 0
total_complexity_halves (f ∷ filters) = filter_complexity_halves f + total_complexity_halves filters

unfoldable pub is_query_too_complex : List Filter → Bool
is_query_too_complex filters = ltb (2 * max_query_complexity) (total_complexity_halves filters)

abbrev pub default_query_limit : ℕ
default_query_limit = 100

abbrev pub hard_query_limit : ℕ
hard_query_limit = 500

-- `Math.min(limit, HARD_QUERY_LIMIT)` behind `limit <= 0`.
unfoldable pub normalize_limit : Option Number → Number
normalize_limit none = whole default_query_limit
normalize_limit (some (ratio a d)) =
    if eqb a 0
    then whole default_query_limit
    else if exceeds (ratio a d) hard_query_limit
    then whole hard_query_limit
    else ratio a d
normalize_limit (some (negative a d)) = whole default_query_limit
normalize_limit (some infinite) = whole hard_query_limit
normalize_limit (some minus_infinite) = whole default_query_limit
normalize_limit (some nan) = nan

-- `CacheScope`.
pub data CacheScope : Type 0 where
  public auth_scoped private_no_cache : CacheScope

abbrev pub names_gift_wrap : Option (List Number) → Bool
names_gift_wrap none = false
names_gift_wrap (some kinds) = exists is_gift_wrap kinds

abbrev names_kind : ℕ → Option (List Number) → Bool
names_kind n none = false
names_kind n (some kinds) = exists (λ k. equals k n) kinds

abbrev pub has_recipient : Filter → Bool
has_recipient f = exists (λ (t : String × List String). t.0 == "p") f.tags

unfoldable pub classify_cache_scope : List Filter → CacheScope
classify_cache_scope [] = public
classify_cache_scope (f ∷ filters) =
    let rest = classify_cache_scope filters in
    if names_gift_wrap f.kinds
    then private_no_cache
    else if names_kind 4 f.kinds && has_recipient f
    then auth_scoped
    else rest
