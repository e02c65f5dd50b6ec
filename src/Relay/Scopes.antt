-- ===== src/Relay/Scopes.antt =====
-- How event kinds and queries are classed: src/relay/protocol/validation.ts,
-- src/relay/queries/complexity.ts and src/relay/cache/classification.ts.
use open_dating.Prelude.{
  ◌+◌, ◌≤◌, true, false, Option, some, none, List, [], ◌∷◌, ◌++◌, ◌≡◌, ◌≢◌, refl, ◌&&◌, ◌||◌, not,
  exists, arith,
}
use open_dating.Json.{Number, ratio, negative, infinite, minus_infinite, nan, exceeds}
use open_dating.Relay.Kinds.{
  is_replaceable_event, is_parameterized_replaceable_event, is_ephemeral_event, is_auth_event,
  is_protected_kind, is_gift_wrap, is_deletion_event,
}
use open_dating.Relay.Filters.{
  Filter, filter_complexity_halves, total_complexity_halves, is_query_too_complex, normalize_limit,
  public, names_gift_wrap, classify_cache_scope,
}

-- No kind is of two of the classes replaceable, parameterized replaceable and ephemeral; the kind
-- of an authentication event is ephemeral; every protected kind is replaceable; gift wraps and
-- deletions are in none of the three classes.
pub classes-disjoint :
    (kind : Number)
    → ((is_replaceable_event kind && is_parameterized_replaceable_event kind) ≡ false)
      × ((is_replaceable_event kind && is_ephemeral_event kind) ≡ false)
      × ((is_parameterized_replaceable_event kind && is_ephemeral_event kind) ≡ false)
      × ((is_auth_event kind && not (is_ephemeral_event kind)) ≡ false)
      × ((is_protected_kind kind && not (is_replaceable_event kind)) ≡ false)
      × (((is_gift_wrap kind || is_deletion_event kind)
            && (is_replaceable_event kind
                || is_parameterized_replaceable_event kind
                || is_ephemeral_event kind))
          ≡ false)
unfolding is_replaceable_event is_parameterized_replaceable_event is_ephemeral_event is_auth_event
    is_protected_kind is_gift_wrap is_deletion_event
classes-disjoint (ratio a d) =
    (ground arith, ground arith, ground arith, ground arith, ground arith, ground arith)
classes-disjoint (negative a d) = (refl, refl, refl, refl, refl, refl)
classes-disjoint infinite = (refl, refl, refl, refl, refl, refl)
classes-disjoint minus_infinite = (refl, refl, refl, refl, refl, refl)
classes-disjoint nan = (refl, refl, refl, refl, refl, refl)

-- A limit in a query that is a number gives a positive limit of at most 500.
pub normalize_limit-le :
    (limit : Option Number)
    → limit ≢ some nan
    → (exceeds (normalize_limit limit) 0 ≡ true) × (exceeds (normalize_limit limit) 500 ≡ false)
unfolding normalize_limit
normalize_limit-le none h = (refl, refl)
normalize_limit-le (some (ratio a d)) h = (ground arith, ground arith)
normalize_limit-le (some (negative a d)) h = (refl, refl)
normalize_limit-le (some infinite) h = (refl, refl)
normalize_limit-le (some minus_infinite) h = (refl, refl)
normalize_limit-le (some nan) h = absurd (h refl)

filter_complexity-pos : (f : Filter) → 1 ≤ filter_complexity_halves f
unfolding filter_complexity_halves
filter_complexity-pos f = ground arith

total_complexity-append :
    (fs gs : List Filter)
    → total_complexity_halves (fs ++ gs) ≡ total_complexity_halves fs + total_complexity_halves gs
unfolding total_complexity_halves
total_complexity-append [] gs = omega arith
total_complexity-append (f ∷ fs) gs = ground (arith, total_complexity-append fs gs)

-- A query that is too complex stays so with any filters added before or behind.
pub is_query_too_complex-append :
    (fs gs : List Filter)
    → is_query_too_complex gs ≡ true
    → (is_query_too_complex (fs ++ gs) ≡ true) × (is_query_too_complex (gs ++ fs) ≡ true)
unfolding is_query_too_complex
is_query_too_complex-append fs gs h = (
  ground (arith, h, total_complexity-append fs gs),
  ground (arith, h, total_complexity-append gs fs),
)

-- A query whose results may enter the shared cache asks for gift wraps in none of its filters.
pub classify_cache_scope-public :
    (filters : List Filter)
    → classify_cache_scope filters ≡ public
    → exists (λ f. names_gift_wrap f.kinds) filters ≡ false
unfolding classify_cache_scope exists
classify_cache_scope-public [] h = refl
classify_cache_scope-public (f ∷ filters) h = ground (arith, h, classify_cache_scope-public filters)
