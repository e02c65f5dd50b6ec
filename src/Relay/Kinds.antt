-- ===== src/Relay/Kinds.antt =====
-- The classes of event kinds: src/relay/protocol/validation.ts. A kind is a number of JavaScript.
use open_dating.Prelude.{ℕ, suc, ◌*◌, Bool, true, false, ◌&&◌, ◌||◌, leb, eqb}
use open_dating.Json.{Number, ratio, negative, infinite, minus_infinite, nan, is_below, is_integer}

-- `kind === n`.
abbrev pub equals : Number → ℕ → Bool
equals (ratio a d) n = eqb a (n * suc d)
equals (negative a d) n = false
equals infinite n = false
equals minus_infinite n = false
equals nan n = false

-- `kind >= n`.
abbrev pub is_at_least : Number → ℕ → Bool
is_at_least (ratio a d) n = leb (n * suc d) a
is_at_least (negative a d) n = false
is_at_least infinite n = true
is_at_least minus_infinite n = false
is_at_least nan n = false

-- `kind <= n`.
abbrev is_at_most : Number → ℕ → Bool
is_at_most (ratio a d) n = leb a (n * suc d)
is_at_most (negative a d) n = true
is_at_most infinite n = false
is_at_most minus_infinite n = true
is_at_most nan n = false

unfoldable pub is_valid_kind : Number → Bool
is_valid_kind kind = is_integer kind && is_at_least kind 0 && is_at_most kind 2147483647

unfoldable pub is_replaceable_event : Number → Bool
is_replaceable_event kind =
    equals kind 0 || equals kind 3 || (is_at_least kind 10000 && is_below kind 20000)

unfoldable pub is_parameterized_replaceable_event : Number → Bool
is_parameterized_replaceable_event kind = is_at_least kind 30000 && is_below kind 40000

unfoldable pub is_ephemeral_event : Number → Bool
is_ephemeral_event kind = is_at_least kind 20000 && is_below kind 30000

unfoldable pub is_deletion_event : Number → Bool
is_deletion_event kind = equals kind 5

unfoldable pub is_gift_wrap : Number → Bool
is_gift_wrap kind = equals kind 1059

unfoldable pub is_auth_event : Number → Bool
is_auth_event kind = equals kind 22242

unfoldable pub is_protected_kind : Number → Bool
is_protected_kind kind = equals kind 0 || equals kind 3 || equals kind 10002
