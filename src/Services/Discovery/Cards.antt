-- ===== src/Services/Discovery/Cards.antt =====
-- What a viewer receives for a grant: `hydrate`, `publicProfile` and `loadExistingGrants` with its
-- cursor, of src/protocols/opendating/services/discovery/service.ts.
use Prim.Native.Char.{Char, code}
use Prim.Native.String
use mathlib.Core.Option
use open_dating.Prelude.{
  ℕ, zero, suc, ◌-◌, ◌*◌, ◌%◌, String, Bool, true, false, Option, none, some, List, [], ◌∷◌, ◌==◌,
  ◌&&◌, ◌||◌, not, ltb, eqb, if◌then◌else◌, exists, select, order_by, take, map, lookup,
}
use open_dating.Json.{
  Json, null, bool, num, str, arr, obj, nil, Fields, end, field, get, as_string, as_number,
  as_array, of_items, Number, ratio, negative, infinite, minus_infinite, nan, exceeds,
}
use open_dating.Text.{length_of, before}
use open_dating.Store.{Db, Grant}
use open_dating.World.{World, Run, ◌>>=◌, return}
use open_dating.Membership.Profiles.{
  is_truthy, get_pubkeys_by_member_ids, get_profile_contents_by_member_ids,
}
use open_dating.Services.Matcher.{is_unexpired}
use open_dating.Services.Discovery.Grants.{GrantRow}

abbrev replace_char : (Char → Char) → String → String
replace_char f String.[] = String.[]
replace_char f (String.◌∷◌ c s) = String.◌∷◌ (f c) (replace_char f s)

abbrev to_url : Char → Char
to_url c = if eqb (code c) b'+' then "-" else if eqb (code c) b'/' then "_" else c

abbrev from_url : Char → Char
from_url c = if eqb (code c) b'-' then "+" else if eqb (code c) b'_' then "/" else c

abbrev is_blank : String → Bool
is_blank String.[] = true
is_blank (String.◌∷◌ c s) = false

-- `replace(/=+$/, '')`.
abbrev strip_padding : String → String
strip_padding String.[] = String.[]
strip_padding (String.◌∷◌ c s) =
    let rest = strip_padding s in
    if eqb (code c) b'=' && is_blank rest then String.[] else String.◌∷◌ c rest

abbrev padding : ℕ → String
padding zero = String.[]
padding (suc n) = String.◌∷◌ "=" (padding n)

-- `btoa` and `atob` are parameters.
unfoldable pub encode_base64url : World → String → String
encode_base64url w input = strip_padding (replace_char to_url (w.to_base64 input))

-- The loop that pads to a multiple of four.
unfoldable pub decode_base64url : World → String → Option String
decode_base64url w input =
    let base64 = replace_char from_url input in
    w.from_base64 (String.◌++◌ base64 (padding ((4 - length_of base64 % 4) % 4)))

pub record Cursor : Type 0 where
  pub granted_at : Number
  pub candidate_id : String

abbrev fields_of : Json → Fields
fields_of null = end
fields_of (bool b) = end
fields_of (num n) = end
fields_of (str s) = end
fields_of (arr js) = end
fields_of (obj fs) = fs

abbrev cursor_of : Option Number → Option String → Option Cursor
cursor_of (some t) (some id) = some (record { granted_at = t; candidate_id = id })
cursor_of (some t) none = none
cursor_of none id = none

abbrev read_fields : Fields → Option Cursor
read_fields fs = cursor_of (as_number (get "granted_at" fs)) (as_string (get "candidate_id" fs))

-- The decoding of `payload.cursor` in `getCandidates`; a cursor that does not decode is none.
unfoldable pub read_cursor : World → Option String → Option Cursor
read_cursor w none = none
read_cursor w (some s) =
    if s == ""
    then none
    else Option.bind (decode_base64url w s)
        (λ text. Option.bind (w.parse text) (λ decoded. read_fields (fields_of decoded)))

-- `granted_at < ?` and `granted_at = ?`.
abbrev is_equal : ℕ → Number → Bool
is_equal n (ratio a d) = eqb a (n * suc d)
is_equal n (negative a d) = false
is_equal n infinite = false
is_equal n minus_infinite = false
is_equal n nan = false

abbrev pub is_after : Option Cursor → Grant → Bool
is_after none g = true
is_after (some c) g =
    exceeds c.granted_at g.granted_at
    || (is_equal g.granted_at c.granted_at && before c.candidate_id g.candidate_id)

-- The order of the query with a cursor; without one the candidates of one second are in any order,
-- and this is one.
abbrev ranks_before : Grant → Grant → Bool
ranks_before g h =
    if eqb g.granted_at h.granted_at
    then before g.candidate_id h.candidate_id
    else ltb h.granted_at g.granted_at

abbrev to_row : Grant → GrantRow
to_row g = record {
  candidate_id = g.candidate_id;
  grant_token = g.grant_token;
  distance_bucket = g.distance_bucket;
  granted_at = g.granted_at;
}

-- The number of rows of a `LIMIT`; none is a negative one, which stands for no limit.
abbrev limited {ℓ} : {A : Type ℓ} → Option ℕ → List A → List A
limited none xs = xs
limited (some n) xs = take n xs

unfoldable pub load_existing_grants : String → ℕ → Option ℕ → Option Cursor → Db → List GrantRow
load_existing_grants viewer now limit cursor db = map to_row (
    limited limit (
      order_by ranks_before (
        select (λ g. g.viewer_id == viewer && is_unexpired now g && is_after cursor g)
          db.od_candidate_grants)))

-- A property that is `undefined` is left out of the object.
abbrev copy : String → Option Json → Fields → Fields
copy name none fs = fs
copy name (some j) fs = field name j fs

abbrev or_empty : Option Json → Json
or_empty none = str ""
or_empty (some null) = str ""
or_empty (some (bool b)) = bool b
or_empty (some (num n)) = num n
or_empty (some (str s)) = str s
or_empty (some (arr js)) = arr js
or_empty (some (obj fs)) = obj fs

abbrev slice_of : ℕ → Option (List Json) → Json
slice_of n none = arr nil
slice_of n (some js) = arr (of_items (take n js))

-- `publicProfile`.
unfoldable pub public_profile : Fields → Fields
public_profile content = field "display_name" (or_empty (get "display_name" content)) (
    copy "age" (get "age" content) (
      copy "gender" (get "gender" content) (
        copy "bio" (get "bio" content) (
          field "interests" (slice_of 30 (as_array (get "interests" content))) (
            copy "relationship_intent" (get "relationship_intent" content) (
              field "prompts" (slice_of 5 (as_array (get "prompts" content)))
                (field "photos" (slice_of 9 (as_array (get "photos" content))) end)))))))

abbrev card : GrantRow → String → Json → Json
card g pubkey content = obj (
    field "pubkey" (str pubkey) (
      field "profile" (obj (public_profile (fields_of content))) (
        field "distance_bucket" (str g.distance_bucket)
          (field "candidate_grant" (str g.grant_token) end))))

-- The loop of `hydrate`: a grant without a pubkey or a profile gives no card.
unfoldable pub cards : List (String × String) → List (String × Json) → List GrantRow → List Json
cards pubkeys profiles [] = []
cards pubkeys profiles (g ∷ grants) =
    let rest = cards pubkeys profiles grants in
    elim (lookup g.candidate_id pubkeys) [
      | none ↦ rest
      | some pubkey ↦ elim (lookup g.candidate_id profiles) [
        | none ↦ rest
        | some content ↦
            if pubkey == "" || not (is_truthy (some content))
            then rest
            else card g pubkey content ∷ rest
      ]
    ]

-- `[...new Set(ids)]`, up to the order, which the queries do not depend on.
unique : List String → List String
unique [] = []
unique (id ∷ ids) = let rest = unique ids in if exists (λ i. i == id) rest then rest else id ∷ rest

unfoldable pub hydrate : World → List GrantRow → Run (List Json)
unfolding unique
hydrate w [] = return []
hydrate w (g ∷ grants) = do
  let ids = unique (map (λ (r : GrantRow). r.candidate_id) (g ∷ grants))
  pubkeys ← get_pubkeys_by_member_ids w ids
  profiles ← get_profile_contents_by_member_ids w ids
  return (cards pubkeys profiles (g ∷ grants))
