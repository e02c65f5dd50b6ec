-- ===== src/Services/Discovery/Preferences.antt =====
-- `updateLocation`, `updatePreferences` and `clampAge` of
-- src/protocols/opendating/services/discovery/service.ts.
use open_dating.Prelude.{
  ℕ, min, max, String, Bool, false, Option, none, some, List, [], ◌∷◌, ◌==◌, ◌&&◌, ◌||◌, not, leb,
  ltb, eqb, if◌then◌else◌, upsert, delete_from, all,
}
use open_dating.Json.{
  Json, null, bool, num, str, arr, obj, field, end, get, as_string, as_array, whole, Number, ratio,
  negative, infinite, minus_infinite, nan, round_ratio,
}
use open_dating.Text.{units, length_of, prefix}
use open_dating.Store.{Db, Prefs, Grant}
use open_dating.World.{World, Run, ◌>>◌, return, execute}
use open_dating.Membership.Members.{is_index_row}
use open_dating.Membership.Profiles.{sync_discovery_index}
use open_dating.Protocol.Envelope.{Envelope, create_envelope, create_error_envelope}
use open_dating.Protocol.Validation.{Request}

-- `clampAge` on a number.
abbrev clamp_number : Number → ℕ → ℕ
clamp_number (ratio a d) fallback = min (max (round_ratio a d) 18) 120
clamp_number (negative a d) fallback = 18
clamp_number infinite fallback = fallback
clamp_number minus_infinite fallback = fallback
clamp_number nan fallback = fallback

unfoldable pub clamp_age : Option Json → ℕ → ℕ
clamp_age (some (num n)) fallback = clamp_number n fallback
clamp_age (some null) fallback = fallback
clamp_age (some (bool b)) fallback = fallback
clamp_age (some (str s)) fallback = fallback
clamp_age (some (arr js)) fallback = fallback
clamp_age (some (obj fs)) fallback = fallback
clamp_age none fallback = fallback

-- `[0-9bcdefghjkmnpqrstuvwxyz]`.
abbrev is_geohash_unit : ℕ → Bool
is_geohash_unit u =
    (leb b'0' u && leb u b'9')
    || (leb b'b' u && leb u b'z' && not (eqb u b'i' || eqb u b'l' || eqb u b'o'))

abbrev refuse : World → Request → String → Envelope
refuse w request message =
    create_error_envelope w.now (str request.request_id) "invalid_envelope" message

abbrev updated : World → Request → String → Envelope
updated w request message_type =
    create_envelope w.now message_type (str request.request_id)
      (field "updated_at" (num (whole w.now)) end)

-- The upsert of `updateLocation`.
unfoldable pub write_location : String → String → ℕ → Db → Db
write_location member geohash now db = record db {
  od_discovery_index =
      upsert (is_index_row member)
        (record {
          member_id = member;
          geo_cell_p5 = some (prefix 5 geohash);
          geo_cell_p4 = some (prefix 4 geohash);
          geo_cell_p3 = some (prefix 3 geohash);
          age = none;
          gender_category = none;
          intent_category = none;
          visible = false;
          trust_tier = 0;
          activity_bucket = some "recently";
          updated_at = now;
        })
        (λ r. record r {
          geo_cell_p5 = some (prefix 5 geohash);
          geo_cell_p4 = some (prefix 4 geohash);
          geo_cell_p3 = some (prefix 3 geohash);
          activity_bucket = some "recently";
          updated_at = now;
        })
        db.od_discovery_index;
}

unfoldable pub update_location : World → String → String → Request → Run Envelope
unfolding all
update_location w sender member request = elim (as_string (get "geohash_prefix" request.payload)) [
  | none ↦ return (refuse w request "geohash_prefix must be 3-6 characters (coarse location only)")
  | some geohash ↦
      if ltb (length_of geohash) 3 || ltb 6 (length_of geohash)
      then return (refuse w request "geohash_prefix must be 3-6 characters (coarse location only)")
      else if not (all is_geohash_unit (units geohash))
      then return
          (refuse w request "geohash_prefix contains characters outside the geohash alphabet")
      else do
        execute (write_location member geohash w.now)
        sync_discovery_index w sender
        return (updated w request "discovery.update_location.result")
]

-- The texts among the items of an array; an empty list is stored as NULL.
texts_of : List Json → List String
texts_of [] = []
texts_of (j ∷ js) =
    let rest = texts_of js in elim (as_string (some j)) [ some s ↦ s ∷ rest | none ↦ rest ]

abbrev or_null : List String → Option (List String)
or_null [] = none
or_null (s ∷ ss) = some (s ∷ ss)

unfoldable pub genders_of : Option (List Json) → Option (List String)
unfolding texts_of
genders_of none = none
genders_of (some js) = or_null (texts_of js)

unfoldable pub distance_of : Option Json → ℕ
distance_of (some (num (ratio a d))) = if ltb 0 a then min (round_ratio a d) 500 else 100
distance_of (some (num infinite)) = 500
distance_of (some (num (negative a d))) = 100
distance_of (some (num minus_infinite)) = 100
distance_of (some (num nan)) = 100
distance_of (some null) = 100
distance_of (some (bool b)) = 100
distance_of (some (str s)) = 100
distance_of (some (arr js)) = 100
distance_of (some (obj fs)) = 100
distance_of none = 100

-- The upsert of `updatePreferences` and the `DELETE` behind it.
unfoldable pub write_preferences : Prefs → Db → Db
write_preferences row db = record db {
  od_discovery_prefs =
      upsert (λ (p : Prefs). p.member_id == row.member_id) row (λ p. row) db.od_discovery_prefs;
  od_candidate_grants =
      delete_from (λ (g : Grant). g.viewer_id == row.member_id) db.od_candidate_grants;
}

unfoldable pub update_preferences : World → String → String → Request → Run Envelope
update_preferences w sender member request =
    let age_min = clamp_age (get "min_age" request.payload) 18 in
    let age_max = clamp_age (get "max_age" request.payload) 99 in
    if ltb age_max age_min then return (refuse w request "min_age must not exceed max_age") else do
      execute (
          write_preferences (record {
            member_id = member;
            age_min = age_min;
            age_max = age_max;
            max_distance_km = distance_of (get "max_distance_km" request.payload);
            genders = genders_of (as_array (get "genders" request.payload));
            intent = as_string (get "intent" request.payload);
            updated_at = w.now;
          }))
      sync_discovery_index w sender
      return (updated w request "discovery.update_preferences.result")
