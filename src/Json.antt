-- ===== src/Json.antt =====
-- JSON values as the handlers receive them (the result of `JSON.parse`), and the numbers of
-- JavaScript as far as the code compares and rounds them.
mod Numbers
unfoldable pub use Numbers.*
use open_dating.Prelude.{
  ℕ, ◌≡◌, String, Bool, true, false, Option, none, some, List, [], ◌∷◌, ◌==◌, if◌then◌else◌,
}

mutual
  pub data Json : Type 0 where
    null : Json
    bool : Bool → Json
    num : Number → Json
    str : String → Json
    arr : Items → Json
    obj : Fields → Json

  pub data Items : Type 0 where
    nil : Items
    cons : Json → Items → Items

  pub data Fields : Type 0 where
    end : Fields
    field : String → Json → Fields → Fields

abbrev pub items : Items → List Json
items nil = []
items (cons j js) = j ∷ items js

abbrev pub of_items : List Json → Items
of_items [] = nil
of_items (j ∷ js) = cons j (of_items js)

-- `o[name]`; none is `undefined`.
unfoldable pub get : String → Fields → Option Json
get name end = none
get name (field key j fs) = if key == name then some j else get name fs

-- `typeof j === 'string' ? j : null`, where none is also `undefined`.
abbrev pub as_string : Option Json → Option String
as_string (some (str s)) = some s
as_string (some null) = none
as_string (some (bool b)) = none
as_string (some (num n)) = none
as_string (some (arr js)) = none
as_string (some (obj fs)) = none
as_string none = none

-- `typeof j === 'number' ? j : null`.
abbrev pub as_number : Option Json → Option Number
as_number (some (num n)) = some n
as_number (some null) = none
as_number (some (bool b)) = none
as_number (some (str s)) = none
as_number (some (arr js)) = none
as_number (some (obj fs)) = none
as_number none = none

-- `Array.isArray(j) ? j : null`.
abbrev pub as_array : Option Json → Option (List Json)
as_array (some (arr js)) = some (items js)
as_array (some null) = none
as_array (some (bool b)) = none
as_array (some (str s)) = none
as_array (some (num n)) = none
as_array (some (obj fs)) = none
as_array none = none
