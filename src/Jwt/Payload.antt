-- ===== src/Jwt/Payload.antt =====
-- The payload of a token: a `dict` from names to values.
use fastdjango.Base.{
  Bool, false, List, [], ◌∷◌, Option, none, some, Text, ◌==◌, text_eq, if◌then◌else◌,
}
use fastdjango.Base.Int.{ℤ}
use fastdjango.Model.{DateTime}

-- What `int()` reads of a float: its integer part, or that it has none.
pub data Float : Type 0 where
  finite : ℤ → Float
  infinite nan : Float

-- A value of a claim. No code reads what a list or a dictionary holds.
pub data Value : Type 0 where
  null : Value
  boolean : Bool → Value
  int : ℤ → Value
  float : Float → Value
  str : Text → Value
  date : DateTime → Value
  container : Value

abbrev pub Claims : Type 0
Claims = List (Text × Value)

-- `payload.get(key)`
unfoldable pub get : Text → Claims → Option Value
get key [] = none
get key ((k, v) ∷ rest) = if k == key then some v else get key rest

-- An entry of a dictionary display: it replaces an entry of the same key, or is added.
unfoldable pub put : Text → Value → Claims → Claims
put key value [] = (key, value) ∷ []
put key value ((k, v) ∷ rest) = if k == key then (k, value) ∷ rest else (k, v) ∷ put key value rest

-- `value == text`, which is false where the value is no `str` or is missing
unfoldable pub is_str : Text → Option Value → Bool
is_str text (some (str s)) = s == text
is_str text _ = false
