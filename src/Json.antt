-- ===== src/Json.antt =====
-- The values that Python's `json` gives for a request body or a stored payload, and how the source
-- reads them. A number is a natural number: every number the program reads from a payload is an id
-- or a count.
use flakehound.Base.{
  ℕ, String, Bool, true, false, not, ◌&&◌, Option, none, some, ◌==◌, same, if◌then◌else◌,
}

mutual
  pub data Json : Type 0 where
    null : Json
    bool : Bool → Json
    num : ℕ → Json
    str : String → Json
    arr : Items → Json
    obj : Fields → Json

  pub data Items : Type 0 where
    nil : Items
    cons : Json → Items → Items

  pub data Fields : Type 0 where
    end : Fields
    field : String → Json → Fields → Fields

-- dict.get(key), where a missing key and a null read alike
unfoldable pub find : String → Fields → Json
find k end = null
find k (field j v fs) = if same j k then v else find k fs

-- payload.get(key)
unfoldable pub get : String → Json → Json
unfolding find
get k (obj fs) = find k fs
get k _ = null

-- The value as an id, or `none` where Python reads None or another falsy value.
unfoldable pub as_num : Json → Option ℕ
as_num (num n) = if n == 0 then none else some n
as_num _ = none

unfoldable pub as_str : Json → Option String
as_str (str s) = some s
as_str _ = none

-- The value as a number, 0 included.
unfoldable pub number : Json → Option ℕ
number (num n) = some n
number _ = none

-- payload.get(key, default)
unfoldable pub find_or : Json → String → Fields → Json
find_or default k end = default
find_or default k (field j v fs) = if same j k then v else find_or default k fs

unfoldable pub get_or : Json → String → Json → Json
unfolding find_or
get_or default k (obj fs) = find_or default k fs
get_or default k _ = default

-- bool(value)
unfoldable pub truthy : Json → Bool
truthy null = false
truthy (bool b) = b
truthy (num n) = not (n == 0)
truthy (str s) = not (same s "")
truthy (arr nil) = false
truthy (arr (cons x xs)) = true
truthy (obj end) = false
truthy (obj (field k v fs)) = true

-- value or "", of a text
unfoldable pub text_or_empty : Json → String
text_or_empty (str s) = s
text_or_empty _ = ""

-- The items of `value or []` where a loop goes over them; `none` where Python raises.
unfoldable pub list_of : Json → Option Items
unfolding truthy
list_of (arr xs) = some xs
list_of v = if truthy v then none else some nil

abbrev pub is_object : Json → Bool
is_object (obj fs) = true
is_object v = false

unfoldable pub are_objects : Items → Bool
are_objects nil = true
are_objects (cons x xs) = is_object x && are_objects xs
