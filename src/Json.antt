-- ===== src/Json.antt =====
-- JSON values and Go's encoding/json as the client uses it: struct encoding as trees of values, and
-- the decoding of struct fields. The grammar of JSON text is not modelled: a response carries the
-- value that its text stands for.
use Prim.Native.Nat.{◌^◌}
use axonops_operator.Prelude.{
  ℕ, ◌-◌, String, Bool, true, false, Option, none, some, List, [], ◌∷◌, leb, equal_fold, ◌&&◌,
  if◌then◌else◌,
}
use axonops_operator.Errors.{Error, foreign, Result, ok, err}

-- `negative n` is the integer -(n + 1), and `fraction` any number that is not an integer.
mutual
  pub data Json : Type 0 where
    null : Json
    bool : Bool → Json
    number : ℕ → Json
    negative : ℕ → Json
    fraction : String → Json
    text : String → Json
    array : Items → Json
    object : Fields → Json

  pub data Items : Type 0 where
    nil : Items
    cons : Json → Items → Items

  pub data Fields : Type 0 where
    end : Fields
    field : String → Json → Fields → Fields

-- A `[]string`; `none` is the nil slice.
unfoldable pub texts : List String → Items
texts [] = nil
texts (t ∷ ts) = cons (text t) (texts ts)

unfoldable pub text_slice : Option (List String) → Json
unfolding texts
text_slice none = null
text_slice (some ts) = array (texts ts)

-- A `map[string]string`.
unfoldable pub text_fields : List (String × String) → Fields
text_fields [] = end
text_fields ((k, v) ∷ m) = field k (text v) (text_fields m)

abbrev pub type_error : Error
type_error = foreign "json: cannot unmarshal value"

-- The fields of a struct's JSON: `null` leaves a struct as it is, other values do not fit.
unfoldable pub fields_of : Json → Result Fields
fields_of (object fs) = ok fs
fields_of null = ok end
fields_of _ = err type_error

-- A Go value of each of the kinds of field that the decoded structs have.
unfoldable pub set_text : Json → Result String → Result String
set_text (text t) (ok _) = ok t
set_text null r = r
set_text _ _ = err type_error

-- A string field: every key that folds to the name is read in turn, and a value of another type is
-- an error in the end.
unfoldable pub text_field : String → Fields → Result String → Result String
unfolding set_text equal_fold
text_field name end r = r
text_field name (field k v fs) r =
    text_field name fs (if equal_fold k name then set_text v r else r)

-- An array field, or its absence.
unfoldable pub set_items : Json → Result Items → Result Items
set_items (array xs) (ok _) = ok xs
set_items null (ok _) = ok nil
set_items _ _ = err type_error

unfoldable pub items_field : String → Fields → Result Items → Result Items
unfolding set_items equal_fold
items_field name end r = r
items_field name (field k v fs) r =
    items_field name fs (if equal_fold k name then set_items v r else r)

unfoldable pub is_text : Json → Bool
is_text (text t) = true
is_text null = true
is_text _ = false

unfoldable pub is_bool : Json → Bool
is_bool (bool b) = true
is_bool null = true
is_bool _ = false

-- What an `int` of 64 bits takes.
unfoldable pub is_int : Json → Bool
is_int (number n) = leb n (2 ^ 63 - 1)
is_int (negative n) = leb n (2 ^ 63 - 1)
is_int null = true
is_int _ = false

all_text : Items → Bool
unfolding is_text
all_text nil = true
all_text (cons v vs) = is_text v && all_text vs

unfoldable pub is_text_slice : Json → Bool
unfolding all_text
is_text_slice (array vs) = all_text vs
is_text_slice null = true
is_text_slice _ = false

all_text_fields : Fields → Bool
unfolding is_text
all_text_fields end = true
all_text_fields (field k v fs) = is_text v && all_text_fields fs

-- What a `map[string]string` takes.
unfoldable pub is_text_map : Json → Bool
unfolding all_text_fields
is_text_map (object fs) = all_text_fields fs
is_text_map null = true
is_text_map _ = false

-- Whether every value given for a name fits its kind.
unfoldable pub field_fits : String → (Json → Bool) → Fields → Bool
unfolding equal_fold
field_fits name fits end = true
field_fits name fits (field k v fs) =
    (if equal_fold k name then fits v else true) && field_fits name fits fs

-- A bool field.
set_bool : Json → Result Bool → Result Bool
set_bool (bool b) (ok _) = ok b
set_bool null r = r
set_bool _ _ = err type_error

unfoldable pub bool_field : String → Fields → Result Bool → Result Bool
unfolding set_bool equal_fold
bool_field name end r = r
bool_field name (field k v fs) r =
    bool_field name fs (if equal_fold k name then set_bool v r else r)

-- A field of type `any`: the last value given for it, and `null` where there is none.
unfoldable pub any_field : String → Fields → Json → Json
unfolding equal_fold
any_field name end v = v
any_field name (field k v fs) w = any_field name fs (if equal_fold k name then v else w)

append_fields : Fields → Fields → Fields
append_fields end gs = gs
append_fields (field k v fs) gs = field k v (append_fields fs gs)

set_struct : Json → Result Fields → Result Fields
unfolding append_fields
set_struct (object gs) (ok fs) = ok (append_fields fs gs)
set_struct null r = r
set_struct _ _ = err type_error

-- A struct field: the fields of all the values given for it, in turn.
unfoldable pub struct_field : String → Fields → Result Fields → Result Fields
unfolding set_struct equal_fold
struct_field name end r = r
struct_field name (field k v fs) r =
    struct_field name fs (if equal_fold k name then set_struct v r else r)
