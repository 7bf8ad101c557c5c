-- ===== src/Tooling/Json.antt =====
-- JSON values, as the commands under tooling/sanctifier-cli/src/commands read them.
use Prim.Native.String.{String}
use text.Mathlib.Text.{◌==◌ as str_eq}
use sanctifier.Base.{Bool, ◌≡◌, refl, ap, Option, none, some, List, [], ◌∷◌, if◌then◌else◌}
use sanctifier.Host.{unwrap_or, bind}

-- A number is kept as its text.
mutual
  pub data Value : Type 0 where
    null : Value
    bool : Bool → Value
    number : String → Value
    string : String → Value
    array : Items → Value
    object : Fields → Value

  pub data Items : Type 0 where
    nil : Items
    cons : Value → Items → Items

  pub data Fields : Type 0 where
    end : Fields
    field : String → Value → Fields → Fields

abbrev pub items : Items → List Value
items nil = []
items (cons v vs) = v ∷ items vs

abbrev pub items_of : List Value → Items
items_of [] = nil
items_of (v ∷ vs) = cons v (items_of vs)

pub items-items_of : (vs : List Value) → items (items_of vs) ≡ vs
items-items_of [] = refl
items-items_of (v ∷ vs) = ap (λ ws. v ∷ ws) (items-items_of vs)

abbrev pub find : String → Fields → Option Value
find k end = none
find k (field j v fs) = if str_eq j k then some v else find k fs

-- `value.get(key)`
abbrev pub get : String → Value → Option Value
get k (object fs) = find k fs
get k _ = none

-- `value.as_array()`
abbrev pub as_array : Value → Option (List Value)
as_array (array vs) = some (items vs)
as_array _ = none

-- `value.as_str()`
abbrev pub as_str : Value → Option String
as_str (string s) = some s
as_str _ = none

-- `map.insert(key, value)`
abbrev pub insert : String → Value → Fields → Fields
insert k v end = field k v end
insert k v (field j w fs) = if str_eq j k then field j v fs else field j w (insert k v fs)

-- `value.get(key).and_then(|v| v.as_array())`
abbrev pub get_array : String → Value → Option (List Value)
get_array k v = bind (get k v) as_array

-- `value.get(key).and_then(|v| v.as_str())`
abbrev pub get_str : String → Value → Option String
get_str k v = bind (get k v) as_str

abbrev pub str_or_empty : String → Value → String
str_or_empty k v = unwrap_or (get_str k v) ""
