-- ===== src/Json.antt =====
-- JavaScript values of type `unknown`, as the policy code receives them from a parsed request body
-- or a stored document. Two arrays or two objects in one document are distinct references. The
-- code only compares numbers, so a number stands for itself by an index.
use ntauth.Common.{ℕ, suc, Bool, true, false, List, [], ◌∷◌, ◌==◌, if◌then◌else◌, map}
use ntauth.Text.{Text, ◌===◌, decimal}

mutual
  pub data Value : Type 0 where
    undefined null : Value
    bool : Bool → Value
    number : ℕ → Value
    string : Text → Value
    array : Items → Value
    object : Fields → Value

  pub data Items : Type 0 where
    no_items : Items
    item : Value → Items → Items

  pub data Fields : Type 0 where
    no_fields : Fields
    field : Text → Value → Fields → Fields

abbrev pub items : Items → List Value
items no_items = []
items (item v vs) = v ∷ items vs

-- `Object.entries(o)`
abbrev pub entries : Fields → List (Text × Value)
entries no_fields = []
entries (field k v fs) = (k, v) ∷ entries fs

-- `Object.entries(a)` of an array, whose keys are its indices
abbrev pub indexed : ℕ → List Value → List (Text × Value)
indexed n [] = []
indexed n (v ∷ vs) = (decimal n, v) ∷ indexed (suc n) vs

-- `o[key]`, `undefined` for a key that is missing
unfoldable pub get : Text → List (Text × Value) → Value
get key [] = undefined
get key ((k, v) ∷ fs) = if k === key then v else get key fs

-- `Object.keys(o)`
abbrev pub keys : List (Text × Value) → List Text
keys fs = map (λ e. e.0) fs

-- The comparison of `Set`; an object or array is the same as no other one.
unfoldable pub same_value : Value → Value → Bool
same_value undefined undefined = true
same_value null null = true
same_value (bool true) (bool b) = b
same_value (bool false) (bool b) = if b then false else true
same_value (number m) (number n) = m == n
same_value (string s) (string t) = s === t
same_value _ _ = false

-- `isRecord(value)`, with the entries of the record
abbrev pub is_record : Value → Bool
is_record (object fs) = true
is_record _ = false
