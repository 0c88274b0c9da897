-- ===== src/Core/Json.antt =====
-- JSON values and `JSON.stringify(value, keys)`, as capability.ts calls it to hash the parameters.
use Prim.Native.String.{◌++◌}
use razorpay_buildathon.Base.{
  ℕ, String, Bool, Option, none, some, List, [], ◌∷◌, ◌===◌, if◌then◌else◌,
}
use razorpay_buildathon.Core.Platform.{Platform}

mutual
  pub data Value : Type 0 where
    null : Value
    flag : Bool → Value
    number : ℕ → Value
    text : String → Value
    array : Items → Value
    object : Fields → Value

  pub data Items : Type 0 where
    nil : Items
    item : Value → Items → Items

  -- The fields of an object, as `Record<string, unknown>`.
  pub data Fields : Type 0 where
    end : Fields
    field : String → Value → Fields → Fields

abbrev pub Params : Type 0
Params = Fields

abbrev pub keys : Fields → List String
keys end = []
keys (field k v fs) = k ∷ keys fs

abbrev pub get_field : Fields → String → Option Value
get_field end k = none
get_field (field j v fs) k = if j === k then some v else get_field fs k

abbrev pub join : String → List String → String
join sep [] = ""
join sep (s ∷ []) = s
join sep (s ∷ t ∷ rest) = s ++ (sep ++ join sep (t ∷ rest))

abbrev pub find_text : List (String × String) → String → Option String
find_text [] k = none
find_text ((j, s) ∷ rest) k = if j === k then some s else find_text rest k

-- Of an object's printed fields, those that the array of keys names, in the array's order.
abbrev pub select : Platform → List String → List (String × String) → List String
select pf [] printed = []
select pf (k ∷ ks) printed = elim (find_text printed k) [
  | none ↦ select pf ks printed
  | some s ↦ (pf.quote k ++ (":" ++ s)) ∷ select pf ks printed
]

-- The array of keys filters the fields of every object in the value, at any depth.
unfoldable mutual
  pub stringify : Platform → List String → Value → String
  stringify pf ks null = "null"
  stringify pf ks (flag b) = if b then "true" else "false"
  stringify pf ks (number n) = pf.show_number n
  stringify pf ks (text s) = pf.quote s
  stringify pf ks (array xs) = "[" ++ (join "," (stringify_items pf ks xs) ++ "]")
  stringify pf ks (object fs) = "{" ++ (join "," (select pf ks (stringify_fields pf ks fs)) ++ "}")

  pub stringify_items : Platform → List String → Items → List String
  stringify_items pf ks nil = []
  stringify_items pf ks (item v xs) = stringify pf ks v ∷ stringify_items pf ks xs

  pub stringify_fields : Platform → List String → Fields → List (String × String)
  stringify_fields pf ks end = []
  stringify_fields pf ks (field k v fs) = (k, stringify pf ks v) ∷ stringify_fields pf ks fs
