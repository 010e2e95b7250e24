-- ===== src/Prelude/Document.antt =====
-- Values of JSON and YAML documents, as Python sees them. Whole numbers are natural: the documents that
-- the program reads hold counts and capacities. A float is the text that Python shows it as.
use Prim.Native.Nat.{ℕ, suc}
use Prim.Native.String.{String}
use mathlib.Core.Bool.{Bool, true, false, not, ◌&&◌, ◌||◌}
use mathlib.Core.Option.{Option, none, some}
use mathlib.Core.List.{List, [], ◌∷◌}
use krateo_openstack_bluepri.Prelude.Tests.{if◌then◌else◌, eqb}
use krateo_openstack_bluepri.Prelude.Text.{◌==◌, ◌+++◌, is_empty, show_nat}

mutual
  -- A mapping in its order of insertion.
  pub data Fields : Type 0 where
    field : String → Value → Fields → Fields
    end : Fields

  pub data Items : Type 0 where
    cons : Value → Items → Items
    nil : Items

  pub data Value : Type 0 where
    obj : Fields → Value
    arr : Items → Value
    str : String → Value
    num : ℕ → Value
    real : String → Value
    bool : Bool → Value
    null : Value

abbrev pub items : Items → List Value
items nil = []
items (cons v vs) = v ∷ items vs

abbrev pub of_items : List Value → Items
of_items [] = nil
of_items (v ∷ vs) = cons v (of_items vs)

abbrev pub keys : Fields → List String
keys end = []
keys (field k v fs) = k ∷ keys fs

-- `d[k]`, where it is there
abbrev pub find : String → Fields → Option Value
find k end = none
find k (field j v fs) = if j == k then some v else find k fs

-- `d[k] = v`
abbrev pub store : String → Value → Fields → Fields
store k v end = field k v end
store k v (field j w fs) = if j == k then field j v fs else field j w (store k v fs)

abbrev pub is_zero : String → Bool
is_zero r = r == "0.0" || r == "-0.0"

-- `bool(v)`
abbrev pub truthy : Value → Bool
truthy null = false
truthy (bool b) = b
truthy (num n) = not (eqb n 0)
truthy (real r) = not (is_zero r)
truthy (str s) = not (is_empty s)
truthy (arr nil) = false
truthy (arr (cons v vs)) = true
truthy (obj end) = false
truthy (obj (field k v fs)) = true

-- `v or d`
abbrev pub or_else : Value → Value → Value
or_else v d = if truthy v then v else d

-- `v == w` for a text w
abbrev pub is_text : Value → String → Bool
is_text (str s) w = s == w
is_text _ w = false

abbrev pub count_fields : Fields → ℕ
count_fields end = 0
count_fields (field k v fs) = suc (count_fields fs)

abbrev pub bool_num : Bool → ℕ
bool_num true = 1
bool_num false = 0

-- Two floats, and a float and a whole number below 10 ** 16, which is shown without an exponent.
abbrev pub same_real : String → String → Bool
same_real a b = if is_zero a then is_zero b else (a == b && not (a == "nan"))

abbrev pub real_is : String → ℕ → Bool
real_is r n = if eqb n 0 then is_zero r else r == show_nat n +++ ".0"

-- `a == b`: mappings compare without their order, and a bool is the number 0 or 1.
unfoldable mutual
  pub same : Value → Value → Bool
  same null null = true
  same (bool a) (bool b) = eqb (bool_num a) (bool_num b)
  same (bool a) (num n) = eqb (bool_num a) n
  same (num n) (bool b) = eqb n (bool_num b)
  same (num n) (num m) = eqb n m
  same (real a) (real b) = same_real a b
  same (real a) (num n) = real_is a n
  same (num n) (real a) = real_is a n
  same (real a) (bool b) = real_is a (bool_num b)
  same (bool b) (real a) = real_is a (bool_num b)
  same (str s) (str t) = s == t
  same (arr xs) (arr ys) = same_items xs ys
  same (obj fs) (obj gs) = eqb (count_fields fs) (count_fields gs) && same_fields fs gs
  same _ _ = false

  pub same_items : Items → Items → Bool
  same_items nil nil = true
  same_items (cons x xs) (cons y ys) = same x y && same_items xs ys
  same_items _ _ = false

  pub same_fields : Fields → Fields → Bool
  same_fields end gs = true
  same_fields (field k v fs) gs = elim (find k gs) [
    | none ↦ false
    | some w ↦ same v w && same_fields fs gs
  ]
