-- ===== src/Prelude/Raising.antt =====
-- Results of statements that may raise, and the exceptions that the program tells apart.
use Prim.Native.Nat.{ℕ}
use Prim.Native.String.{String}
use mathlib.Core.Path.{◌≡◌, refl}
use mathlib.Core.Logic.{◌⊎◌, inl, inr}
use mathlib.Core.Option.{none, some}
use mathlib.Core.List.{List, [], ◌∷◌}
use krateo_openstack_bluepri.Prelude.Document.{
  Value, null, nil, or_else, str, arr, obj, items, keys, find,
}

pub data Exception : Type 0 where
  key_error : String → Exception
  type_error value_error attribute_error zero_division : Exception
  http_error : ℕ → Exception
  timed_out : Exception
  other_error : String → Exception
  system_exit : String → Exception

pub data Result {ℓ} (A : Type ℓ) : Type ℓ where
  return : A → Result A
  raise : Exception → Result A

module _ {ℓ κ} {A : Type ℓ} {B : Type κ} where
  infixl 5 ◌>>=◌
  abbrev pub ◌>>=◌ : Result A → (A → Result B) → Result B
  return a >>= next = next a
  raise e >>= next = raise e

module _ {ℓ} {B : Type ℓ} where
  infixl 5 ◌>>◌
  abbrev pub ◌>>◌ : Result (Unit {0}) → Result B → Result B
  first >> next = first >>= λ done. next

-- `v[k]`
abbrev pub index : Value → String → Result Value
index (obj fs) k = elim (find k fs) [ none ↦ raise (key_error k) | some v ↦ return v ]
index _ k = raise type_error

-- `v.get(k, d)`
abbrev pub get_default : Value → String → Value → Result Value
get_default (obj fs) k d = elim (find k fs) [ none ↦ return d | some v ↦ return v ]
get_default _ k d = raise attribute_error

-- `for x in v`: a mapping yields its keys. A text is not iterated by the program.
texts : List String → List Value
texts [] = []
texts (k ∷ ks) = str k ∷ texts ks

unfoldable pub iterate : Value → Result (List Value)
unfolding texts
iterate (arr xs) = return (items xs)
iterate (obj fs) = return (texts (keys fs))
iterate _ = raise type_error

-- `v.get(k) or []`
unfoldable pub listed : Value → String → Result (List Value)
unfolding iterate
listed v k = do w ← get_default v k null; iterate (or_else w (arr nil))

pub Result-cases {ℓ} :
    {A : Type ℓ} (r : Result A) → ((a : A) × (r ≡ return a)) ⊎ ((e : Exception) × (r ≡ raise e))
Result-cases (return a) = inl (a, refl)
Result-cases (raise e) = inr (e, refl)

pub return_inj {ℓ} : {A : Type ℓ} {a b : A} → return a ≡ return b → a ≡ b
return_inj h = cc

-- A sequence that returns has returned at each step.
pub >>=-inv :
    {A B : Type 0} (m : Result A) (f : A → Result B) (b : B)
    → (m >>= f) ≡ return b
    → (a : A) × (m ≡ return a) × (f a ≡ return b)
>>=-inv (return a) f b h = (a, refl, h)
>>=-inv (raise e) f b h = cc

pub raise_return {ℓ κ} : {A : Type ℓ} {B : Type κ} {e : Exception} {a : A} → raise e ≡ return a → B
raise_return h = cc
