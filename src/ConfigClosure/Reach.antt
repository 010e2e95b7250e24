-- ===== src/ConfigClosure/Reach.antt =====
-- `closure` of hack/validate-component-config-closure.py. The stack's top stands first.
pub mod Kept
pub mod Closed
use krateo_openstack_bluepri.Prelude.{
  ℕ, zero, suc, ◌+◌, String, Bool, true, false, Option, none, some, List, [], ◌∷◌, ◌++◌, contains,
  lookup, length, Value, null, str, arr, nil, or_else, Result, return, raise, type_error,
  other_error, ◌>>=◌, get_default, iterate,
}

-- `comps`: a component's mapping by its name
abbrev pub Comps : Type 0
Comps = List (String × Value)

-- Names are texts.
abbrev pub text : Value → Result String
text (str s) = return s
text _ = raise type_error

abbrev pub texts : List Value → Result (List String)
texts [] = return []
texts (v ∷ vs) = do s ← text v; ss ← texts vs; return (s ∷ ss)

-- `c.get("deps") or []`
unfoldable pub deps_in : Value → Result (List String)
unfolding iterate
deps_in c = do
  deps ← get_default c "deps" null
  listed ← iterate (or_else deps (arr nil))
  texts listed

-- `stack.extend(deps)`
abbrev pub extend : List String → List String → List String
extend [] stack = stack
extend (d ∷ deps) stack = extend deps (d ∷ stack)

-- How often a component's mapping extends the stack
abbrev pub width : Value → ℕ
width c = elim (deps_in c) [ return deps ↦ length deps | raise e ↦ 0 ]

abbrev pub widths : Comps → ℕ
widths [] = 0
widths ((name, c) ∷ comps) = width c + widths comps

module _ (comps : Comps) where
  -- `comps.get(n, {}).get("deps") or []`
  unfoldable pub deps_of : String → Result (List String)
  unfolding deps_in
  deps_of n = elim (lookup n comps) [ none ↦ return [] | some c ↦ deps_in c ]

  unfoldable pub search : ℕ → List String → List String → Option (Result (List String))
  unfolding deps_of
  search zero seen stack = none
  search (suc fuel) seen [] = some (return seen)
  search (suc fuel) seen (n ∷ stack) = elim (contains seen n) [
    | true ↦ search fuel seen stack
    | false ↦ elim (deps_of n) [
      | return deps ↦ search fuel (n ∷ seen) (extend deps stack)
      | raise e ↦ some (raise e)
    ]
  ]

  -- Each name but the first enters the stack as a dependency of a component seen for the first time.
  abbrev pub enough : ℕ
  enough = suc (suc (widths comps))

  unfoldable pub closure : String → Result (List String)
  unfolding search
  closure name = elim (search enough [] (name ∷ [])) [
    | some result ↦ result
    | none ↦ raise (other_error "out of fuel")
  ]
