-- ===== src/Dag/Visit.antt =====
-- `visit` of hack/validate-component-dag.py: a depth-first search with three colours.
mod Paint
pub mod Ends
pub mod Sound
pub mod Reports
use krateo_openstack_bluepri.Prelude.{
  ℕ, zero, suc, String, Bool, true, false, Option, none, some, List, [], ◌∷◌, ◌++◌, map, length,
  insert, lookup, and_then, names_of, sorted, if◌then◌else◌,
}
use krateo_openstack_bluepri.Dag.Graph.{Component, Components, declares, deps_of}

pub data Colour : Type 0 where
  white grey black : Colour

-- `cycles` holds the path of each reported cycle.
pub record Search : Type 0 where
  pub state : List (String × Colour)
  pub cycles : List (List String)

-- `state[n]`; every component has an entry.
abbrev pub colour : Search → String → Colour
colour s n = elim (lookup n s.state) [ none ↦ white | some c ↦ c ]

unfoldable pub paint : String → Colour → Search → Search
paint n c s = record s { state = insert n c s.state }

unfoldable pub report : List String → Search → Search
report path s = record s { cycles = s.cycles ++ path ∷ [] }

module _ (comps : Components) where
  -- The loop over the dependencies; `call` is the recursive call.
  unfoldable pub visit_deps :
      (String → Search → Option Search) → List String → Search → Option Search
  visit_deps call [] s = some s
  visit_deps call (d ∷ ds) s = elim (declares comps d) [
    | true ↦ and_then (call d s) (λ t. visit_deps call ds t)
    | false ↦ visit_deps call ds s
  ]

  -- `none`: the fuel ran out.
  unfoldable pub visit : ℕ → List String → String → Search → Option Search
  unfolding visit_deps paint report
  visit zero stack n s = none
  visit (suc fuel) stack n s = elim (colour s n) [
    | grey ↦ some (report (stack ++ n ∷ []) s)
    | black ↦ some s
    | white ↦
        and_then (visit_deps (visit fuel (stack ++ n ∷ [])) (deps_of comps n) (paint n grey s))
          (λ t. some (paint n black t))
  ]

  -- `for n in sorted(names): visit(n, [])`
  unfoldable pub visit_all : ℕ → List String → Search → Option Search
  unfolding visit
  visit_all fuel [] s = some s
  visit_all fuel (n ∷ ns) s = and_then (visit fuel [] n s) (λ t. visit_all fuel ns t)

  abbrev pub start : Search
  start = record { state = map (λ (e : String × Component). (e.0, white)) comps; cycles = [] }

  -- A path of grey components is never longer than the list of components.
  unfoldable pub search : Option Search
  unfolding visit_all
  search = visit_all (suc (length (names_of comps))) (sorted (names_of comps)) start
