-- ===== src/Dag.antt =====
-- hack/validate-component-dag.py: the umbrella's component graph is closed and acyclic, every kind
-- is the capitalised name, and every chart renders. The parameter `helm` stands for what is not in
-- the script: the chart's files, and `helm template` run on a copy of them.
pub mod Graph
pub mod Visit
pub mod Closure
pub mod Verdict
mod Samples
use Prim.Native.Nat.{◌+◌, ◌-◌}
use krateo_openstack_bluepri.Prelude.{
  ℕ, String, Bool, true, false, ◌&&◌, Option, none, some, List, [], ◌∷◌, ◌++◌, map, if◌then◌else◌,
  leb, ◌==◌, codes, same_codes, lower, names_of, sorted, sorted_by,
}
use krateo_openstack_bluepri.Dag.Graph.{Component, Components, collect, declares}
use krateo_openstack_bluepri.Dag.Visit.{Search, search}

pub data Chart : Type 0 where
  missing : Chart
  failed : String → Chart
  nothing : Chart
  objects : Chart

pub data Problem : Type 0 where
  dangling : (name dep : String) → Problem
  cycle : List String → Problem
  wrong_kind : String → Option String → Problem
  no_chart : String → Problem
  template_failed : String → String → Problem
  rendered_nothing : String → Problem

-- 1. closure: the inner loop, for the component `n`
unfoldable pub dangling_deps : Components → String → List String → List Problem
dangling_deps comps n [] = []
dangling_deps comps n (d ∷ ds) =
    let rest = dangling_deps comps n ds in if declares comps d then rest else dangling n d ∷ rest

closure_from : Components → List (String × Component) → List Problem
closure_from comps [] = []
closure_from comps ((n, c) ∷ cs) = dangling_deps comps n c.deps ++ closure_from comps cs

abbrev pub by_name : Components → List (String × Component)
by_name comps = sorted_by (λ (e : String × Component). e.0) comps

unfoldable pub closure_problems : Components → List Problem
unfolding closure_from dangling_deps
closure_problems comps = closure_from comps (by_name comps)

-- 2. acyclicity: the reports of `visit`, as problems
abbrev pub cycle_problems : Search → List Problem
cycle_problems s = map cycle s.cycles

-- `n.capitalize()`, of ASCII letters, as code points
abbrev upper : ℕ → ℕ
upper c = if leb b'a' c && leb c b'z' then c - 32 else c

unfoldable pub capitalize : List ℕ → List ℕ
capitalize [] = []
capitalize (c ∷ cs) = upper c ∷ map lower cs

unfoldable pub serves : String → Option String → Bool
unfolding capitalize
serves n none = false
serves n (some got) = same_codes (codes got) (capitalize (codes n))

-- 3. kind matches the name core-provider will serve
kinds_from : List (String × Component) → List Problem
unfolding serves
kinds_from [] = []
kinds_from ((n, c) ∷ cs) =
    let rest = kinds_from cs in if serves n c.kind then rest else wrong_kind n c.kind ∷ rest

unfoldable pub kind_problems : Components → List Problem
unfolding kinds_from
kind_problems comps = kinds_from (by_name comps)

-- `SKIP_RENDER`
abbrev skip_render : String → Bool
skip_render n = n == "openstack"

abbrev judge : String → Chart → List Problem
judge n missing = no_chart n ∷ []
judge n (failed err) = if skip_render n then [] else template_failed n err ∷ []
judge n nothing = if skip_render n then [] else rendered_nothing n ∷ []
judge n objects = []

module _ (helm : String → Chart) where
  -- 4. a chart exists, and renders
  unfoldable pub chart_problems : List String → List Problem
  chart_problems [] = []
  chart_problems (n ∷ ns) = judge n (helm n) ++ chart_problems ns

  -- What the four parts append to `problems`, in that order.
  unfoldable pub problems : Components → Search → List Problem
  unfolding closure_problems kind_problems chart_problems
  problems comps s =
      closure_problems comps
      ++ (cycle_problems s ++ (kind_problems comps ++ chart_problems (sorted (names_of comps))))

  pub data Exit : Type 0 where
    unmeasured : Exit
    fail : List Problem → Exit
    pass : Exit
    out_of_fuel : Exit

  abbrev exit_with : List Problem → Exit
  exit_with [] = pass
  exit_with (p ∷ ps) = fail (p ∷ ps)

  abbrev measure : Components → Exit
  measure [] = unmeasured
  measure (c ∷ cs) = elim (search (c ∷ cs)) [
    | none ↦ out_of_fuel
    | some s ↦ exit_with (problems (c ∷ cs) s)
  ]

  -- The script from the components of values.yaml on: exit status 2, 1 and 0.
  unfoldable pub main : List Component → Exit
  unfolding problems closure_problems kind_problems chart_problems
  main components = measure (collect components)
