-- ===== src/Dag/Verdict.antt =====
-- What the verdict of hack/validate-component-dag.py says of an install.
use krateo_openstack_bluepri.Prelude.{
  String, true, some, List, [], ◌∷◌, ◌++◌, ◌≡◌, ◌≢◌, ◌↔◌, refl, names_of, sorted, map,
}
use krateo_openstack_bluepri.Dag.Graph.{
  Component, Components, collect, declares, Chain-first, Safe, safe, Emitted, emit, Safe-acyclic,
  In-declares, declares-In, waits-In,
}
use krateo_openstack_bluepri.Dag.Visit.{Search, search}
use krateo_openstack_bluepri.Dag.Visit.Sound.{search-Safe}
use krateo_openstack_bluepri.Dag.Visit.Ends.{search_ends}
use krateo_openstack_bluepri.Dag.Visit.Reports.{search_quiet}
use krateo_openstack_bluepri.Dag.{
  Chart, Problem, closure_problems, cycle_problems, cycle, kind_problems, chart_problems, problems,
  pass, out_of_fuel, exit_with, measure, main,
}
use krateo_openstack_bluepri.Dag.Closure.{
  IsClosed, IsDict, append-eq-nil, collect-IsDict, closure_problems-eq-nil,
  IsClosed-closure_problems,
}

Safe-Emitted :
    {comps : Components} {n : String}
    → IsClosed comps
    → Safe comps n
    → declares comps n ≡ true
    → Emitted comps n
Safe-Emitted {n = n} closed (safe h) k =
    emit k (λ d m. let known = closed n d m in Safe-Emitted closed (h d (m, known)) known)

Emitted-Safe : {comps : Components} {n : String} → Emitted comps n → Safe comps n
Emitted-Safe (emit k h) = safe (λ d w. Emitted-Safe (h d w.0))

Emitted-declares : {comps : Components} {n : String} → Emitted comps n → declares comps n ≡ true
Emitted-declares (emit k h) = k

Emitted-IsClosed :
    {comps : Components}
    → ((n : String) → declares comps n ≡ true → Emitted comps n)
    → IsClosed comps
Emitted-IsClosed {comps = comps} all n d m =
    elim (all n (In-declares comps n (waits-In comps n d m))) [
      | emit k h ↦ Emitted-declares (h d m)
    ]

-- Where the components have distinct names, the closure check and the search report nothing exactly
-- when the orchestrator comes to emit every component.
pub graph_decides_install :
    (comps : Components) (t : Search)
    → IsDict comps
    → search comps ≡ some t
    → ((closure_problems comps ≡ []) × (t.cycles ≡ []))
      ↔ ((n : String) → declares comps n ≡ true → Emitted comps n)
graph_decides_install comps t dict e = (
  λ (none_open, quiet) n k.
      Safe-Emitted (closure_problems-eq-nil comps none_open)
        (search-Safe comps t e quiet n (declares-In comps n k)) k,
  λ all. (
    IsClosed-closure_problems comps dict (Emitted-IsClosed all),
    search_quiet comps t e λ n c.
        let (d, first, _) = Chain-first c in
        Safe-acyclic (Emitted-Safe (all n (In-declares comps n (waits-In comps n d first.0)))) c,
  ),
)

module _ (helm : String → Chart) where
  measure_ends : (comps : Components) → measure helm comps ≢ out_of_fuel
  measure_ends [] e = cc
  measure_ends (c ∷ cs) e =
      let (t, found) = search_ends (c ∷ cs) in
      exit_ends (problems helm (c ∷ cs) t) (rw (found, measure) at e)
    where
      exit_ends : (ps : List Problem) → exit_with helm ps ≢ out_of_fuel
      exit_ends [] x = cc
      exit_ends (p ∷ ps) x = cc

  exit_pass : (ps : List Problem) → exit_with helm ps ≡ pass → ps ≡ []
  exit_pass [] x = refl
  exit_pass (p ∷ ps) x = cc

  measure_pass :
      (comps : Components)
      → measure helm comps ≡ pass
      → (t : Search) × (search comps ≡ some t) × (problems helm comps t ≡ []) × (comps ≢ [])
  measure_pass [] e = cc
  measure_pass (c ∷ cs) e =
      let (t, found) = search_ends (c ∷ cs) in
      (t, found, exit_pass (problems helm (c ∷ cs) t) (rw (found, measure) at e), (λ x. cc))

  pass_measure :
      (comps : Components) (t : Search)
      → search comps ≡ some t
      → problems helm comps t ≡ []
      → comps ≢ []
      → measure helm comps ≡ pass
  pass_measure [] t found clean full = absurd (full refl)
  pass_measure (c ∷ cs) t found clean full = rw (found, measure) (rw clean)

  problems_split :
      (comps : Components) (t : Search)
      → (problems helm comps t ≡ []) ↔ (
          ((closure_problems comps ≡ []) × (t.cycles ≡ []))
          × ((kind_problems comps ≡ []) × (chart_problems helm (sorted (names_of comps)) ≡ [])))
  unfolding problems
  problems_split comps t = (
    λ e.
        let charts = chart_problems helm (sorted (names_of comps)) in
        let (a, e₁) =
          append-eq-nil (closure_problems comps)
            (cycle_problems t ++ (kind_problems comps ++ charts)) e in
        let (b, e₂) = append-eq-nil (cycle_problems t) (kind_problems comps ++ charts) e₁ in
        ((a, map-eq-nil t.cycles b), append-eq-nil (kind_problems comps) charts e₂),
    λ ((a, b), (c, d)). rw (a, b, c, d),
  )
    where
      map-eq-nil : (l : List (List String)) → map cycle l ≡ [] → l ≡ []
      map-eq-nil [] x = refl
      map-eq-nil (p ∷ l) x = cc

-- The script always comes to a verdict: `visit` never runs out of fuel.
pub main_ends : (helm : String → Chart) (cs : List Component) → main helm cs ≢ out_of_fuel
unfolding main
main_ends helm cs = measure_ends helm (collect cs)

-- The script exits with status 0 exactly when there is a component, the orchestrator comes to emit
-- every component, and neither a kind nor a chart has a problem.
pub main_pass_iff :
    (helm : String → Chart) (cs : List Component)
    → (main helm cs ≡ pass) ↔ (
        (collect cs ≢ [])
        × ((n : String) → declares (collect cs) n ≡ true → Emitted (collect cs) n)
        × (kind_problems (collect cs) ≡ [])
        × (chart_problems helm (sorted (names_of (collect cs))) ≡ []))
unfolding main
main_pass_iff helm cs = (
  λ e.
      let (t, found, clean, full) = measure_pass helm (collect cs) e in
      let (graph, (kinds, charts)) = (problems_split helm (collect cs) t).0 clean in
      (
        full,
        (graph_decides_install (collect cs) t (collect-IsDict cs) found).0 graph,
        kinds,
        charts,
      ),
  λ (full, all, kinds, charts).
      let (t, found) = search_ends (collect cs) in
      pass_measure helm (collect cs) t found
        ((problems_split helm (collect cs) t).1
          ((graph_decides_install (collect cs) t (collect-IsDict cs) found).1 all, (kinds, charts)))
        full,
)
