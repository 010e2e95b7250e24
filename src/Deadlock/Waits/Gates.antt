-- ===== src/Deadlock/Waits/Gates.antt =====
-- Which gate the graph gives each declared dependency.
use krateo_openstack_bluepri.Prelude.{
  String, true, false, not, Bool-cases, ◌&&◌, ◌||◌, ◌≡◌, refl, ap, ◌∙◌, arith, inl, inr, List, [],
  ◌∷◌, ◌++◌, In, contains, ◌==◌, eq_iff, names_of, In-sorted_by,
}
use krateo_openstack_bluepri.Deadlock.{Node, composition, creation, node_eq}
use krateo_openstack_bluepri.Deadlock.Owners.{Chart, Charts, in_order, Owners}
use krateo_openstack_bluepri.Deadlock.Waits.{
  Wait, Workloads, waits, all_workload_waits, is_relaxed, gate_waits, deps_at, calls, build_graph,
}
use krateo_openstack_bluepri.Deadlock.Waits.Joined.{waits-append, waits-add_all, workloads_none}

-- What the declared dependencies of `comp` gate the creation of `c` on.
gates-ready :
    (relaxed : List (String × String)) (comp c d : String) (deps : List String)
    → waits (gate_waits relaxed comp deps) (creation c) (composition d)
      ≡ (comp == c && (contains deps d && not (is_relaxed relaxed comp d)))
unfolding gate_waits node_eq
gates-ready relaxed comp c d [] = ground arith
gates-ready relaxed comp c d (dep ∷ deps) = elim (Bool-cases (dep == d)) [
  | inl same ↦
      let e : is_relaxed relaxed comp dep ≡ is_relaxed relaxed comp d =
        ap (is_relaxed relaxed comp) ((eq_iff dep d).0 same) in
      elim (Bool-cases (is_relaxed relaxed comp dep)) [
        | inl loose ↦ rw loose (ground (arith, gates-ready relaxed comp c d deps))
        | inr strict ↦ rw strict (ground (arith, gates-ready relaxed comp c d deps))
      ]
  | inr other ↦ elim (Bool-cases (is_relaxed relaxed comp dep)) [
    | inl loose ↦ rw loose (ground (arith, gates-ready relaxed comp c d deps))
    | inr strict ↦ rw strict (ground (arith, gates-ready relaxed comp c d deps))
  ]
]

gates-exist :
    (relaxed : List (String × String)) (comp c d : String) (deps : List String)
    → waits (gate_waits relaxed comp deps) (creation c) (creation d)
      ≡ (comp == c && (contains deps d && is_relaxed relaxed comp d))
unfolding gate_waits node_eq
gates-exist relaxed comp c d [] = ground arith
gates-exist relaxed comp c d (dep ∷ deps) = elim (Bool-cases (dep == d)) [
  | inl same ↦
      let e : is_relaxed relaxed comp dep ≡ is_relaxed relaxed comp d =
        ap (is_relaxed relaxed comp) ((eq_iff dep d).0 same) in
      elim (Bool-cases (is_relaxed relaxed comp dep)) [
        | inl loose ↦ rw loose (ground (arith, gates-exist relaxed comp c d deps))
        | inr strict ↦ rw strict (ground (arith, gates-exist relaxed comp c d deps))
      ]
  | inr other ↦ elim (Bool-cases (is_relaxed relaxed comp dep)) [
    | inl loose ↦ rw loose (ground (arith, gates-exist relaxed comp c d deps))
    | inr strict ↦ rw strict (ground (arith, gates-exist relaxed comp c d deps))
  ]
]

names-In :
    (charts : Charts) (c : String) (chart : Chart)
    → In (c, chart) charts
    → contains (names_of charts) c ≡ true
names-In [] c chart h = absurd h
names-In ((d, other) ∷ charts) c chart (inl e) =
    ground (arith, eq_iff d c, ap (λ (p : String × Chart). p.0) e)
names-In ((d, other) ∷ charts) c chart (inr h) = ground (arith, names-In charts c chart h)

module _ (owners : Owners) (workloads : Workloads) (comps : List (String × List String))
    (relaxed : List (String × String)) (c d : String) where
  three-parts :
      (ws gates later : List Wait) (x : Node)
      → waits ws (creation c) x ≡ false
      → waits (ws ++ (gates ++ later)) (creation c) x
        ≡ (waits gates (creation c) x || waits later (creation c) x)
  three-parts ws gates later x quiet = ground (
    arith,
    waits-append ws (gates ++ later) (creation c) x,
    waits-append gates later (creation c) x,
  )

  calls-gates :
      (charts : Charts)
      → (waits (calls owners workloads comps relaxed charts) (creation c) (composition d) ≡ (
          contains (names_of charts) c
          && (contains (deps_at comps c) d && not (is_relaxed relaxed c d))))
        × (waits (calls owners workloads comps relaxed charts) (creation c) (creation d) ≡ (
            contains (names_of charts) c
            && (contains (deps_at comps c) d && is_relaxed relaxed c d)))
  unfolding calls
  calls-gates [] = (refl, refl)
  calls-gates ((comp, chart) ∷ more) =
      let later = calls owners workloads comps relaxed more in
      let gates = gate_waits relaxed comp (deps_at comps comp) in
      let ws = all_workload_waits owners workloads comp chart chart.workloads in
      let quiet = λ (x : Node). workloads_none owners workloads c x comp chart chart.workloads in
      let (ready, exist) = calls-gates more in
      let ready_here = three-parts ws gates later (composition d) (quiet (composition d)) in
      let exist_here = three-parts ws gates later (creation d) (quiet (creation d)) in
      let ready_gate = gates-ready relaxed comp c d (deps_at comps comp) in
      let exist_gate = gates-exist relaxed comp c d (deps_at comps comp) in
      elim (Bool-cases (comp == c)) [
        | inr other ↦ (ground (arith, ready), ground (arith, exist))
        | inl same ↦
            let name : comp ≡ c = (eq_iff comp c).0 same in
            let deps : contains (deps_at comps comp) d ≡ contains (deps_at comps c) d =
              ap (λ (n : String). contains (deps_at comps n) d) name in
            let loose : is_relaxed relaxed comp d ≡ is_relaxed relaxed c d =
              ap (λ (n : String). is_relaxed relaxed n d) name in
            (ground (arith, ready), ground (arith, exist))
      ]

-- For a component with a chart, its creation waits for a dependency to be Ready exactly when the
-- dependency is declared and not relaxed, and for it to exist exactly when it is declared and relaxed.
pub build_graph-gates :
    (charts : Charts) (comps : List (String × List String)) (relaxed : List (String × String))
    (workloads : Workloads) (owners : Owners) (c d : String) (chart : Chart)
    → In (c, chart) charts
    → let graph = build_graph charts comps relaxed workloads owners in
      (waits graph (creation c) (composition d)
        ≡ (contains (deps_at comps c) d && not (is_relaxed relaxed c d)))
      × (waits graph (creation c) (creation d)
          ≡ (contains (deps_at comps c) d && is_relaxed relaxed c d))
unfolding build_graph
build_graph-gates charts comps relaxed workloads owners c d chart m =
    let all = calls owners workloads comps relaxed (in_order charts) in
    let known =
      names-In (in_order charts) c chart
        ((In-sorted_by (λ (e : String × Chart). e.0) (c, chart) charts).1 m) in
    let (ready, exist) = calls-gates owners workloads comps relaxed c d (in_order charts) in
    (
      waits-add_all [] all (creation c) (composition d) ∙ ready ∙ rw known refl,
      waits-add_all [] all (creation c) (creation d) ∙ exist ∙ rw known refl,
    )
