-- ===== src/Deadlock/Verdict/Installs.antt =====
-- What an exit status of 0 of hack/validate-readiness-deadlock.py says of the install.
use krateo_openstack_bluepri.Prelude.{
  ℕ, true, Bool-cases, ◌&&◌, ◌||◌, ◌≡◌, refl, sym, ap, ◌∙◌, subst, arith, inl, inr, some,
  Option-cases, some_inj, none_some, List, [], ◌∷◌, eqb, names_of, sorted, Result, return, raise,
  Result-cases, return_inj, Exception, sort_with,
}
use krateo_openstack_bluepri.Deadlock.{Node}
use krateo_openstack_bluepri.Deadlock.Umbrella.{Comps, Edge, read_umbrella}
use krateo_openstack_bluepri.Deadlock.Gate.{Mode, read_gate, effective}
use krateo_openstack_bluepri.Deadlock.Owners.{
  Charts, Owners, Unresolved, Resolved, no_single_owner, undeclared, resolved, resolve,
}
use krateo_openstack_bluepri.Deadlock.Collect.{collect}
use krateo_openstack_bluepri.Deadlock.Waits.{Wait, workloads_of, build_graph}
use krateo_openstack_bluepri.Deadlock.Components.{cycles_of}
use krateo_openstack_bluepri.Deadlock.Components.Ready.{Ready, cycles_of-Ready}
use krateo_openstack_bluepri.Deadlock.Verdict.{
  Repository, Measured, Problems, is_none, count_workloads, graph_of, stale_of, problems_of,
  edge_le, owners_of, measured, partitioned, has_service_waits, no_problems, verdict, main,
}

is_none-nil : {A : Type 0} (xs : List A) → is_none xs ≡ true → xs ≡ []
is_none-nil [] h = refl
is_none-nil (x ∷ xs) h = cc

raised : {A B : Type 0} {x : Exception} {a : A} → raise x ≡ return a → B
raised h = cc

-- No problem: no cycle and no relaxation that breaks none.
problems-none :
    (m : Measured) (relaxed : List Edge) (p : Problems)
    → problems_of m relaxed ≡ some p
    → no_problems p ≡ true
    → cycles_of (graph_of m relaxed) ≡ some []
unfolding problems_of
problems-none m relaxed p h quiet = elim (Option-cases (cycles_of (graph_of m relaxed))) [
  | inl stuck ↦ none_some (rw (stuck, problems_of) at h)
  | inr (cycles, e) ↦ elim (Option-cases (stale_of m relaxed (sort_with edge_le relaxed))) [
    | inl stuck ↦ none_some (rw (e, problems_of, stuck) at h)
    | inr (stale, e') ↦
        let is = some_inj (rw (e, problems_of, e') at h) in
        let quiet' : is_none cycles && is_none stale ≡ true =
          subst (λ (x : Problems). no_problems x ≡ true) (sym is) quiet in
        e ∙ ap some (is_none-nil cycles (ground (arith, quiet')))
  ]
]

verdict-zero :
    (m : Measured) (relaxed : List Edge)
    → verdict m relaxed ≡ return 0
    → cycles_of (graph_of m relaxed) ≡ some []
unfolding verdict
verdict-zero m relaxed h = elim (Result-cases (has_service_waits m relaxed)) [
  | inr (x, e) ↦ absurd (raised (rw (e, verdict) at h))
  | inl (u, e) ↦ elim (Option-cases (problems_of m relaxed)) [
    | inl stuck ↦ absurd (raised (rw (e, verdict, stuck) at h))
    | inr (p, e') ↦ elim (Bool-cases (no_problems p)) [
      | inl quiet ↦ problems-none m relaxed p e' quiet
      | inr loud ↦ absurd (one_zero (rw (e, verdict, e', loud) at h))
    ]
  ]
]
  where
    one_zero : ◌≡◌ {A = Result ℕ} (return 1) (return 0) → ⊥
    one_zero z = omega (arith, return_inj z)

owners-resolved :
    (r : Resolved) (owners : Owners)
    → owners_of r ≡ return owners
    → (us : List Unresolved) × (r ≡ resolved owners us)
owners-resolved (no_single_owner ds) owners h = raised h
owners-resolved (undeclared us) owners h = raised h
owners-resolved (resolved o us) owners h = (us, ap (λ x. resolved x us) (return_inj h))

measured-of :
    (charts : Charts) (comps : Comps) (owners : Owners) (m : Measured)
    → measured charts comps owners ≡ return m
    → m ≡ record { charts = charts; comps = comps; owners = owners }
unfolding measured
measured-of charts comps owners m h =
    elim (Bool-cases (eqb (count_workloads (workloads_of charts)) 0 || is_none owners)) [
      | inl nothing ↦ raised (rw (nothing, measured) at h)
      | inr some_there ↦ sym (return_inj (rw (some_there, measured) at h))
    ]

-- What a run measures before it looks for cycles
pub record Measurement (repo : Repository) : Type 0 where
  pub comps : Comps
  pub declared : List Edge
  pub mode : Mode
  pub charts : Charts
  pub owners : Owners
  pub external : List Unresolved
  pub umbrella_read : read_umbrella repo.values ≡ return (comps, declared)
  pub gate_read : read_gate repo.templates ≡ return mode
  pub charts_rendered : collect repo.loads repo.helm (sorted (names_of comps)) ≡ return charts
  pub services_owned : resolve charts ≡ resolved owners external

-- The waits under the relaxations that the templates apply
abbrev pub waits_in : (repo : Repository) → Measurement repo → List Wait
waits_in repo m =
    build_graph m.charts m.comps (effective m.mode m.comps m.declared) (workloads_of m.charts)
      m.owners

-- When the script exits with 0, it has read the umbrella and its gate, rendered the charts and found
-- an owner for the Services, and in the graph of the waits every node comes to be ready: each
-- Composition, each creation of one and each workload.
pub main-Ready :
    (repo : Repository)
    → main repo ≡ return 0
    → (m : Measurement repo) × ((n : Node) → Ready (waits_in repo m) n)
unfolding main
main-Ready repo h = elim (Result-cases (read_umbrella repo.values)) [
  | inr (x, e) ↦ raised (rw (e, main) at h)
  | inl ((comps, declared), e1) ↦ elim (Result-cases (read_gate repo.templates)) [
    | inr (x, e) ↦ raised (rw (e1, main, e) at h)
    | inl (mode, e2) ↦
        elim (Result-cases (collect repo.loads repo.helm (sorted (names_of comps)))) [
          | inr (x, e) ↦ raised (rw (e1, main, e2, e) at h)
          | inl (charts, e3) ↦ elim (Result-cases (owners_of (resolve charts))) [
            | inr (x, e) ↦ raised (rw (e1, main, e2, e3, e) at h)
            | inl (owners, e4) ↦ elim (Result-cases (measured charts comps owners)) [
              | inr (x, e) ↦ raised (rw (e1, main, e2, e3, e4, e) at h)
              | inl (m, e5) ↦ elim (Result-cases (partitioned repo mode comps declared)) [
                | inr (x, e) ↦ raised (rw (e1, main, e2, e3, e4, e5, e) at h)
                | inl (count, e6) ↦
                    let ends : verdict m (effective mode comps declared) ≡ return 0 =
                      rw (e1, main, e2, e3, e4, e5, e6) at h in
                    let (us, owned) = owners-resolved (resolve charts) owners e4 in
                    let same = measured-of charts comps owners m e5 in
                    let quiet =
                      subst
                        (λ (x : Measured).
                          cycles_of (graph_of x (effective mode comps declared)) ≡ some [])
                        same (verdict-zero m (effective mode comps declared) ends) in
                    (
                      record {
                        comps = comps;
                        declared = declared;
                        mode = mode;
                        charts = charts;
                        owners = owners;
                        external = us;
                        umbrella_read = e1;
                        gate_read = e2;
                        charts_rendered = e3;
                        services_owned = owned;
                      },
                      cycles_of-Ready
                          (build_graph charts comps (effective mode comps declared)
                            (workloads_of charts) owners)
                          quiet,
                    )
              ]
            ]
          ]
        ]
  ]
]
