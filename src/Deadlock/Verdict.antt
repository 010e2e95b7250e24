-- ===== src/Deadlock/Verdict.antt =====
-- `main` of hack/validate-readiness-deadlock.py: the problems of the creation gate and the exit status.
pub mod Installs
use krateo_openstack_bluepri.Prelude.{
  ℕ, ◌+◌, String, Bool, true, false, not, ◌&&◌, ◌||◌, Option, none, some, and_then, List, [], ◌∷◌,
  ◌++◌, if◌then◌else◌, eqb, ◌==◌, str_leb, any, keep, length, lookup, names_of, sort_with, sorted,
  sorted_by, Result, return, raise, other_error, key_error, ◌>>=◌, Value,
}
use krateo_openstack_bluepri.Deadlock.{Node}
use krateo_openstack_bluepri.Deadlock.Umbrella.{Comps, Edge, read_umbrella, fail_measurement}
use krateo_openstack_bluepri.Deadlock.Gate.{
  Templates, Mode, readiness, existence, per_edge, read_gate, effective,
}
use krateo_openstack_bluepri.Deadlock.Owners.{
  Workload, Charts, Owners, Resolved, no_single_owner, undeclared, resolved, resolve, selects,
}
use krateo_openstack_bluepri.Deadlock.Collect.{Rendering, collect}
use krateo_openstack_bluepri.Deadlock.Waits.{
  Wait, awaits_service, Workloads, workloads_of, calls, build_graph,
}
use krateo_openstack_bluepri.Deadlock.Components.{cycles_of}
use krateo_openstack_bluepri.Deadlock.Partition.{check_partition}
use krateo_openstack_bluepri.Deadlock.Owners.{in_order}

-- The umbrella's values and templates, what helm prints of each chart, `json.loads`, and what the lifted
-- partition prints.
pub record Repository : Type 0 where
  pub values : Value
  pub templates : Templates
  pub helm : String → Rendering
  pub loads : String → Option Value
  pub partition_lines : Option (List String)

unfoldable pub count_workloads : Workloads → ℕ
count_workloads [] = 0
count_workloads ((c, ws) ∷ more) = length ws + count_workloads more

abbrev is_service_wait : Wait → Bool
is_service_wait e = elim e.reason [ awaits_service svc owner ↦ true | _ ↦ false ]

-- `stats["service"]`
abbrev pub service_waits_of : List Wait → ℕ
service_waits_of cs = length (keep is_service_wait cs)

abbrev pub edge_le : Edge → Edge → Bool
edge_le a b = if a.0 == b.0 then str_leb a.1 b.1 else str_leb a.0 b.0

-- `effective - {edge}`
abbrev pub minus : List Edge → Edge → List Edge
minus es e = keep (λ (r : Edge). not (r.0 == e.0 && r.1 == e.1)) es

abbrev pub is_none : {A : Type 0} → List A → Bool
is_none [] = true
is_none (x ∷ xs) = false

-- What the graph is built from
pub record Measured : Type 0 where
  pub charts : Charts
  pub comps : Comps
  pub owners : Owners

pub record Problems : Type 0 where
  pub unbroken : List (List Node)
  pub stale : List Edge

module _ (m : Measured) where
  -- The graph under a set of relaxations
  abbrev pub graph_of : List Edge → List Wait
  graph_of relaxed = build_graph m.charts m.comps relaxed (workloads_of m.charts) m.owners

  unfoldable pub stale_of : List Edge → List Edge → Option (List Edge)
  unfolding build_graph cycles_of
  stale_of relaxed [] = some []
  stale_of relaxed (e ∷ es) = and_then (cycles_of (graph_of (minus relaxed e))) (λ cycles.
      and_then (stale_of relaxed es) (λ rest. some (if is_none cycles then e ∷ rest else rest)))

  unfoldable pub problems_of : List Edge → Option Problems
  unfolding stale_of
  problems_of relaxed = and_then (cycles_of (graph_of relaxed)) (λ cycles.
      and_then (stale_of relaxed (sort_with edge_le relaxed))
        (λ stale. some (record { unbroken = cycles; stale = stale })))

  -- A Service of the dependency with a workload behind it
  abbrev backs : String → Option (String × List Workload) → Bool
  backs dep none = false
  backs dep (some (owner, backing)) = owner == dep && not (is_none backing)

  abbrev is_backed : String → List (String × Workload) → Workload → Bool
  is_backed dep targets w =
      any (λ svc. backs dep (lookup svc m.owners)) w.services
      || any (λ labels. any (λ (t : String × Workload). selects labels t.1) targets) w.pods

  -- `workloads[dep]`; a dependency that is no component fails where its pods are looked for.
  abbrev pub backed : String → List Workload → Result Bool
  backed dep ws = elim (lookup dep (workloads_of m.charts)) [
    | some targets ↦ return (any (is_backed dep targets) ws)
    | none ↦
        if any (λ (w : Workload). not (is_none w.pods)) ws
        then raise (key_error dep)
        else return (any (is_backed dep []) ws)
  ]

  unfoldable pub unbacked_deps : String → List Workload → List String → Result (List Edge)
  unfolding workloads_of selects
  unbacked_deps comp ws [] = return []
  unbacked_deps comp ws (dep ∷ deps) = do
    b ← backed dep ws
    rest ← unbacked_deps comp ws deps
    return (if b then rest else (comp, dep) ∷ rest)

  abbrev workloads_at : String → Result (List Workload)
  workloads_at comp = elim (lookup comp m.charts) [
    | none ↦ raise (key_error comp)
    | some chart ↦ return chart.workloads
  ]

  unfoldable pub unbacked_of : Comps → Result (List Edge)
  unfolding unbacked_deps
  unbacked_of [] = return []
  unbacked_of ((comp, deps) ∷ more) = do
    ws ← workloads_at comp
    here ← unbacked_deps comp ws deps
    rest ← unbacked_of more
    return (here ++ rest)

-- What the code does not expect: a KeyError where there are too few marks
abbrev known : {A : Type 0} → Option A → Result A
known none = raise (other_error "KeyError")
known (some a) = return a

abbrev pub owners_of : Resolved → Result Owners
owners_of (no_single_owner ds) = fail_measurement "a Service name has no single owner"
owners_of (undeclared us) = fail_measurement "a Service that is waited on resolves to nothing"
owners_of (resolved owners us) = return owners

-- Workloads and Services have to be there, and a wait on a Service.
unfoldable pub measured : Charts → Comps → Owners → Result Measured
unfolding workloads_of count_workloads
measured charts comps owners =
    if eqb (count_workloads (workloads_of charts)) 0 || is_none owners
    then fail_measurement "there is nothing here to find a deadlock in"
    else return (record { charts = charts; comps = comps; owners = owners })

-- The partition is only compared where the gate is per edge.
abbrev pub partitioned : Repository → Mode → Comps → List Edge → Result ℕ
partitioned repo per_edge comps declared = check_partition repo.partition_lines comps declared
partitioned repo existence comps declared = return 0
partitioned repo readiness comps declared = return 0

unfoldable pub has_service_waits : Measured → List Edge → Result (Unit {0})
unfolding calls workloads_of
has_service_waits m relaxed =
    if eqb
      (service_waits_of
        (calls m.owners (workloads_of m.charts) m.comps relaxed (in_order m.charts)))
      0
    then fail_measurement "not one workload waits on a Service"
    else return tt

abbrev pub no_problems : Problems → Bool
no_problems p = is_none p.unbroken && is_none p.stale

-- The unbacked edges are only printed.
unfoldable pub verdict : Measured → List Edge → Result ℕ
unfolding has_service_waits problems_of unbacked_of
verdict m relaxed = do
  waits ← has_service_waits m relaxed
  p ← known (problems_of m relaxed)
  if no_problems p
      then (do
        unbacked ← unbacked_of m (sorted_by (λ (e : String × List String). e.0) m.comps)
        return 0)
      else return 1

-- The exit status; `fail_measurement` exits with 2.
unfoldable pub main : Repository → Result ℕ
unfolding read_umbrella read_gate resolve measured verdict effective check_partition collect
main repo = do
  (comps, declared) ← read_umbrella repo.values
  mode ← read_gate repo.templates
  charts ← collect repo.loads repo.helm (sorted (names_of comps))
  owners ← owners_of (resolve charts)
  m ← measured charts comps owners
  count ← partitioned repo mode comps declared
  verdict m (effective mode comps declared)
