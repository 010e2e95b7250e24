-- ===== src/Deadlock/Waits.antt =====
-- `build_graph` of hack/validate-readiness-deadlock.py. The graph is the list of its edges in the
-- order in which they came, each with its first reason: `graph` and `why` in one.
mod Joined
pub mod Gates
use krateo_openstack_bluepri.Prelude.{
  ℕ, zero, suc, ◌+◌, String, Bool, true, false, not, ◌&&◌, ◌||◌, Option, none, some, List, [], ◌∷◌,
  ◌++◌, map, if◌then◌else◌, ◌==◌, ◌+++◌, any, keep, length, lookup, insert, sorted_by, sort_with,
}
use krateo_openstack_bluepri.Deadlock.{Node, composition, creation, workload, node_eq, node_le}
use krateo_openstack_bluepri.Deadlock.Owners.{
  Labels, Workload, Chart, Charts, in_order, selects, Owners,
}

pub data Reason : Type 0 where
  child_of : (component : String) (children : ℕ) → Reason
  needs_created : Reason
  awaits_service : (service owner : String) → Reason
  awaits_pod : Labels → Reason
  awaits_job : String → Reason
  must_exist must_be_ready : (component dep : String) → Reason

pub record Wait : Type 0 where
  pub waiter : Node
  pub on : Node
  pub reason : Reason

abbrev wl_node : String → Workload → Node
wl_node comp w = workload comp (w.kind +++ "/" +++ w.name)

abbrev pub joins : Wait → Node → Node → Bool
joins e a b = node_eq e.waiter a && node_eq e.on b

-- There is an edge from `a` to `b`.
abbrev pub waits : List Wait → Node → Node → Bool
waits es a b = any (λ e. joins e a b) es

-- `edge`: a second reason for an edge is dropped.
abbrev pub add_edge : List Wait → Wait → List Wait
add_edge es e = if waits es e.waiter e.on then es else es ++ e ∷ []

unfoldable pub add_all : List Wait → List Wait → List Wait
add_all es [] = es
add_all es (e ∷ more) = add_all (add_edge es e) more

-- `workloads`: by component and by name, a later name replaces an earlier one.
abbrev pub Workloads : Type 0
Workloads = List (String × List (String × Workload))

by_name : List Workload → List (String × Workload) → List (String × Workload)
by_name [] ws = ws
by_name (w ∷ more) ws = by_name more (insert w.name w ws)

unfoldable pub workloads_of : Charts → Workloads
unfolding by_name
workloads_of [] = []
workloads_of ((comp, chart) ∷ more) = (comp, by_name chart.workloads []) ∷ workloads_of more

-- The workloads that the labels match, component by component.
matched_in : Labels → String → List (String × Workload) → List (String × Workload)
matched_in labels comp [] = []
matched_in labels comp ((n, w) ∷ ws) =
    let rest = matched_in labels comp ws in if selects labels w then (comp, w) ∷ rest else rest

matched_all : Labels → Workloads → List (String × Workload)
unfolding matched_in
matched_all labels [] = []
matched_all labels ((comp, ws) ∷ more) = matched_in labels comp ws ++ matched_all labels more

unfoldable pub matched : Labels → Workloads → List (String × Workload)
unfolding matched_all
matched labels workloads =
    matched_all labels (sorted_by (λ (e : String × List (String × Workload)). e.0) workloads)

module _ (owners : Owners) (workloads : Workloads) where
  -- The calls of `edge`, in their order.
  backing_waits : Node → String → String → List Workload → List Wait
  backing_waits node svc owner [] = []
  backing_waits node svc owner (b ∷ bs) =
      (record { waiter = node; on = wl_node owner b; reason = awaits_service svc owner })
      ∷ backing_waits node svc owner bs

  service_waits : Node → List String → List Wait
  unfolding backing_waits
  service_waits node [] = []
  service_waits node (svc ∷ svcs) = elim (lookup svc owners) [
    | none ↦ service_waits node svcs
    | some (owner, backing) ↦ backing_waits node svc owner backing ++ service_waits node svcs
  ]

  label_waits : Node → Labels → List (String × Workload) → List Wait
  label_waits node labels [] = []
  label_waits node labels ((c, w) ∷ more) =
      (record { waiter = node; on = wl_node c w; reason = awaits_pod labels })
      ∷ label_waits node labels more

  pod_waits : Node → List Labels → List Wait
  unfolding label_waits
  pod_waits node [] = []
  pod_waits node (labels ∷ more) =
      label_waits node labels (matched labels workloads) ++ pod_waits node more

  -- `workloads.get(comp, {}).get(job)`, where it is a job
  job_target : String → String → Option Workload
  job_target comp job = elim (lookup comp workloads) [
    | none ↦ none
    | some ws ↦ elim (lookup job ws) [
      | none ↦ none
      | some w ↦ if w.kind == "Job" then some w else none
    ]
  ]

  job_waits : String → Node → List String → List Wait
  unfolding job_target
  job_waits comp node [] = []
  job_waits comp node (job ∷ jobs) = elim (job_target comp job) [
    | none ↦ job_waits comp node jobs
    | some w ↦
        (record { waiter = node; on = wl_node comp w; reason = awaits_job job })
        ∷ job_waits comp node jobs
  ]

  unfoldable pub workload_waits : String → Chart → Workload → List Wait
  unfolding service_waits pod_waits job_waits
  workload_waits comp chart w =
      let node = wl_node comp w in
      (record { waiter = composition comp; on = node; reason = child_of comp chart.children })
      ∷ (record { waiter = node; on = creation comp; reason = needs_created })
      ∷ (service_waits node w.services ++ (pod_waits node w.pods ++ job_waits comp node w.jobs))

  unfoldable pub all_workload_waits : String → Chart → List Workload → List Wait
  unfolding workload_waits
  all_workload_waits comp chart [] = []
  all_workload_waits comp chart (w ∷ ws) =
      workload_waits comp chart w ++ all_workload_waits comp chart ws

-- `(comp, dep) in relaxed_edges`
abbrev pub is_relaxed : List (String × String) → String → String → Bool
is_relaxed relaxed comp dep = any (λ (e : String × String). e.0 == comp && e.1 == dep) relaxed

unfoldable pub gate_waits : List (String × String) → String → List String → List Wait
gate_waits relaxed comp [] = []
gate_waits relaxed comp (dep ∷ deps) =
    (if is_relaxed relaxed comp dep
      then record { waiter = creation comp; on = creation dep; reason = must_exist comp dep }
      else record { waiter = creation comp; on = composition dep; reason = must_be_ready comp dep })
    ∷ gate_waits relaxed comp deps

-- `comps[comp]`: the charts are those of the components.
abbrev pub deps_at : List (String × List String) → String → List String
deps_at comps comp = elim (lookup comp comps) [ none ↦ [] | some deps ↦ deps ]

unfoldable pub calls :
    Owners → Workloads → List (String × List String) → List (String × String) → Charts → List Wait
unfolding all_workload_waits gate_waits
calls owners workloads comps relaxed [] = []
calls owners workloads comps relaxed ((comp, chart) ∷ more) =
    all_workload_waits owners workloads comp chart chart.workloads
    ++ (gate_waits relaxed comp (deps_at comps comp) ++ calls owners workloads comps relaxed more)

unfoldable pub build_graph :
    Charts → List (String × List String) → List (String × String) → Workloads → Owners → List Wait
unfolding add_all calls
build_graph charts comps relaxed workloads owners =
    add_all [] (calls owners workloads comps relaxed (in_order charts))

-- `sorted(graph.get(node, ()))`
unfoldable pub children_of : List Wait → Node → List Node
children_of graph node =
    sort_with node_le (map (λ (e : Wait). e.on) (keep (λ e. node_eq e.waiter node) graph))
