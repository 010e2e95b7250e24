-- ===== src/Dag/Samples.antt =====
-- Runs of hack/validate-component-dag.py on small graphs.
use krateo_openstack_bluepri.Prelude.{
  String, Option, none, some, List, [], ◌∷◌, ◌≡◌, refl, Bool, true, false, In, names_of, All,
  sorted, ◌≢◌, ◌↔◌,
}
use krateo_openstack_bluepri.Dag.Graph.{Component, collect, declares, Chain, Emitted}
use krateo_openstack_bluepri.Dag.Visit.{Search, search, black}
use krateo_openstack_bluepri.Dag.Visit.Reports.{IsCycle, search_reports_cycles, search_decides}
use krateo_openstack_bluepri.Dag.{
  Chart, objects, pass, out_of_fuel, main, closure_problems, kind_problems, chart_problems,
}
use krateo_openstack_bluepri.Dag.Closure.{collect-IsDict}
use krateo_openstack_bluepri.Dag.Verdict.{graph_decides_install, main_ends, main_pass_iff}

abbrev component : String → List String → String → Component
component n ds k = record { name = n; deps = ds; kind = some k; tier = none }

abbrev tiers : List Component
tiers =
    component "nova" ("keystone" ∷ "placement" ∷ []) "Nova"
    ∷ component "placement" ("keystone" ∷ []) "Placement"
    ∷ component "keystone" [] "Keystone"
    ∷ []

-- nova and neutron wait for each other
abbrev ring : List Component
ring = component "nova" ("neutron" ∷ []) "Nova" ∷ component "neutron" ("nova" ∷ []) "Neutron" ∷ []

abbrev all_render : String → Chart
all_render n = objects

abbrev ring_found : Search
ring_found = record {
  state = ("nova", black) ∷ ("neutron", black) ∷ [];
  cycles = ("neutron" ∷ "nova" ∷ "neutron" ∷ []) ∷ [];
}

main_pass_iff_example : (main all_render tiers ≡ pass) ↔ (
    (collect tiers ≢ [])
    × ((n : String) → declares (collect tiers) n ≡ true → Emitted (collect tiers) n)
    × (kind_problems (collect tiers) ≡ [])
    × (chart_problems all_render (sorted (names_of (collect tiers))) ≡ []))
main_pass_iff_example = main_pass_iff all_render tiers

tiers_pass : main all_render tiers ≡ pass
unfolding main collect search krateo_openstack_bluepri.Prelude.sort_with
tiers_pass = refl

main_ends_example : main all_render ring ≢ out_of_fuel
main_ends_example = main_ends all_render ring

search_decides_example :
    (t : Search) × (search (collect ring) ≡ some t)
    × ((t.cycles ≡ []) ↔ ((n : String) → ¬ Chain (collect ring) n n))
search_decides_example = search_decides (collect ring)

ring_searched : search (collect ring) ≡ some ring_found
unfolding collect search krateo_openstack_bluepri.Prelude.sort_with
ring_searched = refl

search_reports_cycles_example : All (IsCycle (collect ring)) ring_found.cycles
search_reports_cycles_example = search_reports_cycles (collect ring) ring_found ring_searched

graph_decides_install_example :
    ((closure_problems (collect ring) ≡ []) × (ring_found.cycles ≡ []))
    ↔ ((n : String) → declares (collect ring) n ≡ true → Emitted (collect ring) n)
graph_decides_install_example =
    graph_decides_install (collect ring) ring_found (collect-IsDict ring) ring_searched
