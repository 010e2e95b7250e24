-- ===== src/Deadlock/Samples.antt =====
-- A small umbrella whose nova and neutron wait for each other's Services.
use krateo_openstack_bluepri.Prelude.{
  if◌then◌else◌, ◌==◌, String, true, false, not, ◌&&◌, List, [], ◌∷◌, In, some, lookup, ◌≡◌, ◌↔◌,
  refl, none, inl, inr, All, contains, names_of, iterate, sort_with, ◌⊎◌, return, Value, obj, arr,
  str, field, end, cons, nil,
}
use krateo_openstack_bluepri.Deadlock.{Node, composition, creation, workload, node_eq, node_le}
use krateo_openstack_bluepri.Deadlock.Shortest.{shortest}
use krateo_openstack_bluepri.Deadlock.Shortest.Found.{Answer, shortest-Answer}
use krateo_openstack_bluepri.Deadlock.Umbrella.{Comps, Edge, is_declared, read_umbrella}
use krateo_openstack_bluepri.Deadlock.Umbrella.Declared.{Once, EndsAtComponent, read_umbrella-Once}
use krateo_openstack_bluepri.Deadlock.Gate.{Templates, per_edge, read_gate}
use krateo_openstack_bluepri.Deadlock.Gate.Means.{HasGates, Means}
use krateo_openstack_bluepri.Deadlock.Gate.Modes.{read_gate-Means}
use krateo_openstack_bluepri.Deadlock.Owners.{
  Workload, Chart, Charts, Owners, resolved, resolve, is_external,
}
use krateo_openstack_bluepri.Deadlock.Owners.Attributed.{IsAttributed, resolve-IsAttributed}
use krateo_openstack_bluepri.Deadlock.Partition.{Halves, Rendered, read_lines, check_partition}
use krateo_openstack_bluepri.Deadlock.Partition.Agrees.{Gates, check_partition-Gates}
use krateo_openstack_bluepri.Deadlock.Components.{sccs_of, cycles_of}
use krateo_openstack_bluepri.Deadlock.Components.Ends.{sccs_of_ends}
use krateo_openstack_bluepri.Deadlock.Components.Ready.{Ready, cycles_of-Ready}
use krateo_openstack_bluepri.Deadlock.Collect.{
  Rendering, documents, Awaited, entrypoint_waits, collect, elements,
}
use krateo_openstack_bluepri.Deadlock.Collect.Listed.{entrypoint_waits-Awaits}
use krateo_openstack_bluepri.Deadlock.Collect.Naming.{Awaits}
use krateo_openstack_bluepri.Deadlock.Verdict.{Repository, main}
use krateo_openstack_bluepri.Deadlock.Verdict.Installs.{Measurement, waits_in, main-Ready}
use krateo_openstack_bluepri.Deadlock.Waits.{
  Wait, needs_created, waits, deps_at, is_relaxed, workloads_of, build_graph, children_of,
}
use krateo_openstack_bluepri.Deadlock.Waits.Gates.{build_graph-gates}

abbrev nova_api : Workload
nova_api = record {
  kind = "Deployment";
  name = "nova-api";
  labels = ("app", "nova") ∷ [];
  services = [];
  pods = [];
  jobs = [];
}

abbrev dhcp_agent : Workload
dhcp_agent = record {
  kind = "DaemonSet";
  name = "neutron-dhcp";
  labels = ("app", "neutron") ∷ [];
  services = "nova-api" ∷ [];
  pods = [];
  jobs = [];
}

abbrev nova_chart : Chart
nova_chart = record {
  services = (record { name = "nova-api"; selector = ("app", "nova") ∷ [] }) ∷ [];
  workloads = nova_api ∷ [];
  children = 2;
}

abbrev neutron_chart : Chart
neutron_chart = record { services = []; workloads = dhcp_agent ∷ []; children = 1 }

abbrev charts : Charts
charts = ("neutron", neutron_chart) ∷ ("nova", nova_chart) ∷ []

abbrev comps : Comps
comps = ("nova", "neutron" ∷ []) ∷ ("neutron", []) ∷ []

abbrev owners : Owners
owners = ("nova-api", ("nova", nova_api ∷ [])) ∷ []

charts_resolved : resolve charts ≡ resolved owners []
unfolding resolve sort_with
charts_resolved = refl

resolve-IsAttributed_example : (is_external "nova-api" ≡ true) ⊎ IsAttributed owners "nova-api"
resolve-IsAttributed_example =
    resolve-IsAttributed charts owners [] charts_resolved "neutron" neutron_chart dhcp_agent
      "nova-api" (inl refl) (inl refl) (inl refl)

build_graph-gates_example :
    let graph = build_graph charts comps [] (workloads_of charts) owners in
    (waits graph (creation "nova") (composition "neutron")
      ≡ (contains (deps_at comps "nova") "neutron" && not (is_relaxed [] "nova" "neutron")))
    × (waits graph (creation "nova") (creation "neutron")
        ≡ (contains (deps_at comps "nova") "neutron" && is_relaxed [] "nova" "neutron"))
build_graph-gates_example =
    build_graph-gates charts comps [] (workloads_of charts) owners "nova" "neutron" nova_chart
      (inr (inl refl))

-- The deadlock: creation of nova, neutron, its agent, nova's API and creation of nova again
abbrev stuck : List Node
stuck =
    composition "neutron"
    ∷ creation "nova"
    ∷ workload "neutron" "DaemonSet/neutron-dhcp"
    ∷ workload "nova" "Deployment/nova-api"
    ∷ []

abbrev next : Node → List Node
next n = children_of (build_graph charts comps [] (workloads_of charts) owners) n

shortest-Answer_example :
    Answer next stuck (composition "neutron") (shortest next stuck (composition "neutron"))
shortest-Answer_example = shortest-Answer next stuck (composition "neutron")

abbrev named : String → Value
named n = obj (field "name" (str n) end)

abbrev one : Value → Value
one v = arr (cons v nil)

abbrev app : String → Value
app v = obj (field "app" (str v) end)

abbrev wait_env : Value
wait_env =
    obj (field "name" (str "DEPENDENCY_SERVICE") (field "value" (str "openstack:nova-api,") end))

abbrev waiting_pod : Value
waiting_pod = obj (field "initContainers" (one (obj (field "env" (one wait_env) end))) end)

abbrev rendered_workload : String → String → String → Value → Value
rendered_workload kind name label pod = obj (
    field "kind" (str kind) (
      field "metadata" (named name) (
        field "spec"
          (obj (
            field "template"
              (obj (field "metadata" (obj (field "labels" (app label) end)) (field "spec" pod end)))
              end))
          end)))

abbrev nova_service : Value
nova_service = obj (
    field "kind" (str "Service") (
      field "metadata" (named "nova-api")
        (field "spec" (obj (field "selector" (app "nova") end)) end)))

abbrev rendered : String → Rendering
rendered name =
    if name == "nova"
    then documents (nova_service ∷ rendered_workload "Deployment" "nova-api" "nova" (obj end) ∷ [])
    else documents (rendered_workload "DaemonSet" "neutron-dhcp" "neutron" waiting_pod ∷ [])

rendered_charts : collect (λ s. none) rendered ("neutron" ∷ "nova" ∷ []) ≡ return charts
unfolding collect sort_with
rendered_charts = refl

abbrev awaited : Awaited
awaited = record { services = "nova-api" ∷ []; pods = []; jobs = [] }

waits_found : entrypoint_waits (λ s. none) waiting_pod ≡ return awaited
unfolding entrypoint_waits sort_with
waits_found = refl

entrypoint_waits-Awaits_example : In "nova-api" awaited.services ↔ Awaits waiting_pod "nova-api"
entrypoint_waits-Awaits_example =
    entrypoint_waits-Awaits (λ s. none) waiting_pod awaited waits_found "nova-api"

-- A blank element between others is left out.
blank_left_out : elements "default:nova-api,, neutron" ≡ "default:nova-api" ∷ "neutron" ∷ []
unfolding elements
blank_left_out = refl

abbrev document : Value
document = obj (
    field "components"
      (arr (
        cons (obj (field "name" (str "nova") (field "deps" (arr (cons (str "neutron") nil)) end)))
          (cons (named "neutron") (cons (named "openstack") nil))))
      (field "dependencyRelaxations"
        (arr (
          cons
            (obj (
              field "component" (str "nova") (
                field "dependency" (str "neutron") (
                  field "issue" (str "#110")
                    (field "cycle" (str "neutron waits for nova-api") end)))))
            nil))
        end))

umbrella_read : read_umbrella document ≡ return (comps, ("nova", "neutron") ∷ [])
unfolding read_umbrella iterate sort_with
umbrella_read = refl

read_umbrella-Once_example :
    All
      (λ (e : Edge). (is_declared comps e ≡ true) × EndsAtComponent comps e)
      (("nova", "neutron") ∷ [])
    × (Once (("nova", "neutron") ∷ []) × (contains (names_of comps) "openstack" ≡ false))
read_umbrella-Once_example =
    read_umbrella-Once document comps (("nova", "neutron") ∷ []) umbrella_read

abbrev templates : Templates
templates = record {
  present = true;
  called = "osh.depsRelaxed" ∷ "osh.depsExist" ∷ "osh.depsReady" ∷ [];
  bodies = λ p. (if p == "osh.depsReady" then (true, false) else (false, true)) ∷ [];
  tests = λ v. true;
}

gate_read : read_gate templates ≡ return per_edge
unfolding read_gate
gate_read = refl

read_gate-Means_example :
    (read_gate templates ≡ return per_edge) ↔ (HasGates templates × Means templates per_edge)
read_gate-Means_example = read_gate-Means templates per_edge

abbrev lines_of_nova : List String
lines_of_nova = "---" ∷ "#PARTITION nova strict=keystone relaxed=neutron" ∷ []

abbrev nova_comps : Comps
nova_comps = ("nova", "keystone" ∷ "neutron" ∷ []) ∷ []

nova_partition :
    check_partition (some lines_of_nova) nova_comps (("nova", "neutron") ∷ []) ≡ return 1
unfolding check_partition sort_with
nova_partition = refl

check_partition-Gates_example :
    (rendered : Rendered) × ((read_lines lines_of_nova [] ≡ return rendered)
      × ((name : String) (deps : List String)
          → In (name, deps) nova_comps
          → (halves : Halves) × ((lookup name rendered ≡ some halves)
              × Gates (("nova", "neutron") ∷ []) name deps halves)))
check_partition-Gates_example =
    check_partition-Gates lines_of_nova nova_comps (("nova", "neutron") ∷ []) 1 nova_partition

abbrev tangled : List Wait
tangled =
    (record { waiter = composition "nova"; on = creation "nova"; reason = needs_created })
    ∷ (record { waiter = creation "nova"; on = composition "neutron"; reason = needs_created })
    ∷ (record { waiter = composition "neutron"; on = composition "nova"; reason = needs_created })
    ∷ (record {
      waiter = composition "neutron";
      on = composition "keystone";
      reason = needs_created;
    })
    ∷ []

one_cycle :
    cycles_of tangled
    ≡ some ((creation "nova" ∷ composition "nova" ∷ composition "neutron" ∷ []) ∷ [])
unfolding cycles_of sort_with node_eq node_le
one_cycle = refl

sccs_of_ends_example : (sccs : List (List Node)) × (sccs_of tangled ≡ some sccs)
sccs_of_ends_example = sccs_of_ends tangled

abbrev blueprint : Repository
blueprint = record {
  values = document;
  templates = templates;
  helm = rendered;
  loads = λ s. none;
  partition_lines =
      some ("#PARTITION nova strict= relaxed=neutron" ∷ "#PARTITION neutron strict= relaxed=" ∷ []);
}

blueprint_passes : main blueprint ≡ return 0
unfolding main iterate sort_with node_eq node_le
blueprint_passes = refl

main-Ready_example : (m : Measurement blueprint) × ((n : Node) → Ready (waits_in blueprint m) n)
main-Ready_example = main-Ready blueprint blueprint_passes

abbrev in_line : List Wait
in_line =
    (record { waiter = composition "nova"; on = creation "nova"; reason = needs_created })
    ∷ (record { waiter = creation "nova"; on = composition "neutron"; reason = needs_created })
    ∷ []

no_cycle : cycles_of in_line ≡ some []
unfolding cycles_of sort_with node_eq node_le
no_cycle = refl

cycles_of-Ready_example : Ready in_line (composition "nova")
cycles_of-Ready_example = cycles_of-Ready in_line no_cycle (composition "nova")
