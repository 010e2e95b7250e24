-- ===== src/Deadlock/Collect.antt =====
-- `render`, `entrypoint_waits` and `collect` of hack/validate-readiness-deadlock.py. What a chart's helm
-- run prints and `json.loads` are parameters. A value that is a list or a mapping, a label that is no
-- text and a name that is no text count as a TypeError.
pub mod Naming
pub mod Listed
use krateo_openstack_bluepri.Prelude.{
  ℕ, String, Bool, true, false, not, ◌&&◌, ◌||◌, Option, none, some, List, [], ◌∷◌, ◌++◌, map,
  if◌then◌else◌, ◌==◌, length, keep, contains, insert, sorted, is_empty, is_text, strip, split_on,
  after_last, show_nat, Value, Fields, null, str, num, real, bool, arr, obj, field, end, truthy,
  or_else, Result, return, raise, type_error, attribute_error, ◌>>=◌, index, get_default, listed,
  items, keys,
}
use krateo_openstack_bluepri.Deadlock.Umbrella.{fail_measurement}
use krateo_openstack_bluepri.Deadlock.Owners.{Labels, Workload, Service, Chart, Charts}

-- What `helm template` prints of a component's chart, where there is one
pub data Rendering : Type 0 where
  no_chart helm_failed unparsable : Rendering
  documents : List Value → Rendering

abbrev is_mapping : Value → Bool
is_mapping (obj fs) = true
is_mapping _ = false

abbrev some_docs : List Value → Option (List Value)
some_docs [] = none
some_docs (d ∷ docs) = some (d ∷ docs)

-- `render`, where `none` is an error
unfoldable pub render : Rendering → Option (List Value)
render (documents docs) = some_docs (keep is_mapping docs)
render _ = none

abbrev pub text : Value → Result String
text (str s) = return s
text _ = raise type_error

abbrev pub labels_in : Fields → Result Labels
labels_in end = return []
labels_in (field k v fs) = do s ← text v; more ← labels_in fs; return ((k, s) ∷ more)

abbrev pub labels_of : Value → Result Labels
labels_of (obj fs) = labels_in fs
labels_of _ = raise type_error

-- `str(value)`
abbrev pub shown : Value → Result String
shown (str s) = return s
shown (num n) = return (show_nat n)
shown (real r) = return r
shown (bool b) = return (if b then "True" else "False")
shown _ = raise type_error

-- `[t.strip() for t in s.split(",") if t.strip()]`
unfoldable pub elements : String → List String
unfolding split_on strip
elements s = keep (λ t. not (is_empty t)) (map strip (split_on b',' s))

pub record Awaited : Type 0 where
  pub services : List String
  pub pods : List Labels
  pub jobs : List String

abbrev pub nothing_awaited : Awaited
nothing_awaited = record { services = []; pods = []; jobs = [] }

-- The entries of DEPENDENCY_POD_JSON, up to one that has no `get`
add_pods : List Value → List Labels → Result (List Labels)
add_pods [] pods = return pods
add_pods (obj fs ∷ vs) pods = do
  labels ← get_default (obj fs) "labels" null
  elim (truthy labels) [
    | true ↦ do l ← labels_of labels; add_pods vs (pods ++ l ∷ [])
    | false ↦ add_pods vs pods
  ]
add_pods (v ∷ vs) pods = return pods

-- `json.loads(value)`, and the loop on it: neither keys nor characters have a `get`.
abbrev json_pods : Option Value → List Labels → Result (List Labels)
unfolding add_pods
json_pods none pods = return pods
json_pods (some (arr vs)) pods = add_pods (items vs) pods
json_pods (some (obj fs)) pods = return pods
json_pods (some (str s)) pods = return pods
json_pods (some v) pods = raise type_error

-- `set`
abbrev pub distinct : List String → List String
distinct [] = []
distinct (s ∷ ss) = let rest = distinct ss in if contains rest s then rest else s ∷ rest

-- `d.get(k) or {}`
abbrev part : Value → String → Result Value
part d k = do v ← get_default d k null; return (or_else v (obj end))

abbrev doc_name : Value → Result String
doc_name d = do m ← index d "metadata"; index m "name" >>= text

service_of : Value → Result Service
service_of d = do
  n ← doc_name d
  spec ← part d "spec"
  selector ← part spec "selector" >>= labels_of
  return (record { name = n; selector = selector })

abbrev is_workload_kind : String → Bool
is_workload_kind = contains ("Deployment" ∷ "DaemonSet" ∷ "StatefulSet" ∷ "Job" ∷ [])

abbrev measured : Charts × Bool → Result Charts
measured (charts, true) = fail_measurement "a component chart could not be measured"
measured (charts, false) = return charts

module _ (loads : String → Option Value) where
  unfoldable pub await_more : Value → Value → Awaited → Result Awaited
  unfolding elements after_last add_pods show_nat
  await_more name value w = elim (is_text name "DEPENDENCY_SERVICE") [
    | true ↦ do
      s ← shown value
      return (record w { services = w.services ++ map (after_last b':') (elements s) })
    | false ↦ elim (is_text name "DEPENDENCY_JOBS") [
      | true ↦ do s ← shown value; return (record w { jobs = w.jobs ++ elements s })
      | false ↦ elim (is_text name "DEPENDENCY_POD_JSON") [
        | true ↦ do
          s ← text value
          pods ← json_pods (loads s) w.pods
          return (record w { pods = pods })
        | false ↦ return w
      ]
    ]
  ]

  unfoldable pub await_env : Value → Awaited → Result Awaited
  unfolding await_more
  await_env e w = do
    name ← get_default e "name" null
    value ← get_default e "value" null
    elim (truthy value) [ true ↦ await_more name value w | false ↦ return w ]

  unfoldable pub await_envs : List Value → Awaited → Result Awaited
  unfolding await_env
  await_envs [] w = return w
  await_envs (e ∷ es) w = do v ← await_env e w; await_envs es v

  unfoldable pub await_containers : List Value → Awaited → Result Awaited
  unfolding await_envs listed
  await_containers [] w = return w
  await_containers (c ∷ cs) w = do
    envs ← listed c "env"
    v ← await_envs envs w
    await_containers cs v

  unfoldable pub entrypoint_waits : Value → Result Awaited
  unfolding await_containers listed
  entrypoint_waits pod_spec = do
    cs ← listed pod_spec "initContainers"
    w ← await_containers cs nothing_awaited
    return (record w { services = sorted (distinct w.services); jobs = sorted (distinct w.jobs) })

  workload_of : String → Value → Result Workload
  unfolding entrypoint_waits
  workload_of kind d = do
    spec ← part d "spec"
    tpl ← part spec "template"
    pod_spec ← part tpl "spec"
    w ← entrypoint_waits pod_spec
    n ← doc_name d
    metadata ← part tpl "metadata"
    labels ← part metadata "labels" >>= labels_of
    return (record {
      kind = kind;
      name = n;
      labels = labels;
      services = w.services;
      pods = w.pods;
      jobs = w.jobs;
    })

  abbrev by_kind : Value → Value → Chart → Result Chart
  unfolding service_of workload_of
  by_kind (str kind) d c =
      if kind == "Service"
      then (do s ← service_of d; return (record c { services = c.services ++ s ∷ [] }))
      else if is_workload_kind kind
      then (do w ← workload_of kind d; return (record c { workloads = c.workloads ++ w ∷ [] }))
      else return c
  by_kind _ d c = return c

  reduce : List Value → Chart → Result Chart
  unfolding service_of workload_of
  reduce [] c = return c
  reduce (d ∷ docs) c = do
    kind ← get_default d "kind" null
    more ← by_kind kind d c
    reduce docs more

  -- The charts, and whether one had an error
  collect_all : (helm : String → Rendering) → List String → Charts → Bool → Result (Charts × Bool)
  unfolding render reduce
  collect_all helm [] charts errors = return (charts, errors)
  collect_all helm (name ∷ names) charts errors = elim (render (helm name)) [
    | none ↦ collect_all helm names charts true
    | some docs ↦ do
      c ← reduce docs (record { services = []; workloads = []; children = length docs })
      collect_all helm names (insert name c charts) errors
  ]

  unfoldable pub collect : (helm : String → Rendering) → List String → Result Charts
  unfolding collect_all
  collect helm names = collect_all helm names [] false >>= measured
