-- ===== src/ConfigClosure/Waits.antt =====
-- The waits of init containers in hack/validate-component-config-closure.py: POD_SPEC_AT,
-- DEPENDENCY_SERVICE and DEPENDENCY_JOBS.
use krateo_openstack_bluepri.Prelude.{
  after_last, listed, is_text, String, Bool, true, false, not, ◌&&◌, Option, none, some, List, [],
  ◌∷◌, map, if◌then◌else◌, ◌==◌, ◌+++◌, is_empty, strip, split_on, contains, any, Value, null, str,
  arr, obj, or_else, Result, return, raise, key_error, type_error, attribute_error, system_exit,
  ◌>>=◌, index, get_default,
}
use krateo_openstack_bluepri.ConfigClosure.Report.{Finding, Tally, one_wait, report, each}

abbrev pub measurement_failed : {A : Type 0} → String → Result A
measurement_failed msg = raise (system_exit msg)

-- POD_SPEC_AT: the keys that lead to a pod's spec
abbrev template_spec : List String
template_spec = "spec" ∷ "template" ∷ "spec" ∷ []

abbrev path_of : String → Option (List String)
path_of kind =
    if contains ("Deployment" ∷ "DaemonSet" ∷ "StatefulSet" ∷ "Job" ∷ []) kind
    then some template_spec
    else if kind == "CronJob"
    then some ("spec" ∷ "jobTemplate" ∷ template_spec)
    else if kind == "Pod"
    then some ("spec" ∷ [])
    else none

-- `POD_SPEC_AT.get(kind)`: a list or a mapping is no key.
abbrev pub pod_spec_at : Value → Result (Option (List String))
pod_spec_at (str kind) = return (path_of kind)
pod_spec_at (arr vs) = raise type_error
pod_spec_at (obj fs) = raise type_error
pod_spec_at _ = return none

unfoldable pub follow : List String → Value → Result Value
follow [] v = return v
follow (k ∷ ks) v = do w ← index v k; follow ks w

-- `d["metadata"]["name"]`
unfoldable pub name_of : Value → Result Value
unfolding follow
name_of d = follow ("metadata" ∷ "name" ∷ []) d

-- The message names the document.
abbrev unreadable : Value → Result Value
unreadable doc = do n ← name_of doc; measurement_failed "no pod spec where one was expected"

abbrev or_fails : Value → Result Value → Result Value
or_fails doc (raise (key_error k)) = unreadable doc
or_fails doc (raise type_error) = unreadable doc
or_fails doc r = r

unfoldable pub spec_at : List String → Value → Result Value
unfolding follow name_of
spec_at path doc = or_fails doc (follow path doc)

-- `item.split(":")[-1]`
unfoldable pub service_of : String → String
unfolding after_last
service_of item = after_last b':' item

unfoldable pub items_of : String → List String
unfolding split_on strip
items_of value = map strip (split_on b',' value)

-- `served_by`: a Service's name with a component that renders it
abbrev pub Served : Type 0
Served = List (String × String)

unfoldable pub owners_of : Served → String → List String
owners_of [] svc = []
owners_of ((name, owner) ∷ served) svc =
    let more = owners_of served svc in if name == svc then owner ∷ more else more

abbrev pub meets : List String → List String → Bool
meets owners own = any (contains own) owners

module _ (served : Served) (waived : List Finding) (name : String) (own jobs : List String) where
  unfoldable pub judge_service : String → List String → Tally → Tally
  unfolding report
  judge_service svc [] t = report waived (name, "service:" +++ svc) t
  judge_service svc (owner ∷ owners) t =
      if meets (owner ∷ owners) own then t else report waived (name, "service:" +++ svc) t

  unfoldable pub check_service : String → Tally → Result Tally
  unfolding judge_service owners_of service_of report
  check_service item t = elim (is_empty (service_of item)) [
    | true ↦ return (report waived (name, "service:<empty>") (one_wait t))
    | false ↦
        return (judge_service (service_of item) (owners_of served (service_of item)) (one_wait t))
  ]

  unfoldable pub check_job : String → Tally → Result Tally
  unfolding report
  check_job job t = elim (not (is_empty job) && not (contains jobs job)) [
    | true ↦ return (report waived (name, "job:" +++ job) t)
    | false ↦ return t
  ]

  unfoldable pub check_services : Value → Tally → Result Tally
  unfolding check_service each items_of strip
  check_services (str value) t = elim (is_empty (strip value)) [
    | true ↦ return t
    | false ↦ each check_service (items_of value) t
  ]
  check_services _ t = raise attribute_error

  unfoldable pub check_jobs : Value → Tally → Result Tally
  unfolding check_job each items_of
  check_jobs (str value) t = each check_job (items_of value) t
  check_jobs _ t = raise attribute_error

  -- What an environment variable is checked for, by its name
  unfoldable pub by_name : Value → Value → Tally → Result Tally
  unfolding check_services check_jobs
  by_name var value t = elim (is_text var "DEPENDENCY_SERVICE") [
    | true ↦ check_services value t
    | false ↦ elim (is_text var "DEPENDENCY_JOBS") [ true ↦ check_jobs value t | false ↦ return t ]
  ]

  unfoldable pub check_env : Value → Tally → Result Tally
  unfolding by_name
  check_env env t = do
    value ← get_default env "value" null
    var ← get_default env "name" null
    by_name var (or_else value (str "")) t

  unfoldable pub check_container : Value → Tally → Result Tally
  unfolding check_env listed each
  check_container container t = do envs ← listed container "env"; each check_env envs t

  unfoldable pub check_spec : Option (List String) → Value → Tally → Result Tally
  unfolding spec_at name_of check_container listed each
  check_spec none doc t = return t
  check_spec (some path) doc t = do
    spec ← spec_at path doc
    n ← name_of doc
    containers ← listed spec "initContainers"
    each check_container containers t

  -- The body of the first loop over a component's documents
  unfoldable pub check_waits : Value → Tally → Result Tally
  unfolding check_spec
  check_waits doc t = do
    kind ← get_default doc "kind" null
    path ← pod_spec_at kind
    check_spec path doc t
