-- ===== src/ConfigClosure/Samples.antt =====
-- A catalogue of two components: keystone waits for the Service of mariadb, which it depends on, and
-- one of its configuration files names a backend that nobody provides.
use krateo_openstack_bluepri.Prelude.{
  String, ◌≡◌, ◌↔◌, refl, true, Option, none, some, List, [], ◌∷◌, In, ◌==◌, if◌then◌else◌,
  names_of, sorted, Value, Fields, obj, arr, str, field, end, cons, nil, return, ◌⊎◌, Exception,
  raise, sort_with,
}
use krateo_openstack_bluepri.ConfigClosure.{
  Rendering, documents, Repository, Renders, main, read_umbrella, render_all, services, read_gaps,
  waivers,
}
use krateo_openstack_bluepri.ConfigClosure.Reach.{Comps, closure, deps_of}
use krateo_openstack_bluepri.ConfigClosure.Reach.Closed.{closure-Reaches}
use krateo_openstack_bluepri.ConfigClosure.Reach.Kept.{Reaches}
use krateo_openstack_bluepri.ConfigClosure.Report.{Finding}
use krateo_openstack_bluepri.ConfigClosure.Waits.{Served}
use krateo_openstack_bluepri.ConfigClosure.Gaps.{IsGap}
use krateo_openstack_bluepri.ConfigClosure.Verdict.{main-gaps}

abbrev pair : String → Value → Fields → Fields
pair k v fs = field k v fs

abbrev one : Value → Value
one v = arr (cons v nil)

abbrev named : String → Value
named name = obj (field "name" (str name) end)

abbrev keystone : Value
keystone = obj (field "name" (str "keystone") (field "deps" (one (str "mariadb")) end))

abbrev umbrella : Value
umbrella = obj (
    field "components" (arr (cons (named "openstack") (cons keystone (cons (named "mariadb") nil))))
      end)

abbrev wait_env : Value
wait_env = obj (field "name" (str "DEPENDENCY_SERVICE") (field "value" (str "openstack:mysql") end))

abbrev pod_spec : Value
pod_spec = obj (field "initContainers" (one (obj (field "env" (one wait_env) end))) end)

abbrev api : Value
api = obj (
    field "kind" (str "Deployment") (
      field "metadata" (named "keystone-api")
        (field "spec" (obj (field "template" (obj (field "spec" pod_spec end)) end)) end)))

abbrev etc : Value
etc = obj (
    field "kind" (str "ConfigMap") (
      field "metadata" (named "keystone-etc") (
        field "data"
          (obj (
            field "keystone.conf"
              (str
                "[storage]\n driver = PostgreSQL\n[database]\nconnection = mysql+pymysql://u@mysql/k")
              end))
          end)))

abbrev mysql : Value
mysql = obj (field "kind" (str "Service") (field "metadata" (named "mysql") end))

abbrev gap : Value
gap = obj (
    field "component" (str "keystone") (
      field "reference" (str "backend:postgresql")
        (field "why" (str "not shipped") (field "tracking" (str "#115") end))))

abbrev charts : String → Rendering
charts name = if name == "keystone" then documents (api ∷ etc ∷ []) else documents (mysql ∷ [])

abbrev catalogue : Option Value → Repository
catalogue gaps = record {
  has_umbrella = true;
  has_toolkit = true;
  umbrella = some umbrella;
  gaps = gaps;
  has_chart = λ name. true;
  helm = charts;
  decode = λ s. none;
}

abbrev declared : Repository
declared = catalogue (some (obj (field "gaps" (one gap) end)))

passes : main declared ≡ 0
unfolding main sort_with
passes = refl

-- The finding is no declared gap.
fails : main (catalogue none) ≡ 1
unfolding main sort_with
fails = refl

main-gaps_example :
    (comps : Comps) × (renders : Renders) × (served : Served) × (gs : List Value) × (waived : List
      Finding)
    × (read_umbrella declared ≡ return comps)
    × (render_all declared (sorted (names_of comps)) ≡ return renders)
    × (services renders ≡ return served)
    × (read_gaps declared.gaps ≡ return gs)
    × (waivers gs ≡ return waived)
    × ((f : Finding)
        → In f waived
          ↔ ((r : String × List Value) × In r renders × IsGap declared comps served r f))
main-gaps_example = main-gaps declared passes

abbrev components : Comps
components = ("keystone", keystone) ∷ ("mariadb", named "mariadb") ∷ []

closure-Reaches_example :
    ((own : List String) × (closure components "keystone" ≡ return own)
      × ((m : String) → In m own ↔ Reaches components "keystone" m))
    ⊎ ((e : Exception) × (n : String) × (closure components "keystone" ≡ raise e)
        × (deps_of components n ≡ raise e)
        × Reaches components "keystone" n)
closure-Reaches_example = closure-Reaches components "keystone"
