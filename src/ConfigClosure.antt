-- ===== src/ConfigClosure.antt =====
-- hack/validate-component-config-closure.py: the script as a whole. Its files, the charts, helm and
-- base64 are parameters.
mod Lines
mod Reach
mod Report
mod Waits
mod Backends
mod Needs
mod Met
mod Gaps
mod Verdict
mod Samples
use krateo_openstack_bluepri.Prelude.{
  listed, is_text, ℕ, String, Bool, true, false, not, ◌&&◌, ◌||◌, Option, none, some, List, [], ◌∷◌,
  ◌++◌, if◌then◌else◌, eqb, ◌==◌, all, any, keep, insert, names_of, sorted, sorted_by, Value, null,
  str, arr, nil, obj, end, truthy, or_else, Result, return, raise, Exception, key_error, type_error,
  attribute_error, system_exit, ◌>>=◌, index, get_default,
}
use krateo_openstack_bluepri.ConfigClosure.Reach.{Comps, text, closure}
use krateo_openstack_bluepri.ConfigClosure.Report.{
  Finding, has_finding, Tally, nothing_checked, each,
}
use krateo_openstack_bluepri.ConfigClosure.Waits.{measurement_failed, name_of, Served, check_waits}
use krateo_openstack_bluepri.ConfigClosure.Backends.{check_confs}

pub data Rendering : Type 0 where
  helm_failed : Rendering
  unparsable : Rendering
  documents : List Value → Rendering

-- A file that is not there is `none`, and so is an umbrella that is no YAML.
pub record Repository : Type 0 where
  pub has_umbrella : Bool
  pub has_toolkit : Bool
  pub umbrella : Option Value
  pub gaps : Option Value
  pub has_chart : String → Bool
  pub helm : String → Rendering
  pub decode : String → Option String

read_comps : Comps → List Value → Result Comps
read_comps comps [] = return comps
read_comps comps (c ∷ cs) = do name ← index c "name" >>= text; read_comps (insert name c comps) cs

comps_in : Value → Result Comps
unfolding read_comps listed
comps_in doc = do cs ← listed (or_else doc (obj end)) "components"; read_comps [] cs

abbrev or_unmeasured : Result Comps → Result Comps
or_unmeasured (raise (key_error k)) = measurement_failed "no component list"
or_unmeasured (raise type_error) = measurement_failed "no component list"
or_unmeasured (raise attribute_error) = measurement_failed "no component list"
or_unmeasured r = r

abbrev parsed : Option Value → Result Comps
unfolding comps_in
parsed none = measurement_failed "no component list"
parsed (some doc) = or_unmeasured (comps_in doc)

abbrev some_comps : Comps → Result Comps
some_comps [] = measurement_failed "no components"
some_comps (c ∷ comps) = return (c ∷ comps)

unfoldable pub read_umbrella : Repository → Result Comps
unfolding comps_in
read_umbrella repo = elim (repo.has_umbrella && repo.has_toolkit) [
  | true ↦ do comps ← parsed repo.umbrella; some_comps comps
  | false ↦ measurement_failed "no umbrella values or no helm-toolkit"
]

-- `[d for d in ... if d]`
abbrev some_docs : List Value → Option (List Value)
some_docs [] = none
some_docs (doc ∷ docs) = some (doc ∷ docs)

abbrev docs_of : Rendering → Option (List Value)
docs_of helm_failed = none
docs_of unparsable = none
docs_of (documents docs) = some_docs (keep truthy docs)

unfoldable pub render : Repository → String → Option (List Value)
render repo name = if repo.has_chart name then docs_of (repo.helm name) else none

-- `renders`, in the order of the names
abbrev pub Renders : Type 0
Renders = List (String × List Value)

unfoldable pub render_all : Repository → List String → Result Renders
unfolding render
render_all repo [] = return []
render_all repo (name ∷ names) = elim (name == "openstack") [
  | true ↦ render_all repo names
  | false ↦ elim (render repo name) [
    | none ↦ measurement_failed "a component did not render"
    | some docs ↦ do more ← render_all repo names; return ((name, docs) ∷ more)
  ]
]

abbrev some_renders : Renders → Result Renders
some_renders [] = measurement_failed "no component chart was rendered"
some_renders (r ∷ renders) = return (r ∷ renders)

-- The names of the documents of a kind
unfoldable pub named_docs : String → List Value → Result (List String)
unfolding name_of
named_docs wanted [] = return []
named_docs wanted (doc ∷ docs) = do
  kind ← get_default doc "kind" null
  elim (is_text kind wanted) [
    | true ↦ do name ← name_of doc >>= text; more ← named_docs wanted docs; return (name ∷ more)
    | false ↦ named_docs wanted docs
  ]

abbrev pub served_as : String → List String → Served
served_as owner [] = []
served_as owner (svc ∷ svcs) = (svc, owner) ∷ served_as owner svcs

unfoldable pub services : Renders → Result Served
unfolding named_docs
services [] = return []
services ((name, docs) ∷ renders) = do
  svcs ← named_docs "Service" docs
  more ← services renders
  return (served_as name svcs ++ more)

abbrev some_served : Served → Result Served
some_served [] = measurement_failed "no component renders a Service"
some_served (s ∷ served) = return (s ∷ served)

-- Whether `g.get(k)` counts for each of the keys
has_keys : Value → List String → Result Bool
has_keys g [] = return true
has_keys g (k ∷ ks) = do v ← get_default g k null; more ← has_keys g ks; return (truthy v && more)

check_keys : List Value → Result (Unit {0})
unfolding has_keys
check_keys [] = return tt
check_keys (g ∷ gs) = do
  complete ← has_keys g ("component" ∷ "reference" ∷ "why" ∷ "tracking" ∷ [])
  if complete then check_keys gs else measurement_failed "a gap is incomplete"

-- A waiver's component and reference are texts.
unfoldable pub waivers : List Value → Result (List Finding)
waivers [] = return []
waivers (g ∷ gs) = do
  c ← index g "component" >>= text
  r ← index g "reference" >>= text
  more ← waivers gs
  return ((c, r) ∷ more)

unfoldable pub read_gaps : Option Value → Result (List Value)
unfolding check_keys listed
read_gaps none = return []
read_gaps (some doc) = do
  gs ← listed (or_else doc (obj end)) "gaps"
  complete ← check_keys gs
  return gs

module _ (repo : Repository) (comps : Comps) (served : Served) (waived : List Finding) where
  -- The body of the loop over the rendered components
  unfoldable pub check_component : String × List Value → Tally → Result Tally
  unfolding closure named_docs check_waits check_confs each
  check_component (name, docs) t = do
    own ← closure comps name
    jobs ← named_docs "Job" docs
    u ← each (check_waits served waived name own jobs) docs t
    each (check_confs waived name own repo.decode) docs u

-- `waived - used_waivers`
abbrev pub stale : List Finding → List Finding → List Finding
stale waived used = keep (λ f. not (has_finding used f)) waived

-- What is reported: findings and stale waivers
abbrev pub judge : List Finding → Tally → Result (List Finding)
judge waived t =
    if eqb t.checked_waits 0 && eqb t.checked_backends 0
    then measurement_failed "not one wait or backend reference was found"
    else return (t.problems ++ stale waived t.used_waivers)

-- `g["why"].strip()`
abbrev stripped : Value → Result (Unit {0})
stripped (str why) = return tt
stripped _ = raise attribute_error

-- The declared gaps are printed, when there is no problem.
print_gaps : List Value → Result (List Finding)
print_gaps [] = return []
print_gaps (g ∷ gs) = do
  why ← index g "why"
  fine ← stripped why
  tracking ← index g "tracking"
  print_gaps gs

unfoldable pub concluded : List Value → List Finding → Result (List Finding)
unfolding print_gaps
concluded gs [] = print_gaps gs
concluded gs (f ∷ fs) = return (f ∷ fs)

unfoldable pub run : Repository → Result (List Finding)
unfolding read_umbrella render_all services read_gaps waivers check_component each concluded
run repo = do
  comps ← read_umbrella repo
  rendered ← render_all repo (sorted (names_of comps))
  renders ← some_renders rendered
  served ← services renders >>= some_served
  gs ← read_gaps repo.gaps
  waived ← waivers gs
  t ← each (check_component repo comps served waived) renders nothing_checked
  found ← judge waived t
  concluded gs found

-- The exit status: an exception that nothing catches ends in status 1.
abbrev pub status : Result (List Finding) → ℕ
status (return []) = 0
status (return (f ∷ fs)) = 1
status (raise (system_exit msg)) = 2
status (raise e) = 1

unfoldable pub main : Repository → ℕ
unfolding run
main repo = status (run repo)
