-- ===== src/Deadlock/Umbrella.antt =====
-- `read_umbrella` of hack/validate-readiness-deadlock.py, from the parsed values.yaml on. The text of
-- a relaxation's cycle is checked to be there and not read after that.
pub mod Declared
use krateo_openstack_bluepri.Prelude.{
  String, Bool, true, false, not, ◌&&◌, ◌||◌, Option, none, some, List, [], ◌∷◌, ◌++◌,
  if◌then◌else◌, ◌==◌, any, all, contains, keep, lookup, insert, names_of, sorted, Result, return,
  raise, Exception, system_exit, type_error, ◌>>=◌, index, get_default, iterate, Value, Fields,
  null, str, arr, nil, obj, end, truthy, or_else,
}

-- `comps`: the dependencies of each component
abbrev pub Comps : Type 0
Comps = List (String × List String)

abbrev pub fail_measurement : {A : Type 0} → String → Result A
fail_measurement msg = raise (system_exit msg)

-- Names are texts.
abbrev text : Value → Result String
text (str s) = return s
text _ = raise type_error

texts : List Value → Result (List String)
texts [] = return []
texts (v ∷ vs) = do s ← text v; ss ← texts vs; return (s ∷ ss)

component : Value → Result (String × List String)
unfolding texts
component c = do
  name ← index c "name" >>= text
  deps ← get_default c "deps" null
  listed ← iterate (or_else deps (arr nil)) >>= texts
  return (name, sorted listed)

unfoldable pub read_components : Comps → List Value → Result Comps
unfolding component
read_components comps [] = return comps
read_components comps (c ∷ cs) = do
  entry ← component c
  read_components (insert entry.0 entry.1 comps) cs

-- `if not comps`
abbrev pub declares_any : Comps → Bool
declares_any [] = false
declares_any (c ∷ cs) = true

-- Every dependency is a component.
abbrev pub closed : Comps → Comps → Bool
closed comps [] = true
closed comps ((name, deps) ∷ more) =
    all (λ d. contains (names_of comps) d) deps && closed comps more

-- `comps.pop(name, None)`
abbrev pub without : String → Comps → Comps
without name comps = keep (λ (e : String × List String). not (e.0 == name)) comps

abbrev pub deps_of : Comps → String → List String
deps_of comps name = elim (lookup name comps) [ none ↦ [] | some deps ↦ deps ]

abbrev given : Fields → String → Result Bool
given fs k = get_default (obj fs) k null >>= λ v. return (truthy v)

abbrev pub Edge : Type 0
Edge = String × String

abbrev pub has_edge : List Edge → Edge → Bool
has_edge relaxed e = any (λ (r : Edge). r.0 == e.0 && r.1 == e.1) relaxed

-- An edge of the declared dependencies
abbrev pub is_declared : Comps → Edge → Bool
is_declared comps e = contains (names_of comps) e.0 && contains (deps_of comps e.0) e.1

abbrev pub add_relaxed : Comps → List Edge → Edge → Result (List Edge)
add_relaxed comps relaxed e =
    if has_edge relaxed e
    then fail_measurement "declared twice"
    else if is_declared comps e
    then return (relaxed ++ e ∷ [])
    else fail_measurement "not a declared edge"

named_edge : Fields → Result Edge
named_edge fs = do
  comp ← index (obj fs) "component" >>= text
  dep ← index (obj fs) "dependency" >>= text
  return (comp, dep)

read_edge : Fields → Result Edge
unfolding named_edge
read_edge fs = do
  c ← given fs "component"
  d ← given fs "dependency"
  i ← given fs "issue"
  y ← given fs "cycle"
  if c && (d && (i && y)) then named_edge fs else fail_measurement "incomplete relaxation"

abbrev edge_of : Value → Result Edge
edge_of (obj fs) = read_edge fs
edge_of _ = fail_measurement "not a mapping"

unfoldable pub read_relaxations : Comps → List Edge → List Value → Result (List Edge)
unfolding read_edge
read_relaxations comps relaxed [] = return relaxed
read_relaxations comps relaxed (r ∷ rs) = do
  e ← edge_of r
  more ← add_relaxed comps relaxed e
  read_relaxations comps more rs

unfoldable pub check_closed : Comps → Result Comps
check_closed comps =
    if declares_any comps
    then if closed comps comps
      then return (without "openstack" comps)
      else fail_measurement "a dependency is not a component"
    else fail_measurement "the umbrella declares no components"

unfoldable pub read_umbrella : Value → Result (Comps × List Edge)
unfolding read_components read_relaxations check_closed
read_umbrella parsed = do
  let doc = or_else parsed (obj end)
  listed ← get_default doc "components" null
  all_comps ← iterate (or_else listed (arr nil)) >>= read_components []
  comps ← check_closed all_comps
  declared ← get_default doc "dependencyRelaxations" null
  relaxed ← iterate (or_else declared (arr nil)) >>= read_relaxations comps []
  return (comps, relaxed)
