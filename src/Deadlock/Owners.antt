-- ===== src/Deadlock/Owners.antt =====
-- `resolve` of hack/validate-readiness-deadlock.py: which component creates each Service, and which
-- of its workloads stand behind it.
pub mod Attributed
use krateo_openstack_bluepri.Prelude.{
  ℕ, String, Bool, true, false, not, ◌&&◌, Option, none, some, List, [], ◌∷◌, ◌++◌, map,
  if◌then◌else◌, ◌==◌, all, keep, lookup, insert, sorted_by,
}

-- Labels and selectors are mappings of texts.
abbrev pub Labels : Type 0
Labels = List (String × String)

pub record Workload : Type 0 where
  pub kind : String
  pub name : String
  pub labels : Labels
  pub services : List String
  pub pods : List Labels
  pub jobs : List String

pub record Service : Type 0 where
  pub name : String
  pub selector : Labels

-- `charts[name]`
pub record Chart : Type 0 where
  pub services : List Service
  pub workloads : List Workload
  pub children : ℕ

abbrev pub Charts : Type 0
Charts = List (String × Chart)

-- `sorted(charts.items())`
abbrev pub in_order : Charts → Charts
in_order charts = sorted_by (λ (e : String × Chart). e.0) charts

abbrev has_label : Labels → String × String → Bool
has_label labels (k, v) = elim (lookup k labels) [ none ↦ false | some w ↦ w == v ]

-- `all(w["labels"].get(k) == v for k, v in selector.items())`
unfoldable pub selects : Labels → Workload → Bool
selects selector w = all (has_label w.labels) selector

abbrev no_selector : Labels → Bool
no_selector [] = true
no_selector (l ∷ ls) = false

unfoldable pub backing_of : Chart → Service → List Workload
unfolding selects
backing_of chart svc =
    keep (λ w. not (no_selector svc.selector) && selects svc.selector w) chart.workloads

abbrev pub Owners : Type 0
Owners = List (String × (String × List Workload))

pub record Duplicate : Type 0 where
  pub service : String
  pub first : String
  pub second : String

pub record Owning : Type 0 where
  pub owners : Owners
  pub duplicates : List Duplicate

abbrev claim : String → List Workload → Service → Owning → Option (String × List Workload) → Owning
claim comp backing svc o none = record o { owners = insert svc.name (comp, backing) o.owners }
claim comp backing svc o (some (first, ws)) = if first == comp then o else record o {
  duplicates = o.duplicates ++ (record { service = svc.name; first = first; second = comp }) ∷ [];
}

unfoldable pub own_services : String → Chart → List Service → Owning → Owning
unfolding backing_of
own_services comp chart [] o = o
own_services comp chart (svc ∷ svcs) o =
    own_services comp chart svcs
      (claim comp (backing_of chart svc) svc o (lookup svc.name o.owners))

unfoldable pub own_all : Charts → Owning → Owning
unfolding own_services
own_all [] o = o
own_all ((comp, chart) ∷ more) o = own_all more (own_services comp chart chart.services o)

pub data Why : Type 0 where
  no_service : Why
  selects_nothing : (owner : String) → Why

-- An entry of the sets in `unresolved`
pub record Unresolved : Type 0 where
  pub service : String
  pub component : String
  pub workload : String
  pub why : Why

abbrev wait_problem : String → Workload → String → Option (String × List Workload) → List Unresolved
wait_problem comp w svc none =
    (record { service = svc; component = comp; workload = w.name; why = no_service }) ∷ []
wait_problem comp w svc (some (owner, [])) =
    (record { service = svc; component = comp; workload = w.name; why = selects_nothing owner })
    ∷ []
wait_problem comp w svc (some (owner, b ∷ bs)) = []

unfoldable pub open_waits : Owners → String → Workload → List String → List Unresolved
open_waits owners comp w [] = []
open_waits owners comp w (svc ∷ svcs) =
    wait_problem comp w svc (lookup svc owners) ++ open_waits owners comp w svcs

unfoldable pub open_workloads : Owners → String → List Workload → List Unresolved
unfolding open_waits
open_workloads owners comp [] = []
open_workloads owners comp (w ∷ ws) =
    open_waits owners comp w w.services ++ open_workloads owners comp ws

unfoldable pub open_charts : Owners → Charts → List Unresolved
unfolding open_workloads
open_charts owners [] = []
open_charts owners ((comp, chart) ∷ more) =
    open_workloads owners comp chart.workloads ++ open_charts owners more

-- `EXTERNAL_SERVICES`
abbrev pub is_external : String → Bool
is_external svc = svc == "postgresql"

pub data Resolved : Type 0 where
  no_single_owner : List Duplicate → Resolved
  undeclared : List Unresolved → Resolved
  resolved : Owners → List Unresolved → Resolved

abbrev pub check_waits : Owners → List Unresolved → List Unresolved → Resolved
check_waits owners unresolved [] = resolved owners unresolved
check_waits owners unresolved (u ∷ us) = undeclared (u ∷ us)

abbrev pub check_owners : Charts → Owning → List Duplicate → Resolved
check_owners charts o [] =
    let unresolved = open_charts o.owners (in_order charts) in
    check_waits o.owners unresolved
      (keep (λ (u : Unresolved). not (is_external u.service)) unresolved)
check_owners charts o (d ∷ ds) = no_single_owner (d ∷ ds)

unfoldable pub resolve : Charts → Resolved
unfolding own_all open_charts
resolve charts =
    let o = own_all (in_order charts) (record { owners = []; duplicates = [] }) in
    check_owners charts o o.duplicates
