-- ===== src/Prune/States.antt =====
-- The cluster states of hack/validate-upgrade-does-not-prune.py and what each of them must decide.
use krateo_openstack_bluepri.Prelude.{
  String, Bool, true, false, List, [], ◌∷◌, Value, obj, arr, str, bool, field, end, of_items, map,
}

-- CUR and OLD
abbrev pub cur : String
cur = "v0-3-33"

abbrev pub old : String
old = "v0-3-32"

-- A version's name and whether it is served
abbrev version : String × Bool → Value
version (n, s) = obj (field "name" (str n) (field "served" (bool s) end))

abbrev crd : String → List (String × Bool) → Value
crd kind versions = obj (
    field "spec"
      (obj (
        field "group" (str "composition.krateo.io") (
          field "names" (obj (field "kind" (str kind) end))
            (field "versions" (arr (of_items (map version versions))) end))))
      end)

-- A cluster's CRDs
abbrev pub State : Type 0
State = List Value

abbrev pub states : List (String × State)
states =
    ("bump_instant", crd "Glance" ((old, true) ∷ []) ∷ [])
    ∷ ("both_served", crd "Glance" ((old, true) ∷ (cur, true) ∷ []) ∷ [])
    ∷ ("only_current", crd "Glance" ((cur, true) ∷ []) ∷ [])
    ∷ ("new_registered_unserved", crd "Glance" ((old, true) ∷ (cur, false) ∷ []) ∷ [])
    ∷ ("first_install", [])
    ∷ ("origin_no_longer_served", crd "Glance" (("v0-3-31", true) ∷ []) ∷ [])
    ∷ (
      "two_older_served",
      crd "Glance" (("v0-3-28", true) ∷ ("vacuum", false) ∷ ("v0-3-30", true) ∷ (old, true) ∷ [])
          ∷ [],
    )
    ∷ ("older_served_reversed", crd "Glance" ((old, true) ∷ ("v0-3-9", true) ∷ []) ∷ [])
    ∷ []

-- A state's name, the gate and the version that a component is emitted at
abbrev pub Expectation : Type 0
Expectation = String × (String × String)

abbrev pub expected_existing : List Expectation
expected_existing =
    ("bump_instant", ("true", old))
    ∷ ("both_served", ("true", old))
    ∷ ("only_current", ("true", cur))
    ∷ ("new_registered_unserved", ("true", old))
    ∷ ("first_install", ("", cur))
    ∷ ("origin_no_longer_served", ("true", "v0-3-31"))
    ∷ ("two_older_served", ("true", old))
    ∷ ("older_served_reversed", ("true", old))
    ∷ []

abbrev pub expected_unstamped : List Expectation
expected_unstamped =
    ("bump_instant", ("true", old))
    ∷ ("both_served", ("true", cur))
    ∷ ("only_current", ("true", cur))
    ∷ ("new_registered_unserved", ("true", old))
    ∷ ("first_install", ("", cur))
    ∷ ("origin_no_longer_served", ("true", "v0-3-31"))
    ∷ ("two_older_served", ("true", old))
    ∷ ("older_served_reversed", ("true", old))
    ∷ []

abbrev pub expected_born_at_current : List Expectation
expected_born_at_current = expected_unstamped

abbrev pub expected_retired : List Expectation
expected_retired = expected_unstamped

-- A state's name and the gate of a component that does not exist
abbrev pub expected_new : List (String × String)
expected_new =
    ("bump_instant", "")
    ∷ ("both_served", "true")
    ∷ ("only_current", "true")
    ∷ ("new_registered_unserved", "")
    ∷ ("first_install", "")
    ∷ ("origin_no_longer_served", "")
    ∷ ("two_older_served", "")
    ∷ ("older_served_reversed", "")
    ∷ []
