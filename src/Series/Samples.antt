-- ===== src/Series/Samples.antt =====
-- Keystone's values with an image that moves with the series and one that does not.
use krateo_openstack_bluepri.Prelude.{
  String, true, false, ◌≡◌, refl, none, some, List, [], ◌∷◌, if◌then◌else◌, ◌==◌,
}
use krateo_openstack_bluepri.Series.{
  Expressions, Values, Scope, failed_measurement, report, run, only_of,
}
use krateo_openstack_bluepri.Series.Counts.{
  counted, kind_in, references, run-counted, run-failed_measurement,
}

abbrev expressions : Expressions
expressions = record {
  images = λ text.
      if text == "keystone's values"
      then ((record { repo = "quay.io/airshipit/keystone"; tag = "2026.1-ubuntu_noble" })
          ∷ (record { repo = "quay.io/airshipit/memcached"; tag = "1.6.32" })
          ∷ [])
      else [];
  series = λ tag. if tag == "2026.1-ubuntu_noble" then some ("2026.1", "ubuntu_noble") else none;
}

abbrev files_at : String → List Values
files_at root =
    if root == "." then (record { component = "keystone"; text = "keystone's values" }) ∷ [] else []

abbrev scope : Scope
scope = record {
  moves = ("quay.io/airshipit/keystone", "2026.1-ubuntu_noble" ∷ []) ∷ [];
  static = ("quay.io/airshipit/memcached", "1.6.32" ∷ []) ∷ [];
  per_component = ("keystone", record { moving = 1; still = 1 }) ∷ [];
}

reported : run expressions files_at [] ≡ report scope
unfolding run
reported = refl

run-counted_example :
    let rs = references expressions "keystone" none (files_at ".") in
    (counted true "keystone" scope.per_component ≡ kind_in expressions "keystone" true rs)
    × (counted false "keystone" scope.per_component ≡ kind_in expressions "keystone" false rs)
unfolding only_of
run-counted_example = run-counted expressions files_at [] scope reported "keystone"

run-failed_measurement_example :
    run expressions files_at ("--component" ∷ "keystone" ∷ "." ∷ []) ≡ failed_measurement
run-failed_measurement_example =
    run-failed_measurement expressions files_at "keystone" ("." ∷ []) refl refl
