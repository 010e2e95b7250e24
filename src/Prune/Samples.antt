-- ===== src/Prune/Samples.antt =====
-- A chart whose helpers keep a component at a served version, and one that gates on the current version.
use krateo_openstack_bluepri.Prelude.{
  String, ◌≡◌, refl, Bool, none, some, [], ◌∷◌, ◌+++◌, if◌then◌else◌, lookup, Value, Fields, obj,
  arr, str, null, field, end, items, find, return, get_default,
}
use krateo_openstack_bluepri.Prune.States.{cur, old, State, states}
use krateo_openstack_bluepri.Prune.Templates.{
  expected_gate, expected_document, emit_version, origin_version, asks_served,
}
use krateo_openstack_bluepri.Prune.Serves.{serves, serves_any, is_str, gate_when}
use krateo_openstack_bluepri.Prune.{output, Chart, run_probe, main}
use krateo_openstack_bluepri.Prune.Survives.{IsKept, main-IsKept}

abbrev served_version : State → String
served_version state =
    if serves (is_str cur) state
    then cur
    else if serves (is_str old) state
    then old
    else if serves (is_str "v0-3-31") state
    then "v0-3-31"
    else cur

abbrev pin : String → State → String
pin stamp state = if serves (is_str stamp) state then stamp else served_version state

abbrev gates : (State → Bool) → State → Fields
gates opens state = field "existing_served" (str (served_version state)) (
    field "existing_gate" (str (gate_when (opens state))) (
      field "existing_pinned" (str (pin old state)) (
        field "unstamped_gate" (str (gate_when (opens state))) (
          field "unstamped_pinned" (str (pin "" state)) (
            field "born_at_current_gate" (str (gate_when (opens state))) (
              field "born_at_current_pinned" (str (pin cur state)) (
                field "retired_gate" (str (gate_when (opens state))) (
                  field "retired_pinned" (str (pin "v0-3-29" state)) (
                    field "unstamped_new_gate" (str (gate_when (serves (is_str cur) state)))
                      end)))))))))

abbrev state_of : Value → State
state_of (obj fs) = elim (find "state" fs) [ some (arr vs) ↦ items vs | _ ↦ [] ]
state_of _ = []

abbrev chart_with : (State → Bool) → Chart
chart_with opens = record {
  helm = λ values.
      output
        (obj (
            field "kind" (str "ConfigMap") (field "data" (obj (gates opens (state_of values))) end))
          ∷ [])
        none;
  compositions = expected_gate +++ "\n" +++ expected_document;
  helpers =
      emit_version +++ "{{- $exists := index . 4 -}}"
      +++ "{{- include \"osh.resolveVersion\" (list $current $origin $exists $kind $crds) -}}"
      +++ "{{- end -}}" +++ origin_version +++ asks_served +++ "{{- end -}}";
}

abbrev chart : Chart
chart = chart_with serves_any

passes : main chart ≡ 0
unfolding main
passes = refl

-- The gate of a live component asks for the current version.
prunes : main (chart_with (serves (is_str cur))) ≡ 1
unfolding main
prunes = refl

abbrev bump : State
bump = elim (lookup "bump_instant" states) [ some state ↦ state | none ↦ [] ]

main-IsKept_example :
    (d : Value) × (run_probe chart bump ≡ return (some d))
    × IsKept bump d "existing" old
    × IsKept bump d "unstamped" cur
    × IsKept bump d "born_at_current" cur
    × IsKept bump d "retired" cur
    × (get_default d "unstamped_new_gate" null
        ≡ return (str (gate_when (serves (is_str cur) bump))))
main-IsKept_example = main-IsKept chart "bump_instant" bump passes refl
