-- ===== src/Prune.antt =====
-- hack/validate-upgrade-does-not-prune.py: the probes of the cluster states, the comparison of what
-- they decide, the assertions on the templates' text, and the exit status. `helm template` on the probe
-- chart is a parameter, as a function of the chart's values.
mod States
mod Templates
mod Compared
mod Serves
mod Survives
mod Samples
use krateo_openstack_bluepri.Prelude.{
  is_text, ℕ, String, Bool, true, false, not, ◌&&◌, ◌||◌, Option, none, some, List, [], ◌∷◌, ◌++◌,
  if◌then◌else◌, eqb, ◌==◌, ◌+++◌, codes, has_run, lookup, Value, null, str, arr, obj, field, end,
  of_items, truthy, or_else, Result, return, raise, Exception, key_error, system_exit, ◌>>=◌,
  get_default,
}
use krateo_openstack_bluepri.Prune.States.{
  cur, old, State, states, Expectation, expected_existing, expected_unstamped,
  expected_born_at_current, expected_retired, expected_new,
}
use krateo_openstack_bluepri.Prune.Templates.{
  holds, count_of, definition, expected_gate, expected_document, expected_emit, asks_exists,
  emit_version, origin_version, asks_served,
}

-- The documents that helm prints, and what the YAML parser raises behind them
pub data Rendering : Type 0 where
  failed : Rendering
  output : List Value → Option Exception → Rendering

pub record Chart : Type 0 where
  pub helm : Value → Rendering
  pub compositions : String
  pub helpers : String

abbrev pub origins : Value
origins = obj (
    field "existing" (str old) (
      field "born_at_current" (str cur)
        (field "unstamped" (str "") (field "retired" (str "v0-3-29") end))))

-- The values of the probe chart
abbrev pub probe_values : State → Value
probe_values state = obj (
    field "chartVersion" (str "0.3.33")
      (field "state" (arr (of_items state)) (field "origins" origins end)))

abbrev parser_ends : Option Exception → Result (Option Value)
parser_ends none = return none
parser_ends (some e) = raise e

-- The data of the first ConfigMap
config_data : List Value → Option Exception → Result (Option Value)
config_data [] ending = parser_ends ending
config_data (doc ∷ docs) ending = elim (truthy doc) [
  | false ↦ config_data docs ending
  | true ↦ do
    kind ← get_default doc "kind" null
    elim (is_text kind "ConfigMap") [
      | true ↦ do v ← get_default doc "data" null; return (some (or_else v (obj end)))
      | false ↦ config_data docs ending
    ]
]

abbrev rendered_data : Rendering → Result (Option Value)
unfolding config_data
rendered_data failed = return none
rendered_data (output docs ending) = config_data docs ending

unfoldable pub run_probe : Chart → State → Result (Option Value)
unfolding config_data
run_probe chart state = rendered_data (chart.helm (probe_values state))

-- `results`
abbrev pub Results : Type 0
Results = List (String × Value)

unfoldable pub probe_all : Chart → List (String × State) → Result Results
unfolding run_probe
probe_all chart [] = return []
probe_all chart ((name, state) ∷ rest) = do
  found ← run_probe chart state
  elim found [
    | none ↦ raise (system_exit "a probe did not render")
    | some d ↦ do more ← probe_all chart rest; return ((name, d) ∷ more)
  ]

abbrev pub some_results : Results → Result Results
some_results [] = raise (system_exit "no cluster state was probed")
some_results (r ∷ results) = return (r ∷ results)

pub data Problem : Type 0 where
  existing_gate existing_pin : String → Problem
  wrong : (label state : String) → Problem
  new_gate : String → Problem
  regression served_version tie_break gate_lines document_line asked_again origin_line : Problem
  emit_line : String → Problem

-- `if not b: problems.append(p)`, before the problems that follow
abbrev pub unless : Bool → Problem → List Problem → List Problem
unless true p ps = ps
unless false p ps = p ∷ ps

module _ (results : Results) where
  -- `results[name]`
  unfoldable pub data_of : String → Result Value
  data_of name = elim (lookup name results) [ none ↦ raise (key_error name) | some d ↦ return d ]

  -- `results[name].get(k)`
  unfoldable pub answer : String → String → Result Value
  unfolding data_of
  answer name k = do d ← data_of name; get_default d k null

  unfoldable pub compare_existing : List Expectation → Result (List Problem)
  unfolding answer
  compare_existing [] = return []
  compare_existing ((name, (gate, pin)) ∷ es) = do
    got_gate ← answer name "existing_gate"
    got_pin ← answer name "existing_pinned"
    more ← compare_existing es
    return (
        unless (is_text got_gate gate) (existing_gate name)
          (unless (is_text got_pin pin) (existing_pin name) more))

  unfoldable pub compare_label : String → List Expectation → Result (List Problem)
  unfolding answer
  compare_label label [] = return []
  compare_label label ((name, (gate, pin)) ∷ es) = do
    got_gate ← answer name (label +++ "_gate")
    got_pin ← answer name (label +++ "_pinned")
    more ← compare_label label es
    return (unless (is_text got_gate gate && is_text got_pin pin) (wrong label name) more)

  unfoldable pub compare_new : List (String × String) → Result (List Problem)
  unfolding answer
  compare_new [] = return []
  compare_new ((name, gate) ∷ es) = do
    got ← answer name "unstamped_new_gate"
    more ← compare_new es
    return (unless (is_text got gate) (new_gate name) more)

  -- An answer that is said on its own
  unfoldable pub expect : String → String → String → Problem → Result (List Problem)
  unfolding answer
  expect name k want p = do got ← answer name k; return (unless (is_text got want) p [])

-- The lines of a definition
abbrev pub lines_in : List ℕ → List String → List Problem
lines_in body [] = []
lines_in body (line ∷ lines) =
    unless (has_run (codes line) body) (emit_line line) (lines_in body lines)

-- The assertions on the text of compositions.yaml and _helpers.tpl
unfoldable pub structure : Chart → Result (List Problem)
unfolding count_of definition
structure chart = do
  emit ← definition emit_version chart.helpers
  origin ← definition origin_version chart.helpers
  return (
      unless (holds expected_gate chart.compositions) gate_lines (
        unless (holds expected_document chart.compositions) document_line (
          unless (eqb (count_of asks_exists chart.compositions) 1) asked_again (
            lines_in emit expected_emit
            ++ unless (has_run (codes asks_served) origin) origin_line []))))

unfoldable pub find_problems : Chart → Result (List Problem)
unfolding probe_all compare_existing compare_label compare_new expect structure
find_problems chart = do
  probed ← probe_all chart states
  results ← some_results probed
  existing ← compare_existing results expected_existing
  unstamped ← compare_label results "unstamped" expected_unstamped
  born ← compare_label results "born_at_current" expected_born_at_current
  retired ← compare_label results "retired" expected_retired
  new ← compare_new results expected_new
  bump ← expect results "bump_instant" "existing_gate" "true" regression
  served ← expect results "bump_instant" "existing_served" old served_version
  both ← expect results "both_served" "existing_served" cur tie_break
  lines ← structure chart
  return (
      existing
      ++ (unstamped ++ (born ++ (retired ++ (new ++ (bump ++ (served ++ (both ++ lines))))))))

-- The exit status
abbrev pub status : Result (List Problem) → ℕ
status (return []) = 0
status (return (p ∷ ps)) = 1
status (raise e) = 1

unfoldable pub main : Chart → ℕ
unfolding find_problems
main chart = status (find_problems chart)
