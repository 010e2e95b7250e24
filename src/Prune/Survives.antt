-- ===== src/Prune/Survives.antt =====
-- Which components the upgrade of hack/validate-upgrade-does-not-prune.py keeps, by what a cluster
-- state serves.
use krateo_openstack_bluepri.Prelude.{
  append_nil, raise_return, String, ◌≡◌, refl, sym, ap, subst, ◌∙◌, true, some, some_inj, List, [],
  ◌∷◌, ◌+++◌, lookup, Value, str, null, Result, return, raise, >>=-inv, return_inj, get_default,
  arith,
}
use krateo_openstack_bluepri.Prune.States.{
  cur, old, State, states, Expectation, expected_existing, expected_unstamped,
  expected_born_at_current, expected_retired, expected_new,
}
use krateo_openstack_bluepri.Prune.{
  Chart, Results, Problem, regression, served_version, tie_break, run_probe, probe_all,
  some_results, compare_existing, compare_label, compare_new, expect, structure, find_problems,
  status, main,
}
use krateo_openstack_bluepri.Prune.Serves.{
  serves, serves_any, is_str, gate_when, is_kept_at, agrees, agrees-lookup, new_agrees-lookup,
}
use krateo_openstack_bluepri.Prune.Compared.{
  Answers, compare_existing-Answers, compare_label-Answers, compare_new-Answers, probe_all-lookup,
}

-- How a component of this label is kept, as the state's probe answers
abbrev pub IsKept : State → Value → String → String → Type 0
IsKept state d label prefers =
    (pin : String) × (get_default d (label +++ "_gate") null
      ≡ return (str (gate_when (serves_any state))))
    × (get_default d (label +++ "_pinned") null ≡ return (str pin))
    × (is_kept_at prefers state pin ≡ true)

status-return : (r : Result (List Problem)) → status r ≡ 0 → r ≡ return []
status-return (return []) h = refl
status-return (return (p ∷ ps)) h = ground arith
status-return (raise e) h = ground arith

-- The answers of one data
same_data :
    (results : Results) (name k w : String) (d : Value)
    → lookup name results ≡ some d
    → Answers results name k w
    → get_default d k null ≡ return (str w)
same_data results name k w d at (c, there, got) =
    subst (λ (x : Value). get_default x k null ≡ return (str w)) (some_inj (sym there ∙ at)) got

label-IsKept :
    (results : Results) (es : List Expectation) (prefers label name : String) (state : State)
    (d : Value)
    → agrees prefers es states ≡ true
    → lookup name states ≡ some state
    → lookup name results ≡ some d
    → ((gate pin : String)
        → lookup name es ≡ some (gate, pin)
        → Answers results name (label +++ "_gate") gate
          × Answers results name (label +++ "_pinned") pin)
    → IsKept state d label prefers
label-IsKept results es prefers label name state d good at there seen =
    let (pin, found, kept) = agrees-lookup prefers es states good name state at in
    let (gate, version) = seen (gate_when (serves_any state)) pin found in
    (
      pin,
      same_data results name (label +++ "_gate") (gate_when (serves_any state)) d there gate,
      same_data results name (label +++ "_pinned") pin d there version,
      kept,
    )

some_results-same :
    (probed results : Results) → some_results probed ≡ return results → probed ≡ results
some_results-same [] results h = raise_return h
some_results-same (r ∷ probed) results h = return_inj h

-- What a run of the comparisons that ends without a problem has compared
compared :
    (chart : Chart)
    → find_problems chart ≡ return []
    → (results : Results) × (probe_all chart states ≡ return results)
      × (compare_existing results expected_existing ≡ return [])
      × (compare_label results "unstamped" expected_unstamped ≡ return [])
      × (compare_label results "born_at_current" expected_born_at_current ≡ return [])
      × (compare_label results "retired" expected_retired ≡ return [])
      × (compare_new results expected_new ≡ return [])
unfolding find_problems
compared chart h =
    let (probed, p, h1) = >>=-inv (probe_all chart states) _ [] h in
    let (results, r, h2) = >>=-inv (some_results probed) _ [] h1 in
    let (existing, e, h3) = >>=-inv (compare_existing results expected_existing) _ [] h2 in
    let (unstamped, u, h4) =
      >>=-inv (compare_label results "unstamped" expected_unstamped) _ [] h3 in
    let (born, b, h5) =
      >>=-inv (compare_label results "born_at_current" expected_born_at_current) _ [] h4 in
    let (retired, t, h6) = >>=-inv (compare_label results "retired" expected_retired) _ [] h5 in
    let (fresh, n, h7) = >>=-inv (compare_new results expected_new) _ [] h6 in
    let (bump, q, h8) =
      >>=-inv (expect results "bump_instant" "existing_gate" "true" regression) _ [] h7 in
    let (served, v, h9) =
      >>=-inv (expect results "bump_instant" "existing_served" old served_version) _ [] h8 in
    let (both, w, h10) =
      >>=-inv (expect results "both_served" "existing_served" cur tie_break) _ [] h9 in
    let (lines, l, h11) = >>=-inv (structure chart) _ [] h10 in
    let (e_nil, k1) = append_nil existing _ (return_inj h11) in
    let (u_nil, k2) = append_nil unstamped _ k1 in
    let (b_nil, k3) = append_nil born _ k2 in
    let (t_nil, k4) = append_nil retired _ k3 in
    let (n_nil, k5) = append_nil fresh _ k4 in
    (
      results,
      p ∙ ap return (some_results-same probed results r),
      e ∙ ap return e_nil,
      u ∙ ap return u_nil,
      b ∙ ap return b_nil,
      t ∙ ap return t_nil,
      n ∙ ap return n_nil,
    )

-- When the script exits with status 0, the probe of each cluster state answers for every component that
-- exists that its gate is open exactly when the state serves a version of its kind, and that it is
-- emitted at the version that it prefers, where that is served, else at one that is: the version that it
-- was born at where it has the stamp, and the current one where it has none, was born at the current
-- one or at a retired one. The gate of a component that does not exist is open exactly when the
-- state serves the current version.
pub main-IsKept :
    (chart : Chart) (name : String) (state : State)
    → main chart ≡ 0
    → lookup name states ≡ some state
    → (d : Value) × (run_probe chart state ≡ return (some d))
      × IsKept state d "existing" old
      × IsKept state d "unstamped" cur
      × IsKept state d "born_at_current" cur
      × IsKept state d "retired" cur
      × (get_default d "unstamped_new_gate" null
          ≡ return (str (gate_when (serves (is_str cur) state))))
unfolding main
main-IsKept chart name state h at =
    let (results, p, e, u, b, t, n) = compared chart (status-return (find_problems chart) h) in
    let (d, ran, there) = probe_all-lookup chart states results p name state at in
    let fresh : Answers results name "unstamped_new_gate" (gate_when (serves (is_str cur) state)) =
      compare_new-Answers results expected_new n name (gate_when (serves (is_str cur) state))
        (new_agrees-lookup expected_new states refl name state at) in
    (
      d,
      ran,
      label-IsKept results expected_existing old "existing" name state d refl at there
          (compare_existing-Answers results expected_existing e name),
      label-IsKept results expected_unstamped cur "unstamped" name state d refl at there
          (compare_label-Answers results "unstamped" expected_unstamped u name),
      label-IsKept results expected_born_at_current cur "born_at_current" name state d refl at there
          (compare_label-Answers results "born_at_current" expected_born_at_current b name),
      label-IsKept results expected_retired cur "retired" name state d refl at there
          (compare_label-Answers results "retired" expected_retired t name),
      same_data results name "unstamped_new_gate" (gate_when (serves (is_str cur) state)) d there
          fresh,
    )
