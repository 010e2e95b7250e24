-- ===== src/Prune/Compared.antt =====
-- What the comparisons of hack/validate-upgrade-does-not-prune.py have seen when they find no problem.
use krateo_openstack_bluepri.Prelude.{
  raise_return, is_text, String, ◌≡◌, refl, sym, ap, subst, ◌∙◌, inl, inr, Bool, true, false,
  Bool-cases, ◌&&◌, Option, none, some, none_some, some_inj, Option-cases, List, [], ◌∷◌, ◌==◌,
  ◌+++◌, lookup, Value, null, str, arr, obj, num, real, bool, return, raise, key_error, system_exit,
  ◌>>=◌, >>=-inv, return_inj, get_default, arith, eq_iff,
}
use krateo_openstack_bluepri.Prune.States.{State, Expectation}
use krateo_openstack_bluepri.Prune.{
  Chart, Results, Problem, unless, data_of, answer, compare_existing, compare_label, compare_new,
  run_probe, probe_all,
}

-- The probe of the state answers the text w to k.
abbrev pub Answers : Results → String → String → String → Type 0
Answers results name k w =
    (d : Value) × (lookup name results ≡ some d) × (get_default d k null ≡ return (str w))

is_text-eq : (v : Value) (w : String) → is_text v w ≡ true → v ≡ str w
is_text-eq (str s) w h = let same : s ≡ w = ground (arith, eq_iff s w) in ap str same
is_text-eq null w h = cc
is_text-eq (num n) w h = cc
is_text-eq (real r) w h = cc
is_text-eq (bool b) w h = cc
is_text-eq (arr vs) w h = cc
is_text-eq (obj fs) w h = cc

pub unless-nil :
    (b : Bool) (p : Problem) (ps : List Problem) → unless b p ps ≡ [] → (b ≡ true) × (ps ≡ [])
unless-nil true p ps h = (refl, h)
unless-nil false p ps h = cc

pub answer-Answers :
    (results : Results) (name k w : String) (v : Value)
    → answer results name k ≡ return v
    → is_text v w ≡ true
    → Answers results name k w
unfolding answer data_of
answer-Answers results name k w v h e =
    let (d, at, got) = >>=-inv (data_of results name) (λ (d : Value). get_default d k null) v h in
    elim (Option-cases (lookup name results)) [
      | inl missing ↦
          let opened : data_of results name ≡ raise (key_error name) = rw (data_of, missing) refl in
          raise_return (sym opened ∙ at)
      | inr (c, there) ↦
          let opened : data_of results name ≡ return c = rw (data_of, there) refl in
          (d, there ∙ ap some (return_inj (sym opened ∙ at)), got ∙ ap return (is_text-eq v w e))
    ]

-- The answers for an entry of a table, where a name's first entry is looked up
at_entry :
    (results : Results) (k j n name g p gate pin : String) (es : List Expectation)
    → (n == name) ≡ true
    → lookup name ((n, (g, p)) ∷ es) ≡ some (gate, pin)
    → Answers results n k g × Answers results n j p
    → Answers results name k gate × Answers results name j pin
at_entry results k j n name g p gate pin es e at both =
    let same : n ≡ name = ground (arith, eq_iff n name) in
    let entry : (g, p) ≡ (gate, pin) = some_inj (rw (e) at at) in
    subst (λ (x : String × String). Answers results name k x.0 × Answers results name j x.1) entry
      (subst (λ (m : String). Answers results m k g × Answers results m j p) same both)

pub compare_label-Answers :
    (results : Results) (label : String) (es : List Expectation)
    → compare_label results label es ≡ return []
    → (name gate pin : String) → lookup name es ≡ some (gate, pin)
    → Answers results name (label +++ "_gate") gate × Answers results name (label +++ "_pinned") pin
unfolding compare_label
compare_label-Answers results label [] h name gate pin at = none_some at
compare_label-Answers results label ((n, (g, p)) ∷ es) h name gate pin at =
    let (v, first, h1) = >>=-inv (answer results n (label +++ "_gate")) _ [] h in
    let (w, second, h2) = >>=-inv (answer results n (label +++ "_pinned")) _ [] h1 in
    let (more, rest, h3) = >>=-inv (compare_label results label es) _ [] h2 in
    let (good, quiet) = unless-nil (is_text v g && is_text w p) _ more (return_inj h3) in
    elim (Bool-cases (n == name)) [
      | inl e ↦
          at_entry results (label +++ "_gate") (label +++ "_pinned") n name g p gate pin es e at (
            answer-Answers results n (label +++ "_gate") g v first (ground arith),
            answer-Answers results n (label +++ "_pinned") p w second (ground arith),
          )
      | inr e ↦
          compare_label-Answers results label es (rest ∙ ap return quiet) name gate pin
            (rw (e) at at)
    ]

pub compare_existing-Answers :
    (results : Results) (es : List Expectation)
    → compare_existing results es ≡ return []
    → (name gate pin : String) → lookup name es ≡ some (gate, pin)
    → Answers results name "existing_gate" gate × Answers results name "existing_pinned" pin
unfolding compare_existing
compare_existing-Answers results [] h name gate pin at = none_some at
compare_existing-Answers results ((n, (g, p)) ∷ es) h name gate pin at =
    let (v, first, h1) = >>=-inv (answer results n "existing_gate") _ [] h in
    let (w, second, h2) = >>=-inv (answer results n "existing_pinned") _ [] h1 in
    let (more, rest, h3) = >>=-inv (compare_existing results es) _ [] h2 in
    let (right_gate, h4) = unless-nil (is_text v g) _ _ (return_inj h3) in
    let (right_pin, quiet) = unless-nil (is_text w p) _ more h4 in
    elim (Bool-cases (n == name)) [
      | inl e ↦ at_entry results "existing_gate" "existing_pinned" n name g p gate pin es e at (
        answer-Answers results n "existing_gate" g v first right_gate,
        answer-Answers results n "existing_pinned" p w second right_pin,
      )
      | inr e ↦
          compare_existing-Answers results es (rest ∙ ap return quiet) name gate pin (rw (e) at at)
    ]

pub compare_new-Answers :
    (results : Results) (es : List (String × String))
    → compare_new results es ≡ return []
    → (name gate : String) → lookup name es ≡ some gate
    → Answers results name "unstamped_new_gate" gate
unfolding compare_new
compare_new-Answers results [] h name gate at = none_some at
compare_new-Answers results ((n, g) ∷ es) h name gate at =
    let (v, first, h1) = >>=-inv (answer results n "unstamped_new_gate") _ [] h in
    let (more, rest, h2) = >>=-inv (compare_new results es) _ [] h1 in
    let (good, quiet) = unless-nil (is_text v g) _ more (return_inj h2) in
    elim (Bool-cases (n == name)) [
      | inl e ↦
          let same : n ≡ name = ground (arith, eq_iff n name) in
          let entry : g ≡ gate = some_inj (rw (e) at at) in
          subst (λ (x : String). Answers results name "unstamped_new_gate" x) entry
            (subst (λ (m : String). Answers results m "unstamped_new_gate" g) same
              (answer-Answers results n "unstamped_new_gate" g v first good))
      | inr e ↦ compare_new-Answers results es (rest ∙ ap return quiet) name gate (rw (e) at at)
    ]

rendered_rest :
    (chart : Chart) (n : String) (sts : List (String × State)) (results : Results)
    (found : Option Value)
    → elim found [
      | none ↦ raise (system_exit "a probe did not render")
      | some d ↦ (probe_all chart sts >>= λ more. return ((n, d) ∷ more))
    ]
      ≡ return results
    → (d : Value) × (more : Results) × (found ≡ some d)
      × (probe_all chart sts ≡ return more)
      × ((n, d) ∷ more ≡ results)
rendered_rest chart n sts results none h = raise_return h
rendered_rest chart n sts results (some d) h =
    let (more, rest, e) = >>=-inv (probe_all chart sts) _ results h in
    (d, more, refl, rest, return_inj e)

-- The result of a state is its own probe's.
pub probe_all-lookup :
    (chart : Chart) (sts : List (String × State)) (results : Results)
    → probe_all chart sts ≡ return results
    → (name : String) (state : State) → lookup name sts ≡ some state
    → (d : Value) × (run_probe chart state ≡ return (some d)) × (lookup name results ≡ some d)
unfolding probe_all
probe_all-lookup chart [] results h name state at = none_some at
probe_all-lookup chart ((n, s) ∷ sts) results h name state at =
    let (found, probed, h1) = >>=-inv (run_probe chart s) _ results h in
    let (d, more, there, rest, e) = rendered_rest chart n sts results found h1 in
    elim (Bool-cases (n == name)) [
      | inl head ↦
          let same : s ≡ state = some_inj (rw (head) at at) in
          let own : lookup name ((n, d) ∷ more) ≡ some d = rw (head) refl in
          (
            d,
            subst (λ (x : State). run_probe chart x ≡ return (some d)) same
                (probed ∙ ap return there),
            subst (λ (r : Results). lookup name r ≡ some d) e own,
          )
      | inr later ↦
          let (c, ran, its) = probe_all-lookup chart sts more rest name state (rw (later) at at) in
          let own : lookup name ((n, d) ∷ more) ≡ some c = rw (later) its in
          (c, ran, subst (λ (r : Results). lookup name r ≡ some c) e own)
    ]
