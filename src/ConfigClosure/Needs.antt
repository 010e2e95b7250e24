-- ===== src/ConfigClosure/Needs.antt =====
-- What a rendered document needs, as hack/validate-component-config-closure.py reads it, and the loops
-- on it as findings of needs that are not met.
pub mod OfWaits
pub mod OfConfs
use krateo_openstack_bluepri.Prelude.{
  listed, is_text, String, ◌≡◌, refl, sym, ◌∙◌, subst, ◌↔◌, ◌⊎◌, inl, inr, Bool, true, false, not,
  ◌&&◌, Option, none, some, List, [], ◌∷◌, if◌then◌else◌, ◌+++◌, is_empty, strip, contains, lookup,
  In, Value, null, str, or_else, Result, return, ◌>>=◌, get_default,
}
use krateo_openstack_bluepri.ConfigClosure.Lines.{
  provided_by, needs_no_server, backends, splitlines, notifications_live,
}
use krateo_openstack_bluepri.ConfigClosure.Report.{Finding, Tally, report, each}
use krateo_openstack_bluepri.ConfigClosure.Report.Accounts.{
  Accounts, silent, in_turn, same_findings, each-Accounts, on_value, on_test, reports_unless,
}
use krateo_openstack_bluepri.ConfigClosure.Waits.{
  Served, items_of, service_of, owners_of, meets, pod_spec_at, spec_at, name_of,
}
use krateo_openstack_bluepri.ConfigClosure.Backends.{oslo_confs, is_inert, token_of}

pub data Need : Type 0 where
  service : String → Need
  job_done : String → Need
  backend : String → Need

-- How a need that is not met is named in a finding
abbrev pub reference : Need → String
reference (service svc) = if is_empty svc then "service:<empty>" else "service:" +++ svc
reference (job_done job) = "job:" +++ job
reference (backend token) = "backend:" +++ token

-- A Service wants an owner in the closure, a Job one of the same chart, a backend its provider.
abbrev pub is_met : Served → (own jobs : List String) → Need → Bool
is_met served own jobs (service svc) = not (is_empty svc) && meets (owners_of served svc) own
is_met served own jobs (job_done job) = contains jobs job
is_met served own jobs (backend token) = elim (lookup token provided_by) [
  | none ↦ false
  | some provider ↦ contains own provider
]

-- The Services and the Jobs that the value of an environment variable lists
abbrev pub ListsService : Value → Need → Type 0
ListsService (str value) need =
    (is_empty (strip value) ≡ false)
    × ((item : String) × In item (items_of value) × (need ≡ service (service_of item)))
ListsService _ need = ⊥

abbrev pub ListsJob : Value → Need → Type 0
ListsJob (str value) need =
    (job : String) × In job (items_of value) × ((is_empty job ≡ false) × (need ≡ job_done job))
ListsJob _ need = ⊥

abbrev pub Lists : Value → Value → Need → Type 0
Lists var value need =
    ((is_text var "DEPENDENCY_SERVICE" ≡ true) × ListsService value need)
    ⊎ ((is_text var "DEPENDENCY_SERVICE" ≡ false)
        × ((is_text var "DEPENDENCY_JOBS" ≡ true) × ListsJob value need))

abbrev pub EnvWaits : Value → Need → Type 0
EnvWaits env need =
    (value : Value) × (get_default env "value" null ≡ return value)
    × ((var : Value) × (get_default env "name" null ≡ return var)
        × Lists var (or_else value (str "")) need)

abbrev pub ContainerWaits : Value → Need → Type 0
ContainerWaits container need =
    (envs : List Value) × (listed container "env" ≡ return envs)
    × ((env : Value) × In env envs × EnvWaits env need)

abbrev pub SpecWaits : Value → Need → Type 0
SpecWaits spec need =
    (containers : List Value) × (listed spec "initContainers" ≡ return containers)
    × ((container : Value) × In container containers × ContainerWaits container need)

-- The specification of a document's pods, and the document's name
abbrev pub PathWaits : Option (List String) → Value → Need → Type 0
PathWaits none doc need = ⊥
PathWaits (some path) doc need =
    (spec : Value) × (spec_at path doc ≡ return spec)
    × ((name : Value) × (name_of doc ≡ return name) × SpecWaits spec need)

-- An init container of the document's pods waits for it.
abbrev pub Waits : Value → Need → Type 0
Waits doc need =
    (kind : Value) × (get_default doc "kind" null ≡ return kind)
    × ((path : Option (List String)) × (pod_spec_at kind ≡ return path) × PathWaits path doc need)

-- A line selects it, where a transport is live or not.
abbrev pub TokenSelects : Option String → Need → Type 0
TokenSelects none need = ⊥
TokenSelects (some token) need =
    (contains backends token ≡ true)
    × ((contains needs_no_server token ≡ false) × (need ≡ backend token))

abbrev pub LineSelects : Bool → String → Need → Type 0
LineSelects live line need = (is_inert live line ≡ false) × TokenSelects (token_of line) need

abbrev pub ConfSelects : Value → String × String → Need → Type 0
ConfSelects doc conf need =
    (name : Value) × (name_of doc ≡ return name)
    × ((line : String) × In line (splitlines conf.1)
        × LineSelects (notifications_live conf.1) line need)

-- A configuration file that the document carries selects it.
abbrev pub Selects : (decode : String → Option String) → Value → Need → Type 0
Selects decode doc need =
    (confs : List (String × String)) × (oslo_confs decode doc ≡ return confs)
    × ((conf : String × String) × In conf confs × ConfSelects doc conf need)

module _ (waived : List Finding) (name : String) (met : Need → Bool) where
  abbrev pub Unmet : (Need → Type 0) → Finding → Type 0
  Unmet W f = (need : Need) × W need × (f ≡ (name, reference need)) × (met need ≡ false)

  -- A step reports the needs that are not met, of those that W holds of.
  abbrev pub Checks : (Tally → Result Tally) → (Need → Type 0) → Type 0
  Checks step W = Accounts waived step (Unmet W)

  pub same_needs :
      {step : Tally → Result Tally} {W V : Need → Type 0}
      → ((need : Need) → W need ↔ V need)
      → Checks step W
      → Checks step V
  same_needs e good =
      same_findings waived
        (λ f. ((λ k. (k.0, (e k.0).0 k.1, k.2, k.3)), (λ k. (k.0, (e k.0).1 k.1, k.2, k.3)))) good

  pub nothing_checks : Checks (λ t. return t) (λ need. ⊥)
  nothing_checks = same_findings waived (λ f. ((λ k. absurd k), (λ k. absurd k.1))) (silent waived)

  pub each-Checks :
      {A : Type 0} {body : A → Tally → Result Tally} {W : A → Need → Type 0}
      → ((x : A) → Checks (body x) (W x))
      → (xs : List A) → Checks (each body xs) (λ need. (x : A) × In x xs × W x need)
  each-Checks good xs =
      same_findings waived
        (λ f. (
          (λ k. let (x, m, (need, w, e, b)) = k in (need, (x, m, w), e, b)),
          (λ k. let (need, (x, m, w), e, b) = k in (x, m, (need, w, e, b))),
        ))
        (each-Accounts waived good xs)

  pub value-Checks :
      {A : Type 0} {m : Result A} {step : A → Tally → Result Tally} {W : A → Need → Type 0}
      → ((a : A) → Checks (step a) (W a))
      → Checks (λ t. m >>= λ a. step a t) (λ need. (a : A) × (m ≡ return a) × W a need)
  value-Checks good =
      same_findings waived
        (λ f. (
          (λ k. let (a, at, (need, w, e, b)) = k in (need, (a, at, w), e, b)),
          (λ k. let (need, (a, at, w), e, b) = k in (a, at, (need, w, e, b))),
        ))
        (on_value waived good)

  pub test-Checks :
      (b : Bool) {yes_step no_step : Tally → Result Tally} {W V : Need → Type 0}
      → Checks yes_step W
      → Checks no_step V
      → Checks
          (λ t. elim b [ true ↦ yes_step t | false ↦ no_step t ])
          (λ need. ((b ≡ true) × W need) ⊎ ((b ≡ false) × V need))
  test-Checks b good bad =
      same_findings waived
        (λ f. (
          (λ k. elim k [
            | inl (at, (need, w, e, u)) ↦ (need, inl (at, w), e, u)
            | inr (at, (need, w, e, u)) ↦ (need, inr (at, w), e, u)
          ]),
          (λ k.
              let (need, c, e, u) = k in
              elim c [
                | inl (at, w) ↦ inl (at, (need, w, e, u))
                | inr (at, w) ↦ inr (at, (need, w, e, u))
              ]),
        ))
        (on_test waived b good bad)

  -- A need is reported where it is not met.
  unfoldable pub judged : Need → Tally → Result Tally
  judged need t =
      return (elim (met need) [ true ↦ t | false ↦ report waived (name, reference need) t ])

  pub judged-Checks : (need : Need) → Checks (judged need) (λ n. n ≡ need)
  unfolding judged
  judged-Checks need =
      same_findings waived
        (λ f. (
          (λ k. (need, refl, k.0, k.1)),
          (λ k.
              let (n, e, at, b) = k in
              (
                subst (λ (m : Need). f ≡ (name, reference m)) e at,
                subst (λ (m : Need). met m ≡ false) e b,
              )),
        ))
        (reports_unless waived (met need) (name, reference need))

  -- A step that does the same reports the same.
  pub same_step :
      {step other : Tally → Result Tally} {W : Need → Type 0}
      → ((t : Tally) → step t ≡ other t)
      → Checks other W
      → Checks step W
  same_step e good t u h = good t u (sym (e t) ∙ h)
