-- ===== src/ConfigClosure/Needs/OfWaits.antt =====
-- The loop on init containers reports the waits that are not met.
use krateo_openstack_bluepri.Prelude.{
  listed, is_text, String, ◌≡◌, refl, sym, ◌∙◌, inl, inr, Bool, true, false, Option, none, some,
  List, [], ◌∷◌, is_empty, strip, contains, Value, null, str, num, real, bool, arr, obj, or_else,
  return, attribute_error, get_default, Bool-cases,
}
use krateo_openstack_bluepri.ConfigClosure.Report.{Finding, Tally, one_wait}
use krateo_openstack_bluepri.ConfigClosure.Report.Accounts.{raised}
use krateo_openstack_bluepri.ConfigClosure.Waits.{
  Served, items_of, service_of, owners_of, meets, pod_spec_at, spec_at, name_of, check_service,
  check_job, check_services, check_jobs, by_name, check_env, check_container, check_spec,
  check_waits, judge_service,
}
use krateo_openstack_bluepri.ConfigClosure.Needs.{
  judged, judged-Checks, same_step, Need, service, job_done, reference, is_met, ListsService,
  ListsJob, Lists, EnvWaits, ContainerWaits, PathWaits, Waits, Checks, same_needs, nothing_checks,
  each-Checks, value-Checks, test-Checks,
}

module _ (served : Served) (waived : List Finding) (name : String) (own jobs : List String) where
  met : Need → Bool
  met = is_met served own jobs

  -- A wait is counted and judged.
  judge_service-judged :
      (svc : String) (owners : List String) (t : Tally)
      → is_empty svc ≡ false
      → owners_of served svc ≡ owners
      → return (judge_service served waived name own jobs svc owners t)
        ≡ judged waived name met (service svc) t
  unfolding judge_service judged met
  judge_service-judged svc [] t full at = rw (judged, met, at, full, reference, full) refl
  judge_service-judged svc (owner ∷ owners) t full at =
      elim (Bool-cases (meets (owner ∷ owners) own)) [
        | inl inside ↦ rw (judged, met, at, full, inside) refl
        | inr outside ↦ rw (judged, met, at, full, outside, reference, full) refl
      ]

  check_service-judged :
      (item : String) (t : Tally)
      → check_service served waived name own jobs item t
        ≡ judged waived name met (service (service_of item)) (one_wait t)
  unfolding check_service judged met
  check_service-judged item t = elim (Bool-cases (is_empty (service_of item))) [
    | inl empty ↦ rw (empty, check_service, judged, met, empty) refl
    | inr full ↦
        let opened : check_service served waived name own jobs item t
            ≡ return (
                judge_service served waived name own jobs (service_of item)
                  (owners_of served (service_of item)) (one_wait t)) =
          rw (check_service, full) refl in
        opened
        ∙ judge_service-judged (service_of item) (owners_of served (service_of item)) (one_wait t)
            full refl
  ]

  check_service-Checks :
      (item : String)
      → Checks waived name met
          (check_service served waived name own jobs item)
          (λ n. n ≡ service (service_of item))
  check_service-Checks item t u h =
      judged-Checks waived name met (service (service_of item)) (one_wait t) u
        (sym (check_service-judged item t) ∙ h)

  check_job-judged :
      (job : String) (t : Tally)
      → check_job served waived name own jobs job t
        ≡ elim (is_empty job) [ true ↦ return t | false ↦ judged waived name met (job_done job) t ]
  unfolding check_job judged met
  check_job-judged job t = elim (Bool-cases (is_empty job)) [
    | inl empty ↦ rw (check_job, empty) refl
    | inr full ↦ elim (Bool-cases (contains jobs job)) [
      | inl there ↦ rw (check_job, full, judged, met, there) refl
      | inr missing ↦ rw (check_job, full, judged, met, missing) refl
    ]
  ]

  check_job-Checks :
      (job : String)
      → Checks waived name met
          (check_job served waived name own jobs job)
          (λ n. (is_empty job ≡ false) × (n ≡ job_done job))
  check_job-Checks job = same_step waived name met (check_job-judged job) (
      same_needs waived name met
        (λ n. ((λ k. elim k [ inl e ↦ absurd e.1 | inr l ↦ l ]), (λ l. inr l)))
        (test-Checks waived name met (is_empty job) (nothing_checks waived name met)
          (judged-Checks waived name met (job_done job))))

  check_services-Checks :
      (value : Value)
      → Checks waived name met
          (check_services served waived name own jobs value)
          (ListsService value)
  unfolding check_services
  check_services-Checks (str value) =
      same_needs waived name met
        (λ n. ((λ k. elim k [ inl e ↦ absurd e.1 | inr l ↦ l ]), (λ l. inr l)))
        (test-Checks waived name met (is_empty (strip value)) (nothing_checks waived name met)
          (each-Checks waived name met check_service-Checks (items_of value)))
  check_services-Checks (num n) = raised waived attribute_error _
  check_services-Checks (real r) = raised waived attribute_error _
  check_services-Checks (bool b) = raised waived attribute_error _
  check_services-Checks null = raised waived attribute_error _
  check_services-Checks (arr vs) = raised waived attribute_error _
  check_services-Checks (obj fs) = raised waived attribute_error _

  check_jobs-Checks :
      (value : Value)
      → Checks waived name met (check_jobs served waived name own jobs value) (ListsJob value)
  unfolding check_jobs
  check_jobs-Checks (str value) = each-Checks waived name met check_job-Checks (items_of value)
  check_jobs-Checks (num n) = raised waived attribute_error _
  check_jobs-Checks (real r) = raised waived attribute_error _
  check_jobs-Checks (bool b) = raised waived attribute_error _
  check_jobs-Checks null = raised waived attribute_error _
  check_jobs-Checks (arr vs) = raised waived attribute_error _
  check_jobs-Checks (obj fs) = raised waived attribute_error _

  by_name-Checks :
      (var value : Value)
      → Checks waived name met (by_name served waived name own jobs var value) (Lists var value)
  unfolding by_name
  by_name-Checks var value =
      same_needs waived name met
        (λ n. (
          (λ k. elim k [
            | inl s ↦ inl s
            | inr (other, (inl j)) ↦ inr (other, j)
            | inr (other, inr nothing) ↦ absurd nothing.1
          ]),
          (λ l. elim l [ inl s ↦ inl s | inr (other, j) ↦ inr (other, inl j) ]),
        ))
        (test-Checks waived name met (is_text var "DEPENDENCY_SERVICE")
          (check_services-Checks value)
          (test-Checks waived name met (is_text var "DEPENDENCY_JOBS") (check_jobs-Checks value)
            (nothing_checks waived name met)))

  check_env-Checks :
      (env : Value)
      → Checks waived name met (check_env served waived name own jobs env) (EnvWaits env)
  unfolding check_env
  check_env-Checks env = value-Checks waived name met {m = get_default env "value" null} (λ value.
      value-Checks waived name met {m = get_default env "name" null}
        (λ var. by_name-Checks var (or_else value (str ""))))

  check_container-Checks :
      (container : Value)
      → Checks waived name met
          (check_container served waived name own jobs container)
          (ContainerWaits container)
  unfolding check_container
  check_container-Checks container =
      value-Checks waived name met {m = listed container "env"}
        (each-Checks waived name met check_env-Checks)

  check_spec-Checks :
      (path : Option (List String)) (doc : Value)
      → Checks waived name met
          (check_spec served waived name own jobs path doc)
          (PathWaits path doc)
  unfolding check_spec
  check_spec-Checks none doc = nothing_checks waived name met
  check_spec-Checks (some path) doc = value-Checks waived name met {m = spec_at path doc} (λ spec.
      value-Checks waived name met {m = name_of doc} (λ n.
        value-Checks waived name met {m = listed spec "initContainers"}
          (each-Checks waived name met check_container-Checks)))

  pub check_waits-Checks :
      (doc : Value)
      → Checks waived name
          (is_met served own jobs)
          (check_waits served waived name own jobs doc)
          (Waits doc)
  unfolding check_waits met
  check_waits-Checks doc = value-Checks waived name met {m = get_default doc "kind" null} (λ kind.
      value-Checks waived name met {m = pod_spec_at kind} (λ path. check_spec-Checks path doc))
