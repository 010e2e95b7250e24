-- ===== src/ConfigClosure/Needs/OfConfs.antt =====
-- The loop on configuration files reports the backends that are not met.
use krateo_openstack_bluepri.Prelude.{
  String, ◌≡◌, refl, sym, subst, inl, inr, Bool, true, false, false_true, Bool-cases, Option, none,
  some, Option-cases, List, [], ◌∷◌, ◌+++◌, contains, contains→In, In, lookup, Value, Result,
  return, key_error,
}
use krateo_openstack_bluepri.ConfigClosure.Lines.{
  provided_by, no_component_provides, needs_no_server, backends, splitlines, notifications_live,
}
use krateo_openstack_bluepri.ConfigClosure.Report.{Finding, Tally, one_backend, report}
use krateo_openstack_bluepri.ConfigClosure.Report.Accounts.{raised}
use krateo_openstack_bluepri.ConfigClosure.Waits.{Served, name_of}
use krateo_openstack_bluepri.ConfigClosure.Backends.{
  Conf, oslo_confs, token_of, is_inert, judge_provider, judge_backend, judge_token, check_line,
  check_conf, check_confs,
}
use krateo_openstack_bluepri.ConfigClosure.Needs.{
  Need, backend, is_met, TokenSelects, LineSelects, ConfSelects, Selects, Checks, same_needs,
  nothing_checks, each-Checks, value-Checks, test-Checks, judged, judged-Checks, same_step,
}

abbrev unprovided : List String → Bool
unprovided [] = true
unprovided (token ∷ tokens) = elim (lookup token provided_by) [
  | none ↦ unprovided tokens
  | some provider ↦ false
]

unprovided-In :
    (tokens : List String) (token : String)
    → unprovided tokens ≡ true
    → In token tokens
    → lookup token provided_by ≡ none
unprovided-In [] token h m = absurd m
unprovided-In (t ∷ tokens) token h m = elim (Option-cases (lookup t provided_by)) [
  | inl missing ↦ elim m [
    | inl e ↦ subst (λ (s : String). lookup s provided_by ≡ none) (sym e) missing
    | inr later ↦ unprovided-In tokens token (rw (missing, unprovided) at h) later
  ]
  | inr (p, there) ↦ false_true (rw (there, unprovided) at h)
]

-- The tables do not overlap.
no_component_provides-lookup :
    (token : String) → contains no_component_provides token ≡ true → lookup token provided_by ≡ none
no_component_provides-lookup token h =
    unprovided-In no_component_provides token refl (contains→In no_component_provides token h)

module _ (served : Served) (waived : List Finding) (name : String) (own jobs : List String) where
  met : Need → Bool
  met = is_met served own jobs

  judge_provider-Checks :
      (token : String) (provider : Option String)
      → lookup token provided_by ≡ provider
      → Checks waived name met
          (judge_provider waived name own token provider)
          (λ n. n ≡ backend token)
  unfolding judge_provider judged met
  judge_provider-Checks token none at = raised waived (key_error token) _
  judge_provider-Checks token (some provider) at =
      same_step waived name met
        (λ t. elim (Bool-cases (contains own provider)) [
          | inl inside ↦ rw (judge_provider, judged, met, at, inside) refl
          | inr outside ↦ rw (judge_provider, judged, met, at, outside) refl
        ])
        (judged-Checks waived name met (backend token))

  -- A backend that wants a server
  served_backend : String → Tally → Result Tally
  served_backend token t = elim (contains no_component_provides token) [
    | true ↦ return (report waived (name, "backend:" +++ token) t)
    | false ↦ judge_provider waived name own token (lookup token provided_by) t
  ]

  served_backend-Checks :
      (token : String) → Checks waived name met (served_backend token) (λ n. n ≡ backend token)
  unfolding served_backend judged met
  served_backend-Checks token = elim (Bool-cases (contains no_component_provides token)) [
    | inl none_here ↦
        same_step waived name met
          (λ t.
            rw
              (served_backend, none_here, judged, met, no_component_provides-lookup token none_here)
              refl)
          (judged-Checks waived name met (backend token))
    | inr provided ↦
        same_step waived name met (λ t. rw (served_backend, provided) refl)
          (judge_provider-Checks token (lookup token provided_by) refl)
  ]

  judge_backend-Checks :
      (token : String)
      → Checks waived name met
          (judge_backend waived name own token)
          (λ n. (contains needs_no_server token ≡ false) × (n ≡ backend token))
  unfolding judge_backend served_backend
  judge_backend-Checks token =
      same_needs waived name met
        (λ n. ((λ k. elim k [ inl e ↦ absurd e.1 | inr l ↦ l ]), (λ l. inr l)))
        (test-Checks waived name met (contains needs_no_server token)
          (nothing_checks waived name met) (served_backend-Checks token))

  judge_token-Checks :
      (token : Option String)
      → Checks waived name met (judge_token waived name own token) (TokenSelects token)
  unfolding judge_token
  judge_token-Checks none = nothing_checks waived name met
  judge_token-Checks (some token) =
      same_needs waived name met
        (λ n. ((λ k. elim k [ inl l ↦ l | inr e ↦ absurd e.1 ]), (λ l. inl l)))
        (test-Checks waived name met (contains backends token)
          (λ t u h. judge_backend-Checks token (one_backend t) u h)
          (nothing_checks waived name met))

  check_line-Checks :
      (live : Bool) (line : String)
      → Checks waived name met (check_line waived name own live line) (LineSelects live line)
  unfolding check_line
  check_line-Checks live line =
      same_needs waived name met
        (λ n. ((λ k. elim k [ inl e ↦ absurd e.1 | inr l ↦ l ]), (λ l. inr l)))
        (test-Checks waived name met (is_inert live line) (nothing_checks waived name met)
          (judge_token-Checks (token_of line)))

  check_conf-Checks :
      (doc : Value) (conf : Conf)
      → Checks waived name met (check_conf waived name own doc conf) (ConfSelects doc conf)
  unfolding check_conf
  check_conf-Checks doc (key, content) = value-Checks waived name met {m = name_of doc} (λ n.
      each-Checks waived name met (check_line-Checks (notifications_live content))
        (splitlines content))

  pub check_confs-Checks :
      (decode : String → Option String) (doc : Value)
      → Checks waived name
          (is_met served own jobs)
          (check_confs waived name own decode doc)
          (Selects decode doc)
  unfolding check_confs met
  check_confs-Checks decode doc =
      value-Checks waived name met {m = oslo_confs decode doc}
        (each-Checks waived name met (check_conf-Checks doc))
