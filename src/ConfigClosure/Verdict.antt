-- ===== src/ConfigClosure/Verdict.antt =====
-- What hack/validate-component-config-closure.py has measured when it exits with status 0.
use krateo_openstack_bluepri.Prelude.{
  append_nil, raise_return, String, ◌≡◌, refl, sym, subst, ap, ◌∙◌, ◌↔◌, inl, inr, true, false_true,
  Bool-cases, ◌&&◌, eqb, names_of, sorted, List, [], ◌∷◌, In, Value, Result, return, raise, ◌>>=◌,
  >>=-inv, return_inj, system_exit, key_error, type_error, value_error, attribute_error,
  zero_division, http_error, timed_out, other_error, arith, eq_iff,
}
use krateo_openstack_bluepri.ConfigClosure.Reach.{Comps}
use krateo_openstack_bluepri.ConfigClosure.Report.{
  Finding, same_finding, has_finding, Tally, nothing_checked, each,
}
use krateo_openstack_bluepri.ConfigClosure.Waits.{Served}
use krateo_openstack_bluepri.ConfigClosure.Gaps.{IsGap, recorded}
use krateo_openstack_bluepri.ConfigClosure.{
  Repository, Renders, read_umbrella, render_all, services, read_gaps, waivers, concluded,
  some_renders, some_served, check_component, stale, judge, run, status, main,
}

same_finding-eq : (g f : Finding) → (same_finding g f ≡ true) ↔ (f ≡ g)
same_finding-eq (c, r) (d, q) = (
  (λ h.
      let left : d ≡ c = ground (arith, eq_iff c d) in
      let right : q ≡ r = ground (arith, eq_iff r q) in
      ap (λ (x : String). (x, q)) left ∙ ap (λ (y : String). (c, y)) right),
  (λ e.
      let left : d ≡ c = ap (λ (p : Finding). p.0) e in
      let right : q ≡ r = ap (λ (p : Finding). p.1) e in ground (arith, eq_iff c d, eq_iff r q)),
)

has_finding-In : (fs : List Finding) (f : Finding) → (has_finding fs f ≡ true) ↔ In f fs
has_finding-In [] f = (false_true, (λ m. absurd m))
has_finding-In (g ∷ fs) f = ground (
  arith,
  (same_finding-eq g f).0,
  (same_finding-eq g f).1,
  (has_finding-In fs f).0,
  (has_finding-In fs f).1,
)

cons_nil : {A B : Type 0} {x : A} {xs : List A} → (x ∷ xs) ≡ [] → B
cons_nil h = cc

no_stale :
    (waived used : List Finding)
    → stale waived used ≡ []
    → (f : Finding) → In f waived
    → has_finding used f ≡ true
no_stale [] used h f m = absurd m
no_stale (g ∷ waived) used h f m = elim (Bool-cases (has_finding used g)) [
  | inl known ↦ elim m [
    | inl e ↦ subst (λ (x : Finding). has_finding used x ≡ true) (sym e) known
    | inr later ↦ no_stale waived used (rw (known) at h) f later
  ]
  | inr new ↦ cons_nil (rw (new) at h)
]

status-return : (r : Result (List Finding)) → status r ≡ 0 → r ≡ return []
status-return (return []) h = refl
status-return (return (f ∷ fs)) h = ground arith
status-return (raise (system_exit msg)) h = ground arith
status-return (raise (key_error k)) h = ground arith
status-return (raise type_error) h = ground arith
status-return (raise value_error) h = ground arith
status-return (raise attribute_error) h = ground arith
status-return (raise zero_division) h = ground arith
status-return (raise (http_error c)) h = ground arith
status-return (raise timed_out) h = ground arith
status-return (raise (other_error m)) h = ground arith

judge-nil :
    (waived : List Finding) (t : Tally)
    → judge waived t ≡ return []
    → (t.problems ≡ []) × (stale waived t.used_waivers ≡ [])
judge-nil waived t h = elim (Bool-cases (eqb t.checked_waits 0 && eqb t.checked_backends 0)) [
  | inl nothing ↦ raise_return (rw (nothing) at h)
  | inr some_checked ↦
      append_nil t.problems (stale waived t.used_waivers) (return_inj (rw (some_checked) at h))
]

some_renders-same :
    (found renders : Renders) → some_renders found ≡ return renders → found ≡ renders
some_renders-same [] renders h = raise_return h
some_renders-same (r ∷ found) renders h = return_inj h

some_served-same : (found served : Served) → some_served found ≡ return served → found ≡ served
some_served-same [] served h = raise_return h
some_served-same (s ∷ found) served h = return_inj h

settled :
    (repo : Repository) (comps : Comps) (served : Served) (waived : List Finding)
    (renders : Renders) (t : Tally)
    → each (check_component repo comps served waived) renders nothing_checked ≡ return t
    → judge waived t ≡ return []
    → (f : Finding)
    → In f waived ↔ ((r : String × List Value) × In r renders × IsGap repo comps served r f)
settled repo comps served waived renders t h j f =
    let (all, kept) = recorded repo comps served waived renders t h in
    let (quiet, fresh) = judge-nil waived t j in
    (
      (λ m.
          (all f).0
            (inr ((has_finding-In t.used_waivers f).0 (no_stale waived t.used_waivers fresh f m)))),
      (λ gap. elim ((all f).1 gap) [
        | inl problem ↦ absurd (subst (λ (l : List Finding). In f l) quiet problem)
        | inr used ↦ (has_finding-In waived f).0 (kept f used)
      ]),
    )

concluded-nil :
    (gs : List Value) (found : List Finding) → concluded gs found ≡ return [] → found ≡ []
unfolding concluded
concluded-nil gs [] h = refl
concluded-nil gs (f ∷ fs) h = return_inj h

-- When the script exits with status 0, it has read the umbrella, rendered every component but the
-- umbrella and read the declared gaps, and what these waive is exactly what the rendered documents
-- need without it being met: a Service that an init container waits for and no component in the
-- declared closure renders, a Job that it waits for and the chart does not render, and a backend with a
-- server that a configuration file selects and no component in the closure provides.
pub main-gaps :
    (repo : Repository)
    → main repo ≡ 0
    → (comps : Comps) × (renders : Renders) × (served : Served) × (gs : List Value) × (waived : List
        Finding)
      × (read_umbrella repo ≡ return comps)
      × (render_all repo (sorted (names_of comps)) ≡ return renders)
      × (services renders ≡ return served)
      × (read_gaps repo.gaps ≡ return gs)
      × (waivers gs ≡ return waived)
      × ((f : Finding)
          → In f waived ↔ ((r : String × List Value) × In r renders × IsGap repo comps served r f))
unfolding main run
main-gaps repo h =
    let ran : run repo ≡ return [] = status-return (run repo) h in
    let (comps, c, h1) = >>=-inv (read_umbrella repo) _ [] ran in
    let (found, r, h2) = >>=-inv (render_all repo (sorted (names_of comps))) _ [] h1 in
    let (renders, rs, h3) = >>=-inv (some_renders found) _ [] h2 in
    let (served, sv, h4) = >>=-inv (services renders >>= some_served) _ [] h3 in
    let (svcs, sr, ss) = >>=-inv (services renders) some_served served sv in
    let (gs, g, h5) = >>=-inv (read_gaps repo.gaps) _ [] h4 in
    let (waived, w, h6) = >>=-inv (waivers gs) _ [] h5 in
    let (t, e, h7) =
      >>=-inv (each (check_component repo comps served waived) renders nothing_checked) _ [] h6 in
    let (problems, j, done) = >>=-inv (judge waived t) (concluded gs) [] h7 in
    (
      comps,
      renders,
      served,
      gs,
      waived,
      c,
      r ∙ ap return (some_renders-same found renders rs),
      sr ∙ ap return (some_served-same svcs served ss),
      g,
      w,
      settled repo comps served waived renders t e (j ∙ ap return (concluded-nil gs problems done)),
    )
