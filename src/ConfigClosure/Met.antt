-- ===== src/ConfigClosure/Met.antt =====
-- When a need of a component is met, by the chains of declared dependencies.
use krateo_openstack_bluepri.Prelude.{
  raise_return, String, ◌≡◌, refl, sym, subst, ap, ◌∙◌, ◌↔◌, inl, inr, true, false, false_true,
  Bool-cases, Option, none, some, some_inj, none_some, List, [], ◌∷◌, contains, contains→In,
  In→contains, In, lookup, is_empty, ◌==◌, return, return_inj, arith, eq_iff,
}
use krateo_openstack_bluepri.ConfigClosure.Lines.{provided_by}
use krateo_openstack_bluepri.ConfigClosure.Reach.{Comps, closure}
use krateo_openstack_bluepri.ConfigClosure.Reach.Closed.{closure-Reaches}
use krateo_openstack_bluepri.ConfigClosure.Reach.Kept.{Reaches}
use krateo_openstack_bluepri.ConfigClosure.Waits.{Served, owners_of, meets}
use krateo_openstack_bluepri.ConfigClosure.Needs.{Need, service, job_done, backend, is_met}

module _ (comps : Comps) (served : Served) (name : String) (jobs : List String) where
  -- The Service has an owner, the Job is one of the chart's and the backend has a provider, where the
  -- component reaches the owner and the provider over declared dependencies.
  abbrev pub IsMet : Need → Type 0
  IsMet (service svc) =
      (is_empty svc ≡ false)
      × ((owner : String) × In (svc, owner) served × Reaches comps name owner)
  IsMet (job_done job) = In job jobs
  IsMet (backend token) =
      (provider : String) × (lookup token provided_by ≡ some provider) × Reaches comps name provider

owners_of-In :
    (served : Served) (svc owner : String)
    → In owner (owners_of served svc) ↔ In (svc, owner) served
unfolding owners_of
owners_of-In [] svc owner = ((λ m. m), (λ m. m))
owners_of-In ((n, o) ∷ served) svc owner =
    let rest : In owner (owners_of served svc) ↔ In (svc, owner) served =
      owners_of-In served svc owner in
    elim (Bool-cases (n == svc)) [
      | inl e ↦
          let same : n ≡ svc = ground (arith, eq_iff n svc) in
          rw (e) (
            (λ m. elim m [
              | inl o_same ↦
                  inl (
                    ap (λ (x : String). (x, owner)) (sym same) ∙ ap (λ (y : String). (n, y)) o_same)
              | inr k ↦ inr (rest.0 k)
            ]),
            (λ m. elim m [
              | inl at ↦ inl (ap (λ (p : String × String). p.1) at)
              | inr k ↦ inr (rest.1 k)
            ]),
          )
      | inr e ↦ rw (e) (
        (λ m. inr (rest.0 m)),
        (λ m. elim m [
          | inl at ↦
              let same : svc ≡ n = ap (λ (p : String × String). p.0) at in
              ground (arith, eq_iff n svc)
          | inr k ↦ rest.1 k
        ]),
      )
    ]

meets-some :
    (owners own : List String)
    → (meets owners own ≡ true) ↔ ((owner : String) × In owner owners × In owner own)
meets-some [] own = (false_true, (λ k. absurd k.1))
meets-some (o ∷ owners) own =
    let rest : (meets owners own ≡ true) ↔ ((owner : String) × In owner owners × In owner own) =
      meets-some owners own in
    (
      (λ h. elim (Bool-cases (contains own o)) [
        | inl here ↦ (o, inl refl, contains→In own o here)
        | inr not_here ↦ let (owner, m, k) = rest.0 (ground arith) in (owner, inr m, k)
      ]),
      (λ k.
          let (owner, m, i) = k in
          elim m [
            | inl e ↦
                let here : contains own o ≡ true =
                  In→contains own o (subst (λ (x : String). In x own) e i) in
                ground arith
            | inr later ↦
                let more : meets owners own ≡ true = rest.1 (owner, later, i) in ground arith
          ]),
    )

closure-own :
    (comps : Comps) (name : String) (own : List String)
    → closure comps name ≡ return own
    → (m : String) → In m own ↔ Reaches comps name m
closure-own comps name own h m = elim (closure-Reaches comps name) [
  | inl (members, at, all) ↦
      subst (λ (l : List String). In m l ↔ Reaches comps name m) (return_inj (sym at ∙ h)) (all m)
  | inr (e, n, at, r, s) ↦ raise_return (sym at ∙ h)
]

provider_in :
    (own : List String) (found : Option String)
    → (elim found [ none ↦ false | some provider ↦ contains own provider ] ≡ true)
      ↔ ((provider : String) × (found ≡ some provider) × In provider own)
provider_in own none = (false_true, (λ k. none_some k.1))
provider_in own (some p) = (
  (λ h. (p, refl, contains→In own p h)),
  (λ k.
      subst (λ (q : String). contains own q ≡ true) (sym (some_inj k.1)) (In→contains own k.0 k.2)),
)

-- The script's test says so.
pub is_met-IsMet :
    (comps : Comps) (served : Served) (name : String) (own jobs : List String) (need : Need)
    → closure comps name ≡ return own
    → (is_met served own jobs need ≡ true) ↔ IsMet comps served name jobs need
is_met-IsMet comps served name own jobs (service svc) h = (
  (λ k.
      let some_owner : meets (owners_of served svc) own ≡ true = ground arith in
      let (owner, m, i) = (meets-some (owners_of served svc) own).0 some_owner in
      (
        ground arith,
        (owner, (owners_of-In served svc owner).0 m, (closure-own comps name own h owner).0 i),
      )),
  (λ k.
      let (full, (owner, m, r)) = k in
      let some_owner : meets (owners_of served svc) own ≡ true =
        (meets-some (owners_of served svc) own).1
          (owner, (owners_of-In served svc owner).1 m, (closure-own comps name own h owner).1 r) in
      ground arith),
)
is_met-IsMet comps served name own jobs (job_done job) h =
    (contains→In jobs job, In→contains jobs job)
is_met-IsMet comps served name own jobs (backend token) h =
    let known : (is_met served own jobs (backend token) ≡ true)
        ↔ ((provider : String) × (lookup token provided_by ≡ some provider) × In provider own) =
      provider_in own (lookup token provided_by) in
    (
      (λ k. let (p, at, m) = known.0 k in (p, at, (closure-own comps name own h p).0 m)),
      (λ k. let (p, at, r) = k in known.1 (p, at, (closure-own comps name own h p).1 r)),
    )
