-- ===== src/ConfigClosure/Gaps.antt =====
-- What the loop of hack/validate-component-config-closure.py on the components records: the gaps.
use krateo_openstack_bluepri.Prelude.{
  String, ◌≡◌, refl, sym, subst, ◌∙◌, ◌↔◌, ◌⊎◌, inl, inr, Bool, true, false, false_true, List, [],
  ◌∷◌, In, Value, return, >>=-inv,
}
use krateo_openstack_bluepri.ConfigClosure.Reach.{Comps, closure}
use krateo_openstack_bluepri.ConfigClosure.Report.{Finding, Tally, nothing_checked, each}
use krateo_openstack_bluepri.ConfigClosure.Report.Accounts.{
  Accounts, Records, UsesWaivers, in_turn, each-Accounts, on_value,
}
use krateo_openstack_bluepri.ConfigClosure.Waits.{Served}
use krateo_openstack_bluepri.ConfigClosure.Needs.{
  Need, reference, is_met, Waits, Selects, Unmet, each-Checks,
}
use krateo_openstack_bluepri.ConfigClosure.Needs.OfWaits.{check_waits-Checks}
use krateo_openstack_bluepri.ConfigClosure.Needs.OfConfs.{check_confs-Checks}
use krateo_openstack_bluepri.ConfigClosure.Met.{IsMet, is_met-IsMet}
use krateo_openstack_bluepri.ConfigClosure.{Repository, Renders, named_docs, check_component}

not_true : (b : Bool) → (b ≡ true → ⊥) → b ≡ false
not_true true h = absurd (h refl)
not_true false h = refl

module _ (repo : Repository) (comps : Comps) (served : Served) where
  -- One of a component's documents needs it.
  abbrev pub NeededBy : List Value → Need → Type 0
  NeededBy docs need = (doc : Value) × In doc docs × (Waits doc need ⊎ Selects repo.decode doc need)

  -- A component's document has a need that is not met.
  abbrev pub IsGap : String × List Value → Finding → Type 0
  IsGap (name, docs) f =
      (jobs : List String) × (named_docs "Job" docs ≡ return jobs)
      × ((need : Need) × NeededBy docs need
          × (f ≡ (name, reference need))
          × ¬ IsMet comps served name jobs need)

  abbrev Reported : String × List Value → Finding → Type 0
  Reported (name, docs) f =
      (own : List String) × (closure comps name ≡ return own)
      × ((jobs : List String) × (named_docs "Job" docs ≡ return jobs)
          × (Unmet [] name (is_met served own jobs) (λ n. (doc : Value) × In doc docs × Waits doc n)
                f
              ⊎ Unmet [] name (is_met served own jobs)
                  (λ n. (doc : Value) × In doc docs × Selects repo.decode doc n) f))

  check_component-Accounts :
      (waived : List Finding) (r : String × List Value)
      → Accounts waived (check_component repo comps served waived r) (Reported r)
  unfolding check_component
  check_component-Accounts waived (name, docs) = on_value waived {m = closure comps name} (λ own.
      on_value waived {m = named_docs "Job" docs} (λ jobs.
        in_turn waived
          (each-Checks waived name (is_met served own jobs)
            (check_waits-Checks served waived name own jobs) docs)
          (each-Checks waived name (is_met served own jobs)
            (check_confs-Checks served waived name own jobs repo.decode) docs)))

  is_gap :
      (name : String) (own jobs : List String) (need : Need)
      → closure comps name ≡ return own
      → is_met served own jobs need ≡ false
      → ¬ IsMet comps served name jobs need
  is_gap name own jobs need at lacks does =
      false_true (sym lacks ∙ (is_met-IsMet comps served name own jobs need at).1 does)

  Reported-IsGap : (r : String × List Value) (f : Finding) → Reported r f → IsGap r f
  Reported-IsGap (name, docs) f (own, at, (jobs, job_at, u)) = elim u [
    | inl (need, (doc, m, w), e, lacks) ↦
        (jobs, job_at, (need, (doc, m, inl w), e, is_gap name own jobs need at lacks))
    | inr (need, (doc, m, w), e, lacks) ↦
        (jobs, job_at, (need, (doc, m, inr w), e, is_gap name own jobs need at lacks))
  ]

  IsGap-Reported :
      (r : String × List Value) (f : Finding) (own : List String)
      → closure comps r.0 ≡ return own
      → IsGap r f
      → Reported r f
  IsGap-Reported (name, docs) f own at (jobs, job_at, (need, (doc, m, w), e, lacks)) =
      let unmet : is_met served own jobs need ≡ false =
        not_true (is_met served own jobs need)
          (λ does. lacks ((is_met-IsMet comps served name own jobs need at).0 does)) in
      (
        own,
        at,
        (
          jobs,
          job_at,
          elim w [
            | inl wait ↦ inl (need, (doc, m, wait), e, unmet)
            | inr sel ↦ inr (need, (doc, m, sel), e, unmet)
          ],
        ),
      )

  -- A component that was checked has a closure.
  each-closure :
      (waived : List Finding) (renders : Renders) (t u : Tally)
      → each (check_component repo comps served waived) renders t ≡ return u
      → (r : String × List Value) → In r renders
      → (own : List String) × (closure comps r.0 ≡ return own)
  unfolding each check_component
  each-closure waived [] t u h r m = absurd m
  each-closure waived ((name, docs) ∷ renders) t u h r m =
      let (v, first, later) =
        >>=-inv (check_component repo comps served waived (name, docs) t)
          (each (check_component repo comps served waived) renders) u h in
      elim m [
        | inl e ↦
            let (own, at, rest) = >>=-inv (closure comps name) _ v first in
            (own, subst (λ (x : String × List Value). closure comps x.0 ≡ return own) (sym e) at)
        | inr after ↦ each-closure waived renders v u later r after
      ]

-- The loop on the components has recorded the gaps, and nothing else.
pub recorded :
    (repo : Repository) (comps : Comps) (served : Served) (waived : List Finding)
    (renders : Renders) (t : Tally)
    → each (check_component repo comps served waived) renders nothing_checked ≡ return t
    → ((f : Finding)
        → Records t f ↔ ((r : String × List Value) × In r renders × IsGap repo comps served r f))
      × UsesWaivers waived t
recorded repo comps served waived renders t h =
    let (all, kept) =
      each-Accounts waived (check_component-Accounts repo comps served waived) renders
        nothing_checked t h in
    (
      (λ f. (
        (λ k. elim ((all f).0 k) [
          | inl (inl nowhere) ↦ absurd nowhere
          | inl (inr nowhere) ↦ absurd nowhere
          | inr (r, m, found) ↦ (r, m, Reported-IsGap repo comps served r f found)
        ]),
        (λ k.
            let (r, m, gap) = k in
            let (own, at) = each-closure repo comps served waived renders nothing_checked t h r m in
            (all f).1 (inr (r, m, IsGap-Reported repo comps served r f own at gap))),
      )),
      kept (λ f m. absurd m),
    )
