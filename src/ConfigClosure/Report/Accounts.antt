-- ===== src/ConfigClosure/Report/Accounts.antt =====
-- What the loops of hack/validate-component-config-closure.py have recorded at their end, as problems
-- or as waivers that were used: what they had recorded before, and the findings of their steps.
use krateo_openstack_bluepri.Prelude.{
  ◌≡◌, refl, sym, ◌↔◌, ◌⊎◌, inl, inr, Bool, true, false, false_true, Bool-cases, List, [], ◌∷◌, In,
  In-append_left, In-append_right, In-append_cases, subst, Result, return, raise, Exception,
  return_inj, arith, ◌>>=◌, >>=-inv,
}
use krateo_openstack_bluepri.ConfigClosure.Report.{Finding, has_finding, Tally, report, each}

abbrev pub Records : Tally → Finding → Type 0
Records t f = In f t.problems ⊎ In f t.used_waivers

-- Only waivers are used.
abbrev pub UsesWaivers : List Finding → Tally → Type 0
UsesWaivers waived t = (f : Finding) → In f t.used_waivers → has_finding waived f ≡ true

module _ (waived : List Finding) where
  -- A step that returns records what F holds of, and nothing else.
  abbrev pub Accounts : (Tally → Result Tally) → (Finding → Type 0) → Type 0
  Accounts step F =
      (t u : Tally)
      → step t ≡ return u
      → ((f : Finding) → Records u f ↔ (Records t f ⊎ F f))
        × (UsesWaivers waived t → UsesWaivers waived u)

  pub silent : Accounts (λ t. return t) (λ f. ⊥)
  silent t u h =
      let same : u ≡ t = sym (return_inj h) in
      rw (same) ((λ f. ((λ r. inl r), (λ r. elim r [ inl o ↦ o | inr n ↦ absurd n ]))), λ w. w)

  pub raised : (e : Exception) (F : Finding → Type 0) → Accounts (λ t. raise e) F
  raised e F t u h = cc

  report-Records :
      (g : Finding) (t : Tally) (f : Finding)
      → Records (report waived g t) f ↔ (Records t f ⊎ (f ≡ g))
  unfolding report
  report-Records g t f = elim (Bool-cases (has_finding waived g)) [
    | inl known ↦ rw (known, report) (ground arith, ground arith)
    | inr new ↦
        rw (new, report)
          (
            (λ r. elim r [
              | inl p ↦ elim (In-append_cases f t.problems (g ∷ []) p) [
                | inl old ↦ inl (inl old)
                | inr last ↦ ground arith
              ]
              | inr w ↦ inl (inr w)
            ]),
            (λ r. elim r [
              | inl (inl old) ↦ inl (In-append_left f t.problems (g ∷ []) old)
              | inl (inr w) ↦ inr w
              | inr e ↦ inl (In-append_right f t.problems (g ∷ []) (inl e))
            ]),
          )
  ]

  report-waivers :
      (g : Finding) (t : Tally) → UsesWaivers waived t → UsesWaivers waived (report waived g t)
  unfolding report
  report-waivers g t w = elim (Bool-cases (has_finding waived g)) [
    | inl known ↦ rw (known, report) λ f m. elim m [ inl e ↦ rw (e) known | inr old ↦ w f old ]
    | inr new ↦ rw (new, report) w
  ]

  -- A finding is reported exactly where a condition does not hold.
  pub reports_unless :
      (b : Bool) (g : Finding)
      → Accounts
          (λ t. return (elim b [ true ↦ t | false ↦ report waived g t ]))
          (λ f. (f ≡ g) × (b ≡ false))
  reports_unless true g t u h =
      rw (sym (return_inj h))
        ((λ f. ((λ r. inl r), (λ r. elim r [ inl o ↦ o | inr n ↦ false_true (sym n.1) ]))), λ w. w)
  reports_unless false g t u h = rw (sym (return_inj h)) (
    (λ f. (
      (λ r. elim ((report-Records g t f).0 r) [ inl o ↦ inl o | inr e ↦ inr (e, refl) ]),
      (λ r. (report-Records g t f).1 (elim r [ inl o ↦ inl o | inr n ↦ inr n.0 ])),
    )),
    report-waivers g t,
  )

  -- One step after another
  pub in_turn :
      {step next : Tally → Result Tally} {F G : Finding → Type 0}
      → Accounts step F
      → Accounts next G
      → Accounts (λ t. step t >>= next) (λ f. F f ⊎ G f)
  in_turn {step = step} {next = next} first second t u h =
      let (v, one, two) = >>=-inv (step t) next u h in
      let (r, w) = first t v one in
      let (s, x) = second v u two in
      (
        (λ f. (
          (λ k. elim ((s f).0 k) [
            | inl l ↦ elim ((r f).0 l) [ inl o ↦ inl o | inr n ↦ inr (inl n) ]
            | inr n ↦ inr (inr n)
          ]),
          (λ k. (s f).1 (elim k [
            | inl o ↦ inl ((r f).1 (inl o))
            | inr (inl n) ↦ inl ((r f).1 (inr n))
            | inr (inr n) ↦ inr n
          ])),
        )),
        (λ y. x (w y)),
      )

  pub same_findings :
      {step : Tally → Result Tally} {F G : Finding → Type 0}
      → ((f : Finding) → F f ↔ G f)
      → Accounts step F
      → Accounts step G
  same_findings e good t u h =
      let (r, w) = good t u h in
      (
        (λ f. (
          (λ k. elim ((r f).0 k) [ inl o ↦ inl o | inr n ↦ inr ((e f).0 n) ]),
          (λ k. (r f).1 (elim k [ inl o ↦ inl o | inr n ↦ inr ((e f).1 n) ])),
        )),
        w,
      )

  pub each-Accounts :
      {A : Type 0} {body : A → Tally → Result Tally} {F : A → Finding → Type 0}
      → ((x : A) → Accounts (body x) (F x))
      → (xs : List A) → Accounts (each body xs) (λ f. (x : A) × In x xs × F x f)
  unfolding each
  each-Accounts good [] = same_findings (λ f. ((λ n. absurd n), (λ n. absurd n.1))) silent
  each-Accounts {A = A} {F = F} good (x ∷ xs) =
      same_findings
        (λ f. (
          (λ n. elim n [ inl now ↦ (x, inl refl, now) | inr (y, m, later) ↦ (y, inr m, later) ]),
          (λ n.
              let (y, at, k) = n in
              elim at [ inl e ↦ inl (subst (λ (z : A). F z f) e k) | inr m ↦ inr (y, m, k) ]),
        ))
        (in_turn (good x) (each-Accounts good xs))

  -- A step on a value that is read first
  pub on_value :
      {A : Type 0} {m : Result A} {step : A → Tally → Result Tally} {F : A → Finding → Type 0}
      → ((a : A) → Accounts (step a) (F a))
      → Accounts (λ t. m >>= λ a. step a t) (λ f. (a : A) × (m ≡ return a) × F a f)
  on_value {A = A} {m = return a} {F = F} good =
      same_findings
        (λ f. ((λ k. (a, refl, k)), (λ n. subst (λ (z : A). F z f) (sym (return_inj n.1)) n.2)))
        (good a)
  on_value {m = raise e} good = raised e _

  -- A step that a test chooses
  pub on_test :
      (b : Bool) {yes_step no_step : Tally → Result Tally} {F G : Finding → Type 0}
      → Accounts yes_step F
      → Accounts no_step G
      → Accounts
          (λ t. elim b [ true ↦ yes_step t | false ↦ no_step t ])
          (λ f. ((b ≡ true) × F f) ⊎ ((b ≡ false) × G f))
  on_test true good bad =
      same_findings
        (λ f. ((λ k. inl (refl, k)), (λ n. elim n [ inl k ↦ k.1 | inr k ↦ false_true (sym k.0) ])))
        good
  on_test false good bad =
      same_findings
        (λ f. ((λ k. inr (refl, k)), (λ n. elim n [ inl k ↦ false_true k.0 | inr k ↦ k.1 ]))) bad
