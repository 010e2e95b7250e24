-- ===== src/Deadlock/Gate/Modes.antt =====
-- The creation gate that `read_gate` of hack/validate-readiness-deadlock.py names.
use krateo_openstack_bluepri.Prelude.{
  Bool, true, false, Bool-cases, ◌≡◌, ◌↔◌, refl, sym, ◌∙◌, false_true, subst, system_exit, inl, inr,
  Option, none, some, List, [], ◌∷◌, if◌then◌else◌, return, raise, return_inj, >>=-inv,
}
use krateo_openstack_bluepri.Deadlock.Gate.{
  Templates, Mode, readiness, one_body, calls_it, check_ready, check_exist, or_mode, mode_of,
  gate_mode, read_gate,
}
use krateo_openstack_bluepri.Deadlock.Gate.Means.{
  Resolves, HasGates, Means, Means-gate_mode, read_gate-HasGates, HasGates-calls,
}

one_body-return : (l : List (Bool × Bool)) (b : Bool × Bool) → one_body l ≡ return b → l ≡ b ∷ []
one_body-return [] b h = cc
one_body-return (x ∷ []) b h = cc
one_body-return (x ∷ y ∷ l) b h = cc

module _ (t : Templates) where
  ReadyIsChecked : Type 0
  ReadyIsChecked =
      calls_it t "osh.depsReady" ≡ true → (e : Bool) × Resolves t "osh.depsReady" (true, e)

  check_ready-checked : check_ready t ≡ return tt → ReadyIsChecked
  unfolding check_ready ReadyIsChecked
  check_ready-checked h c =
      let (b, one, later) = >>=-inv (one_body (t.bodies "osh.depsReady")) _ tt (rw c at h) in
      from b (one_body-return (t.bodies "osh.depsReady") b one) later
    where
      from :
          (b : Bool × Bool)
          → t.bodies "osh.depsReady" ≡ b ∷ []
          → (if b.0 then return (tt {0}) else raise (system_exit "not a readiness gate"))
            ≡ return tt
          → (e : Bool) × Resolves t "osh.depsReady" (true, e)
      from (true, e) one later = (e, one)
      from (false, e) one later = cc

  ExistIsChecked : Option Mode → Type 0
  ExistIsChecked none = calls_it t "osh.depsExist" ≡ true → Resolves t "osh.depsExist" (false, true)
  ExistIsChecked (some m) =
      (m ≡ readiness)
      × (calls_it t "osh.depsExist" ≡ true)
      × ((e : Bool) × Resolves t "osh.depsExist" (true, e))

  check_exist-checked : (o : Option Mode) → check_exist t ≡ return o → ExistIsChecked o
  unfolding check_exist ExistIsChecked
  check_exist-checked o h = elim (Bool-cases (calls_it t "osh.depsExist")) [
    | inr not_called ↦
        subst ExistIsChecked (return_inj (rw not_called at h))
          (λ c. false_true (sym not_called ∙ c))
    | inl called ↦
        let (b, one, later) = >>=-inv (one_body (t.bodies "osh.depsExist")) _ o (rw called at h) in
        from called b (one_body-return (t.bodies "osh.depsExist") b one) later
  ]
    where
      from :
          calls_it t "osh.depsExist" ≡ true
          → (b : Bool × Bool) → t.bodies "osh.depsExist" ≡ b ∷ []
          → (if b.0
              then return (some readiness)
              else if b.1
              then return none
              else raise (system_exit "neither gate"))
            ≡ return o
          → ExistIsChecked o
      from called (true, e) one later =
          subst ExistIsChecked (return_inj later) (refl, called, (e, one))
      from called (false, true) one later = subst ExistIsChecked (return_inj later) (λ c. one)
      from called (false, false) one later = cc

  mode_of-Means :
      (mode : Mode)
      → HasGates t
      → ReadyIsChecked
      → ExistIsChecked none
      → mode_of t
          (calls_it t "osh.depsReady")
          (calls_it t "osh.depsExist")
          (calls_it t "osh.depsRelaxed")
        ≡ return mode
      → Means t mode
  unfolding mode_of ReadyIsChecked ExistIsChecked
  mode_of-Means mode gates ready exist h =
      from (calls_it t "osh.depsReady") (calls_it t "osh.depsExist") (calls_it t "osh.depsRelaxed")
        (t.tests "$strictReady") (t.tests "$relaxedExist") refl refl refl refl refl h
    where
      from :
          (r e x v w : Bool)
          → calls_it t "osh.depsReady" ≡ r
          → calls_it t "osh.depsExist" ≡ e
          → calls_it t "osh.depsRelaxed" ≡ x
          → t.tests "$strictReady" ≡ v
          → t.tests "$relaxedExist" ≡ w
          → mode_of t r e x ≡ return mode
          → Means t mode
      from true true true true true hr he hx hv hw k =
          subst (Means t) (return_inj (rw (hv, hw) at k)) (hr, he, hx, hv, hw, ready hr, exist he)
      from true true true true false hr he hx hv hw k = cc (rw (hv, hw) at k)
      from true true true false w hr he hx hv hw k = cc (rw hv at k)
      from true true false v w hr he hx hv hw k = cc
      from true false true v w hr he hx hv hw k = cc
      from true false false v w hr he hx hv hw k =
          subst (Means t) (return_inj k) (inr (hr, he, hx, ready hr))
      from false true true v w hr he hx hv hw k = cc
      from false false true v w hr he hx hv hw k = cc
      from false e false v w hr he hx hv hw k =
          let called = HasGates-calls t gates hr hx in
          subst (Means t) (return_inj k) (hr, hx, called, exist called)

or_mode-Means :
    (t : Templates) (o : Option Mode) (mode : Mode)
    → HasGates t
    → ReadyIsChecked t
    → ExistIsChecked t o
    → or_mode t o (
        mode_of t
          (calls_it t "osh.depsReady")
          (calls_it t "osh.depsExist")
          (calls_it t "osh.depsRelaxed"))
      ≡ return mode
    → Means t mode
unfolding ExistIsChecked ReadyIsChecked
or_mode-Means t none mode gates ready exist h = mode_of-Means t mode gates ready exist h
or_mode-Means t (some m) mode gates ready (same, called, redefined) h =
    subst (Means t) (sym same ∙ return_inj h) (
      inl (
        called,
        redefined,
        elim (Bool-cases (calls_it t "osh.depsReady")) [
          | inl ready_called ↦ inr (ready ready_called)
          | inr not_called ↦ inl not_called
        ],
      ))

gate_mode-Means :
    (t : Templates) (mode : Mode) → HasGates t → gate_mode t ≡ return mode → Means t mode
unfolding gate_mode
gate_mode-Means t mode gates h =
    let (done, ready, rest) = >>=-inv (check_ready t) _ mode h in
    let (o, exist, last) = >>=-inv (check_exist t) _ mode rest in
    or_mode-Means t o mode gates (check_ready-checked t ready) (check_exist-checked t o exist) last

-- `read_gate` returns a mode exactly when both templates are there, compositions.yaml includes at
-- least one predicate and none but osh.depsReady, osh.depsExist and osh.depsRelaxed, and the
-- templates are what the mode says. Per edge: it includes all three, its emission tests both halves,
-- osh.depsReady includes osh.ready, and osh.depsExist includes osh.exists and not osh.ready. For
-- existence: it includes osh.depsExist only, which includes osh.exists and not osh.ready. For
-- readiness: either it includes osh.depsExist, redefined to include osh.ready, with an osh.depsReady
-- that includes osh.ready too where it is called, or it includes osh.depsReady only, which includes
-- osh.ready. The helpers named with what they include have one definition each.
pub read_gate-Means :
    (t : Templates) (mode : Mode) → (read_gate t ≡ return mode) ↔ (HasGates t × Means t mode)
read_gate-Means t mode =
    let front = read_gate-HasGates t mode in
    (
      λ h. let (gates, found) = front.0 h in (gates, gate_mode-Means t mode gates found),
      λ (gates, means). front.1 (gates, Means-gate_mode t mode means),
    )
