-- ===== src/Deadlock/Gate/Means.antt =====
-- What a mode of the creation gate means, and that `read_gate` finds it where it is meant.
use krateo_openstack_bluepri.Prelude.{
  String, Bool, true, false, Bool-cases, not, ◌≡◌, ◌≢◌, ◌↔◌, refl, sym, ◌∙◌, false_true, arith,
  eq_iff, system_exit, ◌⊎◌, inl, inr, none, some, List, [], ◌∷◌, All, any, contains, if◌then◌else◌,
  return, raise,
}
use krateo_openstack_bluepri.Deadlock.Gate.{
  Templates, Mode, readiness, existence, per_edge, calls_it, check_ready, check_exist, mode_of,
  is_known, none_called, gate_mode, read_gate,
}

-- The helper has one definition, which includes what is asked of it.
abbrev pub Resolves : Templates → String → Bool × Bool → Type 0
Resolves t p b = t.bodies p ≡ b ∷ []

-- The predicate is one of the three that have a meaning.
abbrev pub IsGate : String → Type 0
IsGate p = (p ≡ "osh.depsReady") ⊎ ((p ≡ "osh.depsExist") ⊎ (p ≡ "osh.depsRelaxed"))

-- The templates are there, and compositions.yaml includes predicates, and of the three only.
abbrev pub HasGates : Templates → Type 0
HasGates t = (t.present ≡ true) × All IsGate t.called × (t.called ≢ [])

module _ (t : Templates) where
  -- What a mode says of the predicates.
  abbrev pub Means : Mode → Type 0
  Means per_edge =
      (calls_it t "osh.depsReady" ≡ true)
      × (calls_it t "osh.depsExist" ≡ true)
      × (calls_it t "osh.depsRelaxed" ≡ true)
      × (t.tests "$strictReady" ≡ true)
      × (t.tests "$relaxedExist" ≡ true)
      × ((e : Bool) × Resolves t "osh.depsReady" (true, e))
      × Resolves t "osh.depsExist" (false, true)
  Means existence =
      (calls_it t "osh.depsReady" ≡ false)
      × (calls_it t "osh.depsRelaxed" ≡ false)
      × (calls_it t "osh.depsExist" ≡ true)
      × Resolves t "osh.depsExist" (false, true)
  Means readiness =
      ((calls_it t "osh.depsExist" ≡ true)
        × ((e : Bool) × Resolves t "osh.depsExist" (true, e))
        × ((calls_it t "osh.depsReady" ≡ false)
            ⊎ ((e : Bool) × Resolves t "osh.depsReady" (true, e))))
      ⊎ ((calls_it t "osh.depsReady" ≡ true)
          × (calls_it t "osh.depsExist" ≡ false)
          × (calls_it t "osh.depsRelaxed" ≡ false)
          × ((e : Bool) × Resolves t "osh.depsReady" (true, e)))

  ready_ok :
      (calls_it t "osh.depsReady" ≡ false) ⊎ ((e : Bool) × Resolves t "osh.depsReady" (true, e))
      → check_ready t ≡ return tt
  unfolding check_ready
  ready_ok (inl not_called) = rw not_called refl
  ready_ok (inr (e, one)) = elim (Bool-cases (calls_it t "osh.depsReady")) [
    | inl called ↦ rw (called, one) refl
    | inr not_called ↦ rw not_called refl
  ]

  exist_redefined :
      (e : Bool)
      → calls_it t "osh.depsExist" ≡ true
      → Resolves t "osh.depsExist" (true, e)
      → check_exist t ≡ return (some readiness)
  unfolding check_exist
  exist_redefined e called one = rw (called, one) refl

  exist_ok :
      (calls_it t "osh.depsExist" ≡ false) ⊎ Resolves t "osh.depsExist" (false, true)
      → check_exist t ≡ return none
  unfolding check_exist
  exist_ok (inl not_called) = rw not_called refl
  exist_ok (inr one) = elim (Bool-cases (calls_it t "osh.depsExist")) [
    | inl called ↦ rw (called, one) refl
    | inr not_called ↦ rw not_called refl
  ]

  three_halves :
      t.tests "$strictReady" ≡ true
      → t.tests "$relaxedExist" ≡ true
      → mode_of t true true true ≡ return per_edge
  unfolding mode_of
  three_halves strict relaxed = rw (strict, relaxed) refl

  -- A mode is found where it is meant.
  pub Means-gate_mode : (mode : Mode) → Means mode → gate_mode t ≡ return mode
  unfolding gate_mode
  Means-gate_mode per_edge (hr, he, hx, strict, relaxed, ready, exist) =
      rw (ready_ok (inr ready), exist_ok (inr exist), hr, he, hx) (three_halves strict relaxed)
  Means-gate_mode existence (hr, hx, he, exist) =
      rw (ready_ok (inl hr), exist_ok (inr exist), hr, hx) refl
  Means-gate_mode readiness (inl (he, (e, exist), ready)) =
      rw (ready_ok ready, exist_redefined e he exist) refl
  Means-gate_mode readiness (inr (hr, he, hx, ready)) =
      rw (ready_ok (inr ready), exist_ok (inl he), hr, he, hx) refl

is_known-IsGate : (p : String) → (is_known p ≡ true) ↔ IsGate p
is_known-IsGate p =
    ground (arith, eq_iff p "osh.depsReady", eq_iff p "osh.depsExist", eq_iff p "osh.depsRelaxed")

known_predicates : (l : List String) → (any (λ p. not (is_known p)) l ≡ false) ↔ All IsGate l
known_predicates [] = (λ h. tt, λ h. refl)
known_predicates (p ∷ ps) = elim (Bool-cases (is_known p)) [
  | inl known ↦ rw known (
    λ h. ((is_known-IsGate p).0 known, (known_predicates ps).0 h),
    λ h. (known_predicates ps).1 h.1,
  )
  | inr odd ↦ rw odd (λ h. cc, λ h. false_true (sym odd ∙ (is_known-IsGate p).1 h.0))
]

none_called-nil : (l : List String) → (none_called l ≡ false) ↔ (l ≢ [])
none_called-nil [] = (λ h. cc, λ h. absurd (h refl))
none_called-nil (p ∷ ps) = (λ h e. cc, λ h. refl)

-- The three checks at the front pass where the templates have gates.
pub read_gate-HasGates :
    (t : Templates) (mode : Mode)
    → (read_gate t ≡ return mode) ↔ (HasGates t × (gate_mode t ≡ return mode))
unfolding read_gate
read_gate-HasGates t mode =
    from t.present (any (λ p. not (is_known p)) t.called) (none_called t.called) refl
      (known_predicates t.called) (none_called-nil t.called)
  where
    from :
        (p u n : Bool)
        → t.present ≡ p
        → (u ≡ false) ↔ All IsGate t.called
        → (n ≡ false) ↔ (t.called ≢ [])
        → ((if not p
              then raise (system_exit "a template is missing")
              else if u
              then raise (system_exit "an unknown gate")
              else if n
              then raise (system_exit "nothing orders creation")
              else gate_mode t)
            ≡ return mode)
          ↔ (HasGates t × (gate_mode t ≡ return mode))
    from false u n hp hu hn = (λ k. cc, λ h. false_true (sym hp ∙ h.0.0))
    from true true n hp hu hn = (λ k. cc, λ h. false_true (sym (hu.1 h.0.1)))
    from true false true hp hu hn = (λ k. cc, λ h. false_true (sym (hn.1 h.0.2)))
    from true false false hp hu hn = (λ k. ((hp, hu.0 refl, hn.0 refl), k), λ h. h.1)

-- Of the three, one is called.
pub HasGates-calls :
    (t : Templates)
    → HasGates t
    → calls_it t "osh.depsReady" ≡ false
    → calls_it t "osh.depsRelaxed" ≡ false
    → calls_it t "osh.depsExist" ≡ true
HasGates-calls t (_, known, some_called) = from t.called known some_called
  where
    from :
        (l : List String)
        → All IsGate l
        → l ≢ []
        → contains l "osh.depsReady" ≡ false
        → contains l "osh.depsRelaxed" ≡ false
        → contains l "osh.depsExist" ≡ true
    from [] all nonempty hr hx = absurd (nonempty refl)
    from (p ∷ ps) (first, later) nonempty hr hx =
        ground
          (arith, eq_iff p "osh.depsReady", eq_iff p "osh.depsExist", eq_iff p "osh.depsRelaxed")
