-- ===== src/ConfigClosure/Reach/Closed.antt =====
-- Why `closure` ends, and what it holds: a step takes an entry off the stack, and a component's
-- dependencies enter it once.
use krateo_openstack_bluepri.ConfigClosure.Reach.Kept.{
  Reaches, itself, onward, length-extend, left, left-nil, left-cons, left-fresh, IsKept, Ended,
  IsKept-drop, IsKept-enter,
}
use krateo_openstack_bluepri.Prelude.{
  ℕ, zero, suc, ◌+◌, ◌≤◌, ◌<◌, String, ◌≡◌, refl, sym, ap, subst, ◌∙◌, ◌↔◌, ◌⊎◌, inl, inr, false,
  Bool-cases, Option-cases, List, [], ◌∷◌, In, length, contains, lookup, Exception, return, raise,
  return_inj, Result-cases, arith,
}
use krateo_openstack_bluepri.ConfigClosure.Reach.{
  Comps, deps_in, deps_of, extend, width, search, enough, closure,
}

left-step :
    (comps : Comps) (seen : List String) (n : String) (deps : List String)
    → contains seen n ≡ false
    → deps_of comps n ≡ return deps
    → length deps + left comps (n ∷ seen) ≤ left comps seen
unfolding deps_of
left-step comps seen n deps fresh at = elim (Option-cases (lookup n comps)) [
  | inl missing ↦
      let opened : deps_of comps n ≡ return [] = rw (deps_of, missing) refl in
      let none_there : length deps ≡ 0 = ap length (return_inj (sym at ∙ opened)) in
      omega (arith, left-cons comps seen n, none_there)
  | inr (c, there) ↦
      let opened : deps_of comps n ≡ deps_in c = rw (deps_of, there) refl in
      let its : deps_in c ≡ return deps = sym opened ∙ at in
      let wide : width c ≡ length deps = rw (width, its) refl in
      omega (arith, left-fresh comps seen n c fresh there, wide)
]

reached_top :
    (comps : Comps) (name : String) (seen stack : List String) (n : String)
    → IsKept comps name seen (n ∷ stack)
    → Reaches comps name n
unfolding IsKept
reached_top comps name seen stack n kept = kept.0 n (inr (inl refl))

module _ (comps : Comps) (name : String) where
  search-Ended :
      (fuel : ℕ) (seen stack : List String)
      → length stack + left comps seen < fuel
      → IsKept comps name seen stack
      → Ended comps name (search comps fuel seen stack)
  unfolding search Ended
  search-Ended zero seen stack h kept = ground arith
  search-Ended (suc fuel) seen [] h kept = inl (seen, refl, kept)
  search-Ended (suc fuel) seen (n ∷ stack) h kept = elim (Bool-cases (contains seen n)) [
    | inl known ↦
        rw (known, search)
          (search-Ended fuel seen stack (omega arith)
            (IsKept-drop comps name seen stack n known kept))
    | inr fresh ↦ elim (Result-cases (deps_of comps n)) [
      | inl (deps, at) ↦
          let less : length (extend deps stack) + left comps (n ∷ seen) < fuel =
            omega (arith, length-extend deps stack, left-step comps seen n deps fresh at) in
          rw (fresh, search, at)
            (search-Ended fuel (n ∷ seen) (extend deps stack) less
              (IsKept-enter comps name seen stack n deps at kept))
      | inr (e, at) ↦
          rw (fresh, search, at) (inr (e, n, refl, at, reached_top comps name seen stack n kept))
    ]
  ]

-- A set that is kept with nothing left on the stack holds what its members reach.
IsKept-onward :
    (comps : Comps) (name : String) (own : List String)
    → IsKept comps name own []
    → {n m : String} → Reaches comps n m
    → In n own
    → In m own
unfolding IsKept
IsKept-onward comps name own kept itself h = h
IsKept-onward comps name own kept (onward {n = n} {d = d} {deps = deps} e i r) h =
    IsKept-onward comps name own kept r
      (elim (kept.2 n d deps h e i) [ inl old ↦ old | inr nowhere ↦ absurd nowhere ])

IsKept-all :
    (comps : Comps) (name : String) (own : List String)
    → IsKept comps name own []
    → (m : String) → Reaches comps name m
    → In m own
unfolding IsKept
IsKept-all comps name own kept m r =
    IsKept-onward comps name own kept r
      (elim kept.1 [ inl old ↦ old | inr nowhere ↦ absurd nowhere ])

-- `closure` returns what the name reaches over declared dependencies, itself among it, or raises what
-- the dependencies of a component that it reaches raise.
pub closure-Reaches :
    (comps : Comps) (name : String)
    → ((own : List String) × (closure comps name ≡ return own)
        × ((m : String) → In m own ↔ Reaches comps name m))
      ⊎ ((e : Exception) × (n : String) × (closure comps name ≡ raise e)
          × (deps_of comps n ≡ raise e)
          × Reaches comps name n)
unfolding closure Ended IsKept
closure-Reaches comps name =
    let less : 1 + left comps [] < enough comps = omega (arith, left-nil comps) in
    let start : IsKept comps name [] (name ∷ []) = (
      (λ m h. elim h [
        | inl nowhere ↦ absurd nowhere
        | inr (inl e) ↦ subst (λ (y : String). Reaches comps name y) (sym e) itself
        | inr (inr nowhere) ↦ absurd nowhere
      ]),
      inr (inl refl),
      (λ n d deps h e i. absurd h),
    ) in
    elim (search-Ended comps name (enough comps) [] (name ∷ []) less start) [
      | inl (own, ends, kept) ↦ inl (
        own,
        rw (closure, ends) refl,
        λ m. ((λ h. kept.0 m (inl h)), IsKept-all comps name own kept m),
      )
      | inr (e, n, ends, at, r) ↦ inr (e, n, rw (closure, ends) refl, at, r)
    ]
