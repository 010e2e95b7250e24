-- ===== src/ConfigClosure/Reach/Kept.antt =====
-- What `closure` keeps while its stack is worked off: what it has seen, what it will see, and how many
-- entries may still come.
use krateo_openstack_bluepri.Prelude.{
  ℕ, ◌+◌, ◌≤◌, String, ◌≡◌, refl, sym, ap, subst, ◌∙◌, ◌⊎◌, inl, inr, true, false, Option, some,
  List, [], ◌∷◌, if◌then◌else◌, In, length, contains, contains→In, lookup, Value, Result, Exception,
  return, raise, return_inj, arith, eq_iff,
}
use krateo_openstack_bluepri.ConfigClosure.Reach.{Comps, deps_of, extend, width, widths}

-- A chain of declared dependencies
pub data Reaches (comps : Comps) : String → String → Type 0 where
  itself : {n : String} → Reaches comps n n
  onward :
      {n d m : String} {deps : List String}
      → deps_of comps n ≡ return deps
      → In d deps
      → Reaches comps d m
      → Reaches comps n m

pub In-extend :
    (d : String) (deps stack : List String) → In d (extend deps stack) → In d deps ⊎ In d stack
In-extend d [] stack h = inr h
In-extend d (x ∷ deps) stack h = ground (arith, In-extend d deps (x ∷ stack))

pub extend-In :
    (d : String) (deps stack : List String) → In d deps ⊎ In d stack → In d (extend deps stack)
extend-In d [] stack h = ground arith
extend-In d (x ∷ deps) stack h = ground (arith, extend-In d deps (x ∷ stack))

pub length-extend :
    (deps stack : List String) → length (extend deps stack) ≡ length deps + length stack
length-extend [] stack = omega arith
length-extend (d ∷ deps) stack = omega (arith, length-extend deps (d ∷ stack))

-- The dependencies that may still enter the stack
unfoldable pub left : Comps → List String → ℕ
left [] seen = 0
left ((name, c) ∷ comps) seen = (if contains seen name then 0 else width c) + left comps seen

pub left-nil : (comps : Comps) → left comps [] ≡ widths comps
unfolding left
left-nil [] = omega arith
left-nil ((name, c) ∷ comps) = omega (arith, left-nil comps)

pub left-cons :
    (comps : Comps) (seen : List String) (n : String) → left comps (n ∷ seen) ≤ left comps seen
unfolding left
left-cons [] seen n = omega arith
left-cons ((name, c) ∷ comps) seen n = ground (arith, left-cons comps seen n)

pub left-fresh :
    (comps : Comps) (seen : List String) (n : String) (c : Value)
    → contains seen n ≡ false
    → lookup n comps ≡ some c
    → width c + left comps (n ∷ seen) ≤ left comps seen
unfolding left
left-fresh [] seen n c fresh at = cc
left-fresh ((name, d) ∷ comps) seen n c fresh at =
    ground
      (arith, left-cons comps seen n, left-fresh comps seen n c fresh, eq_iff name n, eq_iff n name)

module _ (comps : Comps) (name : String) where
  -- What the search keeps: it holds only what is reachable, it holds the name it starts from, and it
  -- has noted the dependencies of what it has seen.
  unfoldable pub IsKept : List String → List String → Type 0
  IsKept seen stack =
      ((m : String) → In m seen ⊎ In m stack → Reaches comps name m)
      × (In name seen ⊎ In name stack)
      × ((n d : String) (deps : List String)
          → In n seen
          → deps_of comps n ≡ return deps
          → In d deps
          → In d seen ⊎ In d stack)

  -- How the search ends: with a set that is kept, or with what a component's mapping raises.
  unfoldable pub Ended : Option (Result (List String)) → Type 0
  Ended outcome =
      ((own : List String) × (outcome ≡ some (return own)) × IsKept own [])
      ⊎ ((e : Exception) × (n : String) × (outcome ≡ some (raise e))
          × (deps_of comps n ≡ raise e)
          × Reaches comps name n)

  pub Reaches-trans :
      {n d m : String} {deps : List String}
      → Reaches comps n m
      → deps_of comps m ≡ return deps
      → In d deps
      → Reaches comps n d
  Reaches-trans itself e h = onward e h itself
  Reaches-trans (onward f k r) e h = onward f k (Reaches-trans r e h)

  -- An entry that has been seen goes.
  pub IsKept-drop :
      (seen stack : List String) (n : String)
      → contains seen n ≡ true
      → IsKept seen (n ∷ stack)
      → IsKept seen stack
  unfolding IsKept
  IsKept-drop seen stack n known (reached, start, noted) =
      let again : (m : String) → In m seen ⊎ In m (n ∷ stack) → In m seen ⊎ In m stack = λ m h.
        elim h [
          | inl old ↦ inl old
          | inr (inl e) ↦ inl (subst (λ (y : String). In y seen) (sym e) (contains→In seen n known))
          | inr (inr later) ↦ inr later
        ] in
      (
        (λ m h. reached m (elim h [ inl old ↦ inl old | inr later ↦ inr (inr later) ])),
        again name start,
        (λ k d deps h e i. again d (noted k d deps h e i)),
      )

  -- A new entry is seen, and its dependencies enter the stack.
  pub IsKept-enter :
      (seen stack : List String) (n : String) (deps : List String)
      → deps_of comps n ≡ return deps
      → IsKept seen (n ∷ stack)
      → IsKept (n ∷ seen) (extend deps stack)
  unfolding IsKept
  IsKept-enter seen stack n deps at (reached, start, noted) =
      let again : (m : String)
          → In m seen ⊎ In m (n ∷ stack)
          → In m (n ∷ seen) ⊎ In m (extend deps stack) =
        λ m h. elim h [
          | inl old ↦ inl (inr old)
          | inr (inl e) ↦ inl (inl e)
          | inr (inr later) ↦ inr (extend-In m deps stack (inr later))
        ] in
      (
        (λ m h. elim h [
          | inl (inl e) ↦ reached m (inr (inl e))
          | inl (inr old) ↦ reached m (inl old)
          | inr on ↦ elim (In-extend m deps stack on) [
            | inl new ↦ Reaches-trans (reached n (inr (inl refl))) at new
            | inr later ↦ reached m (inr (inr later))
          ]
        ]),
        again name start,
        (λ k d ds h e i. elim h [
          | inl same ↦ inr (
              extend-In d deps stack (
                inl (
                  subst (λ (l : List String). In d l)
                    (return_inj (sym e ∙ ap (deps_of comps) same ∙ at)) i)))
          | inr old ↦ again d (noted k d ds old e i)
        ]),
      )
