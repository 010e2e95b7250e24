-- ===== src/Dag/Graph.antt =====
-- The declared components (`comps` of hack/validate-component-dag.py) and the waits between them.
use krateo_openstack_bluepri.Prelude.{
  String, ◌≡◌, refl, sym, ◌∙◌, ◌⊎◌, inl, inr, subst, Bool, true, false, Bool-cases, Option, none,
  some, Option-cases, List, [], ◌∷◌, ◌==◌, eq_iff, arith, insert, lookup, names_of, In, false_true,
}

pub record Component : Type 0 where
  pub name : String
  pub deps : List String
  pub kind : Option String
  pub tier : Option String

abbrev pub Components : Type 0
Components = List (String × Component)

unfoldable pub collect_from : Components → List Component → Components
collect_from comps [] = comps
collect_from comps (c ∷ cs) = collect_from (insert c.name c comps) cs

-- `{c["name"]: c for c in ...}`
unfoldable pub collect : List Component → Components
unfolding collect_from
collect cs = collect_from [] cs

-- `d in names`
abbrev pub declares : Components → String → Bool
declares comps n = elim (lookup n comps) [ none ↦ false | some c ↦ true ]

-- `comps[n].get("deps") or []`
abbrev pub deps_of : Components → String → List String
deps_of comps n = elim (lookup n comps) [ none ↦ [] | some c ↦ c.deps ]

-- `n` waits for `d`, and both are components.
abbrev pub Waits : Components → String → String → Type 0
Waits comps n d = In d (deps_of comps n) × (declares comps d ≡ true)

-- A chain of one or more waits.
pub data Chain (comps : Components) (n : String) : String → Type 0 where
  one : {d : String} → Waits comps n d → Chain comps n d
  more : {d e : String} → Chain comps n d → Waits comps d e → Chain comps n e

-- Every chain of waits from `n` ends.
pub data Safe (comps : Components) : String → Type 0 where
  safe : {n : String} → ((d : String) → Waits comps n d → Safe comps d) → Safe comps n

-- A component that waits is declared.
pub lookup-In :
    {V : Type 0} (m : List (String × V)) (n : String) (v : V)
    → lookup n m ≡ some v
    → In n (names_of m)
lookup-In [] n v h = cc
lookup-In ((j, w) ∷ m) n v h = elim (Bool-cases (j == n)) [
  | inl same ↦ inl (sym ((eq_iff j n).0 same))
  | inr other ↦ inr (lookup-In m n v (rw other at h))
]

pub In-lookup :
    {V : Type 0} (m : List (String × V)) (n : String)
    → In n (names_of m)
    → (v : V) × (lookup n m ≡ some v)
In-lookup [] n h = absurd h
In-lookup ((j, v) ∷ m) n h = elim (Bool-cases (j == n)) [
  | inl same ↦ (v, rw same)
  | inr other ↦ elim h [
    | inl e ↦ false_true (sym other ∙ (eq_iff j n).1 (sym e))
    | inr later ↦ let (w, found) = In-lookup m n later in (w, rw other found)
  ]
]

pub declares-In :
    (comps : Components) (n : String) → declares comps n ≡ true → In n (names_of comps)
declares-In comps n h = elim (Option-cases (lookup n comps)) [
  | inl absent ↦ ground arith
  | inr (c, found) ↦ lookup-In comps n c found
]

pub In-declares :
    (comps : Components) (n : String) → In n (names_of comps) → declares comps n ≡ true
In-declares comps n h = let (c, found) = In-lookup comps n h in rw (found, declares)

pub waits-In : (comps : Components) (n d : String) → In d (deps_of comps n) → In n (names_of comps)
waits-In comps n d h = elim (Option-cases (lookup n comps)) [
  | inl absent ↦ absurd (rw (absent, deps_of) at h)
  | inr (c, found) ↦ lookup-In comps n c found
]

-- A safe component lies on no cycle.
pub Chain-first :
    {comps : Components} {n e : String}
    → Chain comps n e
    → (d : String) × Waits comps n d × ((d ≡ e) ⊎ Chain comps d e)
Chain-first (one {d} w) = (d, w, inl refl)
Chain-first (more {d} {e} c w) =
    let (x, first, rest) = Chain-first c in
    (x, first, elim rest [ inl same ↦ inr (one (rw same w)) | inr longer ↦ inr (more longer w) ])

pub Chain-join :
    {comps : Components} {a b c : String} → Chain comps a b → Chain comps b c → Chain comps a c
Chain-join p (one w) = more p w
Chain-join p (more q w) = more (Chain-join p q) w

pub Safe-acyclic : {comps : Components} {n : String} → Safe comps n → ¬ Chain comps n n
Safe-acyclic {comps = comps} (safe h) c =
    let (d, first, rest) = Chain-first c in
    Safe-acyclic (h d first) (elim rest [
      | inl same ↦ one (subst (λ x. Waits comps x d) (sym same) first)
      | inr longer ↦ more longer first
    ])

-- The orchestrator emits a component once all that it names in `deps` is emitted and Ready.
pub data Emitted (comps : Components) : String → Type 0 where
  emit :
      {n : String}
      → declares comps n ≡ true
      → ((d : String) → In d (deps_of comps n) → Emitted comps d)
      → Emitted comps n
