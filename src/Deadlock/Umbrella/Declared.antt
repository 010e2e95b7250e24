-- ===== src/Deadlock/Umbrella/Declared.antt =====
-- What holds of the components and relaxations that `read_umbrella` returns.
use krateo_openstack_bluepri.Prelude.{
  String, true, false, Bool-cases, ◌&&◌, ◌||◌, ◌≡◌, refl, sym, subst, arith, inl, inr, ◌∙◌, Bool,
  ◌⊎◌, all, obj, end, eq_iff, List, [], ◌∷◌, ◌++◌, All, All-append, contains, ◌==◌, names_of,
  return, return_inj, >>=-inv, ◌>>=◌, Value, get_default, iterate, arr, nil, null, or_else,
}
use krateo_openstack_bluepri.Deadlock.Umbrella.{
  Comps, Edge, edge_of, closed, without, deps_of, has_edge, is_declared, add_relaxed,
  read_components, read_relaxations, check_closed, read_umbrella,
}

-- No edge stands twice in the list.
abbrev pub Once : List Edge → Type 0
Once [] = Unit
Once (e ∷ es) = (has_edge es e ≡ false) × Once es

has_edge-snoc :
    (es : List Edge) (e x : Edge)
    → has_edge (es ++ e ∷ []) x ≡ (has_edge es x || (e.0 == x.0 && e.1 == x.1))
has_edge-snoc [] e x = ground arith
has_edge-snoc (y ∷ es) e x = ground (arith, has_edge-snoc es e x)

eq_sym : (a b : String) → (a == b) ≡ (b == a)
eq_sym a b = ground (arith, eq_iff a b, eq_iff b a)

Once-snoc : (es : List Edge) (e : Edge) → Once es → has_edge es e ≡ false → Once (es ++ e ∷ [])
Once-snoc [] e once h = (refl, tt)
Once-snoc (x ∷ es) e once h = (
  ground (arith, has_edge-snoc es e x, eq_sym e.0 x.0, eq_sym e.1 x.1),
  Once-snoc es e once.1 (ground arith),
)

module _ (comps : Comps) where
  abbrev Declared : Edge → Type 0
  Declared e = is_declared comps e ≡ true

  add_relaxed-Once :
      (relaxed more : List Edge) (e : Edge)
      → add_relaxed comps relaxed e ≡ return more
      → All Declared relaxed
      → Once relaxed
      → All Declared more × Once more
  add_relaxed-Once relaxed more e h all once = elim (Bool-cases (has_edge relaxed e)) [
    | inl twice ↦ absurd (ground arith)
    | inr fresh ↦ elim (Bool-cases (is_declared comps e)) [
      | inr wrong ↦ absurd (ground arith)
      | inl right ↦
          let same : relaxed ++ e ∷ [] ≡ more = return_inj (rw (fresh, right) at h) in
          subst (λ (l : List Edge). All Declared l × Once l) same
            (All-append Declared relaxed (e ∷ []) all (right, tt), Once-snoc relaxed e once fresh)
    ]
  ]

  read_relaxations-Once :
      (rs : List Value) (relaxed final : List Edge)
      → read_relaxations comps relaxed rs ≡ return final
      → All Declared relaxed
      → Once relaxed
      → All Declared final × Once final
  unfolding read_relaxations
  read_relaxations-Once [] relaxed final h all once =
      subst (λ (l : List Edge). All Declared l × Once l) (return_inj h) (all, once)
  read_relaxations-Once (r ∷ rs) relaxed final h all once =
      let (e, _, h₁) = >>=-inv (edge_of r) _ final h in
      let (more, added, h₂) = >>=-inv (add_relaxed comps relaxed e) _ final h₁ in
      let (all', once') = add_relaxed-Once relaxed more e added all once in
      read_relaxations-Once rs more final h₂ all' once'

contains-without :
    (name : String) (comps : Comps) → contains (names_of (without name comps)) name ≡ false
contains-without name [] = refl
contains-without name ((n, deps) ∷ comps) = elim (Bool-cases (n == name)) [
  | inl same ↦ rw same (contains-without name comps)
  | inr other ↦ rw other (rw other (contains-without name comps))
]

all-contains :
    (p : String → Bool) (l : List String) (x : String)
    → all p l ≡ true
    → contains l x ≡ true
    → p x ≡ true
all-contains p [] x a c = cc
all-contains p (y ∷ ys) x a c = elim (Bool-cases (y == x)) [
  | inl here ↦ subst (λ (z : String). p z ≡ true) ((eq_iff y x).0 here) (ground arith)
  | inr later ↦ all-contains p ys x (ground arith) (ground arith)
]

-- What a component depends on was a component before the umbrella was taken out.
closed-deps :
    (comps rest : Comps) (name d : String)
    → closed comps rest ≡ true
    → contains (deps_of (without "openstack" rest) name) d ≡ true
    → contains (names_of comps) d ≡ true
closed-deps comps [] name d c h = cc
closed-deps comps ((m, deps) ∷ more) name d c h = elim (Bool-cases (m == "openstack")) [
  | inl dropped ↦ closed-deps comps more name d (ground arith) (rw dropped at h)
  | inr kept ↦
      let left = without "openstack" more in
      let first : contains (deps_of ((m, deps) ∷ left) name) d ≡ true = rw kept at h in
      elim (Bool-cases (m == name)) [
        | inl here ↦
            all-contains (λ x. contains (names_of comps) x) deps d (ground arith)
              (rw (deps_of, here) at first)
        | inr later ↦ closed-deps comps more name d (ground arith) (rw (deps_of, later) at first)
      ]
]

names-without :
    (name : String) (comps : Comps) (d : String)
    → contains (names_of comps) d ≡ true
    → (contains (names_of (without name comps)) d ≡ true) ⊎ (d ≡ name)
names-without name [] d h = cc
names-without name ((m, deps) ∷ more) d h = elim (Bool-cases (m == d)) [
  | inl here ↦ elim (Bool-cases (m == name)) [
    | inl dropped ↦ inr (sym ((eq_iff m d).0 here) ∙ (eq_iff m name).0 dropped)
    | inr kept ↦ inl (rw kept (ground arith))
  ]
  | inr later ↦ elim (names-without name more d (ground arith)) [
    | inr same ↦ inr same
    | inl found ↦ inl (elim (Bool-cases (m == name)) [
      | inl dropped ↦ rw dropped found
      | inr kept ↦ rw kept (ground arith)
    ])
  ]
]

-- The dependency of the edge is a component, or it is the umbrella.
abbrev pub EndsAtComponent : Comps → Edge → Type 0
EndsAtComponent comps e = (contains (names_of comps) e.1 ≡ true) ⊎ (e.1 ≡ "openstack")

check_closed-ends :
    (all_comps comps : Comps) (e : Edge)
    → check_closed all_comps ≡ return comps
    → is_declared comps e ≡ true
    → EndsAtComponent comps e
unfolding check_closed
check_closed-ends [] comps e h d = cc
check_closed-ends (c ∷ cs) comps e h d = elim (Bool-cases (closed (c ∷ cs) (c ∷ cs))) [
  | inr bad ↦ cc (rw bad at h)
  | inl good ↦
      let same : without "openstack" (c ∷ cs) ≡ comps = return_inj (rw good at h) in
      subst (λ (x : Comps). EndsAtComponent x e) same
        (names-without "openstack" (c ∷ cs) e.1 (
          closed-deps (c ∷ cs) (c ∷ cs) e.0 e.1 good
            (subst (λ (x : Comps). contains (deps_of x e.0) e.1 ≡ true) (sym same) (ground arith))))
]

check_closed-return :
    (all_comps comps : Comps)
    → check_closed all_comps ≡ return comps
    → comps ≡ without "openstack" all_comps
unfolding check_closed
check_closed-return [] comps h = cc
check_closed-return (c ∷ cs) comps h = elim (Bool-cases (closed (c ∷ cs) (c ∷ cs))) [
  | inl good ↦ sym (return_inj (rw good at h))
  | inr bad ↦ cc (rw bad at h)
]

with_ends :
    (comps : Comps) (edges : List Edge) (all_comps : Comps)
    → check_closed all_comps ≡ return comps
    → All (λ (e : Edge). is_declared comps e ≡ true) edges
    → All (λ (e : Edge). (is_declared comps e ≡ true) × EndsAtComponent comps e) edges
with_ends comps [] all_comps checked declared = tt
with_ends comps (e ∷ es) all_comps checked (d, more) =
    ((d, check_closed-ends all_comps comps e checked d), with_ends comps es all_comps checked more)

-- When the umbrella's values are read without a failed measurement, each relaxation stands on a
-- declared dependency of a component, the dependency is itself a component or "openstack", the
-- umbrella, no relaxation is declared twice, and the umbrella is not among the components.
pub read_umbrella-Once :
    (parsed : Value) (comps : Comps) (relaxed : List Edge)
    → read_umbrella parsed ≡ return (comps, relaxed)
    → All (λ (e : Edge). (is_declared comps e ≡ true) × EndsAtComponent comps e) relaxed
      × (Once relaxed × (contains (names_of comps) "openstack" ≡ false))
unfolding read_umbrella
read_umbrella-Once parsed comps relaxed h =
    let doc = or_else parsed (obj end) in
    let (listed, _, h₁) = >>=-inv (get_default doc "components" null) _ (comps, relaxed) h in
    let (all_comps, _, h₂) =
      >>=-inv (iterate (or_else listed (arr nil)) >>= read_components []) _ (comps, relaxed) h₁ in
    let (kept, checked, h₃) = >>=-inv (check_closed all_comps) _ (comps, relaxed) h₂ in
    let (declared, _, h₄) =
      >>=-inv (get_default doc "dependencyRelaxations" null) _ (comps, relaxed) h₃ in
    let (edges, read, h₅) =
      >>=-inv (iterate (or_else declared (arr nil)) >>= read_relaxations kept []) _ (comps, relaxed)
        h₄ in
    let (rs, _, gathered) =
      >>=-inv (iterate (or_else declared (arr nil))) (read_relaxations kept []) edges read in
    let (all, once) = read_relaxations-Once kept rs [] edges gathered tt tt in
    let last : (kept, edges) ≡ (comps, relaxed) = return_inj h₅ in
    subst
      (λ (x : Comps × List Edge).
        All (λ (e : Edge). (is_declared x.0 e ≡ true) × EndsAtComponent x.0 e) x.1
        × (Once x.1 × (contains (names_of x.0) "openstack" ≡ false)))
      last
      (
        with_ends kept edges all_comps checked all,
        (
          once,
          subst (λ (x : Comps). contains (names_of x) "openstack" ≡ false)
              (sym (check_closed-return all_comps kept checked))
              (contains-without "openstack" all_comps),
        ),
      )
