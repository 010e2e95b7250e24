-- ===== src/Dag/Closure.antt =====
-- The closure check of hack/validate-component-dag.py, on components with distinct names.
use krateo_openstack_bluepri.Prelude.{
  String, true, Bool-cases, none, some, List, [], ◌∷◌, ◌++◌, ◌≡◌, inl, inr, refl, sym, subst, ◌==◌,
  arith, In, In-sorted_by, eq_iff, some_inj, Option-cases, lookup, insert, lookup-insert, ap,
}
use mathlib.Core.Path.{ap₂}
use krateo_openstack_bluepri.Dag.Graph.{
  Component, Components, collect_from, collect, declares, deps_of,
}
use krateo_openstack_bluepri.Dag.{dangling_deps, closure_from, by_name, closure_problems}

-- Every dependency that a component names is declared.
abbrev pub IsClosed : Components → Type 0
IsClosed comps = (n d : String) → In d (deps_of comps n) → declares comps d ≡ true

pub append-eq-nil : {A : Type 0} (xs ys : List A) → xs ++ ys ≡ [] → (xs ≡ []) × (ys ≡ [])
append-eq-nil [] ys h = (refl, h)
append-eq-nil (x ∷ xs) ys h = cc

dangling_deps_none :
    (comps : Components) (n : String) (ds : List String)
    → dangling_deps comps n ds ≡ []
    → (d : String) → In d ds
    → declares comps d ≡ true
unfolding dangling_deps
dangling_deps_none comps n [] h d m = absurd m
dangling_deps_none comps n (x ∷ ds) h d m = elim (Bool-cases (declares comps x)) [
  | inl known ↦ elim m [
    | inl e ↦ rw e known
    | inr later ↦ dangling_deps_none comps n ds (rw (known, dangling_deps) at h) d later
  ]
  | inr unknown ↦ cc (rw (unknown, dangling_deps) at h)
]

dangling_deps_closed :
    (comps : Components) (n : String) (ds : List String)
    → ((d : String) → In d ds → declares comps d ≡ true)
    → dangling_deps comps n ds ≡ []
unfolding dangling_deps
dangling_deps_closed comps n [] h = refl
dangling_deps_closed comps n (x ∷ ds) h =
    rw (h x (inl refl), dangling_deps) (dangling_deps_closed comps n ds (λ d m. h d (inr m)))

closure_from_none :
    (comps : Components) (l : List (String × Component))
    → closure_from comps l ≡ []
    → (n : String) (c : Component) → In (n, c) l
    → (d : String) → In d c.deps
    → declares comps d ≡ true
unfolding closure_from
closure_from_none comps [] h n c m d i = absurd m
closure_from_none comps ((j, b) ∷ l) h n c m d i =
    let (here, rest) = append-eq-nil (dangling_deps comps j b.deps) (closure_from comps l) h in
    elim m [
      | inl e ↦
          dangling_deps_none comps j b.deps here d
            (subst (λ (x : String × Component). In d x.1.deps) e i)
      | inr later ↦ closure_from_none comps l rest n c later d i
    ]

closure_from_closed :
    (comps : Components) (l : List (String × Component))
    → ((n d : String) (c : Component) → In (n, c) l → In d c.deps → declares comps d ≡ true)
    → closure_from comps l ≡ []
unfolding closure_from
closure_from_closed comps [] h = refl
closure_from_closed comps ((j, b) ∷ l) h =
    rw (dangling_deps_closed comps j b.deps (λ d m. h j d b (inl refl) m))
      (closure_from_closed comps l (λ n d c m. h n d c (inr m)))

lookup-In_pair : (m : Components) (n : String) (c : Component) → lookup n m ≡ some c → In (n, c) m
lookup-In_pair [] n c h = cc
lookup-In_pair ((j, b) ∷ m) n c h = elim (Bool-cases (j == n)) [
  | inl same ↦ inl (
      ap₂ (λ (x : String) (y : Component). (x, y)) (sym ((eq_iff j n).0 same))
        (sym (some_inj (rw same at h))))
  | inr other ↦ inr (lookup-In_pair m n c (rw other at h))
]

-- The keys of a Python dict are distinct.
abbrev pub IsDict : Components → Type 0
IsDict [] = Unit
IsDict ((n, c) ∷ m) = (lookup n m ≡ none) × IsDict m

lookup_of_IsDict :
    (m : Components) → IsDict m → (n : String) (c : Component) → In (n, c) m → lookup n m ≡ some c
lookup_of_IsDict [] dict n c h = absurd h
lookup_of_IsDict ((j, b) ∷ m) dict n c (inl e) =
    let same = ap (λ (x : String × Component). x.0) e in
    let entry = ap (λ (x : String × Component). x.1) e in
    rw ((eq_iff j n).1 (sym same)) (ap some (sym entry))
lookup_of_IsDict ((j, b) ∷ m) dict n c (inr h) = elim (Bool-cases (j == n)) [
  | inl same ↦ cc (
    lookup_of_IsDict m dict.1 n c h,
    ap (λ (x : String). lookup x m) ((eq_iff j n).0 same),
    dict.0,
  )
  | inr other ↦ rw other (lookup_of_IsDict m dict.1 n c h)
]

insert-IsDict : (n : String) (c : Component) (m : Components) → IsDict m → IsDict (insert n c m)
insert-IsDict n c [] dict = (refl, tt)
insert-IsDict n c ((j, b) ∷ m) dict = elim (Bool-cases (j == n)) [
  | inl same ↦ rw same dict
  | inr other ↦
      rw other
        (ground (arith, lookup-insert n j c m, eq_iff j n, eq_iff n j), insert-IsDict n c m dict.1)
]

collect_from-IsDict : (cs : List Component) (m : Components) → IsDict m → IsDict (collect_from m cs)
unfolding collect_from
collect_from-IsDict [] m dict = dict
collect_from-IsDict (c ∷ cs) m dict =
    collect_from-IsDict cs (insert c.name c m) (insert-IsDict c.name c m dict)

pub collect-IsDict : (cs : List Component) → IsDict (collect cs)
unfolding collect
collect-IsDict cs = collect_from-IsDict cs [] tt

pub closure_problems-eq-nil : (comps : Components) → closure_problems comps ≡ [] → IsClosed comps
unfolding closure_problems
closure_problems-eq-nil comps h n d m = elim (Option-cases (lookup n comps)) [
  | inl absent ↦ absurd (rw (absent, deps_of) at m)
  | inr (c, found) ↦
      closure_from_none comps (by_name comps) h n c
        ((In-sorted_by (λ (e : String × Component). e.0) (n, c) comps).1
          (lookup-In_pair comps n c found))
        d (rw (found, deps_of) at m)
]

pub IsClosed-closure_problems :
    (comps : Components) → IsDict comps → IsClosed comps → closure_problems comps ≡ []
unfolding closure_problems
IsClosed-closure_problems comps dict closed = closure_from_closed comps (by_name comps) λ n d c m i.
    let found =
      lookup_of_IsDict comps dict n c
        ((In-sorted_by (λ (e : String × Component). e.0) (n, c) comps).0 m) in
    closed n d (rw (found, deps_of) i)
