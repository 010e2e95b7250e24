-- ===== src/Deadlock/Components/Marking.antt =====
-- The dicts of `sccs_of` of hack/validate-readiness-deadlock.py, and the nodes that it has not seen.
use krateo_openstack_bluepri.Prelude.{
  ℕ, suc, ◌≤◌, Bool, true, false, Bool-cases, ◌≡◌, ◌≢◌, refl, sym, ◌∙◌, subst, arith, inl, inr,
  none, some, Option-cases, false_true, List, [], ◌∷◌, In, length, map, keep,
}
use krateo_openstack_bluepri.Deadlock.{Node, node_eq, node_eq_iff}
use krateo_openstack_bluepri.Deadlock.Waits.{Wait}
use krateo_openstack_bluepri.Deadlock.Components.{
  Numbers, number_of, set_number, member, distinct_nodes,
}

-- The dict has the key.
abbrev pub Has : Numbers → Node → Type 0
Has ns n = (k : ℕ) × (number_of ns n ≡ some k)

node_apart : (m n : Node) → m ≢ n → node_eq m n ≡ false
node_apart m n apart = elim (Bool-cases (node_eq m n)) [
  | inl same ↦ absurd (apart ((node_eq_iff m n).0 same))
  | inr other ↦ other
]

pub number-set_same : (n : Node) (k : ℕ) (ns : Numbers) → number_of (set_number n k ns) n ≡ some k
unfolding number_of set_number
number-set_same n k [] = rw ((node_eq_iff n n).1 refl) refl
number-set_same n k ((m, l) ∷ ns) = elim (Bool-cases (node_eq m n)) [
  | inl same ↦ rw (same, number_of, (node_eq_iff n n).1 refl) refl
  | inr apart ↦ rw (apart, number_of, apart) (number-set_same n k ns)
]

pub number-set_other :
    (n m : Node) (k : ℕ) (ns : Numbers) → n ≢ m → number_of (set_number n k ns) m ≡ number_of ns m
unfolding number_of set_number
number-set_other n m k [] apart = rw (node_apart n m apart) refl
number-set_other n m k ((x, l) ∷ ns) apart = elim (Bool-cases (node_eq x n)) [
  | inl same ↦
      let x_m : node_eq x m ≡ false =
        node_apart x m (λ e. apart (sym ((node_eq_iff x n).0 same) ∙ e)) in
      rw (same, number_of, node_apart n m apart, x_m) refl
  | inr other ↦ elim (Bool-cases (node_eq x m)) [
    | inl here ↦ rw (other, number_of, here) refl
    | inr there ↦ rw (other, number_of, there) (number-set_other n m k ns apart)
  ]
]

pub set-Has : (n m : Node) (k : ℕ) (ns : Numbers) → Has ns m → Has (set_number n k ns) m
set-Has n m k ns (l, h) = elim (Bool-cases (node_eq n m)) [
  | inl same ↦ (
    k,
    subst (λ x. number_of (set_number n k ns) x ≡ some k) ((node_eq_iff n m).0 same)
        (number-set_same n k ns),
  )
  | inr apart ↦
      (l, number-set_other n m k ns (λ e. false_true (sym apart ∙ (node_eq_iff n m).1 e)) ∙ h)
]

-- How many of the nodes are not seen yet
unfoldable pub unseen : List Node → Numbers → ℕ
unfolding number_of
unseen [] ns = 0
unseen (n ∷ nodes) ns =
    let rest = unseen nodes ns in elim (number_of ns n) [ none ↦ suc rest | some k ↦ rest ]

pub unseen_le : (nodes : List Node) (ns : Numbers) → unseen nodes ns ≤ length nodes
unfolding unseen
unseen_le [] ns = omega arith
unseen_le (n ∷ nodes) ns = elim (Option-cases (number_of ns n)) [
  | inl new ↦ rw (new, unseen) (omega (arith, unseen_le nodes ns))
  | inr (k, old) ↦ rw (old, unseen) (omega (arith, unseen_le nodes ns))
]

pub unseen-set_le :
    (nodes : List Node) (n : Node) (k : ℕ) (ns : Numbers)
    → unseen nodes (set_number n k ns) ≤ unseen nodes ns
unfolding unseen
unseen-set_le [] n k ns = omega arith
unseen-set_le (m ∷ nodes) n k ns = elim (Option-cases (number_of ns m)) [
  | inr (l, old) ↦
      let (l', kept) = set-Has n m k ns (l, old) in
      rw (old, kept, unseen) (unseen-set_le nodes n k ns)
  | inl new ↦ elim (Option-cases (number_of (set_number n k ns) m)) [
    | inl still ↦ rw (new, still, unseen) (omega (arith, unseen-set_le nodes n k ns))
    | inr (l, now) ↦ rw (new, now, unseen) (omega (arith, unseen-set_le nodes n k ns))
  ]
]

pub unseen-enter :
    (nodes : List Node) (n : Node) (k : ℕ) (ns : Numbers)
    → In n nodes
    → number_of ns n ≡ none
    → suc (unseen nodes (set_number n k ns)) ≤ unseen nodes ns
unfolding unseen
unseen-enter [] n k ns m new = absurd m
unseen-enter (x ∷ nodes) n k ns (inl e) new =
    let was : number_of ns x ≡ none = subst (λ y. number_of ns y ≡ none) e new in
    let now : number_of (set_number n k ns) x ≡ some k =
      subst (λ y. number_of (set_number n k ns) y ≡ some k) e (number-set_same n k ns) in
    rw (was, now, unseen) (omega (arith, unseen-set_le nodes n k ns))
unseen-enter (x ∷ nodes) n k ns (inr later) new = elim (Option-cases (number_of ns x)) [
  | inr (l, old) ↦
      let (l', kept) = set-Has n x k ns (l, old) in
      rw (old, kept, unseen) (unseen-enter nodes n k ns later new)
  | inl fresh ↦ elim (Option-cases (number_of (set_number n k ns) x)) [
    | inl still ↦ rw (fresh, still, unseen) (omega (arith, unseen-enter nodes n k ns later new))
    | inr (l, now) ↦ rw (fresh, now, unseen) (omega (arith, unseen-enter nodes n k ns later new))
  ]
]

pub member-In : (n : Node) (ns : List Node) → member ns n ≡ true → In n ns
member-In n [] h = false_true h
member-In n (m ∷ ns) h = elim (Bool-cases (node_eq m n)) [
  | inl same ↦ inl (sym ((node_eq_iff m n).0 same))
  | inr apart ↦ inr (member-In n ns (rw apart at h))
]

pub In-distinct : (n : Node) (ns : List Node) → In n ns → In n (distinct_nodes ns)
In-distinct n [] h = absurd h
In-distinct n (m ∷ ns) h = elim (Bool-cases (member (distinct_nodes ns) m)) [
  | inl twice ↦ rw twice (elim h [
    | inl e ↦ subst (λ x. In x (distinct_nodes ns)) (sym e) (member-In m (distinct_nodes ns) twice)
    | inr later ↦ In-distinct n ns later
  ])
  | inr once ↦ rw once (elim h [ inl e ↦ inl e | inr later ↦ inr (In-distinct n ns later) ])
]

pub In-keep_on :
    (p : Wait → Bool) (c : Node) (graph : List Wait)
    → In c (map (λ (e : Wait). e.on) (keep p graph))
    → In c (map (λ (e : Wait). e.on) graph)
In-keep_on p c [] m = m
In-keep_on p c (e ∷ graph) m = elim (Bool-cases (p e)) [
  | inr dropped ↦ inr (In-keep_on p c graph (rw dropped at m))
  | inl kept ↦ elim (rw kept at m) [
    | inl here ↦ inl here
    | inr later ↦ inr (In-keep_on p c graph later)
  ]
]
