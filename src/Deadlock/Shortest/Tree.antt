-- ===== src/Deadlock/Shortest/Tree.antt =====
-- The entries of `prev` form a tree of steps below `start`, which `trace` climbs.
use krateo_openstack_bluepri.Prelude.{
  ℕ, zero, suc, ◌≤◌, ◌<◌, ◌≡◌, sym, ap, ◌∙◌, subst, arith, true, false, Bool-cases, ◌⊎◌, inl, inr,
  some, List, [], ◌∷◌, ◌++◌, In, length, if◌then◌else◌, false_true,
}
use krateo_openstack_bluepri.Deadlock.{Node, node_eq, node_eq_iff}
use krateo_openstack_bluepri.Deadlock.Shortest.{Previous, seen, before, is_in, trace}

-- How far an entry stands from the end of the list.
abbrev depth : Previous → Node → ℕ
depth [] n = 0
depth ((c, p) ∷ prev) n = if node_eq c n then suc (length prev) else depth prev n

depth-le : (prev : Previous) (n : Node) → depth prev n ≤ length prev
depth-le [] n = omega arith
depth-le ((c, p) ∷ prev) n = ground (arith, depth-le prev n)

depth_pos : (prev : Previous) (n : Node) → seen prev n ≡ true → 0 < depth prev n
unfolding seen
depth_pos [] n h = cc
depth_pos ((c, p) ∷ prev) n h = ground (arith, depth_pos prev n)

module _ (next : Node → List Node) (members : List Node) where
  -- A child that the search goes on to.
  abbrev pub Step : Node → Node → Type 0
  Step a b = In b (next a) × (is_in members b ≡ true)

  abbrev pub LinkedFrom : Node → List Node → Type 0
  LinkedFrom a [] = Unit
  LinkedFrom a (b ∷ l) = Step a b × LinkedFrom b l

  -- Each node of the list leads to the one behind it.
  abbrev pub Linked : List Node → Type 0
  Linked [] = Unit
  Linked (a ∷ l) = LinkedFrom a l

  module _ (start : Node) where
    abbrev pub Reached : Previous → Node → Type 0
    Reached prev n = (n ≡ start) ⊎ (seen prev n ≡ true)

    abbrev pub Tree : Previous → Type 0
    Tree [] = Unit
    Tree ((c, p) ∷ prev) =
        (seen prev c ≡ false) × (node_eq c start ≡ false) × Step p c × Reached prev p × Tree prev

    -- A path that starts and ends in `start`, by way of steps.
    abbrev pub Circuit : List Node → Type 0
    Circuit path = (l : List Node) × (path ≡ start ∷ (l ++ start ∷ [])) × Linked path

    -- The entry of a node, and where the node before it stands.
    climb :
        (prev : Previous) (n : Node)
        → Tree prev
        → seen prev n ≡ true
        → (p : Node) × (before prev n ≡ some p)
          × Step p n
          × ((p ≡ start) ⊎ ((seen prev p ≡ true) × (depth prev p < depth prev n)))
    unfolding seen before
    climb [] n tree h = cc
    climb ((c, p) ∷ prev) n (fresh, _, step, above, tree) h = elim (Bool-cases (node_eq c n)) [
      | inl same ↦ (
        p,
        rw same,
        subst (λ (x : Node). Step p x) ((node_eq_iff c n).0 same) step,
        elim above [
          | inl root ↦ inl root
          | inr up ↦ elim (Bool-cases (node_eq c p)) [
            | inl loop ↦ false_true (
                sym fresh
                ∙ subst (λ (x : Node). seen prev x ≡ true) (sym ((node_eq_iff c p).0 loop)) up)
            | inr other ↦ inr (ground arith, ground (arith, depth-le prev p))
          ]
        ],
      )
      | inr other ↦
          let (q, found, step', up) = climb prev n tree (rw other at h) in
          (
            q,
            rw other found,
            step',
            elim up [
              | inl root ↦ inl root
              | inr (known, lower) ↦ elim (Bool-cases (node_eq c q)) [
                | inl loop ↦ false_true (
                    sym fresh
                    ∙ subst (λ (x : Node). seen prev x ≡ true) (sym ((node_eq_iff c q).0 loop))
                        known)
                | inr apart ↦ inr (ground arith, ground arith)
              ]
            ],
          )
    ]

    -- With this much fuel `trace` comes from the node to `start`.
    abbrev Within : ℕ → Previous → Node → Type 0
    Within fuel prev n = ((n ≡ start) × (0 < fuel)) ⊎ ((seen prev n ≡ true) × (depth prev n < fuel))

    pub Reached-Within :
        (prev : Previous) (n : Node) → Reached prev n → Within (suc (length prev)) prev n
    Reached-Within prev n (inl root) = inl (root, omega arith)
    Reached-Within prev n (inr known) = inr (known, omega (arith, depth-le prev n))

    pub trace-Circuit :
        (fuel : ℕ) (prev : Previous) (n : Node) (l : List Node)
        → Tree prev
        → Within fuel prev n
        → Linked (n ∷ (l ++ start ∷ []))
        → (path : List Node) × (trace next members start fuel prev n (l ++ start ∷ []) ≡ some path)
          × Circuit path
    unfolding trace
    trace-Circuit zero prev n l tree (inl (root, lt)) linked = absurd (omega arith)
    trace-Circuit zero prev n l tree (inr (known, lt)) linked = absurd (omega arith)
    trace-Circuit (suc fuel) prev n l tree r linked = elim (Bool-cases (node_eq n start)) [
      | inl root ↦ (
        n ∷ (l ++ start ∷ []),
        rw (root, trace),
        (l, ap (λ (x : Node). x ∷ (l ++ start ∷ [])) ((node_eq_iff n start).0 root), linked),
      )
      | inr below ↦
          let (known, lt) : (seen prev n ≡ true) × (depth prev n < suc fuel) = elim r [
            | inl (root, _) ↦ false_true (sym below ∙ (node_eq_iff n start).1 root)
            | inr k ↦ k
          ] in
          let (p, found, step, up) = climb prev n tree known in
          let within : Within fuel prev p = elim up [
            | inl root ↦ inl (root, omega (arith, depth_pos prev n known))
            | inr (there, lower) ↦ inr (there, omega arith)
          ] in
          let (path, traced, circuit) =
            trace-Circuit fuel prev p (n ∷ l) tree within (step, linked) in
          (path, rw (below, trace) (rw found traced), circuit)
    ]
