-- ===== src/Deadlock/Components/Search.antt =====
-- The whole of `sccs_of` in hack/validate-readiness-deadlock.py keeps its marks in order.
use krateo_openstack_bluepri.Prelude.{
  ℕ, zero, suc, Bool-cases, ◌≡◌, refl, sym, subst, arith, inl, inr, Option, none, some,
  Option-cases, some_inj, none_some, and_then-eq-some, List, [], ◌∷◌, ◌++◌, In, length, eqb,
}
use krateo_openstack_bluepri.Deadlock.{Node}
use krateo_openstack_bluepri.Deadlock.Components.{
  number_of, set_number, Marks, member, enter, min, lower, Descent, descend, pop_scc, pop_to,
  Popped, close, Work, lower_parent, connect, strongconnect, connect_all,
}
use krateo_openstack_bluepri.Deadlock.Components.Marking.{Has, set-Has, number-set_same}
use krateo_openstack_bluepri.Deadlock.Components.Laid.{Laid}
use krateo_openstack_bluepri.Deadlock.Components.Tidy.{Core, Tidy, enter-Tidy, enter_root-Tidy}
use krateo_openstack_bluepri.Deadlock.Components.Lowering.{skip-Tidy, child-Tidy}
use krateo_openstack_bluepri.Deadlock.Components.Popping.{close-Tidy}
use krateo_openstack_bluepri.Deadlock.Components.Leaving.{lower_parent-Tidy}

-- No node loses its number.
abbrev pub Keeps : Marks → Marks → Type 0
Keeps s t = (n : Node) → Has s.index n → Has t.index n

lower-Keeps : (n : Node) (k : ℕ) (s t : Marks) → lower n k s ≡ some t → Keeps s t
unfolding lower
lower-Keeps n k s t h m has =
    let (l, _, is) =
      and_then-eq-some (number_of s.low n)
        (λ (l : ℕ). some (record s { low = set_number n (min l k) s.low })) h in
    subst (λ (x : Marks). Has x.index m) (some_inj is) has

close-Keeps : (n : Node) (s t : Marks) → close n s ≡ some t → Keeps s t
unfolding close pop_scc
close-Keeps n s t h m has = elim (Option-cases (number_of s.low n)) [
  | inl low ↦ none_some (rw (low, close) at h)
  | inr (l, low) ↦ elim (Option-cases (number_of s.index n)) [
    | inl index ↦ none_some (rw (low, close, index) at h)
    | inr (i, index) ↦ elim (Bool-cases (eqb l i)) [
      | inr other ↦
          subst (λ (x : Marks). Has x.index m) (some_inj (rw (low, close, index, other) at h)) has
      | inl root ↦
          let popped : pop_scc n s ≡ some t = rw (low, close, index, root) at h in
          let (q, _, is) =
            and_then-eq-some (pop_to n s.stack s.on_stack [])
              (λ (q : Popped).
                some
                  (record s { stack = q.stack; on_stack = q.on_stack; out = s.out ++ q.scc ∷ [] }))
              popped in
          subst (λ (x : Marks). Has x.index m) (some_inj is) has
    ]
  ]
]

lower_parent-Keeps :
    (work : Work) (n : Node) (s t : Marks) → lower_parent work n s ≡ some t → Keeps s t
unfolding lower_parent
lower_parent-Keeps [] n s t h m has = subst (λ (x : Marks). Has x.index m) (some_inj h) has
lower_parent-Keeps ((v, cs) ∷ work) n s t h m has =
    let (l, _, is) = and_then-eq-some (number_of s.low n) (λ l. lower v l s) h in
    lower-Keeps v l s t is m has

module _ (next : Node → List Node) where
  module _ (base : ℕ) where
    -- Where the loop over the children stops
    Advanced : Node → Work → Option (Node × List Node) → Marks → Type 0
    Advanced n work none t = Tidy next base ((n, []) ∷ work) t
    Advanced n work (some (c, rest)) t = Tidy next base ((c, next c) ∷ (n, rest) ∷ work) t

    descend-Advanced :
        (n : Node) (cs : List Node) (work : Work) (s : Marks) (d : Descent)
        → Tidy next base ((n, cs) ∷ work) s
        → descend n cs s ≡ some d
        → Advanced n work d.child d.marks × Keeps s d.marks
    unfolding descend Advanced enter lower Laid
    descend-Advanced n [] work s d f h =
        subst (λ (x : Descent). Advanced n work x.child x.marks × Keeps s x.marks) (some_inj h)
          (f, λ m has. has)
    descend-Advanced n (c ∷ cs) work s d f h = elim (Option-cases (number_of s.index c)) [
      | inl new ↦
          subst (λ (x : Descent). Advanced n work x.child x.marks × Keeps s x.marks)
            (some_inj (rw (new, descend) at h))
            (
              enter-Tidy next base n c cs work s f new,
              λ m has. set-Has c m (length s.index) s.index has,
            )
      | inr (i, old) ↦ elim (Bool-cases (member s.on_stack c)) [
        | inr off ↦
            descend-Advanced n cs work s d (skip-Tidy next base n c cs work s i f old off)
              (rw (old, descend, off) at h)
        | inl on ↦
            let l = f.laid.0.lo in
            let t = record s { low = set_number n (min l i) s.low } in
            let low_at : number_of s.low n ≡ some l = f.laid.0.low_at in
            descend-Advanced n cs work t d (child-Tidy next base n c cs work s l i f old on low_at)
              (rw (old, descend, on, lower, low_at) at h)
      ]
    ]

    connect-Tidy :
        (fuel : ℕ) (work : Work) (s t : Marks)
        → Tidy next base work s
        → connect next fuel work s ≡ some t
        → Tidy next base [] t × Keeps s t
    unfolding connect Advanced
    connect-Tidy fuel [] s t f h =
        subst (λ (x : Marks). Tidy next base [] x × Keeps s x) (some_inj h) (f, λ m has. has)
    connect-Tidy zero (w ∷ work) s t f h = none_some h
    connect-Tidy (suc fuel) ((n, cs) ∷ work) s t f h = elim (Option-cases (descend n cs s)) [
      | inl stuck ↦ none_some (rw (stuck, connect) at h)
      | inr (d, e) ↦
          let (f', kept) = descend-Advanced n cs work s d f e in
          from d.child d.marks e f' kept (connect-Tidy fuel)
    ]
      where
        from :
            (child : Option (Node × List Node)) (m : Marks)
            → descend n cs s ≡ some (record { child = child; marks = m })
            → Advanced n work child m
            → Keeps s m
            → ((w : Work) (x y : Marks)
                → Tidy next base w x
                → connect next fuel w x ≡ some y
                → Tidy next base [] y × Keeps x y)
            → Tidy next base [] t × Keeps s t
        from (some (c, rest)) m e f' kept again =
            let (g, later) = again ((c, next c) ∷ (n, rest) ∷ work) m t f' (rw (e, connect) at h) in
            (g, λ x has. later x (kept x has))
        from none m e f' kept again = elim (Option-cases (lower_parent work n m)) [
          | inl stuck ↦ none_some (rw (e, connect, stuck) at h)
          | inr (x, e') ↦ elim (Option-cases (close n x)) [
            | inl stuck ↦ none_some (rw (e, connect, e', stuck) at h)
            | inr (y, e'') ↦
                let (g, under) = lower_parent-Tidy next base n work m x f' e' in
                let closed = close-Tidy next base n work x y g under e'' in
                let (last, later) = again work y t closed (rw (e, connect, e', e'') at h) in
                (
                  last,
                  λ z has.
                      later z
                        (close-Keeps n x y e'' z (lower_parent-Keeps work n m x e' z (kept z has))),
                )
          ]
        ]

  -- Between two searches the stack is empty.
  pub record Settled (s : Marks) : Type 0 where
    pub core : Core next 0 s
    pub empty : s.stack ≡ []

  pub connect_all-Settled :
      (fuel : ℕ) (roots : List Node) (s t : Marks)
      → Settled s
      → connect_all next fuel roots s ≡ some t
      → Settled t × (Keeps s t × ((n : Node) → In n roots → Has t.index n))
  unfolding connect_all strongconnect Laid enter
  connect_all-Settled fuel [] s t f h =
      subst (λ (x : Marks). Settled x × (Keeps s x × ((n : Node) → In n [] → Has x.index n)))
        (some_inj h) (f, (λ n has. has, λ n m. absurd m))
  connect_all-Settled fuel (r ∷ roots) s t f h = elim (Option-cases (number_of s.index r)) [
    | inr (i, old) ↦
        let (g, (kept, rest)) = connect_all-Settled fuel roots s t f (rw (old, connect_all) at h) in
        (
          g,
          (
            kept,
            λ n m. elim m [
              | inl e ↦ subst (Has t.index) (sym e) (kept r (i, old))
              | inr later ↦ rest n later
            ],
          ),
        )
    | inl new ↦ elim (Option-cases (strongconnect next fuel r s)) [
      | inl stuck ↦ none_some (rw (new, connect_all, stuck) at h)
      | inr (u, e) ↦
          let base = length s.index in
          let c = f.core in
          let core : Core next base s = record {
            falling = c.falling;
            floor = λ n m. absurd (subst (In n) f.empty m);
            placed = c.placed;
            marked = c.marked;
            counted = c.counted;
            ordered = c.ordered;
          } in
          let begun = enter_root-Tidy next base r s core f.empty new refl in
          let (over, entered) = connect-Tidy base fuel ((r, next r) ∷ []) (enter r s) u begun e in
          let c' = over.core in
          let settled : Settled u = record {
            core = record {
              falling = c'.falling;
              floor = λ n m k at. omega arith;
              placed = c'.placed;
              marked = c'.marked;
              counted = c'.counted;
              ordered = c'.ordered;
            };
            empty = over.laid;
          } in
          let (g, (kept, rest)) =
            connect_all-Settled fuel roots u t settled (rw (new, connect_all, e) at h) in
          (
            g,
            (
              λ n has. kept n (entered n (set-Has r n base s.index has)),
              λ n m. elim m [
                | inl same ↦ kept n (
                    entered n (
                      base,
                      subst (λ x. number_of (set_number r base s.index) x ≡ some base) (sym same)
                          (number-set_same r base s.index),
                    ))
                | inr later ↦ rest n later
              ],
            ),
          )
    ]
  ]
