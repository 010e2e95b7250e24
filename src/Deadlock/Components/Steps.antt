-- ===== src/Deadlock/Components/Steps.antt =====
-- The steps of `sccs_of` of hack/validate-readiness-deadlock.py miss no key.
use krateo_openstack_bluepri.Prelude.{
  ℕ, Bool-cases, ◌≡◌, ◌≢◌, refl, sym, ◌∙◌, subst, ◌⊎◌, inl, inr, Option, none, some, Option-cases,
  false_true, List, [], ◌∷◌, In, length,
}
use krateo_openstack_bluepri.Deadlock.{Node, node_eq, node_eq_iff}
use krateo_openstack_bluepri.Deadlock.Components.{
  Numbers, number_of, set_number, Marks, member, enter, min, lower, Descent, descend, Work,
}
use krateo_openstack_bluepri.Deadlock.Components.Marking.{
  Has, number-set_same, number-set_other, set-Has,
}

-- Each node with an index has a low number, and the nodes on the stack have an index.
pub record Sound (s : Marks) : Type 0 where
  pub lows : (n : Node) → Has s.index n → Has s.low n
  pub indexed : (n : Node) → In n s.stack → Has s.index n

-- The nodes under way lie on the stack, in this order.
unfoldable pub Stacked : Work → List Node → Type 0
Stacked [] stack = Unit
Stacked (w ∷ work) [] = ⊥
Stacked (w ∷ work) (n ∷ stack) = ((w.0 ≡ n) × Stacked work stack) ⊎ Stacked (w ∷ work) stack

pub Stacked-In :
    (w : Node × List Node) (work : Work) (stack : List Node)
    → Stacked (w ∷ work) stack
    → In w.0 stack
unfolding Stacked
Stacked-In w work [] h = absurd h
Stacked-In w work (n ∷ stack) (inl (e, h)) = inl e
Stacked-In w work (n ∷ stack) (inr h) = inr (Stacked-In w work stack h)

pub Stacked-tail :
    (w : Node × List Node) (work : Work) (stack : List Node)
    → Stacked (w ∷ work) stack
    → Stacked work stack
unfolding Stacked
Stacked-tail w [] stack h = tt
Stacked-tail w (v ∷ work) [] h = absurd h
Stacked-tail w (v ∷ work) (n ∷ stack) (inl (e, h)) = inr h
Stacked-tail w (v ∷ work) (n ∷ stack) (inr h) = inr (Stacked-tail w (v ∷ work) stack h)

pub Stacked-push :
    (n : Node) (work : Work) (stack : List Node) → Stacked work stack → Stacked work (n ∷ stack)
unfolding Stacked
Stacked-push n [] stack h = tt
Stacked-push n (w ∷ work) stack h = inr h

pub enter-Sound : (n : Node) (s : Marks) → Sound s → Sound (enter n s)
unfolding enter
enter-Sound n s ok = record {
  lows = λ m h. elim (Bool-cases (node_eq n m)) [
    | inl same ↦ (
      length s.index,
      subst (λ x. number_of (set_number n (length s.index) s.low) x ≡ some (length s.index))
          ((node_eq_iff n m).0 same) (number-set_same n (length s.index) s.low),
    )
    | inr apart ↦
        let other : n ≢ m = λ e. false_true (sym apart ∙ (node_eq_iff n m).1 e) in
        let (k, at) = h in
        set-Has n m (length s.index) s.low
          (ok.lows m (k, sym (number-set_other n m (length s.index) s.index other) ∙ at))
  ];
  indexed = λ m h. elim h [
    | inl e ↦ (
      length s.index,
      subst (λ x. number_of (set_number n (length s.index) s.index) x ≡ some (length s.index))
          (sym e) (number-set_same n (length s.index) s.index),
    )
    | inr later ↦ set-Has n m (length s.index) s.index (ok.indexed m later)
  ];
}

-- A step that changes low numbers only, and keeps the old keys
pub record Relowered (s t : Marks) : Type 0 where
  pub same_index : t.index ≡ s.index
  pub same_stack : t.stack ≡ s.stack
  pub sound : Sound t

pub lower-Relowered :
    (n : Node) (k : ℕ) (s : Marks)
    → Sound s
    → Has s.index n
    → (t : Marks) × ((lower n k s ≡ some t) × Relowered s t)
unfolding lower
lower-Relowered n k s ok here =
    let (l, at) = ok.lows n here in
    (
      record s { low = set_number n (min l k) s.low },
      (
        rw (at, lower) refl,
        record {
          same_index = refl;
          same_stack = refl;
          sound = record {
            lows = λ m h. set-Has n m (min l k) s.low (ok.lows m h);
            indexed = ok.indexed;
          };
        },
      ),
    )

pub then_Relowered : (s t u : Marks) → Relowered s t → Relowered t u → Relowered s u
then_Relowered s t u f g = record {
  same_index = g.same_index ∙ f.same_index;
  same_stack = g.same_stack ∙ f.same_stack;
  sound = g.sound;
}

-- What the loop over the children leaves
unfoldable pub Descended : Marks → List Node → Option (Node × List Node) → Marks → Type 0
Descended s cs none t = Relowered s t
Descended s cs (some (c, rest)) t =
    (u : Marks) × (Relowered s u
      × ((number_of s.index c ≡ none)
          × ((t ≡ enter c u) × (In c cs × ((x : Node) → In x rest → In x cs)))))

pub Descended-later :
    (s t : Marks) (c : Node) (cs : List Node) (child : Option (Node × List Node)) (u : Marks)
    → Relowered s t
    → Descended t cs child u
    → Descended s (c ∷ cs) child u
unfolding Descended
Descended-later s t c cs none u f g = then_Relowered s t u f g
Descended-later s t c cs (some (d, rest)) u f (v, (g, (new, (e, (m, below))))) = (
  v,
  (
    then_Relowered s t v f g,
    (
      subst (λ (i : Numbers). number_of i d ≡ none) f.same_index new,
      (e, (inr m, λ x h. inr (below x h))),
    ),
  ),
)

pub descend-Descended :
    (node : Node) (cs : List Node) (s : Marks)
    → Sound s
    → Has s.index node
    → (d : Descent) × ((descend node cs s ≡ some d) × Descended s cs d.child d.marks)
unfolding descend Descended
descend-Descended node [] s ok here = (
  record { child = none; marks = s },
  (refl, record { same_index = refl; same_stack = refl; sound = ok }),
)
descend-Descended node (c ∷ cs) s ok here = elim (Option-cases (number_of s.index c)) [
  | inl new ↦ (
    record { child = some (c, cs); marks = enter c s },
    (
      rw (new, descend) refl,
      (
        s,
        (
          record { same_index = refl; same_stack = refl; sound = ok },
          (new, (refl, (inl refl, λ x h. inr h))),
        ),
      ),
    ),
  )
  | inr (i, old) ↦ elim (Bool-cases (member s.on_stack c)) [
    | inr off ↦
        let (d, (e, g)) = descend-Descended node cs s ok here in
        (
          d,
          (
            rw (old, descend, off) e,
            Descended-later s s c cs d.child d.marks
                (record { same_index = refl; same_stack = refl; sound = ok }) g,
          ),
        )
    | inl on ↦
        let (t, (e, f)) = lower-Relowered node i s ok here in
        let here' = subst (λ (ns : Numbers). Has ns node) (sym f.same_index) here in
        let (d, (e', g)) = descend-Descended node cs t f.sound here' in
        (d, (rw (old, descend, on, e) e', Descended-later s t c cs d.child d.marks f g))
  ]
]
