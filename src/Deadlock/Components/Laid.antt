-- ===== src/Deadlock/Components/Laid.antt =====
-- The state of Tarjan's search in hack/validate-readiness-deadlock.py: how the nodes under way divide
-- the stack, and what is known of the edges that were looked at.
use krateo_openstack_bluepri.Prelude.{
  ℕ, ◌≤◌, ◌<◌, ◌≡◌, ◌≢◌, refl, sym, ◌∙◌, subst, arith, ◌⊎◌, inl, inr, some, some_inj, List, [], ◌∷◌,
  ◌++◌, In, In-append_right,
}
use krateo_openstack_bluepri.Deadlock.{Node}
use krateo_openstack_bluepri.Deadlock.Components.{Numbers, number_of, Work}

abbrev pub At : Numbers → Node → ℕ → Type 0
At ix n k = number_of ix n ≡ some k

-- The node is in one of the components.
unfoldable pub Out : List (List Node) → Node → Type 0
Out [] n = ⊥
Out (scc ∷ sccs) n = In n scc ⊎ Out sccs n

pub Out-snoc_left :
    (sccs : List (List Node)) (scc : List Node) (n : Node) → Out sccs n → Out (sccs ++ scc ∷ []) n
unfolding Out
Out-snoc_left [] scc n h = absurd h
Out-snoc_left (x ∷ sccs) scc n (inl h) = inl h
Out-snoc_left (x ∷ sccs) scc n (inr h) = inr (Out-snoc_left sccs scc n h)

pub Out-snoc_right :
    (sccs : List (List Node)) (scc : List Node) (n : Node) → In n scc → Out (sccs ++ scc ∷ []) n
unfolding Out
Out-snoc_right [] scc n h = inl h
Out-snoc_right (x ∷ sccs) scc n h = inr (Out-snoc_right sccs scc n h)

-- The numbers on the stack fall from the top.
unfoldable pub Falling : Numbers → List Node → Type 0
Falling ix [] = Unit
Falling ix (n ∷ stack) =
    ((k : ℕ) × (At ix n k × ((m : Node) → In m stack → (j : ℕ) → At ix m j → j < k)))
    × Falling ix stack

pub Falling-At :
    (iz : Numbers) (st : List Node) → Falling iz st → (m : Node) → In m st → (l : ℕ) × At iz m l
unfolding Falling
Falling-At iz [] f m i = absurd i
Falling-At iz (x ∷ st) ((l, (a, b)), f) m (inl e) = (l, subst (λ y. At iz y l) (sym e) a)
Falling-At iz (x ∷ st) ((l, (a, b)), f) m (inr i) = Falling-At iz st f m i

pub Falling-ext :
    (ix iy : Numbers)
    → ((n : Node) (k : ℕ) → At ix n k → At iy n k)
    → (stack : List Node) → Falling ix stack
    → Falling iy stack
unfolding Falling
Falling-ext ix iy ext [] h = tt
Falling-ext ix iy ext (n ∷ stack) ((k, (at, below)), h) = (
  (
    k,
    (
      ext n k at,
      λ m i j e.
          let (l, was) = Falling-At ix stack h m i in
          let same : l ≡ j = some_inj (sym (ext m l was) ∙ e) in
          subst (λ x. x < k) same (below m i l was),
    ),
  ),
  Falling-ext ix iy ext stack h,
)

-- What lies under the top part falls too, and has smaller numbers.
pub Falling-under :
    (ix : Numbers) (seg : List Node) (w : Node) (below : List Node)
    → Falling ix (seg ++ w ∷ below)
    → Falling ix (w ∷ below)
unfolding Falling
Falling-under ix [] w below h = h
Falling-under ix (n ∷ seg) w below (here, h) = Falling-under ix seg w below h

pub Falling-tail :
    (ix : Numbers) (n : Node) (stack : List Node) → Falling ix (n ∷ stack) → Falling ix stack
unfolding Falling
Falling-tail ix n stack h = h.1

pub Falling-under_apart :
    (ix : Numbers) (w : Node) (below : List Node)
    → Falling ix (w ∷ below)
    → (n : Node) → In n below
    → w ≢ n
unfolding Falling
Falling-under_apart ix w below ((k, (at, under)), h) n m e =
    omega (arith, under n m k (subst (λ x. At ix x k) e at))

pub Falling-over :
    (ix : Numbers) (seg : List Node) (w : Node) (below : List Node)
    → Falling ix (seg ++ w ∷ below)
    → (m : Node) → In m seg
    → (b : Node) → In b (w ∷ below)
    → m ≢ b
unfolding Falling
Falling-over ix [] w below h m i b j e = i
Falling-over ix (n ∷ seg) w below ((k, (at, under)), h) m (inl e) b j same =
    let at_b : At ix b k = subst (λ x. At ix x k) (sym e ∙ same) at in
    omega (arith, under b (In-append_right b seg (w ∷ below) j) k at_b)
Falling-over ix (n ∷ seg) w below (here, h) m (inr i) b j same =
    Falling-over ix seg w below h m i b j same

-- The first node under way has the smallest number of the search.
unfoldable pub Rooted : Numbers → ℕ → Work → Type 0
Rooted ix base [] = Unit
Rooted ix base (w ∷ []) = At ix w.0 base
Rooted ix base (w ∷ v ∷ work) = Rooted ix base (v ∷ work)

module _ (next : Node → List Node) where
  -- The node is out already, or its number is no smaller than the bound.
  abbrev pub Bounded : Numbers → List (List Node) → ℕ → Node → Type 0
  Bounded ix out lo c = (k : ℕ) × (At ix c k × ((lo ≤ k) ⊎ Out out c))

  -- One node under way with the nodes of the stack over it that it was left for
  pub record Segment (ix low : Numbers) (out : List (List Node)) (base : ℕ) (w : Node)
      (rest stack : List Node) : Type 0 where
    pub seg : List Node
    pub below : List Node
    pub lo : ℕ
    pub i : ℕ
    pub shape : stack ≡ seg ++ w ∷ below
    pub low_at : At low w lo
    pub index_at : At ix w i
    pub lo_le : lo ≤ i
    pub base_le : base ≤ lo
    pub over : (n : Node) → In n seg → (c : Node) → In c (next n) → Bounded ix out lo c
    pub own : (c : Node) → In c (next w) → In c rest ⊎ Bounded ix out lo c

  unfoldable pub Laid : Numbers → Numbers → List (List Node) → ℕ → Work → List Node → Type 0
  Laid ix low out base [] stack = stack ≡ []
  Laid ix low out base (w ∷ work) stack =
      (p : Segment ix low out base w.0 w.1 stack) × Laid ix low out base work p.below

  pub Laid-change :
      (ix iy low mow : Numbers) (out put : List (List Node)) (base : ℕ) (work : Work)
      (stack : List Node)
      → ((n : Node) (k : ℕ) → At ix n k → At iy n k)
      → ((n : Node) (k : ℕ) → In n stack → At low n k → At mow n k)
      → ((n : Node) → Out out n → Out put n)
      → Laid ix low out base work stack
      → Laid iy mow put base work stack
  unfolding Laid
  Laid-change ix iy low mow out put base [] stack f g o h = h
  Laid-change ix iy low mow out put base (w ∷ work) stack f g o (p, h) =
      let bounded : (c : Node) → Bounded ix out p.lo c → Bounded iy put p.lo c = λ c (k, (at, ok)).
        (k, (f c k at, elim ok [ inl le ↦ inl le | inr there ↦ inr (o c there) ])) in
      let on : In w.0 stack =
        subst (In w.0) (sym p.shape) (In-append_right w.0 p.seg (w.0 ∷ p.below) (inl refl)) in
      let under : (n : Node) → In n p.below → In n stack =
        λ n m. subst (In n) (sym p.shape) (In-append_right n p.seg (w.0 ∷ p.below) (inr m)) in
      (
        record {
          seg = p.seg;
          below = p.below;
          lo = p.lo;
          i = p.i;
          shape = p.shape;
          low_at = g w.0 p.lo on p.low_at;
          index_at = f w.0 p.i p.index_at;
          lo_le = p.lo_le;
          base_le = p.base_le;
          over = λ n m c e. bounded c (p.over n m c e);
          own = λ c e. elim (p.own c e) [ inl later ↦ inl later | inr b ↦ inr (bounded c b) ];
        },
        Laid-change ix iy low mow out put base work p.below f (λ n k m. g n k (under n m)) o h,
      )
