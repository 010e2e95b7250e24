-- ===== src/Deadlock/Components/Leaving.antt =====
-- Tarjan's search in hack/validate-readiness-deadlock.py keeps its marks in order: leaving a node that is
-- no root.
use mathlib.Core.List.{append_assoc}
use krateo_openstack_bluepri.Prelude.{
  ℕ, ◌≤◌, false, ◌≡◌, ◌≢◌, refl, sym, ap, ◌∙◌, subst, arith, inl, inr, some, some_inj, List, [],
  ◌∷◌, ◌++◌, In, In-append_right, In-append_cases, eqb,
}
use krateo_openstack_bluepri.Deadlock.{Node}
use krateo_openstack_bluepri.Deadlock.Components.{
  Numbers, set_number, Marks, min, lower, Work, lower_parent,
}
use krateo_openstack_bluepri.Deadlock.Components.Marking.{number-set_same, number-set_other}
use krateo_openstack_bluepri.Deadlock.Components.Laid.{
  At, Falling, Falling-tail, Falling-under, Falling-under_apart, Bounded, Segment, Laid, Rooted,
}
use krateo_openstack_bluepri.Deadlock.Components.Tidy.{Tidy}
use krateo_openstack_bluepri.Deadlock.Components.Lowering.{lower-Laid, min_right}

pub Rooted-tail :
    (ix : Numbers) (base : ℕ) (w : Node × List Node) (work : Work)
    → Rooted ix base (w ∷ work)
    → Rooted ix base work
unfolding Rooted
Rooted-tail ix base w [] h = tt
Rooted-tail ix base w (v ∷ work) h = h

module _ (next : Node → List Node) (base : ℕ) where
  -- The parent's low number is no larger.
  unfoldable pub Under : Work → Marks → ℕ → Type 0
  Under [] s l = Unit
  Under ((v, cs) ∷ work) s l = (k : ℕ) × (At s.low v k × (k ≤ l))

  pub lower_parent-Tidy :
      (w : Node) (work : Work) (s t : Marks)
      → Tidy next base ((w, []) ∷ work) s
      → lower_parent work w s ≡ some t
      → Tidy next base ((w, []) ∷ work) t × ((l : ℕ) → At t.low w l → Under work t l)
  unfolding lower_parent lower Laid Under
  lower_parent-Tidy w [] s t f h =
      (subst (Tidy next base ((w, []) ∷ [])) (some_inj h) f, λ l at. tt)
  lower_parent-Tidy w ((v, cs) ∷ work) s t f h =
      let (p, (q, rest)) = f.laid in
      let mow = set_number v (min q.lo p.lo) s.low in
      let step : some (record s { low = mow }) ≡ some t =
        rw (p.low_at, q.low_at, lower_parent, lower) at h in
      let falls =
        Falling-under s.index p.seg w p.below (subst (Falling s.index) p.shape f.core.falling) in
      let v_below : In v p.below =
        subst (In v) (sym q.shape) (In-append_right v q.seg (v ∷ q.below) (inl refl)) in
      let apart : v ≢ w = λ e. Falling-under_apart s.index w p.below falls v v_below (sym e) in
      let w_low = number-set_other v w (min q.lo p.lo) s.low apart ∙ p.low_at in
      let lowered =
        lower-Laid next base s.index s.low s.out (v, cs) work p.below q.lo p.lo
          (Falling-tail s.index w p.below falls) (q, rest) q.low_at p.base_le in
      let tidy : Tidy next base ((w, []) ∷ (v, cs) ∷ work) (record s { low = mow }) = record {
        core = record {
          falling = f.core.falling;
          floor = f.core.floor;
          placed = f.core.placed;
          marked = f.core.marked;
          counted = f.core.counted;
          ordered = f.core.ordered;
        };
        laid = (
          record {
            seg = p.seg;
            below = p.below;
            lo = p.lo;
            i = p.i;
            shape = p.shape;
            low_at = w_low;
            index_at = p.index_at;
            lo_le = p.lo_le;
            base_le = p.base_le;
            over = p.over;
            own = p.own;
          },
          lowered,
        );
        rooted = f.rooted;
      } in
      let bound : (l : ℕ) → At mow w l → (k : ℕ) × (At mow v k × (k ≤ l)) = λ l at. (
        min q.lo p.lo,
        (
          number-set_same v (min q.lo p.lo) s.low,
          omega (arith, min_right q.lo p.lo, some_inj (sym w_low ∙ at)),
        ),
      ) in
      subst
        (λ (x : Marks).
          Tidy next base ((w, []) ∷ (v, cs) ∷ work) x
          × ((l : ℕ) → At x.low w l → (k : ℕ) × (At x.low v k × (k ≤ l))))
        (some_inj step) (tidy, bound)

  -- A node that is not the root of a component is left to its parent.
  pub leave-Tidy :
      (w : Node) (work : Work) (t : Marks)
      → Tidy next base ((w, []) ∷ work) t
      → ((l : ℕ) → At t.low w l → Under work t l)
      → (p : Segment next t.index t.low t.out base w [] t.stack) → eqb p.lo p.i ≡ false
      → Laid next t.index t.low t.out base work p.below
      → Tidy next base work t
  unfolding Laid Under Rooted
  leave-Tidy w [] t f under p other h =
      let at_base = some_inj (sym p.index_at ∙ f.rooted) in
      absurd (ground (arith, p.lo_le, p.base_le))
  leave-Tidy w ((v, cs) ∷ work) t f under p other (q, h) =
      let (k, (at, le)) = under p.lo p.low_at in
      let less : q.lo ≤ p.lo = omega (arith, le, some_inj (sym at ∙ q.low_at)) in
      let weaker : (c : Node)
          → Bounded next t.index t.out p.lo c
          → Bounded next t.index t.out q.lo c =
        λ c (j, (e, ok)).
          (j, (e, elim ok [ inl l ↦ inl (omega (arith, l, less)) | inr o ↦ inr o ])) in
      record {
        core = f.core;
        laid = (
          record {
            seg = p.seg ++ w ∷ q.seg;
            below = q.below;
            lo = q.lo;
            i = q.i;
            shape =
                p.shape
                ∙ ap (λ b. p.seg ++ w ∷ b) q.shape
                ∙ sym (append_assoc p.seg (w ∷ q.seg) (v ∷ q.below));
            low_at = q.low_at;
            index_at = q.index_at;
            lo_le = q.lo_le;
            base_le = q.base_le;
            over = λ n m c e. elim (In-append_cases n p.seg (w ∷ q.seg) m) [
              | inl i ↦ weaker c (p.over n i c e)
              | inr (inl i) ↦ elim (p.own c (subst (λ x. In c (next x)) i e)) [
                | inl none_left ↦ absurd none_left
                | inr b ↦ weaker c b
              ]
              | inr (inr i) ↦ q.over n i c e
            ];
            own = q.own;
          },
          h,
        );
        rooted = Rooted-tail t.index base (w, []) ((v, cs) ∷ work) f.rooted;
      }
