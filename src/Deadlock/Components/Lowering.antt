-- ===== src/Deadlock/Components/Lowering.antt =====
-- Tarjan's search in hack/validate-readiness-deadlock.py keeps its marks in order: the children that were
-- seen before.
use krateo_openstack_bluepri.Prelude.{
  ℕ, ◌≤◌, true, false, ◌≡◌, ◌≢◌, sym, ◌∙◌, subst, arith, inl, inr, some_inj, false_true, List, ◌∷◌,
  In,
}
use krateo_openstack_bluepri.Deadlock.{Node}
use krateo_openstack_bluepri.Deadlock.Components.{Numbers, set_number, Marks, member, min, Work}
use krateo_openstack_bluepri.Deadlock.Components.Marking.{number-set_same, number-set_other}
use krateo_openstack_bluepri.Deadlock.Components.Laid.{
  At, Out, Falling, Falling-under, Falling-under_apart, Bounded, Laid, Laid-change,
}
use krateo_openstack_bluepri.Deadlock.Components.Tidy.{Tidy, own-next, Rooted-left}

pub min_left : (a b : ℕ) → min a b ≤ a
min_left a b = ground arith

pub min_right : (a b : ℕ) → min a b ≤ b
min_right a b = ground arith

module _ (next : Node → List Node) (base : ℕ) where
  -- A child that is out is passed over.
  pub skip-Tidy :
      (n c : Node) (cs : List Node) (work : Work) (s : Marks) (i : ℕ)
      → Tidy next base ((n, c ∷ cs) ∷ work) s
      → At s.index c i
      → member s.on_stack c ≡ false
      → Tidy next base ((n, cs) ∷ work) s
  skip-Tidy n c cs work s i t at off =
      let out : Out s.out c = elim (t.core.placed c i at) [
        | inl on ↦ false_true (sym off ∙ (t.core.marked c).0 on)
        | inr o ↦ o
      ] in
      record {
        core = t.core;
        laid =
            own-next next base s.index s.low s.out n c cs work s.stack
              (λ lo j a b le. (i, (at, inr out))) t.laid;
        rooted = Rooted-left next base s.index n (c ∷ cs) cs work t.rooted;
      }

  min_bound : (a b : ℕ) → base ≤ a → base ≤ b → base ≤ min a b
  min_bound a b h k = ground arith

  -- The low number of the innermost node under way is lowered.
  pub lower-Laid :
      (ix low : Numbers) (out : List (List Node)) (w : Node × List Node) (work : Work)
      (stack : List Node) (l k : ℕ)
      → Falling ix stack
      → Laid next ix low out base (w ∷ work) stack
      → At low w.0 l
      → base ≤ k
      → Laid next ix (set_number w.0 (min l k) low) out base (w ∷ work) stack
  unfolding Laid
  lower-Laid ix low out w work stack l k falls (p, h) at base_k =
      let same : p.lo ≡ l = some_inj (sym p.low_at ∙ at) in
      let lowered : min l k ≤ p.lo = omega (arith, same, min_left l k) in
      let bounded : (c : Node) → Bounded next ix out p.lo c → Bounded next ix out (min l k) c =
        λ c (j, (e, ok)).
          (j, (e, elim ok [ inl le ↦ inl (omega (arith, le, lowered)) | inr o ↦ inr o ])) in
      let falls' = Falling-under ix p.seg w.0 p.below (subst (Falling ix) p.shape falls) in
      let apart : (n : Node) → In n p.below → w.0 ≢ n =
        λ n m e. Falling-under_apart ix w.0 p.below falls' n m e in
      (
        record {
          seg = p.seg;
          below = p.below;
          lo = min l k;
          i = p.i;
          shape = p.shape;
          low_at = number-set_same w.0 (min l k) low;
          index_at = p.index_at;
          lo_le = omega (arith, lowered, p.lo_le);
          base_le = min_bound l k (omega (arith, same, p.base_le)) base_k;
          over = λ n m c e. bounded c (p.over n m c e);
          own = λ c e. elim (p.own c e) [ inl later ↦ inl later | inr b ↦ inr (bounded c b) ];
        },
        Laid-change next ix ix low (set_number w.0 (min l k) low) out out base work p.below
            (λ n j e. e) (λ n j m e. number-set_other w.0 n (min l k) low (apart n m) ∙ e)
            (λ n o. o) h,
      )

  -- A child that lies on the stack lowers the node.
  pub child-Tidy :
      (n c : Node) (cs : List Node) (work : Work) (s : Marks) (l i : ℕ)
      → Tidy next base ((n, c ∷ cs) ∷ work) s
      → At s.index c i
      → member s.on_stack c ≡ true
      → At s.low n l
      → Tidy next base ((n, cs) ∷ work) (record s { low = set_number n (min l i) s.low })
  child-Tidy n c cs work s l i t at on low_at =
      let mow = set_number n (min l i) s.low in
      let base_i = t.core.floor c ((t.core.marked c).1 on) i at in
      let moved =
        lower-Laid s.index s.low s.out (n, c ∷ cs) work s.stack l i t.core.falling t.laid low_at
          base_i in
      let bound : (lo j : ℕ)
          → At mow n lo
          → At s.index n j
          → lo ≤ j
          → Bounded next s.index s.out lo c =
        λ lo j a b le. (
          i,
          (
            at,
            inl (
                omega
                  (arith, some_inj (sym (number-set_same n (min l i) s.low) ∙ a), min_right l i)),
          ),
        ) in
      record {
        core = record {
          falling = t.core.falling;
          floor = t.core.floor;
          placed = t.core.placed;
          marked = t.core.marked;
          counted = t.core.counted;
          ordered = t.core.ordered;
        };
        laid = own-next next base s.index mow s.out n c cs work s.stack bound moved;
        rooted = Rooted-left next base s.index n (c ∷ cs) cs work t.rooted;
      }
