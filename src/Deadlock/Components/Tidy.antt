-- ===== src/Deadlock/Components/Tidy.antt =====
-- Tarjan's search in hack/validate-readiness-deadlock.py keeps its marks in order: entering a node and
-- looking at a child.
use krateo_openstack_bluepri.Deadlock.Components.Ordered.{At-set, At-set_cases, length-set, Ordered}
use krateo_openstack_bluepri.Prelude.{
  ℕ, ◌≤◌, ◌<◌, true, Bool-cases, ◌≡◌, refl, sym, ap, ◌∙◌, subst, arith, ◌⊎◌, inl, inr, none, some,
  none_some, false_true, List, [], ◌∷◌, In, length, ◌↔◌,
}
use krateo_openstack_bluepri.Deadlock.{Node, node_eq, node_eq_iff}
use krateo_openstack_bluepri.Deadlock.Components.{
  Numbers, number_of, set_number, Marks, member, enter, Work,
}
use krateo_openstack_bluepri.Deadlock.Components.Marking.{number-set_same, number-set_other}
use krateo_openstack_bluepri.Deadlock.Components.Laid.{
  At, Out, Falling, Falling-At, Falling-ext, Bounded, Segment, Laid, Rooted, Laid-change,
}

module _ (next : Node → List Node) (base : ℕ) where
  pub record Core (s : Marks) : Type 0 where
    pub falling : Falling s.index s.stack
    pub floor : (n : Node) → In n s.stack → (k : ℕ) → At s.index n k → base ≤ k
    pub placed : (n : Node) (k : ℕ) → At s.index n k → In n s.stack ⊎ Out s.out n
    pub marked : (n : Node) → In n s.stack ↔ (member s.on_stack n ≡ true)
    pub counted : (n : Node) (k : ℕ) → At s.index n k → k < length s.index
    pub ordered : Ordered next (λ c. ⊥) s.out

  -- The work and the stack belong together.
  pub record Tidy (work : Work) (s : Marks) : Type 0 where
    pub core : Core s
    pub laid : Laid next s.index s.low s.out base work s.stack
    pub rooted : Rooted s.index base work

  pub enter-Core :
      (c : Node) (s : Marks)
      → Core s
      → number_of s.index c ≡ none
      → base ≤ length s.index
      → Core (enter c s)
  unfolding enter Falling
  enter-Core c s k new low_base =
      let i = length s.index in
      let ext = At-set c i s.index new in
      let cases = At-set_cases c i s.index in
      let longer = length-set c i s.index new in
      record {
        falling = (
          (
            i,
            (
              number-set_same c i s.index,
              λ m h j at. elim (cases m j at) [
                | inl (e, _) ↦ none_some (
                    sym new
                    ∙ ap (number_of s.index) e
                    ∙ (Falling-At s.index s.stack k.falling m h).1)
                | inr was ↦ k.counted m j was
              ],
            ),
          ),
          Falling-ext s.index (set_number c i s.index) ext s.stack k.falling,
        );
        floor = λ n h j at. elim (cases n j at) [
          | inl (_, e) ↦ subst (λ x. base ≤ x) (sym e) low_base
          | inr was ↦ elim h [
            | inl e ↦ none_some (sym new ∙ ap (number_of s.index) (sym e) ∙ was)
            | inr m ↦ k.floor n m j was
          ]
        ];
        placed = λ n j at. elim (cases n j at) [
          | inl (e, _) ↦ inl (inl (sym e))
          | inr was ↦ elim (k.placed n j was) [ inl m ↦ inl (inr m) | inr o ↦ inr o ]
        ];
        marked = λ n. elim (Bool-cases (node_eq c n)) [
          | inl same ↦ rw same (λ h. refl, λ h. inl (sym ((node_eq_iff c n).0 same)))
          | inr apart ↦ rw apart (
            λ h. elim h [
              | inl e ↦ false_true (sym apart ∙ (node_eq_iff c n).1 (sym e))
              | inr m ↦ (k.marked n).0 m
            ],
            λ h. inr ((k.marked n).1 h),
          )
        ];
        counted = λ n j at. elim (cases n j at) [
          | inl (_, e) ↦ omega (arith, e, longer)
          | inr was ↦ omega (arith, k.counted n j was, longer)
        ];
        ordered = k.ordered;
      }

  -- A child that is settled is no longer among those that are left.
  pub own-next :
      (ix low : Numbers) (out : List (List Node)) (n c : Node) (cs : List Node) (work : Work)
      (stack : List Node)
      → ((lo i : ℕ) → At low n lo → At ix n i → lo ≤ i → Bounded next ix out lo c)
      → Laid next ix low out base ((n, c ∷ cs) ∷ work) stack
      → Laid next ix low out base ((n, cs) ∷ work) stack
  unfolding Laid
  own-next ix low out n c cs work stack bound (p, h) = (
    record {
      seg = p.seg;
      below = p.below;
      lo = p.lo;
      i = p.i;
      shape = p.shape;
      low_at = p.low_at;
      index_at = p.index_at;
      lo_le = p.lo_le;
      base_le = p.base_le;
      over = p.over;
      own = λ d e. elim (p.own d e) [
        | inl (inl here) ↦ inr (
            subst (Bounded next ix out p.lo) (sym here)
              (bound p.lo p.i p.low_at p.index_at p.lo_le))
        | inl (inr later) ↦ inl later
        | inr b ↦ inr b
      ];
    },
    h,
  )

  Rooted-enter :
      (ix iy : Numbers)
      → ((n : Node) (k : ℕ) → At ix n k → At iy n k)
      → (work : Work) → Rooted ix base work
      → Rooted iy base work
  unfolding Rooted
  Rooted-enter ix iy ext [] h = h
  Rooted-enter ix iy ext (w ∷ []) h = ext w.0 base h
  Rooted-enter ix iy ext (w ∷ v ∷ work) h = Rooted-enter ix iy ext (v ∷ work) h

  pub Rooted-left :
      (ix : Numbers) (n : Node) (cs ds : List Node) (work : Work)
      → Rooted ix base ((n, cs) ∷ work)
      → Rooted ix base ((n, ds) ∷ work)
  unfolding Rooted
  Rooted-left ix n cs ds [] h = h
  Rooted-left ix n cs ds (v ∷ work) h = h

  -- The segment of a node that is new on the stack
  new_segment :
      (c : Node) (s : Marks) (new : number_of s.index c ≡ none)
      → base ≤ length s.index
      → Segment next (enter c s).index (enter c s).low s.out base c (next c) (c ∷ s.stack)
  unfolding enter
  new_segment c s new low_base = record {
    seg = [];
    below = s.stack;
    lo = length s.index;
    i = length s.index;
    shape = refl;
    low_at = number-set_same c (length s.index) s.low;
    index_at = number-set_same c (length s.index) s.index;
    lo_le = omega arith;
    base_le = low_base;
    over = λ n m d e. absurd m;
    own = λ d e. inl e;
  }

  -- A child is entered.
  pub enter-Tidy :
      (n c : Node) (cs : List Node) (work : Work) (s : Marks)
      → Tidy ((n, c ∷ cs) ∷ work) s
      → number_of s.index c ≡ none
      → Tidy ((c, next c) ∷ (n, cs) ∷ work) (enter c s)
  unfolding enter Laid new_segment Rooted
  enter-Tidy n c cs work s t new =
      let i = length s.index in
      let ext = At-set c i s.index new in
      let (p, _) = t.laid in
      let low_base : base ≤ length s.index =
        omega (arith, p.base_le, p.lo_le, t.core.counted n p.i p.index_at) in
      let other : (m : Node) (k : ℕ) → In m s.stack → At s.low m k → At (set_number c i s.low) m k =
        λ m k h at.
          number-set_other c m i s.low (λ e. none_some (
            sym new ∙ ap (number_of s.index) e ∙ (Falling-At s.index s.stack t.core.falling m h).1))
          ∙ at in
      let moved =
        Laid-change next s.index (set_number c i s.index) s.low (set_number c i s.low) s.out s.out
          base ((n, c ∷ cs) ∷ work) s.stack ext other (λ m o. o) t.laid in
      let bound : (lo j : ℕ)
          → At (set_number c i s.low) n lo
          → At (set_number c i s.index) n j
          → lo ≤ j
          → Bounded next (set_number c i s.index) s.out lo c =
        λ lo j low_at at le. (
          i,
          (
            number-set_same c i s.index,
            inl (elim (At-set_cases c i s.index n j at) [
              | inl (e, _) ↦ none_some (sym new ∙ ap (number_of s.index) e ∙ p.index_at)
              | inr was ↦ omega (arith, le, t.core.counted n j was)
            ]),
          ),
        ) in
      record {
        core = enter-Core c s t.core new low_base;
        laid = (
          new_segment c s new low_base,
          own-next (set_number c i s.index) (set_number c i s.low) s.out n c cs work s.stack bound
              moved,
        );
        rooted =
            Rooted-enter s.index (set_number c i s.index) ext ((n, cs) ∷ work)
              (Rooted-left s.index n (c ∷ cs) cs work t.rooted);
      }

  -- A search is begun on an empty stack.
  pub enter_root-Tidy :
      (c : Node) (s : Marks)
      → Core s
      → s.stack ≡ []
      → number_of s.index c ≡ none
      → base ≡ length s.index
      → Tidy ((c, next c) ∷ []) (enter c s)
  unfolding enter Laid Rooted new_segment
  enter_root-Tidy c s k empty new at_base = record {
    core = enter-Core c s k new (omega (arith, at_base));
    laid = (new_segment c s new (omega (arith, at_base)), empty);
    rooted = number-set_same c (length s.index) s.index ∙ ap some (sym at_base);
  }
