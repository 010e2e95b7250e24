-- ===== src/Deadlock/Components/Popping.antt =====
-- Tarjan's search in hack/validate-readiness-deadlock.py: a node that is done, and the component that
-- it may leave.
use krateo_openstack_bluepri.Deadlock.Components.Leaving.{Rooted-tail, Under, leave-Tidy}
use krateo_openstack_bluepri.Prelude.{
  ℕ, Bool-cases, ◌≡◌, refl, sym, ◌∙◌, subst, arith, ◌⊎◌, inl, inr, some, some_inj, and_then-eq-some,
  List, [], ◌∷◌, ◌++◌, In, In-append_right, In-append_cases, eqb,
}
use krateo_openstack_bluepri.Deadlock.{Node}
use krateo_openstack_bluepri.Deadlock.Components.{Marks, Popped, pop_to, pop_scc, close, Work}
use krateo_openstack_bluepri.Deadlock.Components.Laid.{
  At, Out, Out-snoc_left, Out-snoc_right, Falling, Falling-under, Falling-under_apart, Falling-over,
  Bounded, Segment, Laid, Laid-change,
}
use krateo_openstack_bluepri.Deadlock.Components.Tidy.{Tidy}
use krateo_openstack_bluepri.Deadlock.Components.Ordered.{Ordered-snoc}
use krateo_openstack_bluepri.Deadlock.Components.Taking.{In-snoc, Taken, pop_to-Taken}

module _ (next : Node → List Node) (base : ℕ) where
  -- The root of a component takes it off the stack.
  pop-Tidy :
      (w : Node) (work : Work) (t : Marks) (q : Popped)
      → Tidy next base ((w, []) ∷ work) t
      → (p : Segment next t.index t.low t.out base w [] t.stack) → p.lo ≡ p.i
      → Taken p.seg w p.below t.on_stack [] q
      → Laid next t.index t.low t.out base work p.below
      → Tidy next base work
          (record t { stack = p.below; on_stack = q.on_stack; out = t.out ++ q.scc ∷ [] })
  unfolding Falling
  pop-Tidy w work t q f p root taken h =
      let falls = subst (Falling t.index) p.shape f.core.falling in
      let ((i, (at, under)), falls_below) = Falling-under t.index p.seg w p.below falls in
      let onto : (n : Node) → In n p.below → In n t.stack =
        λ n m. subst (In n) (sym p.shape) (In-append_right n p.seg (w ∷ p.below) (inr m)) in
      let split : (n : Node) → In n t.stack → In n (p.seg ++ w ∷ []) ⊎ In n p.below = λ n m.
        elim (In-append_cases n p.seg (w ∷ p.below) (subst (In n) p.shape m)) [
          | inl s ↦ inl ((In-snoc n w p.seg).1 (inl s))
          | inr (inl e) ↦ inl ((In-snoc n w p.seg).1 (inr e))
          | inr (inr b) ↦ inr b
        ] in
      let parted : (n : Node) → In n (p.seg ++ w ∷ []) → ¬ In n p.below = λ n m b.
        elim ((In-snoc n w p.seg).0 m) [
          | inl s ↦ Falling-over t.index p.seg w p.below falls n s n (inr b) refl
          | inr e ↦
              Falling-under_apart t.index w p.below ((i, (at, under)), falls_below) n b (sym e)
        ] in
      let child : (n : Node)
          → In n (p.seg ++ w ∷ [])
          → (c : Node) → In c (next n)
          → Bounded next t.index t.out p.lo c =
        λ n m c e. elim ((In-snoc n w p.seg).0 m) [
          | inl s ↦ p.over n s c e
          | inr same ↦ elim (p.own c (subst (λ x. In c (next x)) same e)) [
            | inl v ↦ absurd v
            | inr b ↦ b
          ]
        ] in
      let settled : (c : Node)
          → Bounded next t.index t.out p.lo c
          → In c q.scc ⊎ (⊥ ⊎ Out t.out c) =
        λ c (k, (e, ok)). elim ok [
          | inr o ↦ inr (inr o)
          | inl le ↦ elim (f.core.placed c k e) [
            | inr o ↦ inr (inr o)
            | inl m ↦ elim (split c m) [
              | inl s ↦ inl ((taken.scc c).1 (inr s))
              | inr b ↦
                  absurd (omega (arith, le, root, under c b k e, some_inj (sym at ∙ p.index_at)))
            ]
          ]
        ] in
      record {
        core = record {
          falling = falls_below;
          floor = λ n m. f.core.floor n (onto n m);
          placed = λ n k e. elim (f.core.placed n k e) [
            | inr o ↦ inr (Out-snoc_left t.out q.scc n o)
            | inl m ↦ elim (split n m) [
              | inl s ↦ inr (Out-snoc_right t.out q.scc n ((taken.scc n).1 (inr s)))
              | inr b ↦ inl b
            ]
          ];
          marked = λ n. (
            λ m. (taken.left n).1 ((f.core.marked n).0 (onto n m), λ s. parted n s m),
            λ m.
                let (on, off) = (taken.left n).0 m in
                elim (split n ((f.core.marked n).1 on)) [ inl s ↦ absurd (off s) | inr b ↦ b ],
          );
          counted = f.core.counted;
          ordered =
              Ordered-snoc next (λ c. ⊥) t.out q.scc f.core.ordered
                (λ n m c e. elim ((taken.scc n).0 m) [
                  | inl v ↦ absurd v
                  | inr s ↦ settled c (child n s c e)
                ]);
        };
        laid =
            Laid-change next t.index t.index t.low t.low t.out (t.out ++ q.scc ∷ []) base work
              p.below (λ n k e. e) (λ n k m e. e) (Out-snoc_left t.out q.scc) h;
        rooted = Rooted-tail t.index base (w, []) work f.rooted;
      }

  pub close-Tidy :
      (w : Node) (work : Work) (t u : Marks)
      → Tidy next base ((w, []) ∷ work) t
      → ((l : ℕ) → At t.low w l → Under next base work t l)
      → close w t ≡ some u
      → Tidy next base work u
  unfolding close Laid pop_scc
  close-Tidy w work t u f under h =
      let (p, rest) = f.laid in
      elim (Bool-cases (eqb p.lo p.i)) [
        | inr other ↦
            let stays : some t ≡ some u = rw (p.low_at, close, p.index_at, other) at h in
            subst (Tidy next base work) (some_inj stays)
              (leave-Tidy next base w work t f under p other rest)
        | inl root ↦
            let popped : pop_scc w t ≡ some u = rw (p.low_at, close, p.index_at, root) at h in
            let (q, e, is) =
              and_then-eq-some (pop_to w t.stack t.on_stack [])
                (λ (q : Popped).
                  some (record t {
                    stack = q.stack;
                    on_stack = q.on_stack;
                    out = t.out ++ q.scc ∷ [];
                  }))
                popped in
            let falls = subst (Falling t.index) p.shape f.core.falling in
            let taken =
              pop_to-Taken p.seg w p.below t.on_stack [] q
                (λ m. Falling-over t.index p.seg w p.below falls w m w (inl refl) refl)
                (subst (λ (st : List Node). pop_to w st t.on_stack [] ≡ some q) p.shape e) in
            subst (Tidy next base work) (some_inj is) (
              subst
                (λ (st : List Node).
                  Tidy next base work
                    (record t { stack = st; on_stack = q.on_stack; out = t.out ++ q.scc ∷ [] }))
                (sym taken.stack) (pop-Tidy w work t q f p (ground arith) taken rest))
      ]
