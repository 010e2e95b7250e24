-- ===== src/Deadlock/Components/Closing.antt =====
-- Tarjan's search in hack/validate-readiness-deadlock.py: leaving a node keeps its dicts filled.
use krateo_openstack_bluepri.Prelude.{
  Bool-cases, ◌≡◌, refl, sym, ◌∙◌, inl, inr, some, false_true, List, [], ◌∷◌, ◌++◌, In, eqb,
}
use krateo_openstack_bluepri.Deadlock.{Node, node_eq, node_eq_iff}
use krateo_openstack_bluepri.Deadlock.Components.{
  Marks, discard, Popped, pop_to, pop_scc, close, Work, lower_parent,
}
use krateo_openstack_bluepri.Deadlock.Components.Steps.{
  Sound, Stacked, Stacked-In, Stacked-tail, Relowered, lower-Relowered,
}

pub pop_to-Stacked :
    (w : Node × List Node) (work : Work) (stack on scc : List Node)
    → Stacked (w ∷ work) stack
    → (p : Popped) × ((pop_to w.0 stack on scc ≡ some p)
        × (Stacked work p.stack × ((x : Node) → In x p.stack → In x stack)))
unfolding pop_to Stacked
pop_to-Stacked w work [] on scc h = absurd h
pop_to-Stacked w work (n ∷ stack) on scc h = elim (Bool-cases (node_eq n w.0)) [
  | inl found ↦ (
    record { stack = stack; on_stack = discard n on; scc = scc ++ n ∷ [] },
    (
      rw (found, pop_to) refl,
      (
        elim h [ inl (e, below) ↦ below | inr below ↦ Stacked-tail w work stack below ],
        λ x m. inr m,
      ),
    ),
  )
  | inr apart ↦ elim h [
    | inl (e, below) ↦ false_true (sym apart ∙ (node_eq_iff n w.0).1 (sym e))
    | inr below ↦
        let (p, (e, (left, kept))) =
          pop_to-Stacked w work stack (discard n on) (scc ++ n ∷ []) below in
        (p, (rw (apart, pop_to) e, (left, λ x m. inr (kept x m))))
  ]
]

-- What is left when a node is done
pub record Closed (work : Work) (s t : Marks) : Type 0 where
  pub same_index : t.index ≡ s.index
  pub stacked : Stacked work t.stack
  pub sound : Sound t

pub close-Closed :
    (w : Node × List Node) (work : Work) (s : Marks)
    → Sound s
    → Stacked (w ∷ work) s.stack
    → (t : Marks) × ((close w.0 s ≡ some t) × Closed work s t)
unfolding close
close-Closed w work s ok h =
    let (i, at) = ok.indexed w.0 (Stacked-In w work s.stack h) in
    let (l, low) = ok.lows w.0 (i, at) in
    elim (Bool-cases (eqb l i)) [
      | inr other ↦ (
        s,
        (
          rw (low, close, at, other) refl,
          record { same_index = refl; stacked = Stacked-tail w work s.stack h; sound = ok },
        ),
      )
      | inl root ↦
          let (p, (e, (left, kept))) = pop_to-Stacked w work s.stack s.on_stack [] h in
          (
            record s { stack = p.stack; on_stack = p.on_stack; out = s.out ++ p.scc ∷ [] },
            (
              rw (low, close, at, root, pop_scc, e) refl,
              record {
                same_index = refl;
                stacked = left;
                sound = record { lows = ok.lows; indexed = λ n m. ok.indexed n (kept n m) };
              },
            ),
          )
    ]

pub lower_parent-Relowered :
    (w : Node × List Node) (work : Work) (s : Marks)
    → Sound s
    → Stacked (w ∷ work) s.stack
    → (t : Marks) × ((lower_parent work w.0 s ≡ some t) × Relowered s t)
unfolding lower_parent
lower_parent-Relowered w [] s ok h =
    (s, (refl, record { same_index = refl; same_stack = refl; sound = ok }))
lower_parent-Relowered w ((p, cs) ∷ work) s ok h =
    let (l, low) = ok.lows w.0 (ok.indexed w.0 (Stacked-In w ((p, cs) ∷ work) s.stack h)) in
    let parent = Stacked-In (p, cs) work s.stack (Stacked-tail w ((p, cs) ∷ work) s.stack h) in
    let (t, (e, f)) = lower-Relowered p l s ok (ok.indexed p parent) in
    (t, (rw (low, lower_parent) e, f))

-- Which children are left does not matter.
pub Stacked-change_left :
    (n : Node) (cs ds : List Node) (work : Work) (stack : List Node)
    → Stacked ((n, cs) ∷ work) stack
    → Stacked ((n, ds) ∷ work) stack
unfolding Stacked
Stacked-change_left n cs ds work [] h = h
Stacked-change_left n cs ds work (m ∷ stack) (inl h) = inl h
Stacked-change_left n cs ds work (m ∷ stack) (inr h) =
    inr (Stacked-change_left n cs ds work stack h)
