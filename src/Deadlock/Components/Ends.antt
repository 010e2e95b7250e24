-- ===== src/Deadlock/Components/Ends.antt =====
-- `sccs_of` of hack/validate-readiness-deadlock.py comes to an end.
use krateo_openstack_bluepri.Prelude.{
  ℕ, zero, suc, ◌+◌, ◌*◌, ◌≤◌, ◌≡◌, refl, sym, ap, ◌∙◌, subst, arith, inl, inr, Option, none, some,
  Option-cases, List, [], ◌∷◌, In, In-append_right, map, length, keep, sort_with, In-sort_with,
}
use krateo_openstack_bluepri.Deadlock.{Node, node_eq, node_le}
use krateo_openstack_bluepri.Deadlock.Waits.{Wait, children_of}
use krateo_openstack_bluepri.Deadlock.Components.{
  Numbers, number_of, Marks, unmarked, enter, descend, Work, connect, strongconnect, connect_all,
  distinct_nodes, nodes_of, sccs_of,
}
use krateo_openstack_bluepri.Deadlock.Components.Marking.{
  unseen, unseen_le, unseen-enter, In-distinct, In-keep_on,
}
use krateo_openstack_bluepri.Deadlock.Components.Steps.{
  Sound, Stacked, Stacked-In, Descended, enter-Sound, descend-Descended,
}
use krateo_openstack_bluepri.Deadlock.Components.Closing.{
  Stacked-change_left, close-Closed, lower_parent-Relowered,
}

module _ (next : Node → List Node) (nodes : List Node)
    (inside : (n c : Node) → In c (next n) → In c nodes) where
  -- The children that are left are nodes of the graph.
  LeftInside : Work → Type 0
  LeftInside [] = Unit
  LeftInside (w ∷ work) = ((c : Node) → In c w.1 → In c nodes) × LeftInside work

  -- The loop comes to an end, with the marks in order.
  abbrev pub Ends : Option Marks → Type 0
  Ends o = (t : Marks) × ((o ≡ some t) × Sound t)

  connect-Ends :
      (fuel : ℕ) (work : Work) (s : Marks)
      → Sound s
      → Stacked work s.stack
      → LeftInside work
      → 2 * unseen nodes s.index + length work ≤ fuel
      → Ends (connect next fuel work s)
  unfolding connect LeftInside enter Stacked Descended
  connect-Ends fuel [] s ok h left enough = (s, (refl, ok))
  connect-Ends zero (w ∷ work) s ok h left enough = absurd (omega (arith, enough))
  connect-Ends (suc fuel) ((node, cs) ∷ work) s ok h left enough =
      let here = ok.indexed node (Stacked-In (node, cs) work s.stack h) in
      let (d, (e, g)) = descend-Descended node cs s ok here in
      from d.child d.marks e g (connect-Ends fuel)
    where
      from :
          (child : Option (Node × List Node)) (t : Marks)
          → descend node cs s ≡ some (record { child = child; marks = t })
          → Descended s cs child t
          → ((work' : Work) (u : Marks)
              → Sound u
              → Stacked work' u.stack
              → LeftInside work'
              → 2 * unseen nodes u.index + length work' ≤ fuel
              → Ends (connect next fuel work' u))
          → Ends (connect next (suc fuel) ((node, cs) ∷ work) s)
      from none t e g again =
          let on_t = subst (Stacked ((node, cs) ∷ work)) (sym g.same_stack) h in
          let (t', (e', f)) = lower_parent-Relowered (node, cs) work t g.sound on_t in
          let on_t' = subst (Stacked ((node, cs) ∷ work)) (sym f.same_stack) on_t in
          let (u, (e'', c)) = close-Closed (node, cs) work t' f.sound on_t' in
          let same = c.same_index ∙ f.same_index ∙ g.same_index in
          let bound : 2 * unseen nodes s.index + length work ≤ fuel = omega (arith, enough) in
          rw (e, e', e'')
            (again work u c.sound c.stacked left.1
              (subst (λ (ns : Numbers). 2 * unseen nodes ns + length work ≤ fuel) (sym same) bound))
      from (some (c, rest)) t e (u, (g, (new, (t_is, (m, below))))) again =
          let member = left.0 c m in
          let new_u = subst (λ (ns : Numbers). number_of ns c ≡ none) (sym g.same_index) new in
          let fewer = unseen-enter nodes c (length u.index) u.index member new_u in
          let as_many = ap (unseen nodes) g.same_index in
          let on_u = subst (Stacked ((node, cs) ∷ work)) (sym g.same_stack) h in
          rw (e, t_is)
            (again ((c, next c) ∷ (node, rest) ∷ work) (enter c u) (enter-Sound c u g.sound)
              (inl (refl, Stacked-change_left node cs rest work u.stack on_u))
              (inside c, (λ x k. left.0 x (below x k), left.1))
              (omega (arith, fewer, as_many, enough)))

  strongconnect-Ends :
      (n : Node) (s : Marks) → Sound s → Ends (strongconnect next (suc (2 * length nodes)) n s)
  unfolding strongconnect Stacked LeftInside enter
  strongconnect-Ends n s ok =
      connect-Ends (suc (2 * length nodes)) ((n, next n) ∷ []) (enter n s) (enter-Sound n s ok)
        (inl (refl, tt)) (inside n, tt) (omega (arith, unseen_le nodes (enter n s).index))

  pub connect_all-Ends :
      (roots : List Node) (s : Marks)
      → Sound s
      → Ends (connect_all next (suc (2 * length nodes)) roots s)
  unfolding connect_all
  connect_all-Ends [] s ok = (s, (refl, ok))
  connect_all-Ends (n ∷ roots) s ok = elim (Option-cases (number_of s.index n)) [
    | inr (i, old) ↦ rw (old, connect_all) (connect_all-Ends roots s ok)
    | inl new ↦
        let (t, (e, fine)) = strongconnect-Ends n s ok in
        rw (new, connect_all, e) (connect_all-Ends roots t fine)
  ]

unmarked-Sound : Sound unmarked
unfolding number_of
unmarked-Sound = record { lows = λ n h. h; indexed = λ n m. absurd m }

pub In-children :
    (graph : List Wait) (n c : Node) → In c (children_of graph n) → In c (nodes_of graph)
unfolding children_of nodes_of
In-children graph n c m =
    let on = λ (e : Wait). e.on in
    let kept = keep (λ (e : Wait). node_eq e.waiter n) graph in
    let child =
      In-keep_on (λ e. node_eq e.waiter n) c graph ((In-sort_with node_le c (map on kept)).0 m) in
    In-append_right c (sort_with node_le (distinct_nodes (map (λ (e : Wait). e.waiter) graph)))
      (sort_with node_le (distinct_nodes (map on graph)))
      ((In-sort_with node_le c (distinct_nodes (map on graph))).1
        (In-distinct c (map on graph) child))

-- On every graph Tarjan's search comes to an end and finds each entry of its dicts and of its stack.
pub sccs_of_ends : (graph : List Wait) → (sccs : List (List Node)) × (sccs_of graph ≡ some sccs)
unfolding sccs_of
sccs_of_ends graph =
    let (t, (e, fine)) =
      connect_all-Ends (children_of graph) (nodes_of graph) (In-children graph) (nodes_of graph)
        unmarked unmarked-Sound in
    (t.out, rw e refl)
