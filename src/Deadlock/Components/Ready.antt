-- ===== src/Deadlock/Components/Ready.antt =====
-- A graph of waits in which `cycles_of` of hack/validate-readiness-deadlock.py finds nothing.
use krateo_openstack_bluepri.Prelude.{
  suc, ◌*◌, true, false, Bool-cases, ◌≡◌, refl, sym, ◌∙◌, subst, ◌⊎◌, inl, inr, some, some_inj,
  none_some, and_then-eq-some, false_true, List, [], ◌∷◌, In, length, keep,
}
use krateo_openstack_bluepri.Deadlock.{Node, node_eq, node_eq_iff}
use krateo_openstack_bluepri.Deadlock.Waits.{Wait, children_of}
use krateo_openstack_bluepri.Deadlock.Components.{
  number_of, Marks, unmarked, member, connect_all, nodes_of, sccs_of, is_cycle, cycles_of,
}
use krateo_openstack_bluepri.Deadlock.Components.Laid.{Out, Falling}
use krateo_openstack_bluepri.Deadlock.Components.Ordered.{Ordered}
use krateo_openstack_bluepri.Deadlock.Components.Search.{Settled, connect_all-Settled}
use krateo_openstack_bluepri.Deadlock.Components.Ends.{In-children}

-- A node is ready once all that it waits for is ready.
pub data Ready (graph : List Wait) : Node → Type 0 where
  ready : (n : Node) → ((c : Node) → In c (children_of graph n) → Ready graph c) → Ready graph n

unmarked-Settled : (next : Node → List Node) → Settled next unmarked
unfolding Falling number_of Ordered
unmarked-Settled next = record {
  core = record {
    falling = tt;
    floor = λ n m. absurd m;
    placed = λ n k e. none_some e;
    marked = λ n. (λ m. absurd m, λ h. false_true h);
    counted = λ n k e. none_some e;
    ordered = tt;
  };
  empty = refl;
}

-- The components come in the order of the waits, and no node is missing.
pub sccs_of-Ordered :
    (graph : List Wait) (sccs : List (List Node))
    → sccs_of graph ≡ some sccs
    → Ordered (children_of graph) (λ c. ⊥) sccs × ((n : Node) → In n (nodes_of graph) → Out sccs n)
unfolding sccs_of
sccs_of-Ordered graph sccs h =
    let next = children_of graph in
    let nodes = nodes_of graph in
    let fuel = suc (2 * length nodes) in
    let (t, e, is) =
      and_then-eq-some (connect_all next fuel nodes unmarked) (λ (s : Marks). some s.out) h in
    let (g, (_, all_in)) =
      connect_all-Settled next fuel nodes unmarked t (unmarked-Settled next) e in
    subst (λ (o : List (List Node)). Ordered next (λ c. ⊥) o × ((n : Node) → In n nodes → Out o n))
      (some_inj is)
      (
        g.core.ordered,
        λ n m.
            let (k, at) = all_in n m in
            elim (g.core.placed n k at) [ inl on ↦ absurd (subst (In n) g.empty on) | inr o ↦ o ],
      )

member-of : (n : Node) (ns : List Node) → In n ns → member ns n ≡ true
member-of n [] m = absurd m
member-of n (x ∷ ns) (inl e) = rw ((node_eq_iff x n).1 (sym e)) refl
member-of n (x ∷ ns) (inr m) = elim (Bool-cases (node_eq x n)) [
  | inl here ↦ rw here refl
  | inr there ↦ rw there (member-of n ns m)
]

module _ (graph : List Wait) where
  -- A component that is no cycle is ready after those before it.
  scc-Ready :
      (scc : List Node) (D : Node → Type 0)
      → is_cycle graph scc ≡ false
      → ((n : Node) → In n scc → (c : Node) → In c (children_of graph n) → In c scc ⊎ D c)
      → ((n : Node) → D n → Ready graph n)
      → (n : Node) → In n scc
      → Ready graph n
  unfolding is_cycle
  scc-Ready [] D h edges before n m = absurd m
  scc-Ready (x ∷ []) D h edges before n (inl e) = subst (Ready graph) (sym e) (
      ready x (λ c m. elim (edges x (inl refl) c m) [
        | inl (inl same) ↦ false_true (
            sym h
            ∙ member-of x (children_of graph x) (subst (λ y. In y (children_of graph x)) same m))
        | inl (inr v) ↦ absurd v
        | inr d ↦ before c d
      ]))
  scc-Ready (x ∷ []) D h edges before n (inr v) = absurd v
  scc-Ready (x ∷ y ∷ more) D h edges before n m = false_true (sym h)

  Ordered-Ready :
      (sccs : List (List Node)) (D : Node → Type 0)
      → Ordered (children_of graph) D sccs
      → keep (is_cycle graph) sccs ≡ []
      → ((n : Node) → D n → Ready graph n)
      → (n : Node) → Out sccs n
      → Ready graph n
  unfolding Ordered Out
  Ordered-Ready [] D o h before n m = absurd m
  Ordered-Ready (scc ∷ sccs) D (edges, o) h before n m = elim (Bool-cases (is_cycle graph scc)) [
    | inl cycle ↦ absurd (cons_nil (rw cycle at h))
    | inr fine ↦
        let here = scc-Ready scc D fine edges before in
        elim m [
          | inl i ↦ here n i
          | inr later ↦
              Ordered-Ready sccs (λ c. D c ⊎ In c scc) o (rw fine at h)
                (λ k d. elim d [ inl b ↦ before k b | inr i ↦ here k i ]) n later
        ]
  ]
    where
      cons_nil : {A : Type 0} {x : A} {xs : List A} → x ∷ xs ≡ [] → ⊥
      cons_nil e = cc

-- When no component of a graph of waits is a cycle, every node comes to be ready.
pub cycles_of-Ready : (graph : List Wait) → cycles_of graph ≡ some [] → (n : Node) → Ready graph n
unfolding cycles_of
cycles_of-Ready graph h n =
    let (sccs, e, is) =
      and_then-eq-some (sccs_of graph) (λ (o : List (List Node)). some (keep (is_cycle graph) o))
        h in
    let (o, all_out) = sccs_of-Ordered graph sccs e in
    let within = Ordered-Ready graph sccs (λ c. ⊥) o (some_inj is) (λ k v. absurd v) in
    ready n (λ c m. within c (all_out c (In-children graph n c m)))
