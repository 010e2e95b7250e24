-- ===== src/Deadlock/Components.antt =====
-- `sccs_of` and `cycles_of` of hack/validate-readiness-deadlock.py: Tarjan's strongly connected
-- components, with the stack of calls as a list. `next` is `sorted(graph.get(node, ()))`; `none`
-- stands for a KeyError or an IndexError, or for fuel that ran out.
mod Marking
mod Closing
mod Ordered
mod Steps
mod Laid
mod Tidy
mod Lowering
mod Taking
mod Leaving
mod Popping
mod Search
pub mod Ready
pub mod Ends
use krateo_openstack_bluepri.Prelude.{
  ℕ, zero, suc, ◌+◌, ◌*◌, Bool, true, false, not, ◌&&◌, ◌||◌, Option, none, some, and_then, List,
  [], ◌∷◌, ◌++◌, map, if◌then◌else◌, eqb, ltb, any, keep, length, sort_with,
}
use krateo_openstack_bluepri.Deadlock.{Node, node_eq, node_le}
use krateo_openstack_bluepri.Deadlock.Waits.{Wait, children_of}

-- A dict from nodes to numbers
abbrev pub Numbers : Type 0
Numbers = List (Node × ℕ)

unfoldable pub number_of : Numbers → Node → Option ℕ
number_of [] n = none
number_of ((m, k) ∷ ns) n = if node_eq m n then some k else number_of ns n

unfoldable pub set_number : Node → ℕ → Numbers → Numbers
set_number n k [] = (n, k) ∷ []
set_number n k ((m, l) ∷ ns) =
    let rest = set_number n k ns in if node_eq m n then (n, k) ∷ ns else (m, l) ∷ rest

-- The variables of `sccs_of`; the top of the stack is first.
pub record Marks : Type 0 where
  pub index : Numbers
  pub low : Numbers
  pub stack : List Node
  pub on_stack : List Node
  pub out : List (List Node)

abbrev pub unmarked : Marks
unmarked = record { index = []; low = []; stack = []; on_stack = []; out = [] }

abbrev pub member : List Node → Node → Bool
member ns n = any (λ m. node_eq m n) ns

-- A node is seen for the first time.
unfoldable pub enter : Node → Marks → Marks
unfolding set_number
enter n s =
    let i = length s.index in
    record s {
      index = set_number n i s.index;
      low = set_number n i s.low;
      stack = n ∷ s.stack;
      on_stack = n ∷ s.on_stack;
    }

abbrev pub min : ℕ → ℕ → ℕ
min a b = if ltb b a then b else a

-- `low[n] = min(low[n], k)`
unfoldable pub lower : Node → ℕ → Marks → Option Marks
unfolding number_of set_number
lower n k s =
    and_then (number_of s.low n) (λ l. some (record s { low = set_number n (min l k) s.low }))

-- What the loop over the children comes to: a child that was not seen before, with the children left.
pub record Descent : Type 0 where
  pub child : Option (Node × List Node)
  pub marks : Marks

unfoldable pub descend : Node → List Node → Marks → Option Descent
unfolding number_of enter lower
descend node [] s = some (record { child = none; marks = s })
descend node (c ∷ cs) s =
    let passed = descend node cs s in
    let lowered = λ (i : ℕ). and_then (lower node i s) (λ (t : Marks). descend node cs t) in
    elim (number_of s.index c) [
      | none ↦ some (record { child = some (c, cs); marks = enter c s })
      | some i ↦ if member s.on_stack c then lowered i else passed
    ]

abbrev pub discard : Node → List Node → List Node
discard n ns = keep (λ m. not (node_eq m n)) ns

pub record Popped : Type 0 where
  pub stack : List Node
  pub on_stack : List Node
  pub scc : List Node

unfoldable pub pop_to : Node → List Node → List Node → List Node → Option Popped
pop_to node [] on scc = none
pop_to node (m ∷ stack) on scc =
    let rest = pop_to node stack (discard m on) (scc ++ m ∷ []) in
    if node_eq m node
    then some (record { stack = stack; on_stack = discard m on; scc = scc ++ m ∷ [] })
    else rest

-- The component of a node whose low number is its own.
unfoldable pub pop_scc : Node → Marks → Option Marks
unfolding pop_to
pop_scc node s =
    and_then (pop_to node s.stack s.on_stack [])
      (λ p. some (record s { stack = p.stack; on_stack = p.on_stack; out = s.out ++ p.scc ∷ [] }))

unfoldable pub close : Node → Marks → Option Marks
unfolding number_of pop_scc
close node s =
    and_then (number_of s.low node)
      (λ l. and_then (number_of s.index node) (λ i. if eqb l i then pop_scc node s else some s))

-- The nodes under way, with the children that are left; the innermost is first.
abbrev pub Work : Type 0
Work = List (Node × List Node)

unfoldable pub lower_parent : Work → Node → Marks → Option Marks
unfolding number_of lower
lower_parent [] node s = some s
lower_parent ((p, cs) ∷ work) node s = and_then (number_of s.low node) (λ l. lower p l s)

module _ (next : Node → List Node) where
  -- `while work`
  unfoldable pub connect : ℕ → Work → Marks → Option Marks
  unfolding descend lower_parent close
  connect fuel [] s = some s
  connect zero ((node, cs) ∷ work) s = none
  connect (suc fuel) ((node, cs) ∷ work) s = and_then (descend node cs s) (λ d. elim d.child [
    | some (c, rest) ↦ connect fuel ((c, next c) ∷ (node, rest) ∷ work) d.marks
    | none ↦
        and_then (lower_parent work node d.marks)
          (λ t. and_then (close node t) (λ u. connect fuel work u))
  ])

  unfoldable pub strongconnect : ℕ → Node → Marks → Option Marks
  unfolding connect enter
  strongconnect fuel root s = connect fuel ((root, next root) ∷ []) (enter root s)

  unfoldable pub connect_all : ℕ → List Node → Marks → Option Marks
  unfolding strongconnect number_of
  connect_all fuel [] s = some s
  connect_all fuel (n ∷ ns) s = elim (number_of s.index n) [
    | some i ↦ connect_all fuel ns s
    | none ↦ and_then (strongconnect fuel n s) (λ t. connect_all fuel ns t)
  ]

-- Without repeats, in order
abbrev pub distinct_nodes : List Node → List Node
distinct_nodes [] = []
distinct_nodes (n ∷ ns) = let rest = distinct_nodes ns in if member rest n then rest else n ∷ rest

-- `sorted(graph) + sorted({m for v in graph.values() for m in v})`
unfoldable pub nodes_of : List Wait → List Node
nodes_of graph =
    sort_with node_le (distinct_nodes (map (λ (e : Wait). e.waiter) graph))
    ++ sort_with node_le (distinct_nodes (map (λ (e : Wait). e.on) graph))

-- Each node is entered once and left once.
unfoldable pub sccs_of : List Wait → Option (List (List Node))
unfolding connect_all nodes_of children_of
sccs_of graph =
    let nodes = nodes_of graph in
    and_then (connect_all (children_of graph) (suc (2 * length nodes)) nodes unmarked)
      (λ s. some s.out)

-- More than one node, or one that waits for itself
unfoldable pub is_cycle : List Wait → List Node → Bool
unfolding children_of
is_cycle graph [] = false
is_cycle graph (n ∷ []) = member (children_of graph n) n
is_cycle graph (n ∷ m ∷ more) = true

unfoldable pub cycles_of : List Wait → Option (List (List Node))
unfolding sccs_of is_cycle
cycles_of graph = and_then (sccs_of graph) (λ sccs. some (keep (is_cycle graph) sccs))
