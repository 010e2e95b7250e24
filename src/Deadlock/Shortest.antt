-- ===== src/Deadlock/Shortest.antt =====
-- `witness` of hack/validate-readiness-deadlock.py: the shortest cycle back to one node, by a
-- breadth-first search inside a set of nodes. `next` is `sorted(graph.get(node, ()))`.
pub mod Tree
mod Scanning
pub mod Found
use krateo_openstack_bluepri.Prelude.{
  ℕ, zero, suc, Bool, true, false, not, ◌||◌, Option, none, some, List, [], ◌∷◌, ◌++◌,
  if◌then◌else◌, length, any, sort_with,
}
use krateo_openstack_bluepri.Deadlock.{Node, node_eq, node_le}

-- `prev`, the last entry first
abbrev pub Previous : Type 0
Previous = List (Node × Node)

-- `child in prev`
unfoldable pub seen : Previous → Node → Bool
seen [] n = false
seen ((c, p) ∷ prev) n = node_eq c n || seen prev n

unfoldable pub before : Previous → Node → Option Node
before [] n = none
before ((c, p) ∷ prev) n = if node_eq c n then some p else before prev n

abbrev pub is_in : List Node → Node → Bool
is_in ns n = any (λ m. node_eq m n) ns

pub data Scan : Type 0 where
  closed : Previous → Scan
  onward : Previous → List Node → Scan

module _ (next : Node → List Node) (members : List Node) (start : Node) where
  -- The loop over the children of `node`.
  unfoldable pub scan : Node → List Node → Previous → List Node → Scan
  unfolding seen
  scan node [] prev queue = onward prev queue
  scan node (c ∷ cs) prev queue =
      let skip = scan node cs prev queue in
      let push = scan node cs ((c, node) ∷ prev) (queue ++ c ∷ []) in
      if is_in members c
      then if node_eq c start then closed prev else if seen prev c then skip else push
      else skip

  -- The path from `start` to the node, put in front of `path`.
  unfoldable pub trace : ℕ → Previous → Node → List Node → Option (List Node)
  unfolding before
  trace zero prev node path = none
  trace (suc fuel) prev node path =
      let up = elim (before prev node) as (λ _. Option (List Node)) [
        | none ↦ none
        | some p ↦ trace fuel prev p (node ∷ path)
      ] in
      if node_eq node start then some (node ∷ path) else up

  -- The loop over the queue.
  unfoldable pub search_from : ℕ → List Node → Previous → Option (List Node)
  unfolding scan trace
  search_from fuel [] prev = some (start ∷ start ∷ [])
  search_from zero (node ∷ queue) prev = none
  search_from (suc fuel) (node ∷ queue) prev = elim (scan node (next node) prev queue) [
    | closed prev' ↦ trace (suc (length prev')) prev' node (start ∷ [])
    | onward prev' queue' ↦ search_from fuel queue' prev'
  ]

  -- Each member is put into the queue once.
  unfoldable pub shortest : Option (List Node)
  unfolding search_from
  shortest = search_from (suc (length members)) (start ∷ []) []

abbrev from_first : (Node → List Node) → List Node → List Node → Option (List Node)
from_first next scc [] = none
from_first next scc (start ∷ more) = shortest next scc start

-- `none`: the set is empty, or the fuel ran out.
unfoldable pub witness : (Node → List Node) → List Node → Option (List Node)
unfolding shortest
witness next scc = from_first next scc (sort_with node_le scc)
