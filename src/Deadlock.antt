-- ===== src/Deadlock.antt =====
-- hack/validate-readiness-deadlock.py: the graph of all that waits for anything else.
pub mod Shortest
pub mod Umbrella
pub mod Gate
pub mod Collect
pub mod Owners
pub mod Waits
pub mod Components
pub mod Partition
pub mod Verdict
mod Samples
use krateo_openstack_bluepri.Prelude.{
  String, Bool, true, false, ◌&&◌, ◌≡◌, ◌↔◌, refl, sym, ap, ◌==◌, str_leb, if◌then◌else◌, eq_iff,
  arith, eq_refl,
}

-- `comp_node`, `create_node` and `wl_node`; the name of a workload is "kind/name".
pub data Node : Type 0 where
  composition : String → Node
  creation : String → Node
  workload : (component name : String) → Node

unfoldable pub node_eq : Node → Node → Bool
node_eq (composition c) (composition d) = c == d
node_eq (creation c) (creation d) = c == d
node_eq (workload c v) (workload d w) = c == d && v == w
node_eq _ _ = false

-- The order of the tuples that stand for the nodes.
unfoldable pub node_le : Node → Node → Bool
node_le (composition c) (composition d) = str_leb c d
node_le (composition c) _ = true
node_le (creation c) (composition d) = false
node_le (creation c) (creation d) = str_leb c d
node_le (creation c) (workload d w) = true
node_le (workload c v) (workload d w) = if c == d then str_leb v w else str_leb c d
node_le (workload c v) _ = false

pub node_eq_iff : (m n : Node) → (node_eq m n ≡ true) ↔ (m ≡ n)
unfolding node_eq
node_eq_iff m n = (equal m n, λ e. rw e (itself n))
  where
    itself : (a : Node) → node_eq a a ≡ true
    itself (composition c) = eq_refl c
    itself (creation c) = eq_refl c
    itself (workload c v) = ground (arith, eq_refl c, eq_refl v)

    equal : (a b : Node) → node_eq a b ≡ true → a ≡ b
    equal (composition c) (composition d) h = ap composition ((eq_iff c d).0 h)
    equal (composition c) (creation d) h = cc
    equal (composition c) (workload d w) h = cc
    equal (creation c) (composition d) h = cc
    equal (creation c) (creation d) h = ap creation ((eq_iff c d).0 h)
    equal (creation c) (workload d w) h = cc
    equal (workload c v) (composition d) h = cc
    equal (workload c v) (creation d) h = cc
    equal (workload c v) (workload d w) h = ground (arith, eq_iff c d, eq_iff v w)
