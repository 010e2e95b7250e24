-- ===== src/Revendor.antt =====
-- hack/revendor.py: a three-way merge of values.yaml, leaf by leaf. A document is a mapping with
-- text keys; `ours`, which the script mutates in place, is passed on from path to path.
pub mod Paths
pub mod Rulings
pub mod Merging
pub mod Command
mod Samples
use krateo_openstack_bluepri.Prelude.{
  ℕ, suc, zero, String, Bool, true, false, not, ◌&&◌, ◌||◌, Option, none, some, List, [], ◌∷◌, ◌++◌,
  ◌==◌, str_leb, if◌then◌else◌, Value, Fields, end, field, obj, arr, null, bool, num, real, str,
  find, store, same, sort_with, map, length,
}

abbrev pub KeyPath : Type 0
KeyPath = List String

-- Every leaf below a node, with its path. A list is a leaf, and an empty mapping has none.
unfoldable mutual
  pub walk : Value → KeyPath → List (KeyPath × Value)
  walk (obj fs) prefix = walk_fields fs prefix
  walk (arr xs) prefix = (prefix, arr xs) ∷ []
  walk null prefix = (prefix, null) ∷ []
  walk (bool b) prefix = (prefix, bool b) ∷ []
  walk (num n) prefix = (prefix, num n) ∷ []
  walk (real r) prefix = (prefix, real r) ∷ []
  walk (str s) prefix = (prefix, str s) ∷ []

  pub walk_fields : Fields → KeyPath → List (KeyPath × Value)
  walk_fields end prefix = []
  walk_fields (field k v fs) prefix = walk v (prefix ++ k ∷ []) ++ walk_fields fs prefix

-- `none` is the sentinel `KeyError`.
unfoldable pub get : Value → KeyPath → Option Value
get v [] = some v
get (obj fs) (k ∷ ks) = elim (find k fs) [ none ↦ none | some v ↦ get v ks ]
get _ (k ∷ ks) = none

-- The mapping at `k`, made if there is none.
abbrev pub child : String → Fields → Fields
child k fs = elim (find k fs) [ some (obj gs) ↦ gs | _ ↦ end ]

-- `put` on the root mapping; `walk` yields no empty path below one.
unfoldable pub put : Fields → KeyPath → Value → Fields
put fs [] v = fs
put fs (k ∷ ks) v =
    let below = put (child k fs) ks v in
    elim ks [ [] ↦ store k v fs | _ ∷ _ ↦ store k (obj below) fs ]

-- `a == b` where either may be the sentinel
unfoldable pub same_found : Option Value → Option Value → Bool
same_found none none = true
same_found (some v) (some w) = same v w
same_found _ _ = false

abbrev pub found : Option Value → Bool
found none = false
found (some v) = true

pub record Conflict : Type 0 where
  pub path : KeyPath
  pub base : Option Value
  pub ours : Option Value
  pub theirs : Option Value

pub record Merge : Type 0 where
  pub ours : Fields
  pub taken : List KeyPath
  pub kept : List KeyPath
  pub conflicts : List Conflict

abbrev take : KeyPath → Option Value → Merge → Merge
take p none m = m
take p (some v) m = record m { ours = put m.ours p v; taken = m.taken ++ p ∷ [] }

abbrev keep : KeyPath → Merge → Merge
keep p m = record m { kept = m.kept ++ p ∷ [] }

abbrev clash : KeyPath → Option Value → Option Value → Option Value → Merge → Merge
clash p b o t m = record m {
  conflicts = m.conflicts ++ (record { path = p; base = b; ours = o; theirs = t }) ∷ [];
}

-- The body of the loop in `merge`, on the three values at the path.
abbrev pub decide : KeyPath → Option Value → Option Value → Option Value → Merge → Merge
decide p b o t m =
    if same_found o t
    then m
    else if same_found o b && found t
    then take p t m
    else if same_found t b
    then keep p m
    else clash p b o t m

unfoldable pub merge_step : Fields → Fields → Merge → KeyPath → Merge
unfolding get put
merge_step base theirs m p = decide p (get (obj base) p) (get (obj m.ours) p) (get (obj theirs) p) m

unfoldable pub merge_all : Fields → Fields → Merge → List KeyPath → Merge
unfolding merge_step
merge_all base theirs m [] = m
merge_all base theirs m (p ∷ ps) = merge_all base theirs (merge_step base theirs m p) ps

unfoldable pub path_eq : KeyPath → KeyPath → Bool
path_eq [] [] = true
path_eq (a ∷ p) (b ∷ q) = a == b && path_eq p q
path_eq _ _ = false

unfoldable pub path_le : KeyPath → KeyPath → Bool
path_le [] q = true
path_le (a ∷ p) [] = false
path_le (a ∷ p) (b ∷ q) = if a == b then path_le p q else str_leb a b

-- The set of the paths: each once.
unfoldable pub has_path : List KeyPath → KeyPath → Bool
has_path [] p = false
has_path (q ∷ qs) p = path_eq q p || has_path qs p

unfoldable pub distinct : List KeyPath → List KeyPath
unfolding has_path
distinct [] = []
distinct (p ∷ ps) = let rest = distinct ps in if has_path rest p then rest else p ∷ rest

unfoldable pub leaf_paths : Fields → List KeyPath
unfolding walk
leaf_paths fs = map (λ (e : KeyPath × Value). e.0) (walk (obj fs) [])

-- `sorted(paths)`
unfoldable pub paths_of : Fields → Fields → Fields → List KeyPath
unfolding distinct leaf_paths
paths_of base ours theirs =
    sort_with path_le (distinct (leaf_paths base ++ (leaf_paths ours ++ leaf_paths theirs)))

unfoldable pub merge : Fields → Fields → Fields → Merge
unfolding merge_all paths_of
merge base ours theirs =
    merge_all base theirs (record { ours = ours; taken = []; kept = []; conflicts = [] })
      (paths_of base ours theirs)
