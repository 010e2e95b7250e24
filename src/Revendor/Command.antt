-- ===== src/Revendor/Command.antt =====
-- `main` and `selftest` of hack/revendor.py. `pull` stands for `helm pull` and the parse of what it
-- fetched, `vendored` for blueprints/<component>/chart/values.yaml, where it exists.
pub mod Writes
use krateo_openstack_bluepri.Prelude.{
  ℕ, zero, suc, String, Bool, true, false, not, ◌&&◌, ◌||◌, is_empty, Option, none, some, List, [],
  ◌∷◌, length, eqb, if◌then◌else◌, Value, Fields, end, field, obj, num, str,
}
use krateo_openstack_bluepri.Revendor.{
  KeyPath, get, same_found, Conflict, Merge, has_path, paths_of, merge,
}

pub record Args : Type 0 where
  pub component : Option String
  pub base : Option String
  pub theirs : Option String
  pub apply : Bool
  pub selftest : Bool

pub data Outcome : Type 0 where
  selftest_ok selftest_failed usage_error no_chart pull_failed : Outcome
  refused : Merge → Outcome
  written : Fields → Merge → Outcome
  reported_only : Merge → Outcome

abbrev no_conflicts : Merge → Bool
no_conflicts m = eqb (length m.conflicts) 0

-- A document with one leaf, below the given keys.
abbrev nest : KeyPath → Value → Fields
nest [] v = end
nest (k ∷ []) v = field k v end
nest (k ∷ j ∷ ks) v = field k (obj (nest (j ∷ ks) v)) end

abbrev secret_path : KeyPath
secret_path = "conf" ∷ "horizon" ∷ "horizon_secret_key" ∷ []

abbrev tag_path : KeyPath
tag_path = "images" ∷ "tags" ∷ "glance" ∷ []

selftest_override : Bool
unfolding merge get same_found has_path
selftest_override =
    let upstream = nest secret_path (str "9aee62c0-uuid") in
    let m = merge upstream (nest secret_path (str "changeme-set-me")) upstream in
    same_found (get (obj m.ours) secret_path) (some (str "changeme-set-me"))
    && has_path m.kept secret_path
    && no_conflicts m

selftest_upstream : Bool
unfolding merge get same_found has_path
selftest_upstream =
    let old = nest tag_path (str "old") in
    let m = merge old old (nest tag_path (str "new")) in
    same_found (get (obj m.ours) tag_path) (some (str "new")) && has_path m.taken tag_path

selftest_conflict : Bool
unfolding merge
selftest_conflict =
    let m = merge (nest ("a" ∷ []) (num 1)) (nest ("a" ∷ []) (num 2)) (nest ("a" ∷ []) (num 3)) in
    eqb (length m.conflicts) 1

unfoldable pub selftest : Bool
unfolding selftest_override selftest_upstream selftest_conflict
selftest = selftest_override && selftest_upstream && selftest_conflict

module _ (vendored : String → Option Fields) (pull : String → String → Option Fields) where
  abbrev pub finish : Bool → Merge → Outcome
  finish true m = if no_conflicts m then written m.ours m else refused m
  finish false m = reported_only m

  abbrev pub merge_pulled : Bool → Fields → Option Fields → Option Fields → Outcome
  merge_pulled apply ours (some base) (some theirs) = finish apply (merge base ours theirs)
  merge_pulled apply ours (some base) none = pull_failed
  merge_pulled apply ours none theirs = pull_failed

  -- With the component and both versions given.
  unfoldable pub revendor : Bool → String → String → String → Outcome
  revendor apply component base theirs = elim (vendored component) [
    | none ↦ no_chart
    | some ours ↦ merge_pulled apply ours (pull component base) (pull component theirs)
  ]

  -- An empty argument counts as one that is not given.
  abbrev with_args : Bool → Option String → Option String → Option String → Outcome
  with_args apply (some c) (some b) (some t) =
      if is_empty c || is_empty b || is_empty t then usage_error else revendor apply c b t
  with_args apply (some c) (some b) none = usage_error
  with_args apply (some c) none t = usage_error
  with_args apply none b t = usage_error

  unfoldable pub main : Args → Outcome
  unfolding revendor
  main a =
      if a.selftest
      then if selftest then selftest_ok else selftest_failed
      else with_args a.apply a.component a.base a.theirs

-- The process's exit status.
unfoldable pub exit_code : Outcome → ℕ
exit_code selftest_ok = 0
exit_code selftest_failed = 1
exit_code usage_error = 2
exit_code no_chart = 1
exit_code pull_failed = 1
exit_code (refused m) = 1
exit_code (written fs m) = if no_conflicts m then 0 else 1
exit_code (reported_only m) = if no_conflicts m then 0 else 1
