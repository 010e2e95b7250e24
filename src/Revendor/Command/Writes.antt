-- ===== src/Revendor/Command/Writes.antt =====
-- What the script writes over a vendored values.yaml.
use krateo_openstack_bluepri.Prelude.{
  String, Bool, true, false, Bool-cases, Option, some, List, [], ◌∷◌, ◌≡◌, ◌≢◌, inl, inr, refl, ap,
  subst, map, eqb, ◌∙◌, arith, length, Value, Fields, obj, In,
}
use krateo_openstack_bluepri.Revendor.{KeyPath, get, same_found, Conflict, Merge, paths_of, merge}
use krateo_openstack_bluepri.Revendor.Paths.{IsPath}
use krateo_openstack_bluepri.Revendor.Rulings.{clash, ruling, resolve}
use krateo_openstack_bluepri.Revendor.Merging.{StandsBeside, merge_at_leaf}
use krateo_openstack_bluepri.Revendor.Command.{written, finish, revendor}

-- The three documents that a run merges.
pub record Pulled (vendored : String → Option Fields) (pull : String → String → Option Fields)
    (c b t : String) (base ours theirs : Fields) : Type 0 where
  pub ours_read : vendored c ≡ some ours
  pub base_pulled : pull c b ≡ some base
  pub theirs_pulled : pull c t ≡ some theirs

conflicts_none : (l : List Conflict) → eqb (length l) 0 ≡ true → l ≡ []
conflicts_none [] h = refl
conflicts_none (c ∷ l) h = absurd (ground arith)

finish_written :
    (vendored : String → Option Fields) (pull : String → String → Option Fields) (apply : Bool)
    (m₀ m : Merge) (fs : Fields)
    → finish vendored pull apply m₀ ≡ written fs m
    → (apply ≡ true) × (fs ≡ m₀.ours) × (m ≡ m₀) × (m₀.conflicts ≡ [])
finish_written vendored pull false m₀ m fs h = cc
finish_written vendored pull true m₀ m fs h = elim (Bool-cases (eqb (length m₀.conflicts) 0)) [
  | inl empty ↦ (refl, ground arith, ground arith, conflicts_none m₀.conflicts empty)
  | inr some_left ↦ absurd (ground arith)
]

module _ (vendored : String → Option Fields) (pull : String → String → Option Fields) (apply : Bool)
    (c b t : String) (base ours theirs fs : Fields) (m : Merge)
    (docs : Pulled vendored pull c b t base ours theirs)
    (done : revendor vendored pull apply c b t ≡ written fs m) where
  written_merge :
      (apply ≡ true)
      × (fs ≡ (merge base ours theirs).ours)
      × ((merge base ours theirs).conflicts ≡ [])
  unfolding revendor
  written_merge =
      let (flag, file, _, clean) =
        finish_written vendored pull apply (merge base ours theirs) m fs
          (rw (docs.ours_read, docs.base_pulled, docs.theirs_pulled, revendor) at done) in
      (flag, file, clean)

  module _ (p : KeyPath) (path : IsPath p) (leaf : In p (paths_of base ours theirs))
      (beside : StandsBeside (paths_of base ours theirs) p) where
    -- A file is written only under --apply, and then at a leaf path that parts from all other leaf
    -- paths of the three documents it holds the value of the merge rule, which is no conflict there.
    pub written_resolves :
        (apply ≡ true)
        × (get (obj fs) p ≡ resolve (get (obj base) p) (get (obj ours) p) (get (obj theirs) p))
        × (ruling (get (obj base) p) (get (obj ours) p) (get (obj theirs) p) ≢ clash)
    written_resolves =
        let (flag, file, clean) = written_merge in
        let (value, lists) = merge_at_leaf base ours theirs p path leaf beside in
        (
          flag,
          ap (λ (x : Fields). get (obj x) p) file ∙ value,
          λ e.
              subst (λ (l : List Conflict). In p (map (λ (x : Conflict). x.path) l)) clean
                ((lists clash).1 (e, λ x. cc)),
        )

    -- An override that upstream did not touch is in the written file as it was.
    pub written_keeps_override :
        same_found (get (obj ours) p) (get (obj base) p) ≡ false
        → same_found (get (obj theirs) p) (get (obj base) p) ≡ true
        → get (obj fs) p ≡ get (obj ours) p
    written_keeps_override moved still = let (_, value, _) = written_resolves in ground arith

    -- Where we had not overridden the leaf, the written file has upstream's new value.
    pub written_takes_upstream :
        (v : Value)
        → get (obj theirs) p ≡ some v
        → same_found (get (obj ours) p) (get (obj base) p) ≡ true
        → same_found (get (obj ours) p) (get (obj theirs) p) ≡ false
        → get (obj fs) p ≡ some v
    written_takes_upstream v new still moved = let (_, value, _) = written_resolves in ground arith
