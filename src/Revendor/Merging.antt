-- ===== src/Revendor/Merging.antt =====
-- What `merge` leaves at a leaf path that stands beside all other leaf paths, and in which of its
-- three lists the path is reported.
use krateo_openstack_bluepri.Prelude.{
  true, false, Bool-cases, none, some, Option-cases, List, [], ◌∷◌, ◌++◌, ◌≡◌, ◌≢◌, inl, inr, ◌↔◌,
  refl, sym, ap, subst, ◌∙◌, arith, eq_iff, Value, Fields, obj, In, All, Nodup, Nodup-split,
  sort_with-Nodup, map,
}
use krateo_openstack_bluepri.Revendor.{
  KeyPath, get, same_found, Conflict, Merge, merge_all, path_eq, path_le, has_path, distinct,
  leaf_paths, paths_of, merge,
}
use krateo_openstack_bluepri.Revendor.Paths.{Parts, IsPath}
use krateo_openstack_bluepri.Revendor.Rulings.{
  Ruling, settled, take, keep, clash, ruling, resolve, reported, split_value, split_reports,
}

path_eq-eq : (p q : KeyPath) → p ≡ q → path_eq p q ≡ true
unfolding path_eq
path_eq-eq [] [] e = refl
path_eq-eq [] (j ∷ js) e = cc
path_eq-eq (k ∷ ks) [] e = cc
path_eq-eq (k ∷ ks) (j ∷ js) e =
    let head : k ≡ j = cc in
    let tail : ks ≡ js = cc in rw ((eq_iff k j).1 head) (path_eq-eq ks js tail)

distinct-In : (ps : List KeyPath) (p : KeyPath) → has_path ps p ≡ false → ¬ In p ps
unfolding has_path
distinct-In [] p h m = m
distinct-In (q ∷ qs) p h (inl e) = ground (arith, path_eq-eq q p (sym e))
distinct-In (q ∷ qs) p h (inr m) = ground (arith, distinct-In qs p)

distinct-Nodup : (ps : List KeyPath) → Nodup (distinct ps)
unfolding distinct
distinct-Nodup [] = tt
distinct-Nodup (p ∷ ps) = elim (Bool-cases (has_path (distinct ps) p)) [
  | inl there ↦ rw (there, distinct) (distinct-Nodup ps)
  | inr absent ↦ rw (absent, distinct) (distinct-In (distinct ps) p absent, distinct-Nodup ps)
]

paths_of-Nodup : (base ours theirs : Fields) → Nodup (paths_of base ours theirs)
unfolding paths_of
paths_of-Nodup base ours theirs =
    sort_with-Nodup path_le _
      (distinct-Nodup (leaf_paths base ++ (leaf_paths ours ++ leaf_paths theirs)))

All-In : (P : KeyPath → Type 0) (l : List KeyPath) → ((q : KeyPath) → In q l → P q) → All P l
All-In P [] h = tt
All-In P (x ∷ l) h = (h x (inl refl), All-In P l (λ q m. h q (inr m)))

-- Every other leaf path of the three documents parts from this one.
abbrev pub StandsBeside : List KeyPath → KeyPath → Type 0
StandsBeside ps p = (q : KeyPath) → In q ps → q ≢ p → Parts q p

-- At a leaf path that parts from all other leaf paths of the three documents, the merge leaves the
-- value of its ruling on base, ours and theirs, and reports the path in the list of that ruling
-- and in no other list.
pub merge_at_leaf :
    (base ours theirs : Fields) (p : KeyPath)
    → IsPath p
    → In p (paths_of base ours theirs)
    → StandsBeside (paths_of base ours theirs) p
    → (get (obj (merge base ours theirs).ours) p
        ≡ resolve (get (obj base) p) (get (obj ours) p) (get (obj theirs) p))
      × ((r : Ruling)
          → In p (reported r (merge base ours theirs)) ↔ (
              (ruling (get (obj base) p) (get (obj ours) p) (get (obj theirs) p) ≡ r)
              × (r ≢ settled)))
unfolding merge
merge_at_leaf base ours theirs p h m beside =
    let start : Merge = record { ours = ours; taken = []; kept = []; conflicts = [] } in
    let (before, after, split, early, late) =
      Nodup-split p (paths_of base ours theirs) (paths_of-Nodup base ours theirs) m in
    let early' = All-In (λ q. Parts q p) before (λ q k. beside q (early q k).0 (early q k).1) in
    let late' = All-In (λ q. Parts q p) after (λ q k. beside q (late q k).0 (late q k).1) in
    (
      ap (λ (l : List KeyPath). get (obj (merge_all base theirs start l).ours) p) split
          ∙ split_value base theirs start before after p h early' late',
      λ r.
          subst
            (λ (l : List KeyPath). In p (reported r (merge_all base theirs start l)) ↔ (
              (ruling (get (obj base) p) (get (obj ours) p) (get (obj theirs) p) ≡ r)
              × (r ≢ settled)))
            (sym split) (split_reports base theirs start before after p r early' late' (fresh r)),
    )
  where
    fresh :
        (r : Ruling)
        → ¬ In p (reported r (record { ours = ours; taken = []; kept = []; conflicts = [] }))
    fresh settled x = x
    fresh take x = x
    fresh keep x = x
    fresh clash x = x

-- A leaf that upstream deleted, and that we had not overridden, is reported as a conflict: it is
-- neither deleted nor passed over.
pub merge_deleted_upstream :
    (base ours theirs : Fields) (p : KeyPath) (v : Value)
    → IsPath p
    → In p (paths_of base ours theirs)
    → StandsBeside (paths_of base ours theirs) p
    → get (obj base) p ≡ some v
    → same_found (get (obj ours) p) (get (obj base) p) ≡ true
    → get (obj theirs) p ≡ none
    → In p (map (λ (c : Conflict). c.path) (merge base ours theirs).conflicts)
      × (get (obj (merge base ours theirs).ours) p ≡ get (obj ours) p)
unfolding same_found
merge_deleted_upstream base ours theirs p v path leaf beside b o t =
    let (value, lists) = merge_at_leaf base ours theirs p path leaf beside in
    elim (Option-cases (get (obj ours) p)) [
      | inl gone ↦ absurd (ground arith)
      | inr (w, there) ↦ ((lists clash).1 (ground arith, λ e. cc), ground arith)
    ]
