-- ===== src/Revendor/Rulings.antt =====
-- The rulings of the merge, and what each step of `merge` does at its own path and beside it.
use krateo_openstack_bluepri.Prelude.{
  Option, Option-cases, List, [], ◌∷◌, ◌++◌, ◌≡◌, ◌≢◌, ◌⊎◌, inl, inr, ◌↔◌, refl, sym, ap, subst,
  ◌∙◌, arith, ◌&&◌, if◌then◌else◌, Value, Fields, obj, In, In-append_left, In-append_right,
  In-append_cases, All, map,
}
use krateo_openstack_bluepri.Revendor.{
  KeyPath, get, same_found, found, Conflict, Merge, merge_step, merge_all,
}
use krateo_openstack_bluepri.Revendor.Paths.{Parts, IsPath, get-put, get-put-Parts}

-- The merge rule of the script's docstring, where a deleted leaf of upstream is a conflict.
pub data Ruling : Type 0 where
  settled take keep clash : Ruling

abbrev pub ruling : (base ours theirs : Option Value) → Ruling
ruling b o t =
    if same_found o t
    then settled
    else if same_found o b && found t
    then take
    else if same_found t b
    then keep
    else clash

-- The value that the ruling leaves.
abbrev pub resolve : (base ours theirs : Option Value) → Option Value
resolve b o t = elim (ruling b o t) [ take ↦ t | _ ↦ o ]

-- The list that reports the path.
abbrev pub reported : Ruling → Merge → List KeyPath
reported settled m = []
reported take m = m.taken
reported keep m = m.kept
reported clash m = map (λ (c : Conflict). c.path) m.conflicts

map-append :
    (f : Conflict → KeyPath) (xs ys : List Conflict) → map f (xs ++ ys) ≡ map f xs ++ map f ys
map-append f [] ys = refl
map-append f (x ∷ xs) ys = ap (λ (l : List KeyPath). f x ∷ l) (map-append f xs ys)

pub Parts-ne : (p q : KeyPath) → Parts p q → p ≢ q
Parts-ne [] q h e = h
Parts-ne (k ∷ ks) [] h e = h
Parts-ne (k ∷ ks) (j ∷ js) (inl ne) e = ne (cc)
Parts-ne (k ∷ ks) (j ∷ js) (inr (same, h)) e = Parts-ne ks js h (cc)

module _ (base theirs : Fields) where
  abbrev ruled : Merge → KeyPath → Ruling
  ruled m p = ruling (get (obj base) p) (get (obj m.ours) p) (get (obj theirs) p)

  step_value :
      (m : Merge) (p : KeyPath)
      → IsPath p
      → get (obj (merge_step base theirs m p).ours) p
        ≡ resolve (get (obj base) p) (get (obj m.ours) p) (get (obj theirs) p)
  unfolding merge_step
  step_value m p h = elim (Option-cases (get (obj theirs) p)) [
    | inl gone ↦ ground arith
    | inr (v, there) ↦ ground (arith, get-put m.ours p v h)
  ]

  step_beside :
      (m : Merge) (p q : KeyPath)
      → Parts p q
      → get (obj (merge_step base theirs m p).ours) q ≡ get (obj m.ours) q
  unfolding merge_step
  step_beside m p q h = elim (Option-cases (get (obj theirs) p)) [
    | inl gone ↦ ground arith
    | inr (v, there) ↦ ground (arith, get-put-Parts m.ours p q v h)
  ]

  In-snoc : (q p : KeyPath) (l : List KeyPath) → In q (l ++ p ∷ []) ↔ (In q l ⊎ (q ≡ p))
  In-snoc q p l = (
    λ h. elim (In-append_cases q l (p ∷ []) h) [
      | inl old ↦ inl old
      | inr (inl e) ↦ inr e
      | inr (inr empty) ↦ absurd empty
    ],
    λ h. elim h [
      | inl old ↦ In-append_left q l (p ∷ []) old
      | inr e ↦ In-append_right q l (p ∷ []) (inl e)
    ],
  )

  In-snoc_conflict :
      (q : KeyPath) (c : Conflict) (l : List Conflict)
      → In q (map (λ (x : Conflict). x.path) (l ++ c ∷ []))
        ↔ (In q (map (λ (x : Conflict). x.path) l) ⊎ (q ≡ c.path))
  In-snoc_conflict q c l =
      rw (map-append (λ (x : Conflict). x.path) l (c ∷ []))
        (In-snoc q c.path (map (λ (x : Conflict). x.path) l))

  -- A step reports its own path, in the list of its ruling, and nothing else.
  step_reports :
      (r : Ruling) (m : Merge) (p q : KeyPath)
      → In q (reported r (merge_step base theirs m p))
        ↔ (In q (reported r m) ⊎ (q ≡ p) × (ruled m p ≡ r) × (r ≢ settled))
  unfolding merge_step
  step_reports settled m p q = (absurd, λ h. elim h [ inl x ↦ x | inr (e, _, ne) ↦ ne refl ])
  step_reports take m p q = elim (Option-cases (get (obj theirs) p)) [
    | inl gone ↦ ground (arith, In-snoc q p m.taken)
    | inr (v, there) ↦ ground (arith, In-snoc q p m.taken)
  ]
  step_reports keep m p q = elim (Option-cases (get (obj theirs) p)) [
    | inl gone ↦ ground (arith, In-snoc q p m.kept)
    | inr (v, there) ↦ ground (arith, In-snoc q p m.kept)
  ]
  step_reports clash m p q =
      let c : Conflict = record {
        path = p;
        base = get (obj base) p;
        ours = get (obj m.ours) p;
        theirs = get (obj theirs) p;
      } in
      elim (Option-cases (get (obj theirs) p)) [
        | inl gone ↦ ground (arith, In-snoc_conflict q c m.conflicts)
        | inr (v, there) ↦ ground (arith, In-snoc_conflict q c m.conflicts)
      ]

  All-beside :
      (m : Merge) (q : KeyPath) (ps : List KeyPath)
      → All (λ p. Parts p q) ps
      → get (obj (merge_all base theirs m ps).ours) q ≡ get (obj m.ours) q
  unfolding merge_all
  All-beside m q [] h = refl
  All-beside m q (p ∷ ps) h =
      All-beside (merge_step base theirs m p) q ps h.1 ∙ step_beside m p q h.0

  All-reports :
      (r : Ruling) (m : Merge) (q : KeyPath) (ps : List KeyPath)
      → All (λ p. Parts p q) ps
      → In q (reported r (merge_all base theirs m ps)) ↔ In q (reported r m)
  unfolding merge_all
  All-reports r m q [] h = (λ x. x, λ x. x)
  All-reports r m q (p ∷ ps) h =
      let later = All-reports r (merge_step base theirs m p) q ps h.1 in
      let here = step_reports r m p q in
      (
        λ x. elim (here.0 (later.0 x)) [
          | inl old ↦ old
          | inr (e, _, _) ↦ absurd (Parts-ne p q h.0 (sym e))
        ],
        λ x. later.1 (here.1 (inl x)),
      )

  merge_all-append :
      (m : Merge) (ps qs : List KeyPath)
      → merge_all base theirs m (ps ++ qs) ≡ merge_all base theirs (merge_all base theirs m ps) qs
  unfolding merge_all
  merge_all-append m [] qs = refl
  merge_all-append m (p ∷ ps) qs = merge_all-append (merge_step base theirs m p) ps qs

  -- The whole loop, at a path that parts from those before and from those after it.
  pub split_value :
      (m : Merge) (before after : List KeyPath) (p : KeyPath)
      → IsPath p
      → All (λ q. Parts q p) before
      → All (λ q. Parts q p) after
      → get (obj (merge_all base theirs m (before ++ p ∷ after)).ours) p
        ≡ resolve (get (obj base) p) (get (obj m.ours) p) (get (obj theirs) p)
  unfolding merge_all
  split_value m before after p h early late =
      let n = merge_all base theirs m before in
      ap (λ (x : Merge). get (obj x.ours) p) (merge_all-append m before (p ∷ after))
      ∙ All-beside (merge_step base theirs n p) p after late
      ∙ step_value n p h
      ∙ ap (λ (o : Option Value). resolve (get (obj base) p) o (get (obj theirs) p))
          (All-beside m p before early)

  pub split_reports :
      (m : Merge) (before after : List KeyPath) (p : KeyPath) (r : Ruling)
      → All (λ q. Parts q p) before
      → All (λ q. Parts q p) after
      → ¬ In p (reported r m)
      → In p (reported r (merge_all base theirs m (before ++ p ∷ after)))
        ↔ ((ruled m p ≡ r) × (r ≢ settled))
  unfolding merge_all
  split_reports m before after p r early late fresh =
      let n = merge_all base theirs m before in
      let whole = merge_all-append m before (p ∷ after) in
      let last = All-reports r (merge_step base theirs n p) p after late in
      let here = step_reports r n p p in
      let first = All-reports r m p before early in
      let value : ruled n p ≡ ruled m p =
        ap (λ (o : Option Value). ruling (get (obj base) p) o (get (obj theirs) p))
          (All-beside m p before early) in
      (
        λ x. elim (here.0 (last.0 (subst (λ (y : Merge). In p (reported r y)) whole x))) [
          | inl old ↦ absurd (fresh (first.0 old))
          | inr (_, e, ne) ↦ (sym value ∙ e, ne)
        ],
        λ (e, ne).
            subst (λ (y : Merge). In p (reported r y)) (sym whole)
              (last.1 (here.1 (inr (refl, value ∙ e, ne)))),
      )
