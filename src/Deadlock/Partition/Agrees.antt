-- ===== src/Deadlock/Partition/Agrees.antt =====
-- What a partition that passes `check_partition` of hack/validate-readiness-deadlock.py agrees with.
use krateo_openstack_bluepri.Prelude.{
  ℕ, String, Bool, true, false, Bool-cases, not, ◌≡◌, ◌↔◌, refl, sym, ap, ◌∙◌, subst, inl, inr,
  Option, none, some, List, [], ◌∷◌, In, ◌==◌, eq_iff, keep, sorted, sorted_by, str_leb,
  In-sort_with, In-sorted_by, lookup, return, >>=-inv, false_true,
}
use krateo_openstack_bluepri.Deadlock.Umbrella.{Comps, Edge, has_edge}
use krateo_openstack_bluepri.Deadlock.Partition.{
  Halves, Rendered, read_lines, same_texts, wanted, is_right, wrong, judge_wrong, compare_all,
  check_partition,
}

same_texts-eq : (xs ys : List String) → same_texts xs ys ≡ true → xs ≡ ys
same_texts-eq [] [] h = refl
same_texts-eq [] (y ∷ ys) h = false_true h
same_texts-eq (x ∷ xs) [] h = false_true h
same_texts-eq (x ∷ xs) (y ∷ ys) h = elim (Bool-cases (x == y)) [
  | inl e ↦ rw ((eq_iff x y).0 e, same_texts-eq xs ys (rw e at h)) refl
  | inr apart ↦ false_true (rw apart at h)
]

-- The template's halves of a component
pub record Gates (declared : List Edge) (name : String) (deps : List String) (got : Halves)
    : Type 0 where
  pub strict : (d : String) → In d got.strict ↔ (In d deps × (has_edge declared (name, d) ≡ false))
  pub relaxed : (d : String) → In d got.relaxed ↔ (In d deps × (has_edge declared (name, d) ≡ true))

In-keep :
    (p : String → Bool) (d : String) (xs : List String)
    → In d (keep p xs) ↔ (In d xs × (p d ≡ true))
In-keep p d [] = (λ m. absurd m, λ h. h.0)
In-keep p d (x ∷ xs) = elim (Bool-cases (p x)) [
  | inl kept ↦ rw kept (
    λ m. elim m [
      | inl e ↦ (inl e, rw e kept)
      | inr later ↦ let (there, ok) = (In-keep p d xs).0 later in (inr there, ok)
    ],
    λ (m, ok). elim m [ inl e ↦ inl e | inr later ↦ inr ((In-keep p d xs).1 (later, ok)) ],
  )
  | inr dropped ↦ rw dropped (
    λ m. let (there, ok) = (In-keep p d xs).0 m in (inr there, ok),
    λ (m, ok). elim m [
      | inl e ↦ false_true (sym dropped ∙ ap p (sym e) ∙ ok)
      | inr later ↦ (In-keep p d xs).1 (later, ok)
    ],
  )
]

In-sorted-keep :
    (p : String → Bool) (d : String) (xs : List String)
    → In d (sorted (keep p xs)) ↔ (In d xs × (p d ≡ true))
In-sorted-keep p d xs =
    let order = In-sort_with str_leb d (keep p xs) in
    let kept = In-keep p d xs in (λ m. kept.0 (order.0 m), λ h. order.1 (kept.1 h))

not-false : (b : Bool) → (not b ≡ true) ↔ (b ≡ false)
not-false true = (λ h. false_true h, λ h. false_true (sym h))
not-false false = (λ h. refl, λ h. refl)

wanted-Gates :
    (declared : List Edge) (name : String) (deps : List String)
    → Gates declared name deps (wanted declared name deps)
unfolding wanted
wanted-Gates declared name deps = record {
  strict = λ d.
      let kept = In-sorted-keep (λ x. not (has_edge declared (name, x))) d deps in
      let flip = not-false (has_edge declared (name, d)) in
      (λ m. ((kept.0 m).0, flip.0 (kept.0 m).1), λ h. kept.1 (h.0, flip.1 h.1));
  relaxed = λ d. In-sorted-keep (λ x. has_edge declared (name, x)) d deps;
}

right-Gates :
    (declared : List Edge) (name : String) (deps : List String) (got : Option Halves)
    → is_right declared name deps got ≡ true
    → (h : Halves) × ((got ≡ some h) × Gates declared name deps h)
right-Gates declared name deps none e = false_true e
right-Gates declared name deps (some got) e =
    let want = wanted declared name deps in
    elim (Bool-cases (same_texts got.strict want.strict)) [
      | inr apart ↦ false_true (rw apart at e)
      | inl same ↦
          let rest : same_texts got.relaxed want.relaxed ≡ true = rw same at e in
          let all_same : want ≡ got =
            rw
              (
                same_texts-eq got.strict want.strict same,
                same_texts-eq got.relaxed want.relaxed rest,
              )
              refl in
          (got, (refl, subst (Gates declared name deps) all_same (wanted-Gates declared name deps)))
    ]

wrong-nil :
    (declared : List Edge) (rendered : Rendered) (comps : Comps)
    → wrong declared rendered comps ≡ []
    → (name : String) (deps : List String) → In (name, deps) comps
    → is_right declared name deps (lookup name rendered) ≡ true
unfolding wrong
wrong-nil declared rendered [] h name deps m = absurd m
wrong-nil declared rendered ((n, ds) ∷ more) h name deps m =
    elim (Bool-cases (is_right declared n ds (lookup n rendered))) [
      | inr bad ↦ cc (rw (bad, wrong) at h)
      | inl good ↦ elim m [
        | inl e ↦
            subst
              (λ (c : String × List String). is_right declared c.0 c.1 (lookup c.0 rendered) ≡ true)
              (sym e) good
        | inr later ↦ wrong-nil declared rendered more (rw (good, wrong) at h) name deps later
      ]
    ]

judge_wrong-nil :
    (rendered : Rendered) (ns : List String) (k : ℕ) → judge_wrong rendered ns ≡ return k → ns ≡ []
judge_wrong-nil rendered [] k h = refl
judge_wrong-nil rendered (n ∷ ns) k h = cc

compare_all-nil :
    (comps : Comps) (declared : List Edge) (rendered : Rendered) (k : ℕ)
    → compare_all comps declared rendered ≡ return k
    → wrong declared rendered (sorted_by (λ (e : String × List String). e.0) comps) ≡ []
compare_all-nil comps declared [] k h = cc
compare_all-nil comps declared (r ∷ rs) k h = judge_wrong-nil (r ∷ rs) _ k h

-- When the comparison of the partition comes to a count, then for each component the lines that the
-- templates print have two halves: the dependencies that are not relaxed, and those that are.
pub check_partition-Gates :
    (lines : List String) (comps : Comps) (declared : List Edge) (count : ℕ)
    → check_partition (some lines) comps declared ≡ return count
    → (rendered : Rendered) × ((read_lines lines [] ≡ return rendered)
        × ((name : String) (deps : List String)
            → In (name, deps) comps
            → (halves : Halves) × ((lookup name rendered ≡ some halves)
                × Gates declared name deps halves)))
unfolding check_partition
check_partition-Gates lines comps declared count h =
    let (rendered, e, passed) =
      >>=-inv (read_lines lines []) (compare_all comps declared) count h in
    (
      rendered,
      (
        e,
        λ name deps m. right-Gates declared name deps (lookup name rendered) (
            wrong-nil declared rendered (sorted_by (λ (c : String × List String). c.0) comps)
              (compare_all-nil comps declared rendered count passed) name deps
              ((In-sorted_by (λ (c : String × List String). c.0) (name, deps) comps).1 m)),
      ),
    )
