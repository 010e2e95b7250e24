-- ===== src/Series/Counts.antt =====
-- What the counts of hack/series-scope.py come to, and which root it reads.
use krateo_openstack_bluepri.Prelude.{
  ℕ, ◌+◌, String, Bool, true, false, Bool-cases, not, ◌&&◌, ◌≡◌, refl, ap, ◌∙◌, subst, arith, inl,
  inr, Option, none, some, Option-cases, List, [], ◌∷◌, ◌++◌, if◌then◌else◌, ◌==◌, eq_iff, keep,
  length,
}
use text.Mathlib.Text.{starts_with}
use krateo_openstack_bluepri.Series.{
  Reference, Expressions, Values, Count, one_more, count_one, Scope, note, scan_images, skipped,
  scan_values, only_of, args_of, root_of, failed_measurement, report, run,
}

-- One of the two counts of a component, 0 where it has none
abbrev pub counted : Bool → String → List (String × Count) → ℕ
counted b c [] = 0
counted b c ((d, n) ∷ counts) =
    if d == c then (if b then n.moving else n.still) else counted b c counts

abbrev one : Bool → ℕ
one true = 1
one false = 0

abbrev same_kind : Bool → Bool → Bool
same_kind true b = b
same_kind false b = not b

picked : Bool → Count → ℕ
picked b n = if b then n.moving else n.still

picked-one_more :
    (b k : Bool) (n : Count) → picked k (one_more b n) ≡ one (same_kind b k) + picked k n
unfolding picked
picked-one_more true true n = omega arith
picked-one_more true false n = omega arith
picked-one_more false true n = omega arith
picked-one_more false false n = omega arith

count_one-counted :
    (c d : String) (b k : Bool) (counts : List (String × Count))
    → counted k c (count_one d b counts) ≡ one (d == c && same_kind b k) + counted k c counts
unfolding count_one picked
count_one-counted c d b k [] = elim (Bool-cases (d == c)) [
  | inl here ↦ rw here (
      picked-one_more b k (record { moving = 0; still = 0 })
      ∙ ap (λ x. one (same_kind b k) + x) (no_count k))
  | inr there ↦ rw there (omega arith)
]
  where
    no_count : (j : Bool) → ◌≡◌ {A = ℕ} (if j then 0 else 0) 0
    no_count true = refl
    no_count false = refl
count_one-counted c d b k ((e, n) ∷ counts) = elim (Bool-cases (e == d)) [
  | inl same ↦ elim (Bool-cases (e == c)) [
    | inl here ↦
        let d_c : d == c ≡ true = subst (λ x. x == c ≡ true) ((eq_iff e d).0 same) here in
        rw (same, here, d_c) (picked-one_more b k n)
    | inr there ↦
        let d_c : d == c ≡ false = subst (λ x. x == c ≡ false) ((eq_iff e d).0 same) there in
        rw (same, there, d_c) (omega arith)
  ]
  | inr other ↦ elim (Bool-cases (e == c)) [
    | inl here ↦
        let d_c : d == c ≡ false = ground (arith, eq_iff e d, eq_iff e c, eq_iff d c) in
        rw (other, here, d_c) (omega arith)
    | inr there ↦ rw (other, there) (count_one-counted c d b k counts)
  ]
]

abbrev is_kind : Bool → Option (String × String) → Bool
is_kind k none = not k
is_kind k (some g) = k

module _ (ex : Expressions) (c : String) where
  -- The references of the component in the files that are read
  abbrev pub references : Option String → List Values → List Reference
  references only [] = []
  references only (v ∷ vs) =
      if not (skipped ex only v.component) && v.component == c
      then ex.images v.text ++ references only vs
      else references only vs

module _ (ex : Expressions) (c : String) (k : Bool) where
  -- The reference's tag has a series, or has none.
  abbrev pub of_kind : Reference → Bool
  of_kind r = is_kind k (ex.series r.tag)

  abbrev pub kind_in : List Reference → ℕ
  kind_in rs = length (keep of_kind rs)

  kind_in-cons :
      (r : Reference) (rs : List Reference) → kind_in (r ∷ rs) ≡ one (of_kind r) + kind_in rs
  kind_in-cons r rs = elim (Bool-cases (of_kind r)) [
    | inl kept ↦ rw kept (omega arith)
    | inr dropped ↦ rw dropped (omega arith)
  ]

  note-counted :
      (d : String) (r : Reference) (s : Scope)
      → counted k c (note ex d r (ex.series r.tag) s).per_component
        ≡ one (d == c && of_kind r) + counted k c s.per_component
  note-counted d r s = elim (Option-cases (ex.series r.tag)) [
    | inl still ↦ rw still (count_one-counted c d false k s.per_component)
    | inr (g, moves) ↦ rw moves (count_one-counted c d true k s.per_component)
  ]

  scan_images-counted :
      (d : String) (rs : List Reference) (s : Scope)
      → counted k c (scan_images ex d rs s).per_component
        ≡ (if d == c then kind_in rs else 0) + counted k c s.per_component
  unfolding scan_images
  scan_images-counted d [] s = elim (Bool-cases (d == c)) [
    | inl here ↦ rw here (omega arith)
    | inr there ↦ rw there (omega arith)
  ]
  scan_images-counted d (r ∷ rs) s =
      let rest = scan_images-counted d rs (note ex d r (ex.series r.tag) s) in
      let first = note-counted d r s in
      let all_of = kind_in-cons r rs in
      elim (Bool-cases (d == c)) [
        | inl here ↦
            let rest' = rw here at rest in
            let first' = rw here at first in rw here (omega (arith, rest', first', all_of))
        | inr there ↦
            let rest' = rw there at rest in
            let first' = rw there at first in rw there (omega (arith, rest', first'))
      ]

  kind_in-append : (xs ys : List Reference) → kind_in (xs ++ ys) ≡ kind_in xs + kind_in ys
  kind_in-append [] ys = omega arith
  kind_in-append (x ∷ xs) ys =
      omega (arith, kind_in-cons x (xs ++ ys), kind_in-cons x xs, kind_in-append xs ys)

  scan_values-counted :
      (only : Option String) (vs : List Values) (s : Scope)
      → counted k c (scan_values ex only vs s).per_component
        ≡ kind_in (references ex c only vs) + counted k c s.per_component
  unfolding scan_values
  scan_values-counted only [] s = omega arith
  scan_values-counted only (v ∷ vs) s = elim (Bool-cases (skipped ex only v.component)) [
    | inl out ↦ rw (out, scan_values) (scan_values-counted only vs s)
    | inr read ↦
        let here = scan_images-counted v.component (ex.images v.text) s in
        let rest = scan_values-counted only vs (scan_images ex v.component (ex.images v.text) s) in
        let both = kind_in-append (ex.images v.text) (references ex c only vs) in
        elim (Bool-cases (v.component == c)) [
          | inl mine ↦
              let here' = rw mine at here in
              rw (read, scan_values, mine) (omega (arith, here', rest, both))
          | inr other ↦
              let here' = rw other at here in
              rw (read, scan_values, other) (omega (arith, here', rest))
        ]
  ]

report_inj : {a b : Scope} → report a ≡ report b → a ≡ b
report_inj h = cc

-- In a report each component's two counts are the numbers of its references whose tags have a series and
-- of those whose tags have none, over the files that are read.
pub run-counted :
    (ex : Expressions) (glob : String → List Values) (argv : List String) (s : Scope)
    → run ex glob argv ≡ report s
    → (c : String)
    → let rs = references ex c (only_of argv) (glob (root_of (args_of argv))) in
      (counted true c s.per_component ≡ kind_in ex c true rs)
      × (counted false c s.per_component ≡ kind_in ex c false rs)
unfolding run
run-counted ex glob argv s h c = from (glob (root_of (args_of argv))) refl
  where
    empty : Scope
    empty = record { moves = []; static = []; per_component = [] }

    from :
        (vs : List Values)
        → glob (root_of (args_of argv)) ≡ vs
        → (counted true c s.per_component ≡ kind_in ex c true (references ex c (only_of argv) vs))
          × (counted false c s.per_component
              ≡ kind_in ex c false (references ex c (only_of argv) vs))
    from [] e = absurd (no_report (rw (e, run) at h))
      where
        no_report : failed_measurement ≡ report s → ⊥
        no_report z = cc
    from (v ∷ vs) e =
        let is : report (scan_values ex (only_of argv) (v ∷ vs) empty) ≡ report s =
          rw (e, run) at h in
        let both = λ (k : Bool). scan_values-counted ex c k (only_of argv) (v ∷ vs) empty in
        subst
          (λ (x : Scope).
            (counted true c x.per_component
              ≡ kind_in ex c true (references ex c (only_of argv) (v ∷ vs)))
            × (counted false c x.per_component
                ≡ kind_in ex c false (references ex c (only_of argv) (v ∷ vs))))
          (report_inj is) (omega (arith, both true), omega (arith, both false))

-- With `--component NAME` before the root, NAME is read as the root: where no values file stands under
-- it, the run fails to measure, whatever root comes after it.
pub run-failed_measurement :
    (ex : Expressions) (glob : String → List Values) (name : String) (more : List String)
    → starts_with name "--" ≡ false
    → glob name ≡ []
    → run ex glob ("--component" ∷ name ∷ more) ≡ failed_measurement
unfolding run
run-failed_measurement ex glob name more plain empty =
    let named : glob (root_of (args_of ("--component" ∷ name ∷ more))) ≡ [] =
      rw (plain, empty) refl in
    rw (named, run) refl
