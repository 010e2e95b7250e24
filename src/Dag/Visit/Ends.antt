-- ===== src/Dag/Visit/Ends.antt =====
-- The search ends: each descent paints a white component grey, and there are only so many.
use krateo_openstack_bluepri.Prelude.{
  ℕ, zero, suc, ◌≤◌, ◌<◌, String, Bool, true, false, Bool-cases, Option, some, List, [], ◌∷◌, ◌++◌,
  ◌≡◌, inl, inr, refl, eq_iff, if◌then◌else◌, arith, In, length, sorted, In-sorted_by, names_of,
}
use krateo_openstack_bluepri.Dag.Graph.{Components, declares, deps_of, declares-In, In-declares}
use krateo_openstack_bluepri.Dag.Visit.{
  Colour, white, grey, black, Search, colour, paint, report, visit_deps, visit, visit_all, start,
  search,
}
use krateo_openstack_bluepri.Dag.Visit.Paint.{colour-paint, Colour-cases}

abbrev is_white : Colour → Bool
is_white white = true
is_white _ = false

-- How many of the names are still white.
abbrev whites : List String → Search → ℕ
whites [] s = 0
whites (n ∷ ns) s = if is_white (colour s n) then suc (whites ns s) else whites ns s

whites-paint-le :
    (ns : List String) (n : String) (c : Colour) (s : Search)
    → is_white c ≡ false
    → whites ns (paint n c s) ≤ whites ns s
whites-paint-le [] n c s h = omega arith
whites-paint-le (m ∷ ns) n c s h = ground (arith, colour-paint n m c s, whites-paint-le ns n c s h)

whites-paint-lt :
    (ns : List String) (n : String) (c : Colour) (s : Search)
    → is_white c ≡ false
    → colour s n ≡ white
    → In n ns
    → whites ns (paint n c s) < whites ns s
whites-paint-lt [] n c s h w m = absurd m
whites-paint-lt (x ∷ ns) n c s h w (inl e) =
    ground (arith, colour-paint n x c s, eq_iff n x, whites-paint-le ns n c s h)
whites-paint-lt (x ∷ ns) n c s h w (inr m) =
    ground (arith, colour-paint n x c s, whites-paint-lt ns n c s h w m)

whites-report :
    (ns : List String) (path : List String) (s : Search) → whites ns (report path s) ≡ whites ns s
unfolding report
whites-report [] path s = refl
whites-report (n ∷ ns) path s = ground (arith, whites-report ns path s)

module _ (comps : Components) where
  abbrev left : Search → ℕ
  left s = whites (names_of comps) s

  -- A run that gives a result and uncovers no white component.
  abbrev Ends : Option Search → Search → Type 0
  Ends r s = (t : Search) × (r ≡ some t) × (left t ≤ left s)

  visit_deps-Ends :
      (bound : ℕ) (call : String → Search → Option Search)
      → ((d : String) (s : Search) → declares comps d ≡ true → left s < bound → Ends (call d s) s)
      → (ds : List String) (s : Search) → left s < bound
      → Ends (visit_deps comps call ds s) s
  unfolding visit_deps
  visit_deps-Ends bound call h [] s lt = (s, refl, omega arith)
  visit_deps-Ends bound call h (d ∷ ds) s lt = elim (Bool-cases (declares comps d)) [
    | inl known ↦
        let (u, called, le) = h d s known lt in
        let (t, rest, le') = visit_deps-Ends bound call h ds u (omega arith) in
        (t, rw (known, visit_deps) (rw called rest), omega arith)
    | inr unknown ↦
        let (t, rest, le) = visit_deps-Ends bound call h ds s lt in
        (t, rw (unknown, visit_deps) rest, le)
  ]

  visit-Ends :
      (fuel : ℕ) (stack : List String) (n : String) (s : Search)
      → declares comps n ≡ true
      → left s < fuel
      → Ends (visit comps fuel stack n s) s
  unfolding visit
  visit-Ends zero stack n s k lt = absurd (omega arith)
  visit-Ends (suc fuel) stack n s k lt = elim (Colour-cases (colour s n)) [
    | inl is_white ↦
        let down =
          whites-paint-lt (names_of comps) n grey s refl is_white (declares-In comps n k) in
        let (u, looped, le) =
          visit_deps-Ends fuel (visit comps fuel (stack ++ n ∷ []))
            (visit-Ends fuel (stack ++ n ∷ [])) (deps_of comps n) (paint n grey s) (omega arith) in
        (
          paint n black u,
          rw (is_white, visit) (rw looped refl),
          omega (arith, whites-paint-le (names_of comps) n black u refl),
        )
    | inr (inl is_grey) ↦ (
      report (stack ++ n ∷ []) s,
      rw (is_grey, visit),
      omega (arith, whites-report (names_of comps) (stack ++ n ∷ []) s),
    )
    | inr (inr is_black) ↦ (s, rw (is_black, visit), omega arith)
  ]

  visit_all_ends :
      (fuel : ℕ) (ns : List String) (s : Search)
      → ((n : String) → In n ns → declares comps n ≡ true)
      → left s < fuel
      → (t : Search) × (visit_all comps fuel ns s ≡ some t)
  unfolding visit_all
  visit_all_ends fuel [] s h lt = (s, refl)
  visit_all_ends fuel (n ∷ ns) s h lt =
      let (u, visited, le) = visit-Ends fuel [] n s (h n (inl refl)) lt in
      let (t, rest) = visit_all_ends fuel ns u (λ x m. h x (inr m)) (omega arith) in
      (t, rw visited rest)

whites-le_length : (ns : List String) (s : Search) → whites ns s ≤ length ns
whites-le_length [] s = omega arith
whites-le_length (n ∷ ns) s = ground (arith, whites-le_length ns s)

-- The search gives a result for every graph, whatever its dependencies name.
pub search_ends : (comps : Components) → (t : Search) × (search comps ≡ some t)
unfolding search
search_ends comps =
    visit_all_ends comps (suc (length (names_of comps))) (sorted (names_of comps)) (start comps)
      (λ n m. In-declares comps n ((In-sorted_by (λ s. s) n (names_of comps)).0 m))
      (omega (arith, whites-le_length (names_of comps) (start comps)))
