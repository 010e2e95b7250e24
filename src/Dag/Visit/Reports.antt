-- ===== src/Dag/Visit/Reports.antt =====
-- Every cycle that the search reports is one: its last component is on the path already, and a
-- chain of waits leads from it to itself.
use krateo_openstack_bluepri.Prelude.{
  ℕ, zero, suc, String, Bool-cases, Option, some, some_inj, List, [], ◌∷◌, ◌++◌, ◌≡◌, inl, inr, ◌↔◌,
  refl, sym, subst, ◌==◌, eq_iff, arith, In, All, All-append, In-append_cases, In-append_left,
  In-append_right, length, and_then-eq-some, sorted, names_of,
}
use krateo_openstack_bluepri.Dag.Graph.{Components, declares, deps_of, Waits, Chain, one, more}
use krateo_openstack_bluepri.Dag.Visit.{
  grey, black, Search, colour, paint, report, visit_deps, visit, visit_all, start, search,
}
use krateo_openstack_bluepri.Dag.Visit.Paint.{colour-paint, Colour-cases}
use krateo_openstack_bluepri.Dag.Visit.Sound.{colour-start, search_acyclic}
use krateo_openstack_bluepri.Dag.Visit.Ends.{search_ends}

module _ (comps : Components) where
  -- A path whose last component stands in it already, and waits for itself.
  abbrev pub IsCycle : List String → Type 0
  IsCycle path =
      (before : List String) × (n : String) × (path ≡ before ++ n ∷ [])
      × In n before
      × Chain comps n n

  -- While `n` is visited, all that is grey is on the stack, and the stack waits for `n`.
  abbrev OnStack : List String → Search → Type 0
  OnStack stack s = (m : String) → colour s m ≡ grey → In m stack

  abbrev Above : List String → String → Type 0
  Above stack n = (m : String) → In m stack → Chain comps m n

  abbrev Keeps : List String → Search → Search → Type 0
  Keeps stack s t = OnStack stack s → All IsCycle s.cycles → OnStack stack t × All IsCycle t.cycles

  Above-dep :
      (stack : List String) (n d : String)
      → Above stack n
      → Waits comps n d
      → Above (stack ++ n ∷ []) d
  Above-dep stack n d h w m i = elim (In-append_cases m stack (n ∷ []) i) [
    | inl old ↦ more (h m old) w
    | inr (inl same) ↦ one (subst (λ x. Waits comps x d) (sym same) w)
    | inr (inr empty) ↦ absurd empty
  ]

  OnStack-grey :
      (stack : List String) (n : String) (s : Search)
      → OnStack stack s
      → OnStack (stack ++ n ∷ []) (paint n grey s)
  OnStack-grey stack n s h m e = elim (Bool-cases (n == m)) [
    | inl same ↦ In-append_right m stack (n ∷ []) (inl (sym ((eq_iff n m).0 same)))
    | inr other ↦ In-append_left m stack (n ∷ []) (h m (ground (arith, colour-paint n m grey s)))
  ]

  OnStack-black :
      (stack : List String) (n : String) (s : Search)
      → OnStack (stack ++ n ∷ []) s
      → OnStack stack (paint n black s)
  OnStack-black stack n s h m e = elim (Bool-cases (n == m)) [
    | inl same ↦ absurd (ground (arith, colour-paint n m black s))
    | inr other ↦
        elim (In-append_cases m stack (n ∷ []) (h m (ground (arith, colour-paint n m black s)))) [
          | inl old ↦ old
          | inr (inl last) ↦ absurd (ground (arith, eq_iff n m))
          | inr (inr empty) ↦ absurd empty
        ]
  ]

  visit_deps-Keeps :
      (stack : List String) (call : String → Search → Option Search) (n : String)
      → ((d : String) (s t : Search) → Waits comps n d → call d s ≡ some t → Keeps stack s t)
      → (ds : List String) → ((d : String) → In d ds → In d (deps_of comps n))
      → (s t : Search) → visit_deps comps call ds s ≡ some t
      → Keeps stack s t
  unfolding visit_deps
  visit_deps-Keeps stack call n h [] sub s t e on real =
      let end : s ≡ t = some_inj e in (rw end at on, rw end at real)
  visit_deps-Keeps stack call n h (d ∷ ds) sub s t e on real =
      elim (Bool-cases (declares comps d)) [
        | inl known ↦
            let (u, called, rest) = and_then-eq-some (call d s) _ (rw (known, visit_deps) at e) in
            let (on', real') = h d s u (sub d (inl refl), known) called on real in
            visit_deps-Keeps stack call n h ds (λ x m. sub x (inr m)) u t rest on' real'
        | inr unknown ↦
            visit_deps-Keeps stack call n h ds (λ x m. sub x (inr m)) s t
              (rw (unknown, visit_deps) at e) on real
      ]

  visit-Keeps :
      (fuel : ℕ) (stack : List String) (n : String) (s t : Search)
      → Above stack n
      → visit comps fuel stack n s ≡ some t
      → Keeps stack s t
  unfolding visit
  visit-Keeps zero stack n s t above e on real = cc
  visit-Keeps (suc fuel) stack n s t above e on real = elim (Colour-cases (colour s n)) [
    | inl is_white ↦
        let deeper = stack ++ n ∷ [] in
        let (u, looped, done) =
          and_then-eq-some
            (visit_deps comps (visit comps fuel (stack ++ n ∷ [])) (deps_of comps n)
              (paint n grey s))
            _ (rw (is_white, visit) at e) in
        let end : paint n black u ≡ t = some_inj done in
        let (on', real') =
          visit_deps-Keeps deeper (visit comps fuel deeper) n
            (λ d s' t' w. visit-Keeps fuel deeper d s' t' (Above-dep stack n d above w))
            (deps_of comps n) (λ d m. m) (paint n grey s) u looped (OnStack-grey stack n s on)
            (unfold paint in real) in
        (
          subst (OnStack stack) end (OnStack-black stack n u on'),
          subst (λ (x : Search). All IsCycle x.cycles) end (unfold paint in real'),
        )
    | inr (inl is_grey) ↦
        let end : report (stack ++ n ∷ []) s ≡ t = some_inj (rw (is_grey, visit) at e) in
        let there = on n is_grey in
        (
          subst (OnStack stack) end (unfold report in on),
          subst (λ (x : Search). All IsCycle x.cycles) end
              (unfold report in
                All-append IsCycle s.cycles ((stack ++ n ∷ []) ∷ []) real
                  ((stack, n, refl, there, above n there), tt)),
        )
    | inr (inr is_black) ↦
        let end : s ≡ t = some_inj (rw (is_black, visit) at e) in (rw end at on, rw end at real)
  ]

  visit_all-Keeps :
      (fuel : ℕ) (ns : List String) (s t : Search)
      → visit_all comps fuel ns s ≡ some t
      → Keeps [] s t
  unfolding visit_all
  visit_all-Keeps fuel [] s t e on real =
      let end : s ≡ t = some_inj e in (rw end at on, rw end at real)
  visit_all-Keeps fuel (n ∷ ns) s t e on real =
      let (u, visited, rest) = and_then-eq-some (visit comps fuel [] n s) _ e in
      let (on', real') = visit-Keeps fuel [] n s u (λ m. absurd) visited on real in
      visit_all-Keeps fuel ns u t rest on' real'

-- Each path that the search reports ends in a component that stands on the path before and that
-- waits for itself over a chain of declared dependencies.
pub search_reports_cycles :
    (comps : Components) (t : Search) → search comps ≡ some t → All (IsCycle comps) t.cycles
unfolding search
search_reports_cycles comps t e =
    let (_, real) =
      visit_all-Keeps comps (suc (length (names_of comps))) (sorted (names_of comps)) (start comps)
        t e (λ m g. cc (colour-start comps m)) tt in
    real

no_reports :
    (comps : Components) (l : List (List String))
    → All (IsCycle comps) l
    → ((n : String) → ¬ Chain comps n n)
    → l ≡ []
no_reports comps [] h acyclic = refl
no_reports comps (path ∷ l) h acyclic = let (before, n, _, _, c) = h.0 in absurd (acyclic n c)

pub search_quiet :
    (comps : Components) (t : Search)
    → search comps ≡ some t
    → ((n : String) → ¬ Chain comps n n)
    → t.cycles ≡ []
search_quiet comps t e = no_reports comps t.cycles (search_reports_cycles comps t e)

-- For every graph the search gives a result, and the result holds no report exactly when no
-- component waits for itself over a chain of declared dependencies.
pub search_decides :
    (comps : Components)
    → (t : Search) × (search comps ≡ some t)
      × ((t.cycles ≡ []) ↔ ((n : String) → ¬ Chain comps n n))
search_decides comps =
    let (t, e) = search_ends comps in
    (t, e, (λ q n. search_acyclic comps t n e q, search_quiet comps t e))
