-- ===== src/Dag/Visit/Sound.antt =====
-- A search that reports no cycle has met none: the chains of waits from every component end.
use krateo_openstack_bluepri.Prelude.{
  ℕ, zero, suc, String, true, Bool-cases, Option, none, some, and_then-eq-some, some_inj, subst,
  List, [], ◌∷◌, ◌++◌, ◌≡◌, ◌⊎◌, inl, inr, refl, ◌==◌, eq_iff, arith, In, length, sorted,
  In-sorted_by, names_of, lookup, map,
}
use krateo_openstack_bluepri.Dag.Graph.{
  Component, Components, declares, deps_of, Chain, Safe, safe, Chain-first, Safe-acyclic, waits-In,
}
use krateo_openstack_bluepri.Dag.Visit.{
  Colour, white, grey, black, Search, colour, paint, report, visit_deps, visit, visit_all, start,
  search,
}
use krateo_openstack_bluepri.Dag.Visit.Paint.{colour-paint, Colour-cases}

abbrev Quiet : Search → Type 0
Quiet s = s.cycles ≡ []

report-ne-Quiet : (path : List String) (s : Search) → ¬ Quiet (report path s)
unfolding report
report-ne-Quiet path s q = snoc_ne_nil s.cycles q
  where
    snoc_ne_nil : (l : List (List String)) → ¬ (l ++ path ∷ [] ≡ [])
    snoc_ne_nil [] e = cc
    snoc_ne_nil (x ∷ l) e = cc

module _ (comps : Components) where
  -- Only a component whose chains end is black.
  abbrev Sound : Search → Type 0
  Sound s = (m : String) → colour s m ≡ black → Safe comps m

  -- What a quiet run from `s` to `t` establishes of `P`.
  abbrev Establishes : Type 0 → Search → Search → Type 0
  Establishes P s t = Quiet t → Quiet s × (Sound s → Sound t × P)

  paint-Sound :
      (n : String) (c : Colour) (s : Search)
      → (c ≡ black → Safe comps n)
      → Sound s
      → Sound (paint n c s)
  paint-Sound n c s h sound m e = elim (Bool-cases (n == m)) [
    | inl same ↦ subst (Safe comps) ((eq_iff n m).0 same) (h (ground (arith, colour-paint n m c s)))
    | inr other ↦ sound m (ground (arith, colour-paint n m c s))
  ]

  visit_deps_sound :
      (call : String → Search → Option Search)
      → ((d : String) (s t : Search) → call d s ≡ some t → Establishes (Safe comps d) s t)
      → (ds : List String) (s t : Search) → visit_deps comps call ds s ≡ some t
      → Establishes ((d : String) → In d ds → declares comps d ≡ true → Safe comps d) s t
  unfolding visit_deps
  visit_deps_sound call h [] s t e q =
      let same : s ≡ t = cc in (rw same q, λ sound. (rw same at sound, λ d m. absurd m))
  visit_deps_sound call h (d ∷ ds) s t e q = elim (Bool-cases (declares comps d)) [
    | inl known ↦
        let (u, called, rest) = and_then-eq-some (call d s) _ (rw (known, visit_deps) at e) in
        let (quiet, after) = visit_deps_sound call h ds u t rest q in
        let (quiet', first) = h d s u called quiet in
        (
          quiet',
          λ sound.
              let (sound', safe_d) = first sound in
              let (sound'', safe_ds) = after sound' in
              (
                sound'',
                λ x m k. elim m [ inl same ↦ rw same safe_d | inr later ↦ safe_ds x later k ],
              ),
        )
    | inr unknown ↦
        let (quiet, after) = visit_deps_sound call h ds s t (rw (unknown, visit_deps) at e) q in
        (
          quiet,
          λ sound.
              let (sound', safe_ds) = after sound in
              (sound', λ x m k. elim m [ inl same ↦ cc | inr later ↦ safe_ds x later k ]),
        )
  ]

  visit_sound :
      (fuel : ℕ) (stack : List String) (n : String) (s t : Search)
      → visit comps fuel stack n s ≡ some t
      → Establishes (Safe comps n) s t
  unfolding visit
  visit_sound zero stack n s t e q = cc
  visit_sound (suc fuel) stack n s t e q = elim (Colour-cases (colour s n)) [
    | inl is_white ↦
        let (u, looped, done) =
          and_then-eq-some
            (visit_deps comps (visit comps fuel (stack ++ n ∷ [])) (deps_of comps n)
              (paint n grey s))
            _ (rw (is_white, visit) at e) in
        let end : paint n black u ≡ t = cc in
        let (quiet, after) =
          visit_deps_sound (visit comps fuel (stack ++ n ∷ []))
            (λ d. visit_sound fuel (stack ++ n ∷ []) d) (deps_of comps n) (paint n grey s) u looped
            (unfold paint in rw (← end) at q) in
        (
          unfold paint in quiet,
          λ sound.
              let (sound', deps_safe) = after (paint-Sound n grey s (λ x. cc) sound) in
              let safe_n = safe (λ d w. deps_safe d w.0 w.1) in
              (rw (← end) (paint-Sound n black u (λ _. safe_n) sound'), safe_n),
        )
    | inr (inl is_grey) ↦
        let end : report (stack ++ n ∷ []) s ≡ t = some_inj (rw (is_grey, visit) at e) in
        absurd (report-ne-Quiet (stack ++ n ∷ []) s (rw (← end) at q))
    | inr (inr is_black) ↦
        let end : s ≡ t = some_inj (rw (is_black, visit) at e) in
        (rw end q, λ sound. (rw end at sound, sound n is_black))
  ]

  visit_all_sound :
      (fuel : ℕ) (ns : List String) (s t : Search)
      → visit_all comps fuel ns s ≡ some t
      → Establishes ((n : String) → In n ns → Safe comps n) s t
  unfolding visit_all
  visit_all_sound fuel [] s t e q =
      let end : s ≡ t = some_inj e in (rw end q, λ sound. (rw end at sound, λ n m. absurd m))
  visit_all_sound fuel (n ∷ ns) s t e q =
      let (u, visited, rest) = and_then-eq-some (visit comps fuel [] n s) _ e in
      let (quiet, after) = visit_all_sound fuel ns u t rest q in
      let (quiet', first) = visit_sound fuel [] n s u visited quiet in
      (
        quiet',
        λ sound.
            let (sound', safe_n) = first sound in
            let (sound'', safe_ns) = after sound' in
            (sound'', λ x m. elim m [ inl same ↦ rw same safe_n | inr later ↦ safe_ns x later ]),
      )

-- At the start no component is black.
all_white :
    (l : Components) (m : String)
    → (lookup m (map (λ (e : String × Component). (e.0, white)) l) ≡ none)
      ⊎ (lookup m (map (λ (e : String × Component). (e.0, white)) l) ≡ some white)
all_white [] m = inl refl
all_white ((j, c) ∷ l) m = elim (Bool-cases (j == m)) [
  | inl same ↦ inr (rw same)
  | inr other ↦ elim (all_white l m) [ inl e ↦ inl (rw other e) | inr e ↦ inr (rw other e) ]
]

pub colour-start : (comps : Components) (m : String) → colour (start comps) m ≡ white
colour-start comps m = elim (all_white comps m) [ inl n ↦ ground arith | inr w ↦ ground arith ]

-- The names that the loop goes through, and what a quiet search says of each.
pub search-Safe :
    (comps : Components) (t : Search)
    → search comps ≡ some t
    → Quiet t
    → (n : String) → In n (names_of comps)
    → Safe comps n
unfolding search
search-Safe comps t e q n m =
    let (quiet, after) =
      visit_all_sound comps (suc (length (names_of comps))) (sorted (names_of comps)) (start comps)
        t e q in
    let (_, safe_all) = after (λ x b. cc (colour-start comps x)) in
    safe_all n ((In-sorted_by (λ s. s) n (names_of comps)).1 m)

-- A search that ends with no report has found every declared component safe, and so there is no
-- component that waits for itself, over any number of waits.
pub search_acyclic :
    (comps : Components) (t : Search) (n : String)
    → search comps ≡ some t
    → t.cycles ≡ []
    → ¬ Chain comps n n
search_acyclic comps t n e q c =
    let (d, first, _) = Chain-first c in
    Safe-acyclic (search-Safe comps t e q n (waits-In comps n d first.0)) c
