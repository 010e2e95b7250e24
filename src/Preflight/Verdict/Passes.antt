-- ===== src/Preflight/Verdict/Passes.antt =====
-- What an exit status of 0 says of the references.
use krateo_openstack_bluepri.Prelude.{
  ℕ, Bool, true, false, Bool-cases, ◌≡◌, ◌≢◌, ◌↔◌, refl, sym, ◌∙◌, subst, arith, inl, inr, Option,
  none, some, ◌⊎◌, List, [], ◌∷◌, ◌++◌, All, eqb, sort_with, false_true,
}
use krateo_openstack_bluepri.Preflight.Registry.{
  Network, Target, MediaType, Run, fresh, is_v1, registry_get, manifest_media_type, cached,
}
use krateo_openstack_bluepri.Preflight.Registry.Cache.{
  code_for, served, Faithful, registry_get-value, media_type-Faithful,
}
use krateo_openstack_bluepri.Preflight.Scan.{Ref, ref_le}
use krateo_openstack_bluepri.Preflight.Verdict.{
  target_of, Report, nothing_wrong, note_code, note_type, check_charts, type_if, check_images,
  check_refs,
}

-- Nothing is noted.
abbrev pub Clean : Report → Type 0
Clean w = (w.bad ≡ []) × (w.schema1 ≡ [])

snoc-ne-nil : {A : Type 0} (xs : List A) (x : A) → xs ++ x ∷ [] ≢ []
snoc-ne-nil [] x e = cc
snoc-ne-nil (y ∷ xs) x e = cc

note_code-Clean :
    (r : Ref) (code : ℕ) (w : Report)
    → Clean (note_code r code w) ↔ ((eqb code 200 ≡ true) × Clean w)
note_code-Clean r code w = elim (Bool-cases (eqb code 200)) [
  | inl ok ↦ rw ok (λ c. (refl, c), λ h. h.1)
  | inr bad ↦
      rw bad (λ c. absurd (snoc-ne-nil w.bad (record { ref = r; code = code }) c.0), λ h. cc)
]

-- The type could not be determined, or it is none of schema 1.
abbrev pub NotToldV1 : Option MediaType → Type 0
NotToldV1 served_as =
    (served_as ≡ none) ⊎ ((mt : MediaType) × (served_as ≡ some mt) × (is_v1 (some mt) ≡ false))

is_v1-NotToldV1 : (mt : Option MediaType) → (is_v1 mt ≡ false) ↔ NotToldV1 mt
unfolding is_v1
is_v1-NotToldV1 none = (λ h. inl refl, λ h. refl)
is_v1-NotToldV1 (some mt) = (
  λ h. inr (mt, refl, h),
  λ h. elim h [
    | inl e ↦ cc
    | inr k ↦ let (other, e, fine) = k in subst (λ o. is_v1 o ≡ false) (sym e) fine
  ],
)

note_type-Clean :
    (r : Ref) (mt : Option MediaType) (w : Report)
    → Clean (note_type r mt w) ↔ (NotToldV1 mt × Clean w)
note_type-Clean r mt w = elim (Bool-cases (is_v1 mt)) [
  | inr fine ↦ rw fine (λ c. ((is_v1-NotToldV1 mt).0 fine, c), λ h. h.1)
  | inl old ↦ rw old (
    λ c. absurd (snoc-ne-nil w.schema1 r c.1),
    λ h. false_true (sym ((is_v1-NotToldV1 mt).1 h.0) ∙ old),
  )
]

module _ (net : Network) where
  -- The reference resolves.
  abbrev pub Resolves : Ref → Type 0
  Resolves r = code_for net (target_of r) ≡ 200

  -- The registry serves the image's manifest as a type that is none of schema 1, or as a type that
  -- could not be determined.
  abbrev pub HasNoToldV1 : Ref → Type 0
  HasNoToldV1 r = NotToldV1 (served net (target_of r))

  same-Faithful : (s t : Run) → t.cache ≡ s.cache → Faithful net s → Faithful net t
  same-Faithful s t e f target mt h =
      f target mt (subst (λ (c : List (Target × Option MediaType)). cached c target ≡ some mt) e h)

  code_ok : (r : Ref) (s : Run) → (eqb (registry_get net (target_of r) s).0 200 ≡ true) ↔ Resolves r
  code_ok r s =
      let (value, _) = registry_get-value net (target_of r) s in
      (λ h. ground arith, λ h. ground arith)

  check_charts-Clean :
      (rs : List Ref) (w : Report) (s : Run)
      → Faithful net s
      → Faithful net (check_charts net rs w s).1
        × (Clean (check_charts net rs w s).0 ↔ (All Resolves rs × Clean w))
  unfolding check_charts
  check_charts-Clean [] w s f = (f, (λ c. (tt, c), λ h. h.1))
  check_charts-Clean (r ∷ rs) w s f =
      let code = (registry_get net (target_of r) s).0 in
      let t = (registry_get net (target_of r) s).1 in
      let f' = same-Faithful s t (registry_get-value net (target_of r) s).1 f in
      let (kept, iff) = check_charts-Clean rs (note_code r code w) t f' in
      let here = note_code-Clean r code w in
      let ok = code_ok r s in
      (
        kept,
        (
          λ c.
              let (later, now) = iff.0 c in
              let (good, before) = here.0 now in ((ok.0 good, later), before),
          λ ((good, later), before). iff.1 (later, here.1 (ok.1 good, before)),
        ),
      )

  -- One image: the type is served where the reference resolves.
  image_step :
      (r : Ref) (w : Report) (code : ℕ) (b : Bool) (t : Run)
      → eqb code 200 ≡ b
      → (eqb code 200 ≡ true) ↔ Resolves r
      → Faithful net t
      → Faithful net (type_if net b (target_of r) t).1
        × (Clean (note_code r code (note_type r (type_if net b (target_of r) t).0 w))
            ↔ ((Resolves r × HasNoToldV1 r) × Clean w))
  image_step r w code false t bad ok f = (
    f,
    (
      λ c. false_true (sym bad ∙ ((note_code-Clean r code (note_type r none w)).0 c).0),
      λ h. false_true (sym bad ∙ ok.1 h.0.0),
    ),
  )
  image_step r w code true t good ok f =
      let (value, kept) = media_type-Faithful net (target_of r) t f in
      let mt = (manifest_media_type net (target_of r) t).0 in
      let here = note_code-Clean r code (note_type r mt w) in
      let type = note_type-Clean r mt w in
      (
        kept,
        (
          λ c.
              let (fine, before) = type.0 (here.0 c).1 in
              ((ok.0 good, subst NotToldV1 value fine), before),
          λ ((_, fine), before). here.1 (good, type.1 (subst NotToldV1 (sym value) fine, before)),
        ),
      )

  check_images-Clean :
      (rs : List Ref) (w : Report) (s : Run)
      → Faithful net s
      → Clean (check_images net rs w s).0 ↔ (All (λ r. Resolves r × HasNoToldV1 r) rs × Clean w)
  unfolding check_images
  check_images-Clean [] w s f = (λ c. (tt, c), λ h. h.1)
  check_images-Clean (r ∷ rs) w s f =
      let code = (registry_get net (target_of r) s).0 in
      let t = (registry_get net (target_of r) s).1 in
      let f' = same-Faithful s t (registry_get-value net (target_of r) s).1 f in
      let (kept, here) = image_step r w code (eqb code 200) t refl (code_ok r s) f' in
      let mt = (type_if net (eqb code 200) (target_of r) t).0 in
      let u = (type_if net (eqb code 200) (target_of r) t).1 in
      let iff = check_images-Clean rs (note_code r code (note_type r mt w)) u kept in
      (
        λ c.
            let (later, now) = iff.0 c in
            let (good, before) = here.0 now in ((good, later), before),
        λ ((good, later), before). iff.1 (later, here.1 (good, before)),
      )

  pub fresh-Faithful : Faithful net fresh
  unfolding cached
  fresh-Faithful target mt h = cc

  pub check_refs-Clean :
      (charts images : List Ref)
      → Clean (check_refs net (record { charts = charts; images = images }) fresh).0 ↔ (
          All Resolves (sort_with ref_le charts)
          × All (λ r. Resolves r × HasNoToldV1 r) (sort_with ref_le images))
  unfolding check_refs
  check_refs-Clean charts images =
      let cs = sort_with ref_le charts in
      let (kept, first) = check_charts-Clean cs nothing_wrong fresh fresh-Faithful in
      let second =
        check_images-Clean (sort_with ref_le images) (check_charts net cs nothing_wrong fresh).0
          (check_charts net cs nothing_wrong fresh).1 kept in
      (
        λ c. let (is, w) = second.0 c in ((first.0 w).0, is),
        λ (cs_ok, is). second.1 (is, first.1 (cs_ok, (refl, refl))),
      )
