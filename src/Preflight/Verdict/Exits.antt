-- ===== src/Preflight/Verdict/Exits.antt =====
-- The exit status of hack/preflight-refs.py, in both of its modes.
use krateo_openstack_bluepri.Prelude.{
  ℕ, String, Bool, true, false, Bool-cases, not, ◌&&◌, ◌||◌, ◌≡◌, ◌≢◌, ◌↔◌, refl, sym, ◌∙◌, arith,
  inl, inr, List, [], ◌∷◌, In, All, All-each, if◌then◌else◌, keep, sort_with, In-sort_with,
  contains, false_true,
}
use krateo_openstack_bluepri.Preflight.Registry.{Network, fresh}
use krateo_openstack_bluepri.Preflight.Pairing.{Patterns}
use krateo_openstack_bluepri.Preflight.Scan.{Folder, Ref, Found, ref_le, scan}
use krateo_openstack_bluepri.Preflight.Verdict.{
  Report, check_refs, none_in, mutable_tags, mutable_status, full_status, plain_args, root_of, main,
  is_mutable,
}
use krateo_openstack_bluepri.Preflight.Verdict.Passes.{
  Clean, Resolves, HasNoToldV1, check_refs-Clean,
}

none_in-nil : {A : Type 0} (l : List A) → (none_in l ≡ true) ↔ (l ≡ [])
none_in-nil [] = (λ h. refl, λ h. refl)
none_in-nil (x ∷ l) = (λ h. cc, λ h. cc)

sorted-each :
    (P : Ref → Type 0) (l : List Ref) → All P (sort_with ref_le l) ↔ ((r : Ref) → In r l → P r)
sorted-each P l =
    let each = All-each P (sort_with ref_le l) in
    (
      λ h r m. each.0 h r ((In-sort_with ref_le r l).1 m),
      λ h. each.1 (λ r m. h r ((In-sort_with ref_le r l).0 m)),
    )

keep-nil : (p : Ref → Bool) (l : List Ref) → (keep p l ≡ []) ↔ ((r : Ref) → In r l → p r ≡ false)
keep-nil p [] = (λ h r m. absurd m, λ h. refl)
keep-nil p (x ∷ l) = elim (Bool-cases (p x)) [
  | inl kept ↦ rw kept (λ h. cc, λ h. absurd (false_true (sym (h x (inl refl)) ∙ kept)))
  | inr dropped ↦ rw dropped (
    λ h r m. elim m [ inl e ↦ rw e dropped | inr later ↦ (keep-nil p l).0 h r later ],
    λ h. (keep-nil p l).1 (λ r m. h r (inr m)),
  )
]

nil-each : (l : List Ref) → (l ≡ []) ↔ ((r : Ref) → ¬ In r l)
nil-each [] = (λ e r m. m, λ h. refl)
nil-each (x ∷ l) = (λ e. cc, λ h. absurd (h x (inl refl)))

-- The tag of each image cannot be rebuilt.
abbrev pub AreImmutable : List Ref → Type 0
AreImmutable images = (r : Ref) → In r images → is_mutable r.tag ≡ false

mutable_tags-nil : (images : List Ref) → (mutable_tags images ≡ []) ↔ AreImmutable images
unfolding mutable_tags
mutable_tags-nil images =
    let kept = keep (λ (r : Ref). is_mutable r.tag) images in
    let none_kept = keep-nil (λ (r : Ref). is_mutable r.tag) images in
    let sorted_nil = nil-each (sort_with ref_le kept) in
    let kept_nil = nil-each kept in
    (
      λ h. none_kept.0 (kept_nil.1 (λ r m. sorted_nil.0 h r ((In-sort_with ref_le r kept).1 m))),
      λ h. sorted_nil.1 (λ r m. kept_nil.0 (none_kept.1 h) r ((In-sort_with ref_le r kept).0 m)),
    )

mutable_status-zero :
    (images : List Ref) → (mutable_status images ≡ 0) ↔ ((images ≢ []) × AreImmutable images)
unfolding mutable_status
mutable_status-zero images = from (none_in images) (none_in (mutable_tags images)) refl refl
  where
    from :
        (n m : Bool)
        → none_in images ≡ n
        → none_in (mutable_tags images) ≡ m
        → (◌≡◌ {A = ℕ} (if n then 1 else if m then 0 else 1) 0)
          ↔ ((images ≢ []) × AreImmutable images)
    from true m e f = (λ h. absurd (omega (arith, h)), λ h. absurd (h.0 ((none_in-nil images).0 e)))
    from false true e f = (
      λ h. (
        λ none_left. false_true (sym e ∙ (none_in-nil images).1 none_left),
        (mutable_tags-nil images).0 ((none_in-nil (mutable_tags images)).0 f),
      ),
      λ h. refl,
    )
    from false false e f = (
      λ h. absurd (omega (arith, h)),
      λ h.
          false_true
            (sym f ∙ (none_in-nil (mutable_tags images)).1 ((mutable_tags-nil images).1 h.1)),
    )

abbrev IsEmptyScan : Found → Type 0
IsEmptyScan f = (f.charts ≡ []) × (f.images ≡ [])

full_status-zero :
    (f : Found) (w : Report)
    → (full_status f w ≡ 0) ↔ (¬ IsEmptyScan f × (Clean w × AreImmutable f.images))
unfolding full_status
full_status-zero f w =
    from (none_in w.bad) (none_in (mutable_tags f.images)) (none_in w.schema1) (none_in f.charts)
      (none_in f.images) (none_in-nil w.bad) (none_in-nil (mutable_tags f.images))
      (none_in-nil w.schema1) (none_in-nil f.charts) (none_in-nil f.images)
      (mutable_tags-nil f.images)
  where
    from :
        (b m s c i : Bool)
        → (b ≡ true) ↔ (w.bad ≡ [])
        → (m ≡ true) ↔ (mutable_tags f.images ≡ [])
        → (s ≡ true) ↔ (w.schema1 ≡ [])
        → (c ≡ true) ↔ (f.charts ≡ [])
        → (i ≡ true) ↔ (f.images ≡ [])
        → (mutable_tags f.images ≡ []) ↔ AreImmutable f.images
        → (◌≡◌ {A = ℕ} (if not b || (not m || not s) then 1 else if c && i then 1 else 0) 0)
          ↔ (¬ IsEmptyScan f × (Clean w × AreImmutable f.images))
    from false m s c i eb em es ec ei immutable =
        (λ h. absurd (omega (arith, h)), λ h. false_true (eb.1 h.1.0.0))
    from true false s c i eb em es ec ei immutable =
        (λ h. absurd (omega (arith, h)), λ h. false_true (em.1 (immutable.1 h.1.1)))
    from true true false c i eb em es ec ei immutable =
        (λ h. absurd (omega (arith, h)), λ h. false_true (es.1 h.1.0.1))
    from true true true true true eb em es ec ei immutable =
        (λ h. absurd (omega (arith, h)), λ h. absurd (h.0 (ec.0 refl, ei.0 refl)))
    from true true true true false eb em es ec ei immutable = (
      λ h. ((λ x. false_true (ei.1 x.1)), ((eb.0 refl, es.0 refl), immutable.0 (em.0 refl))),
      λ h. refl,
    )
    from true true true false i eb em es ec ei immutable = (
      λ h. ((λ x. false_true (ec.1 x.0)), ((eb.0 refl, es.0 refl), immutable.0 (em.0 refl))),
      λ h. refl,
    )

module _ (pat : Patterns) (tree : String → Folder) (argv : List String) where
  abbrev pub found : Found
  found = scan pat (tree (root_of (plain_args argv)))

  -- The scan found a reference.
  abbrev pub FindsAny : Type 0
  FindsAny = ¬ ((found.charts ≡ []) × (found.images ≡ []))

module _ (net : Network) where
  -- Every chart resolves, and every image resolves and is not known to have a manifest of schema 1.
  abbrev pub AllResolve : Found → Type 0
  AllResolve f =
      ((r : Ref) → In r f.charts → Resolves net r)
      × ((r : Ref) → In r f.images → Resolves net r × HasNoToldV1 net r)

module _ (net : Network) (pat : Patterns) (tree : String → Folder) (argv : List String) where
  -- Without --mutable-only the exit status is 0 exactly when the scan found a reference, every chart
  -- and image that it found resolves, every image has an immutable tag, and the media type that the
  -- registry serves the image's manifest as is none of schema 1 or could not be determined. What it
  -- is served as is the registry's answer, whatever the cache holds.
  pub main-passes :
      contains argv "--mutable-only" ≡ false
      → (main net pat tree argv ≡ 0) ↔ (
          FindsAny pat tree argv
          × (AllResolve net (found pat tree argv) × AreImmutable (found pat tree argv).images))
  unfolding main
  main-passes full =
      let f = found pat tree argv in
      let status = full_status-zero f (check_refs net f fresh).0 in
      let clean = check_refs-Clean net f.charts f.images in
      let charts = sorted-each (Resolves net) f.charts in
      let images = sorted-each (λ r. Resolves net r × HasNoToldV1 net r) f.images in
      rw full (
        λ h.
            let (some_ref, (quiet, immutable)) = status.0 h in
            let (cs, is) = clean.0 quiet in (some_ref, ((charts.0 cs, images.0 is), immutable)),
        λ (some_ref, ((cs, is), immutable)).
            status.1 (some_ref, (clean.1 (charts.1 cs, images.1 is), immutable)),
      )

  -- With --mutable-only the exit status is 0 exactly when the scan found an image, and no image has a
  -- tag that can be rebuilt.
  pub main-immutable :
      contains argv "--mutable-only" ≡ true
      → (main net pat tree argv ≡ 0)
        ↔ (((found pat tree argv).images ≢ []) × AreImmutable (found pat tree argv).images)
  unfolding main
  main-immutable only = rw only (mutable_status-zero (found pat tree argv).images)
