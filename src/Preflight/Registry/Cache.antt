-- ===== src/Preflight/Registry/Cache.antt =====
-- The cache of media types: what it answers is what the registry serves.
use krateo_openstack_bluepri.Prelude.{
  ℕ, String, true, Bool-cases, ◌≡◌, refl, sym, ap, ◌∙◌, subst, arith, inl, inr, Option, some,
  Option-cases, some_inj, List, ◌∷◌, ◌==◌, eq_iff, eq_refl,
}
use krateo_openstack_bluepri.Preflight.Registry.{
  Network, Target, same_target, MediaType, Run, fresh, v2_endpoint, is_hub, asks_tags, registry_get,
  cached, ask_type, manifest_media_type,
}

pub same_target-eq : (a b : Target) → same_target a b ≡ true → a ≡ b
same_target-eq a b h =
    ground (arith, eq_iff a.host b.host, eq_iff a.repo b.repo, eq_iff a.ref b.ref)

same_target_refl : (a : Target) → same_target a a ≡ true
same_target_refl a = ground (arith, eq_refl a.host, eq_refl a.repo, eq_refl a.ref)

module _ (net : Network) where
  endpoint_value :
      (host repo : String) (s : Run)
      → (v2_endpoint net host repo s).0 ≡ (v2_endpoint net host repo fresh).0
  unfolding v2_endpoint
  endpoint_value host repo s = elim (Bool-cases (host == "ghcr.io")) [
    | inl ghcr ↦ rw ghcr refl
    | inr other ↦ elim (Bool-cases (is_hub host)) [
      | inl hub ↦ rw (other, hub) refl
      | inr rest ↦ rw (other, rest) refl
    ]
  ]

  endpoint_cache : (host repo : String) (s : Run) → (v2_endpoint net host repo s).1.cache ≡ s.cache
  unfolding v2_endpoint
  endpoint_cache host repo s = elim (Bool-cases (host == "ghcr.io")) [
    | inl ghcr ↦ rw ghcr refl
    | inr other ↦ elim (Bool-cases (is_hub host)) [
      | inl hub ↦ rw (other, hub) refl
      | inr rest ↦ rw (other, rest) refl
    ]
  ]

  -- What the registry answers for a reference, whatever was asked before
  abbrev pub code_for : Target → ℕ
  code_for target = (registry_get net target fresh).0

  abbrev pub served : Target → Option MediaType
  served target = (ask_type net target fresh).0

  same_code :
      (target : Target) (s t : Run) → (registry_get net target s).0 ≡ (registry_get net target t).0
  unfolding registry_get
  same_code target s t = elim (Bool-cases (asks_tags target)) [
    | inl tags ↦ rw (tags, registry_get) refl
    | inr other ↦
        rw
          (
            other,
            registry_get,
            endpoint_value target.host target.repo s,
            endpoint_value target.host target.repo t,
          )
          refl
  ]

  same_cache : (target : Target) (s : Run) → (registry_get net target s).1.cache ≡ s.cache
  unfolding registry_get
  same_cache target s = elim (Bool-cases (asks_tags target)) [
    | inl tags ↦ rw (tags, registry_get) refl
    | inr other ↦ rw (other, registry_get) (endpoint_cache target.host target.repo s)
  ]

  pub registry_get-value :
      (target : Target) (s : Run)
      → ((registry_get net target s).0 ≡ code_for target)
        × ((registry_get net target s).1.cache ≡ s.cache)
  registry_get-value target s = (same_code target s fresh, same_cache target s)

  -- Each cached answer is the registry's.
  abbrev pub Faithful : Run → Type 0
  Faithful s =
      (target : Target) (mt : Option MediaType)
      → cached s.cache target ≡ some mt
      → mt ≡ served target

  pub ask_type-value : (target : Target) (s : Run) → (ask_type net target s).0 ≡ served target
  ask_type-value target s = rw (endpoint_value target.host target.repo s) refl

  pub media_type-Faithful :
      (target : Target) (s : Run)
      → Faithful s
      → ((manifest_media_type net target s).0 ≡ served target)
        × Faithful (manifest_media_type net target s).1
  unfolding manifest_media_type
  media_type-Faithful target s f = elim (Option-cases (cached s.cache target)) [
    | inr (mt, hit) ↦
        (rw (hit, manifest_media_type) (f target mt hit), rw (hit, manifest_media_type) f)
    | inl miss ↦ (
      rw (miss, manifest_media_type) (ask_type-value target s),
      rw (miss, manifest_media_type) extend,
    )
  ]
    where
      extend :
          (other : Target) (found : Option MediaType)
          → cached (ask_type net target s).1.cache other ≡ some found
          → found ≡ served other
      extend other found h =
          let kept : (v2_endpoint net target.host target.repo s).1.cache ≡ s.cache =
            endpoint_cache target.host target.repo s in
          let h' : cached ((target, (ask_type net target s).0) ∷ s.cache) other ≡ some found =
            subst
              (λ (c : List (Target × Option MediaType)).
                cached ((target, (ask_type net target s).0) ∷ c) other ≡ some found)
              kept h in
          elim (Bool-cases (same_target target other)) [
            | inr apart ↦ f other found (rw (apart, cached) at h')
            | inl same ↦
                sym (some_inj (rw (same, cached) at h'))
                ∙ ask_type-value target s
                ∙ ap served (same_target-eq target other same)
          ]

-- Asking a second time for a reference's media type gives the first answer and sends no request.
-- The first answer is what the registry serves, as long as the cache is right, and the cache stays so.
pub media_type-once :
    (net : Network) (target : Target) (s : Run)
    → Faithful net s
    → let (first, t) = manifest_media_type net target s in
      (first ≡ served net target) × Faithful net t × (manifest_media_type net target t ≡ (first, t))
unfolding manifest_media_type
media_type-once net target s f =
    let (value, kept) = media_type-Faithful net target s f in
    let t = (manifest_media_type net target s).1 in
    (
      value,
      kept,
      elim (Option-cases (cached s.cache target)) [
        | inr (mt, hit) ↦
            let found : manifest_media_type net target s ≡ (mt, s) =
              rw (hit, manifest_media_type) refl in
            subst (λ (p : Option MediaType × Run). manifest_media_type net target p.1 ≡ p)
              (sym found) found
        | inl miss ↦
            let asked : manifest_media_type net target s ≡ ask_type net target s =
              rw (miss, manifest_media_type) refl in
            subst (λ (p : Option MediaType × Run). manifest_media_type net target p.1 ≡ p)
              (sym asked) (rw (same_target_refl target, cached, manifest_media_type) refl)
      ],
    )
