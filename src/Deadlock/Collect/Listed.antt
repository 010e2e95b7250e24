-- ===== src/Deadlock/Collect/Listed.antt =====
-- The Services that `entrypoint_waits` of hack/validate-readiness-deadlock.py finds.
use krateo_openstack_bluepri.Deadlock.Collect.Naming.{
  Lists, elements-Lists, Names, ContainerNames, Awaits, In-distinct, Adds, then_rest, with_envs,
}
use krateo_openstack_bluepri.Prelude.{
  String, ◌≡◌, sym, ap, subst, ◌∙◌, ◌↔◌, inl, inr, true, false, false_true, Bool-cases, Option,
  List, [], ◌∷◌, ◌++◌, map, In, In-append_left, In-append_right, In-append_cases, In-sorted_by,
  sorted, is_text, truthy, after_last, Value, null, return, >>=-inv, return_inj, get_default,
  listed,
}
use krateo_openstack_bluepri.Deadlock.Collect.{
  Awaited, nothing_awaited, shown, text, elements, json_pods, await_more, await_env, await_envs,
  await_containers, distinct, entrypoint_waits,
}

module _ (loads : String → Option Value) where
  same_services :
      (w v : Awaited) (F : String → Type 0)
      → w.services ≡ v.services
      → ((svc : String) → ¬ F svc)
      → Adds w v F
  same_services w v F e none_of svc = (
    (λ m. inl (subst (λ (l : List String). In svc l) (sym e) m)),
    (λ m. elim m [
      | inl old ↦ subst (λ (l : List String). In svc l) e old
      | inr f ↦ absurd (none_of svc f)
    ]),
  )

  not_service :
      (name value : Value) (w v : Awaited)
      → is_text name "DEPENDENCY_SERVICE" ≡ false
      → await_more loads name value w ≡ return v
      → w.services ≡ v.services
  unfolding await_more
  not_service name value w v other h = elim (Bool-cases (is_text name "DEPENDENCY_JOBS")) [
    | inl jobs ↦
        let (s, at, e) = >>=-inv (shown value) _ v (rw (other, await_more, jobs) at h) in
        ap (λ (x : Awaited). x.services) (return_inj e)
    | inr no_jobs ↦ elim (Bool-cases (is_text name "DEPENDENCY_POD_JSON")) [
      | inl pods ↦
          let (s, at, e) = >>=-inv (text value) _ v (rw (other, await_more, no_jobs, pods) at h) in
          let (l, found, f) = >>=-inv (json_pods (loads s) w.pods) _ v e in
          ap (λ (x : Awaited). x.services) (return_inj f)
      | inr no_pods ↦
          ap (λ (x : Awaited). x.services)
            (return_inj (rw (other, await_more, no_jobs, no_pods) at h))
    ]
  ]

  await_more-Adds :
      (name value : Value) (w v : Awaited)
      → is_text name "DEPENDENCY_SERVICE" ≡ true
      → await_more loads name value w ≡ return v
      → (s : String) × (shown value ≡ return s) × Adds w v (Lists s)
  unfolding await_more
  await_more-Adds name value w v it_is h =
      let (s, at, e) = >>=-inv (shown value) _ v (rw (it_is, await_more) at h) in
      let made : (w.services ++ map (after_last b':') (elements s)) ≡ v.services =
        ap (λ (x : Awaited). x.services) (return_inj e) in
      (
        s,
        at,
        λ svc. (
          (λ m.
              elim (In-append_cases svc w.services (map (after_last b':') (elements s))
                (subst (λ (l : List String). In svc l) (sym made) m)) [
                  | inl old ↦ inl old
                  | inr new ↦ inr ((elements-Lists s svc).0 new)
                ]),
          (λ m.
              subst (λ (l : List String). In svc l) made
                (elim m [
                  | inl old ↦ In-append_left svc w.services (map (after_last b':') (elements s)) old
                  | inr new ↦
                      In-append_right svc w.services (map (after_last b':') (elements s))
                        ((elements-Lists s svc).1 new)
                ])),
        ),
      )

  await_env-Adds : (e : Value) (w v : Awaited) → await_env loads e w ≡ return v → Adds w v (Names e)
  unfolding await_env
  await_env-Adds e w v h =
      let (name, n, h1) = >>=-inv (get_default e "name" null) _ v h in
      let (value, x, h2) = >>=-inv (get_default e "value" null) _ v h1 in
      elim (Bool-cases (truthy value)) [
        | inr empty ↦
            same_services w v (Names e)
              (ap (λ (a : Awaited). a.services) (return_inj (rw (empty) at h2)))
              (λ svc k.
                let (name2, value2, s2, n2, x2, is2, full2, at2, m2) = k in
                false_true (sym empty ∙ ap truthy (return_inj (sym x ∙ x2)) ∙ full2))
        | inl full ↦ elim (Bool-cases (is_text name "DEPENDENCY_SERVICE")) [
          | inr other ↦
              same_services w v (Names e) (not_service name value w v other (rw (full) at h2))
                (λ svc k.
                  let (name2, value2, s2, n2, x2, is2, full2, at2, m2) = k in
                  false_true (
                    sym other
                    ∙ ap (λ (y : Value). is_text y "DEPENDENCY_SERVICE") (return_inj (sym n ∙ n2))
                    ∙ is2))
          | inl it_is ↦
              let (s, at, adds) = await_more-Adds name value w v it_is (rw (full) at h2) in
              λ svc. (
                (λ m. elim ((adds svc).0 m) [
                  | inl old ↦ inl old
                  | inr k ↦ inr (name, value, s, n, x, it_is, full, at, k)
                ]),
                (λ m. (adds svc).1 (elim m [
                  | inl old ↦ inl old
                  | inr k ↦
                      let (name2, value2, s2, n2, x2, is2, full2, at2, m2) = k in
                      let same : s2 ≡ s =
                        return_inj (sym at2 ∙ ap shown (return_inj (sym x2 ∙ x)) ∙ at) in
                      inr (subst (λ (y : String). Lists y svc) same m2)
                ])),
              )
        ]
      ]

  await_envs-Adds :
      (es : List Value) (w v : Awaited)
      → await_envs loads es w ≡ return v
      → Adds w v (λ svc. (e : Value) × In e es × Names e svc)
  unfolding await_envs
  await_envs-Adds [] w v h =
      same_services w v _ (ap (λ (a : Awaited). a.services) (return_inj h)) (λ svc k. k.1)
  await_envs-Adds (e ∷ es) w v h =
      let (u, first, rest) = >>=-inv (await_env loads e w) (await_envs loads es) v h in
      then_rest w u v e es Names (await_env-Adds e w u first) (await_envs-Adds es u v rest)

  await_containers-Adds :
      (cs : List Value) (w v : Awaited)
      → await_containers loads cs w ≡ return v
      → Adds w v (λ svc. (c : Value) × In c cs × ContainerNames c svc)
  unfolding await_containers
  await_containers-Adds [] w v h =
      same_services w v _ (ap (λ (a : Awaited). a.services) (return_inj h)) (λ svc k. k.1)
  await_containers-Adds (c ∷ cs) w v h =
      let (envs, l, h1) = >>=-inv (listed c "env") _ v h in
      let (u, first, rest) = >>=-inv (await_envs loads envs w) (await_containers loads cs) v h1 in
      then_rest w u v c cs ContainerNames (with_envs c envs w u l (await_envs-Adds envs w u first))
        (await_containers-Adds cs u v rest)

  -- When `entrypoint_waits` returns, it has found a Service exactly when an init container of the pods
  -- has a variable DEPENDENCY_SERVICE with a value that lists it: as what follows the last colon of
  -- an element between commas that is not blank, stripped of white space. A blank element is left
  -- out, also where other elements stand beside it.
  pub entrypoint_waits-Awaits :
      (pod_spec : Value) (w : Awaited)
      → entrypoint_waits loads pod_spec ≡ return w
      → (svc : String) → In svc w.services ↔ Awaits pod_spec svc
  unfolding entrypoint_waits
  entrypoint_waits-Awaits pod_spec w h svc =
      let (cs, l, h1) = >>=-inv (listed pod_spec "initContainers") _ w h in
      let (v, ran, h2) = >>=-inv (await_containers loads cs nothing_awaited) _ w h1 in
      let made : sorted (distinct v.services) ≡ w.services =
        ap (λ (a : Awaited). a.services) (return_inj h2) in
      let adds = await_containers-Adds cs nothing_awaited v ran in
      (
        (λ m.
            let sorted_m : In svc (sorted (distinct v.services)) =
              subst (λ (y : List String). In svc y) (sym made) m in
            let distinct_m =
              (In-sorted_by (λ (y : String). y) svc (distinct v.services)).0 sorted_m in
            elim ((adds svc).0 ((In-distinct svc v.services).0 distinct_m)) [
              | inl nowhere ↦ absurd nowhere
              | inr k ↦ (cs, l, k)
            ]),
        (λ k.
            let (cs2, l2, c) = k in
            let here : (d : Value) × In d cs × ContainerNames d svc =
              subst (λ (y : List Value). (d : Value) × In d y × ContainerNames d svc)
                (return_inj (sym l2 ∙ l)) c in
            subst (λ (y : List String). In svc y) made
              ((In-sorted_by (λ (y : String). y) svc (distinct v.services)).1
                ((In-distinct svc v.services).1 ((adds svc).1 (inr here))))),
      )
