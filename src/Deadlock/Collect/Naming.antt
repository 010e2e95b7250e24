-- ===== src/Deadlock/Collect/Naming.antt =====
-- The Services that the environment of init containers names, for `entrypoint_waits` of
-- hack/validate-readiness-deadlock.py.
use krateo_openstack_bluepri.Prelude.{
  String, Bool, not, false, false_true, arith, ap, map, keep, In-map, split_on, strip, is_empty,
  ◌≡◌, refl, sym, subst, ◌∙◌, ◌↔◌, ◌⊎◌, inl, inr, true, Bool-cases, List, [], ◌∷◌, In, contains,
  contains→In, is_text, truthy, after_last, Value, null, return, return_inj, get_default, listed,
}
use krateo_openstack_bluepri.Deadlock.Collect.{Awaited, shown, elements, distinct}

-- The Service is what follows the last colon of an element of the list between commas, stripped of
-- white space, where that leaves a text that is not empty.
abbrev pub Lists : String → String → Type 0
Lists list svc =
    (part : String) × In part (split_on b',' list)
    × (is_empty (strip part) ≡ false)
    × (svc ≡ after_last b':' (strip part))

In-keep :
    (p : String → Bool) (x : String) (l : List String) → In x (keep p l) ↔ (In x l × (p x ≡ true))
In-keep p x [] = (λ m. absurd m, λ h. absurd h.0)
In-keep p x (y ∷ l) = elim (Bool-cases (p y)) [
  | inl kept ↦ rw kept (
    λ m. elim m [
      | inl e ↦ (inl e, subst (λ (z : String). p z ≡ true) (sym e) kept)
      | inr later ↦ let (at, holds) = (In-keep p x l).0 later in (inr at, holds)
    ],
    λ (m, holds). elim m [ inl e ↦ inl e | inr later ↦ inr ((In-keep p x l).1 (later, holds)) ],
  )
  | inr dropped ↦ rw dropped (
    λ m. let (at, holds) = (In-keep p x l).0 m in (inr at, holds),
    λ (m, holds). elim m [
      | inl e ↦ false_true (sym dropped ∙ subst (λ (z : String). p z ≡ true) e holds)
      | inr later ↦ (In-keep p x l).1 (later, holds)
    ],
  )
]

-- The elements that the code keeps are the ones that are listed.
pub elements-Lists :
    (list svc : String) → In svc (map (after_last b':') (elements list)) ↔ Lists list svc
unfolding elements
elements-Lists list svc =
    let parts = split_on b',' list in
    let nonblank : String → Bool = λ t. not (is_empty t) in
    let named = In-map (after_last b':') (keep nonblank (map strip parts)) svc in
    (
      λ m.
          let (item, at, same) = named.0 m in
          let (stripped, full) = (In-keep nonblank item (map strip parts)).0 at in
          let (part, at_part, e) = (In-map strip parts item).0 stripped in
          (part, at_part, ground (arith, e, full), same ∙ ap (after_last b':') e),
      λ (part, at_part, full, same). named.1 (
        strip part,
        (In-keep nonblank (strip part) (map strip parts)).1
            ((In-map strip parts (strip part)).1 (part, at_part, refl), ground (arith, full)),
        same,
      ),
    )

-- The environment variable is DEPENDENCY_SERVICE, and its value lists the Service.
abbrev pub Names : Value → String → Type 0
Names e svc =
    (name : Value) × (value : Value) × (list : String) × (get_default e "name" null ≡ return name)
    × (get_default e "value" null ≡ return value)
    × (is_text name "DEPENDENCY_SERVICE" ≡ true)
    × (truthy value ≡ true)
    × (shown value ≡ return list)
    × Lists list svc

abbrev pub ContainerNames : Value → String → Type 0
ContainerNames c svc =
    (envs : List Value) × (listed c "env" ≡ return envs) × ((e : Value) × In e envs × Names e svc)

-- An init container of the pods names the Service.
abbrev pub Awaits : Value → String → Type 0
Awaits pod_spec svc =
    (cs : List Value) × (listed pod_spec "initContainers" ≡ return cs)
    × ((c : Value) × In c cs × ContainerNames c svc)

pub In-distinct : (s : String) (xs : List String) → In s (distinct xs) ↔ In s xs
In-distinct s [] = ((λ m. m), (λ m. m))
In-distinct s (x ∷ xs) = elim (Bool-cases (contains (distinct xs) x)) [
  | inl twice ↦ rw (twice) (
    (λ m. inr ((In-distinct s xs).0 m)),
    (λ m. elim m [
      | inl e ↦
          subst (λ (y : String). In y (distinct xs)) (sym e) (contains→In (distinct xs) x twice)
      | inr later ↦ (In-distinct s xs).1 later
    ]),
  )
  | inr once ↦ rw (once) (
    (λ m. elim m [ inl e ↦ inl e | inr later ↦ inr ((In-distinct s xs).0 later) ]),
    (λ m. elim m [ inl e ↦ inl e | inr later ↦ inr ((In-distinct s xs).1 later) ]),
  )
]

-- A step adds the Services that F holds of.
abbrev pub Adds : Awaited → Awaited → (String → Type 0) → Type 0
Adds w v F = (svc : String) → In svc v.services ↔ (In svc w.services ⊎ F svc)

pub then_rest :
    (w u v : Awaited) (x : Value) (xs : List Value) (F : Value → String → Type 0)
    → Adds w u (F x)
    → Adds u v (λ svc. (y : Value) × In y xs × F y svc)
    → Adds w v (λ svc. (y : Value) × In y (x ∷ xs) × F y svc)
then_rest w u v x xs F first rest svc = (
  (λ m. elim ((rest svc).0 m) [
    | inl old ↦ elim ((first svc).0 old) [
      | inl older ↦ inl older
      | inr now ↦ inr (x, inl refl, now)
    ]
    | inr (y, k, later) ↦ inr (y, inr k, later)
  ]),
  (λ m. (rest svc).1 (elim m [
    | inl old ↦ inl ((first svc).1 (inl old))
    | inr k ↦
        let (y, at, f) = k in
        elim at [
          | inl e ↦ inl ((first svc).1 (inr (subst (λ (z : Value). F z svc) e f)))
          | inr later ↦ inr (y, later, f)
        ]
  ])),
)

pub with_envs :
    (c : Value) (envs : List Value) (w u : Awaited)
    → listed c "env" ≡ return envs
    → Adds w u (λ svc. (e : Value) × In e envs × Names e svc)
    → Adds w u (ContainerNames c)
with_envs c envs w u l adds svc = (
  (λ m. elim ((adds svc).0 m) [ inl old ↦ inl old | inr k ↦ inr (envs, l, k) ]),
  (λ m. (adds svc).1 (elim m [
    | inl old ↦ inl old
    | inr k ↦
        let (envs2, l2, f) = k in
        inr (
          subst (λ (y : List Value). (e : Value) × In e y × Names e svc) (return_inj (sym l2 ∙ l))
            f)
  ])),
)
