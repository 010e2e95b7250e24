-- ===== src/Deadlock/Owners/Attributed.antt =====
-- What `resolve` has made sure of when it does not stop the script.
use krateo_openstack_bluepri.Prelude.{
  String, Bool, true, false, Bool-cases, not, ◌≡◌, refl, subst, ◌⊎◌, inl, inr, Option, none, some,
  List, [], ◌∷◌, ◌++◌, In, In-append_left, In-append_right, keep, lookup, In-sorted_by,
}
use krateo_openstack_bluepri.Deadlock.Owners.{
  Workload, Chart, Charts, in_order, Owners, Owning, Duplicate, Unresolved, own_all, wait_problem,
  open_waits, open_workloads, open_charts, is_external, resolved, check_waits, check_owners,
  resolve,
}

-- The Service has an owner with a workload behind it.
abbrev pub IsAttributed : Owners → String → Type 0
IsAttributed owners svc =
    (owner : String) × (b : Workload) × (bs : List Workload) × (lookup svc owners
      ≡ some (owner, b ∷ bs))

-- The script reports the wait.
abbrev Reports : List Unresolved → String → Type 0
Reports us svc = (u : Unresolved) × In u us × (u.service ≡ svc)

wait-IsAttributed :
    (owners : Owners) (comp : String) (w : Workload) (svc : String)
    (o : Option (String × List Workload))
    → lookup svc owners ≡ o
    → IsAttributed owners svc ⊎ Reports (wait_problem comp w svc o) svc
wait-IsAttributed owners comp w svc none e = inr (_, inl refl, refl)
wait-IsAttributed owners comp w svc (some (owner, [])) e = inr (_, inl refl, refl)
wait-IsAttributed owners comp w svc (some (owner, b ∷ bs)) e = inl (owner, b, bs, e)

Reports-left : (us vs : List Unresolved) (svc : String) → Reports us svc → Reports (us ++ vs) svc
Reports-left us vs svc (u, m, e) = (u, In-append_left u us vs m, e)

Reports-right : (us vs : List Unresolved) (svc : String) → Reports vs svc → Reports (us ++ vs) svc
Reports-right us vs svc (u, m, e) = (u, In-append_right u us vs m, e)

module _ (owners : Owners) (svc : String) where
  open_waits-Reports :
      (comp : String) (w : Workload) (svcs : List String)
      → In svc svcs
      → IsAttributed owners svc ⊎ Reports (open_waits owners comp w svcs) svc
  unfolding open_waits
  open_waits-Reports comp w [] m = absurd m
  open_waits-Reports comp w (x ∷ svcs) (inl e) =
      subst
        (λ (y : String).
          IsAttributed owners svc
          ⊎ Reports (wait_problem comp w y (lookup y owners) ++ open_waits owners comp w svcs) svc)
        e
        (elim (wait-IsAttributed owners comp w svc (lookup svc owners) refl) [
          | inl here ↦ inl here
          | inr told ↦ inr (
              Reports-left (wait_problem comp w svc (lookup svc owners))
                (open_waits owners comp w svcs) svc told)
        ])
  open_waits-Reports comp w (x ∷ svcs) (inr m) = elim (open_waits-Reports comp w svcs m) [
    | inl here ↦ inl here
    | inr told ↦ inr (
        Reports-right (wait_problem comp w x (lookup x owners)) (open_waits owners comp w svcs) svc
          told)
  ]

  open_workloads-Reports :
      (comp : String) (w : Workload) (ws : List Workload)
      → In w ws
      → In svc w.services
      → IsAttributed owners svc ⊎ Reports (open_workloads owners comp ws) svc
  unfolding open_workloads
  open_workloads-Reports comp w [] m s = absurd m
  open_workloads-Reports comp w (x ∷ ws) (inl e) s =
      elim (open_waits-Reports comp x x.services
        (subst (λ (y : Workload). In svc y.services) e s)) [
          | inl here ↦ inl here
          | inr told ↦ inr (
              Reports-left (open_waits owners comp x x.services) (open_workloads owners comp ws) svc
                told)
        ]
  open_workloads-Reports comp w (x ∷ ws) (inr m) s = elim (open_workloads-Reports comp w ws m s) [
    | inl here ↦ inl here
    | inr told ↦ inr (
        Reports-right (open_waits owners comp x x.services) (open_workloads owners comp ws) svc
          told)
  ]

  open_charts-Reports :
      (comp : String) (chart : Chart) (w : Workload) (charts : Charts)
      → In (comp, chart) charts
      → In w chart.workloads
      → In svc w.services
      → IsAttributed owners svc ⊎ Reports (open_charts owners charts) svc
  unfolding open_charts
  open_charts-Reports comp chart w [] m i s = absurd m
  open_charts-Reports comp chart w ((c, d) ∷ charts) (inl e) i s =
      elim (open_workloads-Reports c w d.workloads
        (subst (λ (x : String × Chart). In w x.1.workloads) e i) s) [
          | inl here ↦ inl here
          | inr told ↦ inr (
              Reports-left (open_workloads owners c d.workloads) (open_charts owners charts) svc
                told)
        ]
  open_charts-Reports comp chart w ((c, d) ∷ charts) (inr m) i s =
      elim (open_charts-Reports comp chart w charts m i s) [
        | inl here ↦ inl here
        | inr told ↦ inr (
            Reports-right (open_workloads owners c d.workloads) (open_charts owners charts) svc
              told)
      ]

-- What is left of a list that keeps nothing fails the test.
keep-eq-nil :
    (p : Unresolved → Bool) (us : List Unresolved)
    → keep p us ≡ []
    → (u : Unresolved) → In u us
    → p u ≡ false
keep-eq-nil p [] h u m = absurd m
keep-eq-nil p (x ∷ us) h u m = elim (Bool-cases (p x)) [
  | inl kept ↦ cc (rw kept at h)
  | inr dropped ↦ elim m [
    | inl e ↦ rw e dropped
    | inr later ↦ keep-eq-nil p us (rw dropped at h) u later
  ]
]

check_waits-resolved :
    (o owners : Owners) (us bad unresolved : List Unresolved)
    → check_waits o us bad ≡ resolved owners unresolved
    → (o ≡ owners) × (bad ≡ [])
check_waits-resolved o owners us [] unresolved h = (cc, refl)
check_waits-resolved o owners us (b ∷ bs) unresolved h = cc

not-false : (b : Bool) → not b ≡ false → b ≡ true
not-false true h = refl
not-false false h = cc

check_owners-IsAttributed :
    (charts : Charts) (o : Owning) (ds : List Duplicate) (owners : Owners)
    (unresolved : List Unresolved) (svc : String)
    → check_owners charts o ds ≡ resolved owners unresolved
    → IsAttributed o.owners svc ⊎ Reports (open_charts o.owners (in_order charts)) svc
    → (is_external svc ≡ true) ⊎ IsAttributed owners svc
check_owners-IsAttributed charts o [] owners unresolved svc h found =
    let us = open_charts o.owners (in_order charts) in
    let external : Unresolved → Bool = λ u. not (is_external u.service) in
    let (same, none_left) =
      check_waits-resolved o.owners owners us (keep external us) unresolved h in
    elim found [
      | inl here ↦ inr (subst (λ (x : Owners). IsAttributed x svc) same here)
      | inr (u, m, e) ↦ inl (
          subst (λ (x : String). is_external x ≡ true) e
            (not-false (is_external u.service) (keep-eq-nil external us none_left u m)))
    ]
check_owners-IsAttributed charts o (d ∷ ds) owners unresolved svc h found = cc

-- When the script goes on with a resolution, every Service that a workload of a rendered chart waits
-- for is a declared external one, or has an owner and a workload behind it.
pub resolve-IsAttributed :
    (charts : Charts) (owners : Owners) (unresolved : List Unresolved)
    → resolve charts ≡ resolved owners unresolved
    → (comp : String) (chart : Chart) (w : Workload) (svc : String) → In (comp, chart) charts
    → In w chart.workloads
    → In svc w.services
    → (is_external svc ≡ true) ⊎ IsAttributed owners svc
unfolding resolve
resolve-IsAttributed charts owners unresolved h comp chart w svc m i s =
    let o = own_all (in_order charts) (record { owners = []; duplicates = [] }) in
    check_owners-IsAttributed charts o o.duplicates owners unresolved svc h (
      open_charts-Reports o.owners svc comp chart w (in_order charts)
        ((In-sorted_by (λ (e : String × Chart). e.0) (comp, chart) charts).1 m) i s)
