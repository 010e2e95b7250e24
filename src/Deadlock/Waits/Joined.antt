-- ===== src/Deadlock/Waits/Joined.antt =====
-- Edges of a list of waits, and the waits of workloads, none of which starts at a creation.
use krateo_openstack_bluepri.Prelude.{
  ◌+++◌, String, false, Bool-cases, ◌||◌, ◌≡◌, refl, ap, ◌∙◌, arith, inl, inr, Option, none, some,
  List, [], ◌∷◌, ◌++◌, lookup,
}
use krateo_openstack_bluepri.Deadlock.{Node, creation, workload, node_eq, node_eq_iff}
use krateo_openstack_bluepri.Deadlock.Owners.{Labels, Workload, Chart, Owners}
use krateo_openstack_bluepri.Deadlock.Waits.{
  Wait, Workloads, joins, waits, add_edge, add_all, backing_waits, service_waits, label_waits,
  pod_waits, job_target, job_waits, workload_waits, all_workload_waits, matched,
}

pub waits-append :
    (es fs : List Wait) (a b : Node) → waits (es ++ fs) a b ≡ (waits es a b || waits fs a b)
waits-append [] fs a b = refl
waits-append (e ∷ es) fs a b = ground (arith, waits-append es fs a b)

waits-add_edge :
    (es : List Wait) (e : Wait) (a b : Node)
    → waits (add_edge es e) a b ≡ (waits es a b || joins e a b)
waits-add_edge es e a b = elim (Bool-cases (joins e a b)) [
  | inr other ↦ ground (arith, waits-append es (e ∷ []) a b)
  | inl same ↦ elim (Bool-cases (node_eq e.waiter a)) [
    | inr x ↦ ground arith
    | inl x ↦ elim (Bool-cases (node_eq e.on b)) [
      | inr y ↦ ground arith
      | inl y ↦
          let p : e.waiter ≡ a = (node_eq_iff e.waiter a).0 x in
          let q : e.on ≡ b = (node_eq_iff e.on b).0 y in
          let there : waits es e.waiter e.on ≡ waits es a b =
            ap (λ (m : Node). waits es m e.on) p ∙ ap (λ (m : Node). waits es a m) q in
          ground (arith, waits-append es (e ∷ []) a b)
    ]
  ]
]

pub waits-add_all :
    (es cs : List Wait) (a b : Node) → waits (add_all es cs) a b ≡ (waits es a b || waits cs a b)
unfolding add_all
waits-add_all es [] a b = ground arith
waits-add_all es (e ∷ cs) a b =
    ground (arith, waits-add_all (add_edge es e) cs a b, waits-add_edge es e a b)

module _ (owners : Owners) (workloads : Workloads) (c : String) (x : Node) where
  -- The waits of a workload are its own or its Composition's.
  backing_none :
      (comp name svc owner : String) (bs : List Workload)
      → waits (backing_waits owners workloads (workload comp name) svc owner bs) (creation c) x
        ≡ false
  unfolding backing_waits node_eq
  backing_none comp name svc owner [] = refl
  backing_none comp name svc owner (b ∷ bs) = backing_none comp name svc owner bs

  both_none :
      (es fs : List Wait)
      → waits es (creation c) x ≡ false
      → waits fs (creation c) x ≡ false
      → waits (es ++ fs) (creation c) x ≡ false
  both_none es fs h k = ground (arith, waits-append es fs (creation c) x)

  service_none :
      (comp name : String) (svcs : List String)
      → waits (service_waits owners workloads (workload comp name) svcs) (creation c) x ≡ false
  unfolding service_waits
  service_none comp name [] = refl
  service_none comp name (svc ∷ svcs) = from (lookup svc owners) refl (service_none comp name svcs)
    where
      from :
          (o : Option (String × List Workload))
          → lookup svc owners ≡ o
          → waits (service_waits owners workloads (workload comp name) svcs) (creation c) x ≡ false
          → waits (service_waits owners workloads (workload comp name) (svc ∷ svcs)) (creation c) x
            ≡ false
      from none e rest = rw (e, service_waits) rest
      from (some (owner, bs)) e rest =
          rw (e, service_waits)
            (both_none (backing_waits owners workloads (workload comp name) svc owner bs)
              (service_waits owners workloads (workload comp name) svcs)
              (backing_none comp name svc owner bs) rest)

  label_none :
      (comp name : String) (labels : Labels) (l : List (String × Workload))
      → waits (label_waits owners workloads (workload comp name) labels l) (creation c) x ≡ false
  unfolding label_waits node_eq
  label_none comp name labels [] = refl
  label_none comp name labels ((d, w) ∷ l) = label_none comp name labels l

  pod_none :
      (comp name : String) (pods : List Labels)
      → waits (pod_waits owners workloads (workload comp name) pods) (creation c) x ≡ false
  unfolding pod_waits
  pod_none comp name [] = refl
  pod_none comp name (labels ∷ pods) =
      both_none
        (label_waits owners workloads (workload comp name) labels (matched labels workloads))
        (pod_waits owners workloads (workload comp name) pods)
        (label_none comp name labels (matched labels workloads)) (pod_none comp name pods)

  job_none :
      (comp name : String) (jobs : List String)
      → waits (job_waits owners workloads comp (workload comp name) jobs) (creation c) x ≡ false
  unfolding job_waits node_eq
  job_none comp name [] = refl
  job_none comp name (job ∷ jobs) =
      from (job_target owners workloads comp job) refl (job_none comp name jobs)
    where
      from :
          (o : Option Workload)
          → job_target owners workloads comp job ≡ o
          → waits (job_waits owners workloads comp (workload comp name) jobs) (creation c) x ≡ false
          → waits (job_waits owners workloads comp (workload comp name) (job ∷ jobs)) (creation c) x
            ≡ false
      from none e rest = rw (e, job_waits) rest
      from (some w) e rest = rw (e, job_waits) rest

  pub workloads_none :
      (comp : String) (chart : Chart) (ws : List Workload)
      → waits (all_workload_waits owners workloads comp chart ws) (creation c) x ≡ false
  unfolding all_workload_waits workload_waits node_eq
  workloads_none comp chart [] = refl
  workloads_none comp chart (w ∷ ws) =
      let name = w.kind +++ "/" +++ w.name in
      let node = workload comp name in
      both_none (workload_waits owners workloads comp chart w)
        (all_workload_waits owners workloads comp chart ws)
        (both_none (service_waits owners workloads node w.services)
          (pod_waits owners workloads node w.pods ++ job_waits owners workloads comp node w.jobs)
          (service_none comp name w.services)
          (both_none (pod_waits owners workloads node w.pods)
            (job_waits owners workloads comp node w.jobs) (pod_none comp name w.pods)
            (job_none comp name w.jobs)))
        (workloads_none comp chart ws)
