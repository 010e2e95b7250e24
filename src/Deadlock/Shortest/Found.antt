-- ===== src/Deadlock/Shortest/Found.antt =====
-- The search comes to an end, with a cycle through `start` wherever there is one.
use krateo_openstack_bluepri.Prelude.{
  ℕ, zero, suc, ◌+◌, ◌≤◌, ◌≡◌, refl, sym, ◌∙◌, subst, arith, true, false, ◌⊎◌, inl, inr, Option,
  some, List, [], ◌∷◌, In, length, false_true,
}
use krateo_openstack_bluepri.Deadlock.{Node, node_eq, node_eq_iff}
use krateo_openstack_bluepri.Deadlock.Shortest.{
  Previous, seen, Scan, closed, onward, scan, search_from, shortest,
}
use krateo_openstack_bluepri.Deadlock.Shortest.Scanning.{
  unseen, unseen-le_length, Moves, Scanned, scan-Scanned,
}
use krateo_openstack_bluepri.Deadlock.Shortest.Tree.{
  Step, Reached, Tree, Circuit, Reached-Within, trace-Circuit,
}

module _ (next : Node → List Node) (members : List Node) (start : Node) where
  -- A chain of steps from `start`.
  pub data Leads : Node → Type 0 where
    first : {n : Node} → Step next members start n → Leads n
    onto : {m n : Node} → Leads m → Step next members m n → Leads n

  Done : Previous → Node → Type 0
  Done prev n =
      (c : Node) → Step next members n c → (node_eq c start ≡ false) × (seen prev c ≡ true)

  -- Where all is done, no chain comes back to `start`.
  Leads-seen :
      (prev : Previous)
      → ((n : Node) → Reached next members start prev n → Done prev n)
      → (n : Node) → Leads n
      → (node_eq n start ≡ false) × (seen prev n ≡ true)
  unfolding Done
  Leads-seen prev done n (first step) = done start (inl refl) n step
  Leads-seen prev done n (onto {m} leads step) =
      done m (inr (Leads-seen prev done m leads).1) n step

  -- The outcome that the search is to have.
  abbrev pub Answer : Option (List Node) → Type 0
  Answer o =
      (path : List Node) × (o ≡ some path)
      × (Circuit next members start path ⊎ ((path ≡ start ∷ start ∷ []) × ¬ Leads start))

  onward-pending :
      (node : Node) (queue : List Node) (prev : Previous) (queue' : List Node) (prev' : Previous)
      → Moves next members start node (next node) prev queue prev' queue'
      → ((n : Node) → Reached next members start prev n → In n (node ∷ queue) ⊎ Done prev n)
      → (n : Node) → Reached next members start prev' n
      → In n queue' ⊎ Done prev' n
  unfolding Done
  onward-pending node queue prev queue' prev' moves pending n r = elim (before r) [
    | inr waits ↦ inl waits
    | inl old ↦ elim (pending n old) [
      | inl (inl e) ↦
          inr (subst (λ (x : Node). Done prev' x) (sym e) (λ c step. moves.handled c step.0 step.1))
      | inl (inr waits) ↦ inl (moves.queued n waits)
      | inr done ↦ inr (λ c step. ((done c step).0, moves.known c (done c step).1))
    ]
  ]
    where
      before : Reached next members start prev' n → Reached next members start prev n ⊎ In n queue'
      before (inl root) = inl (inl root)
      before (inr k) = elim (moves.news n k) [ inl old ↦ inl (inr old) | inr waits ↦ inr waits ]

  search_from-Answer :
      (fuel : ℕ) (queue : List Node) (prev : Previous)
      → Tree next members start prev
      → ((n : Node) → In n queue → Reached next members start prev n)
      → ((n : Node) → Reached next members start prev n → In n queue ⊎ Done prev n)
      → length queue + unseen members prev ≤ fuel
      → Answer (search_from next members start fuel queue prev)
  unfolding search_from Scanned
  search_from-Answer fuel [] prev tree queued pending le = (
    start ∷ start ∷ [],
    refl,
    inr (
      refl,
      λ leads.
          let done : (n : Node) → Reached next members start prev n → Done prev n =
            λ n r. elim (pending n r) [ inl waits ↦ absurd waits | inr d ↦ d ] in
          false_true (sym (Leads-seen prev done start leads).0 ∙ (node_eq_iff start start).1 refl),
    ),
  )
  search_from-Answer zero (node ∷ queue) prev tree queued pending le = absurd (omega arith)
  search_from-Answer (suc fuel) (node ∷ queue) prev tree queued pending le =
      proceed (search_from-Answer fuel) (scan next members start node (next node) prev queue) refl (
        scan-Scanned next members start node (next node) prev queue (λ c m. m)
          (queued node (inl refl)) tree)
    where
      proceed :
          ((q : List Node) (p : Previous)
            → Tree next members start p
            → ((n : Node) → In n q → Reached next members start p n)
            → ((n : Node) → Reached next members start p n → In n q ⊎ Done p n)
            → length q + unseen members p ≤ fuel
            → Answer (search_from next members start fuel q p))
          → (o : Scan) → scan next members start node (next node) prev queue ≡ o
          → Scanned next members start node (next node) prev queue o
          → Answer (search_from next members start (suc fuel) (node ∷ queue) prev)
      proceed again (closed prev') e (grown, known, step) =
          let here : Reached next members start prev' node = elim (queued node (inl refl)) [
            | inl root ↦ inl root
            | inr k ↦ inr (known node k)
          ] in
          let (path, traced, circuit) =
            trace-Circuit next members start (suc (length prev')) prev' node [] grown
              (Reached-Within next members start prev' node here) (step, tt) in
          (path, rw (e, search_from) traced, inl circuit)
      proceed again (onward prev' queue') e moves =
          rw (e, search_from)
            (again queue' prev' moves.tree
              (λ n m. elim (moves.entered n m) [
                | inr k ↦ inr k
                | inl old ↦ elim (queued n (inr old)) [
                  | inl root ↦ inl root
                  | inr k ↦ inr (moves.known n k)
                ]
              ])
              (onward-pending node queue prev queue' prev' moves pending)
              (let shrunk = moves.shrinks in omega (arith, shrunk)))

-- The search for a way back gives a path for every graph, set of nodes and node of it: a circuit of
-- the node by way of children in the set, or, only where no chain of such children comes back to the
-- node, the node twice.
pub shortest-Answer :
    (next : Node → List Node) (members : List Node) (start : Node)
    → Answer next members start (shortest next members start)
unfolding shortest seen
shortest-Answer next members start =
    search_from-Answer next members start (suc (length members)) (start ∷ []) [] tt
      (λ n m. elim m [ inl e ↦ inl e | inr none_left ↦ absurd none_left ])
      (λ n r. elim r [ inl e ↦ inl (inl e) | inr k ↦ absurd (unseen_nothing n k) ])
      (omega (arith, unseen-le_length members))
  where
    unseen_nothing : (n : Node) → seen [] n ≡ true → ⊥
    unseen_nothing n k = cc
