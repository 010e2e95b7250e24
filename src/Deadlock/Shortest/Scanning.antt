-- ===== src/Deadlock/Shortest/Scanning.antt =====
-- How the loop over the children of a node moves the search on.
use krateo_openstack_bluepri.Prelude.{
  ℕ, suc, ◌+◌, ◌≤◌, ◌<◌, ◌≡◌, refl, sym, ◌∙◌, subst, arith, true, false, Bool-cases, ◌⊎◌, inl, inr,
  List, [], ◌∷◌, ◌++◌, In, In-append_left, In-append_right, In-append_cases, length, length-append,
  if◌then◌else◌, false_true,
}
use krateo_openstack_bluepri.Deadlock.{Node, node_eq, node_eq_iff}
use krateo_openstack_bluepri.Deadlock.Shortest.{Previous, seen, is_in, Scan, closed, onward, scan}
use krateo_openstack_bluepri.Deadlock.Shortest.Tree.{Step, Reached, Tree}

-- How many nodes of the list have no entry.
abbrev pub unseen : List Node → Previous → ℕ
unseen [] prev = 0
unseen (m ∷ ms) prev = if seen prev m then unseen ms prev else suc (unseen ms prev)

unseen-le :
    (ms : List Node) (c p : Node) (prev : Previous) → unseen ms ((c, p) ∷ prev) ≤ unseen ms prev
unfolding seen
unseen-le [] c p prev = omega arith
unseen-le (m ∷ ms) c p prev = ground (arith, unseen-le ms c p prev)

unseen-lt :
    (ms : List Node) (c p : Node) (prev : Previous)
    → is_in ms c ≡ true
    → seen prev c ≡ false
    → unseen ms ((c, p) ∷ prev) < unseen ms prev
unfolding seen
unseen-lt [] c p prev h fresh = cc
unseen-lt (m ∷ ms) c p prev h fresh = elim (Bool-cases (node_eq m c)) [
  | inl same ↦
      let e : m ≡ c = (node_eq_iff m c).0 same in
      let new : seen prev m ≡ false = subst (λ (x : Node). seen prev x ≡ false) (sym e) fresh in
      let now : node_eq c m ≡ true = (node_eq_iff c m).1 (sym e) in
      ground (arith, unseen-le ms c p prev)
  | inr other ↦ ground (arith, unseen-lt ms c p prev)
]

pub unseen-le_length : (ms : List Node) → unseen ms [] ≤ length ms
unfolding seen
unseen-le_length [] = omega arith
unseen-le_length (m ∷ ms) = ground (arith, unseen-le_length ms)

module _ (next : Node → List Node) (members : List Node) (start : Node) where
  -- What is known of the children that the loop has gone through.
  abbrev pub Handled : Previous → Node → Type 0
  Handled prev c = is_in members c ≡ true → (node_eq c start ≡ false) × (seen prev c ≡ true)

  -- How the loop over the children moves on from `prev` and `queue`.
  pub record Moves (node : Node) (cs : List Node) (prev : Previous) (queue : List Node)
      (prev' : Previous) (queue' : List Node) : Type 0 where
    pub tree : Tree next members start prev'
    pub known : (n : Node) → seen prev n ≡ true → seen prev' n ≡ true
    pub queued : (n : Node) → In n queue → In n queue'
    pub news : (n : Node) → seen prev' n ≡ true → (seen prev n ≡ true) ⊎ In n queue'
    pub entered : (n : Node) → In n queue' → In n queue ⊎ (seen prev' n ≡ true)
    pub handled : (c : Node) → In c cs → Handled prev' c
    pub shrinks : length queue' + unseen members prev' ≤ length queue + unseen members prev

  unfoldable pub Scanned : Node → List Node → Previous → List Node → Scan → Type 0
  Scanned node cs prev queue (closed prev') =
      Tree next members start prev'
      × ((n : Node) → seen prev n ≡ true → seen prev' n ≡ true)
      × Step next members node start
  Scanned node cs prev queue (onward prev' queue') = Moves node cs prev queue prev' queue'

  skip-Scanned :
      (node c : Node) (cs : List Node) (prev : Previous) (queue : List Node) (o : Scan)
      → ((prev' : Previous)
          → ((n : Node) → seen prev n ≡ true → seen prev' n ≡ true)
          → Handled prev' c)
      → Scanned node cs prev queue o
      → Scanned node (c ∷ cs) prev queue o
  unfolding Scanned
  skip-Scanned node c cs prev queue (closed prev') h found = found
  skip-Scanned node c cs prev queue (onward prev' queue') h moves = record {
    tree = moves.tree;
    known = moves.known;
    queued = moves.queued;
    news = moves.news;
    entered = moves.entered;
    shrinks = moves.shrinks;
    handled = λ x m. elim m [
      | inl e ↦ subst (Handled prev') (sym e) (h prev' moves.known)
      | inr later ↦ moves.handled x later
    ];
  }

  push-Scanned :
      (node c : Node) (cs : List Node) (prev : Previous) (queue : List Node) (o : Scan)
      → is_in members c ≡ true
      → node_eq c start ≡ false
      → seen prev c ≡ false
      → Scanned node cs ((c, node) ∷ prev) (queue ++ c ∷ []) o
      → Scanned node (c ∷ cs) prev queue o
  unfolding Scanned seen
  push-Scanned node c cs prev queue (closed prev') inside apart fresh (tree, known, step) =
      (tree, (λ n h. known n (ground arith)), step)
  push-Scanned node c cs prev queue (onward prev' queue') inside apart fresh moves =
      let now : seen prev' c ≡ true = moves.known c (ground (arith, node_eq_iff c c)) in
      record {
        tree = moves.tree;
        known = λ n h. moves.known n (ground arith);
        queued = λ n h. moves.queued n (In-append_left n queue (c ∷ []) h);
        news = λ n h. elim (moves.news n h) [
          | inr waits ↦ inr waits
          | inl old ↦ elim (Bool-cases (node_eq c n)) [
            | inr other ↦ inl (ground arith)
            | inl same ↦ inr (
                subst (λ (x : Node). In x queue') ((node_eq_iff c n).0 same)
                  (moves.queued c (In-append_right c queue (c ∷ []) (inl refl))))
          ]
        ];
        entered = λ n h. elim (moves.entered n h) [
          | inr old ↦ inr old
          | inl waits ↦ elim (In-append_cases n queue (c ∷ []) waits) [
            | inl old ↦ inl old
            | inr (inl e) ↦ inr (subst (λ (x : Node). seen prev' x ≡ true) (sym e) now)
            | inr (inr none_left) ↦ absurd none_left
          ]
        ];
        handled = λ x m. elim m [
          | inl e ↦ subst (Handled prev') (sym e) (λ k. (apart, now))
          | inr later ↦ moves.handled x later
        ];
        shrinks =
            let shrunk = moves.shrinks in
            omega (
              arith,
              shrunk,
              unseen-lt members c node prev inside fresh,
              length-append queue (c ∷ []),
            );
      }

  Reached-grow :
      (n c p : Node) (prev : Previous)
      → Reached next members start prev n
      → Reached next members start ((c, p) ∷ prev) n
  unfolding seen
  Reached-grow n c p prev (inl e) = inl e
  Reached-grow n c p prev (inr h) = inr (ground arith)

  pub scan-Scanned :
      (node : Node) (cs : List Node) (prev : Previous) (queue : List Node)
      → ((c : Node) → In c cs → In c (next node))
      → Reached next members start prev node
      → Tree next members start prev
      → Scanned node cs prev queue (scan next members start node cs prev queue)
  unfolding scan Scanned
  scan-Scanned node [] prev queue sub r tree = record {
    tree = tree;
    known = λ n h. h;
    queued = λ n h. h;
    news = λ n h. inl h;
    entered = λ n h. inl h;
    handled = λ c h. absurd h;
    shrinks = omega arith;
  }
  scan-Scanned node (c ∷ cs) prev queue sub r tree =
      let later : (x : Node) → In x cs → In x (next node) = λ x m. sub x (inr m) in
      let skipped = scan-Scanned node cs prev queue later r tree in
      elim (Bool-cases (is_in members c)) [
        | inr outside ↦
            rw (outside, scan)
              (skip-Scanned node c cs prev queue _
                (λ prev' k inside. false_true (sym outside ∙ inside)) skipped)
        | inl inside ↦ elim (Bool-cases (node_eq c start)) [
          | inl back ↦
              rw (inside, back, scan)
                (
                  tree,
                  (λ n h. h),
                  subst (λ (x : Node). Step next members node x) ((node_eq_iff c start).0 back)
                      (sub c (inl refl), inside),
                )
          | inr apart ↦ elim (Bool-cases (seen prev c)) [
            | inl old ↦
                rw (inside, apart, old, scan)
                  (skip-Scanned node c cs prev queue _ (λ prev' k h. (apart, k c old)) skipped)
            | inr fresh ↦
                rw (inside, apart, fresh, scan)
                  (push-Scanned node c cs prev queue _ inside apart fresh (
                    scan-Scanned node cs ((c, node) ∷ prev) (queue ++ c ∷ []) later
                      (Reached-grow node c node prev r)
                      (fresh, apart, (sub c (inl refl), inside), r, tree)))
          ]
        ]
      ]
