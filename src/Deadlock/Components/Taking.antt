-- ===== src/Deadlock/Components/Taking.antt =====
-- Tarjan's search in hack/validate-readiness-deadlock.py: what is popped off the stack.
use krateo_openstack_bluepri.Prelude.{
  true, Bool-cases, ◌≡◌, ◌≢◌, ◌↔◌, refl, sym, ◌∙◌, subst, ◌⊎◌, inl, inr, some, some_inj, false_true,
  List, [], ◌∷◌, ◌++◌, In, In-append_left, In-append_right, In-append_cases,
}
use krateo_openstack_bluepri.Deadlock.{Node, node_eq, node_eq_iff}
use krateo_openstack_bluepri.Deadlock.Components.{member, discard, Popped, pop_to}

member-discard :
    (m n : Node) (ns : List Node)
    → (member (discard m ns) n ≡ true) ↔ ((member ns n ≡ true) × (m ≢ n))
member-discard m n [] = (λ h. false_true h, λ h. false_true h.0)
member-discard m n (x ∷ ns) = elim (Bool-cases (node_eq x m)) [
  | inl gone ↦
      let rest = member-discard m n ns in
      elim (Bool-cases (node_eq x n)) [
        | inl here ↦
            rw (gone, here)
              (
                λ h. (refl, (rest.0 h).1),
                λ h. absurd (h.1 (sym ((node_eq_iff x m).0 gone) ∙ (node_eq_iff x n).0 here)),
              )
        | inr there ↦ rw (gone, there) rest
      ]
  | inr kept ↦
      let rest = member-discard m n ns in
      elim (Bool-cases (node_eq x n)) [
        | inl here ↦
            rw (kept, here)
              (
                λ h. (
                  refl,
                  λ e.
                      false_true
                        (sym kept ∙ (node_eq_iff x m).1 ((node_eq_iff x n).0 here ∙ sym e)),
                ),
                λ h. refl,
              )
        | inr there ↦ rw (kept, there) rest
      ]
]

-- What is popped off a stack down to a node
pub record Taken (seg : List Node) (w : Node) (below on acc : List Node) (q : Popped) : Type 0 where
  pub stack : q.stack ≡ below
  pub scc : (n : Node) → In n q.scc ↔ (In n acc ⊎ In n (seg ++ w ∷ []))
  pub left :
      (n : Node) → (member q.on_stack n ≡ true) ↔ ((member on n ≡ true) × ¬ In n (seg ++ w ∷ []))

pub In-snoc : (n x : Node) (xs : List Node) → In n (xs ++ x ∷ []) ↔ (In n xs ⊎ (n ≡ x))
In-snoc n x xs = (
  λ m. elim (In-append_cases n xs (x ∷ []) m) [
    | inl l ↦ inl l
    | inr (inl e) ↦ inr e
    | inr (inr v) ↦ absurd v
  ],
  λ h. elim h [
    | inl l ↦ In-append_left n xs (x ∷ []) l
    | inr e ↦ In-append_right n xs (x ∷ []) (inl e)
  ],
)

pub pop_to-Taken :
    (seg : List Node) (w : Node) (below on acc : List Node) (q : Popped)
    → ¬ In w seg
    → pop_to w (seg ++ w ∷ below) on acc ≡ some q
    → Taken seg w below on acc q
unfolding pop_to
pop_to-Taken [] w below on acc q apart h =
    let e = some_inj (rw ((node_eq_iff w w).1 refl, pop_to) at h) in
    subst (Taken [] w below on acc) e (record {
      stack = refl;
      scc = λ n.
          let s = In-snoc n w acc in
          (
            λ m. elim (s.0 m) [ inl l ↦ inl l | inr i ↦ inr (inl i) ],
            λ m. s.1 (elim m [ inl l ↦ inl l | inr (inl i) ↦ inr i | inr (inr v) ↦ absurd v ]),
          );
      left = λ n.
          let d = member-discard w n on in
          (
            λ m. ((d.0 m).0, λ i. elim i [ inl e' ↦ (d.0 m).1 (sym e') | inr v ↦ v ]),
            λ m. d.1 (m.0, λ e'. m.1 (inl (sym e'))),
          );
    })
pop_to-Taken (x ∷ seg) w below on acc q apart h = elim (Bool-cases (node_eq x w)) [
  | inl here ↦ absurd (apart (inl (sym ((node_eq_iff x w).0 here))))
  | inr there ↦
      let p =
        pop_to-Taken seg w below (discard x on) (acc ++ x ∷ []) q (λ m. apart (inr m))
          (rw (there, pop_to) at h) in
      record {
        stack = p.stack;
        scc = λ n.
            let s = In-snoc n x acc in
            (
              λ m. elim ((p.scc n).0 m) [
                | inl a ↦ elim (s.0 a) [ inl l ↦ inl l | inr i ↦ inr (inl i) ]
                | inr r ↦ inr (inr r)
              ],
              λ m. (p.scc n).1 (elim m [
                | inl l ↦ inl (s.1 (inl l))
                | inr (inl i) ↦ inl (s.1 (inr i))
                | inr (inr r) ↦ inr r
              ]),
            );
        left = λ n.
            let d = member-discard x n on in
            (
              λ m.
                  let (a, b) = (p.left n).0 m in
                  ((d.0 a).0, λ i. elim i [ inl e ↦ (d.0 a).1 (sym e) | inr r ↦ b r ]),
              λ m. (p.left n).1 (d.1 (m.0, λ e. m.1 (inl (sym e))), λ r. m.1 (inr r)),
            );
      }
]
