-- ===== src/Deadlock/Components/Ordered.antt =====
-- Components of the graph of waits in an order where each one's waits are found before it, and numbers of
-- a node that is entered.
use krateo_openstack_bluepri.Prelude.{
  ℕ, suc, Bool-cases, ◌≡◌, refl, sym, ap, ◌∙◌, ◌⊎◌, inl, inr, none, some_inj, none_some, false_true,
  List, [], ◌∷◌, ◌++◌, In, length,
}
use krateo_openstack_bluepri.Deadlock.{Node, node_eq, node_eq_iff}
use krateo_openstack_bluepri.Deadlock.Components.{Numbers, number_of, set_number}
use krateo_openstack_bluepri.Deadlock.Components.Marking.{number-set_same, number-set_other}
use krateo_openstack_bluepri.Deadlock.Components.Laid.{At, Out}

pub At-set :
    (c : Node) (i : ℕ) (ix : Numbers)
    → number_of ix c ≡ none
    → (n : Node) (k : ℕ) → At ix n k
    → At (set_number c i ix) n k
At-set c i ix new n k at =
    number-set_other c n i ix (λ e. none_some (sym new ∙ ap (number_of ix) e ∙ at)) ∙ at

pub At-set_cases :
    (c : Node) (i : ℕ) (ix : Numbers) (n : Node) (k : ℕ)
    → At (set_number c i ix) n k
    → ((c ≡ n) × (k ≡ i)) ⊎ At ix n k
At-set_cases c i ix n k at = elim (Bool-cases (node_eq c n)) [
  | inl same ↦
      let e = (node_eq_iff c n).0 same in
      inl
        (e, some_inj (sym at ∙ ap (number_of (set_number c i ix)) (sym e) ∙ number-set_same c i ix))
  | inr apart ↦
      inr
        (sym (number-set_other c n i ix (λ e. false_true (sym apart ∙ (node_eq_iff c n).1 e))) ∙ at)
]

pub length-set :
    (c : Node) (i : ℕ) (ix : Numbers)
    → number_of ix c ≡ none
    → length (set_number c i ix) ≡ suc (length ix)
unfolding number_of set_number
length-set c i [] new = refl
length-set c i ((m, l) ∷ ix) new = elim (Bool-cases (node_eq m c)) [
  | inl same ↦ none_some {a = l} (sym new ∙ rw (same, number_of) refl)
  | inr apart ↦ rw apart (ap suc (length-set c i ix (rw (apart, number_of) at new)))
]

-- A component's children are in it or in an earlier one.
unfoldable pub Ordered : (Node → List Node) → (Node → Type 0) → List (List Node) → Type 0
Ordered next D [] = Unit
Ordered next D (scc ∷ out) =
    ((n : Node) → In n scc → (c : Node) → In c (next n) → In c scc ⊎ D c)
    × Ordered next (λ c. D c ⊎ In c scc) out

pub Ordered-snoc :
    (next : Node → List Node) (D : Node → Type 0) (out : List (List Node)) (scc : List Node)
    → Ordered next D out
    → ((n : Node) → In n scc → (c : Node) → In c (next n) → In c scc ⊎ (D c ⊎ Out out c))
    → Ordered next D (out ++ scc ∷ [])
unfolding Ordered Out
Ordered-snoc next D [] scc h new = (
  λ n m c e. elim (new n m c e) [ inl i ↦ inl i | inr (inl d) ↦ inr d | inr (inr o) ↦ absurd o ],
  tt,
)
Ordered-snoc next D (x ∷ out) scc (here, h) new = (
  here,
  Ordered-snoc next (λ c. D c ⊎ In c x) out scc h
      (λ n m c e. elim (new n m c e) [
        | inl i ↦ inl i
        | inr (inl d) ↦ inr (inl (inl d))
        | inr (inr (inl i)) ↦ inr (inl (inr i))
        | inr (inr (inr o)) ↦ inr (inr o)
      ]),
)
