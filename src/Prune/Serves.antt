-- ===== src/Prune/Serves.antt =====
-- What a cluster state serves, and that the tables of hack/validate-upgrade-does-not-prune.py keep each
-- component by it.
use krateo_openstack_bluepri.Prelude.{
  is_text, String, ◌≡◌, refl, sym, ap, subst, ◌∙◌, inl, inr, Bool, true, false, false_true,
  Bool-cases, ◌&&◌, none, some, some_inj, none_some, Option-cases, List, [], ◌∷◌, any, ◌==◌,
  if◌then◌else◌, lookup, find, items, Value, obj, arr, bool, null, arith, eq_iff,
}
use krateo_openstack_bluepri.Prune.States.{cur, State, Expectation}

abbrev within : String → Value → List Value
within k (obj fs) = elim (find k fs) [ some (arr vs) ↦ items vs | _ ↦ [] ]
within k _ = []

abbrev below : String → Value → Value
below k (obj fs) = elim (find k fs) [ some v ↦ v | none ↦ null ]
below k _ = null

abbrev pub is_str : String → Value → Bool
is_str w v = is_text v w

abbrev is_on : Value → Bool
is_on (bool b) = b
is_on _ = false

-- The cluster serves a version that passes.
abbrev pub serves : (Value → Bool) → State → Bool
serves p state =
    any
      (λ crd.
        any (λ v. is_on (below "served" v) && p (below "name" v))
          (within "versions" (below "spec" crd)))
      state

abbrev pub serves_any : State → Bool
serves_any = serves (λ v. true)

abbrev pub gate_when : Bool → String
gate_when b = if b then "true" else ""

-- A component that exists is emitted at the version it prefers, where the cluster serves that one, else
-- at one that the cluster serves, and where it serves none, at the current one.
abbrev pub is_kept_at : String → State → String → Bool
is_kept_at prefers state v =
    if serves (is_str prefers) state
    then v == prefers
    else if serves_any state
    then serves (is_str v) state
    else v == cur

abbrev pub agrees : String → List Expectation → List (String × State) → Bool
agrees prefers es [] = true
agrees prefers es ((name, state) ∷ sts) = elim (lookup name es) [
  | none ↦ false
  | some (gate, pin) ↦
      (gate == gate_when (serves_any state))
      && (is_kept_at prefers state pin && agrees prefers es sts)
]

abbrev pub new_agrees : List (String × String) → List (String × State) → Bool
new_agrees es [] = true
new_agrees es ((name, state) ∷ sts) = elim (lookup name es) [
  | none ↦ false
  | some gate ↦ (gate == gate_when (serves (is_str cur) state)) && new_agrees es sts
]

two : (a b : Bool) → (a && b) ≡ true → (a ≡ true) × (b ≡ true)
two true b h = (refl, h)
two false b h = false_true h

three : (a b c : Bool) → (a && (b && c)) ≡ true → (a ≡ true) × (b ≡ true) × (c ≡ true)
three true true c h = (refl, refl, h)
three true false c h = false_true h
three false b c h = false_true h

pub agrees-lookup :
    (prefers : String) (es : List Expectation) (sts : List (String × State))
    → agrees prefers es sts ≡ true
    → (name : String) (state : State) → lookup name sts ≡ some state
    → (pin : String) × (lookup name es ≡ some (gate_when (serves_any state), pin))
      × (is_kept_at prefers state pin ≡ true)
agrees-lookup prefers es [] h name state at = none_some at
agrees-lookup prefers es ((n, s) ∷ sts) h name state at = elim (Option-cases (lookup n es)) [
  | inl missing ↦ false_true (rw (missing, agrees) at h)
  | inr ((gate, pin), there) ↦
      let (right, kept, more) =
        three (gate == gate_when (serves_any s)) (is_kept_at prefers s pin) (agrees prefers es sts)
          (rw (there, agrees) at h) in
      let same_gate : gate ≡ gate_when (serves_any s) =
        ground (arith, eq_iff gate (gate_when (serves_any s))) in
      elim (Bool-cases (n == name)) [
        | inl e ↦
            let same : n ≡ name = ground (arith, eq_iff n name) in
            let its : s ≡ state = some_inj (rw (e) at at) in
            let found : lookup name es ≡ some (gate_when (serves_any s), pin) =
              ap (λ (x : String). lookup x es) (sym same)
              ∙ there
              ∙ ap (λ (g : String). some (g, pin)) same_gate in
            subst
              (λ (x : State).
                (pin : String) × (lookup name es ≡ some (gate_when (serves_any x), pin))
                × (is_kept_at prefers x pin ≡ true))
              its (pin, found, kept)
        | inr e ↦ agrees-lookup prefers es sts more name state (rw (e) at at)
      ]
]

pub new_agrees-lookup :
    (es : List (String × String)) (sts : List (String × State))
    → new_agrees es sts ≡ true
    → (name : String) (state : State) → lookup name sts ≡ some state
    → lookup name es ≡ some (gate_when (serves (is_str cur) state))
new_agrees-lookup es [] h name state at = none_some at
new_agrees-lookup es ((n, s) ∷ sts) h name state at = elim (Option-cases (lookup n es)) [
  | inl missing ↦ false_true (rw (missing, new_agrees) at h)
  | inr (gate, there) ↦
      let (right, more) =
        two (gate == gate_when (serves (is_str cur) s)) (new_agrees es sts)
          (rw (there, new_agrees) at h) in
      let same_gate : gate ≡ gate_when (serves (is_str cur) s) =
        ground (arith, eq_iff gate (gate_when (serves (is_str cur) s))) in
      elim (Bool-cases (n == name)) [
        | inl e ↦
            let same : n ≡ name = ground (arith, eq_iff n name) in
            let its : s ≡ state = some_inj (rw (e) at at) in
            subst (λ (x : State). lookup name es ≡ some (gate_when (serves (is_str cur) x))) its
              (ap (λ (x : String). lookup x es) (sym same) ∙ there ∙ ap some same_gate)
        | inr e ↦ new_agrees-lookup es sts more name state (rw (e) at at)
      ]
]
