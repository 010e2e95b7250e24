-- ===== src/Prelude/Lists.antt =====
-- Lists: lengths over the native numbers, Python's `any` and `in`, predicates by recursion.
use Prim.Native.Nat.{ℕ, suc, ◌+◌}
use Prim.Native.String.{String}
use mathlib.Core.Path.{refl, ◌≡◌, sym, ap, subst, ◌∙◌}
use mathlib.Core.Logic.{◌↔◌, ◌≢◌, ◌⊎◌, inl, inr}
use mathlib.Core.Bool.{Bool, true, false, ◌||◌, ◌&&◌}
use mathlib.Core.List.{List, [], ◌∷◌, ◌++◌, map}
use native.Mathlib.Omega.{arith}
use text.Mathlib.Text.{◌==◌}
use text.Mathlib.TextEquality.{eq_iff}
use krateo_openstack_bluepri.Prelude.Tests.{if◌then◌else◌}

module _ {ℓ} {A : Type ℓ} where
  abbrev pub length : List A → ℕ
  length [] = 0
  length (x ∷ xs) = suc (length xs)

  pub length-append : (xs ys : List A) → length (xs ++ ys) ≡ length xs + length ys
  length-append [] ys = omega arith
  length-append (x ∷ xs) ys = omega (arith, length-append xs ys)

  abbrev pub any : (A → Bool) → List A → Bool
  any p [] = false
  any p (x ∷ xs) = p x || any p xs

  abbrev pub all : (A → Bool) → List A → Bool
  all p [] = true
  all p (x ∷ xs) = p x && all p xs

  -- `[x for x in xs if p(x)]`
  abbrev pub keep : (A → Bool) → List A → List A
  keep p [] = []
  keep p (x ∷ xs) = if p x then x ∷ keep p xs else keep p xs

module _ {A : Type 0} where
  -- `x` occurs in the list, at a place that the proof shows.
  abbrev pub In : A → List A → Type 0
  In a [] = ⊥
  In a (x ∷ xs) = (a ≡ x) ⊎ In a xs

  pub In-append_left : (a : A) (xs ys : List A) → In a xs → In a (xs ++ ys)
  In-append_left a [] ys h = absurd h
  In-append_left a (x ∷ xs) ys (inl e) = inl e
  In-append_left a (x ∷ xs) ys (inr h) = inr (In-append_left a xs ys h)

  pub In-append_right : (a : A) (xs ys : List A) → In a ys → In a (xs ++ ys)
  In-append_right a [] ys h = h
  In-append_right a (x ∷ xs) ys h = inr (In-append_right a xs ys h)

  pub In-append_cases : (a : A) (xs ys : List A) → In a (xs ++ ys) → In a xs ⊎ In a ys
  In-append_cases a [] ys h = inr h
  In-append_cases a (x ∷ xs) ys (inl e) = inl (inl e)
  In-append_cases a (x ∷ xs) ys (inr h) = elim (In-append_cases a xs ys h) [
    | inl l ↦ inl (inr l)
    | inr r ↦ inr r
  ]

  -- No member occurs twice.
  abbrev pub Nodup : List A → Type 0
  Nodup [] = Unit
  Nodup (x ∷ xs) = ¬ In x xs × Nodup xs

  -- The place of a member that occurs once: the rest of the list does not hold it.
  pub Nodup-split :
      (a : A) (xs : List A)
      → Nodup xs
      → In a xs
      → (before : List A) × (after : List A) × (xs ≡ before ++ a ∷ after)
        × ((b : A) → In b before → (In b xs) × (b ≢ a))
        × ((b : A) → In b after → (In b xs) × (b ≢ a))
  Nodup-split a [] d m = absurd m
  Nodup-split a (x ∷ xs) d (inl e) = (
    [],
    xs,
    ap (λ (y : A). y ∷ xs) (sym e),
    (λ b k. absurd k),
    (λ b k. (inr k, λ same. d.0 (subst (λ (y : A). In y xs) (same ∙ e) k))),
  )
  Nodup-split a (x ∷ xs) d (inr m) =
      let (before, after, split, early, late) = Nodup-split a xs d.1 m in
      (
        x ∷ before,
        after,
        ap (λ (l : List A). x ∷ l) split,
        (λ b k. elim k [
          | inl e ↦ (inl e, λ same. d.0 (subst (λ (y : A). In y xs) (sym same ∙ e) m))
          | inr later ↦ (inr (early b later).0, (early b later).1)
        ]),
        (λ b k. (inr (late b k).0, (late b k).1)),
      )

module _ {ℓ κ} {A : Type ℓ} (P : A → Type κ) where
  abbrev pub All : List A → Type κ
  All [] = Unit
  All (x ∷ xs) = P x × All xs

  pub All-append : (xs ys : List A) → All xs → All ys → All (xs ++ ys)
  All-append [] ys hx hy = hy
  All-append (x ∷ xs) ys hx hy = (hx.0, All-append xs ys hx.1 hy)

-- `s in names`, for a list or a set of texts.
abbrev pub contains : List String → String → Bool
contains [] s = false
contains (x ∷ xs) s = x == s || contains xs s

pub All-each : {A : Type 0} (P : A → Type 0) (l : List A) → All P l ↔ ((a : A) → In a l → P a)
All-each P [] = (λ h a m. absurd m, λ h. tt)
All-each P (x ∷ l) = (
  λ h a m. elim m [ inl e ↦ subst P (sym e) h.0 | inr later ↦ (All-each P l).0 h.1 a later ],
  λ h. (h x (inl refl), (All-each P l).1 (λ a m. h a (inr m))),
)

pub contains→In : (xs : List String) (s : String) → contains xs s ≡ true → In s xs
contains→In [] s h = cc
contains→In (x ∷ xs) s h = ground (arith, eq_iff x s, contains→In xs s)

pub In→contains : (xs : List String) (s : String) → In s xs → contains xs s ≡ true
In→contains [] s h = absurd h
In→contains (x ∷ xs) s h = ground (arith, eq_iff x s, In→contains xs s)

pub append_nil : {A : Type 0} (xs ys : List A) → (xs ++ ys) ≡ [] → (xs ≡ []) × (ys ≡ [])
append_nil [] ys h = (refl, h)
append_nil (x ∷ xs) ys h = cc

pub In-map :
    {A B : Type 0} (f : A → B) (xs : List A) (b : B)
    → In b (map f xs) ↔ ((a : A) × In a xs × (b ≡ f a))
In-map f [] b = ((λ m. absurd m), (λ k. absurd k.1))
In-map f (x ∷ xs) b = (
  (λ m. elim m [
    | inl e ↦ (x, inl refl, e)
    | inr later ↦ let (a, k, e) = (In-map f xs b).0 later in (a, inr k, e)
  ]),
  (λ k.
      let (a, at, e) = k in
      elim at [
        | inl same ↦ inl (e ∙ ap f same)
        | inr later ↦ inr ((In-map f xs b).1 (a, later, e))
      ]),
)
