-- ===== src/Prelude/Sorting.antt =====
-- Python's `sorted` on texts, which keeps the members of a list.
use Prim.Native.String.{String}
use mathlib.Core.Path.{◌≡◌, refl, sym, subst}
use mathlib.Core.Logic.{◌⊎◌, inl, inr, ◌↔◌}
use mathlib.Core.Bool.{Bool}
use mathlib.Core.List.{List, [], ◌∷◌}
use native.Mathlib.Omega.{arith}
use krateo_openstack_bluepri.Prelude.Tests.{if◌then◌else◌, Bool-cases}
use krateo_openstack_bluepri.Prelude.Text.{str_leb}
use krateo_openstack_bluepri.Prelude.Lists.{In, Nodup}

module _ {A : Type 0} (le : A → A → Bool) where
  -- Insertion into a sorted list, behind the equal keys.
  pub place : A → List A → List A
  place a [] = a ∷ []
  place a (x ∷ xs) = if le x a then x ∷ place a xs else a ∷ x ∷ xs

  pub sort_from : List A → List A → List A
  unfolding place
  sort_from done [] = done
  sort_from done (x ∷ xs) = sort_from (place x done) xs

  unfoldable pub sort_with : List A → List A
  unfolding sort_from
  sort_with xs = sort_from [] xs

  In-place : (b a : A) (xs : List A) → In b (place a xs) → (b ≡ a) ⊎ In b xs
  unfolding place
  In-place b a [] (inl e) = inl e
  In-place b a [] (inr h) = inr h
  In-place b a (x ∷ xs) h = ground (arith, In-place b a xs)

  place-In : (b a : A) (xs : List A) → (b ≡ a) ⊎ In b xs → In b (place a xs)
  unfolding place
  place-In b a [] h = h
  place-In b a (x ∷ xs) h = ground (arith, place-In b a xs)

  In-sort_from : (b : A) (done xs : List A) → In b (sort_from done xs) → In b done ⊎ In b xs
  unfolding sort_from
  In-sort_from b done [] h = inl h
  In-sort_from b done (x ∷ xs) h =
      ground (arith, In-sort_from b (place x done) xs, In-place b x done)

  sort_from-In : (b : A) (done xs : List A) → In b done ⊎ In b xs → In b (sort_from done xs)
  unfolding sort_from
  sort_from-In b done [] (inl h) = h
  sort_from-In b done [] (inr h) = absurd h
  sort_from-In b done (x ∷ xs) h =
      sort_from-In b (place x done) xs (ground (arith, place-In b x done))

  -- `sorted` neither adds nor drops a member.
  pub In-sort_with : (b : A) (xs : List A) → In b (sort_with xs) ↔ In b xs
  unfolding sort_with
  In-sort_with b xs = (
    λ h. elim (In-sort_from b [] xs h) [ inl e ↦ absurd e | inr m ↦ m ],
    λ h. sort_from-In b [] xs (inr h),
  )

  place-Nodup : (a : A) (xs : List A) → ¬ In a xs → Nodup xs → Nodup (place a xs)
  unfolding place
  place-Nodup a [] absent d = (absent, tt)
  place-Nodup a (x ∷ xs) absent d = elim (Bool-cases (le x a)) [
    | inl before ↦ rw before (
      λ m. elim (In-place x a xs m) [ inl e ↦ absent (inl (sym e)) | inr old ↦ d.0 old ],
      place-Nodup a xs (λ m. absent (inr m)) d.1,
    )
    | inr after ↦ rw after (absent, d)
  ]

  sort_from-Nodup :
      (done xs : List A)
      → Nodup done
      → Nodup xs
      → ((a : A) → In a xs → ¬ In a done)
      → Nodup (sort_from done xs)
  unfolding sort_from
  sort_from-Nodup done [] d e apart = d
  sort_from-Nodup done (x ∷ xs) d e apart =
      sort_from-Nodup (place x done) xs (place-Nodup x done (apart x (inl refl)) d) e.1 λ a m k.
        elim (In-place a x done k) [
          | inl same ↦ e.0 (subst (λ (y : A). In y xs) same m)
          | inr old ↦ apart a (inr m) old
        ]

  pub sort_with-Nodup : (xs : List A) → Nodup xs → Nodup (sort_with xs)
  unfolding sort_with
  sort_with-Nodup xs d = sort_from-Nodup [] xs tt d (λ a m. absurd)

-- `sorted(xs, key=key)`, and `sorted(xs)` on texts
abbrev pub sorted_by : {A : Type 0} → (A → String) → List A → List A
sorted_by key = sort_with (λ a b. str_leb (key a) (key b))

pub In-sorted_by :
    {A : Type 0} (key : A → String) (b : A) (xs : List A) → In b (sorted_by key xs) ↔ In b xs
In-sorted_by key = In-sort_with (λ a b. str_leb (key a) (key b))

abbrev pub sorted : List String → List String
sorted xs = sorted_by (λ s. s) xs
