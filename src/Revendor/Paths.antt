-- ===== src/Revendor/Paths.antt =====
-- `put` against `get`: the value lands at its path, and no path beside it is touched.
use krateo_openstack_bluepri.Prelude.{
  String, Bool-cases, Option, none, some, [], ◌∷◌, ◌≡◌, ◌≢◌, ◌⊎◌, inl, inr, refl, sym, ◌∙◌, subst,
  arith, ◌==◌, eq_iff, eq_refl, if◌then◌else◌, Value, Fields, end, field, obj, arr, null, bool, num,
  real, str, find, store,
}
use krateo_openstack_bluepri.Revendor.{KeyPath, get, put, child}

pub find-store :
    (k j : String) (v : Value) (fs : Fields)
    → find j (store k v fs) ≡ (if k == j then some v else find j fs)
find-store k j v end = refl
find-store k j v (field i w fs) =
    ground (arith, eq_iff k j, eq_iff i k, eq_iff i j, find-store k j v fs)

-- Two paths part: at some key they differ, and up to there they agree.
abbrev pub Parts : KeyPath → KeyPath → Type 0
Parts (k ∷ ks) (j ∷ js) = (k ≢ j) ⊎ ((k ≡ j) × Parts ks js)
Parts [] q = ⊥
Parts (k ∷ ks) [] = ⊥

-- A path that is not empty.
abbrev pub IsPath : KeyPath → Type 0
IsPath [] = ⊥
IsPath (k ∷ ks) = Unit

-- What was put at a path is found there, whatever stood on the way.
pub get-put : (fs : Fields) (p : KeyPath) (v : Value) → IsPath p → get (obj (put fs p v)) p ≡ some v
unfolding get put
get-put fs [] v h = absurd h
get-put fs (k ∷ []) v h = ground (arith, find-store k k v fs, eq_refl k)
get-put fs (k ∷ j ∷ ks) v h =
    let below = put (child k fs) (j ∷ ks) v in
    rw (find-store k k (obj below) fs, eq_refl k, get) (get-put (child k fs) (j ∷ ks) v tt)

get-store_self :
    (fs : Fields) (k : String) (w : Value) (js : KeyPath)
    → get (obj (store k w fs)) (k ∷ js) ≡ get w js
unfolding get
get-store_self fs k w js = rw (find-store k k w fs, eq_refl k, get)

get-store_ne :
    (fs : Fields) (k j : String) (w : Value) (js : KeyPath)
    → k ≢ j
    → get (obj (store k w fs)) (j ∷ js) ≡ get (obj fs) (j ∷ js)
unfolding get
get-store_ne fs k j w js ne = elim (Bool-cases (k == j)) [
  | inl same ↦ absurd (ne ((eq_iff k j).0 same))
  | inr other ↦ rw (find-store k j w fs, other, get)
]

-- Below the root, a path is read in the mapping that its first key holds.
get-child :
    (fs : Fields) (k j : String) (js : KeyPath)
    → get (obj fs) (k ∷ j ∷ js) ≡ get (obj (child k fs)) (j ∷ js)
unfolding get
get-child fs k j js = below (find k fs)
  where
    below :
        (o : Option Value)
        → (elim o as (λ _. Option Value) [ none ↦ none | some v ↦ get v (j ∷ js) ])
          ≡ get (obj (elim o as (λ _. Fields) [ some (obj gs) ↦ gs | _ ↦ end ])) (j ∷ js)
    below none = refl
    below (some null) = refl
    below (some (bool b)) = refl
    below (some (num n)) = refl
    below (some (real r)) = refl
    below (some (str s)) = refl
    below (some (arr xs)) = refl
    below (some (obj gs)) = refl

-- A path that parts from the one that was put reads as before.
pub get-put-Parts :
    (fs : Fields) (p q : KeyPath) (v : Value)
    → Parts p q
    → get (obj (put fs p v)) q ≡ get (obj fs) q
unfolding put
get-put-Parts fs [] q v h = absurd h
get-put-Parts fs (k ∷ ks) [] v h = absurd h
get-put-Parts fs (k ∷ []) (j ∷ js) v (inl ne) = get-store_ne fs k j v js ne
get-put-Parts fs (k ∷ []) (j ∷ js) v (inr (e, h)) = absurd h
get-put-Parts fs (k ∷ l ∷ ks) (j ∷ js) v (inl ne) =
    get-store_ne fs k j (obj (put (child k fs) (l ∷ ks) v)) js ne
get-put-Parts fs (k ∷ l ∷ ks) (j ∷ []) v (inr (e, h)) = absurd h
get-put-Parts fs (k ∷ l ∷ ks) (j ∷ i ∷ js) v (inr (e, h)) =
    subst
      (λ (x : String).
        get (obj (store k (obj (put (child k fs) (l ∷ ks) v)) fs)) (x ∷ i ∷ js)
        ≡ get (obj fs) (x ∷ i ∷ js))
      e
      (get-store_self fs k (obj (put (child k fs) (l ∷ ks) v)) (i ∷ js)
        ∙ get-put-Parts (child k fs) (l ∷ ks) (i ∷ js) v h
        ∙ sym (get-child fs k i js))
