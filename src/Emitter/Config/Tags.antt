-- ===== src/Emitter/Config/Tags.antt =====
-- Keystone's flat tags, as entries of a map.
use Prim.Native.Char.{Char, code}
use text.Mathlib.TextLemmas.{cons-append, nil-append}
use krateo_openstack_bluepri.Prelude.{
  ℕ, String, ◌≡◌, refl, ap, ◌∙◌, arith, true, false, ◌==◌, if◌then◌else◌, eqb, some, List, [], ◌∷◌,
  ◌++◌, ◌+++◌, partition, lookup, insert, lookup-insert,
}
use krateo_openstack_bluepri.Emitter.Config.{split_from, split_tags}

-- A text without the character.
abbrev pub Lacks : ℕ → String → Type 0
Lacks c String.[] = Unit
Lacks c (String.◌∷◌ d s) = (eqb (code d) c ≡ false) × Lacks c s

-- `"k:v".partition(":")`, for a key without a colon; the value may hold more of them.
partition-append :
    (c : Char) (k v : String)
    → Lacks (code c) k
    → partition (code c) (k +++ String.◌∷◌ c v) ≡ (k, true, v)
unfolding partition
partition-append c String.[] v h = rw nil-append (ground (arith))
partition-append c (String.◌∷◌ d k) v h =
    rw (cons-append, partition, h.0) (rw (partition-append c k v h.1))

partition_bare : (c : ℕ) (t : String) → Lacks c t → partition c t ≡ (t, false, "")
unfolding partition
partition_bare c String.[] h = refl
partition_bare c (String.◌∷◌ d t) h = rw (partition, h.0) (rw (partition_bare c t h.1))

-- The key and the value that a tag stands for.
abbrev entry : String → String × String
entry t = let (k, sep, v) = partition b':' t in (k, if sep then v else "")

split_from-append :
    (tags : List (String × String)) (xs ys : List String)
    → split_from tags (xs ++ ys) ≡ split_from (split_from tags xs) ys
unfolding split_from
split_from-append tags [] ys = refl
split_from-append tags (x ∷ xs) ys = split_from-append (insert (entry x).0 (entry x).1 tags) xs ys

lookup-snoc :
    (raw : List String) (t k v j : String)
    → entry t ≡ (k, v)
    → lookup j (split_tags (raw ++ t ∷ [])) ≡ (if k == j then some v else lookup j (split_tags raw))
unfolding split_tags split_from
lookup-snoc raw t k v j e =
    let before = split_from [] raw in
    ap (lookup j) (split_from-append [] raw (t ∷ []))
    ∙ ap (λ (p : String × String). lookup j (insert p.0 p.1 before)) e
    ∙ lookup-insert k j v before

-- A tag "k:v", where k has no colon, sets the entry of k to v, with any further colons kept in v; a
-- tag without a colon sets its own entry to the empty text. Every other entry stays as it was.
pub split_tags-snoc :
    (raw : List String) (k v j : String)
    → Lacks b':' k
    → (lookup j (split_tags (raw ++ (k +++ String.◌∷◌ ":" v) ∷ []))
        ≡ (if k == j then some v else lookup j (split_tags raw)))
      × (lookup j (split_tags (raw ++ k ∷ []))
          ≡ (if k == j then some "" else lookup j (split_tags raw)))
split_tags-snoc raw k v j h = (
  lookup-snoc raw (k +++ String.◌∷◌ ":" v) k v j (rw (partition-append ":" k v h)),
  lookup-snoc raw k k "" j (rw (partition_bare b':' k h)),
)
