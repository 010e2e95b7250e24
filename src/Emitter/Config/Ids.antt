-- ===== src/Emitter/Config/Ids.antt =====
-- The text that a record id is the hash of determines the parts.
use Prim.Native.Char.{code, nul}
use text.Mathlib.TextLemmas.{cons-append, nil-append, cons-eq-cons, cons≢nil}
use mathlib.Core.Path.{ap₂}
use krateo_openstack_bluepri.Prelude.{
  String, ◌≡◌, ◌≢◌, refl, sym, ap, ◌∙◌, List, [], ◌∷◌, ◌+++◌, All,
}
use krateo_openstack_bluepri.Emitter.Config.{hash_input}

-- A text without the character NUL.
abbrev pub NoNul : String → Type 0
NoNul String.[] = Unit
NoNul (String.◌∷◌ c s) = (code c ≢ 0) × NoNul s

-- Up to the first NUL, two texts agree.
before_nul :
    (p q : String) (s t : String)
    → NoNul p
    → NoNul q
    → p +++ String.◌∷◌ nul s ≡ q +++ String.◌∷◌ nul t
    → (p ≡ q) × (s ≡ t)
before_nul String.[] String.[] s t hp hq e =
    (refl, (cons-eq-cons.0 (rw (nil-append, nil-append) at e)).1)
before_nul String.[] (String.◌∷◌ d q) s t hp hq e =
    absurd (hq.0 (sym (ap code (cons-eq-cons.0 (rw (nil-append, cons-append) at e)).0)))
before_nul (String.◌∷◌ c p) String.[] s t hp hq e =
    absurd (hp.0 (ap code (cons-eq-cons.0 (rw (nil-append, cons-append) at e)).0))
before_nul (String.◌∷◌ c p) (String.◌∷◌ d q) s t hp hq e =
    let (first, rest) =
      cons-eq-cons.0
        (sym (cons-append c p (String.◌∷◌ nul s)) ∙ e ∙ cons-append d q (String.◌∷◌ nul t)) in
    let (more, after) = before_nul p q s t hp.1 hq.1 rest in (ap₂ String.◌∷◌ first more, after)

nul_in_front : (p s : String) → p +++ String.◌∷◌ nul s ≢ ""
nul_in_front String.[] s e = cons≢nil (rw nil-append at e)
nul_in_front (String.◌∷◌ c p) s e = cons≢nil (rw cons-append at e)

-- Two lists of texts without NUL give the hash the same input only if they are the same list.
pub hash_input_injective :
    (ps qs : List String) → All NoNul ps → All NoNul qs → hash_input ps ≡ hash_input qs → ps ≡ qs
unfolding hash_input
hash_input_injective [] [] hp hq e = refl
hash_input_injective [] (q ∷ qs) hp hq e = absurd (nul_in_front q (hash_input qs) (sym e))
hash_input_injective (p ∷ ps) [] hp hq e = absurd (nul_in_front p (hash_input ps) e)
hash_input_injective (p ∷ ps) (q ∷ qs) hp hq e =
    let (first, rest) = before_nul p q (hash_input ps) (hash_input qs) hp.0 hq.0 e in
    ap₂ ◌∷◌ first (hash_input_injective ps qs hp.1 hq.1 rest)
