-- ===== src/Prelude/Text.antt =====
-- Texts: the operations of Python's `str` that the program uses, by recursion on characters.
use Prim.Native.Nat.{ℕ, zero, suc, Ordering, ◌+◌, ◌/◌, ◌%◌}
use mathlib.Core.Bool.{◌&&◌, ◌||◌}
use Prim.Native.Char.{code}
use Prim.Native.String
use Prim.Native.String.{String, ◌++◌}
use mathlib.Core.Bool.{Bool, true, false}
use mathlib.Core.List.{List, [], ◌∷◌}
use text.Mathlib.Text
use krateo_openstack_bluepri.Prelude.Tests.{if◌then◌else◌, eqb, leb}

infix 50 ◌==◌
abbrev pub ◌==◌ : String → String → Bool
a == b = Text.◌==◌ a b

infixr 66 ◌+++◌
abbrev pub ◌+++◌ : String → String → String
a +++ b = a ++ b

-- `a <= b` on texts
abbrev pub str_leb : String → String → Bool
str_leb a b = elim (String.compare a b) [ Ordering.gt ↦ false | _ ↦ true ]

abbrev pub is_empty : String → Bool
is_empty String.[] = true
is_empty (String.◌∷◌ c s) = false

-- `s.split(c)`: never empty
unfoldable pub split_on : ℕ → String → List String
split_on c String.[] = String.[] ∷ []
split_on c (String.◌∷◌ d s) =
    let rest = split_on c s in
    if eqb (code d) c
    then String.[] ∷ rest
    else elim rest [ [] ↦ (String.◌∷◌ d String.[]) ∷ [] | w ∷ ws ↦ (String.◌∷◌ d w) ∷ ws ]

-- `c.join(words)`
unfoldable pub join : String → List String → String
join sep [] = ""
join sep (w ∷ []) = w
join sep (w ∷ v ∷ ws) = w +++ sep +++ join sep (v ∷ ws)

abbrev last_word : List String → String
last_word [] = ""
last_word (w ∷ []) = w
last_word (w ∷ v ∷ ws) = last_word (v ∷ ws)

-- `s.split(c)[-1]`
unfoldable pub after_last : ℕ → String → String
unfolding split_on
after_last c s = last_word (split_on c s)

-- The code points of a text.
abbrev pub codes : String → List ℕ
codes String.[] = []
codes (String.◌∷◌ c s) = code c ∷ codes s

abbrev pub same_codes : List ℕ → List ℕ → Bool
same_codes [] [] = true
same_codes (a ∷ xs) (b ∷ ys) = eqb a b && same_codes xs ys
same_codes _ _ = false

module _ (c : ℕ) where
  -- `s.rstrip(c)`
  unfoldable pub rstrip : String → String
  rstrip String.[] = String.[]
  rstrip (String.◌∷◌ d s) =
      let rest = rstrip s in
      if eqb (code d) c && is_empty rest then String.[] else String.◌∷◌ d rest

  -- `s.partition(c)`: what stands before the first `c`, whether there is one, and what follows it
  unfoldable pub partition : String → String × Bool × String
  partition String.[] = (String.[], false, String.[])
  partition (String.◌∷◌ d s) =
      let (k, sep, v) = partition s in
      if eqb (code d) c then (String.[], true, s) else (String.◌∷◌ d k, sep, v)

-- `s.lower()`, of ASCII letters, as code points
abbrev pub lower : ℕ → ℕ
lower c = if leb b'A' c && leb c b'Z' then c + 32 else c

abbrev pub lower_codes : List ℕ → List ℕ
lower_codes [] = []
lower_codes (c ∷ cs) = lower c ∷ lower_codes cs

abbrev pub digit : ℕ → String
digit d =
    if eqb d 0
    then "0"
    else if eqb d 1
    then "1"
    else if eqb d 2
    then "2"
    else if eqb d 3
    then "3"
    else if eqb d 4
    then "4"
    else if eqb d 5
    then "5"
    else if eqb d 6
    then "6"
    else if eqb d 7
    then "7"
    else if eqb d 8
    then "8"
    else "9"

-- `"%02d" % n` below 100
abbrev pub pad2 : ℕ → String
pad2 n = digit (n / 10) +++ digit (n % 10)

-- `str(n)`, with fuel for the digits
digits_from : ℕ → ℕ → String → String
digits_from zero n done = done
digits_from (suc fuel) n done =
    let more = digits_from fuel (n / 10) (digit (n % 10) +++ done) in if eqb n 0 then done else more

unfoldable pub show_nat : ℕ → String
unfolding digits_from
show_nat n = if eqb n 0 then "0" else digits_from n n ""

-- `s.endswith(t)`
unfoldable pub ends_with : String → String → Bool
ends_with String.[] t = is_empty t
ends_with (String.◌∷◌ c s) t = (String.◌∷◌ c s == t) || ends_with s t

-- The white space of ASCII
abbrev pub is_blank : ℕ → Bool
is_blank c = eqb c 32 || (leb 9 c && leb c 13 || leb 28 c && leb c 31)

-- `s.lstrip()` and `s.rstrip()`
unfoldable pub lstrip : String → String
lstrip String.[] = String.[]
lstrip (String.◌∷◌ c s) = let rest = lstrip s in if is_blank (code c) then rest else String.◌∷◌ c s

unfoldable pub rstrip_blank : String → String
rstrip_blank String.[] = String.[]
rstrip_blank (String.◌∷◌ c s) =
    let rest = rstrip_blank s in
    if is_blank (code c) && is_empty rest then String.[] else String.◌∷◌ c rest

unfoldable pub strip : String → String
unfolding lstrip rstrip_blank
strip s = lstrip (rstrip_blank s)

-- Whether the character occurs
unfoldable pub has_char : ℕ → String → Bool
has_char c String.[] = false
has_char c (String.◌∷◌ d s) = eqb (code d) c || has_char c s

abbrev pub begins_with : List ℕ → List ℕ → Bool
begins_with [] cs = true
begins_with (c ∷ w) [] = false
begins_with (c ∷ w) (d ∷ cs) = eqb c d && begins_with w cs

-- Whether the first list of codes stands somewhere in the second
abbrev pub has_run : List ℕ → List ℕ → Bool
has_run w [] = begins_with w []
has_run w (c ∷ cs) = begins_with w (c ∷ cs) || has_run w cs
