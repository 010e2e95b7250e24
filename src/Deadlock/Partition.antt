-- ===== src/Deadlock/Partition.antt =====
-- `check_partition` of hack/validate-readiness-deadlock.py, from what `helm template` printed on.
pub mod Agrees
use Prim.Native.Char.{code}
use krateo_openstack_bluepri.Prelude.{
  ℕ, String, Bool, true, false, not, ◌&&◌, ◌||◌, Option, none, some, List, [], ◌∷◌, ◌++◌,
  if◌then◌else◌, ◌==◌, is_empty, is_blank, split_on, partition, keep, sorted, sorted_by, lookup,
  insert, length, Result, return, raise, Exception, other_error, ◌>>=◌, eqb,
}
use text.Mathlib.Text.{starts_with}
use krateo_openstack_bluepri.Deadlock.Umbrella.{Comps, Edge, has_edge, fail_measurement}

abbrev pub nonempty : List String → List String
nonempty xs = keep (λ x. not (is_empty x)) xs

unfoldable split_blank : String → List String
split_blank String.[] = String.[] ∷ []
split_blank (String.◌∷◌ d s) =
    let rest = split_blank s in
    let longer : List String = elim rest [
      | [] ↦ (String.◌∷◌ d String.[]) ∷ []
      | w ∷ ws ↦ (String.◌∷◌ d w) ∷ ws
    ] in
    if is_blank (code d) then String.[] ∷ rest else longer

-- `line.split()`
unfoldable pub words : String → List String
unfolding split_blank
words line = nonempty (split_blank line)

unfoldable pub split_set : String → List String
unfolding split_on
split_set field = sorted (nonempty (split_on b',' field))

-- `parts[k].split("=", 1)[1]`
abbrev after_equals : String → Result String
after_equals part =
    let (head, found, rest) = partition b'=' part in
    if found then return rest else raise (other_error "IndexError")

-- What a component waits for, as ready and as created
pub record Halves : Type 0 where
  pub strict : List String
  pub relaxed : List String

abbrev pub Rendered : Type 0
Rendered = List (String × Halves)

read_parts : List String → Rendered → Result Rendered
unfolding partition split_set
read_parts (mark ∷ name ∷ strict ∷ relaxed ∷ more) rendered = do
  s ← after_equals strict
  r ← after_equals relaxed
  return (insert name (record { strict = split_set s; relaxed = split_set r }) rendered)
read_parts _ rendered = raise (other_error "IndexError")

unfoldable pub read_lines : List String → Rendered → Result Rendered
unfolding read_parts words
read_lines [] rendered = return rendered
read_lines (line ∷ lines) rendered =
    (if starts_with line "#PARTITION " then read_parts (words line) rendered else return rendered)
    >>= λ more. read_lines lines more

abbrev pub same_texts : List String → List String → Bool
same_texts [] [] = true
same_texts (x ∷ xs) (y ∷ ys) = x == y && same_texts xs ys
same_texts _ _ = false

abbrev pub same_halves : Halves → Halves → Bool
same_halves a b = same_texts a.strict b.strict && same_texts a.relaxed b.relaxed

unfoldable pub wanted : List Edge → String → List String → Halves
wanted declared name deps = record {
  strict = sorted (keep (λ d. not (has_edge declared (name, d))) deps);
  relaxed = sorted (keep (λ d. has_edge declared (name, d)) deps);
}

abbrev pub is_right : List Edge → String → List String → Option Halves → Bool
is_right declared name deps none = false
is_right declared name deps (some got) = same_halves got (wanted declared name deps)

-- The components of `wrong`
unfoldable pub wrong : List Edge → Rendered → Comps → List String
unfolding wanted
wrong declared rendered [] = []
wrong declared rendered ((name, deps) ∷ more) =
    let rest = wrong declared rendered more in
    if is_right declared name deps (lookup name rendered) then rest else name ∷ rest

abbrev pub judge_wrong : Rendered → List String → Result ℕ
judge_wrong rendered [] = return (length rendered)
judge_wrong rendered (n ∷ ns) = fail_measurement "the templates do not gate the declared edges"

abbrev pub compare_all : Comps → List Edge → Rendered → Result ℕ
compare_all comps declared [] = fail_measurement "nothing was compared"
compare_all comps declared (r ∷ rs) =
    judge_wrong (r ∷ rs)
      (wrong declared (r ∷ rs) (sorted_by (λ (e : String × List String). e.0) comps))

-- `out`: the lines that are printed, or `none` where the templates do not render.
unfoldable pub check_partition : Option (List String) → Comps → List Edge → Result ℕ
unfolding read_lines wrong
check_partition none comps declared = fail_measurement "the partition does not render"
check_partition (some lines) comps declared = read_lines lines [] >>= compare_all comps declared
