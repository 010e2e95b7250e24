-- ===== src/Series.antt =====
-- hack/series-scope.py: which image references move with the OpenStack series. The regular expressions
-- and the files at a root are parameters; the report is the record that it is printed from.
pub mod Counts
mod Samples
use krateo_openstack_bluepri.Prelude.{
  ℕ, suc, ◌+◌, String, Bool, true, false, not, ◌&&◌, ◌||◌, Option, none, some, List, [], ◌∷◌, ◌++◌,
  if◌then◌else◌, ◌==◌, ◌+++◌, is_empty, contains, keep, lookup, insert,
}
use text.Mathlib.Text.{starts_with}

-- A match of IMG
pub record Reference : Type 0 where
  pub repo : String
  pub tag : String

-- IMG, and the two groups of SERIES
pub record Expressions : Type 0 where
  pub images : String → List Reference
  pub series : String → Option (String × String)

-- A component's values.yaml
pub record Values : Type 0 where
  pub component : String
  pub text : String

pub record Count : Type 0 where
  pub moving : ℕ
  pub still : ℕ

abbrev pub Tags : Type 0
Tags = List (String × List String)

pub record Scope : Type 0 where
  pub moves : Tags
  pub static : Tags
  pub per_component : List (String × Count)

-- `d[repo].add(tag)`
abbrev pub add_tag : String → String → Tags → Tags
add_tag repo tag tags = elim (lookup repo tags) [
  | none ↦ insert repo (tag ∷ []) tags
  | some seen ↦ if contains seen tag then tags else insert repo (seen ++ tag ∷ []) tags
]

abbrev pub one_more : Bool → Count → Count
one_more true n = record n { moving = suc n.moving }
one_more false n = record n { still = suc n.still }

-- `per_component[component][k] += 1`
unfoldable pub count_one : String → Bool → List (String × Count) → List (String × Count)
count_one c b [] = (c, one_more b (record { moving = 0; still = 0 })) ∷ []
count_one c b ((d, n) ∷ counts) =
    let rest = count_one c b counts in if d == c then (d, one_more b n) ∷ counts else (d, n) ∷ rest

module _ (ex : Expressions) where
  abbrev pub note : String → Reference → Option (String × String) → Scope → Scope
  note component r (some (series, base)) s = record s {
    moves = add_tag r.repo (series +++ "-" +++ base) s.moves;
    per_component = count_one component true s.per_component;
  }
  note component r none s = record s {
    static = add_tag r.repo r.tag s.static;
    per_component = count_one component false s.per_component;
  }

  unfoldable pub scan_images : String → List Reference → Scope → Scope
  unfolding count_one
  scan_images component [] s = s
  scan_images component (r ∷ rs) s = scan_images component rs (note component r (ex.series r.tag) s)

  -- `only and component != only`
  abbrev pub skipped : Option String → String → Bool
  skipped none component = false
  skipped (some only) component = not (is_empty only) && not (component == only)

  unfoldable pub scan_values : Option String → List Values → Scope → Scope
  unfolding scan_images
  scan_values only [] s = s
  scan_values only (v ∷ vs) s =
      scan_values only vs
        (if skipped only v.component then s else scan_images v.component (ex.images v.text) s)

-- The name behind the first `--component`
unfoldable pub only_of : List String → Option String
only_of [] = none
only_of (a ∷ []) = none
only_of (a ∷ b ∷ more) =
    let rest = only_of (b ∷ more) in if a == "--component" then some b else rest

abbrev pub args_of : List String → List String
args_of argv = keep (λ a. not (starts_with a "--")) argv

abbrev pub root_of : List String → String
root_of [] = "."
root_of (a ∷ more) = a

pub data Outcome : Type 0 where
  failed_measurement : Outcome
  report : Scope → Outcome

-- `argv` has no program name; `glob` has the values files at a root, in order.
unfoldable pub run : Expressions → (glob : String → List Values) → List String → Outcome
unfolding scan_values only_of
run ex glob argv = elim (glob (root_of (args_of argv))) [
  | [] ↦ failed_measurement
  | v ∷ vs ↦ report (
      scan_values ex (only_of argv) (v ∷ vs)
        (record { moves = []; static = []; per_component = [] }))
]
