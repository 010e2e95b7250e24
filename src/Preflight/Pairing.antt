-- ===== src/Preflight/Pairing.antt =====
-- `pair_name`, `pair_version` and `split_image` of hack/preflight-refs.py: what stands in the lines
-- near a line. The regular expressions are a parameter.
pub mod Window
use krateo_openstack_bluepri.Prelude.{
  ℕ, zero, suc, ◌+◌, ◌-◌, String, Bool, true, false, not, ◌&&◌, ◌||◌, Option, none, some, List, [],
  ◌∷◌, if◌then◌else◌, leb, ◌==◌, is_empty, has_char, partition,
}
use text.Mathlib.Text.{starts_with}

-- A match of IMG: the whole text, the line before it, and the groups
pub record ImageMatch : Type 0 where
  pub whole : String
  pub leading : String
  pub host : String
  pub path : String
  pub tag : String

pub record ChartMatch : Type 0 where
  pub whole : String
  pub host : String
  pub path : String

pub record DigestMatch : Type 0 where
  pub host : String
  pub path : String
  pub digest : String

-- The compiled patterns, under their names: the first group of a match, where there is one group
pub record Patterns : Type 0 where
  pub oci : String → List ChartMatch
  pub img : String → List ImageMatch
  pub digest : String → List DigestMatch
  pub version_near : String → Option String
  pub name_near : String → Option String
  pub repo_line : String → Option String
  pub tag_line : String → Option String
  pub reg_line : String → Option String
  pub skip : String → Bool

pub data Offset : Type 0 where
  ahead behind : ℕ → Offset

abbrev pub nth : List String → ℕ → Option String
nth [] n = none
nth (l ∷ ls) zero = some l
nth (l ∷ ls) (suc n) = nth ls n

-- `lines[idx + off]`, where that is in the file
unfoldable pub line_at : List String → ℕ → Offset → Option String
line_at lines idx (ahead k) = nth lines (idx + k)
line_at lines idx (behind k) = if leb k idx then nth lines (idx - k) else none

-- The first line of a window that has what is looked for
unfoldable pub first_near : (String → Option String) → List String → ℕ → List Offset → Option String
unfolding line_at
first_near look lines idx [] = none
first_near look lines idx (off ∷ offs) = elim (line_at lines idx off) [
  | none ↦ first_near look lines idx offs
  | some l ↦ elim (look l) [ none ↦ first_near look lines idx offs | some x ↦ some x ]
]

abbrev pub near : List Offset
near = ahead 0 ∷ ahead 1 ∷ ahead 2 ∷ behind 1 ∷ behind 2 ∷ ahead 3 ∷ behind 3 ∷ []

abbrev pub beside : List Offset
beside = ahead 1 ∷ ahead 2 ∷ ahead 3 ∷ behind 1 ∷ behind 2 ∷ behind 3 ∷ ahead 4 ∷ behind 4 ∷ []

pub record Image : Type 0 where
  pub host : String
  pub path : String
  pub tag : String

-- Where the image is: at the registry of its own line, at the host that the repository carries, or
-- at Docker Hub.
unfoldable pub locate : Option String → String → String → Image
unfolding partition has_char
locate registry repo tag =
    let (head, slash, rest) = partition b'/' repo in
    let unnamed : Image =
      if slash && has_char b'.' head
      then record { host = head; path = rest; tag = tag }
      else record { host = "docker.io"; path = repo; tag = tag } in
    elim registry [
      | none ↦ unnamed
      | some r ↦ if is_empty r then unnamed else record { host = r; path = repo; tag = tag }
    ]

module _ (pat : Patterns) where
  unfoldable pub pair_name : List String → ℕ → Option String
  unfolding first_near
  pair_name lines idx = first_near pat.name_near lines idx near

  -- A match with a text that SKIP refuses does not count.
  abbrev pub unskipped : (String → Option String) → String → Option String
  unskipped look line = elim (look line) [
    | none ↦ none
    | some x ↦ if pat.skip x then none else some x
  ]

  unfoldable pub pair_version : List String → ℕ → Option String
  unfolding first_near
  pair_version lines idx = first_near (unskipped pat.version_near) lines idx near

  abbrev with_tag : Option String → String → Option String → Option Image
  with_tag registry repo none = none
  with_tag registry repo (some tag) = if is_empty tag then none else some (locate registry repo tag)

  abbrev image_of : List String → ℕ → String → String → Option Image
  image_of lines idx line repo =
      if starts_with repo "oci://" || pat.skip line
      then none
      else with_tag (first_near pat.reg_line lines idx beside) repo
          (first_near (unskipped pat.tag_line) lines idx beside)

  abbrev repository_at : List String → ℕ → String → Option Image
  repository_at lines idx line = elim (pat.repo_line line) [
    | none ↦ none
    | some repo ↦ image_of lines idx line repo
  ]

  unfoldable pub split_image : List String → ℕ → Option Image
  unfolding first_near locate
  split_image lines idx = elim (nth lines idx) [
    | none ↦ none
    | some line ↦ repository_at lines idx line
  ]
