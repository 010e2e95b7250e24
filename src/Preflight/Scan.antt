-- ===== src/Preflight/Scan.antt =====
-- `scan` of hack/preflight-refs.py, over the directories that `os.walk` goes through.
pub mod Mentions
pub mod Complete
use Prim.Native.Char.{code}
use krateo_openstack_bluepri.Prelude.{
  ℕ, zero, suc, ◌+◌, String, Bool, true, false, not, ◌&&◌, ◌||◌, Option, none, some, List, [], ◌∷◌,
  ◌++◌, any, if◌then◌else◌, eqb, leb, ltb, ◌==◌, ◌+++◌, str_leb, is_empty, has_char, split_on,
  codes, ends_with, rstrip_blank, contains,
}
use krateo_openstack_bluepri.Preflight.Pairing.{
  ImageMatch, ChartMatch, DigestMatch, Patterns, Image, pair_name, pair_version, split_image,
}

-- A file that cannot be read has no text.
pub record File : Type 0 where
  pub name : String
  pub text : Option String

mutual
  pub data Folder : Type 0 where
    folder : (files : List File) → Folders → Folder

  pub data Folders : Type 0 where
    end : Folders
    named : String → Folder → Folders → Folders

-- A tuple of `charts` or `images`; the last one is a tag, a digest or a version.
pub record Ref : Type 0 where
  pub host : String
  pub path : String
  pub tag : String
  pub file : String
  pub line : ℕ

abbrev pub same_ref : Ref → Ref → Bool
same_ref a b =
    a.host == b.host
    && (a.path == b.path && (a.tag == b.tag && (a.file == b.file && eqb a.line b.line)))

abbrev pub before_or : String → String → Bool → Bool
before_or a b rest = if a == b then rest else str_leb a b

-- The order of the tuples
abbrev pub ref_le : Ref → Ref → Bool
ref_le a b =
    before_or a.host b.host (
      before_or a.path b.path (before_or a.tag b.tag (before_or a.file b.file (leb a.line b.line))))

-- `set.add`
unfoldable pub add : Ref → List Ref → List Ref
add r refs = if any (same_ref r) refs then refs else refs ++ r ∷ []

pub record Found : Type 0 where
  pub charts : List Ref
  pub images : List Ref

abbrev add_chart : Ref → Found → Found
add_chart r f = record f { charts = add r f.charts }

abbrev add_image : Ref → Found → Found
add_image r f = record f { images = add r f.images }

-- `path.rsplit("/", 1)[-1]`
abbrev last_of : String → List String → String
last_of w [] = w
last_of w (v ∷ vs) = last_of v vs

unfoldable pub last_part : String → String
unfolding split_on
last_part path = last_of "" (split_on b'/' path)

-- `path.rstrip('"\'/,')`
unfoldable pub trim_path : String → String
trim_path String.[] = String.[]
trim_path (String.◌∷◌ c s) =
    let rest = trim_path s in
    if is_empty rest
      && (eqb (code c) b'"' || (eqb (code c) 39 || (eqb (code c) b'/' || eqb (code c) b',')))
    then String.[]
    else String.◌∷◌ c rest

abbrev pub unreachable : String → Bool
unreachable host = ends_with host ".krateo.dev" || ends_with host ".svc"

abbrev pub is_root : String → Bool
is_root path = let l = last_part path in l == "charts" || l == "chart"

-- A web link is no image.
abbrev pub is_link : ImageMatch → Bool
is_link m = ends_with (rstrip_blank m.leading) "//"

abbrev pub each : {A : Type 0} → (A → Found → Found) → List A → Found → Found
each step [] f = f
each step (m ∷ ms) f = each step ms (step m f)

module _ (pat : Patterns) (rel : String) (lines : List String) (i : ℕ) where
  abbrev pub ref : String → String → String → Ref
  ref host path tag = record { host = host; path = path; tag = tag; file = rel; line = suc i }

  abbrev pub versioned : String → String → Option String → Found → Found
  versioned host path none f = f
  versioned host path (some ver) f = if is_empty ver then f else add_chart (ref host path ver) f

  -- A path that ends in "charts" is a root of charts, and wants the chart's name.
  abbrev pub below_root : String → String → Option String → Option String → Found → Found
  below_root host path ver none f = f
  below_root host path ver (some nm) f =
      if is_empty nm then f else versioned host (path +++ "/" +++ nm) ver f

  unfoldable pub chart_match : ChartMatch → Found → Found
  unfolding trim_path last_part add pair_name pair_version
  chart_match m f =
      let path = trim_path m.path in
      let ver = pair_version pat lines i in
      if pat.skip m.whole
      then f
      else if is_root path
      then below_root m.host path ver (pair_name pat lines i) f
      else versioned m.host path ver f

  unfoldable pub digest_match : DigestMatch → Found → Found
  unfolding add ends_with
  digest_match m f = if unreachable m.host then f else add_image (ref m.host m.path m.digest) f

  abbrev pub split_match : Option Image → Found → Found
  split_match none f = f
  split_match (some im) f = add_image (ref im.host im.path im.tag) f

  unfoldable pub image_match : ImageMatch → Found → Found
  unfolding add ends_with rstrip_blank has_char
  image_match m f =
      if pat.skip m.whole || unreachable m.host
      then f
      else if is_link m
      then f
      else if not (has_char b'/' m.path) && not (has_char b'.' m.host)
      then f
      else add_image (ref m.host m.path m.tag) f

  unfoldable pub scan_line : String → Found → Found
  unfolding chart_match digest_match image_match split_image add
  scan_line line f = each image_match (pat.img line) (
      split_match (split_image pat lines i)
        (each digest_match (pat.digest line) (each chart_match (pat.oci line) f)))

abbrev pub is_source : String → Bool
is_source fn =
    ends_with fn ".yaml" || (ends_with fn ".yml" || (ends_with fn ".tpl" || ends_with fn ".json"))

abbrev pub is_skipped : String → Bool
is_skipped d = contains (".git" ∷ "node_modules" ∷ "charts" ∷ []) d

module _ (pat : Patterns) where
  unfoldable pub scan_lines : String → List String → ℕ → List String → Found → Found
  unfolding scan_line
  scan_lines rel lines i [] f = f
  scan_lines rel lines i (l ∷ ls) f =
      scan_lines rel lines (suc i) ls (scan_line pat rel lines i l f)

  abbrev pub scan_text : String → Option String → Found → Found
  scan_text rel none f = f
  scan_text rel (some text) f = let lines = split_on 10 text in scan_lines rel lines 0 lines f

  unfoldable pub scan_files : String → List File → Found → Found
  unfolding scan_lines ends_with split_on
  scan_files dir [] f = f
  scan_files dir (file ∷ files) f =
      scan_files dir files
        (if is_source file.name then scan_text (dir +++ file.name) file.text f else f)

  -- Top down; `dir` is the path below the root, with a "/" behind it.
  unfoldable mutual
    unfolding scan_files

    pub scan_folder : String → Folder → Found → Found
    scan_folder dir (folder files subs) f = scan_folders dir subs (scan_files dir files f)

    pub scan_folders : String → Folders → Found → Found
    scan_folders dir end f = f
    scan_folders dir (named d sub more) f =
        let below = scan_folder (dir +++ d +++ "/") sub f in
        scan_folders dir more (if is_skipped d then f else below)

  unfoldable pub scan : Folder → Found
  unfolding scan_folder
  scan root = scan_folder "" root (record { charts = []; images = [] })
