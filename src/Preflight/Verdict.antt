-- ===== src/Preflight/Verdict.antt =====
-- `main` of hack/preflight-refs.py: what is asked of the registries, and the exit status.
pub mod Passes
pub mod Exits
pub mod Vouches
use krateo_openstack_bluepri.Prelude.{
  ℕ, String, Bool, true, false, not, ◌&&◌, ◌||◌, Option, none, some, List, [], ◌∷◌, ◌++◌,
  if◌then◌else◌, eqb, ◌==◌, any, keep, contains, sort_with, codes, lower_codes, has_run,
}
use text.Mathlib.Text.{starts_with}
use krateo_openstack_bluepri.Preflight.Registry.{
  Network, Target, MediaType, Run, fresh, is_v1, registry_get, manifest_media_type,
}
use krateo_openstack_bluepri.Preflight.Pairing.{Patterns}
use krateo_openstack_bluepri.Preflight.Scan.{Folder, Ref, Found, ref_le, scan}

abbrev pub target_of : Ref → Target
target_of r = record { host = r.host; repo = r.path; ref = r.tag }

-- An entry of `bad`, with the HTTP status
pub record Unresolved : Type 0 where
  pub ref : Ref
  pub code : ℕ

pub record Report : Type 0 where
  pub bad : List Unresolved
  -- the images with manifests of schema 1
  pub schema1 : List Ref

abbrev pub nothing_wrong : Report
nothing_wrong = record { bad = []; schema1 = [] }

abbrev pub note_code : Ref → ℕ → Report → Report
note_code r code w =
    if eqb code 200 then w else record w { bad = w.bad ++ (record { ref = r; code = code }) ∷ [] }

abbrev pub note_type : Ref → Option MediaType → Report → Report
note_type r mt w = if is_v1 mt then record w { schema1 = w.schema1 ++ r ∷ [] } else w

module _ (net : Network) where
  unfoldable pub check_charts : List Ref → Report → Run → Report × Run
  unfolding registry_get
  check_charts [] w s = (w, s)
  check_charts (r ∷ rs) w s =
      let (code, t) = registry_get net (target_of r) s in check_charts rs (note_code r code w) t

  -- The media type is only asked for of what resolved.
  abbrev pub type_if : Bool → Target → Run → Option MediaType × Run
  type_if ok target s = if ok then manifest_media_type net target s else (none, s)

  unfoldable pub check_images : List Ref → Report → Run → Report × Run
  unfolding registry_get manifest_media_type
  check_images [] w s = (w, s)
  check_images (r ∷ rs) w s =
      let (code, t) = registry_get net (target_of r) s in
      let (mt, u) = type_if (eqb code 200) (target_of r) t in
      check_images rs (note_code r code (note_type r mt w)) u

  unfoldable pub check_refs : Found → Run → Report × Run
  unfolding check_charts check_images
  check_refs f s =
      let (w, t) = check_charts (sort_with ref_le f.charts) nothing_wrong s in
      check_images (sort_with ref_le f.images) w t

abbrev pub none_in : {A : Type 0} → List A → Bool
none_in [] = true
none_in (x ∷ xs) = false

-- MUTABLE: "latest", in letters of either case
unfoldable pub is_mutable : String → Bool
is_mutable tag = has_run (codes "latest") (lower_codes (codes tag))

unfoldable pub mutable_tags : List Ref → List Ref
mutable_tags images = sort_with ref_le (keep (λ (r : Ref). is_mutable r.tag) images)

-- `--mutable-only`
unfoldable pub mutable_status : List Ref → ℕ
unfolding mutable_tags
mutable_status images = if none_in images then 1 else if none_in (mutable_tags images) then 0 else 1

unfoldable pub full_status : Found → Report → ℕ
unfolding mutable_tags
full_status f w =
    if not (none_in w.bad) || (not (none_in (mutable_tags f.images)) || not (none_in w.schema1))
    then 1
    else if none_in f.charts && none_in f.images
    then 1
    else 0

abbrev pub plain_args : List String → List String
plain_args argv = keep (λ a. not (starts_with a "--")) argv

abbrev pub root_of : List String → String
root_of [] = "."
root_of (a ∷ more) = a

module _ (net : Network) (pat : Patterns) where
  -- `argv` has no program name; `tree` is the directory at a path.
  unfoldable pub main : (tree : String → Folder) → List String → ℕ
  unfolding scan mutable_status full_status check_refs
  main tree argv =
      let f = scan pat (tree (root_of (plain_args argv))) in
      if contains argv "--mutable-only"
      then mutable_status f.images
      else full_status f (check_refs net f fresh).0
