-- ===== src/Preflight/Samples.antt =====
-- A tree with a values file that names one image, and a registry that serves everything.
use krateo_openstack_bluepri.Prelude.{
  ℕ, String, false, ◌≡◌, ◌↔◌, ◌≢◌, refl, inl, inr, none, some, List, [], ◌∷◌, ◌==◌, sort_with,
  split_on, if◌then◌else◌, ◌+++◌,
}
use krateo_openstack_bluepri.Preflight.Registry.{
  Network, answered, Target, fresh, is_v1, manifest_media_type,
}
use krateo_openstack_bluepri.Preflight.Registry.Cache.{served, Faithful, media_type-once}
use krateo_openstack_bluepri.Preflight.Pairing.{
  Patterns, ImageMatch, Image, nth, unskipped, pair_version,
}
use krateo_openstack_bluepri.Preflight.Pairing.Window.{IsNear, pair_version-none}
use krateo_openstack_bluepri.Preflight.Scan.{File, Folder, folder, end, named}
use krateo_openstack_bluepri.Preflight.Scan.Complete.{Holds, Shows, entry}
use krateo_openstack_bluepri.Preflight.Verdict.{main, is_mutable}
use krateo_openstack_bluepri.Preflight.Verdict.Passes.{Resolves, HasNoToldV1, fresh-Faithful}
use krateo_openstack_bluepri.Preflight.Verdict.Exits.{
  found, FindsAny, AllResolve, AreImmutable, main-passes, main-immutable,
}
use krateo_openstack_bluepri.Preflight.Verdict.Vouches.{main-vouches}

abbrev serving : Network
serving = record {
  answer = λ r. answered 200 (some "application/vnd.oci.image.index.v1+json; charset=utf-8") "";
  loads = λ text. none;
}

abbrev image_line : String
image_line = "image: ghcr.io/krateo/api:1.0.0"

abbrev api_match : ImageMatch
api_match = record {
  whole = "ghcr.io/krateo/api:1.0.0";
  leading = "image: ";
  host = "ghcr.io";
  path = "krateo/api";
  tag = "1.0.0";
}

abbrev image_matches : String → List ImageMatch
image_matches line = if line == image_line then api_match ∷ [] else []

abbrev patterns : Patterns
patterns = record {
  oci = λ l. [];
  img = image_matches;
  digest = λ l. [];
  version_near = λ l. if l == "version: 2.0.1" then some "2.0.1" else none;
  name_near = λ l. none;
  repo_line = λ l. none;
  tag_line = λ l. none;
  reg_line = λ l. none;
  skip = λ l. false;
}

abbrev values : File
values = record { name = "values.yaml"; text = some ("# api\n" +++ image_line) }

abbrev repo : String → Folder
repo path = folder [] (named "chart" (folder (values ∷ []) end) end)

abbrev api : Image
api = record { host = "ghcr.io"; path = "krateo/api"; tag = "1.0.0" }

abbrev api_target : Target
api_target = record { host = "ghcr.io"; repo = "krateo/api"; ref = "1.0.0" }

passes : main serving patterns repo [] ≡ 0
unfolding main sort_with is_v1 is_mutable
passes = refl

-- The registry answers without a Content-Type.
abbrev untold : Network
untold = record { answer = λ r. answered 200 none ""; loads = λ text. none }

-- An image whose media type cannot be determined passes.
untold_passes : main untold patterns repo [] ≡ 0
unfolding main sort_with is_v1 is_mutable
untold_passes = refl

abbrev chart_lines : List String
chart_lines = "repo: oci://ghcr.io/krateo/charts/api" ∷ "version: 2.0.1" ∷ []

held : Holds "" (repo ".") "chart/values.yaml" values
unfolding Holds
held = inr (inl (refl, inl (inl refl, refl)))

shown : Shows patterns "chart/values.yaml" values 1 api
unfolding main split_on
shown = (
  refl,
  (
    "# api\n" +++ image_line,
    (refl, (image_line, (refl, inr (inr (api_match, (inl refl, ((refl, (refl, refl)), refl))))))),
  ),
)

media_type-once_example :
    let (first, t) = manifest_media_type serving api_target fresh in
    (first ≡ served serving api_target)
    × Faithful serving t
    × (manifest_media_type serving api_target t ≡ (first, t))
media_type-once_example = media_type-once serving api_target fresh (fresh-Faithful serving)

pair_version-none_example : (pair_version patterns chart_lines 0 ≡ none) ↔ (
    (j : ℕ) (l : String)
    → IsNear 0 j
    → nth chart_lines j ≡ some l
    → unskipped patterns patterns.version_near l ≡ none)
pair_version-none_example = pair_version-none patterns chart_lines 0

main-passes_example : (main serving patterns repo [] ≡ 0) ↔ (
    FindsAny patterns repo []
    × (AllResolve serving (found patterns repo []) × AreImmutable (found patterns repo []).images))
main-passes_example = main-passes serving patterns repo [] refl

main-immutable_example : (main serving patterns repo ("--mutable-only" ∷ []) ≡ 0) ↔ (
    ((found patterns repo ("--mutable-only" ∷ [])).images ≢ [])
    × AreImmutable (found patterns repo ("--mutable-only" ∷ [])).images)
main-immutable_example = main-immutable serving patterns repo ("--mutable-only" ∷ []) refl

main-vouches_example :
    Resolves serving (entry "chart/values.yaml" 1 api)
    × (HasNoToldV1 serving (entry "chart/values.yaml" 1 api) × (is_mutable "1.0.0" ≡ false))
main-vouches_example =
    main-vouches serving patterns repo [] refl passes "chart/values.yaml" values 1 api held shown
