-- ===== src/Preflight/Registry.antt =====
-- The requests of hack/preflight-refs.py to registries. `answer` stands for the network: a registry's
-- answer to one request does not change within a run. A token is a text.
pub mod Cache
use krateo_openstack_bluepri.Prelude.{
  ℕ, String, Bool, true, false, not, ◌&&◌, ◌||◌, Option, none, some, List, [], ◌∷◌, ◌++◌,
  if◌then◌else◌, eqb, ◌==◌, ◌+++◌, is_empty, codes, same_codes, lower_codes, join, strip, has_char,
  partition, any, Value, null, str, arr, nil, obj, end, truthy, find, insert,
}
use text.Mathlib.Text.{starts_with}

pub record Request : Type 0 where
  pub url : String
  pub headers : List (String × String)

pub data Reply : Type 0 where
  answered : (status : ℕ) (content_type : Option String) (body : String) → Reply
  refused : ℕ → Reply
  failed : Reply

-- `answer` and the JSON parser
pub record Network : Type 0 where
  pub answer : Request → Reply
  pub loads : String → Option Value

-- A media type, as code points
abbrev pub MediaType : Type 0
MediaType = List ℕ

-- host, repository and tag or digest
pub record Target : Type 0 where
  pub host : String
  pub repo : String
  pub ref : String

abbrev pub same_target : Target → Target → Bool
same_target a b = a.host == b.host && (a.repo == b.repo && a.ref == b.ref)

-- A /v2 base URL, the repository's path and the headers
pub record Endpoint : Type 0 where
  pub base : String
  pub repo : String
  pub auth : List (String × String)

-- The requests made, and `_MEDIA_TYPE`
pub record Run : Type 0 where
  pub sent : List Request
  pub cache : List (Target × Option MediaType)

abbrev pub fresh : Run
fresh = record { sent = []; cache = [] }

abbrev pub v2_manifest : List String
v2_manifest =
    "application/vnd.oci.image.manifest.v1+json" ∷ "application/vnd.oci.image.index.v1+json"
    ∷ "application/vnd.docker.distribution.manifest.v2+json"
    ∷ "application/vnd.docker.distribution.manifest.list.v2+json" ∷ []

abbrev pub v1_manifest : List String
v1_manifest =
    "application/vnd.docker.distribution.manifest.v1+json"
    ∷ "application/vnd.docker.distribution.manifest.v1+prettyjws" ∷ []

-- `mt in V1_MANIFEST`
unfoldable pub is_v1 : Option MediaType → Bool
is_v1 none = false
is_v1 (some mt) = any (λ s. same_codes (codes s) mt) v1_manifest

abbrev text_of : Option Value → String
text_of (some (str s)) = s
text_of _ = ""

abbrev token_of : Option Value → String
token_of (some (obj fs)) = text_of (find "token" fs)
token_of _ = ""

abbrev pub bearer : String → List (String × String)
bearer tok = if is_empty tok then [] else ("Authorization", "Bearer " +++ tok) ∷ []

-- `json.load(r).get("tags")`
abbrev tags_status : Option Value → ℕ
tags_status (some (obj fs)) = elim (find "tags" fs) [
  | none ↦ 404
  | some v ↦ if truthy v then 200 else 404
]
tags_status _ = 0

unfoldable pub token_from : (String → Option Value) → Reply → String
token_from loads (answered status ct body) = token_of (loads body)
token_from loads _ = ""

unfoldable pub tag_code : (String → Option Value) → Reply → ℕ
tag_code loads (answered status ct body) = tags_status (loads body)
tag_code loads (refused code) = code
tag_code loads failed = 0

unfoldable pub code_of : Reply → ℕ
code_of (answered status ct body) = status
code_of (refused code) = code
code_of failed = 0

-- `... or None`
abbrev or_none : MediaType → Option MediaType
or_none [] = none
or_none (c ∷ cs) = some (c ∷ cs)

-- What stands before the first ";", without blanks and in lower case
abbrev media_of : Option String → Option MediaType
media_of none = none
media_of (some ct) = or_none (lower_codes (codes (strip (partition b';' ct).0)))

-- Only a 200 gives a verdict.
unfoldable pub served_as : Reply → Option MediaType
unfolding strip partition
served_as (answered status ct body) = if eqb status 200 then media_of ct else none
served_as (refused code) = none
served_as failed = none

-- Official images of Docker Hub live under library/.
unfoldable pub hub_repo : String → String
unfolding has_char
hub_repo repo = if has_char b'/' repo then repo else "library/" +++ repo

abbrev pub is_hub : String → Bool
is_hub host = host == "docker.io" || host == "registry-1.docker.io"

unfoldable pub manifest_request : Endpoint → String → List String → Request
unfolding join
manifest_request e ref accept = record {
  url = e.base +++ "/" +++ e.repo +++ "/manifests/" +++ ref;
  headers = insert "Accept" (join "," accept) e.auth;
}

-- quay.io answers for a tag by its tag API; a digest is no tag.
abbrev pub asks_tags : Target → Bool
asks_tags target = target.host == "quay.io" && not (starts_with target.ref "sha256:")

unfoldable pub cached : List (Target × Option MediaType) → Target → Option (Option MediaType)
cached [] target = none
cached ((k, mt) ∷ cache) target = if same_target k target then some mt else cached cache target

module _ (net : Network) where
  -- `urlopen`
  abbrev pub fetch : Request → Run → Reply × Run
  fetch r s = (net.answer r, record s { sent = s.sent ++ r ∷ [] })

  abbrev get_token : String → Run → String × Run
  get_token url s =
      let (reply, t) = fetch (record { url = url; headers = [] }) s in
      (token_from net.loads reply, t)

  unfoldable pub ghcr_token : String → Run → String × Run
  unfolding token_from
  ghcr_token repo s = get_token ("https://ghcr.io/token?scope=repository:" +++ repo +++ ":pull") s

  abbrev pub hub_token : String → Run → String × Run
  hub_token repo s =
      get_token
        ("https://auth.docker.io/token?service=registry.docker.io&scope=repository:" +++ repo
          +++ ":pull")
        s

  unfoldable pub v2_endpoint : String → String → Run → Endpoint × Run
  unfolding ghcr_token token_from hub_repo
  v2_endpoint host repo s =
      if host == "ghcr.io"
      then (let (tok, t) = ghcr_token repo s in
          (record { base = "https://ghcr.io/v2"; repo = repo; auth = bearer tok }, t))
      else if is_hub host
      then (let (tok, t) = hub_token (hub_repo repo) s in
          (
            record {
              base = "https://registry-1.docker.io/v2";
              repo = hub_repo repo;
              auth = bearer tok;
            },
            t,
          ))
      else (record { base = "https://" +++ host +++ "/v2"; repo = repo; auth = [] }, s)

  -- A GET of the manifest, by way of the endpoint
  abbrev pub manifest : Target → List String → Run → Reply × Run
  manifest target accept s =
      let (e, t) = v2_endpoint target.host target.repo s in
      fetch (manifest_request e target.ref accept) t

  unfoldable pub registry_get : Target → Run → ℕ × Run
  unfolding v2_endpoint manifest_request tag_code code_of
  registry_get target s =
      if asks_tags target
      then (let (reply, t) =
            fetch
              (record {
                url =
                    "https://quay.io/api/v1/repository/" +++ target.repo +++ "/tag/?specificTag="
                    +++ target.ref +++ "&onlyActiveTags=true";
                headers = [];
              })
              s in
          (tag_code net.loads reply, t))
      else (let (reply, t) = manifest target v2_manifest s in (code_of reply, t))

  abbrev pub ask_type : Target → Run → Option MediaType × Run
  ask_type target s =
      let (reply, t) = manifest target (v2_manifest ++ v1_manifest) s in
      let mt = served_as reply in (mt, record t { cache = (target, mt) ∷ t.cache })

  unfoldable pub manifest_media_type : Target → Run → Option MediaType × Run
  unfolding v2_endpoint manifest_request served_as cached
  manifest_media_type target s = elim (cached s.cache target) [
    | some mt ↦ (mt, s)
    | none ↦ ask_type target s
  ]
