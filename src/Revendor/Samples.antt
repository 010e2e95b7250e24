-- ===== src/Revendor/Samples.antt =====
-- Merges of small values files, with a leaf of each kind that hack/revendor.py tells apart.
use krateo_openstack_bluepri.Prelude.{
  String, Option, some, List, [], ◌∷◌, ◌≡◌, ◌≢◌, refl, true, inl, inr, map, In, same, ◌==◌,
  if◌then◌else◌, ◌↔◌, Fields, end, field, obj, str, false_true, eq_iff, subst, sym, sort_with,
}
use krateo_openstack_bluepri.Revendor.{
  KeyPath, get, put, same_found, Conflict, Merge, path_eq, path_le, paths_of, merge,
}
use krateo_openstack_bluepri.Revendor.Paths.{Parts, get-put, get-put-Parts}
use krateo_openstack_bluepri.Revendor.Rulings.{Ruling, settled, clash, ruling, resolve, reported}
use krateo_openstack_bluepri.Revendor.Merging.{StandsBeside, merge_at_leaf, merge_deleted_upstream}
use krateo_openstack_bluepri.Revendor.Command.{written, revendor}
use krateo_openstack_bluepri.Revendor.Command.Writes.{
  Pulled, written_resolves, written_keeps_override, written_takes_upstream,
}

-- A values file with a replica count, a secret and a third leaf.
abbrev values : String → String → Fields → Fields
values tag secret more =
    field "images" (obj (field "tag" (str tag) end))
      (field "conf" (obj (field "secret" (str secret) end)) more)

abbrev base_values : Fields
base_values = values "2024.1" "uuid" end

abbrev our_values : Fields
our_values = values "2024.1" "changeme" end

abbrev their_values : Fields
their_values = values "2024.2" "uuid" end

abbrev tag_path : KeyPath
tag_path = "images" ∷ "tag" ∷ []

abbrev secret_path : KeyPath
secret_path = "conf" ∷ "secret" ∷ []

abbrev vendored : String → Option Fields
vendored c = some our_values

abbrev pull : String → String → Option Fields
pull c version = if version == "1" then some base_values else some their_values

paths_found : paths_of base_values our_values their_values ≡ secret_path ∷ tag_path ∷ []
unfolding paths_of sort_with path_eq path_le
paths_found = refl

conf-ne_images : ◌≢◌ {A = String} "conf" "images"
conf-ne_images e = false_true ((eq_iff "conf" "images").1 e)

images-ne_conf : ◌≢◌ {A = String} "images" "conf"
images-ne_conf e = false_true ((eq_iff "images" "conf").1 e)

abbrev two_paths : List KeyPath
two_paths = secret_path ∷ tag_path ∷ []

tag_stands : StandsBeside two_paths tag_path
tag_stands q (inl e) other = subst (λ (x : KeyPath). Parts x tag_path) (sym e) (inl conf-ne_images)
tag_stands q (inr (inl e)) other = absurd (other e)
tag_stands q (inr (inr e)) other = absurd e

secret_stands : StandsBeside two_paths secret_path
secret_stands q (inl e) other = absurd (other e)
secret_stands q (inr (inl e)) other =
    subst (λ (x : KeyPath). Parts x secret_path) (sym e) (inl images-ne_conf)
secret_stands q (inr (inr e)) other = absurd e

get-put_example : get (obj (put our_values tag_path (str "2024.2"))) tag_path ≡ some (str "2024.2")
get-put_example = get-put our_values tag_path (str "2024.2") tt

get-put-Parts_example :
    get (obj (put our_values tag_path (str "2024.2"))) secret_path
    ≡ get (obj our_values) secret_path
get-put-Parts_example =
    get-put-Parts our_values tag_path secret_path (str "2024.2") (inl images-ne_conf)

merge_at_leaf_example :
    (get (obj (merge base_values our_values their_values).ours) secret_path
      ≡ resolve
          (get (obj base_values) secret_path)
          (get (obj our_values) secret_path)
          (get (obj their_values) secret_path))
    × ((r : Ruling)
        → In secret_path (reported r (merge base_values our_values their_values)) ↔ (
            (ruling
                (get (obj base_values) secret_path)
                (get (obj our_values) secret_path)
                (get (obj their_values) secret_path)
              ≡ r)
            × (r ≢ settled)))
merge_at_leaf_example =
    merge_at_leaf base_values our_values their_values secret_path tt (rw paths_found (inl refl))
      (rw paths_found secret_stands)

-- Upstream dropped the secret.
abbrev without_secret : Fields
without_secret = field "images" (obj (field "tag" (str "2024.1") end)) end

paths_of_deleted : paths_of base_values base_values without_secret ≡ two_paths
unfolding paths_of sort_with path_eq path_le
paths_of_deleted = refl

merge_deleted_upstream_example :
    In secret_path
      (map (λ (c : Conflict). c.path) (merge base_values base_values without_secret).conflicts)
    × (get (obj (merge base_values base_values without_secret).ours) secret_path
        ≡ get (obj base_values) secret_path)
unfolding get same_found same
merge_deleted_upstream_example =
    merge_deleted_upstream base_values base_values without_secret secret_path (str "uuid") tt
      (rw paths_of_deleted (inl refl)) (rw paths_of_deleted secret_stands) refl refl refl

abbrev result : Merge
result = merge base_values our_values their_values

run_writes : revendor vendored pull true "keystone" "1" "2" ≡ written result.ours result
unfolding revendor merge paths_of sort_with path_eq path_le same_found same
run_writes = refl

run_documents : Pulled vendored pull "keystone" "1" "2" base_values our_values their_values
run_documents = record { ours_read = refl; base_pulled = refl; theirs_pulled = refl }

written_resolves_example :
    (true ≡ true)
    × (get (obj result.ours) tag_path
        ≡ resolve
            (get (obj base_values) tag_path)
            (get (obj our_values) tag_path)
            (get (obj their_values) tag_path))
    × (ruling
          (get (obj base_values) tag_path)
          (get (obj our_values) tag_path)
          (get (obj their_values) tag_path)
        ≢ clash)
written_resolves_example =
    written_resolves vendored pull true "keystone" "1" "2" base_values our_values their_values
      result.ours result run_documents run_writes tag_path tt (rw paths_found (inr (inl refl)))
      (rw paths_found tag_stands)

written_keeps_override_example :
    get (obj result.ours) secret_path ≡ get (obj our_values) secret_path
unfolding get same_found same
written_keeps_override_example =
    written_keeps_override vendored pull true "keystone" "1" "2" base_values our_values their_values
      result.ours result run_documents run_writes secret_path tt (rw paths_found (inl refl))
      (rw paths_found secret_stands) refl refl

written_takes_upstream_example : get (obj result.ours) tag_path ≡ some (str "2024.2")
unfolding get same_found same
written_takes_upstream_example =
    written_takes_upstream vendored pull true "keystone" "1" "2" base_values our_values their_values
      result.ours result run_documents run_writes tag_path tt (rw paths_found (inr (inl refl)))
      (rw paths_found tag_stands) (str "2024.2") refl refl refl
