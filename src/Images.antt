-- ===== src/Images.antt =====
-- tools/collect-images.py: the container images of rendered manifests. The documents of a file are a
-- parameter.
pub mod Collected
mod Samples
use krateo_openstack_bluepri.Prelude.{
  String, Bool, true, false, not, ◌&&◌, Option, none, some, List, [], ◌∷◌, ◌++◌, if◌then◌else◌,
  ◌==◌, is_empty, strip, contains, sorted, Value, Fields, Items, null, str, arr, nil, cons, obj,
  field, end, find, Result, return, raise, Exception, system_exit,
}

-- `out.add`
unfoldable pub add : String → List String → List String
add img out = if contains out img then out else out ++ img ∷ []

abbrev pub has_name : Fields → Bool
has_name fs = elim (find "name" fs) [ none ↦ false | some v ↦ true ]

abbrev pub note_image : Fields → Option Value → List String → List String
note_image fs (some (str s)) out =
    if not (is_empty (strip s)) && has_name fs then add (strip s) out else out
note_image fs _ out = out

unfoldable mutual
  unfolding add strip

  pub walk : Value → List String → List String
  walk (obj fs) out = walk_fields fs (note_image fs (find "image" fs) out)
  walk (arr vs) out = walk_items vs out
  walk _ out = out

  pub walk_fields : Fields → List String → List String
  walk_fields end out = out
  walk_fields (field k v fs) out = walk_fields fs (walk v out)

  pub walk_items : Items → List String → List String
  walk_items nil out = out
  walk_items (cons v vs) out = walk_items vs (walk v out)

unfoldable pub walk_docs : List Value → List String → List String
unfolding walk
walk_docs [] out = out
walk_docs (doc ∷ docs) out = walk_docs docs (walk doc out)

unfoldable pub walk_files : (load : String → List Value) → List String → List String → List String
unfolding walk_docs
walk_files load [] out = out
walk_files load (path ∷ paths) out = walk_files load paths (walk_docs (load path) out)

abbrev pub printed : List String → Result (List String)
printed [] = raise (system_exit "no container images found")
printed (img ∷ found) = return (sorted (img ∷ found))

-- What is printed; `argv` has no program name.
unfoldable pub main : (load : String → List Value) → List String → Result (List String)
unfolding walk_files
main load [] = raise (system_exit "usage")
main load (path ∷ paths) = printed (walk_files load (path ∷ paths) [])
