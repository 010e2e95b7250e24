-- ===== src/Images/Samples.antt =====
-- A rendered Deployment with one container, and a ConfigMap whose text looks like an image.
use krateo_openstack_bluepri.Prelude.{
  String, ◌≡◌, ◌↔◌, refl, List, [], ◌∷◌, In, Value, obj, arr, str, field, end, cons, nil, return,
  strip, sort_with,
}
use krateo_openstack_bluepri.Images.{main}
use krateo_openstack_bluepri.Images.Collected.{FilesName, main-Names}

abbrev container : Value
container = obj (field "name" (str "api") (field "image" (str " ghcr.io/krateo/api:1.0.0 ") end))

abbrev deployment : Value
deployment =
    obj (field "kind" (str "Deployment") (field "containers" (arr (cons container nil)) end))

abbrev config : Value
config = obj (field "kind" (str "ConfigMap") (field "image" (str "ghcr.io/krateo/none:1.0.0") end))

abbrev manifests : String → List Value
manifests path = deployment ∷ config ∷ []

abbrev images : List String
images = "ghcr.io/krateo/api:1.0.0" ∷ []

collected : main manifests ("rendered.yaml" ∷ []) ≡ return images
unfolding main strip sort_with
collected = refl

main-Names_example :
    In "ghcr.io/krateo/none:1.0.0" images
    ↔ FilesName manifests ("rendered.yaml" ∷ []) "ghcr.io/krateo/none:1.0.0"
main-Names_example =
    main-Names manifests ("rendered.yaml" ∷ []) images collected "ghcr.io/krateo/none:1.0.0"
