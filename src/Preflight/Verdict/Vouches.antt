-- ===== src/Preflight/Verdict/Vouches.antt =====
-- What a passing run of hack/preflight-refs.py vouches for in the files of the tree.
use krateo_openstack_bluepri.Prelude.{ℕ, String, false, ◌≡◌, List, contains}
use krateo_openstack_bluepri.Preflight.Registry.{Network}
use krateo_openstack_bluepri.Preflight.Pairing.{Image, Patterns}
use krateo_openstack_bluepri.Preflight.Scan.{File, Folder}
use krateo_openstack_bluepri.Preflight.Scan.Complete.{Holds, Shows, entry, scan_complete}
use krateo_openstack_bluepri.Preflight.Verdict.{plain_args, root_of, main, is_mutable}
use krateo_openstack_bluepri.Preflight.Verdict.Passes.{Resolves, HasNoToldV1}
use krateo_openstack_bluepri.Preflight.Verdict.Exits.{main-passes}

module _ (net : Network) (pat : Patterns) (tree : String → Folder) (argv : List String) where
  -- When a run without --mutable-only exits with 0, every image that a line of a YAML, template or
  -- JSON file mentions resolves, has an immutable tag, and is served with a media type that is none
  -- of schema 1 or could not be determined, for the files below the root that have no directory .git,
  -- node_modules or charts above them.
  pub main-vouches :
      contains argv "--mutable-only" ≡ false
      → main net pat tree argv ≡ 0
      → (path : String) (file : File) (j : ℕ) (im : Image)
      → Holds "" (tree (root_of (plain_args argv))) path file
      → Shows pat path file j im
      → Resolves net (entry path j im)
        × (HasNoToldV1 net (entry path j im) × (is_mutable im.tag ≡ false))
  main-vouches full passed path file j im holds shows =
      let (_, ((_, images), immutable)) = (main-passes net pat tree argv full).0 passed in
      let m = scan_complete pat (tree (root_of (plain_args argv))) path file j im holds shows in
      let (resolves, untold) = images (entry path j im) m in
      (resolves, (untold, immutable (entry path j im) m))
