-- ===== src/Prelude/Dict.antt =====
-- Python's `dict` with text keys, as an association list in insertion order.
use Prim.Native.String.{String}
use mathlib.Core.Path.{◌≡◌, refl}
use mathlib.Core.Option.{Option, none, some}
use mathlib.Core.List.{List, [], ◌∷◌, map}
use native.Mathlib.Omega.{arith}
use text.Mathlib.TextEquality.{eq_iff}
use krateo_openstack_bluepri.Prelude.Tests.{if◌then◌else◌}
use krateo_openstack_bluepri.Prelude.Text.{◌==◌}

module _ {ℓ} {V : Type ℓ} where
  abbrev pub names_of : List (String × V) → List String
  names_of entries = map (λ (e : String × V). e.0) entries

  -- `d[name] = value`: an entry keeps its place, a new one comes last.
  abbrev pub insert : String → V → List (String × V) → List (String × V)
  insert name value ((key, old) ∷ rest) =
      if key == name then (key, value) ∷ rest else (key, old) ∷ insert name value rest
  insert name value [] = (name, value) ∷ []

  abbrev pub lookup : String → List (String × V) → Option V
  lookup name ((key, value) ∷ rest) = if key == name then some value else lookup name rest
  lookup name [] = none

  pub lookup-insert :
      (name other : String) (value : V) (entries : List (String × V))
      → lookup other (insert name value entries)
        ≡ (if name == other then some value else lookup other entries)
  lookup-insert name other value ((key, old) ∷ rest) = ground (
    arith,
    eq_iff key other,
    eq_iff name other,
    eq_iff key name,
    lookup-insert name other value rest,
  )
  lookup-insert name other value [] = refl
