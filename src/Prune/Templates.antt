-- ===== src/Prune/Templates.antt =====
-- The text of the chart's templates, as hack/validate-upgrade-does-not-prune.py searches it.
use krateo_openstack_bluepri.Prelude.{
  ℕ, zero, suc, ◌-◌, String, Bool, true, false, List, [], ◌∷◌, if◌then◌else◌, length, codes,
  begins_with, has_run, Result, return, raise, value_error, ◌>>=◌,
}

-- `w in text`
abbrev pub holds : String → String → Bool
holds w content = has_run (codes w) (codes content)

-- `text.count(w)`, of a text that is not empty: `skip` characters belong to the occurrence before.
count_from : ℕ → List ℕ → List ℕ → ℕ
count_from skip w [] = 0
count_from (suc skip) w (c ∷ cs) = count_from skip w cs
count_from zero w (c ∷ cs) = elim (begins_with w (c ∷ cs)) [
  | true ↦ suc (count_from (length w - 1) w cs)
  | false ↦ count_from zero w cs
]

unfoldable pub count_of : String → String → ℕ
unfolding count_from
count_of w content = count_from zero (codes w) (codes content)

-- `text[text.index(w):]` and `text[:text.index(w)]`, as code points
unfoldable pub from_first : List ℕ → List ℕ → Result (List ℕ)
from_first w [] = if begins_with w [] then return [] else raise value_error
from_first w (c ∷ cs) =
    let rest = from_first w cs in if begins_with w (c ∷ cs) then return (c ∷ cs) else rest

unfoldable pub to_first : List ℕ → List ℕ → Result (List ℕ)
to_first w [] = if begins_with w [] then return [] else raise value_error
to_first w (c ∷ cs) = elim (begins_with w (c ∷ cs)) [
  | true ↦ return []
  | false ↦ do start ← to_first w cs; return (c ∷ start)
]

-- The text of a template that `define` opens, up to the end that follows first
unfoldable pub definition : String → String → Result (List ℕ)
unfolding from_first to_first
definition opening helpers = do
  rest ← from_first (codes opening) (codes helpers)
  to_first (codes "{{- end -}}") rest

abbrev pub expected_gate : String
expected_gate =
    "{{- $exists := include \"osh.exists\" (list $ $c.kind $c.name $crds) }}\n{{- $emitVer := include \"osh.emitVersion\" (list $ $c.kind $c.name $crds $exists) }}\n{{- $crd := include \"osh.crdExists\" (list $c.kind $emitVer $crds) }}"

abbrev pub expected_document : String
expected_document = "apiVersion: {{ include \"osh.apiVersionAt\" (list $emitVer) }}"

abbrev pub expected_emit : List String
expected_emit =
    "{{- $exists := index . 4 -}}"
    ∷ "{{- include \"osh.resolveVersion\" (list $current $origin $exists $kind $crds) -}}" ∷ []

abbrev pub asks_exists : String
asks_exists = "include \"osh.exists\""

abbrev pub emit_version : String
emit_version = "{{- define \"osh.emitVersion\" -}}"

abbrev pub origin_version : String
origin_version = "{{- define \"osh.originVersion\" -}}"

abbrev pub asks_served : String
asks_served = "include \"osh.servedVersion\""
