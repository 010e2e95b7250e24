-- ===== src/ConfigClosure/Backends.antt =====
-- The backends that rendered configuration files name, in hack/validate-component-config-closure.py.
-- `decode` stands for base64 with the decoding of its bytes, where `none` is any exception of theirs.
use krateo_openstack_bluepri.Prelude.{
  is_text, String, Bool, true, false, not, ◌&&◌, ◌||◌, Option, none, some, List, [], ◌∷◌, ◌+++◌,
  contains, ends_with, lookup, Value, Fields, null, str, obj, field, end, or_else, Result, return,
  raise, key_error, attribute_error, ◌>>=◌, get_default,
}
use krateo_openstack_bluepri.ConfigClosure.Lines.{
  provided_by, no_component_provides, needs_no_server, backends, splitlines, lower_text,
  driver_line, url_line, transport_line, notifications_live,
}
use krateo_openstack_bluepri.ConfigClosure.Report.{Finding, Tally, one_backend, report, each}
use krateo_openstack_bluepri.ConfigClosure.Waits.{name_of}

-- CONF_SUFFIXES
abbrev is_conf : String → Bool
is_conf key = ends_with key ".conf" || ends_with key ".ini"

-- A file's name and its text
abbrev pub Conf : Type 0
Conf = String × String

abbrev with_text : String → Option String → List Conf → List Conf
with_text key none confs = confs
with_text key (some content) confs = (key, content) ∷ confs

abbrev plain : Value → Option String
plain (str content) = some content
plain _ = none

abbrev decoded : (String → Option String) → Value → Option String
decoded decode (str val) = decode val
decoded decode _ = none

confs_in : (Value → Option String) → Fields → List Conf
unfolding ends_with
confs_in read end = []
confs_in read (field key val fs) = elim (is_conf key) [
  | true ↦ with_text key (read val) (confs_in read fs)
  | false ↦ confs_in read fs
]

-- `(doc.get("data") or {}).items()`
abbrev confs_of : (Value → Option String) → Value → Result (List Conf)
confs_of read (obj fs) = return (confs_in read fs)
confs_of read _ = raise attribute_error

data_confs : (Value → Option String) → Value → Result (List Conf)
unfolding confs_in
data_confs read doc = do v ← get_default doc "data" null; confs_of read (or_else v (obj end))

unfoldable pub oslo_confs : (decode : String → Option String) → Value → Result (List Conf)
unfolding data_confs
oslo_confs decode doc = do
  kind ← get_default doc "kind" null
  elim (is_text kind "Secret") [
    | true ↦ data_confs (decoded decode) doc
    | false ↦ elim (is_text kind "ConfigMap") [ true ↦ data_confs plain doc | false ↦ return [] ]
  ]

abbrev lowered : Option String → Option String
lowered none = none
lowered (some token) = some (lower_text token)

abbrev or_this : Option String → Option String → Option String
or_this none second = second
or_this (some token) second = some token

-- The backend that a line names
unfoldable pub token_of : String → Option String
unfolding lower_text driver_line url_line
token_of line = or_this (lowered (driver_line line)) (lowered (url_line line))

abbrev is_some : Option String → Bool
is_some none = false
is_some (some s) = true

-- A transport_url that nothing dials
unfoldable pub is_inert : Bool → String → Bool
unfolding transport_line
is_inert live line = is_some (transport_line line) && not live

module _ (waived : List Finding) (name : String) (own : List String) where
  unfoldable pub judge_provider : String → Option String → Tally → Result Tally
  unfolding report
  judge_provider token none t = raise (key_error token)
  judge_provider token (some provider) t = elim (contains own provider) [
    | true ↦ return t
    | false ↦ return (report waived (name, "backend:" +++ token) t)
  ]

  unfoldable pub judge_backend : String → Tally → Result Tally
  unfolding judge_provider report
  judge_backend token t = elim (contains needs_no_server token) [
    | true ↦ return t
    | false ↦ elim (contains no_component_provides token) [
      | true ↦ return (report waived (name, "backend:" +++ token) t)
      | false ↦ judge_provider token (lookup token provided_by) t
    ]
  ]

  unfoldable pub judge_token : Option String → Tally → Result Tally
  unfolding judge_backend
  judge_token none t = return t
  judge_token (some token) t = elim (contains backends token) [
    | true ↦ judge_backend token (one_backend t)
    | false ↦ return t
  ]

  unfoldable pub check_line : Bool → String → Tally → Result Tally
  unfolding judge_token is_inert token_of
  check_line live line t = elim (is_inert live line) [
    | true ↦ return t
    | false ↦ judge_token (token_of line) t
  ]

  unfoldable pub check_conf : Value → Conf → Tally → Result Tally
  unfolding name_of notifications_live check_line each splitlines
  check_conf doc (key, content) t = do
    n ← name_of doc
    each (check_line (notifications_live content)) (splitlines content) t

  -- The body of the second loop over a component's documents
  unfoldable pub check_confs : (decode : String → Option String) → Value → Tally → Result Tally
  unfolding oslo_confs check_conf each
  check_confs decode doc t = do confs ← oslo_confs decode doc; each (check_conf doc) confs t
