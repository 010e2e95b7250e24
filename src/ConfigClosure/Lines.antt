-- ===== src/ConfigClosure/Lines.antt =====
-- What hack/validate-component-config-closure.py reads in a line of a configuration file: its four
-- regular expressions, the tables of backends, and `notifications_live`. Blanks are those of ASCII.
use Prim.Native.Char.{Char, code}
use krateo_openstack_bluepri.Prelude.{
  ℕ, zero, suc, ◌-◌, String, Bool, true, false, not, ◌&&◌, ◌||◌, Option, none, some, List, [], ◌∷◌,
  ◌++◌, if◌then◌else◌, eqb, leb, ◌==◌, is_empty, lstrip, rstrip_blank, strip, codes, all,
  begins_with, contains, names_of, ends_with,
}

-- `PROVIDED_BY`
abbrev pub provided_by : List (String × String)
provided_by =
    ("mysql", "mariadb")
    ∷ ("mysql+pymysql", "mariadb")
    ∷ ("mariadb", "mariadb")
    ∷ ("swift", "swift")
    ∷ ("memcache", "memcached")
    ∷ ("memcached", "memcached")
    ∷ ("rabbit", "rabbitmq")
    ∷ ("rabbitmq", "rabbitmq")
    ∷ ("amqp", "rabbitmq")
    ∷ ("redis", "redis")
    ∷ ("rediss", "redis")
    ∷ []

abbrev pub no_component_provides : List String
no_component_provides =
    "postgres" ∷ "postgresql" ∷ "postgresql+psycopg2" ∷ "ceph" ∷ "rbd" ∷ "s3" ∷ "cassandra"
    ∷ "influxdb" ∷ "elasticsearch" ∷ "opensearch" ∷ "etcd" ∷ "mongodb" ∷ []

abbrev pub needs_no_server : List String
needs_no_server = "file" ∷ "dummy" ∷ "fake" ∷ "noop" ∷ "memory" ∷ "sqlite" ∷ "local" ∷ []

abbrev pub backends : List String
backends = names_of provided_by ++ no_component_provides ++ needs_no_server

-- `text.splitlines()`: `cr` where the line break before is a carriage return
abbrev is_break : ℕ → Bool
is_break c =
    leb 10 c && leb c 13 || (leb 28 c && leb c 30 || (eqb c 133 || (eqb c 8232 || eqb c 8233)))

abbrev to_line : Char → List String → List String
to_line c [] = (String.◌∷◌ c String.[]) ∷ []
to_line c (line ∷ lines) = (String.◌∷◌ c line) ∷ lines

split_from : Bool → String → List String
split_from cr String.[] = []
split_from cr (String.◌∷◌ c s) = elim (is_break (code c)) [
  | true ↦ elim (cr && eqb (code c) 10) [
    | true ↦ split_from false s
    | false ↦ "" ∷ split_from (eqb (code c) 13) s
  ]
  | false ↦ to_line c (split_from false s)
]

unfoldable pub splitlines : String → List String
unfolding split_from
splitlines s = split_from false s

-- `s.lower()`, of ASCII letters
abbrev nth_char : String → ℕ → Char → Char
nth_char String.[] n d = d
nth_char (String.◌∷◌ c s) zero d = c
nth_char (String.◌∷◌ c s) (suc n) d = nth_char s n d

abbrev lower_char : Char → Char
lower_char c =
    if leb b'A' (code c) && leb (code c) b'Z'
    then nth_char "abcdefghijklmnopqrstuvwxyz" (code c - b'A') c
    else c

unfoldable pub lower_text : String → String
lower_text String.[] = String.[]
lower_text (String.◌∷◌ c s) = String.◌∷◌ (lower_char c) (lower_text s)

-- `[a-z0-9_]`, `[A-Za-z0-9_+-]`, `[A-Za-z0-9_+,-]` and `[A-Za-z0-9+_.-]`
abbrev is_digit : ℕ → Bool
is_digit c = leb b'0' c && leb c b'9'

abbrev is_key_char : ℕ → Bool
is_key_char c = leb b'a' c && leb c b'z' || (is_digit c || eqb c b'_')

abbrev is_token_char : ℕ → Bool
is_token_char c = is_key_char c || (leb b'A' c && leb c b'Z' || (eqb c b'+' || eqb c b'-'))

abbrev is_list_char : ℕ → Bool
is_list_char c = is_token_char c || eqb c b','

abbrev is_scheme_char : ℕ → Bool
is_scheme_char c = is_token_char c || eqb c b'.'

-- The longest start whose characters pass, and what follows it
unfoldable pub span : (ℕ → Bool) → String → String × String
span p String.[] = (String.[], String.[])
span p (String.◌∷◌ c s) =
    let (w, rest) = span p s in
    if p (code c) then (String.◌∷◌ c w, rest) else (String.[], String.◌∷◌ c s)

-- `=\s*`
abbrev after_equals : String → Option String
after_equals String.[] = none
after_equals (String.◌∷◌ c s) = if eqb (code c) b'=' then some (lstrip s) else none

-- The value of a line `key = value`, whose key passes
unfoldable pub setting : (String → Bool) → String → Option String
unfolding span lstrip
setting is_key line =
    let (key, rest) = span is_key_char (lstrip line) in
    if is_key key then after_equals (lstrip rest) else none

-- `([...]+)\s*$`
abbrev pub whole : (ℕ → Bool) → String → Option String
whole p v = let w = rstrip_blank v in if not (is_empty w) && all p (codes w) then some w else none

-- `([...]+)://`
abbrev pub scheme : String → Option String
scheme v =
    let (w, rest) = span is_scheme_char v in
    if not (is_empty w) && begins_with (codes "://") (codes rest) then some w else none

abbrev pub of_value : Option String → (String → Option String) → Option String
of_value none f = none
of_value (some v) f = f v

-- DRIVER_LINE
unfoldable pub driver_line : String → Option String
unfolding setting rstrip_blank
driver_line line = of_value (setting (λ k. k == "driver") line) (whole is_token_char)

abbrev is_url_key : String → Bool
is_url_key k =
    k == "url"
    || (k == "uri"
        || (k == "connection"
            || (ends_with k "_url" || (ends_with k "_uri" || ends_with k "_connection"))))

-- URL_LINE
unfoldable pub url_line : String → Option String
unfolding setting span ends_with
url_line line = of_value (setting is_url_key line) scheme

-- TRANSPORT_LINE
unfoldable pub transport_line : String → Option String
unfolding setting span
transport_line line = of_value (setting (λ k. k == "transport_url") line) scheme

-- NOTIFICATION_DRIVER_LINE
unfoldable pub notification_driver_line : String → Option String
unfolding setting rstrip_blank
notification_driver_line line = of_value (setting (λ k. k == "driver") line) (whole is_list_char)

-- `s[:-1]` of a text that ends with "]"
abbrev before_close : String → Option String
before_close String.[] = none
before_close (String.◌∷◌ c String.[]) = if eqb (code c) b']' then some String.[] else none
before_close (String.◌∷◌ c (String.◌∷◌ d s)) = elim (before_close (String.◌∷◌ d s)) [
  | none ↦ none
  | some w ↦ some (String.◌∷◌ c w)
]

-- The section that a line `[section]` opens
abbrev bracketed : String → Option String
bracketed String.[] = none
bracketed (String.◌∷◌ c s) = if eqb (code c) b'[' then before_close s else none

unfoldable pub header : String → Option String
unfolding strip
header line = bracketed (strip line)

abbrev pub in_notifications : Option String → Bool
in_notifications none = false
in_notifications (some section) = section == "oslo_messaging_notifications"

abbrev pub builds_transport : String → Bool
builds_transport driver = not (contains needs_no_server (lower_text driver))

unfoldable pub live_from : Option String → List String → Bool
unfolding header notification_driver_line lower_text
live_from section [] = false
live_from section (line ∷ lines) = elim (header line) [
  | some opened ↦ live_from (some opened) lines
  | none ↦ elim (in_notifications section) [
    | false ↦ live_from section lines
    | true ↦ elim (notification_driver_line line) [
      | none ↦ live_from section lines
      | some driver ↦ builds_transport driver
    ]
  ]
]

unfoldable pub notifications_live : String → Bool
unfolding live_from splitlines
notifications_live content = live_from none (splitlines content)
