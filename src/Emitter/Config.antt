-- ===== src/Emitter/Config.antt =====
-- Configuration and the pure helpers of contract-emitter.py: intervals, times, record ids, tags.
pub mod Window
pub mod Ids
pub mod Tags
use Prim.Native.Char.{nul}
use krateo_openstack_bluepri.Prelude.{
  ℕ, zero, suc, ◌+◌, ◌-◌, ◌*◌, ◌/◌, ◌%◌, String, Bool, true, false, not, ◌&&◌, ◌||◌, Option, none,
  some, List, [], ◌∷◌, ◌++◌, map, if◌then◌else◌, leb, ltb, eqb, ◌==◌, ◌+++◌, codes, lower_codes,
  same_codes, pad2, partition, insert, Result, return, raise, Exception, key_error, value_error,
  zero_division, ◌>>=◌, Value, null, str,
}

-- `os.environ`
abbrev pub Environ : Type 0
Environ = String → Option String

-- `os.environ.get(k, d)`
abbrev pub env_or : Environ → String → String → String
env_or env k d = elim (env k) [ none ↦ d | some v ↦ v ]

-- `os.environ[k]`
abbrev pub env_at : Environ → String → Result String
env_at env k = elim (env k) [ none ↦ raise (key_error k) | some v ↦ return v ]

-- `os.environ.get(k, d).lower() == t`
abbrev pub env_is : Environ → String → String → String → Bool
env_is env k d t = same_codes (lower_codes (codes (env_or env k d))) (codes t)

abbrev pub service : Environ → String
service env = env_or env "SERVICE_NAME" "openstack"

abbrev pub org : Environ → String
org env = env_or env "ORG" "default"

abbrev pub source : Environ → String
source env = env_or env "SOURCE" "openstack-blueprint"

-- `int(s)`, for a text of decimal digits; signs, blanks and underscores count as errors here.
int_from : ℕ → List ℕ → Result ℕ
int_from n [] = return n
int_from n (c ∷ cs) =
    let rest = int_from (n * 10 + (c - 48)) cs in
    if leb 48 c && leb c 57 then rest else raise value_error

unfoldable pub int_of : List ℕ → Result ℕ
unfolding int_from
int_of [] = raise value_error
int_of (c ∷ cs) = int_from 0 (c ∷ cs)

-- `s[:-1]`
abbrev pub but_last : List ℕ → List ℕ
but_last [] = []
but_last (c ∷ []) = []
but_last (c ∷ d ∷ cs) = c ∷ but_last (d ∷ cs)

abbrev pub unit_seconds : List ℕ → Result ℕ
unit_seconds [] = raise value_error
unit_seconds (c ∷ []) =
    if eqb c b's'
    then return 1
    else if eqb c b'm'
    then return 60
    else if eqb c b'h'
    then return 3600
    else raise (key_error "unit")
unit_seconds (c ∷ d ∷ cs) = unit_seconds (d ∷ cs)

unfoldable pub parse_interval : String → Result ℕ
unfolding int_of
parse_interval s = do
  n ← int_of (but_last (codes s))
  unit ← unit_seconds (codes s)
  return (n * unit)

-- `int(time.time()) // interval * interval`
unfoldable pub window : ℕ → ℕ → Result ℕ
window now interval =
    if eqb interval 0 then raise zero_division else return (now / interval * interval)

pub record Date : Type 0 where
  pub year : ℕ
  pub month : ℕ
  pub day : ℕ

-- The date that `time.gmtime` gives for a count of days since 1970-01-01: years of 400-year eras
-- that begin in March.
unfoldable pub civil : ℕ → Date
civil days =
    let z = days + 719468 in
    let doe = z % 146097 in
    let yoe = (doe - doe / 1460 + doe / 36524 - doe / 146096) / 365 in
    let doy = doe - (365 * yoe + yoe / 4 - yoe / 100) in
    let mp = (5 * doy + 2) / 153 in
    let month = if ltb mp 10 then mp + 3 else mp - 9 in
    let year = yoe + z / 146097 * 400 in
    record {
      year = if leb month 2 then year + 1 else year;
      month = month;
      day = doy - (153 * mp + 2) / 5 + 1;
    }

abbrev date_text : Date → String
date_text d =
    pad2 (d.year / 100) +++ pad2 (d.year % 100) +++ "-" +++ pad2 d.month +++ "-" +++ pad2 d.day

abbrev time_text : ℕ → String
time_text s = pad2 (s / 3600) +++ ":" +++ pad2 (s / 60 % 60) +++ ":" +++ pad2 (s % 60)

-- Up to the year 9999.
unfoldable pub fmt : ℕ → String
unfolding civil
fmt ts = date_text (civil (ts / 86400)) +++ " " +++ time_text (ts % 86400)

unfoldable pub fmt_rfc3339 : ℕ → String
unfolding civil
fmt_rfc3339 ts = date_text (civil (ts / 86400)) +++ "T" +++ time_text (ts % 86400) +++ "Z"

-- What `deterministic_id` feeds to the hash: each part with a NUL behind it.
unfoldable pub hash_input : List String → String
hash_input [] = ""
hash_input (p ∷ ps) = p +++ String.◌∷◌ nul (hash_input ps)

-- `sha256` gives the hexadecimal digest, and `first_32` cuts a text.
unfoldable pub deterministic_id : (sha256 first_32 : String → String) → List String → String
unfolding hash_input
deterministic_id sha256 first_32 parts = first_32 (sha256 (hash_input parts))

-- The dict of tags, in the order of the list.
split_from : List (String × String) → List String → List (String × String)
split_from tags [] = tags
split_from tags (t ∷ ts) =
    let (k, sep, v) = partition b':' t in split_from (insert k (if sep then v else "") tags) ts

unfoldable pub split_tags : List String → List (String × String)
unfolding split_from partition
split_tags raw = split_from [] raw
