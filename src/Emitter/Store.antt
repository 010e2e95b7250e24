-- ===== src/Emitter/Store.antt =====
-- The ClickHouse half of contract-emitter.py: `ch_query`, `ch_insert` and the bootstrap of the
-- health table.
pub mod Bootstrap
use krateo_openstack_bluepri.Prelude.{
  ℕ, zero, suc, String, Bool, true, false, not, Option, none, some, List, [], ◌∷◌, ◌++◌, map,
  if◌then◌else◌, ◌==◌, ◌+++◌, is_empty, rstrip, Result, return, raise, Value, Fields, num, real,
  str, obj, end, field,
}
use krateo_openstack_bluepri.Emitter.Config.{Environ, env_or, env_at}
use krateo_openstack_bluepri.Emitter.Effects.{
  Outside, State, UsageRow, Status, good, warning, unknown, critical, HealthRow, Action, ◌>>=◌,
  ◌>>◌, pure, lift, Received, lines, request,
}

-- `RANK`'s keys, as they are written to the table
abbrev pub status_text : Status → String
status_text good = "OK"
status_text warning = "Warning"
status_text unknown = "Unknown"
status_text critical = "Critical"

fields_of : List (String × String) → Fields
fields_of [] = end
fields_of ((k, v) ∷ more) = field k (str v) (fields_of more)

unfoldable pub usage_document : UsageRow → Value
unfolding fields_of
usage_document r = obj (
    field "record_id" (str r.record_id) (
      field "org" (str r.org) (
        field "tenant" (str r.tenant) (
          field "service" (str r.service) (
            field "resource_id" (str r.resource_id) (
              field "metric" (str r.metric) (
                field "quantity" (real r.quantity) (
                  field "unit" (str r.unit) (
                    field "window_start" (str r.window_start) (
                      field "window_end" (str r.window_end) (
                        field "tags" (obj (fields_of r.tags))
                          (field "source" (str r.source) end))))))))))))

unfoldable pub health_document : HealthRow → Value
health_document r = obj (
    field "record_id" (str r.record_id) (
      field "org" (str r.org) (
        field "tenant" (str r.tenant) (
          field "service" (str r.service) (
            field "component" (str r.component) (
              field "status" (str (status_text r.status))
                (field "reason" (str r.reason) (field "checked_at" (str r.checked_at) end))))))))

abbrev pub usage_database : Environ → String
usage_database env = env_or env "CH_DATABASE" "showback"

-- `os.environ.get("CH_HEALTH_DATABASE") or usage_database()`
abbrev pub health_database : Environ → String
health_database env =
    let d = env_or env "CH_HEALTH_DATABASE" "" in if is_empty d then usage_database env else d

abbrev pub credentials : Environ → List (String × String)
credentials env =
    let user = env_or env "CH_USERNAME" "" in
    if is_empty user
    then []
    else ("X-ClickHouse-User", user) ∷ ("X-ClickHouse-Key", env_or env "CH_PASSWORD" "") ∷ []

-- An empty database is not pinned.
abbrev pub params : String → String → List (String × String)
params sql db = ("query", sql) ∷ (if is_empty db then [] else ("database", db) ∷ [])

-- `usage_database() if database is None else database`
abbrev pub database_or : Environ → Option String → String
database_or env none = usage_database env
database_or env (some db) = db

abbrev create_columns : String
create_columns =
    " record_id String, org LowCardinality(String), tenant LowCardinality(String), service LowCardinality(String), component LowCardinality(String), status Enum8('OK' = 1, 'Warning' = 2, 'Critical' = 3, 'Unknown' = 4), reason String, checked_at DateTime64(3, 'UTC') DEFAULT now64(3)"

abbrev pub create_database_sql : String → String
create_database_sql db = "CREATE DATABASE IF NOT EXISTS " +++ db

abbrev pub create_table_sql : String → String → String
create_table_sql db table =
    "CREATE TABLE IF NOT EXISTS " +++ db +++ "." +++ table +++ " (" +++ create_columns
    +++ ") ENGINE = ReplacingMergeTree(checked_at) PARTITION BY toYYYYMM(checked_at) ORDER BY (org, tenant, service, component, record_id)"

abbrev pub insert_sql : String → String → String
insert_sql db table = "INSERT INTO " +++ db +++ "." +++ table +++ " FORMAT JSONEachRow"

module _ (out : Outside) (env : Environ) where
  -- `none` is a database that is not given. A body that is not given is empty.
  unfoldable pub ch_query : String → List Value → Option String → Action Received
  unfolding request rstrip
  ch_query sql body database = do
    url ← lift (env_at env "CH_URL")
    request out env "POST" (rstrip b'/' url +++ "/?") (params sql (database_or env database)) none
        (lines body) (("Content-Type", "application/octet-stream") ∷ credentials env) 30

  unfoldable pub ch_insert : String → List Value → Option String → Action (Unit {0})
  unfolding ch_query
  ch_insert table [] database = pure tt
  ch_insert table (r ∷ rs) database = do
    let db = database_or env database
    reply ← ch_query (insert_sql db table) (r ∷ rs) (some db)
    pure tt

  unfoldable pub ch_bootstrap_health_table : Action (Unit {0})
  unfolding ch_query
  ch_bootstrap_health_table = do
    let db = health_database env
    let table = env_or env "CH_HEALTH_TABLE" "health_records"
    created ← ch_query (create_database_sql db) [] (some "")
    reply ← ch_query (create_table_sql db table) [] none
    pure tt
