-- ===== src/Emitter/Main.antt =====
-- `main` of contract-emitter.py. `now` and `later` are the readings of the clock.
use krateo_openstack_bluepri.Prelude.{
  ℕ, String, List, map, if◌then◌else◌, ◌==◌, ◌+++◌, none, some, return, system_exit, Value,
}
use krateo_openstack_bluepri.Emitter.Config.{Environ, env_or, env_is}
use krateo_openstack_bluepri.Emitter.Effects.{Outside, State, Action, ◌>>=◌, ◌>>◌, pure, throw}
use krateo_openstack_bluepri.Emitter.Keystone.{keystone_auth}
use krateo_openstack_bluepri.Emitter.Usage.{collect_usage}
use krateo_openstack_bluepri.Emitter.Health.{collect_health}
use krateo_openstack_bluepri.Emitter.Store.{
  usage_document, health_document, health_database, ch_insert, ch_bootstrap_health_table,
}

abbrev pub rows_of : {A : Type 0} → (State → List A) → Action (List A)
rows_of f s = (return (f s), s)

module _ (out : Outside) (env : Environ) (now later : ℕ) where
  unfoldable pub usage_mode : String → String → Value → Action (Unit {0})
  unfolding collect_usage ch_insert usage_document
  usage_mode auth_url token catalog = do
    collect_usage out env now auth_url token catalog
    rows ← rows_of (λ s. s.usage)
    ch_insert out env (env_or env "CH_USAGE_TABLE" "usage_records") (map usage_document rows) none

  abbrev bootstrap : Action (Unit {0})
  bootstrap =
      if env_is env "CH_BOOTSTRAP_HEALTH_TABLE" "true" "true"
      then ch_bootstrap_health_table out env
      else pure tt

  unfoldable pub health_mode : String → Value → Action (Unit {0})
  unfolding collect_health ch_insert ch_bootstrap_health_table health_document
  health_mode auth_url catalog = do
    bootstrap
    collect_health out env now later auth_url catalog
    rows ← rows_of (λ s. s.health)
    ch_insert out env (env_or env "CH_HEALTH_TABLE" "health_records") (map health_document rows)
        (some (health_database env))

  unfoldable pub dispatch : String → String → String → Value → Action (Unit {0})
  dispatch mode auth_url token catalog =
      if mode == "usage"
      then usage_mode auth_url token catalog
      else if mode == "health"
      then health_mode auth_url catalog
      else throw (system_exit ("unknown MODE " +++ mode))

  unfoldable pub main : Action (Unit {0})
  unfolding keystone_auth dispatch usage_mode health_mode
  main = do auth ← keystone_auth out env; dispatch (env_or env "MODE" "usage") auth.0 auth.1 auth.2
