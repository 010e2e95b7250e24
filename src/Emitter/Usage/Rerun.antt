-- ===== src/Emitter/Usage/Rerun.antt =====
-- Two runs of `collect_usage` in one window.
use krateo_openstack_bluepri.Prelude.{
  ℕ, ◌+◌, ◌≤◌, ◌<◌, String, ◌≡◌, sym, ap, ◌∙◌, Result, return, Value,
}
use krateo_openstack_bluepri.Emitter.Config.{Environ, env_or, parse_interval, window}
use krateo_openstack_bluepri.Emitter.Config.Window.{window_stable}
use krateo_openstack_bluepri.Emitter.Effects.{Outside, State, ◌>>=◌, and_do, lift}
use krateo_openstack_bluepri.Emitter.Usage.{usage_in, collect_usage}

module _ (out : Outside) (env : Environ) where
  windowed :
      (now interval w : ℕ) (auth_url token : String) (catalog : Value) (s : State)
      → parse_interval (env_or env "INTERVAL" "5m") ≡ return interval
      → window now interval ≡ return w
      → collect_usage out env now auth_url token catalog s
        ≡ usage_in out env interval w auth_url token catalog s
  unfolding collect_usage
  windowed now interval w auth_url token catalog s parsed aligned =
      ap
        (λ (r : Result ℕ).
          and_do r (λ i. lift (window now i) >>= λ x. usage_in out env i x auth_url token catalog)
            s)
        parsed
      ∙ ap (λ (r : Result ℕ). and_do r (λ x. usage_in out env interval x auth_url token catalog) s)
          aligned

  -- A second run that reads the clock inside the window of the first, and that starts from the same
  -- state, sends the same requests and gets the same rows, warnings and outcome: its rows have the
  -- record ids of the first run's rows.
  pub rerun_in_window :
      (now again interval w : ℕ) (auth_url token : String) (catalog : Value) (s : State)
      → parse_interval (env_or env "INTERVAL" "5m") ≡ return interval
      → window now interval ≡ return w
      → w ≤ again
      → again < w + interval
      → collect_usage out env again auth_url token catalog s
        ≡ collect_usage out env now auth_url token catalog s
  rerun_in_window now again interval w auth_url token catalog s parsed aligned from until =
      windowed again interval w auth_url token catalog s parsed
        (window_stable now again interval w aligned from until)
      ∙ sym (windowed now interval w auth_url token catalog s parsed aligned)
