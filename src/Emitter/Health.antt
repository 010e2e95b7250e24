-- ===== src/Emitter/Health.antt =====
-- `probe` and `collect_health` of contract-emitter.py.
pub mod Over
pub mod Worst
use krateo_openstack_bluepri.Prelude.{
  ℕ, zero, suc, ◌+◌, String, Bool, true, false, not, ◌&&◌, ◌||◌, Option, none, some, List, [], ◌∷◌,
  ◌++◌, if◌then◌else◌, ltb, leb, eqb, ◌==◌, ◌+++◌, is_empty, show_nat, Result, return, raise,
  Exception, http_error, timed_out, other_error, system_exit, key_error, value_error, type_error,
  attribute_error, zero_division, index, get_default, iterate, Value, null, str, arr, nil, same,
  truthy,
}
use krateo_openstack_bluepri.Prelude as P
use krateo_openstack_bluepri.Emitter.Config.{
  Environ, env_or, service, org, parse_interval, window, fmt, fmt_rfc3339, deterministic_id,
}
use krateo_openstack_bluepri.Emitter.Effects.{
  Outside, State, Status, good, warning, unknown, critical, HealthRow, Action, ◌>>=◌, ◌>>◌, pure,
  throw, lift, modify, attempt, Received, no_body, request,
}
use krateo_openstack_bluepri.Emitter.Keystone.{interface}

-- `RANK`
abbrev pub rank : Status → ℕ
rank good = 0
rank warning = 1
rank unknown = 2
rank critical = 3

unfoldable pub of_code : ℕ → Status
of_code status =
    if ltb status 400 || (eqb status 401 || eqb status 403)
    then good
    else if leb 500 status
    then critical
    else warning

abbrev pub judged : ℕ → Status × String
judged code = (of_code code, "http " +++ show_nat code)

-- `type(e).__name__`
abbrev pub class_of : Exception → String
class_of (key_error k) = "KeyError"
class_of type_error = "TypeError"
class_of value_error = "ValueError"
class_of attribute_error = "AttributeError"
class_of zero_division = "ZeroDivisionError"
class_of (http_error code) = "HTTPError"
class_of timed_out = "TimeoutError"
class_of (other_error name) = name
class_of (system_exit m) = "SystemExit"

-- The status and the reason of a probe's result or exception.
unfoldable pub verdict : Result Received → Status × String
unfolding of_code
verdict (return (status, headers, body)) = judged status
verdict (raise (http_error code)) = judged code
verdict (raise timed_out) = (unknown, "timeout")
verdict (raise e) = (critical, class_of e)

-- A component is named by a text.
abbrev text_of_name : Value → Result String
text_of_name (str s) = return s
text_of_name _ = raise type_error

-- `if not url`
abbrev usable : Value → Option Value
usable url = if truthy url then some url else none

unfoldable pub component_name : Value → Result String
component_name svc =
    P.◌>>=◌ (get_default svc "name" (str "unknown"))
      (λ n. P.◌>>=◌ (get_default svc "type" n) text_of_name)

-- `worst` and `seen`: nothing seen is `none`.
abbrev pub worse : Option Status → Status → Option Status
worse none status = some status
worse (some worst) status = some (if ltb (rank worst) (rank status) then status else worst)

-- The URL of the first endpoint with the interface.
unfoldable pub url_of : Environ → List Value → Result Value
url_of env [] = return null
url_of env (ep ∷ eps) =
    let next = url_of env eps in
    P.◌>>=◌ (get_default ep "interface" null)
      (λ i. if same i (str (interface env)) then index ep "url" else next)

module _ (out : Outside) (env : Environ) where
  unfoldable pub probe : String → Action (Status × String)
  unfolding verdict request
  probe url = attempt (request out env "GET" url [] none no_body [] 5) (λ r. pure (verdict r))

  -- The probe of an endpoint's URL: building the request or its TLS context of one that is no text
  -- raises within `probe`.
  unfoldable pub probe_endpoint : Value → Action (Status × String)
  unfolding probe
  probe_endpoint (str url) = probe url
  probe_endpoint url = pure (critical, out.refuses_url url)

  -- The closure `row`.
  unfoldable pub health_row :
      (wstart : ℕ) (checked_at component : String) → Status → String → HealthRow
  health_row wstart checked_at component status reason = record {
    record_id =
        deterministic_id out.sha256 out.first_32
          (org env ∷ "" ∷ service env ∷ component ∷ fmt_rfc3339 wstart ∷ []);
    org = org env;
    tenant = "";
    service = service env;
    component = component;
    status = status;
    reason = reason;
    checked_at = checked_at;
  }

  module _ (wstart : ℕ) (checked_at : String) where
    unfoldable pub row : String → Status → String → Action (Unit {0})
    unfolding health_row
    row component status reason = modify (λ s. record s {
      health = s.health ++ health_row wstart checked_at component status reason ∷ [];
    })

    abbrev service_row : Value → Option Status → Value → Action (Option Status)
    service_row svc worst url = do
      found ← probe_endpoint url
      component ← lift (component_name svc)
      row component found.0 found.1
      pure (worse worst found.0)

    abbrev maybe_row : Value → Option Status → Option Value → Action (Option Status)
    maybe_row svc worst none = pure worst
    maybe_row svc worst (some url) = service_row svc worst url

    -- The body of the loop over the catalog.
    unfoldable pub service_step : Value → Option Status → Action (Option Status)
    unfolding row probe_endpoint url_of component_name
    service_step svc worst = do
      endpoints ← lift (P.◌>>=◌ (get_default svc "endpoints" (arr nil)) iterate)
      url ← lift (url_of env endpoints)
      maybe_row svc worst (usable url)

    unfoldable pub all_services : List Value → Option Status → Action (Option Status)
    unfolding service_step
    all_services [] worst = pure worst
    all_services (svc ∷ svcs) worst = service_step svc worst >>= all_services svcs

    -- Without a usable endpoint Keystone itself is probed.
    unfoldable pub or_identity : String → Option Status → Action Status
    unfolding row probe
    or_identity auth_url (some worst) = pure worst
    or_identity auth_url none = do
      found ← probe auth_url
      row "identity" found.0 found.1
      pure found.0

    unfoldable pub health_rows : String → List Value → Action (Unit {0})
    unfolding all_services or_identity row
    health_rows auth_url catalog = do
      seen ← all_services catalog none
      worst ← or_identity auth_url seen
      row "_service" worst "worst of components"

  -- `now` and `later` are the two readings of the clock.
  unfoldable pub collect_health : (now later : ℕ) → String → Value → Action (Unit {0})
  unfolding parse_interval window health_rows
  collect_health now later auth_url catalog = do
    interval ← lift (parse_interval (env_or env "INTERVAL" "1m"))
    wstart ← lift (window now interval)
    services ← lift (iterate catalog)
    health_rows wstart (fmt later) auth_url services
