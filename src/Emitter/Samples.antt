-- ===== src/Emitter/Samples.antt =====
-- Runs of contract-emitter.py against servers that answer every request.
use krateo_openstack_bluepri.Prelude.{
  ◌+◌, ◌≤◌, ◌<◌, ◌%◌, String, none, some, List, [], ◌∷◌, ◌++◌, ◌≡◌, refl, ◌==◌, if◌then◌else◌,
  ◌+++◌, lookup, arith, return, iterate, same, All, Value, arr, nil, cons, obj, field, end, str,
}
use krateo_openstack_bluepri.Emitter.Config.{Environ, parse_interval, window, split_tags}
use krateo_openstack_bluepri.Emitter.Config.Window.{window_bounds, window_stable}
use krateo_openstack_bluepri.Emitter.Config.Ids.{NoNul, hash_input_injective}
use krateo_openstack_bluepri.Emitter.Config.Tags.{split_tags-snoc}
use krateo_openstack_bluepri.Emitter.Effects.{Outside, State, answered}
use krateo_openstack_bluepri.Emitter.Usage.{collect_usage}
use krateo_openstack_bluepri.Emitter.Usage.Rerun.{rerun_in_window}
use krateo_openstack_bluepri.Emitter.Health.{collect_health}
use krateo_openstack_bluepri.Emitter.Health.Over.{Reported}
use krateo_openstack_bluepri.Emitter.Health.Worst.{collect_health_worst}

abbrev env : Environ
env k =
    if k == "CH_URL"
    then some "http://clickhouse:8123/"
    else if k == "CH_HEALTH_DATABASE"
    then some "health"
    else none

abbrev out : Outside
out = record {
  send = λ log r. answered 200 [] "{}";
  loads = λ s. some (obj end);
  sha256 = λ s. s;
  first_32 = λ s. s;
  float_text = λ s. some (s +++ ".0");
  float_sum = λ floats. "0.0";
  refuses_url = λ url. "AttributeError";
}

abbrev fresh : State
fresh = record { sent = []; warnings = []; usage = []; health = [] }

abbrev catalog : Value
catalog = arr (
    cons
      (obj (
        field "name" (str "nova") (
          field "endpoints"
            (arr (
              cons (obj (field "interface" (str "internal") (field "url" (str "http://nova") end)))
                nil))
            end)))
      nil)

abbrev after_health : State
after_health = (collect_health out env 125 130 "http://keystone" catalog fresh).1

health_returns :
    collect_health out env 125 130 "http://keystone" catalog fresh ≡ (return tt, after_health)
unfolding collect_health iterate same
health_returns = refl

collect_health_worst_example : Reported fresh after_health
collect_health_worst_example =
    collect_health_worst out env 125 130 "http://keystone" catalog fresh after_health health_returns

window_bounds_example : (120 % 60 ≡ 0) × (120 ≤ 125) × (125 < 120 + 60)
unfolding window
window_bounds_example = window_bounds 125 60 120 refl

window_stable_example : window 179 60 ≡ return 120
unfolding window
window_stable_example = window_stable 125 179 60 120 refl (omega arith) (omega arith)

rerun_in_window_example :
    collect_usage out env 599 "http://keystone" "token" catalog fresh
    ≡ collect_usage out env 300 "http://keystone" "token" catalog fresh
unfolding parse_interval window
rerun_in_window_example =
    rerun_in_window out env 300 599 300 300 "http://keystone" "token" catalog fresh refl refl
      (omega arith) (omega arith)

abbrev parts : List String
parts = "ab" ∷ "c" ∷ []

parts-NoNul : All NoNul parts
parts-NoNul =
    (((λ e. omega (arith, e)), ((λ e. omega (arith, e)), tt)), (((λ e. omega (arith, e)), tt), tt))

hash_input_injective_example : parts ≡ parts
hash_input_injective_example = hash_input_injective parts parts parts-NoNul parts-NoNul refl

split_tags-snoc_example :
    lookup "env" (split_tags ("a" ∷ [] ++ ("env" +++ String.◌∷◌ ":" "x:y") ∷ [])) ≡ some "x:y"
split_tags-snoc_example =
    (split_tags-snoc ("a" ∷ []) "env" "x:y" "env" (refl, (refl, (refl, tt)))).0
