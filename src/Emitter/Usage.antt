-- ===== src/Emitter/Usage.antt =====
-- `collect_usage` of contract-emitter.py: rows of usage for each project, and of capacity.
pub mod Rerun
use krateo_openstack_bluepri.Prelude.{
  ℕ, zero, suc, ◌+◌, String, Bool, true, false, not, Option, none, some, List, [], ◌∷◌, ◌++◌,
  if◌then◌else◌, ◌==◌, ◌+++◌, is_empty, codes, insert, lookup, Result, return, raise, Exception,
  key_error, value_error, attribute_error, type_error, index, get_default, iterate, Value, Items,
  Fields, null, bool, num, real, show_nat, str, arr, obj, nil, end, truthy, or_else,
}
use krateo_openstack_bluepri.Prelude as P
use krateo_openstack_bluepri.Emitter.Config.{
  Environ, env_or, service, org, source, parse_interval, window, fmt, fmt_rfc3339, deterministic_id,
  split_tags,
}
use krateo_openstack_bluepri.Emitter.Effects.{
  Outside, State, UsageRow, Action, ◌>>=◌, ◌>>◌, pure, throw, lift, modify, best_effort, attempt,
  get_json,
}
use krateo_openstack_bluepri.Emitter.Keystone.{endpoint_url}

abbrev or_value_error : Option String → Result String
or_value_error none = raise value_error
or_value_error (some r) = return r

-- `float(v)`
unfoldable pub float_of : Outside → Value → Result String
float_of out (real r) = return r
float_of out (num n) = or_value_error (out.float_text (show_nat n))
float_of out (bool true) = return "1.0"
float_of out (bool false) = return "0.0"
float_of out (str s) = or_value_error (out.float_text s)
float_of out _ = raise type_error

-- An identifier that the program puts into a URL, a row or a dict.
abbrev ident : Value → Result String
ident (str s) = return s
ident _ = raise type_error

idents : List Value → Result (List String)
idents [] = return []
idents (v ∷ vs) = P.◌>>=◌ (ident v) (λ s. P.◌>>=◌ (idents vs) (λ ss. return (s ∷ ss)))

-- `d.get(pid, 0) + 1`
abbrev bump : String → List (String × ℕ) → List (String × ℕ)
bump pid d = insert pid (elim (lookup pid d) [ none ↦ 1 | some n ↦ n + 1 ]) d

owner : Value → Result String
owner fip =
    P.◌>>=◌ (get_default fip "project_id" null) (λ p.
      P.◌>>=◌ (get_default fip "tenant_id" null) (λ t. ident (or_else p (or_else t (str "")))))

-- The loop over the floating IPs: what was counted when an exception ends it is kept.
count_fips : List Value → List (String × ℕ) → List (String × ℕ) × Result (Unit {0})
unfolding owner
count_fips [] d = (d, return tt)
count_fips (fip ∷ fips) d = elim (owner fip) [
  | raise e ↦ (d, raise e)
  | return pid ↦ count_fips fips (bump pid d)
]

-- `float(... .get("total_capacity_gb") or 0)` of a pool
capacity_of : Outside → Value → Result String
unfolding float_of
capacity_of out pool =
    P.◌>>=◌ (get_default pool "capabilities" (obj end)) (λ c.
      P.◌>>=◌ (get_default c "total_capacity_gb" null) (λ v. float_of out (or_else v (num 0))))

capacities : Outside → List Value → Result (List String)
unfolding capacity_of
capacities out [] = return []
capacities out (p ∷ ps) =
    P.◌>>=◌ (capacity_of out p) (λ c. P.◌>>=◌ (capacities out ps) (λ cs. return (c ∷ cs)))

sum_capacity : Outside → List Value → Result String
unfolding capacities
sum_capacity out pools = P.◌>>=◌ (capacities out pools) (λ cs. return (out.float_sum cs))

module _ (out : Outside) (env : Environ) where
  -- The closure `row`, for the window that starts at `wstart`.
  unfoldable pub usage_row :
      (wstart wend : ℕ) (metric qty unit resource_id tenant : String)
      → List (String × String)
      → UsageRow
  usage_row wstart wend metric qty unit resource_id tenant tags = record {
    record_id =
        deterministic_id out.sha256 out.first_32
          (org env ∷ tenant ∷ service env ∷ resource_id ∷ metric ∷ fmt_rfc3339 wstart ∷ []);
    org = org env;
    tenant = tenant;
    service = service env;
    resource_id = resource_id;
    metric = metric;
    quantity = qty;
    unit = unit;
    window_start = fmt wstart;
    window_end = fmt wend;
    tags = tags;
    source = source env;
  }

  module _ (wstart wend : ℕ) where
    unfoldable pub row :
        String → Value → String → String → String → List (String × String) → Action (Unit {0})
    unfolding usage_row float_of
    row metric qty unit resource_id tenant tags = do
      n ← lift (float_of out qty)
      modify (λ s. record s {
        usage = s.usage ++ usage_row wstart wend metric n unit resource_id tenant tags ∷ [];
      })

    -- `row(metric, source.get(key, 0), ...)`
    abbrev row_of :
        Value
        → String
        → String
        → String
        → String
        → String
        → List (String × String)
        → Action (Unit {0})
    row_of values key metric unit resource_id tenant tags = do
      qty ← lift (get_default values key (num 0))
      row metric qty unit resource_id tenant tags

    unfoldable pub nova_limits :
        String → String → String → String → List (String × String) → Action (Unit {0})
    unfolding row get_json
    nova_limits nova token pid name tags = best_effort "nova limits" do
      answer ← get_json out env (nova +++ "/limits?tenant_id=" +++ pid) token
      limits ← lift (index answer "limits")
      ab ← lift (index limits "absolute")
      row_of ab "totalInstancesUsed" "instances.count" "count" pid name tags
      row_of ab "totalCoresUsed" "vcpu.used" "cores" pid name tags
      row_of ab "totalRAMUsed" "ram.used" "MiB" pid name tags

    abbrev storage_row : Value → String → String → List (String × String) → Action (Unit {0})
    storage_row (obj gb) pid name tags = row_of (obj gb) "in_use" "storage.used" "GiB" pid name tags
    storage_row _ pid name tags = pure tt

    unfoldable pub cinder_quota :
        String → String → String → String → List (String × String) → Action (Unit {0})
    unfolding row get_json
    cinder_quota cinder token pid name tags = best_effort "cinder quota" do
      answer ← get_json out env (cinder +++ "/os-quota-sets/" +++ pid +++ "?usage=True") token
      qs ← lift (index answer "quota_set")
      gb ← lift (get_default qs "gigabytes" null)
      storage_row gb pid name tags

    abbrev when_some : Option String → (String → Action (Unit {0})) → Action (Unit {0})
    when_some none f = pure tt
    when_some (some url) f = if is_empty url then pure tt else f url

    abbrev fip_row : Option ℕ → String → String → List (String × String) → Action (Unit {0})
    fip_row none pid name tags = pure tt
    fip_row (some n) pid name tags = row "floating_ips.count" (num n) "count" pid name tags

    -- The body of the loop over the projects.
    unfoldable pub project_rows :
        (nova cinder : Option String) → String → List (String × ℕ) → Value → Action (Unit {0})
    unfolding nova_limits cinder_quota split_tags idents
    project_rows nova cinder token fips p = do
      pid ← lift (P.◌>>=◌ (index p "id") ident)
      name ← lift (P.◌>>=◌ (index p "name") ident)
      raw ← lift (P.◌>>=◌ (get_default p "tags" (arr nil)) iterate)
      raw_tags ← lift (idents raw)
      let tags = split_tags raw_tags
      when_some nova (λ url. nova_limits url token pid name tags)
      when_some cinder (λ url. cinder_quota url token pid name tags)
      fip_row (lookup pid fips) pid name tags

    unfoldable pub all_projects :
        (nova cinder : Option String) → String → List (String × ℕ) → List Value → Action (Unit {0})
    unfolding project_rows
    all_projects nova cinder token fips [] = pure tt
    all_projects nova cinder token fips (p ∷ ps) =
        project_rows nova cinder token fips p >> all_projects nova cinder token fips ps

    unfoldable pub hypervisor_rows : String → String → Action (Unit {0})
    unfolding row get_json
    hypervisor_rows token nova = best_effort "hypervisor statistics" do
      answer ← get_json out env (nova +++ "/os-hypervisors/statistics") token
      st ← lift (index answer "hypervisor_statistics")
      row_of st "vcpus" "vcpu.capacity" "cores" "hypervisors" "" []
      row_of st "memory_mb" "ram.capacity" "MiB" "hypervisors" "" []

    abbrev pool_row : List Value → String → Action (Unit {0})
    pool_row [] cap = pure tt
    pool_row (p ∷ ps) cap = row "storage.capacity" (real cap) "GiB" "cinder-pools" "" []

    unfoldable pub pool_rows : String → String → Action (Unit {0})
    unfolding row get_json sum_capacity
    pool_rows token cinder = best_effort "cinder pools" do
      answer ← get_json out env (cinder +++ "/scheduler-stats/get_pools?detail=True") token
      pools ← lift (P.◌>>=◌ (get_default answer "pools" (arr nil)) iterate)
      cap ← lift (sum_capacity out pools)
      pool_row pools cap

  -- What was counted, with a warning if an exception ended the count.
  abbrev counted :
      (List (String × ℕ) → Action (Unit {0}))
      → Result (List (String × ℕ) × Result (Unit {0}))
      → Action (Unit {0})
  counted next (raise e) = best_effort "neutron floatingips" (throw e) >> next []
  counted next (return (d, r)) = best_effort "neutron floatingips" (lift r) >> next d

  abbrev fetch_fips : String → String → Action (List (String × ℕ) × Result (Unit {0}))
  fetch_fips neutron token = do
    answer ← get_json out env (neutron +++ "/v2.0/floatingips") token
    fips ← lift (P.◌>>=◌ (get_default answer "floatingips" (arr nil)) iterate)
    pure (count_fips fips [])

  -- The floating IPs by project, handed to what comes next.
  unfoldable pub floating_ips :
      Option String → String → (List (String × ℕ) → Action (Unit {0})) → Action (Unit {0})
  unfolding get_json count_fips
  floating_ips none token next = next []
  floating_ips (some neutron) token next =
      if is_empty neutron then next [] else attempt (fetch_fips neutron token) (counted next)

  abbrev first_of_two : Option String → Option String → Option String
  first_of_two none b = b
  first_of_two (some a) b = if is_empty a then b else some a

  abbrev or_auth : Option String → String → String
  or_auth none auth_url = auth_url
  or_auth (some a) auth_url = if is_empty a then auth_url else a

  -- `collect_usage` behind the computation of the window.
  unfoldable pub usage_in : (interval wstart : ℕ) → String → String → Value → Action (Unit {0})
  unfolding endpoint_url get_json floating_ips all_projects hypervisor_rows pool_rows
  usage_in interval wstart auth_url token catalog = do
    let wend = wstart + interval
    identity ← lift (endpoint_url env catalog "identity")
    nova ← lift (endpoint_url env catalog "compute")
    volumev3 ← lift (endpoint_url env catalog "volumev3")
    block ← lift (elim volumev3 [
      | none ↦ endpoint_url env catalog "block-storage"
      | some u ↦ if is_empty u then endpoint_url env catalog "block-storage" else return (some u)
    ])
    let cinder = first_of_two volumev3 block
    neutron ← lift (endpoint_url env catalog "network")
    answer ← get_json out env (or_auth identity auth_url +++ "/projects") token
    projects ← lift (P.◌>>=◌ (get_default answer "projects" (arr nil)) iterate)
    floating_ips neutron token (λ fips. all_projects wstart wend nova cinder token fips projects)
    when_some wstart wend nova (hypervisor_rows wstart wend token)
    when_some wstart wend cinder (pool_rows wstart wend token)

  -- `now` is `int(time.time())`.
  unfoldable pub collect_usage : (now : ℕ) → String → String → Value → Action (Unit {0})
  unfolding parse_interval window usage_in
  collect_usage now auth_url token catalog = do
    interval ← lift (parse_interval (env_or env "INTERVAL" "5m"))
    wstart ← lift (window now interval)
    usage_in interval wstart auth_url token catalog
