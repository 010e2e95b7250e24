-- ===== src/Emitter/Keystone.antt =====
-- `keystone_auth` and `endpoint_url` of contract-emitter.py.
use krateo_openstack_bluepri.Prelude.{
  ℕ, zero, suc, String, Bool, true, false, not, ◌&&◌, ◌||◌, Option, none, some, List, [], ◌∷◌, ◌≡◌,
  refl, if◌then◌else◌, eqb, ◌==◌, ◌+++◌, is_empty, rstrip, lookup, Result, return, raise, Exception,
  key_error, value_error, attribute_error, type_error, index, get_default, iterate, Value, Items,
  Fields, null, str, arr, obj, nil, cons, end, field, same, truthy, or_else,
}
use krateo_openstack_bluepri.Prelude as P
use krateo_openstack_bluepri.Emitter.Config.{Environ, env_or, env_at}
use krateo_openstack_bluepri.Emitter.Effects.{Outside, Action, ◌>>=◌, pure, lift, json, request}

-- A mapping with one key.
abbrev single : String → Value → Value
single k v = obj (field k v end)

abbrev credentials : Environ → String → String → Value
credentials env username password = single "auth" (
    obj (
      field "identity"
        (obj (
          field "methods" (arr (cons (str "password") nil)) (
            field "password"
              (single "user" (
                obj (
                  field "name" (str username) (
                    field "domain"
                      (single "name" (str (env_or env "OS_USER_DOMAIN_NAME" "default")))
                      (field "password" (str password) end)))))
              end)))
        (field "scope"
          (single "project" (
            obj (
              field "name" (str (env_or env "OS_PROJECT_NAME" "admin")) (
                field "domain" (single "name" (str (env_or env "OS_PROJECT_DOMAIN_NAME" "default")))
                  end))))
          end)))

-- `ep["url"].rstrip("/")`
abbrev pub text_of : Value → Result String
text_of (str s) = return s
text_of _ = raise attribute_error

abbrev pub header_at : List (String × String) → String → Result String
header_at hs k = elim (lookup k hs) [ none ↦ raise (key_error k) | some v ↦ return v ]

abbrev pub load : Option Value → Result Value
load none = raise value_error
load (some v) = return v

module _ (out : Outside) (env : Environ) where
  -- The Keystone URL, the token and the service catalog.
  unfoldable pub keystone_auth : Action (String × String × Value)
  unfolding request rstrip
  keystone_auth = do
    raw_url ← lift (env_at env "OS_AUTH_URL")
    let auth_url = rstrip b'/' raw_url
    username ← lift (env_at env "OS_USERNAME")
    password ← lift (env_at env "OS_PASSWORD")
    reply ←
        request out env "POST" (auth_url +++ "/auth/tokens") [] none
          (json (credentials env username password)) [] 15
    token ← lift (header_at reply.1 "X-Subject-Token")
    answer ← lift (load (out.loads reply.2))
    issued ← lift (index answer "token")
    catalog ← lift (get_default issued "catalog" (arr nil))
    pure (auth_url, token, catalog)

module _ (env : Environ) where
  abbrev pub interface : String
  interface = env_or env "OS_INTERFACE" "internal"

  abbrev pub region : String
  region = env_or env "OS_REGION_NAME" ""

  -- `region and ep.get("region") not in (region, None)`, negated
  abbrev pub in_region : Value → Bool
  in_region v = is_empty region || same v (str region) || same v null

  -- The inner loop: the URL of the first endpoint that fits.
  unfoldable pub first_endpoint : List Value → Result (Option String)
  unfolding rstrip
  first_endpoint [] = return none
  first_endpoint (ep ∷ eps) =
      let next = first_endpoint eps in
      P.◌>>=◌ (get_default ep "interface" null) λ i.
        if same i (str interface)
        then P.◌>>=◌ (get_default ep "region" null) (λ r.
          if in_region r
          then P.◌>>=◌ (index ep "url")
              (λ u. P.◌>>=◌ (text_of u) (λ t. return (some (rstrip b'/' t))))
          else next)
        else next

  abbrev or_next : Option String → Result (Option String) → Result (Option String)
  or_next none next = next
  or_next (some u) next = return (some u)

  unfoldable pub endpoint_in : List Value → String → Result (Option String)
  unfolding first_endpoint iterate
  endpoint_in [] svc_type = return none
  endpoint_in (svc ∷ svcs) svc_type =
      let next = endpoint_in svcs svc_type in
      P.◌>>=◌ (get_default svc "type" null) λ t.
        if same t (str svc_type)
        then P.◌>>=◌ (get_default svc "endpoints" (arr nil))
            (λ eps. P.◌>>=◌ (iterate eps) (λ l. P.◌>>=◌ (first_endpoint l) (λ o. or_next o next)))
        else next

  unfoldable pub endpoint_url : Value → String → Result (Option String)
  unfolding endpoint_in
  endpoint_url catalog svc_type = P.◌>>=◌ (iterate catalog) (λ l. endpoint_in l svc_type)
