-- ===== src/Emitter/Health/Worst.antt =====
-- The rows of `collect_health`: a row for each probed service, and behind them the worst of them.
use krateo_openstack_bluepri.Prelude.{
  ℕ, zero, suc, ◌≤◌, ◌<◌, ◌≡◌, ◌≢◌, refl, sym, ap, ◌∙◌, subst, arith, Bool, true, false, Bool-cases,
  ◌⊎◌, inl, inr, String, Option, none, some, List, [], ◌∷◌, ◌++◌, In, All, All-append, length,
  if◌then◌else◌, ltb, Result, return, raise, return_inj, Value, get_default, iterate, arr, nil, str,
  null, num, real, bool, obj,
}
use krateo_openstack_bluepri.Prelude as P
use mathlib.Core.List.{append_assoc, append-nil}
use krateo_openstack_bluepri.Emitter.Effects.{
  Outside, State, Status, critical, HealthRow, Action, ◌>>=◌, ◌>>◌, pure, lift, >>=-eq-return,
  lift-eq-return,
}
use krateo_openstack_bluepri.Emitter.Config.{Environ, env_or, parse_interval, window, fmt}
use krateo_openstack_bluepri.Emitter.Health.Over.{over, over-append, Reported, assemble}
use krateo_openstack_bluepri.Emitter.Health.{
  probe, probe_endpoint, health_row, worse, usable, url_of, component_name, row, service_row,
  maybe_row, service_step, all_services, or_identity, health_rows, collect_health,
}

module _ (out : Outside) (env : Environ) (wstart : ℕ) (checked_at : String) where
  -- A statement that only adds rows, and carries the worst status over them.
  abbrev Carries : Option Status → Action (Option Status) → Type 0
  Carries worst m =
      (s t : State) (final : Option Status)
      → m s ≡ (return final, t)
      → (new : List HealthRow) × (t.health ≡ s.health ++ new) × (final ≡ over worst new)

  pure-Carries : (worst : Option Status) → Carries worst (pure worst)
  pure-Carries worst s t final e = ([], ground (arith, append-nil s.health), ground arith)

  lift-Carries :
      {A : Type 0} (worst : Option Status) (r : Result A) (f : A → Action (Option Status))
      → ((a : A) → Carries worst (f a))
      → Carries worst (lift r >>= f)
  lift-Carries worst (return a) f h s t final e = h a s t final e
  lift-Carries worst (raise x) f h s t final e = cc

  probe_health :
      (url : String) (s t : State) (found : Status × String)
      → probe out env url s ≡ (return found, t)
      → t.health ≡ s.health
  unfolding probe
  probe_health url s t found e = sym (ap (λ (p : Result (Status × String) × State). p.1.health) e)

  unprobed :
      (s t : State) (f found : Status × String) → pure f s ≡ (return found, t) → t.health ≡ s.health
  unprobed s t f found e = sym (ap (λ (p : Result (Status × String) × State). p.1.health) e)

  probe_endpoint_health :
      (url : Value) (s t : State) (found : Status × String)
      → probe_endpoint out env url s ≡ (return found, t)
      → t.health ≡ s.health
  unfolding probe_endpoint
  probe_endpoint_health (str url) s t found e = probe_health url s t found e
  probe_endpoint_health null s t found e = unprobed s t (critical, out.refuses_url null) found e
  probe_endpoint_health (num n) s t found e =
      unprobed s t (critical, out.refuses_url (num n)) found e
  probe_endpoint_health (real r) s t found e =
      unprobed s t (critical, out.refuses_url (real r)) found e
  probe_endpoint_health (bool b) s t found e =
      unprobed s t (critical, out.refuses_url (bool b)) found e
  probe_endpoint_health (arr vs) s t found e =
      unprobed s t (critical, out.refuses_url (arr vs)) found e
  probe_endpoint_health (obj fs) s t found e =
      unprobed s t (critical, out.refuses_url (obj fs)) found e

  named_row :
      (name : Result String) (worst final : Option Status) (found : Status × String) (u t : State)
      → (lift name >>= λ component.
            row out env wstart checked_at component found.0 found.1 >> pure (worse worst found.0))
          u
        ≡ (return final, t)
      → (component : String) × (t.health
          ≡ u.health ++ health_row out env wstart checked_at component found.0 found.1 ∷ [])
        × (final ≡ worse worst found.0)
  unfolding row
  named_row (return component) worst final found u t e = (
    component,
    sym (ap (λ (p : Result (Option Status) × State). p.1.health) e),
    sym (return_inj (ap (λ (p : Result (Option Status) × State). p.0) e)),
  )
  named_row (raise x) worst final found u t e = cc

  service_row-Carries :
      (svc : Value) (worst : Option Status) (url : Value)
      → Carries worst (service_row out env wstart checked_at svc worst url)
  service_row-Carries svc worst url s t final e =
      let (found, u, probed, rest) = >>=-eq-return (probe_endpoint out env url) _ s t final e in
      let (component, added, carried) = named_row (component_name svc) worst final found u t rest in
      (
        health_row out env wstart checked_at component found.0 found.1 ∷ [],
        added
            ∙ ap
                (λ (l : List HealthRow).
                  l ++ health_row out env wstart checked_at component found.0 found.1 ∷ [])
                (probe_endpoint_health url s u found probed),
        unfold health_row in carried,
      )

  service_step-Carries :
      (svc : Value) (worst : Option Status)
      → Carries worst (service_step out env wstart checked_at svc worst)
  unfolding service_step
  service_step-Carries svc worst =
      lift-Carries worst (P.◌>>=◌ (get_default svc "endpoints" (arr nil)) iterate) _ λ endpoints.
        lift-Carries worst (url_of env endpoints)
          (λ u. maybe_row out env wstart checked_at svc worst (usable u)) (λ u. maybe (usable u))
    where
      maybe : (o : Option Value) → Carries worst (maybe_row out env wstart checked_at svc worst o)
      maybe none = pure-Carries worst
      maybe (some url) = service_row-Carries svc worst url

  all_services-Carries :
      (svcs : List Value) (worst : Option Status)
      → Carries worst (all_services out env wstart checked_at svcs worst)
  unfolding all_services
  all_services-Carries [] worst s t final e = pure-Carries worst s t final e
  all_services-Carries (svc ∷ svcs) worst s t final e =
      let (carried, u, first, rest) =
        >>=-eq-return (service_step out env wstart checked_at svc worst)
          (all_services out env wstart checked_at svcs) s t final e in
      let (new, grown, so_far) = service_step-Carries svc worst s u carried first in
      let (more, grown', result) = all_services-Carries svcs carried u t final rest in
      (
        new ++ more,
        grown' ∙ ap (λ (l : List HealthRow). l ++ more) grown ∙ append_assoc s.health new more,
        result ∙ ap (λ (w : Option Status). over w more) so_far ∙ sym (over-append worst new more),
      )

  identity_row :
      (worst : Status) (found : Status × String) (u t : State)
      → (row out env wstart checked_at "identity" found.0 found.1 >> pure found.0) u
        ≡ (return worst, t)
      → (t.health
          ≡ u.health ++ health_row out env wstart checked_at "identity" found.0 found.1 ∷ [])
        × (found.0 ≡ worst)
  unfolding row
  identity_row worst found u t e = (
    sym (ap (λ (p : Result Status × State). p.1.health) e),
    return_inj (ap (λ (p : Result Status × State). p.0) e),
  )

  or_identity-Carries :
      (auth_url : String) (seen : Option Status) (s t : State) (worst : Status)
      → or_identity out env wstart checked_at auth_url seen s ≡ (return worst, t)
      → (new : List HealthRow) × (t.health ≡ s.health ++ new) × (some worst ≡ over seen new)
  unfolding or_identity
  or_identity-Carries auth_url (some w) s t worst e = (
    [],
    sym (ap (λ (p : Result Status × State). p.1.health) e) ∙ sym (append-nil s.health),
    ap some (sym (return_inj (ap (λ (p : Result Status × State). p.0) e))),
  )
  or_identity-Carries auth_url none s t worst e =
      let (found, u, probed, rest) =
        >>=-eq-return (probe out env auth_url)
          (λ x. row out env wstart checked_at "identity" x.0 x.1 >> pure x.0) s t worst e in
      let (added, same) = identity_row worst found u t rest in
      let r = health_row out env wstart checked_at "identity" found.0 found.1 in
      (
        r ∷ [],
        added ∙ ap (λ (l : List HealthRow). l ++ r ∷ []) (probe_health auth_url s u found probed),
        unfold health_row in ap some (sym same),
      )

  last_row :
      (worst : Status) (s t : State)
      → row out env wstart checked_at "_service" worst "worst of components" s ≡ (return tt, t)
      → t.health
        ≡ s.health
          ++ health_row out env wstart checked_at "_service" worst "worst of components" ∷ []
  unfolding row
  last_row worst s t e = sym (ap (λ (p : Result (Unit {0}) × State). p.1.health) e)

  health_rows-Reported :
      (auth_url : String) (catalog : List Value) (s t : State)
      → health_rows out env wstart checked_at auth_url catalog s ≡ (return tt, t)
      → Reported s t
  unfolding health_rows
  health_rows-Reported auth_url catalog s t e =
      let (seen, u, looped, e₁) =
        >>=-eq-return (all_services out env wstart checked_at catalog none) _ s t tt e in
      let (worst, v, checked, e₂) =
        >>=-eq-return (or_identity out env wstart checked_at auth_url seen) _ u t tt e₁ in
      let (new, grown, so_far) = all_services-Carries catalog none s u seen looped in
      let (more, grown', result) = or_identity-Carries auth_url seen u v worst checked in
      assemble s u v t new more
        (health_row out env wstart checked_at "_service" worst "worst of components") seen grown
        grown' (last_row worst v t e₂) so_far (unfold health_row in result)
        (unfold health_row in refl)

-- A run of `collect_health` that returns has added rows of components, at least one, and behind them
-- a row "_service" whose status no component's rank exceeds and some component has.
pub collect_health_worst :
    (out : Outside) (env : Environ) (now later : ℕ) (auth_url : String) (catalog : Value)
    (s t : State)
    → collect_health out env now later auth_url catalog s ≡ (return tt, t)
    → Reported s t
unfolding collect_health
collect_health_worst out env now later auth_url catalog s t e =
    let (interval, parsed, e₁) =
      lift-eq-return (parse_interval (env_or env "INTERVAL" "1m")) _ s t tt e in
    let (wstart, aligned, e₂) = lift-eq-return (window now interval) _ s t tt e₁ in
    let (services, listed, e₃) = lift-eq-return (iterate catalog) _ s t tt e₂ in
    health_rows-Reported out env wstart (fmt later) auth_url services s t e₃
