-- ===== src/ConfigClosure/Report.antt =====
-- `report` of hack/validate-component-config-closure.py and the counts that its loops keep, and how the
-- loops go through documents.
pub mod Accounts
use krateo_openstack_bluepri.Prelude.{
  ℕ, suc, String, Bool, true, false, ◌&&◌, List, [], ◌∷◌, ◌++◌, any, ◌==◌, Value, null, str, arr,
  nil, or_else, Result, return, raise, ◌>>=◌, get_default, iterate,
}

-- A component and the reference that is reported of it
abbrev pub Finding : Type 0
Finding = String × String

abbrev pub same_finding : Finding → Finding → Bool
same_finding f g = f.0 == g.0 && f.1 == g.1

abbrev pub has_finding : List Finding → Finding → Bool
has_finding fs f = any (λ (g : Finding). same_finding g f) fs

pub record Tally : Type 0 where
  pub problems : List Finding
  pub used_waivers : List Finding
  pub checked_waits : ℕ
  pub checked_backends : ℕ

abbrev pub nothing_checked : Tally
nothing_checked = record {
  problems = [];
  used_waivers = [];
  checked_waits = 0;
  checked_backends = 0;
}

abbrev pub one_wait : Tally → Tally
one_wait t = record {
  problems = t.problems;
  used_waivers = t.used_waivers;
  checked_waits = suc t.checked_waits;
  checked_backends = t.checked_backends;
}

abbrev pub one_backend : Tally → Tally
one_backend t = record {
  problems = t.problems;
  used_waivers = t.used_waivers;
  checked_waits = t.checked_waits;
  checked_backends = suc t.checked_backends;
}

abbrev use_waiver : Finding → Tally → Tally
use_waiver f t = record {
  problems = t.problems;
  used_waivers = f ∷ t.used_waivers;
  checked_waits = t.checked_waits;
  checked_backends = t.checked_backends;
}

abbrev add_problem : Finding → Tally → Tally
add_problem f t = record {
  problems = t.problems ++ f ∷ [];
  used_waivers = t.used_waivers;
  checked_waits = t.checked_waits;
  checked_backends = t.checked_backends;
}

unfoldable pub report : List Finding → Finding → Tally → Tally
report waived f t = elim (has_finding waived f) [ true ↦ use_waiver f t | false ↦ add_problem f t ]

-- A loop whose body may raise
unfoldable pub each : {A : Type 0} → (A → Tally → Result Tally) → List A → Tally → Result Tally
each body [] t = return t
each body (x ∷ xs) t = do u ← body x t; each body xs u
