-- ===== src/Deadlock/Gate.antt =====
-- `read_gate` of hack/validate-readiness-deadlock.py, and the relaxations that `main` takes to be in
-- effect. What the regular expressions find in the templates is a parameter.
pub mod Means
pub mod Modes
use krateo_openstack_bluepri.Prelude.{
  String, Bool, true, false, not, ◌&&◌, ◌||◌, Option, none, some, List, [], ◌∷◌, ◌++◌, map,
  if◌then◌else◌, ◌==◌, any, contains, keep, Result, return, raise, Exception, system_exit, ◌>>=◌,
  eqb, length, ℕ,
}
use krateo_openstack_bluepri.Deadlock.Umbrella.{Comps, Edge}

pub record Templates : Type 0 where
  -- compositions.yaml and _helpers.tpl are there
  pub present : Bool
  -- the predicates `osh.deps...` that compositions.yaml includes
  pub called : List String
  -- for each definition of the helper, whether it includes osh.ready and osh.exists
  pub bodies : String → List (Bool × Bool)
  -- an `if and` of compositions.yaml tests the variable
  pub tests : String → Bool

pub data Mode : Type 0 where
  readiness existence per_edge : Mode

abbrev fail_measurement : {A : Type 0} → String → Result A
fail_measurement msg = raise (system_exit msg)

abbrev pub is_known : String → Bool
is_known p = p == "osh.depsReady" || (p == "osh.depsExist" || p == "osh.depsRelaxed")

abbrev pub one_body : List (Bool × Bool) → Result (Bool × Bool)
one_body (b ∷ []) = return b
one_body _ = fail_measurement "expected one definition"

abbrev pub none_called : List String → Bool
none_called [] = true
none_called (p ∷ ps) = false

module _ (t : Templates) where
  abbrev pub calls_it : String → Bool
  calls_it p = contains t.called p

  unfoldable pub check_ready : Result (Unit {0})
  check_ready =
      if calls_it "osh.depsReady"
      then (one_body (t.bodies "osh.depsReady") >>= λ b.
          if b.0 then return tt else fail_measurement "not a readiness gate")
      else return tt

  -- `some` where osh.depsExist is defined by osh.ready
  unfoldable pub check_exist : Result (Option Mode)
  check_exist =
      if calls_it "osh.depsExist"
      then (one_body (t.bodies "osh.depsExist") >>= λ b.
          if b.0
          then return (some readiness)
          else if b.1
          then return none
          else fail_measurement "neither gate")
      else return none

  unfoldable pub mode_of : Bool → Bool → Bool → Result Mode
  mode_of ready exist relaxed =
      if relaxed && not (ready && exist)
      then fail_measurement "one half is gated by nothing"
      else if ready && exist
      then (if not relaxed
          then fail_measurement "osh.depsRelaxed is never called"
          else if t.tests "$strictReady" && t.tests "$relaxedExist"
          then return per_edge
          else fail_measurement "the emission condition does not test it")
      else if ready
      then return readiness
      else return existence

  abbrev pub or_mode : Option Mode → Result Mode → Result Mode
  or_mode none later = later
  or_mode (some m) later = return m

  unfoldable pub gate_mode : Result Mode
  unfolding check_ready check_exist mode_of
  gate_mode = check_ready >>= λ done. check_exist >>= λ m.
      or_mode m
        (mode_of (calls_it "osh.depsReady") (calls_it "osh.depsExist") (calls_it "osh.depsRelaxed"))

  unfoldable pub read_gate : Result Mode
  unfolding gate_mode
  read_gate =
      if not t.present
      then fail_measurement "a template is missing"
      else if any (λ p. not (is_known p)) t.called
      then fail_measurement "an unknown gate"
      else if none_called t.called
      then fail_measurement "nothing orders creation"
      else gate_mode

-- `all_edges`
unfoldable pub all_edges : Comps → List Edge
all_edges [] = []
all_edges ((c, deps) ∷ more) = map (λ (d : String). (c, d)) deps ++ all_edges more

-- `effective`: the relaxations that the templates apply
unfoldable pub effective : Mode → Comps → List Edge → List Edge
unfolding all_edges
effective per_edge comps declared = declared
effective existence comps declared = all_edges comps
effective readiness comps declared = []
