-- ===== src/Emitter/Config/Window.antt =====
-- The aligned windows that the rows are stamped with.
use krateo_openstack_bluepri.Prelude.{
  ℕ, ◌+◌, ◌*◌, ◌/◌, ◌%◌, ◌≤◌, ◌<◌, ◌≡◌, arith, Bool-cases, eqb, return, inl, inr,
}
use native.Mathlib.Nat.{mul-mod_left, div-mul-le_self, div-add-mod', mod-lt, div-eq_of_lt-le}
use krateo_openstack_bluepri.Emitter.Config.{window}

-- A reading of the clock lies in the window that it gives, and the window starts at a multiple of
-- the interval.
pub window_bounds :
    (now interval w : ℕ)
    → window now interval ≡ return w
    → (w % interval ≡ 0) × (w ≤ now) × (now < w + interval)
unfolding window
window_bounds now interval w h = elim (Bool-cases (eqb interval 0)) [
  | inl zero_interval ↦ absurd (ground arith)
  | inr some_interval ↦
      let start : w ≡ now / interval * interval = ground arith in
      (
        rw (start, mul-mod_left (now / interval) interval),
        grind (arith, div-mul-le_self now interval),
        grind (arith, div-add-mod' now interval, mod-lt now),
      )
]

-- Every reading inside a window gives that window: a second run in it stamps its rows alike.
pub window_stable :
    (now again interval w : ℕ)
    → window now interval ≡ return w
    → w ≤ again
    → again < w + interval
    → window again interval ≡ return w
unfolding window
window_stable now again interval w h le lt = elim (Bool-cases (eqb interval 0)) [
  | inl zero_interval ↦ absurd (ground arith)
  | inr some_interval ↦
      let start : w ≡ now / interval * interval = ground arith in
      let same : again / interval ≡ now / interval =
        div-eq_of_lt-le interval (omega (arith, start)) (grind arith) in
      ground arith
]
