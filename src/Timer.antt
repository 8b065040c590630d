-- ===== src/Timer.antt =====
-- kernel/timer.c: the tick counter, and the preemption that it drives.
mod Tests
use strixos.Prelude.{
  ℕ, zero, suc, ◌+◌, ◌-◌, ◌/◌, ◌%◌, ◌^◌, ◌≤◌, ◌<◌, ◌≡◌, refl, ◌==◌, ◌⊎◌, inl, inr, if◌then◌else◌,
  Bool, true, false, Bool-cases, Option, none, some, Option-cases, add64, arith,
}
use strixos.Process.{Sched, schedule}

pub record Clock : Type 0 where
  pub ticks : ℕ
  pub sched : Sched

abbrev step_sched : Option (Sched × Option (ℕ × ℕ)) → ℕ → Option Clock
step_sched none ticks = none
step_sched (some r) ticks = some (record { ticks = ticks; sched = r.0 })

-- `timer_tick`: every tenth tick calls `schedule`. `none` where that call does not return within the
-- fuel.
unfoldable pub timer_tick : ℕ → Clock → Option Clock
timer_tick fuel c =
    let ticks = add64 c.ticks 1 in
    if ticks % 10 == 0
    then step_sched (schedule fuel c.sched) ticks
    else some (record c { ticks = ticks })

-- `n` interrupts in a row.
pub ticks_run : ℕ → ℕ → Clock → Option Clock
ticks_run fuel zero c = some c
ticks_run fuel (suc n) c = elim (timer_tick fuel c) [ none ↦ none | some d ↦ ticks_run fuel n d ]

-- `k` calls of `schedule` in a row.
pub schedules : ℕ → ℕ → Sched → Option Sched
schedules fuel zero s = some s
schedules fuel (suc k) s = elim (schedule fuel s) [ none ↦ none | some r ↦ schedules fuel k r.0 ]

abbrev at_tick : ℕ → Option Sched → Option Clock
at_tick t none = none
at_tick t (some s) = some (record { ticks = t; sched = s })

-- Over `n` ticks that do not wrap the counter, `schedule` is called once for each multiple of ten
-- that the counter passes, and for nothing else.
pub ticks_run-schedules :
    (fuel n : ℕ) (c : Clock)
    → c.ticks + n < 2 ^ 64
    → ticks_run fuel n c
      ≡ at_tick (c.ticks + n) (schedules fuel ((c.ticks + n) / 10 - c.ticks / 10) c.sched)
unfolding ticks_run schedules timer_tick
ticks_run-schedules fuel zero c small =
    let calls : (c.ticks + 0) / 10 - c.ticks / 10 ≡ 0 = omega arith in
    let same : c.ticks + 0 ≡ c.ticks = omega arith in rw (calls, same) refl
ticks_run-schedules fuel (suc n) c small = elim (Bool-cases (add64 c.ticks 1 % 10 == 0)) [
  | inr idle ↦
      let next : add64 c.ticks 1 ≡ c.ticks + 1 = omega arith in
      let calls : (c.ticks + suc n) / 10 - c.ticks / 10
          ≡ (c.ticks + 1 + n) / 10 - (c.ticks + 1) / 10 =
        ground arith in
      let total : c.ticks + suc n ≡ c.ticks + 1 + n = omega arith in
      rw (calls, total)
        (ground
          (arith, ticks_run-schedules fuel n (record c { ticks = c.ticks + 1 }) (omega arith)))
  | inl due ↦
      let next : add64 c.ticks 1 ≡ c.ticks + 1 = omega arith in
      let calls : (c.ticks + suc n) / 10 - c.ticks / 10
          ≡ suc ((c.ticks + 1 + n) / 10 - (c.ticks + 1) / 10) =
        ground arith in
      let total : c.ticks + suc n ≡ c.ticks + 1 + n = omega arith in
      elim (Option-cases (schedule fuel c.sched)) [
        | inl stuck ↦ rw (calls, total) (ground arith)
        | inr (r, e) ↦
            rw (calls, total)
              (ground (
                arith,
                ticks_run-schedules fuel n (record { ticks = c.ticks + 1; sched = r.0 })
                    (omega arith),
              ))
      ]
]
