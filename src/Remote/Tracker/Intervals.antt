-- ===== src/Remote/Tracker/Intervals.antt =====
-- Ping intervals, and how long a silent remote side is taken for reachable.
use native.Mathlib.Nat.{pow-suc}
use flux_mcf.Prelude.{
  ℕ, zero, suc, ◌+◌, ◌*◌, ◌^◌, ◌≤◌, ◌<◌, ◌≡◌, ◌⊎◌, inl, inr, refl, ◌∙◌, sym, subst, List, [], ◌∷◌,
  map, length, arith,
}
use flux_mcf.Remote.Tracker.{
  state_down, state_unsure, state_up, Tracker, Event, pong, cycle, message_in_down, timeout,
  run_cyclic, step, run, new_tracker,
}

-- what the ping interval is in each state
pub record IsTracked (s : Tracker) : Type 0 where
  pub ordered : s.ping_interval_min ≤ s.ping_interval_max
  pub above : s.remote_state ≡ state_unsure → s.ping_interval_min ≤ s.ping_interval
  pub below : s.remote_state ≡ state_unsure → s.ping_interval ≤ s.ping_interval_max
  pub longest : s.remote_state ≡ state_up → s.ping_interval ≡ s.ping_interval_max

step-IsTracked : (e : Event) (s : Tracker) → IsTracked s → IsTracked (step e s)
unfolding step
step-IsTracked (pong now f) s h = record {
  ordered = ground (arith, h.ordered);
  above = λ e. ground (arith, h.above);
  below = λ e. ground (arith, h.below);
  longest = λ e. ground (arith, h.longest);
}
step-IsTracked (cycle now) s h = record {
  ordered = ground (arith, h.ordered);
  above = λ e. ground (arith, h.above);
  below = λ e. ground (arith, h.below);
  longest = λ e. ground (arith, h.longest);
}
step-IsTracked message_in_down s h = record {
  ordered = h.ordered;
  above = λ e. omega arith;
  below = λ e. h.ordered;
  longest = λ e. cc;
}
step-IsTracked timeout s h = record {
  ordered = h.ordered;
  above = λ e. omega arith;
  below = λ e. h.ordered;
  longest = λ e. cc;
}

run-IsTracked : (es : List Event) (s : Tracker) → IsTracked s → IsTracked (run es s)
unfolding run
run-IsTracked [] s h = h
run-IsTracked (e ∷ es) s h = run-IsTracked es (step e s) (step-IsTracked e s h)

step_limits :
    (e : Event) (s : Tracker)
    → ((step e s).ping_interval_min ≡ s.ping_interval_min)
      × ((step e s).ping_interval_max ≡ s.ping_interval_max)
unfolding step
step_limits (pong now f) s = ground arith
step_limits (cycle now) s = ground arith
step_limits message_in_down s = (refl, refl)
step_limits timeout s = (refl, refl)

run_limits :
    (es : List Event) (s : Tracker)
    → ((run es s).ping_interval_min ≡ s.ping_interval_min)
      × ((run es s).ping_interval_max ≡ s.ping_interval_max)
unfolding run
run_limits [] s = (refl, refl)
run_limits (e ∷ es) s =
    let (lower, upper) = run_limits es (step e s) in
    let (lower', upper') = step_limits e s in (lower ∙ lower', upper ∙ upper')

-- A new tracker whose lower limit is not above its upper one: whatever calls arrive, its limits
-- stay as given, its ping interval lies between them in STATE_UNSURE and is the upper one in STATE_UP.
pub run-new_tracker :
    (lowest highest limit freshness : ℕ) (es : List Event)
    → lowest ≤ highest
    → let s = run es (new_tracker lowest highest limit freshness) in
      IsTracked s × (s.ping_interval_min ≡ lowest) × (s.ping_interval_max ≡ highest)
unfolding new_tracker
run-new_tracker lowest highest limit freshness es h =
    let fresh = new_tracker lowest highest limit freshness in
    let (lower, upper) = run_limits es fresh in
    (
      run-IsTracked es fresh (record {
        ordered = h;
        above = λ e. omega arith;
        below = λ e. h;
        longest = λ e. ground arith;
      }),
      lower,
      upper,
    )

-- times that lie more than `gap` apart, the first more than `gap` after `t`
abbrev pub IsSpaced : ℕ → ℕ → List ℕ → Type 0
IsSpaced gap t [] = Unit
IsSpaced gap t (u ∷ us) = (t + gap < u) × IsSpaced gap u us

cycles_down :
    (ts : List ℕ) (s : Tracker)
    → s.remote_state ≡ state_down
    → (run (map cycle ts) s).remote_state ≡ state_down
unfolding run
cycles_down [] s h = h
cycles_down (t ∷ ts) s h = cycles_down ts (run_cyclic t s) (unfold run_cyclic in ground arith)

-- a due cycle in STATE_UNSURE gives up or doubles the interval
cycle_unsure_cases :
    (now : ℕ) (s : Tracker)
    → s.remote_state ≡ state_unsure
    → s.last_ping_time + s.ping_interval < now
    → ((run_cyclic now s).remote_state ≡ state_down)
      ⊎ ((run_cyclic now s).remote_state ≡ state_unsure)
        × ((run_cyclic now s).ping_interval ≡ 2 * s.ping_interval)
        × (2 * s.ping_interval ≤ s.ping_interval_max)
        × ((run_cyclic now s).ping_interval_max ≡ s.ping_interval_max)
        × ((run_cyclic now s).last_ping_time ≡ now)
unfolding run_cyclic
cycle_unsure_cases now s h due = ground arith

-- Each cycle comes when the ping interval of the state it finds is over, as long as that is
-- STATE_UNSURE.
unfoldable pub AreDue : List ℕ → Tracker → Type 0
AreDue [] s = Unit
AreDue (t ∷ ts) s =
    (s.remote_state ≡ state_unsure → s.last_ping_time + s.ping_interval < t)
    × AreDue ts (run_cyclic t s)

-- If no pong comes and each cycle that finds STATE_UNSURE comes when the ping interval of that
-- moment is over, STATE_UNSURE is left for STATE_DOWN after as many cycles as it takes to double the
-- interval beyond its upper limit.
pub unsure_gives_up :
    (k : ℕ) (ts : List ℕ) (s : Tracker)
    → s.remote_state ≡ state_unsure
    → s.ping_interval ≤ s.ping_interval_max
    → s.ping_interval_max < s.ping_interval * 2 ^ k
    → k ≤ length ts
    → AreDue ts s
    → (run (map cycle ts) s).remote_state ≡ state_down
unfolding run AreDue
unsure_gives_up zero ts s h fits many enough due =
    let one : 2 ^ zero ≡ 1 = refl in absurd (omega arith)
unsure_gives_up (suc k) [] s h fits many enough due = absurd (omega arith)
unsure_gives_up (suc k) (t ∷ ts) s h fits many enough (now_due, later) =
    let doubled : s.ping_interval * 2 ^ suc k ≡ 2 * s.ping_interval * 2 ^ k =
      rw pow-suc (grind arith) in
    elim (cycle_unsure_cases t s h (now_due h)) [
      | inl down ↦ cycles_down ts (run_cyclic t s) down
      | inr (unsure, double, room, same_max, last) ↦
          unsure_gives_up k ts (run_cyclic t s) unsure (omega arith)
            (rw (double, same_max) (omega arith)) (omega arith) later
    ]

-- a due cycle in STATE_UP finds the other side silent or stays
cycle_up_cases :
    (now : ℕ) (s : Tracker)
    → s.remote_state ≡ state_up
    → s.last_ping_time + s.ping_interval < now
    → ((run_cyclic now s).remote_state ≡ state_down)
      ⊎ ((run_cyclic now s).remote_state ≡ state_up)
        × (now ≤ s.last_pong_time + s.pong_timeout)
        × ((run_cyclic now s).ping_interval ≡ s.ping_interval)
        × ((run_cyclic now s).last_pong_time ≡ s.last_pong_time)
        × ((run_cyclic now s).pong_timeout ≡ s.pong_timeout)
        × ((run_cyclic now s).last_ping_time ≡ now)
unfolding run_cyclic
cycle_up_cases now s h due = ground arith

-- the last time of a list that begins with `t`
abbrev pub last_of : ℕ → List ℕ → ℕ
last_of t [] = t
last_of t (u ∷ us) = last_of u us

-- Without a pong, cycles that are each due lead from STATE_UP to STATE_DOWN if the last of them is
-- later than the last pong by more than the pong timeout.
pub up_gives_up :
    (t : ℕ) (ts : List ℕ) (s : Tracker)
    → s.remote_state ≡ state_up
    → IsSpaced s.ping_interval s.last_ping_time (t ∷ ts)
    → s.last_pong_time + s.pong_timeout < last_of t ts
    → (run (map cycle (t ∷ ts)) s).remote_state ≡ state_down
unfolding run
up_gives_up t [] s h spaced late = elim (cycle_up_cases t s h spaced.0) [
  | inl down ↦ down
  | inr stays ↦ absurd (omega (arith, stays.1))
]
up_gives_up t (u ∷ us) s h spaced late = elim (cycle_up_cases t s h spaced.0) [
  | inl down ↦ cycles_down (u ∷ us) (run_cyclic t s) down
  | inr (up, early, interval, pong_time, limit, last) ↦
      up_gives_up u us (run_cyclic t s) up
        (subst (λ (g : ℕ). IsSpaced g (run_cyclic t s).last_ping_time (u ∷ us)) (sym interval)
          (subst (λ (l : ℕ). IsSpaced s.ping_interval l (u ∷ us)) (sym last) spaced.1))
        (rw (pong_time, limit) late)
]
