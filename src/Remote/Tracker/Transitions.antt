-- ===== src/Remote/Tracker/Transitions.antt =====
-- Which calls change the assumed state of the other side, and what becomes of late pongs.
use flux_mcf.Prelude.{
  ℕ, suc, ◌+◌, ◌≤◌, ◌<◌, ◌≡◌, ◌≢◌, ◌⊎◌, inl, inr, refl, List, [], ◌∷◌, length, length-append, arith,
}
use flux_mcf.Remote.Tracker.{
  state_down, state_unsure, state_up, Tracker, Event, pong, cycle, message_in_down, timeout,
  pong_received, step, run,
}

-- STATE_UP is entered only by the pong that answers the latest ping, and only from STATE_UNSURE:
-- never from STATE_DOWN, never by a stale pong, and by no other call.
pub step-enters_up :
    (e : Event) (s : Tracker)
    → s.remote_state ≢ state_up
    → (step e s).remote_state ≡ state_up
    → (s.remote_state ≡ state_unsure) × (now : ℕ) × (e ≡ pong now s.ping_freshness)
unfolding step
step-enters_up (pong now f) s other up = (ground arith, now, ground arith)
step-enters_up (cycle now) s other up = absurd (ground arith)
step-enters_up message_in_down s other up = absurd (ground arith)
step-enters_up timeout s other up = absurd (ground arith)

-- In STATE_DOWN cycles and pongs do nothing, so no ping is sent, and each of the other calls leads
-- to STATE_UNSURE with the smallest ping interval and a ping due at once.
step-down :
    (e : Event) (s : Tracker)
    → s.remote_state ≡ state_down
    → (step e s ≡ s)
      ⊎ ((step e s).remote_state ≡ state_unsure)
        × ((step e s).ping_interval ≡ s.ping_interval_min)
        × ((step e s).last_ping_time ≡ 0)
        × ((step e s).pings ≡ s.pings)
unfolding step
step-down (pong now f) s down = inl (ground arith)
step-down (cycle now) s down = inl (ground arith)
step-down message_in_down s down = inr (refl, refl, refl, refl)
step-down timeout s down = inr (refl, refl, refl, refl)

-- a call adds as much to the freshness as it sends pings
freshness-step :
    (e : Event) (s : Tracker)
    → (step e s).ping_freshness + length s.pings ≡ s.ping_freshness + length (step e s).pings
unfolding step
freshness-step (pong now f) s = ground arith
freshness-step (cycle now) s = ground (arith, length-append s.pings (suc s.ping_freshness ∷ []))
freshness-step message_in_down s = refl
freshness-step timeout s = refl

freshness-run :
    (es : List Event) (s : Tracker)
    → (run es s).ping_freshness + length s.pings ≡ s.ping_freshness + length (run es s).pings
unfolding run
freshness-run [] s = refl
freshness-run (e ∷ es) s = omega (arith, freshness-step e s, freshness-run es (step e s))

-- A pong that answers a ping is ignored once a later ping has been sent, whatever happened between.
pub pong_received-stale :
    (es : List Event) (s : Tracker) (now f : ℕ)
    → f ≤ s.ping_freshness
    → length s.pings < length (run es s).pings
    → pong_received now f (run es s) ≡ run es s
unfolding pong_received
pong_received-stale es s now f old later = ground (arith, freshness-run es s)
