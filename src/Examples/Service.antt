-- ===== src/Examples/Service.antt =====
-- The tracker, the pair and the remote service.
use flux_mcf.Prelude.{
  ℕ, zero, suc, ◌≡◌, refl, String, string_eq, Bool, true, false, not, some, [], ◌∷◌, map, ok, arith,
}
use flux_mcf.ValueQueue.{empty}
use flux_mcf.Remote.Tracker
use flux_mcf.Remote.Tracker.{
  Tracker, RemoteState, state_up, state_unsure, state_down, pong, message_in_down, timeout, cycle,
  run, run_cyclic, new_tracker, step, is_up,
}
use flux_mcf.Remote.Tracker.Transitions.{step-enters_up, pong_received-stale}
use flux_mcf.Remote.Tracker.Intervals.{
  IsTracked, AreDue, run-new_tracker, unsure_gives_up, up_gives_up,
}
use flux_mcf.Remote.Pair.{connected, check_for_response}
use flux_mcf.Remote.Pair.Status.{IsReady, IsPlain}
use flux_mcf.Remote.Service.{Service}
use flux_mcf.Remote.Sending.{handle_send}
use flux_mcf.Remote.Sending.Load.{IsSendable}
use flux_mcf.Remote.Sending.Finish.{Finished, handle_send-Finished}
use flux_mcf.Remote.Sending.Livelock.{handle_send_livelock}
use flux_mcf.Examples.Samples.{tracker, unsure_tracker, alternating, pair, rule, service}

step-enters_up_example :
    (unsure_tracker.remote_state ≡ state_unsure)
    × (now : ℕ) × (pong 1100 17 ≡ pong now unsure_tracker.ping_freshness)
step-enters_up_example =
    step-enters_up (pong 1100 17) unsure_tracker (λ e. ground arith) (unfold step in refl)

pong_received-stale_example :
    Tracker.pong_received 1700 17 (run (cycle 1600 ∷ []) (tracker state_up))
    ≡ run (cycle 1600 ∷ []) (tracker state_up)
pong_received-stale_example =
    pong_received-stale (cycle 1600 ∷ []) (tracker state_up) 1700 17 (omega arith)
      (unfold run step in omega arith)

run-new_tracker_example :
    let s =
      run (cycle 1600 ∷ pong 1650 18 ∷ cycle 9000 ∷ timeout ∷ []) (new_tracker 100 3000 5000 17) in
    IsTracked s × (s.ping_interval_min ≡ 100) × (s.ping_interval_max ≡ 3000)
run-new_tracker_example =
    run-new_tracker 100 3000 5000 17 (cycle 1600 ∷ pong 1650 18 ∷ cycle 9000 ∷ timeout ∷ [])
      (omega arith)

unsure_gives_up_example :
    (run (map cycle (1500 ∷ 1750 ∷ 2200 ∷ [])) unsure_tracker).remote_state ≡ state_down
unfolding AreDue run_cyclic
unsure_gives_up_example =
    unsure_gives_up 3 (1500 ∷ 1750 ∷ 2200 ∷ []) unsure_tracker refl (omega arith) (omega arith)
      (omega arith) (λ e. omega arith, (λ e. ground arith, (λ e. ground arith, tt)))

up_gives_up_example :
    (run (map cycle (1500 ∷ 2000 ∷ [])) (tracker state_up)).remote_state ≡ state_down
up_gives_up_example =
    up_gives_up 1500 (2000 ∷ []) (tracker state_up) refl (omega arith, (omega arith, tt))
      (omega arith)

alternating-IsPlain : (b : Bool) (n : ℕ) → IsPlain (check_for_response (alternating b n))
unfolding check_for_response
alternating-IsPlain true zero = tt
alternating-IsPlain false zero = tt
alternating-IsPlain b (suc n) = alternating-IsPlain (not b) n

pair-IsReady : IsReady pair
pair-IsReady = record { open_socket = refl; plain = alternating-IsPlain true }

rule-IsSendable : (topic : String) (q : ℕ) (b : Bool) → IsSendable (rule topic (some q) b false)
rule-IsSendable topic q b = record { idle = refl; reference = q; has_queue = refl }

handle_send-Finished_example : Finished (handle_send (λ v. true) (λ sh. sh) 6 service)
handle_send-Finished_example =
    handle_send-Finished (λ v. true) 6 service refl
      (rule-IsSendable "a" 2 false, (rule-IsSendable "b" 1 true, tt)) pair-IsReady (omega arith)

-- the peer has not yet reported on "a", and queue 2 holds a value
abbrev blocked : Service ℕ
blocked = record service { send_rules = ("a", rule "a" (some 2) false true) ∷ [] }

handle_send_livelock_example : handle_send (λ v. true) (λ sh. sh) 50 blocked ≡ ok (blocked, false)
unfolding connected is_up empty
handle_send_livelock_example =
    handle_send_livelock (λ v. true) (λ sh. sh) 50 blocked refl refl
      (record { pending = refl; reference = 2; has_queue = refl }, tt) refl
