-- ===== src/Remote/Sending/Livelock.antt =====
-- The loop of `_handle_send` while every rule waits for a report of the other side.
use flux_mcf.Prelude.{
  ℕ, zero, suc, String, ◌≡◌, refl, Bool, true, false, not, ◌||◌, [], ◌∷◌, none, some, ok, arith,
}
use flux_mcf.Prelude.Dict.{Dict}
use flux_mcf.World.{World}
use flux_mcf.ValueQueue.{empty}
use flux_mcf.Ports.{Shared}
use flux_mcf.Remote.Pair
use flux_mcf.Remote.Service.{Service, SendRule}
use flux_mcf.Remote.Sending.{handle_send_single, has_more, send_round, send_loop, handle_send}

-- The peer answered "RECEIVED" to the last value, and its report has not come.
pub record IsWaiting (r : SendRule) : Type 0 where
  pub pending : r.send_pending ≡ true
  pub reference : ℕ
  pub has_queue : r.queue ≡ some reference

abbrev pub AreWaiting : Dict String SendRule → Type 0
AreWaiting [] = Unit
AreWaiting ((k, r) ∷ rules) = IsWaiting r × AreWaiting rules

module _ {V : Type 0} (is_value : V → Bool) (meanwhile : Shared V → Shared V) where
  -- some rule has values in its queue, or a forced send
  abbrev pub any_left : Dict String SendRule → World V → Bool
  any_left [] w = false
  any_left ((k, r) ∷ rules) w =
      (r.forced_send || elim r.queue [ none ↦ false | some q ↦ not (empty q w) ])
      || any_left rules w

  has_more_waiting :
      (r : SendRule) (w : World V)
      → IsWaiting r
      → has_more r w
        ≡ ok (r.forced_send || elim r.queue [ none ↦ false | some q ↦ not (empty q w) ])
  unfolding has_more
  has_more_waiting r w h = let at = h.has_queue in ground arith

  waiting_round :
      (rules : Dict String SendRule) (s : Service V)
      → AreWaiting rules
      → Pair.connected s.pair ≡ true
      → send_round is_value meanwhile rules s ≡ ok (rules, s, any_left rules s.shared.world)
  unfolding send_round handle_send_single
  waiting_round [] s waiting up = refl
  waiting_round ((k, r) ∷ rules) s waiting up = simp (
    up,
    waiting.0.pending,
    has_more_waiting r s.shared.world waiting.0,
    waiting_round rules s waiting.1 up,
  )

  -- While the other side is taken for reachable and every rule waits for a report, the loop does
  -- not end if a value is left: with any fuel it runs out of it, and it changes nothing.
  pub handle_send_livelock :
      (fuel : ℕ) (s : Service V)
      → s.initialized ≡ true
      → Pair.connected s.pair ≡ true
      → AreWaiting s.send_rules
      → any_left s.send_rules s.shared.world ≡ true
      → handle_send is_value meanwhile fuel s ≡ ok (s, false)
  unfolding handle_send
  handle_send_livelock fuel s started up waiting left = simp started (loop fuel)
    where
      loop : (n : ℕ) → send_loop is_value meanwhile n s ≡ ok (s, false)
      loop zero = unfold send_loop in refl
      loop (suc n) =
          unfold send_loop in simp (waiting_round s.send_rules s waiting up, left) (loop n)
