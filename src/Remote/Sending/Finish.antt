-- ===== src/Remote/Sending/Finish.antt =====
-- The loop of `_handle_send` ends, and what is then left to send. With a report outstanding it does
-- not end.
use flux_mcf.Prelude.{
  ℕ, zero, suc, ◌+◌, ◌<◌, String, ◌≡◌, ◌⊎◌, inl, inr, refl, sym, subst, Bool, true, false, [], ◌∷◌,
  Bool-cases, Result, ok, arith,
}
use flux_mcf.Prelude.Dict.{Dict}
use flux_mcf.Remote.Pair
use flux_mcf.Remote.Pair.Status.{IsReady}
use flux_mcf.Remote.Service.{Service, SendRule}
use flux_mcf.Remote.Sending.{send_round, send_loop, handle_send}
use flux_mcf.Remote.Sending.Rounds.{AreSendable, total, send_round-Round}

loop_step :
    {V : Type 0} (is_value : V → Bool) (fuel : ℕ) (s : Service V) {rules : Dict String SendRule}
    {s' : Service V} {more : Bool}
    → send_round is_value (λ sh. sh) s.send_rules s ≡ ok (rules, s', more)
    → more ≡ true
    → send_loop is_value (λ sh. sh) (suc fuel) s
      ≡ send_loop is_value (λ sh. sh) fuel (record s' { send_rules = rules })
unfolding send_loop
loop_step is_value fuel s round again = simp (round, again)

module _ {V : Type 0} where
  -- The loop ended by itself, with nothing left to send or the other side out of reach.
  pub record Finished (outcome : Result (Service V × Bool)) : Type 0 where
    pub service : Service V
    pub returns : outcome ≡ ok (service, true)
    pub done :
        (Pair.connected service.pair ≡ false) ⊎ (total service.send_rules service.shared.world ≡ 0)

  module _ (is_value : V → Bool) where
    -- the pass after the connection was lost
    last_round :
        (rules : Dict String SendRule) (s : Service V)
        → Pair.connected s.pair ≡ false
        → send_round is_value (λ sh. sh) rules s ≡ ok (rules, s, false)
    unfolding send_round
    last_round [] s down = refl
    last_round ((k, r) ∷ rules) s down = rw down

    loop_lost :
        (fuel : ℕ) (s : Service V)
        → Pair.connected s.pair ≡ false
        → Finished (send_loop is_value (λ sh. sh) (suc fuel) s)
    unfolding send_loop
    loop_lost fuel s down =
        rw (last_round s.send_rules s down)
          (record { service = s; returns = refl; done = inl down })

    send_loop-Finished :
        (fuel : ℕ) (s : Service V)
        → AreSendable s.send_rules
        → IsReady s.pair
        → total s.send_rules s.shared.world + 1 < fuel
        → Finished (send_loop is_value (λ sh. sh) fuel s)
    send_loop-Finished zero s sendable ready enough = absurd (omega arith)
    send_loop-Finished (suc zero) s sendable ready enough = absurd (omega arith)
    send_loop-Finished (suc (suc fuel)) s sendable ready enough =
        let round = send_round-Round is_value s.send_rules s sendable ready in
        let s' = record round.service { send_rules = round.rules_after } in
        elim (Bool-cases round.more) [
          | inr over ↦
              unfold send_loop in
              simp (round.returns, over)
                (record { service = s'; returns = refl; done = round.over over })
          | inl more ↦
              subst Finished (sym (loop_step is_value (suc fuel) s round.returns more))
                (elim (round.again more) [
                  | inl down ↦ loop_lost fuel s' down
                  | inr less ↦
                      send_loop-Finished (suc fuel) s' round.sendable round.ready (omega arith)
                ])
        ]

    -- With a peer whose answers are plain, and no other thread in between, the loop ends by itself
    -- within two passes more than there is to send, without an error: then every queue is empty
    -- and no forced send is left, or the other side is no longer taken for reachable.
    pub handle_send-Finished :
        (fuel : ℕ) (s : Service V)
        → s.initialized ≡ true
        → AreSendable s.send_rules
        → IsReady s.pair
        → total s.send_rules s.shared.world + 1 < fuel
        → Finished (handle_send is_value (λ sh. sh) fuel s)
    unfolding handle_send
    handle_send-Finished fuel s started sendable ready enough =
        simp started (send_loop-Finished fuel s sendable ready enough)
