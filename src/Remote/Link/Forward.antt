-- ===== src/Remote/Link/Forward.antt =====
-- A whole queue sent over a link whose other side answers every value in one way.
use flux_mcf.Prelude.{
  ℕ, zero, suc, ◌<◌, String, ◌≡◌, ◌∙◌, refl, sym, ap, Bool, true, false, not, ◌||◌, List, [], ◌∷◌,
  ◌++◌, append_assoc, append-nil, length, All, Result, ok, arith,
}
use flux_mcf.Prelude.Dict.{Dict}
use flux_mcf.ValueQueue.{empty}
use flux_mcf.Ports.{Shared}
use flux_mcf.Remote.Pair
use flux_mcf.Remote.Pair.{
  Pair, Message, value, SendResult, injected, rejected, check_for_response, after_result,
  send_value,
}
use flux_mcf.Remote.Service.{Service, SendRule}
use flux_mcf.Remote.Sending.{has_more, send_from, handle_send_single, send_round, send_loop}
use flux_mcf.Remote.Link.Front.{
  idle_rule, IsAnswered, values_under, Front, send_front-Front, empty_filled, empty_over,
}

module _ {V : Type 0} where
  module _ (is_value : V → Bool) where
    module _ (meanwhile : Shared V → Shared V) (taken : Bool) (key topic : String)
        (queue_length q : ℕ) where
      abbrev pub only_rule : Dict String SendRule
      only_rule = (key, idle_rule topic queue_length q) ∷ []

      single-Front :
          (v : V) (t : String) (l : List (V × String)) (s : Service V)
          → is_value v ≡ true
          → IsAnswered taken s.pair
          → (s.shared.world.queues q).queue ≡ (v, t) ∷ l
          → Front taken topic queue_length q v l s
              (handle_send_single is_value meanwhile (idle_rule topic queue_length q) s)
      unfolding handle_send_single send_from
      single-Front v t l s mcf answered h =
          rw (empty_filled q (v, t) l s.shared.world h)
            (send_front-Front is_value taken topic queue_length q v t l s mcf answered h)

      single_over :
          (s : Service V)
          → (s.shared.world.queues q).queue ≡ []
          → handle_send_single is_value meanwhile (idle_rule topic queue_length q) s
            ≡ ok (idle_rule topic queue_length q, s)
      unfolding handle_send_single send_from
      single_over s h = rw (empty_over q s.shared.world h)

      -- a pass over the rule, when its call returned
      round_lem :
          (s s' : Service V)
          → Pair.connected s.pair ≡ true
          → handle_send_single is_value meanwhile (idle_rule topic queue_length q) s
            ≡ ok (idle_rule topic queue_length q, s')
          → send_round is_value meanwhile only_rule s
            ≡ ok (only_rule, s', not (empty q s'.shared.world) || false)
      unfolding send_round has_more
      round_lem s s' up single = rw (up, single)

      pub record Emptied (l : List (V × String)) (s : Service V)
          (outcome : Result (Service V × Bool)) : Type 0 where
        pub after : Service V
        pub returns : outcome ≡ ok (after, true)
        pub emptied : (after.shared.world.queues q).queue ≡ []
        pub sent : after.pair.sent ≡ s.pair.sent ++ values_under topic l

      abbrev settled : Service V → Service V
      settled s = record s { send_rules = only_rule }

      loop_step :
          (fuel : ℕ) (s s' : Service V) (more : Bool)
          → s.send_rules ≡ only_rule
          → send_round is_value meanwhile only_rule s ≡ ok (only_rule, s', more)
          → send_loop is_value meanwhile (suc fuel) s ≡ elim more [
            | true ↦ send_loop is_value meanwhile fuel (settled s')
            | false ↦ ok (settled s', true)
          ]
      unfolding send_loop
      loop_step fuel s s' more rules round =
          let here = ap (λ d. send_round is_value meanwhile d s) rules ∙ round in simp here

      pub send_loop-Emptied :
          (l : List (V × String)) (fuel : ℕ) (s : Service V)
          → All (λ (v, t). is_value v ≡ true) l
          → length l < fuel
          → s.send_rules ≡ only_rule
          → IsAnswered taken s.pair
          → (s.shared.world.queues q).queue ≡ l
          → Emptied l s (send_loop is_value meanwhile fuel s)
      send_loop-Emptied l zero s mcf enough rules answered h = absurd (omega arith)
      send_loop-Emptied [] (suc fuel) s mcf enough rules answered h =
          let round = round_lem s s answered.up (single_over s h) in
          rw
            (
              loop_step fuel s s (not (empty q s.shared.world) || false) rules round,
              empty_over q s.shared.world h,
            )
            (record {
              after = settled s;
              returns = refl;
              emptied = h;
              sent = sym (append-nil s.pair.sent);
            })
      send_loop-Emptied ((v, t) ∷ []) (suc fuel) s (here, later) enough rules answered h =
          let front = single-Front v t [] s here answered h in
          let round = round_lem s front.after answered.up front.returns in
          rw
            (
              loop_step fuel s front.after (not (empty q front.after.shared.world) || false) rules
                  round,
              empty_over q front.after.shared.world front.left,
            )
            (record {
              after = settled front.after;
              returns = refl;
              emptied = front.left;
              sent = front.sent;
            })
      send_loop-Emptied ((v, t) ∷ x ∷ l) (suc fuel) s (here, later) enough rules answered h =
          let front = single-Front v t (x ∷ l) s here answered h in
          let round = round_lem s front.after answered.up front.returns in
          let rest =
            send_loop-Emptied (x ∷ l) fuel (settled front.after) later (omega arith) refl
              front.answered front.left in
          rw
            (
              loop_step fuel s front.after (not (empty q front.after.shared.world) || false) rules
                  round,
              empty_filled q x l front.after.shared.world front.left,
            )
            (record {
              after = rest.after;
              returns = rest.returns;
              emptied = rest.emptied;
              sent =
                  rest.sent
                  ∙ ap (λ m. m ++ values_under topic (x ∷ l)) front.sent
                  ∙ append_assoc s.pair.sent (value topic v ∷ []) (values_under topic (x ∷ l));
            })
