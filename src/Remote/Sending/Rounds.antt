-- ===== src/Remote/Sending/Rounds.antt =====
-- One pass of the loop of `_handle_send` over the rules.
use flux_mcf.Prelude.{
  ℕ, ◌+◌, ◌≤◌, String, ◌≡◌, ◌∙◌, ◌⊎◌, inl, inr, refl, Bool, true, false, ◌||◌, [], ◌∷◌, Bool-cases,
  Result, ok, arith,
}
use flux_mcf.Prelude.Dict.{Dict}
use flux_mcf.World.{World}
use flux_mcf.Remote.Pair
use flux_mcf.Remote.Pair.Status.{IsReady}
use flux_mcf.Remote.Service.{Service, SendRule}
use flux_mcf.Remote.Sending.{send_round}
use flux_mcf.Remote.Sending.Load.{IsSendable, entries_mono, load, Shrinks, has_more_lem}
use flux_mcf.Remote.Sending.Single.{handle_send_single-Handled}

or_true : (a b : Bool) → (a || b) ≡ true → b ≡ false → a ≡ true
or_true a b e f = ground arith

or_false : (a b : Bool) → (a || b) ≡ false → (a ≡ false) × (b ≡ false)
or_false a b e = ground arith

-- every rule may send
abbrev pub AreSendable : Dict String SendRule → Type 0
AreSendable [] = Unit
AreSendable ((k, r) ∷ rules) = IsSendable r × AreSendable rules

module _ {V : Type 0} where
  abbrev pub total : Dict String SendRule → World V → ℕ
  total [] w = 0
  total ((k, r) ∷ rules) w = load r w + total rules w

  pub total_mono :
      (rules : Dict String SendRule) (w w' : World V)
      → Shrinks w w'
      → total rules w' ≤ total rules w
  total_mono [] w w' h = omega arith
  total_mono ((k, r) ∷ rules) w w' h =
      omega (arith, entries_mono r.queue w w' h, total_mono rules w w' h)

  pub record Round (rules : Dict String SendRule) (s : Service V)
      (outcome : Result (Dict String SendRule × Service V × Bool)) : Type 0 where
    pub rules_after : Dict String SendRule
    pub service : Service V
    pub more : Bool
    pub returns : outcome ≡ ok (rules_after, service, more)
    pub ready : IsReady service.pair
    pub sendable : AreSendable rules_after
    pub same_start : service.initialized ≡ s.initialized
    pub shrinks : Shrinks s.shared.world service.shared.world
    pub lighter : total rules_after service.shared.world ≤ total rules s.shared.world
    pub stays_lost : Pair.connected s.pair ≡ false → Pair.connected service.pair ≡ false
    pub again :
        more ≡ true
        → (Pair.connected service.pair ≡ false)
          ⊎ (total rules_after service.shared.world + 1 ≤ total rules s.shared.world)
    pub over :
        more ≡ false
        → (Pair.connected service.pair ≡ false) ⊎ (total rules_after service.shared.world ≡ 0)

  module _ (is_value : V → Bool) where
    pub send_round-Round :
        (rules : Dict String SendRule) (s : Service V)
        → AreSendable rules
        → IsReady s.pair
        → Round rules s (send_round is_value (λ sh. sh) rules s)
    unfolding send_round
    send_round-Round [] s sendable ready = record {
      rules_after = [];
      service = s;
      more = false;
      returns = refl;
      ready = ready;
      sendable = tt;
      same_start = refl;
      shrinks = λ k. omega arith;
      lighter = omega arith;
      stays_lost = λ h. h;
      again = λ e. cc;
      over = λ e. inr refl;
    }
    send_round-Round ((k, r) ∷ rules) s sendable ready = elim (Bool-cases (Pair.connected s.pair)) [
      | inr down ↦ rw down (record {
        rules_after = (k, r) ∷ rules;
        service = s;
        more = false;
        returns = refl;
        ready = ready;
        sendable = sendable;
        same_start = refl;
        shrinks = λ j. omega arith;
        lighter = omega arith;
        stays_lost = λ h. h;
        again = λ e. cc;
        over = λ e. inl down;
      })
      | inl up ↦
          let h = handle_send_single-Handled is_value r s sendable.0 ready in
          let (here, tells, some_left, none_left) =
            has_more_lem h.rule h.service.shared.world h.sendable in
          let rest = send_round-Round rules h.service sendable.1 h.ready in
          let before = total_mono rules s.shared.world h.service.shared.world h.shrinks in
          let after =
            entries_mono h.rule.queue h.service.shared.world rest.service.shared.world
              rest.shrinks in
          simp (up, h.returns, tells, rest.returns)
            (record {
              rules_after = (k, h.rule) ∷ rest.rules_after;
              service = rest.service;
              more = here || rest.more;
              returns = refl;
              ready = rest.ready;
              sendable = (h.sendable, rest.sendable);
              same_start = rest.same_start ∙ h.same_start;
              shrinks = λ j. omega (arith, h.shrinks j, rest.shrinks j);
              lighter = omega (arith, h.lighter, rest.lighter);
              stays_lost = λ down. cc;
              again = λ e. elim (Bool-cases rest.more) [
                | inl m ↦ elim (rest.again m) [
                  | inl down ↦ inl down
                  | inr less ↦ inr (omega (arith, h.lighter))
                ]
                | inr m ↦ elim h.progress [
                  | inl down ↦ inl (rest.stays_lost down)
                  | inr (inl less) ↦ inr (omega (arith, rest.lighter))
                  | inr (inr nothing) ↦
                      absurd (omega (arith, some_left (or_true here rest.more e m)))
                ]
              ];
              over = λ e. elim (rest.over (or_false here rest.more e).1) [
                | inl down ↦ inl down
                | inr nothing ↦ inr (omega (arith, none_left (or_false here rest.more e).0))
              ];
            })
    ]
