-- ===== src/Remote/Sending/Load.antt =====
-- What a send rule has left to send, and what one call for a rule may do to it.
use flux_mcf.Prelude.{
  ℕ, ◌+◌, ◌≤◌, ◌<◌, ◌≡◌, ◌⊎◌, inl, inr, ap, Bool, true, false, not, Option, none, some, length,
  Bool-cases, if◌then◌else◌, leb, Result, ok, arith,
}
use flux_mcf.World.{World}
use flux_mcf.ValueQueue.{empty}
use flux_mcf.Remote.Pair
use flux_mcf.Remote.Pair.{Pair, SendResult, injected, received, rejected, timed_out, other}
use flux_mcf.Remote.Pair.Status.{IsReady}
use flux_mcf.Remote.Service.{Service, SendRule}
use flux_mcf.Remote.Sending.{has_more}

-- a rule whose queue is there and which waits for no report
pub record IsSendable (r : SendRule) : Type 0 where
  pub idle : r.send_pending ≡ false
  pub reference : ℕ
  pub has_queue : r.queue ≡ some reference

abbrev pub unforced : SendRule → SendRule
unforced r = record r { forced_send = false }

module _ {V : Type 0} where
  abbrev pub entries : Option ℕ → World V → ℕ
  entries none w = 0
  entries (some q) w = length (w.queues q).queue

  -- what a rule has left to send: its queue, and a forced send
  abbrev pub load : SendRule → World V → ℕ
  load r w = entries r.queue w + (if r.forced_send then 1 else 0)

  -- no queue grows
  abbrev pub Shrinks : World V → World V → Type 0
  Shrinks w w' = (k : ℕ) → length (w'.queues k).queue ≤ length (w.queues k).queue

  pub record Handled (r : SendRule) (s : Service V) (outcome : Result (SendRule × Service V))
      : Type 0 where
    pub rule : SendRule
    pub service : Service V
    pub returns : outcome ≡ ok (rule, service)
    pub ready : IsReady service.pair
    pub sendable : IsSendable rule
    pub same_start : service.initialized ≡ s.initialized
    pub shrinks : Shrinks s.shared.world service.shared.world
    pub lighter : load rule service.shared.world ≤ load r s.shared.world
    pub progress :
        (Pair.connected service.pair ≡ false)
        ⊎ (load rule service.shared.world + 1 ≤ load r s.shared.world)
        ⊎ (load rule service.shared.world ≡ 0)

  pub entries_at :
      (r : SendRule) (q : ℕ) (w : World V)
      → r.queue ≡ some q
      → entries r.queue w ≡ length (w.queues q).queue
  entries_at r q w h = ap (λ (o : Option ℕ). entries o w) h

  pub entries_mono : (o : Option ℕ) (w w' : World V) → Shrinks w w' → entries o w' ≤ entries o w
  entries_mono none w w' h = omega arith
  entries_mono (some q) w w' h = h q

  pub has_more_lem :
      (r : SendRule) (w : World V)
      → IsSendable r
      → (b : Bool) × (has_more r w ≡ ok b) × (b ≡ true → 0 < load r w) × (b ≡ false → load r w ≡ 0)
  unfolding has_more empty
  has_more_lem r w h = elim (Bool-cases r.forced_send) [
    | inl forced ↦ (true, ground arith, λ e. ground arith, λ e. absurd (ground arith))
    | inr free ↦
        let q = h.reference in
        let at_q = entries_at r q w h.has_queue in
        (
          not (leb (length (w.queues q).queue) 0),
          ground arith,
          λ e. ground arith,
          λ e. ground arith,
        )
  ]
