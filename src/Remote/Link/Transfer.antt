-- ===== src/Remote/Link/Transfer.antt =====
-- From the queue of one remote service into the value store of another.
use flux_mcf.Prelude.{
  ℕ, suc, String, ◌≡◌, Bool, true, Option, some, List, [], ◌∷◌, ◌++◌, map, ◌==◌, string_eq,
  if◌then◌else◌, Result, ok,
}
use flux_mcf.Prelude.Dict.{Dict}
use flux_mcf.ValueStore.{get_value}
use flux_mcf.Ports.{Shared}
use flux_mcf.Remote.Pair.{Message}
use flux_mcf.Remote.Receiver.{Packable, Serialized}
use flux_mcf.Remote.Service.{Service}
use flux_mcf.Remote.Sending.{handle_send}
use flux_mcf.Remote.Link.{receive_all}
use flux_mcf.Remote.Link.Expected.{has_rule}

abbrev pub reply_to : Bool → String
reply_to there = if there then "INJECTED" else "REJECTED"

module _ {V : Type 0} where
  -- messages at the times when they are received
  unfoldable pub stamp : (ℕ → ℕ) → List (Message V) → List (ℕ × Message V)
  stamp clock [] = []
  stamp clock (m ∷ ms) = (clock 0, m) ∷ stamp (λ n. clock (suc n)) ms

  -- the last value of a queue, or what there was before
  abbrev pub latest : List (V × String) → Option V → Option V
  latest [] old = old
  latest ((v, t) ∷ l) old = latest l (some v)

module _ {V A B : Type 0} (is_value : V → Bool) (meanwhile : Shared V → Shared V)
    (inject_id : ℕ → V → V) (odd_ping : Option Packable → Service V → Result (Service V))
    (types : Dict String (A → Option B → Result V)) (serialize : V → Serialized A B) where
  -- what a sending service `a` and a receiving one `b` have come to
  pub record Transferred (topic : String) (q fuel : ℕ) (clock : ℕ → ℕ) (l : List (V × String))
      (a b : Service V) : Type 0 where
    pub sender : Service V
    pub receiver : Service V
    pub sends : handle_send is_value meanwhile fuel a ≡ ok (sender, true)
    pub emptied : (sender.shared.world.queues q).queue ≡ []
    pub messages : List (Message V)
    pub sent : sender.pair.sent ≡ a.pair.sent ++ messages
    pub receives :
        receive_all inject_id odd_ping types serialize (stamp clock messages) b
        ≡ ok (receiver, map (λ x. reply_to (has_rule topic b.receive_rules)) l)
    pub values :
        (j : String)
        → get_value j receiver.shared.store ≡ (
            if has_rule topic b.receive_rules
            then (if topic == j
                then latest l (get_value j b.shared.store)
                else get_value j b.shared.store)
            else get_value j b.shared.store)
