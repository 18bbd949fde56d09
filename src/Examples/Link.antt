-- ===== src/Examples/Link.antt =====
-- Two services over a link.
use flux_mcf.Prelude.{
  ℕ, String, ◌≡◌, Option, string_eq, some, none, [], ◌∷◌, refl, Result, ok, raise, type_error,
}
use flux_mcf.Prelude.Dict.{Dict, lookup, insert}
use flux_mcf.Remote.Pair.{Pair, reply, injected, value, ping}
use flux_mcf.Remote.Receiver.{Packable, Serialized, type_registry}
use flux_mcf.Remote.Service.{Service}
use flux_mcf.Remote.Link.{receive_all}
use flux_mcf.Remote.Link.OneValue.{Served}
use flux_mcf.Remote.Link.Arrival.{receive_all-Served}
use flux_mcf.Remote.Link.Front.{idle_rule}
use flux_mcf.Examples.Samples.{pair, service}

abbrev types : Dict String (ℕ → Option ℕ → Result ℕ)
types = type_registry (("Int", λ a e. ok a) ∷ [])

abbrev serialize : ℕ → Serialized ℕ ℕ
serialize n = record { id = 4; typename = "Int"; content = n; extmem = none }

abbrev inject_id : ℕ → ℕ → ℕ
inject_id id n = n

abbrev odd_ping : Option Packable → Service ℕ → Result (Service ℕ)
odd_ping p s = raise type_error

abbrev willing : Pair ℕ
willing = record pair { answers = λ n. reply (some injected) }

-- queue 2, which holds the value 7, is sent under the local topic "r", and not under "far"
abbrev sender : Service ℕ
sender = record service { send_rules = ("far", idle_rule "r" 0 2) ∷ []; pair = willing }

registered : (n : ℕ) → lookup (serialize n).typename types ≡ some (λ a e. ok a)
unfolding type_registry lookup insert
registered n = refl

receive_all-Served_example :
    Served service ((5, value "r" 8) ∷ (6, ping 3) ∷ (7, value "x" 9) ∷ []) (
      receive_all inject_id odd_ping types serialize
        ((5, value "r" 8) ∷ (6, ping 3) ∷ (7, value "x" 9) ∷ [])
        service)
receive_all-Served_example =
    receive_all-Served inject_id odd_ping types serialize
      ((5, value "r" 8) ∷ (6, ping 3) ∷ (7, value "x" 9) ∷ []) service
      (
        ((λ a e. ok a), registered 8, 8, refl, refl),
        (tt, (((λ a e. ok a), registered 9, 9, refl, refl), tt)),
      )
      refl (refl, tt)
