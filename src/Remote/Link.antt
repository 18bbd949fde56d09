-- ===== src/Remote/Link.antt =====
-- The receiving end of a link between two remote services: `RemotePair` of
-- mcf_py/mcf_remote/remote_service.py as the listener of the receiver, with `RemoteService` behind it.
-- `serialize` is that of the generated value types, `inject_id` that of values; a freshness that is
-- no number, which no sender sends, is left to `odd_ping`.
pub mod Expected
pub mod OneValue
pub mod Arrival
pub mod Front
pub mod Forward
pub mod Transfer
use flux_mcf.Prelude.{
  ℕ, String, Bool, Option, none, some, List, [], ◌∷◌, ◌++◌, Result, ok, raise, type_error, ◌>>=◌,
}
use flux_mcf.Prelude.Dict.{Dict}
use flux_mcf.Remote.Pair
use flux_mcf.Remote.Pair.{
  Message, value, ping, pong, send_all, value_injected, value_rejected, pong_arrived, after_receive,
}
use flux_mcf.Remote.Receiver.{
  Packable, text, number, Serialized, Sending, sends_value, sends_ping, sends_pong,
  sends_request_all, sends_injected, sends_rejected, Listener, Exchange, messages, receive,
}
use flux_mcf.Remote.Service
use flux_mcf.Remote.Service.{
  Service, Reception, reception_rejected, reception_injected, value_received,
}

-- the strings of value_received
unfoldable pub response : Reception → String
response reception_rejected = "REJECTED"
response reception_injected = "INJECTED"

-- the call of the sender that a message of the pair stands for
unfoldable pub as_sending : {V A B : Type 0} → (V → Serialized A B) → Message V → Sending A B
as_sending serialize (value topic v) = sends_value topic (serialize v)
as_sending serialize (ping f) = sends_ping f
as_sending serialize (pong f) = sends_pong f
as_sending serialize send_all = sends_request_all
as_sending serialize (value_injected topic) = sends_injected topic
as_sending serialize (value_rejected topic) = sends_rejected topic

module _ {V : Type 0} where
  unfoldable pub answered_with : Result (Service V × Reception) → Result (Service V × String)
  unfolding response
  answered_with m = do (s, r) ← m; ok (s, response r)

  -- RemotePair.value_received; a topic that is no string has no rule
  unfoldable pub pair_value_received : Option Packable → V → Service V → Result (Service V × String)
  unfolding answered_with
  pair_value_received none v s = ok (s, "REJECTED")
  pair_value_received (some (number n)) v s = ok (s, "REJECTED")
  pair_value_received (some (text topic)) v s = answered_with (value_received topic v s)

  -- RemotePair.pong_received; what is no number differs from every freshness
  unfoldable pub pair_pong_received : ℕ → Option Packable → Service V → Service V
  pair_pong_received now none s = s
  pair_pong_received now (some (text t)) s = s
  pair_pong_received now (some (number f)) s = record s { pair = pong_arrived now f s.pair }

module _ {V A B : Type 0} (inject_id : ℕ → V → V)
    (odd_ping : Option Packable → Service V → Result (Service V))
    (types : Dict String (A → Option B → Result V)) where
  unfoldable pub pair_ping_received : Option Packable → Service V → Result (Service V)
  pair_ping_received none s = odd_ping none s
  pair_ping_received (some (text t)) s = odd_ping (some (text t)) s
  pair_ping_received (some (number f)) s = ok (Service.ping_received f s)

  -- The methods for the reports take no topic, so that a call with one is a TypeError.
  unfoldable pub pair_listener : ℕ → Listener V (Service V)
  unfolding pair_ping_received pair_pong_received pair_value_received
  pair_listener now = record {
    ping_received = λ f s. pair_ping_received f s;
    pong_received = λ f s. ok (pair_pong_received now f s);
    request_all_received = λ s. ok (Service.send_all s);
    blocked_value_injected_received = λ topic s. raise type_error;
    blocked_value_rejected_received = λ topic s. raise type_error;
    value_received = λ topic v id s. pair_value_received topic (inject_id id v) s;
  }

  abbrev pub end_receive : Exchange A B (Service V) → Bool → Exchange A B (Service V)
  end_receive x success =
      let s = x.state in record x { state = record s { pair = after_receive success s.pair } }

  -- RemotePair.receive, at time `now`
  unfoldable pub pair_receive :
      ℕ → Exchange A B (Service V) → Result (Exchange A B (Service V) × Bool)
  unfolding pair_listener
  pair_receive now x = do
    (x', success) ← receive (some (pair_listener now)) types x
    ok (end_receive x' success, success)

  module _ (serialize : V → Serialized A B) where
    -- one turn of the loop of _receive_thread_main, with a message of the other side
    unfoldable pub receive_message : ℕ → Message V → Service V → Result (Service V × List String)
    unfolding pair_receive
    receive_message now m s = do
      (x, success) ←
          pair_receive now
            (record { frames = messages (as_sending serialize m); responses = []; state = s })
      ok (x.state, x.responses)

    -- the loop, over the messages of the other side and the times at which they come
    unfoldable pub receive_all : List (ℕ × Message V) → Service V → Result (Service V × List String)
    unfolding receive_message
    receive_all [] s = ok (s, [])
    receive_all ((now, m) ∷ ms) s = do
      (s', rs) ← receive_message now m s
      (s'', rs') ← receive_all ms s'
      ok (s'', rs ++ rs')
