-- ===== src/Examples/Receiver.antt =====
-- Messages between a sender and a receiver.
use flux_mcf.Prelude.{
  ℕ, suc, ◌+◌, ◌≡◌, refl, String, string_eq, Option, some, [], ◌∷◌, Result, ok, raise, type_error,
  value_error,
}
use flux_mcf.Prelude.Dict.{Dict, insert, lookup}
use flux_mcf.Prelude.{assertion_error}
use flux_mcf.Remote.Configuration.{absent, null, present, rule_topics}
use flux_mcf.Remote.Receiver.{Listener, Sending, sends_value, type_registry}
use flux_mcf.Remote.Receiver.Protocol.{handled}

-- a listener that adds up what it is told
abbrev listener : Listener ℕ ℕ
listener = record {
  ping_received = λ p s. ok (suc s);
  pong_received = λ p s. ok (suc s);
  request_all_received = λ s. ok (suc s);
  blocked_value_injected_received = λ p s. ok (suc s);
  blocked_value_rejected_received = λ p s. raise type_error;
  value_received = λ p v id s. ok (s + v, "INJECTED");
}

abbrev types : Dict String (ℕ → Option ℕ → Result ℕ)
types = type_registry (("Int", λ a e. ok (suc a)) ∷ ("Text", λ a e. raise value_error) ∷ [])

abbrev sent_value : Sending ℕ ℕ
sent_value = sends_value "a" (record { id = 4; typename = "Int"; content = 5; extmem = some 6 })

-- after which the state is 7
handled-sent_value : handled listener types sent_value 1 ≡ ok (7, "INJECTED")
unfolding handled type_registry insert lookup
handled-sent_value = refl

-- The same topic is used for both, if one is absent. A local topic that is None is refused, also if
-- there is a remote one.
only_remote : rule_topics absent (present "r") ≡ ok ("r", some "r")
unfolding rule_topics
only_remote = refl

null_local : rule_topics null (present "r") ≡ raise assertion_error
unfolding rule_topics
null_local = refl
