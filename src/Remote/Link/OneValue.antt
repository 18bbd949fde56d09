-- ===== src/Remote/Link/OneValue.antt =====
-- A value that arrives at a remote service that has been connected and has nothing pending.
use flux_mcf.Prelude.{
  ℕ, String, ◌≡◌, ◌∙◌, refl, sym, Bool, true, false, Option, none, some, List, [], ◌∷◌, ◌++◌,
  append-nil, string_eq, Result, ok, raise, ◌>>=◌, Option-cases, inl, inr, arith,
}
use flux_mcf.Prelude.Dict.{Dict, lookup}
use flux_mcf.ValueStore.{get_value}
use flux_mcf.ValueStore.Values.{get_value-write_value}
use flux_mcf.Remote.Pair.{Pair, Message, value, value_injected, value_rejected, after_receive}
use flux_mcf.Remote.Receiver.{Packable, Serialized, Listener, Exchange}
use flux_mcf.Remote.Receiver.Protocol.{handled, answered, receive-messages}
use flux_mcf.Remote.Service.{Service, ReceiveRule, value_received}
use flux_mcf.Remote.Service.Arrivals.{written, component_set_value_lem}
use flux_mcf.Remote.Link.Expected.{IsIdle, has_rule, pending-lookup, delivered, replies, pinged}
use flux_mcf.Remote.Link.{
  as_sending, answered_with, pair_value_received, pair_listener, end_receive, pair_receive,
  receive_message,
}

module _ {V : Type 0} where
  -- the state after some messages
  pub record Served (s : Service V) (ms : List (ℕ × Message V))
      (outcome : Result (Service V × List String)) : Type 0 where
    pub after : Service V
    pub returns : outcome ≡ ok (after, replies s.receive_rules ms)
    pub same_rules : after.receive_rules ≡ s.receive_rules
    pub same_start : after.initialized ≡ s.initialized
    pub values :
        (j : String)
        → get_value j after.shared.store
          ≡ delivered s.receive_rules ms (λ k. get_value k s.shared.store) j
    pub pongs : after.pair.pong_queue ≡ s.pair.pong_queue ++ pinged ms

  pub pongs-after_receive : (b : Bool) (p : Pair V) → (after_receive b p).pong_queue ≡ p.pong_queue
  unfolding after_receive
  pongs-after_receive b p = ground arith

  refuses :
      (topic : String) (v : V) (s : Service V)
      → s.initialized ≡ true
      → lookup topic s.receive_rules ≡ none
      → answered_with (value_received topic v s) ≡ ok (s, "REJECTED")
  unfolding answered_with value_received
  refuses topic v s started none_there = ground arith

  accepts :
      (topic : String) (v : V) (s : Service V) (r : ReceiveRule V)
      → s.initialized ≡ true
      → lookup topic s.receive_rules ≡ some r
      → r.pending_value ≡ none
      → answered_with (value_received topic v s)
        ≡ ok (record s { shared = written s.generator topic v [] s.shared }, "INJECTED")
  unfolding answered_with value_received
  accepts topic v s r started there idle =
      ground (arith, component_set_value_lem s.generator topic v [] s.shared)

module _ {V A B : Type 0} (inject_id : ℕ → V → V)
    (odd_ping : Option Packable → Service V → Result (Service V))
    (types : Dict String (A → Option B → Result V)) (serialize : V → Serialized A B) where
  -- Values of a registered type come back from what they are serialized to. There are no reports.
  abbrev pub IsCarried : Message V → Type 0
  IsCarried (value topic v) =
      (deserialize : A → Option B → Result V) × (lookup (serialize v).typename types
        ≡ some deserialize)
      × (w : V) × (deserialize (serialize v).content (serialize v).extmem ≡ ok w)
      × (inject_id (serialize v).id w ≡ v)
  IsCarried (value_injected topic) = ⊥
  IsCarried (value_rejected topic) = ⊥
  IsCarried _ = Unit

  abbrev settled : Service V × String → Result (Service V × List String)
  settled (s, r) = ok (record s { pair = after_receive true s.pair }, r ∷ [])

  ends :
      (l : Listener V (Service V)) (o : Result (Service V × String))
      → (((o >>= answered l types) >>= λ (e : Exchange A B (Service V) × Bool).
            ok (end_receive inject_id odd_ping types e.0 e.1, e.1))
          >>= λ (e : Exchange A B (Service V) × Bool). ok (e.0.state, e.0.responses))
        ≡ (o >>= settled)
  ends l (ok (s, r)) = refl
  ends l (raise e) = refl

  pub receive_message_lem :
      (now : ℕ) (m : Message V) (s : Service V)
      → receive_message inject_id odd_ping types serialize now m s ≡ (
          handled (pair_listener inject_id odd_ping types now) types (as_sending serialize m) s
          >>= settled)
  unfolding receive_message pair_receive
  receive_message_lem now m s =
      let l = pair_listener inject_id odd_ping types now in
      rw (receive-messages l types (as_sending serialize m) s)
        (ends l (handled l types (as_sending serialize m) s))

  abbrev pub Serving : ℕ → Message V → Service V → Type 0
  Serving now m s =
      Served s ((now, m) ∷ []) (receive_message inject_id odd_ping types serialize now m s)

  abbrev pub handling : ℕ → Message V → Service V → Result (Service V × String)
  handling now m s =
      handled (pair_listener inject_id odd_ping types now) types (as_sending serialize m) s

  -- a value of a topic without a rule
  refused-Served :
      (now : ℕ) (topic : String) (v : V) (s : Service V)
      → handling now (value topic v) s ≡ ok (s, "REJECTED")
      → has_rule topic s.receive_rules ≡ false
      → Serving now (value topic v) s
  unfolding delivered replies pinged
  refused-Served now topic v s calls no_rule =
      let here = receive_message_lem now (value topic v) s in
      rw (here, calls)
        (record {
          after = record s { pair = after_receive true s.pair };
          returns = ground arith;
          same_rules = refl;
          same_start = refl;
          values = λ j. rw no_rule;
          pongs = pongs-after_receive true s.pair ∙ sym (append-nil s.pair.pong_queue);
        })

  accepted-Served :
      (now : ℕ) (topic : String) (v : V) (s : Service V)
      → handling now (value topic v) s
        ≡ ok (record s { shared = written s.generator topic v [] s.shared }, "INJECTED")
      → has_rule topic s.receive_rules ≡ true
      → Serving now (value topic v) s
  unfolding delivered replies pinged
  accepted-Served now topic v s calls there =
      let here = receive_message_lem now (value topic v) s in
      rw (here, calls)
        (record {
          after = record s {
            shared = written s.generator topic v [] s.shared;
            pair = after_receive true s.pair;
          };
          returns = ground arith;
          same_rules = refl;
          same_start = refl;
          values = λ j. rw there (get_value-write_value topic j v s.shared.store);
          pongs = pongs-after_receive true s.pair ∙ sym (append-nil s.pair.pong_queue);
        })

  -- what the listener does with a value that is carried
  handling-value :
      (now : ℕ) (topic : String) (v : V) (s : Service V)
      → IsCarried (value topic v)
      → handling now (value topic v) s ≡ answered_with (value_received topic v s)
  unfolding handled as_sending pair_listener pair_value_received
  handling-value now topic v s (d, there, w, gives, same) = rw (there, handled, gives, same)

  pub value-Served :
      (now : ℕ) (topic : String) (v : V) (s : Service V)
      → IsCarried (value topic v)
      → s.initialized ≡ true
      → IsIdle s.receive_rules
      → Serving now (value topic v) s
  unfolding has_rule
  value-Served now topic v s carried started idle =
      elim (Option-cases (lookup topic s.receive_rules)) [
        | inl none_there ↦
            refused-Served now topic v s
              (handling-value now topic v s carried ∙ refuses topic v s started none_there)
              (rw (none_there, has_rule))
        | inr (r, there) ↦
            accepted-Served now topic v s
              (handling-value now topic v s carried
                ∙ accepts topic v s r started there
                    (pending-lookup topic s.receive_rules r idle there))
              (rw (there, has_rule))
      ]
