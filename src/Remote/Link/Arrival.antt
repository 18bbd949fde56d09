-- ===== src/Remote/Link/Arrival.antt =====
-- What arrives at a remote service that has been connected and has nothing pending.
use flux_mcf.Prelude.{
  ℕ, String, ◌≡◌, ◌∙◌, refl, sym, ap, fun_ext, true, Option, List, [], ◌∷◌, ◌++◌, append_assoc,
  append-nil, All, string_eq, Result, ok,
}
use flux_mcf.Prelude.Dict.{Dict}
use flux_mcf.ValueStore.{get_value}
use flux_mcf.Remote.Pair.{
  Pair, Message, value, ping, pong, send_all, value_injected, value_rejected, pong_arrived,
  after_receive, ping_received,
}
use flux_mcf.Remote.Receiver.{Packable, Serialized}
use flux_mcf.Remote.Receiver.Protocol.{handled}
use flux_mcf.Remote.Service
use flux_mcf.Remote.Service.{
  Service, ReceiveRule, reception_injected, reception_rejected, value_received,
}
use flux_mcf.Remote.Link.Expected.{
  IsIdle, delivered, replies, pinged, delivered-cons, delivered_then, replies-cons, pinged-cons,
}
use flux_mcf.Remote.Link.{
  as_sending, pair_pong_received, pair_ping_received, pair_listener, receive_all,
}
use flux_mcf.Remote.Link.OneValue.{
  Served, pongs-after_receive, IsCarried, receive_message_lem, Serving, handling, value-Served,
}

module _ {V A B : Type 0} (inject_id : ℕ → V → V)
    (odd_ping : Option Packable → Service V → Result (Service V))
    (types : Dict String (A → Option B → Result V)) (serialize : V → Serialized A B) where
  pongs-pong : (now f : ℕ) (p : Pair V) → (pong_arrived now f p).pong_queue ≡ p.pong_queue
  unfolding pong_arrived
  pongs-pong now f p = refl

  -- a message that leaves the values alone
  quiet-Served :
      (now : ℕ) (m : Message V) (s s' : Service V)
      → handling inject_id odd_ping types serialize now m s ≡ ok (s', "")
      → replies s.receive_rules ((now, m) ∷ []) ≡ "" ∷ []
      → s'.receive_rules ≡ s.receive_rules
      → s'.initialized ≡ s.initialized
      → ((j : String)
          → get_value j s'.shared.store
            ≡ delivered s.receive_rules ((now, m) ∷ []) (λ k. get_value k s.shared.store) j)
      → s'.pair.pong_queue ≡ s.pair.pong_queue ++ pinged ((now, m) ∷ [])
      → Serving inject_id odd_ping types serialize now m s
  quiet-Served now m s s' calls silent same_rules same_start values pongs =
      rw (receive_message_lem inject_id odd_ping types serialize now m s, calls)
        (record {
          after = record s' { pair = after_receive true s'.pair };
          returns = rw silent;
          same_rules = same_rules;
          same_start = same_start;
          values = values;
          pongs = pongs-after_receive true s'.pair ∙ pongs;
        })

  message-Served :
      (now : ℕ) (m : Message V) (s : Service V)
      → IsCarried inject_id odd_ping types serialize m
      → s.initialized ≡ true
      → IsIdle s.receive_rules
      → Serving inject_id odd_ping types serialize now m s
  unfolding handled as_sending pair_listener pair_ping_received pair_pong_received pinged delivered
      replies Service.ping_received Service.send_all ping_received
  message-Served now (value topic v) s carried started idle =
      value-Served inject_id odd_ping types serialize now topic v s carried started idle
  message-Served now (ping f) s carried started idle =
      quiet-Served now (ping f) s (Service.ping_received f s) refl refl refl refl (λ j. refl) refl
  message-Served now (pong f) s carried started idle =
      quiet-Served now (pong f) s (record s { pair = pong_arrived now f s.pair }) refl refl refl
        refl (λ j. refl) (pongs-pong now f s.pair ∙ sym (append-nil s.pair.pong_queue))
  message-Served now send_all s carried started idle =
      quiet-Served now send_all s (Service.send_all s) refl refl refl refl (λ j. refl)
        (sym (append-nil s.pair.pong_queue))
  message-Served now (value_injected t) s carried started idle = absurd carried
  message-Served now (value_rejected t) s carried started idle = absurd carried

  -- When a connected service without pending values receives any messages of the other side but
  -- reports, whose values have registered types and come back from their serialized form, none of them raises an error and each
  -- is answered once: a value with INJECTED if its topic has a receive rule and with REJECTED
  -- otherwise, and all else with an empty response. Afterwards every topic reads as the last value that came under it if
  -- it has a rule, and as before otherwise, and the numbers of the pings are queued in order to be answered.
  pub receive_all-Served :
      (ms : List (ℕ × Message V)) (s : Service V)
      → All (λ (now, m). IsCarried inject_id odd_ping types serialize m) ms
      → s.initialized ≡ true
      → IsIdle s.receive_rules
      → Served s ms (receive_all inject_id odd_ping types serialize ms s)
  unfolding receive_all
  receive_all-Served [] s carried started idle = record {
    after = s;
    returns = unfold replies in refl;
    same_rules = refl;
    same_start = refl;
    values = λ j. unfold delivered in refl;
    pongs = unfold pinged in sym (append-nil s.pair.pong_queue);
  }
  receive_all-Served ((now, m) ∷ ms) s (here, later) started idle =
      let one = message-Served now m s here started idle in
      let rest =
        receive_all-Served ms one.after later (one.same_start ∙ started) (rw one.same_rules idle) in
      record {
        after = rest.after;
        returns =
            rw (one.returns, rest.returns)
              (rw (one.same_rules, replies-cons s.receive_rules now m ms));
        same_rules = rest.same_rules ∙ one.same_rules;
        same_start = rest.same_start ∙ one.same_start;
        values = λ j.
            rest.values j
            ∙ delivered_then ms one.same_rules (fun_ext one.values) j
            ∙ ap (λ (c : String → Option V). c j)
                (sym (delivered-cons s.receive_rules now m ms (λ k. get_value k s.shared.store)));
        pongs =
            rest.pongs
            ∙ ap (λ l. l ++ pinged ms) one.pongs
            ∙ append_assoc s.pair.pong_queue (pinged ((now, m) ∷ [])) (pinged ms)
            ∙ ap (λ l. s.pair.pong_queue ++ l) (sym (pinged-cons now m ms));
      }
