-- ===== src/Remote/Sending.antt =====
-- The sending part of `RemoteService` in mcf_py/mcf_remote/remote_service.py: `_handle_send`,
-- `_handle_send_single`, `_handle_injected_rejected` and `_handle_triggers`. Values that are no MCF
-- values fail `is_value`. What other threads do to the shared state between the read of a value and
-- the second test of the queue is `meanwhile`.
pub mod Load
pub mod Single
pub mod Rounds
pub mod Finish
pub mod Livelock
use flux_mcf.Prelude.{
  ℕ, zero, suc, String, Bool, true, false, not, ◌||◌, Option, none, some, List, [], ◌∷◌,
  if◌then◌else◌, Result, ok, raise, attribute_error, ◌>>=◌,
}
use flux_mcf.Prelude.Dict.{Dict}
use flux_mcf.World.{World}
use flux_mcf.ValueQueue.{empty, peek, pop}
use flux_mcf.Ports.{Shared, component_get_value}
use flux_mcf.Remote.Pair
use flux_mcf.Remote.Pair.{Pair, SendResult, injected, received, rejected, timed_out, other}
use flux_mcf.Remote.Service.{Service, SendRule, observe_state_change}

-- `snd_rule.state.forced_send or not snd_rule.queue.empty`
unfoldable pub has_more : {V : Type 0} → SendRule → World V → Result Bool
has_more r w =
    if r.forced_send
    then ok true
    else elim r.queue [ none ↦ raise attribute_error | some q ↦ ok (not (empty q w)) ]

module _ {V : Type 0} (is_value : V → Bool) where
  abbrev pub put_world : World V → Service V → Service V
  put_world w s = record s { shared = record s.shared { world = w } }

  -- after a send of the front of the queue
  unfoldable pub after_queue_send :
      SendResult → ℕ → SendRule → Service V → Result (SendRule × Service V)
  after_queue_send injected q r s =
      let (w, v) = pop q s.shared.world in
      do _ ← v; ok (record r { forced_send = false }, put_world w s)
  after_queue_send rejected q r s =
      let (w, v) = pop q s.shared.world in
      do _ ← v; ok (record r { forced_send = false }, put_world w s)
  after_queue_send received q r s =
      let (w, v) = pop q s.shared.world in
      do _ ← v; ok (record r { forced_send = false; send_pending = true }, put_world w s)
  after_queue_send _ q r s = ok (r, s)

  -- after a send of the latest value
  unfoldable pub after_forced_send : SendResult → SendRule → SendRule
  after_forced_send received r = record r { forced_send = false; send_pending = true }
  after_forced_send injected r = record r { forced_send = false }
  after_forced_send rejected r = record r { forced_send = false }
  after_forced_send _ r = r

  -- the branch that sends from the queue
  unfoldable pub send_front : ℕ → SendRule → Service V → Result (SendRule × Service V)
  unfolding after_queue_send
  send_front q r s =
      let (w, front) = peek q s.shared.world in
      do
        v ← front
        (p, result) ← Pair.send_value is_value r.topic v s.pair
        after_queue_send result q r (record (put_world w s) { pair = p })

  -- the latest value, if there is one
  unfoldable pub send_latest : Option V → SendRule → Service V → Result (SendRule × Service V)
  unfolding after_forced_send
  send_latest none r s = ok (record r { forced_send = false }, s)
  send_latest (some v) r s = do
    (p, result) ← Pair.send_value is_value r.topic v s.pair
    ok (after_forced_send result r, record s { pair = p })

  module _ (meanwhile : Shared V → Shared V) where
    -- the branch of a forced send
    unfoldable pub send_forced : ℕ → SendRule → Service V → Result (SendRule × Service V)
    unfolding send_latest
    send_forced q r s =
        let (sh, v) = component_get_value s.generator r.topic s.shared in
        let s' = record s { shared = meanwhile sh } in
        if not (empty q s'.shared.world)
        then ok (record r { forced_send = false }, s')
        else send_latest v r s'

    unfoldable pub send_from : Option ℕ → SendRule → Service V → Result (SendRule × Service V)
    unfolding send_front send_forced
    send_from none r s = ok (r, s)
    send_from (some q) r s =
        if not (empty q s.shared.world)
        then send_front q r s
        else if r.forced_send
        then send_forced q r s
        else ok (r, s)

    -- _handle_send_single
    unfoldable pub handle_send_single : SendRule → Service V → Result (SendRule × Service V)
    unfolding send_from
    handle_send_single r s = if r.send_pending then ok (r, s) else send_from r.queue r s

    -- The `for` loop of _handle_send: the rules after it, and `more_values_to_send`.
    unfoldable pub send_round :
        Dict String SendRule → Service V → Result (Dict String SendRule × Service V × Bool)
    unfolding handle_send_single has_more
    send_round [] s = ok ([], s, false)
    send_round ((k, r) ∷ rules) s =
        let rest = λ (r' : SendRule) (s' : Service V). (do
          here ← has_more r' s'.shared.world
          (rules', s'', more) ← send_round rules s'
          ok ((k, r') ∷ rules', s'', here || more)) in
        if Pair.connected s.pair
        then (do (r', s') ← handle_send_single r s; rest r' s')
        else ok ((k, r) ∷ rules, s, false)

    -- The `while` loop, on fuel. The Boolean says whether it ended by itself.
    unfoldable pub send_loop : ℕ → Service V → Result (Service V × Bool)
    unfolding send_round
    send_loop zero s = ok (s, false)
    send_loop (suc fuel) s = do
      (rules, s', more) ← send_round s.send_rules s
      let s'' = record s' { send_rules = rules }
      elim more [ true ↦ send_loop fuel s'' | false ↦ ok (s'', true) ]

    -- _handle_send
    unfoldable pub handle_send : ℕ → Service V → Result (Service V × Bool)
    unfolding send_loop
    handle_send fuel s = if not s.initialized then ok (s, true) else send_loop fuel s

  unfoldable pub report_all :
      (String → Pair V → Result (Pair V)) → List String → Pair V → Result (Pair V)
  report_all report [] p = ok p
  report_all report (t ∷ ts) p = do p' ← report t p; report_all report ts p'

  -- _handle_injected_rejected
  unfoldable pub handle_injected_rejected : Service V → Result (Service V)
  unfolding report_all
  handle_injected_rejected s = do
    p ← report_all Pair.send_blocked_value_injected s.inserted_topics s.pair
    p' ← report_all Pair.send_blocked_value_rejected s.rejected_topics p
    ok (record s { pair = p'; inserted_topics = []; rejected_topics = [] })

  -- the request for all values, once, when the other side is first found up
  unfoldable pub request_all_once : Service V → Result (Service V)
  request_all_once s =
      if s.initialized
      then ok s
      else if Pair.connected s.pair
      then (do p ← Pair.send_request_all s.pair; ok (record s { initialized = true; pair = p }))
      else ok s

  -- _handle_triggers, at time `now`
  unfoldable pub handle_triggers :
      (Shared V → Shared V) → ℕ → ℕ → Service V → Result (Service V × Bool)
  unfolding request_all_once handle_send handle_injected_rejected
  handle_triggers meanwhile fuel now s = do
    s₁ ← request_all_once (observe_state_change s)
    (s₂, ended) ← handle_send meanwhile fuel s₁
    s₃ ← handle_injected_rejected s₂
    p ← Pair.cycle now s₃.pair
    ok (record s₃ { pair = p }, ended)
