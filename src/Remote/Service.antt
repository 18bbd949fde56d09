-- ===== src/Remote/Service.antt =====
-- `RemoteService` of mcf_py/mcf_remote/remote_service.py: its rules and the operations of its main
-- thread and of its receive thread. A lock is held for the whole of the part that the source puts
-- under it. The component's own trigger is the event `trigger_event` of the shared world.
pub mod Arrivals
use flux_mcf.Prelude.{
  ℕ, zero, suc, String, ◌≡◌, Bool, true, false, not, ◌||◌, ◌&&◌, Option, none, some, List, [], ◌∷◌,
  ◌++◌, map, string_eq, if◌then◌else◌, Result, ok, raise, assertion_error, ◌>>=◌,
}
use flux_mcf.Prelude.Dict.{Dict, lookup, insert}
use flux_mcf.World.{World}
use flux_mcf.Events
use flux_mcf.ValueQueue
use flux_mcf.Ports.{
  Shared, ValueHandler, component_set_value, component_get_value, create_and_register_value_queue,
}
use flux_mcf.Remote.Tracker.{state_up, RemoteState, is_up, is_down, is_unsure}
use flux_mcf.Remote.Pair
use flux_mcf.Remote.Pair.{Pair, SendResult, injected, received, rejected, timed_out, other}

-- SendRule with its SendState; `topic` is the local one and `queue` a reference
pub record SendRule : Type 0 where
  pub topic : String
  pub queue_length : ℕ
  pub forced_send : Bool
  pub send_pending : Bool
  pub queue : Option ℕ

-- ReceiveRule with its ReceiveState
pub record ReceiveRule (V : Type 0) : Type 0 where
  pub topic : String
  pub pending_value : Option V

pub record Service (V : Type 0) : Type 0 where
  pub send_rules : Dict String SendRule
  pub receive_rules : Dict String (ReceiveRule V)
  pub inserted_topics : List String
  pub rejected_topics : List String
  pub initialized : Bool
  pub pair : Pair V
  pub shared : Shared V
  pub trigger_event : ℕ
  pub generator : Option ℕ

-- what send_value returns to the main thread, and the strings that value_received returns
pub data Reception : Type 0 where
  reception_rejected reception_injected : Reception

-- the optional argument topic_remote
abbrev pub remote_topic : String → Option String → String
remote_topic topic_local none = topic_local
remote_topic topic_local (some t) = t

-- the comparison of two states
unfoldable pub same_state : RemoteState → RemoteState → Bool
same_state a b = (is_up a && is_up b) || (is_down a && is_down b) || (is_unsure a && is_unsure b)

module _ {V : Type 0} where
  unfoldable pub add_send_rule : String → Option String → ℕ → Bool → Service V → Result (Service V)
  add_send_rule topic_local topic_remote queue_len blocking s =
      if blocking
      then raise assertion_error
      else elim (lookup (remote_topic topic_local topic_remote) s.send_rules) [
        | some r ↦ raise assertion_error
        | none ↦ ok (record s {
          send_rules =
              insert (remote_topic topic_local topic_remote)
                (record {
                  topic = topic_local;
                  queue_length = queue_len;
                  forced_send = false;
                  send_pending = false;
                  queue = none;
                })
                s.send_rules;
        })
      ]

  unfoldable pub add_receive_rule : String → Option String → Service V → Result (Service V)
  add_receive_rule topic_local topic_remote s =
      elim (lookup (remote_topic topic_local topic_remote) s.receive_rules) [
        | some r ↦ raise assertion_error
        | none ↦ ok (record s {
          receive_rules =
              insert (remote_topic topic_local topic_remote)
                (record { topic = topic_local; pending_value = none }) s.receive_rules;
        })
      ]

  -- trigger()
  unfoldable pub trigger : Service V → Service V
  trigger s =
      let sh = s.shared in
      record s { shared = record sh { world = (Events.trigger s.trigger_event sh.world).0 } }

  -- `result` for the rule of a topic, if there is one
  unfoldable pub value_received : String → V → Service V → Result (Service V × Reception)
  value_received topic value s =
      if not s.initialized
      then ok (s, reception_rejected)
      else elim (lookup topic s.receive_rules) [
        | none ↦ ok (s, reception_rejected)
        | some rule ↦ elim rule.pending_value [
          | some v ↦ ok (s, reception_rejected)
          | none ↦ (do
            sh ← component_set_value s.generator topic (some value) [] s.shared
            ok (record s { shared = sh }, reception_injected))
        ]
      ]

  unfoldable pub send_all : Service V → Service V
  unfolding trigger
  send_all s =
      trigger (record s {
        send_rules = map (λ (k, r). (k, record r { forced_send = true })) s.send_rules;
      })

  unfoldable pub reset_pending_values : Service V → Service V
  reset_pending_values s = record s {
    send_rules = map (λ (k, r). (k, record r { send_pending = false })) s.send_rules;
  }

  unfoldable pub clear_pending : String → Service V → Service V
  clear_pending topic s = elim (lookup topic s.send_rules) [
    | none ↦ s
    | some r ↦ record s {
      send_rules = insert topic (record r { send_pending = false }) s.send_rules;
    }
  ]

  unfoldable pub blocked_value_injected_received : String → Service V → Service V
  unfolding clear_pending trigger
  blocked_value_injected_received topic s = trigger (clear_pending topic s)

  unfoldable pub blocked_value_rejected_received : String → Service V → Service V
  unfolding clear_pending trigger
  blocked_value_rejected_received topic s = trigger (clear_pending topic s)

  unfoldable pub connected : Service V → Bool
  connected s = s.initialized && Pair.connected s.pair

  -- RemotePair.ping_received, whose endpoint is this service
  unfoldable pub ping_received : ℕ → Service V → Service V
  unfolding trigger
  ping_received f s = trigger (record s { pair = Pair.ping_received f s.pair })

  -- RemotePair._change_state_from_up, with the endpoint's reset_pending_values
  unfoldable pub change_state_from_up : Service V → Service V
  unfolding reset_pending_values
  change_state_from_up s =
      reset_pending_values (record s { pair = Pair.connect_sender (Pair.disconnect_sender s.pair) })

  unfoldable pub observe_state_change : Service V → Service V
  unfolding change_state_from_up same_state
  observe_state_change s =
      let old = s.pair.old_state in
      let curr = s.pair.tracker.remote_state in
      if same_state old curr
      then s
      else (let s' = if is_up old then change_state_from_up s else s in
          record s' { pair = record s'.pair { old_state = curr } })
