-- ===== src/Ports.antt =====
-- How a component reads and writes the value store: `set_value`, `get_value`,
-- `register_value_queue`, `create_and_register_value_queue` and `ValueHandler` of
-- mcf_py/mcf_core/component_framework.py. All receivers of the store are value queues.
use flux_mcf.Prelude.{ℕ, String, Option, none, some, List, Result, ok, ◌>>=◌}
use flux_mcf.World.{
  World, value_received, trace_set_port_value, trace_get_port_value, put_event, put_queue,
  add_trace,
}
use flux_mcf.Events.{new_event, add_event}
use flux_mcf.ValueQueue.{new_queue}
use flux_mcf.ValueStore.{ValueStore, get_value, set_value, add_receiver}
use flux_mcf.QueueDelivery.{queue_receivers}

-- what all components share
pub record Shared (V : Type 0) : Type 0 where
  pub world : World V
  pub store : ValueStore V

-- `ValueHandler`: the queue, the event of its values, the handler if there is one, and the name
pub record ValueHandler : Type 0 where
  pub queue : ℕ
  pub received_value : ℕ
  pub handler : Option ℕ
  pub name : String

module _ {V : Type 0} where
  unfoldable pub trace_set : Option ℕ → String → List ℕ → Option V → World V → World V
  trace_set (some g) topic ids (some v) w = add_trace (trace_set_port_value g topic ids v) w
  trace_set _ topic ids v w = w

  -- Component.set_value
  unfoldable pub component_set_value :
      Option ℕ → String → Option V → List ℕ → Shared V → Result (Shared V)
  unfolding trace_set
  component_set_value generator topic value input_ids sh = do
    (store, world) ←
        set_value queue_receivers topic value
          (sh.store, trace_set generator topic input_ids value sh.world)
    ok (record { world = world; store = store })

  unfoldable pub trace_get_value : Option ℕ → String → Option V → World V → World V
  trace_get_value none topic v w = w
  trace_get_value (some g) topic v w = add_trace (trace_get_port_value g topic v) w

  -- Component.get_value
  unfoldable pub component_get_value : Option ℕ → String → Shared V → Shared V × Option V
  unfolding trace_get_value
  component_get_value generator topic sh =
      let v = get_value topic sh.store in
      (record sh { world = trace_get_value generator topic v sh.world }, v)

  -- the events that ValueHandler.__init__ adds to the queue, if there is a handler
  unfoldable pub listen : Option ℕ → ℕ → ℕ → ℕ → World V → World V
  listen none q e trigger w = w
  listen (some h) q e trigger w = add_event q trigger (add_event q e w)

  -- ValueHandler.__init__ and register_value_queue: `e` is the new event, `trigger` the component's
  unfoldable pub register_value_queue :
      Option ℕ → ℕ → ℕ → ℕ → Option ℕ → World V → World V × ValueHandler
  unfolding listen
  register_value_queue generator trigger q e handler w = (
    listen handler q e trigger (put_event e (new_event (value_received q generator)) w),
    record { queue = q; received_value = e; handler = handler; name = "" },
  )

  -- `q` and `e` are the references of the new queue and of the new event
  unfoldable pub create_and_register_value_queue :
      Option ℕ → ℕ → ℕ → ℕ → ℕ → String → Option ℕ → Shared V → Shared V × ValueHandler
  unfolding register_value_queue
  create_and_register_value_queue generator trigger q e maxlen topic handler sh =
      let (w, vh) =
        register_value_queue generator trigger q e handler
          (put_queue q (new_queue maxlen generator) sh.world) in
      (record { world = w; store = add_receiver topic q sh.store }, vh)
