-- ===== src/ValueQueue.antt =====
-- `ValueQueue` of mcf_py/mcf_core/value_store.py. The lock of a queue is held for the whole of
-- each operation, so an operation is one step. The front of the deque is the head of the list.
pub mod Frame
pub mod Bounds
pub mod History
pub mod Nonempty
use flux_mcf.Prelude.{
  ℕ, zero, suc, String, Bool, true, false, ◌&&◌, Option, none, some, List, [], ◌∷◌, ◌++◌, length,
  drop, ltb, leb, if◌then◌else◌, ◌-◌, Result, ok, raise, type_error,
}
use flux_mcf.World.{
  World, ValueQueue, trace_peek_port_value, trace_get_port_value, put_queue, add_trace, advance,
}
use flux_mcf.Events.{notify_events}

module _ {V : Type 0} where
  -- __init__
  unfoldable pub new_queue : ℕ → Option ℕ → ValueQueue V
  new_queue maxlen generator = record {
    maxlen = maxlen;
    queue = [];
    expired = false;
    trace_generator = generator;
    last_receive_topic = "";
    last_receive_time = 0;
    events = [];
  }

  unfoldable pub empty : ℕ → World V → Bool
  empty q w = leb (length (w.queues q).queue) 0

  unfoldable pub size : ℕ → World V → ℕ
  size q w = length (w.queues q).queue

  -- the setter of maxlen, whose loop drops the oldest entries until `value` of them are left
  unfoldable pub set_maxlen : ℕ → ℕ → World V → World V
  set_maxlen q value w =
      let vq = w.queues q in
      let kept = if ltb 0 value then drop (length vq.queue - value) vq.queue else vq.queue in
      put_queue q (record vq { maxlen = value; queue = kept }) w

  unfoldable pub trace_peek : Option ℕ → V × String → World V → World V
  trace_peek none (v, t) w = w
  trace_peek (some g) (v, t) w = add_trace (trace_peek_port_value g t v) w

  unfoldable pub trace_get : Option ℕ → V × String → World V → World V
  trace_get none (v, t) w = w
  trace_get (some g) (v, t) w = add_trace (trace_get_port_value g t (some v)) w

  unfoldable pub peek_front : List (V × String) → ℕ → World V → World V × Option (V × String)
  peek_front [] q w = (w, none)
  peek_front (x ∷ rest) q w = (trace_peek (w.queues q).trace_generator x w, some x)

  unfoldable pub peek_with_topic : ℕ → World V → World V × Option (V × String)
  unfolding peek_front trace_peek
  peek_with_topic q w = peek_front (w.queues q).queue q w

  unfoldable pub pop_front : List (V × String) → ℕ → World V → World V × Option (V × String)
  pop_front [] q w = (w, none)
  pop_front (x ∷ rest) q w =
      let vq = w.queues q in
      (trace_get vq.trace_generator x (put_queue q (record vq { queue = rest }) w), some x)

  unfoldable pub pop_with_topic : ℕ → World V → World V × Option (V × String)
  unfolding pop_front trace_get
  pop_with_topic q w = pop_front (w.queues q).queue q w

  -- `pair[0]`, where `None[0]` raises TypeError
  unfoldable pub value_of : Option (V × String) → Result V
  value_of none = raise type_error
  value_of (some (v, t)) = ok v

  unfoldable pub peek : ℕ → World V → World V × Result V
  unfolding value_of
  peek q w = let (w', r) = peek_with_topic q w in (w', value_of r)

  unfoldable pub pop : ℕ → World V → World V × Result V
  unfolding value_of
  pop q w = let (w', r) = pop_with_topic q w in (w', value_of r)

  -- The deque after the new entry is appended: a full one drops its oldest entry first.
  unfoldable pub push : ℕ → V × String → List (V × String) → List (V × String)
  push maxlen x queue =
      (if ltb 0 maxlen && leb maxlen (length queue) then drop 1 queue else queue) ++ x ∷ []

  unfoldable pub receive : ℕ → String → V → World V → World V × Bool
  unfolding push
  receive q topic value w =
      let vq = w.queues q in
      let vq' = record vq {
        queue = push vq.maxlen (value, topic) vq.queue;
        last_receive_topic = topic;
        last_receive_time = w.clock 0;
      } in
      let w' = notify_events q (advance (put_queue q vq' w)) in (w', (w'.queues q).expired)

  unfoldable pub expire : ℕ → World V → World V
  expire q w = put_queue q (record (w.queues q) { expired = true }) w

  unfoldable pub expired : ℕ → World V → Bool
  expired q w = (w.queues q).expired

  unfoldable pub last_topic_and_time : ℕ → World V → String × ℕ
  last_topic_and_time q w = ((w.queues q).last_receive_topic, (w.queues q).last_receive_time)
