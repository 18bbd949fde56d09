-- ===== src/Recorder/Queue.antt =====
-- `Queue` of mcf_py/mcf_core/value_recorder.py, the receiver that the recorder registers for all
-- topics. Its lock is held for the whole of each operation. `hash` is Python's, on texts. `receive`
-- returns None, which the value store takes for "not expired".
pub mod Labels
use flux_mcf.Prelude.{
  ℕ, zero, suc, ◌-◌, String, Bool, true, false, Option, none, some, List, [], ◌∷◌, ◌++◌, length,
  leb, nat_eq, if◌then◌else◌, Result, ok, raise, key_error,
}
use flux_mcf.Prelude.Dict.{Dict, lookup, insert}

-- Queue.QueueValue
pub record QueueValue (V : Type 0) : Type 0 where
  pub time : ℕ
  pub topic_id : ℕ
  pub value : V

pub record QueueEntry (V : Type 0) : Type 0 where
  pub time : ℕ
  pub topic : String
  pub value : V

pub record Queue (V : Type 0) : Type 0 where
  pub deque : List (QueueValue V)
  pub topic_id_map : Dict ℕ String
  pub expired : Bool

-- the entry of a topic id is made once
unfoldable pub remember : ℕ → String → Dict ℕ String → Dict ℕ String
remember id topic m = elim (lookup id m) [ some t ↦ m | none ↦ insert id topic m ]

module _ {V : Type 0} where
  unfoldable pub new_queue : Queue V
  new_queue = record { deque = []; topic_id_map = []; expired = false }

  unfoldable pub pop_front :
      List (QueueValue V) → Queue V → Result (Queue V × Option (QueueEntry V) × ℕ)
  pop_front [] q = ok (q, none, 0)
  pop_front (qv ∷ rest) q = elim (lookup qv.topic_id q.topic_id_map) [
    | none ↦ raise key_error
    | some t ↦ ok (
      record q { deque = rest },
      some (record { time = qv.time; topic = t; value = qv.value }),
      length rest,
    )
  ]

  -- The entry, or none for the empty `QueueEntry()`, and the number of entries that are left.
  unfoldable pub pop : Queue V → Result (Queue V × Option (QueueEntry V) × ℕ)
  unfolding pop_front
  pop q = pop_front q.deque q

  unfoldable pub empty : Queue V → Bool
  empty q = leb (length q.deque) 0

  unfoldable pub size : Queue V → ℕ
  size q = length q.deque

  unfoldable pub expire : Queue V → Queue V
  expire q = record q { expired = true }

  -- `now` is the reading of the clock
  unfoldable pub receive : (String → ℕ) → ℕ → String → V → Queue V → Queue V
  unfolding remember
  receive hash now topic value q = record q {
    topic_id_map = remember (hash topic) topic q.topic_id_map;
    deque = q.deque ++ record { time = now; topic_id = hash topic; value = value } ∷ [];
  }
