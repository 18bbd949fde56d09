-- ===== src/ValueQueue/Bounds.antt =====
-- The number of entries never passes `maxlen`, whatever is done to a queue.
use flux_mcf.Prelude.{
  ℕ, ◌+◌, ◌-◌, ◌≤◌, String, ◌≡◌, ◌⊎◌, ap, List, [], ◌∷◌, length, drop, length-append, length-drop,
  nat_beq_iff, ltb, leb, if◌then◌else◌, arith,
}
use flux_mcf.World.{World, ValueQueue}
use flux_mcf.ValueQueue.{push, receive, pop_with_topic, peek_with_topic, set_maxlen, expire}
use flux_mcf.ValueQueue.Frame.{
  rest_of, queue-receive, maxlen-receive, queue-pop, maxlen-pop, peek_with_topic_lem,
}

-- What the users of a queue do with it.
pub data QueueOp (V : Type 0) : Type 0 where
  receives : (topic : String) (value : V) → QueueOp V
  pops peeks expires : QueueOp V
  sets_maxlen : ℕ → QueueOp V

module _ {V : Type 0} where
  unfoldable pub apply : ℕ → QueueOp V → World V → World V
  apply q (receives t v) w = (receive q t v w).0
  apply q pops w = (pop_with_topic q w).0
  apply q peeks w = (peek_with_topic q w).0
  apply q expires w = expire q w
  apply q (sets_maxlen n) w = set_maxlen q n w

  unfoldable pub apply_all : List (ℕ × QueueOp V) → World V → World V
  apply_all [] w = w
  apply_all ((q, op) ∷ ops) w = apply_all ops (apply q op w)

  -- A limit of 0 stands for none.
  abbrev pub IsBounded : ValueQueue V → Type 0
  IsBounded vq = (vq.maxlen ≡ 0) ⊎ (length vq.queue ≤ vq.maxlen)

  length-push :
      (m : ℕ) (x : V × String) (l : List (V × String))
      → length (push m x l)
        ≡ (if ltb 0 m then (if leb m (length l) then length l - 1 else length l) else length l) + 1
  unfolding push
  length-push m x l =
      ground (arith, length-append (drop 1 l) (x ∷ []), length-append l (x ∷ []), length-drop 1 l)

  length-rest_of : (l : List (V × String)) → length (rest_of l) ≡ length l - 1
  length-rest_of [] = omega arith
  length-rest_of (x ∷ l) = omega arith

  apply-IsBounded :
      (q k : ℕ) (op : QueueOp V) (w : World V)
      → IsBounded (w.queues k)
      → IsBounded ((apply q op w).queues k)
  unfolding apply
  apply-IsBounded q k (receives t v) w h =
      rw (maxlen-receive q k t v w, queue-receive q k t v w)
        (ground (arith, nat_beq_iff q k, length-push (w.queues k).maxlen (v, t) (w.queues k).queue))
  apply-IsBounded q k pops w h =
      rw (maxlen-pop q k w, queue-pop q k w)
        (ground (arith, nat_beq_iff q k, length-rest_of (w.queues k).queue))
  apply-IsBounded q k peeks w h =
      rw (ap (λ (f : ℕ → ValueQueue V). f k) (peek_with_topic_lem q w).1) h
  apply-IsBounded q k expires w h = unfold expire in ground (arith, nat_beq_iff q k)
  apply-IsBounded q k (sets_maxlen n) w h =
      unfold set_maxlen in
      ground
        (arith, nat_beq_iff q k, length-drop (length (w.queues q).queue - n) (w.queues q).queue)

  -- A queue within its limit stays within it, under any sequence of operations on any queues,
  -- changes of its limit included.
  pub apply_all-IsBounded :
      (k : ℕ) (ops : List (ℕ × QueueOp V)) (w : World V)
      → IsBounded (w.queues k)
      → IsBounded ((apply_all ops w).queues k)
  unfolding apply_all
  apply_all-IsBounded k [] w h = h
  apply_all-IsBounded k ((q, op) ∷ ops) w h =
      apply_all-IsBounded k ops (apply q op w) (apply-IsBounded q k op w h)
