-- ===== src/ValueQueue/Frame.antt =====
-- What the operations on one queue do to the content of every queue.
use flux_mcf.Prelude.{
  ℕ, String, ◌≡◌, ◌∙◌, refl, ap, List, [], ◌∷◌, Option, none, some, nat_beq, nat_beq_iff,
  if◌then◌else◌, arith,
}
use flux_mcf.World.{World, ValueQueue}
use flux_mcf.Events.Notify.{notify_events-Kept}
use flux_mcf.ValueQueue.{
  trace_get, trace_peek, pop_with_topic, peek_with_topic, pop_front, peek_front, receive, push,
}

module _ {V : Type 0} where
  -- the front entry goes, if there is one
  abbrev pub rest_of : List (V × String) → List (V × String)
  rest_of [] = []
  rest_of (x ∷ xs) = xs

  abbrev pub front_of : List (V × String) → Option (V × String)
  front_of [] = none
  front_of (x ∷ xs) = some x

  pub queue-receive :
      (q k : ℕ) (t : String) (v : V) (w : World V)
      → ((receive q t v w).0.queues k).queue ≡ (
          if nat_beq q k
          then push (w.queues q).maxlen (v, t) (w.queues q).queue
          else (w.queues k).queue)
  unfolding receive
  queue-receive q k t v w = (notify_events-Kept q k _).1 ∙ ground (arith, nat_beq_iff q k)

  pub maxlen-receive :
      (q k : ℕ) (t : String) (v : V) (w : World V)
      → ((receive q t v w).0.queues k).maxlen ≡ (w.queues k).maxlen
  unfolding receive
  maxlen-receive q k t v w = (notify_events-Kept q k _).0 ∙ ground (arith, nat_beq_iff q k)

  pub expired-receive :
      (q k : ℕ) (t : String) (v : V) (w : World V)
      → ((receive q t v w).0.queues k).expired ≡ (w.queues k).expired
  unfolding receive
  expired-receive q k t v w = (notify_events-Kept q k _).2 ∙ ground (arith, nat_beq_iff q k)

  pub result-receive :
      (q : ℕ) (t : String) (v : V) (w : World V) → (receive q t v w).1 ≡ (w.queues q).expired
  unfolding receive
  result-receive q t v w = (notify_events-Kept q q _).2 ∙ ground (arith, nat_beq_iff q q)

  queues-trace_get :
      (g : Option ℕ) (x : V × String) (w : World V) → (trace_get g x w).queues ≡ w.queues
  unfolding trace_get
  queues-trace_get none x w = refl
  queues-trace_get (some g) x w = refl

  queues-trace_peek :
      (g : Option ℕ) (x : V × String) (w : World V) → (trace_peek g x w).queues ≡ w.queues
  unfolding trace_peek
  queues-trace_peek none x w = refl
  queues-trace_peek (some g) x w = refl

  -- the deque and the length limit of queue `k` after a pop of queue `q`
  module _ (q k : ℕ) where
    queue-pop_front :
        (l : List (V × String)) (w : World V)
        → (w.queues q).queue ≡ l
        → ((pop_front l q w).0.queues k).queue
          ≡ (if nat_beq q k then rest_of l else (w.queues k).queue)
    unfolding pop_front
    queue-pop_front [] w h = ground (arith, nat_beq_iff q k)
    queue-pop_front (x ∷ l) w h =
        ap (λ (f : ℕ → ValueQueue V). (f k).queue)
          (queues-trace_get (w.queues q).trace_generator x _)
        ∙ ground (arith, nat_beq_iff q k)

    maxlen-pop_front :
        (l : List (V × String)) (w : World V)
        → ((pop_front l q w).0.queues k).maxlen ≡ (w.queues k).maxlen
    unfolding pop_front
    maxlen-pop_front [] w = refl
    maxlen-pop_front (x ∷ l) w =
        ap (λ (f : ℕ → ValueQueue V). (f k).maxlen)
          (queues-trace_get (w.queues q).trace_generator x _)
        ∙ ground (arith, nat_beq_iff q k)

    pub queue-pop :
        (w : World V)
        → ((pop_with_topic q w).0.queues k).queue
          ≡ (if nat_beq q k then rest_of (w.queues q).queue else (w.queues k).queue)
    unfolding pop_with_topic
    queue-pop w = queue-pop_front (w.queues q).queue w refl

    pub maxlen-pop : (w : World V) → ((pop_with_topic q w).0.queues k).maxlen ≡ (w.queues k).maxlen
    unfolding pop_with_topic
    maxlen-pop w = maxlen-pop_front (w.queues q).queue w

  result-pop_front :
      (l : List (V × String)) (q : ℕ) (w : World V) → (pop_front l q w).1 ≡ front_of l
  unfolding pop_front
  result-pop_front [] q w = refl
  result-pop_front (x ∷ l) q w = refl

  pub result-pop : (q : ℕ) (w : World V) → (pop_with_topic q w).1 ≡ front_of (w.queues q).queue
  unfolding pop_with_topic
  result-pop q w = result-pop_front (w.queues q).queue q w

  -- A peek returns the front and changes no queue.
  peek_front_lem :
      (l : List (V × String)) (q : ℕ) (w : World V)
      → ((peek_front l q w).1 ≡ front_of l) × ((peek_front l q w).0.queues ≡ w.queues)
  unfolding peek_front
  peek_front_lem [] q w = (refl, refl)
  peek_front_lem (x ∷ l) q w = (refl, queues-trace_peek (w.queues q).trace_generator x w)

  pub peek_with_topic_lem :
      (q : ℕ) (w : World V)
      → ((peek_with_topic q w).1 ≡ front_of (w.queues q).queue)
        × ((peek_with_topic q w).0.queues ≡ w.queues)
  unfolding peek_with_topic
  peek_with_topic_lem q w = peek_front_lem (w.queues q).queue q w
