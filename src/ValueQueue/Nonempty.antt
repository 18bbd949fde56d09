-- ===== src/ValueQueue/Nonempty.antt =====
-- Reading and taking the front of a queue that is not empty.
use flux_mcf.Prelude.{
  ℕ, ◌+◌, ◌≤◌, String, ◌≡◌, ◌∙◌, refl, ap, false, List, [], ◌∷◌, length, nat_beq_iff, nat_beq_refl,
  leb, ok, arith,
}
use flux_mcf.World.{World}
use flux_mcf.ValueQueue.{empty, peek, pop, value_of}
use flux_mcf.ValueQueue.Frame.{rest_of, front_of, peek_with_topic_lem, queue-pop, result-pop}

module _ {V : Type 0} where
  value_of-front :
      (l : List (V × String)) → leb (length l) 0 ≡ false → (v : V) × (value_of (front_of l) ≡ ok v)
  unfolding value_of
  value_of-front [] h = cc
  value_of-front ((v, t) ∷ l) h = (v, refl)

  length-rest_of :
      (l : List (V × String)) → leb (length l) 0 ≡ false → length (rest_of l) + 1 ≡ length l
  length-rest_of [] h = cc
  length-rest_of (x ∷ l) h = omega arith

  length-rest_of-le : (l : List (V × String)) → length (rest_of l) ≤ length l
  length-rest_of-le [] = omega arith
  length-rest_of-le (x ∷ l) = omega arith

  -- A peek at a queue that is not empty gives a value, and no queue changes.
  pub peek_nonempty :
      (q : ℕ) (w : World V)
      → empty q w ≡ false
      → (v : V) × ((peek q w).1 ≡ ok v) × ((peek q w).0.queues ≡ w.queues)
  unfolding peek empty
  peek_nonempty q w h =
      let (v, is_front) = value_of-front (w.queues q).queue h in
      let (front, same) = peek_with_topic_lem q w in (v, ap value_of front ∙ is_front, same)

  -- A pop of a queue that is not empty gives a value, shortens this queue by one entry and
  -- lengthens none.
  pub pop_nonempty :
      (q : ℕ) (w : World V)
      → empty q w ≡ false
      → (v : V) × ((pop q w).1 ≡ ok v)
        × (length ((pop q w).0.queues q).queue + 1 ≡ length (w.queues q).queue)
  unfolding pop empty
  pop_nonempty q w h =
      let (v, is_front) = value_of-front (w.queues q).queue h in
      (
        v,
        ap value_of (result-pop q w) ∙ is_front,
        rw (queue-pop q q w, nat_beq_refl q) (length-rest_of (w.queues q).queue h),
      )

  pub pop_shrinks :
      (q k : ℕ) (w : World V) → length ((pop q w).0.queues k).queue ≤ length (w.queues k).queue
  unfolding pop
  pop_shrinks q k w =
      rw (queue-pop q k w) (ground (arith, nat_beq_iff q k, length-rest_of-le (w.queues k).queue))
