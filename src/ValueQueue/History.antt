-- ===== src/ValueQueue/History.antt =====
-- What a queue holds, by what it received.
use flux_mcf.Prelude.{
  ℕ, ◌+◌, ◌-◌, ◌≤◌, ◌<◌, String, ◌≡◌, ◌∙◌, refl, sym, List, [], ◌∷◌, ◌++◌, append_assoc, append-nil,
  length, drop, length-append, length-drop, drop-drop, drop-append, nat_beq_iff, nat_beq_refl, leb,
  lt→ltb, Bool-cases, inl, inr, arith, Option, none, some,
}
use flux_mcf.World.{World}
use flux_mcf.ValueQueue.{push, receive, pop_with_topic}
use flux_mcf.ValueQueue.Frame.{
  rest_of, front_of, queue-receive, maxlen-receive, queue-pop, maxlen-pop, result-pop,
}

-- What the two ends of a queue do: entries come in, and a component takes one out.
pub data Access (V : Type 0) : Type 0 where
  put_in : (value : V) (topic : String) → Access V
  take_out : Access V

module _ {V : Type 0} where
  -- The entries that are received one after the other.
  unfoldable pub receive_all : ℕ → List (V × String) → World V → World V
  receive_all q [] w = w
  receive_all q ((v, t) ∷ xs) w = receive_all q xs (receive q t v w).0

  push_all : ℕ → List (V × String) → List (V × String) → List (V × String)
  push_all m [] l = l
  push_all m (x ∷ xs) l = push_all m xs (push m x l)

  push-eq-drop :
      (m : ℕ) (x : V × String) (l : List (V × String))
      → 0 < m
      → length l ≤ m
      → push m x l ≡ drop (length l + 1 - m) (l ++ x ∷ [])
  unfolding push
  push-eq-drop m x l pos fits = elim (Bool-cases (leb m (length l))) [
    | inl full ↦
        let e : length l + 1 - m ≡ 1 = ground arith in
        let room : 1 ≤ length l = ground arith in
        rw (lt→ltb 0 m pos, full, e) (drop-append 1 l (x ∷ []) room)
    | inr room ↦ let e : length l + 1 - m ≡ 0 = ground arith in rw (lt→ltb 0 m pos, room, e)
  ]

  drop_again :
      (d m : ℕ) (l : List (V × String))
      → d ≤ length l - m
      → drop (length (drop d l) - m) (drop d l) ≡ drop (length l - m) l
  drop_again d m l h =
      let e : d + (length l - d - m) ≡ length l - m = omega arith in
      rw (length-drop d l, drop-drop, e)

  push_all-eq-drop :
      (m : ℕ) (xs l : List (V × String))
      → 0 < m
      → length l ≤ m
      → push_all m xs l ≡ drop (length (l ++ xs) - m) (l ++ xs)
  unfolding push_all
  push_all-eq-drop m [] l pos fits = rw (append-nil, (let e : length l - m ≡ 0 = omega arith in e))
  push_all-eq-drop m (x ∷ xs) l pos fits =
      let d : ℕ = length l + 1 - m in
      let short = length-drop d (l ++ x ∷ []) in
      let one_more = length-append l (x ∷ []) in
      let all = length-append l (x ∷ xs) in
      let joined = drop-append d (l ++ x ∷ []) xs (omega arith) in
      rw
        (
          push-eq-drop m x l pos fits,
          push_all-eq-drop m xs (drop d (l ++ x ∷ [])) pos (omega arith),
          joined,
          append_assoc l (x ∷ []) xs,
        )
        (drop_again d m (l ++ x ∷ xs) (omega arith))

  queue-receive_all :
      (q : ℕ) (xs : List (V × String)) (w : World V)
      → ((receive_all q xs w).queues q).queue ≡ push_all (w.queues q).maxlen xs (w.queues q).queue
  unfolding receive_all push_all
  queue-receive_all q [] w = refl
  queue-receive_all q ((v, t) ∷ xs) w =
      rw
        (
          queue-receive_all q xs (receive q t v w).0,
          maxlen-receive q q t v w,
          queue-receive q q t v w,
        )
        (ground (arith, nat_beq_iff q q))

  -- A queue of limit m > 0, expired or not, holds the last m entries of what it held and received, in their order:
  -- the oldest are dropped, and none other.
  pub receive_all-eq-last :
      (q : ℕ) (xs : List (V × String)) (w : World V)
      → 0 < (w.queues q).maxlen
      → length (w.queues q).queue ≤ (w.queues q).maxlen
      → let history = (w.queues q).queue ++ xs in
        ((receive_all q xs w).queues q).queue ≡ drop (length history - (w.queues q).maxlen) history
  receive_all-eq-last q xs w pos fits =
      queue-receive_all q xs w ∙ push_all-eq-drop (w.queues q).maxlen xs (w.queues q).queue pos fits

  abbrev pub arrivals : List (Access V) → List (V × String)
  arrivals [] = []
  arrivals (put_in v t ∷ xs) = (v, t) ∷ arrivals xs
  arrivals (take_out ∷ xs) = arrivals xs

  -- an entry that was taken, before the later ones
  abbrev pub and_taken : Option (V × String) → List (V × String) → List (V × String)
  and_taken none xs = xs
  and_taken (some x) xs = x ∷ xs

  -- the accesses in their order, and what was taken out
  unfoldable pub serve : ℕ → List (Access V) → World V → World V × List (V × String)
  serve q [] w = (w, [])
  serve q (put_in v t ∷ xs) w = serve q xs (receive q t v w).0
  serve q (take_out ∷ xs) w =
      let (w', r) = pop_with_topic q w in
      let (w'', taken) = serve q xs w' in (w'', and_taken r taken)

  pub push_unlimited : (x : V × String) (l : List (V × String)) → push 0 x l ≡ l ++ x ∷ []
  unfolding push
  push_unlimited x l = refl

  taken_front :
      (l more : List (V × String)) → and_taken (front_of l) (rest_of l ++ more) ≡ l ++ more
  taken_front [] more = refl
  taken_front (x ∷ l) more = refl

  and_taken-append :
      (r : Option (V × String)) (xs ys : List (V × String))
      → and_taken r xs ++ ys ≡ and_taken r (xs ++ ys)
  and_taken-append none xs ys = refl
  and_taken-append (some x) xs ys = refl

  -- An unlimited queue, expired or not, is first in, first out: under any interleaving of arrivals and pops, what
  -- was taken, followed by what is left, is what was there at first, followed by what arrived.
  pub serve_fifo :
      (q : ℕ) (xs : List (Access V)) (w : World V)
      → (w.queues q).maxlen ≡ 0
      → (serve q xs w).1 ++ ((serve q xs w).0.queues q).queue ≡ (w.queues q).queue ++ arrivals xs
  unfolding serve
  serve_fifo q [] w free = sym (append-nil (w.queues q).queue)
  serve_fifo q (put_in v t ∷ xs) w free =
      serve_fifo q xs (receive q t v w).0 (maxlen-receive q q t v w ∙ free)
      ∙ rw (queue-receive q q t v w, nat_beq_refl q, free, push_unlimited, append_assoc)
  serve_fifo q (take_out ∷ xs) w free =
      let w' = (pop_with_topic q w).0 in
      let taken = (serve q xs w').1 in
      let left = ((serve q xs w').0.queues q).queue in
      rw
        (
          result-pop q w,
          and_taken-append (front_of (w.queues q).queue) taken left,
          serve_fifo q xs w' (maxlen-pop q q w ∙ free),
          queue-pop q q w,
          nat_beq_refl q,
        )
        (taken_front (w.queues q).queue (arrivals xs))
