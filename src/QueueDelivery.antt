-- ===== src/QueueDelivery.antt =====
-- The value store of mcf_py/mcf_core/value_store.py with value queues as its receivers, which is
-- how components are wired together.
use flux_mcf.Prelude.{
  ℕ, zero, suc, ◌+◌, String, ◌≡◌, ◌∙◌, sym, ap, some, List, [], ◌∷◌, ◌++◌, append_assoc, append-nil,
  nat_beq_iff, arith, ok,
}
use flux_mcf.World.{World}
use flux_mcf.ValueQueue.{receive, expired}
use flux_mcf.ValueQueue.Frame.{queue-receive, maxlen-receive, expired-receive, result-receive}
use flux_mcf.ValueQueue.History.{push_unlimited}
use flux_mcf.Receivers.{Receivers, ReceiversLaws}
use flux_mcf.ValueStore.{ValueStore, receivers_of, set_value}
use flux_mcf.ValueStore.Delivery.{deliver, set_value_lem}
use flux_mcf.ValueStore.Registration.{count, count-append}

module _ {V : Type 0} where
  -- queues by their reference
  abbrev pub queue_receivers : Receivers V (World V)
  queue_receivers = record { receive = receive; expired = expired }

  -- Value queues keep the contract of receivers.
  pub queue_receivers-laws : ReceiversLaws queue_receivers
  unfolding expired
  queue_receivers-laws = record {
    receive_answers = λ i t v w. result-receive i t v w;
    expired-receive = λ i j t v w. expired-receive i j t v w;
  }

  -- `n` times the same entry
  abbrev pub copies : ℕ → V × String → List (V × String)
  copies zero x = []
  copies (suc n) x = x ∷ copies n x

  copies-append : (m n : ℕ) (x : V × String) → copies m x ++ copies n x ≡ copies (m + n) x
  copies-append zero n x = let e : zero + n ≡ n = omega arith in rw e
  copies-append (suc m) n x =
      let e : suc m + n ≡ suc (m + n) = omega arith in rw e (ap (◌∷◌ x) (copies-append m n x))

  queue-deliver :
      (is : List ℕ) (q : ℕ) (k : String) (v : V) (w : World V)
      → (w.queues q).maxlen ≡ 0
      → ((deliver queue_receivers is k v w).queues q).queue
        ≡ (w.queues q).queue ++ copies (count q is) (v, k)
  unfolding deliver
  queue-deliver [] q k v w free = sym (append-nil (w.queues q).queue)
  queue-deliver (i ∷ is) q k v w free =
      let w' = (receive i k v w).0 in
      let rest = copies (count q is) (v, k) in
      ground (
        arith,
        queue-deliver is q k v w' (maxlen-receive i q k v w ∙ free),
        queue-receive i q k v w,
        nat_beq_iff i q,
        push_unlimited (v, k) (w.queues q).queue,
        append_assoc (w.queues q).queue ((v, k) ∷ []) rest,
      )

  -- After a value is set, an unlimited queue, expired or not, holds what it held, followed by one copy of the value
  -- and its topic for each registration of the queue, for all topics or for this one; a queue that
  -- is not registered for either is as before.
  pub queue-set_value :
      (q : ℕ) (k : String) (v : V) (st st' : ValueStore V) (w w' : World V)
      → (w.queues q).maxlen ≡ 0
      → set_value queue_receivers k (some v) (st, w) ≡ ok (st', w')
      → (w'.queues q).queue
        ≡ (w.queues q).queue
          ++ copies (count q st.all_topic_receivers + count q (receivers_of k st)) (v, k)
  queue-set_value q k v st st' w w' free h =
      let is = st.all_topic_receivers ++ receivers_of k st in
      let done = queue-deliver is q k v w free in
      let split = count-append q st.all_topic_receivers (receivers_of k st) in
      rw (← split) (ground (arith, set_value_lem queue_receivers k v st w, done))
