-- ===== src/Remote/Sending/Single.antt =====
-- One call of `_handle_send_single` with a sender that has a socket, plain answers, and no other
-- thread in between.
use flux_mcf.Prelude.{
  ℕ, ◌+◌, String, ◌≡◌, ◌∙◌, ◌⊎◌, inl, inr, refl, sym, ap, subst, Bool, true, false, Option, none,
  some, length, Bool-cases, leb, ok, ◌>>=◌, arith,
}
use flux_mcf.World.{World, ValueQueue}
use flux_mcf.ValueQueue.{empty, peek, pop}
use flux_mcf.ValueQueue.Nonempty.{peek_nonempty, pop_nonempty, pop_shrinks}
use flux_mcf.ValueStore.{get_value}
use flux_mcf.Ports.{component_get_value, trace_get_value}
use flux_mcf.Remote.Pair
use flux_mcf.Remote.Pair.{Pair, SendResult, injected, received, rejected, timed_out, other}
use flux_mcf.Remote.Pair.Status.{IsReady, Settled, lost, taken, refused, send_value-Sent}
use flux_mcf.Remote.Service.{Service, SendRule}
use flux_mcf.Remote.Sending.{
  put_world, after_queue_send, after_forced_send, send_front, send_latest, send_forced, send_from,
  handle_send_single,
}
use flux_mcf.Remote.Sending.Load.{IsSendable, Handled, entries, entries_at, load, unforced}

module _ {V : Type 0} where
  module _ (is_value : V → Bool) where
    popped-Handled :
        (q : ℕ) (r : SendRule) (s : Service V) (w : World V) (p : Pair V)
        → IsSendable r
        → r.queue ≡ some q
        → w.queues ≡ s.shared.world.queues
        → empty q w ≡ false
        → IsReady p
        → Handled r s (
            (pop q w).1 >>= λ _. ok (
              record r { forced_send = false },
              put_world is_value (pop q w).0 (record s { pair = p }),
            ))
    popped-Handled q r s w p sendable at_q same filled ready =
        let (v, gives, shorter) = pop_nonempty q w filled in
        let queue_same = λ (k : ℕ). ap (λ (f : ℕ → ValueQueue V). length (f k).queue) same in
        let before = entries_at r q s.shared.world at_q in
        let after = entries_at r q (pop q w).0 at_q in
        let less : entries r.queue (pop q w).0 + 1 ≡ entries r.queue s.shared.world =
          omega (arith, queue_same q) in
        record {
          rule = record r { forced_send = false };
          service = put_world is_value (pop q w).0 (record s { pair = p });
          returns = rw gives;
          ready = ready;
          sendable = record { idle = sendable.idle; reference = q; has_queue = at_q };
          same_start = refl;
          shrinks = λ k. omega (arith, pop_shrinks q k w, queue_same k);
          lighter = omega arith;
          progress = inr (inl (omega arith));
        }

    -- nothing is done to the rule, or only its forced send is over
    kept-Handled :
        (r : SendRule) (s : Service V) (w : World V) (p : Pair V)
        → IsSendable r
        → w.queues ≡ s.shared.world.queues
        → IsReady p
        → (Pair.connected p ≡ false) ⊎ (load r w ≡ 0)
        → Handled r s (ok (r, put_world is_value w (record s { pair = p })))
    kept-Handled r s w p sendable same ready progress =
        let queue_same = λ (k : ℕ). ap (λ (f : ℕ → ValueQueue V). length (f k).queue) same in
        let after = entries_at r sendable.reference w sendable.has_queue in
        let before = entries_at r sendable.reference s.shared.world sendable.has_queue in
        record {
          rule = r;
          service = put_world is_value w (record s { pair = p });
          returns = refl;
          ready = ready;
          sendable = sendable;
          same_start = refl;
          shrinks = λ k. omega (arith, queue_same k);
          lighter = omega (arith, queue_same sendable.reference);
          progress = elim progress [ inl down ↦ inl down | inr none_left ↦ inr (inr none_left) ];
        }

    after_queue-Handled :
        (q : ℕ) (r : SendRule) (s : Service V) (w : World V) (p : Pair V) {result : SendResult}
        → IsSendable r
        → r.queue ≡ some q
        → w.queues ≡ s.shared.world.queues
        → empty q w ≡ false
        → IsReady p
        → Settled s.pair p result
        → Handled r s
            (after_queue_send is_value result q r (put_world is_value w (record s { pair = p })))
    unfolding after_queue_send
    after_queue-Handled q r s w p sendable at_q same filled ready (lost down) =
        kept-Handled r s w p sendable same ready (inl down)
    after_queue-Handled q r s w p sendable at_q same filled ready (taken _) =
        popped-Handled q r s w p sendable at_q same filled ready
    after_queue-Handled q r s w p sendable at_q same filled ready (refused _) =
        popped-Handled q r s w p sendable at_q same filled ready

    empty_same : (q : ℕ) (w w' : World V) → w'.queues ≡ w.queues → empty q w' ≡ empty q w
    unfolding empty
    empty_same q w w' same = ap (λ (f : ℕ → ValueQueue V). leb (length (f q).queue) 0) same

    front-Handled :
        (q : ℕ) (r : SendRule) (s : Service V)
        → IsSendable r
        → r.queue ≡ some q
        → IsReady s.pair
        → empty q s.shared.world ≡ false
        → Handled r s (send_front is_value q r s)
    unfolding send_front
    front-Handled q r s sendable at_q ready filled =
        let (v, gives, same) = peek_nonempty q s.shared.world filled in
        let w = (peek q s.shared.world).0 in
        let sent = send_value-Sent is_value r.topic v s.pair ready in
        rw (gives, sent.returns)
          (after_queue-Handled q r s w sent.after sendable at_q same
            (empty_same q s.shared.world w same ∙ filled) sent.ready sent.settled)

    no_load :
        (q : ℕ) (r : SendRule) (w : World V)
        → r.queue ≡ some q
        → empty q w ≡ true
        → r.forced_send ≡ false
        → load r w ≡ 0
    unfolding empty
    no_load q r w at_q is_empty free = let at = entries_at r q w at_q in ground arith

    unforced-Handled :
        (q : ℕ) (r : SendRule) (s : Service V) (w : World V) (p : Pair V)
        → IsSendable r
        → r.queue ≡ some q
        → empty q s.shared.world ≡ true
        → w.queues ≡ s.shared.world.queues
        → IsReady p
        → Handled r s (ok (unforced r, put_world is_value w (record s { pair = p })))
    unforced-Handled q r s w p sendable at_q is_empty same ready =
        let queue_same = λ (k : ℕ). ap (λ (f : ℕ → ValueQueue V). length (f k).queue) same in
        let at_w =
          no_load q (unforced r) w at_q (empty_same q s.shared.world w same ∙ is_empty) refl in
        record {
          rule = unforced r;
          service = put_world is_value w (record s { pair = p });
          returns = refl;
          ready = ready;
          sendable = record { idle = sendable.idle; reference = q; has_queue = at_q };
          same_start = refl;
          shrinks = λ k. omega (arith, queue_same k);
          lighter = omega arith;
          progress = inr (inr at_w);
        }

    after_forced-Handled :
        (q : ℕ) (r : SendRule) (s : Service V) (w : World V) (p : Pair V) {result : SendResult}
        → IsSendable r
        → r.queue ≡ some q
        → empty q s.shared.world ≡ true
        → w.queues ≡ s.shared.world.queues
        → IsReady p
        → Settled s.pair p result
        → Handled r s
            (ok (after_forced_send is_value result r, put_world is_value w (record s { pair = p })))
    unfolding after_forced_send
    after_forced-Handled q r s w p sendable at_q is_empty same ready (lost down) =
        kept-Handled r s w p sendable same ready (inl down)
    after_forced-Handled q r s w p sendable at_q is_empty same ready (taken _) =
        unforced-Handled q r s w p sendable at_q is_empty same ready
    after_forced-Handled q r s w p sendable at_q is_empty same ready (refused _) =
        unforced-Handled q r s w p sendable at_q is_empty same ready

    latest-Handled :
        (v : Option V) (q : ℕ) (r : SendRule) (s : Service V) (w : World V)
        → IsSendable r
        → r.queue ≡ some q
        → empty q s.shared.world ≡ true
        → w.queues ≡ s.shared.world.queues
        → IsReady s.pair
        → Handled r s (send_latest is_value v r (put_world is_value w s))
    unfolding send_latest
    latest-Handled none q r s w sendable at_q is_empty same ready =
        unforced-Handled q r s w s.pair sendable at_q is_empty same ready
    latest-Handled (some v) q r s w sendable at_q is_empty same ready =
        let sent = send_value-Sent is_value r.topic v s.pair ready in
        rw sent.returns (
          after_forced-Handled q r s w sent.after sendable at_q is_empty same sent.ready
            sent.settled)

    queues-trace_get_value :
        (g : Option ℕ) (t : String) (v : Option V) (w : World V)
        → (trace_get_value g t v w).queues ≡ w.queues
    unfolding trace_get_value
    queues-trace_get_value none t v w = refl
    queues-trace_get_value (some g) t v w = refl

    forced-Handled :
        (q : ℕ) (r : SendRule) (s : Service V)
        → IsSendable r
        → r.queue ≡ some q
        → empty q s.shared.world ≡ true
        → IsReady s.pair
        → Handled r s (send_forced is_value (λ sh. sh) q r s)
    unfolding send_forced component_get_value
    forced-Handled q r s sendable at_q is_empty ready =
        let v = get_value r.topic s.shared.store in
        let w = trace_get_value s.generator r.topic v s.shared.world in
        let same = queues-trace_get_value s.generator r.topic v s.shared.world in
        rw (empty_same q s.shared.world w same ∙ is_empty)
          (latest-Handled v q r s w sendable at_q is_empty same ready)

    from-Handled :
        (q : ℕ) (r : SendRule) (s : Service V)
        → IsSendable r
        → r.queue ≡ some q
        → IsReady s.pair
        → Handled r s (send_from is_value (λ sh. sh) (some q) r s)
    unfolding send_from
    from-Handled q r s sendable at_q ready = elim (Bool-cases (empty q s.shared.world)) [
      | inr filled ↦ rw filled (front-Handled q r s sendable at_q ready filled)
      | inl is_empty ↦ elim (Bool-cases r.forced_send) [
        | inl forced ↦ simp (is_empty, forced) (forced-Handled q r s sendable at_q is_empty ready)
        | inr free ↦
            simp (is_empty, free)
              (kept-Handled r s s.shared.world s.pair sendable refl ready
                (inr (no_load q r s.shared.world at_q is_empty free)))
      ]
    ]

    -- A rule whose queue is there and which waits for no report is handled without an error: its
    -- load falls, or is nothing, or the other side is no longer taken for reachable.
    pub handle_send_single-Handled :
        (r : SendRule) (s : Service V)
        → IsSendable r
        → IsReady s.pair
        → Handled r s (handle_send_single is_value (λ sh. sh) r s)
    unfolding handle_send_single
    handle_send_single-Handled r s sendable ready =
        subst (Handled r s) (sym (start sendable.has_queue sendable.idle))
          (from-Handled sendable.reference r s sendable sendable.has_queue ready)
      where
        start :
            {q : ℕ}
            → r.queue ≡ some q
            → r.send_pending ≡ false
            → handle_send_single is_value (λ sh. sh) r s
              ≡ send_from is_value (λ sh. sh) (some q) r s
        start at_q idle =
            (simp idle) ∙ ap (λ (o : Option ℕ). send_from is_value (λ sh. sh) o r s) at_q
