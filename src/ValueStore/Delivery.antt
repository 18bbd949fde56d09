-- ===== src/ValueStore/Delivery.antt =====
-- Who is called when a value is set, and what the notification returns.
use flux_mcf.Prelude.{
  ℕ, String, ◌≡◌, ◌∙◌, refl, ap, ap₂, fun_ext, Bool, false, not, ◌||◌, some, List, [], ◌∷◌, ◌++◌,
  any_of, keep_if, ◌==◌, string_eq, if◌then◌else◌, Bool-cases, inl, inr, arith, ok,
}
use flux_mcf.Receivers.{Receivers, ReceiversLaws}
use flux_mcf.ValueStore.{
  ValueStore, receivers_of, get_value, write_value, call_receivers, notify_receivers_and_cleanup,
  set_value,
}
use flux_mcf.ValueStore.Values.{get_value-write_value}
use flux_mcf.ValueStore.Registration.{receivers_of-write_value}

module _ {V S : Type 0} (r : Receivers V S) where
  -- the receivers called one after the other
  unfoldable pub deliver : List ℕ → String → V → S → S
  deliver [] k v s = s
  deliver (i ∷ is) k v s = deliver is k v (r.receive i k v s).0

  deliver-append :
      (is js : List ℕ) (k : String) (v : V) (s : S)
      → deliver (is ++ js) k v s ≡ deliver js k v (deliver is k v s)
  unfolding deliver
  deliver-append [] js k v s = refl
  deliver-append (i ∷ is) js k v s = deliver-append is js k v (r.receive i k v s).0

  state-call_receivers :
      (is : List ℕ) (k : String) (v : V) (s : S) → (call_receivers r is k v s).0 ≡ deliver is k v s
  unfolding call_receivers deliver
  state-call_receivers [] k v s = refl
  state-call_receivers (i ∷ is) k v s = state-call_receivers is k v (r.receive i k v s).0

  state-notify :
      (is : List ℕ) (k : String) (v : V) (s : S)
      → (notify_receivers_and_cleanup r is k v s).0 ≡ deliver is k v s
  unfolding notify_receivers_and_cleanup
  state-notify is k v s = state-call_receivers is k v s

  -- Setting a value calls the receivers of all topics, in the order of their registration, and
  -- then those of the key, in theirs, each with the value.
  pub set_value_lem :
      (k : String) (v : V) (st : ValueStore V) (s : S)
      → set_value r k (some v) (st, s)
        ≡ ok ((write_value k v st).0, deliver (st.all_topic_receivers ++ receivers_of k st) k v s)
  unfolding set_value
  set_value_lem k v st s =
      let all = st.all_topic_receivers in
      rw (
        deliver-append all (receivers_of k st) k v s,
        state-notify all k v s,
        state-notify (receivers_of k st) k v (deliver all k v s),
      )

  module _ (laws : ReceiversLaws r) where
    expired-deliver :
        (is : List ℕ) (j : ℕ) (k : String) (v : V) (s : S)
        → r.expired j (deliver is k v s) ≡ r.expired j s
    unfolding deliver
    expired-deliver [] j k v s = refl
    expired-deliver (i ∷ is) j k v s =
        expired-deliver is j k v (r.receive i k v s).0 ∙ laws.expired-receive i j k v s

    any_of-receive :
        (is : List ℕ) (i : ℕ) (k : String) (v : V) (s : S)
        → any_of (λ j. r.expired j (r.receive i k v s).0) is ≡ any_of (λ j. r.expired j s) is
    any_of-receive is i k v s =
        ap (λ (p : ℕ → Bool). any_of p is) (fun_ext (λ j. laws.expired-receive i j k v s))

    result-call_receivers :
        (is : List ℕ) (k : String) (v : V) (s : S)
        → (call_receivers r is k v s).1 ≡ any_of (λ j. r.expired j s) is
    unfolding call_receivers
    result-call_receivers [] k v s = refl
    result-call_receivers (i ∷ is) k v s =
        ap₂ ◌||◌ (laws.receive_answers i k v s)
          (result-call_receivers is k v (r.receive i k v s).0 ∙ any_of-receive is i k v s)

    keep_if_none :
        (is : List ℕ) (s : S)
        → any_of (λ j. r.expired j s) is ≡ false
        → keep_if (λ j. not (r.expired j s)) is ≡ is
    keep_if_none [] s h = refl
    keep_if_none (i ∷ is) s h = ground (arith, keep_if_none is s)

    -- Where receivers answer whether they are expired, the returned list is the given one without
    -- the expired receivers.
    notify_receivers_and_cleanup_lem :
        (is : List ℕ) (k : String) (v : V) (s : S)
        → notify_receivers_and_cleanup r is k v s
          ≡ (deliver is k v s, keep_if (λ j. not (r.expired j s)) is)
    unfolding notify_receivers_and_cleanup
    notify_receivers_and_cleanup_lem is k v s =
        let kept =
          ap (λ (p : ℕ → Bool). keep_if (λ j. not (p j)) is)
            (fun_ext (λ j. expired-deliver is j k v s)) in
        rw (state-call_receivers is k v s, result-call_receivers is k v s, kept)
          (elim (Bool-cases (any_of (λ j. r.expired j s) is)) [
            | inl found ↦ rw found
            | inr none_found ↦ rw (none_found, keep_if_none is s none_found)
          ])

module _ {V : Type 0} where
  all_topic-write_value :
      (k : String) (v : V) (st : ValueStore V)
      → (write_value k v st).0.all_topic_receivers ≡ st.all_topic_receivers
  unfolding write_value
  all_topic-write_value k v st = refl

  -- Over receivers that change a state of their own only, setting a value succeeds. Then its key reads
  -- as that value and every other key as before, and the receivers of all topics were called once for
  -- each of their registrations, in the order of registration, and then those of the key in theirs,
  -- each with the key and the value.
  pub set_value-Delivered :
      {S : Type 0} (r : Receivers V S) (k : String) (v : V) (st : ValueStore V) (s : S)
      → (st' : ValueStore V) × (set_value r k (some v) (st, s)
          ≡ ok (st', deliver r (st.all_topic_receivers ++ receivers_of k st) k v s))
        × ((j : String) → get_value j st' ≡ (if k == j then some v else get_value j st))
  set_value-Delivered r k v st s =
      ((write_value k v st).0, set_value_lem r k v st s, λ j. get_value-write_value k j v st)

  -- After a value is set, its key reads as that value and every other key as before; and the lists
  -- of receivers are the ones before, with the expired receivers still in them.
  pub set_value_effect :
      {S : Type 0} (r : Receivers V S) (k j : String) (v : V) (st st' : ValueStore V) (s s' : S)
      → set_value r k (some v) (st, s) ≡ ok (st', s')
      → (get_value j st' ≡ (if k == j then some v else get_value j st))
        × (receivers_of j st' ≡ receivers_of j st)
        × (st'.all_topic_receivers ≡ st.all_topic_receivers)
  set_value_effect r k j v st st' s s' h = ground (
    arith,
    set_value_lem r k v st s,
    get_value-write_value k j v st,
    receivers_of-write_value k j v st,
    all_topic-write_value k v st,
  )
