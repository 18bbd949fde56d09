-- ===== src/ValueStore/Registration.antt =====
-- Who is registered: no receiver twice for one key.
use flux_mcf.Prelude.{
  ℕ, suc, ◌+◌, ◌≤◌, String, ◌≡◌, refl, false, some, List, [], ◌∷◌, ◌++◌, any_of, nat_beq,
  nat_beq_iff, ◌==◌, string_eq, if◌then◌else◌, arith,
}
use flux_mcf.Prelude.Dict.{lookup, insert, lookup-insert}
use flux_mcf.ValueStore.{
  ValueStore, entry_or_new, receivers_of, append_receiver, add_receiver, add_all_topic_receiver,
  write_value,
}

-- how often a receiver stands in a list
abbrev pub count : ℕ → List ℕ → ℕ
count r [] = 0
count r (x ∷ xs) = if nat_beq x r then suc (count r xs) else count r xs

pub count-append : (r : ℕ) (xs ys : List ℕ) → count r (xs ++ ys) ≡ count r xs + count r ys
count-append r [] ys = omega arith
count-append r (x ∷ xs) ys = ground (arith, count-append r xs ys)

count-absent : (r : ℕ) (xs : List ℕ) → any_of (λ i. nat_beq i r) xs ≡ false → count r xs ≡ 0
count-absent r [] h = refl
count-absent r (x ∷ xs) h = ground (arith, count-absent r xs)

append_receiver-once : (r j : ℕ) (rs : List ℕ) → count j rs ≤ 1 → count j (append_receiver r rs) ≤ 1
unfolding append_receiver
append_receiver-once r j rs h =
    ground (arith, count-append j rs (r ∷ []), count-absent r rs, nat_beq_iff r j)

-- the operations of other threads that change the store
pub data StoreOp (V : Type 0) : Type 0 where
  adds : (key : String) (receiver : ℕ) → StoreOp V
  adds_all_topic : (receiver : ℕ) → StoreOp V
  writes : (key : String) (value : V) → StoreOp V

module _ {V : Type 0} where
  unfoldable pub apply : StoreOp V → ValueStore V → ValueStore V
  apply (adds key r) st = add_receiver key r st
  apply (adds_all_topic r) st = add_all_topic_receiver r st
  apply (writes key v) st = (write_value key v st).0

  unfoldable pub apply_all : List (StoreOp V) → ValueStore V → ValueStore V
  apply_all [] st = st
  apply_all (op ∷ ops) st = apply_all ops (apply op st)

  pub receivers_of-write_value :
      (k j : String) (v : V) (st : ValueStore V)
      → receivers_of j (write_value k v st).0 ≡ receivers_of j st
  unfolding write_value
  receivers_of-write_value k j v st =
      let e = entry_or_new (lookup k st.store) in
      ground (
        arith,
        string_eq.beq_iff k j,
        lookup-insert k j e st.store,
        lookup-insert k j (record e { value = some v }) (insert k e st.store),
      )

  receivers_of-add_receiver :
      (k j : String) (r : ℕ) (st : ValueStore V)
      → receivers_of j (add_receiver k r st)
        ≡ (if k == j then append_receiver r (receivers_of k st) else receivers_of j st)
  unfolding add_receiver
  receivers_of-add_receiver k j r st =
      let e = entry_or_new (lookup k st.store) in
      ground (
        arith,
        string_eq.beq_iff k j,
        lookup-insert k j e st.store,
        lookup-insert k j (record e { receivers = append_receiver r e.receivers })
            (insert k e st.store),
      )

  -- No receiver is registered twice for all topics, nor twice for one key.
  pub record IsOnce (st : ValueStore V) : Type 0 where
    pub for_all_topics : (r : ℕ) → count r st.all_topic_receivers ≤ 1
    pub for_key : (j : String) (r : ℕ) → count r (receivers_of j st) ≤ 1

  apply-IsOnce : (op : StoreOp V) (st : ValueStore V) → IsOnce st → IsOnce (apply op st)
  unfolding apply
  apply-IsOnce (adds key r) st h = record {
    for_all_topics = unfold add_receiver in h.for_all_topics;
    for_key = λ j i. rw (receivers_of-add_receiver key j r st) (
        ground
          (arith, append_receiver-once r i (receivers_of key st), h.for_key key i, h.for_key j i));
  }
  apply-IsOnce (adds_all_topic r) st h = record {
    for_all_topics = λ i.
        unfold add_all_topic_receiver in
        append_receiver-once r i st.all_topic_receivers (h.for_all_topics i);
    for_key = unfold add_all_topic_receiver in h.for_key;
  }
  apply-IsOnce (writes key v) st h = record {
    for_all_topics = unfold write_value in h.for_all_topics;
    for_key = λ j i. rw (receivers_of-write_value key j v st) (h.for_key j i);
  }

  -- However often receivers are added and values are written, none is registered twice in one list.
  apply_all-IsOnce :
      (ops : List (StoreOp V)) (st : ValueStore V) → IsOnce st → IsOnce (apply_all ops st)
  unfolding apply_all
  apply_all-IsOnce [] st h = h
  apply_all-IsOnce (op ∷ ops) st h = apply_all-IsOnce ops (apply op st) (apply-IsOnce op st h)
