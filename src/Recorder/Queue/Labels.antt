-- ===== src/Recorder/Queue/Labels.antt =====
-- Under which topic a value is recorded.
use flux_mcf.Prelude.{
  ℕ, String, ◌≡◌, ◌∙◌, refl, sym, ap, Option, none, some, List, [], ◌∷◌, ◌++◌, append-nil, map, All,
  All-append, length, inl, inr, ◌⊎◌, subst, All-map, nat_beq, nat_beq_iff, nat_beq_refl, nat_eq,
  if◌then◌else◌, Result, ok, ◌>>=◌, arith,
}
use flux_mcf.Prelude.Dict.{Dict, lookup, lookup-insert}
use flux_mcf.Recorder.Queue.{
  Queue, QueueValue, QueueEntry, new_queue, remember, receive, pop, pop_front,
}

-- the value store delivers a value, and the write thread takes one out
pub data Access (V : Type 0) : Type 0 where
  receives : (now : ℕ) (topic : String) (value : V) → Access V
  pops : Access V

-- the first topic that was received with a hash
unfoldable pub first_with : {V : Type 0} → (String → ℕ) → ℕ → List (Access V) → Option String
first_with hash id [] = none
first_with hash id (pops ∷ xs) = first_with hash id xs
first_with hash id (receives now t v ∷ xs) =
    if nat_beq (hash t) id then some t else first_with hash id xs

abbrev or_else : Option String → Option String → Option String
or_else none b = b
or_else (some t) b = some t

lookup-remember :
    (id j : ℕ) (t : String) (m : Dict ℕ String)
    → lookup j (remember id t m) ≡ or_else (lookup j m) (if nat_beq id j then some t else none)
unfolding remember
lookup-remember id j t m = ground (arith, lookup-insert id j t m, nat_beq_iff id j)

or_else-some : (o : Option String) (t : String) → (u : String) × (or_else o (some t) ≡ some u)
or_else-some none t = (t, refl)
or_else-some (some u) t = (u, refl)

module _ {V : Type 0} (hash : String → ℕ) where
  abbrev and_taken : Option (QueueEntry V) → List (QueueEntry V) → List (QueueEntry V)
  and_taken none xs = xs
  and_taken (some x) xs = x ∷ xs

  -- the accesses in their order, and what was taken out
  unfoldable pub serve : List (Access V) → Queue V → Result (Queue V × List (QueueEntry V))
  serve [] q = ok (q, [])
  serve (receives now t v ∷ xs) q = serve xs (receive hash now t v q)
  serve (pops ∷ xs) q = do
    (q', r, size) ← pop q
    (q'', taken) ← serve xs q'
    ok (q'', and_taken r taken)

  -- the label of an id, by the map and what will still be received
  abbrev label : Dict ℕ String → List (Access V) → ℕ → Option String
  label m xs id = or_else (lookup id m) (first_with hash id xs)

  -- an entry with its label
  abbrev pub named : (ℕ → Option String) → QueueValue V → ℕ × Option String × V
  named l qv = (qv.time, l qv.topic_id, qv.value)

  abbrev pub of_entry : QueueEntry V → ℕ × Option String × V
  of_entry e = (e.time, some e.topic, e.value)

  abbrev pub arrivals : (ℕ → Option String) → List (Access V) → List (ℕ × Option String × V)
  arrivals l [] = []
  arrivals l (pops ∷ xs) = arrivals l xs
  arrivals l (receives now t v ∷ xs) = (now, l (hash t), v) ∷ arrivals l xs

  -- every id in the deque is in the map
  abbrev IsLabelled : Queue V → Type 0
  IsLabelled q =
      All (λ (qv : QueueValue V). (t : String) × (lookup qv.topic_id q.topic_id_map ≡ some t))
        q.deque

  record Served (l : ℕ → Option String) (before : List (ℕ × Option String × V))
      (outcome : Result (Queue V × List (QueueEntry V))) : Type 0 where
    final : Queue V
    taken : List (QueueEntry V)
    returns : outcome ≡ ok (final, taken)
    in_order : map of_entry taken ++ map (named l) final.deque ≡ before

  label_receives :
      (m : Dict ℕ String) (now : ℕ) (t : String) (v : V) (xs : List (Access V)) (id : ℕ)
      → label (remember (hash t) t m) xs id ≡ label m (receives now t v ∷ xs) id
  unfolding first_with
  label_receives m now t v xs id = ground (arith, lookup-remember (hash t) id t m)

  -- what a pop finds
  record Popped (q : Queue V) : Type 0 where
    entry : QueueValue V
    rest : List (QueueValue V)
    topic : String
    front : q.deque ≡ entry ∷ rest
    known : lookup entry.topic_id q.topic_id_map ≡ some topic
    labelled : IsLabelled (record q { deque = rest })
    size : ℕ
    gives :
        pop q
        ≡ ok (
          record q { deque = rest },
          some (record { time = entry.time; topic = topic; value = entry.value }),
          size,
        )

  pop_front_known :
      (x : QueueValue V) (rest : List (QueueValue V)) (q : Queue V) (t : String)
      → lookup x.topic_id q.topic_id_map ≡ some t
      → pop_front (x ∷ rest) q
        ≡ ok (
          record q { deque = rest },
          some (record { time = x.time; topic = t; value = x.value }),
          length rest,
        )
  unfolding pop_front
  pop_front_known x rest q t h = ground arith

  pop_front_cases :
      (d : List (QueueValue V)) (q : Queue V)
      → q.deque ≡ d
      → IsLabelled q
      → ((d ≡ []) × (pop q ≡ ok (q, none, 0))) ⊎ Popped q
  unfolding pop pop_front
  pop_front_cases [] q e labelled = inl (refl, rw (e, pop_front))
  pop_front_cases (x ∷ rest) q e labelled =
      let here =
        subst
          (All (λ (qv : QueueValue V). (t : String) × (lookup qv.topic_id q.topic_id_map ≡ some t)))
          e labelled in
      inr (record {
        entry = x;
        rest = rest;
        topic = here.0.0;
        front = e;
        known = here.0.1;
        labelled = here.1;
        size = length rest;
        gives =
            ap (λ (l : List (QueueValue V)). pop_front l q) e
            ∙ pop_front_known x rest q here.0.0 here.0.1;
      })

  receive-IsLabelled :
      (now : ℕ) (t : String) (v : V) (q : Queue V)
      → IsLabelled q
      → IsLabelled (receive hash now t v q)
  unfolding receive
  receive-IsLabelled now t v q h =
      let m = q.topic_id_map in
      All-append
        (λ (qv : QueueValue V).
          (u : String) × (lookup qv.topic_id (remember (hash t) t m) ≡ some u))
        q.deque _
        (All-map _ _ (λ qv k. (k.0, lookup-remember (hash t) qv.topic_id t m ∙ ground (arith, k.1)))
          q.deque h)
        (
          let (u, e) = or_else-some (lookup (hash t) m) t in
              (u, lookup-remember (hash t) (hash t) t m ∙ rw nat_beq_refl e),
          tt,
        )

  map-named-append :
      (l : ℕ → Option String) (d : List (QueueValue V)) (x : QueueValue V)
      (more : List (ℕ × Option String × V))
      → map (named l) (d ++ x ∷ []) ++ more ≡ map (named l) d ++ named l x ∷ more
  map-named-append l [] x more = refl
  map-named-append l (y ∷ d) x more = ap (◌∷◌ (named l y)) (map-named-append l d x more)

  serve-Served :
      (xs : List (Access V)) (q : Queue V) (l : ℕ → Option String)
      → IsLabelled q
      → ((id : ℕ) → label q.topic_id_map xs id ≡ l id)
      → Served l (map (named l) q.deque ++ arrivals l xs) (serve xs q)
  unfolding serve receive
  serve-Served [] q l labelled same = record {
    final = q;
    taken = [];
    returns = refl;
    in_order = sym (append-nil (map (named l) q.deque));
  }
  serve-Served (receives now t v ∷ xs) q l labelled same =
      subst (λ (b : List (ℕ × Option String × V)). Served l b (serve xs (receive hash now t v q)))
        (map-named-append l q.deque _ (arrivals l xs))
        (serve-Served xs (receive hash now t v q) l (receive-IsLabelled now t v q labelled)
          (λ id. label_receives q.topic_id_map now t v xs id ∙ same id))
  serve-Served (pops ∷ xs) q l labelled same = elim (pop_front_cases q.deque q refl labelled) [
    | inl (nothing, gives) ↦
        let ih = serve-Served xs q l labelled (λ id. unfold first_with in same id) in
        record {
          final = ih.final;
          taken = ih.taken;
          returns = simp (gives, ih.returns);
          in_order = ih.in_order;
        }
    | inr p ↦
        let q' = record q { deque = p.rest } in
        let ih = serve-Served xs q' l p.labelled (λ id. unfold first_with in same id) in
        let its_label : l p.entry.topic_id ≡ some p.topic =
          ground (arith, same p.entry.topic_id, p.known) in
        record {
          final = ih.final;
          taken = record { time = p.entry.time; topic = p.topic; value = p.entry.value } ∷ ih.taken;
          returns = simp (p.gives, ih.returns);
          in_order =
              ap (◌∷◌ (p.entry.time, some p.topic, p.entry.value)) ih.in_order
              ∙ ap
                  (λ (o : Option String).
                    (p.entry.time, o, p.entry.value) ∷ (map (named l) p.rest ++ arrivals l xs))
                  (sym its_label)
              ∙ ap (λ (d : List (QueueValue V)). map (named l) d ++ arrivals l xs) (sym p.front);
        }
  ]

  -- From an empty queue, whatever is received and popped, in any order: no access raises an error,
  -- and what was taken out, followed by what is left, is what arrived, in its order, each value
  -- under the first topic that arrived with the same hash.
  pub record Labelled (xs : List (Access V)) : Type 0 where
    pub final : Queue V
    pub taken : List (QueueEntry V)
    pub returns : serve xs new_queue ≡ ok (final, taken)
    pub in_order :
        map of_entry taken ++ map (named (λ id. first_with hash id xs)) final.deque
        ≡ arrivals (λ id. first_with hash id xs) xs

  pub serve-Labelled : (xs : List (Access V)) → Labelled xs
  unfolding new_queue first_with lookup
  serve-Labelled xs =
      let s = serve-Served xs new_queue (λ id. first_with hash id xs) tt (λ id. refl) in
      record { final = s.final; taken = s.taken; returns = s.returns; in_order = s.in_order }
