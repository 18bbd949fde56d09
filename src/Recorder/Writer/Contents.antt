-- ===== src/Recorder/Writer/Contents.antt =====
-- What the recorder writes, and what is read back from it.
use flux_mcf.Prelude.{
  ℕ, suc, ◌<◌, ◌≤◌, String, ◌≡◌, ◌∙◌, refl, sym, ap, ap₂, Bool, true, Option, none, some, List, [],
  ◌∷◌, ◌++◌, map, append_assoc, append-nil, length, keep_if, ok, arith, if◌then◌else◌, Option-cases,
  Bool-cases, inl, inr,
}
use flux_mcf.Recorder.Queue.{QueueEntry}
use flux_mcf.Recorder.Format.{Codec, CodecLaws}
use flux_mcf.Recorder.Writer.{
  Serialized, Recorder, member, timestamp_ms, write_record, serialize_entry,
}
use flux_mcf.Reader.{Record, records_generator}
use flux_mcf.Reader.RoundTrip.{Item, shown, bytes, all_bytes, view, records_generator-encode}

module _ {V A B : Type 0} (codec : Codec A B) (serialize : V → Option (Serialized A B)) where
  -- the record of an entry with the recorder's settings, if its topic is enabled and it is a value
  abbrev pub item_with :
      List String → List String → List String → (ℕ → ℕ) → QueueEntry V → Option (Item A B)
  item_with disabled ext_mem compressed clock qe =
      if member qe.topic disabled then none else elim (serialize qe.value) [
        | none ↦ none
        | some s ↦ some (record {
          time = timestamp_ms (clock 1);
          topic = qe.topic;
          serialized = s;
          enabled = member qe.topic ext_mem;
          compressed = member qe.topic compressed;
        })
      ]

  abbrev pub item_of : Recorder V B → (ℕ → ℕ) → QueueEntry V → Option (Item A B)
  item_of r = item_with r.disabled_topics r.enabled_ext_mem_topics r.compressed_ext_mem_topics

  abbrev pub and_item : Option (Item A B) → List (Item A B) → List (Item A B)
  and_item none items = items
  and_item (some it) items = it ∷ items

  abbrev pub items_of : Recorder V B → List ((ℕ → ℕ) × QueueEntry V) → List (Item A B)
  items_of r [] = []
  items_of r ((clock, qe) ∷ entries) = and_item (item_of r clock qe) (items_of r entries)

  -- the entries one after the other, each with its readings of the clock
  unfoldable pub serialize_all : List ((ℕ → ℕ) × QueueEntry V) → Recorder V B → Recorder V B
  serialize_all [] r = r
  serialize_all ((clock, qe) ∷ entries) r =
      serialize_all entries (serialize_entry codec serialize clock qe r)

  record SameSettings (r r' : Recorder V B) : Type 0 where
    disabled : r'.disabled_topics ≡ r.disabled_topics
    ext_mem : r'.enabled_ext_mem_topics ≡ r.enabled_ext_mem_topics
    compressed : r'.compressed_ext_mem_topics ≡ r.compressed_ext_mem_topics

  file-serialize_entry :
      (clock : ℕ → ℕ) (qe : QueueEntry V) (r : Recorder V B) (f : List B)
      → r.file ≡ some f
      → (serialize_entry codec serialize clock qe r).file
        ≡ some (f ++ all_bytes codec (and_item (item_of r clock qe) []))
  unfolding serialize_entry write_record
  file-serialize_entry clock qe r f h = elim (Bool-cases (member qe.topic r.disabled_topics)) [
    | inl disabled ↦ ground (arith, append-nil f)
    | inr enabled ↦ elim (Option-cases (serialize qe.value)) [
      | inl no_value ↦ ground (arith, append-nil f)
      | inr (s, is_value) ↦
          let it : Item A B = record {
            time = timestamp_ms (clock 1);
            topic = qe.topic;
            serialized = s;
            enabled = member qe.topic r.enabled_ext_mem_topics;
            compressed = member qe.topic r.compressed_ext_mem_topics;
          } in
          let one = append-nil (bytes codec it) in ground arith
    ]
  ]

  settings-serialize_entry :
      (clock : ℕ → ℕ) (qe : QueueEntry V) (r : Recorder V B)
      → SameSettings r (serialize_entry codec serialize clock qe r)
  unfolding serialize_entry write_record
  settings-serialize_entry clock qe r = record {
    disabled = ground arith;
    ext_mem = ground arith;
    compressed = ground arith;
  }

  item_of-same :
      (r r' : Recorder V B) (clock : ℕ → ℕ) (qe : QueueEntry V)
      → SameSettings r r'
      → item_of r' clock qe ≡ item_of r clock qe
  item_of-same r r' clock qe h =
      ap
        (λ (d : List String).
          item_with d r'.enabled_ext_mem_topics r'.compressed_ext_mem_topics clock qe)
        h.disabled
      ∙ ap₂ (λ (e c : List String). item_with r.disabled_topics e c clock qe) h.ext_mem h.compressed

  items_of-same :
      (r r' : Recorder V B) (entries : List ((ℕ → ℕ) × QueueEntry V))
      → SameSettings r r'
      → items_of r' entries ≡ items_of r entries
  items_of-same r r' [] h = refl
  items_of-same r r' ((clock, qe) ∷ entries) h =
      ap₂ and_item (item_of-same r r' clock qe h) (items_of-same r r' entries h)

  all_bytes-and_item :
      (o : Option (Item A B)) (items : List (Item A B)) (f : List B)
      → (f ++ all_bytes codec (and_item o [])) ++ all_bytes codec items
        ≡ f ++ all_bytes codec (and_item o items)
  all_bytes-and_item none items f = ap (λ (x : List B). x ++ all_bytes codec items) (append-nil f)
  all_bytes-and_item (some it) items f =
      ap (λ (x : List B). (f ++ x) ++ all_bytes codec items) (append-nil (bytes codec it))
      ∙ append_assoc f (bytes codec it) (all_bytes codec items)

  file-serialize_all :
      (entries : List ((ℕ → ℕ) × QueueEntry V)) (r : Recorder V B) (f : List B)
      → r.file ≡ some f
      → (serialize_all entries r).file ≡ some (f ++ all_bytes codec (items_of r entries))
  unfolding serialize_all
  file-serialize_all [] r f h = h ∙ ap some (sym (append-nil f))
  file-serialize_all ((clock, qe) ∷ entries) r f h =
      let r' = serialize_entry codec serialize clock qe r in
      let o = item_of r clock qe in
      file-serialize_all entries r' (f ++ all_bytes codec (and_item o []))
        (file-serialize_entry clock qe r f h)
      ∙ ap
          (λ (items : List (Item A B)).
            some ((f ++ all_bytes codec (and_item o [])) ++ all_bytes codec items))
          (items_of-same r r' entries (settings-serialize_entry clock qe r))
      ∙ ap some (all_bytes-and_item o (items_of r entries) f)

  length-and_item :
      (o : Option (Item A B)) (items : List (Item A B)) (n : ℕ)
      → length items ≤ n
      → length (and_item o items) ≤ suc n
  length-and_item none items n h = omega arith
  length-and_item (some it) items n h = omega arith

  length-items_of :
      (r : Recorder V B) (entries : List ((ℕ → ℕ) × QueueEntry V))
      → length (items_of r entries) ≤ length entries
  length-items_of r [] = omega arith
  length-items_of r ((clock, qe) ∷ entries) =
      length-and_item (item_of r clock qe) (items_of r entries) (length entries)
        (length-items_of r entries)

  -- What a recorder with an empty file writes for some entries is read back by the generator of the
  -- reader, within one pass more than there are entries: without an error it yields, of those entries
  -- whose topic is enabled and whose value is an MCF value, in their order, one record each, less
  -- those that the filter rejects. Time, topic, type, id, value and extmem data are what was
  -- recorded, the extmem data only if it is enabled for the topic.
  pub record-read :
      (entries : List ((ℕ → ℕ) × QueueEntry V)) (r : Recorder V B) (filter : Record A → Bool)
      (fuel : ℕ)
      → CodecLaws codec
      → r.file ≡ some []
      → length entries < fuel
      → (file : List B) × (rs : List (Record A)) × ((serialize_all entries r).file ≡ some file)
        × (map (view codec file) rs ≡ map shown (items_of r entries))
        × (records_generator codec file fuel filter ≡ ok (keep_if filter rs, true))
  record-read entries r filter fuel laws new enough =
      let items = items_of r entries in
      let bound = length-items_of r entries in
      let (rs, same, gives) = records_generator-encode codec filter items fuel laws (omega arith) in
      (all_bytes codec items, rs, file-serialize_all entries r [] new, same, gives)
