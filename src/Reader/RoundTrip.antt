-- ===== src/Reader/RoundTrip.antt =====
-- What `RecordReader` finds in a recording that `ValueRecorder` wrote.
use flux_mcf.Prelude.{
  ℕ, zero, suc, ◌+◌, ◌-◌, ◌<◌, String, ◌≡◌, ◌∙◌, refl, sym, ap, subst, Bool, true, false, Option,
  none, some, List, [], ◌∷◌, ◌++◌, map, append_assoc, length, drop, take, drop-drop, drop-length,
  take-length, if◌then◌else◌, nat_beq, keep_if, ok, arith, Option-cases, inl, inr,
}
use flux_mcf.Recorder.Format.{Packed, header, body, extmem_header, Codec, CodecLaws}
use flux_mcf.Recorder.Writer.{Serialized, ExtMem, pack_extmem, encode, plain_extmem, zipped_extmem}
use flux_mcf.Reader.{
  Record, Unpacker, advanced, unpack, skip_extmem, stored_size, after_header, after_value,
  after_m_header, read_record, make_record, generate, records_generator, get_extmem,
}

-- one record, with the settings of its topic when it was written
pub record Item (A B : Type 0) : Type 0 where
  pub time : ℕ
  pub topic : String
  pub serialized : Serialized A B
  pub enabled : Bool
  pub compressed : Bool

-- what a reader is after
abbrev pub View : Type 0 → Type 0 → Type 0
View A B = ℕ × String × String × ℕ × Packed A × Option (List B)

abbrev pub shown : {A B : Type 0} → Item A B → View A B
shown it = (
  it.time,
  it.topic,
  it.serialized.typeid,
  it.serialized.id,
  body it.serialized.content,
  if it.enabled then it.serialized.extmem else none,
)

module _ {A B : Type 0} (codec : Codec A B) where
  abbrev pub bytes : Item A B → List B
  bytes it =
      encode codec it.time it.topic it.serialized
        (pack_extmem codec.compress it.enabled it.compressed it.serialized.extmem)

  abbrev pub all_bytes : List (Item A B) → List B
  all_bytes [] = []
  all_bytes (it ∷ items) = bytes it ++ all_bytes items

  abbrev pub view : List B → Record A → View A B
  view file r = (r.timestamp, r.topic, r.typeid, r.valueid, r.value, get_extmem codec file r)

  -- the extmem data that a reader finds at a position with the fields of its header
  abbrev found : List B → ℕ → ExtMem B → Option (List B)
  found file i e =
      if e.extmem_present
      then some (
          if nat_beq e.extmem_size_compressed 0
          then take e.extmem_size (drop i file)
          else codec.decompress (take e.extmem_size_compressed (drop i file)))
      else none

  abbrev after : ℕ → ExtMem B → ℕ
  after i e = if e.extmem_present then i + stored_size e.extmem_size e.extmem_size_compressed else i

module _ {A B : Type 0} {codec : Codec A B} (laws : CodecLaws codec) (file : List B) where
  drop_more :
      (i n : ℕ) (front rest : List B)
      → n ≡ length front
      → drop i file ≡ front ++ rest
      → drop (i + n) file ≡ rest
  drop_more i n front rest size at =
      sym (drop-drop n i file) ∙ rw (at, size) (drop-length front rest)

  -- extmem data that stands in the file is found, and the position after it
  abbrev IsFound : ExtMem B → Option (List B) → Type 0
  IsFound e em =
      (i : ℕ) (rest : List B)
      → drop i file ≡ e.written ++ rest
      → (found codec file i e ≡ em) × (drop (after codec i e) file ≡ rest)

  plain-IsFound : (d : List B) (failed : Bool) → IsFound (plain_extmem d failed) (some d)
  plain-IsFound d failed i rest at =
      (ap some (rw at (take-length d rest)), drop_more i (length d) d rest refl at)

  zipped-IsFound :
      (d z : List B) → codec.compress d ≡ some z → IsFound (zipped_extmem d (some z)) (some d)
  zipped-IsFound d z gives i rest at =
      let filled = laws.compress_nonempty d z gives in
      let not_zero : nat_beq (length z) 0 ≡ false = ground arith in
      (
        rw not_zero (ap some (rw (at, take-length z rest) (laws.decompress-compress d z gives))),
        rw not_zero (drop_more i (length z) z rest refl at),
      )

  pack_extmem-IsFound :
      (enabled compressed : Bool) (em : Option (List B))
      → IsFound (pack_extmem codec.compress enabled compressed em) (if enabled then em else none)
  unfolding pack_extmem
  pack_extmem-IsFound true compressed none = λ i rest at. (refl, at)
  pack_extmem-IsFound false compressed none = λ i rest at. (refl, at)
  pack_extmem-IsFound false compressed (some d) = λ i rest at. (refl, at)
  pack_extmem-IsFound true false (some d) = plain-IsFound d false
  pack_extmem-IsFound true true (some d) = elim (Option-cases (codec.compress d)) [
    | inl fails ↦
        subst (λ (o : Option (List B)). IsFound (zipped_extmem d o) (some d)) (sym fails)
          (plain-IsFound d true)
    | inr (z, gives) ↦
        subst (λ (o : Option (List B)). IsFound (zipped_extmem d o) (some d)) (sym gives)
          (zipped-IsFound d z gives)
  ]

  unpack_lem :
      (u : Unpacker) (o : Packed A) (rest : List B)
      → drop (u.file_start_pos + u.told) file ≡ codec.packb o ++ rest
      → (unpack codec file u ≡ some (o, record u { told = u.told + length (codec.packb o) }))
        × (drop (u.file_start_pos + (u.told + length (codec.packb o))) file ≡ rest)
  unfolding unpack
  unpack_lem u o rest at =
      let sum : u.file_start_pos + (u.told + length (codec.packb o))
          ≡ u.file_start_pos + u.told + length (codec.packb o) =
        omega arith in
      (
        ap (advanced codec file u) (ap codec.unpack at ∙ laws.unpack-packb o rest),
        rw sum (
            drop_more (u.file_start_pos + u.told) (length (codec.packb o)) (codec.packb o) rest refl
              at),
      )

  skip_position :
      (present : Bool) (n : ℕ) (u : Unpacker)
      → (skip_extmem codec file present n u).file_start_pos
          + (skip_extmem codec file present n u).told
        ≡ (if present then u.file_start_pos + u.told + n else u.file_start_pos + u.told)
  unfolding skip_extmem
  skip_position true n u = omega arith
  skip_position false n u = refl

  split : (a b c d rest : List B) → (a ++ (b ++ (c ++ d))) ++ rest ≡ a ++ (b ++ (c ++ (d ++ rest)))
  split a b c d rest =
      append_assoc a (b ++ (c ++ d)) rest
      ∙ ap (λ (x : List B). a ++ x)
          (append_assoc b (c ++ d) rest ∙ ap (λ (x : List B). b ++ x) (append_assoc c d rest))

  -- what one pass of the loop does with a record
  record Reads (u : Unpacker) (it : Item A B) (rest : List B) : Type 0 where
    rec : Record A
    next : Unpacker
    returns : read_record codec file u ≡ ok (some (rec, next))
    same : view codec file rec ≡ shown it
    at_rest : drop (next.file_start_pos + next.told) file ≡ rest

  read-Item :
      (u : Unpacker) (it : Item A B) (rest : List B)
      → drop (u.file_start_pos + u.told) file ≡ bytes codec it ++ rest
      → Reads u it rest
  unfolding read_record encode make_record get_extmem after_header after_value after_m_header
  read-Item u it rest at =
      let s = it.serialized in
      let e = pack_extmem codec.compress it.enabled it.compressed s.extmem in
      let h : Packed A = header it.time it.topic s.typeid s.id in
      let b : Packed A = body s.content in
      let m : Packed A =
        extmem_header e.extmem_size e.extmem_present (some e.extmem_size_compressed) in
      let tail = e.written ++ rest in
      let parts : bytes codec it ++ rest
          ≡ codec.packb h ++ (codec.packb b ++ (codec.packb m ++ tail)) =
        split (codec.packb h) (codec.packb b) (codec.packb m) e.written rest in
      let first = unpack_lem u h (codec.packb b ++ (codec.packb m ++ tail)) (at ∙ parts) in
      let u₁ : Unpacker = record u { told = u.told + length (codec.packb h) } in
      let second = unpack_lem u₁ b (codec.packb m ++ tail) first.1 in
      let u₂ : Unpacker = record u { told = u₁.told + length (codec.packb b) } in
      let third = unpack_lem u₂ m tail second.1 in
      let u₃ : Unpacker = record u { told = u₂.told + length (codec.packb m) } in
      let fourth =
        pack_extmem-IsFound it.enabled it.compressed s.extmem (u₃.file_start_pos + u₃.told) rest
          third.1 in
      let rec : Record A = record {
        timestamp = it.time;
        topic = it.topic;
        typeid = s.typeid;
        valueid = s.id;
        value = b;
        value_size = u₂.told - u₁.told;
        extmem_size = e.extmem_size;
        extmem_index = u₃.file_start_pos + u₃.told;
        extmem_present = e.extmem_present;
        extmem_size_compressed = e.extmem_size_compressed;
      } in
      let stored = stored_size e.extmem_size e.extmem_size_compressed in
      record {
        rec = rec;
        next = skip_extmem codec file e.extmem_present stored u₃;
        returns =
            ap (after_header codec file) first.0
            ∙ ap (after_value codec file h u₁) second.0
            ∙ ap (after_m_header codec file h b (u₂.told - u₁.told)) third.0;
        same = ap (λ (o : Option (List B)). (it.time, it.topic, s.typeid, s.id, b, o)) fourth.0;
        at_rest = ap (λ (i : ℕ). drop i file) (skip_position e.extmem_present stored u₃) ∙ fourth.1;
      }

  read_record-end :
      (u : Unpacker)
      → drop (u.file_start_pos + u.told) file ≡ []
      → read_record codec file u ≡ ok none
  unfolding read_record after_header unpack
  read_record-end u at =
      ap (λ (o : Option (Packed A × ℕ)). after_header codec file (advanced codec file u o))
        (ap codec.unpack at ∙ laws.unpack-nil)

  generate-all :
      (filter : Record A → Bool) (items : List (Item A B)) (fuel : ℕ) (u : Unpacker)
      → length items < fuel
      → drop (u.file_start_pos + u.told) file ≡ all_bytes codec items
      → (rs : List (Record A)) × (map (view codec file) rs ≡ map shown items)
        × (generate codec file fuel filter u ≡ ok (keep_if filter rs, true))
  unfolding generate
  generate-all filter items zero u enough at = absurd (omega arith)
  generate-all filter [] (suc fuel) u enough at = ([], refl, simp (read_record-end u at))
  generate-all filter (it ∷ items) (suc fuel) u enough at =
      let r = read-Item u it (all_bytes codec items) at in
      let (rs, same, gives) = generate-all filter items fuel r.next (omega arith) r.at_rest in
      (r.rec ∷ rs, rw (r.same, same), simp (r.returns, gives))

-- A recording that consists of the bytes of some records, and nothing else, is read back by the
-- generator, within one pass more than there are records: it ends by itself without an error, and
-- yields those of the records that pass the filter. Each record has the time, topic, type, id and
-- value that were written, and its extmem data is the one that was written, compressed or not, or
-- none if its topic was not enabled.
pub records_generator-encode :
    {A B : Type 0} (codec : Codec A B) (filter : Record A → Bool) (items : List (Item A B))
    (fuel : ℕ)
    → CodecLaws codec
    → length items < fuel
    → (rs : List (Record A)) × (map (view codec (all_bytes codec items)) rs ≡ map shown items)
      × (records_generator codec (all_bytes codec items) fuel filter ≡ ok (keep_if filter rs, true))
unfolding records_generator
records_generator-encode codec filter items fuel laws enough =
    generate-all laws (all_bytes codec items) filter items fuel
      (record { file_start_pos = 0; told = 0 }) enough refl
