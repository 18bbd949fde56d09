-- ===== src/Ctf/Ranges.antt =====
-- The events that are converted without an error.
use flux_mcf.Prelude.{suc, ◌-◌, ◌^◌, ◌<◌, ◌≡◌, refl, List, [], ◌∷◌, ◌++◌, All, ok, lt→ltb}
use flux_mcf.Tracing.Messages.{ℤ, pos, negsuc}
use flux_mcf.Ctf.{
  Bytes, Codec, Field, unsigned, signed, string, float, little_endian, pack_unsigned, pack_signed,
  null_term_string, pack, pack_all,
}
use flux_mcf.Ctf.Events.{
  ParsedEvent, port_write, port_read, port_peek, exec_time, remote_transfer_time, trigger_act,
  trigger_exec, program_flow, time_box, port_fields, duration_fields, activation_fields,
  handler_fields, flow_fields, box_fields, event_to_ctf, one_record, two_records,
}

module _ {F : Type 0} (codec : Codec F) where
  -- the numbers that a field holds, and the texts that have an encoding
  unfoldable pub IsInRange : Field F → Type 0
  IsInRange (unsigned w (pos n)) = n < 256 ^ w
  IsInRange (unsigned w (negsuc n)) = ⊥
  IsInRange (signed (pos n)) = n < 2 ^ 31
  IsInRange (signed (negsuc n)) = n < 2 ^ 31
  IsInRange (string s) = (b : Bytes) × (codec.utf8 s ≡ ok b)
  IsInRange (float f) = (b : Bytes) × (codec.pack_float f ≡ ok b)

  pack-Packs : (f : Field F) → IsInRange f → (b : Bytes) × (pack codec f ≡ ok b)
  unfolding IsInRange pack pack_unsigned pack_signed null_term_string
  pack-Packs (unsigned w (pos n)) h =
      (little_endian w n, rw (lt→ltb n (256 ^ w) h, pack_unsigned) refl)
  pack-Packs (unsigned w (negsuc n)) h = absurd h
  pack-Packs (signed (pos n)) h = (little_endian 4 n, rw (lt→ltb n (2 ^ 31) h) refl)
  pack-Packs (signed (negsuc n)) h =
      (little_endian 4 (2 ^ 32 - suc n), rw (lt→ltb n (2 ^ 31) h) refl)
  pack-Packs (string s) (b, e) = (b ++ 0 ∷ [], rw e refl)
  pack-Packs (float f) h = h

  pack_all-Packs :
      (fs : List (Field F)) → All IsInRange fs → (b : Bytes) × (pack_all codec fs ≡ ok b)
  unfolding pack_all
  pack_all-Packs [] h = ([], refl)
  pack_all-Packs (f ∷ fs) (here, later) =
      let (b, e) = pack-Packs f here in
      let (bs, es) = pack_all-Packs fs later in (b ++ bs, rw e (rw es refl))

  one-Packs :
      (time : ℤ) (fs : List (Field F))
      → All IsInRange fs
      → (records : List (ℤ × Bytes)) × (one_record codec time fs ≡ ok records)
  one-Packs time fs h = let (b, e) = pack_all-Packs fs h in ((time, b) ∷ [], rw e refl)

  two-Packs :
      (start end : ℤ) (fs fs' : List (Field F))
      → All IsInRange fs
      → All IsInRange fs'
      → (records : List (ℤ × Bytes)) × (two_records codec start fs end fs' ≡ ok records)
  two-Packs start end fs fs' h h' =
      let (b, e) = pack_all-Packs fs h in
      let (b', e') = pack_all-Packs fs' h' in ((start, b) ∷ (end, b') ∷ [], rw e (rw e' refl))

  -- An event whose times are numbers and whose records hold its fields.
  unfoldable pub IsConvertible : ParsedEvent F → Type 0
  unfolding port_fields duration_fields activation_fields handler_fields flow_fields box_fields
  IsConvertible (port_write c p v ids) = All IsInRange (port_fields 10 c p v)
  IsConvertible (port_read c p v) = All IsInRange (port_fields 20 c p v)
  IsConvertible (port_peek c p v) = All IsInRange (port_fields 25 c p v)
  IsConvertible (exec_time c d f) =
      (start : ℤ) × (codec.start_of c.timestamp f ≡ ok start)
      × All IsInRange (duration_fields 30 start c d f)
      × All IsInRange (duration_fields 35 c.timestamp c d f)
  IsConvertible (remote_transfer_time c d f) =
      (start : ℤ) × (codec.start_of c.timestamp f ≡ ok start)
      × All IsInRange (duration_fields 60 start c d f)
      × All IsInRange (duration_fields 65 c.timestamp c d f)
  IsConvertible (trigger_act c t n) = All IsInRange (activation_fields c t n)
  IsConvertible (trigger_exec c t n d f) =
      (start : ℤ) × (codec.start_of c.timestamp f ≡ ok start)
      × All IsInRange (handler_fields 50 start c t n f)
      × All IsInRange (handler_fields 55 c.timestamp c t n f)
  IsConvertible (program_flow c n ids) = All IsInRange (flow_fields c n)
  IsConvertible (time_box x) =
      (end : ℤ) × (codec.end_of x.timestamp x.exec_time ≡ ok end)
      × All IsInRange (box_fields 70 x.timestamp x)
      × All IsInRange (box_fields 75 end x)

  pub event_to_ctf-Packs :
      (ev : ParsedEvent F)
      → IsConvertible ev
      → (records : List (ℤ × Bytes)) × (event_to_ctf codec ev ≡ ok records)
  unfolding event_to_ctf IsConvertible
  event_to_ctf-Packs (port_write c p v ids) h = one-Packs c.timestamp (port_fields 10 c p v) h
  event_to_ctf-Packs (port_read c p v) h = one-Packs c.timestamp (port_fields 20 c p v) h
  event_to_ctf-Packs (port_peek c p v) h = one-Packs c.timestamp (port_fields 25 c p v) h
  event_to_ctf-Packs (exec_time c d f) (start, e, h, h') = rw e (
      two-Packs start c.timestamp (duration_fields 30 start c d f)
        (duration_fields 35 c.timestamp c d f) h h')
  event_to_ctf-Packs (remote_transfer_time c d f) (start, e, h, h') = rw e (
      two-Packs start c.timestamp (duration_fields 60 start c d f)
        (duration_fields 65 c.timestamp c d f) h h')
  event_to_ctf-Packs (trigger_act c t n) h = one-Packs c.timestamp (activation_fields c t n) h
  event_to_ctf-Packs (trigger_exec c t n d f) (start, e, h, h') = rw e (
      two-Packs start c.timestamp (handler_fields 50 start c t n f)
        (handler_fields 55 c.timestamp c t n f) h h')
  event_to_ctf-Packs (program_flow c n ids) h = one-Packs c.timestamp (flow_fields c n) h
  event_to_ctf-Packs (time_box x) (finish, e, h, h') =
      rw e
        (two-Packs x.timestamp finish (box_fields 70 x.timestamp x) (box_fields 75 finish x) h h')
