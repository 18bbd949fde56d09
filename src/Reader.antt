-- ===== src/Reader.antt =====
-- `RecordReader` of mcf_py/mcf/record_reader.py. The file is the list of its bytes. An unpacker is
-- the position of the file at which it was made and the number of bytes that it has unpacked since;
-- what it reads ahead is not observable, since the code seeks before it makes a new one.
pub mod RoundTrip
use flux_mcf.Prelude.{
  ℕ, zero, suc, ◌+◌, ◌-◌, String, Bool, true, false, Option, none, some, List, [], ◌∷◌, drop, take,
  if◌then◌else◌, nat_beq, Result, ok, raise, type_error, ◌>>=◌,
}
use flux_mcf.Recorder.Format.{Packed, header, body, extmem_header, Codec}

-- RecordReader.Record
pub record Record (A : Type 0) : Type 0 where
  pub timestamp : ℕ
  pub topic : String
  pub typeid : String
  pub valueid : ℕ
  pub value : Packed A
  pub value_size : ℕ
  pub extmem_size : ℕ
  pub extmem_index : ℕ
  pub extmem_present : Bool
  pub extmem_size_compressed : ℕ

pub record Unpacker : Type 0 where
  pub file_start_pos : ℕ
  pub told : ℕ

-- `m_header[2]`, which older recordings do not have
abbrev pub size_or_zero : Option ℕ → ℕ
size_or_zero none = 0
size_or_zero (some n) = n

-- the bytes of extmem data in the file
abbrev pub stored_size : ℕ → ℕ → ℕ
stored_size size size_compressed = if nat_beq size_compressed 0 then size else size_compressed

module _ {A B : Type 0} (codec : Codec A B) (file : List B) where
  -- the object, and the unpacker after its bytes
  abbrev pub advanced : Unpacker → Option (Packed A × ℕ) → Option (Packed A × Unpacker)
  advanced u none = none
  advanced u (some (o, n)) = some (o, record u { told = u.told + n })

  -- unpacker.unpack(), with `none` for OutOfData
  unfoldable pub unpack : Unpacker → Option (Packed A × Unpacker)
  unpack u = advanced u (codec.unpack (drop (u.file_start_pos + u.told) file))

  -- the unpacker after extmem data, which is skipped by a new one
  unfoldable pub skip_extmem : Bool → ℕ → Unpacker → Unpacker
  skip_extmem present size u =
      if present then record { file_start_pos = u.file_start_pos + u.told + size; told = 0 } else u

  -- The record of a header, a value and an extmem header, read up to `u`. Any other object there
  -- cannot be indexed.
  unfoldable pub make_record :
      Packed A → Packed A → Packed A → ℕ → Unpacker → Result (Record A × Unpacker)
  unfolding skip_extmem
  make_record (header time topic tid vid) value (extmem_header size present compressed) value_size
        u =
      ok (
        record {
          timestamp = time;
          topic = topic;
          typeid = tid;
          valueid = vid;
          value = value;
          value_size = value_size;
          extmem_size = size;
          extmem_index = u.file_start_pos + u.told;
          extmem_present = present;
          extmem_size_compressed = size_or_zero compressed;
        },
        skip_extmem present (stored_size size (size_or_zero compressed)) u,
      )
  make_record _ _ _ value_size u = raise type_error

  -- one pass of the loops, with `none` for OutOfData: what follows the unpacking of the extmem
  -- header, of the value and of the header
  unfoldable pub after_m_header :
      Packed A → Packed A → ℕ → Option (Packed A × Unpacker) → Result (Option (Record A × Unpacker))
  unfolding make_record
  after_m_header p_header value value_size none = ok none
  after_m_header p_header value value_size (some (m_header, u)) = do
    r ← make_record p_header value m_header value_size u
    ok (some r)

  unfoldable pub after_value :
      Packed A → Unpacker → Option (Packed A × Unpacker) → Result (Option (Record A × Unpacker))
  unfolding after_m_header unpack
  after_value p_header u none = ok none
  after_value p_header u (some (value, u')) =
      after_m_header p_header value (u'.told - u.told) (unpack u')

  unfoldable pub after_header : Option (Packed A × Unpacker) → Result (Option (Record A × Unpacker))
  unfolding after_value unpack
  after_header none = ok none
  after_header (some (p_header, u)) = after_value p_header u (unpack u)

  unfoldable pub read_record : Unpacker → Result (Option (Record A × Unpacker))
  unfolding unpack after_header
  read_record u = after_header (unpack u)

  -- the loop of records_generator, on fuel; the Boolean says whether it ended by itself
  unfoldable pub generate : ℕ → (Record A → Bool) → Unpacker → Result (List (Record A) × Bool)
  unfolding read_record
  generate zero filter u = ok ([], false)
  generate (suc fuel) filter u = do
    next ← read_record u
    elim next [
      | none ↦ ok ([], true)
      | some (r, u') ↦ (do
        (rs, ended) ← generate fuel filter u'
        ok (if filter r then r ∷ rs else rs, ended))
    ]

  -- records_generator, from the start of the file
  unfoldable pub records_generator : ℕ → (Record A → Bool) → Result (List (Record A) × Bool)
  unfolding generate
  records_generator fuel filter = generate fuel filter (record { file_start_pos = 0; told = 0 })

  unfoldable pub get_extmem : Record A → Option (List B)
  get_extmem r =
      if r.extmem_present
      then some (
          if nat_beq r.extmem_size_compressed 0
          then take r.extmem_size (drop r.extmem_index file)
          else codec.decompress (take r.extmem_size_compressed (drop r.extmem_index file)))
      else none
