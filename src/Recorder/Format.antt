-- ===== src/Recorder/Format.antt =====
-- The parts of a recording: what mcf_py/mcf_core/value_recorder.py writes and
-- mcf_py/mcf/record_reader.py reads. `B` is the type of the bytes. msgpack and zlib are the fields of `Codec`.
use flux_mcf.Prelude.{ℕ, ◌<◌, ◌≡◌, String, Bool, Option, none, some, List, [], ◌++◌, length}

-- The objects of a recording: the header, the value, and the header of the extmem data, which older
-- recordings write without the compressed size.
pub data Packed (A : Type 0) : Type 0 where
  header : (time : ℕ) (topic tid : String) (vid : ℕ) → Packed A
  body : A → Packed A
  extmem_header : (size : ℕ) (present : Bool) (size_compressed : Option ℕ) → Packed A

-- `unpack` gives the object at the front and the number of its bytes; its `none` is OutOfData. The
-- `none` of `compress` is zlib.error.
pub record Codec (A B : Type 0) : Type 0 where
  pub packb : Packed A → List B
  pub unpack : List B → Option (Packed A × ℕ)
  pub compress : List B → Option (List B)
  pub decompress : List B → List B

-- Packing and compression can be undone, and compressed data is not empty.
pub record CodecLaws {A B : Type 0} (c : Codec A B) : Type 0 where
  pub unpack-packb :
      (o : Packed A) (rest : List B) → c.unpack (c.packb o ++ rest) ≡ some (o, length (c.packb o))
  pub unpack-nil : c.unpack [] ≡ none
  pub decompress-compress : (d z : List B) → c.compress d ≡ some z → c.decompress z ≡ d
  pub compress_nonempty : (d z : List B) → c.compress d ≡ some z → 0 < length z
