-- ===== src/Ctf.antt =====
-- The fields that mcf_tools/component_tracing/event_serialization.py packs. Events has the events and
-- their serializers. UTF-8 and the packing of floats are Python's.
pub mod Events
pub mod Layout
pub mod Fields
pub mod Ranges
pub mod Details
pub mod Records
pub mod Reading
use flux_mcf.Prelude.{
  ℕ, zero, suc, ◌+◌, ◌-◌, ◌*◌, ◌/◌, ◌%◌, ◌^◌, ◌≡◌, Bool, true, false, List, [], ◌∷◌, ◌++◌, length,
  ltb, All, nat_beq, if◌then◌else◌, Result, ok, raise, struct_error, ◌>>=◌,
}
use flux_mcf.Prelude.Text.{Text}
use flux_mcf.Tracing.Messages.{ℤ, pos, negsuc}

abbrev pub Bytes : Type 0
Bytes = List ℕ

-- `bytes(string, 'utf-8')`, struct's format `f`, and their inverses. `single` rounds to single precision;
-- `start_of t d` is `int(round(t - d * 1.e6))`, which raises for no number and for an
-- infinite one, and `end_of t d` the same with a plus. UTF-8 has no lone surrogates.
pub record Codec (F : Type 0) : Type 0 where
  pub utf8 : Text → Result Bytes
  pub decode : Bytes → Text
  pub pack_float : F → Result Bytes
  pub unpack_float : Bytes → F
  pub single : F → F
  pub start_of : ℤ → F → Result ℤ
  pub end_of : ℤ → F → Result ℤ

-- no character is NUL
abbrev pub HasNoNul : Text → Type 0
HasNoNul s = All (λ c. nat_beq c 0 ≡ false) s

-- what Python documents of them
pub record CodecLaws {F : Type 0} (codec : Codec F) : Type 0 where
  pub decode-utf8 : (s : Text) (b : Bytes) → codec.utf8 s ≡ ok b → codec.decode b ≡ s
  pub utf8_nul : (s : Text) (b : Bytes) → codec.utf8 s ≡ ok b → HasNoNul s → HasNoNul b
  pub length-float : (f : F) (b : Bytes) → codec.pack_float f ≡ ok b → length b ≡ 4
  pub unpack_float-pack_float :
      (f : F) (b : Bytes) → codec.pack_float f ≡ ok b → codec.unpack_float b ≡ codec.single f

-- what is packed: an unsigned integer of a number of bytes, an `int32_t`, a string, a float
pub data Field (F : Type 0) : Type 0 where
  unsigned : ℕ → ℤ → Field F
  signed : ℤ → Field F
  string : Text → Field F
  float : F → Field F

-- the bytes of a number, the lowest first
unfoldable pub little_endian : ℕ → ℕ → Bytes
little_endian zero n = []
little_endian (suc w) n = n % 256 ∷ little_endian w (n / 256)

unfoldable pub pack_unsigned : ℕ → ℤ → Result Bytes
unfolding little_endian
pack_unsigned w (pos n) = if ltb n (256 ^ w) then ok (little_endian w n) else raise struct_error
pack_unsigned w (negsuc n) = raise struct_error

-- `<l`, in two's complement
unfoldable pub pack_signed : ℤ → Result Bytes
unfolding little_endian
pack_signed (pos n) = if ltb n (2 ^ 31) then ok (little_endian 4 n) else raise struct_error
pack_signed (negsuc n) =
    if ltb n (2 ^ 31) then ok (little_endian 4 (2 ^ 32 - suc n)) else raise struct_error

module _ {F : Type 0} (codec : Codec F) where
  unfoldable pub null_term_string : Text → Result Bytes
  null_term_string s = do b ← codec.utf8 s; ok (b ++ 0 ∷ [])

  unfoldable pub pack : Field F → Result Bytes
  unfolding pack_unsigned pack_signed null_term_string
  pack (unsigned w n) = pack_unsigned w n
  pack (signed n) = pack_signed n
  pack (string s) = null_term_string s
  pack (float f) = codec.pack_float f

  -- the packed fields one after the other
  unfoldable pub pack_all : List (Field F) → Result Bytes
  unfolding pack
  pack_all [] = ok []
  pack_all (f ∷ fs) = do b ← pack f; bs ← pack_all fs; ok (b ++ bs)
