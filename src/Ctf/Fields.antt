-- ===== src/Ctf/Fields.antt =====
-- One field, and a sequence of fields, written and read back.
use flux_mcf.Prelude.{
  ℕ, zero, suc, ◌-◌, ◌*◌, ◌/◌, ◌^◌, ◌<◌, String, ◌≡◌, refl, sym, ap, ◌∙◌, true, false, some, List,
  [], ◌∷◌, ◌++◌, append_assoc, length, length-append, take-length, drop-length, ltb, leb, map, All,
  ok, bind-ok, arith, Bool-cases, inl, inr,
}
use native.Mathlib.Numerals.{unary_clauses}
use flux_mcf.Tracing.Messages.{ℤ, pos, negsuc}
use flux_mcf.Ctf.{
  Bytes, Codec, CodecLaws, HasNoNul, Field, unsigned, signed, string, float, little_endian,
  pack_unsigned, pack_signed, null_term_string, pack, pack_all,
}
use flux_mcf.Ctf.Layout.{
  FieldType, uint, int32, string_type, float_type, StructType, number_of, signed_of, until_nul,
  front, read_field, read_struct,
}

length-little_endian : (w n : ℕ) → length (little_endian w n) ≡ w
unfolding little_endian
length-little_endian zero n = refl
length-little_endian (suc w) n = ap suc (length-little_endian w (n / 256))

number_of-little_endian : (w n : ℕ) → n < 256 ^ w → number_of (little_endian w n) ≡ n
unfolding little_endian number_of
number_of-little_endian zero n h = omega arith
number_of-little_endian (suc w) n h =
    let h' : n < 256 ^ w * 256 = simp unary_clauses at h in
    let e = number_of-little_endian w (n / 256) (omega arith) in rw e (omega arith)

front-append : (w : ℕ) (b rest : Bytes) → length b ≡ w → front w (b ++ rest) ≡ some (b, rest)
unfolding front
front-append w b rest e =
    let fits : leb (length b) (length (b ++ rest)) ≡ true = ground (arith, length-append b rest) in
    rw (sym e) (rw (fits, take-length b rest, drop-length b rest) refl)

until_nul-append : (b rest : Bytes) → HasNoNul b → until_nul (b ++ 0 ∷ [] ++ rest) ≡ some (b, rest)
unfolding until_nul
until_nul-append [] rest h = refl
until_nul-append (c ∷ cs) rest (here, later) =
    rw (here, until_nul) (rw (until_nul-append cs rest later) refl)

-- the bytes of a number that fits
packed-unsigned :
    (w : ℕ) (n : ℤ) (b : Bytes)
    → pack_unsigned w n ≡ ok b
    → (length b ≡ w) × (pos (number_of b) ≡ n)
unfolding pack_unsigned
packed-unsigned w (negsuc n) b h = ground arith
packed-unsigned w (pos n) b h = elim (Bool-cases (ltb n (256 ^ w))) [
  | inr e ↦ ground (arith, e, h)
  | inl e ↦
      (let same : little_endian w n ≡ b = ground (arith, e, h) in
        let fits : n < 256 ^ w = ground (arith, e) in
        (
          ap length (sym same) ∙ length-little_endian w n,
          ap pos (ap number_of (sym same) ∙ number_of-little_endian w n fits),
        ))
]

packed-signed :
    (n : ℤ) (b : Bytes) → pack_signed n ≡ ok b → (length b ≡ 4) × (signed_of (number_of b) ≡ n)
unfolding pack_signed signed_of
packed-signed (pos n) b h = elim (Bool-cases (ltb n (2 ^ 31))) [
  | inr e ↦ ground (arith, e, h)
  | inl e ↦
      (let same : little_endian 4 n ≡ b = ground (arith, e, h) in
        let fits : n < 256 ^ 4 = ground (arith, e) in
        (
          ap length (sym same) ∙ length-little_endian 4 n,
          ap signed_of (ap number_of (sym same) ∙ number_of-little_endian 4 n fits) ∙ rw e refl,
        ))
]
packed-signed (negsuc n) b h = elim (Bool-cases (ltb n (2 ^ 31))) [
  | inr e ↦ ground (arith, e, h)
  | inl e ↦
      (let m = 2 ^ 32 - suc n in
        let same : little_endian 4 m ≡ b = ground (arith, e, h) in
        let fits : m < 256 ^ 4 = ground (arith, e) in
        let high : ltb m (2 ^ 31) ≡ false = ground (arith, e) in
        let back : 2 ^ 32 - suc m ≡ n = ground (arith, e) in
        (
          ap length (sym same) ∙ length-little_endian 4 m,
          ap signed_of (ap number_of (sym same) ∙ number_of-little_endian 4 m fits)
              ∙ rw high (ap negsuc back),
        ))
]

abbrev pub type_of : {F : Type 0} → Field F → FieldType
type_of (unsigned w n) = uint w
type_of (signed n) = int32
type_of (string s) = string_type
type_of (float f) = float_type

module _ {F : Type 0} (codec : Codec F) where
  -- a field as it is read: with a float in single precision
  abbrev pub stored : Field F → Field F
  stored (unsigned w n) = unsigned w n
  stored (signed n) = signed n
  stored (string s) = string s
  stored (float f) = float (codec.single f)

  -- no string with a NUL
  abbrev pub IsClean : Field F → Type 0
  IsClean (unsigned w n) = Unit
  IsClean (signed n) = Unit
  IsClean (string s) = HasNoNul s
  IsClean (float f) = Unit

  module _ (laws : CodecLaws codec) where
    read_field-pack :
        (f : Field F) (b rest : Bytes)
        → IsClean f
        → pack codec f ≡ ok b
        → read_field codec (type_of f) (b ++ rest) ≡ some (stored f, rest)
    unfolding pack read_field null_term_string
    read_field-pack (unsigned w n) b rest clean h =
        let (len, same) = packed-unsigned w n b h in
        rw (front-append w b rest len, read_field) (rw same refl)
    read_field-pack (signed n) b rest clean h =
        let (len, same) = packed-signed n b h in
        rw (front-append 4 b rest len, read_field) (rw same refl)
    read_field-pack (string s) b rest clean h =
        let (u, e, h') = bind-ok (codec.utf8 s) _ b h in
        let same : u ++ 0 ∷ [] ≡ b = ground (arith, h') in
        rw (sym same) (
          rw (until_nul-append u rest (laws.utf8_nul s u e clean), read_field)
            (rw (laws.decode-utf8 s u e) refl))
    read_field-pack (float f) b rest clean h =
        rw (front-append 4 b rest (laws.length-float f b h), read_field)
          (rw (laws.unpack_float-pack_float f b h) refl)

    -- the names of a layout with some fields
    abbrev pub named : StructType → List (Field F) → List (String × Field F)
    named [] fs = []
    named (t ∷ types) [] = []
    named (t ∷ types) (f ∷ fs) = (t.0, stored f) ∷ named types fs

    pub read_struct-pack_all :
        (types : StructType) (fs : List (Field F)) (b rest : Bytes)
        → map (λ t. t.1) types ≡ map type_of fs
        → All IsClean fs
        → pack_all codec fs ≡ ok b
        → read_struct codec types (b ++ rest) ≡ some (named types fs, rest)
    unfolding pack_all read_struct
    read_struct-pack_all [] [] b rest e clean h =
        let empty : [] ≡ b = ground (arith, h) in rw (sym empty) refl
    read_struct-pack_all [] (f ∷ fs) b rest e clean h = ground arith
    read_struct-pack_all (t ∷ types) [] b rest e clean h = ground arith
    read_struct-pack_all ((name, t) ∷ types) (f ∷ fs) b rest e (here, later) h =
        let (first, e1, h1) = bind-ok (pack codec f) _ b h in
        let (more, e2, h2) = bind-ok (pack_all codec fs) _ b h1 in
        let et : t ≡ type_of f = cc in
        let ets : map (λ t. t.1) types ≡ map type_of fs = cc in
        let parts : first ++ more ≡ b = ground (arith, h2) in
        let first_read = read_field-pack f first (more ++ rest) here e1 in
        let more_read = read_struct-pack_all types fs more rest ets later e2 in
        rw (sym parts) (
          rw (append_assoc first more rest)
            (rw et (rw (first_read, read_struct) (rw more_read refl))))
