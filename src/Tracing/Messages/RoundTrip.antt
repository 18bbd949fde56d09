-- ===== src/Tracing/Messages/RoundTrip.antt =====
-- What becomes of a message that is serialized and received.
use flux_mcf.Prelude.{
  suc, String, Bool, true, not, ◌&&◌, some, List, [], ◌∷◌, length, any_of, ◌==◌, string_eq, ok,
  raise, value_error, type_error, key_error, none, ◌>>=◌, ◌≡◌, refl, ap, ◌∙◌, arith, nat_beq,
  nat_beq_iff, Bool-cases, inl, inr, ◌⊎◌,
}
use flux_mcf.Tracing.Messages.{
  MessageClass, Datum, Data, Attributes, end, attribute, nil, cons, Packed, missing, scalar, short,
  without_typeid, received, absent, without_length, sized, packed, typeid, field_names,
  dataclass_fields, get, data_length, values_of, serialize, zip_fields, all_known, filled,
  construct, unpack, port_descriptor, trigger_descriptor, port_write, port_peek, port_read,
  exec_time, port_trigger_activation, port_trigger_exec,
}

abbrev pub among : String → List String → Bool
among k ks = any_of (λ j. j == k) ks

abbrev pub all_among : List String → List String → Bool
all_among [] ks = true
all_among (j ∷ js) ks = among j ks && all_among js ks

abbrev pub distinct : List String → Bool
distinct [] = true
distinct (k ∷ ks) = not (among k ks) && distinct ks

among-all_among :
    (js ks : List String)
    → all_among js ks ≡ true
    → (k : String) → among k js ≡ true
    → among k ks ≡ true
among-all_among [] ks h k there = ground arith
among-all_among (j ∷ js) ks h k there = elim (Bool-cases (j == k)) [
  | inl e ↦ ground (arith, string_eq.beq_iff j k)
  | inr e ↦ among-all_among js ks (ground arith) k (ground arith)
]

module _ {F : Type 0} where
  abbrev pub names : Attributes F → List String
  names end = []
  names (attribute k v rest) = k ∷ names rest

  -- the attributes of an object of a class
  unfoldable pub IsObject : F → MessageClass → Attributes F → Type 0
  IsObject zero_time cls fields = names fields ≡ names (dataclass_fields zero_time cls)

  get-names :
      (k : String) (fields : Attributes F)
      → among k (names fields) ≡ true
      → (v : Datum F) × (get k fields ≡ some v)
  unfolding get
  get-names k end h = ground arith
  get-names k (attribute j v rest) h = elim (Bool-cases (j == k)) [
    | inl e ↦ (v, ground arith)
    | inr e ↦ (let (w, there) = get-names k rest (ground arith) in (w, ground arith))
  ]

  -- the values of some fields, and what they give back under the same names
  abbrev Values : List String → Attributes F → Data F → Type 0
  Values ks fields vs =
      (values_of ks fields ≡ ok vs)
      × (data_length vs ≡ length ks)
      × (names (zip_fields ks vs) ≡ ks)
      × ((k : String) → among k ks ≡ true → get k (zip_fields ks vs) ≡ get k fields)

  values_of_lem :
      (ks : List String) (fields : Attributes F)
      → all_among ks (names fields) ≡ true
      → (vs : Data F) × Values ks fields vs
  unfolding values_of zip_fields get
  values_of_lem [] fields h = (nil, (refl, refl, refl, λ k h'. ground arith))
  values_of_lem (k ∷ ks) fields h =
      let (v, there) = get-names k fields (ground arith) in
      let (vs, (e, len, ns, same)) = values_of_lem ks fields (ground arith) in
      (
        cons v vs,
        (
          rw (there, values_of) (rw e refl),
          ap suc len,
          ap (◌∷◌ k) ns,
          λ j h'. ground (arith, string_eq.beq_iff k j, there, same j),
        ),
      )

  all_known_lem :
      (fields kwargs : Attributes F)
      → all_among (names kwargs) (names fields) ≡ true
      → all_known fields kwargs ≡ true
  unfolding all_known
  all_known_lem fields end h = refl
  all_known_lem fields (attribute k v rest) h =
      let (w, there) = get-names k fields (ground arith) in
      rw (there, all_known) (all_known_lem fields rest (ground arith))

  filled_lem :
      (template kwargs fields : Attributes F)
      → names fields ≡ names template
      → distinct (names template) ≡ true
      → ((k : String) → among k (names template) ≡ true → get k kwargs ≡ get k fields)
      → filled template kwargs ≡ fields
  unfolding filled get
  filled_lem end kwargs end e d same = refl
  filled_lem end kwargs (attribute k v rest) e d same = ground arith
  filled_lem (attribute k v rest) kwargs end e d same = ground arith
  filled_lem (attribute k v rest) kwargs (attribute j w fields) e d same =
      let ej : j ≡ k = cc in
      let en : names fields ≡ names rest = cc in
      let here : get k kwargs ≡ some w =
        ground (arith, string_eq.beq_iff j k, string_eq.beq_iff k k, same k) in
      let later : filled rest kwargs ≡ fields =
        filled_lem rest kwargs fields en (ground arith)
          (λ i there. ground (arith, same i, string_eq.beq_iff j i, string_eq.beq_iff k i)) in
      rw here (rw (later, ej) refl)

  written :
      (zero_time : F) (cls : MessageClass)
      → all_among (field_names cls) (names (dataclass_fields zero_time cls)) ≡ true
  unfolding field_names dataclass_fields
  written zero_time port_descriptor = refl
  written zero_time trigger_descriptor = refl
  written zero_time port_write = refl
  written zero_time port_peek = refl
  written zero_time port_read = refl
  written zero_time exec_time = refl
  written zero_time port_trigger_activation = refl
  written zero_time port_trigger_exec = refl

  different :
      (zero_time : F) (cls : MessageClass)
      → distinct (names (dataclass_fields zero_time cls)) ≡ true
  unfolding dataclass_fields
  different zero_time port_descriptor = refl
  different zero_time trigger_descriptor = refl
  different zero_time port_write = refl
  different zero_time port_peek = refl
  different zero_time port_read = refl
  different zero_time exec_time = refl
  different zero_time port_trigger_activation = refl
  different zero_time port_trigger_exec = refl

  serialized :
      (zero_time : F) (cls : MessageClass)
      → all_among (names (dataclass_fields zero_time cls)) (field_names cls) ≡ true
  unfolding field_names dataclass_fields
  serialized zero_time port_descriptor = refl
  serialized zero_time trigger_descriptor = refl
  serialized zero_time port_write = refl
  serialized zero_time port_peek = refl
  serialized zero_time port_read = refl
  serialized zero_time exec_time = refl
  serialized zero_time port_trigger_activation = refl
  serialized zero_time port_trigger_exec = refl

  -- what passes the four checks of _unpack
  unfoldable pub IsAccepted : MessageClass → Packed F → Type 0
  IsAccepted cls (received (sized vs) (some id)) =
      (id ≡ typeid cls) × (data_length vs ≡ length (field_names cls))
  IsAccepted cls _ = ⊥

  -- something without a length where the length is asked for
  unfoldable pub LacksLength : MessageClass → Packed F → Type 0
  LacksLength cls scalar = Unit
  LacksLength cls (received without_length (some id)) = id ≡ typeid cls
  LacksLength cls _ = ⊥

  -- a dictionary without an entry that is asked for
  unfoldable pub LacksEntry : MessageClass → Packed F → Type 0
  LacksEntry cls without_typeid = Unit
  LacksEntry cls (received absent (some id)) = id ≡ typeid cls
  LacksEntry cls _ = ⊥

  unpack-packed :
      (zero_time : F) (cls : MessageClass) (vs : Data F)
      → data_length vs ≡ length (field_names cls)
      → unpack zero_time cls (packed vs (typeid cls))
        ≡ construct zero_time cls (zip_fields (field_names cls) vs)
  unfolding unpack
  unpack-packed zero_time cls vs len = ground (
    arith,
    string_eq.beq_iff (typeid cls) (typeid cls),
    nat_beq_iff (data_length vs) (length (field_names cls)),
  )

  names-zip_fields :
      (ks : List String) (vs : Data F) → data_length vs ≡ length ks → names (zip_fields ks vs) ≡ ks
  unfolding zip_fields
  names-zip_fields [] vs len = refl
  names-zip_fields (k ∷ ks) nil len = absurd (omega arith)
  names-zip_fields (k ∷ ks) (cons v vs) len = ap (◌∷◌ k) (names-zip_fields ks vs (omega arith))

  names-filled : (template kwargs : Attributes F) → names (filled template kwargs) ≡ names template
  unfolding filled
  names-filled end kwargs = refl
  names-filled (attribute k v rest) kwargs = ap (◌∷◌ k) (names-filled rest kwargs)

  -- a list of values with a type id
  unpack_list :
      (zero_time : F) (cls : MessageClass) (vs : Data F) (id : String)
      → (IsAccepted cls (packed vs id)
          × ((fields : Attributes F) × IsObject zero_time cls fields
              × (unpack zero_time cls (packed vs id) ≡ ok fields)))
        ⊎ ((¬ IsAccepted cls (packed vs id))
            × (unpack zero_time cls (packed vs id) ≡ raise value_error))
  unfolding IsAccepted unpack IsObject
  unpack_list zero_time cls vs id = elim (Bool-cases (id == typeid cls)) [
    | inr e ↦ inr (λ (e', len). ground (arith, string_eq.beq_iff id (typeid cls)), rw e refl)
    | inl e ↦ elim (Bool-cases (nat_beq (data_length vs) (length (field_names cls)))) [
      | inr e' ↦ inr (
        λ (e'', len). ground (arith, nat_beq_iff (data_length vs) (length (field_names cls))),
        rw e (rw e' refl),
      )
      | inl e' ↦
          (let ei : id ≡ typeid cls = (string_eq.beq_iff id (typeid cls)).0 e in
            let len = (nat_beq_iff (data_length vs) (length (field_names cls))).0 e' in
            let template = dataclass_fields zero_time cls in
            let kwargs = zip_fields (field_names cls) vs in
            let known : all_known template kwargs ≡ true =
              all_known_lem template kwargs
                (rw (names-zip_fields (field_names cls) vs len) (written zero_time cls)) in
            inl (
              (ei, len),
              (
                filled template kwargs,
                names-filled template kwargs,
                rw ei (unpack-packed zero_time cls vs len ∙ rw (known, construct) refl),
              ),
            ))
    ]
  ]

  -- `_unpack` gives an object of the class exactly if it receives the type id of the class and as
  -- many values as the class has field names. It raises a TypeError exactly if something without a
  -- length stands where the length is asked for, a KeyError exactly if a dictionary lacks an entry
  -- that is asked for, and a ValueError in all other cases: the keyword arguments of the constructor
  -- are never refused.
  pub unpack-Outcome :
      (zero_time : F) (cls : MessageClass) (p : Packed F)
      → (IsAccepted cls p
          × ((fields : Attributes F) × IsObject zero_time cls fields
              × (unpack zero_time cls p ≡ ok fields)))
        ⊎ (LacksLength cls p × (unpack zero_time cls p ≡ raise type_error))
        ⊎ (LacksEntry cls p × (unpack zero_time cls p ≡ raise key_error))
        ⊎ ((¬ IsAccepted cls p)
            × (¬ LacksLength cls p)
            × (¬ LacksEntry cls p)
            × (unpack zero_time cls p ≡ raise value_error))
  unfolding IsAccepted LacksLength LacksEntry unpack
  unpack-Outcome zero_time cls missing = inr (inr (inr (λ h. h, λ h. h, λ h. h, refl)))
  unpack-Outcome zero_time cls scalar = inr (inl (tt, refl))
  unpack-Outcome zero_time cls short = inr (inr (inr (λ h. h, λ h. h, λ h. h, refl)))
  unpack-Outcome zero_time cls without_typeid = inr (inr (inl (tt, refl)))
  unpack-Outcome zero_time cls (received absent none) =
      inr (inr (inr (λ h. h, λ h. h, λ h. h, refl)))
  unpack-Outcome zero_time cls (received without_length none) =
      inr (inr (inr (λ h. h, λ h. h, λ h. h, refl)))
  unpack-Outcome zero_time cls (received (sized vs) none) =
      inr (inr (inr (λ h. h, λ h. h, λ h. h, refl)))
  unpack-Outcome zero_time cls (received absent (some id)) = elim (Bool-cases (id == typeid cls)) [
    | inl e ↦ inr (inr (inl ((string_eq.beq_iff id (typeid cls)).0 e, rw e refl)))
    | inr e ↦ inr (
        inr (
          inr (λ h. h, λ h. h, λ e'. ground (arith, string_eq.beq_iff id (typeid cls)), rw e refl)))
  ]
  unpack-Outcome zero_time cls (received without_length (some id)) =
      elim (Bool-cases (id == typeid cls)) [
        | inl e ↦ inr (inl ((string_eq.beq_iff id (typeid cls)).0 e, rw e refl))
        | inr e ↦ inr (
            inr (
              inr (
                λ h. h,
                λ e'. ground (arith, string_eq.beq_iff id (typeid cls)),
                λ h. h,
                rw e refl,
              )))
      ]
  unpack-Outcome zero_time cls (received (sized vs) (some id)) =
      elim (unpack_list zero_time cls vs id) [
        | inl taken ↦ inl taken
        | inr (refused, raises) ↦ inr (inr (inr (refused, λ h. h, λ h. h, raises)))
      ]

  -- An object with the attributes of its class is serialized without an error, and `_unpack` gives
  -- its attributes back from the values and the type id.
  pub unpack-serialize :
      (zero_time : F) (cls : MessageClass) (fields : Attributes F)
      → IsObject zero_time cls fields
      → (do (vs, id) ← serialize cls fields; unpack zero_time cls (packed vs id)) ≡ ok fields
  unfolding IsObject serialize construct
  unpack-serialize zero_time cls fields h =
      let (vs, (e, len, ns, same)) =
        values_of_lem (field_names cls) fields (rw h (written zero_time cls)) in
      let template = dataclass_fields zero_time cls in
      let kwargs = zip_fields (field_names cls) vs in
      let known : all_known template kwargs ≡ true =
        all_known_lem template kwargs (rw ns (written zero_time cls)) in
      let back : filled template kwargs ≡ fields =
        filled_lem template kwargs fields h (different zero_time cls) (λ k there. same k (
          among-all_among (names template) (field_names cls) (serialized zero_time cls) k there)) in
      let accepted : unpack zero_time cls (packed vs (typeid cls))
          ≡ construct zero_time cls kwargs =
        unpack-packed zero_time cls vs len in
      rw (e, serialize) (rw accepted (rw (known, construct) (rw back refl)))
