-- ===== src/Ctf/Records.antt =====
-- One record, read by a reader that follows the metadata.
use flux_mcf.Prelude.{
  ℕ, String, ◌≡◌, refl, sym, ap, ◌∙◌, some, List, [], ◌∷◌, ◌++◌, append_assoc, map, All, Result, ok,
  bind-ok, string_eq, arith,
}
use flux_mcf.Prelude.Dict.{lookup}
use flux_mcf.Prelude.Text.{Text}
use flux_mcf.Tracing.Messages.{ℤ, pos}
use flux_mcf.Ctf.{
  Bytes, Codec, CodecLaws, HasNoNul, Field, unsigned, signed, string, float, pack, pack_all,
}
use flux_mcf.Ctf.Events.{
  Common, Port, TimeBox, exec_time, trigger_act, trigger_exec, program_flow, time_box, bit, header,
  port_fields, duration_fields, activation_fields, handler_fields, flow_fields, box_fields,
  one_record, two_records,
}
use flux_mcf.Ctf.Layout.{
  StructType, port_event, exec_event, handler_event, box_event, event_header, layout, event_type,
  read_event, id_of,
}
use flux_mcf.Ctf.Fields.{type_of, IsClean, named, read_struct-pack_all}
use flux_mcf.Ctf.Details.{details, port_details, texts, IsRead, AreRead}

module _ {F : Type 0} (codec : Codec F) (laws : CodecLaws codec) where
  pack_all-append :
      (xs ys : List (Field F)) (b : Bytes)
      → pack_all codec (xs ++ ys) ≡ ok b
      → (p : Bytes) × (q : Bytes) × (pack_all codec xs ≡ ok p)
        × (pack_all codec ys ≡ ok q)
        × (p ++ q ≡ b)
  unfolding pack_all
  pack_all-append [] ys b h = ([], b, refl, h, refl)
  pack_all-append (x ∷ xs) ys b h =
      let (first, e1, h1) = bind-ok (pack codec x) _ b h in
      let (more, e2, h2) = bind-ok (pack_all codec (xs ++ ys)) _ b h1 in
      let (p, q, ep, eq, e) = pack_all-append xs ys more e2 in
      let whole : first ++ more ≡ b = ground (arith, h2) in
      (
        first ++ p,
        q,
        rw e1 (rw ep refl),
        eq,
        append_assoc first p q ∙ ap (λ x. first ++ x) e ∙ whole,
      )

  -- a record with a header and the fields of its layout
  read_event-pack_all :
      (id : ℕ) (name : String) (types : StructType) (time : ℤ) (fs : List (Field F))
      (b rest : Bytes)
      → event_type id layout ≡ some (name, types)
      → map (λ t. t.1) types ≡ map type_of fs
      → All (IsClean codec) fs
      → pack_all codec (header id time fs) ≡ ok b
      → read_event codec (b ++ rest)
        ≡ some (
          name,
          ("id", unsigned 2 (pos id)) ∷ ("timestamp", unsigned 8 time) ∷ named codec laws types fs,
          rest,
        )
  unfolding read_event id_of
  read_event-pack_all id name types time fs b rest known shape clean h =
      let (p, q, ep, eq, e) = pack_all-append (header id time []) fs b h in
      let head =
        read_struct-pack_all codec laws event_header (header id time []) p (q ++ rest) refl
          (tt, (tt, tt)) ep in
      let body = read_struct-pack_all codec laws types fs q rest shape clean eq in
      rw (sym e)
        (rw (append_assoc p q rest) (rw (head, read_event) (rw (known, read_event) (rw body refl))))

  pub one-AreRead :
      (rest : Bytes) (ds : List (String × Field F)) (name : String) (time : ℤ) (fs : List (Field F))
      (records : List (ℤ × Bytes))
      → one_record codec time fs ≡ ok records
      → ((b : Bytes) → pack_all codec fs ≡ ok b → IsRead codec rest ds name (time, b))
      → AreRead codec rest ds ((name, ok time) ∷ []) records
  one-AreRead rest ds name time fs records h is_read =
      let (b, e, e') = bind-ok (pack_all codec fs) _ records h in
      let same : (time, b) ∷ [] ≡ records = ground (arith, e') in
      rw (sym same) (refl, is_read b e, tt)

  pub two-AreRead :
      (rest : Bytes) (ds : List (String × Field F)) (name name' : String) (start end : ℤ)
      (t t' : Result ℤ) (fs fs' : List (Field F)) (records : List (ℤ × Bytes))
      → two_records codec start fs end fs' ≡ ok records
      → t ≡ ok start
      → t' ≡ ok end
      → ((b : Bytes) → pack_all codec fs ≡ ok b → IsRead codec rest ds name (start, b))
      → ((b : Bytes) → pack_all codec fs' ≡ ok b → IsRead codec rest ds name' (end, b))
      → AreRead codec rest ds ((name, t) ∷ (name', t') ∷ []) records
  two-AreRead rest ds name name' start end t t' fs fs' records h is_start is_end first second =
      let (b, e, h') = bind-ok (pack_all codec fs) _ records h in
      let (b', e', h'') = bind-ok (pack_all codec fs') _ records h' in
      let same : (start, b) ∷ (end, b') ∷ [] ≡ records = ground (arith, h'') in
      rw (sym same) (is_start, first b e, (is_end, second b' e', tt))

  pub port-IsRead :
      (id : ℕ) (name : String)
      → event_type id layout ≡ some (name, port_event)
      → (c : Common) (p : Port) (v : ℤ)
      → All HasNoNul (c.recording_id ∷ c.component_name ∷ p.name ∷ p.topic ∷ [])
      → (rest b : Bytes) → pack_all codec (port_fields id c p v) ≡ ok b
      → IsRead codec rest (port_details codec c p v) name (c.timestamp, b)
  unfolding port_fields lookup
  port-IsRead id name known c p v (h1, (h2, (h3, (h4, h5)))) rest b h = (
    _,
    read_event-pack_all id name port_event c.timestamp
        (string c.recording_id
          ∷ string c.component_name
          ∷ string p.name
          ∷ string p.topic
          ∷ unsigned 1 (bit p.connected)
          ∷ unsigned 8 v
          ∷ signed c.thread_id
          ∷ signed c.cpu_id
          ∷ [])
        b rest known refl (h1, (h2, (h3, (h4, (tt, (tt, (tt, (tt, tt)))))))) h,
    refl,
    (refl, (refl, (refl, (refl, (refl, (refl, (refl, (refl, tt)))))))),
  )

  pub duration-IsRead :
      (id : ℕ) (name : String)
      → event_type id layout ≡ some (name, exec_event)
      → (time : ℤ) (c : Common) (d : Text) (f : F)
      → All HasNoNul (c.recording_id ∷ c.component_name ∷ d ∷ [])
      → (rest b : Bytes) → pack_all codec (duration_fields id time c d f) ≡ ok b
      → IsRead codec rest (details codec (exec_time c d f)) name (time, b)
  unfolding duration_fields lookup
  duration-IsRead id name known time c d f (h1, (h2, (h3, h4))) rest b h = (
    _,
    read_event-pack_all id name exec_event time
        (string c.recording_id
          ∷ string c.component_name
          ∷ string d
          ∷ float f
          ∷ signed c.thread_id
          ∷ signed c.cpu_id
          ∷ [])
        b rest known refl (h1, (h2, (h3, (tt, (tt, (tt, tt)))))) h,
    refl,
    (refl, (refl, (refl, (refl, (refl, (refl, tt)))))),
  )

  pub handler-IsRead :
      (id : ℕ) (name : String)
      → event_type id layout ≡ some (name, handler_event)
      → (time : ℤ) (c : Common) (t : Text) (n : ℤ) (f : F)
      → All HasNoNul (c.recording_id ∷ c.component_name ∷ t ∷ [])
      → (rest b : Bytes) → pack_all codec (handler_fields id time c t n f) ≡ ok b
      → IsRead codec rest (details codec (trigger_exec c t n [] f)) name (time, b)
  unfolding handler_fields lookup
  handler-IsRead id name known time c t n f (h1, (h2, (h3, h4))) rest b h = (
    _,
    read_event-pack_all id name handler_event time
        (string c.recording_id
          ∷ string c.component_name
          ∷ string t
          ∷ unsigned 8 n
          ∷ float f
          ∷ signed c.thread_id
          ∷ signed c.cpu_id
          ∷ [])
        b rest known refl (h1, (h2, (h3, (tt, (tt, (tt, (tt, tt))))))) h,
    refl,
    (refl, (refl, (refl, (refl, (refl, (refl, (refl, tt))))))),
  )

  pub box-IsRead :
      (id : ℕ) (name : String)
      → event_type id layout ≡ some (name, box_event)
      → (time : ℤ) (x : TimeBox F) → All HasNoNul (texts (time_box x))
      → (rest b : Bytes) → pack_all codec (box_fields id time x) ≡ ok b
      → IsRead codec rest (details codec (time_box x)) name (time, b)
  unfolding box_fields lookup
  box-IsRead id name known time x (h1, (h2, (h3, h4))) rest b h = (
    _,
    read_event-pack_all id name box_event time
        (string x.trace_id
          ∷ string x.box_name
          ∷ unsigned 4 x.box_id
          ∷ unsigned 4 x.completion_status_id
          ∷ string x.completion_status
          ∷ [])
        b rest known refl (h1, (h2, (tt, (tt, (h3, tt))))) h,
    refl,
    (refl, (refl, (refl, (refl, (refl, tt))))),
  )

  pub activation-IsRead :
      (c : Common) (t : Text) (n : ℤ)
      → All HasNoNul (c.recording_id ∷ c.component_name ∷ t ∷ [])
      → (rest b : Bytes) → pack_all codec (activation_fields c t n) ≡ ok b
      → IsRead codec rest (details codec (trigger_act c t n)) "port_trigger_act" (c.timestamp, b)
  unfolding activation_fields layout event_type lookup
  activation-IsRead c t n (h1, (h2, (h3, h4))) rest b h = (
    _,
    read_event-pack_all 40 "port_trigger_act" _ c.timestamp
        (string c.recording_id
          ∷ string c.component_name
          ∷ string t
          ∷ unsigned 8 n
          ∷ signed c.thread_id
          ∷ signed c.cpu_id
          ∷ [])
        b rest refl refl (h1, (h2, (h3, (tt, (tt, (tt, tt)))))) h,
    refl,
    (refl, (refl, (refl, (refl, (refl, (refl, tt)))))),
  )

  pub flow-IsRead :
      (c : Common) (n : Text)
      → All HasNoNul (c.recording_id ∷ c.component_name ∷ n ∷ [])
      → (rest b : Bytes) → pack_all codec (flow_fields c n) ≡ ok b
      → IsRead codec rest (details codec (program_flow c n [])) "program_flow" (c.timestamp, b)
  unfolding flow_fields layout event_type lookup
  flow-IsRead c n (h1, (h2, (h3, h4))) rest b h = (
    _,
    read_event-pack_all 80 "program_flow" _ c.timestamp
        (string c.recording_id
          ∷ string c.component_name
          ∷ string n
          ∷ signed c.thread_id
          ∷ signed c.cpu_id
          ∷ [])
        b rest refl refl (h1, (h2, (h3, (tt, (tt, tt))))) h,
    refl,
    (refl, (refl, (refl, (refl, (refl, tt))))),
  )
