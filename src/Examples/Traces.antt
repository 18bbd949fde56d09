-- ===== src/Examples/Traces.antt =====
-- Trace events in Common Trace Format.
use flux_mcf.Prelude.{ℕ, ◌+◌, ◌-◌, ◌≡◌, refl, sym, subst, List, [], ◌∷◌, length, ok, arith}
use flux_mcf.Prelude.Text.{codes}
use flux_mcf.Tracing.Messages.{ℤ, pos, negsuc}
use flux_mcf.Ctf.{Bytes, Codec, CodecLaws, HasNoNul}
use flux_mcf.Ctf.Events.{ParsedEvent, exec_time, event_to_ctf}
use flux_mcf.Ctf.Details.{AreRead, details, marks}
use flux_mcf.Ctf.Ranges.{IsInRange, IsConvertible}
use flux_mcf.Ctf.Reading.{event_to_ctf-Converts}

-- durations are whole numbers
abbrev moved_back : ℤ → ℕ → ℤ
moved_back (pos t) d = pos (t - d)
moved_back (negsuc t) d = negsuc (t + d)

-- texts as their code points; every float is packed as 0
abbrev codec : Codec ℕ
codec = record {
  utf8 = λ s. ok s;
  decode = λ b. b;
  pack_float = λ f. ok (0 ∷ 0 ∷ 0 ∷ 0 ∷ []);
  unpack_float = λ b. 0;
  single = λ f. 0;
  start_of = λ t d. ok (moved_back t d);
  end_of = λ t d. ok t;
}

length_four : (b : Bytes) → codec.pack_float 0 ≡ ok b → length b ≡ 4
length_four b e = let same : 0 ∷ 0 ∷ 0 ∷ 0 ∷ [] ≡ b = ground (arith, e) in rw (sym same) refl

is_same : (s b : Bytes) → codec.utf8 s ≡ ok b → s ≡ b
is_same s b e = ground (arith, e)

codec-laws : CodecLaws codec
codec-laws = record {
  decode-utf8 = λ s b e. sym (is_same s b e);
  utf8_nul = λ s b e h. subst HasNoNul (is_same s b e) h;
  length-float = λ f b e. length_four b e;
  unpack_float-pack_float = λ f b e. refl;
}

abbrev event : ParsedEvent ℕ
event =
    exec_time
      (record {
        timestamp = pos 7;
        recording_id = codes "t";
        component_name = codes "c";
        thread_id = pos 5;
        cpu_id = negsuc 0;
      })
      (codes "d") 3

event_to_ctf-Converts_example :
    (records : List (ℤ × Bytes)) × (event_to_ctf codec event ≡ ok records)
    × AreRead codec (1 ∷ []) (details codec event) (marks codec event) records
unfolding IsConvertible IsInRange
event_to_ctf-Converts_example =
    event_to_ctf-Converts codec codec-laws event (1 ∷ [])
      ((refl, tt), ((refl, tt), ((refl, tt), tt)))
      (
        pos 4,
        refl,
        (
          omega arith,
          (
            omega arith,
            ((_, refl), ((_, refl), ((_, refl), ((_, refl), (omega arith, (omega arith, tt)))))),
          ),
        ),
        (
          omega arith,
          (
            omega arith,
            ((_, refl), ((_, refl), ((_, refl), ((_, refl), (omega arith, (omega arith, tt)))))),
          ),
        ),
      )
