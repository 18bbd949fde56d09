-- ===== src/Prelude/Text.antt =====
-- Text as a list of code points, where the program walks its characters.
use Prim.Native.Nat.{ℕ}
use Prim.Native.Char.{code}
use Prim.Native.String.{String}
use mathlib.Core.Path.{◌≡◌, refl, ap₂}
use mathlib.Core.Logic.{◌↔◌}
use mathlib.Core.Bool.{Bool, true, false, ◌&&◌}
use mathlib.Core.List.{List, [], ◌∷◌, ◌++◌}
use native.Mathlib.Omega.{arith}
use flux_mcf.Prelude.Tests.{nat_beq, nat_beq_iff, Eq}

abbrev pub Text : Type 0
Text = List ℕ

abbrev pub codes : String → Text
codes String.[] = []
codes (String.◌∷◌ c s) = code c ∷ codes s

abbrev pub text_beq : Text → Text → Bool
text_beq [] [] = true
text_beq [] (d ∷ ds) = false
text_beq (c ∷ cs) [] = false
text_beq (c ∷ cs) (d ∷ ds) = nat_beq c d && text_beq cs ds

text_beq_refl : (cs : Text) → text_beq cs cs ≡ true
text_beq_refl [] = refl
text_beq_refl (c ∷ cs) = ground (arith, nat_beq_iff c c, text_beq_refl cs)

text_beq_sound : (cs ds : Text) → text_beq cs ds ≡ true → cs ≡ ds
text_beq_sound [] [] h = refl
text_beq_sound [] (d ∷ ds) h = ground arith
text_beq_sound (c ∷ cs) [] h = ground arith
text_beq_sound (c ∷ cs) (d ∷ ds) h =
    ap₂ ◌∷◌ ((nat_beq_iff c d).0 (ground arith)) (text_beq_sound cs ds (ground arith))

pub text_beq_iff : (cs ds : Text) → (text_beq cs ds ≡ true) ↔ (cs ≡ ds)
text_beq_iff cs ds = (text_beq_sound cs ds, λ e. rw e (text_beq_refl ds))

instance abbrev pub text_eq : Eq Text
text_eq = record { beq = text_beq; beq_iff = text_beq_iff }

-- separator.join(texts)
abbrev pub join : Text → List Text → Text
join separator [] = []
join separator (t ∷ []) = t
join separator (t ∷ u ∷ us) = t ++ (separator ++ join separator (u ∷ us))
