-- ===== src/TypeGenerator/Parser/Split.antt =====
-- Names and their parts.
use flux_mcf.Prelude.{◌≡◌, refl, false, List, [], ◌∷◌, ◌++◌, nat_beq, All}
use flux_mcf.Prelude.Text.{Text, codes, join}
use flux_mcf.TypeGenerator.Parser.{split}

-- a text without colons
abbrev pub HasNoColon : Text → Type 0
HasNoColon part = All (λ c. nat_beq c b':' ≡ false) part

split-part : (part : Text) → HasNoColon part → split part ≡ part ∷ []
unfolding split
split-part [] h = refl
split-part (c ∷ []) h = refl
split-part (c ∷ d ∷ rest) (here, later) = rw (here, split) (rw (split-part (d ∷ rest) later) refl)

split-separator :
    (part rest : Text) → HasNoColon part → split (part ++ (b':' ∷ b':' ∷ rest)) ≡ part ∷ split rest
unfolding split
split-separator [] rest h = refl
split-separator (c ∷ []) rest (here, later) = rw (here, split) refl
split-separator (c ∷ d ∷ part) rest (here, later) =
    rw (here, split) (rw (split-separator (d ∷ part) rest later) refl)

pub split-join :
    (part : Text) (parts : List Text)
    → HasNoColon part
    → All HasNoColon parts
    → split (join (codes "::") (part ∷ parts)) ≡ part ∷ parts
split-join part [] h hs = split-part part h
split-join part (next ∷ parts) h (here, later) =
    rw (split-separator part (join (codes "::") (next ∷ parts)) h, split-join next parts here later)
      refl
