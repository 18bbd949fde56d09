-- ===== src/TypeGenerator/Parser/Proper.antt =====
-- The types that print to text that can be parsed, without system types.
use flux_mcf.Prelude.{
  ◌≡◌, refl, ap, ap₂, true, List, [], ◌∷◌, ◌++◌, arith, All, All-append, All-map,
}
use flux_mcf.Prelude.Text.{Text, codes, join}
use flux_mcf.Prelude.Dict.{lookup}
use flux_mcf.TypeGenerator.TypeExpr.{
  TypeExpr, TypeExprs, scalar, template, nil, cons, cpp_name, cpp_type_from_system_type,
  cpp_type_with_namespace,
}
use flux_mcf.TypeGenerator.Parser.{split, is_inner}
use flux_mcf.TypeGenerator.Parser.Split.{HasNoColon, split-join}
use flux_mcf.TypeGenerator.Parser.Lexemes.{IsIdentifier}
use flux_mcf.TypeGenerator.Parser.Trees.{IsPrintable, AllPrintable, renamed, all_renamed}

-- A name of parts that are identifiers without colons.
abbrev pub IsPart : Text → Type 0
IsPart part = IsIdentifier part × HasNoColon part

abbrev pub IsName : List Text → Type 0
IsName [] = ⊥
IsName (part ∷ parts) = IsPart part × All IsPart parts

-- a type of such names whose templates have an argument
unfoldable mutual
  pub IsProper : TypeExpr → Type 0
  IsProper (scalar name) = IsName name
  IsProper (template name nil) = ⊥
  IsProper (template name (cons t ts)) = IsName name × IsProper t × AllProper ts

  pub AllProper : TypeExprs → Type 0
  AllProper nil = Unit
  AllProper (cons t ts) = IsProper t × AllProper ts

IsIdentifier-append :
    (part rest : Text)
    → IsIdentifier part
    → All (λ d. is_inner d ≡ true) rest
    → IsIdentifier (part ++ rest)
IsIdentifier-append [] rest h h' = absurd h
IsIdentifier-append (c ∷ cs) rest (here, later) h' =
    (here, All-append (λ d. is_inner d ≡ true) cs rest later h')

inner_identifier : (part : Text) → IsIdentifier part → All (λ d. is_inner d ≡ true) part
inner_identifier [] h = absurd h
inner_identifier (c ∷ cs) (here, later) = (ground (arith, here), later)

IsIdentifier-join :
    (part : Text) (parts : List Text)
    → IsPart part
    → All IsPart parts
    → IsIdentifier (join (codes "::") (part ∷ parts))
IsIdentifier-join part [] h hs = h.0
IsIdentifier-join part (next ∷ parts) h (here, later) =
    IsIdentifier-append part (codes "::" ++ join (codes "::") (next ∷ parts)) h.0 (
      refl,
      (
        refl,
        inner_identifier (join (codes "::") (next ∷ parts))
            (IsIdentifier-join next parts here later),
      ),
    )

name_printed :
    (name : List Text)
    → IsName name
    → IsIdentifier (cpp_name [] name) × (split (cpp_name [] name) ≡ name)
unfolding cpp_type_from_system_type cpp_type_with_namespace lookup
name_printed [] h = absurd h
name_printed (part ∷ parts) (h, hs) = (
  IsIdentifier-join part parts h hs,
  split-join part parts h.1 (All-map IsPart HasNoColon (λ x h. h.1) parts hs),
)

mutual
  unfolding IsProper IsPrintable renamed

  pub proper_printed : (t : TypeExpr) → IsProper t → IsPrintable [] t × (renamed [] t ≡ t)
  proper_printed (scalar name) h =
      let (ident, same) = name_printed name h in (ident, ap scalar same)
  proper_printed (template name nil) h = absurd h
  proper_printed (template name (cons t ts)) (h, ht, hts) =
      let (ident, same) = name_printed name h in
      let (printed, same') = proper_printed t ht in
      let (all, same'') = proper_printed_args ts hts in
      ((ident, printed, all), ap₂ template same (ap₂ cons same' same''))

  proper_printed_args :
      (ts : TypeExprs) → AllProper ts → AllPrintable [] ts × (all_renamed [] ts ≡ ts)
  proper_printed_args nil h = (tt, refl)
  proper_printed_args (cons t ts) (h, hs) =
      let (printed, same) = proper_printed t h in
      let (all, same') = proper_printed_args ts hs in ((printed, all), ap₂ cons same same')
