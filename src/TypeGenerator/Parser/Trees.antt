-- ===== src/TypeGenerator/Parser/Trees.antt =====
-- The tokens that a type prints to, and what `_parse_scalar_or_template` makes of them.
use flux_mcf.Prelude.{List, [], ◌∷◌, ◌++◌}
use flux_mcf.Prelude.Text.{Text, codes, text_eq}
use flux_mcf.TypeGenerator.TypeExpr.{
  TypeExpr, TypeExprs, scalar, template, nil, cons, SystemTypes, cpp_name,
}
use flux_mcf.TypeGenerator.Parser.{split}
use flux_mcf.TypeGenerator.Parser.Lexemes.{IsIdentifier}

module _ (system : SystemTypes) where
  -- every name is printed as an identifier, and every template has an argument
  unfoldable mutual
    pub IsPrintable : TypeExpr → Type 0
    IsPrintable (scalar name) = IsIdentifier (cpp_name system name)
    IsPrintable (template name nil) = ⊥
    IsPrintable (template name (cons t ts)) =
        IsIdentifier (cpp_name system name) × IsPrintable t × AllPrintable ts

    pub AllPrintable : TypeExprs → Type 0
    AllPrintable nil = Unit
    AllPrintable (cons t ts) = IsPrintable t × AllPrintable ts

  -- `more_tokens` are those after an argument
  unfoldable mutual
    pub tokens_of : TypeExpr → List Text
    tokens_of (scalar name) = cpp_name system name ∷ []
    tokens_of (template name nil) = cpp_name system name ∷ codes "<" ∷ codes ">" ∷ []
    tokens_of (template name (cons t ts)) =
        cpp_name system name ∷ codes "<" ∷ (tokens_of t ++ more_tokens ts)

    pub more_tokens : TypeExprs → List Text
    more_tokens nil = codes ">" ∷ []
    more_tokens (cons t ts) = codes "," ∷ (tokens_of t ++ more_tokens ts)

  -- the type with the printed names
  unfoldable mutual
    pub renamed : TypeExpr → TypeExpr
    renamed (scalar name) = scalar (split (cpp_name system name))
    renamed (template name args) = template (split (cpp_name system name)) (all_renamed args)

    pub all_renamed : TypeExprs → TypeExprs
    all_renamed nil = nil
    all_renamed (cons t ts) = cons (renamed t) (all_renamed ts)

  abbrev pub all_tokens : TypeExprs → List (List Text)
  all_tokens nil = []
  all_tokens (cons t ts) = tokens_of t ∷ all_tokens ts
