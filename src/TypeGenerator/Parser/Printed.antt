-- ===== src/TypeGenerator/Parser/Printed.antt =====
-- The text that a type prints to, as a sequence of tokens.
use flux_mcf.Prelude.{◌≡◌, refl, ap, ◌∙◌, List, ◌∷◌, ◌++◌, append_assoc}
use flux_mcf.Prelude.Text.{Text, codes, join}
use flux_mcf.TypeGenerator.TypeExpr.{
  TypeExpr, TypeExprs, scalar, template, nil, cons, SystemTypes, cpp_name, as_cpp_type, all_cpp,
}
use flux_mcf.TypeGenerator.Parser.{is_space, dropped_while}
use flux_mcf.TypeGenerator.Parser.Lexing.{Lexes}
use flux_mcf.TypeGenerator.Parser.Lexemes.{
  IsBoundary, identifier-Lexes, lbrace-Lexes, rbrace-Lexes, comma-Lexes, identifier_skipped,
  boundary_skipped,
}
use flux_mcf.TypeGenerator.Parser.Trees.{IsPrintable, AllPrintable, tokens_of, more_tokens}

module _ (system : SystemTypes) where
  -- the text after an argument
  abbrev more_text : TypeExprs → Text
  more_text nil = codes ">"
  more_text (cons t ts) = codes ", " ++ (as_cpp_type system t ++ more_text ts)

  join-more :
      (t : TypeExpr) (ts : TypeExprs)
      → join (codes ", ") (all_cpp system (cons t ts)) ++ codes ">"
        ≡ as_cpp_type system t ++ more_text ts
  unfolding all_cpp
  join-more t nil = refl
  join-more t (cons u us) =
      let here = as_cpp_type system t in
      let later = join (codes ", ") (all_cpp system (cons u us)) in
      append_assoc here (codes ", " ++ later) (codes ">")
      ∙ ap (λ x. here ++ (codes ", " ++ x)) (join-more u us)

  -- the printed template, up to its arguments
  template-text :
      (name : List Text) (t : TypeExpr) (ts : TypeExprs) (rest : Text)
      → as_cpp_type system (template name (cons t ts)) ++ rest
        ≡ cpp_name system name ++ (b'<' ∷ (as_cpp_type system t ++ (more_text ts ++ rest)))
  unfolding as_cpp_type
  template-text name t ts rest =
      let args = join (codes ", ") (all_cpp system (cons t ts)) ++ codes ">" in
      append_assoc (cpp_name system name) (b'<' ∷ args) rest
      ∙ ap (λ x. cpp_name system name ++ (b'<' ∷ (x ++ rest))) (join-more t ts)
      ∙ ap (λ x. cpp_name system name ++ (b'<' ∷ x))
          (append_assoc (as_cpp_type system t) (more_text ts) rest)

  type_skipped :
      (t : TypeExpr) (rest : Text)
      → IsPrintable system t
      → dropped_while is_space (as_cpp_type system t ++ rest) ≡ as_cpp_type system t ++ rest
  unfolding as_cpp_type IsPrintable
  type_skipped (scalar name) rest h = identifier_skipped (cpp_name system name) rest h
  type_skipped (template name nil) rest h = absurd h
  type_skipped (template name (cons t ts)) rest (h, ht, hts) = rw (template-text name t ts rest) (
      identifier_skipped (cpp_name system name)
        (b'<' ∷ (as_cpp_type system t ++ (more_text ts ++ rest))) h)

  more_text-IsBoundary : (ts : TypeExprs) (rest : Text) → IsBoundary (more_text ts ++ rest)
  more_text-IsBoundary nil rest = (refl, refl)
  more_text-IsBoundary (cons t ts) rest = (refl, refl)

  mutual
    unfolding IsPrintable as_cpp_type tokens_of dropped_while

    pub type-Lexes :
        (t : TypeExpr) (rest : Text) (tokens : List Text)
        → IsPrintable system t
        → IsBoundary rest
        → Lexes rest tokens
        → Lexes (as_cpp_type system t ++ rest) (tokens_of system t ++ tokens)
    type-Lexes (scalar name) rest tokens h b lexes =
        identifier-Lexes (cpp_name system name) rest tokens h b lexes
    type-Lexes (template name nil) rest tokens h b lexes = absurd h
    type-Lexes (template name (cons t ts)) rest tokens (h, ht, hts) b lexes =
        let text = more_text ts ++ rest in
        let inner =
          type-Lexes t text (more_tokens system ts ++ tokens) ht (more_text-IsBoundary ts rest)
            (more-Lexes ts rest tokens hts b lexes) in
        rw
          (
            template-text name t ts rest,
            append_assoc (tokens_of system t) (more_tokens system ts) tokens,
          )
          (identifier-Lexes (cpp_name system name) (b'<' ∷ (as_cpp_type system t ++ text)) _ h
            (refl, refl)
            (lbrace-Lexes (as_cpp_type system t ++ text) _ _ (type_skipped t text ht) inner))

    more-Lexes :
        (ts : TypeExprs) (rest : Text) (tokens : List Text)
        → AllPrintable system ts
        → IsBoundary rest
        → Lexes rest tokens
        → Lexes (more_text ts ++ rest) (more_tokens system ts ++ tokens)
    more-Lexes nil rest tokens h b lexes =
        rbrace-Lexes rest rest tokens (boundary_skipped rest b) lexes
    more-Lexes (cons t ts) rest tokens (ht, hts) b lexes =
        let text = more_text ts ++ rest in
        let inner =
          type-Lexes t text (more_tokens system ts ++ tokens) ht (more_text-IsBoundary ts rest)
            (more-Lexes ts rest tokens hts b lexes) in
        rw
          (
            append_assoc (as_cpp_type system t) (more_text ts) rest,
            append_assoc (tokens_of system t) (more_tokens system ts) tokens,
          )
          (comma-Lexes (b' ' ∷ (as_cpp_type system t ++ text)) _ _ (type_skipped t text ht) inner)
