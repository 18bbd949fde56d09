-- ===== src/TypeGenerator/Parser/RoundTrip.antt =====
-- A printed type is parsed back.
use flux_mcf.Prelude.{
  ℕ, zero, suc, ◌≤◌, ◌≡◌, refl, ap, subst, ◌∙◌, true, some, [], ◌∷◌, ◌++◌, append-nil, length,
  length-append, ok, arith, nat_beq, nat_beq_iff,
}
use flux_mcf.Prelude.Text.{codes}
use flux_mcf.TypeGenerator.TypeExpr.{
  TypeExpr, TypeExprs, scalar, template, nil, cons, SystemTypes, cpp_name, as_cpp_type,
}
use flux_mcf.TypeGenerator.Parser.{
  opens, scan, parse_each, as_template, parse_scalar_or_template, parse_tokens, parse, tokenize,
}
use flux_mcf.TypeGenerator.Parser.Lexing.{Lexes, end, tokenize-Lexes}
use flux_mcf.TypeGenerator.Parser.Trees.{
  IsPrintable, AllPrintable, tokens_of, more_tokens, renamed, all_renamed, all_tokens,
}
use flux_mcf.TypeGenerator.Parser.Scanning.{scan-template}
use flux_mcf.TypeGenerator.Parser.Printed.{type-Lexes}
use flux_mcf.TypeGenerator.Parser.Proper.{IsProper, proper_printed}

module _ (system : SystemTypes) where
  -- all arguments, by the parser of one
  parse_each-tokens :
      (n : ℕ)
      → ((t : TypeExpr)
          → length (tokens_of system t) ≤ n
          → IsPrintable system t
          → parse_scalar_or_template n (tokens_of system t) ≡ some (ok (renamed system t)))
      → (t : TypeExpr) (ts : TypeExprs) → length (tokens_of system t ++ more_tokens system ts) ≤ n
      → IsPrintable system t
      → AllPrintable system ts
      → parse_each (parse_scalar_or_template n) (all_tokens system (cons t ts))
        ≡ some (ok (all_renamed system (cons t ts)))
  unfolding parse_each renamed more_tokens AllPrintable
  parse_each-tokens n one t nil le ht hts =
      let here =
        one t (omega (arith, length-append (tokens_of system t) (more_tokens system nil))) ht in
      rw here refl
  parse_each-tokens n one t (cons u us) le ht (hu, hus) =
      let here =
        one t (omega (arith, length-append (tokens_of system t) (more_tokens system (cons u us))))
          ht in
      let later =
        parse_each-tokens n one u us
          (omega (arith, length-append (tokens_of system t) (more_tokens system (cons u us)))) hu
          hus in
      rw here (rw later refl)

  parse-tokens :
      (n : ℕ) (t : TypeExpr)
      → length (tokens_of system t) ≤ n
      → IsPrintable system t
      → parse_scalar_or_template n (tokens_of system t) ≡ some (ok (renamed system t))
  unfolding parse_scalar_or_template tokens_of renamed IsPrintable opens as_template
  parse-tokens zero (scalar name) le h = absurd (omega arith)
  parse-tokens zero (template name nil) le h = absurd h
  parse-tokens zero (template name (cons t ts)) le h = absurd (omega arith)
  parse-tokens (suc n) (scalar name) le h = refl
  parse-tokens (suc n) (template name nil) le h = absurd h
  parse-tokens (suc n) (template name (cons t ts)) le (h, ht, hts) =
      let (ends, (level, cut)) = scan-template system (cpp_name system name) t ts ht hts in
      let args = parse_each-tokens n (parse-tokens n) t ts (omega arith) ht hts in
      let found = scan 1 0 0 (codes "<" ∷ (tokens_of system t ++ more_tokens system ts)) in
      let level' : nat_beq found.opened found.closed ≡ true =
        (nat_beq_iff found.opened found.closed).1 level in
      rw (ends, parse_scalar_or_template) (rw level' (rw cut (rw args refl)))

  -- a type with printed names
  pub parse-as_cpp_type :
      (t : TypeExpr)
      → IsPrintable system t
      → parse (as_cpp_type system t) ≡ some (ok (renamed system t))
  unfolding parse parse_tokens
  parse-as_cpp_type t h =
      let lexes = type-Lexes system t [] [] h tt end in
      let text = append-nil (as_cpp_type system t) in
      let lexed : tokenize (as_cpp_type system t) ≡ some (ok (tokens_of system t)) =
        tokenize-Lexes (as_cpp_type system t) (tokens_of system t) (
          subst (λ x. Lexes x (tokens_of system t)) text
            (subst (λ x. Lexes (as_cpp_type system t ++ []) x) (append-nil (tokens_of system t))
              lexes)) in
      rw lexed (parse-tokens (suc (length (tokens_of system t))) t (omega arith) h)

-- Without system types, `TypeNameParser.parse` gives back every type whose names consist of
-- identifiers without colons and whose templates have an argument, from the text of as_cpp_type:
-- it ends within its fuel and raises nothing.
pub parse-print : (t : TypeExpr) → IsProper t → parse (as_cpp_type [] t) ≡ some (ok t)
parse-print t h =
    let (printed, same) = proper_printed t h in
    parse-as_cpp_type [] t printed ∙ ap (λ x. some (ok x)) same
