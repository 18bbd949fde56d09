-- ===== src/TypeGenerator/Parser/Total.antt =====
-- The parser ends on every text.
use flux_mcf.Prelude.{
  ℕ, zero, suc, ◌-◌, ◌≤◌, ◌<◌, ◌≡◌, refl, Option, none, some, List, [], ◌∷◌, ◌++◌, length, take,
  length-drop, Result, ok, raise, arith, inl, inr, Bool-cases, nat_beq, conversion_exception, All,
  All-map,
}
use flux_mcf.Prelude.Text.{Text}
use flux_mcf.TypeGenerator.TypeExpr.{TypeExpr, TypeExprs, scalar, template, nil, cons}
use flux_mcf.TypeGenerator.Parser.{
  split, opens, ends_with_brace, scan, slice, substrings, and_then, parse_each, as_template,
  parse_scalar_or_template, try_all, after_tokens, tokenize_loop, tokenize, parse_tokens, parse,
}
use flux_mcf.TypeGenerator.Parser.Lexing.{Moved, try_all-Moved}

-- a computation that did not use its fuel up
abbrev pub Ends {ℓ} : {A : Type ℓ} → Option A → Type ℓ
Ends {A = A} o = (a : A) × (o ≡ some a)

after_tokens-Ends :
    (ts : List Text) (o : Option (Result (List Text))) → Ends o → Ends (after_tokens ts o)
unfolding after_tokens
after_tokens-Ends ts none (a, e) = ground arith
after_tokens-Ends ts (some (ok more)) h = (ok (ts ++ more), refl)
after_tokens-Ends ts (some (raise e)) h = (raise e, refl)

tokenize_loop-Ends : (n : ℕ) (s : Text) → length s < n → Ends (tokenize_loop n s)
unfolding tokenize_loop Moved
tokenize_loop-Ends zero s h = absurd (omega arith)
tokenize_loop-Ends (suc n) [] h = (ok [], refl)
tokenize_loop-Ends (suc n) (c ∷ cs) h = elim (try_all-Moved (c ∷ cs)) [
  | inr (unseen, same) ↦ (raise conversion_exception, rw (unseen, tokenize_loop) refl)
  | inl (seen, less) ↦
      (let p = try_all (c ∷ cs) in
        let (r, e) =
          after_tokens-Ends p.tokens (tokenize_loop n p.rest_string)
            (tokenize_loop-Ends n p.rest_string (omega arith)) in
        (r, rw (seen, tokenize_loop) e))
]

length-take : (j : ℕ) (xs : List Text) → length (take j xs) ≤ length xs
length-take zero xs = omega arith
length-take (suc j) [] = omega arith
length-take (suc j) (x ∷ xs) = omega (arith, length-take j xs)

length-slice : (x : Text) (xs : List Text) (i j : ℕ) → length (slice (x ∷ xs) i j) < length (x ∷ xs)
unfolding slice
length-slice x xs i j = omega (arith, length-drop (suc i) (take j (x ∷ xs)), length-take j (x ∷ xs))

length-substrings :
    (x : Text) (xs : List Text) (is : List ℕ)
    → All (λ piece. length piece < length (x ∷ xs)) (substrings (x ∷ xs) is)
unfolding substrings
length-substrings x xs [] = tt
length-substrings x xs (i ∷ []) = (length-slice x xs i (length (x ∷ xs) - 1), tt)
length-substrings x xs (i ∷ j ∷ is) = (length-slice x xs i j, length-substrings x xs (j ∷ is))

and_then-Ends :
    (o : Option (Result TypeExpr)) (o' : Option (Result TypeExprs))
    → Ends o
    → Ends o'
    → Ends (and_then o o')
unfolding and_then
and_then-Ends none o' (a, e) h' = ground arith
and_then-Ends (some (raise e)) o' h h' = (raise e, refl)
and_then-Ends (some (ok t)) none h (a, e) = ground arith
and_then-Ends (some (ok t)) (some (raise e)) h h' = (raise e, refl)
and_then-Ends (some (ok t)) (some (ok ts)) h h' = (ok (cons t ts), refl)

parse_each-Ends :
    (parser : List Text → Option (Result TypeExpr)) (pieces : List (List Text))
    → All (λ piece. Ends (parser piece)) pieces
    → Ends (parse_each parser pieces)
unfolding parse_each
parse_each-Ends parser [] h = (ok nil, refl)
parse_each-Ends parser (piece ∷ pieces) (here, later) =
    and_then-Ends (parser piece) (parse_each parser pieces) here
      (parse_each-Ends parser pieces later)

as_template-Ends :
    (name : List Text) (o : Option (Result TypeExprs)) → Ends o → Ends (as_template name o)
unfolding as_template
as_template-Ends name none (a, e) = ground arith
as_template-Ends name (some (raise e)) h = (raise e, refl)
as_template-Ends name (some (ok args)) h = (ok (template name args), refl)

parse_scalar_or_template-Ends :
    (n : ℕ) (tokens : List Text) → length tokens < n → Ends (parse_scalar_or_template n tokens)
unfolding parse_scalar_or_template
parse_scalar_or_template-Ends zero tokens h = absurd (omega arith)
parse_scalar_or_template-Ends (suc n) [] h = (_, refl)
parse_scalar_or_template-Ends (suc n) (x ∷ xs) h = elim (Bool-cases (opens xs)) [
  | inr e ↦ (ok (scalar (split x)), rw (e, parse_scalar_or_template) refl)
  | inl e ↦ elim (Bool-cases (ends_with_brace (x ∷ xs))) [
    | inr e' ↦ (raise conversion_exception, rw (e, parse_scalar_or_template) (rw e' refl))
    | inl e' ↦
        (let found = scan 1 0 0 xs in
          elim (Bool-cases (nat_beq found.opened found.closed)) [
            | inr e'' ↦
                (raise conversion_exception, rw (e, parse_scalar_or_template) (rw e' (rw e'' refl)))
            | inl e'' ↦
                (let pieces = substrings (x ∷ xs) (1 ∷ found.splits) in
                  let (r, ends) =
                    as_template-Ends (split x) (parse_each (parse_scalar_or_template n) pieces) (
                      parse_each-Ends (parse_scalar_or_template n) pieces (
                        All-map (λ piece. length piece < length (x ∷ xs))
                          (λ piece. Ends (parse_scalar_or_template n piece))
                          (λ piece less. parse_scalar_or_template-Ends n piece (omega arith)) pieces
                          (length-substrings x xs (1 ∷ found.splits)))) in
                  (r, rw (e, parse_scalar_or_template) (rw e' (rw e'' ends))))
          ])
  ]
]

parse_tokens-Ends : (o : Option (Result (List Text))) → Ends o → Ends (parse_tokens o)
unfolding parse_tokens
parse_tokens-Ends none (a, e) = ground arith
parse_tokens-Ends (some (raise e)) h = (raise e, refl)
parse_tokens-Ends (some (ok tokens)) h =
    parse_scalar_or_template-Ends (suc (length tokens)) tokens (omega arith)

-- On every text the loops of `TypeNameParser.parse` end within their fuel, with a type or an
-- exception.
pub parse-Ends : (s : Text) → Ends (parse s)
unfolding parse tokenize
parse-Ends s = parse_tokens-Ends (tokenize s) (tokenize_loop-Ends (suc (length s)) s (omega arith))
