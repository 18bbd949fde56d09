-- ===== src/TypeGenerator/Parser.antt =====
-- `TypeNameParser` of mcf_tools/types_generator/type_generator/common.py. The two loops are on fuel:
-- the outer `Option` is `none` if it is used up.
pub mod Split
pub mod Lexing
pub mod Lexemes
pub mod Trees
pub mod Scanning
pub mod Printed
pub mod Proper
pub mod RoundTrip
pub mod Total
use flux_mcf.Prelude.{
  ℕ, zero, suc, ◌+◌, ◌-◌, ◌≤◌, Bool, true, false, not, ◌&&◌, ◌||◌, Option, none, some, List, [],
  ◌∷◌, ◌++◌, length, take, drop, nat_beq, leb, ◌==◌, if◌then◌else◌, Result, ok, raise, index_error,
  conversion_exception, ◌>>=◌,
}
use flux_mcf.Prelude.Text.{Text, codes, text_eq}
use flux_mcf.TypeGenerator.TypeExpr.{TypeExpr, TypeExprs, scalar, template, nil, cons}

-- the kinds of tokens
pub data Kind : Type 0 where
  identifier lbrace rbrace comma : Kind

-- `\s` on text
abbrev pub is_space : ℕ → Bool
is_space c =
    leb 9 c && leb c 13
    || leb 28 c && leb c 32
    || nat_beq c 133
    || nat_beq c 160
    || nat_beq c 5760
    || leb 8192 c && leb c 8202
    || nat_beq c 8232
    || nat_beq c 8233
    || nat_beq c 8239
    || nat_beq c 8287
    || nat_beq c 12288

-- [a-zA-Z_]
abbrev pub is_start : ℕ → Bool
is_start c = leb b'a' c && leb c b'z' || leb b'A' c && leb c b'Z' || nat_beq c b'_'

-- [a-zA-Z0-9_:]
abbrev pub is_inner : ℕ → Bool
is_inner c = is_start c || leb b'0' c && leb c b'9' || nat_beq c b':'

abbrev pub begins : Kind → ℕ → Bool
begins identifier c = is_start c
begins lbrace c = nat_beq c b'<'
begins rbrace c = nat_beq c b'>'
begins comma c = nat_beq c b','

-- what a token of a kind goes on with
abbrev pub continues : Kind → ℕ → Bool
continues identifier c = is_inner c
continues lbrace c = false
continues rbrace c = false
continues comma c = false

-- the longest prefix with a property, and what comes after it
unfoldable pub taken_while : (ℕ → Bool) → Text → Text
taken_while p [] = []
taken_while p (c ∷ cs) = if p c then c ∷ taken_while p cs else []

unfoldable pub dropped_while : (ℕ → Bool) → Text → Text
dropped_while p [] = []
dropped_while p (c ∷ cs) = if p c then dropped_while p cs else c ∷ cs

-- after the leading spaces
unfoldable pub match_here : Kind → Text → Option (Text × Text)
unfolding taken_while dropped_while
match_here k [] = none
match_here k (c ∷ cs) =
    if begins k c
    then some
        (c ∷ taken_while (continues k) cs, dropped_while is_space (dropped_while (continues k) cs))
    else none

-- `re.match`: the token and the rest of the string after it
unfoldable pub match_token : Kind → Text → Option (Text × Text)
unfolding match_here dropped_while
match_token k s = match_here k (dropped_while is_space s)

-- the body of the inner loop: the tokens and the rest so far, and `consumed`
pub record Pass : Type 0 where
  pub tokens : List Text
  pub rest_string : Text
  pub consumed : Bool

unfoldable pub try_kind : Kind → Pass → Pass
unfolding match_token
try_kind k p = elim (match_token k p.rest_string) [
  | none ↦ p
  | some (token, rest) ↦ record {
    tokens = p.tokens ++ token ∷ [];
    rest_string = rest;
    consumed = true;
  }
]

-- the inner loop
unfoldable pub try_all : Text → Pass
unfolding try_kind
try_all s = try_kind comma (
    try_kind rbrace (
      try_kind lbrace
        (try_kind identifier (record { tokens = []; rest_string = s; consumed = false }))))

unfoldable pub after_tokens : List Text → Option (Result (List Text)) → Option (Result (List Text))
after_tokens tokens none = none
after_tokens tokens (some (raise e)) = some (raise e)
after_tokens tokens (some (ok more)) = some (ok (tokens ++ more))

unfoldable pub tokenize_loop : ℕ → Text → Option (Result (List Text))
unfolding try_all after_tokens
tokenize_loop zero s = none
tokenize_loop (suc n) [] = some (ok [])
tokenize_loop (suc n) (c ∷ cs) =
    let p = try_all (c ∷ cs) in
    elim p.consumed [
      | false ↦ some (raise conversion_exception)
      | true ↦ after_tokens p.tokens (tokenize_loop n p.rest_string)
    ]

unfoldable pub tokenize : Text → Option (Result (List Text))
unfolding tokenize_loop
tokenize s = tokenize_loop (suc (length s)) s

-- `s.split("::")`
abbrev pub push : ℕ → List Text → List Text
push c [] = (c ∷ []) ∷ []
push c (part ∷ parts) = (c ∷ part) ∷ parts

unfoldable pub split : Text → List Text
split [] = [] ∷ []
split (c ∷ []) = (c ∷ []) ∷ []
split (c ∷ d ∷ rest) = elim (nat_beq c b':' && nat_beq d b':') [
  | true ↦ [] ∷ split rest
  | false ↦ push c (split (d ∷ rest))
]

-- `tokens[i + 1:j]`
unfoldable pub slice : List Text → ℕ → ℕ → List Text
slice tokens i j = drop (suc i) (take j tokens)

-- `tokens[1] != "<"`, where there is a second token
unfoldable pub opens : List Text → Bool
opens [] = false
opens (token ∷ rest) = token == codes "<"

unfoldable pub ends_with_brace : List Text → Bool
ends_with_brace [] = false
ends_with_brace (token ∷ []) = token == codes ">"
ends_with_brace (token ∷ next ∷ rest) = ends_with_brace (next ∷ rest)

-- What the loop over tokens[1:] finds: the commas of level 1, and the braces opened and closed. The
-- level is the difference of the two.
pub record Scan : Type 0 where
  pub splits : List ℕ
  pub opened : ℕ
  pub closed : ℕ

unfoldable pub scan : ℕ → ℕ → ℕ → List Text → Scan
scan i opened closed [] = record { splits = []; opened = opened; closed = closed }
scan i opened closed (token ∷ rest) =
    let more =
      scan (suc i) (if token == codes "<" then suc opened else opened)
        (if token == codes ">" then suc closed else closed) rest in
    if token == codes "," && nat_beq opened (suc closed)
    then record more { splits = i ∷ more.splits }
    else more

-- the substrings between the splits; the last one ends before the last token
unfoldable pub substrings : List Text → List ℕ → List (List Text)
unfolding slice
substrings tokens [] = []
substrings tokens (i ∷ []) = slice tokens i (length tokens - 1) ∷ []
substrings tokens (i ∷ j ∷ rest) = slice tokens i j ∷ substrings tokens (j ∷ rest)

unfoldable pub and_then :
    Option (Result TypeExpr) → Option (Result TypeExprs) → Option (Result TypeExprs)
and_then none more = none
and_then (some (raise e)) more = some (raise e)
and_then (some (ok t)) none = none
and_then (some (ok t)) (some (raise e)) = some (raise e)
and_then (some (ok t)) (some (ok ts)) = some (ok (cons t ts))

-- the subtypes, one after the other
unfoldable pub parse_each :
    (List Text → Option (Result TypeExpr)) → List (List Text) → Option (Result TypeExprs)
unfolding and_then
parse_each parse [] = some (ok nil)
parse_each parse (tokens ∷ rest) = and_then (parse tokens) (parse_each parse rest)

unfoldable pub as_template : List Text → Option (Result TypeExprs) → Option (Result TypeExpr)
as_template name none = none
as_template name (some (raise e)) = some (raise e)
as_template name (some (ok args)) = some (ok (template name args))

unfoldable pub parse_scalar_or_template : ℕ → List Text → Option (Result TypeExpr)
unfolding split opens ends_with_brace scan substrings parse_each as_template
parse_scalar_or_template zero tokens = none
parse_scalar_or_template (suc n) [] = some (raise index_error)
parse_scalar_or_template (suc n) (typename ∷ rest) = elim (opens rest) [
  | false ↦ some (ok (scalar (split typename)))
  | true ↦ elim (ends_with_brace (typename ∷ rest)) [
    | false ↦ some (raise conversion_exception)
    | true ↦
        (let found = scan 1 0 0 rest in
          elim (nat_beq found.opened found.closed) [
            | false ↦ some (raise conversion_exception)
            | true ↦ as_template (split typename) (
                parse_each (parse_scalar_or_template n)
                  (substrings (typename ∷ rest) (1 ∷ found.splits)))
          ])
  ]
]

unfoldable pub parse_tokens : Option (Result (List Text)) → Option (Result TypeExpr)
unfolding parse_scalar_or_template
parse_tokens none = none
parse_tokens (some (raise e)) = some (raise e)
parse_tokens (some (ok tokens)) = parse_scalar_or_template (suc (length tokens)) tokens

unfoldable pub parse : Text → Option (Result TypeExpr)
unfolding tokenize parse_tokens
parse s = parse_tokens (tokenize s)
