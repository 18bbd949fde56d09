-- ===== src/TypeGenerator/Parser/Lexing.antt =====
-- How the two loops of `_tokenize` walk a text.
use flux_mcf.Prelude.{
  ℕ, zero, suc, ◌<◌, ◌≤◌, ◌≡◌, ◌≢◌, refl, sym, ap, ◌∙◌, subst, Bool, true, false, none, some, List,
  [], ◌∷◌, ◌++◌, append_assoc, length, ok, arith, ◌⊎◌, inl, inr, Bool-cases, Option-cases,
}
use flux_mcf.Prelude.Text.{Text}
use flux_mcf.TypeGenerator.Parser.{
  Kind, identifier, lbrace, rbrace, comma, begins, continues, is_space, dropped_while, match_here,
  match_token, Pass, try_kind, try_all, after_tokens, tokenize_loop, tokenize,
}

-- a text that is a sequence of tokens
pub data Lexes : Text → List Text → Type 0 where
  end : Lexes [] []
  lexeme :
      {s r t : Text} {ts : List Text} (k : Kind)
      → match_token k s ≡ some (t, r)
      → Lexes r ts
      → Lexes s (t ∷ ts)

length-dropped_while : (p : ℕ → Bool) (s : Text) → length (dropped_while p s) ≤ length s
unfolding dropped_while
length-dropped_while p [] = omega arith
length-dropped_while p (c ∷ cs) = ground (arith, length-dropped_while p cs)

length-match_here : (k : Kind) (s t r : Text) → match_here k s ≡ some (t, r) → length r < length s
unfolding match_here
length-match_here k [] t r h = ground arith
length-match_here k (c ∷ cs) t r h = ground (
  arith,
  length-dropped_while is_space (dropped_while (continues k) cs),
  length-dropped_while (continues k) cs,
)

pub length-match_token :
    (k : Kind) (s t r : Text) → match_token k s ≡ some (t, r) → length r < length s
unfolding match_token
length-match_token k s t r h =
    omega
      (arith, length-match_here k (dropped_while is_space s) t r h, length-dropped_while is_space s)

begins-one : (j k : Kind) (c : ℕ) → begins j c ≡ true → begins k c ≡ true → j ≡ k
begins-one identifier identifier c h h' = refl
begins-one identifier lbrace c h h' = ground arith
begins-one identifier rbrace c h h' = ground arith
begins-one identifier comma c h h' = ground arith
begins-one lbrace identifier c h h' = ground arith
begins-one lbrace lbrace c h h' = refl
begins-one lbrace rbrace c h h' = ground arith
begins-one lbrace comma c h h' = ground arith
begins-one rbrace identifier c h h' = ground arith
begins-one rbrace lbrace c h h' = ground arith
begins-one rbrace rbrace c h h' = refl
begins-one rbrace comma c h h' = ground arith
begins-one comma identifier c h h' = ground arith
begins-one comma lbrace c h h' = ground arith
begins-one comma rbrace c h h' = ground arith
begins-one comma comma c h h' = refl

match_here-one :
    (j k : Kind) (s : Text) (x y : Text × Text)
    → match_here j s ≡ some x
    → match_here k s ≡ some y
    → x ≡ y
unfolding match_here
match_here-one j k [] x y h h' = ground arith
match_here-one j k (c ∷ cs) x y h h' =
    let e : j ≡ k = begins-one j k c (ground arith) (ground arith) in
    let same : match_here j (c ∷ cs) ≡ match_here k (c ∷ cs) = ap (λ i. match_here i (c ∷ cs)) e in
    cc

match_token-one :
    (j k : Kind) (s : Text) (x y : Text × Text)
    → match_token j s ≡ some x
    → match_token k s ≡ some y
    → x ≡ y
unfolding match_token
match_token-one j k s x y h h' = match_here-one j k (dropped_while is_space s) x y h h'

-- a kind that is tried
try_kind-cases :
    (k : Kind) (p : Pass)
    → ((match_token k p.rest_string ≡ none) × (try_kind k p ≡ p))
      ⊎ ((t : Text) × (r : Text) × (match_token k p.rest_string ≡ some (t, r))
          × (try_kind k p
              ≡ record { tokens = p.tokens ++ t ∷ []; rest_string = r; consumed = true }))
unfolding try_kind
try_kind-cases k p = elim (Option-cases (match_token k p.rest_string)) [
  | inl e ↦ inl (e, rw (e, try_kind) refl)
  | inr ((t, r), e) ↦ inr (t, r, e, rw (e, try_kind) refl)
]

-- a pass over `s` that has tried some kinds
unfoldable pub Moved : Text → Pass → Type 0
Moved s p =
    ((p.consumed ≡ true) × (length p.rest_string < length s))
    ⊎ ((p.consumed ≡ false) × (p.rest_string ≡ s))

try_kind-Moved : (k : Kind) (s : Text) (p : Pass) → Moved s p → Moved s (try_kind k p)
unfolding Moved
try_kind-Moved k s p moved = elim (try_kind-cases k p) [
  | inl (missed, e) ↦ rw e moved
  | inr (t, r, e, e') ↦ rw e' (
      inl (
        refl,
        (elim moved [
          | inl (seen, less) ↦ omega (arith, length-match_token k p.rest_string t r e)
          | inr (unseen, same) ↦
              omega (arith, length-match_token k p.rest_string t r e, ap length same)
        ]),
      ))
]

pub try_all-Moved : (s : Text) → Moved s (try_all s)
unfolding try_all Moved
try_all-Moved s =
    let start : Pass = record { tokens = []; rest_string = s; consumed = false } in
    try_kind-Moved comma s (try_kind rbrace (try_kind lbrace (try_kind identifier start))) (
      try_kind-Moved rbrace s (try_kind lbrace (try_kind identifier start)) (
        try_kind-Moved lbrace s (try_kind identifier start)
          (try_kind-Moved identifier s start (inr (refl, refl)))))

-- what is left of the tokens of the string
Ahead : List Text → Pass → Type 0
Ahead ts p = (rest : List Text) × Lexes p.rest_string rest × (p.tokens ++ rest ≡ ts)

lexeme-first :
    (k : Kind) (s t r : Text) (ts : List Text)
    → Lexes s ts
    → match_token k s ≡ some (t, r)
    → (rest : List Text) × Lexes r rest × (ts ≡ t ∷ rest)
unfolding match_token match_here
lexeme-first k s t r [] end e = ground arith
lexeme-first k s t r (t' ∷ ts) (lexeme {r = r'} j e' lexes) e =
    let same = match_token-one j k s (t', r') (t, r) e' e in
    (ts, subst (λ x. Lexes x ts) (ap (λ x. x.1) same) lexes, ap (λ x. x.0 ∷ ts) same)

try_kind-Ahead : (k : Kind) (ts : List Text) (p : Pass) → Ahead ts p → Ahead ts (try_kind k p)
unfolding Ahead
try_kind-Ahead k ts p (rest, lexes, e) = elim (try_kind-cases k p) [
  | inl (missed, e') ↦ rw e' (rest, lexes, e)
  | inr (t, r, e', e'') ↦
      (let (more, lexes', first) = lexeme-first k p.rest_string t r rest lexes e' in
        rw e'' (
          more,
          lexes',
          append_assoc p.tokens (t ∷ []) more ∙ ap (λ x. p.tokens ++ x) (sym first) ∙ e,
        ))
]

try_all-Ahead : (s : Text) (ts : List Text) → Lexes s ts → Ahead ts (try_all s)
unfolding try_all Ahead
try_all-Ahead s ts lexes =
    let start : Pass = record { tokens = []; rest_string = s; consumed = false } in
    try_kind-Ahead comma ts (try_kind rbrace (try_kind lbrace (try_kind identifier start))) (
      try_kind-Ahead rbrace ts (try_kind lbrace (try_kind identifier start)) (
        try_kind-Ahead lbrace ts (try_kind identifier start)
          (try_kind-Ahead identifier ts start (ts, lexes, refl))))

-- a kind that found nothing
try_kind-missed :
    (k : Kind) (p q : Pass)
    → try_kind k p ≡ q
    → q.consumed ≡ false
    → (match_token k q.rest_string ≡ none) × (p ≡ q)
try_kind-missed k p q same h = elim (try_kind-cases k p) [
  | inl (missed, e) ↦
      (let back : p ≡ q = sym e ∙ same in
        (subst (λ x. match_token k x.rest_string ≡ none) back missed, back))
  | inr (t, r, e, e') ↦ ground (arith, h, ap (λ x. x.consumed) (sym e' ∙ same))
]

try_all-missed : (s : Text) → (try_all s).consumed ≡ false → (k : Kind) → match_token k s ≡ none
unfolding try_all
try_all-missed s h k =
    let start : Pass = record { tokens = []; rest_string = s; consumed = false } in
    let q = try_all s in
    let (no_comma, e1) =
      try_kind-missed comma (try_kind rbrace (try_kind lbrace (try_kind identifier start))) q refl
        h in
    let (no_rbrace, e2) =
      try_kind-missed rbrace (try_kind lbrace (try_kind identifier start)) q e1 h in
    let (no_lbrace, e3) = try_kind-missed lbrace (try_kind identifier start) q e2 h in
    let (no_identifier, e4) = try_kind-missed identifier start q e3 h in
    let same : q.rest_string ≡ s = ap (λ x. x.rest_string) (sym e4) in
    subst (λ x. match_token k x ≡ none) same
      (elim k as (λ k. match_token k q.rest_string ≡ none) [
        | identifier ↦ no_identifier
        | lbrace ↦ no_lbrace
        | rbrace ↦ no_rbrace
        | comma ↦ no_comma
      ])

try_all-consumed : (s : Text) (ts : List Text) → Lexes s ts → s ≢ [] → (try_all s).consumed ≡ true
try_all-consumed [] [] end nonempty = absurd (nonempty refl)
try_all-consumed (c ∷ cs) [] lexes nonempty = elim lexes [ ]
try_all-consumed s (t ∷ ts) (lexeme k e lexes) nonempty = elim (Bool-cases ((try_all s).consumed)) [
  | inl h ↦ h
  | inr h ↦ ground (arith, try_all-missed s h k, e)
]

no_match : {x : Text × Text} (k : Kind) → match_token k [] ≡ some x → ⊥
unfolding match_token match_here
no_match k e = ground arith

-- enough fuel for the tokens of a text
tokenize_loop-Lexes :
    (n : ℕ) (s : Text) (ts : List Text)
    → Lexes s ts
    → length s < n
    → tokenize_loop n s ≡ some (ok ts)
unfolding tokenize_loop Moved Ahead after_tokens
tokenize_loop-Lexes zero s ts lexes h = absurd (omega arith)
tokenize_loop-Lexes (suc n) [] [] end h = refl
tokenize_loop-Lexes (suc n) [] (t ∷ ts) (lexeme k e lexes) h = absurd (no_match k e)
tokenize_loop-Lexes (suc n) (c ∷ cs) ts lexes h =
    let p = try_all (c ∷ cs) in
    let found : p.consumed ≡ true = try_all-consumed (c ∷ cs) ts lexes (λ e. ground arith) in
    let less : length p.rest_string < n = elim (try_all-Moved (c ∷ cs)) [
      | inl (seen, less) ↦ omega arith
      | inr (unseen, same) ↦ ground (arith, found)
    ] in
    let (rest, ahead, e) = try_all-Ahead (c ∷ cs) ts lexes in
    let next = tokenize_loop-Lexes n p.rest_string rest ahead less in
    rw (found, tokenize_loop) (rw next (rw e refl))

pub tokenize-Lexes : (s : Text) (ts : List Text) → Lexes s ts → tokenize s ≡ some (ok ts)
unfolding tokenize
tokenize-Lexes s ts lexes = tokenize_loop-Lexes (suc (length s)) s ts lexes (omega arith)
