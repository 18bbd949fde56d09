-- ===== src/TypeGenerator/Parser/Lexemes.antt =====
-- The tokens of an identifier and of the punctuation at the front of a text.
use flux_mcf.Prelude.{
  ℕ, ◌≡◌, refl, ap, ◌∙◌, Bool, true, false, some, List, [], ◌∷◌, ◌++◌, arith, All,
}
use flux_mcf.Prelude.Text.{Text, codes}
use flux_mcf.TypeGenerator.Parser.{
  Kind, identifier, lbrace, rbrace, comma, begins, continues, is_space, is_start, is_inner,
  taken_while, dropped_while, match_here, match_token,
}
use flux_mcf.TypeGenerator.Parser.Lexing.{Lexes, lexeme}

-- a text that the expression for identifiers matches as a whole
abbrev pub IsIdentifier : Text → Type 0
IsIdentifier [] = ⊥
IsIdentifier (c ∷ cs) = (is_start c ≡ true) × All (λ d. is_inner d ≡ true) cs

-- a text that does not go on with an identifier or a space
abbrev pub IsBoundary : Text → Type 0
IsBoundary [] = Unit
IsBoundary (c ∷ cs) = (is_inner c ≡ false) × (is_space c ≡ false)

taken_while-append :
    (p : ℕ → Bool) (front back : Text)
    → All (λ d. p d ≡ true) front
    → taken_while p back ≡ []
    → taken_while p (front ++ back) ≡ front
unfolding taken_while
taken_while-append p [] back h e = e
taken_while-append p (c ∷ cs) back (here, later) e =
    rw (here, taken_while) (rw (taken_while-append p cs back later e) refl)

dropped_while-append :
    (p : ℕ → Bool) (front back : Text)
    → All (λ d. p d ≡ true) front
    → dropped_while p back ≡ back
    → dropped_while p (front ++ back) ≡ back
unfolding dropped_while
dropped_while-append p [] back h e = e
dropped_while-append p (c ∷ cs) back (here, later) e =
    rw (here, dropped_while) (dropped_while-append p cs back later e)

none_taken : (p : ℕ → Bool) (c : ℕ) (cs : Text) → p c ≡ false → taken_while p (c ∷ cs) ≡ []
unfolding taken_while
none_taken p c cs h = rw h refl

none_dropped : (p : ℕ → Bool) (c : ℕ) (cs : Text) → p c ≡ false → dropped_while p (c ∷ cs) ≡ c ∷ cs
unfolding dropped_while
none_dropped p c cs h = rw h refl

boundary_taken : (rest : Text) → IsBoundary rest → taken_while is_inner rest ≡ []
unfolding taken_while
boundary_taken [] h = refl
boundary_taken (c ∷ cs) h = none_taken is_inner c cs h.0

boundary_dropped : (rest : Text) → IsBoundary rest → dropped_while is_inner rest ≡ rest
unfolding dropped_while
boundary_dropped [] h = refl
boundary_dropped (c ∷ cs) h = none_dropped is_inner c cs h.0

pub boundary_skipped : (rest : Text) → IsBoundary rest → dropped_while is_space rest ≡ rest
unfolding dropped_while
boundary_skipped [] h = refl
boundary_skipped (c ∷ cs) h = none_dropped is_space c cs h.1

is_space-start : (c : ℕ) → is_start c ≡ true → is_space c ≡ false
is_space-start c h = ground arith

pub identifier_skipped :
    (name rest : Text) → IsIdentifier name → dropped_while is_space (name ++ rest) ≡ name ++ rest
identifier_skipped [] rest h = absurd h
identifier_skipped (c ∷ cs) rest h = none_dropped is_space c (cs ++ rest) (is_space-start c h.0)

match_token-found :
    (k : Kind) (c : ℕ) (cs body rest : Text)
    → begins k c ≡ true
    → is_space c ≡ false
    → taken_while (continues k) cs ≡ body
    → dropped_while is_space (dropped_while (continues k) cs) ≡ rest
    → match_token k (c ∷ cs) ≡ some (c ∷ body, rest)
unfolding match_token match_here
match_token-found k c cs body rest here space taken dropped =
    rw (none_dropped is_space c cs space) (rw (here, match_here) (rw taken (rw dropped refl)))

pub identifier-Lexes :
    (name rest : Text) (ts : List Text)
    → IsIdentifier name
    → IsBoundary rest
    → Lexes rest ts
    → Lexes (name ++ rest) (name ∷ ts)
identifier-Lexes [] rest ts h b lexes = absurd h
identifier-Lexes (c ∷ cs) rest ts (here, later) b lexes =
    lexeme identifier
      (match_token-found identifier c (cs ++ rest) cs rest here (is_space-start c here)
        (taken_while-append is_inner cs rest later (boundary_taken rest b))
        (ap (dropped_while is_space)
            (dropped_while-append is_inner cs rest later (boundary_dropped rest b))
          ∙ boundary_skipped rest b))
      lexes

-- the kinds of one character
nothing_taken : (s : Text) → taken_while (λ c. false) s ≡ []
unfolding taken_while
nothing_taken [] = refl
nothing_taken (c ∷ cs) = refl

nothing_dropped : (s : Text) → dropped_while (λ c. false) s ≡ s
unfolding dropped_while
nothing_dropped [] = refl
nothing_dropped (c ∷ cs) = refl

pub lbrace-Lexes :
    (s rest : Text) (ts : List Text)
    → dropped_while is_space s ≡ rest
    → Lexes rest ts
    → Lexes (b'<' ∷ s) (codes "<" ∷ ts)
lbrace-Lexes s rest ts e lexes =
    lexeme lbrace
      (match_token-found lbrace b'<' s [] rest refl refl (nothing_taken s)
        (ap (dropped_while is_space) (nothing_dropped s) ∙ e))
      lexes

pub rbrace-Lexes :
    (s rest : Text) (ts : List Text)
    → dropped_while is_space s ≡ rest
    → Lexes rest ts
    → Lexes (b'>' ∷ s) (codes ">" ∷ ts)
rbrace-Lexes s rest ts e lexes =
    lexeme rbrace
      (match_token-found rbrace b'>' s [] rest refl refl (nothing_taken s)
        (ap (dropped_while is_space) (nothing_dropped s) ∙ e))
      lexes

pub comma-Lexes :
    (s rest : Text) (ts : List Text)
    → dropped_while is_space s ≡ rest
    → Lexes rest ts
    → Lexes (b',' ∷ s) (codes "," ∷ ts)
comma-Lexes s rest ts e lexes =
    lexeme comma
      (match_token-found comma b',' s [] rest refl refl (nothing_taken s)
        (ap (dropped_while is_space) (nothing_dropped s) ∙ e))
      lexes
