-- ===== src/TypeGenerator/Parser/Scanning.antt =====
-- The commas and braces that `_parse_scalar_or_template` finds in the tokens of a type.
use flux_mcf.Prelude.{
  ℕ, suc, ◌+◌, ◌-◌, ◌<◌, ◌≡◌, refl, sym, ap, ap₂, subst, ◌∙◌, true, false, List, [], ◌∷◌, ◌++◌,
  append_assoc, length, length-append, drop-length, take-length, arith, nat_beq, nat_beq_iff, ◌==◌,
}
use flux_mcf.Prelude.Text.{Text, codes, text_eq}
use flux_mcf.TypeGenerator.TypeExpr.{
  TypeExpr, TypeExprs, scalar, template, nil, cons, SystemTypes, cpp_name,
}
use flux_mcf.TypeGenerator.Parser.{is_start, Scan, scan, slice, substrings, ends_with_brace}
use flux_mcf.TypeGenerator.Parser.Lexemes.{IsIdentifier}
use flux_mcf.TypeGenerator.Parser.Trees.{
  IsPrintable, AllPrintable, tokens_of, more_tokens, all_tokens,
}

-- an identifier is no punctuation
no_mark : (name : Text) (c : ℕ) → IsIdentifier name → is_start c ≡ false → (name == c ∷ []) ≡ false
no_mark [] c h h' = absurd h
no_mark (d ∷ ds) c h h' = ground (arith, nat_beq_iff d c, h.0, h')

scan-name :
    (i o c : ℕ) (name : Text) (rest : List Text)
    → IsIdentifier name
    → scan i o c (name ∷ rest) ≡ scan (suc i) o c rest
unfolding scan
scan-name i o c name rest h =
    rw (no_mark name b'<' h refl)
      (rw (no_mark name b'>' h refl) (rw (no_mark name b',' h refl) refl))

scan-comma :
    (i o c : ℕ) (rest : List Text)
    → suc c < o
    → scan i o c (codes "," ∷ rest) ≡ scan (suc i) o c rest
unfolding scan
scan-comma i o c rest h = let e : nat_beq o (suc c) ≡ false = ground arith in rw e refl

abbrev with_split : ℕ → Scan → Scan
with_split i found = record found { splits = i ∷ found.splits }

scan-split :
    (i c : ℕ) (rest : List Text)
    → scan i (suc c) c (codes "," ∷ rest) ≡ with_split i (scan (suc i) (suc c) c rest)
unfolding scan
scan-split i c rest = let e : nat_beq (suc c) (suc c) ≡ true = ground arith in rw e refl

scan-lbrace :
    (i o c : ℕ) (rest : List Text) → scan i o c (codes "<" ∷ rest) ≡ scan (suc i) (suc o) c rest
unfolding scan
scan-lbrace i o c rest = refl

scan-rbrace :
    (i o c : ℕ) (rest : List Text) → scan i o c (codes ">" ∷ rest) ≡ scan (suc i) o (suc c) rest
unfolding scan
scan-rbrace i o c rest = refl

abbrev mutual
  templates : TypeExpr → ℕ
  templates (scalar name) = 0
  templates (template name args) = suc (all_templates args)

  all_templates : TypeExprs → ℕ
  all_templates nil = 0
  all_templates (cons t ts) = templates t + all_templates ts

scan-same :
    (i o c i' o' c' : ℕ) (rest : List Text)
    → i ≡ i'
    → o ≡ o'
    → c ≡ c'
    → scan i o c rest ≡ scan i' o' c' rest
scan-same i o c i' o' c' rest e e' e'' = cc

-- what a scan cuts some tokens into
abbrev pub IsCut : List Text → ℕ → List (List Text) → Scan → Type 0
IsCut tokens a pieces found =
    (found.opened ≡ found.closed) × (substrings tokens (a ∷ found.splits) ≡ pieces)

module _ (system : SystemTypes) where
  -- the tokens of a type inside a template: no comma of level 1, and as many braces closed as opened
  mutual
    unfolding IsPrintable tokens_of

    scan-inner :
        (i o c : ℕ) (t : TypeExpr) (rest : List Text)
        → IsPrintable system t
        → c < o
        → scan i o c (tokens_of system t ++ rest)
          ≡ scan (i + length (tokens_of system t)) (o + templates t) (c + templates t) rest
    scan-inner i o c (scalar name) rest h less =
        scan-name i o c (cpp_name system name) rest h
        ∙ scan-same (suc i) o c (i + 1) (o + 0) (c + 0) rest (omega arith) (omega arith)
            (omega arith)
    scan-inner i o c (template name nil) rest h less = absurd h
    scan-inner i o c (template name (cons t ts)) rest (h, ht, hts) less =
        let here = tokens_of system t in
        let more = more_tokens system ts in
        scan-name i o c (cpp_name system name) (codes "<" ∷ (here ++ more ++ rest)) h
        ∙ scan-lbrace (suc i) o c (here ++ more ++ rest)
        ∙ ap (scan (suc (suc i)) (suc o) c) (append_assoc here more rest)
        ∙ scan-inner (suc (suc i)) (suc o) c t (more ++ rest) ht (omega arith)
        ∙ scan-more (suc (suc i) + length here) (suc o + templates t) (c + templates t) ts rest hts
            (omega arith)
        ∙ scan-same _ _ _ _ _ _ rest (omega (arith, length-append here more)) (omega arith)
            (omega arith)

    scan-more :
        (i o c : ℕ) (ts : TypeExprs) (rest : List Text)
        → AllPrintable system ts
        → suc c < o
        → scan i o c (more_tokens system ts ++ rest)
          ≡ scan
              (i + length (more_tokens system ts))
              (o + all_templates ts)
              (suc (c + all_templates ts))
              rest
    scan-more i o c nil rest h less =
        scan-rbrace i o c rest
        ∙ scan-same (suc i) o (suc c) (i + 1) (o + 0) (suc (c + 0)) rest (omega arith) (omega arith)
            (omega arith)
    scan-more i o c (cons t ts) rest (ht, hts) less =
        let here = tokens_of system t in
        let more = more_tokens system ts in
        scan-comma i o c (here ++ more ++ rest) less
        ∙ ap (scan (suc i) o c) (append_assoc here more rest)
        ∙ scan-inner (suc i) o c t (more ++ rest) ht (omega arith)
        ∙ scan-more (suc i + length here) (o + templates t) (c + templates t) ts rest hts
            (omega arith)
        ∙ scan-same _ _ _ _ _ _ rest (omega (arith, length-append here more)) (omega arith)
            (omega arith)

  -- an argument between two positions
  slice-middle :
      (front middle back : List Text) (a : ℕ)
      → length front ≡ suc a
      → slice (front ++ middle ++ back) a (length (front ++ middle)) ≡ middle
  unfolding slice
  slice-middle front middle back a e =
      rw (take-length (front ++ middle) back, sym e, drop-length front middle) refl

  scan-outer :
      (front : List Text) (a c : ℕ) (t : TypeExpr) (ts : TypeExprs)
      → length front ≡ suc a
      → AllPrintable system ts
      → IsCut
          (front ++ tokens_of system t ++ more_tokens system ts)
          a
          (all_tokens system (cons t ts))
          (scan (length (front ++ tokens_of system t)) (suc c) c (more_tokens system ts))
  unfolding AllPrintable scan substrings more_tokens
  scan-outer front a c t nil e h =
      let here = tokens_of system t in
      let last : length (front ++ here ++ codes ">" ∷ []) - 1 ≡ length (front ++ here) =
        omega (arith, length-append (front ++ here) (codes ">" ∷ [])) in
      (
        refl,
        ap (λ x. x ∷ [])
            (ap (slice (front ++ here ++ codes ">" ∷ []) a) last
              ∙ slice-middle front here (codes ">" ∷ []) a e),
      )
  scan-outer front a c t (cons u us) e (hu, hus) =
      let before = front ++ tokens_of system t in
      let front' = before ++ codes "," ∷ [] in
      let here = tokens_of system u in
      let more = more_tokens system us in
      let i = length before in
      let counted : length front' ≡ suc i = omega (arith, length-append before (codes "," ∷ [])) in
      let found = scan (length (front' ++ here)) (suc (c + templates u)) (c + templates u) more in
      let inner : scan (suc i) (suc c) c (here ++ more) ≡ found =
        scan-inner (suc i) (suc c) c u more hu (omega arith)
        ∙ scan-same _ _ _ _ _ _ more (omega (arith, length-append front' here, counted))
            (omega arith) refl in
      let outer : scan i (suc c) c (codes "," ∷ (here ++ more)) ≡ with_split i found =
        scan-split i c (here ++ more) ∙ ap (with_split i) inner in
      let tokens : front' ++ here ++ more ≡ before ++ codes "," ∷ (here ++ more) =
        append_assoc front' here more ∙ append_assoc before (codes "," ∷ []) (here ++ more) in
      let (level, cut) = scan-outer front' i (c + templates u) u us counted hus in
      rw outer (
        level,
        ap₂ ◌∷◌ (slice-middle front (tokens_of system t) (codes "," ∷ (here ++ more)) a e) (
            subst (λ x. substrings x (i ∷ found.splits) ≡ all_tokens system (cons u us)) tokens
              cut),
      )

  ends-cons :
      (x : Text) (xs : List Text) → ends_with_brace xs ≡ true → ends_with_brace (x ∷ xs) ≡ true
  unfolding ends_with_brace
  ends-cons x [] h = ground arith
  ends-cons x (y ∷ xs) h = h

  ends-append : (xs ys : List Text) → ends_with_brace ys ≡ true → ends_with_brace (xs ++ ys) ≡ true
  ends-append [] ys h = h
  ends-append (x ∷ xs) ys h = ends-cons x (xs ++ ys) (ends-append xs ys h)

  ends-more : (ts : TypeExprs) → ends_with_brace (more_tokens system ts) ≡ true
  unfolding more_tokens ends_with_brace
  ends-more nil = refl
  ends-more (cons t ts) =
      ends-cons (codes ",") (tokens_of system t ++ more_tokens system ts)
        (ends-append (tokens_of system t) (more_tokens system ts) (ends-more ts))

  -- the tokens of a template: they end with a brace, and the scan cuts them into its arguments
  pub scan-template :
      (name : Text) (t : TypeExpr) (ts : TypeExprs)
      → IsPrintable system t
      → AllPrintable system ts
      → (let rest = codes "<" ∷ (tokens_of system t ++ more_tokens system ts) in
          (ends_with_brace (name ∷ rest) ≡ true)
          × IsCut (name ∷ rest) 1 (all_tokens system (cons t ts)) (scan 1 0 0 rest))
  scan-template name t ts ht hts =
      let here = tokens_of system t in
      let more = more_tokens system ts in
      let inner : scan 1 0 0 (codes "<" ∷ (here ++ more))
          ≡ scan (suc (suc (length here))) (suc (templates t)) (templates t) more =
        scan-lbrace 1 0 0 (here ++ more)
        ∙ scan-inner 2 1 0 t more ht (omega arith)
        ∙ scan-same _ _ _ _ _ _ more (omega arith) (omega arith) (omega arith) in
      (
        ends-append (name ∷ codes "<" ∷ here) more (ends-more ts),
        rw inner (scan-outer (name ∷ codes "<" ∷ []) 1 (templates t) t ts refl hts),
      )
