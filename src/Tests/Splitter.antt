-- ===== src/Tests/Splitter.antt =====
-- A tokenizer that meets the hypotheses on boost's: it parts a text at a byte, and drops empty tokens.
use hox_server.Prelude.{
  ℕ, ◌≡◌, refl, sym, ◌∙◌, ap, arith, true, false, ◌==◌, List, [], ◌∷◌, ◌++◌, if◌then◌else◌,
  contains,
}
use mathlib.Core.List.{append-nil}
use hox_server.Table.State.{Text}
use hox_server.Util.Numbers.{is_empty_text}
use hox_server.Util.Times.{join_texts, is_token, are_tokens, SplitsTokens}
use hox_server.Util.Parsing.{are_plain, SplitsFields}

abbrev flush : Text × List Text → List Text
flush (w, ws) = if is_empty_text w then ws else w ∷ ws

-- The token that a text starts with, and the others.
unfoldable pub parts : ℕ → Text → Text × List Text
parts c [] = ([], [])
parts c (d ∷ s) = let r = parts c s in if d == c then ([], flush r) else (d ∷ r.0, r.1)

unfoldable pub split : ℕ → Text → List Text
unfolding parts
split c s = flush (parts c s)

parts-append :
    (c : ℕ) (s t : Text)
    → contains c s ≡ false
    → parts c (s ++ t) ≡ (s ++ (parts c t).0, (parts c t).1)
unfolding parts contains
parts-append c [] t h = refl
parts-append c (d ∷ s) t h = ground (arith, h, parts-append c s t)

parts-separator : (c : ℕ) (t : Text) → parts c (c ∷ t) ≡ ([], split c t)
unfolding parts split
parts-separator c t = ground arith

flush-token : (c : ℕ) (s : Text) (ws : List Text) → is_token c s ≡ true → flush (s, ws) ≡ s ∷ ws
flush-token c [] ws h = ground (arith, h)
flush-token c (d ∷ s) ws h = refl

split-first :
    (c : ℕ) (s t : Text) (ws : List Text)
    → is_token c s ≡ true
    → parts c t ≡ ([], ws)
    → split c (s ++ t) ≡ s ∷ ws
unfolding split
split-first c s t ws h e =
    ap flush (parts-append c s t (ground (arith, h)))
    ∙ ap (λ r. flush (s ++ r.0, r.1)) e
    ∙ ap (λ u. flush (u, ws)) (append-nil s)
    ∙ flush-token c s ws h

parts-nil : (c : ℕ) → parts c [] ≡ ([], [])
unfolding parts
parts-nil c = refl

split-nil : (c : ℕ) → split c [] ≡ []
unfolding split
split-nil c = refl

pub split-SplitsTokens : (c : ℕ) → SplitsTokens (split c) c
unfolding are_tokens join_texts
split-SplitsTokens c [] h = split-nil c
split-SplitsTokens c (s ∷ []) h =
    ap (split c) (sym (append-nil s)) ∙ split-first c s [] [] (ground (arith, h)) (parts-nil c)
split-SplitsTokens c (s ∷ t ∷ ts) h =
    split-first c s (c ∷ join_texts c (t ∷ ts)) _ (ground (arith, h))
      (parts-separator c (join_texts c (t ∷ ts)))
    ∙ ap (λ us. s ∷ us) (split-SplitsTokens c (t ∷ ts) (ground (arith, h)))

are_plain-tokens : (ts : List Text) → are_plain ts ≡ true → are_tokens b'&' ts ≡ true
unfolding are_plain are_tokens
are_plain-tokens [] h = refl
are_plain-tokens (t ∷ ts) h = ground (arith, h, are_plain-tokens ts)

pub split-SplitsFields : SplitsFields (split b'&')
split-SplitsFields ts h k = split-SplitsTokens b'&' ts (are_plain-tokens ts h)
