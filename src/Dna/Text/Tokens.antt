-- ===== src/Dna/Text/Tokens.antt =====
-- Words that are joined and split again.
use Prim.Native.Char.{Char, code}
use trade_sentry.Prelude.{
  String, ◌≡◌, refl, Bool, true, false, List, [], ◌∷◌, All, ap, ◌∙◌, Bool-cases, inl, inr,
}
use trade_sentry.Prelude.Text.{is_word_char}
use trade_sentry.Dna.Text.{tokens, join_with, before, extend, starts_word}

-- a text of `[a-z0-9]` alone
abbrev pub IsWordChars : String → Type 0
IsWordChars String.[] = Unit
IsWordChars (String.◌∷◌ c s) = (is_word_char (code c) ≡ true) × IsWordChars s

-- one that is not empty
abbrev pub IsToken : String → Type 0
IsToken String.[] = ⊥
IsToken (String.◌∷◌ c s) = (is_word_char (code c) ≡ true) × IsWordChars s

extend-All :
    (c : Char) (b : Bool) (ws : List String)
    → is_word_char (code c) ≡ true
    → All IsToken ws
    → All IsToken (extend c b ws)
extend-All c b [] e a = ((e, tt), tt)
extend-All c true (String.[] ∷ ws) e a = absurd a.0
extend-All c true (String.◌∷◌ d w ∷ ws) e a = ((e, a.0), a.1)
extend-All c false (w ∷ ws) e a = ((e, tt), a)

tokens-nil : tokens String.[] ≡ []
unfolding tokens
tokens-nil = refl

tokens-word :
    (c : Char) (s : String)
    → is_word_char (code c) ≡ true
    → tokens (String.◌∷◌ c s) ≡ extend c (starts_word s) (tokens s)
unfolding tokens
tokens-word c s e = rw e refl

tokens-gap :
    (c : Char) (s : String) → is_word_char (code c) ≡ false → tokens (String.◌∷◌ c s) ≡ tokens s
unfolding tokens
tokens-gap c s e = rw e refl

-- What `tokens` finds are words.
pub tokens-All : (s : String) → All IsToken (tokens s)
tokens-All String.[] = rw tokens-nil tt
tokens-All (String.◌∷◌ c s) = elim (Bool-cases (is_word_char (code c))) [
  | inl e ↦ rw (tokens-word c s e) (extend-All c (starts_word s) (tokens s) e (tokens-All s))
  | inr e ↦ rw (tokens-gap c s e) (tokens-All s)
]

extend-apart : (c : Char) (ws : List String) → extend c false ws ≡ String.◌∷◌ c String.[] ∷ ws
extend-apart c [] = refl
extend-apart c (w ∷ ws) = refl

tokens-before :
    (sep : Char) (w t : String)
    → is_word_char (code sep) ≡ false
    → IsToken w
    → tokens (before sep w t) ≡ w ∷ tokens t
tokens-before sep String.[] t n k = absurd k
tokens-before sep (String.◌∷◌ c String.[]) t n k =
    rw (tokens-word c (String.◌∷◌ sep t) k.0, n, extend-apart, tokens-gap sep t n) refl
tokens-before sep (String.◌∷◌ c (String.◌∷◌ d w)) t n k =
    rw
      (
        tokens-word c (before sep (String.◌∷◌ d w) t) k.0,
        k.1.0,
        tokens-before sep (String.◌∷◌ d w) t n k.1,
      )
      refl

tokens-one : (w : String) → IsToken w → tokens w ≡ w ∷ []
tokens-one String.[] k = absurd k
tokens-one (String.◌∷◌ c String.[]) k = rw (tokens-word c String.[] k.0, tokens-nil) refl
tokens-one (String.◌∷◌ c (String.◌∷◌ d w)) k =
    rw (tokens-word c (String.◌∷◌ d w) k.0, k.1.0, tokens-one (String.◌∷◌ d w) k.1) refl

-- Words that are joined by a character of no word are found again.
pub tokens-join_with :
    (sep : Char) (ws : List String)
    → is_word_char (code sep) ≡ false
    → All IsToken ws
    → tokens (join_with sep ws) ≡ ws
unfolding join_with
tokens-join_with sep [] n a = tokens-nil
tokens-join_with sep (w ∷ []) n a = tokens-one w a.0
tokens-join_with sep (w ∷ v ∷ ws) n a =
    tokens-before sep w (join_with sep (v ∷ ws)) n a.0
    ∙ ap (λ t. w ∷ t) (tokens-join_with sep (v ∷ ws) n a.1)
