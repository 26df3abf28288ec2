-- ===== src/Dna/Normalization/Idempotent.antt =====
-- dna/normalization.py: names that are normalized again.
use Prim.Native.Char.{code}
use trade_sentry.Prelude.{
  ℕ, String, ◌≡◌, refl, Bool, true, ◌&&◌, ◌||◌, not, nat_beq, List, [], ◌∷◌, All, elem, is_empty,
  string_eq, arith, Bool-cases, inl, inr,
}
use trade_sentry.Prelude.Text.{is_word_char}
use trade_sentry.Dna.Text.{join_with, before, keep_chars}
use trade_sentry.Dna.Text.Tokens.{IsToken, IsWordChars, tokens-All, tokens-join_with}
use trade_sentry.Dna.Normalization.{
  DnaHost, drop_suffixes, legal_suffixes, words_of, normalize_entity_name, underscore,
}

drop_suffixes-All {κ} :
    (P : String → Type κ) (ws : List String) → All P ws → All P (drop_suffixes ws)
unfolding drop_suffixes
drop_suffixes-All P [] _ = tt
drop_suffixes-All P (w ∷ ws) (p, ps) =
    let q = drop_suffixes-All P ws ps in
    elim (Bool-cases (is_empty (drop_suffixes ws) && elem w legal_suffixes)) [
      | inl e ↦ rw e tt
      | inr e ↦ rw e (p, q)
    ]

-- What is left ends with no legal suffix: nothing more is dropped.
pub drop_suffixes_idem : (ws : List String) → drop_suffixes (drop_suffixes ws) ≡ drop_suffixes ws
unfolding drop_suffixes
drop_suffixes_idem [] = refl
drop_suffixes_idem (w ∷ ws) =
    let i = drop_suffixes_idem ws in
    elim (Bool-cases (is_empty (drop_suffixes ws) && elem w legal_suffixes)) [
      | inl e ↦ rw e refl
      | inr e ↦ rw (e, i, e) refl
    ]

-- the characters of `[a-z0-9_]`
abbrev pub is_name_char : ℕ → Bool
is_name_char c = is_word_char c || nat_beq c b'_'

abbrev pub IsName : String → Type 0
IsName String.[] = Unit
IsName (String.◌∷◌ c s) = (is_name_char (code c) ≡ true) × IsName s

no_dot : (c : ℕ) → is_name_char c ≡ true → not (nat_beq c b'.') ≡ true
no_dot c e = ground arith

keep_chars-name : (s : String) → IsName s → keep_chars (λ c. not (nat_beq c b'.')) s ≡ s
keep_chars-name String.[] _ = refl
keep_chars-name (String.◌∷◌ c s) (p, q) = rw (no_dot (code c) p, keep_chars-name s q) refl

word-IsName : (s : String) → IsWordChars s → IsName s
word-IsName String.[] _ = tt
word-IsName (String.◌∷◌ c s) (p, q) = (ground (arith, p), word-IsName s q)

token-IsName : (s : String) → IsToken s → IsName s
token-IsName String.[] k = absurd k
token-IsName (String.◌∷◌ c s) (p, q) = (ground (arith, p), word-IsName s q)

before-IsName : (s t : String) → IsName s → IsName t → IsName (before underscore s t)
before-IsName String.[] t _ b = (refl, b)
before-IsName (String.◌∷◌ c s) t (p, q) b = (p, before-IsName s t q b)

pub join_with-IsName : (ws : List String) → All IsToken ws → IsName (join_with underscore ws)
unfolding join_with
join_with-IsName [] _ = tt
join_with-IsName (w ∷ []) (p, _) = token-IsName w p
join_with-IsName (w ∷ v ∷ ws) (p, q) =
    before-IsName w (join_with underscore (v ∷ ws)) (token-IsName w p) (join_with-IsName (v ∷ ws) q)

module _ (h : DnaHost) (casefold_name : (s : String) → IsName s → h.casefold s ≡ s) where
  words_of-join : (ws : List String) → All IsToken ws → words_of h (join_with underscore ws) ≡ ws
  unfolding words_of
  words_of-join ws a =
      let n = join_with-IsName ws a in
      rw (casefold_name (join_with underscore ws) n, keep_chars-name (join_with underscore ws) n)
        (tokens-join_with underscore ws refl a)

  words_of-All : (s : String) → All IsToken (words_of h s)
  unfolding words_of
  words_of-All s = tokens-All (keep_chars (λ c. not (nat_beq c b'.')) (h.casefold s))

  -- Where case folding leaves lower-case letters, digits and underscores alone, a company's name that
  -- is normalized again stays as it is: `_` parts words, and no legal suffix is left to drop.
  pub normalize_entity_name_idem :
      (raw : String)
      → normalize_entity_name h (normalize_entity_name h raw) ≡ normalize_entity_name h raw
  unfolding normalize_entity_name
  normalize_entity_name_idem raw =
      let ws = drop_suffixes (words_of h raw) in
      rw
        (
          words_of-join ws (drop_suffixes-All IsToken (words_of h raw) (words_of-All raw)),
          drop_suffixes_idem (words_of h raw),
        )
        refl
