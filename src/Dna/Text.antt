-- ===== src/Dna/Text.antt =====
-- dna/normalization.py: what its regular expressions, `split` and `join` do with a text.
pub mod Tokens
use Prim.Native.Char.{Char, code}
use trade_sentry.Prelude.{
  ℕ, String, Bool, false, ◌&&◌, ◌||◌, not, List, [], ◌∷◌, leb, nat_beq, if◌then◌else◌,
}
use trade_sentry.Prelude.Text.{is_word_char}

-- the characters of `[A-Za-z0-9]`
abbrev pub is_alnum : ℕ → Bool
is_alnum c = is_word_char c || (leb b'A' c && leb c b'Z')

-- the characters that `\s` matches in a `str`
abbrev pub is_space : ℕ → Bool
is_space c =
    (leb 9 c && leb c 13)
    || (leb 28 c && leb c 32)
    || nat_beq c 133
    || nat_beq c 160
    || nat_beq c 5760
    || (leb 8192 c && leb c 8202)
    || nat_beq c 8232
    || nat_beq c 8233
    || nat_beq c 8239
    || nat_beq c 8287
    || nat_beq c 12288

-- the text without the characters that fail the test
abbrev pub keep_chars : (ℕ → Bool) → String → String
keep_chars p String.[] = String.[]
keep_chars p (String.◌∷◌ c s) =
    let rest = keep_chars p s in if p (code c) then String.◌∷◌ c rest else rest

abbrev pub starts_word : String → Bool
starts_word String.[] = false
starts_word (String.◌∷◌ c s) = is_word_char (code c)

-- a character of a word in front of the words that follow it
abbrev pub extend : Char → (joined : Bool) → List String → List String
extend c joined [] = String.◌∷◌ c String.[] ∷ []
extend c joined (w ∷ ws) = if joined then String.◌∷◌ c w ∷ ws else String.◌∷◌ c String.[] ∷ w ∷ ws

-- the longest runs of `[a-z0-9]`: `re.sub(r"[^a-z0-9]+", " ", text).split()`
unfoldable pub tokens : String → List String
tokens String.[] = []
tokens (String.◌∷◌ c s) =
    let rest = tokens s in if is_word_char (code c) then extend c (starts_word s) rest else rest

-- `s + separator + t`
abbrev pub before : Char → String → String → String
before separator String.[] t = String.◌∷◌ separator t
before separator (String.◌∷◌ c s) t = String.◌∷◌ c (before separator s t)

-- `separator.join(words)`
unfoldable pub join_with : Char → List String → String
join_with separator [] = String.[]
join_with separator (w ∷ []) = w
join_with separator (w ∷ v ∷ ws) = before separator w (join_with separator (v ∷ ws))
