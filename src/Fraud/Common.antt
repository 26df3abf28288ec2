-- ===== src/Fraud/Common.antt =====
-- fraud_tbml/common.py, and what the tools take from Python's library, RapidFuzz and the clock.
use Prim.Native.Char.{Char, char, code}
use Prim.Native.String.{◌++◌ as ◌+◌}
use trade_sentry.Prelude.{
  ℕ, String, Bool, true, false, ◌&&◌, ◌||◌, not, List, [], ◌∷◌, if◌then◌else◌, nat_beq,
}
use trade_sentry.Prelude.Decimal.{Decimal}
use trade_sentry.Contracts.Fields.{Date}
use trade_sentry.Dna.Text.{is_space, join_with}

-- A ratio is a multiple of `1 / full`, as RapidFuzz gives it, with `full` for 100.0.
pub record FraudHost : Type 0 where
  pub isalnum : ℕ → Bool
  pub lower : Char → String
  pub upper : String → String
  pub casefold : String → String
  pub strip : String → String
  pub year : Date → ℕ
  pub month : Date → ℕ
  pub isoformat : Date → String
  pub full : ℕ
  pub ratio : String → String → ℕ
  -- `round(a / b, 4)`, and `round((value - p50) / p50 * 100, 1)`
  pub rounded : (a b : ℕ) → Decimal
  pub deviation : (value p50 : Decimal) → Decimal
  pub retrieved_now : ℕ
  -- whether the class of an exception is a `TimeoutError`, a `ConnectionError` or an `OSError`
  pub is_transient : String → Bool

abbrev pub space : Char
space = char b' ' tt

-- a text without a blank at its front
abbrev pub starts_field : String → Bool
starts_field String.[] = false
starts_field (String.◌∷◌ c s) = not (is_space (code c))

abbrev pub extend_field : Char → (joined : Bool) → List String → List String
extend_field c joined [] = String.◌∷◌ c String.[] ∷ []
extend_field c joined (w ∷ ws) =
    if joined then String.◌∷◌ c w ∷ ws else String.◌∷◌ c String.[] ∷ w ∷ ws

-- `text.split()`
unfoldable pub split : String → List String
split String.[] = []
split (String.◌∷◌ c s) =
    let rest = split s in if is_space (code c) then rest else extend_field c (starts_field s) rest

-- `text.startswith(prefix)`
abbrev pub has_prefix : (prefix text : String) → Bool
has_prefix String.[] text = true
has_prefix (String.◌∷◌ c s) String.[] = false
has_prefix (String.◌∷◌ c s) (String.◌∷◌ d t) = nat_beq (code c) (code d) && has_prefix s t

-- `part in text`
abbrev pub is_within : (part text : String) → Bool
is_within part String.[] = has_prefix part String.[]
is_within part (String.◌∷◌ c s) = has_prefix part (String.◌∷◌ c s) || is_within part s

-- the text behind its first `n` characters
abbrev pub without_prefix : (prefix text : String) → String
without_prefix String.[] text = text
without_prefix (String.◌∷◌ c s) String.[] = String.[]
without_prefix (String.◌∷◌ c s) (String.◌∷◌ d t) = without_prefix s t

-- `text.removeprefix(prefix)`
abbrev pub remove_prefix : (prefix text : String) → String
remove_prefix prefix text = if has_prefix prefix text then without_prefix prefix text else text

module _ (h : FraudHost) where
  -- letters and digits in lower case, and a blank in place of everything else
  abbrev pub spaced : String → String
  spaced String.[] = String.[]
  spaced (String.◌∷◌ c s) =
      let rest = spaced s in if h.isalnum (code c) then h.lower c + rest else String.◌∷◌ space rest

  unfoldable pub normalize_name : String → String
  normalize_name value = join_with space (split (spaced value))
