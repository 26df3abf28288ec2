-- ===== src/Dna/Normalization.antt =====
-- dna/normalization.py with dna/config/normalization.json.
pub mod Idempotent
use Prim.Native.Char.{Char, char}
use trade_sentry.Prelude.{
  ℕ, ◌+◌, String, Bool, true, false, ◌&&◌, ◌||◌, not, Option, none, some, List, [], ◌∷◌, elem,
  is_empty, string_eq, nat_beq, ◌==◌, if◌then◌else◌,
}
use trade_sentry.Prelude.Decimal.{Decimal, decimal, mul}
use trade_sentry.Contracts.Fields.{Date}
use trade_sentry.Dna.Text.{is_alnum, is_space, keep_chars, tokens, join_with}

-- What the code takes from Python's library: the methods of `str`, `str` of a `Decimal` and of a date
-- in ISO form, the quotient of two decimals, difflib's ratio and the hexadecimal SHA-256.
pub record DnaHost : Type 0 where
  pub casefold : String → String
  pub upper : String → String
  pub strip : String → String
  pub str : Decimal → String
  pub isoformat : Date → String
  pub quotient : Decimal → Decimal → Decimal
  pub ratio : String → String → Decimal
  pub sha256 : String → String

abbrev pub dot : Char
dot = char b'.' tt

abbrev pub underscore : Char
underscore = char b'_' tt

abbrev pub blank : Char
blank = char b' ' tt

abbrev pub legal_suffixes : List String
legal_suffixes =
    "ltd" ∷ "limited" ∷ "pvt" ∷ "private" ∷ "inc" ∷ "incorporated" ∷ "corp" ∷ "corporation" ∷ "llc"
    ∷ "pte" ∷ "co" ∷ "company" ∷ []

abbrev pub port_aliases : List (String × String)
port_aliases =
    ("jnpt", "INNSA")
    ∷ ("jawaharlal nehru port", "INNSA")
    ∷ ("nhava sheva", "INNSA")
    ∷ ("nhava sheva india", "INNSA")
    ∷ ("mundra", "INMUN")
    ∷ ("mundra india", "INMUN")
    ∷ ("singapore", "SGSIN")
    ∷ ("singapore singapore", "SGSIN")
    ∷ ("colombo", "LKCMB")
    ∷ ("colombo sri lanka", "LKCMB")
    ∷ []

abbrev pub currency_to_usd : List (String × Decimal)
currency_to_usd = ("USD", decimal 1 0) ∷ []

-- `mapping.get(key)`
abbrev pub get {ℓ} : {V : Type ℓ} → String → List (String × V) → Option V
get key [] = none
get key ((k, v) ∷ rest) = if k == key then some v else get key rest

-- `code in mapping.values()`
abbrev pub in_values : String → List (String × String) → Bool
in_values code [] = false
in_values code ((k, v) ∷ rest) = (v == code) || in_values code rest

-- `while tokens and tokens[-1] in suffixes: tokens.pop()`
unfoldable pub drop_suffixes : List String → List String
drop_suffixes [] = []
drop_suffixes (t ∷ ts) =
    let rest = drop_suffixes ts in if is_empty rest && elem t legal_suffixes then [] else t ∷ rest

abbrev pub metric_tons : List String
metric_tons = "MT" ∷ "MTS" ∷ "METRICTON" ∷ "METRICTONS" ∷ "TONNE" ∷ "TONNES" ∷ []

abbrev pub kilograms : List String
kilograms = "KG" ∷ "KGS" ∷ "KILOGRAM" ∷ "KILOGRAMS" ∷ []

abbrev pub grams : List String
grams = "G" ∷ "GRAM" ∷ "GRAMS" ∷ []

abbrev pub litres : List String
litres = "L" ∷ "LTR" ∷ "LITRE" ∷ "LITRES" ∷ "LITER" ∷ "LITERS" ∷ []

abbrev pub cubic_meters : List String
cubic_meters = "M3" ∷ "CBM" ∷ "CUBICMETER" ∷ "CUBICMETERS" ∷ []

abbrev pub pieces : List String
pieces = "UNIT" ∷ "UNITS" ∷ "PCS" ∷ "PIECE" ∷ "PIECES" ∷ []

-- `value / Decimal(10 ** places)`
abbrev pub shift_right : ℕ → Decimal → Decimal
shift_right places d = record { coef = d.coef; scale = d.scale + places }

-- the quantity in its canonical unit; `none` is the `NormalizationError`
unfoldable pub quantity_in : Decimal → String → Option (Decimal × String)
quantity_in value unit =
    if elem unit metric_tons
    then some (value, "MT")
    else if elem unit kilograms
    then some (shift_right 3 value, "MT")
    else if elem unit grams
    then some (shift_right 6 value, "MT")
    else if elem unit litres
    then some (value, "L")
    else if elem unit cubic_meters
    then some (value, "M3")
    else if elem unit pieces
    then some (value, "UNITS")
    else none

-- the two-character groups behind the first four, each with a dot before it
abbrev pub dotted : String → String
dotted String.[] = String.[]
dotted (String.◌∷◌ a String.[]) = String.◌∷◌ dot (String.◌∷◌ a String.[])
dotted (String.◌∷◌ a (String.◌∷◌ b s)) = String.◌∷◌ dot (String.◌∷◌ a (String.◌∷◌ b (dotted s)))

abbrev pub grouped : String → String
grouped (String.◌∷◌ a (String.◌∷◌ b (String.◌∷◌ c (String.◌∷◌ d s)))) =
    String.◌∷◌ a (String.◌∷◌ b (String.◌∷◌ c (String.◌∷◌ d (dotted s))))
grouped s = s

module _ (h : DnaHost) where
  open h use {casefold, upper, strip}

  -- `_words(raw).split()`
  unfoldable pub words_of : String → List String
  words_of raw = tokens (keep_chars (λ c. not (nat_beq c b'.')) (casefold raw))

  unfoldable pub normalize_entity_name : String → String
  normalize_entity_name raw = join_with underscore (drop_suffixes (words_of raw))

  unfoldable pub normalize_free_text : String → String
  normalize_free_text raw = join_with underscore (words_of raw)

  -- `none` for a text without words
  unfoldable pub normalize_port : String → Option String
  normalize_port raw =
      let normalized = join_with blank (words_of raw) in
      let supplied_code = upper normalized in
      if normalized == ""
      then none
      else if in_values supplied_code port_aliases
      then some supplied_code
      else elim (get normalized port_aliases) [ none ↦ some normalized | some c ↦ some c ]

  unfoldable pub normalize_hs_code : String → String
  normalize_hs_code raw = grouped (upper (keep_chars is_alnum raw))

  unfoldable pub normalize_identifier : String → String
  normalize_identifier raw = upper (keep_chars (λ c. not (is_space c)) raw)

  unfoldable pub normalize_quantity : Decimal → String → Option (Decimal × String)
  unfolding quantity_in
  normalize_quantity value unit = quantity_in value (upper (keep_chars is_alnum unit))

  unfoldable pub convert_currency_to_usd : Decimal → String → Option Decimal
  convert_currency_to_usd value currency = elim (get (upper (strip currency)) currency_to_usd) [
    | none ↦ none
    | some rate ↦ some (mul value rate)
  ]
