-- ===== src/Prelude/Text.antt =====
-- Texts as code points: Python's order of strings, and the words of a text.
use Prim.Native.Nat.{ℕ, zero, suc, ◌/◌, ◌%◌, compare, Ordering}
use Prim.Native.Char.{code}
use Prim.Native.String.{String}
use Prim.Native.String.{◌++◌ as ◌+◌}
use mathlib.Core.Bool.{Bool, true, false, ◌&&◌, ◌||◌}
use mathlib.Core.List.{List, [], ◌∷◌}
use trade_sentry.Prelude.Tests.{leb, if◌then◌else◌}

abbrev pub codes : String → List ℕ
codes String.[] = []
codes (String.◌∷◌ c s) = code c ∷ codes s

-- `left <= right`, by code points
abbrev pub le_codes : List ℕ → List ℕ → Bool
le_codes [] ys = true
le_codes (x ∷ xs) [] = false
le_codes (x ∷ xs) (y ∷ ys) =
    let rest = le_codes xs ys in
    elim (compare x y) [ Ordering.lt ↦ true | Ordering.eq ↦ rest | Ordering.gt ↦ false ]

abbrev pub eq_codes : List ℕ → List ℕ → Bool
eq_codes xs ys = le_codes xs ys && le_codes ys xs

-- The truth value of a `str`: whether it is not empty.
abbrev pub is_text : String → Bool
is_text String.[] = false
is_text (String.◌∷◌ c s) = true

-- `re.findall(r"[a-z0-9]+", text)`, joined by single spaces. `pending` says whether a space is due
-- before the next letter, `started` whether a letter has been seen.
abbrev pub is_word_char : ℕ → Bool
is_word_char c = (leb b'a' c && leb c b'z') || (leb b'0' c && leb c b'9')

pub join_words : (started pending : Bool) → List ℕ → List ℕ
join_words started pending [] = []
join_words started pending (c ∷ cs) =
    if is_word_char c
    then (let rest = join_words true false cs in
        if started && pending then b' ' ∷ c ∷ rest else c ∷ rest)
    else join_words started true cs

unfoldable pub words : List ℕ → List ℕ
unfolding join_words
words cs = join_words false false cs

-- `str(n)`
abbrev digit : ℕ → String
digit n =
    if leb n 0
    then "0"
    else if leb n 1
    then "1"
    else if leb n 2
    then "2"
    else if leb n 3
    then "3"
    else if leb n 4
    then "4"
    else if leb n 5
    then "5"
    else if leb n 6
    then "6"
    else if leb n 7
    then "7"
    else if leb n 8
    then "8"
    else "9"

-- `n + 1` digits are always enough.
pub digits_of : ℕ → ℕ → String
digits_of zero n = ""
digits_of (suc f) n =
    let rest = digits_of f (n / 10) in if leb n 9 then digit n else rest + digit (n % 10)

unfoldable pub show_nat : ℕ → String
unfolding digits_of
show_nat n = digits_of (suc n) n
