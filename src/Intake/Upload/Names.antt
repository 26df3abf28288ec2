-- ===== src/Intake/Upload/Names.antt =====
-- apps/api/tradesentry_api/documents.py: what `sanitize_filename` lets through.
use Prim.Native.Char.{char, code}
use trade_sentry.Prelude.{
  ℕ, zero, suc, ◌≤◌, ◌<◌, ◌≡◌, refl, String, Bool, true, ◌&&◌, not, Option, length, arith,
  Bool-cases, inl, inr, string_eq, if◌then◌else◌,
}
use trade_sentry.Prelude.Text.{is_text, codes}
use trade_sentry.Investigation.Calls.{first_chars}
use trade_sentry.Intake.Upload.{
  UploadHost, MimeType, pdf, tiff, jpeg, is_safe_char, is_trimmed, safe_text, strip_front,
  strip_back, strip_marks, fallback_name, given_name, replace_char, sanitize_filename,
}

-- every character is one of `[A-Za-z0-9._-]`
abbrev pub IsSafe : String → Type 0
IsSafe String.[] = Unit
IsSafe (String.◌∷◌ c s) = (is_safe_char (code c) ≡ true) × IsSafe s

abbrev all_safe : String → Bool
all_safe String.[] = true
all_safe (String.◌∷◌ c s) = let rest = all_safe s in is_safe_char (code c) && rest

IsSafe-of : (s : String) → all_safe s ≡ true → IsSafe s
IsSafe-of String.[] e = tt
IsSafe-of (String.◌∷◌ c s) e = (ground (arith, e), IsSafe-of s (ground (arith, e)))

safe_text-IsSafe : (s : String) → IsSafe (safe_text s)
unfolding safe_text
safe_text-IsSafe String.[] = tt
safe_text-IsSafe (String.◌∷◌ c s) = elim (Bool-cases (is_safe_char (code c))) [
  | inl e ↦ rw e (e, safe_text-IsSafe s)
  | inr e ↦ rw e (refl, safe_text-IsSafe s)
]

strip_front-IsSafe : (s : String) → IsSafe s → IsSafe (strip_front s)
strip_front-IsSafe String.[] k = tt
strip_front-IsSafe (String.◌∷◌ c s) (p, k) = elim (Bool-cases (is_trimmed (code c))) [
  | inl e ↦ rw e (strip_front-IsSafe s k)
  | inr e ↦ rw e (p, k)
]

strip_back-IsSafe : (s : String) → IsSafe s → IsSafe (strip_back s)
strip_back-IsSafe String.[] k = tt
strip_back-IsSafe (String.◌∷◌ c s) (p, k) =
    elim (Bool-cases (is_trimmed (code c) && not (is_text (strip_back s)))) [
      | inl e ↦ rw e tt
      | inr e ↦ rw e (p, strip_back-IsSafe s k)
    ]

first_chars-IsSafe : (n : ℕ) (s : String) → IsSafe s → IsSafe (first_chars n s)
first_chars-IsSafe zero s k = tt
first_chars-IsSafe (suc n) String.[] k = tt
first_chars-IsSafe (suc n) (String.◌∷◌ c s) (p, k) = (p, first_chars-IsSafe n s k)

pub length-first_chars : (n : ℕ) (s : String) → length (codes (first_chars n s)) ≤ n
length-first_chars zero s = omega arith
length-first_chars (suc n) String.[] = omega arith
length-first_chars (suc n) (String.◌∷◌ c s) = omega (arith, length-first_chars n s)

is_text-first_chars :
    (n : ℕ) (s : String) → 0 < n → is_text s ≡ true → is_text (first_chars n s) ≡ true
is_text-first_chars zero s p e = absurd (omega (arith, p))
is_text-first_chars (suc n) String.[] p e = e
is_text-first_chars (suc n) (String.◌∷◌ c s) p e = refl

abbrev IsName : String → Type 0
IsName s = IsSafe s × (is_text s ≡ true)

fallback-IsName : (mime_type : MimeType) → IsName (fallback_name mime_type)
fallback-IsName pdf = (IsSafe-of "document.pdf" refl, refl)
fallback-IsName tiff = (IsSafe-of "document.tiff" refl, refl)
fallback-IsName jpeg = (IsSafe-of "document.jpg" refl, refl)

chosen-IsName :
    (safe fallback : String)
    → IsSafe safe
    → IsName fallback
    → IsName (if is_text safe then safe else fallback)
chosen-IsName safe fallback k f = elim (Bool-cases (is_text safe)) [
  | inl e ↦ rw e (k, e)
  | inr e ↦ rw e f
]

-- Whatever name an upload has, the name it is stored under has only letters, digits, dots, underscores
-- and dashes, is not empty and is at most 180 characters long.
pub sanitize_filename-IsSafe :
    (h : UploadHost) (filename : Option String) (mime_type : MimeType)
    → let name : String = sanitize_filename h filename mime_type in
      IsSafe name × (is_text name ≡ true) × (length (codes name) ≤ 180)
unfolding sanitize_filename
sanitize_filename-IsSafe h filename mime_type =
    let leaf = h.path_name (
      replace_char (char b'\\' tt) (char b'/' tt)
        (given_name filename (fallback_name mime_type))) in
    let safe = strip_marks (safe_text leaf) in
    let name = if is_text safe then safe else fallback_name mime_type in
    let (k, e) =
      chosen-IsName safe (fallback_name mime_type)
        (strip_back-IsSafe (strip_front (safe_text leaf))
          (strip_front-IsSafe (safe_text leaf) (safe_text-IsSafe leaf)))
        (fallback-IsName mime_type) in
    (
      first_chars-IsSafe 180 name k,
      is_text-first_chars 180 name (omega arith) e,
      length-first_chars 180 name,
    )
