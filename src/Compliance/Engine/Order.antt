-- ===== src/Compliance/Engine/Order.antt =====
-- The findings come in the order of their keys.
use trade_sentry.Prelude.{
  ℕ, ◌<◌, Bool-cases, Bool, if◌then◌else◌, String, ◌≡◌, refl, ◌⊎◌, inl, inr, true, List, [], ◌∷◌,
  All, arith,
}
use trade_sentry.Prelude.Text.{codes, le_codes, eq_codes}
use trade_sentry.Prelude.Sort.{IsSorted, sorted-IsSorted}
use trade_sentry.Compliance.Model.{ComplianceCaseFacts, ComplianceFinding}
use trade_sentry.Compliance.Finding.{Host}
use trade_sentry.Compliance.Completeness.Gate.{IsMet}
use trade_sentry.Compliance.Engine.{
  evaluate_compliance, all_findings, finding_order, le_keys, sort_key, complete_result,
}
use trade_sentry.Compliance.Engine.Results.{evaluate_complete}

le_codes_total : (xs ys : List ℕ) → (le_codes xs ys ≡ true) ⊎ (le_codes ys xs ≡ true)
le_codes_total [] ys = inl refl
le_codes_total (x ∷ xs) [] = inr refl
le_codes_total (x ∷ xs) (y ∷ ys) = ground (arith, le_codes_total xs ys)

le_codes_trans :
    (xs ys zs : List ℕ) → le_codes xs ys ≡ true → le_codes ys zs ≡ true → le_codes xs zs ≡ true
le_codes_trans [] ys zs p q = refl
le_codes_trans (x ∷ xs) [] zs p q = cc
le_codes_trans (x ∷ xs) (y ∷ ys) [] p q = cc
le_codes_trans (x ∷ xs) (y ∷ ys) (z ∷ zs) p q = ground (arith, le_codes_trans xs ys zs)

le_keys_total : (xs ys : List String) → (le_keys xs ys ≡ true) ⊎ (le_keys ys xs ≡ true)
le_keys_total [] ys = inl refl
le_keys_total (x ∷ xs) [] = inr refl
le_keys_total (x ∷ xs) (y ∷ ys) =
    ground (arith, le_keys_total xs ys, le_codes_total (codes x) (codes y))

le_keys_trans :
    (xs ys zs : List String) → le_keys xs ys ≡ true → le_keys ys zs ≡ true → le_keys xs zs ≡ true
le_keys_trans [] ys zs p q = refl
le_keys_trans (x ∷ xs) [] zs p q = cc
le_keys_trans (x ∷ xs) (y ∷ ys) [] p q = cc
le_keys_trans (x ∷ xs) (y ∷ ys) (z ∷ zs) p q = ground (
  arith,
  le_keys_trans xs ys zs,
  le_codes_trans (codes x) (codes y) (codes z),
  le_codes_trans (codes y) (codes z) (codes x),
  le_codes_trans (codes z) (codes x) (codes y),
  le_codes_trans (codes z) (codes y) (codes x),
  le_codes_trans (codes y) (codes x) (codes z),
  le_codes_trans (codes x) (codes z) (codes y),
)

-- Python's order of two texts that differ, by the code points of their letters.
abbrev pub Before : List ℕ → List ℕ → Type 0
Before xs [] = ⊥
Before [] (y ∷ ys) = Unit
Before (x ∷ xs) (y ∷ ys) = (x < y) ⊎ ((x ≡ y) × Before xs ys)

-- The first texts decide, and the rest where they are the same.
abbrev pub Decides : (x y : String) → Type 0 → Type 0
Decides x y Rest = Before (codes x) (codes y) ⊎ ((codes x ≡ codes y) × Rest)

-- By rule, then document, field, actual value and the finding's own id.
abbrev pub InOrder : ComplianceFinding → ComplianceFinding → Type 0
InOrder f g = Decides f.rule_id g.rule_id (
    Decides f.document_id g.document_id (
      Decides f.field_name g.field_name
        (Decides f.actual g.actual (Decides f.finding_id g.finding_id Unit))))

-- Each finding is in order with every later one.
abbrev pub IsOrdered : List ComplianceFinding → Type 0
IsOrdered [] = Unit
IsOrdered (f ∷ fs) = All (InOrder f) fs × IsOrdered fs

le_codes-Before : (xs ys : List ℕ) → le_codes xs ys ≡ true → Before xs ys ⊎ (xs ≡ ys)
le_codes-Before [] [] e = inr refl
le_codes-Before [] (y ∷ ys) e = inl tt
le_codes-Before (x ∷ xs) [] e = absurd (ground (arith, e))
le_codes-Before (x ∷ xs) (y ∷ ys) e = ground (arith, le_codes-Before xs ys)

le_codes_refl : (xs : List ℕ) → le_codes xs xs ≡ true
le_codes_refl xs = elim (le_codes_total xs xs) [ inl e ↦ e | inr e ↦ e ]

-- The test of `le_keys` on two texts and the outcome for the keys after them.
decides_lem :
    (xs ys : List ℕ) (rest : Bool)
    → (if eq_codes xs ys then rest else le_codes xs ys) ≡ true
    → Before xs ys ⊎ ((xs ≡ ys) × (rest ≡ true))
decides_lem xs ys rest e = elim (Bool-cases (le_codes xs ys)) [
  | inl below ↦ elim (le_codes-Before xs ys below) [
    | inl b ↦ inl b
    | inr same ↦ inr (same, ground (arith, e, le_codes_refl ys, rw same at e))
  ]
  | inr h ↦ absurd (ground (arith, h, e))
]

-- The order of two keys of any length.
abbrev KeysInOrder : List String → List String → Type 0
KeysInOrder [] ys = Unit
KeysInOrder (x ∷ xs) [] = ⊥
KeysInOrder (x ∷ xs) (y ∷ ys) = Decides x y (KeysInOrder xs ys)

le_keys-KeysInOrder : (xs ys : List String) → le_keys xs ys ≡ true → KeysInOrder xs ys
le_keys-KeysInOrder [] ys e = tt
le_keys-KeysInOrder (x ∷ xs) [] e = absurd (ground (arith, e))
le_keys-KeysInOrder (x ∷ xs) (y ∷ ys) e = elim (decides_lem (codes x) (codes y) (le_keys xs ys) e) [
  | inl b ↦ inl b
  | inr both ↦ inr (both.0, le_keys-KeysInOrder xs ys both.1)
]

finding_order-InOrder : (f g : ComplianceFinding) → finding_order f g ≡ true → InOrder f g
finding_order-InOrder f g e = le_keys-KeysInOrder (sort_key f) (sort_key g) e

All-InOrder :
    (f : ComplianceFinding) (gs : List ComplianceFinding)
    → All (λ g. finding_order f g ≡ true) gs
    → All (InOrder f) gs
All-InOrder f [] _ = tt
All-InOrder f (g ∷ gs) (a, as') = (finding_order-InOrder f g a, All-InOrder f gs as')

IsSorted-IsOrdered : (fs : List ComplianceFinding) → IsSorted finding_order fs → IsOrdered fs
IsSorted-IsOrdered [] _ = tt
IsSorted-IsOrdered (f ∷ fs) (a, s) = (All-InOrder f fs a, IsSorted-IsOrdered fs s)

-- Once every required document is there, each finding is in order with every later one: by the rule,
-- where that is the same by the document, then by the field, by the actual value and by the id of
-- the finding, each as Python compares texts.
pub evaluate-findings-IsOrdered :
    (h : Host) (facts : ComplianceCaseFacts)
    → All (IsMet facts.presented_documents) facts.lc.required_documents
    → IsOrdered (evaluate_compliance h facts).findings
unfolding complete_result
evaluate-findings-IsOrdered h facts met = rw (evaluate_complete h facts met) (
    IsSorted-IsOrdered _ (
      sorted-IsSorted finding_order (λ a b. le_keys_total (sort_key a) (sort_key b))
        (λ a b c. le_keys_trans (sort_key a) (sort_key b) (sort_key c)) (all_findings h facts)))
