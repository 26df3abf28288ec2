-- ===== src/Dna/Conflicts/Exact.antt =====
-- dna/builder.py: when two documents are in conflict.
use trade_sentry.Prelude.{
  String, ◌≡◌, ◌↔◌, true, Option, none, some, List, [], ◌∷◌, All, arith, string_eq, option_beq,
}
use trade_sentry.Prelude.Decimal.{eq}
use trade_sentry.Dna.Normalization.{DnaHost}
use trade_sentry.Dna.Conflicts.{
  QuantityEntry, ReadQuantity, compare_values, string_conflict, read_quantities, same_quantity,
  against_first, quantity_conflicts,
}

pub option_beq_iff : (a b : Option String) → (option_beq a b ≡ true) ↔ (a ≡ b)
option_beq_iff none none = ground arith
option_beq_iff none (some b) = ground arith
option_beq_iff (some a) none = ground arith
option_beq_iff (some a) (some b) = ground (arith, string_eq.beq_iff a b)

module _ (h : DnaHost) where
  -- Two values that are given are in conflict exactly if their normal forms differ, whatever the
  -- similarity of the two, which sets the severity alone.
  pub string_conflict-none_iff :
      (field_name document_a_id a document_b_id b : String) (normalizer : String → Option String)
      → (string_conflict h field_name document_a_id (some a) document_b_id (some b) normalizer
          ≡ none)
        ↔ (normalizer a ≡ normalizer b)
  unfolding string_conflict compare_values
  string_conflict-none_iff field_name document_a_id a document_b_id b normalizer =
      ground (arith, option_beq_iff (normalizer a) (normalizer b))

  against_first-nil_iff :
      (a : ReadQuantity) (bs : List ReadQuantity)
      → (against_first h a bs ≡ []) ↔ All (λ b. same_quantity h a b ≡ true) bs
  unfolding against_first
  against_first-nil_iff a [] = ground arith
  against_first-nil_iff a (b ∷ bs) = ground (arith, against_first-nil_iff a bs)

  -- The two have the same value in the same canonical unit.
  abbrev IsSame : ReadQuantity → ReadQuantity → Type 0
  IsSame a b = (eq a.canonical b.canonical ≡ true) × (a.canonical_unit ≡ b.canonical_unit)

  same_quantity-IsSame :
      (a : ReadQuantity) (bs : List ReadQuantity)
      → All (λ b. same_quantity h a b ≡ true) bs ↔ All (IsSame a) bs
  same_quantity-IsSame a [] = ((λ x. x), (λ x. x))
  same_quantity-IsSame a (b ∷ bs) =
      ground (arith, same_quantity-IsSame a bs, string_eq.beq_iff a.canonical_unit b.canonical_unit)

  -- The quantities of the documents are in no conflict exactly if every one that could be read has
  -- the value of the first one and the same canonical unit.
  pub quantity_conflicts-nil_iff :
      (entries : List QuantityEntry) (a : ReadQuantity) (bs : List ReadQuantity)
      → read_quantities h entries ≡ a ∷ bs
      → (quantity_conflicts h entries ≡ [])
        ↔ All (λ b. (eq a.canonical b.canonical ≡ true) × (a.canonical_unit ≡ b.canonical_unit)) bs
  unfolding quantity_conflicts
  quantity_conflicts-nil_iff entries a bs e =
      let none_left = against_first-nil_iff a bs in
      let same = same_quantity-IsSame a bs in
      rw e (λ n. same.0 (none_left.0 n), λ s. none_left.1 (same.1 s))
