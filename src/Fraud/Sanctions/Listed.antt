-- ===== src/Fraud/Sanctions/Listed.antt =====
-- fraud_tbml/sanctions_screening.py: names that are on the list.
use mathlib.Core.Path.{subst}
use native.Mathlib.Nat.{le_trans, mul-le-mul_right, mul_comm}
use trade_sentry.Prelude.{
  ℕ, ◌*◌, ◌≤◌, ◌≡◌, refl, ◌∙◌, String, Bool, true, false, ◌&&◌, ◌||◌, some, List, [], ◌∷◌, any,
  any_mono, leb, arith, Bool-cases, inl, inr, string_eq, le→leb,
}
use trade_sentry.Fraud.{EntityScreenResult, SanctionsScreeningResult}
use trade_sentry.Fraud.Common.{FraudHost, normalize_name}
use trade_sentry.Fraud.Sanctions.{
  SanctionsRecord, SanctionsFixture, max_by, score, is_same_name, has_source, match_status,
  screened, screen_one, screen_among, screen_each, screen,
}
use trade_sentry.Investigation.World.{Outcome, returned, raised, ◌>>=◌}
use trade_sentry.Investigation.Assessment.{is_hit, sanctions_alert}

max_by-ge_first {ℓ} :
    {A : Type ℓ} (key : A → ℕ) (b : A) (xs : List A) → key b ≤ key (max_by key b xs)
unfolding max_by
max_by-ge_first key b [] = omega arith
max_by-ge_first key b (x ∷ xs) = ground (arith, max_by-ge_first key b xs, max_by-ge_first key x xs)

-- No item has a larger key than the one that is chosen.
pub max_by-ge {ℓ} :
    {A : Type ℓ} (key : A → ℕ) (n : ℕ) (b : A) (xs : List A)
    → any (λ x. leb n (key x)) (b ∷ xs) ≡ true
    → n ≤ key (max_by key b xs)
unfolding max_by
max_by-ge key n b [] e = ground (arith, e)
max_by-ge key n b (x ∷ xs) e = ground (
  arith,
  e,
  max_by-ge key n b xs,
  max_by-ge key n x xs,
  max_by-ge_first key b xs,
  max_by-ge_first key x xs,
)

-- the screening comes to a result that is a hit
abbrev pub is_flagged : Outcome EntityScreenResult → Bool
is_flagged (returned e) = is_hit e
is_flagged (raised x) = false

threshold_le :
    (num den full score : ℕ) → num ≤ den → full ≤ score → leb (num * full) (score * den) ≡ true
threshold_le num den full score a b = le→leb _ _ (
    le_trans (mul-le-mul_right full a)
      (subst (λ x. x ≤ score * den) (mul_comm full den) (mul-le-mul_right den b)))

module _ (h : FraudHost) where
  -- the name, in its normal form, is that of a record of the list
  abbrev pub is_listed : SanctionsFixture → (name : String) → Bool
  is_listed f name = any (is_same_name h (normalize_name h name)) f.records

  module _ (full_ratio : (a : String) → h.ratio a a ≡ h.full) where
    full_score :
        (n : String) (r : SanctionsRecord)
        → is_same_name h n r ≡ true
        → leb h.full (score h n r) ≡ true
    full_score n r e = le→leb _ _ (
        subst (λ m. h.full ≤ h.ratio n m) ((string_eq.beq_iff n (normalize_name h r.name)).0 e)
          (rw (full_ratio n) (omega arith)))

    high_status :
        (f : SanctionsFixture) (name n : String) (r : SanctionsRecord)
        → f.threshold_num ≤ f.threshold_den
        → h.full ≤ score h n r
        → is_hit (screened h f name n r) ≡ true
    unfolding match_status
    high_status f name n r t s =
        elim (Bool-cases (is_same_name h n r && has_source r.source_identifier)) [
          | inl e ↦ rw e refl
          | inr e ↦
              rw (e, threshold_le f.threshold_num f.threshold_den h.full (score h n r) t s) refl
        ]

    among_flagged :
        (f : SanctionsFixture) (name : String) (rs : List SanctionsRecord)
        → f.threshold_num ≤ f.threshold_den
        → any (is_same_name h (normalize_name h name)) rs ≡ true
        → is_flagged (screen_among h f name rs) ≡ true
    among_flagged f name [] t e = absurd (ground (arith, e))
    among_flagged f name (r ∷ rs) t e =
        let n = normalize_name h name in
        high_status f name n (max_by (score h n) r rs) t (
          max_by-ge (score h n) h.full r rs
            (any_mono (is_same_name h n) (λ x. leb h.full (score h n x)) (r ∷ rs) (full_score n) e))

    -- Where a text is fully like itself, a name that is on the list is flagged as a match.
    pub listed_name_flagged :
        (f : SanctionsFixture) (name : String)
        → f.threshold_num ≤ f.threshold_den
        → is_listed f name ≡ true
        → is_flagged (screen_one h f name) ≡ true
    unfolding screen_one
    listed_name_flagged f name t e = among_flagged f name f.records t e

    -- the parties' names are screened one after the other
    abbrev any_hit : Outcome (List EntityScreenResult) → Bool
    any_hit (returned es) = any is_hit es
    any_hit (raised x) = false

    abbrev IsReturned {ℓ} : {A : Type ℓ} → Outcome A → Type 0
    IsReturned (returned a) = Unit
    IsReturned (raised x) = ⊥

    -- a list with a record screens every name
    screen_one-IsReturned :
        (f : SanctionsFixture) (listed name : String)
        → is_listed f listed ≡ true
        → IsReturned (screen_one h f name)
    unfolding screen_one
    screen_one-IsReturned f listed name e = among f.records e
      where
        among :
            (rs : List SanctionsRecord)
            → any (is_same_name h (normalize_name h listed)) rs ≡ true
            → IsReturned (screen_among h f name rs)
        among [] e = absurd (ground (arith, e))
        among (r ∷ rs) e = tt

    abbrev both :
        Outcome EntityScreenResult
        → Outcome (List EntityScreenResult)
        → Outcome (List EntityScreenResult)
    both o os = do r ← o; rs ← os; returned (r ∷ rs)

    both-IsReturned :
        (o : Outcome EntityScreenResult) (os : Outcome (List EntityScreenResult))
        → IsReturned o
        → IsReturned os
        → IsReturned (both o os)
    both-IsReturned (returned e) (returned es) p q = tt
    both-IsReturned (returned e) (raised x) p q = q
    both-IsReturned (raised x) os p q = p

    both_hit :
        (o : Outcome EntityScreenResult) (os : Outcome (List EntityScreenResult))
        → IsReturned o
        → IsReturned os
        → any_hit (both o os) ≡ (is_flagged o || any_hit os)
    both_hit (returned e) (returned es) p q = refl
    both_hit (returned e) (raised x) p q = absurd q
    both_hit (raised x) os p q = absurd p

    screen_each-IsReturned :
        (f : SanctionsFixture) (listed : String) (names : List String)
        → is_listed f listed ≡ true
        → IsReturned (screen_each h f names)
    unfolding screen_each
    screen_each-IsReturned f listed [] e = tt
    screen_each-IsReturned f listed (n ∷ ns) e =
        both-IsReturned (screen_one h f n) (screen_each h f ns) (screen_one-IsReturned f listed n e)
          (screen_each-IsReturned f listed ns e)

    screen_each-hit :
        (f : SanctionsFixture) (listed : String) (names : List String)
        → f.threshold_num ≤ f.threshold_den
        → is_listed f listed ≡ true
        → any (is_listed f) names ≡ true
        → any_hit (screen_each h f names) ≡ true
    unfolding screen_each
    screen_each-hit f listed [] t l e = absurd (ground (arith, e))
    screen_each-hit f listed (n ∷ ns) t l e =
        both_hit (screen_one h f n) (screen_each h f ns) (screen_one-IsReturned f listed n l)
          (screen_each-IsReturned f listed ns l)
        ∙ elim (Bool-cases (is_listed f n)) [
          | inl k ↦ rw (listed_name_flagged f n t k) refl
          | inr k ↦
              let rest = screen_each-hit f listed ns t l (ground (arith, e, k)) in
              ground (arith, rest)
        ]

    any_witness :
        (p : String → Bool) (names : List String) → any p names ≡ true → (n : String) × (p n ≡ true)
    any_witness p [] e = absurd (ground (arith, e))
    any_witness p (n ∷ ns) e = elim (Bool-cases (p n)) [
      | inl k ↦ (n, k)
      | inr k ↦ any_witness p ns (ground (arith, e, k))
    ]

    abbrev screening_of : Outcome (List EntityScreenResult) → Outcome SanctionsScreeningResult
    screening_of o = do
      rs ← o
      returned (record { screened_entities = rs; human_determination_required = true })

    screening_of-hit :
        (o : Outcome (List EntityScreenResult))
        → any_hit o ≡ true
        → (x : SanctionsScreeningResult) × (screening_of o ≡ returned x)
          × (sanctions_alert (some x) ≡ true)
    screening_of-hit (returned es) e =
        (record { screened_entities = es; human_determination_required = true }, refl, e)
    screening_of-hit (raised x) e = absurd (ground (arith, e))

    -- A screening of several names, one of which is on the list, comes to a result with a hit.
    pub screen_listed :
        (f : SanctionsFixture) (names : List String)
        → f.threshold_num ≤ f.threshold_den
        → any (is_listed f) names ≡ true
        → (x : SanctionsScreeningResult) × (screen h f names ≡ returned x)
          × (sanctions_alert (some x) ≡ true)
    unfolding screen
    screen_listed f names t e =
        let listed = any_witness (is_listed f) names e in
        screening_of-hit (screen_each h f names) (screen_each-hit f listed.0 names t listed.1 e)
