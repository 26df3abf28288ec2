-- ===== src/Fraud/Runner/Retries.antt =====
-- apps/api/tradesentry_api/fraud_tbml_runner.py: `_execute`.
use mathlib.Core.Path.{subst}
use native.Mathlib.Nat.{add-zero, zero-add}
use trade_sentry.Prelude.{
  ℕ, zero, suc, String, ◌+◌, ◌≤◌, ◌<◌, ◌≡◌, refl, sym, ◌∙◌, true, false, ◌⊎◌, Option, none, some,
  arith, Bool-cases, inl, inr,
}
use trade_sentry.Fraud.Common.{FraudHost}
use trade_sentry.Fraud.Runner.{attempts, execute, settled}
use trade_sentry.Investigation.World.{Outcome, returned, raised}

-- the outcome is an exception
abbrev pub IsRaised {ℓ} : {A : Type ℓ} → Outcome A → Type 0
IsRaised (returned a) = ⊥
IsRaised (raised e) = Unit

outcome_cases {ℓ} :
    {A : Type ℓ} (o : Outcome A) → ((a : A) × (o ≡ returned a)) ⊎ ((e : String) × (o ≡ raised e))
outcome_cases (returned a) = inl (a, refl)
outcome_cases (raised e) = inr (e, refl)

shift : (a j : ℕ) → a + suc j ≡ suc a + j
shift a j = omega arith

module _ (h : FraudHost) where
  -- ... of a class after which the call is tried again
  abbrev pub IsTransient {ℓ} : {A : Type ℓ} → Outcome A → Type 0
  IsTransient (returned a) = ⊥
  IsTransient (raised e) = h.is_transient e ≡ true

  module _ {ℓ} {A : Type ℓ} (operation : ℕ → Outcome A) where
    attempts-returned :
        (left attempt : ℕ) (last : Option String) (a : A)
        → operation attempt ≡ returned a
        → attempts h operation (suc left) attempt last ≡ returned a
    unfolding attempts
    attempts-returned left attempt last a e = rw (attempts, e) refl

    attempts-again :
        (left attempt : ℕ) (last : Option String) (e : String)
        → operation attempt ≡ raised e
        → h.is_transient e ≡ true
        → attempts h operation (suc left) attempt last
          ≡ attempts h operation left (suc attempt) (some e)
    unfolding attempts
    attempts-again left attempt last e p q = rw (attempts, p, q) refl

    attempts-stopped :
        (left attempt : ℕ) (last : Option String) (e : String)
        → operation attempt ≡ raised e
        → h.is_transient e ≡ false
        → attempts h operation (suc left) attempt last ≡ raised e
    unfolding attempts
    attempts-stopped left attempt last e p q = rw (attempts, p, q) refl

    first :
        (attempt k : ℕ)
        → ((j : ℕ) → j < suc k → IsTransient (operation (attempt + j)))
        → IsTransient (operation attempt)
    first attempt k t =
        subst (λ n. IsTransient (operation n)) (add-zero attempt) (t zero (omega arith))

    attempts-success :
        (k left attempt : ℕ) (last : Option String) (a : A)
        → k ≤ left
        → ((j : ℕ) → j < k → IsTransient (operation (attempt + j)))
        → operation (attempt + k) ≡ returned a
        → attempts h operation (suc left) attempt last ≡ returned a
    attempts-success zero left attempt last a le t e =
        attempts-returned left attempt last a
          (subst (λ n. operation n ≡ returned a) (add-zero attempt) e)
    attempts-success (suc k) zero attempt last a le t e = absurd (ground (arith, le))
    attempts-success (suc k) (suc left) attempt last a le t e =
        elim (outcome_cases (operation attempt)) [
          | inl (b, q) ↦ absurd (subst IsTransient q (first attempt k t))
          | inr (x, q) ↦
              attempts-again (suc left) attempt last x q (subst IsTransient q (first attempt k t))
              ∙ attempts-success k left (suc attempt) (some x) a (omega (arith, le))
                  (λ j lt.
                    subst (λ n. IsTransient (operation n)) (shift attempt j)
                      (t (suc j) (omega (arith, lt))))
                  (subst (λ n. operation n ≡ returned a) (shift attempt k) e)
        ]

    -- A call that fails in a way that passes, at most `retry_count` times, and then answers: the
    -- answer is what `_execute` comes to.
    pub execute_success :
        (retry_count k : ℕ) (a : A)
        → k ≤ retry_count
        → ((j : ℕ) → j < k → IsTransient (operation j))
        → operation k ≡ returned a
        → execute h retry_count operation ≡ returned a
    unfolding execute
    execute_success retry_count k a le t e =
        attempts-success k retry_count 0 none a le
          (λ j lt. subst (λ n. IsTransient (operation n)) (sym (zero-add j)) (t j lt))
          (subst (λ n. operation n ≡ returned a) (sym (zero-add k)) e)

    attempts-IsRaised :
        (left attempt : ℕ) (last : Option String)
        → ((i : ℕ) → IsRaised (operation i))
        → IsRaised (attempts h operation left attempt last)
    unfolding attempts
    attempts-IsRaised zero attempt none r = tt
    attempts-IsRaised zero attempt (some e) r = tt
    attempts-IsRaised (suc left) attempt last r = elim (outcome_cases (operation attempt)) [
      | inl (b, q) ↦ absurd (subst IsRaised q (r attempt))
      | inr (x, q) ↦ elim (Bool-cases (h.is_transient x)) [
        | inl k ↦
            subst IsRaised (sym (attempts-again left attempt last x q k))
              (attempts-IsRaised left (suc attempt) (some x) r)
        | inr k ↦ subst IsRaised (sym (attempts-stopped left attempt last x q k)) tt
      ]
    ]

    pub execute-IsRaised :
        (retry_count : ℕ)
        → ((i : ℕ) → IsRaised (operation i))
        → IsRaised (execute h retry_count operation)
    unfolding execute
    execute-IsRaised retry_count r = attempts-IsRaised (suc retry_count) 0 none r

-- A failure is settled by what is put in its place.
pub settled_raised {ℓ κ} :
    {A : Type ℓ} (P : A → Type κ) (fallback : String → A) (o : Outcome A)
    → IsRaised o
    → ((e : String) → P (fallback e))
    → P (settled fallback o)
settled_raised P fallback (returned a) r k = absurd r
settled_raised P fallback (raised e) r k = k e

pub settled_returned {ℓ} :
    {A : Type ℓ} (fallback : String → A) (o : Outcome A) (a : A)
    → o ≡ returned a
    → settled fallback o ≡ a
settled_returned fallback o a e = rw e refl
