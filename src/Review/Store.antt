-- ===== src/Review/Store.antt =====
-- apps/api/tradesentry_api/repository.py and review_store.py: what the in-memory stores keep.
use trade_sentry.Prelude.{
  String, ◌≡◌, refl, ap, Bool, true, false, Option, none, some, List, [], ◌∷◌, ◌++◌, find, keep,
  arith, Bool-cases, inl, inr, string_eq, ◌==◌,
}
use trade_sentry.Review.{CaseRecord, get_case, update_case_status}

unfoldable pub with_status : String → Option CaseRecord → Option CaseRecord
with_status status none = none
with_status status (some c) = some (record c { status = status })

pub same_id : (a : String) → (a == a) ≡ true
same_id a = (string_eq.beq_iff a a).1 refl

-- The case that is updated has the new status.
pub get_case-update :
    (id status : String) (cs : List CaseRecord)
    → get_case id (update_case_status id status cs) ≡ with_status status (get_case id cs)
unfolding with_status
get_case-update id status [] = refl
get_case-update id status (c ∷ cs) = elim (Bool-cases (c.id == id)) [
  | inl e ↦ rw (e, e) refl
  | inr e ↦ rw (e, e) (get_case-update id status cs)
]

other_id : (a b c : String) → (a == b) ≡ false → (c == b) ≡ true → (c == a) ≡ false
other_id a b c e f =
    ground (arith, string_eq.beq_iff a b, string_eq.beq_iff c b, string_eq.beq_iff c a)

-- Every other case is as it was.
pub get_case-update_other :
    (id other status : String) (cs : List CaseRecord)
    → (id == other) ≡ false
    → get_case id (update_case_status other status cs) ≡ get_case id cs
get_case-update_other id other status [] n = refl
get_case-update_other id other status (c ∷ cs) n =
    let rest = get_case-update_other id other status cs n in
    elim (Bool-cases (c.id == other)) [
      | inl e ↦ rw (e, other_id id other c.id n e) refl
      | inr e ↦ rw (e, rest) refl
    ]

module _ {ℓ} {A : Type ℓ} (p : A → Bool) where
  pub keep-snoc_in :
      (xs : List A) (x : A) → p x ≡ true → keep p (xs ++ x ∷ []) ≡ keep p xs ++ x ∷ []
  keep-snoc_in [] x e = rw e refl
  keep-snoc_in (y ∷ ys) x e = elim (Bool-cases (p y)) [
    | inl f ↦ rw f (ap (λ t. y ∷ t) (keep-snoc_in ys x e))
    | inr f ↦ rw f (keep-snoc_in ys x e)
  ]

  pub keep-snoc_out : (xs : List A) (x : A) → p x ≡ false → keep p (xs ++ x ∷ []) ≡ keep p xs
  keep-snoc_out [] x e = rw e refl
  keep-snoc_out (y ∷ ys) x e = elim (Bool-cases (p y)) [
    | inl f ↦ rw f (ap (λ t. y ∷ t) (keep-snoc_out ys x e))
    | inr f ↦ rw f (keep-snoc_out ys x e)
  ]

  -- What is found is found again behind which more is saved.
  pub find-append : (xs ys : List A) (x : A) → find p xs ≡ some x → find p (xs ++ ys) ≡ some x
  find-append [] ys x e = absurd (ground (arith, e))
  find-append (z ∷ zs) ys x e = elim (Bool-cases (p z)) [
    | inl f ↦ rw f (rw f at e)
    | inr f ↦ rw f (find-append zs ys x (rw f at e))
  ]

  pub find-snoc :
      (xs : List A) (x : A) → find p xs ≡ none → p x ≡ true → find p (xs ++ x ∷ []) ≡ some x
  find-snoc [] x e f = rw f refl
  find-snoc (z ∷ zs) x e f = elim (Bool-cases (p z)) [
    | inl g ↦ absurd (ground (arith, e, g))
    | inr g ↦ rw g (find-snoc zs x (rw g at e) f)
  ]
