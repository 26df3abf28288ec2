-- ===== src/Prelude/Sort.antt =====
-- `sorted(xs, key=...)` as a stable insertion sort by the order of the keys.
use mathlib.Core.Path.{◌≡◌, refl}
use mathlib.Core.Bool.{Bool, true, ◌||◌}
use mathlib.Core.List.{List, [], ◌∷◌, Perm}
use mathlib.Core.List.Perm
use mathlib.Core.Logic.{◌≢◌, ◌↔◌, ◌⊎◌, inl, inr}
use native.Mathlib.Omega.{arith}
use trade_sentry.Prelude.Tests.{if◌then◌else◌, Bool-cases}
use trade_sentry.Prelude.Lists.{All, any}

module _ {ℓ} {A : Type ℓ} (le : A → A → Bool) where
  pub insert : A → List A → List A
  insert x [] = x ∷ []
  insert x (y ∷ ys) = if le x y then x ∷ y ∷ ys else y ∷ insert x ys

  unfoldable pub sorted : List A → List A
  unfolding insert
  sorted [] = []
  sorted (x ∷ xs) = insert x (sorted xs)

  insert-perm : (x : A) (ys : List A) → Perm (insert x ys) (x ∷ ys)
  unfolding insert
  insert-perm x [] = Perm.refl (x ∷ [])
  insert-perm x (y ∷ ys) = elim (Bool-cases (le x y)) [
    | inl e ↦ rw e (Perm.refl (x ∷ y ∷ ys))
    | inr e ↦ rw e (Perm.trans (Perm.cons y (insert-perm x ys)) (Perm.swap x y ys))
  ]

  -- A sorted list holds the same items.
  pub sorted-perm : (xs : List A) → Perm (sorted xs) xs
  unfolding sorted
  sorted-perm [] = Perm.refl []
  sorted-perm (x ∷ xs) = Perm.trans (insert-perm x (sorted xs)) (Perm.cons x (sorted-perm xs))

  any-insert : (p : A → Bool) (x : A) (ys : List A) → any p (insert x ys) ≡ (p x || any p ys)
  unfolding insert
  any-insert p x [] = refl
  any-insert p x (y ∷ ys) = ground (arith, any-insert p x ys)

  pub any-sorted : (p : A → Bool) (xs : List A) → any p (sorted xs) ≡ any p xs
  unfolding sorted
  any-sorted p [] = refl
  any-sorted p (x ∷ xs) = ground (arith, any-insert p x (sorted xs), any-sorted p xs)

  All-insert {κ} : (P : A → Type κ) (x : A) (ys : List A) → P x → All P ys → All P (insert x ys)
  unfolding insert
  All-insert P x [] px _ = (px, tt)
  All-insert P x (y ∷ ys) px (py, pys) = elim (Bool-cases (le x y)) [
    | inl e ↦ rw e (px, (py, pys))
    | inr e ↦ rw e (py, All-insert P x ys px pys)
  ]

  pub All-sorted {κ} : (P : A → Type κ) (xs : List A) → All P xs → All P (sorted xs)
  unfolding sorted
  All-sorted P [] _ = tt
  All-sorted P (x ∷ xs) (px, pxs) = All-insert P x (sorted xs) px (All-sorted P xs pxs)

  All-of_insert {κ} : (P : A → Type κ) (x : A) (ys : List A) → All P (insert x ys) → P x × All P ys
  unfolding insert
  All-of_insert P x [] a = a
  All-of_insert P x (y ∷ ys) a = elim (Bool-cases (le x y)) [
    | inl e ↦ rw e at a
    | inr e ↦
        let (py, rest) = rw e at a in let (px, pys) = All-of_insert P x ys rest in (px, (py, pys))
  ]

  pub All-of_sorted {κ} : (P : A → Type κ) (xs : List A) → All P (sorted xs) → All P xs
  unfolding sorted
  All-of_sorted P [] _ = tt
  All-of_sorted P (x ∷ xs) a =
      let r = All-of_insert P x (sorted xs) a in (r.0, All-of_sorted P xs r.1)

  insert-ne-nil : (x : A) (ys : List A) → insert x ys ≢ []
  unfolding insert
  insert-ne-nil x [] = ground arith
  insert-ne-nil x (y ∷ ys) = ground arith

  pub sorted-nil_iff : (xs : List A) → (sorted xs ≡ []) ↔ (xs ≡ [])
  unfolding sorted
  sorted-nil_iff [] = ground arith
  sorted-nil_iff (x ∷ xs) = ground (arith, insert-ne-nil x (sorted xs))

  -- Each item is at most every later one.
  abbrev pub IsSorted : List A → Type ℓ
  IsSorted [] = Unit
  IsSorted (x ∷ xs) = All (λ y. le x y ≡ true) xs × IsSorted xs

  module _ (total : (x y : A) → (le x y ≡ true) ⊎ (le y x ≡ true))
      (trans : (x y z : A) → le x y ≡ true → le y z ≡ true → le x z ≡ true) where
    below-All :
        (x y : A) (ys : List A)
        → le x y ≡ true
        → All (λ z. le y z ≡ true) ys
        → All (λ z. le x z ≡ true) ys
    below-All x y [] h _ = tt
    below-All x y (z ∷ zs) h (a, as') = (trans x y z h a, below-All x y zs h as')

    insert-IsSorted : (x : A) (ys : List A) → IsSorted ys → IsSorted (insert x ys)
    unfolding insert
    insert-IsSorted x [] _ = (tt, tt)
    insert-IsSorted x (y ∷ ys) (b, s) = elim (Bool-cases (le x y)) [
      | inl e ↦ rw e ((e, below-All x y ys e b), (b, s))
      | inr e ↦ rw e (
        All-insert (λ z. le y z ≡ true) x ys
            (elim (total x y) [ inl h ↦ absurd (ground (arith, h, e)) | inr h ↦ h ]) b,
        insert-IsSorted x ys s,
      )
    ]

    pub sorted-IsSorted : (xs : List A) → IsSorted (sorted xs)
    unfolding sorted
    sorted-IsSorted [] = tt
    sorted-IsSorted (x ∷ xs) = insert-IsSorted x (sorted xs) (sorted-IsSorted xs)
