-- ===== src/CrossIbu/Registry/Duplicates.antt =====
-- A shipment that one IBU has registered is reported to every other IBU.
use trade_sentry.Prelude.{
  ℕ, All, All-keep, any_mono, sym, String, ◌≡◌, refl, ◌≢◌, ◌∙◌, Bool, true, false, ◌&&◌, not, List,
  [], ◌∷◌, any, keep, arith, ◌==◌, string_eq,
}
use mathlib.Core.Path.{subst}
use trade_sentry.CrossIbu.Model.{
  MatchHost, RegistrySignal, RegistryRegistration, registration_from_signal,
}
use trade_sentry.CrossIbu.Matcher.{is_exact}
use trade_sentry.CrossIbu.Match.{find_best_match}
use trade_sentry.CrossIbu.Match.Best.{is_exact_level, find_best_match-exact}
use trade_sentry.CrossIbu.Registry.{
  Registry, put, register, ttl_days, find_candidates, is_candidate,
}

and-true : (a b : Bool) → (a && b) ≡ true → (a ≡ true) × (b ≡ true)
and-true a b e = ground arith

not-equal : (b : Bool) → ¬ (b ≡ true) → b ≡ false
not-equal true n = absurd (n refl)
not-equal false n = refl

not-and-true : (a b : Bool) → (not a && b) ≡ true → ¬ (a ≡ true)
not-and-true a b e h = ground arith

any-keep {ℓ} :
    {A : Type ℓ} (p c : A → Bool) (xs : List A) → any p (keep c xs) ≡ any (λ x. c x && p x) xs
any-keep p c [] = refl
any-keep p c (x ∷ xs) = ground (arith, any-keep p c xs)

any-put_self :
    (p : RegistryRegistration → Bool) (r : RegistryRegistration) (items : Registry)
    → p r ≡ true
    → any p (put r items) ≡ true
unfolding put
any-put_self p r [] e = ground arith
any-put_self p r (x ∷ xs) e = ground (arith, any-put_self p r xs)

-- the dictionary has an entry of this IBU with this fingerprint
abbrev holds : String → String → RegistryRegistration → Bool
holds ibu fingerprint r = (r.ibu_id == ibu) && (r.dna_fingerprint == fingerprint)

any-put_keeps :
    (ibu fp : String) (r : RegistryRegistration) (items : Registry)
    → any (holds ibu fp) items ≡ true
    → any (holds ibu fp) (put r items) ≡ true
unfolding put
any-put_keeps ibu fp r [] e = cc
any-put_keeps ibu fp r (x ∷ xs) e = ground (
  arith,
  any-put_keeps ibu fp r xs,
  string_eq.beq_iff x.ibu_id r.ibu_id,
  string_eq.beq_iff x.dna_fingerprint r.dna_fingerprint,
)

-- the state of the dictionary after some registrations, each a signal and its time
unfoldable pub register_all : MatchHost → Registry → List (RegistrySignal × ℕ) → Registry
register_all m items [] = items
register_all m items ((s, t) ∷ rest) = register_all m (register m items s t).0 rest

register_all-keeps :
    (m : MatchHost) (ibu fp : String) (items : Registry) (later : List (RegistrySignal × ℕ))
    → any (holds ibu fp) items ≡ true
    → any (holds ibu fp) (register_all m items later) ≡ true
unfolding register_all register
register_all-keeps m ibu fp items [] e = e
register_all-keeps m ibu fp items ((s, t) ∷ rest) e =
    register_all-keeps m ibu fp (register m items s t).0 rest
      (any-put_keeps ibu fp (registration_from_signal m s t ttl_days) items e)

holds-is_candidate :
    (q : RegistrySignal) (ibu : String)
    → ibu ≢ q.ibu_id
    → (x : RegistryRegistration) → holds ibu q.dna_fingerprint x ≡ true
    → (is_candidate q x && is_exact q x.signal) ≡ true
unfolding is_exact
holds-is_candidate q ibu ne x e =
    let (here, same) = and-true _ _ e in
    let apart : (x.ibu_id == q.ibu_id) ≡ false = not-equal (x.ibu_id == q.ibu_id) (λ p. ne (
      sym ((string_eq.beq_iff x.ibu_id ibu).0 here) ∙ (string_eq.beq_iff x.ibu_id q.ibu_id).0 p)) in
    let back : (q.dna_fingerprint == x.dna_fingerprint) ≡ true =
      (string_eq.beq_iff q.dna_fingerprint x.dna_fingerprint).1
        (sym ((string_eq.beq_iff x.dna_fingerprint q.dna_fingerprint).0 same)) in
    rw (apart, same, back)

holds-found :
    (q : RegistrySignal) (ibu : String) (items : Registry)
    → ibu ≢ q.ibu_id
    → any (holds ibu q.dna_fingerprint) items ≡ true
    → any (λ x. is_candidate q x && is_exact q x.signal) items ≡ true
holds-found q ibu items ne e =
    any_mono (holds ibu q.dna_fingerprint) (λ x. is_candidate q x && is_exact q x.signal) items
      (holds-is_candidate q ibu ne) e

put-holds :
    (m : MatchHost) (s : RegistrySignal) (t : ℕ) (items : Registry)
    → any (holds s.ibu_id s.dna_fingerprint) (register m items s t).0 ≡ true
unfolding register registration_from_signal
put-holds m s t items =
    any-put_self (holds s.ibu_id s.dna_fingerprint) (registration_from_signal m s t ttl_days) items
      (ground (
        arith,
        string_eq.beq_iff s.ibu_id s.ibu_id,
        string_eq.beq_iff s.dna_fingerprint s.dna_fingerprint,
      ))

-- Once an IBU has registered a fingerprint, and whatever is registered after that, a query by
-- another IBU with that fingerprint is answered EXACT.
pub duplicate_reported :
    (m : MatchHost) (items : Registry) (s : RegistrySignal) (t : ℕ)
    (later : List (RegistrySignal × ℕ)) (q : RegistrySignal) (now : ℕ)
    → s.ibu_id ≢ q.ibu_id
    → q.dna_fingerprint ≡ s.dna_fingerprint
    → is_exact_level (
        find_best_match m q (find_candidates (register_all m (register m items s t).0 later) q) now)
      ≡ true
unfolding find_candidates
duplicate_reported m items s t later q now ne same =
    let stored = register_all m (register m items s t).0 later in
    let kept =
      register_all-keeps m s.ibu_id s.dna_fingerprint (register m items s t).0 later
        (put-holds m s t items) in
    find_best_match-exact m q now (keep (is_candidate q) stored)
    ∙ (any-keep (λ d. is_exact q d.signal) (is_candidate q) stored
        ∙ holds-found q s.ibu_id stored ne
            (subst (λ f. any (holds s.ibu_id f) stored ≡ true) (sym same) kept))

candidate-not-own :
    (q : RegistrySignal) (x : RegistryRegistration)
    → is_candidate q x ≡ true
    → ¬ ((x.ibu_id == q.ibu_id) ≡ true)
candidate-not-own q x c = not-and-true (x.ibu_id == q.ibu_id) _ c

-- A query is never answered with a registration of its own IBU.
pub candidates_are_foreign :
    (items : Registry) (q : RegistrySignal)
    → All (λ x. x.ibu_id ≢ q.ibu_id) (find_candidates items q)
unfolding find_candidates
candidates_are_foreign items q =
    All-keep (λ x. x.ibu_id ≢ q.ibu_id) (is_candidate q) items
      (λ x c same. candidate-not-own q x c ((string_eq.beq_iff x.ibu_id q.ibu_id).1 same))
