-- ===== src/Api/Access/Limits.antt =====
-- How many requests the limiter allows in a window.
use trade_sentry.Prelude.{
  ℕ, suc, ◌-◌, ◌/◌, ◌≤◌, String, ◌≡◌, refl, true, false, ◌&&◌, List, [], ◌∷◌, Bool-cases, inl, inr,
  string_eq, ◌==◌, arith, if◌then◌else◌, All, leb, nat_beq,
}
use trade_sentry.Api.Access.{Windows, window_of, set_window, count_in, allow}

-- the calls for the key that are allowed, of calls for any keys at any times
unfoldable pub allowed_calls :
    (key : String) → (limit window_seconds : ℕ) → List (String × ℕ) → Windows → ℕ
allowed_calls key limit window_seconds [] ws = 0
allowed_calls key limit window_seconds ((k, now) ∷ calls) ws =
    let (allowed, vs) = allow k limit window_seconds now ws in
    let rest = allowed_calls key limit window_seconds calls vs in
    if (k == key) && allowed then suc rest else rest

window_of-set_window :
    (key k : String) (w : ℕ × ℕ) (ws : Windows)
    → window_of key (set_window k w ws) ≡ (if k == key then w else window_of key ws)
window_of-set_window key k w [] = refl
window_of-set_window key k w ((j, v) ∷ ws) = ground (
  arith,
  string_eq.beq_iff j k,
  string_eq.beq_iff k key,
  string_eq.beq_iff j key,
  window_of-set_window key k w ws,
)

nat_beq_self : (n : ℕ) → nat_beq n n ≡ true
nat_beq_self n = ground arith

self : (k : String) → (k == k) ≡ true
self k = (string_eq.beq_iff k k).1 refl

-- One more call takes one of those that are left, or none is left.
step-le : (x c limit : ℕ) → x ≤ limit - suc c → (if leb (suc c) limit then suc x else x) ≤ limit - c
step-le x c limit h = ground arith

module _ (key : String) (limit window_seconds window : ℕ) where
  abbrev counted : Windows → ℕ
  counted ws = count_in window (window_of key ws)

  abbrev IsNow : String × ℕ → Type 0
  IsNow call = call.1 / window_seconds ≡ window

  counted-set_window : (m : ℕ) (ws : Windows) → counted (set_window key (window, m) ws) ≡ m
  counted-set_window m ws =
      rw (window_of-set_window key key (window, m) ws, self key, nat_beq_self window) refl

  counted-set_other :
      (k : String) (w : ℕ × ℕ) (ws : Windows)
      → (k == key) ≡ false
      → counted (set_window k w ws) ≡ counted ws
  counted-set_other k w ws e = rw (window_of-set_window key k w ws, e) refl

  -- By induction, what is still allowed and what is counted keep to the limit.
  allowed_calls-le_rest :
      (calls : List (String × ℕ)) (ws : Windows)
      → All IsNow calls
      → allowed_calls key limit window_seconds calls ws ≤ limit - counted ws
  unfolding allowed_calls allow
  allowed_calls-le_rest [] ws a = omega arith
  allowed_calls-le_rest ((k, now) ∷ calls) ws (n, a) = elim (Bool-cases (k == key)) [
    | inl e ↦
        let vs = set_window key (window, suc (counted ws)) ws in
        let x = allowed_calls key limit window_seconds calls vs in
        let ih = allowed_calls-le_rest calls vs a in
        let left : x ≤ limit - suc (counted ws) =
          omega (arith, ih, counted-set_window (suc (counted ws)) ws) in
        rw (n, (string_eq.beq_iff k key).0 e, self key) (step-le x (counted ws) limit left)
    | inr e ↦
        let w : ℕ × ℕ =
          (now / window_seconds, suc (count_in (now / window_seconds) (window_of k ws))) in
        rw e (
          omega
            (arith, allowed_calls-le_rest calls (set_window k w ws) a, counted-set_other k w ws e))
  ]

  -- Of the calls that are made in one window, for any keys and in any order, at most `limit` are
  -- allowed for a key.
  pub allowed_calls-le :
      (calls : List (String × ℕ)) (ws : Windows)
      → All IsNow calls
      → allowed_calls key limit window_seconds calls ws ≤ limit
  allowed_calls-le calls ws a = omega (arith, allowed_calls-le_rest calls ws a)
