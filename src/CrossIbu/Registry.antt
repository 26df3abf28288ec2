-- ===== src/CrossIbu/Registry.antt =====
-- apps/api/tradesentry_api/cross_ibu_registry.py: `InMemoryCrossIBURegistry`.
pub mod Duplicates
use trade_sentry.Prelude.{
  ℕ, Bool, ◌&&◌, ◌||◌, not, List, [], ◌∷◌, keep, if◌then◌else◌, ◌==◌, string_eq,
}
use trade_sentry.CrossIbu.Model.{
  RegistrySignal, RegistryRegistration, MatchHost, registration_from_signal,
}
use trade_sentry.CrossIbu.Matcher.{same_text}

abbrev pub ttl_days : ℕ
ttl_days = 90

-- The dictionary's values in insertion order; the key of an item is (ibu_id, dna_fingerprint).
abbrev pub Registry : Type 0
Registry = List RegistryRegistration

abbrev pub same_key : RegistryRegistration → RegistryRegistration → Bool
same_key a b = (a.ibu_id == b.ibu_id) && (a.dna_fingerprint == b.dna_fingerprint)

-- `self.items[key] = registration`
unfoldable pub put : RegistryRegistration → Registry → Registry
put r [] = r ∷ []
put r (x ∷ xs) = if same_key x r then r ∷ xs else x ∷ put r xs

unfoldable pub register :
    MatchHost → Registry → RegistrySignal → (registered_at : ℕ) → Registry × RegistryRegistration
unfolding put
register m items signal registered_at =
    let registration = registration_from_signal m signal registered_at ttl_days in
    (put registration items, registration)

abbrev pub is_candidate : RegistrySignal → RegistryRegistration → Bool
is_candidate q item =
    not (item.ibu_id == q.ibu_id)
    && ((item.dna_fingerprint == q.dna_fingerprint)
        || (same_text q.bl_number_normalized item.bl_number_normalized
            || (same_text q.vessel_normalized item.vessel_normalized
                || same_text q.exporter_normalized item.exporter_normalized)))

unfoldable pub find_candidates : Registry → RegistrySignal → List RegistryRegistration
find_candidates items q = keep (is_candidate q) items
