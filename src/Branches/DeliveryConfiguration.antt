-- ===== src/Branches/DeliveryConfiguration.antt =====
-- branches.service.ts, assertValidDeliveryConfiguration: what a branch may set for its deliveries.
-- The settings are typed here, so the tests for a missing or ill-typed field have passed.
use deliveryways.Prelude.{
  ℕ, Bool, false, ◌||◌, Option, none, some, List, [], ◌∷◌, Outcome, ok, throw_if, or_throw, ◌>>=◌,
  ◌>>◌, is_nil,
}
use deliveryways.Prelude.Int.{pos, leb_ℤ, ltb_ℤ}
use deliveryways.Orders.Delivery.{
  ZoneBand, PostalCodeRule, DeliveryConfig, DeliveryMode, radius, zone, zone_bands,
  postal_code_rules, normalize_postal_code, is_code, sort_bands,
}

pub data ConfigurationError : Type 0 where
  rules_required invalid_rule duplicate_rules : ConfigurationError
  bands_required invalid_bounds overlapping_bands : ConfigurationError

-- `seenPostalCodes.has(postalCode)`
abbrev is_seen : List ℕ → List (List ℕ) → Bool
is_seen code [] = false
is_seen code (seen ∷ rest) = is_code code (some seen) || is_seen code rest

unfoldable pub assert_valid_rules :
    List (List ℕ) → List PostalCodeRule → Outcome ConfigurationError (Unit {0})
assert_valid_rules seen [] = ok tt
assert_valid_rules seen (r ∷ rs) =
    or_throw (normalize_postal_code (some r.postal_code)) invalid_rule >>= λ code.
    throw_if (is_seen code seen) duplicate_rules >> assert_valid_rules (code ∷ seen) rs

-- `band.fromKm < 0 || band.toKm <= band.fromKm`
abbrev pub is_out_of_bounds : ZoneBand → Bool
is_out_of_bounds b = ltb_ℤ b.from_distance (pos 0) || leb_ℤ b.to_distance b.from_distance

abbrev pub overlaps : Option ZoneBand → ZoneBand → Bool
overlaps none b = false
overlaps (some previous) b = ltb_ℤ b.from_distance previous.to_distance

-- The loop over the sorted bands, each with the one before it.
unfoldable pub assert_valid_bands :
    Option ZoneBand → List ZoneBand → Outcome ConfigurationError (Unit {0})
assert_valid_bands previous [] = ok tt
assert_valid_bands previous (b ∷ bs) =
    throw_if (is_out_of_bounds b) invalid_bounds
    >> throw_if (overlaps previous b) overlapping_bands
    >> assert_valid_bands (some b) bs

abbrev pub configuration_by_mode :
    DeliveryMode → DeliveryConfig → Outcome ConfigurationError (Unit {0})
configuration_by_mode postal_code_rules config =
    throw_if (is_nil config.rules) rules_required >> assert_valid_rules [] config.rules
configuration_by_mode zone_bands config =
    throw_if (is_nil config.bands) bands_required
    >> assert_valid_bands none (sort_bands config.bands)
configuration_by_mode radius config = ok tt
configuration_by_mode zone config = ok tt

unfoldable pub assert_valid_delivery_configuration :
    DeliveryConfig → Outcome ConfigurationError (Unit {0})
assert_valid_delivery_configuration config = configuration_by_mode config.mode config
