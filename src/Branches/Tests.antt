-- ===== src/Branches/Tests.antt =====
-- Delivery settings at concrete inputs.
use mathlib.Core.List.{Memᴰ}
use deliveryways.Prelude.{◌≡◌, refl, none, some, List, [], ◌∷◌, ℕ, ok, err}
use deliveryways.Prelude.Int.{pos}
use deliveryways.Orders.Delivery.{
  Terms, ZoneBand, PostalCodeRule, DeliveryConfig, zone_bands, insert_band, sort_bands, find_band,
}
use deliveryways.Branches.DeliveryConfiguration.{
  assert_valid_rules, assert_valid_bands, assert_valid_delivery_configuration, duplicate_rules,
  overlapping_bands,
}
use deliveryways.Branches.Bands.{find_band-configured}

abbrev costs : ℕ → Terms
costs fee = record {
  delivery_fee = fee;
  min_order_amount = none;
  free_delivery_threshold = some 5000;
}

abbrev near : ZoneBand
near = record { from_distance = pos 0; to_distance = pos 2000; terms = costs 150 }

abbrev far : ZoneBand
far = record { from_distance = pos 2000; to_distance = pos 5000; terms = costs 300 }

abbrev wide : ZoneBand
wide = record { from_distance = pos 1500; to_distance = pos 3000; terms = costs 200 }

abbrev by_bands : List ZoneBand → DeliveryConfig
by_bands bands = record {
  mode = zone_bands;
  radius = 0;
  delivery_fee = 100;
  min_order_amount = 1000;
  zones = [];
  bands = bands;
  rules = [];
}

-- "N1" and " n1"
abbrev north : PostalCodeRule
north = record { postal_code = 78 ∷ 49 ∷ []; terms = costs 100 }

abbrev other_north : PostalCodeRule
other_north = record { postal_code = 32 ∷ 110 ∷ 49 ∷ []; terms = costs 200 }

overlap_test :
    assert_valid_delivery_configuration (by_bands (far ∷ wide ∷ near ∷ [])) ≡ err overlapping_bands
unfolding assert_valid_delivery_configuration assert_valid_bands sort_bands insert_band
overlap_test = refl

duplicate_test : assert_valid_rules [] (north ∷ other_north ∷ []) ≡ err duplicate_rules
unfolding assert_valid_rules
duplicate_test = refl

two_bands_test : assert_valid_delivery_configuration (by_bands (far ∷ near ∷ [])) ≡ ok tt
unfolding assert_valid_delivery_configuration assert_valid_bands sort_bands insert_band
two_bands_test = refl

find_band-configured_example : find_band 2000 (sort_bands (far ∷ near ∷ [])) ≡ some far
find_band-configured_example =
    find_band-configured (by_bands (far ∷ near ∷ [])) far 2000 refl two_bands_test (Memᴰ.head refl)
      refl
