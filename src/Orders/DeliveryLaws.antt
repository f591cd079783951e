-- ===== src/Orders/DeliveryLaws.antt =====
-- orders.service.ts: where a delivery is priced, and where an address is covered.
use deliveryways.Prelude.{ℕ, ◌≡◌, refl, false, Option, Outcome, ok, err, ◌>>=◌, ◌>>◌}
use deliveryways.Orders.Delivery.{
  Terms, DeliveryAddress, DeliveryConfig, DeliveryMode, DeliveryError, Geometry, radius, zone,
  zone_bands, postal_code_rules, fee_by_terms, fee_by_mode, coverage_by_mode,
  assert_address_in_delivery_radius, assert_address_in_delivery_zone,
  assert_address_in_delivery_zone_band, assert_address_postal_code_serviceable,
  resolve_delivery_fee_for_address, assert_delivery_address_in_coverage, resolve_zone_delivery_fee,
  resolve_zone_band_delivery_fee, resolve_postal_code_delivery_fee, resolve_radius_delivery_fee,
}

abbrev pub covered {ℓ} : {M : Type ℓ} → M → Outcome DeliveryError (Unit {0})
covered m = ok tt

-- A match that is priced, and one that is only looked for.
matched-covers :
    {M : Type 0} (match : Outcome DeliveryError M) (terms : M → Terms) (subtotal minimum : ℕ)
    → (match >>= λ m. fee_by_terms (terms m) subtotal minimum false) >>= covered
      ≡ (match >>= covered)
matched-covers (ok m) terms subtotal minimum = refl
matched-covers (err e) terms subtotal minimum = refl

checked-covers :
    (check : Outcome DeliveryError (Unit {0})) (fee : ℕ) → (check >> ok fee) >>= covered ≡ check
checked-covers (ok u) fee = refl
checked-covers (err e) fee = refl

module _ (geometry : Geometry) where
  mode-covers :
      (mode : DeliveryMode) (address : DeliveryAddress) (branch : Option DeliveryAddress)
      (config : DeliveryConfig) (subtotal : ℕ)
      → (fee_by_mode geometry mode address branch config subtotal false >>= covered)
        ≡ coverage_by_mode geometry mode address branch config
  unfolding resolve_zone_delivery_fee resolve_zone_band_delivery_fee
      resolve_postal_code_delivery_fee resolve_radius_delivery_fee
  mode-covers zone address branch config subtotal =
      matched-covers (assert_address_in_delivery_zone geometry address config.zones) (λ z. z.terms)
        subtotal config.min_order_amount
  mode-covers zone_bands address branch config subtotal =
      matched-covers (assert_address_in_delivery_zone_band geometry address branch config.bands)
        (λ b. b.terms) subtotal config.min_order_amount
  mode-covers postal_code_rules address branch config subtotal =
      matched-covers (assert_address_postal_code_serviceable geometry address config.rules)
        (λ r. r.terms) subtotal config.min_order_amount
  mode-covers radius address branch config subtotal =
      checked-covers (assert_address_in_delivery_radius geometry address branch config.radius)
        config.delivery_fee

  -- Where no minimum is enforced, the delivery to an address is priced exactly when the coverage
  -- check returns for it, and otherwise throws the error of that check, in each of the four modes.
  pub resolve_delivery_fee-covers :
      (address : DeliveryAddress) (branch : Option DeliveryAddress) (config : DeliveryConfig)
      (subtotal : ℕ)
      → (resolve_delivery_fee_for_address geometry address branch config subtotal false >>= λ _.
          ok tt)
        ≡ assert_delivery_address_in_coverage geometry address branch config
  unfolding resolve_delivery_fee_for_address assert_delivery_address_in_coverage
  resolve_delivery_fee-covers address branch config subtotal =
      mode-covers config.mode address branch config subtotal
