-- ===== src/Orders/Delivery.antt =====
-- orders.service.ts: what the delivery to an address costs, and whether it is delivered to at all.
-- Distances are in metres and money in cents. How far two points are apart, and whether a polygon has
-- a point, is computed on floating-point numbers, and is a parameter.
use deliveryways.Prelude.{
  ℕ, Bool, true, false, ◌&&◌, Option, none, some, List, [], ◌∷◌, map, ltb, leb, if◌then◌else◌,
  or_default, upper, trim, text_eq, is_empty, is_nil, find, Outcome, ok, throw_if, or_throw, ◌>>=◌,
  ◌>>◌,
}
use deliveryways.Prelude.Int.{ℤ, pos, leb_ℤ, ltb_ℤ}

pub record Point : Type 0 where
  pub lat : ℤ
  pub lng : ℤ

pub record Geometry : Type 0 where
  pub distance : Point → Point → ℕ  -- `calculateDistanceKm`
  pub is_inside : Point → List Point → Bool  -- `isPointInPolygon`

pub record DeliveryAddress : Type 0 where
  pub lat : Option ℤ
  pub lng : Option ℤ
  pub postal_code : Option (List ℕ)

-- What a zone, a band and a postal code rule have in common.
pub record Terms : Type 0 where
  pub delivery_fee : ℕ
  pub min_order_amount : Option ℕ
  pub free_delivery_threshold : Option ℕ

pub record Zone : Type 0 where
  pub polygon : List Point
  pub terms : Terms

pub record ZoneBand : Type 0 where
  pub from_distance : ℤ
  pub to_distance : ℤ
  pub terms : Terms

pub record PostalCodeRule : Type 0 where
  pub postal_code : List ℕ
  pub terms : Terms

pub data DeliveryMode : Type 0 where
  radius zone zone_bands postal_code_rules : DeliveryMode

pub record DeliveryConfig : Type 0 where
  pub mode : DeliveryMode
  pub radius : ℕ
  pub delivery_fee : ℕ
  pub min_order_amount : ℕ
  pub zones : List Zone
  pub bands : List ZoneBand
  pub rules : List PostalCodeRule

pub data DeliveryError : Type 0 where
  address_without_location branch_without_location outside_radius : DeliveryError
  no_zones outside_zones no_bands outside_bands : DeliveryError
  address_without_postal_code not_serviceable below_minimum_amount : DeliveryError

abbrev both : Option ℤ → Option ℤ → Option Point
both none lng = none
both (some lat) none = none
both (some lat) (some lng) = some (record { lat = lat; lng = lng })

abbrev pub location : DeliveryAddress → Option Point
location address = both address.lat address.lng

abbrev pub branch_location : Option DeliveryAddress → Option Point
branch_location none = none
branch_location (some address) = location address

-- `normalizePostalCode`
abbrev pub normalize_postal_code : Option (List ℕ) → Option (List ℕ)
normalize_postal_code none = none
normalize_postal_code (some value) =
    if is_empty (trim value) then none else some (map upper (trim value))

abbrev pub is_code : List ℕ → Option (List ℕ) → Bool
is_code code none = false
is_code code (some value) = text_eq value code

-- The stable sort of the bands by their start.
unfoldable pub insert_band : ZoneBand → List ZoneBand → List ZoneBand
insert_band b [] = b ∷ []
insert_band b (c ∷ cs) =
    let rest = insert_band b cs in
    if leb_ℤ b.from_distance c.from_distance then b ∷ c ∷ cs else c ∷ rest

unfoldable pub sort_bands : List ZoneBand → List ZoneBand
sort_bands [] = []
sort_bands (b ∷ bs) = insert_band b (sort_bands bs)

-- The first sorted band that the distance is in; only the last has its end too.
unfoldable pub find_band : ℕ → List ZoneBand → Option ZoneBand
find_band d [] = none
find_band d (b ∷ []) =
    if leb_ℤ b.from_distance (pos d) && leb_ℤ (pos d) b.to_distance then some b else none
find_band d (b ∷ c ∷ cs) =
    let rest = find_band d (c ∷ cs) in
    if leb_ℤ b.from_distance (pos d) && ltb_ℤ (pos d) b.to_distance then some b else rest

abbrev pub assert_minimum_order_amount : ℕ → ℕ → Outcome DeliveryError (Unit {0})
assert_minimum_order_amount subtotal minimum = throw_if (ltb subtotal minimum) below_minimum_amount

abbrev minimum_if : Bool → ℕ → ℕ → Outcome DeliveryError (Unit {0})
minimum_if true subtotal minimum = assert_minimum_order_amount subtotal minimum
minimum_if false subtotal minimum = ok tt

-- `freeDeliveryThreshold !== undefined && > 0 && subtotal >= freeDeliveryThreshold`
abbrev pub is_free : Option ℕ → ℕ → Bool
is_free none subtotal = false
is_free (some threshold) subtotal = ltb 0 threshold && leb threshold subtotal

-- What the three ways of pricing by a match do with its terms.
abbrev pub fee_by_terms : Terms → ℕ → ℕ → Bool → Outcome DeliveryError ℕ
fee_by_terms terms subtotal branch_minimum enforce =
    minimum_if enforce subtotal (or_default terms.min_order_amount branch_minimum)
    >> ok (if is_free terms.free_delivery_threshold subtotal then 0 else terms.delivery_fee)

module _ (geometry : Geometry) where
  unfoldable pub assert_address_in_delivery_radius :
      DeliveryAddress → Option DeliveryAddress → ℕ → Outcome DeliveryError (Unit {0})
  assert_address_in_delivery_radius address branch limit =
      or_throw (location address) address_without_location >>= λ here.
      or_throw (branch_location branch) branch_without_location >>= λ there.
      throw_if (ltb limit (geometry.distance here there)) outside_radius

  unfoldable pub assert_address_in_delivery_zone :
      DeliveryAddress → List Zone → Outcome DeliveryError Zone
  assert_address_in_delivery_zone address zones =
      or_throw (location address) address_without_location >>= λ here.
      throw_if (is_nil zones) no_zones
      >> or_throw (find (λ z. geometry.is_inside here z.polygon) zones) outside_zones

  unfoldable pub assert_address_in_delivery_zone_band :
      DeliveryAddress → Option DeliveryAddress → List ZoneBand → Outcome DeliveryError ZoneBand
  assert_address_in_delivery_zone_band address branch bands =
      or_throw (location address) address_without_location >>= λ here.
      or_throw (branch_location branch) branch_without_location >>= λ there.
      throw_if (is_nil bands) no_bands
      >> or_throw (find_band (geometry.distance here there) (sort_bands bands)) outside_bands

  unfoldable pub assert_address_postal_code_serviceable :
      DeliveryAddress → List PostalCodeRule → Outcome DeliveryError PostalCodeRule
  assert_address_postal_code_serviceable address rules =
      or_throw (normalize_postal_code address.postal_code) address_without_postal_code >>= λ code.
      or_throw (find (λ r. is_code code (normalize_postal_code (some r.postal_code))) rules)
        not_serviceable

  unfoldable pub resolve_zone_delivery_fee :
      DeliveryAddress → List Zone → ℕ → ℕ → Bool → Outcome DeliveryError ℕ
  resolve_zone_delivery_fee address zones subtotal minimum enforce =
      assert_address_in_delivery_zone address zones >>= λ z.
      fee_by_terms z.terms subtotal minimum enforce

  unfoldable pub resolve_zone_band_delivery_fee :
      DeliveryAddress
      → Option DeliveryAddress
      → List ZoneBand
      → ℕ
      → ℕ
      → Bool
      → Outcome DeliveryError ℕ
  resolve_zone_band_delivery_fee address branch bands subtotal minimum enforce =
      assert_address_in_delivery_zone_band address branch bands >>= λ b.
      fee_by_terms b.terms subtotal minimum enforce

  unfoldable pub resolve_postal_code_delivery_fee :
      DeliveryAddress → List PostalCodeRule → ℕ → ℕ → Bool → Outcome DeliveryError ℕ
  resolve_postal_code_delivery_fee address rules subtotal minimum enforce =
      assert_address_postal_code_serviceable address rules >>= λ r.
      fee_by_terms r.terms subtotal minimum enforce

  unfoldable pub resolve_radius_delivery_fee :
      DeliveryAddress → Option DeliveryAddress → ℕ → ℕ → Outcome DeliveryError ℕ
  resolve_radius_delivery_fee address branch limit fee =
      assert_address_in_delivery_radius address branch limit >> ok fee

  abbrev pub fee_by_mode :
      DeliveryMode
      → DeliveryAddress
      → Option DeliveryAddress
      → DeliveryConfig
      → ℕ
      → Bool
      → Outcome DeliveryError ℕ
  fee_by_mode zone address branch config subtotal enforce =
      resolve_zone_delivery_fee address config.zones subtotal config.min_order_amount enforce
  fee_by_mode zone_bands address branch config subtotal enforce =
      resolve_zone_band_delivery_fee address branch config.bands subtotal config.min_order_amount
        enforce
  fee_by_mode postal_code_rules address branch config subtotal enforce =
      resolve_postal_code_delivery_fee address config.rules subtotal config.min_order_amount enforce
  fee_by_mode radius address branch config subtotal enforce =
      minimum_if enforce subtotal config.min_order_amount
      >> resolve_radius_delivery_fee address branch config.radius config.delivery_fee

  -- The two functions resolveDeliveryFeeForAddress and resolveDeliveryFeeForGuestAddress, for the
  -- address that they have read.
  unfoldable pub resolve_delivery_fee_for_address :
      DeliveryAddress → Option DeliveryAddress → DeliveryConfig → ℕ → Bool → Outcome DeliveryError ℕ
  resolve_delivery_fee_for_address address branch config subtotal enforce =
      fee_by_mode config.mode address branch config subtotal enforce

  abbrev pub coverage_by_mode :
      DeliveryMode
      → DeliveryAddress
      → Option DeliveryAddress
      → DeliveryConfig
      → Outcome DeliveryError (Unit {0})
  coverage_by_mode zone address branch config =
      assert_address_in_delivery_zone address config.zones >>= λ z. ok tt
  coverage_by_mode zone_bands address branch config =
      assert_address_in_delivery_zone_band address branch config.bands >>= λ b. ok tt
  coverage_by_mode postal_code_rules address branch config =
      assert_address_postal_code_serviceable address config.rules >>= λ r. ok tt
  coverage_by_mode radius address branch config =
      assert_address_in_delivery_radius address branch config.radius

  unfoldable pub assert_delivery_address_in_coverage :
      DeliveryAddress → Option DeliveryAddress → DeliveryConfig → Outcome DeliveryError (Unit {0})
  assert_delivery_address_in_coverage address branch config =
      coverage_by_mode config.mode address branch config
