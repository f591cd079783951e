-- ===== src/Branches/Bands.antt =====
-- The bands that branches.service.ts accepts, as orders.service.ts looks them up.
use mathlib.Core.List.{Memᴰ}
use deliveryways.Prelude.{
  ℕ, ◌≡◌, sym, subst, Bool, true, false, ◌&&◌, Option, none, some, List, [], ◌∷◌, arith, ok,
  throw_if, ◌>>◌, then_ok, throw_if_ok, is_nil, ap, if◌then◌else◌,
}
use deliveryways.Prelude.Int.{pos, leb_ℤ, ltb_ℤ, ◌≤ℤ◌}
use deliveryways.Orders.Delivery.{
  ZoneBand, DeliveryConfig, zone_bands, insert_band, sort_bands, find_band,
}
use deliveryways.Branches.DeliveryConfiguration.{
  overlaps, is_out_of_bounds, assert_valid_bands, assert_valid_delivery_configuration,
  invalid_bounds, overlapping_bands, bands_required, configuration_by_mode,
}

-- A distance from the start of a band to before its end.
abbrev pub reaches : ZoneBand → ℕ → Bool
reaches b d = leb_ℤ b.from_distance (pos d) && ltb_ℤ (pos d) b.to_distance

place-Mem :
    (before : Bool) (b c d : ZoneBand) (ds rest : List ZoneBand)
    → (Memᴰ c (b ∷ ds) → Memᴰ c rest)
    → Memᴰ c (b ∷ d ∷ ds)
    → Memᴰ c (if before then b ∷ d ∷ ds else d ∷ rest)
place-Mem true b c d ds rest deep m = m
place-Mem false b c d ds rest deep (Memᴰ.head same) = Memᴰ.tail (deep (Memᴰ.head same))
place-Mem false b c d ds rest deep (Memᴰ.tail (Memᴰ.head same)) = Memᴰ.head same
place-Mem false b c d ds rest deep (Memᴰ.tail (Memᴰ.tail m)) = Memᴰ.tail (deep (Memᴰ.tail m))

insert_band-Mem :
    (b c : ZoneBand) (bs : List ZoneBand) → Memᴰ c (b ∷ bs) → Memᴰ c (insert_band b bs)
unfolding insert_band
insert_band-Mem b c [] m = m
insert_band-Mem b c (d ∷ ds) m =
    place-Mem (leb_ℤ b.from_distance d.from_distance) b c d ds (insert_band b ds)
      (insert_band-Mem b c ds) m

sort_bands-Mem : (c : ZoneBand) (bs : List ZoneBand) → Memᴰ c bs → Memᴰ c (sort_bands bs)
unfolding sort_bands
sort_bands-Mem c [] m = m
sort_bands-Mem c (b ∷ bs) (Memᴰ.head same) = insert_band-Mem b c (sort_bands bs) (Memᴰ.head same)
sort_bands-Mem c (b ∷ bs) (Memᴰ.tail m) =
    insert_band-Mem b c (sort_bands bs) (Memᴰ.tail (sort_bands-Mem c bs m))

ends_before : (p c : ZoneBand) → overlaps (some p) c ≡ false → p.to_distance ≤ℤ c.from_distance
ends_before p c apart = ground arith

goes_on :
    (p c b : ZoneBand)
    → is_out_of_bounds c ≡ false
    → overlaps (some p) c ≡ false
    → c.to_distance ≤ℤ b.from_distance
    → p.to_distance ≤ℤ b.from_distance
goes_on p c b inside apart later = ground arith

-- The tests of the search, for a band that the distance is in and one that ended before.
reaches-last :
    (b : ZoneBand) (d : ℕ)
    → reaches b d ≡ true
    → (leb_ℤ b.from_distance (pos d) && leb_ℤ (pos d) b.to_distance) ≡ true
reaches-last b d r = ground arith

reaches-passed :
    (c b : ZoneBand) (d : ℕ)
    → c.to_distance ≤ℤ b.from_distance
    → reaches b d ≡ true
    → reaches c d ≡ false
reaches-passed c b d apart r = ground arith

-- What one turn of the loop has checked.
valid_turn :
    (previous : Option ZoneBand) (b : ZoneBand) (bs : List ZoneBand)
    → assert_valid_bands previous (b ∷ bs) ≡ ok tt
    → (is_out_of_bounds b ≡ false)
      × (overlaps previous b ≡ false)
      × (assert_valid_bands (some b) bs ≡ ok tt)
unfolding assert_valid_bands
valid_turn previous b bs h =
    let (both, rest) =
      then_ok
        (throw_if (is_out_of_bounds b) invalid_bounds
          >> throw_if (overlaps previous b) overlapping_bands)
        (assert_valid_bands (some b) bs) h in
    let (here, apart) =
      then_ok (throw_if (is_out_of_bounds b) invalid_bounds)
        (throw_if (overlaps previous b) overlapping_bands) both in
    (throw_if_ok _ _ here, throw_if_ok _ _ apart, rest)

-- The bands after a band start where it has ended.
starts_after :
    (p b : ZoneBand) (bs : List ZoneBand)
    → assert_valid_bands (some p) bs ≡ ok tt
    → Memᴰ b bs
    → p.to_distance ≤ℤ b.from_distance
unfolding assert_valid_bands
starts_after p b [] h m = elim m [ ]
starts_after p b (c ∷ cs) h (Memᴰ.head same) =
    let (inside, apart, rest) = valid_turn (some p) c cs h in
    subst (λ z. p.to_distance ≤ℤ z.from_distance) (sym same) (ends_before p c apart)
starts_after p b (c ∷ cs) h (Memᴰ.tail m) =
    let (inside, apart, rest) = valid_turn (some p) c cs h in
    let later = starts_after c b cs rest m in goes_on p c b inside apart later

find_band-reaches :
    (previous : Option ZoneBand) (b : ZoneBand) (bs : List ZoneBand) (d : ℕ)
    → assert_valid_bands previous bs ≡ ok tt
    → Memᴰ b bs
    → reaches b d ≡ true
    → find_band d bs ≡ some b
unfolding assert_valid_bands find_band
find_band-reaches previous b [] d h m r = elim m [ ]
find_band-reaches previous b (c ∷ []) d h (Memᴰ.head same) r =
    rw (reaches-last c d (subst (λ z. reaches z d ≡ true) same r)) (ap some (sym same))
find_band-reaches previous b (c ∷ []) d h (Memᴰ.tail m) r = elim m [ ]
find_band-reaches previous b (c ∷ e ∷ cs) d h (Memᴰ.head same) r =
    rw (subst (λ z. reaches z d ≡ true) same r) (ap some (sym same))
find_band-reaches previous b (c ∷ e ∷ cs) d h (Memᴰ.tail m) r =
    let (inside, apart, rest) = valid_turn previous c (e ∷ cs) h in
    let ended = starts_after c b (e ∷ cs) rest m in
    rw (reaches-passed c b d ended r) (find_band-reaches (some c) b (e ∷ cs) d rest m r)

sorted_valid :
    (config : DeliveryConfig)
    → config.mode ≡ zone_bands
    → assert_valid_delivery_configuration config ≡ ok tt
    → assert_valid_bands none (sort_bands config.bands) ≡ ok tt
unfolding assert_valid_delivery_configuration
sorted_valid config mode valid =
    (then_ok (throw_if (is_nil config.bands) bands_required) _
      (subst (λ m. configuration_by_mode m config ≡ ok tt) mode valid)).1

-- In a delivery configuration by bands that is accepted, a distance from the start of one of the
-- bands to before its end finds that band, whatever the order of the bands.
pub find_band-configured :
    (config : DeliveryConfig) (b : ZoneBand) (d : ℕ)
    → config.mode ≡ zone_bands
    → assert_valid_delivery_configuration config ≡ ok tt
    → Memᴰ b config.bands
    → reaches b d ≡ true
    → find_band d (sort_bands config.bands) ≡ some b
find_band-configured config b d mode valid m r =
    find_band-reaches none b (sort_bands config.bands) d (sorted_valid config mode valid)
      (sort_bands-Mem b config.bands m) r
