-- ===== src/Coupons/Schedule.antt =====
-- coupons.service.ts: the times at which a coupon is in force. A moment is its milliseconds since
-- 1 January 1970, a Thursday, and the parts of a date are those of UTC.
use deliveryways.Prelude.{
  ℕ, ◌+◌, ◌-◌, ◌*◌, ◌/◌, ◌%◌, ◌≤◌, ◌<◌, ◌≡◌, ◌↔◌, ◌⊎◌, Bool, true, ◌&&◌, ◌||◌, not, Option, none,
  some, List, [], ◌∷◌, arith, ltb, leb, ◌==◌, if◌then◌else◌, trim, is_empty, includes, ◌≢◌, inl,
  inr, Bool-cases,
}
use deliveryways.Coupons.Rows.{Coupon}
use deliveryways.Wallet.OrderBenefits.{expiry}

abbrev pub day_ms : ℕ
day_ms = 86400000

-- `getUTCDay`
abbrev pub utc_day : ℕ → ℕ
utc_day t = (t / day_ms + 4) % 7

-- `getUTCHours() * 60 + getUTCMinutes()`
abbrev pub utc_minutes : ℕ → ℕ
utc_minutes t = (t % day_ms) / 60000

abbrev is_digit : ℕ → Bool
is_digit c = leb 48 c && leb c 57

abbrev two_digits : ℕ → ℕ → ℕ
two_digits a b = (a - 48) * 10 + (b - 48)

-- `/^(\d{2}):(\d{2})$/` on the trimmed text, then the ranges of the hour and the minute.
abbrev clock_minutes : List ℕ → Option ℕ
clock_minutes (a ∷ b ∷ colon ∷ c ∷ d ∷ []) =
    if is_digit a
      && is_digit b
      && colon == 58
      && is_digit c
      && is_digit d
      && leb (two_digits a b) 23
      && leb (two_digits c d) 59
    then some (two_digits a b * 60 + two_digits c d)
    else none
clock_minutes _ = none

unfoldable pub parse_time_to_minutes : List ℕ → Option ℕ
parse_time_to_minutes value = clock_minutes (trim value)

abbrev weekdays : List (Option ℕ) → List ℕ
weekdays [] = []
weekdays (none ∷ entries) = weekdays entries
weekdays (some d ∷ entries) = if leb d 6 then d ∷ weekdays entries else weekdays entries

unfoldable pub read_active_days : List (Option ℕ) → Option (List ℕ)
read_active_days [] = none
read_active_days (e ∷ es) = some (weekdays (e ∷ es))

abbrev on_active_day : Option (List ℕ) → ℕ → Bool
on_active_day none day = true
on_active_day (some days) day = includes day days

-- The window of a day from a start to an end, which goes over midnight where it ends before it
-- starts.
unfoldable pub in_daily_window : ℕ → ℕ → ℕ → Bool
in_daily_window start end current =
    if leb start end
    then leb start current && leb current end
    else leb start current || leb current end

abbrev in_parsed_window : Option ℕ → Option ℕ → ℕ → Bool
in_parsed_window none _ current = true
in_parsed_window (some start) none current = true
in_parsed_window (some start) (some end) current = in_daily_window start end current

abbrev in_window : Option (List ℕ) → Option (List ℕ) → ℕ → Bool
in_window none _ current = true
in_window (some start) none current = true
in_window (some start) (some end) current =
    if is_empty start || is_empty end
    then true
    else in_parsed_window (parse_time_to_minutes start) (parse_time_to_minutes end) current

unfoldable pub is_coupon_schedule_active : Coupon → ℕ → Bool
is_coupon_schedule_active coupon now =
    on_active_day (read_active_days coupon.active_days) (utc_day now)
    && in_window coupon.daily_start_time coupon.daily_end_time (utc_minutes now)

abbrev pub is_midnight_utc : ℕ → Bool
is_midnight_utc t = t % day_ms == 0

abbrev pub end_of_utc_day : ℕ → ℕ
end_of_utc_day t = t - t % day_ms + (day_ms - 1)

abbrev has_started : Option ℕ → ℕ → Bool
has_started none now = true
has_started (some t) now = not (ltb now t)

abbrev effective_expiry : ℕ → ℕ
effective_expiry t = if is_midnight_utc t then end_of_utc_day t else t

abbrev has_not_ended : Option ℕ → ℕ → Bool
has_not_ended none now = true
has_not_ended (some t) now = leb now (effective_expiry t)

-- `docs/ORDER_COUPON_PHASE1.md` has `startsAt <= now <= expiresAt` here, without the end of the day.
unfoldable pub is_coupon_within_date_window : Option ℕ → Option ℕ → ℕ → Bool
is_coupon_within_date_window starts_at expires_at now =
    has_started starts_at now && has_not_ended expires_at now

-- The last day, as an order on moments.
whole_day :
    (expiry now : ℕ)
    → expiry % day_ms ≡ 0
    → (now ≤ end_of_utc_day expiry) ↔ ((now ≤ expiry) ⊎ (now / day_ms ≡ expiry / day_ms))
whole_day expiry now h = (there, back)
  where
    there : now ≤ end_of_utc_day expiry → (now ≤ expiry) ⊎ (now / day_ms ≡ expiry / day_ms)
    there g = elim (Bool-cases (leb now expiry)) [
      | inl before ↦ inl (ground arith)
      | inr after ↦ let late : expiry < now = ground arith in inr (omega arith)
    ]

    back : (now ≤ expiry) ⊎ (now / day_ms ≡ expiry / day_ms) → now ≤ end_of_utc_day expiry
    back (inl g) = omega arith
    back (inr g) = omega arith

-- Of the coupons with a start and an expiry, one whose expiry is a midnight is in force for the
-- whole of that day, and any other up to the very millisecond of its expiry; from its start on in
-- both cases.
pub is_coupon_within_date_window_lem :
    (start expiry now : ℕ)
    → (is_coupon_within_date_window (some start) (some expiry) now ≡ true) ↔ (
        (start ≤ now)
        × ((now ≤ expiry) ⊎ ((expiry % day_ms ≡ 0) × (now / day_ms ≡ expiry / day_ms))))
unfolding is_coupon_within_date_window
is_coupon_within_date_window_lem start expiry now = elim (Bool-cases (is_midnight_utc expiry)) [
  | inl midnight ↦
      let exact : expiry % day_ms ≡ 0 = ground arith in
      let (there, back) = whole_day expiry now exact in ground (arith, there, back)
  | inr other ↦ ground arith
]

-- Of two daily windows with their ends swapped, every minute is in one, and in both only where it
-- is one of the two different ends.
pub in_daily_window_swap :
    (start end current : ℕ)
    → start ≢ end
    → ((in_daily_window start end current || in_daily_window end start current) ≡ true)
      × (((in_daily_window start end current && in_daily_window end start current) ≡ true)
          ↔ ((current ≡ start) ⊎ (current ≡ end)))
unfolding in_daily_window
in_daily_window_swap start end current differ =
    (ground arith, (λ h. ground arith, λ h. ground arith))
