-- ===== src/Wallet/QuoteLaws.antt =====
-- What a quote promises: how points and wallet share the total of an order.
use deliveryways.Prelude.{◌⊎◌, ◌%◌, suc, ℕ, ◌≡◌, if◌then◌else◌}
use deliveryways.Prelude.Int.{fine, rounded, rounded_ℕ, ℤ, pos, ◌+ℤ◌, ◌-ℤ◌, ◌≤ℤ◌, ltb_ℤ}
use deliveryways.Wallet.Store.{running}
use deliveryways.Wallet.OrderBenefits.{QuoteBenefits}

-- A quote whose parts add up to the total, none of them negative: but where the amount asked from the
-- wallet is a number of cents and a half, both the wallet's part and the rest may be rounded up.
pub record IsSplit (total w p : ℕ) (q : QuoteBenefits) : Type 0 where
  pub adds_up :
      let sum = q.total_amount +ℤ q.wallet_applied_amount +ℤ q.loyalty_discount_amount in
      (sum ≡ pos total) ⊎ ((sum ≡ pos (suc total)) × (w % 10000 ≡ 5000))
  pub to_pay : pos 0 ≤ℤ q.total_amount
  pub from_wallet :
      (pos 0 ≤ℤ q.wallet_applied_amount) × (q.wallet_applied_amount ≤ℤ pos (rounded_ℕ w))
  pub from_points : pos 0 ≤ℤ q.loyalty_discount_amount
  pub points : q.loyalty_points_redeemed ≡ p

quoted : ℤ → ℤ → ℤ → ℕ → QuoteBenefits
quoted total discount applied p =
    let running = fine (total -ℤ discount) -ℤ applied in
    record {
      wallet_applied_amount = rounded applied;
      loyalty_discount_amount = discount;
      loyalty_points_redeemed = p;
      total_amount = rounded (if ltb_ℤ running (pos 0) then pos 0 else running);
    }
