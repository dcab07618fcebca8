-- ===== src/Quotes/Fees.antt =====
-- What the buffer and the fee make of a raw quote (services/bridge/src/api/buy.ts).
use native.Mathlib.Nat.{mul-add, mul_assoc, mul_comm}
use faircoin_bridge.Prelude.{arith, mul_le_right, ℕ, ◌*◌, ◌+◌, ◌/◌, ◌≤◌}
use faircoin_bridge.Quotes.{add_fee, apply_buffer}

le-apply_buffer : (amount bps : ℕ) → amount ≤ apply_buffer amount bps
unfolding apply_buffer
le-apply_buffer amount bps = omega (arith, mul-add amount 10_000 bps)

le-add_fee : (amount bps : ℕ) → amount ≤ add_fee amount bps
unfolding add_fee
le-add_fee amount bps = omega (arith, mul-add amount 10_000 bps)

-- The payer never sends less than the raw quote.
pub price_covers : (amount buffer fee : ℕ) → amount ≤ add_fee (apply_buffer amount buffer) fee
price_covers amount buffer fee =
    omega (arith, le-apply_buffer amount buffer, le-add_fee (apply_buffer amount buffer) fee)

-- Rounding is in the payer's favour: the two steps together ask for no more than both percentages.
pub add_fee-apply_buffer_le :
    (amount buffer fee : ℕ)
    → add_fee (apply_buffer amount buffer) fee * 10_000 * 10_000
      ≤ amount * (10_000 + buffer) * (10_000 + fee)
unfolding add_fee apply_buffer
add_fee-apply_buffer_le amount buffer fee =
    let b = amount * (10_000 + buffer) / 10_000 in
    omega (
      arith,
      mul_le_right (b * 10_000) (amount * (10_000 + buffer)) (10_000 + fee) (omega arith),
      mul_comm b 10_000,
      mul_assoc b 10_000 (10_000 + fee),
      mul_assoc 10_000 b (10_000 + fee),
    )
