-- ===== src/Float/Whole.antt =====
-- What IEEE 754 says of whole numbers below 2^53: the operations are exact on them.
use bitcoin_price_tracker.Prelude.{ℕ, ◌+◌, ◌-◌, ◌*◌, ◌≤◌, ◌<◌, ◌≡◌, min, ltb}
use bitcoin_price_tracker.Float.{Float64}
use bitcoin_price_tracker.Time.{from_secs}

abbrev pub IsWhole : ℕ → Type 0
IsWhole n = n < 9_007_199_254_740_992

-- The last field is of `Duration::as_secs_f64` on whole seconds.
pub record IsExact (W : Type 0) ⦃f : Float64 W⦄ : Type 0 where
  pub add_lem : (a b : ℕ) → IsWhole (a + b) → f.add (f.of_ℕ a) (f.of_ℕ b) ≡ f.of_ℕ (a + b)
  pub sub_lem : (a b : ℕ) → IsWhole a → b ≤ a → f.sub (f.of_ℕ a) (f.of_ℕ b) ≡ f.of_ℕ (a - b)
  pub mul_lem :
      (a b : ℕ)
      → IsWhole a
      → IsWhole b
      → IsWhole (a * b)
      → f.mul (f.of_ℕ a) (f.of_ℕ b) ≡ f.of_ℕ (a * b)
  pub min_lem : (a b : ℕ) → IsWhole a → IsWhole b → f.min (f.of_ℕ a) (f.of_ℕ b) ≡ f.of_ℕ (min a b)
  pub lt_lem : (a b : ℕ) → IsWhole a → IsWhole b → f.lt (f.of_ℕ a) (f.of_ℕ b) ≡ ltb a b
  pub of_nanos_lem : (s : ℕ) → IsWhole s → f.of_nanos (from_secs s) ≡ f.of_ℕ s
