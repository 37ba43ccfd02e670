-- ===== src/Tests.antt =====
-- The theorems at concrete inputs, and the concrete values that stand for foreign code in them.
mod RefreshExamples
mod FreshnessExamples
mod PresenceExamples
mod NewsExamples
mod StorageExamples
mod ConfigExamples
mod PricingExamples
mod HandlerExamples
mod ServerExamples
mod AppExamples
mod RateExamples
mod RouterExamples
mod ContractExamples
mod MainExamples
use bitcoin_price_tracker.Prelude.{
  ℕ, ◌+◌, ◌-◌, ◌*◌, ◌/◌, ◌≡◌, refl, Bool, true, false, not, ltb, leb, if◌then◌else◌, arith,
}
use bitcoin_price_tracker.Float.{Float64, IsFloat}

-- Whole dollars with the special values, as a stand-in for `f64`.
pub data Dollars : Type 0 where
  nan below above : Dollars
  usd : ℕ → Dollars

abbrev pub lift : (ℕ → ℕ → ℕ) → Dollars → Dollars → Dollars
lift op (usd a) (usd b) = usd (op a b)
lift op _ _ = nan

abbrev pub le : Dollars → Dollars → Bool
le nan y = false
le below nan = false
le below _ = true
le above above = true
le above _ = false
le (usd a) nan = false
le (usd a) below = false
le (usd a) above = true
le (usd a) (usd b) = leb a b

abbrev pub lt : Dollars → Dollars → Bool
lt nan y = false
lt x nan = false
lt x y = not (le y x)

abbrev pub smaller : Dollars → Dollars → Dollars
smaller nan y = y
smaller x nan = x
smaller x y = if le x y then x else y

abbrev pub greater : Dollars → Dollars → Dollars
greater nan y = y
greater x nan = x
greater x y = if le x y then y else x

abbrev pub is_number : Dollars → Bool
is_number (usd a) = true
is_number _ = false

abbrev pub is_not_a_number : Dollars → Bool
is_not_a_number nan = true
is_not_a_number _ = false

instance abbrev pub dollars : Float64 Dollars
dollars = record {
  zero = usd 0;
  infinity = above;
  neg_infinity = below;
  of_ℕ = usd;
  of_nanos = λ n. usd (n / 1_000_000_000);
  add = lift (λ a b. a + b);
  sub = lift (λ a b. a - b);
  mul = lift (λ a b. a * b);
  div = lift (λ a b. a / b);
  min = smaller;
  max = greater;
  lt = lt;
  le = le;
  is_finite = is_number;
  is_nan = is_not_a_number;
}

pub Dollars-IsFloat : IsFloat Dollars
Dollars-IsFloat = ground arith
