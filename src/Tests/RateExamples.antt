-- ===== src/Tests/RateExamples.antt =====
-- A bucket in whole tokens.
use bitcoin_price_tracker.Prelude.{ℕ, ◌≤◌, ◌≡◌, refl, List, [], ◌∷◌, arith, min, ap}
use bitcoin_price_tracker.Float.Whole.{IsExact}
use bitcoin_price_tracker.Limits.{new_gate, allow}
use bitcoin_price_tracker.Limits.Rate.{admitted, admitted-new_gate}
use bitcoin_price_tracker.Tests.{Dollars, usd, dollars, smaller}

whole_min : (a b : ℕ) → smaller (usd a) (usd b) ≡ usd (min a b)
whole_min a b = ground arith

Dollars-IsExact : IsExact Dollars
Dollars-IsExact = record {
  add_lem = λ a b h. refl;
  sub_lem = λ a b h k. refl;
  mul_lem = λ a b h k p. refl;
  min_lem = λ a b h k. whole_min a b;
  lt_lem = λ a b h k. ground arith;
  of_nanos_lem = λ s h. ap usd (omega arith);
}

-- Three requests at once, and two after a second, at one request per second.
abbrev gaps : List ℕ
gaps = 0 ∷ 0 ∷ 0 ∷ 1 ∷ 0 ∷ []

two_pass : admitted 5 gaps (new_gate {W = Dollars} 1 4 5) ≡ 2
unfolding allow
two_pass = refl

admitted-new_gate_example :
    (admitted 5 gaps (new_gate {W = Dollars} 1 4 5) ≤ 2)
    × (1 ≤ admitted 5 gaps (new_gate {W = Dollars} 1 4 5))
admitted-new_gate_example = admitted-new_gate Dollars-IsExact 1 4 5 gaps (omega arith) (omega arith)
