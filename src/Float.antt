-- ===== src/Float.antt =====
-- What the program does with an `f64`: the operations that it calls, as an interface over a type `W`
-- of values (`of_nanos` is `Duration::as_secs_f64`), and the facts about IEEE 754 that the theorems use.
pub mod Extremes
pub mod Whole
use bitcoin_price_tracker.Prelude.{ℕ, ◌≡◌, ◌⊎◌, Bool, true, false, not}

pub record Float64 (W : Type 0) : Type 0 where
  pub zero : W
  pub infinity : W
  pub neg_infinity : W
  pub of_ℕ : ℕ → W
  pub of_nanos : ℕ → W
  pub add : W → W → W
  pub sub : W → W → W
  pub mul : W → W → W
  pub div : W → W → W
  pub min : W → W → W
  pub max : W → W → W
  pub lt : W → W → Bool
  pub le : W → W → Bool
  pub is_finite : W → Bool
  pub is_nan : W → Bool

-- `x <= y`, which fails if either side is NaN.
infix 4 ◌≼◌
abbrev pub ◌≼◌ : {W : Type 0} ⦃f : Float64 W⦄ → W → W → Type 0
◌≼◌ ⦃f⦄ x y = f.le x y ≡ true

-- On finite values `<=` is reflexive and transitive, and `>` its negation; `min` and `max` return one
-- of their arguments, which bounds both, and return the other argument beside an infinity.
pub record IsFloat (W : Type 0) ⦃f : Float64 W⦄ : Type 0 where
  pub le_refl : (x : W) → f.is_finite x ≡ true → x ≼ x
  pub le_trans : (x y z : W) → x ≼ y → y ≼ z → x ≼ z
  pub min-infinity : (x : W) → f.is_finite x ≡ true → f.min f.infinity x ≡ x
  pub max-neg_infinity : (x : W) → f.is_finite x ≡ true → f.max f.neg_infinity x ≡ x
  pub min_choice : (x y : W) → (f.min x y ≡ x) ⊎ (f.min x y ≡ y)
  pub max_choice : (x y : W) → (f.max x y ≡ x) ⊎ (f.max x y ≡ y)
  pub min-le_left : (x y : W) → f.is_finite x ≡ true → f.is_finite y ≡ true → f.min x y ≼ x
  pub min-le_right : (x y : W) → f.is_finite x ≡ true → f.is_finite y ≡ true → f.min x y ≼ y
  pub le-max_left : (x y : W) → f.is_finite x ≡ true → f.is_finite y ≡ true → x ≼ f.max x y
  pub le-max_right : (x y : W) → f.is_finite x ≡ true → f.is_finite y ≡ true → y ≼ f.max x y
  pub lt-eq-not-le : (x : W) → f.is_finite x ≡ true → f.lt f.zero x ≡ not (f.le x f.zero)
