-- ===== src/Limits/Rate.antt =====
-- How many requests a bucket lets through.
use bitcoin_price_tracker.Prelude.{
  ℕ, suc, ◌+◌, ◌-◌, ◌*◌, ◌≤◌, ◌<◌, ◌≡◌, refl, Bool, true, false, List, [], ◌∷◌, if◌then◌else◌, min,
  ltb, arith, length, Bool-cases, inl, inr,
}
use bitcoin_price_tracker.Time.{Instant, from_secs, saturating_duration_since}
use bitcoin_price_tracker.Float.{Float64}
use bitcoin_price_tracker.Float.Whole.{IsExact}
use bitcoin_price_tracker.Limits.{Gate, new_gate, refilled, allow}

abbrev pub let_through : Bool → ℕ
let_through true = 1
let_through false = 0

module _ {W : Type 0} ⦃f : Float64 W⦄ where
  -- Requests that come the given numbers of seconds after one another: how many are let through.
  abbrev pub admitted : Instant → List ℕ → Gate W → ℕ
  admitted now [] g = 0
  admitted now (gap ∷ gaps) g =
      let (after, passed) = allow (now + from_secs gap) g in
      let_through passed + admitted (now + from_secs gap) gaps after

abbrev pub sum : List ℕ → ℕ
sum [] = 0
sum (n ∷ ns) = n + sum ns

product_bound : (s rate : ℕ) → s ≤ 4_294_967_296 → rate ≤ 10000 → s * rate ≤ 42_949_672_960_000
product_bound s rate h k = grind arith

elapsed_lem : (now gap : ℕ) → saturating_duration_since (now + gap) now ≡ gap
elapsed_lem now gap = omega arith

-- One step of the bounds, in whole numbers.
passed_bounds :
    (n t s r rest more len : ℕ)
    → n ≤ t + s * r
    → t ≤ n
    → 1 ≤ n
    → more ≤ n - 1 + rest * r
    → min len (n - 1) ≤ more
    → (1 + more ≤ t + (s + rest) * r) × (min (suc len) t ≤ 1 + more)
passed_bounds n t s r rest more len h k p a b = (grind arith, omega arith)

refused_bounds :
    (n t s r rest more len : ℕ)
    → n ≤ t + s * r
    → t ≤ n
    → n < 1
    → more ≤ n + rest * r
    → (0 + more ≤ t + (s + rest) * r) × (min (suc len) t ≤ 0 + more)
refused_bounds n t s r rest more len h k p a = (grind arith, omega arith)

module _ {W : Type 0} ⦃f : Float64 W⦄ where
  -- A bucket with a whole number of tokens.
  abbrev bucket : ℕ → ℕ → ℕ → Instant → Gate W
  bucket rate slots t now = record { tokens = f.of_ℕ t; updated = now; rate = rate; slots = slots }

  module _ (exact : IsExact W) (rate slots : ℕ) (few : rate ≤ 10000) where
    refilled_lem :
        (t s : ℕ) (now : Instant)
        → t ≤ rate
        → s ≤ 4_294_967_296
        → refilled (now + from_secs s) (bucket rate slots t now) ≡ f.of_ℕ (min (t + s * rate) rate)
    refilled_lem t s now h small =
        let product = product_bound s rate small few in
        rw (elapsed_lem now (from_secs s), refilled)
          (rw (exact.of_nanos_lem s (omega arith)) (
            rw (exact.mul_lem s rate (omega arith) (omega arith) (omega (arith, product))) (
              rw (exact.add_lem t (s * rate) (omega (arith, product)))
                (exact.min_lem (t + s * rate) rate (omega (arith, product)) (omega arith)))))

    allow_lem :
        (t s : ℕ) (now : Instant)
        → t ≤ rate
        → s ≤ 4_294_967_296
        → allow (now + from_secs s) (bucket rate slots t now) ≡ (
            if ltb (min (t + s * rate) rate) 1
            then (bucket rate slots (min (t + s * rate) rate) (now + from_secs s), false)
            else (bucket rate slots (min (t + s * rate) rate - 1) (now + from_secs s), true))
    unfolding allow
    allow_lem t s now h small =
        let n = min (t + s * rate) rate in
        rw (refilled_lem t s now h small) (
          rw (exact.lt_lem n 1 (omega arith) (omega arith)) (elim (Bool-cases (ltb n 1)) [
            | inl e ↦ rw e refl
            | inr e ↦ rw e (rw (exact.sub_lem n 1 (omega arith) (ground arith)) refl)
          ]))

    admitted_bounds :
        (gaps : List ℕ) (t : ℕ) (now : Instant)
        → t ≤ rate
        → sum gaps ≤ 4_294_967_296
        → (admitted now gaps (bucket rate slots t now) ≤ t + sum gaps * rate)
          × (min (length gaps) t ≤ admitted now gaps (bucket rate slots t now))
    admitted_bounds [] t now h small = (omega arith, omega arith)
    admitted_bounds (s ∷ gaps) t now h small =
        let n = min (t + s * rate) rate in
        let later = now + from_secs s in
        rw (allow_lem t s now h (omega arith)) (elim (Bool-cases (ltb n 1)) [
          | inl e ↦ rw e (
              let (above, below) = admitted_bounds gaps n later (omega arith) (omega arith) in
              refused_bounds n t s rate (sum gaps) (admitted later gaps (bucket rate slots n later))
                (length gaps) (omega arith) (omega arith) (ground arith) above)
          | inr e ↦ rw e (
              let (above, below) = admitted_bounds gaps (n - 1) later (omega arith) (omega arith) in
              passed_bounds n t s rate (sum gaps)
                (admitted later gaps (bucket rate slots (n - 1) later)) (length gaps) (omega arith)
                (omega arith) (ground arith) above below)
        ])

  -- A fresh bucket of at most 10000 requests per second, asked at whole seconds from its start, lets
  -- through at most a burst of its rate and its rate for every second since, and at least the first of
  -- them up to the rate, however they are spaced. The arithmetic of an `f64` is exact on whole numbers
  -- below 2^53.
  pub admitted-new_gate :
      IsExact W
      → (rate slots : ℕ) (start : Instant) (gaps : List ℕ) → rate ≤ 10000
      → sum gaps ≤ 4_294_967_296
      → (admitted start gaps (new_gate {W = W} rate slots start) ≤ rate + sum gaps * rate)
        × (min (length gaps) rate ≤ admitted start gaps (new_gate {W = W} rate slots start))
  admitted-new_gate exact rate slots start gaps few small =
      admitted_bounds exact rate slots few gaps rate start (omega arith) small
