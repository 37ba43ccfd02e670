-- ===== src/Freshness/Age.antt =====
-- When a quote is fresh, stale, dated in the future, or of unknown age.
use bitcoin_price_tracker.Prelude.{
  ◌≡◌, ◌↔◌, true, none, some, String, arith, pos, ◌≤ℤ◌, ltb_ℤ, ◌-ℤ◌, -ℤ_parts, in_i64,
}
use bitcoin_price_tracker.Time.{UnixTime, source_max_age_seconds}
use bitcoin_price_tracker.Models.{is_fresh, is_stale, is_unknown, is_future}
use bitcoin_price_tracker.Freshness.{is_configured, classify}

-- A quote is fresh exactly when its provider is configured and it was seen at or before now, less
-- than ninety seconds ago, by a difference that fits an `i64`.
pub classify-fresh_iff :
    (source : String) (seen : UnixTime) (now : UnixTime)
    → (classify source (some seen) now ≡ is_fresh) ↔ (
        (is_configured source ≡ true)
        × (seen ≤ℤ now)
        × (ltb_ℤ (now -ℤ seen) (pos source_max_age_seconds) ≡ true)
        × (in_i64 (now -ℤ seen) ≡ true))
unfolding classify
classify-fresh_iff source seen now =
    (λ h. ground (arith, -ℤ_parts now seen), λ h. ground (arith, -ℤ_parts now seen))

-- A quote of a configured provider is dated in the future exactly when it was seen after now, and
-- stale exactly when it was seen ninety seconds ago or more. A quote with no date is neither, nor
-- fresh.
pub classify_others :
    (source : String) (seen : UnixTime) (now : UnixTime)
    → ((classify source (some seen) now ≡ is_future)
        ↔ ((is_configured source ≡ true) × (ltb_ℤ now seen ≡ true)))
      × ((classify source (some seen) now ≡ is_stale) ↔ (
          (is_configured source ≡ true)
          × (pos source_max_age_seconds ≤ℤ (now -ℤ seen))
          × (in_i64 (now -ℤ seen) ≡ true)))
      × (classify source none now ≡ is_unknown)
unfolding classify
classify_others source seen now = (
  (λ h. ground (arith, -ℤ_parts now seen), λ h. ground (arith, -ℤ_parts now seen)),
  (λ h. ground (arith, -ℤ_parts now seen), λ h. ground (arith, -ℤ_parts now seen)),
  ground arith,
)
