-- ===== src/Tests/ContractExamples.antt =====
-- The JSON of responses.
use bitcoin_price_tracker.Prelude.{◌≡◌, refl, false, pos}
use bitcoin_price_tracker.Prelude.Int.{◌-ℤ◌, checked_sub}
use bitcoin_price_tracker.Presence.{age_of}
use bitcoin_price_tracker.Models.Wire.{source_response_value}
use bitcoin_price_tracker.Models.Contract.{is_source}
use bitcoin_price_tracker.Freshness.{respond, age_seconds, classify}
use bitcoin_price_tracker.Tests.{dollars, nan}
use bitcoin_price_tracker.Tests.PricingExamples.{kraken_quote}

-- A price that is null is refused.
unpriced :
    is_source (source_response_value (respond (pos 100) (record kraken_quote { price_usd = nan })))
    ≡ false
unfolding classify age_seconds age_of checked_sub ◌-ℤ◌
unpriced = refl
