-- ===== src/Tests/FreshnessExamples.antt =====
-- Evaluations of stored quotes.
use bitcoin_price_tracker.Prelude.{ℕ, ◌≡◌, ◌↔◌, List, [], ◌∷◌, some, pos, map, keep, ◌≤◌, length}
use bitcoin_price_tracker.Models.{
  StoredQuote, QuoteKind, SourceResponse, live, degraded, stale, unavailable,
}
use bitcoin_price_tracker.Source.{UpstreamSource, coinbase, all_sources, name}
use bitcoin_price_tracker.Freshness.{responses, respond, evaluate_quotes}
use bitcoin_price_tracker.Freshness.Status.{contributes, evaluate_quotes-coverage}
use bitcoin_price_tracker.Freshness.Verdict.{
  IsComplete, Some, HasFresh, HasUsable, evaluate_quotes-status_iff,
}
use bitcoin_price_tracker.Tests.{Dollars, usd, nan, dollars}

abbrev quote_of : UpstreamSource → ℕ → ℕ → StoredQuote Dollars
quote_of p price seen = record {
  source = name p;
  price_usd = usd price;
  last_success_at_unix = some (pos seen);
  quote_kind = QuoteKind.spot;
}

abbrev newer : StoredQuote Dollars
newer = quote_of coinbase 200 99

abbrev older : StoredQuote Dollars
older = quote_of coinbase 100 98

abbrev judged : List (SourceResponse Dollars)
judged = respond (pos 100) newer ∷ respond (pos 100) older ∷ []

abbrev stored : List (StoredQuote Dollars)
stored = newer ∷ older ∷ []

evaluate_quotes-coverage_example :
    ((evaluate_quotes stored [] (pos 100)).coverage.contributing_sources
      ≡ map name (keep (contributes (responses stored (pos 100))) all_sources))
    × ((evaluate_quotes stored [] (pos 100)).coverage.fresh_source_count
        ≡ length (evaluate_quotes stored [] (pos 100)).coverage.contributing_sources)
    × ((evaluate_quotes stored [] (pos 100)).coverage.fresh_source_count ≤ 4)
evaluate_quotes-coverage_example = evaluate_quotes-coverage stored [] (pos 100)

evaluate_quotes-status_example :
    let status = (evaluate_quotes stored [] (pos 100)).status in
    ((status ≡ live) ↔ IsComplete (pos 100) stored [])
    × ((status ≡ degraded)
        ↔ (Some (λ p. HasFresh (pos 100) stored p) × ¬ IsComplete (pos 100) stored []))
    × ((status ≡ stale) ↔ (HasUsable stored × ¬ Some (λ p. HasFresh (pos 100) stored p)))
    × ((status ≡ unavailable) ↔ (¬ HasUsable stored))
evaluate_quotes-status_example = evaluate_quotes-status_iff (pos 100) stored []

abbrev broken : StoredQuote Dollars
broken = record newer { price_usd = nan }
