-- ===== src/Freshness.antt =====
-- src/freshness.rs: how stored quotes are judged when a response is made.
pub mod Age
pub mod Newest
pub mod Status
pub mod Range
pub mod Verdict
use text.Mathlib.Text.{◌==◌}
use bitcoin_price_tracker.Prelude.{
  ℕ, suc, ◌+◌, Bool, true, false, ◌&&◌, not, List, [], ◌∷◌, map, Option, none, some, String,
  if◌then◌else◌, length, is_empty, any, all, keep, fold, ℤ, pos, ltb_ℤ,
}
use bitcoin_price_tracker.Prelude.{◌==◌ as eq_ℕ}
use bitcoin_price_tracker.Time.{UnixTime, source_max_age_seconds}
use bitcoin_price_tracker.Float.{Float64}
use bitcoin_price_tracker.Models.{
  StoredQuote, ProviderHealth, LastAttempt, SourceFreshness, is_fresh, is_stale, is_unknown,
  is_future, SourceResponse, PriceStatus, live, degraded, stale, unavailable, AggregateCoverage,
}
use bitcoin_price_tracker.Source.{UpstreamSource, all_sources, source_count, name}
use bitcoin_price_tracker.Presence.{age_of}

-- `UpstreamSource::ALL.iter().any(|source| source.name() == quote.source)`.
unfoldable pub is_configured : String → Bool
is_configured source = any (λ p. name p == source) all_sources

unfoldable pub age_seconds : Option UnixTime → UnixTime → Option ℤ
unfolding age_of
age_seconds none now = none
age_seconds (some time) now = age_of time now

abbrev pub is_after : Option UnixTime → UnixTime → Bool
is_after none now = false
is_after (some time) now = ltb_ℤ now time

abbrev pub freshness_of_age : Option ℤ → SourceFreshness
freshness_of_age none = is_unknown
freshness_of_age (some age) = if ltb_ℤ age (pos source_max_age_seconds) then is_fresh else is_stale

-- The freshness of a quote of `source` last seen at `time`.
unfoldable pub classify : String → Option UnixTime → UnixTime → SourceFreshness
unfolding is_configured age_seconds
classify source time now =
    if not (is_configured source)
    then is_unknown
    else if is_after time now
    then is_future
    else freshness_of_age (age_seconds time now)

abbrev pub is_fresh_tag : SourceFreshness → Bool
is_fresh_tag is_fresh = true
is_fresh_tag _ = false

-- The order of `Option<i64>`, `None` first: whether the first key is greater.
abbrev pub key_gt : Option UnixTime → Option UnixTime → Bool
key_gt none b = false
key_gt (some s) none = true
key_gt (some s) (some t) = ltb_ℤ t s

abbrev pub has_success : LastAttempt → Bool
has_success (LastAttempt.success at) = true
has_success _ = false

-- Every configured provider has a record of a successful last attempt.
unfoldable pub all_healthy : List ProviderHealth → Bool
all_healthy health =
    all (λ p. any (λ r. r.source == name p && has_success r.last_attempt) health) all_sources

module _ {W : Type 0} where
  abbrev pub respond : UnixTime → StoredQuote W → SourceResponse W
  respond now quote = record {
    quote = quote;
    age_seconds = age_seconds quote.last_success_at_unix now;
    freshness = classify quote.source quote.last_success_at_unix now;
  }

  abbrev pub key : SourceResponse W → Option UnixTime
  key r = r.quote.last_success_at_unix

  -- `max_by_key`, which keeps the later of two equal ones.
  unfoldable pub newest_from : SourceResponse W → List (SourceResponse W) → SourceResponse W
  newest_from best [] = best
  newest_from best (r ∷ rs) = newest_from (if key_gt (key best) (key r) then best else r) rs

  unfoldable pub newest : List (SourceResponse W) → Option (SourceResponse W)
  unfolding newest_from
  newest [] = none
  newest (r ∷ rs) = some (newest_from r rs)

  -- The filter of a provider's fresh quotes.
  abbrev pub is_fresh_from : UpstreamSource → SourceResponse W → Bool
  is_fresh_from p r = r.quote.source == name p && is_fresh_tag r.freshness

  unfoldable pub contributor : List (SourceResponse W) → UpstreamSource → Option (SourceResponse W)
  unfolding newest
  contributor sources p = newest (keep (is_fresh_from p) sources)

  -- `filter_map`.
  abbrev pub push_some :
      Option (SourceResponse W) → List (SourceResponse W) → List (SourceResponse W)
  push_some none rs = rs
  push_some (some r) rs = r ∷ rs

  unfoldable pub contributors_of :
      List (SourceResponse W) → List UpstreamSource → List (SourceResponse W)
  unfolding contributor
  contributors_of sources [] = []
  contributors_of sources (p ∷ ps) = push_some (contributor sources p) (contributors_of sources ps)

  abbrev pub price : SourceResponse W → W
  price r = r.quote.price_usd

module _ {W : Type 0} ⦃f : Float64 W⦄ where
  -- `price_usd.is_finite() && price_usd > 0.0`.
  abbrev pub is_usable : StoredQuote W → Bool
  is_usable quote = f.is_finite quote.price_usd && f.lt f.zero quote.price_usd

  unfoldable pub responses : List (StoredQuote W) → UnixTime → List (SourceResponse W)
  responses quotes now = map (respond now) (keep is_usable quotes)

  -- The running mean of `average_price`: `count` prices are in `average`.
  unfoldable pub mean_from : W → ℕ → List (SourceResponse W) → W
  mean_from average count [] = average
  mean_from average count (r ∷ rs) =
      mean_from (f.add average (f.div (f.sub (price r) average) (f.of_ℕ (count + 1)))) (count + 1)
        rs

  unfoldable pub average_of : List (SourceResponse W) → Option W
  unfolding mean_from
  average_of [] = none
  average_of (r ∷ rs) = some (mean_from (price r) 1 rs)

  unfoldable pub spread_of : List (SourceResponse W) → Option W
  spread_of [] = none
  spread_of (r ∷ rs) = some (
      f.sub (fold f.max f.neg_infinity (map price (r ∷ rs)))
        (fold f.min f.infinity (map price (r ∷ rs))))

pub record QuoteEvaluation (W : Type 0) : Type 0 where
  pub sources : List (SourceResponse W)
  pub average_price : Option W
  pub spread : Option W
  pub status : PriceStatus
  pub coverage : AggregateCoverage

unfoldable pub status_of : ℕ → Bool → Bool → PriceStatus
status_of fresh_count healthy no_sources =
    if eq_ℕ fresh_count source_count && healthy
    then live
    else if not (eq_ℕ fresh_count 0)
    then degraded
    else if not no_sources
    then stale
    else unavailable

module _ {W : Type 0} ⦃f : Float64 W⦄ where
  -- `evaluate_quotes`.
  unfoldable pub evaluate_quotes :
      List (StoredQuote W) → List ProviderHealth → UnixTime → QuoteEvaluation W
  unfolding responses contributors_of average_of spread_of status_of all_healthy
  evaluate_quotes quotes health now =
      let sources = responses quotes now in
      let contributors = contributors_of sources all_sources in
      record {
        sources = sources;
        average_price = average_of contributors;
        spread = spread_of contributors;
        status = status_of (length contributors) (all_healthy health) (is_empty sources);
        coverage = record {
          configured_source_count = source_count;
          fresh_source_count = length contributors;
          contributing_sources = map (λ r. r.quote.source) contributors;
        };
      }
