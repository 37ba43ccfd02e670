-- ===== src/Pricing/Refresh.antt =====
-- `fetch_selected_sources` and `refresh_snapshot` of src/pricing.rs: one refresh, from the requests to
-- the transaction that stores it.
use bitcoin_price_tracker.Prelude.{
  Bool, not, List, [], ◌∷◌, map, Option, none, some, String, if◌then◌else◌, ◌==◌, is_empty, length,
}
use bitcoin_price_tracker.Prelude.Results.{Result, ok, err}
use bitcoin_price_tracker.Time.{UnixTime}
use bitcoin_price_tracker.Float.{Float64}
use bitcoin_price_tracker.Models.{
  SourcePrice, StoredQuote, LastAttempt, success, failure, ProviderHealth, SnapshotRecord,
}
use bitcoin_price_tracker.Source.{UpstreamSource, all_sources, source_count, name, is_chosen}
use bitcoin_price_tracker.Errors.{ProviderError, Texts, display, health_error}
use bitcoin_price_tracker.Refresh.{RefreshPlan}
use bitcoin_price_tracker.Storage.{StoreError, Stored, Json, Database}
use bitcoin_price_tracker.Storage.Write.{store_refresh}
use bitcoin_price_tracker.Pricing.{Libraries, Response, quote_kind}
use bitcoin_price_tracker.Pricing.Payload.{fetch_round_robin_source}
use bitcoin_price_tracker.Pricing.Merge.{merge_snapshot_sources, summarize_prices}

-- What happens to the requests of a refresh: the answers, and the clock when each request starts and
-- when its answer has been read.
pub record Network (R H : Type 0) : Type 0 where
  pub sent : UpstreamSource → Result R (Response R H)
  pub attempted_at : UpstreamSource → UnixTime
  pub answered_at : UpstreamSource → UnixTime

pub record RefreshOutcome (R J : Type 0) : Type 0 where
  pub failures : List (ProviderError R J)
  pub stored : Result StoreError Bool

-- The quotes and the errors among the results, in their order.
module _ {O E Q : Type 0} where
  abbrev pub refreshed_of : List (O × Result E Q) → List Q
  refreshed_of [] = []
  refreshed_of ((observation, ok quote) ∷ rest) = quote ∷ refreshed_of rest
  refreshed_of ((observation, err error) ∷ rest) = refreshed_of rest

  abbrev pub failures_of : List (O × Result E Q) → List E
  failures_of [] = []
  failures_of ((observation, ok quote) ∷ rest) = failures_of rest
  failures_of ((observation, err error) ∷ rest) = error ∷ failures_of rest

module _ {R J W : Type 0} where
  abbrev pub last_attempt_of :
      Texts → UnixTime → Result (ProviderError R J) (SourcePrice W) → LastAttempt
  last_attempt_of texts at (ok price) = success at
  last_attempt_of texts at (err error) = failure at (health_error texts error)

  abbrev pub quote_of :
      UpstreamSource
      → UnixTime
      → Result (ProviderError R J) (SourcePrice W)
      → Result (ProviderError R J) (StoredQuote W)
  quote_of source at (ok price) = ok (record {
    source = price.source;
    price_usd = price.price_usd;
    last_success_at_unix = some at;
    quote_kind = quote_kind source;
  })
  quote_of source at (err error) = err error

module _ {W : Type 0} where
  abbrev pub refreshed_source : List (StoredQuote W) → String
  refreshed_source (quote ∷ []) = quote.source
  refreshed_source quotes = if length quotes == source_count then "all" else "partial"

-- `.map(|()| has_quotes).map_err(RefreshError)`.
abbrev pub outcome_of : Bool → Stored (Unit {0}) → Result StoreError Bool
outcome_of has_quotes (Stored.ok _) = ok has_quotes
outcome_of has_quotes (Stored.err e) = err e

module _ {R J W : Type 0} ⦃f : Float64 W⦄ (texts : Texts) where
  -- The snapshot that is saved if there are quotes; `now` is the clock then.
  abbrev pub merged_snapshot :
      UnixTime
      → Option (SnapshotRecord W)
      → List (StoredQuote W)
      → List (ProviderError R J)
      → SnapshotRecord W
  merged_snapshot now latest refreshed failures =
      let sources = merge_snapshot_sources latest refreshed in
      record {
        fetched_at_unix = now;
        sources = sources;
        average_price = (summarize_prices sources).0;
        spread = (summarize_prices sources).1;
        warnings = map (display texts) failures;
        refreshed_source = some (refreshed_source refreshed);
      }

  abbrev pub snapshot_of :
      UnixTime
      → Option (SnapshotRecord W)
      → List (StoredQuote W)
      → List (ProviderError R J)
      → Option (SnapshotRecord W)
  snapshot_of now latest [] failures = none
  snapshot_of now latest (q ∷ qs) failures = some (merged_snapshot now latest (q ∷ qs) failures)

module _ {R H J V W : Type 0} ⦃f : Float64 W⦄ (lib : Libraries R H J V W) (texts : Texts)
    (network : Network R H) where
  abbrev pub Observed : Type 0
  Observed = ProviderHealth × Result (ProviderError R J) (StoredQuote W)

  abbrev pub result_of : UpstreamSource → Result (ProviderError R J) (SourcePrice W)
  result_of source = fetch_round_robin_source lib source (network.sent source)

  -- `fetch`, for a provider of the plan.
  abbrev pub observe : UpstreamSource → Observed
  observe source = (
    record {
      source = name source;
      last_attempt = last_attempt_of texts (network.attempted_at source) (result_of source);
    },
    quote_of source (network.answered_at source) (result_of source),
  )

  -- The four fetches, flattened.
  unfoldable pub fetch_from : List UpstreamSource → List UpstreamSource → List Observed
  fetch_from sources [] = []
  fetch_from sources (p ∷ ps) =
      let rest = fetch_from sources ps in if is_chosen p sources then observe p ∷ rest else rest

  unfoldable pub fetch_selected_sources : List UpstreamSource → List Observed
  unfolding fetch_from
  fetch_selected_sources sources = fetch_from sources all_sources

  unfoldable pub refresh_snapshot :
      Json
      → UnixTime
      → Option (SnapshotRecord W)
      → RefreshPlan
      → Database W
      → Database W × RefreshOutcome R J
  unfolding fetch_selected_sources
  refresh_snapshot json now latest plan db =
      let results = fetch_selected_sources plan.sources in
      let refreshed = refreshed_of results in
      let failures = failures_of results in
      let saved =
        store_refresh json (snapshot_of texts now latest refreshed failures)
          (map (λ r. r.0) results) db in
      (
        saved.0,
        record { failures = failures; stored = outcome_of (not (is_empty refreshed)) saved.1 },
      )
