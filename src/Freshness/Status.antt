-- ===== src/Freshness/Status.antt =====
-- What an evaluation reports: which providers contribute, and the status of the price.
use bitcoin_price_tracker.Prelude.{
  ◌≤◌, ◌≡◌, refl, sym, ap, ◌∙◌, Bool, true, false, not, ◌&&◌, List, [], ◌∷◌, map, Option, none,
  some, arith, if◌then◌else◌, length, any, all, keep, is_empty, length-map,
}
use bitcoin_price_tracker.Time.{UnixTime}
use bitcoin_price_tracker.Float.{Float64}
use bitcoin_price_tracker.Models.{
  StoredQuote, ProviderHealth, SourceResponse, live, degraded, stale, unavailable,
}
use bitcoin_price_tracker.Source.{UpstreamSource, all_sources, source_count, name}
use bitcoin_price_tracker.Freshness.{
  is_fresh_from, contributors_of, responses, all_healthy, status_of, evaluate_quotes, average_of,
  spread_of,
}
use bitcoin_price_tracker.Freshness.Newest.{contributors_of-names}

abbrev pub is_some {ℓ} : {A : Type ℓ} → Option A → Bool
is_some none = false
is_some (some a) = true

module _ {W : Type 0} where
  -- Some usable quote of the provider is fresh.
  abbrev pub contributes : List (SourceResponse W) → UpstreamSource → Bool
  contributes sources p = any (is_fresh_from p) sources

  length-contributors_of :
      (sources : List (SourceResponse W)) (ps : List UpstreamSource)
      → length (contributors_of sources ps) ≡ length (keep (contributes sources) ps)
  length-contributors_of sources ps =
      sym (length-map (λ r. r.quote.source) (contributors_of sources ps))
      ∙ ap length (contributors_of-names sources ps)
      ∙ length-map name (keep (contributes sources) ps)

module _ {W : Type 0} ⦃f : Float64 W⦄ where
  average_of-some_iff :
      (rs : List (SourceResponse W))
      → (is_some (average_of rs) ≡ not (is_empty rs)) × (is_some (spread_of rs) ≡ not (is_empty rs))
  unfolding average_of spread_of
  average_of-some_iff [] = (refl, refl)
  average_of-some_iff (r ∷ rs) = (refl, refl)

is_empty_by_length {ℓ κ} :
    {A : Type ℓ} {B : Type κ} (xs : List A) (ys : List B)
    → length xs ≡ length ys
    → is_empty xs ≡ is_empty ys
is_empty_by_length [] [] h = refl
is_empty_by_length [] (y ∷ ys) h = absurd (omega arith)
is_empty_by_length (x ∷ xs) [] h = absurd (omega arith)
is_empty_by_length (x ∷ xs) (y ∷ ys) h = refl

module _ {W : Type 0} ⦃f : Float64 W⦄ (quotes : List (StoredQuote W)) (health : List ProviderHealth)
    (now : UnixTime) where
  -- The coverage names exactly the configured providers with a usable fresh quote, each once, in the
  -- configured order, and counts them: four at most, whatever is stored.
  pub evaluate_quotes-coverage :
      ((evaluate_quotes quotes health now).coverage.contributing_sources
        ≡ map name (keep (contributes (responses quotes now)) all_sources))
      × ((evaluate_quotes quotes health now).coverage.fresh_source_count
          ≡ length (evaluate_quotes quotes health now).coverage.contributing_sources)
      × ((evaluate_quotes quotes health now).coverage.fresh_source_count ≤ source_count)
  unfolding evaluate_quotes
  evaluate_quotes-coverage =
      let n = length-contributors_of (responses quotes now) all_sources in
      (
        contributors_of-names (responses quotes now) all_sources,
        sym (length-map (λ r. r.quote.source) (contributors_of (responses quotes now) all_sources)),
        ground (arith, n),
      )

  -- The price is live exactly when all four providers contribute a fresh quote and the last attempt
  -- of each succeeded, degraded if only some contribute or an attempt failed, stale if usable
  -- quotes are stored and none is fresh, and unavailable if none is usable.
  pub evaluate_quotes-status : (evaluate_quotes quotes health now).status ≡ (
      if all (contributes (responses quotes now)) all_sources && all_healthy health
      then live
      else if any (contributes (responses quotes now)) all_sources
      then degraded
      else if is_empty (responses quotes now)
      then unavailable
      else stale)
  unfolding evaluate_quotes status_of
  evaluate_quotes-status =
      rw (length-contributors_of (responses quotes now) all_sources) (ground arith)

  -- Average and spread are reported exactly when some provider contributes a fresh quote.
  pub evaluate_quotes-average :
      (is_some (evaluate_quotes quotes health now).average_price
        ≡ any (contributes (responses quotes now)) all_sources)
      × (is_some (evaluate_quotes quotes health now).spread
          ≡ any (contributes (responses quotes now)) all_sources)
  unfolding evaluate_quotes
  evaluate_quotes-average =
      let cs = contributors_of (responses quotes now) all_sources in
      let (a, s) = average_of-some_iff cs in
      let e = is_empty_by_length cs _ (length-contributors_of (responses quotes now) all_sources) in
      let k : not (is_empty (keep (contributes (responses quotes now)) all_sources))
          ≡ any (contributes (responses quotes now)) all_sources =
        ground arith in
      (a ∙ ap not e ∙ k, s ∙ ap not e ∙ k)
