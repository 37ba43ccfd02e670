-- ===== src/Handlers/Served.antt =====
-- What a price request answers after a refresh that was stored.
use bitcoin_price_tracker.Prelude.{
  true, false, List, [], ◌∷◌, map, Option, some, if◌then◌else◌, is_empty, all, ◌≡◌, refl, ap, ◌∙◌,
}
use bitcoin_price_tracker.Time.{UnixTime}
use bitcoin_price_tracker.Float.{Float64, IsFloat}
use bitcoin_price_tracker.Errors.{Texts, ProviderError, display}
use bitcoin_price_tracker.Models.{StoredQuote, SnapshotRecord, ProviderHealth}
use bitcoin_price_tracker.Refresh.{RefreshPlan}
use bitcoin_price_tracker.Freshness.{responses, evaluate_quotes}
use bitcoin_price_tracker.Storage.{ok, Json, Database, sort_by_source}
use bitcoin_price_tracker.Storage.Read.{load_price_state}
use bitcoin_price_tracker.Storage.Write.{store_refresh, health_row}
use bitcoin_price_tracker.Storage.RoundTrip.{is_storable, put_all, IsConsistent}
use bitcoin_price_tracker.Storage.Commit.{is_exact, load_price_state-store_refresh}
use bitcoin_price_tracker.Pricing.{Libraries}
use bitcoin_price_tracker.Pricing.Merge.{merge_snapshot_sources, summarize_prices}
use bitcoin_price_tracker.Pricing.Refresh.{
  Network, fetch_selected_sources, refreshed_of, failures_of, merged_snapshot, snapshot_of,
  refresh_snapshot,
}
use bitcoin_price_tracker.Pricing.Reload.{sort_by_source-merge_snapshot_sources}
use bitcoin_price_tracker.Pricing.Positive.{is_saved, merge_snapshot_sources-is_refused}
use bitcoin_price_tracker.Pricing.Saved.{AllStorable, selected_saved, selected_storable}
use bitcoin_price_tracker.Handlers.{AppState, Moment, cached_prices}

module _ {W : Type 0} ⦃f : Float64 W⦄ where
  -- The parts of an answer that depend on the store alone.
  abbrev pub Serves : Moment W → AppState → SnapshotRecord W → List ProviderHealth → Type 0
  Serves m s snapshot health =
      let answer = (cached_prices m s).1 in
      (answer.0 ≡ (if is_empty (responses snapshot.sources m.now_unix) then 503 else 200))
      × (answer.1.sources ≡ responses snapshot.sources m.now_unix)
      × (answer.1.fetched_at_unix ≡ snapshot.fetched_at_unix)
      × (answer.1.provider_health ≡ health)

  serves :
      (m : Moment W) (s : AppState) (snapshot : SnapshotRecord W) (health : List ProviderHealth)
      → m.loaded ≡ ok (record { snapshot = some snapshot; provider_health = health })
      → Serves m s snapshot health
  unfolding cached_prices evaluate_quotes
  serves m s snapshot health e = rw e (refl, refl, refl, refl)

module _ {R H J V W : Type 0} ⦃f : Float64 W⦄ (lib : Libraries R H J V W) (texts : Texts)
    (network : Network R H) (laws : IsFloat W) (json : Json) (now : UnixTime)
    (latest : Option (SnapshotRecord W)) where
  loaded_after :
      (qs : List (StoredQuote W)) (failures : List (ProviderError R J))
      (health known : List ProviderHealth) (db : Database W)
      → is_empty qs ≡ false
      → json.from_str (json.to_string (map (display texts) failures))
        ≡ some (map (display texts) failures)
      → IsConsistent db
      → db.provider_health ≡ map health_row known
      → all is_saved qs ≡ true
      → is_exact (summarize_prices (merge_snapshot_sources latest qs)).0 ≡ true
      → is_exact (summarize_prices (merge_snapshot_sources latest qs)).1 ≡ true
      → all is_storable health ≡ true
      → load_price_state json
          (store_refresh json (snapshot_of texts now latest qs failures) health db).0
        ≡ ok (record {
          snapshot = some (merged_snapshot texts now latest qs failures);
          provider_health = sort_by_source (λ h. h.source) (put_all health known);
        })
  loaded_after [] failures health known db some_quote decoded c rows saved average spread storable =
      cc
  loaded_after (q ∷ qs) failures health known db some_quote decoded c rows saved average spread
        storable =
      let whole = merged_snapshot texts now latest (q ∷ qs) failures in
      let kept = merge_snapshot_sources-is_refused laws latest (q ∷ qs) saved in
      let health_after = sort_by_source (λ (h : ProviderHealth). h.source) (put_all health known) in
      (load_price_state-store_refresh json whole health known db decoded c rows kept average spread
        storable).1
      ∙ ap
          (λ sources. ok (record {
            snapshot = some (record whole { sources = sources });
            provider_health = health_after;
          }))
          (sort_by_source-merge_snapshot_sources latest (q ∷ qs))

  -- After a refresh that got a quote and whose failures all have a status that the store admits, a
  -- price request that reads the database it left serves exactly the usable ones of the merged quotes,
  -- 503 if there is none and 200 otherwise, the time of the refresh, and the known health with that of
  -- the providers that were asked in place of the earlier one. The JSON library reads back what it
  -- wrote, no average and no spread is NaN, the price rows belong to a stored snapshot and the health
  -- rows are those of known records.
  pub cached_prices-refresh_snapshot :
      (plan : RefreshPlan) (known : List ProviderHealth) (db : Database W) (m : Moment W)
      (s : AppState)
      → let results = fetch_selected_sources lib texts network plan.sources in
        let merge = merge_snapshot_sources latest (refreshed_of results) in
        is_empty (refreshed_of results) ≡ false
        → json.from_str (json.to_string (map (display texts) (failures_of results)))
          ≡ some (map (display texts) (failures_of results))
        → IsConsistent db
        → db.provider_health ≡ map health_row known
        → is_exact (summarize_prices merge).0 ≡ true
        → is_exact (summarize_prices merge).1 ≡ true
        → AllStorable (failures_of results)
        → m.loaded
          ≡ load_price_state json (refresh_snapshot lib texts network json now latest plan db).0
        → Serves m s
            (merged_snapshot texts now latest (refreshed_of results) (failures_of results))
            (sort_by_source (λ h. h.source) (put_all (map (λ r. r.0) results) known))
  unfolding refresh_snapshot
  cached_prices-refresh_snapshot plan known db m s some_quote decoded c rows average spread storable
        e =
      let results = fetch_selected_sources lib texts network plan.sources in
      serves m s _ _ (
        e
        ∙ loaded_after (refreshed_of results) (failures_of results) (map (λ r. r.0) results) known
            db some_quote decoded c rows (selected_saved lib texts network plan.sources) average
            spread ((selected_storable lib texts network plan.sources).1 storable))
