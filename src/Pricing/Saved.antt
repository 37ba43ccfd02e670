-- ===== src/Pricing/Saved.antt =====
-- What one refresh leaves in the store.
use bitcoin_price_tracker.Prelude.{
  Bool, true, false, not, List, [], ◌∷◌, map, Option, some, if◌then◌else◌, all, All, is_empty, ◌≡◌,
  ◌↔◌, refl, ap, ◌∙◌, arith, Bool-cases, inl, inr,
}
use bitcoin_price_tracker.Prelude.Results.{Result, ok, err}
use bitcoin_price_tracker.Time.{UnixTime}
use bitcoin_price_tracker.Float.{Float64, IsFloat}
use bitcoin_price_tracker.Errors.{Texts, ProviderError, health_error, display}
use bitcoin_price_tracker.Errors.Health.{HasStoredStatus, storable_iff}
use bitcoin_price_tracker.Models.{StoredQuote, SourcePrice, SnapshotRecord, ProviderHealth}
use bitcoin_price_tracker.Source.{UpstreamSource, all_sources, name, is_chosen}
use bitcoin_price_tracker.Refresh.{RefreshPlan}
use bitcoin_price_tracker.Storage.{Stored, constraint_failed, Json, Database}
use bitcoin_price_tracker.Storage.Read.{read_snapshot}
use bitcoin_price_tracker.Storage.Write.{store_refresh}
use bitcoin_price_tracker.Storage.RoundTrip.{is_storable, IsConsistent}
use bitcoin_price_tracker.Storage.Commit.{is_exact, read_snapshot-with_snapshot}
use bitcoin_price_tracker.Storage.Failure.{store_refresh-refused}
use bitcoin_price_tracker.Storage.Saved.{
  rows_after, store_refresh-saves, store_refresh-saves_health, store_refresh-refuses_health,
}
use bitcoin_price_tracker.Pricing.{Libraries}
use bitcoin_price_tracker.Pricing.Merge.{merge_snapshot_sources, summarize_prices}
use bitcoin_price_tracker.Pricing.Refresh.{
  Network, Observed, result_of, fetch_from, fetch_selected_sources, refreshed_of, failures_of,
  quote_of, last_attempt_of, merged_snapshot, snapshot_of, refresh_snapshot,
}
use bitcoin_price_tracker.Pricing.Reload.{sort_by_source-merge_snapshot_sources}
use bitcoin_price_tracker.Pricing.Positive.{
  is_saved, merge_snapshot_sources-is_refused, fetch_from-all_saved,
}

module _ {R J : Type 0} where
  -- The statuses of the failures are ones that the store admits.
  abbrev pub AllStorable : List (ProviderError R J) → Type 0
  AllStorable failures = All (λ (e : ProviderError R J). HasStoredStatus e.kind) failures

both_iff :
    {P Q : Type 0} {b c : Bool}
    → (b ≡ true) ↔ P
    → (c ≡ true) ↔ Q
    → ((if b then c else false) ≡ true) ↔ (P × Q)
both_iff h k = ground (arith, h, k)

module _ {R H J V W : Type 0} ⦃f : Float64 W⦄ (lib : Libraries R H J V W) (texts : Texts)
    (network : Network R H) where
  storable_observation :
      (p : UpstreamSource) (attempted answered : UnixTime)
      (result : Result (ProviderError R J) (SourcePrice W))
      (rest : List (Observed lib texts network))
      → (all is_storable (map (λ r. r.0) rest) ≡ true) ↔ AllStorable (failures_of rest)
      → (all is_storable (
            record { source = name p; last_attempt = last_attempt_of texts attempted result }
            ∷ map (λ r. r.0) rest)
          ≡ true)
        ↔ AllStorable (
            failures_of (
              (
                record { source = name p; last_attempt = last_attempt_of texts attempted result },
                quote_of p answered result,
              )
              ∷ rest))
  unfolding health_error
  storable_observation p attempted answered (ok price) rest h = h
  storable_observation p attempted answered (err e) rest h = both_iff (storable_iff e.kind) h

  storable_observations :
      (sources ps : List UpstreamSource)
      → (all is_storable (map (λ r. r.0) (fetch_from lib texts network sources ps)) ≡ true)
        ↔ AllStorable (failures_of (fetch_from lib texts network sources ps))
  unfolding fetch_from
  storable_observations sources [] = (λ h. tt, λ h. refl)
  storable_observations sources (p ∷ ps) =
      let ih = storable_observations sources ps in
      elim (Bool-cases (is_chosen p sources)) [
        | inl e ↦ rw e (
            storable_observation p (network.attempted_at p) (network.answered_at p)
              (result_of lib texts network p) (fetch_from lib texts network sources ps) ih)
        | inr e ↦ rw e ih
      ]

  pub selected_saved :
      (sources : List UpstreamSource)
      → all is_saved (refreshed_of (fetch_selected_sources lib texts network sources)) ≡ true
  unfolding fetch_selected_sources
  selected_saved sources = fetch_from-all_saved lib texts network sources all_sources

  pub selected_storable :
      (sources : List UpstreamSource)
      → (all is_storable (map (λ r. r.0) (fetch_selected_sources lib texts network sources)) ≡ true)
        ↔ AllStorable (failures_of (fetch_selected_sources lib texts network sources))
  unfolding fetch_selected_sources
  selected_storable sources = storable_observations sources all_sources

  module _ (laws : IsFloat W) (json : Json) (now : UnixTime) (latest : Option (SnapshotRecord W))
      (plan : RefreshPlan) (db : Database W) (c : IsConsistent db) where
    abbrev results : List (Observed lib texts network)
    results = fetch_selected_sources lib texts network plan.sources

    -- The database and the outcome of the refresh, by what it got.
    refused :
        (qs : List (StoredQuote W)) (failures : List (ProviderError R J))
        (health : List ProviderHealth)
        → all is_saved qs ≡ true
        → all is_storable health ≡ false
        → store_refresh json (snapshot_of texts now latest qs failures) health db
          ≡ (db, Stored.err constraint_failed)
    refused [] failures health saved bad = store_refresh-refuses_health json health db bad
    refused (q ∷ qs) failures health saved bad =
        let kept = merge_snapshot_sources-is_refused laws latest (q ∷ qs) saved in
        let whole = merged_snapshot texts now latest (q ∷ qs) failures in
        rw (store_refresh-refused json whole health db c (rw kept (rw bad refl))) (rw kept refl)

    saves :
        (qs : List (StoredQuote W)) (failures : List (ProviderError R J))
        (health : List ProviderHealth)
        → all is_saved qs ≡ true
        → all is_storable health ≡ true
        → (store_refresh json (snapshot_of texts now latest qs failures) health db).1 ≡ Stored.ok tt
    saves [] failures health saved good = rw (store_refresh-saves_health json health db good) refl
    saves (q ∷ qs) failures health saved good =
        let kept = merge_snapshot_sources-is_refused laws latest (q ∷ qs) saved in
        let whole = merged_snapshot texts now latest (q ∷ qs) failures in
        rw (store_refresh-saves json whole health db c kept good) refl

    reads :
        (qs : List (StoredQuote W)) (failures : List (ProviderError R J))
        (health : List ProviderHealth)
        → json.from_str (json.to_string (map (display texts) failures))
          ≡ some (map (display texts) failures)
        → all is_saved qs ≡ true
        → all is_storable health ≡ true
        → is_exact (summarize_prices (merge_snapshot_sources latest qs)).0 ≡ true
        → is_exact (summarize_prices (merge_snapshot_sources latest qs)).1 ≡ true
        → read_snapshot json
            (store_refresh json (snapshot_of texts now latest qs failures) health db).0
          ≡ (if is_empty qs
              then read_snapshot json db
              else Stored.ok (snapshot_of texts now latest qs failures))
    reads [] failures health decoded saved good average spread =
        rw (store_refresh-saves_health json health db good) (unfold read_snapshot in refl)
    reads (q ∷ qs) failures health decoded saved good average spread =
        let kept = merge_snapshot_sources-is_refused laws latest (q ∷ qs) saved in
        let whole = merged_snapshot texts now latest (q ∷ qs) failures in
        let rows = rows_after health db.provider_health in
        rw (store_refresh-saves json whole health db c kept good) (
          read_snapshot-with_snapshot json whole db rows decoded average spread
          ∙ ap (λ sources. Stored.ok (some (record whole { sources = sources })))
              (sort_by_source-merge_snapshot_sources latest (q ∷ qs)))

    -- A refresh whose failures all have a status that the store admits is stored, and reports whether
    -- it brought a quote. With one, a read then returns exactly the merged snapshot; without one, the
    -- snapshot from before. The JSON library reads back what it wrote, no average and no spread is
    -- NaN, and the database before is one whose price rows belong to a stored snapshot.
    pub refresh_snapshot-saves :
        json.from_str (json.to_string (map (display texts) (failures_of results)))
          ≡ some (map (display texts) (failures_of results))
        → is_exact (summarize_prices (merge_snapshot_sources latest (refreshed_of results))).0
          ≡ true
        → is_exact (summarize_prices (merge_snapshot_sources latest (refreshed_of results))).1
          ≡ true
        → AllStorable (refresh_snapshot lib texts network json now latest plan db).1.failures
        → ((refresh_snapshot lib texts network json now latest plan db).1.stored
            ≡ ok (not (is_empty (refreshed_of results))))
          × (read_snapshot json (refresh_snapshot lib texts network json now latest plan db).0 ≡ (
              if is_empty (refreshed_of results)
              then read_snapshot json db
              else Stored.ok
                  (snapshot_of texts now latest (refreshed_of results) (failures_of results))))
    unfolding refresh_snapshot
    refresh_snapshot-saves decoded average spread storable =
        let saved = selected_saved plan.sources in
        let good = (selected_storable plan.sources).1 storable in
        (
          rw
              (saves (refreshed_of results) (failures_of results) (map (λ r. r.0) results) saved
                good)
              refl,
          reads (refreshed_of results) (failures_of results) (map (λ r. r.0) results) decoded saved
              good average spread,
        )

    -- A refresh with a failure whose status the store does not admit is not stored, and the database
    -- stays as it was. The database before is one whose price rows belong to a stored snapshot.
    pub refresh_snapshot-refused :
        (AllStorable (refresh_snapshot lib texts network json now latest plan db).1.failures → ⊥)
        → ((refresh_snapshot lib texts network json now latest plan db).1.stored
            ≡ err constraint_failed)
          × ((refresh_snapshot lib texts network json now latest plan db).0 ≡ db)
    unfolding refresh_snapshot
    refresh_snapshot-refused unstorable =
        let saved = selected_saved plan.sources in
        let observed = selected_storable plan.sources in
        let bad : all is_storable (map (λ r. r.0) results) ≡ false =
          elim (Bool-cases (all is_storable (map (λ r. r.0) results))) [
            | inl good ↦ absurd (unstorable (observed.0 good))
            | inr e ↦ e
          ] in
        rw (refused (refreshed_of results) (failures_of results) (map (λ r. r.0) results) saved bad)
          (refl, refl)
