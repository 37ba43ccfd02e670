-- ===== src/Tests/StorageExamples.antt =====
-- The store at work.
use text.Mathlib.Text.{◌==◌}
use bitcoin_price_tracker.Prelude.{
  ◌≡◌, refl, List, [], ◌∷◌, ◌++◌, map, Option, none, some, String, pos, arith, if◌then◌else◌,
}
use bitcoin_price_tracker.Models.{
  spot, StoredQuote, LastAttempt, success, ProviderHealth, SnapshotRecord,
}
use bitcoin_price_tracker.Storage.{
  Json, Database, ok, err, constraint_failed, invalid_source_price, sort_by_source, sorts_after,
}
use bitcoin_price_tracker.Storage.Write.{store_refresh, health_row}
use bitcoin_price_tracker.Storage.Read.{load_price_state}
use bitcoin_price_tracker.Storage.RoundTrip.{put_all}
use bitcoin_price_tracker.Storage.Commit.{load_price_state-store_refresh}
use bitcoin_price_tracker.Storage.Failure.{
  http_failure, store_refresh-refused, store_refresh-status,
}
use bitcoin_price_tracker.Tests.{Dollars, usd, dollars}

-- JSON for lists of at most one warning, `Kraken is late`.
abbrev written : List String → String
written [] = "[]"
written (w ∷ ws) = "[\"Kraken is late\"]"

abbrev parsed : String → Option (List String)
parsed text =
    if text == "[]"
    then some []
    else if text == "[\"Kraken is late\"]"
    then some ("Kraken is late" ∷ [])
    else none

abbrev json : Json
json = record { to_string = written; from_str = parsed }

abbrev quote : String → StoredQuote Dollars
quote source = record {
  source = source;
  price_usd = usd 61000;
  last_success_at_unix = some (pos 90);
  quote_kind = spot;
}

abbrev snapshot : SnapshotRecord Dollars
snapshot = record {
  fetched_at_unix = pos 100;
  sources = quote "Kraken" ∷ quote "Coinbase" ∷ [];
  average_price = some (usd 61000);
  spread = some (usd 0);
  warnings = "Kraken is late" ∷ [];
  refreshed_source = none;
}

abbrev kraken : LastAttempt → ProviderHealth
kraken attempt = record { source = "Kraken"; last_attempt = attempt }

abbrev known : List ProviderHealth
known = kraken LastAttempt.unknown ∷ []

abbrev attempts : List ProviderHealth
attempts = kraken (success (pos 100)) ∷ http_failure "Gemini" "HTTP 503" (pos 100) 503 ∷ []

abbrev empty_database : Database Dollars
empty_database = record {
  snapshots = [];
  last_id = 0;
  source_prices = [];
  provider_health = map health_row known;
}

load_price_state-store_refresh_example :
    ((store_refresh json (some snapshot) attempts empty_database).1 ≡ ok tt)
    × (load_price_state json (store_refresh json (some snapshot) attempts empty_database).0
        ≡ ok (record {
          snapshot =
              some (record snapshot { sources = sort_by_source (λ q. q.source) snapshot.sources });
          provider_health = sort_by_source (λ h. h.source) (put_all attempts known);
        }))
load_price_state-store_refresh_example =
    load_price_state-store_refresh json snapshot attempts known empty_database refl refl refl refl
      refl refl refl

-- The sources come back in the order of the query, with one record for each source.
order_after :
    (sort_by_source (λ q. q.source) snapshot.sources ≡ quote "Coinbase" ∷ quote "Kraken" ∷ [])
    × (put_all attempts known ≡ attempts)
unfolding sort_by_source sorts_after
order_after = (refl, refl)

store_refresh-refused_example :
    store_refresh json
      (some (record snapshot { sources = record (quote "Gemini") { price_usd = usd 0 } ∷ [] }))
      attempts
      empty_database
    ≡ (empty_database, err invalid_source_price)
store_refresh-refused_example =
    store_refresh-refused json
      (record snapshot { sources = record (quote "Gemini") { price_usd = usd 0 } ∷ [] }) attempts
      empty_database refl refl

store_refresh-status_example :
    store_refresh json
      (some snapshot)
      ((kraken (success (pos 100)) ∷ []) ++ http_failure "Gemini" "HTTP 620" (pos 100) 620 ∷ [])
      empty_database
    ≡ (empty_database, err constraint_failed)
store_refresh-status_example =
    store_refresh-status json snapshot (kraken (success (pos 100)) ∷ []) [] "Gemini" "HTTP 620"
      (pos 100) 620 empty_database refl refl (omega arith)
