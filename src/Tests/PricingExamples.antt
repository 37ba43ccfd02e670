-- ===== src/Tests/PricingExamples.antt =====
-- One refresh from a recorded network, with small stand-ins for the libraries.
use text.Mathlib.Text.{◌==◌}
use bitcoin_price_tracker.Prelude.{
  ◌≡◌, ◌↔◌, refl, true, false, not, List, [], ◌∷◌, Option, none, some, String, pos, arith,
  if◌then◌else◌, keep, map, leb, is_empty, ◌&&◌,
}
use bitcoin_price_tracker.Prelude.Results.{Result, ok, err, or_else}
use bitcoin_price_tracker.Time.{from_secs}
use bitcoin_price_tracker.Models.{StoredQuote, SnapshotRecord, spot, last_trade}
use bitcoin_price_tracker.Source.{coinbase, gemini}
use bitcoin_price_tracker.Errors.{delay, Texts, display}
use bitcoin_price_tracker.Errors.Retry.{parse_retry_after}
use bitcoin_price_tracker.Freshness.{is_usable}
use bitcoin_price_tracker.Refresh.{RefreshPlan}
use bitcoin_price_tracker.Storage.{Stored, Json, Database, constraint_failed}
use bitcoin_price_tracker.Storage.Commit.{is_exact}
use bitcoin_price_tracker.Storage.Read.{read_snapshot}
use bitcoin_price_tracker.Pricing.{Bytes, Libraries, done, chunk, Response}
use bitcoin_price_tracker.Pricing.Decode.{decode_response}
use bitcoin_price_tracker.Pricing.Payload.{price_of, fetch_round_robin_source, coinbase_price}
use bitcoin_price_tracker.Pricing.Merge.{merge_snapshot_sources, summarize_prices, stored_quotes}
use bitcoin_price_tracker.Pricing.Refresh.{
  Network, fetch_selected_sources, refreshed_of, failures_of, snapshot_of, refresh_snapshot,
}
use bitcoin_price_tracker.Pricing.Accepted.{IsQuoted, IsPriceOf, price_of_iff}
use bitcoin_price_tracker.Pricing.Bounded.{whole, IsDeclared, IsDecoded, decode_response_iff}
use bitcoin_price_tracker.Pricing.Merged.{first_of, last_of, first_of-merge_snapshot_sources}
use bitcoin_price_tracker.Pricing.Saved.{
  AllStorable, refresh_snapshot-saves, refresh_snapshot-refused,
}
use bitcoin_price_tracker.Tests.{Dollars, usd, dollars, Dollars-IsFloat}

pub data Fault : Type 0 where
  fault : Fault

-- JSON with the values that the payloads of Coinbase need.
pub data Value : Type 0 where
  word : String → Value
  member : String → Value → Value → Value
  nothing : Value

abbrev pub get : Value → String → Option Value
get (member key value rest) asked = if key == asked then some value else get rest asked
get _ asked = none

abbrev pub as_str : Value → Option String
as_str (word s) = some s
as_str _ = none

abbrev pub quoted : Value
quoted =
    member "data" (member "currency" (word "USD") (member "amount" (word "61000") nothing)) nothing

abbrev pub from_slice : Bytes → Result Fault Value
from_slice [] = err fault
from_slice (b ∷ bs) = ok quoted

abbrev pub parse_f64 : String → Option Dollars
parse_f64 s = if s == "61000" then some (usd 61000) else none

abbrev pub lib : Libraries Fault String Fault Value Dollars
lib = record {
  is_timeout = λ e. true;
  is_success = λ status. leb 200 status && leb status 299;
  to_str = some;
  parse_http_date = λ s. none;
  from_slice = from_slice;
  get = get;
  as_f64 = λ v. none;
  as_str = as_str;
  as_array = λ v. none;
  parse_f64 = parse_f64;
}

abbrev pub texts : Texts
texts = record { of_status = λ s. "status"; of_u64 = λ n. "7"; of_date = λ t. "" }

price_of_example :
    (price_of lib coinbase quoted ≡ ok (record { source = "Coinbase"; price_usd = usd 61000 })) ↔ (
      IsQuoted lib coinbase quoted (usd 61000)
      × IsPriceOf lib coinbase (record { source = "Coinbase"; price_usd = usd 61000 }))
price_of_example =
    price_of_iff lib coinbase quoted (record { source = "Coinbase"; price_usd = usd 61000 })

abbrev pub answer : Response Fault String
answer = record {
  status = 200;
  retry_after = none;
  content_length = some 2;
  body = chunk (b'{' ∷ []) (chunk (b'}' ∷ []) done);
}

decode_response_example : (decode_response lib coinbase answer ≡ ok quoted) ↔ (
    (lib.is_success answer.status ≡ true)
    × IsDeclared lib coinbase answer.content_length
    × IsDecoded lib coinbase (whole answer.body) quoted)
decode_response_example = decode_response_iff lib coinbase answer quoted

abbrev pub unavailable : Response Fault String
unavailable = record answer { status = 620 }

abbrev pub network : Network Fault String
network = record {
  sent = λ p. elim p [ coinbase ↦ ok answer | _ ↦ ok unavailable ];
  attempted_at = λ p. pos 100;
  answered_at = λ p. pos 101;
}

abbrev pub kraken_quote : StoredQuote Dollars
kraken_quote = record {
  source = "Kraken";
  price_usd = usd 60000;
  last_success_at_unix = some (pos 50);
  quote_kind = last_trade;
}

abbrev pub latest : SnapshotRecord Dollars
latest = record {
  fetched_at_unix = pos 50;
  sources = kraken_quote ∷ [];
  average_price = some (usd 60000);
  spread = some (usd 0);
  warnings = [];
  refreshed_source = some "Kraken";
}

abbrev coinbase_quote : StoredQuote Dollars
coinbase_quote = record kraken_quote { source = "Coinbase"; quote_kind = spot }

first_of-merge_example :
    first_of "Kraken" (merge_snapshot_sources (some latest) (coinbase_quote ∷ []))
    ≡ or_else
        (last_of "Kraken" (coinbase_quote ∷ []))
        (last_of "Kraken" (keep is_usable (stored_quotes (some latest))))
first_of-merge_example =
    first_of-merge_snapshot_sources (some latest) (coinbase_quote ∷ []) "Kraken"

merge_example :
    merge_snapshot_sources (some latest) (coinbase_quote ∷ []) ≡ coinbase_quote ∷ kraken_quote ∷ []
unfolding merge_snapshot_sources
merge_example = refl

abbrev pub json : Json
json = record {
  to_string = λ ws. if is_empty ws then "[]" else "[..]";
  from_str = λ s. if s == "[]" then some [] else none;
}

abbrev pub plan : RefreshPlan
plan = record { sources = coinbase ∷ []; full_refresh = false; generation = 0 }

abbrev everything : RefreshPlan
everything = record { sources = coinbase ∷ gemini ∷ []; full_refresh = false; generation = 0 }

abbrev pub database : Database Dollars
database = record { snapshots = []; last_id = 0; source_prices = []; provider_health = [] }

abbrev refreshed : List (StoredQuote Dollars)
refreshed = refreshed_of (fetch_selected_sources lib texts network plan.sources)

pub decoded_here :
    let failures = failures_of (fetch_selected_sources lib texts network plan.sources) in
    json.from_str (json.to_string (map (display texts) failures))
    ≡ some (map (display texts) failures)
unfolding fetch_selected_sources fetch_round_robin_source coinbase_price
decoded_here = refl

pub average_here :
    is_exact (summarize_prices (merge_snapshot_sources (some latest) refreshed)).0 ≡ true
unfolding fetch_selected_sources fetch_round_robin_source coinbase_price merge_snapshot_sources
    summarize_prices
average_here = refl

pub spread_here :
    is_exact (summarize_prices (merge_snapshot_sources (some latest) refreshed)).1 ≡ true
unfolding fetch_selected_sources fetch_round_robin_source coinbase_price merge_snapshot_sources
    summarize_prices
spread_here = refl

storable_here :
    AllStorable
      (refresh_snapshot lib texts network json (pos 102) (some latest) plan database).1.failures
unfolding refresh_snapshot fetch_selected_sources fetch_round_robin_source coinbase_price
storable_here = tt

unstorable_there :
    AllStorable
      (refresh_snapshot lib texts network json
        (pos 102)
        (some latest)
        everything
        database).1.failures
    → ⊥
unfolding refresh_snapshot fetch_selected_sources fetch_round_robin_source coinbase_price
unstorable_there h = omega (arith, h.0.1)

refresh_snapshot-saves_example :
    let results = fetch_selected_sources lib texts network plan.sources in
    let refresh = refresh_snapshot lib texts network json (pos 102) (some latest) plan database in
    (refresh.1.stored ≡ ok (not (is_empty (refreshed_of results))))
    × (read_snapshot json refresh.0 ≡ (
        if is_empty (refreshed_of results)
        then read_snapshot json database
        else Stored.ok (
            snapshot_of texts
              (pos 102)
              (some latest)
              (refreshed_of results)
              (failures_of results))))
refresh_snapshot-saves_example =
    refresh_snapshot-saves lib texts network Dollars-IsFloat json (pos 102) (some latest) plan
      database refl decoded_here average_here spread_here storable_here

refresh_snapshot-refused_example :
    let refresh =
      refresh_snapshot lib texts network json (pos 102) (some latest) everything database in
    (refresh.1.stored ≡ err constraint_failed) × (refresh.0 ≡ database)
refresh_snapshot-refused_example =
    refresh_snapshot-refused lib texts network Dollars-IsFloat json (pos 102) (some latest)
      everything database refl unstorable_there

abbrev retry : String
retry = " 20 "

retry_of_20 : parse_retry_after {H = String} some (λ s. none) retry ≡ some (delay (from_secs 20))
unfolding parse_retry_after
retry_of_20 = refl
