-- ===== src/Storage/Read.antt =====
-- The reads of src/storage.rs: `read_snapshot`, `read_provider_health` and `load_price_state`.
use text.Mathlib.Text.{◌==◌}
use bitcoin_price_tracker.Prelude.{
  ℕ, Bool, ◌&&◌, ◌||◌, not, List, [], ◌∷◌, Option, none, some, String, if◌then◌else◌, ltb, keep,
  ltb_ℤ,
}
use bitcoin_price_tracker.Prelude.{◌==◌ as eq_ℕ}
use bitcoin_price_tracker.Models.{
  StoredQuote, LastAttempt, success, failure, ProviderHealth, SnapshotRecord, StoredPriceState,
}
use bitcoin_price_tracker.Storage.{
  bad_warnings, bad_row, Stored, ok, err, ◌>>=◌, SnapshotRow, SourceRow, HealthRow, Database, Json,
  decode_kind, decode_category, sort_by_source,
}

module _ {W : Type 0} where
  -- `ORDER BY fetched_at_unix DESC, id DESC LIMIT 1`.
  abbrev pub is_newer_row : SnapshotRow W → SnapshotRow W → Bool
  is_newer_row a b =
      ltb_ℤ b.fetched_at_unix a.fetched_at_unix
      || (not (ltb_ℤ a.fetched_at_unix b.fetched_at_unix) && ltb b.id a.id)

  unfoldable pub latest_from : SnapshotRow W → List (SnapshotRow W) → SnapshotRow W
  latest_from best [] = best
  latest_from best (r ∷ rows) = latest_from (if is_newer_row r best then r else best) rows

  unfoldable pub latest : List (SnapshotRow W) → Option (SnapshotRow W)
  unfolding latest_from
  latest [] = none
  latest (r ∷ rows) = some (latest_from r rows)

  unfoldable pub decode_quote : SourceRow W → Stored (StoredQuote W)
  unfolding decode_kind
  decode_quote r = do
    kind ← decode_kind r.quote_kind
    ok (record {
      source = r.source;
      price_usd = r.price_usd;
      last_success_at_unix = r.last_success_at_unix;
      quote_kind = kind;
    })

-- `query_map(..)` and `collect::<Result<Vec<_>, _>>()`.
abbrev pub decode_all {ℓ κ} : {A : Type ℓ} {B : Type κ} → (A → Stored B) → List A → Stored (List B)
decode_all f [] = ok []
decode_all f (x ∷ xs) = do y ← f x; ys ← decode_all f xs; ok (y ∷ ys)

-- A column that may not be NULL.
abbrev pub required {ℓ} : {A : Type ℓ} → Option A → Stored A
required none = err bad_row
required (some a) = ok a

-- The `match` on the outcome of a row of `provider_health`.
unfoldable pub decode_attempt : HealthRow → Stored LastAttempt
unfolding decode_category
decode_attempt r =
    if r.attempt_outcome == "unknown"
    then ok LastAttempt.unknown
    else if r.attempt_outcome == "success"
    then (do at ← required r.attempted_at_unix; ok (success at))
    else if r.attempt_outcome == "failure"
    then (do
      at ← required r.attempted_at_unix
      category ← decode_category r.error_category
      message ← required r.error_message
      ok (
          failure at
            (record { category = category; message = message; http_status = r.http_status })))
    else err bad_row

unfoldable pub decode_health : HealthRow → Stored ProviderHealth
unfolding decode_attempt
decode_health r = do
  attempt ← decode_attempt r
  ok (record { source = r.source; last_attempt = attempt })

unfoldable pub read_provider_health : List HealthRow → Stored (List ProviderHealth)
unfolding decode_health sort_by_source
read_provider_health rows = decode_all decode_health (sort_by_source (λ r. r.source) rows)

unfoldable pub decode_warnings : Json → String → Stored (List String)
decode_warnings json text = elim (json.from_str text) [ none ↦ err bad_warnings | some ws ↦ ok ws ]

-- The source rows of a snapshot, in the order of the query.
unfoldable pub rows_of : {W : Type 0} → ℕ → List (SourceRow W) → List (SourceRow W)
unfolding sort_by_source
rows_of id rows = sort_by_source (λ r. r.source) (keep (λ r. eq_ℕ r.snapshot_id id) rows)

module _ {W : Type 0} (json : Json) where
  unfoldable pub read_latest :
      Option (SnapshotRow W) → List (SourceRow W) → Stored (Option (SnapshotRecord W))
  unfolding decode_warnings rows_of decode_quote
  read_latest none rows = ok none
  read_latest (some r) rows = do
    warnings ← decode_warnings json r.warnings_json
    sources ← decode_all decode_quote (rows_of r.id rows)
    ok (
        some (record {
          fetched_at_unix = r.fetched_at_unix;
          sources = sources;
          average_price = r.average_price;
          spread = r.spread;
          warnings = warnings;
          refreshed_source = r.refreshed_source;
        }))

  unfoldable pub read_snapshot : Database W → Stored (Option (SnapshotRecord W))
  unfolding latest read_latest
  read_snapshot db = read_latest (latest db.snapshots) db.source_prices

  -- `load_price_state`, inside one read transaction.
  unfoldable pub load_price_state : Database W → Stored (StoredPriceState W)
  unfolding read_snapshot read_provider_health
  load_price_state db = do
    snapshot ← read_snapshot db
    health ← read_provider_health db.provider_health
    ok (record { snapshot = snapshot; provider_health = health })
