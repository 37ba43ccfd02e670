-- ===== src/Storage/Write.antt =====
-- The writes of src/storage.rs: `write_snapshot`, `write_provider_health` and the transaction of
-- `store_refresh`.
use text.Mathlib.Text.{◌==◌}
use bitcoin_price_tracker.Prelude.{
  ℕ, ◌+◌, Bool, true, false, ◌&&◌, ◌||◌, not, List, [], ◌∷◌, ◌++◌, map, Option, none, some, String,
  if◌then◌else◌, leb, any, keep,
}
use bitcoin_price_tracker.Prelude.{◌==◌ as eq_ℕ}
use bitcoin_price_tracker.Float.{Float64}
use bitcoin_price_tracker.Models.{
  StoredQuote, LastAttempt, success, failure, ProviderHealth, SnapshotRecord,
}
use bitcoin_price_tracker.Storage.{
  invalid_source_price, constraint_failed, Stored, ok, err, ◌>>=◌, SnapshotRow, SourceRow,
  HealthRow, Database, Json, kind_text, category_text,
}

-- The `CHECK` constraints of `provider_health`.
abbrev pub is_null {ℓ} : {A : Type ℓ} → Option A → Bool
is_null none = true
is_null (some a) = false

abbrev pub status_in_range : Option ℕ → Bool
status_in_range none = true
status_in_range (some status) = leb 100 status && leb status 599

abbrev pub is_text : String → Option String → Bool
is_text text none = false
is_text text (some t) = t == text

abbrev pub is_known_category : Option String → Bool
is_known_category none = true
is_known_category (some t) =
    t == "timeout"
    || t == "transport"
    || t == "http"
    || t == "invalid_payload"
    || t == "invalid_price"

unfoldable pub health_check : HealthRow → Bool
health_check r =
    (r.attempt_outcome == "unknown"
      || r.attempt_outcome == "success"
      || r.attempt_outcome == "failure")
    && is_known_category r.error_category
    && status_in_range r.http_status
    && ((r.attempt_outcome == "unknown"
          && is_null r.attempted_at_unix
          && is_null r.error_category
          && is_null r.error_message
          && is_null r.http_status)
        || (r.attempt_outcome == "success"
            && not (is_null r.attempted_at_unix)
            && is_null r.error_category
            && is_null r.error_message
            && is_null r.http_status)
        || (r.attempt_outcome == "failure"
            && not (is_null r.attempted_at_unix)
            && not (is_null r.error_category)
            && not (is_null r.error_message)
            && ((is_text "http" r.error_category && not (is_null r.http_status))
                || (not (is_text "http" r.error_category) && is_null r.http_status))))

-- The parameters that `write_provider_health` binds.
unfoldable pub health_row : ProviderHealth → HealthRow
unfolding category_text
health_row h = elim h.last_attempt [
  | LastAttempt.unknown ↦ record {
    source = h.source;
    attempt_outcome = "unknown";
    attempted_at_unix = none;
    error_category = none;
    error_message = none;
    http_status = none;
  }
  | success at ↦ record {
    source = h.source;
    attempt_outcome = "success";
    attempted_at_unix = some at;
    error_category = none;
    error_message = none;
    http_status = none;
  }
  | failure at error ↦ record {
    source = h.source;
    attempt_outcome = "failure";
    attempted_at_unix = some at;
    error_category = some (category_text error.category);
    error_message = some error.message;
    http_status = error.http_status;
  }
]

-- `INSERT .. ON CONFLICT(source) DO UPDATE`, without the check.
unfoldable pub upsert : HealthRow → List HealthRow → List HealthRow
upsert row [] = row ∷ []
upsert row (r ∷ rows) = if r.source == row.source then row ∷ rows else r ∷ upsert row rows

unfoldable pub write_provider_health :
    List ProviderHealth → List HealthRow → Stored (List HealthRow)
unfolding health_row health_check upsert
write_provider_health [] rows = ok rows
write_provider_health (h ∷ health) rows =
    let rest = write_provider_health health (upsert (health_row h) rows) in
    if health_check (health_row h) then rest else err constraint_failed

module _ {W : Type 0} ⦃f : Float64 W⦄ where
  -- The price that `write_snapshot` refuses.
  abbrev pub is_refused : StoredQuote W → Bool
  is_refused quote = not (f.is_finite quote.price_usd) || f.le quote.price_usd f.zero

  -- SQLite has no NaN: it stores NULL in its place.
  abbrev pub bind_real : Option W → Option W
  bind_real none = none
  bind_real (some x) = if f.is_nan x then none else some x

module _ {W : Type 0} where
  -- `DELETE FROM price_snapshots`, with the cascade to the rows of the deleted snapshots.
  unfoldable pub delete_snapshots : Database W → Database W
  delete_snapshots db = record db {
    snapshots = [];
    source_prices =
        keep (λ r. not (any (λ (s : SnapshotRow W). eq_ℕ s.id r.snapshot_id) db.snapshots))
          db.source_prices;
  }

  abbrev pub source_row : ℕ → StoredQuote W → SourceRow W
  source_row snapshot_id quote = record {
    snapshot_id = snapshot_id;
    source = quote.source;
    price_usd = quote.price_usd;
    last_success_at_unix = quote.last_success_at_unix;
    quote_kind = kind_text quote.quote_kind;
  }

module _ {W : Type 0} ⦃f : Float64 W⦄ (json : Json) where
  unfoldable pub write_snapshot : SnapshotRecord W → Database W → Stored (Database W)
  unfolding delete_snapshots kind_text
  write_snapshot snapshot db =
      let cleared = delete_snapshots db in
      let id = cleared.last_id + 1 in
      if any is_refused snapshot.sources
      then err invalid_source_price
      else ok (record {
        snapshots =
            cleared.snapshots
            ++ record {
              id = id;
              fetched_at_unix = snapshot.fetched_at_unix;
              average_price = bind_real snapshot.average_price;
              spread = bind_real snapshot.spread;
              warnings_json = json.to_string snapshot.warnings;
              refreshed_source = snapshot.refreshed_source;
            }
              ∷ [];
        last_id = id;
        source_prices = cleared.source_prices ++ map (source_row id) snapshot.sources;
        provider_health = cleared.provider_health;
      })

  unfoldable pub write_optional_snapshot :
      Option (SnapshotRecord W) → Database W → Stored (Database W)
  unfolding write_snapshot
  write_optional_snapshot none db = ok db
  write_optional_snapshot (some snapshot) db = write_snapshot snapshot db

  -- The statements of one `store_refresh_sync`.
  unfoldable pub refresh_transaction :
      Option (SnapshotRecord W) → List ProviderHealth → Database W → Stored (Database W)
  unfolding write_optional_snapshot write_provider_health
  refresh_transaction snapshot health db = do
    written ← write_optional_snapshot snapshot db
    rows ← write_provider_health health written.provider_health
    ok (record written { provider_health = rows })

  -- A transaction that is not committed is rolled back.
  abbrev pub commit : Database W → Stored (Database W) → Database W × Stored (Unit {0})
  commit db (ok after) = (after, ok tt)
  commit db (err e) = (db, err e)

  unfoldable pub store_refresh :
      Option (SnapshotRecord W) → List ProviderHealth → Database W → Database W × Stored (Unit {0})
  unfolding refresh_transaction
  store_refresh snapshot health db = commit db (refresh_transaction snapshot health db)
