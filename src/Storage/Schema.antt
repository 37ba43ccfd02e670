-- ===== src/Storage/Schema.antt =====
-- `init_db`, the migration of an unversioned schema, and the pruning of old snapshots in
-- src/storage.rs. A column that a table does not have yet holds in the rows what adding it writes.
use text.Mathlib.Text.{◌==◌}
use bitcoin_price_tracker.Prelude.{
  ℕ, Bool, true, false, not, List, [], map, Option, none, some, String, if◌then◌else◌, any, keep, ℤ,
  pos, negsuc,
}
use bitcoin_price_tracker.Prelude.{◌==◌ as eq_ℕ}
use bitcoin_price_tracker.Source.{UpstreamSource, all_sources, name}
use bitcoin_price_tracker.Storage.{SnapshotRow, SourceRow, HealthRow, Database}
use bitcoin_price_tracker.Storage.Read.{latest}

-- A table that may lack the columns that the migration adds.
pub record Table (A : Type 0) : Type 0 where
  pub has_column : Bool
  pub rows : List A

-- The tables of a file with `user_version` 0, each of which may be missing.
pub record Unversioned (W : Type 0) : Type 0 where
  pub price_snapshots : Option (Table (SnapshotRow W))
  pub last_id : ℕ
  pub source_prices : Option (Table (SourceRow W))
  pub provider_health : Option (List HealthRow)

-- A file: without tables of version 1, or with the tables of `Database` and a `user_version`.
pub data File (W : Type 0) : Type 0 where
  unversioned : Unversioned W → File W
  versioned : ℤ → Database W → File W

pub data InitError : Type 0 where
  unsupported_version : ℤ → InitError
  duplicate_column table_exists : InitError

pub data Migrated (W : Type 0) : Type 0 where
  ok : Database W → Migrated W
  err : InitError → Migrated W

-- The `CASE` of the `UPDATE`.
abbrev pub kind_of_source : String → String
kind_of_source source =
    if source == "CoinGecko"
    then "aggregate"
    else if source == "Coinbase"
    then "spot"
    else if source == "Kraken"
    then "last_trade"
    else if source == "Gemini"
    then "bid"
    else "unknown"

module _ {W : Type 0} where
  -- `CREATE TABLE IF NOT EXISTS`, for the two tables: the first has `refreshed_source`, the second
  -- has not the columns of an observation.
  abbrev pub snapshots_created : Option (Table (SnapshotRow W)) → Table (SnapshotRow W)
  snapshots_created none = record { has_column = true; rows = [] }
  snapshots_created (some table) = table

  abbrev pub prices_created : Option (Table (SourceRow W)) → Table (SourceRow W)
  prices_created none = record { has_column = false; rows = [] }
  prices_created (some table) = table

  abbrev pub without_source : SnapshotRow W → SnapshotRow W
  without_source r = record r { refreshed_source = none }

  -- `ensure_snapshot_column`: a new column is NULL.
  abbrev pub ensure_snapshot_column : Table (SnapshotRow W) → List (SnapshotRow W)
  ensure_snapshot_column table =
      if table.has_column then table.rows else map without_source table.rows

  -- The two new columns of a price, and the `UPDATE`.
  abbrev pub observed : SourceRow W → SourceRow W
  observed r = record r { last_success_at_unix = none; quote_kind = kind_of_source r.source }

-- `INSERT INTO provider_health (source) VALUES (?1)`, with the defaults of the table.
abbrev pub seeded : UpstreamSource → HealthRow
seeded source = record {
  source = name source;
  attempt_outcome = "unknown";
  attempted_at_unix = none;
  error_category = none;
  error_message = none;
  http_status = none;
}

abbrev pub is_present {ℓ} : {A : Type ℓ} → Option A → Bool
is_present none = false
is_present (some a) = true

abbrev pub is_zero : ℤ → Bool
is_zero (pos n) = eq_ℕ n 0
is_zero (negsuc n) = false

-- `SCHEMA_VERSION`.
abbrev pub is_supported : ℤ → Bool
is_supported (pos n) = eq_ℕ n 1
is_supported (negsuc n) = false

module _ {W : Type 0} where
  unfoldable pub migrate_unversioned_schema : Unversioned W → Migrated W
  migrate_unversioned_schema u =
      let prices = prices_created u.source_prices in
      if prices.has_column
      then err duplicate_column
      else if is_present u.provider_health
      then err table_exists
      else ok (record {
        snapshots = ensure_snapshot_column (snapshots_created u.price_snapshots);
        last_id = u.last_id;
        source_prices = map observed prices.rows;
        provider_health = map seeded all_sources;
      })

  -- Whether the `SELECT` of the statement names the row.
  abbrev pub is_latest : Option (SnapshotRow W) → SnapshotRow W → Bool
  is_latest none s = false
  is_latest (some best) s = eq_ℕ s.id best.id

  -- `prune_snapshots_to_latest`, with the cascade to the prices of the deleted snapshots.
  unfoldable pub prune_snapshots_to_latest : Database W → Database W
  unfolding latest
  prune_snapshots_to_latest db =
      let best = latest db.snapshots in
      let deleted = keep (λ s. not (is_latest best s)) db.snapshots in
      record db {
        snapshots = keep (is_latest best) db.snapshots;
        source_prices =
            keep (λ r. not (any (λ (s : SnapshotRow W). eq_ℕ s.id r.snapshot_id) deleted))
              db.source_prices;
      }

  -- The tables of `Database`, as a migration finds them.
  abbrev pub tables_of : Database W → Unversioned W
  tables_of db = record {
    price_snapshots = some (record { has_column = true; rows = db.snapshots });
    last_id = db.last_id;
    source_prices = some (record { has_column = true; rows = db.source_prices });
    provider_health = some db.provider_health;
  }

  -- The `match` on the version.
  abbrev pub prepare : File W → Migrated W
  prepare (unversioned u) = migrate_unversioned_schema u
  prepare (versioned version db) =
      if is_zero version
      then migrate_unversioned_schema (tables_of db)
      else if is_supported version
      then ok db
      else err (unsupported_version version)

  -- The commit, or the rollback of everything.
  abbrev pub published : File W → Migrated W → File W × Option InitError
  published file (ok db) = (versioned (pos 1) (prune_snapshots_to_latest db), none)
  published file (err e) = (file, some e)

  unfoldable pub init_db : File W → File W × Option InitError
  unfolding migrate_unversioned_schema
  init_db file = published file (prepare file)
