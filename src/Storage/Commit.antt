-- ===== src/Storage/Commit.antt =====
-- `store_refresh` against `load_price_state` in src/storage.rs, for a refresh that can be stored and
-- for one that cannot.
use bitcoin_price_tracker.Prelude.{
  ℕ, ◌+◌, ◌≡◌, refl, Bool, true, false, not, List, [], ◌∷◌, map, Option, none, some, String, arith,
  any, all,
}
use bitcoin_price_tracker.Float.{Float64}
use bitcoin_price_tracker.Models.{ProviderHealth, SnapshotRecord}
use bitcoin_price_tracker.Storage.{
  invalid_source_price, ok, err, SnapshotRow, HealthRow, Database, Json, sort_by_source,
}
use bitcoin_price_tracker.Storage.Write.{
  health_row, source_row, is_refused, bind_real, delete_snapshots, write_snapshot,
  write_optional_snapshot, refresh_transaction, store_refresh,
}
use bitcoin_price_tracker.Storage.Read.{
  read_provider_health, latest, latest_from, read_latest, read_snapshot, load_price_state,
  decode_warnings,
}
use bitcoin_price_tracker.Storage.RoundTrip.{
  is_storable, put_all, IsConsistent, has_parent, drop-all, decode_quotes,
  write_provider_health-map, read_provider_health-map,
}

-- Whether SQLite stores a value as it is: NaN becomes NULL.
abbrev pub is_exact : {W : Type 0} → ⦃f : Float64 W⦄ → Option W → Bool
is_exact none = true
is_exact ⦃f⦄ (some x) = not (f.is_nan x)

bind_real_lem : {W : Type 0} ⦃f : Float64 W⦄ (x : Option W) → is_exact x ≡ true → bind_real x ≡ x
bind_real_lem none exact = refl
bind_real_lem (some x) exact = ground arith

decode_warnings_lem :
    (json : Json) (text : String) (warnings : List String)
    → json.from_str text ≡ some warnings
    → decode_warnings json text ≡ ok warnings
unfolding decode_warnings
decode_warnings_lem json text warnings decoded = rw (decode_warnings, decoded) refl

module _ {W : Type 0} ⦃f : Float64 W⦄ (json : Json) where
  abbrev pub snapshot_row : ℕ → SnapshotRecord W → SnapshotRow W
  snapshot_row id snapshot = record {
    id = id;
    fetched_at_unix = snapshot.fetched_at_unix;
    average_price = bind_real snapshot.average_price;
    spread = bind_real snapshot.spread;
    warnings_json = json.to_string snapshot.warnings;
    refreshed_source = snapshot.refreshed_source;
  }

  -- The database that holds one snapshot only.
  abbrev pub with_snapshot : SnapshotRecord W → Database W → Database W
  with_snapshot snapshot db = record {
    snapshots = snapshot_row (db.last_id + 1) snapshot ∷ [];
    last_id = db.last_id + 1;
    source_prices = map (source_row (db.last_id + 1)) snapshot.sources;
    provider_health = db.provider_health;
  }

  pub write_snapshot_lem :
      (snapshot : SnapshotRecord W) (db : Database W)
      → IsConsistent db
      → any is_refused snapshot.sources ≡ false
      → write_snapshot json snapshot db ≡ ok (with_snapshot snapshot db)
  unfolding write_snapshot delete_snapshots
  write_snapshot_lem snapshot db c kept =
      rw kept (rw (drop-all (has_parent db.snapshots) db.source_prices c) refl)

  pub write_snapshot-refused :
      (snapshot : SnapshotRecord W) (db : Database W)
      → any is_refused snapshot.sources ≡ true
      → write_snapshot json snapshot db ≡ err invalid_source_price
  unfolding write_snapshot
  write_snapshot-refused snapshot db refused = rw refused refl

  read_latest-snapshot_row :
      (snapshot : SnapshotRecord W) (id : ℕ)
      → json.from_str (json.to_string snapshot.warnings) ≡ some snapshot.warnings
      → is_exact snapshot.average_price ≡ true
      → is_exact snapshot.spread ≡ true
      → read_latest json (some (snapshot_row id snapshot)) (map (source_row id) snapshot.sources)
        ≡ ok (some (record snapshot { sources = sort_by_source (λ q. q.source) snapshot.sources }))
  unfolding read_latest
  read_latest-snapshot_row snapshot id decoded average spread =
      rw (decode_warnings_lem json (json.to_string snapshot.warnings) snapshot.warnings decoded) (
        rw (decode_quotes id snapshot.sources) (
          rw (bind_real_lem snapshot.average_price average)
            (rw (bind_real_lem snapshot.spread spread) refl)))

  pub read_snapshot-with_snapshot :
      (snapshot : SnapshotRecord W) (db : Database W) (rows : List HealthRow)
      → json.from_str (json.to_string snapshot.warnings) ≡ some snapshot.warnings
      → is_exact snapshot.average_price ≡ true
      → is_exact snapshot.spread ≡ true
      → read_snapshot json (record (with_snapshot snapshot db) { provider_health = rows })
        ≡ ok (some (record snapshot { sources = sort_by_source (λ q. q.source) snapshot.sources }))
  unfolding read_snapshot latest latest_from
  read_snapshot-with_snapshot snapshot db rows decoded average spread =
      read_latest-snapshot_row snapshot (db.last_id + 1) decoded average spread

  refresh_transaction_lem :
      (snapshot : SnapshotRecord W) (health known : List ProviderHealth) (db : Database W)
      → IsConsistent db
      → db.provider_health ≡ map health_row known
      → any is_refused snapshot.sources ≡ false
      → all is_storable health ≡ true
      → refresh_transaction json (some snapshot) health db
        ≡ ok (record (with_snapshot snapshot db) {
          provider_health = map health_row (put_all health known);
        })
  unfolding refresh_transaction write_optional_snapshot
  refresh_transaction_lem snapshot health known db c rows kept storable =
      rw (write_snapshot_lem snapshot db c kept)
        (rw rows (rw (write_provider_health-map health known storable) refl))

  -- A snapshot whose prices are finite and positive, whose average and spread are not NaN, and health
  -- records that the checks of the table admit are stored, and the next load returns that snapshot,
  -- its sources sorted, and the known health with the new records in place of the earlier ones of the
  -- same source, sorted likewise. The database before is one whose price rows belong to a stored
  -- snapshot and whose health rows are those of known records, and the JSON library reads back the
  -- warnings that it wrote.
  pub load_price_state-store_refresh :
      (snapshot : SnapshotRecord W) (health known : List ProviderHealth) (db : Database W)
      → json.from_str (json.to_string snapshot.warnings) ≡ some snapshot.warnings
      → IsConsistent db
      → db.provider_health ≡ map health_row known
      → any is_refused snapshot.sources ≡ false
      → is_exact snapshot.average_price ≡ true
      → is_exact snapshot.spread ≡ true
      → all is_storable health ≡ true
      → ((store_refresh json (some snapshot) health db).1 ≡ ok tt)
        × (load_price_state json (store_refresh json (some snapshot) health db).0
            ≡ ok (record {
              snapshot =
                  some
                    (record snapshot { sources = sort_by_source (λ q. q.source) snapshot.sources });
              provider_health = sort_by_source (λ h. h.source) (put_all health known);
            }))
  unfolding store_refresh load_price_state
  load_price_state-store_refresh snapshot health known db decoded c rows kept average spread
        storable =
      rw (refresh_transaction_lem snapshot health known db c rows kept storable) (
        refl,
        rw
            (read_snapshot-with_snapshot snapshot db (map health_row (put_all health known)) decoded
              average spread)
            (rw (read_provider_health-map (put_all health known)) refl),
      )

  -- A refresh without a snapshot leaves the stored snapshot as it reads, and its storable health
  -- records take the place of the earlier ones of the same source.
  pub store_refresh-none :
      (health known : List ProviderHealth) (db : Database W)
      → db.provider_health ≡ map health_row known
      → all is_storable health ≡ true
      → let after = (store_refresh json none health db).0 in
        (read_snapshot json after ≡ read_snapshot json db)
        × (read_provider_health after.provider_health
            ≡ ok (sort_by_source (λ h. h.source) (put_all health known)))
  unfolding store_refresh refresh_transaction write_optional_snapshot read_snapshot
  store_refresh-none health known db rows storable = rw rows (
      rw (write_provider_health-map health known storable)
        (refl, read_provider_health-map (put_all health known)))
