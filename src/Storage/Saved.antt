-- ===== src/Storage/Saved.antt =====
-- What `store_refresh` of src/storage.rs leaves behind when it succeeds, whatever health rows were there.
use bitcoin_price_tracker.Prelude.{
  ◌≡◌, refl, true, false, List, [], ◌∷◌, none, some, arith, any, all,
}
use bitcoin_price_tracker.Float.{Float64}
use bitcoin_price_tracker.Models.{ProviderHealth, SnapshotRecord}
use bitcoin_price_tracker.Storage.{ok, err, constraint_failed, HealthRow, Database, Json}
use bitcoin_price_tracker.Storage.Write.{
  health_row, upsert, write_provider_health, is_refused, write_optional_snapshot,
  refresh_transaction, store_refresh,
}
use bitcoin_price_tracker.Storage.RoundTrip.{
  is_storable, IsConsistent, check_lem, write_provider_health-refused,
}
use bitcoin_price_tracker.Storage.Commit.{with_snapshot, write_snapshot_lem}

-- The rows after some of them have been written.
abbrev pub rows_after : List ProviderHealth → List HealthRow → List HealthRow
rows_after [] rows = rows
rows_after (h ∷ health) rows = rows_after health (upsert (health_row h) rows)

write_provider_health_lem :
    (health : List ProviderHealth) (rows : List HealthRow)
    → all is_storable health ≡ true
    → write_provider_health health rows ≡ ok (rows_after health rows)
unfolding write_provider_health
write_provider_health_lem [] rows h = refl
write_provider_health_lem (r ∷ health) rows h =
    rw (check_lem r) (ground (arith, write_provider_health_lem health (upsert (health_row r) rows)))

module _ {W : Type 0} ⦃f : Float64 W⦄ (json : Json) where
  pub store_refresh-saves :
      (snapshot : SnapshotRecord W) (health : List ProviderHealth) (db : Database W)
      → IsConsistent db
      → any is_refused snapshot.sources ≡ false
      → all is_storable health ≡ true
      → store_refresh json (some snapshot) health db ≡ (
        record (with_snapshot json snapshot db) {
          provider_health = rows_after health db.provider_health;
        },
        ok tt,
      )
  unfolding store_refresh refresh_transaction write_optional_snapshot
  store_refresh-saves snapshot health db c kept storable =
      rw (write_snapshot_lem json snapshot db c kept)
        (rw (write_provider_health_lem health db.provider_health storable) refl)

  pub store_refresh-saves_health :
      (health : List ProviderHealth) (db : Database W)
      → all is_storable health ≡ true
      → store_refresh json none health db
        ≡ (record db { provider_health = rows_after health db.provider_health }, ok tt)
  unfolding store_refresh refresh_transaction write_optional_snapshot
  store_refresh-saves_health health db storable =
      rw (write_provider_health_lem health db.provider_health storable) refl

  pub store_refresh-refuses_health :
      (health : List ProviderHealth) (db : Database W)
      → all is_storable health ≡ false
      → store_refresh json none health db ≡ (db, err constraint_failed)
  unfolding store_refresh refresh_transaction write_optional_snapshot
  store_refresh-refuses_health health db refused =
      rw (write_provider_health-refused health db.provider_health refused) refl
