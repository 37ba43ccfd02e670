-- ===== src/Storage/Failure.antt =====
-- A refresh that cannot be stored, and what every refresh keeps, in src/storage.rs.
use bitcoin_price_tracker.Prelude.{
  ℕ, ◌+◌, ◌<◌, ◌≡◌, refl, true, false, ◌||◌, not, List, [], ◌∷◌, ◌++◌, map, Option, none, some,
  String, arith, if◌then◌else◌, any, all, Bool-cases, inl, inr,
}
use bitcoin_price_tracker.Float.{Float64}
use bitcoin_price_tracker.Time.{UnixTime}
use bitcoin_price_tracker.Models.{StoredQuote, http, failure, ProviderHealth, SnapshotRecord}
use bitcoin_price_tracker.Storage.{
  constraint_failed, invalid_source_price, Stored, ok, err, ◌>>=◌, SnapshotRow, HealthRow, Database,
  Json,
}
use bitcoin_price_tracker.Storage.Write.{
  write_provider_health, source_row, is_refused, write_optional_snapshot, refresh_transaction,
  commit, store_refresh,
}
use bitcoin_price_tracker.Storage.RoundTrip.{
  is_storable, IsConsistent, has_parent, write_provider_health-refused,
}
use bitcoin_price_tracker.Storage.Commit.{
  with_snapshot, snapshot_row, write_snapshot_lem, write_snapshot-refused,
}

all-append-false :
    (before : List ProviderHealth) (h : ProviderHealth) (after : List ProviderHealth)
    → is_storable h ≡ false
    → all is_storable (before ++ h ∷ after) ≡ false
all-append-false [] h after refused = rw refused refl
all-append-false (x ∷ before) h after refused = ground (arith, all-append-false before h after)

-- The health record of a provider that answered with an HTTP error.
abbrev pub http_failure : String → String → UnixTime → ℕ → ProviderHealth
http_failure source message at status = record {
  source = source;
  last_attempt =
      failure at (record { category = http; message = message; http_status = some status });
}

module _ {W : Type 0} ⦃f : Float64 W⦄ (json : Json) where
  -- A snapshot with a price that is not finite and positive, or a health record that the checks of
  -- the table refuse, fails the refresh, and the database, the good records of the same refresh
  -- included, stays as it was. The database before is one whose price rows belong to a stored
  -- snapshot.
  pub store_refresh-refused :
      (snapshot : SnapshotRecord W) (health : List ProviderHealth) (db : Database W)
      → IsConsistent db
      → (any is_refused snapshot.sources || not (all is_storable health)) ≡ true
      → store_refresh json (some snapshot) health db ≡ (
        db,
        err (if any is_refused snapshot.sources then invalid_source_price else constraint_failed),
      )
  unfolding store_refresh refresh_transaction write_optional_snapshot
  store_refresh-refused snapshot health db c refused =
      elim (Bool-cases (any is_refused snapshot.sources)) [
        | inl bad ↦ rw (write_snapshot-refused json snapshot db bad) (rw bad refl)
        | inr good ↦ rw (write_snapshot_lem json snapshot db c good) (
            rw (write_provider_health-refused health db.provider_health (ground arith))
              (rw good refl))
      ]

  -- A health record with an HTTP status above 599 fails the store of a whole refresh whose prices are
  -- all finite and positive, and the database stays as it was. The database before is one whose price
  -- rows belong to a stored snapshot.
  pub store_refresh-status :
      (snapshot : SnapshotRecord W) (before after : List ProviderHealth) (source message : String)
      (at : UnixTime) (status : ℕ) (db : Database W)
      → IsConsistent db
      → any is_refused snapshot.sources ≡ false
      → 599 < status
      → store_refresh json
          (some snapshot)
          (before ++ http_failure source message at status ∷ after)
          db
        ≡ (db, err constraint_failed)
  store_refresh-status snapshot before after source message at status db c kept high =
      let failed = http_failure source message at status in
      rw
        (store_refresh-refused snapshot (before ++ failed ∷ after) db c
          (rw (all-append-false before failed after (ground arith)) (rw kept refl)))
        (rw kept refl)

  own_parent :
      (id : ℕ) (s : SnapshotRow W) (quotes : List (StoredQuote W))
      → s.id ≡ id
      → all (has_parent (s ∷ [])) (map (source_row id) quotes) ≡ true
  own_parent id s [] same = refl
  own_parent id s (q ∷ quotes) same = ground (arith, own_parent id s quotes)

  commit_lem :
      (db written : Database W) (result : Stored (List HealthRow))
      → IsConsistent db
      → IsConsistent written
      → IsConsistent
          (commit json db (result >>= λ rows. ok (record written { provider_health = rows }))).0
  commit_lem db written (ok rows) c kept = kept
  commit_lem db written (err e) c kept = c

  -- Whatever a refresh does, if every stored price belongs to a stored snapshot before it, then
  -- also after it.
  pub store_refresh-IsConsistent :
      (snapshot : Option (SnapshotRecord W)) (health : List ProviderHealth) (db : Database W)
      → IsConsistent db
      → IsConsistent (store_refresh json snapshot health db).0
  unfolding store_refresh refresh_transaction write_optional_snapshot
  store_refresh-IsConsistent none health db c =
      commit_lem db db (write_provider_health health db.provider_health) c c
  store_refresh-IsConsistent (some snapshot) health db c =
      elim (Bool-cases (any is_refused snapshot.sources)) [
        | inl bad ↦ rw (write_snapshot-refused json snapshot db bad) c
        | inr good ↦ rw (write_snapshot_lem json snapshot db c good) (
            commit_lem db (with_snapshot json snapshot db)
              (write_provider_health health db.provider_health) c
              (own_parent (db.last_id + 1) (snapshot_row json (db.last_id + 1) snapshot)
                snapshot.sources refl))
      ]
