-- ===== src/Storage/Init.antt =====
-- What a restart of `init_db` of src/storage.rs keeps.
use bitcoin_price_tracker.Prelude.{
  Bool, true, false, not, List, [], ◌∷◌, map, none, any, all, keep, pos, ◌≡◌, refl, arith,
  Option-cases, inl, inr, ap,
}
use bitcoin_price_tracker.Prelude.{◌==◌ as eq_ℕ}
use bitcoin_price_tracker.Prelude.Results.{is_none}
use bitcoin_price_tracker.Models.{ProviderHealth, LastAttempt}
use bitcoin_price_tracker.Source.{all_sources, name}
use bitcoin_price_tracker.Storage.{
  SnapshotRow, SourceRow, Database, Json, ok, sorts_after, sort_by_source,
}
use bitcoin_price_tracker.Storage.Read.{
  latest, latest_from, read_snapshot, read_provider_health, decode_health,
}
use bitcoin_price_tracker.Storage.RoundTrip.{has_parent, IsConsistent}
use bitcoin_price_tracker.Storage.Schema
use bitcoin_price_tracker.Storage.Schema.{
  observed, Unversioned, File, unversioned, versioned, InitError, seeded, is_present, is_supported,
  is_latest, prices_created, migrate_unversioned_schema, prune_snapshots_to_latest, prepare,
  published, init_db,
}
use bitcoin_price_tracker.Storage.Startup.{
  HasKeys, keep-Holds, latest-Holds, latest-none, read_snapshot-prune,
}

module _ {W : Type 0} where
  keep-all : (rows : List (SourceRow W)) → keep (λ r. true) rows ≡ rows
  keep-all [] = refl
  keep-all (r ∷ rows) = ap (λ rest. r ∷ rest) (keep-all rows)

  prune_empty : (db : Database W) → db.snapshots ≡ [] → prune_snapshots_to_latest db ≡ db
  unfolding prune_snapshots_to_latest latest
  prune_empty db e =
      rw e (
        ap (λ rows. record db { snapshots = []; source_prices = rows }) (keep-all db.source_prices))

  -- A database with one snapshot is as it is.
  prune_one :
      (db : Database W) (x : SnapshotRow W)
      → db.snapshots ≡ x ∷ []
      → prune_snapshots_to_latest db ≡ db
  unfolding prune_snapshots_to_latest latest latest_from
  prune_one db x e =
      let same : eq_ℕ x.id x.id ≡ true = ground arith in
      rw e (
        rw same (
          ap (λ rows. record db { snapshots = x ∷ []; source_prices = rows })
            (keep-all db.source_prices)))

  prune_twice :
      (db : Database W)
      → HasKeys db.snapshots
      → prune_snapshots_to_latest (prune_snapshots_to_latest db) ≡ prune_snapshots_to_latest db
  prune_twice db k = elim (Option-cases (latest db.snapshots)) [
    | inl e ↦
        prune_empty (prune_snapshots_to_latest db)
          (unfold prune_snapshots_to_latest in rw (latest-none db.snapshots e) refl)
    | inr (x, e) ↦ prune_one (prune_snapshots_to_latest db) x (
        unfold prune_snapshots_to_latest in
        rw e (keep-Holds x db.snapshots (latest-Holds x db.snapshots e) k))
  ]

  -- A row with a parent that is not deleted keeps it.
  kept_parent :
      (p : SnapshotRow W → Bool) (snapshots : List (SnapshotRow W)) (r : SourceRow W)
      → has_parent snapshots r ≡ true
      → any (λ (s : SnapshotRow W). eq_ℕ s.id r.snapshot_id) (keep (λ s. not (p s)) snapshots)
        ≡ false
      → has_parent (keep p snapshots) r ≡ true
  kept_parent p [] r h k = h
  kept_parent p (s ∷ snapshots) r h k = ground (arith, kept_parent p snapshots r)

  kept_parents :
      (p : SnapshotRow W → Bool) (snapshots : List (SnapshotRow W)) (rows : List (SourceRow W))
      → all (has_parent snapshots) rows ≡ true
      → all (has_parent (keep p snapshots)) (
          keep
            (λ r. not (
              any
                (λ (s : SnapshotRow W). eq_ℕ s.id r.snapshot_id)
                (keep (λ s. not (p s)) snapshots)))
            rows)
        ≡ true
  kept_parents p snapshots [] h = refl
  kept_parents p snapshots (r ∷ rows) h =
      ground (arith, kept_parents p snapshots rows, kept_parent p snapshots r)

  prune-IsConsistent :
      (db : Database W) → IsConsistent db → IsConsistent (prune_snapshots_to_latest db)
  unfolding prune_snapshots_to_latest
  prune-IsConsistent db c =
      kept_parents (is_latest (latest db.snapshots)) db.snapshots db.source_prices c

module _ {W : Type 0} (json : Json) where
  -- Starting again changes nothing: on a file of version 1 whose ids are keys, a start keeps the
  -- snapshot that a load reads and the health records, the foreign key if it held, and makes a file
  -- that another start leaves as it is.
  pub init_db-restart :
      (db : Database W)
      → HasKeys db.snapshots
      → (after : Database W) × (init_db (versioned (pos 1) db) ≡ (versioned (pos 1) after, none))
        × (read_snapshot json after ≡ read_snapshot json db)
        × (after.provider_health ≡ db.provider_health)
        × (IsConsistent db → IsConsistent after)
        × (init_db (versioned (pos 1) after) ≡ (versioned (pos 1) after, none))
  unfolding init_db
  init_db-restart db k = (
    prune_snapshots_to_latest db,
    refl,
    read_snapshot-prune json db k,
    unfold prune_snapshots_to_latest in refl,
    prune-IsConsistent db,
    ap (λ d. (versioned (pos 1) d, none)) (prune_twice db k),
  )

-- What is known of a provider before its first request.
abbrev pub unknown_health : List ProviderHealth
unknown_health =
    map (λ p. record { source = name p; last_attempt = LastAttempt.unknown }) all_sources

read_provider_health-seeded : read_provider_health (map seeded all_sources) ≡ ok unknown_health
unfolding read_provider_health sort_by_source sorts_after decode_health
read_provider_health-seeded = refl

module _ {W : Type 0} where
  observed_lem :
      (rows : List (SourceRow W))
      → all (λ r. is_none r.last_success_at_unix) (map observed rows) ≡ true
  observed_lem [] = refl
  observed_lem (r ∷ rows) = observed_lem rows

  -- A migration assumes nothing: after it every configured provider is known with an unknown last
  -- attempt, and no price has a time of observation.
  pub migrate_unversioned_schema_lem :
      (u : Unversioned W) (db : Database W)
      → migrate_unversioned_schema u ≡ Schema.ok db
      → (read_provider_health db.provider_health ≡ ok unknown_health)
        × (all (λ r. is_none r.last_success_at_unix) db.source_prices ≡ true)
  unfolding migrate_unversioned_schema
  migrate_unversioned_schema_lem u db h =
      let prices = prices_created u.source_prices in
      let health : db.provider_health ≡ map seeded all_sources = ground arith in
      let rows : db.source_prices ≡ map observed prices.rows = ground arith in
      (rw health read_provider_health-seeded, rw rows (observed_lem prices.rows))
