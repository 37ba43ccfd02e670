-- ===== src/Storage/Startup.antt =====
-- What `init_db` of src/storage.rs makes of a file.
use bitcoin_price_tracker.Prelude.{
  ℕ, Bool, true, false, not, List, [], ◌∷◌, none, some, if◌then◌else◌, any, keep, ◌≡◌, ◌⊎◌, inl,
  inr, refl, arith, Option-cases, ap,
}
use bitcoin_price_tracker.Prelude.{◌==◌ as eq_ℕ}
use mathlib.Core.Path.{subst}
use bitcoin_price_tracker.Storage.{SnapshotRow, SourceRow, Database, Json, sort_by_source}
use bitcoin_price_tracker.Storage.Read.{
  is_newer_row, latest_from, latest, rows_of, read_latest, read_snapshot,
}
use bitcoin_price_tracker.Storage.Schema

module _ {W : Type 0} where
  -- Some row of the list is this one.
  abbrev pub Holds : SnapshotRow W → List (SnapshotRow W) → Type 0
  Holds x [] = ⊥
  Holds x (r ∷ rows) = (x ≡ r) ⊎ Holds x rows

  -- No two rows have one id, as the primary key has it.
  abbrev pub has_id : ℕ → SnapshotRow W → Bool
  has_id id s = eq_ℕ s.id id

  abbrev pub HasKeys : List (SnapshotRow W) → Type 0
  HasKeys [] = Unit
  HasKeys (r ∷ rows) = (any (has_id r.id) rows ≡ false) × HasKeys rows

  held :
      (newer : Bool) (x best r : SnapshotRow W) (rows : List (SnapshotRow W))
      → Holds x ((if newer then r else best) ∷ rows)
      → Holds x (best ∷ r ∷ rows)
  held true x best r rows h = inr h
  held false x best r rows (inl e) = inl e
  held false x best r rows (inr h) = inr (inr h)

  latest_from-Holds :
      (best : SnapshotRow W) (rows : List (SnapshotRow W))
      → Holds (latest_from best rows) (best ∷ rows)
  unfolding latest_from
  latest_from-Holds best [] = inl refl
  latest_from-Holds best (r ∷ rows) =
      held (is_newer_row r best) _ best r rows
        (latest_from-Holds (if is_newer_row r best then r else best) rows)

  absent :
      (x : SnapshotRow W) (id : ℕ) (rows : List (SnapshotRow W))
      → Holds x rows
      → any (has_id id) rows ≡ false
      → eq_ℕ x.id id ≡ false
  absent x id [] h k = elim h [ ]
  absent x id (r ∷ rows) (inl e) k = rw e (ground arith)
  absent x id (r ∷ rows) (inr h) k = absent x id rows h (ground arith)

  keep-none :
      (id : ℕ) (rows : List (SnapshotRow W))
      → any (has_id id) rows ≡ false
      → keep (has_id id) rows ≡ []
  keep-none id [] h = refl
  keep-none id (r ∷ rows) h = ground (arith, keep-none id rows)

  pub keep-Holds :
      (x : SnapshotRow W) (rows : List (SnapshotRow W))
      → Holds x rows
      → HasKeys rows
      → keep (has_id x.id) rows ≡ x ∷ []
  keep-Holds x [] h k = elim h [ ]
  keep-Holds x (r ∷ rows) (inl e) k =
      let none_left : any (has_id x.id) rows ≡ false = rw e k.0 in
      ground (arith, keep-none x.id rows, ap (λ (s : SnapshotRow W). s.id) e)
  keep-Holds x (r ∷ rows) (inr h) k =
      let other = absent x r.id rows h k.0 in ground (arith, keep-Holds x rows h k.1, other)

  pub latest-Holds :
      (x : SnapshotRow W) (rows : List (SnapshotRow W)) → latest rows ≡ some x → Holds x rows
  unfolding latest
  latest-Holds x [] h = cc
  latest-Holds x (r ∷ rows) h =
      let e : latest_from r rows ≡ x = cc in
      subst (λ y. Holds y (r ∷ rows)) e (latest_from-Holds r rows)

  -- Without the latest row nothing is left.
  pub latest-none : (rows : List (SnapshotRow W)) → latest rows ≡ none → rows ≡ []
  unfolding latest
  latest-none [] h = refl
  latest-none (r ∷ rows) h = cc

  deleted_lem :
      (id n : ℕ) (rows : List (SnapshotRow W))
      → eq_ℕ n id ≡ true
      → any (λ (s : SnapshotRow W). eq_ℕ s.id n) (keep (λ s. not (has_id id s)) rows) ≡ false
  deleted_lem id n [] h = refl
  deleted_lem id n (r ∷ rows) h = ground (arith, deleted_lem id n rows)

  keep-keep :
      (p q : SourceRow W → Bool) (rows : List (SourceRow W))
      → ((r : SourceRow W) → p r ≡ true → q r ≡ true)
      → keep p (keep q rows) ≡ keep p rows
  keep-keep p q [] h = refl
  keep-keep p q (r ∷ rows) h = ground (arith, keep-keep p q rows h, h r)

  rows_of-keep :
      (id : ℕ) (q : SourceRow W → Bool) (rows : List (SourceRow W))
      → ((r : SourceRow W) → eq_ℕ r.snapshot_id id ≡ true → q r ≡ true)
      → rows_of id (keep q rows) ≡ rows_of id rows
  unfolding rows_of
  rows_of-keep id q rows h =
      ap (sort_by_source (λ r. r.source)) (keep-keep (λ r. eq_ℕ r.snapshot_id id) q rows h)

module _ {W : Type 0} (json : Json) where
  read_latest-keep :
      (x : SnapshotRow W) (q : SourceRow W → Bool) (rows : List (SourceRow W))
      → ((r : SourceRow W) → eq_ℕ r.snapshot_id x.id ≡ true → q r ≡ true)
      → read_latest json (some x) (keep q rows) ≡ read_latest json (some x) rows
  unfolding read_latest
  read_latest-keep x q rows h = rw (rows_of-keep x.id q rows h) refl

  -- Pruning keeps what a load reads, in a table whose ids are keys.
  pub read_snapshot-prune :
      (db : Database W)
      → HasKeys db.snapshots
      → read_snapshot json (Schema.prune_snapshots_to_latest db) ≡ read_snapshot json db
  unfolding Schema.prune_snapshots_to_latest read_snapshot
  read_snapshot-prune db k = elim (Option-cases (latest db.snapshots)) [
    | inl e ↦ rw (latest-none db.snapshots e) refl
    | inr (x, e) ↦ rw e (
        rw (keep-Holds x db.snapshots (latest-Holds x db.snapshots e) k) (
          unfold latest latest_from in
          read_latest-keep x _ db.source_prices
            (λ r same. ground (arith, deleted_lem x.id r.snapshot_id db.snapshots))))
  ]
