-- ===== src/Pricing/Merge.antt =====
-- `merge_snapshot_sources`, `ordered_sources` and `summarize_prices` of src/pricing.rs.
use Prim.Native.Nat.{Ordering}
use Prim.Native.String.{compare}
use bitcoin_price_tracker.Prelude.{
  Bool, true, false, List, [], ◌∷◌, map, Option, none, some, if◌then◌else◌, length, keep, fold,
}
use bitcoin_price_tracker.Dict.{Dict, lookup, insert, remove}
use bitcoin_price_tracker.Float.{Float64}
use bitcoin_price_tracker.Models.{StoredQuote, SnapshotRecord}
use bitcoin_price_tracker.Source.{UpstreamSource, all_sources, name}
use bitcoin_price_tracker.Freshness.{is_usable}

module _ {W : Type 0} where
  -- The order of `sort_by(|left, right| left.source.cmp(&right.source))`: whether `a` comes after `b`.
  abbrev pub comes_after : StoredQuote W → StoredQuote W → Bool
  comes_after a b = elim (compare a.source b.source) [ Ordering.gt ↦ true | _ ↦ false ]

  unfoldable pub insert_by_source : StoredQuote W → List (StoredQuote W) → List (StoredQuote W)
  insert_by_source q [] = q ∷ []
  insert_by_source q (r ∷ rs) = if comes_after q r then r ∷ insert_by_source q rs else q ∷ r ∷ rs

  unfoldable pub sort_extras : List (StoredQuote W) → List (StoredQuote W)
  unfolding insert_by_source
  sort_extras [] = []
  sort_extras (q ∷ qs) = insert_by_source q (sort_extras qs)

  -- `into_values()`.
  abbrev pub values : Dict (StoredQuote W) → List (StoredQuote W)
  values [] = []
  values ((key, quote) ∷ rest) = quote ∷ values rest

  abbrev pub push_quote : Option (StoredQuote W) → List (StoredQuote W) → List (StoredQuote W)
  push_quote none rest = rest
  push_quote (some quote) rest = quote ∷ rest

  -- The loop over the providers that are left, and then the extras.
  unfoldable pub ordered_from : List UpstreamSource → Dict (StoredQuote W) → List (StoredQuote W)
  unfolding sort_extras lookup remove
  ordered_from [] prices = sort_extras (values prices)
  ordered_from (p ∷ ps) prices =
      push_quote (lookup (name p) prices) (ordered_from ps (remove (name p) prices))

  unfoldable pub ordered_sources : Dict (StoredQuote W) → List (StoredQuote W)
  unfolding ordered_from
  ordered_sources = ordered_from all_sources

  -- `source_prices.insert(quote.source.clone(), quote)`.
  abbrev pub record_quote : Dict (StoredQuote W) → StoredQuote W → Dict (StoredQuote W)
  record_quote prices quote = insert quote.source quote prices

  abbrev pub stored_quotes : Option (SnapshotRecord W) → List (StoredQuote W)
  stored_quotes none = []
  stored_quotes (some snapshot) = snapshot.sources

module _ {W : Type 0} ⦃f : Float64 W⦄ where
  -- The map before it is put in order.
  abbrev pub merged : Option (SnapshotRecord W) → List (StoredQuote W) → Dict (StoredQuote W)
  merged latest refreshed =
      fold record_quote (fold record_quote [] (keep is_usable (stored_quotes latest))) refreshed

  unfoldable pub merge_snapshot_sources :
      Option (SnapshotRecord W) → List (StoredQuote W) → List (StoredQuote W)
  unfolding ordered_sources insert
  merge_snapshot_sources latest refreshed = ordered_sources (merged latest refreshed)

  -- The sign of the zero that `.sum::<f64>()` starts from does not show in a sum of positive prices.
  unfoldable pub summarize_prices : List (StoredQuote W) → Option W × Option W
  summarize_prices [] = (none, none)
  summarize_prices (q ∷ qs) =
      let prices = map (λ (r : StoredQuote W). r.price_usd) (q ∷ qs) in
      (
        some (f.div (fold f.add f.zero prices) (f.of_ℕ (length (q ∷ qs)))),
        some (f.sub (fold f.max f.neg_infinity prices) (fold f.min f.infinity prices)),
      )
