-- ===== src/Pricing/Reload.antt =====
-- A merge is in the order in which the store returns its quotes.
use text.Mathlib.TextEquality.{eq_iff}
use bitcoin_price_tracker.Prelude.{◌+◌, true, List, Option, none, String, ◌≡◌, refl, arith}
use bitcoin_price_tracker.Dict.{Dict, lookup, remove, Unique, lookup-remove, remove-Unique}
use bitcoin_price_tracker.Float.{Float64}
use bitcoin_price_tracker.Models.{StoredQuote, SnapshotRecord}
use bitcoin_price_tracker.Source.{UpstreamSource, coin_gecko, coinbase, kraken, gemini, name}
use bitcoin_price_tracker.Storage.{source_rank, sort_by_source}
use bitcoin_price_tracker.Pricing.Merge.{
  sort_extras, values, push_quote, ordered_sources, merged, merge_snapshot_sources,
}
use bitcoin_price_tracker.Pricing.Merged.{Keyed, remove-Keyed, lookup-source, merged-Keyed}
use bitcoin_price_tracker.Pricing.Ordered.{
  in_order, StartsAt, push_quote_lem, values_without, all_extra, StartsAt-extras, sort_extras_lem,
  sort_by_source_id,
}

module _ {W : Type 0} where
  -- Each quote under its own source, each source once.
  abbrev pub IsMap : Dict (StoredQuote W) → Type 0
  IsMap d = Keyed d × Unique d

  remove-IsMap : (key : String) (d : Dict (StoredQuote W)) → IsMap d → IsMap (remove key d)
  remove-IsMap key d m = (remove-Keyed key d m.0, remove-Unique key d m.1)

  removed : (key : String) (d : Dict (StoredQuote W)) → IsMap d → lookup key (remove key d) ≡ none
  removed key d m = ground (arith, lookup-remove key key d m.1, eq_iff key key)

  still_removed :
      (key other : String) (d : Dict (StoredQuote W))
      → IsMap d
      → lookup other d ≡ none
      → lookup other (remove key d) ≡ none
  still_removed key other d m e = ground (arith, lookup-remove key other d m.1)

  push_lem :
      (p : UpstreamSource) (d : Dict (StoredQuote W)) (qs : List (StoredQuote W))
      → IsMap d
      → StartsAt (source_rank (name p) + 1) qs × (in_order qs ≡ true)
      → StartsAt (source_rank (name p)) (push_quote (lookup (name p) d) qs)
        × (in_order (push_quote (lookup (name p) d) qs) ≡ true)
  push_lem p d qs m h =
      push_quote_lem p (source_rank (name p)) (lookup (name p) d) qs
        (λ q e. lookup-source (name p) d q m.0 e) refl h

  ordered_sources_lem : (d : Dict (StoredQuote W)) → IsMap d → in_order (ordered_sources d) ≡ true
  unfolding ordered_sources source_rank
  ordered_sources_lem d m =
      let d1 = remove "CoinGecko" d in
      let m1 = remove-IsMap "CoinGecko" d m in
      let d2 = remove "Coinbase" d1 in
      let m2 = remove-IsMap "Coinbase" d1 m1 in
      let d3 = remove "Kraken" d2 in
      let m3 = remove-IsMap "Kraken" d2 m2 in
      let d4 = remove "Gemini" d3 in
      let m4 = remove-IsMap "Gemini" d3 m3 in
      let g1 = removed "CoinGecko" d m in
      let g2 = still_removed "Coinbase" "CoinGecko" d1 m1 g1 in
      let g3 = still_removed "Kraken" "CoinGecko" d2 m2 g2 in
      let g4 = still_removed "Gemini" "CoinGecko" d3 m3 g3 in
      let c2 = removed "Coinbase" d1 m1 in
      let c3 = still_removed "Kraken" "Coinbase" d2 m2 c2 in
      let c4 = still_removed "Gemini" "Coinbase" d3 m3 c3 in
      let k3 = removed "Kraken" d2 m2 in
      let k4 = still_removed "Gemini" "Kraken" d3 m3 k3 in
      let extras =
        all_extra (values d4) (values_without "CoinGecko" d4 m4.0 g4)
          (values_without "Coinbase" d4 m4.0 c4) (values_without "Kraken" d4 m4.0 k4)
          (values_without "Gemini" d4 m4.0 (removed "Gemini" d3 m3)) in
      let sorted = sort_extras_lem (values d4) extras in
      let q4 =
        push_lem gemini d3 (sort_extras (values d4)) m3
          (StartsAt-extras (sort_extras (values d4)) sorted.0, sorted.1) in
      let q3 = push_lem kraken d2 _ m2 q4 in
      let q2 = push_lem coinbase d1 _ m1 q3 in (push_lem coin_gecko d _ m q2).1

module _ {W : Type 0} ⦃f : Float64 W⦄ where
  -- A merge is in the order in which the store returns its quotes, so sorting it for a load changes
  -- nothing.
  pub sort_by_source-merge_snapshot_sources :
      (latest : Option (SnapshotRecord W)) (refreshed : List (StoredQuote W))
      → sort_by_source (λ q. q.source) (merge_snapshot_sources latest refreshed)
        ≡ merge_snapshot_sources latest refreshed
  sort_by_source-merge_snapshot_sources latest refreshed =
      sort_by_source_id (merge_snapshot_sources latest refreshed) (
        unfold merge_snapshot_sources in
        ordered_sources_lem (merged latest refreshed) (merged-Keyed latest refreshed))
