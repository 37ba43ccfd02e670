-- ===== src/Pricing/Merged.antt =====
-- What a merge of refreshed with stored quotes holds, as a map from names to quotes.
use text.Mathlib.Text.{◌==◌}
use text.Mathlib.TextEquality.{eq_iff}
use bitcoin_price_tracker.Prelude.{
  List, [], ◌∷◌, Option, none, some, String, if◌then◌else◌, keep, fold, find, ◌≡◌, refl, ◌∙◌, arith,
  Option-cases, inl, inr,
}
use bitcoin_price_tracker.Prelude.Results.{or_else}
use bitcoin_price_tracker.Dict.{
  Dict, lookup, insert, remove, Unique, lookup-insert, lookup-remove, insert-Unique, remove-Unique,
}
use bitcoin_price_tracker.Float.{Float64}
use bitcoin_price_tracker.Models.{StoredQuote, SnapshotRecord}
use bitcoin_price_tracker.Source.{UpstreamSource, all_sources, name}
use bitcoin_price_tracker.Freshness.{is_usable}
use bitcoin_price_tracker.Pricing.Merge.{
  insert_by_source, sort_extras, values, ordered_from, record_quote, stored_quotes, merged,
  merge_snapshot_sources,
}

module _ {W : Type 0} where
  -- The quote of a source, the first and the last one in a list.
  abbrev pub first_of : String → List (StoredQuote W) → Option (StoredQuote W)
  first_of source = find (λ q. q.source == source)

  abbrev pub last_of : String → List (StoredQuote W) → Option (StoredQuote W)
  last_of source [] = none
  last_of source (q ∷ qs) =
      or_else (last_of source qs) (if q.source == source then some q else none)

  lookup-fold :
      (source : String) (prices : Dict (StoredQuote W)) (qs : List (StoredQuote W))
      → lookup source (fold record_quote prices qs)
        ≡ or_else (last_of source qs) (lookup source prices)
  lookup-fold source prices [] = refl
  lookup-fold source prices (q ∷ qs) =
      ground (
        arith,
        lookup-fold source (record_quote prices q) qs,
        lookup-insert q.source source q prices,
      )

  -- Each quote stands under its own source.
  abbrev pub Keyed : Dict (StoredQuote W) → Type 0
  Keyed [] = Unit
  Keyed ((key, quote) ∷ rest) = (quote.source ≡ key) × Keyed rest

  insert-Keyed :
      (q : StoredQuote W) (d : Dict (StoredQuote W)) → Keyed d → Keyed (insert q.source q d)
  unfolding insert
  insert-Keyed q [] k = (refl, tt)
  insert-Keyed q ((key, quote) ∷ rest) k =
      ground (arith, insert-Keyed q rest k.1, eq_iff key q.source)

  pub remove-Keyed : (key : String) (d : Dict (StoredQuote W)) → Keyed d → Keyed (remove key d)
  unfolding remove
  remove-Keyed key [] k = tt
  remove-Keyed key ((other, quote) ∷ rest) k = ground (arith, remove-Keyed key rest k.1)

  fold-Keyed :
      (d : Dict (StoredQuote W)) (qs : List (StoredQuote W))
      → Keyed d × Unique d
      → Keyed (fold record_quote d qs) × Unique (fold record_quote d qs)
  fold-Keyed d [] h = h
  fold-Keyed d (q ∷ qs) h =
      fold-Keyed (record_quote d q) qs (insert-Keyed q d h.0, insert-Unique q.source q d h.1)

  pub lookup-source :
      (key : String) (d : Dict (StoredQuote W)) (q : StoredQuote W)
      → Keyed d
      → lookup key d ≡ some q
      → q.source ≡ key
  unfolding lookup
  lookup-source key [] q k h = cc
  lookup-source key ((other, quote) ∷ rest) q k h =
      ground (arith, eq_iff other key, lookup-source key rest q k.1)

  first_of-insert_by_source :
      (source : String) (q : StoredQuote W) (qs : List (StoredQuote W))
      → first_of source (insert_by_source q qs)
        ≡ (if q.source == source then some q else first_of source qs)
  unfolding insert_by_source
  first_of-insert_by_source source q [] = refl
  first_of-insert_by_source source q (r ∷ rs) = ground (
    arith,
    first_of-insert_by_source source q rs,
    eq_iff q.source source,
    eq_iff r.source source,
    eq_iff q.source r.source,
  )

  first_of-sort_extras :
      (source : String) (qs : List (StoredQuote W))
      → first_of source (sort_extras qs) ≡ first_of source qs
  unfolding sort_extras
  first_of-sort_extras source [] = refl
  first_of-sort_extras source (q ∷ qs) =
      ground
        (arith, first_of-sort_extras source qs, first_of-insert_by_source source q (sort_extras qs))

  first_of-values :
      (source : String) (d : Dict (StoredQuote W))
      → Keyed d
      → first_of source (values d) ≡ lookup source d
  unfolding lookup
  first_of-values source [] k = refl
  first_of-values source ((key, quote) ∷ rest) k = ground (arith, first_of-values source rest k.1)

  first_of-ordered_from :
      (source : String) (ps : List UpstreamSource) (d : Dict (StoredQuote W))
      → Keyed d
      → Unique d
      → first_of source (ordered_from ps d) ≡ lookup source d
  unfolding ordered_from
  first_of-ordered_from source [] d k u =
      first_of-sort_extras source (values d) ∙ first_of-values source d k
  first_of-ordered_from source (p ∷ ps) d k u =
      let ih =
        first_of-ordered_from source ps (remove (name p) d) (remove-Keyed (name p) d k)
          (remove-Unique (name p) d u) in
      let removed = lookup-remove (name p) source d u in
      elim (Option-cases (lookup (name p) d)) [
        | inl e ↦ ground (arith, ih, removed, e, eq_iff (name p) source)
        | inr (q, e) ↦
            let same = lookup-source (name p) d q k e in
            ground (arith, ih, removed, e, same, eq_iff (name p) source, eq_iff q.source source)
      ]

module _ {W : Type 0} ⦃f : Float64 W⦄ (latest : Option (SnapshotRecord W))
    (refreshed : List (StoredQuote W)) where
  pub merged-Keyed : Keyed (merged latest refreshed) × Unique (merged latest refreshed)
  merged-Keyed =
      fold-Keyed (fold record_quote [] (keep is_usable (stored_quotes latest))) refreshed
        (fold-Keyed [] (keep is_usable (stored_quotes latest)) (tt, tt))

  -- A merge holds for each source the last refreshed quote of it; without one, the last stored quote
  -- of it whose price is finite and positive; and else nothing.
  pub first_of-merge_snapshot_sources :
      (source : String)
      → first_of source (merge_snapshot_sources latest refreshed)
        ≡ or_else
            (last_of source refreshed)
            (last_of source (keep is_usable (stored_quotes latest)))
  unfolding merge_snapshot_sources
  first_of-merge_snapshot_sources source =
      first_of-ordered_from source all_sources (merged latest refreshed) merged-Keyed.0
        merged-Keyed.1
      ∙ ground (
        arith,
        lookup-fold source (fold record_quote [] (keep is_usable (stored_quotes latest))) refreshed,
        lookup-fold source [] (keep is_usable (stored_quotes latest)),
      )
