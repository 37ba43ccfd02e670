-- ===== src/Pricing/Positive.antt =====
-- Every price that a refresh saves is finite and positive.
use bitcoin_price_tracker.Prelude.{
  Bool, true, false, ◌&&◌, not, List, [], ◌∷◌, Option, some, String, all, any, keep, fold, ◌≡◌,
  refl, arith, Option-cases, Bool-cases, inl, inr,
}
use bitcoin_price_tracker.Prelude.Results.{Result, ok, err, ◌>>=◌}
use bitcoin_price_tracker.Dict.{Dict, lookup, insert, remove}
use bitcoin_price_tracker.Float.{Float64, IsFloat}
use bitcoin_price_tracker.Errors.{Texts, ProviderError}
use bitcoin_price_tracker.Models.{StoredQuote, SourcePrice, SnapshotRecord, ProviderHealth}
use bitcoin_price_tracker.Time.{UnixTime}
use bitcoin_price_tracker.Source.{UpstreamSource, all_sources, name, is_chosen}
use bitcoin_price_tracker.Freshness.{is_usable}
use bitcoin_price_tracker.Storage.Write.{is_refused}
use bitcoin_price_tracker.Pricing.{Libraries, Response}
use bitcoin_price_tracker.Pricing.Decode.{fetch_json}
use bitcoin_price_tracker.Pricing.Payload.{price_of, fetch_round_robin_source}
use bitcoin_price_tracker.Pricing.Accepted.{IsPriceOf, price_of_iff}
use bitcoin_price_tracker.Pricing.Merge.{
  insert_by_source, sort_extras, values, ordered_from, ordered_sources, record_quote, stored_quotes,
  merged, merge_snapshot_sources,
}
use bitcoin_price_tracker.Pricing.Refresh.{
  Network, Observed, observe, result_of, fetch_from, refreshed_of, quote_of,
}

module _ {R H J V W : Type 0} ⦃f : Float64 W⦄ (lib : Libraries R H J V W) where
  priced :
      (source : UpstreamSource) (fetched : Result (ProviderError R J) V) (price : SourcePrice W)
      → (fetched >>= price_of lib source) ≡ ok price
      → IsPriceOf lib source price
  priced source (ok value) price h = ((price_of_iff lib source value price).0 h).1
  priced source (err e) price h = cc

  -- A fetch that succeeds has a finite positive price, under the name of its provider, whatever the
  -- answer was.
  pub fetch_round_robin_source-IsPriceOf :
      (source : UpstreamSource) (sent : Result R (Response R H)) (price : SourcePrice W)
      → fetch_round_robin_source lib source sent ≡ ok price
      → IsPriceOf lib source price
  unfolding fetch_round_robin_source
  fetch_round_robin_source-IsPriceOf source sent price h =
      priced source (fetch_json lib source sent) price h

module _ {W : Type 0} ⦃f : Float64 W⦄ where
  abbrev pub is_saved : StoredQuote W → Bool
  is_saved q = f.is_finite q.price_usd && not (f.le q.price_usd f.zero)

  abbrev pub all_saved : Dict (StoredQuote W) → Bool
  all_saved d = all is_saved (values d)

  insert-all_saved :
      (key : String) (q : StoredQuote W) (d : Dict (StoredQuote W))
      → is_saved q ≡ true
      → all_saved d ≡ true
      → all_saved (insert key q d) ≡ true
  unfolding insert
  insert-all_saved key q [] h k = ground arith
  insert-all_saved key q ((other, r) ∷ rest) h k = ground (arith, insert-all_saved key q rest)

  remove-all_saved :
      (key : String) (d : Dict (StoredQuote W))
      → all_saved d ≡ true
      → all_saved (remove key d) ≡ true
  unfolding remove
  remove-all_saved key [] k = refl
  remove-all_saved key ((other, r) ∷ rest) k = ground (arith, remove-all_saved key rest)

  lookup-is_saved :
      (key : String) (d : Dict (StoredQuote W)) (q : StoredQuote W)
      → all_saved d ≡ true
      → lookup key d ≡ some q
      → is_saved q ≡ true
  unfolding lookup
  lookup-is_saved key [] q k e = cc
  lookup-is_saved key ((other, r) ∷ rest) q k e = ground (arith, lookup-is_saved key rest q)

  fold-all_saved :
      (d : Dict (StoredQuote W)) (qs : List (StoredQuote W))
      → all_saved d ≡ true
      → all is_saved qs ≡ true
      → all_saved (fold record_quote d qs) ≡ true
  fold-all_saved d [] h k = h
  fold-all_saved d (q ∷ qs) h k =
      fold-all_saved (record_quote d q) qs (insert-all_saved q.source q d (ground arith) h)
        (ground arith)

  insert_by_source-all_saved :
      (q : StoredQuote W) (qs : List (StoredQuote W))
      → is_saved q ≡ true
      → all is_saved qs ≡ true
      → all is_saved (insert_by_source q qs) ≡ true
  unfolding insert_by_source
  insert_by_source-all_saved q [] h k = ground arith
  insert_by_source-all_saved q (r ∷ rs) h k = ground (arith, insert_by_source-all_saved q rs)

  sort_extras-all_saved :
      (qs : List (StoredQuote W)) → all is_saved qs ≡ true → all is_saved (sort_extras qs) ≡ true
  unfolding sort_extras
  sort_extras-all_saved [] h = refl
  sort_extras-all_saved (q ∷ qs) h =
      insert_by_source-all_saved q (sort_extras qs) (ground arith)
        (sort_extras-all_saved qs (ground arith))

  ordered_from-all_saved :
      (ps : List UpstreamSource) (d : Dict (StoredQuote W))
      → all_saved d ≡ true
      → all is_saved (ordered_from ps d) ≡ true
  unfolding ordered_from
  ordered_from-all_saved [] d h = sort_extras-all_saved (values d) h
  ordered_from-all_saved (p ∷ ps) d h =
      let ih = ordered_from-all_saved ps (remove (name p) d) (remove-all_saved (name p) d h) in
      elim (Option-cases (lookup (name p) d)) [
        | inl e ↦ rw e ih
        | inr (q, e) ↦ let saved = lookup-is_saved (name p) d q h e in rw e (ground arith)
      ]

  keep-all_saved : IsFloat W → (qs : List (StoredQuote W)) → all is_saved (keep is_usable qs) ≡ true
  keep-all_saved laws [] = refl
  keep-all_saved laws (q ∷ qs) =
      ground (arith, keep-all_saved laws qs, laws.lt-eq-not-le q.price_usd)

  any-is_refused : (qs : List (StoredQuote W)) → all is_saved qs ≡ true → any is_refused qs ≡ false
  any-is_refused [] h = refl
  any-is_refused (q ∷ qs) h = ground (arith, any-is_refused qs)

  -- The store refuses no price of a merge, if it refuses none of the refreshed ones.
  pub merge_snapshot_sources-is_refused :
      IsFloat W
      → (latest : Option (SnapshotRecord W)) (refreshed : List (StoredQuote W))
      → all is_saved refreshed ≡ true
      → any is_refused (merge_snapshot_sources latest refreshed) ≡ false
  unfolding merge_snapshot_sources ordered_sources
  merge_snapshot_sources-is_refused laws latest refreshed h =
      let kept = keep is_usable (stored_quotes latest) in
      any-is_refused (ordered_from all_sources (merged latest refreshed)) (
        ordered_from-all_saved all_sources (merged latest refreshed) (
          fold-all_saved (fold record_quote [] kept) refreshed
            (fold-all_saved [] kept refl (keep-all_saved laws (stored_quotes latest))) h))

module _ {R H J V W : Type 0} ⦃f : Float64 W⦄ (lib : Libraries R H J V W) (texts : Texts)
    (network : Network R H) where
  saved_quote :
      (p : UpstreamSource) (at : UnixTime) (o : ProviderHealth)
      (result : Result (ProviderError R J) (SourcePrice W))
      (rest : List (Observed lib texts network))
      → ((price : SourcePrice W) → result ≡ ok price → IsPriceOf lib p price)
      → all is_saved (refreshed_of rest) ≡ true
      → all is_saved (refreshed_of ((o, quote_of p at result) ∷ rest)) ≡ true
  saved_quote p at o (ok price) rest h k = ground (arith, h price)
  saved_quote p at o (err e) rest h k = k

  -- Every quote of a refresh is finite and positive.
  pub fetch_from-all_saved :
      (sources ps : List UpstreamSource)
      → all is_saved (refreshed_of (fetch_from lib texts network sources ps)) ≡ true
  unfolding fetch_from
  fetch_from-all_saved sources [] = refl
  fetch_from-all_saved sources (p ∷ ps) =
      let ih = fetch_from-all_saved sources ps in
      elim (Bool-cases (is_chosen p sources)) [
        | inl e ↦ rw e (
            saved_quote p (network.answered_at p) (observe lib texts network p).0
              (result_of lib texts network p) (fetch_from lib texts network sources ps)
              (fetch_round_robin_source-IsPriceOf lib p (network.sent p)) ih)
        | inr e ↦ rw e ih
      ]
