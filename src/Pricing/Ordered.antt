-- ===== src/Pricing/Ordered.antt =====
-- The order of a merge is the order in which the store returns it.
use text.Mathlib.Text.{◌==◌}
use text.Mathlib.TextEquality.{eq_iff}
use bitcoin_price_tracker.Prelude.{
  ℕ, ◌+◌, ◌≤◌, Bool, true, false, ◌&&◌, not, List, [], ◌∷◌, Option, none, some, String, all, ◌≡◌,
  refl, arith,
}
use bitcoin_price_tracker.Prelude.Order.{compare_swap}
use bitcoin_price_tracker.Dict.{Dict, lookup}
use bitcoin_price_tracker.Models.{StoredQuote}
use bitcoin_price_tracker.Source.{UpstreamSource, name}
use bitcoin_price_tracker.Storage.{source_rank, sorts_after, sort_by_source}
use bitcoin_price_tracker.Pricing.Merge.{
  comes_after, insert_by_source, sort_extras, values, push_quote,
}
use bitcoin_price_tracker.Pricing.Merged.{Keyed}

module _ {W : Type 0} where
  -- No quote sorts after the next one.
  abbrev pub follows : StoredQuote W → List (StoredQuote W) → Bool
  follows q [] = true
  follows q (r ∷ rs) = not (sorts_after q.source r.source) && follows r rs

  abbrev pub in_order : List (StoredQuote W) → Bool
  in_order [] = true
  in_order (q ∷ qs) = follows q qs

  pub sort_by_source_id :
      (qs : List (StoredQuote W)) → in_order qs ≡ true → sort_by_source (λ q. q.source) qs ≡ qs
  unfolding sort_by_source
  sort_by_source_id [] h = refl
  sort_by_source_id (q ∷ []) h = refl
  sort_by_source_id (q ∷ r ∷ rs) h = ground (arith, sort_by_source_id (r ∷ rs))

  abbrev pub is_extra : StoredQuote W → Bool
  is_extra q =
      not (q.source == "CoinGecko")
      && not (q.source == "Coinbase")
      && not (q.source == "Kraken")
      && not (q.source == "Gemini")

  rank_of_extra : (q : StoredQuote W) → is_extra q ≡ true → source_rank q.source ≡ 99
  unfolding source_rank
  rank_of_extra q h = ground arith

  -- Extras are compared by their names.
  sorts_after-extra :
      (q r : StoredQuote W)
      → is_extra q ≡ true
      → is_extra r ≡ true
      → sorts_after q.source r.source ≡ comes_after q r
  unfolding sorts_after
  sorts_after-extra q r h k = rw (rank_of_extra q h) (rw (rank_of_extra r k) refl)

  insert_by_source-all :
      (q : StoredQuote W) (qs : List (StoredQuote W))
      → is_extra q ≡ true
      → all is_extra qs ≡ true
      → all is_extra (insert_by_source q qs) ≡ true
  unfolding insert_by_source
  insert_by_source-all q [] h k = ground arith
  insert_by_source-all q (r ∷ rs) h k = ground (arith, insert_by_source-all q rs)

  comes_after_swap : (q r : StoredQuote W) → comes_after q r ≡ true → comes_after r q ≡ false
  comes_after_swap q r h = ground (arith, compare_swap q.source r.source)

  follows-insert_by_source :
      (p q : StoredQuote W) (qs : List (StoredQuote W))
      → is_extra p ≡ true
      → is_extra q ≡ true
      → all is_extra qs ≡ true
      → follows p qs ≡ true
      → comes_after p q ≡ false
      → follows p (insert_by_source q qs) ≡ true
  unfolding insert_by_source
  follows-insert_by_source p q [] hp hq hs h k = rw (sorts_after-extra p q hp hq) (rw k refl)
  follows-insert_by_source p q (r ∷ rs) hp hq hs h k =
      let hr : is_extra r ≡ true = ground arith in
      ground (
        arith,
        sorts_after-extra p q hp hq,
        sorts_after-extra q r hq hr,
        comes_after_swap q r,
        follows-insert_by_source r q rs hr hq,
      )

  in_order-insert_by_source :
      (q : StoredQuote W) (qs : List (StoredQuote W))
      → is_extra q ≡ true
      → all is_extra qs ≡ true
      → in_order qs ≡ true
      → in_order (insert_by_source q qs) ≡ true
  unfolding insert_by_source
  in_order-insert_by_source q [] hq hs h = refl
  in_order-insert_by_source q (r ∷ rs) hq hs h =
      let hr : is_extra r ≡ true = ground arith in
      ground (
        arith,
        sorts_after-extra q r hq hr,
        comes_after_swap q r,
        follows-insert_by_source r q rs hr hq,
      )

  pub sort_extras_lem :
      (qs : List (StoredQuote W))
      → all is_extra qs ≡ true
      → (all is_extra (sort_extras qs) ≡ true) × (in_order (sort_extras qs) ≡ true)
  unfolding sort_extras
  sort_extras_lem [] h = (refl, refl)
  sort_extras_lem (q ∷ qs) h =
      let hq : is_extra q ≡ true = ground arith in
      let ih = sort_extras_lem qs (ground arith) in
      (
        insert_by_source-all q (sort_extras qs) hq ih.0,
        in_order-insert_by_source q (sort_extras qs) hq ih.0 ih.1,
      )

  -- The first quote, if there is one, has at least the rank.
  abbrev pub StartsAt : ℕ → List (StoredQuote W) → Type 0
  StartsAt n [] = Unit
  StartsAt n (q ∷ qs) = n ≤ source_rank q.source

  pub StartsAt-extras : (qs : List (StoredQuote W)) → all is_extra qs ≡ true → StartsAt 4 qs
  StartsAt-extras [] h = tt
  StartsAt-extras (q ∷ qs) h = ground (arith, rank_of_extra q)

  -- A provider's quote, put before quotes of a higher rank.
  pub push_quote_lem :
      (p : UpstreamSource) (n : ℕ) (o : Option (StoredQuote W)) (qs : List (StoredQuote W))
      → ((q : StoredQuote W) → o ≡ some q → q.source ≡ name p)
      → source_rank (name p) ≡ n
      → StartsAt (n + 1) qs × (in_order qs ≡ true)
      → StartsAt n (push_quote o qs) × (in_order (push_quote o qs) ≡ true)
  unfolding sorts_after
  push_quote_lem p n none [] s r h = h
  push_quote_lem p n none (t ∷ ts) s r h = (omega arith, h.1)
  push_quote_lem p n (some q) [] s r h = (rw (s q refl) (omega arith), refl)
  push_quote_lem p n (some q) (t ∷ ts) s r h =
      let e : source_rank q.source ≡ n = rw (s q refl) r in (omega arith, ground (arith, e))

  pub values_without :
      (key : String) (d : Dict (StoredQuote W))
      → Keyed d
      → lookup key d ≡ none
      → all (λ q. not (q.source == key)) (values d) ≡ true
  unfolding lookup
  values_without key [] k h = refl
  values_without key ((other, q) ∷ rest) k h =
      let same = k.0 in
      ground (arith, values_without key rest k.1, eq_iff q.source key, eq_iff other key)

  pub all_extra :
      (qs : List (StoredQuote W))
      → all (λ q. not (q.source == "CoinGecko")) qs ≡ true
      → all (λ q. not (q.source == "Coinbase")) qs ≡ true
      → all (λ q. not (q.source == "Kraken")) qs ≡ true
      → all (λ q. not (q.source == "Gemini")) qs ≡ true
      → all is_extra qs ≡ true
  all_extra [] a b c d = refl
  all_extra (q ∷ qs) a b c d = ground (arith, all_extra qs)
