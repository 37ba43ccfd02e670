-- ===== src/Freshness/Range.antt =====
-- The spread of the contributing prices, and what cannot influence an evaluation.
use bitcoin_price_tracker.Prelude.{
  ◌≡◌, refl, sym, ap, true, false, ◌⊎◌, inl, inr, List, [], ◌∷◌, ◌++◌, map, some, arith, length,
  keep, All, Bool-cases, Option-cases,
}
use mathlib.Core.Path.{subst, ap₂}
use mathlib.Core.Option.{some-injective}
use bitcoin_price_tracker.Float.Extremes.{OneOf, IsFinite, min_lem, max_lem}
use bitcoin_price_tracker.Time.{UnixTime}
use bitcoin_price_tracker.Float.{Float64, IsFloat, ◌≼◌}
use bitcoin_price_tracker.Models.{StoredQuote, ProviderHealth, SourceResponse}
use bitcoin_price_tracker.Source.{UpstreamSource, all_sources, source_count}
use bitcoin_price_tracker.Freshness.{
  is_fresh_tag, is_fresh_from, classify, contributors_of, contributor, push_some, price, respond,
  is_usable, responses, newest, average_of, spread_of, evaluate_quotes,
}
use bitcoin_price_tracker.Freshness.Newest.{Among, contributor_newest}

All-Among :
    {W : Type 0} (P : SourceResponse W → Type 0) (rs : List (SourceResponse W))
    (m : SourceResponse W)
    → All P rs
    → Among m rs
    → P m
All-Among P [] m h a = absurd a
All-Among P (r ∷ rs) m h (inl e) = subst P (sym e) h.0
All-Among P (r ∷ rs) m h (inr a) = All-Among P rs m h.1 a

All-contributors_of :
    {W : Type 0} (P : SourceResponse W → Type 0) (sources : List (SourceResponse W))
    (ps : List UpstreamSource)
    → All P sources
    → All P (contributors_of sources ps)
unfolding contributors_of
All-contributors_of P sources [] h = tt
All-contributors_of P sources (p ∷ ps) h = elim (Option-cases (contributor sources p)) [
  | inl e ↦ rw e (All-contributors_of P sources ps h)
  | inr (m, e) ↦ rw e (
    All-Among P sources m h (contributor_newest sources p m e).0,
    All-contributors_of P sources ps h,
  )
]

module _ {W : Type 0} ⦃f : Float64 W⦄ where
  abbrev pub HasFinitePrice : SourceResponse W → Type 0
  HasFinitePrice r = f.is_finite (price r) ≡ true

  HasFinitePrice-responses :
      (quotes : List (StoredQuote W)) (now : UnixTime) → All HasFinitePrice (responses quotes now)
  unfolding responses
  HasFinitePrice-responses [] now = tt
  HasFinitePrice-responses (q ∷ quotes) now = elim (Bool-cases (is_usable q)) [
    | inl u ↦ rw u (ground arith, HasFinitePrice-responses quotes now)
    | inr u ↦ rw u (HasFinitePrice-responses quotes now)
  ]

  -- A quote that is not usable, or not fresh, cannot contribute.
  keep_drop :
      (p : UpstreamSource) (r : SourceResponse W) (xs ys : List (SourceResponse W))
      → is_fresh_tag r.freshness ≡ false
      → keep (is_fresh_from p) (xs ++ r ∷ ys) ≡ keep (is_fresh_from p) (xs ++ ys)
  keep_drop p r [] ys h = ground arith
  keep_drop p r (x ∷ xs) ys h = ground (arith, keep_drop p r xs ys h)

  contributors_of-drop :
      (r : SourceResponse W) (xs ys : List (SourceResponse W)) (ps : List UpstreamSource)
      → is_fresh_tag r.freshness ≡ false
      → contributors_of (xs ++ r ∷ ys) ps ≡ contributors_of (xs ++ ys) ps
  unfolding contributors_of
  contributors_of-drop r xs ys [] h = refl
  contributors_of-drop r xs ys (p ∷ ps) h =
      ap₂ push_some (ap newest (keep_drop p r xs ys h)) (contributors_of-drop r xs ys ps h)

  responses-append :
      (xs ys : List (StoredQuote W)) (now : UnixTime)
      → responses (xs ++ ys) now ≡ responses xs now ++ responses ys now
  unfolding responses
  responses-append [] ys now = refl
  responses-append (q ∷ xs) ys now = elim (Bool-cases (is_usable q)) [
    | inl u ↦ rw u (rw (responses-append xs ys now))
    | inr u ↦ rw u (responses-append xs ys now)
  ]

  responses_usable :
      (q : StoredQuote W) (ys : List (StoredQuote W)) (now : UnixTime)
      → is_usable q ≡ true
      → responses (q ∷ ys) now ≡ respond now q ∷ responses ys now
  unfolding responses
  responses_usable q ys now u = rw u

  responses_unusable :
      (q : StoredQuote W) (ys : List (StoredQuote W)) (now : UnixTime)
      → is_usable q ≡ false
      → responses (q ∷ ys) now ≡ responses ys now
  unfolding responses
  responses_unusable q ys now u = rw u

  contributors-drop :
      (q : StoredQuote W) (xs ys : List (StoredQuote W)) (now : UnixTime)
      → (is_usable q ≡ false)
        ⊎ (is_fresh_tag (classify q.source q.last_success_at_unix now) ≡ false)
      → contributors_of (responses (xs ++ q ∷ ys) now) all_sources
        ≡ contributors_of (responses (xs ++ ys) now) all_sources
  contributors-drop q xs ys now h = elim (Bool-cases (is_usable q)) [
    | inl u ↦ rw responses-append (
        rw responses-append (
          rw (responses_usable q ys now u) (
            contributors_of-drop (respond now q) (responses xs now) (responses ys now) all_sources
              (ground (arith, u)))))
    | inr u ↦ rw responses-append (rw responses-append (rw (responses_unusable q ys now u)))
  ]

  -- Average, spread and coverage do not depend on a stored quote that is unusable or not fresh,
  -- wherever it stands.
  pub evaluate_quotes-ignores :
      (q : StoredQuote W) (xs ys : List (StoredQuote W)) (health : List ProviderHealth)
      (now : UnixTime)
      → (is_usable q ≡ false)
        ⊎ (is_fresh_tag (classify q.source q.last_success_at_unix now) ≡ false)
      → ((evaluate_quotes (xs ++ q ∷ ys) health now).average_price
          ≡ (evaluate_quotes (xs ++ ys) health now).average_price)
        × ((evaluate_quotes (xs ++ q ∷ ys) health now).spread
            ≡ (evaluate_quotes (xs ++ ys) health now).spread)
        × ((evaluate_quotes (xs ++ q ∷ ys) health now).coverage
            ≡ (evaluate_quotes (xs ++ ys) health now).coverage)
  unfolding evaluate_quotes
  evaluate_quotes-ignores q xs ys health now h =
      let e = contributors-drop q xs ys now h in
      (
        ap average_of e,
        ap spread_of e,
        ap
            (λ (cs : List (SourceResponse W)). record {
              configured_source_count = source_count;
              fresh_source_count = length cs;
              contributing_sources = map (λ r. r.quote.source) cs;
            })
            e,
      )

module _ {W : Type 0} ⦃f : Float64 W⦄ (laws : IsFloat W) where
  -- The prices that are averaged.
  abbrev pub contributing_prices : List (StoredQuote W) → UnixTime → List W
  contributing_prices quotes now = map price (contributors_of (responses quotes now) all_sources)

  IsFinite-price :
      (rs : List (SourceResponse W)) → All HasFinitePrice rs → All (IsFinite laws) (map price rs)
  IsFinite-price [] h = tt
  IsFinite-price (r ∷ rs) h = (h.0, IsFinite-price rs h.1)

  spread_range :
      (rs : List (SourceResponse W)) (x : W)
      → All HasFinitePrice rs
      → spread_of rs ≡ some x
      → (low : W) × (high : W) × (x ≡ f.sub high low)
        × OneOf low (map price rs)
        × OneOf high (map price rs)
        × All (λ y. low ≼ y) (map price rs)
        × All (λ y. y ≼ high) (map price rs)
  unfolding spread_of
  spread_range [] x h e = cc
  spread_range (r ∷ rs) x h e =
      let (a, b) = min_lem laws (price r) (map price rs) (IsFinite-price (r ∷ rs) h) in
      let (c, d) = max_lem laws (price r) (map price rs) (IsFinite-price (r ∷ rs) h) in
      (_, _, sym (some-injective _ _ e), a, c, b, d)

  -- The spread is the difference between the greatest and the least contributing price.
  pub evaluate_quotes-spread :
      (quotes : List (StoredQuote W)) (health : List ProviderHealth) (now : UnixTime) (x : W)
      → (evaluate_quotes quotes health now).spread ≡ some x
      → let prices = contributing_prices quotes now in
        (low : W) × (high : W) × (x ≡ f.sub high low)
        × OneOf low prices
        × OneOf high prices
        × All (λ y. low ≼ y) prices
        × All (λ y. y ≼ high) prices
  unfolding evaluate_quotes
  evaluate_quotes-spread quotes health now x h =
      let sources = responses quotes now in
      spread_range (contributors_of sources all_sources) x
        (All-contributors_of HasFinitePrice sources all_sources
          (HasFinitePrice-responses quotes now))
        h
