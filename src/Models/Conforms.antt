-- ===== src/Models/Conforms.antt =====
-- JSON values that pass the tests of Models.Contract.
use bitcoin_price_tracker.Prelude.{
  length, ◌≤◌, ℤ, pos, negsuc, Bool, true, false, ◌&&◌, ◌≡◌, refl, ap, List, [], ◌∷◌, map, Option,
  none, some, String, arith, if_holds,
}
use bitcoin_price_tracker.Float.{Float64}
use bitcoin_price_tracker.Models.{
  QuoteKind, aggregate, spot, last_trade, bid, ErrorCategory, timeout, transport, http,
  invalid_payload, invalid_price, SourceError, LastAttempt, ProviderHealth, SourceFreshness,
  is_fresh, is_stale, is_unknown, is_future, PriceStatus, live, degraded, stale, unavailable,
  AggregateCoverage,
}
use bitcoin_price_tracker.Models.Wire.{
  Value, or_null, natural, items_of, quote_kind_name, freshness_name, price_status_name, decimal,
  null, error_category_name, source_error_value, last_attempt_value, provider_health_value,
  coverage_value, number, string, integer,
}
use bitcoin_price_tracker.Models.Contract.{
  item_count, Check, is_natural, is_string, is_decimal, is_nullable, all_items, is_quote_kind,
  is_freshness, is_price_status, is_error_category, is_error, is_last_attempt, is_provider_health,
  age_matches, is_coverage,
}

pub all_three : (a b c : Bool) → a ≡ true → b ≡ true → c ≡ true → (a && b && c) ≡ true
all_three a b c h k l = rw h (rw k (rw l refl))

pub both : (a b : Bool) → a ≡ true → b ≡ true → (a && b) ≡ true
both a b h k = rw h (rw k refl)

module _ {W : Type 0} where
  pub or_null_lem :
      {A : Type 0}
      → (check : Check W) (f : A → Value W) → ((x : A) → is_nullable check (f x) ≡ true)
      → (x : Option A) → is_nullable check (or_null f x) ≡ true
  or_null_lem check f each none = refl
  or_null_lem check f each (some x) = each x

  pub all_items-map :
      {A : Type 0}
      → (check : Check W) (f : A → Value W) → ((x : A) → check (f x) ≡ true)
      → (xs : List A) → all_items check (items_of (map f xs)) ≡ true
  all_items-map check f each [] = refl
  all_items-map check f each (x ∷ xs) = rw (each x) (all_items-map check f each xs)

module _ (W : Type 0) where
  pub is_error_category_lem :
      (c : ErrorCategory) → is_error_category {W = W} (string (error_category_name c)) ≡ true
  is_error_category_lem timeout = refl
  is_error_category_lem transport = refl
  is_error_category_lem http = refl
  is_error_category_lem invalid_payload = refl
  is_error_category_lem invalid_price = refl

  pub is_error_lem : (e : SourceError) → is_error (source_error_value {W = W} e) ≡ true
  is_error_lem e =
      rw (is_error_category_lem e.category)
        (rw (or_null_lem is_natural natural (λ n. refl) e.http_status) refl)

  pub is_last_attempt_lem :
      (a : LastAttempt) → is_last_attempt (last_attempt_value {W = W} a) ≡ true
  is_last_attempt_lem LastAttempt.unknown = refl
  is_last_attempt_lem (LastAttempt.success at) = refl
  is_last_attempt_lem (LastAttempt.failure at e) = ap (λ b. b && true) (is_error_lem e)

  pub is_provider_health_lem :
      (h : ProviderHealth) → is_provider_health (provider_health_value {W = W} h) ≡ true
  is_provider_health_lem h = rw (is_last_attempt_lem h.last_attempt) refl

  pub item_count-map :
      (names : List String) → item_count {W = W} (items_of (map string names)) ≡ length names
  item_count-map [] = refl
  item_count-map (name ∷ names) = ground (arith, item_count-map names)

  pub is_coverage_lem :
      (c : AggregateCoverage)
      → c.fresh_source_count ≡ length c.contributing_sources
      → c.fresh_source_count ≤ c.configured_source_count
      → is_coverage (coverage_value {W = W} c) ≡ true
  is_coverage_lem c counted bounded =
      rw (all_items-map is_string string (λ s. refl) c.contributing_sources)
        (ground (arith, item_count-map c.contributing_sources))

-- An age and a freshness as they come together.
abbrev pub agree : Option ℤ → SourceFreshness → Bool
agree (some (pos n)) is_future = false
agree (some (pos n)) _ = true
agree (some (negsuc n)) _ = false
agree none is_future = true
agree none is_unknown = true
agree none _ = false

abbrev pub is_age : Option ℤ → Bool
is_age (some (negsuc n)) = false
is_age _ = true

module _ (W : Type 0) where
  pub is_quote_kind_lem :
      (k : QuoteKind) → is_quote_kind {W = W} (string (quote_kind_name k)) ≡ true
  is_quote_kind_lem aggregate = refl
  is_quote_kind_lem spot = refl
  is_quote_kind_lem last_trade = refl
  is_quote_kind_lem bid = refl
  is_quote_kind_lem QuoteKind.unknown = refl

  pub is_freshness_lem :
      (s : SourceFreshness) → is_freshness {W = W} (string (freshness_name s)) ≡ true
  is_freshness_lem is_fresh = refl
  is_freshness_lem is_stale = refl
  is_freshness_lem is_unknown = refl
  is_freshness_lem is_future = refl

  pub is_price_status_lem :
      (s : PriceStatus) → is_price_status {W = W} (string (price_status_name s)) ≡ true
  is_price_status_lem live = refl
  is_price_status_lem degraded = refl
  is_price_status_lem stale = refl
  is_price_status_lem unavailable = refl

  -- Both tests of an age, where it agrees with the freshness.
  pub age_matches_lem :
      (age : Option ℤ) (s : SourceFreshness)
      → agree age s ≡ true
      → (is_nullable is_natural (or_null {W = W} integer age) ≡ true)
        × (age_matches {W = W} (or_null integer age) (string (freshness_name s)) ≡ true)
  age_matches_lem none is_fresh h = cc
  age_matches_lem none is_stale h = cc
  age_matches_lem none is_unknown h = (refl, refl)
  age_matches_lem none is_future h = (refl, refl)
  age_matches_lem (some (pos n)) is_fresh h = (refl, refl)
  age_matches_lem (some (pos n)) is_stale h = (refl, refl)
  age_matches_lem (some (pos n)) is_unknown h = (refl, refl)
  age_matches_lem (some (pos n)) is_future h = cc
  age_matches_lem (some (negsuc n)) s h = cc

  pub natural_lem :
      (age : Option ℤ)
      → is_age age ≡ true
      → is_nullable is_natural (or_null {W = W} integer age) ≡ true
  natural_lem none h = refl
  natural_lem (some (pos n)) h = refl
  natural_lem (some (negsuc n)) h = cc

module _ {W : Type 0} ⦃f : Float64 W⦄ where
  pub number_lem : (x : W) → is_nullable is_decimal (number x) ≡ true
  number_lem x =
      if_holds (λ v. is_nullable is_decimal v ≡ true) (f.is_finite x) (decimal x) null refl refl
