-- ===== src/Pricing/Accepted.antt =====
-- Which payloads of a provider are accepted, and as which price.
use text.Mathlib.TextEquality.{eq_iff}
use bitcoin_price_tracker.Prelude.{
  true, false, List, [], ◌∷◌, Option, none, some, String, ◌≡◌, ◌↔◌, ◌⊎◌, arith,
}
use bitcoin_price_tracker.Prelude.Text.{codes, eq_ignore_ascii_case}
use bitcoin_price_tracker.Prelude.Results.{ok, and_then, is_some_and}
use bitcoin_price_tracker.Float.{Float64}
use bitcoin_price_tracker.Models.{SourcePrice}
use bitcoin_price_tracker.Source.{UpstreamSource, coin_gecko, coinbase, kraken, gemini, name}
use bitcoin_price_tracker.Pricing.{Libraries}
use bitcoin_price_tracker.Pricing.Payload.{
  checked_price, parse_price, first, is_text, coingecko_price, coinbase_price, kraken_price,
  gemini_price, price_of,
}

module _ {R H J V W : Type 0} ⦃f : Float64 W⦄ (lib : Libraries R H J V W) where
  -- The value at the end of a path of keys.
  abbrev pub value_at : V → List String → Option V
  value_at value [] = some value
  value_at value (key ∷ keys) = elim (lib.get value key) [
    | none ↦ none
    | some inner ↦ value_at inner keys
  ]

  abbrev pub text_at : V → List String → Option String
  text_at value path = elim (value_at value path) [ none ↦ none | some inner ↦ lib.as_str inner ]

  abbrev pub list_at : V → List String → Option (List V)
  list_at value path = elim (value_at value path) [ none ↦ none | some inner ↦ lib.as_array inner ]

  abbrev pub number_of : Option String → Option W
  number_of none = none
  number_of (some text) = lib.parse_f64 text

  -- A finite positive price of the provider.
  abbrev pub IsPriceOf : UpstreamSource → SourcePrice W → Type 0
  IsPriceOf source price =
      (price.source ≡ name source)
      × (f.is_finite price.price_usd ≡ true)
      × (f.le price.price_usd f.zero ≡ false)

  -- What each provider has to answer for its price to count.
  abbrev pub IsQuoted : UpstreamSource → V → W → Type 0
  IsQuoted coin_gecko value price =
      (elim (value_at value ("bitcoin" ∷ "usd" ∷ [])) [ none ↦ none | some v ↦ lib.as_f64 v ])
      ≡ some price
  IsQuoted coinbase value price =
      (text_at value ("data" ∷ "currency" ∷ []) ≡ some "USD")
      × ((value_at value ("data" ∷ "base" ∷ []) ≡ none)
          ⊎ (text_at value ("data" ∷ "base" ∷ []) ≡ some "BTC"))
      × (number_of (text_at value ("data" ∷ "amount" ∷ [])) ≡ some price)
  IsQuoted kraken value price =
      (list_at value ("error" ∷ []) ≡ some [])
      × (number_of (
            and_then (and_then (list_at value ("result" ∷ "XXBTZUSD" ∷ "c" ∷ [])) first) lib.as_str)
          ≡ some price)
  IsQuoted gemini value price =
      (is_some_and (λ s. eq_ignore_ascii_case (codes s) (codes "BTCUSD"))
          (text_at value ("symbol" ∷ []))
        ≡ true)
      × (number_of (text_at value ("bid" ∷ [])) ≡ some price)

  checked_price_iff :
      (source : UpstreamSource) (field : String) (p : W) (price : SourcePrice W)
      → (checked_price lib source field p ≡ ok price)
        ↔ ((p ≡ price.price_usd) × IsPriceOf source price)
  unfolding checked_price
  checked_price_iff source field p price = ground arith

  parse_price_iff :
      (source : UpstreamSource) (field amount : String) (price : SourcePrice W)
      → (parse_price lib source field amount ≡ ok price)
        ↔ ((lib.parse_f64 amount ≡ some price.price_usd) × IsPriceOf source price)
  unfolding parse_price
  parse_price_iff source field amount price = ground arith

  is_text_iff : (text : String) (o : Option String) → (is_text lib text o ≡ true) ↔ (o ≡ some text)
  is_text_iff text none = ground arith
  is_text_iff text (some t) = ground (arith, eq_iff t text)

  coingecko_price_iff :
      (value : V) (price : SourcePrice W)
      → (coingecko_price lib value ≡ ok price)
        ↔ (IsQuoted coin_gecko value price.price_usd × IsPriceOf coin_gecko price)
  unfolding coingecko_price
  coingecko_price_iff value price = ground arith

  coinbase_price_iff :
      (value : V) (price : SourcePrice W)
      → (coinbase_price lib value ≡ ok price)
        ↔ (IsQuoted coinbase value price.price_usd × IsPriceOf coinbase price)
  unfolding coinbase_price
  coinbase_price_iff value price = ground (
    arith,
    is_text_iff "USD" (text_at value ("data" ∷ "currency" ∷ [])),
    is_text_iff "BTC" (text_at value ("data" ∷ "base" ∷ [])),
  )

  kraken_price_iff :
      (value : V) (price : SourcePrice W)
      → (kraken_price lib value ≡ ok price)
        ↔ (IsQuoted kraken value price.price_usd × IsPriceOf kraken price)
  unfolding kraken_price
  kraken_price_iff value price = ground arith

  gemini_price_iff :
      (value : V) (price : SourcePrice W)
      → (gemini_price lib value ≡ ok price)
        ↔ (IsQuoted gemini value price.price_usd × IsPriceOf gemini price)
  unfolding gemini_price
  gemini_price_iff value price = ground arith

  -- The payload of each provider is accepted exactly when it is what that provider has to answer for
  -- BTC/USD, its price at the provider's place in it included, and that price is finite and positive;
  -- and then under the provider's name.
  pub price_of_iff :
      (source : UpstreamSource) (value : V) (price : SourcePrice W)
      → (price_of lib source value ≡ ok price)
        ↔ (IsQuoted source value price.price_usd × IsPriceOf source price)
  price_of_iff coin_gecko = coingecko_price_iff
  price_of_iff coinbase = coinbase_price_iff
  price_of_iff kraken = kraken_price_iff
  price_of_iff gemini = gemini_price_iff
