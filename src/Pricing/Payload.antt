-- ===== src/Pricing/Payload.antt =====
-- The payload of each provider in src/pricing.rs: `checked_price`, `parse_price` and the four fetches.
use text.Mathlib.Text.{◌==◌}
use bitcoin_price_tracker.Prelude.{
  Bool, false, ◌||◌, not, List, [], ◌∷◌, Option, none, some, String, if◌then◌else◌, is_empty,
}
use bitcoin_price_tracker.Prelude.Text.{codes, eq_ignore_ascii_case}
use bitcoin_price_tracker.Prelude.Results.{Result, ok, err, ◌>>=◌, ok_or, and_then, is_some_and}
use bitcoin_price_tracker.Float.{Float64}
use bitcoin_price_tracker.Models.{SourcePrice}
use bitcoin_price_tracker.Source.{UpstreamSource, coin_gecko, coinbase, kraken, gemini, name}
use bitcoin_price_tracker.Errors.{ProviderError, payload_error, price_error}
use bitcoin_price_tracker.Pricing.{Libraries, Response}
use bitcoin_price_tracker.Pricing.Decode.{fetch_json}

-- `.first()`.
abbrev pub first {ℓ} : {A : Type ℓ} → List A → Option A
first [] = none
first (x ∷ xs) = some x

module _ {R H J V W : Type 0} ⦃f : Float64 W⦄ (lib : Libraries R H J V W) where
  abbrev pub Priced : Type 0
  Priced = Result (ProviderError R J) (SourcePrice W)

  unfoldable pub checked_price : UpstreamSource → String → W → Priced
  checked_price provider field price =
      if not (f.is_finite price) || f.le price f.zero
      then err (price_error provider field "expected a finite positive number")
      else ok (record { source = name provider; price_usd = price })

  unfoldable pub parse_price : UpstreamSource → String → String → Priced
  unfolding checked_price
  parse_price provider field amount = do
    price ← ok_or (price_error provider field "not a number") (lib.parse_f64 amount)
    checked_price provider field price

  -- `value.get(key).and_then(Value::as_str)`.
  abbrev pub get_str : V → String → Option String
  get_str value key = and_then (lib.get value key) lib.as_str

  unfoldable pub coingecko_price : V → Priced
  unfolding checked_price
  coingecko_price value = do
    price ←
        ok_or (payload_error coin_gecko "missing numeric bitcoin.usd")
          (and_then (and_then (lib.get value "bitcoin") (λ entry. lib.get entry "usd")) lib.as_f64)
    checked_price coin_gecko "bitcoin.usd" price

  -- `... != Some(text)`.
  abbrev pub is_text : String → Option String → Bool
  is_text text none = false
  is_text text (some t) = t == text

  unfoldable pub coinbase_price : V → Priced
  unfolding parse_price
  coinbase_price value = do
    entry ← ok_or (payload_error coinbase "missing data") (lib.get value "data")
    if not (is_text "USD" (get_str entry "currency"))
          || is_some_and (λ base. not (is_text "BTC" (lib.as_str base))) (lib.get entry "base")
        then err (payload_error coinbase "expected BTC/USD quote")
        else do
          amount ←
              ok_or (payload_error coinbase "missing string data.amount")
                (and_then (lib.get value "data") (λ again. get_str again "amount"))
          parse_price coinbase "data.amount" amount

  unfoldable pub kraken_price : V → Priced
  unfolding parse_price
  kraken_price value = do
    errors ←
        ok_or (payload_error kraken "missing error array")
          (and_then (lib.get value "error") lib.as_array)
    if not (is_empty errors)
        then err (payload_error kraken "provider reported an API error")
        else do
          ticker ←
              ok_or (payload_error kraken "missing BTC/USD result.XXBTZUSD")
                (and_then (lib.get value "result") (λ result. lib.get result "XXBTZUSD"))
          close ←
              ok_or (payload_error kraken "missing string result.XXBTZUSD.c[0]")
                (and_then (and_then (and_then (lib.get ticker "c") lib.as_array) first) lib.as_str)
          parse_price kraken "result.XXBTZUSD.c[0]" close

  unfoldable pub gemini_price : V → Priced
  unfolding parse_price
  gemini_price value =
      if not (
        is_some_and (λ symbol. eq_ignore_ascii_case (codes symbol) (codes "BTCUSD"))
          (get_str value "symbol"))
      then err (payload_error gemini "expected BTCUSD symbol")
      else do
        bid ← ok_or (payload_error gemini "missing string bid") (get_str value "bid")
        parse_price gemini "bid" bid

  -- The part of each fetch after `fetch_json`.
  abbrev pub price_of : UpstreamSource → V → Priced
  price_of coin_gecko = coingecko_price
  price_of coinbase = coinbase_price
  price_of kraken = kraken_price
  price_of gemini = gemini_price

  -- `fetch_round_robin_source`, on the outcome of the request.
  unfoldable pub fetch_round_robin_source : UpstreamSource → Result R (Response R H) → Priced
  unfolding fetch_json
  fetch_round_robin_source source sent = do
    value ← fetch_json lib source sent
    price_of source value
