-- ===== src/Pricing.antt =====
-- src/pricing.rs: what the providers are asked, how their answers are checked, and how the prices
-- that pass are merged with the stored ones and saved.
pub mod Decode
pub mod Payload
pub mod Merge
pub mod Refresh
pub mod Accepted
pub mod Bounded
pub mod Merged
pub mod Ordered
pub mod Reload
pub mod Positive
pub mod Saved
use bitcoin_price_tracker.Prelude.{ℕ, Bool, List, Option, String}
use bitcoin_price_tracker.Prelude.Results.{Result}
use bitcoin_price_tracker.Time.{SystemTime}
use bitcoin_price_tracker.Models.{QuoteKind, aggregate, spot, last_trade, bid}
use bitcoin_price_tracker.Source.{UpstreamSource, coin_gecko, coinbase, kraken, gemini}
use bitcoin_price_tracker.Errors.{ProviderError}

abbrev pub Bytes : Type 0
Bytes = List ℕ

-- The functions of reqwest, http, httpdate and serde_json that the fetches call, and `str::parse` at
-- `f64`. `R` is `reqwest::Error`, `H` is `HeaderValue`, `J` is `serde_json::Error` and `V` is
-- `serde_json::Value`.
pub record Libraries (R H J V W : Type 0) : Type 0 where
  pub is_timeout : R → Bool
  pub is_success : ℕ → Bool
  pub to_str : H → Option String
  pub parse_http_date : String → Option SystemTime
  pub from_slice : Bytes → Result J V
  pub get : V → String → Option V
  pub as_f64 : V → Option W
  pub as_str : V → Option String
  pub as_array : V → Option (List V)
  pub parse_f64 : String → Option W

-- What reqwest hands over for a body: chunks, and perhaps an error that ends it.
pub data Body (R : Type 0) : Type 0 where
  done : Body R
  broken : R → Body R
  chunk : Bytes → Body R → Body R

pub record Response (R H : Type 0) : Type 0 where
  pub status : ℕ
  pub retry_after : Option H
  pub content_length : Option ℕ
  pub body : Body R

abbrev pub quote_kind : UpstreamSource → QuoteKind
quote_kind coin_gecko = aggregate
quote_kind coinbase = spot
quote_kind kraken = last_trade
quote_kind gemini = bid
