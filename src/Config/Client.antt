-- ===== src/Config/Client.antt =====
-- src/config.rs: the settings of the HTTP clients, the addresses of the providers and the path of the
-- database.
use bitcoin_price_tracker.Prelude.{Bool, true, false, Option, none, some, String}
use bitcoin_price_tracker.Time.{Duration, from_secs}

abbrev pub upstream_connect_timeout : Duration
upstream_connect_timeout = from_secs 2

abbrev pub upstream_request_timeout : Duration
upstream_request_timeout = from_secs 5

-- What the source asks of reqwest's `ClientBuilder`.
pub record ClientSettings : Type 0 where
  pub user_agent : String
  pub follows_redirects : Bool
  pub connect_timeout : Duration
  pub timeout : Duration
  pub https_only : Bool
  pub uses_proxy : Bool

abbrev pub bounded_client : ClientSettings
bounded_client = record {
  user_agent = "bitcoin-price-tracker/0.1";
  follows_redirects = false;
  connect_timeout = upstream_connect_timeout;
  timeout = upstream_request_timeout;
  https_only = false;
  uses_proxy = true;
}

abbrev pub upstream_client : ClientSettings
upstream_client = record bounded_client { https_only = true }

abbrev pub health_client : ClientSettings
health_client = record bounded_client { uses_proxy = false }

pub record UpstreamEndpoints : Type 0 where
  pub coingecko : String
  pub coinbase : String
  pub kraken : String
  pub gemini : String

abbrev pub default_endpoints : UpstreamEndpoints
default_endpoints = record {
  coingecko = "https://api.coingecko.com/api/v3/simple/price?ids=bitcoin&vs_currencies=usd";
  coinbase = "https://api.coinbase.com/v2/prices/BTC-USD/spot";
  kraken = "https://api.kraken.com/0/public/Ticker?pair=XBTUSD";
  gemini = "https://api.gemini.com/v2/ticker/btcusd";
}

abbrev pub path_or_default : Option String → String
path_or_default none = "data/bitcoin_prices.db"
path_or_default (some path) = path

abbrev pub database_path : (String → Option String) → String
database_path variable = path_or_default (variable "DATABASE_PATH")
