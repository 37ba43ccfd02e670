-- ===== src/Tests/ConfigExamples.antt =====
-- Environments, and the health record of a provider error.
use text.Mathlib.Text.{◌==◌}
use bitcoin_price_tracker.Prelude.{ℕ, ◌≡◌, ◌↔◌, refl, Option, none, some, String, if◌then◌else◌}
use bitcoin_price_tracker.Source.{kraken}
use bitcoin_price_tracker.Errors.{ProviderError, http, Texts, health_error}
use bitcoin_price_tracker.Config.{RuntimeConfig, ok, err, not_in_range, parse}
use bitcoin_price_tracker.Config.Valid.{IsRead, parse_iff}

-- Two numbers, and addresses that are only a port.
abbrev parse_usize : String → Option ℕ
parse_usize text = if text == "42" then some 42 else if text == "999" then some 999 else none

abbrev parse_address : String → Option ℕ
parse_address text = if text == "[::1]:42" then some 42 else none

abbrev port : ℕ → ℕ
port address = address

abbrev environment : String → Option String
environment key =
    if key == "MAX_VIEWERS"
    then some "42"
    else if key == "BIND_ADDRESS"
    then some "[::1]:42"
    else none

abbrev config : RuntimeConfig ℕ
config = record {
  bind_address = 42;
  max_viewers = 42;
  requests_per_second = 250;
  concurrency = 64;
  max_connections = 128;
  shutdown_seconds = 25;
}

parse_example :
    (parse parse_usize parse_address port 3000 environment ≡ ok config)
    ↔ IsRead parse_usize parse_address port 3000 environment config
parse_example = parse_iff parse_usize parse_address port 3000 environment config

parse-environment : parse parse_usize parse_address port 3000 environment ≡ ok config
unfolding parse
parse-environment = refl

-- A shutdown that would take too long is refused.
parse_slow_shutdown :
    parse parse_usize parse_address port 3000
      (λ key. if key == "SHUTDOWN_SECONDS" then some "999" else none)
    ≡ err (not_in_range "SHUTDOWN_SECONDS" 120)
unfolding parse
parse_slow_shutdown = refl

abbrev texts : Texts
texts = record { of_status = λ s. "503"; of_u64 = λ n. "7"; of_date = λ t. "" }

abbrev busy : ProviderError Unit Unit
busy = record { provider = kraken; kind = http 503 none }

message_of_busy : (health_error texts busy).message ≡ "Kraken HTTP error: 503"
unfolding health_error
message_of_busy = refl
