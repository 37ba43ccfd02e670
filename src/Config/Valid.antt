-- ===== src/Config/Valid.antt =====
-- Which environments `RuntimeConfig::parse` of src/config.rs accepts, and as what.
use bitcoin_price_tracker.Prelude.{
  ℕ, ◌≤◌, ◌≡◌, ◌≢◌, Option, none, some, String, arith, ◌↔◌, leb, not, ◌&&◌,
}
use bitcoin_price_tracker.Prelude.{◌==◌ as eq_ℕ}
use bitcoin_price_tracker.Config.{
  RuntimeConfig, ConfigError, Parsed, ok, ◌>>=◌, filter, ok_or, not_in_range, bad_address,
  positive_value, positive, address_value, parse,
}

module _ (parse_usize : String → Option ℕ) where
  -- What a number is read as: the default without a value, otherwise the value, from 1 to `max`.
  abbrev pub IsNumber : ℕ → ℕ → Option String → ℕ → Type 0
  IsNumber default max none n = n ≡ default
  IsNumber default max (some value) n = (parse_usize value ≡ some n) × (1 ≤ n) × (n ≤ max)

  accepted :
      (max : ℕ) (e : ConfigError) (parsed : Option ℕ) (n : ℕ)
      → (ok_or e (filter (λ m. leb 1 m && leb m max) parsed) ≡ ok n)
        ↔ ((parsed ≡ some n) × (1 ≤ n) × (n ≤ max))
  accepted max e none n = ground arith
  accepted max e (some m) n = ground arith

  positive_value_iff :
      (key : String) (default max : ℕ) (value : Option String) (n : ℕ)
      → (positive_value parse_usize key default max value ≡ ok n) ↔ IsNumber default max value n
  positive_value_iff key default max none n = ground arith
  positive_value_iff key default max (some value) n =
      accepted max (not_in_range key max) (parse_usize value) n

module _ {A : Type 0} (parse_address : String → Option A) (port : A → ℕ) where
  -- What an address is read as.
  abbrev pub IsAddress : A → Option String → A → Type 0
  IsAddress default none a = default ≡ a
  IsAddress default (some value) a = (parse_address value ≡ some a) × (port a ≢ 0)

  accepted_address :
      (parsed : Option A) (a : A)
      → (ok_or bad_address (filter (λ b. not (eq_ℕ (port b) 0)) parsed) ≡ ok a)
        ↔ ((parsed ≡ some a) × (port a ≢ 0))
  accepted_address none a = ground arith
  accepted_address (some b) a = ground arith

  address_value_iff :
      (default : A) (value : Option String) (a : A)
      → (address_value parse_address port default value ≡ ok a) ↔ IsAddress default value a
  address_value_iff default none a = ground arith
  address_value_iff default (some value) a = accepted_address (parse_address value) a

fields :
    {A : Type 0} (address : Parsed A) (viewers rate slots connections seconds : Parsed ℕ)
    (config : RuntimeConfig A)
    → ((do
      bind_address ← address
      max_viewers ← viewers
      requests_per_second ← rate
      concurrency ← slots
      max_connections ← connections
      shutdown_seconds ← seconds
      ok (record {
        bind_address = bind_address;
        max_viewers = max_viewers;
        requests_per_second = requests_per_second;
        concurrency = concurrency;
        max_connections = max_connections;
        shutdown_seconds = shutdown_seconds;
      }))
        ≡ ok config)
      ↔ ((address ≡ ok config.bind_address)
          × (viewers ≡ ok config.max_viewers)
          × (rate ≡ ok config.requests_per_second)
          × (slots ≡ ok config.concurrency)
          × (connections ≡ ok config.max_connections)
          × (seconds ≡ ok config.shutdown_seconds))
fields address viewers rate slots connections seconds config = ground arith

module _ {A : Type 0} (parse_usize : String → Option ℕ) (parse_address : String → Option A)
    (port : A → ℕ) (unspecified : A) where
  -- What an environment is read as: each key that is not set has its default, and each key that is
  -- set has a number in its range, or an address whose port is not 0.
  abbrev pub IsRead : (String → Option String) → RuntimeConfig A → Type 0
  IsRead get c =
      IsAddress parse_address port unspecified (get "BIND_ADDRESS") c.bind_address
      × IsNumber parse_usize 1000 100000 (get "MAX_VIEWERS") c.max_viewers
      × IsNumber parse_usize 250 10000 (get "REQUESTS_PER_SECOND") c.requests_per_second
      × IsNumber parse_usize 64 1024 (get "REQUEST_CONCURRENCY") c.concurrency
      × IsNumber parse_usize 128 4096 (get "MAX_CONNECTIONS") c.max_connections
      × IsNumber parse_usize 25 120 (get "SHUTDOWN_SECONDS") c.shutdown_seconds

  -- An environment is accepted as a configuration exactly when each field is what its key is read
  -- as: without the key the default, otherwise the number that the text parses to, from 1 to the
  -- largest value of that key, or the address that the text parses to, with a port other than 0.
  pub parse_iff :
      (get : String → Option String) (config : RuntimeConfig A)
      → (parse parse_usize parse_address port unspecified get ≡ ok config) ↔ IsRead get config
  unfolding parse
  parse_iff get config = ground (
    arith,
    fields (address_value parse_address port unspecified (get "BIND_ADDRESS"))
        (positive parse_usize get "MAX_VIEWERS" 1000 100000)
        (positive parse_usize get "REQUESTS_PER_SECOND" 250 10000)
        (positive parse_usize get "REQUEST_CONCURRENCY" 64 1024)
        (positive parse_usize get "MAX_CONNECTIONS" 128 4096)
        (positive parse_usize get "SHUTDOWN_SECONDS" 25 120) config,
    address_value_iff parse_address port unspecified (get "BIND_ADDRESS") config.bind_address,
    positive_value_iff parse_usize "MAX_VIEWERS" 1000 100000 (get "MAX_VIEWERS") config.max_viewers,
    positive_value_iff parse_usize "REQUESTS_PER_SECOND" 250 10000 (get "REQUESTS_PER_SECOND")
        config.requests_per_second,
    positive_value_iff parse_usize "REQUEST_CONCURRENCY" 64 1024 (get "REQUEST_CONCURRENCY")
        config.concurrency,
    positive_value_iff parse_usize "MAX_CONNECTIONS" 128 4096 (get "MAX_CONNECTIONS")
        config.max_connections,
    positive_value_iff parse_usize "SHUTDOWN_SECONDS" 25 120 (get "SHUTDOWN_SECONDS")
        config.shutdown_seconds,
  )
