-- ===== src/Config.antt =====
-- src/config.rs: the runtime configuration and how it is read from the environment. The parsers of
-- the standard library, `str::parse` at `usize` and at `SocketAddr`, are parameters.
pub mod Valid
pub mod Client
use bitcoin_price_tracker.Prelude.{
  ℕ, ◌≤◌, ◌≡◌, refl, Bool, true, false, ◌&&◌, not, Option, none, some, String, if◌then◌else◌, leb,
  arith, ◌↔◌, ◌⊎◌, inl, inr,
}
use bitcoin_price_tracker.Prelude.{◌==◌ as eq_ℕ}

-- `A` is the type of socket addresses.
pub record RuntimeConfig (A : Type 0) : Type 0 where
  pub bind_address : A
  pub max_viewers : ℕ
  pub requests_per_second : ℕ
  pub concurrency : ℕ
  pub max_connections : ℕ
  pub shutdown_seconds : ℕ

-- Why an environment is refused: the key and its largest value, or the address.
pub data ConfigError : Type 0 where
  not_in_range : String → ℕ → ConfigError
  bad_address : ConfigError

pub data Parsed {ℓ} (A : Type ℓ) : Type ℓ where
  ok : A → Parsed A
  err : ConfigError → Parsed A

infixl 5 ◌>>=◌
abbrev pub ◌>>=◌ {ℓ κ} : {A : Type ℓ} {B : Type κ} → Parsed A → (A → Parsed B) → Parsed B
ok a >>= next = next a
err e >>= next = err e

-- `.ok_or_else(..)`.
abbrev pub ok_or {ℓ} : {A : Type ℓ} → ConfigError → Option A → Parsed A
ok_or e none = err e
ok_or e (some a) = ok a

-- `.filter(..)`.
abbrev pub filter {ℓ} : {A : Type ℓ} → (A → Bool) → Option A → Option A
filter p none = none
filter p (some a) = if p a then some a else none

module _ (parse_usize : String → Option ℕ) where
  -- The closure of `positive` on the value of a key.
  abbrev pub positive_value : String → ℕ → ℕ → Option String → Parsed ℕ
  positive_value key default max none = ok default
  positive_value key default max (some value) =
      ok_or (not_in_range key max) (filter (λ n. leb 1 n && leb n max) (parse_usize value))

  abbrev pub positive : (String → Option String) → String → ℕ → ℕ → Parsed ℕ
  positive get key default max = positive_value key default max (get key)

module _ {A : Type 0} (parse_address : String → Option A) (port : A → ℕ) where
  abbrev pub address_value : A → Option String → Parsed A
  address_value default none = ok default
  address_value default (some value) =
      ok_or bad_address (filter (λ a. not (eq_ℕ (port a) 0)) (parse_address value))

-- `RuntimeConfig::default`, at the address `0.0.0.0:3000`.
abbrev pub defaults : {A : Type 0} → A → RuntimeConfig A
defaults address = record {
  bind_address = address;
  max_viewers = 1000;
  requests_per_second = 250;
  concurrency = 64;
  max_connections = 128;
  shutdown_seconds = 25;
}

module _ {A : Type 0} (parse_usize : String → Option ℕ) (parse_address : String → Option A)
    (port : A → ℕ) (unspecified : A) where
  -- `unspecified` is the address of the default.
  unfoldable pub parse : (String → Option String) → Parsed (RuntimeConfig A)
  parse get = do
    bind_address ←
        address_value parse_address port (defaults unspecified).bind_address (get "BIND_ADDRESS")
    max_viewers ← positive parse_usize get "MAX_VIEWERS" (defaults unspecified).max_viewers 100000
    requests_per_second ←
        positive parse_usize get "REQUESTS_PER_SECOND" (defaults unspecified).requests_per_second
          10000
    concurrency ←
        positive parse_usize get "REQUEST_CONCURRENCY" (defaults unspecified).concurrency 1024
    max_connections ←
        positive parse_usize get "MAX_CONNECTIONS" (defaults unspecified).max_connections 4096
    shutdown_seconds ←
        positive parse_usize get "SHUTDOWN_SECONDS" (defaults unspecified).shutdown_seconds 120
    ok (record {
      bind_address = bind_address;
      max_viewers = max_viewers;
      requests_per_second = requests_per_second;
      concurrency = concurrency;
      max_connections = max_connections;
      shutdown_seconds = shutdown_seconds;
    })
