-- ===== src/Main/Outcome.antt =====
-- When the process starts a server, and when it exits with a success.
use mathlib.Core.Path.{subst}
use text.Mathlib.TextEquality.{eq_iff}
use bitcoin_price_tracker.Prelude.{
  ℕ, ◌*◌, ◌≤◌, ◌<◌, ◌≡◌, ◌≢◌, ◌↔◌, ◌⊎◌, refl, Bool, true, false, Option, none, some, String, arith,
  inl, inr,
}
use bitcoin_price_tracker.Prelude.Results.{Result, ok, err, map_err}
use bitcoin_price_tracker.Float.{Float64}
use bitcoin_price_tracker.Config.{RuntimeConfig, parse}
use bitcoin_price_tracker.Config.{ok as valid}
use bitcoin_price_tracker.Config.Client.{ClientSettings, database_path}
use bitcoin_price_tracker.Limits.{new_limits}
use bitcoin_price_tracker.Storage.Schema.{File, init_db}
use bitcoin_price_tracker.Lifecycle.{ServeError, serve_tracker_until}
use bitcoin_price_tracker.Handlers.{with_config as configured}
use bitcoin_price_tracker.Main.{
  Served, not_served, success, Launched, Platform, exit_code, health_address, run, is_healthcheck,
  main,
}
use bitcoin_price_tracker.Main.Start.{IsHealthy, main-Launches, main-Succeeds}

is_healthcheck_iff :
    (argument : Option String)
    → ((is_healthcheck argument ≡ true) ↔ (argument ≡ some "--healthcheck"))
      × ((is_healthcheck argument ≡ false) ↔ (argument ≢ some "--healthcheck"))
is_healthcheck_iff none = ground arith
is_healthcheck_iff (some a) = ground (arith, eq_iff a "--healthcheck")

-- Serving ended in time: the connections did, and after a shutdown the refresh too.
abbrev pub Stops : Served → Type 0
Stops s = (s.result ≡ ok tt) × ((s.asked ≡ false) ⊎ (s.refresh_ends ≡ true))

served_lem :
    (result : Result ServeError (Unit {0})) (asked ends : Bool)
    → (exit_code (map_err not_served (serve_tracker_until result asked ends)) ≡ success)
      ↔ ((result ≡ ok tt) × ((asked ≡ false) ⊎ (ends ≡ true)))
unfolding serve_tracker_until
served_lem (ok tt) asked ends = ground arith
served_lem (err e) asked ends = ground arith

-- The settings of the two clients.
abbrev pub upstream_settings : ClientSettings
upstream_settings = record {
  user_agent = "bitcoin-price-tracker/0.1";
  follows_redirects = false;
  connect_timeout = 2_000_000_000;
  timeout = 5_000_000_000;
  https_only = true;
  uses_proxy = true;
}

abbrev pub health_settings : ClientSettings
health_settings = record {
  user_agent = "bitcoin-price-tracker/0.1";
  follows_redirects = false;
  connect_timeout = 2_000_000_000;
  timeout = 5_000_000_000;
  https_only = false;
  uses_proxy = false;
}

module _ {A C W : Type 0} ⦃f : Float64 W⦄ (p : Platform A C W) where
  abbrev pub Configured : RuntimeConfig A → Type 0
  Configured config =
      parse p.parse_usize p.parse_address p.port p.default_address p.variable ≡ valid config

  -- The address to connect to for an address to listen on: localhost for an unspecified one.
  abbrev pub Reaches : A → A → Type 0
  Reaches listening address =
      ((p.is_unspecified listening ≡ true) × (address ≡ p.with_localhost listening))
      ⊎ ((p.is_unspecified listening ≡ false) × (address ≡ listening))

  health_address_iff : (a b : A) → Reaches a b ↔ (b ≡ health_address p a)
  health_address_iff a b = ground arith

  -- A request for the health of an address is answered with a success.
  abbrev pub Answers : RuntimeConfig A → Type 0
  Answers config =
      (client : C) × (p.build health_settings ≡ ok client)
      × (address : A) × Reaches config.bind_address address
      × (status : ℕ) × (p.get_health client address ≡ ok status)
      × (200 ≤ status)
      × (status < 300)

  answered_iff : (config : RuntimeConfig A) → IsHealthy p config ↔ Answers config
  answered_iff config = (
    λ (client, built, status, got, low, high). (
      client,
      built,
      health_address p config.bind_address,
      (health_address_iff config.bind_address _).1 refl,
      status,
      got,
      low,
      high,
    ),
    λ (client, built, address, reached, status, got, low, high).
        let same = (health_address_iff config.bind_address address).0 reached in
        (client, built, status, subst (λ a. p.get_health client a ≡ ok status) same got, low, high),
  )

  run-Stops_iff :
      (server : Launched A C W) → (exit_code (run p server) ≡ success) ↔ Stops (p.serve server)
  run-Stops_iff server = let s = p.serve server in served_lem s.result s.asked s.refresh_ends

  -- A health check whose request is answered with a success.
  abbrev pub IsChecked : Type 0
  IsChecked =
      (config : RuntimeConfig A) × Configured config
      × (p.argument ≡ some "--healthcheck")
      × Answers config

  -- The server of a configuration, a client and a path.
  abbrev pub server_of : RuntimeConfig A → C → String → Launched A C W
  server_of config client path = record {
    address = config.bind_address;
    client = client;
    endpoints = record {
      coingecko = "https://api.coingecko.com/api/v3/simple/price?ids=bitcoin&vs_currencies=usd";
      coinbase = "https://api.coinbase.com/v2/prices/BTC-USD/spot";
      kraken = "https://api.kraken.com/0/public/Ticker?pair=XBTUSD";
      gemini = "https://api.gemini.com/v2/ticker/btcusd";
    };
    db_path = path;
    site = record {
      limits = new_limits config p.now;
      app = configured config;
      news = record { xml = none; checked_at = none; stale = false; refreshing = false };
    };
    grace = config.shutdown_seconds * 1_000_000_000;
    limits = record {
      max_connections = config.max_connections;
      header_timeout = 5_000_000_000;
      lifetime = 25_000_000_000;
    };
  }

  -- The start of a server, each step of it a success.
  abbrev pub IsServing : Launched A C W → Type 0
  IsServing server =
      (config : RuntimeConfig A) × Configured config
      × (p.argument ≢ some "--healthcheck")
      × (client : C) × (p.build upstream_settings ≡ ok client)
      × (file : File W) × (p.open_connection (database_path p.variable) ≡ ok file)
      × ((init_db file).1 ≡ none)
      × (p.bind config.bind_address ≡ ok tt)
      × (server ≡ server_of config client (database_path p.variable))

  pub main-IsServing_iff :
      (server : Launched A C W) → ((main p).launched ≡ some server) ↔ IsServing server
  main-IsServing_iff server =
      let (to, from) = main-Launches p server in
      let (_, argument) = is_healthcheck_iff p.argument in
      (
        λ h.
            let (config, e, (plain, client, built, (file, opened, (ready, bound, same)))) = to h in
            (config, e, argument.0 plain, client, built, file, opened, ready, bound, same),
        λ (config, e, plain, client, built, file, opened, ready, bound, same).
            from
              (config, e, (argument.1 plain, client, built, (file, opened, (ready, bound, same)))),
      )

  -- The exit code is a success exactly when, with the argument `--healthcheck`, the configured address
  -- (localhost for an unspecified one), asked by a client that uses no proxy, answers for its health
  -- with a status from 200 to 299, or when a server was started whose connections ended within their
  -- deadline, and, after a shutdown, its refresh too.
  pub main-exit_code_iff :
      ((main p).code ≡ success)
      ↔ (IsChecked ⊎ ((server : Launched A C W) × IsServing server × Stops (p.serve server)))
  main-exit_code_iff =
      let (checks, plain) = is_healthcheck_iff p.argument in
      let (to, from) = main-Succeeds p in
      (
        λ h.
            let (config, e, outcome) = to h in
            elim outcome [
              | inl (chosen, healthy) ↦
                  inl (config, e, checks.0 chosen, (answered_iff config).0 healthy)
              | inr (chosen, (server, launched, ended)) ↦
                  inr
                    (server, (main-IsServing_iff server).0 launched, (run-Stops_iff server).0 ended)
            ],
        λ h. elim h [
          | inl (config, e, chosen, healthy) ↦
              from (config, e, inl (checks.1 chosen, (answered_iff config).1 healthy))
          | inr (server, serving, ended) ↦
              let (config, e, chosen, client, built, file, opened, ready, bound, same) = serving in
              from (
                config,
                e,
                inr (
                  plain.1 chosen,
                  (server, (main-IsServing_iff server).1 serving, (run-Stops_iff server).1 ended),
                ),
              )
        ],
      )
