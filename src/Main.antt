-- ===== src/Main.antt =====
-- src/main.rs: the process, from the environment to its exit code.
pub mod Start
pub mod Outcome
use text.Mathlib.Text.{◌==◌}
use bitcoin_price_tracker.Prelude.{
  ℕ, Bool, true, false, ◌&&◌, Option, none, some, String, if◌then◌else◌, leb, ltb,
}
use bitcoin_price_tracker.Prelude.Results.{Result, ok, err, map_err, ◌>>=◌, is_some_and}
use bitcoin_price_tracker.Time.{Instant, Duration, from_secs}
use bitcoin_price_tracker.Float.{Float64}
use bitcoin_price_tracker.Config.{RuntimeConfig, ConfigError, Parsed, parse}
use bitcoin_price_tracker.Config.{ok as valid, err as invalid}
use bitcoin_price_tracker.Config.Client.{
  ClientSettings, upstream_client, health_client, UpstreamEndpoints, default_endpoints,
  database_path,
}
use bitcoin_price_tracker.Storage.Schema.{File, InitError, init_db}
use bitcoin_price_tracker.Lifecycle.{
  ConnectionLimits, default_limits, ServeError, serve_tracker_until,
}
use bitcoin_price_tracker.App.{Site, new_site}

pub data ExitCode : Type 0 where
  success failure : ExitCode

-- Why the process fails; foreign errors keep their text.
pub data StartError : Type 0 where
  invalid_configuration : ConfigError → StartError
  foreign : String → StartError
  health_unavailable : StartError
  not_initialized : InitError → StartError
  not_served : ServeError → StartError

-- A server as it is started, with the client of its state.
pub record Launched (A C W : Type 0) : Type 0 where
  pub address : A
  pub client : C
  pub endpoints : UpstreamEndpoints
  pub db_path : String
  pub site : Site W
  pub grace : Duration
  pub limits : ConnectionLimits

-- What the process leaves: its exit code with the error that it logs, the database file that it opened,
-- and the server that it started.
pub record Exit (A C W : Type 0) : Type 0 where
  pub code : ExitCode
  pub error : Option StartError
  pub opened : Option (String × File W)
  pub launched : Option (Launched A C W)

-- How serving goes: the result of `serve_until`, whether the shutdown was asked for, and whether the
-- background refresh ends before the deadline.
pub record Served : Type 0 where
  pub result : Result ServeError (Unit {0})
  pub asked : Bool
  pub refresh_ends : Bool

-- The platform: the environment and the arguments, the parsers and the socket addresses of the
-- standard library (`A`), the clients of reqwest (`C`) with a request to `/health`, the
-- opening of a database file, the listeners of tokio and the run of a server.
pub record Platform (A C W : Type 0) : Type 0 where
  pub variable : String → Option String
  pub argument : Option String
  pub parse_usize : String → Option ℕ
  pub parse_address : String → Option A
  pub port : A → ℕ
  pub default_address : A
  pub is_unspecified : A → Bool
  pub with_localhost : A → A
  pub build : ClientSettings → Result String C
  pub get_health : C → A → Result String ℕ
  pub open_connection : String → Result String (File W)
  pub bind : A → Result String (Unit {0})
  pub now : Instant
  pub serve : Launched A C W → Served

-- `StatusCode::is_success`.
abbrev pub is_success : ℕ → Bool
is_success status = leb 200 status && ltb status 300

abbrev pub is_healthcheck : Option String → Bool
is_healthcheck argument = is_some_and (λ a. a == "--healthcheck") argument

abbrev pub exit_code : Result StartError (Unit {0}) → ExitCode
exit_code (ok done) = success
exit_code (err e) = failure

abbrev pub error_of : Result StartError (Unit {0}) → Option StartError
error_of (ok done) = none
error_of (err e) = some e

module _ {A C W : Type 0} where
  abbrev pub exit :
      Result StartError (Unit {0}) → Option (String × File W) → Option (Launched A C W) → Exit A C W
  exit result opened launched = record {
    code = exit_code result;
    error = error_of result;
    opened = opened;
    launched = launched;
  }

module _ {A C W : Type 0} ⦃f : Float64 W⦄ (p : Platform A C W) where
  -- An unspecified address is not one to connect to.
  abbrev pub health_address : A → A
  health_address address = if p.is_unspecified address then p.with_localhost address else address

  abbrev pub healthy : ℕ → Result StartError (Unit {0})
  healthy status = if is_success status then ok tt else err health_unavailable

  unfoldable pub healthcheck : RuntimeConfig A → Result StartError (Unit {0})
  healthcheck config = do
    client ← map_err foreign (p.build health_client)
    status ← map_err foreign (p.get_health client (health_address config.bind_address))
    healthy status

  abbrev pub launch : RuntimeConfig A → C → Launched A C W
  launch config client = record {
    address = config.bind_address;
    client = client;
    endpoints = default_endpoints;
    db_path = database_path p.variable;
    site = new_site config p.now;
    grace = from_secs config.shutdown_seconds;
    limits = record default_limits { max_connections = config.max_connections };
  }

  abbrev pub run : Launched A C W → Result StartError (Unit {0})
  run server =
      let served = p.serve server in
      map_err not_served (serve_tracker_until served.result served.asked served.refresh_ends)

  -- The steps after the client, after the database and after the listener.
  abbrev pub with_listener : RuntimeConfig A → C → File W → Result String (Unit {0}) → Exit A C W
  with_listener config client file (err e) =
      exit (err (foreign e)) (some (database_path p.variable, file)) none
  with_listener config client file (ok bound) =
      exit (run (launch config client)) (some (database_path p.variable, file))
        (some (launch config client))

  abbrev pub with_database : RuntimeConfig A → C → File W × Option InitError → Exit A C W
  with_database config client (file, some e) =
      exit (err (not_initialized e)) (some (database_path p.variable, file)) none
  with_database config client (file, none) =
      with_listener config client file (p.bind config.bind_address)

  abbrev pub with_file : RuntimeConfig A → C → Result String (File W) → Exit A C W
  with_file config client (err e) = exit (err (foreign e)) none none
  with_file config client (ok file) = with_database config client (init_db file)

  abbrev pub with_client : RuntimeConfig A → Result String C → Exit A C W
  with_client config (err e) = exit (err (foreign e)) none none
  with_client config (ok client) =
      with_file config client (p.open_connection (database_path p.variable))

  abbrev pub with_config : Parsed (RuntimeConfig A) → Exit A C W
  with_config (invalid e) = exit (err (invalid_configuration e)) none none
  with_config (valid config) =
      if is_healthcheck p.argument
      then exit (healthcheck config) none none
      else with_client config (p.build upstream_client)

  unfoldable pub main : Exit A C W
  unfolding parse init_db healthcheck serve_tracker_until
  main = with_config (parse p.parse_usize p.parse_address p.port p.default_address p.variable)
