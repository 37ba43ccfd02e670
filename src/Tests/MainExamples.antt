-- ===== src/Tests/MainExamples.antt =====
-- A process that starts a server, on a platform where everything works.
use bitcoin_price_tracker.Prelude.{ℕ, ◌≡◌, ◌↔◌, ◌⊎◌, refl, Bool, true, false, none, some}
use bitcoin_price_tracker.Prelude.Results.{ok}
use bitcoin_price_tracker.Config.{defaults}
use bitcoin_price_tracker.Main.{success, failure, Platform, Launched, launch, main}
use bitcoin_price_tracker.Main.Outcome.{Stops, IsChecked, IsServing, main-exit_code_iff}
use bitcoin_price_tracker.Tests.{Dollars, dollars}
use bitcoin_price_tracker.Tests.ServerExamples.{empty_file}

-- Addresses are ports, and clients their settings' kind.
abbrev platform : Platform ℕ Bool Dollars
platform = record {
  variable = λ key. none;
  argument = none;
  parse_usize = λ s. none;
  parse_address = λ s. none;
  port = λ address. address;
  default_address = 3000;
  is_unspecified = λ address. false;
  with_localhost = λ address. address;
  build = λ settings. ok settings.https_only;
  get_health = λ client address. ok 200;
  open_connection = λ path. ok empty_file;
  bind = λ address. ok tt;
  now = 0;
  serve = λ server. record { result = ok tt; asked = true; refresh_ends = true };
}

abbrev server : Launched ℕ Bool Dollars
server = launch platform (defaults 3000) true

main-exit_code_example : ((main platform).code ≡ success) ↔ (
    IsChecked platform
    ⊎ ((s : Launched ℕ Bool Dollars) × IsServing platform s × Stops (platform.serve s)))
main-exit_code_example = main-exit_code_iff platform

the_server : ((main platform).launched ≡ some server) × ((main platform).code ≡ success)
unfolding main
the_server = (refl, refl)

-- The same process as a health check that is answered with 503.
unavailable :
    (main (record platform { argument = some "--healthcheck"; get_health = λ c a. ok 503 })).code
    ≡ failure
unfolding main
unavailable = refl
