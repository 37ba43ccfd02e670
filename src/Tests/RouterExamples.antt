-- ===== src/Tests/RouterExamples.antt =====
-- A visitor through the router, beside the background task.
use bitcoin_price_tracker.Prelude.{ℕ, ◌≡◌, refl, [], ◌∷◌, none, true, String}
use bitcoin_price_tracker.Prelude.Results.{ok}
use bitcoin_price_tracker.Dict.{insert, contains_key, retain}
use bitcoin_price_tracker.Config.{defaults}
use bitcoin_price_tracker.Presence.{is_valid_session_id, apply_presence_update}
use bitcoin_price_tracker.Refresh.Trace.{Spaced}
use bitcoin_price_tracker.Handlers.{with_config, cached_prices, update_presence}
use bitcoin_price_tracker.Handlers.World.{idle, stop, phase_after}
use bitcoin_price_tracker.Handlers.Activation.{visit}
use bitcoin_price_tracker.App.Dropped.{in_time}
use bitcoin_price_tracker.App.{post, Request, Outside, new_site, serve}
use bitcoin_price_tracker.App.World.{
  World, inner, request, background, begin, step, RouterReach, spawns, Runs, RouterReach-refines,
}
use bitcoin_price_tracker.Tests.{Dollars, dollars}
use bitcoin_price_tracker.Tests.PricingExamples.{Fault, lib, texts, json, database}
use bitcoin_price_tracker.Tests.HandlerExamples.{moment}
use bitcoin_price_tracker.Tests.AppExamples.{outside}

abbrev open_outside : Outside String
open_outside = record outside { extract = λ bytes. ok (visit "viewer") }

abbrev arrival : Request String
arrival = record {
  method = post;
  path = "/api/presence";
  if_none_match = [];
  content_type = none;
  body = [];
}

abbrev start : World Fault Fault Dollars
start = record { site = new_site {A = ℕ} (defaults 3000) 0; db = database; phase = idle }

abbrev visited : World Fault Fault Dollars
visited = record start {
  site = (serve open_outside in_time moment arrival start.site).site;
  phase = phase_after idle (serve open_outside in_time moment arrival start.site).refresh;
}

abbrev stopped : World Fault Fault Dollars
stopped = record visited {
  site = record visited.site { app = record visited.site.app { stopping = true } };
}

abbrev run : RouterReach open_outside lib texts json 1000 start stopped
run =
    step (step begin (request start in_time moment arrival))
      (background visited (stop (inner visited)) refl)

spawns_of_run : spawns open_outside lib texts json 1000 run ≡ 0 ∷ []
unfolding serve update_presence cached_prices insert is_valid_session_id apply_presence_update
    contains_key retain
spawns_of_run = refl

RouterReach-refines_example :
    Runs open_outside lib texts json 1000
      (record { app = with_config {A = ℕ} (defaults 3000); db = database; phase = idle })
      (inner stopped)
      (spawns open_outside lib texts json 1000 run)
    × Spaced (spawns open_outside lib texts json 1000 run)
RouterReach-refines_example =
    RouterReach-refines open_outside lib texts json 1000 {A = ℕ} (defaults 3000) 0 database run
