-- ===== src/Tests/HandlerExamples.antt =====
-- Requests, tasks and a shutdown at work.
use bitcoin_price_tracker.Prelude.{
  ℕ, ◌≡◌, ◌↔◌, refl, true, false, [], ◌∷◌, none, some, pos, is_empty,
}
use bitcoin_price_tracker.Prelude.Results.{is_none}
use bitcoin_price_tracker.Presence.{Presence, active_viewer_count}
use bitcoin_price_tracker.Source.{coin_gecko}
use bitcoin_price_tracker.Refresh.{fresh, begin}
use bitcoin_price_tracker.Storage.{ok}
use bitcoin_price_tracker.Storage.RoundTrip.{IsConsistent}
use bitcoin_price_tracker.Config.{defaults}
use bitcoin_price_tracker.Handlers.{
  with_config, AppState, Moment, RefreshTask, stored_of, read_failed, fetched_age, cached_prices,
}
use bitcoin_price_tracker.Handlers.Task.{finds_nobody}
use bitcoin_price_tracker.Handlers.World.{
  Phase, held, spawned, counting, refreshing, looked, checked, acquire, pass, answer, look, World,
  idle, phase_after, Reach, here, next, price, Owned, Reach-Owned,
}
use bitcoin_price_tracker.Handlers.Starts.{HasViewer, IsOld, MayStart, cached_prices-MayStart}
use bitcoin_price_tracker.Handlers.Shutdown.{NoNew, Reach-stopping, Reach-IsConsistent}
use bitcoin_price_tracker.Dict.{retain}
use bitcoin_price_tracker.Tests.{Dollars, dollars}
use bitcoin_price_tracker.Storage.{sort_by_source}
use bitcoin_price_tracker.Storage.Read.{load_price_state}
use bitcoin_price_tracker.Storage.RoundTrip.{put_all}
use bitcoin_price_tracker.Prelude.{map}
use bitcoin_price_tracker.Pricing.Payload.{fetch_round_robin_source, coinbase_price}
use bitcoin_price_tracker.Pricing.Refresh.{
  fetch_selected_sources, refreshed_of, failures_of, merged_snapshot, refresh_snapshot,
}
use bitcoin_price_tracker.Pricing.Saved.{AllStorable}
use bitcoin_price_tracker.Handlers.{update_presence}
use bitcoin_price_tracker.Handlers.World.{update}
use bitcoin_price_tracker.Presence.{is_valid_session_id, apply_presence_update}
use bitcoin_price_tracker.Dict.{insert, contains_key}
use bitcoin_price_tracker.Handlers.Spacing.{starts}
use bitcoin_price_tracker.Handlers.Activation.{visit, update_presence-visit}
use bitcoin_price_tracker.Prelude.{keep, arith}
use bitcoin_price_tracker.Source.{all_sources}
use bitcoin_price_tracker.Refresh.Begin.{is_ready}
use bitcoin_price_tracker.Presence.{prune_inactive_viewers, recent_reason, snapshot_age_seconds}
use bitcoin_price_tracker.Handlers.Served.{Serves, cached_prices-refresh_snapshot}
use bitcoin_price_tracker.Tests.{Dollars-IsFloat}
use bitcoin_price_tracker.Tests.PricingExamples.{
  network, plan, decoded_here, average_here, spread_here, Fault, lib, texts, json, database, latest,
}

abbrev watched : Presence
watched = record { viewers = ("viewer", 0) ∷ []; full_refresh_generation = 1 }

abbrev pub app : AppState
app = record (with_config {A = ℕ} (defaults 3000)) { max_viewers = 10; presence = watched }

abbrev pub moment : Moment Dollars
moment = record {
  now = 0;
  now_unix = pos 100;
  loaded = ok (record { snapshot = some latest; provider_health = [] });
}

abbrev task : RefreshTask Dollars
task = record {
  coordinator = (begin 0 1 fresh).0;
  plan = record { sources = coin_gecko ∷ []; full_refresh = true; generation = 1 };
  snapshot = some latest;
}

cached_prices-MayStart_example : (is_none (cached_prices moment app).2 ≡ false) ↔ (
    (read_failed moment.loaded ≡ false)
    × (app.stopping ≡ false)
    × HasViewer moment.now app.presence.viewers
    × IsOld (fetched_age (stored_of moment.loaded).snapshot moment.now_unix)
    × MayStart app.refresh moment.now)
cached_prices-MayStart_example = cached_prices-MayStart moment app (omega arith)

-- A request that starts a task.
begun : is_none (cached_prices moment app).2 ≡ false
unfolding cached_prices retain
begun = refl

abbrev world : World Fault Fault Dollars
world = record { app = app; db = database; phase = idle }

abbrev asked : World Fault Fault Dollars
asked = record world {
  app = (cached_prices moment app).0;
  phase = phase_after idle (cached_prices moment app).2;
}

abbrev run : Reach lib texts json 1000 world asked
run = next here (price world moment)

-- A request takes the guard, another does not get it and passes, and the first one answers.
abbrev reading : World Fault Fault Dollars
reading = record world { app = record app { refresh = none }; phase = held fresh }

abbrev passed : World Fault Fault Dollars
passed = record reading { app = record (cached_prices moment reading.app).0 { refresh = none } }

abbrev answered : World Fault Fault Dollars
answered = record passed {
  app = (cached_prices moment (record passed.app { refresh = some fresh })).0;
  phase = phase_after idle (cached_prices moment (record passed.app { refresh = some fresh })).2;
}

abbrev overlapping : Reach lib texts json 1000 world answered
overlapping =
    next (next (next here (acquire world fresh refl refl)) (pass reading moment))
      (answer passed fresh moment refl)

Reach-Owned_example : Owned answered
Reach-Owned_example = Reach-Owned lib texts json 1000 refl overlapping

Reach-IsConsistent_example : IsConsistent asked.db
Reach-IsConsistent_example = Reach-IsConsistent lib texts json 1000 refl run

-- When the flag is set, one task had not looked at it, and another has yet to count the viewers.
abbrev stopped : Phase Fault Fault Dollars → World Fault Fault Dollars
stopped phase = record world { app = record app { stopping = true; refresh = none }; phase = phase }

Reach-stopping_example :
    let after = looked (stopped (spawned task)) task true in
    (after.app.stopping ≡ true) × NoNew lib texts json 1000 (spawned task) after.phase
Reach-stopping_example =
    Reach-stopping lib texts json 1000 refl (next here (look (stopped (spawned task)) task refl))

goes_on :
    let after =
      checked (stopped (counting task)) task (finds_nobody 0 (stopped (counting task)).app) in
    (after.app.stopping ≡ true) × (after.phase ≡ refreshing task)
unfolding retain active_viewer_count
goes_on = (refl, refl)

storable_results : AllStorable (failures_of (fetch_selected_sources lib texts network plan.sources))
unfolding fetch_selected_sources fetch_round_robin_source coinbase_price
storable_results = tt

some_quote : is_empty (refreshed_of (fetch_selected_sources lib texts network plan.sources)) ≡ false
unfolding fetch_selected_sources fetch_round_robin_source coinbase_price
some_quote = refl

-- A request after the refresh.
abbrev later : Moment Dollars
later = record {
  now = 0;
  now_unix = pos 103;
  loaded =
      load_price_state json
        (refresh_snapshot lib texts network json (pos 102) (some latest) plan database).0;
}

cached_prices-refresh_snapshot_example :
    let results = fetch_selected_sources lib texts network plan.sources in
    Serves later app
      (merged_snapshot texts (pos 102) (some latest) (refreshed_of results) (failures_of results))
      (sort_by_source (λ h. h.source) (put_all (map (λ r. r.0) results) []))
cached_prices-refresh_snapshot_example =
    cached_prices-refresh_snapshot lib texts network Dollars-IsFloat json (pos 102) (some latest)
      plan [] database later app some_quote decoded_here refl refl average_here spread_here
      storable_results refl

-- The first viewer asks for the prices.
abbrev opened : World Fault Fault Dollars
opened = record { app = with_config {A = ℕ} (defaults 3000); db = database; phase = idle }

abbrev visited : World Fault Fault Dollars
visited = record opened {
  app = (update_presence moment (visit "viewer") opened.app).0;
  phase = phase_after idle (update_presence moment (visit "viewer") opened.app).2;
}

abbrev visits : Reach lib texts json 1000 opened visited
visits = next here (update opened moment (visit "viewer"))

starts_of_visits : starts lib texts json 1000 visits ≡ 0 ∷ []
unfolding update_presence cached_prices retain insert is_valid_session_id apply_presence_update
    contains_key
starts_of_visits = refl

nobody_here : prune_inactive_viewers 0 opened.app.presence.viewers ≡ []
unfolding prune_inactive_viewers retain
nobody_here = refl

valid_name : is_valid_session_id "viewer" ≡ true
unfolding is_valid_session_id
valid_name = refl

old_enough : recent_reason (fetched_age (stored_of moment.loaded).snapshot moment.now_unix) ≡ none
unfolding snapshot_age_seconds
old_enough = refl

update_presence-visit_example :
    let after = update_presence moment (visit "viewer") opened.app in
    (task : RefreshTask Dollars) × (after.2 ≡ some task)
    × (task.plan.full_refresh ≡ true)
    × (task.plan.sources ≡ keep (is_ready fresh 0) all_sources)
    × (after.1.status ≡ 200)
    × (after.1.body.active_viewers ≡ 1)
update_presence-visit_example =
    update_presence-visit moment "viewer" opened.app fresh valid_name (omega arith) nobody_here refl
      refl old_enough refl (omega arith) refl refl refl (omega arith)
