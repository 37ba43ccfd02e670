-- ===== src/Handlers/Task.antt =====
-- The task that `cached_prices` of src/handlers.rs spawns, which owns the coordinator: the check
-- before any request, the refresh, and what it leaves behind.
use bitcoin_price_tracker.Prelude.{
  Bool, false, List, [], ◌∷◌, ◌++◌, map, some, String, if◌then◌else◌, ◌==◌,
}
use bitcoin_price_tracker.Prelude.Results.{Result, ok, err}
use bitcoin_price_tracker.Time.{Instant, UnixTime}
use bitcoin_price_tracker.Errors.{Texts, ProviderError, display}
use bitcoin_price_tracker.Presence.{active_viewer_count}
use bitcoin_price_tracker.Refresh.{complete}
use bitcoin_price_tracker.Storage.{StoreError}
use bitcoin_price_tracker.Pricing.Refresh.{RefreshOutcome}
use bitcoin_price_tracker.Handlers.{AppState, PriceRefreshReport, RefreshTask}

-- `Display` of a `RefreshError`.
abbrev pub refresh_error_text : String
refresh_error_text = "Failed to store refreshed price data"

-- The `match` on `outcome.stored`.
abbrev pub stored_report : Result StoreError Bool → PriceRefreshReport
stored_report (ok saved) = record { succeeded = saved; errors = [] }
stored_report (err error) = record { succeeded = false; errors = refresh_error_text ∷ [] }

module _ {R J : Type 0} (texts : Texts) where
  abbrev pub with_failures : List (ProviderError R J) → PriceRefreshReport → PriceRefreshReport
  with_failures failures report =
      if report.succeeded
      then report
      else record report { errors = report.errors ++ map (display texts) failures }

  unfoldable pub report_of : RefreshOutcome R J → PriceRefreshReport
  report_of outcome = with_failures outcome.failures (stored_report outcome.stored)

-- `active_viewer_count(&state).await == 0`, after the test of the flag: the state after, and whether
-- the task gives up.
abbrev pub finds_nobody : Instant → AppState → AppState × Bool
finds_nobody now s =
    let counted = active_viewer_count now s.presence in
    (record s { presence = counted.0 }, counted.1 == 0)

module _ {W : Type 0} where
  -- The task ends: its guard is dropped.
  abbrev pub release : RefreshTask W → AppState → AppState
  release task s = record s { refresh = some task.coordinator }

module _ {R J W : Type 0} (texts : Texts) (last : Instant) where
  -- The task after its refresh; `now` and `now_unix` are the clocks of `complete`.
  unfoldable pub finish :
      RefreshOutcome R J → Instant → UnixTime → RefreshTask W → AppState → AppState
  unfolding report_of
  finish outcome now now_unix task s = record s {
    refresh = some (complete last task.plan outcome.failures now now_unix task.coordinator);
    price_refresh_report = report_of texts outcome;
  }
