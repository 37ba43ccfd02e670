-- ===== src/Handlers.antt =====
-- src/handlers.rs: the answers to requests, and the background task that a price request may start.
-- A request reads the clocks and the store once; what it read is an argument.
pub mod Task
pub mod World
pub mod Responses
pub mod Shutdown
pub mod Served
pub mod Spacing
pub mod Starts
pub mod Contract
pub mod Activation
use Prim.Native.String.{◌++◌ as then_text}
use bitcoin_price_tracker.Prelude.{
  ℕ, Bool, true, false, ◌&&◌, ◌||◌, not, List, [], ◌∷◌, ◌++◌, map, Option, none, some, String,
  if◌then◌else◌, is_empty, ℤ, pos,
}
use bitcoin_price_tracker.Prelude.Results.{is_none}
use bitcoin_price_tracker.Time.{Instant, UnixTime, source_max_age_seconds}
use bitcoin_price_tracker.Float.{Float64}
use bitcoin_price_tracker.Models.{
  PriceStatus, live, degraded, stale, unavailable, SnapshotRecord, StoredPriceState,
  PresencePayload, PresenceResponse, PriceResponse, StoredQuote,
}
use bitcoin_price_tracker.Presence.{
  Presence, Admission, admitted, refused, apply_presence_update, active_viewer_count, SkipReason,
  snapshot_age_seconds, refresh_skip_reason, is_valid_session_id,
}
use bitcoin_price_tracker.Config.{RuntimeConfig}
use bitcoin_price_tracker.Refresh.{
  fresh, RefreshCoordinator, RefreshPlan, Skip, Begun, planned, skipped, begin,
}
use bitcoin_price_tracker.Freshness.{QuoteEvaluation, evaluate_quotes}
use bitcoin_price_tracker.Storage.{Stored, ok, err}

-- `PriceRefreshReport` of src/state.rs.
pub record PriceRefreshReport : Type 0 where
  pub succeeded : Bool
  pub errors : List String

-- The part of `AppState` that the handlers share. `refresh` is empty while a task owns the
-- coordinator.
pub record AppState : Type 0 where
  pub max_viewers : ℕ
  pub presence : Presence
  pub refresh : Option RefreshCoordinator
  pub price_refresh_report : PriceRefreshReport
  pub stopping : Bool

-- `AppState::with_dependencies` and `with_config`, as far as the handlers share it: nobody is there, no
-- task has run.
abbrev pub with_config : {A : Type 0} → RuntimeConfig A → AppState
with_config config = record {
  max_viewers = config.max_viewers;
  presence = record { viewers = []; full_refresh_generation = 0 };
  refresh = some fresh;
  price_refresh_report = record { succeeded = false; errors = [] };
  stopping = false;
}

-- The texts of `refresh_skipped_reason`.
pub data RefreshNote : Type 0 where
  could_not_read shutting_down scheduled in_progress : RefreshNote
  not_needed : SkipReason → RefreshNote
  not_begun : Skip → RefreshNote

-- What a spawned task takes with it.
pub record RefreshTask (W : Type 0) : Type 0 where
  pub coordinator : RefreshCoordinator
  pub plan : RefreshPlan
  pub snapshot : Option (SnapshotRecord W)

-- What one request reads: the clocks, and the store.
pub record Moment (W : Type 0) : Type 0 where
  pub now : Instant
  pub now_unix : UnixTime
  pub loaded : Stored (StoredPriceState W)

-- What the `if` chain of `cached_prices` decides: the coordinator after it, the note, and a task.
pub record Decision (W : Type 0) : Type 0 where
  pub refresh : Option RefreshCoordinator
  pub note : RefreshNote
  pub task : Option (RefreshTask W)

module _ {W : Type 0} where
  abbrev pub stored_of : Stored (StoredPriceState W) → StoredPriceState W
  stored_of (ok stored) = stored
  stored_of (err e) = record { snapshot = none; provider_health = [] }

  abbrev pub read_failed : Stored (StoredPriceState W) → Bool
  read_failed (ok stored) = false
  read_failed (err e) = true

  abbrev pub fetched_at : Option (SnapshotRecord W) → UnixTime
  fetched_at none = pos 0
  fetched_at (some snapshot) = snapshot.fetched_at_unix

  abbrev pub fetched_age : Option (SnapshotRecord W) → UnixTime → Option ℤ
  fetched_age none now = none
  fetched_age (some snapshot) now = snapshot_age_seconds snapshot now

  -- The `match` on `begin`.
  abbrev pub start : Option (SnapshotRecord W) → RefreshCoordinator × Begun → Decision W
  start snapshot (coordinator, planned plan) = record {
    refresh = none;
    note = scheduled;
    task = some (record { coordinator = coordinator; plan = plan; snapshot = snapshot });
  }
  start snapshot (coordinator, skipped reason) = record {
    refresh = some coordinator;
    note = not_begun reason;
    task = none;
  }

  -- The last two branches, with the coordinator or without.
  abbrev pub try_begin :
      Option (SnapshotRecord W) → Instant → ℕ → Option RefreshCoordinator → Decision W
  try_begin snapshot now generation none = record {
    refresh = none;
    note = in_progress;
    task = none;
  }
  try_begin snapshot now generation (some coordinator) =
      start snapshot (begin now generation coordinator)

  abbrev pub consider :
      Option SkipReason
      → Option (SnapshotRecord W)
      → Instant
      → ℕ
      → Option RefreshCoordinator
      → Decision W
  consider (some reason) snapshot now generation owner = record {
    refresh = owner;
    note = not_needed reason;
    task = none;
  }
  consider none snapshot now generation owner = try_begin snapshot now generation owner

  unfoldable pub decide : Moment W → ℕ → AppState → Decision W
  unfolding begin refresh_skip_reason snapshot_age_seconds
  decide m active_viewers s =
      let snapshot = (stored_of m.loaded).snapshot in
      if read_failed m.loaded
      then record { refresh = s.refresh; note = could_not_read; task = none }
      else if s.stopping
      then record { refresh = s.refresh; note = shutting_down; task = none }
      else consider (refresh_skip_reason active_viewers (fetched_age snapshot m.now_unix)) snapshot
          m.now s.presence.full_refresh_generation s.refresh

  abbrev pub quotes_of : Option (SnapshotRecord W) → List (StoredQuote W)
  quotes_of none = []
  quotes_of (some snapshot) = snapshot.sources

  abbrev pub stored_warnings : Option (SnapshotRecord W) → List String
  stored_warnings none = "No stored BTC price snapshot is available yet." ∷ []
  stored_warnings (some snapshot) = snapshot.warnings

  -- The prefix of a failure's text, where a snapshot is served.
  abbrev pub failure_text : Option (SnapshotRecord W) → String → String
  failure_text none error = error
  failure_text (some snapshot) error =
      then_text "Refresh failed; serving latest SQLite snapshot: " error

-- The status after the errors of the last task.
abbrev pub downgrade : List String → PriceStatus → PriceStatus
downgrade [] status = status
downgrade (error ∷ errors) live = degraded
downgrade (error ∷ errors) status = status

abbrev pub is_live_status : PriceStatus → Bool
is_live_status live = true
is_live_status _ = false

abbrev pub Price : Type 0 → Type 0
Price W = PriceResponse W RefreshNote

-- The answer of `update_presence`: its status, the number of viewers, and the prices; or the number
-- with an error in place of the prices.
pub record PresenceAnswer (W : Type 0) : Type 0 where
  pub status : ℕ
  pub body : PresenceResponse (Price W)
  pub error : Option String

module _ {W : Type 0} ⦃f : Float64 W⦄ where
  -- `cached_prices`: the state after, the HTTP status and the response, and the task that it spawns.
  unfoldable pub cached_prices :
      Moment W → AppState → AppState × (ℕ × Price W) × Option (RefreshTask W)
  unfolding active_viewer_count decide evaluate_quotes snapshot_age_seconds
  cached_prices m s =
      let stored = stored_of m.loaded in
      let counted = active_viewer_count m.now s.presence in
      let report = s.price_refresh_report in
      let decision = decide m counted.1 (record s { presence = counted.0 }) in
      let evaluated =
        evaluate_quotes (quotes_of stored.snapshot) stored.provider_health m.now_unix in
      let status = downgrade report.errors evaluated.status in
      (
        record s { presence = counted.0; refresh = decision.refresh },
        (
          if read_failed m.loaded then 500 else if is_empty evaluated.sources then 503 else 200,
          record {
            symbol = "BTC";
            currency = "USD";
            sources = evaluated.sources;
            provider_health = stored.provider_health;
            average_price = evaluated.average_price;
            spread = evaluated.spread;
            status = status;
            coverage = evaluated.coverage;
            source_max_age_seconds = source_max_age_seconds;
            evaluated_at_unix = m.now_unix;
            fetched_at_unix = fetched_at stored.snapshot;
            fetched_age_seconds = fetched_age stored.snapshot m.now_unix;
            warnings =
                if read_failed m.loaded
                then "Failed to load stored price data." ∷ []
                else map (failure_text stored.snapshot) report.errors
                  ++ stored_warnings stored.snapshot;
            refresh_succeeded = report.succeeded && not (read_failed m.loaded);
            refreshing = is_none s.refresh || not (is_none decision.task);
            stale = not (is_live_status status);
            active_viewers = counted.1;
            refresh_skipped_reason = some decision.note;
          },
        ),
        decision.task,
      )

  abbrev pub presence_answer : ℕ → ℕ → Option (Price W) → PresenceAnswer W
  presence_answer status active_viewers price = record {
    status = status;
    body = record { active_viewers = active_viewers; price = price };
    error = none;
  }

  -- The `json!` value of the refusal.
  abbrev pub refused_answer : ℕ → PresenceAnswer W
  refused_answer active_viewers = record {
    status = 429;
    body = record { active_viewers = active_viewers; price = none };
    error = some "Viewer capacity reached; retry later.";
  }

  -- The answer to an admitted update.
  abbrev pub admitted_answer :
      Bool → Moment W → ℕ → AppState → AppState × PresenceAnswer W × Option (RefreshTask W)
  admitted_answer false m active_viewers s = (s, presence_answer 200 active_viewers none, none)
  admitted_answer true m active_viewers s =
      let (after, answer, task) = cached_prices m s in
      (after, presence_answer 200 active_viewers (some answer.1), task)

  abbrev pub answer_update :
      Bool
      → Moment W
      → AppState
      → Presence × Admission
      → AppState × PresenceAnswer W × Option (RefreshTask W)
  answer_update include_price m s (presence, admitted n) =
      admitted_answer include_price m n (record s { presence = presence })
  answer_update include_price m s (presence, refused n) =
      (record s { presence = presence }, refused_answer n, none)

  unfoldable pub update_presence :
      Moment W → PresencePayload → AppState → AppState × PresenceAnswer W × Option (RefreshTask W)
  update_presence m payload s =
      if not (is_valid_session_id payload.session_id)
      then (s, presence_answer 400 0 none, none)
      else answer_update (payload.active && payload.include_price) m s
          (apply_presence_update s.max_viewers m.now payload s.presence)

  -- `health`.
  abbrev pub health : Stored (StoredPriceState W) → ℕ
  health (ok stored) = 200
  health (err e) = 503
