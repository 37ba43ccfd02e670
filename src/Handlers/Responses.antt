-- ===== src/Handlers/Responses.antt =====
-- When a price request starts a refresh, and what it answers.
use bitcoin_price_tracker.Prelude.{
  ℕ, not, true, false, ◌≡◌, refl, Option, none, some, String, List, [], ◌∷◌, arith, if◌then◌else◌,
  ◌↔◌, is_empty,
}
use bitcoin_price_tracker.Float.{Float64}
use bitcoin_price_tracker.Models.{SnapshotRecord, PriceStatus, live, degraded, stale, unavailable}
use bitcoin_price_tracker.Presence.{active_viewer_count, refresh_skip_reason}
use bitcoin_price_tracker.Refresh.{RefreshCoordinator, Begun, planned, skipped, begin}
use bitcoin_price_tracker.Freshness.{evaluate_quotes, responses}
use bitcoin_price_tracker.Handlers.{
  AppState, RefreshTask, Moment, stored_of, read_failed, fetched_age, quotes_of, start, try_begin,
  decide, downgrade, is_live_status, cached_prices,
}

module _ {W : Type 0} where
  -- The free coordinator begins the plan that the task has.
  abbrev pub IsBegun : Moment W → ℕ → Option RefreshCoordinator → RefreshTask W → Type 0
  IsBegun m generation none task = ⊥
  IsBegun m generation (some coordinator) task =
      begin m.now generation coordinator ≡ (task.coordinator, planned task.plan)

  start_iff :
      (snapshot : Option (SnapshotRecord W)) (begun : RefreshCoordinator × Begun)
      (task : RefreshTask W)
      → ((start snapshot begun).task ≡ some task)
        ↔ ((begun ≡ (task.coordinator, planned task.plan)) × (snapshot ≡ task.snapshot))
  start_iff snapshot (coordinator, planned plan) task = ground arith
  start_iff snapshot (coordinator, skipped reason) task = ground arith

  try_begin_iff :
      (m : Moment W) (snapshot : Option (SnapshotRecord W)) (generation : ℕ)
      (owner : Option RefreshCoordinator) (task : RefreshTask W)
      → ((try_begin snapshot m.now generation owner).task ≡ some task)
        ↔ (IsBegun m generation owner task × (snapshot ≡ task.snapshot))
  try_begin_iff m snapshot generation none task = ground arith
  try_begin_iff m snapshot generation (some coordinator) task =
      start_iff snapshot (begin m.now generation coordinator) task

  decide_iff :
      (m : Moment W) (viewers : ℕ) (s : AppState) (task : RefreshTask W)
      → ((decide m viewers s).task ≡ some task) ↔ (
          (read_failed m.loaded ≡ false)
          × (s.stopping ≡ false)
          × (refresh_skip_reason viewers (fetched_age (stored_of m.loaded).snapshot m.now_unix)
              ≡ none)
          × IsBegun m s.presence.full_refresh_generation s.refresh task
          × ((stored_of m.loaded).snapshot ≡ task.snapshot))
  unfolding decide
  decide_iff m viewers s task = ground (
    arith,
    try_begin_iff m (stored_of m.loaded).snapshot s.presence.full_refresh_generation s.refresh task,
  )

downgrade_lem :
    (errors : List String) (status : PriceStatus)
    → downgrade errors status
      ≡ (if is_empty errors then status else if is_live_status status then degraded else status)
downgrade_lem [] status = refl
downgrade_lem (e ∷ es) live = refl
downgrade_lem (e ∷ es) degraded = refl
downgrade_lem (e ∷ es) stale = refl
downgrade_lem (e ∷ es) unavailable = refl

stale_iff : (status : PriceStatus) → (not (is_live_status status) ≡ false) ↔ (status ≡ live)
stale_iff live = ground arith
stale_iff degraded = ground arith
stale_iff stale = ground arith
stale_iff unavailable = ground arith

module _ {W : Type 0} ⦃f : Float64 W⦄ (m : Moment W) (s : AppState) where
  -- A price request starts a refresh exactly when the stored prices could be read, the server is not
  -- shutting down, somebody is watching and the stored snapshot is not too recent, no other task has
  -- the coordinator, and the coordinator begins a plan; and the task gets that plan, the coordinator
  -- and the snapshot that was read.
  pub cached_prices-starts_iff :
      (task : RefreshTask W)
      → ((cached_prices m s).2 ≡ some task) ↔ (
          (read_failed m.loaded ≡ false)
          × (s.stopping ≡ false)
          × (refresh_skip_reason
                (active_viewer_count m.now s.presence).1
                (fetched_age (stored_of m.loaded).snapshot m.now_unix)
              ≡ none)
          × IsBegun m s.presence.full_refresh_generation s.refresh task
          × ((stored_of m.loaded).snapshot ≡ task.snapshot))
  unfolding cached_prices
  cached_prices-starts_iff task =
      decide_iff m (active_viewer_count m.now s.presence).1
        (record s { presence = (active_viewer_count m.now s.presence).0 }) task

  -- The HTTP status is 500 if the stored prices could not be read, otherwise 503 if no stored quote is
  -- usable, and 200 if one is. The price is reported as live exactly when the quotes evaluate to live
  -- and the last task reported no error, it is degraded instead of live after one with an error, and
  -- it is marked stale unless it is live. The refresh is reported as a
  -- success exactly when the last task was one and the stored prices could be read.
  pub cached_prices_reports :
      let answer = (cached_prices m s).1 in
      let stored = stored_of m.loaded in
      let usable = responses (quotes_of stored.snapshot) m.now_unix in
      let evaluated =
        evaluate_quotes (quotes_of stored.snapshot) stored.provider_health m.now_unix in
      (answer.0 ≡ (if read_failed m.loaded then 500 else if is_empty usable then 503 else 200))
      × (answer.1.status ≡ (
          if is_empty s.price_refresh_report.errors
          then evaluated.status
          else if is_live_status evaluated.status
          then degraded
          else evaluated.status))
      × ((answer.1.stale ≡ false) ↔ (answer.1.status ≡ live))
      × ((answer.1.refresh_succeeded ≡ true)
          ↔ ((s.price_refresh_report.succeeded ≡ true) × (read_failed m.loaded ≡ false)))
  unfolding cached_prices
  cached_prices_reports = (
    unfold evaluate_quotes in refl,
    downgrade_lem s.price_refresh_report.errors
        (evaluate_quotes (quotes_of (stored_of m.loaded).snapshot)
          (stored_of m.loaded).provider_health m.now_unix).status,
    stale_iff _,
    ground arith,
  )
