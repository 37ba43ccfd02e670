-- ===== src/Handlers/World.antt =====
-- Requests, presence updates, the shutdown and the background task in any order, and the guard of the
-- coordinator, which a request holds over its awaits, the task to its end, and the shutdown once.
use bitcoin_price_tracker.Prelude.{
  Bool, not, true, false, ◌≡◌, refl, ◌∙◌, ◌&&◌, ◌==◌, Option, none, some, arith, Bool-cases, inl,
  inr,
}
use bitcoin_price_tracker.Prelude.Results.{is_none}
use bitcoin_price_tracker.Time.{Instant, UnixTime}
use bitcoin_price_tracker.Float.{Float64}
use bitcoin_price_tracker.Errors.{Texts}
use bitcoin_price_tracker.Models.{PresencePayload}
use bitcoin_price_tracker.Storage.{Json, Database}
use bitcoin_price_tracker.Pricing.{Libraries}
use bitcoin_price_tracker.Pricing.Refresh.{Network, RefreshOutcome, refresh_snapshot}
use bitcoin_price_tracker.Refresh.{RefreshCoordinator}
use bitcoin_price_tracker.Handlers.{
  AppState, RefreshTask, Moment, cached_prices, update_presence, answer_update,
}
use bitcoin_price_tracker.Presence.{
  Presence, Admission, admitted, refused, active_viewer_count, apply_presence_update,
  is_valid_session_id,
}
use bitcoin_price_tracker.Handlers.Task.{finds_nobody, release, finish}

-- The guard: free, held by a request or the shutdown, or with the background task: one that has not
-- looked at the flag, one that has yet to count the viewers, one that refreshes, or one whose refresh
-- is over.
pub data Phase (R J W : Type 0) : Type 0 where
  idle : Phase R J W
  held : RefreshCoordinator → Phase R J W
  spawned : RefreshTask W → Phase R J W
  counting : RefreshTask W → Phase R J W
  refreshing : RefreshTask W → Phase R J W
  saved : RefreshTask W → RefreshOutcome R J → Phase R J W

pub record World (R J W : Type 0) : Type 0 where
  pub app : AppState
  pub db : Database W
  pub phase : Phase R J W

module _ {R J W : Type 0} where
  abbrev pub phase_after : Phase R J W → Option (RefreshTask W) → Phase R J W
  phase_after phase none = phase
  phase_after phase (some task) = spawned task

  -- The task after it looked at the flag.
  abbrev pub looked : World R J W → RefreshTask W → Bool → World R J W
  looked w task true = record w { app = release task w.app; phase = idle }
  looked w task false = record w { phase = counting task }

  -- The task after it counted the viewers.
  abbrev pub checked : World R J W → RefreshTask W → AppState × Bool → World R J W
  checked w task (s, true) = record w { app = release task s; phase = idle }
  checked w task (s, false) = record w { app = s; phase = refreshing task }

  -- The coordinator is taken exactly while somebody holds it.
  abbrev pub is_idle : Phase R J W → Bool
  is_idle idle = true
  is_idle _ = false

  abbrev pub Owned : World R J W → Type 0
  Owned w = is_none w.app.refresh ≡ not (is_idle w.phase)

module _ {R H J V W : Type 0} ⦃f : Float64 W⦄ (lib : Libraries R H J V W) (texts : Texts)
    (json : Json) (last : Instant) where
  pub data Step : World R J W → World R J W → Type 0 where
    price :
        (w : World R J W) (m : Moment W)
        → Step w (record w {
          app = (cached_prices m w.app).0;
          phase = phase_after w.phase (cached_prices m w.app).2;
        })
    update :
        (w : World R J W) (m : Moment W) (payload : PresencePayload)
        → Step w (record w {
          app = (update_presence m payload w.app).0;
          phase = phase_after w.phase (update_presence m payload w.app).2;
        })
    stop : (w : World R J W) → Step w (record w { app = record w.app { stopping = true } })
    -- `try_lock_owned` of a request, whose answer comes later; or `lock` of the shutdown.
    acquire :
        (w : World R J W) (c : RefreshCoordinator)
        → w.phase ≡ idle
        → w.app.refresh ≡ some c
        → Step w (record w { app = record w.app { refresh = none }; phase = held c })
    -- The guard dropped: by the shutdown, or by a request that is cut off.
    drop :
        (w : World R J W) (c : RefreshCoordinator)
        → w.phase ≡ held c
        → Step w (record w { app = record w.app { refresh = some c }; phase = idle })
    -- The request that holds the guard, after its awaits.
    answer :
        (w : World R J W) (c : RefreshCoordinator) (m : Moment W)
        → w.phase ≡ held c
        → Step w (record w {
          app = (cached_prices m (record w.app { refresh = some c })).0;
          phase = phase_after idle (cached_prices m (record w.app { refresh = some c })).2;
        })
    -- A request that did not get the guard, after its awaits: it may be free again.
    pass :
        (w : World R J W) (m : Moment W)
        → Step w (record w {
          app = record (cached_prices m (record w.app { refresh = none })).0 {
            refresh = w.app.refresh;
          };
        })
    look :
        (w : World R J W) (task : RefreshTask W)
        → w.phase ≡ spawned task
        → Step w (looked w task w.app.stopping)
    check :
        (w : World R J W) (task : RefreshTask W) (now : Instant)
        → w.phase ≡ counting task
        → Step w (checked w task (finds_nobody now w.app))
    save :
        (w : World R J W) (task : RefreshTask W) (network : Network R H) (now : UnixTime)
        → w.phase ≡ refreshing task
        → Step w (record w {
          db = (refresh_snapshot lib texts network json now task.snapshot task.plan w.db).0;
          phase =
              saved task
                (refresh_snapshot lib texts network json now task.snapshot task.plan w.db).1;
        })
    report :
        (w : World R J W) (task : RefreshTask W) (outcome : RefreshOutcome R J) (now : Instant)
        (now_unix : UnixTime)
        → w.phase ≡ saved task outcome
        → Step w
            (record w { app = finish texts last outcome now now_unix task w.app; phase = idle })

  pub data Reach : World R J W → World R J W → Type 0 where
    here : {w : World R J W} → Reach w w
    next : {u v w : World R J W} → Reach u v → Step v w → Reach u w

  cached_prices-Owned :
      (m : Moment W) (s : AppState) (phase : Phase R J W)
      → is_none s.refresh ≡ not (is_idle phase)
      → is_none (cached_prices m s).0.refresh
        ≡ not (is_idle (phase_after phase (cached_prices m s).2))
  unfolding cached_prices
  cached_prices-Owned m s phase h = ground arith

  answer_update-Owned :
      (include_price : Bool) (m : Moment W) (s : AppState) (a : Presence × Admission)
      (phase : Phase R J W)
      → is_none s.refresh ≡ not (is_idle phase)
      → is_none (answer_update include_price m s a).0.refresh
        ≡ not (is_idle (phase_after phase (answer_update include_price m s a).2))
  answer_update-Owned false m s (presence, admitted n) phase h = h
  answer_update-Owned true m s (presence, admitted n) phase h =
      cached_prices-Owned m (record s { presence = presence }) phase h
  answer_update-Owned include_price m s (presence, refused n) phase h = h

  update_presence-Owned :
      (m : Moment W) (payload : PresencePayload) (s : AppState) (phase : Phase R J W)
      → is_none s.refresh ≡ not (is_idle phase)
      → is_none (update_presence m payload s).0.refresh
        ≡ not (is_idle (phase_after phase (update_presence m payload s).2))
  unfolding update_presence
  update_presence-Owned m payload s phase h =
      elim (Bool-cases (is_valid_session_id payload.session_id)) [
        | inl valid ↦ rw valid (
            answer_update-Owned (payload.active && payload.include_price) m s
              (apply_presence_update s.max_viewers m.now payload s.presence) phase h)
        | inr invalid ↦ rw invalid h
      ]

  looked-Owned :
      (w : World R J W) (task : RefreshTask W) (stops : Bool)
      → w.phase ≡ spawned task
      → Owned w
      → Owned (looked w task stops)
  looked-Owned w task true e h = refl
  looked-Owned w task false e h = h ∙ rw e refl

  checked-Owned :
      (w : World R J W) (task : RefreshTask W) (now : Instant)
      → w.phase ≡ counting task
      → Owned w
      → Owned (checked w task (finds_nobody now w.app))
  checked-Owned w task now e h =
      let taken : is_none w.app.refresh ≡ true = h ∙ rw e refl in
      elim (Bool-cases ((active_viewer_count now w.app.presence).1 == 0)) [
        | inl nobody ↦ rw nobody refl
        | inr somebody ↦ rw somebody taken
      ]

  pub Step-Owned : {v w : World R J W} → Step v w → Owned v → Owned w
  Step-Owned (price w m) h = cached_prices-Owned m w.app w.phase h
  Step-Owned (update w m payload) h = update_presence-Owned m payload w.app w.phase h
  Step-Owned (stop w) h = h
  Step-Owned (acquire w c e k) h = refl
  Step-Owned (drop w c e) h = refl
  Step-Owned (answer w c m e) h =
      cached_prices-Owned m (record w.app { refresh = some c }) idle refl
  Step-Owned (pass w m) h = h
  Step-Owned (look w task e) h = looked-Owned w task w.app.stopping e h
  Step-Owned (check w task now e) h = checked-Owned w task now e h
  Step-Owned (save w task network now e) h = h ∙ rw e refl
  Step-Owned (report w task outcome now now_unix e) h = unfold finish in refl

  -- Whatever the requests, the updates, the shutdown and the tasks do, and in whatever order, also with
  -- requests that keep the guard over their awaits, the coordinator is taken exactly while one request,
  -- the shutdown or one task holds it: nobody leaves it taken, and nobody works on it without the guard.
  pub Reach-Owned : {u w : World R J W} → Owned u → Reach u w → Owned w
  Reach-Owned h here = h
  Reach-Owned h (next r step) = Step-Owned step (Reach-Owned h r)
