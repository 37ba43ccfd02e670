-- ===== src/Handlers/Spacing.antt =====
-- How often the server as a whole starts to refresh: the coordinator goes from the requests to the task
-- that they spawn and back, and keeps its record of the last start on the way.
use bitcoin_price_tracker.Prelude.{
  ℕ, Bool, not, true, false, ◌≡◌, refl, ap, ◌∙◌, ◌&&◌, List, [], ◌∷◌, Option, none, some, arith,
  Bool-cases, Option-cases, inl, inr,
}
use bitcoin_price_tracker.Prelude.Results.{is_none}
use bitcoin_price_tracker.Time.{Instant}
use bitcoin_price_tracker.Float.{Float64}
use bitcoin_price_tracker.Config.{RuntimeConfig}
use bitcoin_price_tracker.Errors.{Texts}
use bitcoin_price_tracker.Models.{PresencePayload, SnapshotRecord}
use bitcoin_price_tracker.Presence.{
  Presence, Admission, admitted, refused, active_viewer_count, apply_presence_update,
  is_valid_session_id, refresh_skip_reason,
}
use bitcoin_price_tracker.Refresh.{RefreshCoordinator, Begun, planned, skipped, begin}
use bitcoin_price_tracker.Refresh.Plans.{IsValid, begin_plan, begin_records, begin-IsValid}
use bitcoin_price_tracker.Refresh.Settle.{complete-frame}
use bitcoin_price_tracker.Refresh.Trace.{Spaced, newest, Spaced-cons, skipped_same}
use bitcoin_price_tracker.Storage.{Json, Database}
use bitcoin_price_tracker.Pricing.{Libraries}
use bitcoin_price_tracker.Handlers.{
  AppState, with_config, RefreshTask, Moment, start, try_begin, decide, stored_of, read_failed,
  fetched_age, cached_prices, answer_update, update_presence,
}
use bitcoin_price_tracker.Handlers.Task.{finds_nobody, finish}
use bitcoin_price_tracker.Handlers.World.{
  Phase, idle, held, spawned, counting, refreshing, saved, World, phase_after, looked, checked,
  Step, price, update, stop, acquire, drop, answer, pass, look, check, save, report, Reach, here,
  next, is_idle, Owned, Step-Owned,
}

module _ {R J W : Type 0} where
  -- The coordinator: free, or with who holds the guard.
  abbrev pub holder : Option RefreshCoordinator → Phase R J W → Option RefreshCoordinator
  holder free idle = free
  holder free (held c) = some c
  holder free (spawned task) = some task.coordinator
  holder free (counting task) = some task.coordinator
  holder free (refreshing task) = some task.coordinator
  holder free (saved task outcome) = some task.coordinator

module _ {W : Type 0} where
  -- The starts after a request, newest first.
  abbrev pub started : Instant → Option (RefreshTask W) → List Instant → List Instant
  started now none ts = ts
  started now (some task) ts = now ∷ ts

-- The coordinator is there, knows the newest start, and the starts are spaced.
abbrev pub Holds : List Instant → Option RefreshCoordinator → Type 0
Holds ts none = ⊥
Holds ts (some c) = IsValid c × (c.last_attempt ≡ newest ts) × Spaced ts

module _ (R J : Type 0) {W : Type 0} (now : Instant) (generation : ℕ)
    (snapshot : Option (SnapshotRecord W)) (ts : List Instant) where
  begun-Holds :
      (c : RefreshCoordinator)
      → Holds ts (some c)
      → (b : RefreshCoordinator × Begun) → begin now generation c ≡ b
      → Holds (started now (start snapshot b).task ts) (
          holder {R = R} {J = J}
            (start snapshot b).refresh
            (phase_after idle (start snapshot b).task))
  begun-Holds c (valid, recorded, spaced) (c', planned plan) e =
      let made : (begin now generation c).1 ≡ planned plan = ap (λ b. b.1) e in
      let whole : (begin now generation c).0 ≡ c' = ap (λ b. b.0) e in
      (
        rw (← whole) (begin-IsValid now generation c valid),
        rw (← whole) (begin_records now generation c plan made).0,
        Spaced-cons now ts (rw recorded at (begin_plan now generation c plan made).1) spaced,
      )
  begun-Holds c (valid, recorded, spaced) (c', skipped reason) e =
      let same =
        skipped_same now generation c reason valid.cursor
          (ap (λ (b : RefreshCoordinator × Begun). b.1) e) in
      rw (← ap (λ (b : RefreshCoordinator × Begun). b.0) e) (rw same (valid, recorded, spaced))

module _ {R J W : Type 0} (now : Instant) (generation : ℕ) (snapshot : Option (SnapshotRecord W))
    (ts : List Instant) where
  -- The last two branches of `cached_prices`.
  try_begin-Holds :
      (free : Option RefreshCoordinator) (phase : Phase R J W)
      → is_none free ≡ not (is_idle phase)
      → Holds ts (holder free phase)
      → let d = try_begin snapshot now generation free in
        Holds (started now d.task ts) (holder d.refresh (phase_after phase d.task))
  try_begin-Holds none phase owned h = h
  try_begin-Holds (some c) idle owned h =
      begun-Holds R J now generation snapshot ts c h (begin now generation c) refl
  try_begin-Holds (some c) (held d) owned h = cc
  try_begin-Holds (some c) (spawned task) owned h = cc
  try_begin-Holds (some c) (counting task) owned h = cc
  try_begin-Holds (some c) (refreshing task) owned h = cc
  try_begin-Holds (some c) (saved task outcome) owned h = cc

module _ {R J W : Type 0} (m : Moment W) (ts : List Instant) (phase : Phase R J W) where
  decide-Holds :
      (viewers : ℕ) (s : AppState)
      → is_none s.refresh ≡ not (is_idle phase)
      → Holds ts (holder s.refresh phase)
      → let d = decide m viewers s in
        Holds (started m.now d.task ts) (holder d.refresh (phase_after phase d.task))
  unfolding decide
  decide-Holds viewers s owned h = elim (Bool-cases (read_failed m.loaded)) [
    | inl failed ↦ rw failed h
    | inr loaded ↦ rw loaded (elim (Bool-cases s.stopping) [
      | inl stopping ↦ rw stopping h
      | inr running ↦
          rw running
            (elim (Option-cases (
              refresh_skip_reason viewers (fetched_age (stored_of m.loaded).snapshot m.now_unix))) [
                | inl needed ↦ rw needed (
                    try_begin-Holds m.now s.presence.full_refresh_generation
                      (stored_of m.loaded).snapshot ts s.refresh phase owned h)
                | inr (reason, e) ↦ rw e h
              ])
    ])
  ]

module _ {R J W : Type 0} ⦃f : Float64 W⦄ (m : Moment W) (ts : List Instant)
    (phase : Phase R J W) where
  cached_prices-Holds :
      (s : AppState)
      → is_none s.refresh ≡ not (is_idle phase)
      → Holds ts (holder s.refresh phase)
      → Holds
          (started m.now (cached_prices m s).2 ts)
          (holder (cached_prices m s).0.refresh (phase_after phase (cached_prices m s).2))
  unfolding cached_prices
  cached_prices-Holds s owned h =
      let counted = active_viewer_count m.now s.presence in
      decide-Holds m ts phase counted.1 (record s { presence = counted.0 }) owned h

  answer_update-Holds :
      (include_price : Bool) (s : AppState) (a : Presence × Admission)
      → is_none s.refresh ≡ not (is_idle phase)
      → Holds ts (holder s.refresh phase)
      → Holds (started m.now (answer_update include_price m s a).2 ts) (
          holder
            (answer_update include_price m s a).0.refresh
            (phase_after phase (answer_update include_price m s a).2))
  answer_update-Holds false s (presence, admitted n) owned h = h
  answer_update-Holds true s (presence, admitted n) owned h =
      cached_prices-Holds (record s { presence = presence }) owned h
  answer_update-Holds include_price s (presence, refused n) owned h = h

  update_presence-Holds :
      (payload : PresencePayload) (s : AppState)
      → is_none s.refresh ≡ not (is_idle phase)
      → Holds ts (holder s.refresh phase)
      → Holds (started m.now (update_presence m payload s).2 ts) (
          holder
            (update_presence m payload s).0.refresh
            (phase_after phase (update_presence m payload s).2))
  unfolding update_presence
  update_presence-Holds payload s owned h =
      elim (Bool-cases (is_valid_session_id payload.session_id)) [
        | inl valid ↦ rw valid (
            answer_update-Holds (payload.active && payload.include_price) s
              (apply_presence_update s.max_viewers m.now payload s.presence) owned h)
        | inr invalid ↦ rw invalid h
      ]

module _ {R J W : Type 0} (ts : List Instant) where
  looked-Holds :
      (w : World R J W) (task : RefreshTask W) (stops : Bool)
      → w.phase ≡ spawned task
      → Holds ts (holder w.app.refresh w.phase)
      → Holds ts (holder (looked w task stops).app.refresh (looked w task stops).phase)
  looked-Holds w task true e h = rw e at h
  looked-Holds w task false e h = rw e at h

  checked-Holds :
      (w : World R J W) (task : RefreshTask W) (s : AppState) (stops : Bool)
      → w.phase ≡ counting task
      → Holds ts (holder w.app.refresh w.phase)
      → Holds ts (holder (checked w task (s, stops)).app.refresh (checked w task (s, stops)).phase)
  checked-Holds w task s true e h = rw e at h
  checked-Holds w task s false e h = rw e at h

module _ {R H J V W : Type 0} ⦃f : Float64 W⦄ (lib : Libraries R H J V W) (texts : Texts)
    (json : Json) (last : Instant) where
  -- The starts of a step, and of a run: the requests that spawned a task.
  abbrev pub after :
      {v w : World R J W} → Step lib texts json last v w → List Instant → List Instant
  after (price w m) ts = started m.now (cached_prices m w.app).2 ts
  after (update w m payload) ts = started m.now (update_presence m payload w.app).2 ts
  after (answer w c m e) ts =
      started m.now (cached_prices m (record w.app { refresh = some c })).2 ts
  after _ ts = ts

  abbrev pub starts : {u w : World R J W} → Reach lib texts json last u w → List Instant
  starts here = []
  starts (next r step) = after step (starts r)

  Step-Holds :
      {v w : World R J W} (step : Step lib texts json last v w) (ts : List Instant)
      → Owned v
      → Holds ts (holder v.app.refresh v.phase)
      → Holds (after step ts) (holder w.app.refresh w.phase)
  unfolding finish
  Step-Holds (price w m) ts owned h = cached_prices-Holds m ts w.phase w.app owned h
  Step-Holds (update w m payload) ts owned h =
      update_presence-Holds m ts w.phase payload w.app owned h
  Step-Holds (stop w) ts owned h = h
  Step-Holds (acquire w c e k) ts owned h = rw e at (rw k at h)
  Step-Holds (drop w c e) ts owned h = rw e at h
  Step-Holds (answer w c m e) ts owned h =
      cached_prices-Holds m ts idle (record w.app { refresh = some c }) refl (rw e at h)
  Step-Holds (pass w m) ts owned h = h
  Step-Holds (look w task e) ts owned h = looked-Holds ts w task w.app.stopping e h
  Step-Holds (check w task now e) ts owned h =
      checked-Holds ts w task (finds_nobody now w.app).0 (finds_nobody now w.app).1 e h
  Step-Holds (save w task network now e) ts owned h = rw e at h
  Step-Holds (report w task outcome now now_unix e) ts owned h =
      let (_, same, valid) =
        complete-frame last now now_unix task.plan outcome.failures task.coordinator in
      let (sound, recorded, spaced) : Holds ts (some task.coordinator) = rw e at h in
      (valid sound, same ∙ recorded, spaced)

  Reach-Holds :
      {u w : World R J W} (r : Reach lib texts json last u w)
      → Owned u
      → Holds [] (holder u.app.refresh u.phase)
      → Owned w × Holds (starts r) (holder w.app.refresh w.phase)
  Reach-Holds here owned h = (owned, h)
  Reach-Holds (next r step) owned h =
      let (before, holds) = Reach-Holds r owned h in
      (Step-Owned lib texts json last step before, Step-Holds step (starts r) before holds)

Spaced-newest : (ts : List Instant) (o : Option RefreshCoordinator) → Holds ts o → Spaced ts
Spaced-newest ts none h = absurd h
Spaced-newest ts (some c) h = h.2

module _ {R H J V W : Type 0} ⦃f : Float64 W⦄ (lib : Libraries R H J V W) (texts : Texts)
    (json : Json) (last : Instant) where
  -- From the start of the server, however requests, presence updates, tasks and a shutdown interleave
  -- and whatever the clocks, the store and the providers say, the requests that spawn a refresh come
  -- at least the minimum interval apart.
  pub starts-Spaced :
      {A : Type 0} (config : RuntimeConfig A) (db : Database W) {w : World R J W}
      → (r : Reach lib texts json last
          (record { app = with_config config; db = db; phase = idle })
          w)
      → Spaced (starts lib texts json last r)
  starts-Spaced config db {w} r =
      Spaced-newest (starts lib texts json last r) (holder w.app.refresh w.phase)
        (Reach-Holds lib texts json last r refl (
          record {
            cursor = omega arith;
            capped0 = omega arith;
            capped1 = omega arith;
            capped2 = omega arith;
            capped3 = omega arith;
          },
          refl,
          tt,
        )).1
