-- ===== src/Handlers/Shutdown.antt =====
-- What the shutdown flag stops, and what every run keeps of the database.
use bitcoin_price_tracker.Prelude.{
  Bool, true, false, ◌≡◌, refl, ap, map, ◌∙◌, ◌⊎◌, ◌&&◌, Option, none, some, arith, Bool-cases, inl,
  inr,
}
use bitcoin_price_tracker.Time.{Instant, UnixTime}
use bitcoin_price_tracker.Float.{Float64}
use bitcoin_price_tracker.Errors.{Texts}
use bitcoin_price_tracker.Models.{PresencePayload}
use bitcoin_price_tracker.Presence.{
  Presence, Admission, admitted, refused, apply_presence_update, is_valid_session_id,
}
use bitcoin_price_tracker.Storage.{Json, Database}
use bitcoin_price_tracker.Storage.RoundTrip.{IsConsistent}
use bitcoin_price_tracker.Storage.Failure.{store_refresh-IsConsistent}
use bitcoin_price_tracker.Pricing.{Libraries}
use bitcoin_price_tracker.Pricing.Refresh.{
  Network, fetch_selected_sources, refreshed_of, failures_of, snapshot_of, refresh_snapshot,
}
use bitcoin_price_tracker.Handlers.{
  AppState, RefreshTask, Moment, cached_prices, update_presence, answer_update,
}
use bitcoin_price_tracker.Handlers.Task.{finds_nobody, finish}
use bitcoin_price_tracker.Handlers.World.{
  World, Phase, idle, held, spawned, counting, refreshing, saved, phase_after, looked, checked,
  Step, price, update, stop, acquire, drop, answer, pass, look, check, save, report, Reach, here,
  next,
}

module _ {W : Type 0} ⦃f : Float64 W⦄ where
  -- A price request leaves the flag, and starts nothing once it is set.
  cached_prices-stopping :
      (m : Moment W) (s : AppState)
      → s.stopping ≡ true
      → ((cached_prices m s).0.stopping ≡ true) × ((cached_prices m s).2 ≡ none)
  unfolding cached_prices
  cached_prices-stopping m s h = (h, ground arith)

  answer_update-stopping :
      (include_price : Bool) (m : Moment W) (s : AppState) (a : Presence × Admission)
      → s.stopping ≡ true
      → ((answer_update include_price m s a).0.stopping ≡ true)
        × ((answer_update include_price m s a).2 ≡ none)
  answer_update-stopping false m s (presence, admitted n) h = (h, refl)
  answer_update-stopping true m s (presence, admitted n) h =
      cached_prices-stopping m (record s { presence = presence }) h
  answer_update-stopping include_price m s (presence, refused n) h = (h, refl)

  update_presence-stopping :
      (m : Moment W) (payload : PresencePayload) (s : AppState)
      → s.stopping ≡ true
      → ((update_presence m payload s).0.stopping ≡ true) × ((update_presence m payload s).2 ≡ none)
  unfolding update_presence
  update_presence-stopping m payload s h =
      elim (Bool-cases (is_valid_session_id payload.session_id)) [
        | inl valid ↦ rw valid (
            answer_update-stopping (payload.active && payload.include_price) m s
              (apply_presence_update s.max_viewers m.now payload s.presence) h)
        | inr invalid ↦ rw invalid (h, refl)
      ]

module _ {R H J V W : Type 0} ⦃f : Float64 W⦄ (lib : Libraries R H J V W) (texts : Texts)
    (json : Json) (last : Instant) where
  -- The task that has seen the flag unset.
  abbrev pub unstopped : Phase R J W → Option (RefreshTask W)
  unstopped idle = none
  unstopped (held c) = none
  unstopped (spawned task) = none
  unstopped (counting task) = some task
  unstopped (refreshing task) = some task
  unstopped (saved task outcome) = some task

  -- No other task has seen the flag unset since a moment.
  abbrev pub NoNew : Phase R J W → Phase R J W → Type 0
  NoNew before after = (unstopped after ≡ none) ⊎ (unstopped after ≡ unstopped before)

  phase_after-none :
      (phase : Phase R J W) (task : Option (RefreshTask W))
      → task ≡ none
      → phase_after phase task ≡ phase
  phase_after-none phase none h = refl
  phase_after-none phase (some t) h = cc

  checked-stopping :
      (w : World R J W) (task : RefreshTask W) (s : AppState) (stops : Bool)
      → w.phase ≡ counting task
      → s.stopping ≡ true
      → ((checked w task (s, stops)).app.stopping ≡ true)
        × NoNew w.phase (checked w task (s, stops)).phase
  checked-stopping w task s true e h = (h, inl refl)
  checked-stopping w task s false e h = (h, inr (rw e refl))

  Step-stopping :
      {v w : World R J W}
      → Step lib texts json last v w
      → v.app.stopping ≡ true
      → (w.app.stopping ≡ true) × NoNew v.phase w.phase
  Step-stopping (price v m) h =
      let (kept, nothing) = cached_prices-stopping m v.app h in
      (kept, inr (ap unstopped (phase_after-none v.phase _ nothing)))
  Step-stopping (update v m payload) h =
      let (kept, nothing) = update_presence-stopping m payload v.app h in
      (kept, inr (ap unstopped (phase_after-none v.phase _ nothing)))
  Step-stopping (stop v) h = (refl, inr refl)
  Step-stopping (acquire v c e k) h = (h, inl refl)
  Step-stopping (drop v c e) h = (h, inl refl)
  Step-stopping (answer v c m e) h =
      let (kept, nothing) = cached_prices-stopping m (record v.app { refresh = some c }) h in
      (kept, inl (ap unstopped (phase_after-none idle _ nothing)))
  Step-stopping (pass v m) h =
      ((cached_prices-stopping m (record v.app { refresh = none }) h).0, inr refl)
  Step-stopping (look v task e) h = rw h (refl, inl refl)
  Step-stopping (check v task now e) h =
      checked-stopping v task (finds_nobody now v.app).0 (finds_nobody now v.app).1 e h
  Step-stopping (save v task network now e) h = (h, inr (rw e refl))
  Step-stopping (report v task outcome now now_unix e) h = (unfold finish in h, inl refl)

  NoNew-trans : (a b c : Phase R J W) → NoNew a b → NoNew b c → NoNew a c
  NoNew-trans a b c (inl e) (inl d) = inl d
  NoNew-trans a b c (inl e) (inr d) = inl (d ∙ e)
  NoNew-trans a b c (inr e) (inl d) = inl d
  NoNew-trans a b c (inr e) (inr d) = inr (d ∙ e)

  -- Once the server is shutting down it stays so, and no task passes its look at the flag, which comes
  -- before it counts the viewers and asks the providers: only one that had passed it before goes on,
  -- and that one may still ask. This holds whatever requests and tasks follow.
  pub Reach-stopping :
      {u w : World R J W}
      → u.app.stopping ≡ true
      → Reach lib texts json last u w
      → (w.app.stopping ≡ true) × NoNew u.phase w.phase
  Reach-stopping h here = (h, inr refl)
  Reach-stopping h (next r step) =
      let (stopping, before) = Reach-stopping h r in
      let (still, now) = Step-stopping step stopping in (still, NoNew-trans _ _ _ before now)

  looked-IsConsistent :
      (w : World R J W) (task : RefreshTask W) (stops : Bool)
      → IsConsistent w.db
      → IsConsistent (looked w task stops).db
  looked-IsConsistent w task true c = c
  looked-IsConsistent w task false c = c

  checked-IsConsistent :
      (w : World R J W) (task : RefreshTask W) (a : AppState × Bool)
      → IsConsistent w.db
      → IsConsistent (checked w task a).db
  checked-IsConsistent w task (s, true) c = c
  checked-IsConsistent w task (s, false) c = c

  refresh_snapshot-IsConsistent :
      (network : Network R H) (now : UnixTime) (task : RefreshTask W) (db : Database W)
      → IsConsistent db
      → IsConsistent (refresh_snapshot lib texts network json now task.snapshot task.plan db).0
  unfolding refresh_snapshot
  refresh_snapshot-IsConsistent network now task db c =
      let results = fetch_selected_sources lib texts network task.plan.sources in
      store_refresh-IsConsistent json
        (snapshot_of texts now task.snapshot (refreshed_of results) (failures_of results))
        (map (λ r. r.0) results) db c

  -- Every stored price belongs to a stored snapshot, and only a task that was asking providers changes
  -- the database.
  Step-IsConsistent :
      {v w : World R J W} → Step lib texts json last v w → IsConsistent v.db → IsConsistent w.db
  Step-IsConsistent (price v m) c = c
  Step-IsConsistent (update v m payload) c = c
  Step-IsConsistent (stop v) c = c
  Step-IsConsistent (acquire v a e k) c = c
  Step-IsConsistent (drop v a e) c = c
  Step-IsConsistent (answer v a m e) c = c
  Step-IsConsistent (pass v m) c = c
  Step-IsConsistent (look v task e) c = looked-IsConsistent v task v.app.stopping c
  Step-IsConsistent (check v task now e) c = checked-IsConsistent v task (finds_nobody now v.app) c
  Step-IsConsistent (save v task network now e) c =
      refresh_snapshot-IsConsistent network now task v.db c
  Step-IsConsistent (report v task outcome now now_unix e) c = c

  -- Whatever happens, and in whatever order, every stored price belongs to a stored snapshot, if that
  -- held at first.
  pub Reach-IsConsistent :
      {u w : World R J W} → IsConsistent u.db → Reach lib texts json last u w → IsConsistent w.db
  Reach-IsConsistent c here = c
  Reach-IsConsistent c (next r step) = Step-IsConsistent step (Reach-IsConsistent c r)
