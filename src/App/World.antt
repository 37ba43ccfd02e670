-- ===== src/App/World.antt =====
-- The router beside the background tasks: what runs of it do is what runs of Handlers.World do.
use mathlib.Core.Path.{subst}
use bitcoin_price_tracker.Prelude.{
  Bool, true, false, ◌≡◌, refl, sym, ◌∙◌, ap, List, [], Option, inl, inr,
}
use bitcoin_price_tracker.Time.{Instant}
use bitcoin_price_tracker.Float.{Float64}
use bitcoin_price_tracker.Config.{RuntimeConfig}
use bitcoin_price_tracker.Errors.{Texts}
use bitcoin_price_tracker.News.{Fetched, finish_refresh}
use bitcoin_price_tracker.Refresh.Trace.{Spaced}
use bitcoin_price_tracker.Storage.{Json, Database}
use bitcoin_price_tracker.Pricing.{Libraries}
use bitcoin_price_tracker.Handlers.{AppState, with_config, RefreshTask, Moment}
use bitcoin_price_tracker.Handlers.World.{
  Phase, idle, phase_after, Step, price, update, stop, acquire, drop, answer, pass, look, check,
  save, report, Reach, here, next,
}
use bitcoin_price_tracker.Handlers.World.{World as Inner}
use bitcoin_price_tracker.Handlers.Spacing.{started, after, starts, starts-Spaced}
use bitcoin_price_tracker.App.Moves.{serve-Moves}
use bitcoin_price_tracker.App.Dropped.{Deadline}
use bitcoin_price_tracker.App.{Request, Site, Outside, new_site, serve}

pub record World (R J W : Type 0) : Type 0 where
  pub site : Site W
  pub db : Database W
  pub phase : Phase R J W

module _ {R J W : Type 0} where
  -- What the handlers of prices and presence, and the task, see of it.
  abbrev pub inner : World R J W → Inner R J W
  inner w = record { app = w.site.app; db = w.db; phase = w.phase }

  abbrev pub with_inner : World R J W → Inner R J W → World R J W
  with_inner w v = record { site = record w.site { app = v.app }; db = v.db; phase = v.phase }

module _ {R H J V W X : Type 0} ⦃f : Float64 W⦄ (o : Outside X) (lib : Libraries R H J V W)
    (texts : Texts) (json : Json) (last : Instant) where
  -- The steps that are no requests: the task's, and the shutdown.
  abbrev pub is_background : {v w : Inner R J W} → Step lib texts json last v w → Bool
  is_background (price w m) = false
  is_background (update w m payload) = false
  is_background (answer w c m e) = false
  is_background _ = true

  -- A request through the router, a step of the background, or the end of a fetch of the feed.
  pub data RouterStep : World R J W → World R J W → Type 0 where
    request :
        (w : World R J W) (deadline : Deadline) (m : Moment W) (r : Request X)
        → RouterStep w (record w {
          site = (serve o deadline m r w.site).site;
          phase = phase_after w.phase (serve o deadline m r w.site).refresh;
        })
    background :
        (w : World R J W) {v : Inner R J W} (step : Step lib texts json last (inner w) v)
        → is_background step ≡ true
        → RouterStep w (with_inner w v)
    fetched :
        (w : World R J W) (result : Fetched) (now : Instant)
        → RouterStep w
            (record w { site = record w.site { news = finish_refresh result now w.site.news } })

  pub data RouterReach : World R J W → World R J W → Type 0 where
    begin : {w : World R J W} → RouterReach w w
    step : {u v w : World R J W} → RouterReach u v → RouterStep v w → RouterReach u w

  -- The instants of the requests that spawned a refresh, newest first.
  abbrev pub spawns_after : {v w : World R J W} → RouterStep v w → List Instant → List Instant
  spawns_after (request w deadline m r) ts = started m.now (serve o deadline m r w.site).refresh ts
  spawns_after _ ts = ts

  abbrev pub spawns : {u w : World R J W} → RouterReach u w → List Instant
  spawns begin = []
  spawns (step r s) = spawns_after s (spawns r)

  -- A run of the handlers to a state, with the starts of its refreshes.
  abbrev pub Runs : Inner R J W → Inner R J W → List Instant → Type 0
  Runs u w ts = (run : Reach lib texts json last u w) × (starts lib texts json last run ≡ ts)

  extended :
      {u v w : Inner R J W} (ts : List Instant)
      → Runs u v ts
      → (s : Step lib texts json last v w) → Runs u w (after lib texts json last s ts)
  extended ts (run, e) s = (next run s, ap (after lib texts json last s) e)

  background-after :
      {v w : Inner R J W} (s : Step lib texts json last v w) (ts : List Instant)
      → is_background s ≡ true
      → after lib texts json last s ts ≡ ts
  background-after (price w m) ts h = cc
  background-after (update w m payload) ts h = cc
  background-after (answer w c m e) ts h = cc
  background-after (stop w) ts h = refl
  background-after (acquire w c e k) ts h = refl
  background-after (drop w c e) ts h = refl
  background-after (pass w m) ts h = refl
  background-after (look w task e) ts h = refl
  background-after (check w task now e) ts h = refl
  background-after (save w task network now e) ts h = refl
  background-after (report w task outcome now now_unix e) ts h = refl

  -- The state of the handlers after a request with the given outcome.
  abbrev after_request : World R J W → AppState → Option (RefreshTask W) → Inner R J W
  after_request w app task = record { app = app; db = w.db; phase = phase_after w.phase task }

  same_outcome :
      {u : Inner R J W} (w : World R J W) (ts : List Instant) {now later : Instant} {s t : AppState}
      {a b : Option (RefreshTask W)}
      → now ≡ later
      → s ≡ t
      → a ≡ b
      → Runs u (after_request w t b) (started now b ts)
      → Runs u (after_request w s a) (started later a ts)
  same_outcome {u} w ts {now} {later} {s} {t} {a} {b} same e k h =
      subst (λ x. Runs u (after_request w x a) (started later a ts)) (sym e)
        (subst (λ x. Runs u (after_request w t x) (started later x ts)) (sym k)
          (subst (λ x. Runs u (after_request w t b) (started x b ts)) same h))

  Step-Runs :
      {u : Inner R J W} {v w : World R J W} (ts : List Instant)
      → Runs u (inner v) ts
      → (s : RouterStep v w) → Runs u (inner w) (spawns_after s ts)
  Step-Runs ts h (request w deadline m r) = elim (serve-Moves o deadline m r w.site) [
    | inl (kept, quiet) ↦ same_outcome w ts refl kept quiet h
    | inr (inl (n, same, app, task)) ↦
        same_outcome w ts same app task (extended ts h (price (inner w) n))
    | inr (inr (n, same, payload, app, task)) ↦
        same_outcome w ts same app task (extended ts h (update (inner w) n payload))
  ]
  Step-Runs ts (run, e) (background w s quiet) =
      (next run s, ap (after lib texts json last s) e ∙ background-after s ts quiet)
  Step-Runs ts h (fetched w result now) = h

  Reach-Runs : {u w : World R J W} (r : RouterReach u w) → Runs (inner u) (inner w) (spawns r)
  Reach-Runs begin = (here, refl)
  Reach-Runs (step r s) = Step-Runs (spawns r) (Reach-Runs r) s

  -- From the start of the server, whatever requests come through the router, limited or not, in time or
  -- dropped by their deadline, and whatever the tasks, the feed and a shutdown do between them, the handlers and the database
  -- come where a run of requests for prices, presence updates, tasks and shutdowns brings them, whose
  -- refreshes are spawned at the same instants; and these instants are at least the minimum interval
  -- apart.
  pub RouterReach-refines :
      {A : Type 0} (config : RuntimeConfig A) (now : Instant) (db : Database W) {w : World R J W}
      (r : RouterReach (record { site = new_site config now; db = db; phase = idle }) w)
      → Runs (record { app = with_config config; db = db; phase = idle }) (inner w) (spawns r)
        × Spaced (spawns r)
  RouterReach-refines config now db r =
      let (run, e) = Reach-Runs r in
      ((run, e), subst Spaced e (starts-Spaced lib texts json last config db run))
