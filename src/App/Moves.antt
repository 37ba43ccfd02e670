-- ===== src/App/Moves.antt =====
-- What a request through the router does to the state of the handlers.
use bitcoin_price_tracker.Prelude.{ℕ, false, arith, ◌≡◌, ◌⊎◌, refl, Option, none, inl, inr}
use bitcoin_price_tracker.Prelude.Results.{Result, ok, err}
use bitcoin_price_tracker.Float.{Float64}
use bitcoin_price_tracker.Models.{PresencePayload}
use bitcoin_price_tracker.Limits.{
  Group, RequestLimits, Verdict, too_many_requests, service_unavailable, served, group_of,
  limit_request,
}
use bitcoin_price_tracker.Storage.{constraint_failed}
use bitcoin_price_tracker.Storage.{err as unread}
use bitcoin_price_tracker.Presence.{apply_presence_update}
use bitcoin_price_tracker.Handlers.{AppState, RefreshTask, Moment, cached_prices, update_presence}
use bitcoin_price_tracker.App.Dropped.{
  Deadline, in_time, at_start, at_load, at_report, cut_prices, cut_presence,
}
use bitcoin_price_tracker.App.{
  finish_request, Endpoint, btc_prices, presence, Routed, matched, method_not_allowed, not_found,
  routes, route, Request, Site, Served, Outside, payload_of, answer_presence, handle, dispatch,
  limited, serve,
}

module _ {H W : Type 0} ⦃f : Float64 W⦄ (o : Outside H) where
  -- A request leaves the state of the handlers alone, or does what one of the two handlers does.
  abbrev pub Moved : Moment W → AppState → AppState → Option (RefreshTask W) → Type 0
  Moved m s app task =
      ((app ≡ s) × (task ≡ none))
      ⊎ ((n : Moment W) × (n.now ≡ m.now)
          × (app ≡ (cached_prices n s).0)
          × (task ≡ (cached_prices n s).2))
      ⊎ ((n : Moment W) × (n.now ≡ m.now)
          × (payload : PresencePayload) × (app ≡ (update_presence n payload s).0)
          × (task ≡ (update_presence n payload s).2))

  abbrev pub Moves : Moment W → AppState → Served H W → Type 0
  Moves m s x = Moved m s x.site.app x.refresh

  answer_presence-Moves :
      (m : Moment W) (s : Site W) (p : Result ℕ PresencePayload)
      → Moves m s.app (answer_presence o m s p)
  answer_presence-Moves m s (err rejected) = inl (refl, refl)
  answer_presence-Moves m s (ok payload) = inr (inr (m, refl, payload, refl, refl))

  handle-Moves :
      (e : Endpoint) (m : Moment W) (request : Request H) (s : Site W)
      → Moves m s.app (handle o e m request s)
  unfolding handle
  handle-Moves btc_prices m request s = inr (inl (m, refl, refl, refl))
  handle-Moves presence m request s = answer_presence-Moves m s (payload_of o request)
  handle-Moves _ m request s = inl (refl, refl)

  dispatch-Moves :
      (routed : Routed) (m : Moment W) (request : Request H) (s : Site W)
      → Moves m s.app (dispatch o routed m request s)
  dispatch-Moves (matched e) m request s = handle-Moves e m request s
  dispatch-Moves method_not_allowed m request s = inl (refl, refl)
  dispatch-Moves not_found m request s = inl (refl, refl)

  -- A moment at which the prices cannot be read.
  abbrev unreadable : Moment W → Moment W
  unreadable m = record m { loaded = unread constraint_failed }

  cut_prices-Moves :
      (deadline : Deadline) (m : Moment W) (s : AppState)
      → (cut_prices deadline m s ≡ s)
        ⊎ ((cut_prices deadline m s ≡ (cached_prices (unreadable m) s).0)
            × (none ≡ (cached_prices (unreadable m) s).2))
  unfolding cached_prices
  cut_prices-Moves at_report m s = inr (refl, refl)
  cut_prices-Moves _ m s = inl refl

  cut_presence-Moves :
      (deadline : Deadline) (m : Moment W) (s : AppState) (payload : PresencePayload)
      → let after = cut_presence deadline m s (ok payload) in
        (after ≡ s)
        ⊎ ((after ≡ (update_presence (unreadable m) payload s).0)
            × (none ≡ (update_presence (unreadable m) payload s).2))
        ⊎ ((after ≡ (update_presence m (record payload { include_price = false }) s).0)
            × (none ≡ (update_presence m (record payload { include_price = false }) s).2))
  unfolding update_presence cached_prices apply_presence_update
  cut_presence-Moves in_time m s payload = inl (ground arith)
  cut_presence-Moves at_start m s payload = inl (ground arith)
  cut_presence-Moves at_load m s payload = ground arith
  cut_presence-Moves at_report m s payload = ground arith

  cut_payload-Moved :
      (deadline : Deadline) (m : Moment W) (s : AppState) (p : Result ℕ PresencePayload)
      → Moved m s (cut_presence deadline m s p) none
  cut_payload-Moved deadline m s (err rejected) = inl (refl, refl)
  cut_payload-Moved deadline m s (ok payload) = elim (cut_presence-Moves deadline m s payload) [
    | inl kept ↦ inl (kept, refl)
    | inr (inl (app, task)) ↦ inr (inr (unreadable m, refl, payload, app, task))
    | inr (inr (app, task)) ↦
        inr (inr (m, refl, record payload { include_price = false }, app, task))
  ]

  finished-Moves :
      (g : Group) (deadline : Deadline) (routed : Routed) (m : Moment W) (request : Request H)
      (s : Site W)
      → Moves m s.app (finish_request o g deadline routed m request s)
  finished-Moves g in_time routed m request s = dispatch-Moves routed m request s
  finished-Moves g deadline (matched btc_prices) m request s =
      elim (cut_prices-Moves deadline m s.app) [
        | inl kept ↦ inl (kept, refl)
        | inr (app, task) ↦ inr (inl (unreadable m, refl, app, task))
      ]
  finished-Moves g deadline (matched presence) m request s =
      cut_payload-Moved deadline m s.app (payload_of o request)
  finished-Moves g deadline _ m request s = inl (refl, refl)

  limited-Moves :
      (g : Group) (deadline : Deadline) (m : Moment W) (request : Request H) (s : Site W)
      (l : RequestLimits W × Verdict)
      → Moves m s.app (limited o g deadline m request s l)
  limited-Moves g deadline m request s (limits, too_many_requests) = inl (refl, refl)
  limited-Moves g deadline m request s (limits, service_unavailable) = inl (refl, refl)
  limited-Moves g deadline m request s (limits, served) =
      finished-Moves g deadline (route routes request.method request.path) m request
        (record s { limits = limits })

  pub serve-Moves :
      (deadline : Deadline) (m : Moment W) (request : Request H) (s : Site W)
      → Moves m s.app (serve o deadline m request s)
  unfolding serve
  serve-Moves deadline m request s =
      limited-Moves (group_of request.path) deadline m request s
        (limit_request (group_of request.path) m.now s.limits)
