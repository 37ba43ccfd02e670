-- ===== src/App/Kept.antt =====
-- What an endpoint leaves alone, in time or dropped.
use text.Mathlib.Text.{◌==◌}
use bitcoin_price_tracker.Prelude.{
  ℕ, Bool, true, false, ◌||◌, ◌≡◌, ◌⊎◌, refl, ap, ◌∙◌, none, String, arith, Bool-cases, inl, inr,
}
use bitcoin_price_tracker.Prelude.Results.{Result, ok, err}
use bitcoin_price_tracker.Float.{Float64}
use bitcoin_price_tracker.Models.{PresencePayload}
use bitcoin_price_tracker.Limits.{
  Group, RequestLimits, gate_of, give_back, limit_request, end_request, admit, allow,
}
use bitcoin_price_tracker.Limits.Slots.{same_group, gate_of-set_gate}
use bitcoin_price_tracker.Handlers.{Moment}
use bitcoin_price_tracker.App.Dropped.{Deadline, in_time, at_start, at_load, at_report}
use bitcoin_price_tracker.App.{
  cut_off, finish_request, Method, Endpoint, btc_prices, bitcoin_news, presence, Routed, matched,
  method_not_allowed, not_found, routes, route, Request, Site, Served, Outside, payload_of,
  answer_presence, handle, dispatch,
}

-- The paths whose requests may change the shared state of prices and viewers.
abbrev pub is_price_path : String → Bool
is_price_path path = "/api/price" == path || "/api/presence" == path

-- What an endpoint leaves alone.
abbrev pub changes_app : Endpoint → Bool
changes_app btc_prices = true
changes_app presence = true
changes_app _ = false

abbrev pub changes_news : Endpoint → Bool
changes_news bitcoin_news = true
changes_news _ = false

abbrev pub changes : (Endpoint → Bool) → Routed → Bool
changes p (matched e) = p e
changes p _ = false

pub route-app :
    (method : Method) (path : String)
    → changes changes_app (route routes method path) ≡ true
    → is_price_path path ≡ true
unfolding route
route-app method path h = ground arith

pub route-news :
    (method : Method) (path : String)
    → changes changes_news (route routes method path) ≡ true
    → ("/api/news" == path) ≡ true
unfolding route
route-news method path h = ground arith

module _ {H W : Type 0} ⦃f : Float64 W⦄ (o : Outside H) where
  -- A request keeps the shared state of prices and viewers, or of the feed, and spawns no task for it.
  abbrev pub KeepsApp : Site W → Served H W → Type 0
  KeepsApp s after = (after.site.app ≡ s.app) × (after.refresh ≡ none)

  abbrev pub KeepsNews : Site W → Served H W → Type 0
  KeepsNews s after = (after.site.news ≡ s.news) × (after.fetches_news ≡ false)

  answer_presence-KeepsNews :
      (m : Moment W) (s : Site W) (p : Result ℕ PresencePayload)
      → KeepsNews s (answer_presence o m s p)
  answer_presence-KeepsNews m s (err rejected) = (refl, refl)
  answer_presence-KeepsNews m s (ok payload) = (refl, refl)

  handle-KeepsApp :
      (e : Endpoint) (m : Moment W) (request : Request H) (s : Site W)
      → changes_app e ≡ false
      → KeepsApp s (handle o e m request s)
  unfolding handle
  handle-KeepsApp btc_prices m request s h = cc
  handle-KeepsApp presence m request s h = cc
  handle-KeepsApp _ m request s h = (refl, refl)

  handle-KeepsNews :
      (e : Endpoint) (m : Moment W) (request : Request H) (s : Site W)
      → changes_news e ≡ false
      → KeepsNews s (handle o e m request s)
  unfolding handle
  handle-KeepsNews bitcoin_news m request s h = cc
  handle-KeepsNews presence m request s h = answer_presence-KeepsNews m s (payload_of o request)
  handle-KeepsNews _ m request s h = (refl, refl)

  dispatch-KeepsApp :
      (routed : Routed) (m : Moment W) (request : Request H) (s : Site W)
      → (changes changes_app routed ≡ true) ⊎ KeepsApp s (dispatch o routed m request s)
  dispatch-KeepsApp (matched e) m request s = elim (Bool-cases (changes_app e)) [
    | inl yes_it ↦ inl yes_it
    | inr kept ↦ inr (handle-KeepsApp e m request s kept)
  ]
  dispatch-KeepsApp method_not_allowed m request s = inr (refl, refl)
  dispatch-KeepsApp not_found m request s = inr (refl, refl)

  dispatch-KeepsNews :
      (routed : Routed) (m : Moment W) (request : Request H) (s : Site W)
      → (changes changes_news routed ≡ true) ⊎ KeepsNews s (dispatch o routed m request s)
  dispatch-KeepsNews (matched e) m request s = elim (Bool-cases (changes_news e)) [
    | inl yes_it ↦ inl yes_it
    | inr kept ↦ inr (handle-KeepsNews e m request s kept)
  ]
  dispatch-KeepsNews method_not_allowed m request s = inr (refl, refl)
  dispatch-KeepsNews not_found m request s = inr (refl, refl)

  -- No handler touches the limits.
  answer_presence-limits :
      (m : Moment W) (s : Site W) (p : Result ℕ PresencePayload)
      → (answer_presence o m s p).site.limits ≡ s.limits
  answer_presence-limits m s (err rejected) = refl
  answer_presence-limits m s (ok payload) = refl

  dispatch-limits :
      (routed : Routed) (m : Moment W) (request : Request H) (s : Site W)
      → (dispatch o routed m request s).site.limits ≡ s.limits
  unfolding handle
  dispatch-limits (matched presence) m request s = answer_presence-limits m s (payload_of o request)
  dispatch-limits (matched e) m request s = refl
  dispatch-limits method_not_allowed m request s = refl
  dispatch-limits not_found m request s = refl

  -- What is left of the limits of another group, after the guard and after the whole request.
  pub limit_request-other :
      (g h : Group) (m : Moment W) (l : RequestLimits W)
      → same_group g h ≡ false
      → gate_of h (limit_request g m.now l).0 ≡ gate_of h l
  unfolding limit_request
  limit_request-other g h m l e =
      rw (gate_of-set_gate g h (admit (allow m.now (gate_of g l))).0 l) (rw e refl)

  end_request-other :
      (g h : Group) (l : RequestLimits W)
      → same_group g h ≡ false
      → gate_of h (end_request g l) ≡ gate_of h l
  unfolding end_request
  end_request-other g h l e = rw (gate_of-set_gate g h (give_back (gate_of g l)) l) (rw e refl)

  cut_off-limits :
      (deadline : Deadline) (routed : Routed) (m : Moment W) (request : Request H) (s : Site W)
      → (cut_off o deadline routed m request s).limits ≡ s.limits
  cut_off-limits deadline (matched e) m request s = ground arith
  cut_off-limits deadline method_not_allowed m request s = refl
  cut_off-limits deadline not_found m request s = refl

  pub finished-other :
      (g h : Group) (deadline : Deadline) (routed : Routed) (m : Moment W) (request : Request H)
      (s : Site W)
      → same_group g h ≡ false
      → gate_of h (finish_request o g deadline routed m request s).site.limits ≡ gate_of h s.limits
  finished-other g h in_time routed m request s e =
      end_request-other g h _ e ∙ ap (gate_of h) (dispatch-limits routed m request s)
  finished-other g h at_start routed m request s e =
      end_request-other g h _ e ∙ ap (gate_of h) (cut_off-limits at_start routed m request s)
  finished-other g h at_load routed m request s e =
      end_request-other g h _ e ∙ ap (gate_of h) (cut_off-limits at_load routed m request s)
  finished-other g h at_report routed m request s e =
      end_request-other g h _ e ∙ ap (gate_of h) (cut_off-limits at_report routed m request s)

  cut_off-KeepsApp :
      (deadline : Deadline) (routed : Routed) (m : Moment W) (request : Request H) (s : Site W)
      → (changes changes_app routed ≡ true) ⊎ ((cut_off o deadline routed m request s).app ≡ s.app)
  cut_off-KeepsApp deadline (matched btc_prices) m request s = inl refl
  cut_off-KeepsApp deadline (matched presence) m request s = inl refl
  cut_off-KeepsApp deadline (matched _) m request s = inr refl
  cut_off-KeepsApp deadline method_not_allowed m request s = inr refl
  cut_off-KeepsApp deadline not_found m request s = inr refl

  cut_off-KeepsNews :
      (deadline : Deadline) (routed : Routed) (m : Moment W) (request : Request H) (s : Site W)
      → (cut_off o deadline routed m request s).news ≡ s.news
  cut_off-KeepsNews deadline (matched btc_prices) m request s = refl
  cut_off-KeepsNews deadline (matched presence) m request s = refl
  cut_off-KeepsNews deadline (matched _) m request s = refl
  cut_off-KeepsNews deadline method_not_allowed m request s = refl
  cut_off-KeepsNews deadline not_found m request s = refl

  pub finished-KeepsApp :
      (g : Group) (deadline : Deadline) (routed : Routed) (m : Moment W) (request : Request H)
      (s : Site W)
      → (changes changes_app routed ≡ true)
        ⊎ KeepsApp s (finish_request o g deadline routed m request s)
  finished-KeepsApp g in_time routed m request s = dispatch-KeepsApp routed m request s
  finished-KeepsApp g deadline routed m request s =
      elim (cut_off-KeepsApp deadline routed m request s) [
        | inl h ↦ inl h
        | inr kept ↦ inr (kept, refl)
      ]

  pub finished-KeepsNews :
      (g : Group) (deadline : Deadline) (routed : Routed) (m : Moment W) (request : Request H)
      (s : Site W)
      → (changes changes_news routed ≡ true)
        ⊎ KeepsNews s (finish_request o g deadline routed m request s)
  finished-KeepsNews g in_time routed m request s = dispatch-KeepsNews routed m request s
  finished-KeepsNews g deadline routed m request s =
      inr (cut_off-KeepsNews deadline routed m request s, refl)
