-- ===== src/App/Isolated.antt =====
-- What a request cannot touch.
use text.Mathlib.Text.{◌==◌}
use bitcoin_price_tracker.Prelude.{true, false, ◌≡◌, ◌⊎◌, refl, ◌∙◌, Bool-cases, inl, inr}
use bitcoin_price_tracker.Float.{Float64}
use bitcoin_price_tracker.Limits.{
  Group, RequestLimits, Verdict, too_many_requests, service_unavailable, served, gate_of, group_of,
  limit_request,
}
use bitcoin_price_tracker.Limits.Slots.{same_group}
use bitcoin_price_tracker.Handlers.{Moment}
use bitcoin_price_tracker.App.Dropped.{Deadline}
use bitcoin_price_tracker.App.{routes, route, Request, Site, Outside, limited, serve}
use bitcoin_price_tracker.App.Kept.{
  is_price_path, route-app, route-news, KeepsApp, KeepsNews, limit_request-other, finished-other,
  finished-KeepsApp, finished-KeepsNews,
}

module _ {H W : Type 0} ⦃f : Float64 W⦄ (o : Outside H) where
  limited-other :
      (g h : Group) (deadline : Deadline) (m : Moment W) (request : Request H) (s : Site W)
      (l : RequestLimits W × Verdict)
      → same_group g h ≡ false
      → gate_of h (limited o g deadline m request s l).site.limits ≡ gate_of h l.0
  limited-other g h deadline m request s (limits, too_many_requests) e = refl
  limited-other g h deadline m request s (limits, service_unavailable) e = refl
  limited-other g h deadline m request s (limits, served) e =
      finished-other o g h deadline (route routes request.method request.path) m request
        (record s { limits = limits }) e

  limited-KeepsApp :
      (g : Group) (deadline : Deadline) (m : Moment W) (request : Request H) (s : Site W)
      (l : RequestLimits W × Verdict)
      → (is_price_path request.path ≡ true) ⊎ KeepsApp o s (limited o g deadline m request s l)
  limited-KeepsApp g deadline m request s (limits, too_many_requests) = inr (refl, refl)
  limited-KeepsApp g deadline m request s (limits, service_unavailable) = inr (refl, refl)
  limited-KeepsApp g deadline m request s (limits, served) =
      elim (finished-KeepsApp o g deadline (route routes request.method request.path) m request
        (record s { limits = limits })) [
          | inl h ↦ inl (route-app request.method request.path h)
          | inr kept ↦ inr kept
        ]

  limited-KeepsNews :
      (g : Group) (deadline : Deadline) (m : Moment W) (request : Request H) (s : Site W)
      (l : RequestLimits W × Verdict)
      → (("/api/news" == request.path) ≡ true) ⊎ KeepsNews o s (limited o g deadline m request s l)
  limited-KeepsNews g deadline m request s (limits, too_many_requests) = inr (refl, refl)
  limited-KeepsNews g deadline m request s (limits, service_unavailable) = inr (refl, refl)
  limited-KeepsNews g deadline m request s (limits, served) =
      elim (finished-KeepsNews o g deadline (route routes request.method request.path) m request
        (record s { limits = limits })) [
          | inl h ↦ inl (route-news request.method request.path h)
          | inr kept ↦ inr kept
        ]

  limited-refused :
      (g : Group) (deadline : Deadline) (m : Moment W) (request : Request H) (s : Site W)
      (l : RequestLimits W × Verdict)
      → (l.1 ≡ served)
        ⊎ (KeepsApp o s (limited o g deadline m request s l)
            × KeepsNews o s (limited o g deadline m request s l))
  limited-refused g deadline m request s (limits, too_many_requests) =
      inr ((refl, refl), (refl, refl))
  limited-refused g deadline m request s (limits, service_unavailable) =
      inr ((refl, refl), (refl, refl))
  limited-refused g deadline m request s (limits, served) = inl refl

  -- A request leaves the tokens and the slots of every other route group as they were; the viewers, the
  -- coordinator and the report of the last refresh as they were unless its path is that of prices or
  -- presence; and the feed as it was unless its path is that of the feed. A request that is limited
  -- changes neither and spawns no task, whatever its path.
  pub serve_frame :
      (deadline : Deadline) (m : Moment W) (request : Request H) (s : Site W) (h : Group)
      → let after = serve o deadline m request s in
        ((same_group (group_of request.path) h ≡ true)
          ⊎ (gate_of h after.site.limits ≡ gate_of h s.limits))
        × ((is_price_path request.path ≡ true) ⊎ KeepsApp o s after)
        × ((("/api/news" == request.path) ≡ true) ⊎ KeepsNews o s after)
        × (((limit_request (group_of request.path) m.now s.limits).1 ≡ served)
            ⊎ (KeepsApp o s after × KeepsNews o s after))
  unfolding serve
  serve_frame deadline m request s h =
      let g = group_of request.path in
      let l = limit_request g m.now s.limits in
      (
        elim (Bool-cases (same_group g h)) [
          | inl same ↦ inl same
          | inr e ↦
              inr (
                limited-other g h deadline m request s l e ∙ limit_request-other o g h m s.limits e)
        ],
        limited-KeepsApp g deadline m request s l,
        limited-KeepsNews g deadline m request s l,
        limited-refused g deadline m request s l,
      )
