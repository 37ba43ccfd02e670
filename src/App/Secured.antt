-- ===== src/App/Secured.antt =====
-- That every request is answered, with the headers of src/ui.rs.
use bitcoin_price_tracker.Prelude.{
  ℕ, ◌≡◌, refl, List, Option, some, String, if◌then◌else◌, any, if_holds,
}
use bitcoin_price_tracker.Prelude.{◌==◌ as eq_ℕ}
use bitcoin_price_tracker.Prelude.Results.{Result, ok, err, and_then}
use bitcoin_price_tracker.Dict.{Dict, lookup, lookup-insert}
use bitcoin_price_tracker.Float.{Float64}
use bitcoin_price_tracker.Limits.{
  Group, RequestLimits, Verdict, too_many_requests, service_unavailable, served, group_of,
  limit_request,
}
use bitcoin_price_tracker.Models.{PresencePayload}
use bitcoin_price_tracker.Handlers.{Moment, PresenceAnswer, update_presence}
use bitcoin_price_tracker.Ui.{
  HeaderValues, Response, is_api, content_security_policy, etag_text, trim_weak, value_matches,
  answer, embedded_asset, security_headers,
}
use bitcoin_price_tracker.Ui.Revalidation.{IsFaithful}
use bitcoin_price_tracker.Ui.Tag.{etag_text-IsPlain}
use bitcoin_price_tracker.App.Dropped.{Deadline, in_time}
use bitcoin_price_tracker.App.{
  finish_request, Endpoint, index, health_check, cybercore_css, dashboard_js, dashboard_css,
  btc_prices, bitcoin_news, presence, Routed, matched, method_not_allowed, not_found, routes, route,
  Request, Content, Site, Outside, payload_of, as_text, answer_presence, presence_reply, handle,
  dispatch, limited, serve,
}

module _ {H : Type 0} (values : HeaderValues H) where
  -- The headers that forbid what a page of the server never needs, and the one that says how to cache.
  abbrev pub IsSecured : String → Dict H → Type 0
  IsSecured path headers =
      (lookup "content-security-policy" headers ≡ some (values.from_static content_security_policy))
      × (lookup "x-content-type-options" headers ≡ some (values.from_static "nosniff"))
      × (lookup "x-frame-options" headers ≡ some (values.from_static "DENY"))
      × (lookup "referrer-policy" headers ≡ some (values.from_static "no-referrer"))
      × (lookup "cache-control" headers
          ≡ some (values.from_static (if is_api path then "no-store" else "no-cache")))

  security_headers-IsSecured :
      {B : Type 0} (path : String) (r : Response H B)
      → IsSecured path (security_headers values path r).headers
  unfolding security_headers
  security_headers-IsSecured path r = (
    simp (lookup-insert),
    simp (lookup-insert),
    simp (lookup-insert),
    simp (lookup-insert),
    simp (lookup-insert),
  )

  embedded_asset_total :
      IsFaithful values
      → (hash : String → ℕ) (request : List H) (body content_type : String)
      → (r : Response H String) × (embedded_asset values hash request body content_type ≡ some r)
  unfolding embedded_asset
  embedded_asset_total faithful hash request body content_type =
      let (etag, made, read) = faithful (etag_text (hash body)) (etag_text-IsPlain (hash body)) in
      (
        answer values (any (value_matches values (trim_weak (etag_text (hash body)))) request) etag
            body content_type,
        rw made (rw read refl),
      )

module _ {H W : Type 0} ⦃f : Float64 W⦄ (o : Outside H) where
  abbrev Answered : Option (Response H (Content W)) → Type 0
  Answered response = (r : Response H (Content W)) × (response ≡ some r)

  asset-Answered :
      {x : Option (Response H String)}
      → (r : Response H String) × (x ≡ some r)
      → Answered (and_then x (λ r. some (as_text o r)))
  asset-Answered (r, e) = (as_text o r, rw e refl)

  presence_reply-Answered : (answer : PresenceAnswer W) → Answered (presence_reply o answer)
  presence_reply-Answered answer =
      if_holds Answered (eq_ℕ answer.status 429) _ _ (_, refl) (_, refl)

  answer_presence-Answered :
      (m : Moment W) (s : Site W) (p : Result ℕ PresencePayload)
      → Answered (answer_presence o m s p).response
  answer_presence-Answered m s (err rejected) = (_, refl)
  answer_presence-Answered m s (ok payload) =
      presence_reply-Answered (update_presence m payload s.app).1

  handle-Answered :
      IsFaithful o.values
      → (e : Endpoint) (m : Moment W) (request : Request H) (s : Site W)
      → Answered (handle o e m request s).response
  unfolding handle
  handle-Answered faithful index m request s = (_, refl)
  handle-Answered faithful health_check m request s = (_, refl)
  handle-Answered faithful cybercore_css m request s = asset-Answered (
      embedded_asset_total o.values faithful o.hash request.if_none_match o.assets.cybercore_css
        "text/css; charset=utf-8")
  handle-Answered faithful dashboard_js m request s = asset-Answered (
      embedded_asset_total o.values faithful o.hash request.if_none_match o.assets.dashboard_js
        "text/javascript; charset=utf-8")
  handle-Answered faithful dashboard_css m request s = asset-Answered (
      embedded_asset_total o.values faithful o.hash request.if_none_match o.assets.dashboard_css
        "text/css; charset=utf-8")
  handle-Answered faithful btc_prices m request s = (_, refl)
  handle-Answered faithful bitcoin_news m request s = (_, refl)
  handle-Answered faithful presence m request s =
      answer_presence-Answered m s (payload_of o request)

  dispatch-Answered :
      IsFaithful o.values
      → (routed : Routed) (m : Moment W) (request : Request H) (s : Site W)
      → Answered (dispatch o routed m request s).response
  dispatch-Answered faithful (matched e) m request s = handle-Answered faithful e m request s
  dispatch-Answered faithful method_not_allowed m request s = (_, refl)
  dispatch-Answered faithful not_found m request s = (_, refl)

  finished-Answered :
      IsFaithful o.values
      → (group : Group) (deadline : Deadline) (routed : Routed) (m : Moment W) (request : Request H)
        (s : Site W)
      → Answered (finish_request o group deadline routed m request s).response
  finished-Answered faithful group in_time routed m request s =
      dispatch-Answered faithful routed m request s
  finished-Answered faithful group _ routed m request s = (_, refl)

  limited-Answered :
      IsFaithful o.values
      → (group : Group) (deadline : Deadline) (m : Moment W) (request : Request H) (s : Site W)
        (l : RequestLimits W × Verdict)
      → Answered (limited o group deadline m request s l).response
  limited-Answered faithful group deadline m request s (limits, too_many_requests) = (_, refl)
  limited-Answered faithful group deadline m request s (limits, service_unavailable) = (_, refl)
  limited-Answered faithful group deadline m request s (limits, served) =
      finished-Answered faithful group deadline (route routes request.method request.path) m request
        (record s { limits = limits })

  -- Every request is answered, whatever its path, its method and its body and whether it is limited,
  -- rejected, too late or not found; and the answer has the headers that forbid framing, sniffing,
  -- referrers and foreign content, and is not stored if it is one of the API. Visible ASCII makes a
  -- header value.
  pub serve-IsSecured :
      IsFaithful o.values
      → (deadline : Deadline) (m : Moment W) (request : Request H) (s : Site W)
      → (r : Response H (Content W)) × ((serve o deadline m request s).response ≡ some r)
        × IsSecured o.values request.path r.headers
  unfolding serve
  serve-IsSecured faithful deadline m request s =
      let group = group_of request.path in
      let (r, e) =
        limited-Answered faithful group deadline m request s (limit_request group m.now s.limits) in
      (
        security_headers o.values request.path r,
        rw e refl,
        security_headers-IsSecured o.values request.path r,
      )
