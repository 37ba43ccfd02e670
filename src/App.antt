-- ===== src/App.antt =====
-- src/app.rs: the routes and the layers around them, with the handlers of src/handlers.rs, src/news.rs
-- and src/ui.rs as they answer requests.
pub mod Dropped
pub mod Secured
pub mod Kept
pub mod Isolated
pub mod Moves
pub mod World
use text.Mathlib.Text.{◌==◌}
use bitcoin_price_tracker.Prelude.{
  ℕ, ◌*◌, Bool, true, false, List, [], ◌∷◌, map, Option, none, some, String, if◌then◌else◌, ltb,
  length,
}
use bitcoin_price_tracker.Prelude.{◌==◌ as eq_ℕ}
use bitcoin_price_tracker.Prelude.Results.{Result, ok, err, and_then}
use bitcoin_price_tracker.Dict.{Dict, insert}
use bitcoin_price_tracker.Time.{Instant}
use bitcoin_price_tracker.Float.{Float64}
use bitcoin_price_tracker.Config.{RuntimeConfig}
use bitcoin_price_tracker.Models.{PresencePayload, PresenceResponse}
use bitcoin_price_tracker.Limits.{
  Group, RequestLimits, Verdict, too_many_requests, service_unavailable, served, new_limits,
  group_of, limit_request, end_request,
}
use bitcoin_price_tracker.News.{FeedCache, FeedResponse, empty_cache, news_response}
use bitcoin_price_tracker.Handlers.{
  AppState, with_config, RefreshTask, Moment, Price, PresenceAnswer, cached_prices, update_presence,
  health,
}
use bitcoin_price_tracker.App.Dropped.{Deadline, in_time, cut_prices, cut_presence}
use bitcoin_price_tracker.Ui.{HeaderValues, Response, embedded_asset, security_headers}

-- The methods that the routes tell apart; `get` of axum answers HEAD too.
pub data Method : Type 0 where
  get head post other : Method

pub data Endpoint : Type 0 where
  index health_check cybercore_css dashboard_js dashboard_css btc_prices bitcoin_news presence :
      Endpoint

-- The routes of `router`.
abbrev pub routes : List (String × Method × Endpoint)
routes =
    ("/", get, index)
    ∷ ("/health", get, health_check)
    ∷ ("/assets/cybercore-0.3.0.min.css", get, cybercore_css)
    ∷ ("/assets/dashboard.js", get, dashboard_js)
    ∷ ("/assets/dashboard.css", get, dashboard_css)
    ∷ ("/api/price", get, btc_prices)
    ∷ ("/api/news", get, bitcoin_news)
    ∷ ("/api/presence", post, presence)
    ∷ []

abbrev pub allows : Method → Method → Bool
allows get get = true
allows get head = true
allows post post = true
allows _ _ = false

pub data Routed : Type 0 where
  matched : Endpoint → Routed
  method_not_allowed not_found : Routed

-- The route of a path, if its method is the request's.
unfoldable pub route : List (String × Method × Endpoint) → Method → String → Routed
route [] method path = not_found
route ((pattern, allowed, endpoint) ∷ rest) method path =
    if pattern == path
    then (if allows allowed method then matched endpoint else method_not_allowed)
    else route rest method path

pub record Request (H : Type 0) : Type 0 where
  pub method : Method
  pub path : String
  pub if_none_match : List H
  pub content_type : Option H
  pub body : List ℕ

-- The assets that the program includes.
pub record Assets : Type 0 where
  pub index_html : String
  pub cybercore_css : String
  pub dashboard_js : String
  pub dashboard_css : String

-- The bodies of the responses, before they are written as JSON; the last is the text of an error.
pub data Content (W : Type 0) : Type 0 where
  page : String → Content W
  prices : Price W → Content W
  viewers : PresenceResponse (Price W) → Content W
  capacity_reached : ℕ → Content W
  feed : FeedResponse → Content W
  health_status : String → Content W
  error : String → Content W

-- What the router shares among the requests.
pub record Site (W : Type 0) : Type 0 where
  pub limits : RequestLimits W
  pub app : AppState
  pub news : FeedCache

-- What a request changes and answers (of the headers, those that the source sets), and whether it spawns a task: of a refresh, or of the feed. There
-- is no response where the handler panics.
pub record Served (H W : Type 0) : Type 0 where
  pub site : Site W
  pub response : Option (Response H (Content W))
  pub refresh : Option (RefreshTask W)
  pub fetches_news : Bool

module _ {W : Type 0} ⦃f : Float64 W⦄ where
  abbrev pub new_site : {A : Type 0} → RuntimeConfig A → Instant → Site W
  new_site config now = record {
    limits = new_limits config now;
    app = with_config config;
    news = empty_cache;
  }

-- The `DefaultBodyLimit` of the router.
abbrev pub body_limit : ℕ
body_limit = 1024

-- The outside of the handlers: the header values of http, the hash of the standard library, what the
-- JSON extractor of axum takes for a JSON content type and for a payload (or the status of its
-- rejection), and the assets.
pub record Outside (H : Type 0) : Type 0 where
  pub values : HeaderValues H
  pub hash : String → ℕ
  pub is_json : Option H → Bool
  pub extract : List ℕ → Result ℕ PresencePayload
  pub assets : Assets

module _ {H : Type 0} (o : Outside H) where
  abbrev pub header : String → String → Dict H
  header key value = (key, o.values.from_static value) ∷ []

  -- The argument `Json<PresencePayload>`.
  abbrev pub payload_of : Request H → Result ℕ PresencePayload
  payload_of request =
      if o.is_json request.content_type
      then (if ltb body_limit (length request.body) then err 413 else o.extract request.body)
      else err 415

module _ {H W : Type 0} ⦃f : Float64 W⦄ (o : Outside H) where
  abbrev pub reply : ℕ → Dict H → Content W → Option (Response H (Content W))
  reply status headers body = some (record { status = status; headers = headers; body = body })

  abbrev pub as_text : Response H String → Response H (Content W)
  as_text r = record { status = r.status; headers = r.headers; body = page r.body }

  -- `dashboard_css`, `cybercore_css` and `dashboard_js`.
  abbrev pub asset : Request H → String → String → Option (Response H (Content W))
  asset request body content_type =
      and_then (embedded_asset o.values o.hash request.if_none_match body content_type)
        (λ r. some (as_text r))

  abbrev pub unchanged : Site W → Option (Response H (Content W)) → Served H W
  unchanged s response = record {
    site = s;
    response = response;
    refresh = none;
    fetches_news = false;
  }

  -- The response of `update_presence`.
  abbrev pub presence_reply : PresenceAnswer W → Option (Response H (Content W))
  presence_reply answer =
      if eq_ℕ answer.status 429
      then reply 429 (header o "retry-after" "15") (capacity_reached answer.body.active_viewers)
      else reply answer.status [] (viewers answer.body)

  abbrev pub answer_presence : Moment W → Site W → Result ℕ PresencePayload → Served H W
  answer_presence m s (err rejected) = unchanged s (reply rejected [] (error ""))
  answer_presence m s (ok payload) =
      let (after, answer, task) = update_presence m payload s.app in
      record {
        site = record s { app = after };
        response = presence_reply answer;
        refresh = task;
        fetches_news = false;
      }

  -- The handler of an endpoint.
  unfoldable pub handle : Endpoint → Moment W → Request H → Site W → Served H W
  unfolding cached_prices update_presence news_response embedded_asset
  handle index m request s = unchanged s (reply 200 [] (page o.assets.index_html))
  handle health_check m request s =
      let status = health m.loaded in
      unchanged s
        (reply status [] (health_status (if eq_ℕ status 200 then "ok" else "unavailable")))
  handle cybercore_css m request s =
      unchanged s (asset request o.assets.cybercore_css "text/css; charset=utf-8")
  handle dashboard_js m request s =
      unchanged s (asset request o.assets.dashboard_js "text/javascript; charset=utf-8")
  handle dashboard_css m request s =
      unchanged s (asset request o.assets.dashboard_css "text/css; charset=utf-8")
  handle btc_prices m request s =
      let (after, answer, task) = cached_prices m s.app in
      record {
        site = record s { app = after };
        response = reply answer.0 [] (prices answer.1);
        refresh = task;
        fetches_news = false;
      }
  handle bitcoin_news m request s =
      let (after, answer) = news_response m.now s.news in
      record {
        site = record s { news = after };
        response =
            reply answer.status (if answer.retry_after then header o "retry-after" "2" else [])
              (feed answer.body);
        refresh = none;
        fetches_news = answer.spawned;
      }
  handle presence m request s = answer_presence m s (payload_of o request)

  -- The routes, with the fallbacks of axum.
  abbrev pub dispatch : Routed → Moment W → Request H → Site W → Served H W
  dispatch (matched endpoint) m request s = handle endpoint m request s
  dispatch method_not_allowed m request s = unchanged s (reply 405 [] (error ""))
  dispatch not_found m request s = unchanged s (reply 404 [] (error ""))

  -- The state that a handler leaves when its deadline drops it at an await.
  abbrev pub cut_off : Deadline → Routed → Moment W → Request H → Site W → Site W
  cut_off deadline (matched btc_prices) m request s = record s { app = cut_prices deadline m s.app }
  cut_off deadline (matched presence) m request s = record s {
    app = cut_presence deadline m s.app (payload_of o request);
  }
  cut_off deadline _ m request s = s

  abbrev pub finished : Group → Site W → Site W
  finished group s = record s { limits = end_request group s.limits }

  -- `next.run(request)` under its deadline, and the permit given back.
  abbrev pub finish_request : Group → Deadline → Routed → Moment W → Request H → Site W → Served H W
  finish_request group in_time routed m request s =
      let after = dispatch routed m request s in record after { site = finished group after.site }
  finish_request group deadline routed m request s =
      unchanged (finished group (cut_off deadline routed m request s))
        (reply 408 [] (error "Request deadline exceeded."))

  -- `limit_requests` around the routes.
  abbrev pub limited :
      Group → Deadline → Moment W → Request H → Site W → RequestLimits W × Verdict → Served H W
  limited group deadline m request s (limits, too_many_requests) =
      unchanged (record s { limits = limits })
        (reply 429 (header o "retry-after" "1") (error "Request rate limit reached; retry later."))
  limited group deadline m request s (limits, service_unavailable) =
      unchanged (record s { limits = limits })
        (reply 503 (header o "retry-after" "1") (error "Server busy; retry later."))
  limited group deadline m request s (limits, served) =
      finish_request group deadline (route routes request.method request.path) m request
        (record s { limits = limits })

  abbrev pub with_security :
      String → Option (Response H (Content W)) → Option (Response H (Content W))
  with_security path response = and_then response (λ r. some (security_headers o.values path r))

  -- A request through `router`; `deadline` says whether that of 20 seconds passes first.
  unfoldable pub serve : Deadline → Moment W → Request H → Site W → Served H W
  unfolding group_of limit_request route handle security_headers end_request
  serve deadline m request s =
      let group = group_of request.path in
      let after = limited group deadline m request s (limit_request group m.now s.limits) in
      record after { response = with_security request.path after.response }
