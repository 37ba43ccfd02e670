-- ===== src/Tests/AppExamples.antt =====
-- Requests through the router.
use text.Mathlib.Text.{◌==◌}
use bitcoin_price_tracker.Prelude.{ℕ, true, ◌≡◌, ◌⊎◌, refl, [], none, some, String}
use bitcoin_price_tracker.Prelude.Results.{err}
use bitcoin_price_tracker.Config.{defaults}
use bitcoin_price_tracker.Limits.{served, health, gate_of, group_of, limit_request}
use bitcoin_price_tracker.Limits.Slots.{same_group}
use bitcoin_price_tracker.Ui.{Response}
use bitcoin_price_tracker.App.Dropped.{in_time}
use bitcoin_price_tracker.App.{
  get, head, post, btc_prices, matched, method_not_allowed, not_found, routes, route, Request,
  Content, Site, Outside, new_site, serve,
}
use bitcoin_price_tracker.App.Secured.{IsSecured, serve-IsSecured}
use bitcoin_price_tracker.App.Kept.{is_price_path, KeepsApp, KeepsNews}
use bitcoin_price_tracker.App.Isolated.{serve_frame}
use bitcoin_price_tracker.Tests.{Dollars, dollars}
use bitcoin_price_tracker.Tests.HandlerExamples.{moment}
use bitcoin_price_tracker.Tests.ServerExamples.{values}

abbrev pub outside : Outside String
outside = record {
  values = values;
  hash = λ body. 255;
  is_json = λ content_type. true;
  extract = λ bytes. err 400;
  assets = record {
    index_html = "<html>";
    cybercore_css = "";
    dashboard_js = "";
    dashboard_css = "";
  };
}

abbrev site : Site Dollars
site = new_site {A = ℕ} (defaults 3000) 0

abbrev request : Request String
request = record {
  method = get;
  path = "/api/price";
  if_none_match = [];
  content_type = none;
  body = [];
}

the_routes :
    (route routes head "/api/price" ≡ matched btc_prices)
    × (route routes post "/api/price" ≡ method_not_allowed)
    × (route routes get "/api/prices" ≡ not_found)
unfolding route
the_routes = (refl, refl, refl)

serve-IsSecured_example :
    (r : Response String (Content Dollars)) × ((serve outside in_time moment request site).response
      ≡ some r)
    × IsSecured values "/api/price" r.headers
serve-IsSecured_example =
    serve-IsSecured outside (λ s p. (s, refl, refl)) in_time moment request site

serve_frame_example :
    let after = serve outside in_time moment request site in
    ((same_group (group_of "/api/price") health ≡ true)
      ⊎ (gate_of health after.site.limits ≡ gate_of health site.limits))
    × ((is_price_path "/api/price" ≡ true) ⊎ KeepsApp outside site after)
    × ((("/api/news" == "/api/price") ≡ true) ⊎ KeepsNews outside site after)
    × (((limit_request (group_of "/api/price") moment.now site.limits).1 ≡ served)
        ⊎ (KeepsApp outside site after × KeepsNews outside site after))
serve_frame_example = serve_frame outside in_time moment request site health
