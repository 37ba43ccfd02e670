-- ===== src/Tests/ServerExamples.antt =====
-- Files at a start, request slots and connections.
use bitcoin_price_tracker.Prelude.{
  arith, List, all, leb, ◌+◌, ◌++◌, String, ◌⊎◌, ◌≢◌, ℕ, ◌≡◌, ◌↔◌, ◌≤◌, ◌<◌, refl, true, false, [],
  ◌∷◌, none, some, pos,
}
use bitcoin_price_tracker.Time.{from_secs}
use bitcoin_price_tracker.Prelude.Results.{ok, err, is_some_and}
use bitcoin_price_tracker.Config.{RuntimeConfig, defaults}
use bitcoin_price_tracker.Limits.{health, service_unavailable, limit_request}
use bitcoin_price_tracker.Limits.Slots
use bitcoin_price_tracker.Limits.Slots.{capacity_of, start, Reach-capacity}
use bitcoin_price_tracker.Lifecycle.Timeline.{
  Accepted, peer, failed, task_end, accept_loop, serve_tracker,
}
use bitcoin_price_tracker.Lifecycle.Grace.{serve_tracker-within}
use bitcoin_price_tracker.Lifecycle.{
  Server, connections_remain, open_server, default_limits, accept, close, shut_down,
}
use bitcoin_price_tracker.Lifecycle.Connections
use bitcoin_price_tracker.Lifecycle.Drain.{is_over, steps, Reach-ends}
use bitcoin_price_tracker.Lifecycle.Connections.{Reach-bounded}
use bitcoin_price_tracker.Storage.{SnapshotRow, Database}
use bitcoin_price_tracker.Storage.Read.{read_snapshot}
use bitcoin_price_tracker.Storage.RoundTrip.{IsConsistent}
use bitcoin_price_tracker.Storage.Schema.{File, versioned, unversioned, init_db}
use bitcoin_price_tracker.Storage.Init.{init_db-restart}
use bitcoin_price_tracker.Dict.{lookup}
use bitcoin_price_tracker.Ui
use bitcoin_price_tracker.Ui.{HeaderValues, etag_text, hex_from, embedded_asset, security_headers}
use bitcoin_price_tracker.Ui.Revalidation.{embedded_asset-revalidates}
use bitcoin_price_tracker.Tests.{Dollars, dollars}
use bitcoin_price_tracker.Tests.PricingExamples.{json}

abbrev pub empty_file : File Dollars
empty_file =
    unversioned
      (record { price_snapshots = none; last_id = 0; source_prices = none; provider_health = none })

abbrev row : ℕ → SnapshotRow Dollars
row id = record {
  id = id;
  fetched_at_unix = pos id;
  average_price = none;
  spread = none;
  warnings_json = "[]";
  refreshed_source = none;
}

abbrev two : Database Dollars
two = record {
  snapshots = row 1 ∷ row 2 ∷ [];
  last_id = 2;
  source_prices = [];
  provider_health = [];
}

init_db-restart_example :
    (after : Database Dollars) × (init_db (versioned (pos 1) two) ≡ (versioned (pos 1) after, none))
    × (read_snapshot json after ≡ read_snapshot json two)
    × (after.provider_health ≡ two.provider_health)
    × (IsConsistent two → IsConsistent after)
    × (init_db (versioned (pos 1) after) ≡ (versioned (pos 1) after, none))
init_db-restart_example = init_db-restart json two (refl, (refl, tt))

abbrev config : RuntimeConfig ℕ
config = defaults 3000

abbrev first : Slots.World Dollars
first = record {
  limits = (limit_request health 0 (start {W = Dollars} config 0).limits).0;
  inside =
      Slots.entered (limit_request health 0 (start {W = Dollars} config 0).limits).1 health
        (start {W = Dollars} config 0).inside;
}

Reach-capacity_example :
    (first.inside health ≤ capacity_of config health)
    × (((limit_request health 7 first.limits).1 ≢ service_unavailable)
        ⊎ (first.inside health ≡ capacity_of config health))
Reach-capacity_example =
    Reach-capacity config 0 (Slots.next Slots.here (Slots.arrive (start config 0) health 0)) health
      7

abbrev one : Server
one = (accept true (open_server default_limits)).0

Reach-bounded_example :
    (one.remote ≤ 128)
    × (one.loopback ≤ 4)
    × (((accept false one).1 ≡ true) ↔ (one.remote < 128))
    × (((accept true one).1 ≡ true) ↔ (one.loopback < 4))
Reach-bounded_example =
    Reach-bounded default_limits (
      Connections.next Connections.here
        (Connections.connect (open_server default_limits) true refl))

-- One connection, then the shutdown.
abbrev asked : Server
asked = shut_down one

abbrev before : Connections.Reach (open_server default_limits) asked
unfolding accept
before =
    Connections.next
      (Connections.next Connections.here
        (Connections.connect (open_server default_limits) true refl))
      (Connections.stop one refl)

abbrev finished : Server
finished = close true asked

abbrev ending : Connections.Reach asked finished
unfolding accept
ending = Connections.next Connections.here (Connections.finish asked true (omega arith))

Reach-ends_example :
    (steps ending ≤ 2)
    × (steps ending ≤ 133)
    × (((u : Server) × Connections.Step finished u)
        ⊎ ((is_over finished.stage ≡ true) × (finished.remote ≡ 0) × (finished.loopback ≡ 0)))
unfolding accept
Reach-ends_example = Reach-ends default_limits before refl ending

abbrev pub values : HeaderValues String
values = record { from_str = some; from_static = λ s. s; to_str = some }

embedded_asset-revalidates_example :
    (first second : Ui.Response String String) × (etag : String) × (embedded_asset values
        (λ body. 255)
        []
        "body {}"
        "text/css"
      ≡ some first)
    × (first.status ≡ 200)
    × (first.body ≡ "body {}")
    × (lookup "etag" (security_headers values "/assets/dashboard.css" first).headers ≡ some etag)
    × (embedded_asset values (λ body. 255) (("\"old\"" ∷ []) ++ (etag ∷ [])) "body {}" "text/css"
        ≡ some second)
    × (second.status ≡ 304)
    × (second.body ≡ "")
    × (lookup "etag" (security_headers values "/assets/dashboard.css" second).headers ≡ some etag)
embedded_asset-revalidates_example =
    embedded_asset-revalidates values (λ s p. (s, refl, refl)) (λ body. 255) "body {}" "text/css"
      "/assets/dashboard.css" ("\"old\"" ∷ []) []

the_tag : etag_text 255 ≡ "W/\"00000000000000ff\""
unfolding hex_from
the_tag = refl

-- A remote peer, a failed accept, and a loopback peer that never ends; the refresh ends in time.
abbrev arrivals : List Accepted
arrivals = peer 1 false (some (from_secs 3)) ∷ failed 2 ∷ peer (from_secs 2) true none ∷ []

serve_tracker-within_example :
    let (result, at) =
      serve_tracker default_limits (from_secs 25) (from_secs 10) (from_secs 11) arrivals (some 5) in
    (at ≤ from_secs 11 + from_secs 25)
    × ((from_secs 25 < from_secs 25) ⊎ (result ≢ err connections_remain))
    × (result ≡ ok tt
        → (all
              (λ c. leb (task_end (from_secs 25) c) at)
              (accept_loop default_limits (from_secs 10) 0 [] arrivals)
            ≡ true)
          × (is_some_and (λ t. leb t at) (some 5) ≡ true))
serve_tracker-within_example =
    serve_tracker-within default_limits (from_secs 25) (from_secs 10) (from_secs 11) arrivals
      (some 5) (omega arith)

-- The loopback connection is held to its deadline, and nothing is aborted.
shut_down_late :
    serve_tracker default_limits (from_secs 25) (from_secs 10) (from_secs 11) arrivals (some 5)
    ≡ (ok tt, from_secs 27)
unfolding serve_tracker
shut_down_late = refl
