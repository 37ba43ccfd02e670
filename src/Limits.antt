-- ===== src/Limits.antt =====
-- src/limits.rs: the token bucket and the slots of each route group. A permit that a request holds is
-- one slot less; it is given back when the request ends.
pub mod Slots
pub mod Rate
use text.Mathlib.Text.{◌==◌}
use bitcoin_price_tracker.Prelude.{ℕ, zero, suc, ◌+◌, Bool, true, false, String, if◌then◌else◌, min}
use bitcoin_price_tracker.Time.{Instant, saturating_duration_since}
use bitcoin_price_tracker.Float.{Float64}
use bitcoin_price_tracker.Config.{RuntimeConfig}

-- `Bucket` and `Gate`.
pub record Gate (W : Type 0) : Type 0 where
  pub tokens : W
  pub updated : Instant
  pub rate : ℕ
  pub slots : ℕ

module _ {W : Type 0} ⦃f : Float64 W⦄ where
  abbrev pub new_gate : ℕ → ℕ → Instant → Gate W
  new_gate rate concurrency now = record {
    tokens = f.of_ℕ rate;
    updated = now;
    rate = rate;
    slots = concurrency;
  }

  -- The tokens of the bucket at a time.
  abbrev pub refilled : Instant → Gate W → W
  refilled now g =
      f.min
        (f.add g.tokens
          (f.mul (f.of_nanos (saturating_duration_since now g.updated)) (f.of_ℕ g.rate)))
        (f.of_ℕ g.rate)

  unfoldable pub allow : Instant → Gate W → Gate W × Bool
  allow now g =
      let tokens = refilled now g in
      if f.lt tokens (f.of_ℕ 1)
      then (record g { tokens = tokens; updated = now }, false)
      else (record g { tokens = f.sub tokens (f.of_ℕ 1); updated = now }, true)

-- The route groups of `limit_requests`.
pub data Group : Type 0 where
  price presence health news assets : Group

unfoldable pub group_of : String → Group
group_of path =
    if path == "/api/price"
    then price
    else if path == "/api/presence"
    then presence
    else if path == "/health"
    then health
    else if path == "/api/news"
    then news
    else assets

pub record RequestLimits (W : Type 0) : Type 0 where
  pub price : Gate W
  pub presence : Gate W
  pub health : Gate W
  pub news : Gate W
  pub assets : Gate W

-- What becomes of a request: its two refusals, or the handler.
pub data Verdict : Type 0 where
  too_many_requests service_unavailable served : Verdict

module _ {W : Type 0} where
  abbrev pub gate_of : Group → RequestLimits W → Gate W
  gate_of price l = l.price
  gate_of presence l = l.presence
  gate_of health l = l.health
  gate_of news l = l.news
  gate_of assets l = l.assets

  abbrev pub set_gate : Group → Gate W → RequestLimits W → RequestLimits W
  set_gate price g l = record l { price = g }
  set_gate presence g l = record l { presence = g }
  set_gate health g l = record l { health = g }
  set_gate news g l = record l { news = g }
  set_gate assets g l = record l { assets = g }

  -- `try_acquire_owned()`.
  abbrev pub acquire : Gate W → ℕ → Gate W × Verdict
  acquire g zero = (g, service_unavailable)
  acquire g (suc slots) = (record g { slots = slots }, served)

  -- The permit is dropped.
  abbrev pub give_back : Gate W → Gate W
  give_back g = record g { slots = g.slots + 1 }

module _ {W : Type 0} ⦃f : Float64 W⦄ where
  -- `RequestLimits::new`.
  abbrev pub new_limits : {A : Type 0} → RuntimeConfig A → Instant → RequestLimits W
  new_limits config now = record {
    price = new_gate config.requests_per_second config.concurrency now;
    presence = new_gate config.requests_per_second config.concurrency now;
    health = new_gate 10 4 now;
    news = new_gate config.requests_per_second (min config.concurrency 8) now;
    assets = new_gate config.requests_per_second config.concurrency now;
  }

  abbrev pub admit : Gate W × Bool → Gate W × Verdict
  admit (g, false) = (g, too_many_requests)
  admit (g, true) = acquire g g.slots

  -- `limit_requests`, up to the handler.
  unfoldable pub limit_request : Group → Instant → RequestLimits W → RequestLimits W × Verdict
  unfolding allow
  limit_request group now l =
      let (gate, verdict) = admit (allow now (gate_of group l)) in (set_gate group gate l, verdict)

  -- The end of a request that was served, or that its deadline of 20 seconds cut off.
  unfoldable pub end_request : Group → RequestLimits W → RequestLimits W
  end_request group l = set_gate group (give_back (gate_of group l)) l
