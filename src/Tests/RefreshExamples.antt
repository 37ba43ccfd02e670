-- ===== src/Tests/RefreshExamples.antt =====
-- The coordinator at work.
use bitcoin_price_tracker.Prelude.{◌≤◌, ◌≡◌, refl, true, false, [], ◌∷◌, none, some, arith, keep}
use bitcoin_price_tracker.Time.{Instant, from_secs}
use bitcoin_price_tracker.Source.{UpstreamSource, coin_gecko, coinbase, gemini, all_sources}
use bitcoin_price_tracker.Errors.{ProviderError, ProviderErrorKind, RetryAfter}
use bitcoin_price_tracker.Refresh.{RefreshPlan, planned, begin, fresh}
use bitcoin_price_tracker.Refresh.Begin.{is_ready, distance}
use bitcoin_price_tracker.Refresh.Plans.{IsValid, begin_full, begin_round_robin}
use bitcoin_price_tracker.Refresh.Rotation.{here, abandoned, Passed-le}
use bitcoin_price_tracker.Refresh.Trace
use bitcoin_price_tracker.Refresh.Trace.{
  World, Step, Reach, Spaced, cold, Reach-Spaced, Reach-count,
}

abbrev R : Type 0
R = Unit {0}

abbrev last : Instant
last = from_secs 1_000_000

abbrev ask : UpstreamSource → RefreshPlan
ask p = record { sources = p ∷ []; full_refresh = false; generation = 0 }

fresh-IsValid : IsValid fresh
fresh-IsValid = omega arith

abbrev after_start : World
after_start = record {
  clock = 0;
  coordinator = (begin 0 0 fresh).0;
  pending = some (ask coin_gecko);
  starts = 0 ∷ [];
}

abbrev later : World
later = record after_start { pending = none; clock = from_secs 10 }

abbrev again : World
again = record later {
  coordinator = (begin (from_secs 10) 0 (begin 0 0 fresh).0).0;
  pending = some (ask coinbase);
  starts = from_secs 10 ∷ 0 ∷ [];
}

Reach-again : Reach R R last cold again
unfolding begin
Reach-again =
    Trace.next
      (Trace.next
        (Trace.next (Trace.next Trace.here (Trace.start cold 0 (ask coin_gecko) refl refl))
          (Trace.abandon after_start (ask coin_gecko) refl))
        (Trace.wait (record after_start { pending = none }) (from_secs 10) (omega arith)))
      (Trace.start later 0 (ask coinbase) refl refl)

begin_full_example : all_sources ≡ keep (is_ready fresh 5) all_sources
begin_full_example =
    begin_full 5 1 fresh (record { sources = all_sources; full_refresh = true; generation = 1 })
      (unfold begin in refl) (omega arith)

begin_round_robin_example :
    (q : UpstreamSource) × ((ask coin_gecko).sources ≡ q ∷ [])
    × (is_ready fresh 5 q ≡ true)
    × ((p : UpstreamSource)
        → is_ready fresh 5 p ≡ true
        → distance fresh.next_source q ≤ distance fresh.next_source p)
begin_round_robin_example =
    begin_round_robin 5 0 fresh (ask coin_gecko) (omega arith) (unfold begin in refl) refl

abbrev limited : ProviderError R R
limited = record {
  provider = coin_gecko;
  kind = ProviderErrorKind.http 429 (some (RetryAfter.delay (from_secs 60)));
}

begin_first : (begin 0 0 fresh).1 ≡ planned (ask coin_gecko)
unfolding begin
begin_first = refl

Passed-le_example : 1 ≤ 3
Passed-le_example =
    Passed-le {R = R} {J = R} {last = last} {p = gemini} {c = fresh} fresh-IsValid
      (abandoned {c = fresh} 0 (ask coin_gecko) begin_first refl refl here)
