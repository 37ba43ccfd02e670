-- ===== src/Refresh/Rotation.antt =====
-- Fairness of the round robin: a provider that stays ready is asked within four rounds.
use bitcoin_price_tracker.Prelude.{
  ℕ, suc, ◌+◌, ◌%◌, ◌<◌, ◌≤◌, ◌≡◌, refl, true, false, List, [], ◌∷◌, arith,
}
use bitcoin_price_tracker.Time.{Instant, UnixTime}
use bitcoin_price_tracker.Source.{
  UpstreamSource, coin_gecko, coinbase, kraken, gemini, source_count, index_of, same_source,
  is_chosen,
}
use bitcoin_price_tracker.Errors.{ProviderError}
use bitcoin_price_tracker.Refresh.{
  RefreshCoordinator, RefreshPlan, planned, dispatch, begin, complete,
}
use bitcoin_price_tracker.Refresh.Begin.{is_ready, distance, early, waiting, started, begin-Outcome}
use bitcoin_price_tracker.Refresh.Plans.{IsValid, begin_round_robin, begin-IsValid}
use bitcoin_price_tracker.Refresh.Settle.{complete-frame}

begin_cursor :
    (now : Instant) (generation : ℕ) (c : RefreshCoordinator) (plan : RefreshPlan)
    (q : UpstreamSource)
    → (begin now generation c).1 ≡ planned plan
    → plan.sources ≡ q ∷ []
    → (begin now generation c).0.next_source ≡ (index_of q + 1) % source_count
unfolding dispatch
begin_cursor now g c plan q b s = elim (begin-Outcome now g c) [
  | early t e ↦ ground (arith, e)
  | waiting t x e ↦ ground (arith, e)
  | started p ps t x e ↦ ground (arith, e)
]

-- A provider that is not the nearest moves nearer as the cursor passes the nearest one.
passed_over :
    (n : ℕ) (p q : UpstreamSource)
    → n < source_count
    → same_source p q ≡ false
    → distance n q ≤ distance n p
    → distance ((index_of q + 1) % source_count) p < distance n p
passed_over n coin_gecko coin_gecko h s d = cc
passed_over n coinbase coinbase h s d = cc
passed_over n kraken kraken h s d = cc
passed_over n gemini gemini h s d = cc
passed_over n coin_gecko _ h s d = omega arith
passed_over n coinbase coin_gecko h s d = omega arith
passed_over n coinbase _ h s d = omega arith
passed_over n kraken coin_gecko h s d = omega arith
passed_over n kraken _ h s d = omega arith
passed_over n gemini coin_gecko h s d = omega arith
passed_over n gemini _ h s d = omega arith

-- A round that asks one provider brings every other ready provider strictly nearer to its turn.
pub begin_approaches :
    (now : Instant) (generation : ℕ) (c : RefreshCoordinator) (plan : RefreshPlan)
    (p : UpstreamSource)
    → IsValid c
    → (begin now generation c).1 ≡ planned plan
    → generation ≡ c.completed_generation
    → is_ready c now p ≡ true
    → is_chosen p plan.sources ≡ false
    → distance (begin now generation c).0.next_source p < distance c.next_source p
begin_approaches now g c plan p v b e r m =
    let (q, s, ready, least) = begin_round_robin now g c plan v.cursor b e in
    let other : same_source p q ≡ false = ground (arith, s) in
    rw (begin_cursor now g c plan q b s) (passed_over c.next_source p q v.cursor other (least p r))

-- Rounds of the rotation, each of which finds `p` ready and asks another provider. A round ends
-- with its outcome, or without one if the server stops or the last viewer leaves.
pub data Passed (R J : Type 0) (last : Instant) (p : UpstreamSource)
    : ℕ → RefreshCoordinator → Type 0 where
  here : {c : RefreshCoordinator} → Passed R J last p 0 c
  completed :
      {n : ℕ} {c : RefreshCoordinator} (now done : Instant) (now_unix : UnixTime)
      (plan : RefreshPlan) (failures : List (ProviderError R J))
      → (begin now c.completed_generation c).1 ≡ planned plan
      → is_ready c now p ≡ true
      → is_chosen p plan.sources ≡ false
      → Passed R J last p n
          (complete last plan failures done now_unix (begin now c.completed_generation c).0)
      → Passed R J last p (suc n) c
  abandoned :
      {n : ℕ} {c : RefreshCoordinator} (now : Instant) (plan : RefreshPlan)
      → (begin now c.completed_generation c).1 ≡ planned plan
      → is_ready c now p ≡ true
      → is_chosen p plan.sources ≡ false
      → Passed R J last p n (begin now c.completed_generation c).0
      → Passed R J last p (suc n) c

Passed-distance :
    {R J : Type 0} {last : Instant} {p : UpstreamSource} {n : ℕ} {c : RefreshCoordinator}
    → IsValid c
    → Passed R J last p n c
    → n ≤ distance c.next_source p
Passed-distance v here = omega arith
Passed-distance {last = last} {p = p} {c = c} v
      (completed now done now_unix plan failures b r m rest) =
    let (cursor, _, valid) =
      complete-frame last done now_unix plan failures (begin now c.completed_generation c).0 in
    let ih = Passed-distance (valid (begin-IsValid now c.completed_generation c v)) rest in
    omega
      (arith, begin_approaches now c.completed_generation c plan p v b refl r m, rw cursor at ih)
Passed-distance {p = p} {c = c} v (abandoned now plan b r m rest) =
    let ih = Passed-distance (begin-IsValid now c.completed_generation c v) rest in
    omega (arith, begin_approaches now c.completed_generation c plan p v b refl r m, ih)

-- A ready provider is passed over by at most three rounds in a row, whatever the outcomes.
pub Passed-le :
    {R J : Type 0} {last : Instant} {p : UpstreamSource} {n : ℕ} {c : RefreshCoordinator}
    → IsValid c
    → Passed R J last p n c
    → n ≤ 3
Passed-le {p = p} {c = c} v h = omega (arith, Passed-distance v h)
