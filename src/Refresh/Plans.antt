-- ===== src/Refresh/Plans.antt =====
-- What a plan of `begin` contains, and what `begin` leaves in the coordinator.
use bitcoin_price_tracker.Prelude.{
  ℕ, ◌+◌, ◌<◌, ◌≤◌, ◌≡◌, ◌≢◌, refl, ◌∙◌, Bool, true, false, not, inl, inr, List, [], ◌∷◌, some,
  arith, ◌==◌, if◌then◌else◌, any, keep, Bool-cases,
}
use bitcoin_price_tracker.Time.{Instant}
use bitcoin_price_tracker.Source.{
  UpstreamSource, coin_gecko, coinbase, kraken, gemini, all_sources, source_count, index_of,
  is_chosen, get, Distinct,
}
use bitcoin_price_tracker.Refresh.{
  RefreshCoordinator, RefreshPlan, Begun, planned, skipped, interval, is_too_soon, select, offsets,
  dispatch, begin,
}
use bitcoin_price_tracker.Refresh.Begin.{
  is_ready, distance, NearestIs, select_full, select_nearest, select-nil, early, waiting, started,
  begin-Outcome,
}

-- The cursor of the rotation names a provider, and no counter passes the cap of the backoff.
pub record IsValid (c : RefreshCoordinator) : Type 0 where
  pub cursor : c.next_source < source_count
  pub capped0 : c.consecutive_failures.at0 ≤ 6
  pub capped1 : c.consecutive_failures.at1 ≤ 6
  pub capped2 : c.consecutive_failures.at2 ≤ 6
  pub capped3 : c.consecutive_failures.at3 ≤ 6

abbrev pub IsSkipped : Begun → Type 0
IsSkipped (planned plan) = ⊥
IsSkipped (skipped reason) = Unit

abbrev pub refuses : Begun → Bool
refuses (planned plan) = false
refuses (skipped reason) = true

abbrev pub has_ready : RefreshCoordinator → Instant → Bool
has_ready c now = any (is_ready c now) all_sources

select_none :
    (full : Bool) (c : RefreshCoordinator) (now : Instant)
    → c.next_source < source_count
    → select full c.next_source c.next_eligible now offsets ≡ []
    → has_ready c now ≡ false
select_none full c now h s = ground (
  arith,
  select-nil full c.next_source c.next_eligible now coin_gecko h s,
  select-nil full c.next_source c.next_eligible now coinbase h s,
  select-nil full c.next_source c.next_eligible now kraken h s,
  select-nil full c.next_source c.next_eligible now gemini h s,
)

nearest_ready :
    (c : RefreshCoordinator) (now : Instant) (s : List UpstreamSource) (p : UpstreamSource)
    (ps : List UpstreamSource)
    → NearestIs c.next_eligible now c.next_source s
    → s ≡ p ∷ ps
    → has_ready c now ≡ true
nearest_ready c now [] p ps h e = cc
nearest_ready c now (coin_gecko ∷ []) p ps h e = ground arith
nearest_ready c now (coinbase ∷ []) p ps h e = ground arith
nearest_ready c now (kraken ∷ []) p ps h e = ground arith
nearest_ready c now (gemini ∷ []) p ps h e = ground arith
nearest_ready c now (q ∷ r ∷ rs) p ps h e = absurd h

select_some :
    (full : Bool) (c : RefreshCoordinator) (now : Instant) (p : UpstreamSource)
    (ps : List UpstreamSource)
    → c.next_source < source_count
    → select full c.next_source c.next_eligible now offsets ≡ p ∷ ps
    → has_ready c now ≡ true
select_some true c now p ps h s = ground (arith, select_full c.next_source c.next_eligible now)
select_some false c now p ps h s =
    nearest_ready c now _ p ps (select_nearest c.next_source c.next_eligible now h) s

-- `begin` refuses exactly when the minimum interval has not elapsed or no provider is ready, and a
-- refusal leaves the coordinator as it was.
pub begin-refuses_iff :
    (now : Instant) (generation : ℕ) (c : RefreshCoordinator)
    → c.next_source < source_count
    → (refuses (begin now generation c).1
        ≡ (if is_too_soon c.last_attempt now then true else not (has_ready c now)))
      × (refuses (begin now generation c).1 ≡ true → (begin now generation c).0 ≡ c)
begin-refuses_iff now g c h = elim (begin-Outcome now g c) [
  | early t e ↦ ground (arith, e, t)
  | waiting t s e ↦ ground (arith, e, t, select_none _ c now h s)
  | started p ps t s e ↦ ground (arith, e, t, select_some _ c now p ps h s)
]

-- A plan carries the requested generation, is made only once the minimum interval has elapsed, and
-- is a full refresh exactly when that generation has not been completed.
pub begin_plan :
    (now : Instant) (generation : ℕ) (c : RefreshCoordinator) (plan : RefreshPlan)
    → (begin now generation c).1 ≡ planned plan
    → (plan.generation ≡ generation)
      × (is_too_soon c.last_attempt now ≡ false)
      × (plan.full_refresh ≡ not (generation == c.completed_generation))
begin_plan now g c plan b = elim (begin-Outcome now g c) [
  | early t e ↦ ground (arith, e)
  | waiting t s e ↦ ground (arith, e)
  | started p ps t s e ↦ ground (arith, e, t)
]

-- A full refresh asks every provider whose deadline has passed, once, in the configured order.
pub begin_full :
    (now : Instant) (generation : ℕ) (c : RefreshCoordinator) (plan : RefreshPlan)
    → (begin now generation c).1 ≡ planned plan
    → generation ≢ c.completed_generation
    → plan.sources ≡ keep (is_ready c now) all_sources
begin_full now g c plan b d = elim (begin-Outcome now g c) [
  | early t e ↦ ground (arith, e)
  | waiting t s e ↦ ground (arith, e)
  | started p ps t s e ↦ ground (arith, e, s, select_full c.next_source c.next_eligible now)
]

nearest_single :
    (c : RefreshCoordinator) (now : Instant) (s : List UpstreamSource)
    → NearestIs c.next_eligible now c.next_source s
    → s ≢ []
    → (q : UpstreamSource) × (s ≡ q ∷ [])
      × (is_ready c now q ≡ true)
      × ((p : UpstreamSource)
          → is_ready c now p ≡ true
          → distance c.next_source q ≤ distance c.next_source p)
nearest_single c now [] h e = absurd (e refl)
nearest_single c now (q ∷ []) h e = (q, refl, h.0, h.1)
nearest_single c now (q ∷ r ∷ rs) h e = absurd h

-- Any other plan asks one provider: the first one behind the cursor whose deadline has passed.
pub begin_round_robin :
    (now : Instant) (generation : ℕ) (c : RefreshCoordinator) (plan : RefreshPlan)
    → c.next_source < source_count
    → (begin now generation c).1 ≡ planned plan
    → generation ≡ c.completed_generation
    → (q : UpstreamSource) × (plan.sources ≡ q ∷ [])
      × (is_ready c now q ≡ true)
      × ((p : UpstreamSource)
          → is_ready c now p ≡ true
          → distance c.next_source q ≤ distance c.next_source p)
begin_round_robin now g c plan h b d = elim (begin-Outcome now g c) [
  | early t e ↦ ground (arith, e)
  | waiting t s e ↦ ground (arith, e)
  | started p ps t s e ↦
      let same : plan.sources ≡ select false c.next_source c.next_eligible now offsets =
        ground (arith, e, s) in
      let found =
        nearest_single c now _ (select_nearest c.next_source c.next_eligible now h)
          (ground (arith, e, s)) in
      (found.0, same ∙ found.1, found.2, found.3)
]

-- What `dispatch` does to the slot of each provider.
dispatch_slot :
    (now : Instant) (ps : List UpstreamSource) (c : RefreshCoordinator) (p : UpstreamSource)
    → get (dispatch now ps c).next_eligible (index_of p)
      ≡ (if is_chosen p ps then some (now + interval) else get c.next_eligible (index_of p))
unfolding dispatch
dispatch_slot now [] c p = refl
dispatch_slot now (coin_gecko ∷ ps) c p = rw (dispatch_slot now ps _ p) (ground arith)
dispatch_slot now (q ∷ ps) c p = rw (dispatch_slot now ps _ p) (ground arith)

dispatch_frame :
    (now : Instant) (ps : List UpstreamSource) (c : RefreshCoordinator)
    → ((dispatch now ps c).last_attempt ≡ c.last_attempt)
      × ((dispatch now ps c).consecutive_failures ≡ c.consecutive_failures)
      × ((dispatch now ps c).completed_generation ≡ c.completed_generation)
unfolding dispatch
dispatch_frame now [] c = (refl, refl, refl)
dispatch_frame now (p ∷ ps) c = dispatch_frame now ps _

dispatch_cursor :
    (now : Instant) (ps : List UpstreamSource) (c : RefreshCoordinator)
    → c.next_source < source_count
    → (dispatch now ps c).next_source < source_count
unfolding dispatch
dispatch_cursor now [] c h = h
dispatch_cursor now (p ∷ ps) c h = dispatch_cursor now ps _ (omega arith)

-- A plan is recorded before any request is sent: the attempt is dated now, each chosen provider
-- rests for the minimum interval, and no other deadline, failure count or generation changes.
pub begin_records :
    (now : Instant) (generation : ℕ) (c : RefreshCoordinator) (plan : RefreshPlan)
    → (begin now generation c).1 ≡ planned plan
    → ((begin now generation c).0.last_attempt ≡ some now)
      × ((p : UpstreamSource)
          → get (begin now generation c).0.next_eligible (index_of p) ≡ (
              if is_chosen p plan.sources
              then some (now + interval)
              else get c.next_eligible (index_of p)))
      × ((begin now generation c).0.consecutive_failures ≡ c.consecutive_failures)
      × ((begin now generation c).0.completed_generation ≡ c.completed_generation)
begin_records now g c plan b = elim (begin-Outcome now g c) [
  | early t e ↦ ground (arith, e)
  | waiting t s e ↦ ground (arith, e)
  | started q qs t s e ↦
      let frame = dispatch_frame now (q ∷ qs) (record c { last_attempt = some now }) in
      (
        ground (arith, e, frame.0),
        λ p. ground (arith, e, dispatch_slot now (q ∷ qs) (record c { last_attempt = some now }) p),
        ground (arith, e, frame.1),
        ground (arith, e, frame.2),
      )
]

-- `begin` keeps the coordinator valid.
pub begin-IsValid :
    (now : Instant) (generation : ℕ) (c : RefreshCoordinator)
    → IsValid c
    → IsValid (begin now generation c).0
begin-IsValid now g c v = elim (begin-Outcome now g c) [
  | early t e ↦ rw e v
  | waiting t s e ↦ rw e v
  | started q qs t s e ↦
      let frame = dispatch_frame now (q ∷ qs) (record c { last_attempt = some now }) in
      let cursor = dispatch_cursor now (q ∷ qs) (record c { last_attempt = some now }) v.cursor in
      rw e (ground (arith, frame.1, cursor))
]

keep-Distinct : (f : UpstreamSource → Bool) → Distinct (keep f all_sources)
keep-Distinct f = ground arith

-- No plan asks a provider twice.
pub begin-Distinct :
    (now : Instant) (generation : ℕ) (c : RefreshCoordinator) (plan : RefreshPlan)
    → c.next_source < source_count
    → (begin now generation c).1 ≡ planned plan
    → Distinct plan.sources
begin-Distinct now g c plan h b = elim (Bool-cases (g == c.completed_generation)) [
  | inl same ↦
      let (q, s, _, _) = begin_round_robin now g c plan h b (ground arith) in rw s (refl, tt)
  | inr other ↦ rw (begin_full now g c plan b (ground arith)) (keep-Distinct (is_ready c now))
]
