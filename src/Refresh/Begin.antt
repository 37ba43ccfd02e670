-- ===== src/Refresh/Begin.antt =====
-- What `begin` decides: when it refuses, which providers it chooses and what it records.
use bitcoin_price_tracker.Prelude.{
  ℕ, zero, suc, ◌+◌, ◌%◌, ◌<◌, ◌≤◌, ◌-◌, ◌≡◌, refl, Bool, true, false, not, inl, inr, List, [], ◌∷◌,
  Option, some, arith, ◌==◌, keep, Bool-cases,
}
use bitcoin_price_tracker.Time.{Instant}
use bitcoin_price_tracker.Source.{
  UpstreamSource, coin_gecko, coinbase, kraken, gemini, all_sources, source_count, index_of, Array4,
  get,
}
use bitcoin_price_tracker.Refresh.{
  RefreshCoordinator, planned, skipped, interval_not_elapsed, all_waiting, is_too_soon, is_eligible,
  select, offsets, dispatch, begin_with, begin,
}

-- The provider's deadline has passed.
abbrev pub is_ready : RefreshCoordinator → Instant → UpstreamSource → Bool
is_ready c now p = is_eligible (get c.next_eligible (index_of p)) now

abbrev pub is_selectable : Array4 (Option Instant) → Instant → UpstreamSource → Bool
is_selectable e now p = is_eligible (get e (index_of p)) now

-- A full refresh takes every provider whose deadline has passed, in the configured order.
pub select_full :
    (n : ℕ) (e : Array4 (Option Instant)) (now : Instant)
    → select true n e now offsets ≡ keep (is_selectable e now) all_sources
unfolding select
select_full n e now = refl

-- If nothing is selected, no provider is ready.
pub select-nil :
    (full : Bool) (n : ℕ) (e : Array4 (Option Instant)) (now : Instant) (p : UpstreamSource)
    → n < source_count
    → select full n e now offsets ≡ []
    → is_selectable e now p ≡ false
unfolding select
select-nil true n e now coin_gecko h s = ground arith
select-nil true n e now coinbase h s = ground arith
select-nil true n e now kraken h s = ground arith
select-nil true n e now gemini h s = ground arith
select-nil false zero e now coin_gecko h s = ground arith
select-nil false zero e now _ h s = ground arith
select-nil false (suc zero) e now coin_gecko h s = ground arith
select-nil false (suc zero) e now _ h s = ground arith
select-nil false (suc (suc zero)) e now coin_gecko h s = ground arith
select-nil false (suc (suc zero)) e now _ h s = ground arith
select-nil false (suc (suc (suc zero))) e now coin_gecko h s = ground arith
select-nil false (suc (suc (suc zero))) e now _ h s = ground arith
select-nil false (suc (suc (suc (suc n)))) e now p h s = absurd (omega arith)

-- How far a provider stands behind the cursor of the rotation.
abbrev pub distance : ℕ → UpstreamSource → ℕ
distance next p = (index_of p + source_count - next) % source_count

abbrev pub NearestIs : Array4 (Option Instant) → Instant → ℕ → List UpstreamSource → Type 0
NearestIs e now n [] = Unit
NearestIs e now n (q ∷ []) =
    (is_selectable e now q ≡ true)
    × ((p : UpstreamSource) → is_selectable e now p ≡ true → distance n q ≤ distance n p)
NearestIs e now n (q ∷ _ ∷ _) = ⊥

pub select_nearest :
    (n : ℕ) (e : Array4 (Option Instant)) (now : Instant)
    → n < source_count
    → NearestIs e now n (select false n e now offsets)
unfolding select
select_nearest zero e now h = ground arith
select_nearest (suc zero) e now h = ground arith
select_nearest (suc (suc zero)) e now h = ground arith
select_nearest (suc (suc (suc zero))) e now h = ground arith
select_nearest (suc (suc (suc (suc n)))) e now h = absurd (omega arith)

-- `begin` in one equation for each of its three ways out.
pub data Outcome (now : Instant) (generation : ℕ) (c : RefreshCoordinator) : Type 0 where
  early :
      is_too_soon c.last_attempt now ≡ true
      → begin now generation c ≡ (c, skipped interval_not_elapsed)
      → Outcome now generation c
  waiting :
      is_too_soon c.last_attempt now ≡ false
      → select
          (not (generation == c.completed_generation))
          c.next_source
          c.next_eligible
          now
          offsets
        ≡ []
      → begin now generation c ≡ (c, skipped all_waiting)
      → Outcome now generation c
  started :
      (source : UpstreamSource) (sources : List UpstreamSource)
      → is_too_soon c.last_attempt now ≡ false
      → select
          (not (generation == c.completed_generation))
          c.next_source
          c.next_eligible
          now
          offsets
        ≡ source ∷ sources
      → begin now generation c ≡ (
        dispatch now (source ∷ sources) (record c { last_attempt = some now }),
        planned (record {
          sources = source ∷ sources;
          full_refresh = not (generation == c.completed_generation);
          generation = generation;
        }),
      )
      → Outcome now generation c

Outcome-selected :
    (now : Instant) (generation : ℕ) (c : RefreshCoordinator) (sources : List UpstreamSource)
    → is_too_soon c.last_attempt now ≡ false
    → select (not (generation == c.completed_generation)) c.next_source c.next_eligible now offsets
      ≡ sources
    → Outcome now generation c
unfolding begin_with
Outcome-selected now g c [] t s = waiting t s (unfold begin in rw (t, s))
Outcome-selected now g c (p ∷ ps) t s = started p ps t s (unfold begin in rw (t, s))

pub begin-Outcome :
    (now : Instant) (generation : ℕ) (c : RefreshCoordinator) → Outcome now generation c
begin-Outcome now g c = elim (Bool-cases (is_too_soon c.last_attempt now)) [
  | inl t ↦ early t (unfold begin in rw t)
  | inr t ↦ Outcome-selected now g c _ t refl
]
