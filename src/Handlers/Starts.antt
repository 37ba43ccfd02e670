-- ===== src/Handlers/Starts.antt =====
-- When a price request starts a refresh.
use bitcoin_price_tracker.Prelude.{
  ℕ, ◌+◌, ◌<◌, ◌≤◌, ◌≡◌, ◌↔◌, ◌⊎◌, refl, true, false, not, ℤ, pos, ◌≤ℤ◌, [], ◌∷◌, Option, none,
  some, arith, length, if◌then◌else◌,
}
use bitcoin_price_tracker.Prelude.Results.{is_none}
use bitcoin_price_tracker.Dict.{Dict, retain}
use bitcoin_price_tracker.Time.{Instant}
use bitcoin_price_tracker.Float.{Float64}
use bitcoin_price_tracker.Source.{get}
use bitcoin_price_tracker.Models.{SnapshotRecord}
use bitcoin_price_tracker.Presence.{Presence, is_live, active_viewer_count, refresh_skip_reason}
use bitcoin_price_tracker.Refresh.{
  RefreshCoordinator, Begun, planned, skipped, begin, is_too_soon, is_eligible,
}
use bitcoin_price_tracker.Refresh.Plans.{refuses, has_ready, begin-refuses_iff}
use bitcoin_price_tracker.Handlers.{
  AppState, Moment, stored_of, read_failed, fetched_age, start, try_begin, decide, cached_prices,
}

-- Somebody was seen within the last fifteen seconds.
abbrev pub HasViewer : Instant → Dict Instant → Type 0
HasViewer now [] = ⊥
HasViewer now ((name, seen) ∷ rest) = (now ≤ seen + 15_000_000_000) ⊎ HasViewer now rest

-- No snapshot of a known age is younger than ten seconds.
abbrev pub IsOld : Option ℤ → Type 0
IsOld none = Unit
IsOld (some age) = pos 10 ≤ℤ age

-- Ten seconds have passed since an instant, if there is one; and a deadline, if there is one.
abbrev pub HasElapsed : Option Instant → Instant → Type 0
HasElapsed none now = Unit
HasElapsed (some last) now = last + 10_000_000_000 ≤ now

abbrev pub IsOpen : Option Instant → Instant → Type 0
IsOpen none now = Unit
IsOpen (some deadline) now = deadline ≤ now

-- The coordinator is free and may start: ten seconds after the last start, with a provider whose
-- deadline has passed.
abbrev pub MayStart : Option RefreshCoordinator → Instant → Type 0
MayStart none now = ⊥
MayStart (some c) now =
    HasElapsed c.last_attempt now
    × (IsOpen (get c.next_eligible 0) now
        ⊎ IsOpen (get c.next_eligible 1) now
        ⊎ IsOpen (get c.next_eligible 2) now
        ⊎ IsOpen (get c.next_eligible 3) now)

abbrev pub HasCursor : Option RefreshCoordinator → Type 0
HasCursor none = Unit
HasCursor (some c) = c.next_source < 4

retain_live_iff :
    (now : Instant) (viewers : Dict Instant)
    → (0 < length (retain (is_live now) viewers)) ↔ HasViewer now viewers
unfolding retain
retain_live_iff now [] = ground arith
retain_live_iff now ((name, seen) ∷ rest) = ground (arith, retain_live_iff now rest)

active_viewer_count_iff :
    (now : Instant) (s : Presence) → (0 < (active_viewer_count now s).1) ↔ HasViewer now s.viewers
unfolding active_viewer_count
active_viewer_count_iff now s = retain_live_iff now s.viewers

is_eligible_iff : (o : Option Instant) (now : Instant) → (is_eligible o now ≡ true) ↔ IsOpen o now
is_eligible_iff none now = ground arith
is_eligible_iff (some t) now = ground arith

is_too_soon_iff :
    (o : Option Instant) (now : Instant) → (is_too_soon o now ≡ false) ↔ HasElapsed o now
is_too_soon_iff none now = ground arith
is_too_soon_iff (some t) now = ground arith

refresh_skip_reason_iff :
    (viewers : ℕ) (age : Option ℤ)
    → (refresh_skip_reason viewers age ≡ none) ↔ ((0 < viewers) × IsOld age)
unfolding refresh_skip_reason
refresh_skip_reason_iff viewers none = ground arith
refresh_skip_reason_iff viewers (some age) = ground arith

not_begun_iff :
    (c : RefreshCoordinator) (now : Instant)
    → ((if is_too_soon c.last_attempt now then true else not (has_ready c now)) ≡ false)
      ↔ MayStart (some c) now
not_begun_iff c now = ground (
  arith,
  is_too_soon_iff c.last_attempt now,
  is_eligible_iff (get c.next_eligible 0) now,
  is_eligible_iff (get c.next_eligible 1) now,
  is_eligible_iff (get c.next_eligible 2) now,
  is_eligible_iff (get c.next_eligible 3) now,
)

module _ {W : Type 0} where
  start-refuses :
      (snapshot : Option (SnapshotRecord W)) (b : RefreshCoordinator × Begun)
      → is_none (start snapshot b).task ≡ refuses b.1
  start-refuses snapshot (c, planned plan) = refl
  start-refuses snapshot (c, skipped reason) = refl

  try_begin-MayStart :
      (snapshot : Option (SnapshotRecord W)) (now : Instant) (generation : ℕ)
      (free : Option RefreshCoordinator)
      → HasCursor free
      → (is_none (try_begin snapshot now generation free).task ≡ false) ↔ MayStart free now
  try_begin-MayStart snapshot now generation none h = ground arith
  try_begin-MayStart snapshot now generation (some c) h =
      rw (start-refuses snapshot (begin now generation c))
        (rw (begin-refuses_iff now generation c h).0 (not_begun_iff c now))

  decide-MayStart :
      (m : Moment W) (viewers : ℕ) (s : AppState)
      → HasCursor s.refresh
      → (is_none (decide m viewers s).task ≡ false) ↔ (
          (read_failed m.loaded ≡ false)
          × (s.stopping ≡ false)
          × (0 < viewers)
          × IsOld (fetched_age (stored_of m.loaded).snapshot m.now_unix)
          × MayStart s.refresh m.now)
  unfolding decide
  decide-MayStart m viewers s h = ground (
    arith,
    refresh_skip_reason_iff viewers (fetched_age (stored_of m.loaded).snapshot m.now_unix),
    try_begin-MayStart (stored_of m.loaded).snapshot m.now s.presence.full_refresh_generation
        s.refresh h,
  )

module _ {W : Type 0} ⦃f : Float64 W⦄ where
  -- A price request starts a refresh exactly when the stored prices could be read, the server is not
  -- shutting down, a viewer was seen within the last fifteen seconds, no stored snapshot of a known age
  -- is younger than ten seconds, and the coordinator is free, was last started ten seconds ago or
  -- more, and finds a provider whose deadline has passed. Its cursor is at one of the four providers.
  pub cached_prices-MayStart :
      (m : Moment W) (s : AppState)
      → HasCursor s.refresh
      → (is_none (cached_prices m s).2 ≡ false) ↔ (
          (read_failed m.loaded ≡ false)
          × (s.stopping ≡ false)
          × HasViewer m.now s.presence.viewers
          × IsOld (fetched_age (stored_of m.loaded).snapshot m.now_unix)
          × MayStart s.refresh m.now)
  unfolding cached_prices
  cached_prices-MayStart m s h =
      let counted = active_viewer_count m.now s.presence in
      ground (
        arith,
        active_viewer_count_iff m.now s.presence,
        decide-MayStart m counted.1 (record s { presence = counted.0 }) h,
      )
