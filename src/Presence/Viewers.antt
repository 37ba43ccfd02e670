-- ===== src/Presence/Viewers.antt =====
-- The bookkeeping of viewers: capacity, expiry and activations.
use text.Mathlib.Text.{◌==◌}
use bitcoin_price_tracker.Prelude.{
  ℕ, ◌+◌, ◌%◌, ◌^◌, ◌≤◌, ◌<◌, ◌≡◌, ◌≢◌, refl, Bool, true, false, ◌&&◌, ◌⊎◌, [], ◌∷◌, Option, none,
  some, String, arith, if◌then◌else◌, length, is_empty,
}
use bitcoin_price_tracker.Time.{Instant}
use bitcoin_price_tracker.Models.{PresencePayload}
use bitcoin_price_tracker.Dict.{
  Dict, lookup, retain, Unique, passing, contains_key-lookup, lookup-insert, lookup-remove,
  lookup-retain, insert-Unique, remove-Unique, retain-Unique, length-insert, length-remove-le,
  length-retain-le, insert-ne-nil,
}
use bitcoin_price_tracker.Presence.{
  Presence, Admission, admitted, refused, is_live, prune_inactive_viewers, apply_presence_update,
  active_viewer_count,
}

length-empty : (m : Dict Instant) → is_empty m ≡ true → length m ≡ 0
length-empty [] h = refl
length-empty (x ∷ m) h = cc

-- Each session is counted once, and the map never holds more sessions than the limit.
pub record IsBounded (max_viewers : ℕ) (s : Presence) : Type 0 where
  pub unique : Unique s.viewers
  pub bounded : length s.viewers ≤ max_viewers

abbrev pub is_admitted : Admission → Bool
is_admitted (admitted n) = true
is_admitted (refused n) = false

module _ (max_viewers : ℕ) (now : Instant) (payload : PresencePayload) (s : Presence) where
  -- Every update, admitted or refused, keeps the map within the limit.
  pub apply_presence_update-IsBounded :
      IsBounded max_viewers s
      → IsBounded max_viewers (apply_presence_update max_viewers now payload s).0
  unfolding apply_presence_update
  apply_presence_update-IsBounded i = ground (
    arith,
    retain-Unique (is_live now) s.viewers i.unique,
    length-retain-le (is_live now) s.viewers,
    insert-Unique payload.session_id now (retain (is_live now) s.viewers),
    remove-Unique payload.session_id (retain (is_live now) s.viewers),
    length-insert payload.session_id now (retain (is_live now) s.viewers),
    length-remove-le payload.session_id (retain (is_live now) s.viewers),
  )

  -- The entry that an admitted update leaves for a session.
  abbrev pub entry_after : String → Option Instant
  entry_after j =
      if payload.session_id == j
      then (if payload.active then some now else none)
      else passing (is_live now) (lookup j s.viewers)

  -- An admitted update sets or clears its own session and drops the expired ones; the others stay,
  -- and the count that it returns is the size of the map.
  pub apply_presence_update-admitted :
      (n : ℕ)
      → Unique s.viewers
      → (apply_presence_update max_viewers now payload s).1 ≡ admitted n
      → ((j : String)
          → lookup j (apply_presence_update max_viewers now payload s).0.viewers ≡ entry_after j)
        × (length (apply_presence_update max_viewers now payload s).0.viewers ≡ n)
  unfolding apply_presence_update
  apply_presence_update-admitted n u h =
      let live = retain (is_live now) s.viewers in
      (
        λ j. ground (
          arith,
          lookup-insert payload.session_id j now live,
          lookup-remove payload.session_id j live (retain-Unique (is_live now) s.viewers u),
          lookup-retain (is_live now) j s.viewers u,
        ),
        ground arith,
      )

  -- A refusal means that an activation of a session that is not live met a full map; it only drops
  -- the expired sessions, counts the others, and starts no activation.
  pub apply_presence_update-refused :
      (n : ℕ)
      → Unique s.viewers
      → (apply_presence_update max_viewers now payload s).1 ≡ refused n
      → (payload.active ≡ true)
        × (passing (is_live now) (lookup payload.session_id s.viewers) ≡ none)
        × (max_viewers ≤ n)
        × ((apply_presence_update max_viewers now payload s).0.full_refresh_generation
            ≡ s.full_refresh_generation)
        × ((j : String)
            → lookup j (apply_presence_update max_viewers now payload s).0.viewers
              ≡ passing (is_live now) (lookup j s.viewers))
        × (length (apply_presence_update max_viewers now payload s).0.viewers ≡ n)
  unfolding apply_presence_update
  apply_presence_update-refused n u h =
      let live = retain (is_live now) s.viewers in
      (
        ground arith,
        ground (
          arith,
          contains_key-lookup payload.session_id live,
          lookup-retain (is_live now) payload.session_id s.viewers u,
        ),
        ground arith,
        ground arith,
        λ j. ground (arith, lookup-retain (is_live now) j s.viewers u),
        ground arith,
      )

  -- A session that is live is never refused, nor is a departure, nor any update below the limit.
  pub apply_presence_update_serves :
      Unique s.viewers
      → (payload.active ≡ false)
        ⊎ (passing (is_live now) (lookup payload.session_id s.viewers) ≢ none)
        ⊎ (length s.viewers < max_viewers)
      → is_admitted (apply_presence_update max_viewers now payload s).1 ≡ true
  unfolding apply_presence_update
  apply_presence_update_serves u h = ground (
    arith,
    contains_key-lookup payload.session_id (retain (is_live now) s.viewers),
    lookup-retain (is_live now) payload.session_id s.viewers u,
    length-retain-le (is_live now) s.viewers,
  )

  -- The refresh generation moves, by one modulo 2^64, exactly when a session becomes active while no
  -- live session is left.
  pub apply_presence_update_activates :
      0 < max_viewers
      → (apply_presence_update max_viewers now payload s).0.full_refresh_generation ≡ (
          if payload.active && is_empty (prune_inactive_viewers now s.viewers)
          then (s.full_refresh_generation + 1) % 2 ^ 64
          else s.full_refresh_generation)
  unfolding apply_presence_update
  apply_presence_update_activates h = ground (
    arith,
    insert-ne-nil payload.session_id now (retain (is_live now) s.viewers),
    length-empty (retain (is_live now) s.viewers),
  )

-- A count drops the sessions that were last seen more than the time to live ago, keeps the others as
-- they are, and returns how many there are.
pub active_viewer_count_lem :
    (now : Instant) (s : Presence)
    → Unique s.viewers
    → ((j : String)
        → lookup j (active_viewer_count now s).0.viewers
          ≡ passing (is_live now) (lookup j s.viewers))
      × (length (active_viewer_count now s).0.viewers ≡ (active_viewer_count now s).1)
      × ((active_viewer_count now s).0.full_refresh_generation ≡ s.full_refresh_generation)
      × Unique (active_viewer_count now s).0.viewers
unfolding active_viewer_count
active_viewer_count_lem now s u = (
  λ j. lookup-retain (is_live now) j s.viewers u,
  refl,
  refl,
  retain-Unique (is_live now) s.viewers u,
)
