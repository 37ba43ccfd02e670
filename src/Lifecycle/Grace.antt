-- ===== src/Lifecycle/Grace.antt =====
-- That a shutdown keeps to its budget.
use bitcoin_price_tracker.Prelude.{
  ◌+◌, ◌≤◌, ◌<◌, ◌≡◌, ◌≢◌, refl, Bool, true, false, List, [], ◌∷◌, all, Option, max, ltb, leb,
  arith, Bool-cases, if_holds, inl, inr, ◌⊎◌,
}
use bitcoin_price_tracker.Prelude.Results.{Result, ok, err, is_some_and}
use bitcoin_price_tracker.Time.{Instant, Duration}
use bitcoin_price_tracker.Lifecycle.{
  ConnectionLimits, ServeError, connections_remain, serve_tracker_until,
}
use bitcoin_price_tracker.Lifecycle.Timeline.{
  Accepted, peer, failed, Connection, task_end, held, admit, capacity, accept_loop, accept_pause,
  drained_at, drain_within, is_locked_by, lock_end, wait_for_refresh, serve_tracker,
}

task_end-le : (lifetime : Duration) (c : Connection) → task_end lifetime c ≤ c.opened + lifetime
unfolding task_end
task_end-le lifetime c = ground arith

-- The connections are opened before the shutdown.
abbrev IsEarly : Instant → List Connection → Type 0
IsEarly asked cs = all (λ c. ltb c.opened asked) cs ≡ true

admit-IsEarly :
    (limits : ConnectionLimits) (asked now : Instant) (is_loopback : Bool)
    (finishes : Option Instant) (cs : List Connection)
    → now < asked
    → IsEarly asked cs
    → IsEarly asked (admit limits now is_loopback finishes cs)
unfolding admit
admit-IsEarly limits asked now is_loopback finishes cs h early =
    if_holds (IsEarly asked)
      (ltb (held limits.lifetime now is_loopback cs) (capacity limits is_loopback)) _ _
      (ground arith) early

accept_loop-IsEarly :
    (limits : ConnectionLimits) (asked ready : Instant) (cs : List Connection)
    (arrivals : List Accepted)
    → IsEarly asked cs
    → IsEarly asked (accept_loop limits asked ready cs arrivals)
unfolding accept_loop
accept_loop-IsEarly limits asked ready cs [] early = early
accept_loop-IsEarly limits asked ready cs (peer at is_loopback finishes ∷ rest) early =
    elim (Bool-cases (leb asked (max at ready))) [
      | inl h ↦ rw h early
      | inr h ↦ rw h (
          accept_loop-IsEarly limits asked (max at ready)
            (admit limits (max at ready) is_loopback finishes cs) rest
            (admit-IsEarly limits asked (max at ready) is_loopback finishes cs (ground arith)
              early))
    ]
accept_loop-IsEarly limits asked ready cs (failed at ∷ rest) early =
    elim (Bool-cases (leb asked (max at ready))) [
      | inl h ↦ rw h early
      | inr h ↦ rw h (accept_loop-IsEarly limits asked (max at ready + accept_pause) cs rest early)
    ]

drained_at-le :
    (lifetime : Duration) (asked since : Instant) (cs : List Connection)
    → asked ≤ since
    → IsEarly asked cs
    → drained_at lifetime since cs ≤ since + lifetime
unfolding drained_at
drained_at-le lifetime asked since [] h early = ground arith
drained_at-le lifetime asked since (c ∷ cs) h early =
    ground (arith, task_end-le lifetime c, drained_at-le lifetime asked since cs h)

task_end-drained_at :
    (lifetime : Duration) (since : Instant) (cs : List Connection) (at : Instant)
    → drained_at lifetime since cs ≤ at
    → all (λ c. leb (task_end lifetime c) at) cs ≡ true
unfolding drained_at
task_end-drained_at lifetime since [] at h = refl
task_end-drained_at lifetime since (c ∷ cs) at h =
    ground (arith, task_end-drained_at lifetime since cs at)

module _ (deadline : Instant) (free : Option Instant) (limit : Instant)
    (bound : deadline ≤ limit) where
  -- The lock is free by an instant.
  abbrev IsFreeBy : Instant → Type 0
  IsFreeBy at = is_some_and (λ t. leb t at) free ≡ true

  locked_lem :
      (at : Instant) (b : Bool)
      → is_locked_by at deadline free ≡ b
      → (serve_tracker_until (ok tt) true b ≢ err connections_remain)
        × (serve_tracker_until (ok tt) true b ≡ ok tt
            → (at ≤ lock_end at deadline free) × IsFreeBy (lock_end at deadline free))
  unfolding serve_tracker_until
  locked_lem at true e = (λ h. cc, λ h. ground arith)
  locked_lem at false e = (λ h. cc, λ h. cc)

  lock_end-le : (at : Instant) → at ≤ limit → lock_end at deadline free ≤ limit
  lock_end-le at h = ground arith

  wait_for_refresh_lem :
      (r : Result ServeError (Unit {0}) × Instant)
      → r.1 ≤ limit
      → let after = wait_for_refresh deadline free r in
        (after.1 ≤ limit)
        × (after.0 ≡ err connections_remain → r.0 ≡ err connections_remain)
        × (after.0 ≡ ok tt → (r.0 ≡ ok tt) × (r.1 ≤ after.1) × IsFreeBy after.1)
  wait_for_refresh_lem (err e, at) h = (h, λ k. k, λ k. cc)
  wait_for_refresh_lem (ok tt, at) h =
      let (never, fine) = locked_lem at (is_locked_by at deadline free) refl in
      (
        lock_end-le at h,
        λ k. absurd (never k),
        λ k. let (late, is_free) = fine k in (refl, late, is_free),
      )

drain_within_lem :
    (grace lifetime : Duration) (asked since : Instant) (cs : List Connection)
    → asked ≤ since
    → IsEarly asked cs
    → let r = drain_within grace lifetime since cs in
      (r.1 ≤ since + grace)
      × (lifetime ≤ grace → r.0 ≢ err connections_remain)
      × (r.0 ≡ ok tt → drained_at lifetime since cs ≤ r.1)
unfolding drain_within
drain_within_lem grace lifetime asked since cs h early =
    let bound = drained_at-le lifetime asked since cs h early in
    elim (Bool-cases (leb (drained_at lifetime since cs) (since + grace))) [
      | inl e ↦ rw e (ground arith, λ enough k. cc, λ k. ground arith)
      | inr e ↦ rw e (ground arith, λ enough k. absurd (ground arith), λ k. cc)
    ]

-- A shutdown ends within its grace, counted from when the accept loop is left: the wait for the refresh
-- after the drain has no grace of its own. Unless the grace is less than the lifetime of a connection,
-- which by default are equal, no connection is aborted, whatever the peers do and whatever fails to be
-- accepted. And a shutdown that succeeds has let every connection that was accepted and the refresh end.
pub serve_tracker-within :
    (limits : ConnectionLimits) (grace : Duration) (asked since : Instant)
    (arrivals : List Accepted) (free : Option Instant)
    → asked ≤ since
    → let (result, at) = serve_tracker limits grace asked since arrivals free in
      (at ≤ since + grace)
      × ((grace < limits.lifetime) ⊎ (result ≢ err connections_remain))
      × (result ≡ ok tt
          → (all (λ c. leb (task_end limits.lifetime c) at) (accept_loop limits asked 0 [] arrivals)
              ≡ true)
            × (is_some_and (λ t. leb t at) free ≡ true))
unfolding serve_tracker
serve_tracker-within limits grace asked since arrivals free h =
    let cs = accept_loop limits asked 0 [] arrivals in
    let (within, kept, drained) =
      drain_within_lem grace limits.lifetime asked since cs h
        (accept_loop-IsEarly limits asked 0 [] arrivals refl) in
    let (end, blame, fine) =
      wait_for_refresh_lem (asked + grace) free (since + grace) (omega (arith, h))
        (drain_within grace limits.lifetime since cs) within in
    (
      end,
      elim (Bool-cases (leb limits.lifetime grace)) [
        | inl e ↦ inr (λ k. kept (ground arith) (blame k))
        | inr e ↦ inl (ground arith)
      ],
      λ k.
          let (done, later, is_free) = fine k in
          (
            task_end-drained_at limits.lifetime since cs _ (omega (arith, drained done, later)),
            is_free,
          ),
    )
