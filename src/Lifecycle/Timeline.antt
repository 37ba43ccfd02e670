-- ===== src/Lifecycle/Timeline.antt =====
-- src/lifecycle.rs on a timeline: the accept loop, the life of a connection, and the two deadlines of a
-- shutdown. What hyper makes of a connection shows as the instant at which it ends it, if it ever does.
use bitcoin_price_tracker.Prelude.{
  ℕ, ◌+◌, Bool, true, false, ◌&&◌, not, List, [], ◌∷◌, keep, length, Option, none, some,
  if◌then◌else◌, min, max, ltb, leb,
}
use bitcoin_price_tracker.Prelude.Results.{Result, ok, err, is_some_and}
use bitcoin_price_tracker.Time.{Instant, Duration, from_secs}
use bitcoin_price_tracker.Lifecycle.{
  ConnectionLimits, ServeError, connections_remain, serve_tracker_until,
}

-- What `listener.accept()` yields, and when it could: a peer, with the end that hyper makes of its
-- connection, or an error.
pub data Accepted : Type 0 where
  peer : Instant → Bool → Option Instant → Accepted
  failed : Instant → Accepted

-- A connection with a task.
pub record Connection : Type 0 where
  pub is_loopback : Bool
  pub opened : Instant
  pub finishes : Option Instant

-- The end of the task: of the connection, or its deadline. A shutdown keeps the deadline.
unfoldable pub task_end : Duration → Connection → Instant
task_end lifetime c = elim c.finishes [
  | none ↦ c.opened + lifetime
  | some t ↦ min t (c.opened + lifetime)
]

-- The permits that are held at an instant.
unfoldable pub held : Duration → Instant → Bool → List Connection → ℕ
unfolding task_end
held lifetime now true cs = length (keep (λ c. c.is_loopback && ltb now (task_end lifetime c)) cs)
held lifetime now false cs =
    length (keep (λ c. not c.is_loopback && ltb now (task_end lifetime c)) cs)

abbrev pub capacity : ConnectionLimits → Bool → ℕ
capacity limits true = min limits.max_connections 4
capacity limits false = limits.max_connections

-- `try_acquire_owned` and the task, or the stream dropped.
unfoldable pub admit :
    ConnectionLimits → Instant → Bool → Option Instant → List Connection → List Connection
unfolding held
admit limits now is_loopback finishes cs =
    if ltb (held limits.lifetime now is_loopback cs) (capacity limits is_loopback)
    then record { is_loopback = is_loopback; opened = now; finishes = finishes } ∷ cs
    else cs

abbrev pub accept_pause : Duration
accept_pause = from_secs 1

-- The loop of `serve_until`, which a shutdown at `asked` leaves, also in the pause after a failed
-- accept; `ready` is when the loop accepts again.
unfoldable pub accept_loop :
    ConnectionLimits → Instant → Instant → List Connection → List Accepted → List Connection
unfolding admit
accept_loop limits asked ready cs [] = cs
accept_loop limits asked ready cs (peer at is_loopback finishes ∷ rest) =
    let now = max at ready in
    if leb asked now
    then cs
    else accept_loop limits asked now (admit limits now is_loopback finishes cs) rest
accept_loop limits asked ready cs (failed at ∷ rest) =
    let now = max at ready in
    if leb asked now then cs else accept_loop limits asked (now + accept_pause) cs rest

-- When the last task has been joined.
unfoldable pub drained_at : Duration → Instant → List Connection → Instant
unfolding task_end
drained_at lifetime since [] = since
drained_at lifetime since (c ∷ cs) = max (task_end lifetime c) (drained_at lifetime since cs)

-- The end of `serve_until`: its result, and when it returns. The drain begins at `since`.
unfoldable pub drain_within :
    Duration → Duration → Instant → List Connection → Result ServeError (Unit {0}) × Instant
unfolding drained_at
drain_within grace lifetime since cs =
    if leb (drained_at lifetime since cs) (since + grace)
    then (ok tt, drained_at lifetime since cs)
    else (err connections_remain, since + grace)

-- Whether the lock of the refresh, which is free at `free`, is taken at `from` or by the deadline.
abbrev pub is_locked_by : Instant → Instant → Option Instant → Bool
is_locked_by from deadline free = is_some_and (λ t. leb t (max from deadline)) free

-- When the wait for the lock ends.
abbrev pub lock_end : Instant → Instant → Option Instant → Instant
lock_end from deadline none = max from deadline
lock_end from deadline (some t) = min (max from t) (max from deadline)

abbrev pub wait_for_refresh :
    Instant
    → Option Instant
    → Result ServeError (Unit {0}) × Instant
    → Result ServeError (Unit {0}) × Instant
wait_for_refresh deadline free (err e, at) = (err e, at)
wait_for_refresh deadline free (ok tt, at) =
    (serve_tracker_until (ok tt) true (is_locked_by at deadline free), lock_end at deadline free)

-- `serve_tracker_until` where the shutdown comes at `asked` and the loop is left at `since`.
unfoldable pub serve_tracker :
    ConnectionLimits
    → Duration
    → Instant
    → Instant
    → List Accepted
    → Option Instant
    → Result ServeError (Unit {0}) × Instant
unfolding accept_loop drain_within serve_tracker_until
serve_tracker limits grace asked since arrivals free =
    wait_for_refresh (asked + grace) free
      (drain_within grace limits.lifetime since (accept_loop limits asked 0 [] arrivals))
