-- ===== src/Lifecycle.antt =====
-- src/lifecycle.rs: which connections are served, and how serving ends. A connection that ends gives
-- its permit back; what is served on it is left to hyper.
pub mod Connections
pub mod Drain
pub mod Timeline
pub mod Grace
use bitcoin_price_tracker.Prelude.{
  ℕ, zero, suc, ◌+◌, ◌-◌, Bool, true, false, ◌&&◌, if◌then◌else◌, min, ◌==◌,
}
use bitcoin_price_tracker.Prelude.Results.{Result, ok, err}
use bitcoin_price_tracker.Time.{Instant, Duration, from_secs}

pub record ConnectionLimits : Type 0 where
  pub max_connections : ℕ
  pub header_timeout : Duration
  pub lifetime : Duration

abbrev pub default_limits : ConnectionLimits
default_limits = record {
  max_connections = 128;
  header_timeout = from_secs 5;
  lifetime = from_secs 25;
}

pub data ServeError : Type 0 where
  connections_remain refresh_remains : ServeError

-- Where `serve_until` is: in its loop, after it, or over.
pub data Stage : Type 0 where
  serving draining : Stage
  over : Result ServeError (Unit {0}) → Stage

-- The permits of the two semaphores, and the connections that hold one.
pub record Server : Type 0 where
  pub slots : ℕ
  pub local_slots : ℕ
  pub remote : ℕ
  pub loopback : ℕ
  pub stage : Stage

abbrev pub open_server : ConnectionLimits → Server
open_server limits = record {
  slots = limits.max_connections;
  local_slots = min limits.max_connections 4;
  remote = 0;
  loopback = 0;
  stage = serving;
}

-- The permit of a new connection, and the task that holds it; without one the stream is dropped.
abbrev pub take_local : ℕ → Server → Server × Bool
take_local zero s = (s, false)
take_local (suc left) s = (record s { local_slots = left; loopback = s.loopback + 1 }, true)

abbrev pub take_remote : ℕ → Server → Server × Bool
take_remote zero s = (s, false)
take_remote (suc left) s = (record s { slots = left; remote = s.remote + 1 }, true)

-- The branch of the loop for an accepted connection: the server after, and whether it is served.
unfoldable pub accept : Bool → Server → Server × Bool
accept is_loopback s = if is_loopback then take_local s.local_slots s else take_remote s.slots s

-- The end of a connection's task.
unfoldable pub close : Bool → Server → Server
close is_loopback s =
    if is_loopback
    then record s { local_slots = s.local_slots + 1; loopback = s.loopback - 1 }
    else record s { slots = s.slots + 1; remote = s.remote - 1 }

-- The end of the loop at the shutdown: the listener is dropped.
abbrev pub shut_down : Server → Server
shut_down s = record s { stage = draining }

-- The end of the drain, if no task is left, or at the deadline, which aborts the tasks that are left.
abbrev pub is_drained : Server → Bool
is_drained s = s.remote == 0 && s.loopback == 0

unfoldable pub drain : Server → Server
drain s = if is_drained s then record s { stage = over (ok tt) } else s

unfoldable pub give_up : Server → Server
give_up s = record s {
  slots = s.slots + s.remote;
  local_slots = s.local_slots + s.loopback;
  remote = 0;
  loopback = 0;
  stage = over (err connections_remain);
}

-- `serve_tracker_until`, on the result of `serve_until`: whether the shutdown was asked for, and
-- whether the background refresh ends before the deadline.
unfoldable pub serve_tracker_until :
    Result ServeError (Unit {0}) → Bool → Bool → Result ServeError (Unit {0})
serve_tracker_until (err e) asked refresh_ends = err e
serve_tracker_until (ok _) asked refresh_ends =
    if asked then (if refresh_ends then ok tt else err refresh_remains) else ok tt
