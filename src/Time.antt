-- ===== src/Time.antt =====
-- Monotonic and wall-clock time, as src/util.rs takes it from the standard library, and the
-- periods of src/config.rs. An `Instant` and a `Duration` are nanoseconds, an `i64` of seconds since
-- the epoch and a `SystemTime` (nanoseconds since the epoch) are signed.
use bitcoin_price_tracker.Prelude.{ℕ, ◌+◌, ◌-◌, ◌*◌, ℤ, Option, none, some, leb, if◌then◌else◌}

abbrev pub Instant : Type 0
Instant = ℕ

abbrev pub Duration : Type 0
Duration = ℕ

abbrev pub UnixTime : Type 0
UnixTime = ℤ

abbrev pub SystemTime : Type 0
SystemTime = ℤ

-- `Duration::from_secs`.
abbrev pub from_secs : ℕ → Duration
from_secs n = n * 1_000_000_000

-- `Instant::saturating_duration_since`.
abbrev pub saturating_duration_since : Instant → Instant → Duration
saturating_duration_since now earlier = now - earlier

-- `Instant::checked_add`, where `last` is the latest instant that the platform can represent.
abbrev pub checked_add : Instant → Instant → Duration → Option Instant
checked_add last now delay = if leb (now + delay) last then some (now + delay) else none

abbrev pub refresh_interval_seconds : ℕ
refresh_interval_seconds = 10

abbrev pub source_max_age_seconds : ℕ
source_max_age_seconds = 90

abbrev pub viewer_ttl_seconds : ℕ
viewer_ttl_seconds = 15
