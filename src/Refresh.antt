-- ===== src/Refresh.antt =====
-- src/refresh.rs: the coordinator that decides when a refresh may start and which providers it asks,
-- and that turns the outcome of one into the next deadlines.
pub mod Begin
pub mod Plans
pub mod Settle
pub mod Rotation
pub mod Trace
use bitcoin_price_tracker.Prelude.{
  ℕ, ◌+◌, ◌-◌, ◌*◌, ◌/◌, ◌%◌, ◌^◌, Bool, true, false, not, List, [], ◌∷◌, Option, none, some, min,
  max, ltb, leb, ◌==◌, if◌then◌else◌, find, pos, negsuc, pos_part, ◌-ℤ◌,
}
use bitcoin_price_tracker.Time.{
  Instant, Duration, UnixTime, SystemTime, from_secs, saturating_duration_since, checked_add,
  refresh_interval_seconds,
}
use bitcoin_price_tracker.Source.{
  UpstreamSource, source_count, source_at, index_of, same_source, Array4, get, set, filled,
}
use bitcoin_price_tracker.Errors.{ProviderError, ProviderErrorKind, RetryAfter}

pub record RefreshCoordinator : Type 0 where
  pub next_source : ℕ
  pub last_attempt : Option Instant
  pub next_eligible : Array4 (Option Instant)
  pub consecutive_failures : Array4 ℕ
  pub completed_generation : ℕ

pub record RefreshPlan : Type 0 where
  pub sources : List UpstreamSource
  pub full_refresh : Bool
  pub generation : ℕ

-- The two texts with which `begin` refuses.
pub data Skip : Type 0 where
  interval_not_elapsed all_waiting : Skip

pub data Begun : Type 0 where
  planned : RefreshPlan → Begun
  skipped : Skip → Begun

-- `RefreshCoordinator::default()`.
abbrev pub fresh : RefreshCoordinator
fresh = record {
  next_source = 0;
  last_attempt = none;
  next_eligible = filled none;
  consecutive_failures = filled 0;
  completed_generation = 0;
}

abbrev pub interval : Duration
interval = from_secs refresh_interval_seconds

-- `last_attempt.is_some_and(|last| now.saturating_duration_since(last) < interval)`.
abbrev pub is_too_soon : Option Instant → Instant → Bool
is_too_soon none now = false
is_too_soon (some last) now = ltb (saturating_duration_since now last) interval

-- `next_eligible[index].is_none_or(|eligible| now >= eligible)`.
abbrev pub is_eligible : Option Instant → Instant → Bool
is_eligible none now = true
is_eligible (some eligible) now = leb eligible now

-- The index that the loop of `begin` looks at for an offset.
abbrev pub probe_index : Bool → ℕ → ℕ → ℕ
probe_index true next offset = offset
probe_index false next offset = (next + offset) % source_count

-- The loop of `begin` over the offsets that are left.
pub select : Bool → ℕ → Array4 (Option Instant) → Instant → List ℕ → List UpstreamSource
select full next eligible now [] = []
select full next eligible now (offset ∷ offsets) =
    let rest = select full next eligible now offsets in
    let index = probe_index full next offset in
    if is_eligible (get eligible index) now
    then (source_at index ∷ (if full then rest else []))
    else rest

abbrev pub offsets : List ℕ
offsets = 0 ∷ 1 ∷ 2 ∷ 3 ∷ []

-- The loop of `begin` that installs the deadlines of the chosen providers.
pub dispatch : Instant → List UpstreamSource → RefreshCoordinator → RefreshCoordinator
dispatch now [] c = c
dispatch now (source ∷ sources) c = dispatch now sources (record c {
  next_eligible = set c.next_eligible (index_of source) (some (now + interval));
  next_source = (index_of source + 1) % source_count;
})

-- `begin` after its two guards.
begin_with :
    Instant → ℕ → Bool → List UpstreamSource → RefreshCoordinator → RefreshCoordinator × Begun
begin_with now generation full [] c = (c, skipped all_waiting)
begin_with now generation full (source ∷ sources) c = (
  dispatch now (source ∷ sources) (record c { last_attempt = some now }),
  planned (record { sources = source ∷ sources; full_refresh = full; generation = generation }),
)

-- `begin(&mut self, now, requested_generation)`.
unfoldable pub begin : Instant → ℕ → RefreshCoordinator → RefreshCoordinator × Begun
unfolding select dispatch begin_with
begin now generation c =
    let full = not (generation == c.completed_generation) in
    let sources = select full c.next_source c.next_eligible now offsets in
    if is_too_soon c.last_attempt now
    then (c, skipped interval_not_elapsed)
    else begin_with now generation full sources c

-- `Duration::from_secs((10_u64 << (count - 1)).min(300))`.
unfoldable pub backoff : ℕ → Duration
backoff count = from_secs (min (10 * 2 ^ (count - 1) % 2 ^ 64) 300)

-- The wait until a wall-clock time, in whole seconds: `time.duration_since(UNIX_EPOCH).ok()` and
-- the difference in `i128`, at least 0, if it fits a `u64`.
unfoldable pub wait_until : SystemTime → UnixTime → Option Duration
wait_until (negsuc _) now_unix = none
wait_until (pos nanos) now_unix =
    let seconds = pos_part (pos (nanos / 1_000_000_000) -ℤ now_unix) in
    if ltb seconds (2 ^ 64) then some (from_secs seconds) else none

module _ {R J : Type 0} where
  -- `retry_delay` of `complete`.
  pub retry_delay : ProviderErrorKind R J → UnixTime → Option Duration
  unfolding wait_until
  retry_delay (ProviderErrorKind.http status (some (RetryAfter.delay d))) now_unix = some d
  retry_delay (ProviderErrorKind.http status (some (RetryAfter.at time))) now_unix =
      wait_until time now_unix
  retry_delay _ now_unix = none

-- `consecutive_failures[index].saturating_add(1).min(6)`, on a `u32`.
unfoldable pub next_count : ℕ → ℕ
next_count count = min (min (count + 1) 4_294_967_295) 6

-- `retry_delay.and_then(|delay| now.checked_add(delay.max(backoff))).unwrap_or(now + backoff)`.
unfoldable pub next_deadline : Instant → Instant → Duration → Option Duration → Instant
next_deadline last now pause none = now + pause
next_deadline last now pause (some d) = elim (checked_add last now (max d pause)) [
  | none ↦ now + pause
  | some deadline ↦ deadline
]

module _ {R J : Type 0} where
  -- `failures.iter().find(|error| error.provider == *source)`.
  abbrev pub failure_of : UpstreamSource → List (ProviderError R J) → Option (ProviderError R J)
  failure_of source = find (λ error. same_source error.provider source)

  -- One round of the loop of `complete`.
  pub settle :
      Instant
      → Instant
      → UnixTime
      → UpstreamSource
      → Option (ProviderError R J)
      → RefreshCoordinator
      → RefreshCoordinator
  unfolding next_count next_deadline retry_delay
  settle last now now_unix source none c = record c {
    consecutive_failures = set c.consecutive_failures (index_of source) 0;
  }
  settle last now now_unix source (some error) c =
      let count = next_count (get c.consecutive_failures (index_of source)) in
      record c {
        consecutive_failures = set c.consecutive_failures (index_of source) count;
        next_eligible =
            set c.next_eligible (index_of source)
              (some (next_deadline last now (backoff count) (retry_delay error.kind now_unix)));
      }

  pub settle_all :
      Instant
      → Instant
      → UnixTime
      → List (ProviderError R J)
      → List UpstreamSource
      → RefreshCoordinator
      → RefreshCoordinator
  settle_all last now now_unix failures [] c = c
  settle_all last now now_unix failures (source ∷ sources) c =
      settle_all last now now_unix failures sources
        (settle last now now_unix source (failure_of source failures) c)

  -- `complete(&mut self, plan, failures, now, now_unix)`; `last` is the latest instant there is.
  unfoldable pub complete :
      Instant
      → RefreshPlan
      → List (ProviderError R J)
      → Instant
      → UnixTime
      → RefreshCoordinator
      → RefreshCoordinator
  unfolding settle settle_all
  complete last plan failures now now_unix c =
      let settled = settle_all last now now_unix failures plan.sources c in
      if plan.full_refresh
      then record settled { completed_generation = plan.generation }
      else settled
