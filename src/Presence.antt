-- ===== src/Presence.antt =====
-- src/presence.rs: the viewers that hold a dashboard open, and the tests that a request passes before
-- a refresh is considered.
pub mod Viewers
pub mod Sessions
use bitcoin_price_tracker.Prelude.{
  ℕ, ◌+◌, ◌%◌, ◌^◌, Bool, true, false, ◌&&◌, ◌||◌, not, List, [], ◌∷◌, Option, none, some, String,
  ltb, leb, ◌==◌, if◌then◌else◌, length, is_empty, all, ℤ, pos, ltb_ℤ, checked_sub,
}
use bitcoin_price_tracker.Prelude.Text.{codes}
use bitcoin_price_tracker.Time.{
  Instant, UnixTime, from_secs, saturating_duration_since, viewer_ttl_seconds,
  refresh_interval_seconds,
}
use bitcoin_price_tracker.Models.{PresencePayload, SnapshotRecord}
use bitcoin_price_tracker.Dict.{Dict, contains_key, insert, remove, retain}

-- The part of `AppState` that presence writes: `viewers` and `full_refresh_generation` (a `u64`).
pub record Presence : Type 0 where
  pub viewers : Dict Instant
  pub full_refresh_generation : ℕ

-- `Result<usize, usize>`: the number of viewers, after an update or after a refusal.
pub data Admission : Type 0 where
  admitted refused : ℕ → Admission

abbrev pub is_live : Instant → Instant → Bool
is_live now last_seen = leb (saturating_duration_since now last_seen) (from_secs viewer_ttl_seconds)

unfoldable pub prune_inactive_viewers : Instant → Dict Instant → Dict Instant
prune_inactive_viewers now = retain (is_live now)

-- The two writes of `apply_presence_update` to the pruned map.
abbrev pub updated : PresencePayload → Instant → Dict Instant → Dict Instant
updated payload now viewers =
    if payload.active
    then insert payload.session_id now viewers
    else remove payload.session_id viewers

unfoldable pub apply_presence_update :
    ℕ → Instant → PresencePayload → Presence → Presence × Admission
unfolding prune_inactive_viewers
apply_presence_update max_viewers now payload s =
    let viewers = prune_inactive_viewers now s.viewers in
    let previously_empty = is_empty viewers in
    let after = updated payload now viewers in
    if payload.active
      && not (contains_key payload.session_id viewers)
      && leb max_viewers (length viewers)
    then (record s { viewers = viewers }, refused (length viewers))
    else (
      record s {
        viewers = after;
        full_refresh_generation =
            if payload.active && previously_empty && not (is_empty after)
            then (s.full_refresh_generation + 1) % 2 ^ 64
            else s.full_refresh_generation;
      },
      admitted (length after),
    )

unfoldable pub active_viewer_count : Instant → Presence → Presence × ℕ
unfolding prune_inactive_viewers
active_viewer_count now s =
    let viewers = prune_inactive_viewers now s.viewers in
    (record s { viewers = viewers }, length viewers)

-- `now.checked_sub(fetched_at_unix).filter(|age| *age >= 0)`.
unfoldable pub age_of : UnixTime → UnixTime → Option ℤ
unfolding checked_sub
age_of at now = elim (checked_sub now at) [
  | none ↦ none
  | some age ↦ if ltb_ℤ age (pos 0) then none else some age
]

unfoldable pub snapshot_age_seconds : {W : Type 0} → SnapshotRecord W → UnixTime → Option ℤ
unfolding age_of
snapshot_age_seconds snapshot now = age_of snapshot.fetched_at_unix now

-- The two texts of `refresh_skip_reason`, the second with the age that it shows.
pub data SkipReason : Type 0 where
  no_active_viewers : SkipReason
  too_recent : ℤ → SkipReason

abbrev pub recent_reason : Option ℤ → Option SkipReason
recent_reason none = none
recent_reason (some age) =
    if ltb_ℤ age (pos refresh_interval_seconds) then some (too_recent age) else none

unfoldable pub refresh_skip_reason : ℕ → Option ℤ → Option SkipReason
refresh_skip_reason active_viewers snapshot_age =
    if active_viewers == 0 then some no_active_viewers else recent_reason snapshot_age

-- The length of a text in UTF-8.
abbrev pub utf8_width : ℕ → ℕ
utf8_width c = if ltb c 0x80 then 1 else if ltb c 0x800 then 2 else if ltb c 0x10000 then 3 else 4

abbrev pub utf8_len : List ℕ → ℕ
utf8_len [] = 0
utf8_len (c ∷ cs) = utf8_width c + utf8_len cs

-- `ch.is_ascii_alphanumeric() || matches!(ch, '-' | '_')`.
abbrev pub is_session_char : ℕ → Bool
is_session_char c =
    (leb b'0' c && leb c b'9')
    || (leb b'A' c && leb c b'Z')
    || (leb b'a' c && leb c b'z')
    || c == b'-'
    || c == b'_'

unfoldable pub is_valid_session_id : String → Bool
is_valid_session_id session_id =
    not (is_empty (codes session_id))
    && leb (utf8_len (codes session_id)) 128
    && all is_session_char (codes session_id)
