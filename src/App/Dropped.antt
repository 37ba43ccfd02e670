-- ===== src/App/Dropped.antt =====
-- What a handler of src/handlers.rs has written when the deadline of src/limits.rs drops it at an await.
use bitcoin_price_tracker.Prelude.{ℕ, Bool, true, not, ◌&&◌, if◌then◌else◌}
use bitcoin_price_tracker.Prelude.Results.{Result, ok, err}
use bitcoin_price_tracker.Models.{PresencePayload}
use bitcoin_price_tracker.Handlers.{AppState, Moment}
use bitcoin_price_tracker.Presence.{
  Presence, Admission, admitted, is_valid_session_id, active_viewer_count, apply_presence_update,
}

-- Where a handler is when the deadline of 20 seconds passes, if it does: at an await before its first
-- write, at the load of the prices after it, or at the lock of the report.
pub data Deadline : Type 0 where
  in_time at_start at_load at_report : Deadline

module _ {W : Type 0} where
  -- What `cached_prices` has written when it is dropped: it counts the viewers between the load and
  -- the lock of the report, and its guard is given back.
  abbrev pub cut_prices : Deadline → Moment W → AppState → AppState
  cut_prices at_report m s = record s { presence = (active_viewer_count m.now s.presence).0 }
  cut_prices _ m s = s

  -- An update that asks for the prices is written when their load is waited for.
  abbrev pub cut_update : Bool → Deadline → Moment W → AppState → Presence × Admission → AppState
  cut_update true at_load m s (viewing, admitted n) = record s { presence = viewing }
  cut_update true at_report m s (viewing, admitted n) =
      cut_prices at_report m (record s { presence = viewing })
  cut_update _ _ m s a = s

  abbrev pub cut_presence : Deadline → Moment W → AppState → Result ℕ PresencePayload → AppState
  cut_presence deadline m s (err rejected) = s
  cut_presence deadline m s (ok payload) =
      if not (is_valid_session_id payload.session_id)
      then s
      else cut_update (payload.active && payload.include_price) deadline m s
          (apply_presence_update s.max_viewers m.now payload s.presence)
