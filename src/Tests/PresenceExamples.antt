-- ===== src/Tests/PresenceExamples.antt =====
-- Viewers that come and go.
use bitcoin_price_tracker.Prelude.{ℕ, refl, true, false, [], ◌∷◌, none, String, arith, pos}
use bitcoin_price_tracker.Time.{from_secs}
use bitcoin_price_tracker.Models.{PresencePayload, SnapshotRecord}
use bitcoin_price_tracker.Dict.{contains_key, Unique}
use bitcoin_price_tracker.Presence.{Presence, apply_presence_update}
use bitcoin_price_tracker.Presence.Viewers.{IsBounded, apply_presence_update-IsBounded}

abbrev busy : Presence
busy = record { viewers = ("a", from_secs 100) ∷ []; full_refresh_generation = 1 }

abbrev arrival : String → PresencePayload
arrival id = record { session_id = id; active = true; include_price = false }

abbrev now : ℕ
now = from_secs 110

busy-Unique : Unique busy.viewers
unfolding contains_key
busy-Unique = (refl, tt)

busy-IsBounded : IsBounded 1 busy
busy-IsBounded = record { unique = busy-Unique; bounded = omega arith }

apply_presence_update-IsBounded_example :
    IsBounded 1 (apply_presence_update 1 now (arrival "b") busy).0
apply_presence_update-IsBounded_example =
    apply_presence_update-IsBounded 1 now (arrival "b") busy busy-IsBounded

abbrev stored : SnapshotRecord ℕ
stored = record {
  fetched_at_unix = pos 100;
  sources = [];
  average_price = none;
  spread = none;
  warnings = [];
  refreshed_source = none;
}
