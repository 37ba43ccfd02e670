-- ===== src/Handlers/Activation.antt =====
-- The first viewer of an idle server.
use bitcoin_price_tracker.Prelude.{
  ℕ, ◌+◌, ◌%◌, ◌^◌, ◌<◌, ◌≡◌, ◌≢◌, refl, ap, sym, ◌∙◌, Bool, true, false, not, [], ◌∷◌, Option,
  none, some, String, arith, keep, leb, ◌==◌, if◌then◌else◌,
}
use bitcoin_price_tracker.Dict.{insert, contains_key, retain}
use bitcoin_price_tracker.Time.{Instant}
use bitcoin_price_tracker.Float.{Float64}
use bitcoin_price_tracker.Source.{all_sources, source_count}
use bitcoin_price_tracker.Models.{PresencePayload}
use bitcoin_price_tracker.Presence.{
  Presence, admitted, prune_inactive_viewers, apply_presence_update, active_viewer_count,
  recent_reason, refresh_skip_reason, is_valid_session_id, is_live,
}
use bitcoin_price_tracker.Refresh.{
  RefreshCoordinator, RefreshPlan, Begun, planned, skipped, begin, is_too_soon,
}
use bitcoin_price_tracker.Refresh.Begin.{is_ready}
use bitcoin_price_tracker.Refresh.Plans.{
  refuses, has_ready, begin-refuses_iff, begin_plan, begin_full,
}
use bitcoin_price_tracker.Handlers.{
  AppState, RefreshTask, Moment, stored_of, read_failed, fetched_age, admitted_answer,
  update_presence,
}
use bitcoin_price_tracker.Handlers.Responses.{IsBegun, cached_prices-starts_iff}

abbrev pub visit : String → PresencePayload
visit session_id = record { session_id = session_id; active = true; include_price = true }

-- The viewers after the visit: the visitor alone, and a new generation.
abbrev pub arrived : String → Instant → Presence → Presence
arrived session_id now s = record {
  viewers = (session_id, now) ∷ [];
  full_refresh_generation = (s.full_refresh_generation + 1) % 2 ^ 64;
}

full_lem : (max_viewers : ℕ) → 0 < max_viewers → leb max_viewers 0 ≡ false
full_lem max_viewers h = ground arith

apply_presence_update-visit :
    (max_viewers : ℕ) (now : Instant) (session_id : String) (s : Presence)
    → 0 < max_viewers
    → prune_inactive_viewers now s.viewers ≡ []
    → apply_presence_update max_viewers now (visit session_id) s
      ≡ (arrived session_id now s, admitted 1)
unfolding apply_presence_update prune_inactive_viewers insert contains_key
apply_presence_update-visit max_viewers now session_id s room nobody =
    rw nobody (rw (full_lem max_viewers room) refl)

live_lem : (now : Instant) → is_live now now ≡ true
live_lem now = ground arith

active_viewer_count-arrived :
    (now : Instant) (session_id : String) (s : Presence)
    → active_viewer_count now (arrived session_id now s) ≡ (arrived session_id now s, 1)
unfolding active_viewer_count retain
active_viewer_count-arrived now session_id s = rw (live_lem now) refl

-- A plan is begun where nothing stands against it.
begins :
    (now : Instant) (generation : ℕ) (c : RefreshCoordinator)
    → c.next_source < source_count
    → is_too_soon c.last_attempt now ≡ false
    → has_ready c now ≡ true
    → (c' : RefreshCoordinator) × (plan : RefreshPlan) × (begin now generation c
        ≡ (c', planned plan))
begins now generation c cursor early ready = found (begin now generation c) refl
  where
    found :
        (b : RefreshCoordinator × Begun)
        → begin now generation c ≡ b
        → (c' : RefreshCoordinator) × (plan : RefreshPlan) × (begin now generation c
            ≡ (c', planned plan))
    found (c', planned plan) e = (c', plan, e)
    found (c', skipped reason) e =
        let refused : refuses (begin now generation c).1 ≡ true = rw e refl in
        let decided = (begin-refuses_iff now generation c cursor).0 in
        let both : (if is_too_soon c.last_attempt now then true else not (has_ready c now))
            ≡ false =
          rw early (rw ready refl) in
        let bad : ◌≡◌ {A = Bool} true false = sym refused ∙ decided ∙ both in cc

moved : (g completed : ℕ) → completed ≡ g → completed < 2 ^ 64 → (g + 1) % 2 ^ 64 ≢ completed
moved g completed e h = omega arith

eq_false : (a b : ℕ) → a ≢ b → (a == b) ≡ false
eq_false a b h = ground arith

module _ {W : Type 0} ⦃f : Float64 W⦄ where
  IsBegun-free :
      (m : Moment W) (generation : ℕ) (free : Option RefreshCoordinator) (c : RefreshCoordinator)
      (task : RefreshTask W)
      → free ≡ some c
      → begin m.now generation c ≡ (task.coordinator, planned task.plan)
      → IsBegun m generation free task
  IsBegun-free m generation none c task e b = cc
  IsBegun-free m generation (some d) c task e b = let same : d ≡ c = cc in rw same b

  update_presence-answer :
      (m : Moment W) (session_id : String) (s : AppState)
      → is_valid_session_id session_id ≡ true
      → 0 < s.max_viewers
      → prune_inactive_viewers m.now s.presence.viewers ≡ []
      → update_presence m (visit session_id) s
        ≡ admitted_answer true m 1 (record s { presence = arrived session_id m.now s.presence })
  unfolding update_presence
  update_presence-answer m session_id s valid room nobody =
      rw valid (
        rw (apply_presence_update-visit s.max_viewers m.now session_id s.presence room nobody) refl)

  needed :
      (m : Moment W) (session_id : String) (s : AppState)
      → recent_reason (fetched_age (stored_of m.loaded).snapshot m.now_unix) ≡ none
      → refresh_skip_reason
          (active_viewer_count m.now (arrived session_id m.now s.presence)).1
          (fetched_age (stored_of m.loaded).snapshot m.now_unix)
        ≡ none
  unfolding refresh_skip_reason
  needed m session_id s old = rw (active_viewer_count-arrived m.now session_id s.presence) old

  -- A visitor with a valid name who comes to a server without live viewers, and asks for the prices,
  -- is admitted and starts a full refresh of every provider that is ready, if the server is not
  -- shutting down, the stored prices could be read and are not too recent, the coordinator is free, has
  -- completed the refresh of the last such visit, and its minimum interval has elapsed.
  pub update_presence-visit :
      (m : Moment W) (session_id : String) (s : AppState) (c : RefreshCoordinator)
      → is_valid_session_id session_id ≡ true
      → 0 < s.max_viewers
      → prune_inactive_viewers m.now s.presence.viewers ≡ []
      → read_failed m.loaded ≡ false
      → s.stopping ≡ false
      → recent_reason (fetched_age (stored_of m.loaded).snapshot m.now_unix) ≡ none
      → s.refresh ≡ some c
      → c.next_source < source_count
      → is_too_soon c.last_attempt m.now ≡ false
      → has_ready c m.now ≡ true
      → c.completed_generation ≡ s.presence.full_refresh_generation
      → c.completed_generation < 2 ^ 64
      → let after = update_presence m (visit session_id) s in
        (task : RefreshTask W) × (after.2 ≡ some task)
        × (task.plan.full_refresh ≡ true)
        × (task.plan.sources ≡ keep (is_ready c m.now) all_sources)
        × (after.1.status ≡ 200)
        × (after.1.body.active_viewers ≡ 1)
  update_presence-visit m session_id s c valid room nobody loaded running old free cursor early
        ready known small =
      let generation = (s.presence.full_refresh_generation + 1) % 2 ^ 64 in
      let new = moved s.presence.full_refresh_generation c.completed_generation known small in
      let (c', plan, e) = begins m.now generation c cursor early ready in
      let made : (begin m.now generation c).1 ≡ planned plan =
        ap (λ (b : RefreshCoordinator × Begun). b.1) e in
      let task : RefreshTask W = record {
        coordinator = c';
        plan = plan;
        snapshot = (stored_of m.loaded).snapshot;
      } in
      let after = record s { presence = arrived session_id m.now s.presence } in
      let starts = (cached_prices-starts_iff m after task).1 (
        loaded,
        running,
        needed m session_id s old,
        IsBegun-free m generation s.refresh c task free e,
        refl,
      ) in
      let answer = update_presence-answer m session_id s valid room nobody in
      (
        task,
        rw answer starts,
        (begin_plan m.now generation c plan made).2
            ∙ rw (eq_false generation c.completed_generation new) refl,
        begin_full m.now generation c plan made new,
        rw answer refl,
        rw answer refl,
      )
