-- ===== src/Refresh/Trace.antt =====
-- The coordinator over time. One task at a time owns it (the `refresh` mutex of src/state.rs), from
-- `begin` to `complete`; the task may also give it back without a request, when the server stops or
-- the last viewer has left (src/handlers.rs).
use bitcoin_price_tracker.Prelude.{
  ℕ, ◌+◌, ◌*◌, ◌≤◌, ◌<◌, ◌≡◌, refl, ◌∙◌, List, [], ◌∷◌, Option, none, some, arith, length, false,
}
use bitcoin_price_tracker.Time.{Instant, UnixTime}
use bitcoin_price_tracker.Source.{source_count}
use bitcoin_price_tracker.Errors.{ProviderError}
use bitcoin_price_tracker.Refresh.{
  RefreshCoordinator, RefreshPlan, planned, skipped, Skip, interval, is_too_soon, fresh, begin,
  complete,
}
use bitcoin_price_tracker.Refresh.Plans.{
  IsValid, begin-refuses_iff, begin_plan, begin_records, begin-IsValid,
}
use bitcoin_price_tracker.Refresh.Settle.{complete-frame}

-- `starts` is a record of the dispatches so far, newest first; the program does not keep it.
pub record World : Type 0 where
  pub clock : Instant
  pub coordinator : RefreshCoordinator
  pub pending : Option RefreshPlan
  pub starts : List Instant

pub data Step (R J : Type 0) (last : Instant) : World → World → Type 0 where
  wait :
      (w : World) (later : Instant) → w.clock ≤ later → Step R J last w (record w { clock = later })
  refuse :
      (w : World) (generation : ℕ) (reason : Skip)
      → w.pending ≡ none
      → (begin w.clock generation w.coordinator).1 ≡ skipped reason
      → Step R J last w (record w { coordinator = (begin w.clock generation w.coordinator).0 })
  start :
      (w : World) (generation : ℕ) (plan : RefreshPlan)
      → w.pending ≡ none
      → (begin w.clock generation w.coordinator).1 ≡ planned plan
      → Step R J last w (record w {
        coordinator = (begin w.clock generation w.coordinator).0;
        pending = some plan;
        starts = w.clock ∷ w.starts;
      })
  finish :
      (w : World) (plan : RefreshPlan) (failures : List (ProviderError R J)) (now_unix : UnixTime)
      → w.pending ≡ some plan
      → Step R J last w (record w {
        coordinator = complete last plan failures w.clock now_unix w.coordinator;
        pending = none;
      })
  abandon :
      (w : World) (plan : RefreshPlan)
      → w.pending ≡ some plan
      → Step R J last w (record w { pending = none })

pub data Reach (R J : Type 0) (last : Instant) (w : World) : World → Type 0 where
  here : Reach R J last w w
  next : {u v : World} → Reach R J last w u → Step R J last u v → Reach R J last w v

abbrev pub newest : List Instant → Option Instant
newest [] = none
newest (t ∷ ts) = some t

-- Two dispatches in a row lie at least the minimum interval apart.
abbrev pub Spaced : List Instant → Type 0
Spaced [] = Unit
Spaced (t ∷ []) = Unit
Spaced (t ∷ u ∷ ts) = (u + interval ≤ t) × Spaced (u ∷ ts)

abbrev pub NotAfter : Instant → List Instant → Type 0
NotAfter clock [] = Unit
NotAfter clock (t ∷ ts) = t ≤ clock

pub record Inv (w : World) : Type 0 where
  pub valid : IsValid w.coordinator
  pub recorded : w.coordinator.last_attempt ≡ newest w.starts
  pub spaced : Spaced w.starts
  pub past : NotAfter w.clock w.starts

NotAfter-mono : (ts : List Instant) (s t : Instant) → s ≤ t → NotAfter s ts → NotAfter t ts
NotAfter-mono [] s t h p = tt
NotAfter-mono (u ∷ ts) s t h p = omega arith

pub Spaced-cons :
    (now : Instant) (ts : List Instant)
    → is_too_soon (newest ts) now ≡ false
    → Spaced ts
    → Spaced (now ∷ ts)
Spaced-cons now [] h s = tt
Spaced-cons now (t ∷ ts) h s = ground arith

pub skipped_same :
    (now : Instant) (g : ℕ) (c : RefreshCoordinator) (reason : Skip)
    → c.next_source < source_count
    → (begin now g c).1 ≡ skipped reason
    → (begin now g c).0 ≡ c
skipped_same now g c reason v e = (begin-refuses_iff now g c v).1 (rw e)

pub Step-Inv : {R J : Type 0} {last : Instant} {u v : World} → Step R J last u v → Inv u → Inv v
Step-Inv (wait w later h) i = record {
  valid = i.valid;
  recorded = i.recorded;
  spaced = i.spaced;
  past = NotAfter-mono w.starts w.clock later h i.past;
}
Step-Inv (refuse w g reason p e) i =
    let same = skipped_same w.clock g w.coordinator reason i.valid.cursor e in rw same i
Step-Inv (start w g plan p e) i =
    let made = begin_plan w.clock g w.coordinator plan e in
    let kept = begin_records w.clock g w.coordinator plan e in
    record {
      valid = begin-IsValid w.clock g w.coordinator i.valid;
      recorded = kept.0;
      spaced = Spaced-cons w.clock w.starts (rw i.recorded at made.1) i.spaced;
      past = omega arith;
    }
Step-Inv {last = last} (finish w plan fs t p) i =
    let (cursor, same, valid) = complete-frame last w.clock t plan fs w.coordinator in
    record { valid = valid i.valid; recorded = same ∙ i.recorded; spaced = i.spaced; past = i.past }
Step-Inv (abandon w plan p) i = record {
  valid = i.valid;
  recorded = i.recorded;
  spaced = i.spaced;
  past = i.past;
}

abbrev pub cold : World
cold = record { clock = 0; coordinator = fresh; pending = none; starts = [] }

Inv-cold : Inv cold
Inv-cold = record { valid = omega arith; recorded = refl; spaced = tt; past = tt }

pub Reach-Inv : {R J : Type 0} {last : Instant} {w : World} → Reach R J last cold w → Inv w
Reach-Inv here = Inv-cold
Reach-Inv (next r s) = Step-Inv s (Reach-Inv r)

-- Whatever the requests, the outcomes and the activations, two refreshes in a row start at least the
-- minimum interval apart.
pub Reach-Spaced :
    {R J : Type 0} {last : Instant} {w : World} → Reach R J last cold w → Spaced w.starts
Reach-Spaced r = (Reach-Inv r).spaced

Spaced-length :
    (clock : Instant) (ts : List Instant)
    → Spaced ts
    → NotAfter clock ts
    → length ts * interval ≤ clock + interval
Spaced-length clock [] s p = omega arith
Spaced-length clock (t ∷ []) s p = omega arith
Spaced-length clock (t ∷ u ∷ ts) s p = omega (arith, Spaced-length u (u ∷ ts) s.1 (omega arith))

-- By a time `clock` after the start at most `1 + clock / interval` refreshes have been started.
pub Reach-count :
    {R J : Type 0} {last : Instant} {w : World}
    → Reach R J last cold w
    → length w.starts * interval ≤ w.clock + interval
Reach-count {w = w} r = let i = Reach-Inv r in Spaced-length w.clock w.starts i.spaced i.past
