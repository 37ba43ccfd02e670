-- ===== src/News/Cache.antt =====
-- The cache over time: requests, and the ends of the background tasks that they start.
use bitcoin_price_tracker.Prelude.{
  ◌+◌, ◌≤◌, ◌≡◌, refl, Bool, true, false, not, ◌&&◌, ◌||◌, List, [], ◌∷◌, Option, none, some, arith,
  if◌then◌else◌,
}
use bitcoin_price_tracker.Time.{Instant}
use bitcoin_price_tracker.News.{
  Bytes, FeedCache, Fetched, feed, failed, FetchError, refresh_interval, empty_cache, is_expired,
  status_of, news_response, finish_refresh, within_deadline,
}

-- A request is answered at once from the cache: with the feed that it holds, 503 if it holds none,
-- and marked stale if the last refresh failed or the feed has expired. It starts a task exactly if
-- the feed has expired and no task is running, and leaves the feed and its date alone.
pub news_response_lem :
    (now : Instant) (cache : FeedCache)
    → ((news_response now cache).1.body.xml ≡ cache.xml)
      × ((news_response now cache).1.status ≡ status_of cache.xml)
      × ((news_response now cache).1.body.stale ≡ (cache.stale || is_expired cache.checked_at now))
      × ((news_response now cache).1.spawned
          ≡ (is_expired cache.checked_at now && not cache.refreshing))
      × ((news_response now cache).1.retry_after ≡ (news_response now cache).0.refreshing)
      × ((news_response now cache).0
          ≡ record cache { refreshing = cache.refreshing || is_expired cache.checked_at now })
unfolding news_response
news_response_lem now cache = ground arith

-- A task ends with the new feed, or with the one that was cached before it; either way the cache is
-- dated and another task may start. Only a failure marks it stale.
pub finish_refresh_lem :
    (fetched : Option Fetched) (now : Instant) (cache : FeedCache)
    → let after = finish_refresh (within_deadline fetched) now cache in
      (after.checked_at ≡ some now)
      × (after.refreshing ≡ false)
      × ((xml : Bytes) → fetched ≡ some (feed xml) → (after.xml ≡ some xml) × (after.stale ≡ false))
      × ((e : FetchError)
          → within_deadline fetched ≡ failed e
          → (after.xml ≡ cache.xml) × (after.stale ≡ true))
unfolding finish_refresh within_deadline
finish_refresh_lem none now cache = ground arith
finish_refresh_lem (some (feed xml)) now cache = ground arith
finish_refresh_lem (some (failed e)) now cache = ground arith

pub data Event : Type 0 where
  started ended : Instant → Event

-- `log` is a record of the tasks, newest event first; the program does not keep it.
pub record World : Type 0 where
  pub clock : Instant
  pub cache : FeedCache
  pub log : List Event

abbrev pub log_start : Bool → Instant → List Event → List Event
log_start spawned now log = if spawned then started now ∷ log else log

abbrev pub is_running : List Event → Bool
is_running (started t ∷ log) = true
is_running _ = false

pub data Step : World → World → Type 0 where
  wait : (w : World) (later : Instant) → w.clock ≤ later → Step w (record w { clock = later })
  request :
      (w : World)
      → Step w (record w {
        cache = (news_response w.clock w.cache).0;
        log = log_start (news_response w.clock w.cache).1.spawned w.clock w.log;
      })
  finish :
      (w : World) (fetched : Option Fetched)
      → is_running w.log ≡ true
      → Step w (record w {
        cache = finish_refresh (within_deadline fetched) w.clock w.cache;
        log = ended w.clock ∷ w.log;
      })

pub data Reach (w : World) : World → Type 0 where
  here : Reach w w
  next : {u v : World} → Reach w u → Step u v → Reach w v

abbrev pub cold : World
cold = record { clock = 0; cache = empty_cache; log = [] }

-- Tasks never overlap, and one starts five minutes after the end of the one before, or later.
abbrev pub Throttled : List Event → Type 0
Throttled [] = Unit
Throttled (started t ∷ []) = Unit
Throttled (started t ∷ started u ∷ log) = ⊥
Throttled (started t ∷ ended u ∷ log) = (u + refresh_interval ≤ t) × Throttled (ended u ∷ log)
Throttled (ended t ∷ []) = ⊥
Throttled (ended t ∷ ended u ∷ log) = ⊥
Throttled (ended t ∷ started u ∷ log) = (u ≤ t) × Throttled (started u ∷ log)

abbrev pub newest_end : List Event → Option Instant
newest_end [] = none
newest_end (ended t ∷ log) = some t
newest_end (started t ∷ log) = newest_end log

abbrev pub NotAfter : Instant → List Event → Type 0
NotAfter clock [] = Unit
NotAfter clock (started t ∷ log) = t ≤ clock
NotAfter clock (ended t ∷ log) = t ≤ clock

pub record Inv (w : World) : Type 0 where
  pub throttled : Throttled w.log
  pub running : is_running w.log ≡ w.cache.refreshing
  pub checked : w.cache.checked_at ≡ newest_end w.log
  pub past : NotAfter w.clock w.log

NotAfter-mono : (log : List Event) (s t : Instant) → s ≤ t → NotAfter s log → NotAfter t log
NotAfter-mono [] s t h p = tt
NotAfter-mono (started u ∷ log) s t h p = omega arith
NotAfter-mono (ended u ∷ log) s t h p = omega arith

request-Inv :
    (clock : Instant) (cache : FeedCache) (log : List Event)
    → Inv (record { clock = clock; cache = cache; log = log })
    → Inv (record {
      clock = clock;
      cache = (news_response clock cache).0;
      log = log_start (news_response clock cache).1.spawned clock log;
    })
unfolding news_response
request-Inv clock cache [] i = ground arith
request-Inv clock cache (started t ∷ log) i = ground arith
request-Inv clock cache (ended t ∷ log) i = ground arith

finish-Inv :
    (clock : Instant) (cache : FeedCache) (log : List Event) (fetched : Option Fetched)
    → is_running log ≡ true
    → Inv (record { clock = clock; cache = cache; log = log })
    → Inv (record {
      clock = clock;
      cache = finish_refresh (within_deadline fetched) clock cache;
      log = ended clock ∷ log;
    })
unfolding finish_refresh within_deadline
finish-Inv clock cache [] f r i = cc
finish-Inv clock cache (started t ∷ log) none r i = ground arith
finish-Inv clock cache (started t ∷ log) (some (feed xml)) r i = ground arith
finish-Inv clock cache (started t ∷ log) (some (failed e)) r i = ground arith
finish-Inv clock cache (ended t ∷ log) f r i = cc

Step-Inv : {u v : World} → Step u v → Inv u → Inv v
Step-Inv (wait w later h) i = record {
  throttled = i.throttled;
  running = i.running;
  checked = i.checked;
  past = NotAfter-mono w.log w.clock later h i.past;
}
Step-Inv (request w) i = request-Inv w.clock w.cache w.log i
Step-Inv (finish w fetched r) i = finish-Inv w.clock w.cache w.log fetched r i

Reach-Inv : {w : World} → Reach cold w → Inv w
Reach-Inv here = record { throttled = tt; running = refl; checked = refl; past = tt }
Reach-Inv (next r s) = Step-Inv s (Reach-Inv r)

-- Whatever the requests and the outcomes, tasks never overlap, a task starts at least five minutes
-- after the end of the one before it, whether that failed or not, and the cache says whether one is
-- running.
pub Reach-Throttled :
    {w : World} → Reach cold w → Throttled w.log × (is_running w.log ≡ w.cache.refreshing)
Reach-Throttled r = let i = Reach-Inv r in (i.throttled, i.running)

-- The feed that the last successful task of a run has left, or the one from before.
abbrev pub feed_after : Fetched → Option Bytes → Option Bytes
feed_after (feed xml) before = some xml
feed_after (failed e) before = before

abbrev pub last_feed : {u v : World} → Reach u v → Option Bytes → Option Bytes
last_feed here before = before
last_feed (next r (finish w fetched h)) before =
    feed_after (within_deadline fetched) (last_feed r before)
last_feed (next r s) before = last_feed r before
