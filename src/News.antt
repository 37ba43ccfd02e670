-- ===== src/News.antt =====
-- src/news.rs: the cached Bitcoin feed, refreshed by at most one background task at a time. A text is
-- the list of its UTF-8 bytes.
pub mod Cache
pub mod Feed
use bitcoin_price_tracker.Prelude.{
  ℕ, zero, suc, ◌+◌, ◌-◌, ◌*◌, Bool, true, false, ◌&&◌, ◌||◌, not, List, [], ◌∷◌, ◌++◌, Option,
  none, some, ltb, leb, ◌==◌, if◌then◌else◌, length,
}
use bitcoin_price_tracker.Time.{Instant, Duration, from_secs, saturating_duration_since}

abbrev pub Bytes : Type 0
Bytes = List ℕ

abbrev pub refresh_interval : Duration
refresh_interval = from_secs 300

abbrev pub max_feed_bytes : ℕ
max_feed_bytes = 2 * 1024 * 1024

pub record FeedCache : Type 0 where
  pub checked_at : Option Instant
  pub xml : Option Bytes
  pub stale : Bool
  pub refreshing : Bool

-- `FeedCache::default()`.
abbrev pub empty_cache : FeedCache
empty_cache = record { checked_at = none; xml = none; stale = false; refreshing = false }

pub record FeedResponse : Type 0 where
  pub xml : Option Bytes
  pub stale : Bool
  pub refreshing : Bool

-- The status code, whether `retry-after` is sent, and the body; and whether a task was spawned.
pub record Answer : Type 0 where
  pub status : ℕ
  pub retry_after : Bool
  pub body : FeedResponse
  pub spawned : Bool

abbrev pub is_expired : Option Instant → Instant → Bool
is_expired none now = true
is_expired (some at) now = leb refresh_interval (saturating_duration_since now at)

abbrev pub status_of : Option Bytes → ℕ
status_of none = 503
status_of (some xml) = 200

-- `news_response`, under the lock of the cache.
unfoldable pub news_response : Instant → FeedCache → FeedCache × Answer
news_response now cache =
    let expired = is_expired cache.checked_at now in
    let spawned = expired && not cache.refreshing in
    let refreshing = spawned || cache.refreshing in
    (
      record cache { refreshing = refreshing },
      record {
        status = status_of cache.xml;
        retry_after = refreshing;
        body = record { xml = cache.xml; stale = cache.stale || expired; refreshing = refreshing };
        spawned = spawned;
      },
    )

-- Why a refresh failed: the request (an unsuccessful status, or no answer), a chunk, the size, the
-- encoding, the content, or the deadline of the whole task.
pub data FetchError : Type 0 where
  request_failed chunk_failed too_large not_utf8 not_rss deadline_exceeded : FetchError

-- The result of a fetch: the feed, or one of the errors, the deadline of the task among them.
pub data Fetched : Type 0 where
  feed : Bytes → Fetched
  failed : FetchError → Fetched

-- The end of the background task, under the lock of the cache.
unfoldable pub finish_refresh : Fetched → Instant → FeedCache → FeedCache
finish_refresh (feed xml) now cache = record {
  checked_at = some now;
  xml = some xml;
  stale = false;
  refreshing = false;
}
finish_refresh (failed error) now cache = record cache {
  checked_at = some now;
  stale = true;
  refreshing = false;
}

-- UTF-8, as `String::from_utf8` checks it: how many bytes of a character are missing, and the range
-- of the next one.
pub data Utf8 : Type 0 where
  between : Utf8
  within : ℕ → ℕ → ℕ → Utf8
  invalid : Utf8

abbrev pub in_range : ℕ → ℕ → ℕ → Bool
in_range lo hi b = leb lo b && leb b hi

unfoldable pub utf8_lead : ℕ → Utf8
utf8_lead b =
    if ltb b 0x80
    then between
    else if in_range 0xc2 0xdf b
    then within 0 0x80 0xbf
    else if b == 0xe0
    then within 1 0xa0 0xbf
    else if b == 0xed
    then within 1 0x80 0x9f
    else if in_range 0xe1 0xef b
    then within 1 0x80 0xbf
    else if b == 0xf0
    then within 2 0x90 0xbf
    else if in_range 0xf1 0xf3 b
    then within 2 0x80 0xbf
    else if b == 0xf4
    then within 2 0x80 0x8f
    else invalid

unfoldable pub utf8_step : Utf8 → ℕ → Utf8
unfolding utf8_lead
utf8_step between b = utf8_lead b
utf8_step (within zero lo hi) b = if in_range lo hi b then between else invalid
utf8_step (within (suc n) lo hi) b = if in_range lo hi b then within n 0x80 0xbf else invalid
utf8_step invalid b = invalid

unfoldable pub is_utf8_from : Utf8 → Bytes → Bool
unfolding utf8_step
is_utf8_from between [] = true
is_utf8_from (within n lo hi) [] = false
is_utf8_from invalid [] = false
is_utf8_from state (b ∷ bs) = is_utf8_from (utf8_step state b) bs

-- `str::contains`.
unfoldable pub starts_with : Bytes → Bytes → Bool
starts_with [] text = true
starts_with (p ∷ ps) [] = false
starts_with (p ∷ ps) (b ∷ bs) = p == b && starts_with ps bs

unfoldable pub contains : Bytes → Bytes → Bool
unfolding starts_with
contains pattern [] = starts_with pattern []
contains pattern (b ∷ bs) = starts_with pattern (b ∷ bs) || contains pattern bs

abbrev pub rss_tag : Bytes
rss_tag = b'<' ∷ b'r' ∷ b's' ∷ b's' ∷ []

abbrev pub channel_tag : Bytes
channel_tag = b'<' ∷ b'c' ∷ b'h' ∷ b'a' ∷ b'n' ∷ b'n' ∷ b'e' ∷ b'l' ∷ []

-- What `reqwest` hands over for a body: chunks, and perhaps an error that ends it.
pub data Body : Type 0 where
  done : Body
  broken : Body
  chunk : Bytes → Body → Body

-- The loop of `fetch_feed` over the chunks.
unfoldable pub read_feed : Bytes → Body → Fetched
read_feed bytes done = feed bytes
read_feed bytes broken = failed chunk_failed
read_feed bytes (chunk c rest) =
    let more = read_feed (bytes ++ c) rest in
    if ltb max_feed_bytes (length bytes + length c) then failed too_large else more

-- The tests of `fetch_feed` on the whole body.
unfoldable pub accept_feed : Fetched → Fetched
unfolding is_utf8_from contains
accept_feed (failed error) = failed error
accept_feed (feed bytes) =
    if not (is_utf8_from between bytes)
    then failed not_utf8
    else if not (contains rss_tag bytes) || not (contains channel_tag bytes)
    then failed not_rss
    else feed bytes

-- `fetch_feed`, on the outcome of `send` and `error_for_status`: `none`, or the body.
unfoldable pub fetch_feed : Option Body → Fetched
unfolding read_feed accept_feed
fetch_feed none = failed request_failed
fetch_feed (some body) = accept_feed (read_feed [] body)

-- The result that the task goes on with: that of the fetch, or none if the deadline came first.
unfoldable pub within_deadline : Option Fetched → Fetched
within_deadline none = failed deadline_exceeded
within_deadline (some fetched) = fetched
