-- ===== src/Tests/NewsExamples.antt =====
-- The feed cache at work.
use bitcoin_price_tracker.Prelude.{◌≤◌, ◌≡◌, ◌↔◌, refl, [], ◌∷◌, ◌++◌, some, length}
use bitcoin_price_tracker.News.{
  Bytes, empty_cache, feed, failed, not_rss, news_response, finish_refresh, within_deadline, done,
  chunk, fetch_feed, max_feed_bytes, rss_tag, channel_tag,
}
use bitcoin_price_tracker.News.Cache
use bitcoin_price_tracker.News.Cache.{
  World, Reach, Step, Throttled, is_running, started, ended, cold, Reach-Throttled,
  finish_refresh_lem,
}
use bitcoin_price_tracker.News.Feed.{whole, IsRss, fetch_feed_iff}

abbrev text : Bytes
text = rss_tag ++ channel_tag

abbrev asked : World
asked = record { clock = 0; cache = (news_response 0 empty_cache).0; log = started 0 ∷ [] }

abbrev served : World
served = record {
  clock = 0;
  cache = finish_refresh (within_deadline (some (feed text))) 0 (news_response 0 empty_cache).0;
  log = ended 0 ∷ started 0 ∷ [];
}

Reach-served : Reach cold served
unfolding news_response
Reach-served =
    Cache.next (Cache.next Cache.here (Cache.request cold))
      (Cache.finish asked (some (feed text)) refl)

Reach-Throttled_example : Throttled served.log × (is_running served.log ≡ served.cache.refreshing)
Reach-Throttled_example = Reach-Throttled Reach-served

fetch_feed_example : (fetch_feed (some (chunk rss_tag (chunk channel_tag done))) ≡ feed text) ↔ (
    (whole (chunk rss_tag (chunk channel_tag done)) ≡ some text)
    × (length text ≤ max_feed_bytes)
    × IsRss text)
fetch_feed_example = fetch_feed_iff (chunk rss_tag (chunk channel_tag done)) text

-- A feed with both tags is accepted, in whatever chunks it comes; without them it is not.
fetch_two_chunks : fetch_feed (some (chunk rss_tag (chunk channel_tag done))) ≡ feed text
unfolding fetch_feed
fetch_two_chunks = refl

fetch_no_channel : fetch_feed (some (chunk rss_tag done)) ≡ failed not_rss
unfolding fetch_feed
fetch_no_channel = refl
