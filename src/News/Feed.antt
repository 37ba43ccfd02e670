-- ===== src/News/Feed.antt =====
-- What a fetched feed is known to be.
use bitcoin_price_tracker.Prelude.{
  ◌+◌, ◌≤◌, ◌≡◌, refl, sym, ap, ◌∙◌, true, [], ◌++◌, Option, none, some, arith, length,
  length-append, Option-cases, inl, inr, ◌↔◌,
}
use mathlib.Core.List.{append_assoc, append-nil}
use bitcoin_price_tracker.News.{
  Bytes, Body, done, broken, chunk, Fetched, feed, failed, max_feed_bytes, read_feed, accept_feed,
  fetch_feed, is_utf8_from, between, contains, rss_tag, channel_tag,
}

-- The bytes of a body, if it arrives whole.
abbrev pub whole : Body → Option Bytes
whole done = some []
whole broken = none
whole (chunk c rest) = elim (whole rest) [ none ↦ none | some bs ↦ some (c ++ bs) ]

read_feed_lem :
    (bytes : Bytes) (body : Body) (xml : Bytes)
    → length bytes ≤ max_feed_bytes
    → read_feed bytes body ≡ feed xml
    → (rest : Bytes) × (whole body ≡ some rest)
      × (xml ≡ bytes ++ rest)
      × (length xml ≤ max_feed_bytes)
unfolding read_feed
read_feed_lem bytes done xml b h = ([], refl, ground (arith, append-nil bytes), ground arith)
read_feed_lem bytes broken xml b h = cc
read_feed_lem bytes (chunk c rest) xml b h =
    let fits : length (bytes ++ c) ≤ max_feed_bytes = ground (arith, length-append bytes c) in
    let (tail, w, e, l) = read_feed_lem (bytes ++ c) rest xml fits (ground arith) in
    (c ++ tail, ground (arith, w), e ∙ append_assoc bytes c tail, l)

read_feed-whole :
    (bytes : Bytes) (body : Body) (rest : Bytes)
    → whole body ≡ some rest
    → length (bytes ++ rest) ≤ max_feed_bytes
    → read_feed bytes body ≡ feed (bytes ++ rest)
unfolding read_feed
read_feed-whole bytes done rest w l = ground (arith, append-nil bytes)
read_feed-whole bytes broken rest w l = cc
read_feed-whole bytes (chunk c more) rest w l = elim (Option-cases (whole more)) [
  | inl e ↦ ground (arith, e)
  | inr (tail, e) ↦
      let same : rest ≡ c ++ tail = ground (arith, e) in
      let longer = append_assoc bytes c tail in
      let fits : length ((bytes ++ c) ++ tail) ≤ max_feed_bytes = rw longer (rw same at l) in
      let ih = read_feed-whole (bytes ++ c) more tail e fits in
      let small : length bytes + length c ≤ max_feed_bytes =
        omega (arith, length-append {0} (bytes ++ c) tail, length-append {0} bytes c, fits) in
      rw same (ground (arith, ih, longer, small))
]

-- The tests on a whole body.
abbrev pub IsRss : Bytes → Type 0
IsRss xml =
    (is_utf8_from between xml ≡ true)
    × (contains rss_tag xml ≡ true)
    × (contains channel_tag xml ≡ true)

accept_feed_iff :
    (fetched : Fetched) (xml : Bytes)
    → (accept_feed fetched ≡ feed xml) ↔ ((fetched ≡ feed xml) × IsRss xml)
accept_feed_iff (feed bytes) xml =
    (λ h. unfold accept_feed in ground arith, λ h. unfold accept_feed in ground arith)
accept_feed_iff (failed error) xml =
    (λ h. unfold accept_feed in ground arith, λ h. unfold accept_feed in ground arith)

-- A body is served as a feed exactly when it arrives whole, has at most 2 MiB, is UTF-8, and
-- contains both tags; and then it is served unchanged.
pub fetch_feed_iff :
    (body : Body) (xml : Bytes)
    → (fetch_feed (some body) ≡ feed xml)
      ↔ ((whole body ≡ some xml) × (length xml ≤ max_feed_bytes) × IsRss xml)
unfolding fetch_feed
fetch_feed_iff body xml = (
  λ h.
      let (read, rss) = (accept_feed_iff (read_feed [] body) xml).0 h in
      let (rest, w, e, l) = read_feed_lem [] body xml (omega arith) read in
      (w ∙ ap some (sym e), l, rss),
  λ h. (accept_feed_iff (read_feed [] body) xml).1 (read_feed-whole [] body xml h.0 h.1, h.2),
)
