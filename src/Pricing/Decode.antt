-- ===== src/Pricing/Decode.antt =====
-- `fetch_json` and `decode_response` of src/pricing.rs: from an answer of a provider to JSON.
use bitcoin_price_tracker.Prelude.{ℕ, ◌-◌, not, [], ◌++◌, ltb, if◌then◌else◌, length}
use bitcoin_price_tracker.Prelude.Results.{Result, ok, err, ◌>>=◌, map_err, and_then, is_some_and}
use bitcoin_price_tracker.Source.{UpstreamSource}
use bitcoin_price_tracker.Errors.{
  ProviderError, ProviderErrorKind, from_reqwest, invalid_json, payload_error,
}
use bitcoin_price_tracker.Errors.Retry.{parse_retry_after}
use bitcoin_price_tracker.Pricing.{Bytes, Libraries, Body, done, broken, chunk, Response}

-- `UPSTREAM_BODY_LIMIT` of src/config.rs.
abbrev pub upstream_body_limit : ℕ
upstream_body_limit = 65536

module _ {R H J V W : Type 0} (lib : Libraries R H J V W) (provider : UpstreamSource) where
  abbrev pub oversized : ProviderError R J
  oversized = payload_error provider "response body too large"

  -- The loop over the chunks.
  unfoldable pub read_body : Bytes → Body R → Result (ProviderError R J) Bytes
  read_body body done = ok body
  read_body body (broken error) = err (from_reqwest lib.is_timeout provider error)
  read_body body (chunk c rest) =
      let more = read_body (body ++ c) rest in
      if ltb (upstream_body_limit - length body) (length c) then err oversized else more

  unfoldable pub decode_response : Response R H → Result (ProviderError R J) V
  unfolding read_body
  decode_response response =
      if not (lib.is_success response.status)
      then err (record {
        provider = provider;
        kind =
            ProviderErrorKind.http response.status
              (and_then response.retry_after (parse_retry_after lib.to_str lib.parse_http_date));
      })
      else if is_some_and (λ size. ltb upstream_body_limit size) response.content_length
      then err oversized
      else do
        body ← read_body [] response.body
        map_err (invalid_json provider) (lib.from_slice body)

  -- `fetch_json`, on the outcome of `send`.
  unfoldable pub fetch_json : Result R (Response R H) → Result (ProviderError R J) V
  unfolding decode_response
  fetch_json sent = do
    response ← map_err (from_reqwest lib.is_timeout provider) sent
    decode_response response
