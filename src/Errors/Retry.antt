-- ===== src/Errors/Retry.antt =====
-- `RetryAfter::parse` of src/errors.rs. `to_str` is `HeaderValue::to_str`, and `parse_http_date` is
-- the function of httpdate.
use bitcoin_price_tracker.Prelude.{
  ℕ, ◌^◌, ◌&&◌, not, List, Option, none, some, String, ltb, is_empty, all, if◌then◌else◌,
}
use bitcoin_price_tracker.Prelude.Text.{codes, trim, is_ascii_digit, decimal_from}
use bitcoin_price_tracker.Time.{SystemTime, from_secs}
use bitcoin_price_tracker.Errors.{RetryAfter, delay, at}

-- `str::parse::<u64>`, on digits only.
unfoldable pub parse_u64 : List ℕ → Option ℕ
unfolding decimal_from
parse_u64 digits =
    let value = decimal_from 0 digits in if ltb value (2 ^ 64) then some value else none

abbrev pub delay_of : Option ℕ → Option RetryAfter
delay_of none = none
delay_of (some seconds) = some (delay (from_secs seconds))

abbrev pub time_of : Option SystemTime → Option RetryAfter
time_of none = none
time_of (some time) = some (at time)

module _ {H : Type 0} (to_str : H → Option String)
    (parse_http_date : String → Option SystemTime) where
  -- `RetryAfter::parse`, on the trimmed text.
  unfoldable pub parse_text : String → Option RetryAfter
  unfolding parse_u64
  parse_text value =
      if not (is_empty (codes value)) && all is_ascii_digit (codes value)
      then delay_of (parse_u64 (codes value))
      else time_of (parse_http_date value)

  unfoldable pub parse_retry_after : H → Option RetryAfter
  unfolding parse_text trim
  parse_retry_after header = elim (to_str header) [
    | none ↦ none
    | some text ↦ parse_text (trim text)
  ]
