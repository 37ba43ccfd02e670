-- ===== src/Errors.antt =====
-- src/errors.rs: why a provider request failed. The two foreign error types, `reqwest::Error` (`R`)
-- and `serde_json::Error` (`J`), are parameters.
pub mod Health
pub mod Retry
use Prim.Native.String.{◌++◌}
use bitcoin_price_tracker.Prelude.{ℕ, ◌/◌, String, Bool, Option, none, some, if◌then◌else◌}
use bitcoin_price_tracker.Time.{Duration, SystemTime}
use bitcoin_price_tracker.Source.{UpstreamSource, name}
use bitcoin_price_tracker.Models.{ErrorCategory, SourceError}

pub data RetryAfter : Type 0 where
  delay : Duration → RetryAfter
  at : SystemTime → RetryAfter

pub data ProviderErrorKind (R J : Type 0) : Type 0 where
  timeout : R → ProviderErrorKind R J
  transport : R → ProviderErrorKind R J
  http : ℕ → Option RetryAfter → ProviderErrorKind R J
  invalid_payload : String → Option J → ProviderErrorKind R J
  invalid_price : String → String → ProviderErrorKind R J

pub record ProviderError (R J : Type 0) : Type 0 where
  pub provider : UpstreamSource
  pub kind : ProviderErrorKind R J

module _ {R J : Type 0} where
  -- `from_reqwest`, where `is_timeout` is `reqwest::Error::is_timeout`.
  abbrev pub from_reqwest : (R → Bool) → UpstreamSource → R → ProviderError R J
  from_reqwest is_timeout provider error = record {
    provider = provider;
    kind = if is_timeout error then timeout error else transport error;
  }

  abbrev pub invalid_json : UpstreamSource → J → ProviderError R J
  invalid_json provider cause = record {
    provider = provider;
    kind = invalid_payload "invalid JSON" (some cause);
  }

  abbrev pub payload_error : UpstreamSource → String → ProviderError R J
  payload_error provider reason = record { provider = provider; kind = invalid_payload reason none }

  abbrev pub price_error : UpstreamSource → String → String → ProviderError R J
  price_error provider field reason = record {
    provider = provider;
    kind = invalid_price field reason;
  }

  abbrev pub category_of : ProviderErrorKind R J → ErrorCategory
  category_of (timeout e) = ErrorCategory.timeout
  category_of (transport e) = ErrorCategory.transport
  category_of (http status retry_after) = ErrorCategory.http
  category_of (invalid_payload reason cause) = ErrorCategory.invalid_payload
  category_of (invalid_price field reason) = ErrorCategory.invalid_price

  abbrev pub status_of_kind : ProviderErrorKind R J → Option ℕ
  status_of_kind (http status retry_after) = some status
  status_of_kind _ = none

-- The texts of foreign values: `StatusCode`, a `u64` and an HTTP date.
pub record Texts : Type 0 where
  pub of_status : ℕ → String
  pub of_u64 : ℕ → String
  pub of_date : SystemTime → String

module _ (texts : Texts) where
  abbrev pub retry_text : Option RetryAfter → String
  retry_text none = ""
  retry_text (some (delay d)) = "; retry after " ++ texts.of_u64 (d / 1_000_000_000) ++ "s"
  retry_text (some (at time)) = "; retry at " ++ texts.of_date time

  abbrev pub kind_display : {R J : Type 0} → ProviderErrorKind R J → String
  kind_display (timeout e) = "request timed out"
  kind_display (transport e) = "request failed"
  kind_display (http status retry_after) =
      "HTTP error: " ++ texts.of_status status ++ retry_text retry_after
  kind_display (invalid_payload reason cause) = "response invalid: " ++ reason
  kind_display (invalid_price field reason) = "price invalid at " ++ field ++ ": " ++ reason

  -- The `Display` of a provider error.
  abbrev pub display : {R J : Type 0} → ProviderError R J → String
  display e = name e.provider ++ " " ++ kind_display e.kind

  unfoldable pub health_error : {R J : Type 0} → ProviderError R J → SourceError
  health_error e = record {
    category = category_of e.kind;
    message = display e;
    http_status = status_of_kind e.kind;
  }
