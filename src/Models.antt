-- ===== src/Models.antt =====
-- The records of src/models.rs and src/models/source_contract.rs. `W` is the type of an `f64`.
pub mod Wire
pub mod Contract
pub mod Conforms
use bitcoin_price_tracker.Prelude.{ℕ, ℤ, Bool, List, Option, String}
use bitcoin_price_tracker.Time.{UnixTime}

pub data QuoteKind : Type 0 where
  aggregate spot last_trade bid unknown : QuoteKind

pub record StoredQuote (W : Type 0) : Type 0 where
  pub source : String
  pub price_usd : W
  pub last_success_at_unix : Option UnixTime
  pub quote_kind : QuoteKind

pub data ErrorCategory : Type 0 where
  timeout transport http invalid_payload invalid_price : ErrorCategory

pub record SourceError : Type 0 where
  pub category : ErrorCategory
  pub message : String
  pub http_status : Option ℕ

pub data LastAttempt : Type 0 where
  unknown : LastAttempt
  success : UnixTime → LastAttempt
  failure : UnixTime → SourceError → LastAttempt

pub record ProviderHealth : Type 0 where
  pub source : String
  pub last_attempt : LastAttempt

pub data SourceFreshness : Type 0 where
  is_fresh is_stale is_unknown is_future : SourceFreshness

pub record SourceResponse (W : Type 0) : Type 0 where
  pub quote : StoredQuote W
  pub age_seconds : Option ℤ
  pub freshness : SourceFreshness

pub data PriceStatus : Type 0 where
  live degraded stale unavailable : PriceStatus

pub record AggregateCoverage : Type 0 where
  pub configured_source_count : ℕ
  pub fresh_source_count : ℕ
  pub contributing_sources : List String

pub record SourcePrice (W : Type 0) : Type 0 where
  pub source : String
  pub price_usd : W

pub record SnapshotRecord (W : Type 0) : Type 0 where
  pub fetched_at_unix : UnixTime
  pub sources : List (StoredQuote W)
  pub average_price : Option W
  pub spread : Option W
  pub warnings : List String
  pub refreshed_source : Option String

pub record StoredPriceState (W : Type 0) : Type 0 where
  pub snapshot : Option (SnapshotRecord W)
  pub provider_health : List ProviderHealth

pub record PresencePayload : Type 0 where
  pub session_id : String
  pub active : Bool
  pub include_price : Bool

pub record PresenceResponse (P : Type 0) : Type 0 where
  pub active_viewers : ℕ
  pub price : Option P

-- `N` is the type of the reason for which no refresh was started.
pub record PriceResponse (W N : Type 0) : Type 0 where
  pub symbol : String
  pub currency : String
  pub sources : List (SourceResponse W)
  pub provider_health : List ProviderHealth
  pub average_price : Option W
  pub spread : Option W
  pub status : PriceStatus
  pub coverage : AggregateCoverage
  pub source_max_age_seconds : ℕ
  pub evaluated_at_unix : UnixTime
  pub fetched_at_unix : UnixTime
  pub fetched_age_seconds : Option ℤ
  pub warnings : List String
  pub refresh_succeeded : Bool
  pub refreshing : Bool
  pub stale : Bool
  pub active_viewers : ℕ
  pub refresh_skipped_reason : Option N
