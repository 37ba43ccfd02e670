-- ===== src/Models/Wire.antt =====
-- The JSON values of src/models.rs and src/models/source_contract.rs, by the attributes from which serde
-- derives them: the names of fields and variants, the flattened quote, the tagged attempt and the
-- price that may be left out. As serde_json documents, `None` and a number that is not finite are
-- null.
use bitcoin_price_tracker.Prelude.{
  ℕ, ℤ, pos, Bool, List, [], ◌∷◌, ◌++◌, map, Option, none, some, String, if◌then◌else◌,
}
use bitcoin_price_tracker.Float.{Float64}
use bitcoin_price_tracker.Models.{
  QuoteKind, aggregate, spot, last_trade, bid, StoredQuote, ErrorCategory, timeout, transport, http,
  invalid_payload, invalid_price, SourceError, LastAttempt, ProviderHealth, SourceFreshness,
  is_fresh, is_stale, is_unknown, is_future, SourceResponse, PriceStatus, live, degraded, stale,
  unavailable, AggregateCoverage, PriceResponse, PresenceResponse,
}

mutual
  pub data Value (W : Type 0) : Type 0 where
    null : Value W
    boolean : Bool → Value W
    integer : ℤ → Value W
    decimal : W → Value W
    string : String → Value W
    array : Items W → Value W
    object : Fields W → Value W

  pub data Items (W : Type 0) : Type 0 where
    nil : Items W
    cons : Value W → Items W → Items W

  pub data Fields (W : Type 0) : Type 0 where
    end : Fields W
    field : String → Value W → Fields W → Fields W

module _ {W : Type 0} where
  abbrev pub items_of : List (Value W) → Items W
  items_of [] = nil
  items_of (v ∷ vs) = cons v (items_of vs)

  abbrev pub fields_of : List (String × Value W) → Fields W
  fields_of [] = end
  fields_of ((name, v) ∷ fs) = field name v (fields_of fs)

  abbrev pub or_null : {A : Type 0} → (A → Value W) → Option A → Value W
  or_null f none = null
  or_null f (some x) = f x

  abbrev pub natural : ℕ → Value W
  natural n = integer (pos n)

abbrev pub quote_kind_name : QuoteKind → String
quote_kind_name aggregate = "aggregate"
quote_kind_name spot = "spot"
quote_kind_name last_trade = "last_trade"
quote_kind_name bid = "bid"
quote_kind_name QuoteKind.unknown = "unknown"

abbrev pub error_category_name : ErrorCategory → String
error_category_name timeout = "timeout"
error_category_name transport = "transport"
error_category_name http = "http"
error_category_name invalid_payload = "invalid_payload"
error_category_name invalid_price = "invalid_price"

abbrev pub freshness_name : SourceFreshness → String
freshness_name is_fresh = "fresh"
freshness_name is_stale = "stale"
freshness_name is_unknown = "unknown"
freshness_name is_future = "future"

abbrev pub price_status_name : PriceStatus → String
price_status_name live = "LIVE"
price_status_name degraded = "DEGRADED"
price_status_name stale = "STALE"
price_status_name unavailable = "UNAVAILABLE"

module _ {W : Type 0} where
  abbrev pub source_error_value : SourceError → Value W
  source_error_value e = object (
      fields_of (
        ("category", string (error_category_name e.category))
        ∷ ("message", string e.message)
        ∷ ("http_status", or_null natural e.http_status)
        ∷ []))

  abbrev pub last_attempt_value : LastAttempt → Value W
  last_attempt_value LastAttempt.unknown = object (fields_of (("outcome", string "unknown") ∷ []))
  last_attempt_value (LastAttempt.success at) =
      object (fields_of (("outcome", string "success") ∷ ("attempted_at_unix", integer at) ∷ []))
  last_attempt_value (LastAttempt.failure at e) = object (
      fields_of (
        ("outcome", string "failure")
        ∷ ("attempted_at_unix", integer at)
        ∷ ("error", source_error_value e)
        ∷ []))

  abbrev pub provider_health_value : ProviderHealth → Value W
  provider_health_value h = object (
      fields_of
        (("source", string h.source) ∷ ("last_attempt", last_attempt_value h.last_attempt) ∷ []))

  abbrev pub coverage_value : AggregateCoverage → Value W
  coverage_value c = object (
      fields_of (
        ("configured_source_count", natural c.configured_source_count)
        ∷ ("fresh_source_count", natural c.fresh_source_count)
        ∷ ("contributing_sources", array (items_of (map string c.contributing_sources)))
        ∷ []))

module _ {W : Type 0} ⦃f : Float64 W⦄ where
  abbrev pub number : W → Value W
  number x = if f.is_finite x then decimal x else null

  abbrev pub stored_quote_fields : StoredQuote W → List (String × Value W)
  stored_quote_fields q =
      ("source", string q.source)
      ∷ ("price_usd", number q.price_usd)
      ∷ ("last_success_at_unix", or_null integer q.last_success_at_unix)
      ∷ ("quote_kind", string (quote_kind_name q.quote_kind))
      ∷ []

  -- The quote is flattened.
  abbrev pub source_response_value : SourceResponse W → Value W
  source_response_value r = object (
      fields_of (
        stored_quote_fields r.quote
        ++ ("age_seconds", or_null integer r.age_seconds)
          ∷ ("freshness", string (freshness_name r.freshness))
          ∷ []))

  module _ {N : Type 0} (reason_text : N → String) where
    abbrev pub price_response_value : PriceResponse W N → Value W
    price_response_value r = object (
        fields_of (
          ("symbol", string r.symbol)
          ∷ ("currency", string r.currency)
          ∷ ("sources", array (items_of (map source_response_value r.sources)))
          ∷ ("provider_health", array (items_of (map provider_health_value r.provider_health)))
          ∷ ("average_price", or_null number r.average_price)
          ∷ ("spread", or_null number r.spread)
          ∷ ("status", string (price_status_name r.status))
          ∷ ("coverage", coverage_value r.coverage)
          ∷ ("source_max_age_seconds", natural r.source_max_age_seconds)
          ∷ ("evaluated_at_unix", integer r.evaluated_at_unix)
          ∷ ("fetched_at_unix", integer r.fetched_at_unix)
          ∷ ("fetched_age_seconds", or_null integer r.fetched_age_seconds)
          ∷ ("warnings", array (items_of (map string r.warnings)))
          ∷ ("refresh_succeeded", boolean r.refresh_succeeded)
          ∷ ("refreshing", boolean r.refreshing)
          ∷ ("stale", boolean r.stale)
          ∷ ("active_viewers", natural r.active_viewers)
          ∷ (
            "refresh_skipped_reason",
            or_null (λ n. string (reason_text n)) r.refresh_skipped_reason,
          )
          ∷ []))

    -- A price that is not there is left out.
    abbrev pub price_fields : Option (PriceResponse W N) → List (String × Value W)
    price_fields none = []
    price_fields (some r) = ("price", price_response_value r) ∷ []

    abbrev pub presence_response_value : PresenceResponse (PriceResponse W N) → Value W
    presence_response_value r =
        object (fields_of (("active_viewers", natural r.active_viewers) ∷ price_fields r.price))

    -- With an error, the `json!` value of the handler, which has no price.
    abbrev pub presence_value : PresenceResponse (PriceResponse W N) → Option String → Value W
    presence_value r none = presence_response_value r
    presence_value r (some error) =
        object
          (fields_of (("active_viewers", natural r.active_viewers) ∷ ("error", string error) ∷ []))
