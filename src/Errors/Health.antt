-- ===== src/Errors/Health.antt =====
-- The health records that src/errors.rs makes, against the checks of src/storage.rs.
use bitcoin_price_tracker.Prelude.{◌≤◌, ◌≡◌, true, String, arith, ◌↔◌}
use bitcoin_price_tracker.Time.{UnixTime}
use bitcoin_price_tracker.Models.{failure}
use bitcoin_price_tracker.Errors.{
  ProviderErrorKind, timeout, transport, http, invalid_payload, invalid_price, ProviderError, Texts,
  health_error, status_of_kind, category_of,
}
use bitcoin_price_tracker.Storage.Write.{health_check, health_row}
use bitcoin_price_tracker.Storage.Rows.{health_check-health_row, is_storable_error}

-- The status of an HTTP failure is one that the table of health records admits.
abbrev pub HasStoredStatus : {R J : Type 0} → ProviderErrorKind R J → Type 0
HasStoredStatus (http status retry_after) = (100 ≤ status) × (status ≤ 599)
HasStoredStatus _ = Unit

pub storable_iff :
    {R J : Type 0} (kind : ProviderErrorKind R J)
    → (is_storable_error (category_of kind) (status_of_kind kind) ≡ true) ↔ HasStoredStatus kind
storable_iff (timeout e) = ground arith
storable_iff (transport e) = ground arith
storable_iff (http status retry_after) = ground arith
storable_iff (invalid_payload reason cause) = ground arith
storable_iff (invalid_price field reason) = ground arith

-- The health record of a provider error passes the checks of the table exactly when the error is not
-- an HTTP error, or its status is from 100 to 599.
pub health_check-health_error :
    (texts : Texts) {R J : Type 0} (e : ProviderError R J) (source : String) (at : UnixTime)
    → (health_check (
          health_row (record { source = source; last_attempt = failure at (health_error texts e) }))
        ≡ true)
      ↔ HasStoredStatus e.kind
unfolding health_error
health_check-health_error texts e source at =
    rw (health_check-health_row source (failure at (health_error texts e))) (storable_iff e.kind)
