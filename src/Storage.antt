-- ===== src/Storage.antt =====
-- src/storage.rs: the SQLite tables as lists of rows, and each SQL statement of the file as a function
-- on them.
pub mod Write
pub mod Read
pub mod Rows
pub mod RoundTrip
pub mod Commit
pub mod Failure
pub mod Saved
pub mod Schema
pub mod Startup
pub mod Init
use Prim.Native.Nat.{Ordering}
use Prim.Native.String.{compare}
use text.Mathlib.Text.{◌==◌}
use bitcoin_price_tracker.Prelude.{
  ℕ, suc, ◌+◌, Bool, true, false, ◌&&◌, ◌||◌, not, List, [], ◌∷◌, ◌++◌, map, Option, none, some,
  String, if◌then◌else◌, ltb, leb, any, keep, ltb_ℤ, ◌≡◌,
}
use bitcoin_price_tracker.Prelude.{◌==◌ as eq_ℕ}
use bitcoin_price_tracker.Time.{UnixTime}
use bitcoin_price_tracker.Float.{Float64}
use bitcoin_price_tracker.Models.{
  QuoteKind, aggregate, spot, last_trade, bid, StoredQuote, ErrorCategory, timeout, transport, http,
  invalid_payload, invalid_price, SourceError, LastAttempt, success, failure, ProviderHealth,
  SnapshotRecord, StoredPriceState,
}

-- Why an operation of the store fails.
pub data StoreError : Type 0 where
  invalid_source_price constraint_failed bad_warnings bad_row : StoreError

pub data Stored {ℓ} (A : Type ℓ) : Type ℓ where
  ok : A → Stored A
  err : StoreError → Stored A

infixl 5 ◌>>=◌
abbrev pub ◌>>=◌ {ℓ κ} : {A : Type ℓ} {B : Type κ} → Stored A → (A → Stored B) → Stored B
ok a >>= next = next a
err e >>= next = err e

-- A row of `price_snapshots`, `source_prices` and `provider_health`.
pub record SnapshotRow (W : Type 0) : Type 0 where
  pub id : ℕ
  pub fetched_at_unix : UnixTime
  pub average_price : Option W
  pub spread : Option W
  pub warnings_json : String
  pub refreshed_source : Option String

pub record SourceRow (W : Type 0) : Type 0 where
  pub snapshot_id : ℕ
  pub source : String
  pub price_usd : W
  pub last_success_at_unix : Option UnixTime
  pub quote_kind : String

pub record HealthRow : Type 0 where
  pub source : String
  pub attempt_outcome : String
  pub attempted_at_unix : Option UnixTime
  pub error_category : Option String
  pub error_message : Option String
  pub http_status : Option ℕ

-- `last_id` is the counter of `AUTOINCREMENT` of `price_snapshots`.
pub record Database (W : Type 0) : Type 0 where
  pub snapshots : List (SnapshotRow W)
  pub last_id : ℕ
  pub source_prices : List (SourceRow W)
  pub provider_health : List HealthRow

-- `serde_json` on a list of texts.
pub record Json : Type 0 where
  pub to_string : List String → String
  pub from_str : String → Option (List String)

-- `enum_text` and `decode_enum` at the two enumerations, which serde writes in snake case.
unfoldable pub kind_text : QuoteKind → String
kind_text aggregate = "aggregate"
kind_text spot = "spot"
kind_text last_trade = "last_trade"
kind_text bid = "bid"
kind_text QuoteKind.unknown = "unknown"

unfoldable pub decode_kind : String → Stored QuoteKind
decode_kind text =
    if text == "aggregate"
    then ok aggregate
    else if text == "spot"
    then ok spot
    else if text == "last_trade"
    then ok last_trade
    else if text == "bid"
    then ok bid
    else if text == "unknown"
    then ok QuoteKind.unknown
    else err bad_row

unfoldable pub category_text : ErrorCategory → String
category_text timeout = "timeout"
category_text transport = "transport"
category_text http = "http"
category_text invalid_payload = "invalid_payload"
category_text invalid_price = "invalid_price"

unfoldable pub decode_category : Option String → Stored ErrorCategory
decode_category none = err bad_row
decode_category (some text) =
    if text == "timeout"
    then ok timeout
    else if text == "transport"
    then ok transport
    else if text == "http"
    then ok http
    else if text == "invalid_payload"
    then ok invalid_payload
    else if text == "invalid_price"
    then ok invalid_price
    else err bad_row

-- The `ORDER BY` of the two queries: the rank of the `CASE`, then the text.
unfoldable pub source_rank : String → ℕ
source_rank source =
    if source == "CoinGecko"
    then 0
    else if source == "Coinbase"
    then 1
    else if source == "Kraken"
    then 2
    else if source == "Gemini"
    then 3
    else 99

abbrev pub is_after_text : String → String → Bool
is_after_text a b = elim (compare a b) [ Ordering.gt ↦ true | _ ↦ false ]

-- Whether `a` sorts strictly after `b`.
unfoldable pub sorts_after : String → String → Bool
unfolding source_rank
sorts_after a b =
    if eq_ℕ (source_rank a) (source_rank b)
    then is_after_text a b
    else ltb (source_rank b) (source_rank a)

module _ {A : Type 0} (key : A → String) where
  unfoldable pub insert_sorted : A → List A → List A
  insert_sorted x [] = x ∷ []
  insert_sorted x (y ∷ ys) =
      if sorts_after (key x) (key y) then y ∷ insert_sorted x ys else x ∷ y ∷ ys

  unfoldable pub sort_by_source : List A → List A
  unfolding insert_sorted
  sort_by_source [] = []
  sort_by_source (x ∷ xs) = insert_sorted x (sort_by_source xs)
