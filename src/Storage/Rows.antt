-- ===== src/Storage/Rows.antt =====
-- Rows and records: what is bound to a statement is what a query decodes.
use bitcoin_price_tracker.Prelude.{
  ℕ, ◌≡◌, refl, Bool, true, false, ◌&&◌, List, [], ◌∷◌, map, Option, none, some, String, arith, leb,
}
use bitcoin_price_tracker.Models.{
  QuoteKind, aggregate, StoredQuote, ErrorCategory, timeout, transport, http, invalid_payload,
  invalid_price, LastAttempt, success, failure, ProviderHealth,
}
use bitcoin_price_tracker.Storage.{
  Stored, ok, kind_text, decode_kind, category_text, decode_category, insert_sorted, sort_by_source,
}
use bitcoin_price_tracker.Storage.Write.{health_row, health_check, source_row}
use bitcoin_price_tracker.Storage.Read.{decode_all, decode_attempt, decode_health, decode_quote}

-- Every kind of quote is read back from the text that was stored for it.
pub decode_kind-kind_text : (k : QuoteKind) → decode_kind (kind_text k) ≡ ok k
unfolding decode_kind kind_text
decode_kind-kind_text aggregate = refl
decode_kind-kind_text _ = refl

decode_category-category_text :
    (c : ErrorCategory) → decode_category (some (category_text c)) ≡ ok c
unfolding decode_category category_text
decode_category-category_text timeout = refl
decode_category-category_text _ = refl

-- Whether the checks of the table admit a record: the HTTP category comes with a status from 100 to
-- 599, and no other category comes with a status.
abbrev pub is_storable_error : ErrorCategory → Option ℕ → Bool
is_storable_error http none = false
is_storable_error http (some status) = leb 100 status && leb status 599
is_storable_error _ none = true
is_storable_error _ (some status) = false

abbrev pub is_storable_attempt : LastAttempt → Bool
is_storable_attempt (failure at error) = is_storable_error error.category error.http_status
is_storable_attempt _ = true

health_check-failure :
    (source message : String) (at : _) (c : ErrorCategory) (status : Option ℕ)
    → health_check (
        health_row (record {
          source = source;
          last_attempt =
              failure at (record { category = c; message = message; http_status = status });
        }))
      ≡ is_storable_error c status
unfolding health_check health_row
health_check-failure source message at timeout none = refl
health_check-failure source message at transport none = refl
health_check-failure source message at http none = refl
health_check-failure source message at invalid_payload none = refl
health_check-failure source message at invalid_price none = refl
health_check-failure source message at timeout (some n) = ground arith
health_check-failure source message at transport (some n) = ground arith
health_check-failure source message at http (some n) = ground arith
health_check-failure source message at invalid_payload (some n) = ground arith
health_check-failure source message at invalid_price (some n) = ground arith

-- The checks of the table admit the row of a record exactly when its last attempt is unknown or a
-- success, or a failure whose category is HTTP with a status from 100 to 599, or another category
-- without a status.
pub health_check-health_row :
    (source : String) (attempt : LastAttempt)
    → health_check (health_row (record { source = source; last_attempt = attempt }))
      ≡ is_storable_attempt attempt
unfolding health_check health_row
health_check-health_row source LastAttempt.unknown = refl
health_check-health_row source (success at) = refl
health_check-health_row source (failure at error) =
    health_check-failure source error.message at error.category error.http_status

decode_attempt-health_row :
    (source : String) (attempt : LastAttempt)
    → decode_attempt (health_row (record { source = source; last_attempt = attempt })) ≡ ok attempt
unfolding decode_attempt health_row
decode_attempt-health_row source LastAttempt.unknown = refl
decode_attempt-health_row source (success at) = refl
decode_attempt-health_row source (failure at error) =
    rw (decode_category-category_text error.category)

source-health_attempt :
    (source : String) (attempt : LastAttempt)
    → (health_row (record { source = source; last_attempt = attempt })).source ≡ source
unfolding health_row
source-health_attempt source LastAttempt.unknown = refl
source-health_attempt source (success at) = refl
source-health_attempt source (failure at error) = refl

pub source-health_row : (h : ProviderHealth) → (health_row h).source ≡ h.source
source-health_row h = source-health_attempt h.source h.last_attempt

-- Every health record is read back from its row.
pub decode_health-health_row : (h : ProviderHealth) → decode_health (health_row h) ≡ ok h
unfolding decode_health
decode_health-health_row h =
    rw (decode_attempt-health_row h.source h.last_attempt) (rw (source-health_row h))

pub decode_quote-source_row :
    {W : Type 0} (id : ℕ) (q : StoredQuote W) → decode_quote (source_row id q) ≡ ok q
unfolding decode_quote
decode_quote-source_row id q = rw (decode_kind-kind_text q.quote_kind)

pub decode_all-map {ℓ κ} :
    {A : Type ℓ} {B : Type κ} (f : B → Stored A) (g : A → B)
    → ((x : A) → f (g x) ≡ ok x)
    → (xs : List A) → decode_all f (map g xs) ≡ ok xs
decode_all-map f g h [] = refl
decode_all-map f g h (x ∷ xs) = rw (h x) (rw (decode_all-map f g h xs))

-- Sorting commutes with building the rows.
module _ {A B : Type 0} (key : A → String) (key' : B → String) (g : A → B)
    (same : (x : A) → key' (g x) ≡ key x) where
  insert_sorted-map :
      (x : A) (xs : List A) → insert_sorted key' (g x) (map g xs) ≡ map g (insert_sorted key x xs)
  unfolding insert_sorted
  insert_sorted-map x [] = refl
  insert_sorted-map x (y ∷ ys) = rw (same x) (rw (same y) (ground (arith, insert_sorted-map x ys)))

  pub sort_by_source-map :
      (xs : List A) → sort_by_source key' (map g xs) ≡ map g (sort_by_source key xs)
  unfolding sort_by_source
  sort_by_source-map [] = refl
  sort_by_source-map (x ∷ xs) =
      rw (sort_by_source-map xs) (insert_sorted-map x (sort_by_source key xs))
