-- ===== src/Models/Contract.antt =====
-- The response types of docs/source-contract.md, as tests of JSON values: an object has the named
-- fields and no others.
use text.Mathlib.Text.{◌==◌}
use bitcoin_price_tracker.Prelude.{
  ℕ, ◌+◌, pos, Bool, true, false, not, ◌&&◌, ◌||◌, List, [], ◌∷◌, String, if◌then◌else◌, leb,
  length, any,
}
use bitcoin_price_tracker.Prelude.{◌==◌ as eq_ℕ}
use bitcoin_price_tracker.Models.Wire.{
  Value, null, boolean, integer, decimal, string, array, object, Items, nil, cons, Fields, end,
  field,
}

abbrev pub Check : Type 0 → Type 0
Check W = Value W → Bool

module _ {W : Type 0} where
  abbrev pub is_null : Check W
  is_null null = true
  is_null _ = false

  abbrev pub is_string : Check W
  is_string (string s) = true
  is_string _ = false

  abbrev pub is_boolean : Check W
  is_boolean (boolean b) = true
  is_boolean _ = false

  abbrev pub is_integer : Check W
  is_integer (integer n) = true
  is_integer _ = false

  abbrev pub is_natural : Check W
  is_natural (integer (pos n)) = true
  is_natural _ = false

  abbrev pub is_decimal : Check W
  is_decimal (decimal x) = true
  is_decimal _ = false

  abbrev pub is_one_of : List String → Check W
  is_one_of names (string s) = any (λ name. name == s) names
  is_one_of names _ = false

  abbrev pub is_nullable : Check W → Check W
  is_nullable check null = true
  is_nullable check v = check v

  abbrev pub all_items : Check W → Items W → Bool
  all_items check nil = true
  all_items check (cons v vs) = check v && all_items check vs

  abbrev pub is_array_of : Check W → Check W
  is_array_of check (array vs) = all_items check vs
  is_array_of check _ = false

  -- The field of a name, or null.
  abbrev pub get : String → Fields W → Value W
  get name end = null
  get name (field other v fs) = if name == other then v else get name fs

  abbrev pub has : String → Fields W → Bool
  has name end = false
  has name (field other v fs) = name == other || has name fs

  abbrev pub field_count : Fields W → ℕ
  field_count end = 0
  field_count (field name v fs) = 1 + field_count fs

  abbrev pub has_fields : List (String × (Value W → Bool)) → Fields W → Bool
  has_fields [] fs = true
  has_fields ((name, check) ∷ rest) fs = has name fs && check (get name fs) && has_fields rest fs

  abbrev pub is_object : List (String × (Value W → Bool)) → Check W
  is_object spec (object fs) = eq_ℕ (field_count fs) (length spec) && has_fields spec fs
  is_object spec _ = false

  abbrev pub at : String → Value W → Value W
  at name (object fs) = get name fs
  at name _ = null

  abbrev pub is_error_category : Check W
  is_error_category =
      is_one_of ("timeout" ∷ "transport" ∷ "http" ∷ "invalid_payload" ∷ "invalid_price" ∷ [])

  abbrev pub is_quote_kind : Check W
  is_quote_kind = is_one_of ("aggregate" ∷ "spot" ∷ "last_trade" ∷ "bid" ∷ "unknown" ∷ [])

  abbrev pub is_freshness : Check W
  is_freshness = is_one_of ("fresh" ∷ "stale" ∷ "unknown" ∷ "future" ∷ [])

  abbrev pub is_price_status : Check W
  is_price_status = is_one_of ("LIVE" ∷ "DEGRADED" ∷ "STALE" ∷ "UNAVAILABLE" ∷ [])

  abbrev pub is_error : Check W
  is_error = is_object (
      ("category", is_error_category)
      ∷ ("message", is_string)
      ∷ ("http_status", is_nullable is_natural)
      ∷ [])

  abbrev pub is_last_attempt : Check W
  is_last_attempt v =
      is_object (("outcome", is_one_of ("unknown" ∷ [])) ∷ []) v
      || is_object
          (("outcome", is_one_of ("success" ∷ [])) ∷ ("attempted_at_unix", is_integer) ∷ []) v
      || is_object
          (("outcome", is_one_of ("failure" ∷ []))
            ∷ ("attempted_at_unix", is_integer)
            ∷ ("error", is_error)
            ∷ [])
          v

  abbrev pub is_provider_health : Check W
  is_provider_health = is_object (("source", is_string) ∷ ("last_attempt", is_last_attempt) ∷ [])

  -- The table of freshness: an age is a natural number where the quote is fresh or stale, null where
  -- it is dated in the future, and one of the two where the freshness is unknown.
  abbrev pub age_matches : Value W → Check W
  age_matches age (string s) =
      if s == "fresh" || s == "stale"
      then is_natural age
      else if s == "future"
      then is_null age
      else is_nullable is_natural age
  age_matches age _ = false

  abbrev pub is_source : Check W
  is_source v =
      is_object
        (("source", is_string)
          ∷ ("price_usd", is_decimal)
          ∷ ("last_success_at_unix", is_nullable is_integer)
          ∷ ("quote_kind", is_quote_kind)
          ∷ ("age_seconds", is_nullable is_natural)
          ∷ ("freshness", is_freshness)
          ∷ [])
        v
      && age_matches (at "age_seconds" v) (at "freshness" v)

  abbrev pub item_count : Items W → ℕ
  item_count nil = 0
  item_count (cons v vs) = 1 + item_count vs

  -- The contributors are as many as the fresh sources, and no more than the configured ones.
  abbrev pub counts_match : (configured fresh contributors : Value W) → Bool
  counts_match (integer (pos configured)) (integer (pos fresh)) (array vs) =
      leb fresh configured && eq_ℕ (item_count vs) fresh
  counts_match _ _ _ = false

  abbrev pub is_coverage : Check W
  is_coverage v =
      is_object
        (("configured_source_count", is_natural)
          ∷ ("fresh_source_count", is_natural)
          ∷ ("contributing_sources", is_array_of is_string)
          ∷ [])
        v
      && counts_match (at "configured_source_count" v) (at "fresh_source_count" v)
          (at "contributing_sources" v)

  -- Without a contributor, the average and the spread are null.
  abbrev pub summaries_match : (average spread fresh : Value W) → Bool
  summaries_match average spread (integer (pos fresh)) =
      if eq_ℕ fresh 0 then is_null average && is_null spread else true
  summaries_match _ _ _ = false

  -- The flag `stale` is false only for LIVE.
  abbrev pub stale_matches : Value W → Check W
  stale_matches (boolean b) (string s) = if s == "LIVE" then not b else b
  stale_matches _ _ = false

  abbrev pub is_price_fields : Check W
  is_price_fields v =
      is_object
        (("symbol", is_one_of ("BTC" ∷ []))
          ∷ ("currency", is_one_of ("USD" ∷ []))
          ∷ ("sources", is_array_of is_source)
          ∷ ("provider_health", is_array_of is_provider_health)
          ∷ ("average_price", is_nullable is_decimal)
          ∷ ("spread", is_nullable is_decimal)
          ∷ ("status", is_price_status)
          ∷ ("coverage", is_coverage)
          ∷ ("source_max_age_seconds", is_natural)
          ∷ ("evaluated_at_unix", is_integer)
          ∷ ("fetched_at_unix", is_integer)
          ∷ ("fetched_age_seconds", is_nullable is_natural)
          ∷ ("warnings", is_array_of is_string)
          ∷ ("refresh_succeeded", is_boolean)
          ∷ ("refreshing", is_boolean)
          ∷ ("stale", is_boolean)
          ∷ ("active_viewers", is_natural)
          ∷ ("refresh_skipped_reason", is_nullable is_string)
          ∷ [])
        v

  abbrev pub is_price_response : Check W
  is_price_response v =
      is_price_fields v
      && stale_matches (at "stale" v) (at "status" v)
      && summaries_match (at "average_price" v) (at "spread" v)
          (at "fresh_source_count" (at "coverage" v))

  -- The price is there or not.
  abbrev pub is_presence_response : Check W
  is_presence_response v =
      is_object (("active_viewers", is_natural) ∷ []) v
      || is_object (("active_viewers", is_natural) ∷ ("price", is_price_response) ∷ []) v

  -- The answer to an update that is refused for want of room.
  abbrev pub is_refusal : Check W
  is_refusal = is_object (("active_viewers", is_natural) ∷ ("error", is_string) ∷ [])

  abbrev pub is_presence_answer : ℕ → Check W
  is_presence_answer status v = if eq_ℕ status 429 then is_refusal v else is_presence_response v
