-- ===== src/Ui.antt =====
-- src/ui.rs: the headers of every response, and the assets with their entity tags.
pub mod Tag
pub mod Revalidation
use Prim.Native.Char.{Char, code, nul}
use text.Mathlib.Text.{◌==◌, starts_with}
use bitcoin_price_tracker.Prelude.{
  ℕ, zero, suc, ◌/◌, ◌%◌, ◌^◌, Bool, true, false, ◌&&◌, ◌||◌, List, [], ◌∷◌, Option, none, some,
  String, if◌then◌else◌, any,
}
use bitcoin_price_tracker.Prelude.{◌==◌ as eq_ℕ}
use bitcoin_price_tracker.Prelude.Results.{and_then, is_some_and}
use bitcoin_price_tracker.Prelude.Text.{trim}
use bitcoin_price_tracker.Dict.{Dict, insert}

-- `HeaderValue` of the http crate and its conversions.
pub record HeaderValues (H : Type 0) : Type 0 where
  pub from_str : String → Option H
  pub from_static : String → H
  pub to_str : H → Option String

pub record Response (H B : Type 0) : Type 0 where
  pub status : ℕ
  pub headers : Dict H
  pub body : B

abbrev pub hex_digits : String
hex_digits = "0123456789abcdef"

-- The character after `n` others.
abbrev pub char_after : ℕ → String → Char
char_after n String.[] = nul
char_after zero (String.◌∷◌ c s) = c
char_after (suc n) (String.◌∷◌ c s) = char_after n s

-- The last `k` hexadecimal digits of a number, and then `tail`.
unfoldable pub hex_from : ℕ → ℕ → String → String
hex_from zero n tail = tail
hex_from (suc k) n tail = String.◌∷◌ (char_after (n / 16 ^ k % 16) hex_digits) (hex_from k n tail)

-- `"{:016x}"` in its quotes, and `W/` before it.
abbrev pub opaque_tag : ℕ → String
opaque_tag hash = String.◌∷◌ "\"" (hex_from 16 hash "\"")

abbrev pub etag_text : ℕ → String
etag_text hash = String.◌∷◌ "W" (String.◌∷◌ "/" (opaque_tag hash))

-- `strip_prefix("W/").unwrap_or(tag)`.
abbrev pub strip_weak : String → String
strip_weak (String.◌∷◌ c (String.◌∷◌ d s)) =
    if eq_ℕ (code c) b'W' && eq_ℕ (code d) b'/' then s else String.◌∷◌ c (String.◌∷◌ d s)
strip_weak s = s

-- `trim_start_matches("W/")`.
unfoldable pub trim_weak : String → String
trim_weak (String.◌∷◌ c (String.◌∷◌ d s)) =
    let rest = trim_weak s in
    if eq_ℕ (code c) b'W' && eq_ℕ (code d) b'/' then rest else String.◌∷◌ c (String.◌∷◌ d s)
trim_weak s = s

-- `split(',')`.
abbrev pub push_char : Char → List String → List String
push_char c [] = String.◌∷◌ c String.[] ∷ []
push_char c (s ∷ rest) = String.◌∷◌ c s ∷ rest

unfoldable pub split_commas : String → List String
split_commas String.[] = "" ∷ []
split_commas (String.◌∷◌ c s) =
    let rest = split_commas s in if eq_ℕ (code c) b',' then "" ∷ rest else push_char c rest

-- Whether one entry of `If-None-Match` names the tag.
unfoldable pub tag_matches : String → String → Bool
unfolding trim
tag_matches opaque tag = trim tag == "*" || strip_weak (trim tag) == opaque

abbrev pub is_api : String → Bool
is_api path = starts_with path "/api/" || path == "/health"

abbrev pub content_security_policy : String
content_security_policy =
    "default-src 'none'; script-src 'self'; style-src 'self'; img-src 'self' data:; font-src 'self'; connect-src 'self'; object-src 'none'; base-uri 'none'; form-action 'none'; frame-ancestors 'none'"

module _ {H : Type 0} (values : HeaderValues H) where
  unfoldable pub value_matches : String → H → Bool
  unfolding split_commas tag_matches
  value_matches opaque value =
      is_some_and (λ text. any (tag_matches opaque) (split_commas text)) (values.to_str value)

  abbrev pub answer : Bool → H → String → String → Response H String
  answer true etag body content_type = record {
    status = 304;
    headers = insert "etag" etag [];
    body = "";
  }
  answer false etag body content_type = record {
    status = 200;
    headers = insert "etag" etag (("content-type", values.from_static content_type) ∷ []);
    body = body;
  }

  -- `embedded_asset`; `hash` is what the hasher of the standard library makes of the body. There is no
  -- answer where an `unwrap` fails.
  unfoldable pub embedded_asset :
      (String → ℕ) → List H → String → String → Option (Response H String)
  unfolding value_matches trim_weak hex_from insert
  embedded_asset hash request body content_type =
      and_then (values.from_str (etag_text (hash body))) (λ etag.
        and_then (values.to_str etag) (λ text.
          some (answer (any (value_matches (trim_weak text)) request) etag body content_type)))

  abbrev pub with_header : String → String → Dict H → Dict H
  with_header key value headers = insert key (values.from_static value) headers

  -- `security_headers`, on the response of the handler.
  unfoldable pub security_headers : {B : Type 0} → String → Response H B → Response H B
  unfolding insert
  security_headers path response = record response {
    headers = with_header "cache-control" (if is_api path then "no-store" else "no-cache") (
        with_header "referrer-policy" "no-referrer" (
          with_header "x-frame-options" "DENY" (
            with_header "x-content-type-options" "nosniff"
              (with_header "content-security-policy" content_security_policy response.headers))));
  }
