-- ===== src/Pricing/Bounded.antt =====
-- How much of an answer is read, and which answers are decoded.
use bitcoin_price_tracker.Prelude.{
  ℕ, ◌+◌, ◌≤◌, ◌≡◌, ◌↔◌, ◌∙◌, refl, sym, ap, true, [], ◌++◌, Option, none, some, length,
  length-append, arith, Option-cases, inl, inr,
}
use mathlib.Core.List.{append_assoc, append-nil}
use bitcoin_price_tracker.Prelude.Results.{Result, ok, err, ◌>>=◌, map_err}
use bitcoin_price_tracker.Source.{UpstreamSource}
use bitcoin_price_tracker.Errors.{ProviderError, invalid_json}
use bitcoin_price_tracker.Pricing.{Bytes, Libraries, Body, done, broken, chunk, Response}
use bitcoin_price_tracker.Pricing.Decode.{upstream_body_limit, read_body, decode_response}

-- The bytes of a body, if it arrives whole.
abbrev pub whole : {R : Type 0} → Body R → Option Bytes
whole done = some []
whole (broken error) = none
whole (chunk c rest) = elim (whole rest) [ none ↦ none | some bs ↦ some (c ++ bs) ]

module _ {R H J V W : Type 0} (lib : Libraries R H J V W) (provider : UpstreamSource) where
  read_body_sound :
      (bytes : Bytes) (body : Body R) (all : Bytes)
      → length bytes ≤ upstream_body_limit
      → read_body lib provider bytes body ≡ ok all
      → (rest : Bytes) × (whole body ≡ some rest)
        × (all ≡ bytes ++ rest)
        × (length all ≤ upstream_body_limit)
  unfolding read_body
  read_body_sound bytes done all b h = ([], refl, ground (arith, append-nil bytes), ground arith)
  read_body_sound bytes (broken error) all b h = cc
  read_body_sound bytes (chunk c rest) all b h =
      let fits : length (bytes ++ c) ≤ upstream_body_limit =
        ground (arith, length-append bytes c) in
      let (tail, w, e, l) = read_body_sound (bytes ++ c) rest all fits (ground arith) in
      (c ++ tail, ground (arith, w), e ∙ append_assoc bytes c tail, l)

  read_body-whole :
      (bytes : Bytes) (body : Body R) (rest : Bytes)
      → whole body ≡ some rest
      → length (bytes ++ rest) ≤ upstream_body_limit
      → read_body lib provider bytes body ≡ ok (bytes ++ rest)
  unfolding read_body
  read_body-whole bytes done rest w l = ground (arith, append-nil bytes)
  read_body-whole bytes (broken error) rest w l = cc
  read_body-whole bytes (chunk c more) rest w l = elim (Option-cases (whole more)) [
    | inl e ↦ ground (arith, e)
    | inr (tail, e) ↦
        let same : rest ≡ c ++ tail = ground (arith, e) in
        let longer = append_assoc bytes c tail in
        let fits : length ((bytes ++ c) ++ tail) ≤ upstream_body_limit = rw longer (rw same at l) in
        let ih = read_body-whole (bytes ++ c) more tail e fits in
        let small : length bytes + length c ≤ upstream_body_limit =
          omega (arith, length-append {0} (bytes ++ c) tail, length-append {0} bytes c, fits) in
        rw same (ground (arith, ih, longer, small))
  ]

  read_body_iff :
      (body : Body R) (all : Bytes)
      → (read_body lib provider [] body ≡ ok all)
        ↔ ((whole body ≡ some all) × (length all ≤ upstream_body_limit))
  read_body_iff body all = (
    λ h.
        let (rest, w, e, l) = read_body_sound [] body all (omega arith) h in
        (w ∙ ap some (sym e), l),
    λ h. read_body-whole [] body all h.0 h.1,
  )

  -- The whole body is small enough, and is the JSON of the value.
  abbrev pub IsDecoded : Option Bytes → V → Type 0
  IsDecoded none value = ⊥
  IsDecoded (some bytes) value =
      (length bytes ≤ upstream_body_limit) × (lib.from_slice bytes ≡ ok value)

  abbrev pub IsDeclared : Option ℕ → Type 0
  IsDeclared none = Unit
  IsDeclared (some size) = size ≤ upstream_body_limit

  IsDecoded-iff :
      (read : Result (ProviderError R J) Bytes) (body : Option Bytes) (value : V)
      → ((all : Bytes) → (read ≡ ok all) ↔ ((body ≡ some all) × (length all ≤ upstream_body_limit)))
      → ((read >>= λ bytes. map_err (invalid_json provider) (lib.from_slice bytes)) ≡ ok value)
        ↔ IsDecoded body value
  IsDecoded-iff (ok bytes) none value h = ground (arith, h bytes)
  IsDecoded-iff (ok bytes) (some all) value h = ground (arith, h bytes)
  IsDecoded-iff (err e) none value h = ground arith
  IsDecoded-iff (err e) (some all) value h = ground (arith, h all)

  IsDecoded-body_iff :
      (body : Body R) (value : V)
      → ((read_body lib provider [] body >>= λ bytes.
            map_err (invalid_json provider) (lib.from_slice bytes))
          ≡ ok value)
        ↔ IsDecoded (whole body) value
  IsDecoded-body_iff body value =
      IsDecoded-iff (read_body lib provider [] body) (whole body) value (read_body_iff body)

  -- An answer is decoded exactly when its status is a success, it declares no length or one of at
  -- most 64 KiB, its body arrives whole and has at most 64 KiB, and the body is the JSON of the value.
  pub decode_response_iff :
      (response : Response R H) (value : V)
      → (decode_response lib provider response ≡ ok value) ↔ (
          (lib.is_success response.status ≡ true)
          × IsDeclared response.content_length
          × IsDecoded (whole response.body) value)
  unfolding decode_response
  decode_response_iff response value = ground (arith, IsDecoded-body_iff response.body value)
