-- ===== src/Ui/Revalidation.antt =====
-- A client that has an asset asks again with the tag that it got.
use text.Mathlib.TextPositions.{eq_refl}
use bitcoin_price_tracker.Prelude.{
  ℕ, ◌≡◌, refl, Bool, true, false, List, [], ◌∷◌, ◌++◌, some, String, any, arith,
}
use bitcoin_price_tracker.Dict.{lookup, insert}
use bitcoin_price_tracker.Ui.{
  HeaderValues, Response, opaque_tag, etag_text, hex_from, trim_weak, tag_matches, value_matches,
  answer, embedded_asset, security_headers,
}
use bitcoin_price_tracker.Ui.Tag.{IsPlain, trim-IsPlain, split_commas-IsPlain, etag_text-IsPlain}

-- What http documents of its header values: visible ASCII makes one, and comes back out of it.
abbrev pub IsFaithful : {H : Type 0} → HeaderValues H → Type 0
IsFaithful {H} values =
    (s : String) → IsPlain s → (h : H) × (values.from_str s ≡ some h) × (values.to_str h ≡ some s)

trim_weak-etag_text : (n : ℕ) → trim_weak (etag_text n) ≡ opaque_tag n
unfolding trim_weak hex_from
trim_weak-etag_text n = refl

tag_matches-etag_text : (n : ℕ) → tag_matches (opaque_tag n) (etag_text n) ≡ true
unfolding tag_matches
tag_matches-etag_text n =
    rw (trim-IsPlain (etag_text n) (etag_text-IsPlain n)) (ground (arith, eq_refl (opaque_tag n)))

module _ {H : Type 0} (values : HeaderValues H) where
  value_matches-etag_text :
      (n : ℕ) (h : H)
      → values.to_str h ≡ some (etag_text n)
      → value_matches values (opaque_tag n) h ≡ true
  unfolding value_matches
  value_matches-etag_text n h e = rw e (
      rw (split_commas-IsPlain (etag_text n) (etag_text-IsPlain n))
        (ground (arith, tag_matches-etag_text n)))

  any-append : (p : H → Bool) (xs ys : List H) (h : H) → p h ≡ true → any p (xs ++ (h ∷ ys)) ≡ true
  any-append p [] ys h e = ground arith
  any-append p (x ∷ xs) ys h e = ground (arith, any-append p xs ys h e)

  -- An asset is always served, whole to a client that names no tag; and to one that sends the tag it
  -- got, in any of the lines of `If-None-Match` and whatever the others hold, the answer is 304 without
  -- a body and with the same tag, for every hash. The headers that every response gets do not hide the
  -- tag.
  pub embedded_asset-revalidates :
      IsFaithful values
      → (hash : String → ℕ) (body content_type path : String) (xs ys : List H)
      → (first second : Response H String) × (etag : H) × (embedded_asset values hash [] body
            content_type
          ≡ some first)
        × (first.status ≡ 200)
        × (first.body ≡ body)
        × (lookup "etag" (security_headers values path first).headers ≡ some etag)
        × (embedded_asset values hash (xs ++ (etag ∷ ys)) body content_type ≡ some second)
        × (second.status ≡ 304)
        × (second.body ≡ "")
        × (lookup "etag" (security_headers values path second).headers ≡ some etag)
  unfolding embedded_asset security_headers lookup insert
  embedded_asset-revalidates faithful hash body content_type path xs ys =
      let (etag, made, read) = faithful (etag_text (hash body)) (etag_text-IsPlain (hash body)) in
      let named =
        any-append (value_matches values (opaque_tag (hash body))) xs ys etag
          (value_matches-etag_text (hash body) etag read) in
      (
        answer values false etag body content_type,
        answer values true etag body content_type,
        etag,
        rw made (rw read refl),
        refl,
        refl,
        refl,
        rw made (rw read (rw (trim_weak-etag_text (hash body)) (rw named refl))),
        refl,
        refl,
        refl,
      )
