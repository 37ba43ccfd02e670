-- ===== src/Freshness/Newest.antt =====
-- Which quote of a provider contributes: the newest of its fresh ones.
use text.Mathlib.TextEquality.{eq_iff}
use mathlib.Core.Path.{ap₂, subst}
use bitcoin_price_tracker.Prelude.{
  ◌≡◌, ◌↔◌, refl, Bool, true, false, ◌⊎◌, inl, inr, List, [], ◌∷◌, map, Option, none, some, arith,
  if◌then◌else◌, any, keep, All, Bool-cases, Option-cases,
}
use bitcoin_price_tracker.Time.{UnixTime}
use bitcoin_price_tracker.Models.{SourceResponse}
use bitcoin_price_tracker.Source.{UpstreamSource, name}
use bitcoin_price_tracker.Freshness.{
  is_fresh_tag, key_gt, key, newest_from, newest, is_fresh_from, contributor, contributors_of,
}

key_gt_trans :
    (a b c : Option UnixTime) → key_gt a b ≡ false → key_gt b c ≡ false → key_gt a c ≡ false
key_gt_trans none b c h k = refl
key_gt_trans (some s) none c h k = cc
key_gt_trans (some s) (some t) none h k = cc
key_gt_trans (some s) (some t) (some u) h k = ground arith

key_gt_asymm : (a b : Option UnixTime) → key_gt a b ≡ true → key_gt b a ≡ false
key_gt_asymm none b h = cc
key_gt_asymm (some s) none h = refl
key_gt_asymm (some s) (some t) h = ground arith

key_gt_irrefl : (a : Option UnixTime) → key_gt a a ≡ false
key_gt_irrefl none = refl
key_gt_irrefl (some t) = ground arith

module _ {W : Type 0} where
  abbrev pub Among : SourceResponse W → List (SourceResponse W) → Type 0
  Among r [] = ⊥
  Among r (s ∷ ss) = (r ≡ s) ⊎ Among r ss

  -- No quote of the list is newer than `r`.
  abbrev pub NoneNewer : SourceResponse W → List (SourceResponse W) → Type 0
  NoneNewer r = All (λ s. key_gt (key s) (key r) ≡ false)

  newest_of_two :
      (best r m : SourceResponse W) (rs : List (SourceResponse W)) (older : Bool)
      → key_gt (key best) (key r) ≡ older
      → Among m ((if older then best else r) ∷ rs) × NoneNewer m ((if older then best else r) ∷ rs)
      → Among m (best ∷ r ∷ rs) × NoneNewer m (best ∷ r ∷ rs)
  newest_of_two best r m rs true e (inl a, n) = (
    inl a,
    (n.0, (key_gt_trans (key r) (key best) (key m) (key_gt_asymm (key best) (key r) e) n.0, n.1)),
  )
  newest_of_two best r m rs true e (inr a, n) = (
    inr (inr a),
    (n.0, (key_gt_trans (key r) (key best) (key m) (key_gt_asymm (key best) (key r) e) n.0, n.1)),
  )
  newest_of_two best r m rs false e (a, n) =
      (inr a, (key_gt_trans (key best) (key r) (key m) e n.0, (n.0, n.1)))

  newest_from_lem :
      (best : SourceResponse W) (rs : List (SourceResponse W))
      → Among (newest_from best rs) (best ∷ rs) × NoneNewer (newest_from best rs) (best ∷ rs)
  unfolding newest_from
  newest_from_lem best [] = (inl refl, (key_gt_irrefl (key best), tt))
  newest_from_lem best (r ∷ rs) =
      newest_of_two best r _ rs (key_gt (key best) (key r)) refl
        (newest_from_lem (if key_gt (key best) (key r) then best else r) rs)

  Among-cons :
      (p : SourceResponse W → Bool) (m r : SourceResponse W) (ks rs : List (SourceResponse W))
      → (Among m ks → Among m rs × (p m ≡ true))
      → p r ≡ true
      → Among m (r ∷ ks)
      → Among m (r ∷ rs) × (p m ≡ true)
  Among-cons p m r ks rs ih h (inl e) = (inl e, rw e h)
  Among-cons p m r ks rs ih h (inr a) = let (b, q) = ih a in (inr b, q)

  Among-keep :
      (p : SourceResponse W → Bool) (m : SourceResponse W) (rs : List (SourceResponse W))
      → Among m (keep p rs)
      → Among m rs × (p m ≡ true)
  Among-keep p m [] a = absurd a
  Among-keep p m (r ∷ rs) a = elim (Bool-cases (p r)) [
    | inl kept ↦ Among-cons p m r (keep p rs) rs (Among-keep p m rs) kept (rw kept at a)
    | inr dropped ↦ let (b, q) = Among-keep p m rs (rw dropped at a) in (inr b, q)
  ]

  -- The filter has dropped nothing that passes its test.
  abbrev pub NoneNewerOf :
      (SourceResponse W → Bool) → SourceResponse W → List (SourceResponse W) → Type 0
  NoneNewerOf p m [] = Unit
  NoneNewerOf p m (r ∷ rs) = (p r ≡ true → key_gt (key r) (key m) ≡ false) × NoneNewerOf p m rs

  NoneNewer-keep :
      (p : SourceResponse W → Bool) (m : SourceResponse W) (rs : List (SourceResponse W))
      → NoneNewer m (keep p rs)
      → NoneNewerOf p m rs
  NoneNewer-keep p m [] n = tt
  NoneNewer-keep p m (r ∷ rs) n = elim (Bool-cases (p r)) [
    | inl kept ↦
        let m' : NoneNewer m (r ∷ keep p rs) = rw kept at n in
        (λ h. m'.0, NoneNewer-keep p m rs m'.1)
    | inr dropped ↦ (λ h. cc, NoneNewer-keep p m rs (rw dropped at n))
  ]

  newest-some :
      (rs : List (SourceResponse W)) (m : SourceResponse W)
      → newest rs ≡ some m
      → Among m rs × NoneNewer m rs
  unfolding newest
  newest-some [] m h = cc
  newest-some (r ∷ rs) m h =
      let e : newest_from r rs ≡ m = ground arith in
      subst (λ x. Among x (r ∷ rs) × NoneNewer x (r ∷ rs)) e (newest_from_lem r rs)

  -- The quote that a provider contributes is one of the stored ones, is of that provider and fresh,
  -- and no other fresh quote of the provider is newer.
  pub contributor_newest :
      (sources : List (SourceResponse W)) (p : UpstreamSource) (m : SourceResponse W)
      → contributor sources p ≡ some m
      → Among m sources
        × (m.quote.source ≡ name p)
        × (is_fresh_tag m.freshness ≡ true)
        × NoneNewerOf (is_fresh_from p) m sources
  unfolding contributor
  contributor_newest sources p m h =
      let (a, n) = newest-some (keep (is_fresh_from p) sources) m h in
      let (b, q) = Among-keep (is_fresh_from p) m sources a in
      (
        b,
        ground (arith, eq_iff m.quote.source (name p)),
        ground arith,
        NoneNewer-keep (is_fresh_from p) m sources n,
      )

  pub contributor-none_iff :
      (sources : List (SourceResponse W)) (p : UpstreamSource)
      → (contributor sources p ≡ none) ↔ (any (is_fresh_from p) sources ≡ false)
  unfolding contributor newest
  contributor-none_iff [] p = ground arith
  contributor-none_iff (r ∷ sources) p = ground (arith, contributor-none_iff sources p)

  pub contributors_of-names :
      (sources : List (SourceResponse W)) (ps : List UpstreamSource)
      → map (λ r. r.quote.source) (contributors_of sources ps)
        ≡ map name (keep (λ p. any (is_fresh_from p) sources) ps)
  unfolding contributors_of
  contributors_of-names sources [] = refl
  contributors_of-names sources (p ∷ ps) = elim (Option-cases (contributor sources p)) [
    | inl e ↦ rw e (rw ((contributor-none_iff sources p).0 e) (contributors_of-names sources ps))
    | inr (m, e) ↦
        let found : any (is_fresh_from p) sources ≡ true =
          ground (arith, e, contributor-none_iff sources p) in
        let own = (contributor_newest sources p m e).1 in
        rw e (rw found (ap₂ ◌∷◌ own (contributors_of-names sources ps)))
  ]
