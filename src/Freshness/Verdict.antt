-- ===== src/Freshness/Verdict.antt =====
-- What the status of an evaluation says of the stored quotes and of the health records.
use text.Mathlib.Text.{◌==◌}
use bitcoin_price_tracker.Prelude.{
  ◌≡◌, ◌↔◌, ◌⊎◌, refl, Bool, true, false, ◌&&◌, List, [], ◌∷◌, Option, none, some, arith, pos, ◌≤ℤ◌,
  ltb_ℤ, ◌-ℤ◌, in_i64, if◌then◌else◌, all, any, is_empty, Bool-cases, inl, inr,
}
use text.Mathlib.TextEquality.{eq_iff}
use bitcoin_price_tracker.Time.{UnixTime}
use bitcoin_price_tracker.Float.{Float64}
use bitcoin_price_tracker.Models.{
  StoredQuote, ProviderHealth, LastAttempt, SourceFreshness, is_fresh, is_stale, is_unknown,
  is_future, PriceStatus, live, degraded, stale, unavailable,
}
use bitcoin_price_tracker.Source.{
  UpstreamSource, coin_gecko, coinbase, kraken, gemini, all_sources, name,
}
use bitcoin_price_tracker.Freshness.{
  is_configured, classify, is_fresh_tag, has_success, is_fresh_from, respond, responses,
  all_healthy, evaluate_quotes,
}
use bitcoin_price_tracker.Freshness.Age.{classify-fresh_iff, classify_others}
use bitcoin_price_tracker.Freshness.Status.{contributes, evaluate_quotes-status}

-- Seen at or before now, less than ninety seconds ago.
abbrev pub IsRecent : UnixTime → Option UnixTime → Type 0
IsRecent now none = ⊥
IsRecent now (some seen) =
    (seen ≤ℤ now) × (ltb_ℤ (now -ℤ seen) (pos 90) ≡ true) × (in_i64 (now -ℤ seen) ≡ true)

abbrev pub DidSucceed : LastAttempt → Type 0
DidSucceed LastAttempt.unknown = ⊥
DidSucceed (LastAttempt.success at) = Unit
DidSucceed (LastAttempt.failure at e) = ⊥

-- Some record of the provider tells of a success.
abbrev pub HasSucceeded : List ProviderHealth → UpstreamSource → Type 0
HasSucceeded [] p = ⊥
HasSucceeded (h ∷ health) p =
    ((h.source ≡ name p) × DidSucceed h.last_attempt) ⊎ HasSucceeded health p

module _ {W : Type 0} ⦃f : Float64 W⦄ where
  -- A finite positive price.
  abbrev pub IsUsable : StoredQuote W → Type 0
  IsUsable q = (f.is_finite q.price_usd ≡ true) × (f.lt f.zero q.price_usd ≡ true)

  abbrev pub HasUsable : List (StoredQuote W) → Type 0
  HasUsable [] = ⊥
  HasUsable (q ∷ quotes) = IsUsable q ⊎ HasUsable quotes

  -- Some recent quote of the provider is usable.
  abbrev pub HasFresh : UnixTime → List (StoredQuote W) → UpstreamSource → Type 0
  HasFresh now [] p = ⊥
  HasFresh now (q ∷ quotes) p =
      ((q.source ≡ name p) × IsUsable q × IsRecent now q.last_success_at_unix)
      ⊎ HasFresh now quotes p

abbrev pub Every : (UpstreamSource → Type 0) → Type 0
Every P = P coin_gecko × P coinbase × P kraken × P gemini

abbrev pub Some : (UpstreamSource → Type 0) → Type 0
Some P = P coin_gecko ⊎ P coinbase ⊎ P kraken ⊎ P gemini

has_success_iff : (a : LastAttempt) → (has_success a ≡ true) ↔ DidSucceed a
has_success_iff LastAttempt.unknown = ground arith
has_success_iff (LastAttempt.success at) = ground arith
has_success_iff (LastAttempt.failure at e) = ground arith

succeeded_iff :
    (health : List ProviderHealth) (p : UpstreamSource)
    → (any (λ r. r.source == name p && has_success r.last_attempt) health ≡ true)
      ↔ HasSucceeded health p
succeeded_iff [] p = ground arith
succeeded_iff (h ∷ health) p =
    ground (arith, eq_iff h.source (name p), has_success_iff h.last_attempt, succeeded_iff health p)

is_configured-name : (p : UpstreamSource) → is_configured (name p) ≡ true
unfolding is_configured
is_configured-name coin_gecko = refl
is_configured-name coinbase = refl
is_configured-name kraken = refl
is_configured-name gemini = refl

is_fresh_tag_iff : (s : SourceFreshness) → (is_fresh_tag s ≡ true) ↔ (s ≡ is_fresh)
is_fresh_tag_iff is_fresh = ground arith
is_fresh_tag_iff is_stale = ground arith
is_fresh_tag_iff is_unknown = ground arith
is_fresh_tag_iff is_future = ground arith

classify_iff :
    (now : UnixTime) (p : UpstreamSource) (seen : Option UnixTime)
    → (is_fresh_tag (classify (name p) seen now) ≡ true) ↔ IsRecent now seen
classify_iff now p none =
    let (_, _, unseen) = classify_others (name p) now now in rw unseen (λ h. cc, λ h. absurd h)
classify_iff now p (some seen) = ground (
  arith,
  is_configured-name p,
  is_fresh_tag_iff (classify (name p) (some seen) now),
  classify-fresh_iff (name p) seen now,
)

all_healthy_iff :
    (health : List ProviderHealth)
    → (all_healthy health ≡ true) ↔ Every (λ p. HasSucceeded health p)
unfolding all_healthy
all_healthy_iff health = ground (
  arith,
  succeeded_iff health coin_gecko,
  succeeded_iff health coinbase,
  succeeded_iff health kraken,
  succeeded_iff health gemini,
)

-- The four cases of a status, for tests that stand for propositions.
verdict_iff :
    (A H S U : Type 0) (every healthy partial empty : Bool)
    → (every ≡ true) ↔ A
    → (healthy ≡ true) ↔ H
    → (partial ≡ true) ↔ S
    → (empty ≡ false) ↔ U
    → (A → S)
    → (S → U)
    → let status : PriceStatus =
        if every && healthy
        then live
        else if partial
        then degraded
        else if empty
        then unavailable
        else stale in
      ((status ≡ live) ↔ (A × H))
      × ((status ≡ degraded) ↔ (S × ¬ (A × H)))
      × ((status ≡ stale) ↔ (U × ¬ S))
      × ((status ≡ unavailable) ↔ (¬ U))
verdict_iff A H S U every healthy partial empty a h s u more usable = ground arith

module _ {W : Type 0} ⦃f : Float64 W⦄ (now : UnixTime) where
  fresh_from_iff :
      (p : UpstreamSource) (q : StoredQuote W)
      → (is_fresh_from p (respond now q) ≡ true)
        ↔ ((q.source ≡ name p) × IsRecent now q.last_success_at_unix)
  fresh_from_iff p q = elim (Bool-cases (q.source == name p)) [
    | inl e ↦
        let same = (eq_iff q.source (name p)).0 e in
        let (to, from) = classify_iff now p q.last_success_at_unix in
        rw e (rw same (λ h. (refl, to h), λ (same_name, k). from k))
    | inr e ↦ rw e (λ h. cc, λ (h, k). (let yes_it = (eq_iff q.source (name p)).1 h in cc))
  ]

  contributes_iff :
      (p : UpstreamSource) (quotes : List (StoredQuote W))
      → (contributes (responses quotes now) p ≡ true) ↔ HasFresh now quotes p
  unfolding responses
  contributes_iff p [] = ground arith
  contributes_iff p (q ∷ quotes) = ground (arith, fresh_from_iff p q, contributes_iff p quotes)

  usable_iff :
      (quotes : List (StoredQuote W)) → (is_empty (responses quotes now) ≡ false) ↔ HasUsable quotes
  unfolding responses
  usable_iff [] = ground arith
  usable_iff (q ∷ quotes) = ground (arith, usable_iff quotes)

  -- Every provider has a recent usable quote and succeeded at its last attempt.
  abbrev pub IsComplete : List (StoredQuote W) → List ProviderHealth → Type 0
  IsComplete quotes health = Every (λ p. HasFresh now quotes p) × Every (λ p. HasSucceeded health p)

  all_contribute_iff :
      (quotes : List (StoredQuote W))
      → (all (contributes (responses quotes now)) all_sources ≡ true)
        ↔ Every (λ p. HasFresh now quotes p)
  all_contribute_iff quotes = ground (
    arith,
    contributes_iff coin_gecko quotes,
    contributes_iff coinbase quotes,
    contributes_iff kraken quotes,
    contributes_iff gemini quotes,
  )

  some_contribute_iff :
      (quotes : List (StoredQuote W))
      → (any (contributes (responses quotes now)) all_sources ≡ true)
        ↔ Some (λ p. HasFresh now quotes p)
  some_contribute_iff quotes = ground (
    arith,
    contributes_iff coin_gecko quotes,
    contributes_iff coinbase quotes,
    contributes_iff kraken quotes,
    contributes_iff gemini quotes,
  )

  HasFresh-HasUsable :
      (p : UpstreamSource) (quotes : List (StoredQuote W))
      → HasFresh now quotes p
      → HasUsable quotes
  HasFresh-HasUsable p [] h = h
  HasFresh-HasUsable p (q ∷ quotes) (inl (named, usable, recent)) = inl usable
  HasFresh-HasUsable p (q ∷ quotes) (inr h) = inr (HasFresh-HasUsable p quotes h)

  -- Quotes and health records evaluate to live exactly when each of the four providers has a usable
  -- quote that was seen less than ninety seconds ago and a record of a successful last attempt; to
  -- degraded exactly when some provider has such a quote and they are not live; to stale exactly when
  -- a usable quote is stored and no provider has one that is so recent; and to unavailable exactly when
  -- no usable quote is stored.
  pub evaluate_quotes-status_iff :
      (quotes : List (StoredQuote W)) (health : List ProviderHealth)
      → let status = (evaluate_quotes quotes health now).status in
        ((status ≡ live) ↔ IsComplete quotes health)
        × ((status ≡ degraded) ↔ (Some (λ p. HasFresh now quotes p) × ¬ IsComplete quotes health))
        × ((status ≡ stale) ↔ (HasUsable quotes × ¬ Some (λ p. HasFresh now quotes p)))
        × ((status ≡ unavailable) ↔ (¬ HasUsable quotes))
  evaluate_quotes-status_iff quotes health = rw (evaluate_quotes-status quotes health now) (
      verdict_iff (Every (λ p. HasFresh now quotes p)) (Every (λ p. HasSucceeded health p))
        (Some (λ p. HasFresh now quotes p)) (HasUsable quotes)
        (all (contributes (responses quotes now)) all_sources) (all_healthy health)
        (any (contributes (responses quotes now)) all_sources) (is_empty (responses quotes now))
        (all_contribute_iff quotes) (all_healthy_iff health) (some_contribute_iff quotes)
        (usable_iff quotes) (λ (cg, cb, kr, ge). inl cg)
        (λ h. elim h [
          | inl k ↦ HasFresh-HasUsable coin_gecko quotes k
          | inr (inl k) ↦ HasFresh-HasUsable coinbase quotes k
          | inr (inr (inl k)) ↦ HasFresh-HasUsable kraken quotes k
          | inr (inr (inr k)) ↦ HasFresh-HasUsable gemini quotes k
        ]))
