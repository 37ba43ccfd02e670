-- ===== src/Refresh/Settle.antt =====
-- What `complete` makes of the outcome of a plan: backoff after a failure, recovery after a success.
use bitcoin_price_tracker.Prelude.{
  ℕ, zero, suc, ◌+◌, ◌*◌, ◌^◌, ◌-◌, ◌<◌, ◌≤◌, ◌≡◌, refl, ap, ◌∙◌, true, false, inl, inr, List, [],
  ◌∷◌, Option, none, some, arith, min, Bool-cases,
}
use bitcoin_price_tracker.Time.{Instant, UnixTime, from_secs}
use bitcoin_price_tracker.Source.{
  UpstreamSource, coin_gecko, coinbase, kraken, gemini, index_of, same_source, get, is_chosen,
  Distinct, same_source-eq, get-set_ne, get-set_self,
}
use bitcoin_price_tracker.Errors.{ProviderError}
use bitcoin_price_tracker.Refresh.{
  RefreshCoordinator, RefreshPlan, backoff, next_count, failure_of, settle, settle_all, complete,
}
use bitcoin_price_tracker.Refresh.Plans.{IsValid}

-- The backoff doubles from ten seconds and is capped at five minutes; the shift of the `u64` never
-- loses a bit for the counts that occur.
pub backoff_exact : (n : ℕ) → 0 < n → n ≤ 6 → backoff n ≡ from_secs (min (10 * 2 ^ (n - 1)) 300)
unfolding backoff
backoff_exact zero h k = absurd (omega arith)
backoff_exact (suc zero) h k = refl
backoff_exact (suc (suc zero)) h k = refl
backoff_exact (suc (suc (suc zero))) h k = refl
backoff_exact (suc (suc (suc (suc zero)))) h k = refl
backoff_exact (suc (suc (suc (suc (suc zero))))) h k = refl
backoff_exact (suc (suc (suc (suc (suc (suc zero)))))) h k = refl
backoff_exact (suc (suc (suc (suc (suc (suc (suc n))))))) h k = absurd (omega arith)

pub backoff_range :
    (n : ℕ) → 0 < n → n ≤ 6 → (from_secs 10 ≤ backoff n) × (backoff n ≤ from_secs 300)
unfolding backoff
backoff_range zero h k = absurd (omega arith)
backoff_range (suc zero) h k = omega arith
backoff_range (suc (suc zero)) h k = omega arith
backoff_range (suc (suc (suc zero))) h k = omega arith
backoff_range (suc (suc (suc (suc zero)))) h k = omega arith
backoff_range (suc (suc (suc (suc (suc zero))))) h k = omega arith
backoff_range (suc (suc (suc (suc (suc (suc zero)))))) h k = omega arith
backoff_range (suc (suc (suc (suc (suc (suc (suc n))))))) h k = absurd (omega arith)

pub next_count_range : (n : ℕ) → (0 < next_count n) × (next_count n ≤ 6)
unfolding next_count
next_count_range n = omega arith

pub next_count_exact : (n : ℕ) → n ≤ 6 → next_count n ≡ min (n + 1) 6
unfolding next_count
next_count_exact n h = omega arith

module _ {R J : Type 0} (last now : Instant) (now_unix : UnixTime) where
  -- A round of the loop touches the slots of its own provider alone.
  settle_other :
      (q : UpstreamSource) (e : Option (ProviderError R J)) (c : RefreshCoordinator)
      (p : UpstreamSource)
      → same_source p q ≡ false
      → (get (settle last now now_unix q e c).next_eligible (index_of p)
          ≡ get c.next_eligible (index_of p))
        × (get (settle last now now_unix q e c).consecutive_failures (index_of p)
            ≡ get c.consecutive_failures (index_of p))
  unfolding settle
  settle_other q none c p h = (refl, get-set_ne _ p q 0 h)
  settle_other q (some x) c p h = (get-set_ne _ p q _ h, get-set_ne _ p q _ h)

  settle_all_other :
      (fs : List (ProviderError R J)) (ps : List UpstreamSource) (c : RefreshCoordinator)
      (p : UpstreamSource)
      → is_chosen p ps ≡ false
      → (get (settle_all last now now_unix fs ps c).next_eligible (index_of p)
          ≡ get c.next_eligible (index_of p))
        × (get (settle_all last now now_unix fs ps c).consecutive_failures (index_of p)
            ≡ get c.consecutive_failures (index_of p))
  unfolding settle_all
  settle_all_other fs [] c p h = (refl, refl)
  settle_all_other fs (q ∷ ps) c p h =
      let next = settle last now now_unix q (failure_of q fs) c in
      let rest = settle_all_other fs ps next p (ground arith) in
      let here = settle_other q (failure_of q fs) c p (ground arith) in
      (rest.0 ∙ here.0, rest.1 ∙ here.1)

  -- A provider that stands once in the list gets its own round, on its own slots.
  settle_all_self :
      (fs : List (ProviderError R J)) (ps : List UpstreamSource) (c : RefreshCoordinator)
      (p : UpstreamSource)
      → Distinct ps
      → is_chosen p ps ≡ true
      → (d : RefreshCoordinator) × (get d.next_eligible (index_of p)
          ≡ get c.next_eligible (index_of p))
        × (get d.consecutive_failures (index_of p) ≡ get c.consecutive_failures (index_of p))
        × (get (settle_all last now now_unix fs ps c).next_eligible (index_of p)
            ≡ get (settle last now now_unix p (failure_of p fs) d).next_eligible (index_of p))
        × (get (settle_all last now now_unix fs ps c).consecutive_failures (index_of p)
            ≡ get
                (settle last now now_unix p (failure_of p fs) d).consecutive_failures
                (index_of p))
  unfolding settle_all
  settle_all_self fs [] c p d h = cc
  settle_all_self fs (q ∷ ps) c p d h = elim (Bool-cases (same_source p q)) [
    | inl same ↦
        let e = same_source-eq p q same in
        let after =
          settle_all_other fs ps (settle last now now_unix q (failure_of q fs) c) p (rw e d.0) in
        (c, refl, refl, rw (← e) (rw (← e) at after.0), rw (← e) (rw (← e) at after.1))
    | inr other ↦
        let next = settle last now now_unix q (failure_of q fs) c in
        let here = settle_other q (failure_of q fs) c p other in
        let rest = settle_all_self fs ps next p d.1 (ground arith) in
        (rest.0, rest.1 ∙ here.0, rest.2 ∙ here.1, rest.3, rest.4)
  ]

  complete_slots :
      (plan : RefreshPlan) (fs : List (ProviderError R J)) (c : RefreshCoordinator)
      → ((complete last plan fs now now_unix c).next_eligible
          ≡ (settle_all last now now_unix fs plan.sources c).next_eligible)
        × ((complete last plan fs now now_unix c).consecutive_failures
            ≡ (settle_all last now now_unix fs plan.sources c).consecutive_failures)
  unfolding complete
  complete_slots plan fs c = ground arith

  -- `complete` touches no provider outside the plan.
  pub complete_untouched :
      (plan : RefreshPlan) (fs : List (ProviderError R J)) (c : RefreshCoordinator)
      (p : UpstreamSource)
      → is_chosen p plan.sources ≡ false
      → (get (complete last plan fs now now_unix c).next_eligible (index_of p)
          ≡ get c.next_eligible (index_of p))
        × (get (complete last plan fs now now_unix c).consecutive_failures (index_of p)
            ≡ get c.consecutive_failures (index_of p))
  complete_untouched plan fs c p h =
      let slots = complete_slots plan fs c in
      let rest = settle_all_other fs plan.sources c p h in
      (ap (λ a. get a (index_of p)) slots.0 ∙ rest.0, ap (λ a. get a (index_of p)) slots.1 ∙ rest.1)

  -- A planned provider with no reported failure has its count of failures cleared, and keeps the
  -- deadline that was installed before its request.
  pub complete_recovers :
      (plan : RefreshPlan) (fs : List (ProviderError R J)) (c : RefreshCoordinator)
      (p : UpstreamSource)
      → Distinct plan.sources
      → is_chosen p plan.sources ≡ true
      → failure_of p fs ≡ none
      → (get (complete last plan fs now now_unix c).next_eligible (index_of p)
          ≡ get c.next_eligible (index_of p))
        × (get (complete last plan fs now now_unix c).consecutive_failures (index_of p) ≡ 0)
  unfolding settle
  complete_recovers plan fs c p d h f =
      let slots = complete_slots plan fs c in
      let (k, e0, e1, s0, s1) = settle_all_self fs plan.sources c p d h in
      (
        ap (λ a. get a (index_of p)) slots.0 ∙ s0 ∙ rw (f, settle) e0,
        ap (λ a. get a (index_of p)) slots.1 ∙ s1 ∙ rw (f, settle) (get-set_self _ p 0),
      )

  settle-frame :
      (q : UpstreamSource) (e : Option (ProviderError R J)) (c : RefreshCoordinator)
      → ((settle last now now_unix q e c).next_source ≡ c.next_source)
        × ((settle last now now_unix q e c).last_attempt ≡ c.last_attempt)
  unfolding settle
  settle-frame q none c = (refl, refl)
  settle-frame q (some x) c = (refl, refl)

  settle-IsValid :
      (q : UpstreamSource) (e : Option (ProviderError R J)) (c : RefreshCoordinator)
      → IsValid c
      → IsValid (settle last now now_unix q e c)
  unfolding settle
  settle-IsValid coin_gecko none c v = ground arith
  settle-IsValid coin_gecko (some x) c v =
      ground (arith, next_count_range c.consecutive_failures.at0)
  settle-IsValid coinbase none c v = ground arith
  settle-IsValid coinbase (some x) c v = ground (arith, next_count_range c.consecutive_failures.at1)
  settle-IsValid kraken none c v = ground arith
  settle-IsValid kraken (some x) c v = ground (arith, next_count_range c.consecutive_failures.at2)
  settle-IsValid gemini none c v = ground arith
  settle-IsValid gemini (some x) c v = ground (arith, next_count_range c.consecutive_failures.at3)

  settle_all-frame :
      (fs : List (ProviderError R J)) (ps : List UpstreamSource) (c : RefreshCoordinator)
      → ((settle_all last now now_unix fs ps c).next_source ≡ c.next_source)
        × ((settle_all last now now_unix fs ps c).last_attempt ≡ c.last_attempt)
        × (IsValid c → IsValid (settle_all last now now_unix fs ps c))
  unfolding settle_all
  settle_all-frame fs [] c = (refl, refl, λ v. v)
  settle_all-frame fs (q ∷ ps) c =
      let here = settle-frame q (failure_of q fs) c in
      let rest = settle_all-frame fs ps (settle last now now_unix q (failure_of q fs) c) in
      (rest.0 ∙ here.0, rest.1 ∙ here.1, λ v. rest.2 (settle-IsValid q (failure_of q fs) c v))

  -- `complete` moves neither the cursor nor the date of the last attempt, keeps the coordinator
  -- valid, and records the generation of a full refresh alone.
  pub complete-frame :
      (plan : RefreshPlan) (fs : List (ProviderError R J)) (c : RefreshCoordinator)
      → ((complete last plan fs now now_unix c).next_source ≡ c.next_source)
        × ((complete last plan fs now now_unix c).last_attempt ≡ c.last_attempt)
        × (IsValid c → IsValid (complete last plan fs now now_unix c))
  unfolding complete
  complete-frame plan fs c = elim (Bool-cases plan.full_refresh) [
    | inl t ↦
        let (a, b, d) = settle_all-frame fs plan.sources c in rw t (a, b, λ v. ground (arith, d v))
    | inr t ↦ rw t (settle_all-frame fs plan.sources c)
  ]
