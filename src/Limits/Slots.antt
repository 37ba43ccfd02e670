-- ===== src/Limits/Slots.antt =====
-- How many requests of each group are inside at once.
use bitcoin_price_tracker.Prelude.{
  ℕ, zero, suc, ◌+◌, ◌-◌, ◌≤◌, ◌<◌, ◌≡◌, ◌≢◌, ◌⊎◌, refl, Bool, true, false, if◌then◌else◌, min,
  arith, Bool-cases, inl, inr, sym,
}
use mathlib.Core.Path.{subst}
use bitcoin_price_tracker.Time.{Instant}
use bitcoin_price_tracker.Float.{Float64}
use bitcoin_price_tracker.Config.{RuntimeConfig}
use bitcoin_price_tracker.Limits.{
  Gate, Group, price, presence, health, news, assets, RequestLimits, Verdict, too_many_requests,
  service_unavailable, served, new_limits, gate_of, set_gate, acquire, give_back, allow, admit,
  limit_request, end_request,
}

abbrev pub same_group : Group → Group → Bool
same_group price price = true
same_group presence presence = true
same_group health health = true
same_group news news = true
same_group assets assets = true
same_group _ _ = false

-- The requests of each group that are inside.
abbrev pub Inside : Type 0
Inside = Group → ℕ

abbrev pub more : Group → Inside → Inside
more g n h = if same_group g h then n h + 1 else n h

abbrev pub fewer : Group → Inside → Inside
fewer g n h = if same_group g h then n h - 1 else n h

-- The requests that enter.
abbrev pub entered : Verdict → Group → Inside → Inside
entered served g n = more g n
entered _ g n = n

abbrev pub permits : Verdict → ℕ
permits served = 1
permits _ = 0

entered_lem :
    (v : Verdict) (g h : Group) (n : Inside)
    → entered v g n h ≡ (if same_group g h then n h + permits v else n h)
entered_lem served g h n = refl
entered_lem too_many_requests g h n = ground arith
entered_lem service_unavailable g h n = ground arith

same_group-eq : (g h : Group) → same_group g h ≡ true → g ≡ h
same_group-eq price price e = refl
same_group-eq presence presence e = refl
same_group-eq health health e = refl
same_group-eq news news e = refl
same_group-eq assets assets e = refl
same_group-eq _ _ e = cc

-- How many requests a group admits at once.
abbrev pub capacity_of : {A : Type 0} → RuntimeConfig A → Group → ℕ
capacity_of config health = 4
capacity_of config news = min config.concurrency 8
capacity_of config _ = config.concurrency

pub record World (W : Type 0) : Type 0 where
  pub limits : RequestLimits W
  pub inside : Inside

module _ {W : Type 0} ⦃f : Float64 W⦄ where
  pub data Step : World W → World W → Type 0 where
    arrive :
        (w : World W) (g : Group) (now : Instant)
        → Step w (record {
          limits = (limit_request g now w.limits).0;
          inside = entered (limit_request g now w.limits).1 g w.inside;
        })
    leave :
        (w : World W) (g : Group)
        → 0 < w.inside g
        → Step w (record { limits = end_request g w.limits; inside = fewer g w.inside })

  pub data Reach : World W → World W → Type 0 where
    here : {w : World W} → Reach w w
    next : {u v w : World W} → Reach u v → Step v w → Reach u w

  -- The slots that are free and the requests inside make up the capacity of each group.
  abbrev pub Balanced : (Group → ℕ) → World W → Type 0
  Balanced capacity w = (h : Group) → (gate_of h w.limits).slots + w.inside h ≡ capacity h

  pub gate_of-set_gate :
      (g h : Group) (gate : Gate W) (l : RequestLimits W)
      → gate_of h (set_gate g gate l) ≡ (if same_group g h then gate else gate_of h l)
  gate_of-set_gate price price gate l = refl
  gate_of-set_gate presence presence gate l = refl
  gate_of-set_gate health health gate l = refl
  gate_of-set_gate news news gate l = refl
  gate_of-set_gate assets assets gate l = refl
  gate_of-set_gate _ _ gate l = refl

  acquire-slots :
      (g : Gate W) (n : ℕ) → g.slots ≡ n → (acquire g n).0.slots + permits (acquire g n).1 ≡ g.slots
  acquire-slots g zero e = omega arith
  acquire-slots g (suc n) e = omega arith

  admit-slots :
      (g : Gate W) (ready : Bool)
      → (admit (g, ready)).0.slots + permits (admit (g, ready)).1 ≡ g.slots
  admit-slots g false = omega arith
  admit-slots g true = acquire-slots g g.slots refl

  allow-slots : (now : Instant) (g : Gate W) → (allow now g).0.slots ≡ g.slots
  unfolding allow
  allow-slots now g = ground arith

  arrive-Balanced :
      (capacity : Group → ℕ) (w : World W) (g h : Group) (now : Instant)
      → Balanced capacity w
      → (gate_of h (limit_request g now w.limits).0).slots
          + entered (limit_request g now w.limits).1 g w.inside h
        ≡ capacity h
  unfolding limit_request
  arrive-Balanced capacity w g h now b =
      let gate = gate_of g w.limits in
      let kept = allow-slots now gate in
      let passed = admit-slots (allow now gate).0 (allow now gate).1 in
      let set = gate_of-set_gate g h (admit (allow now gate)).0 w.limits in
      let inside = entered_lem (admit (allow now gate)).1 g h w.inside in
      elim (Bool-cases (same_group g h)) [
        | inl e ↦ rw set (
            rw inside (
              rw e (
                let same = same_group-eq g h e in
                let whole = b h in
                let mine : gate.slots + w.inside h ≡ capacity h =
                  subst (λ k. (gate_of k w.limits).slots + w.inside h ≡ capacity h) (sym same)
                    whole in
                omega (arith, kept, passed, mine))))
        | inr e ↦ rw set (rw inside (rw e (b h)))
      ]

  leave-Balanced :
      (capacity : Group → ℕ) (w : World W) (g h : Group)
      → 0 < w.inside g
      → Balanced capacity w
      → (gate_of h (end_request g w.limits)).slots + fewer g w.inside h ≡ capacity h
  unfolding end_request
  leave-Balanced capacity w g h some_in b =
      let set = gate_of-set_gate g h (give_back (gate_of g w.limits)) w.limits in
      elim (Bool-cases (same_group g h)) [
        | inl e ↦
            let same = same_group-eq g h e in
            let mine : (gate_of g w.limits).slots + w.inside h ≡ capacity h =
              subst (λ k. (gate_of k w.limits).slots + w.inside h ≡ capacity h) (sym same) (b h) in
            let inside : 0 < w.inside h = subst (λ k. 0 < w.inside k) same some_in in
            rw set (rw e (omega (arith, mine, inside)))
        | inr e ↦ rw set (rw e (b h))
      ]

  Reach-Balanced :
      (capacity : Group → ℕ) {u w : World W} → Reach u w → Balanced capacity u → Balanced capacity w
  Reach-Balanced capacity here b = b
  Reach-Balanced capacity (next r (arrive w g now)) b =
      λ h. arrive-Balanced capacity w g h now (Reach-Balanced capacity r b)
  Reach-Balanced capacity (next r (leave w g some_in)) b =
      λ h. leave-Balanced capacity w g h some_in (Reach-Balanced capacity r b)

  abbrev pub start : {A : Type 0} → RuntimeConfig A → Instant → World W
  start config now = record { limits = new_limits config now; inside = λ g. 0 }

  busy_lem : (g : Gate W) (ready : Bool) → (admit (g, ready)).1 ≡ service_unavailable → g.slots ≡ 0
  busy_lem g false h = cc
  busy_lem g true h = acquired g g.slots refl h
    where
      acquired :
          (g : Gate W) (n : ℕ) → g.slots ≡ n → (acquire g n).1 ≡ service_unavailable → g.slots ≡ 0
      acquired g zero e h = e
      acquired g (suc n) e h = cc

module _ (W : Type 0) ⦃f : Float64 W⦄ where
  start-Balanced :
      {A : Type 0} (config : RuntimeConfig A) (now : Instant)
      → Balanced (capacity_of config) (start {W = W} config now)
  start-Balanced config now price = omega arith
  start-Balanced config now presence = omega arith
  start-Balanced config now health = omega arith
  start-Balanced config now news = omega arith
  start-Balanced config now assets = omega arith

busy-cases : (v : Verdict) → (v ≢ service_unavailable) ⊎ (v ≡ service_unavailable)
busy-cases too_many_requests = inl (λ e. cc)
busy-cases service_unavailable = inr refl
busy-cases served = inl (λ e. cc)

module _ {W : Type 0} ⦃f : Float64 W⦄ where
  -- Whatever requests arrive and end, in whatever order, at most the configured number of requests of
  -- a group are inside at once (4 for health, at most 8 for the feed), and a request is refused as
  -- busy only if its own group is full, however many the other groups hold.
  pub Reach-capacity :
      {A : Type 0} (config : RuntimeConfig A) (now : Instant) {w : World W}
      → Reach (start config now) w
      → (g : Group) (later : Instant)
      → (w.inside g ≤ capacity_of config g)
        × (((limit_request g later w.limits).1 ≢ service_unavailable)
            ⊎ (w.inside g ≡ capacity_of config g))
  unfolding limit_request
  Reach-capacity config now {w} r g later =
      let b = Reach-Balanced (capacity_of config) r (start-Balanced W config now) g in
      (
        omega (arith, b),
        elim (busy-cases (limit_request g later w.limits).1) [
          | inl passed ↦ inl passed
          | inr busy ↦
              let none_free = busy_lem (allow later (gate_of g w.limits)).0 _ busy in
              inr (omega (arith, b, none_free, allow-slots later (gate_of g w.limits)))
        ],
      )
