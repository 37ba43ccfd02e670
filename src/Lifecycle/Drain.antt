-- ===== src/Lifecycle/Drain.antt =====
-- How serving ends after a shutdown was asked for.
use bitcoin_price_tracker.Prelude.{
  ℕ, zero, suc, ◌+◌, ◌≤◌, ◌≡◌, ◌⊎◌, inl, inr, refl, Bool, true, false, if◌then◌else◌, arith, ◌∙◌,
}
use bitcoin_price_tracker.Lifecycle.{
  ConnectionLimits, Stage, serving, draining, over, Server, open_server, take_local, take_remote,
  accept, close, is_drained, drain, give_up,
}
use bitcoin_price_tracker.Lifecycle.Connections.{
  Step, connect, finish, stop, drained, expire, Reach, here, next, Reach-bounded,
}

abbrev pub is_serving : Stage → Bool
is_serving serving = true
is_serving _ = false

abbrev pub is_over : Stage → Bool
is_over (over result) = true
is_over _ = false

-- The steps that are left at most.
abbrev pub left : Server → ℕ
left s = s.remote + s.loopback + (if is_over s.stage then 0 else 1)

-- The steps of a run.
abbrev pub steps : {s t : Server} → Reach s t → ℕ
steps here = 0
steps (next r step) = suc (steps r)

Step-left :
    {s t : Server}
    → Step s t
    → is_serving s.stage ≡ false
    → (is_serving t.stage ≡ false) × (suc (left t) ≤ left s)
unfolding close drain give_up
Step-left (connect s is_loopback e) h = ground arith
Step-left (finish s true positive) h = ground arith
Step-left (finish s false positive) h = ground arith
Step-left (stop s e) h = ground arith
Step-left (drained s e d) h = ground arith
Step-left (expire s e d) h = ground arith

Reach-left :
    {s t : Server}
    → (r : Reach s t) → is_serving s.stage ≡ false
    → (is_serving t.stage ≡ false) × (steps r + left t ≤ left s)
Reach-left here h = (h, omega arith)
Reach-left (next r step) h =
    let (stopped, rest) = Reach-left r h in
    let (still, less) = Step-left step stopped in (still, omega (arith, rest, less))

-- Nothing is left of a server that is over.
abbrev pub IsEmpty : Server → Type 0
IsEmpty s = is_over s.stage ≡ true → (s.remote ≡ 0) × (s.loopback ≡ 0)

take_local-stage : (s : Server) (n : ℕ) → (take_local n s).0.stage ≡ s.stage
take_local-stage s zero = refl
take_local-stage s (suc n) = refl

take_remote-stage : (s : Server) (n : ℕ) → (take_remote n s).0.stage ≡ s.stage
take_remote-stage s zero = refl
take_remote-stage s (suc n) = refl

accept-stage : (s : Server) (is_loopback : Bool) → (accept is_loopback s).0.stage ≡ s.stage
unfolding accept
accept-stage s true = take_local-stage s s.local_slots
accept-stage s false = take_remote-stage s s.slots

serving-IsEmpty : (s : Server) → s.stage ≡ serving → IsEmpty s
serving-IsEmpty s e = ground arith

Step-IsEmpty : {s t : Server} → Step s t → IsEmpty s → IsEmpty t
unfolding accept close drain give_up
Step-IsEmpty (connect s is_loopback e) h =
    serving-IsEmpty (accept is_loopback s).0 (accept-stage s is_loopback ∙ e)
Step-IsEmpty (finish s true positive) h = ground arith
Step-IsEmpty (finish s false positive) h = ground arith
Step-IsEmpty (stop s e) h = ground arith
Step-IsEmpty (drained s e d) h = ground arith
Step-IsEmpty (expire s e d) h = ground arith

Reach-IsEmpty : {s t : Server} → Reach s t → IsEmpty s → IsEmpty t
Reach-IsEmpty here h = h
Reach-IsEmpty (next r step) h = Step-IsEmpty step (Reach-IsEmpty r h)

is_draining : (stage : Stage) → is_serving stage ≡ false → is_over stage ≡ false → stage ≡ draining
is_draining stage h o = ground arith

proceeds :
    (t : Server) → t.stage ≡ draining → (b : Bool) → is_drained t ≡ b → (u : Server) × Step t u
proceeds t e true d = (drain t, drained t e d)
proceeds t e false d = (give_up t, expire t e d)

settled :
    (t : Server)
    → is_serving t.stage ≡ false
    → IsEmpty t
    → (b : Bool) → is_over t.stage ≡ b
    → ((u : Server) × Step t u) ⊎ ((is_over t.stage ≡ true) × (t.remote ≡ 0) × (t.loopback ≡ 0))
settled t h empty true o = let (remote, loopback) = empty o in inr (o, remote, loopback)
settled t h empty false o = inl (proceeds t (is_draining t.stage h o) (is_drained t) refl)

one_more :
    (s : Server) (m n : ℕ)
    → is_serving s.stage ≡ false
    → n + m ≤ left s
    → n ≤ s.remote + s.loopback + 1
one_more s m n h bound = ground arith

-- After a shutdown serving ends: whatever was served, the server takes no more steps than one for each
-- connection that was open and one to end, so at most five more than the configured connections; and
-- either there is a next step, or serving is over and no connection is left.
pub Reach-ends :
    (limits : ConnectionLimits) {s t : Server}
    → Reach (open_server limits) s
    → is_serving s.stage ≡ false
    → (r : Reach s t)
    → (steps r ≤ s.remote + s.loopback + 1)
      × (steps r ≤ limits.max_connections + 5)
      × (((u : Server) × Step t u) ⊎ ((is_over t.stage ≡ true) × (t.remote ≡ 0) × (t.loopback ≡ 0)))
Reach-ends limits {s} {t} before h r =
    let (still, bound) = Reach-left r h in
    let (remote, loopback, _, _) = Reach-bounded limits before in
    let first = one_more s (left t) (steps r) h bound in
    (
      first,
      omega (arith, first, remote, loopback),
      settled t still
          (Reach-IsEmpty r (Reach-IsEmpty before (serving-IsEmpty (open_server limits) refl)))
          (is_over t.stage) refl,
    )
