-- ===== src/Lifecycle/Connections.antt =====
-- How many connections are served, and what a result of serving says.
use bitcoin_price_tracker.Prelude.{
  ℕ, zero, suc, ◌+◌, ◌≤◌, ◌<◌, ◌≡◌, refl, Bool, true, false, if◌then◌else◌, min, arith, ◌↔◌,
}
use bitcoin_price_tracker.Lifecycle.{
  ConnectionLimits, serving, draining, Server, open_server, take_local, take_remote, accept, close,
  shut_down, is_drained, drain, give_up,
}

abbrev pub held : Bool → Server → ℕ
held is_loopback s = if is_loopback then s.loopback else s.remote

-- Connections are accepted only in the loop, and the drain begins after it.
pub data Step : Server → Server → Type 0 where
  connect : (s : Server) (is_loopback : Bool) → s.stage ≡ serving → Step s (accept is_loopback s).0
  finish : (s : Server) (is_loopback : Bool) → 0 < held is_loopback s → Step s (close is_loopback s)
  stop : (s : Server) → s.stage ≡ serving → Step s (shut_down s)
  drained : (s : Server) → s.stage ≡ draining → is_drained s ≡ true → Step s (drain s)
  expire : (s : Server) → s.stage ≡ draining → is_drained s ≡ false → Step s (give_up s)

pub data Reach : Server → Server → Type 0 where
  here : {s : Server} → Reach s s
  next : {s t u : Server} → Reach s t → Step t u → Reach s u

-- Every permit is free or held.
pub record IsValid (limits : ConnectionLimits) (s : Server) : Type 0 where
  pub remote_permits : s.slots + s.remote ≡ limits.max_connections
  pub local_permits : s.local_slots + s.loopback ≡ min limits.max_connections 4

open_server-IsValid : (limits : ConnectionLimits) → IsValid limits (open_server limits)
open_server-IsValid limits = record { remote_permits = omega arith; local_permits = omega arith }

take_remote-IsValid :
    (limits : ConnectionLimits) (s : Server) (n : ℕ)
    → s.slots ≡ n
    → IsValid limits s
    → IsValid limits (take_remote n s).0
take_remote-IsValid limits s zero e v = v
take_remote-IsValid limits s (suc n) e v = ground arith

take_local-IsValid :
    (limits : ConnectionLimits) (s : Server) (n : ℕ)
    → s.local_slots ≡ n
    → IsValid limits s
    → IsValid limits (take_local n s).0
take_local-IsValid limits s zero e v = v
take_local-IsValid limits s (suc n) e v = ground arith

accept-IsValid :
    (limits : ConnectionLimits) (s : Server) (is_loopback : Bool)
    → IsValid limits s
    → IsValid limits (accept is_loopback s).0
unfolding accept
accept-IsValid limits s true v = take_local-IsValid limits s s.local_slots refl v
accept-IsValid limits s false v = take_remote-IsValid limits s s.slots refl v

close-IsValid :
    (limits : ConnectionLimits) (s : Server) (is_loopback : Bool)
    → 0 < held is_loopback s
    → IsValid limits s
    → IsValid limits (close is_loopback s)
unfolding close
close-IsValid limits s true h v = ground arith
close-IsValid limits s false h v = ground arith

Step-IsValid :
    (limits : ConnectionLimits) {s t : Server} → Step s t → IsValid limits s → IsValid limits t
unfolding drain give_up
Step-IsValid limits (connect s is_loopback e) v = accept-IsValid limits s is_loopback v
Step-IsValid limits (finish s is_loopback h) v = close-IsValid limits s is_loopback h v
Step-IsValid limits (stop s e) v = ground arith
Step-IsValid limits (drained s e h) v = ground arith
Step-IsValid limits (expire s e h) v = ground arith

Reach-IsValid :
    (limits : ConnectionLimits) {s t : Server} → Reach s t → IsValid limits s → IsValid limits t
Reach-IsValid limits here v = v
Reach-IsValid limits (next r step) v = Step-IsValid limits step (Reach-IsValid limits r v)

served_iff :
    (limits : ConnectionLimits) (s : Server)
    → IsValid limits s
    → (((accept false s).1 ≡ true) ↔ (s.remote < limits.max_connections))
      × (((accept true s).1 ≡ true) ↔ (s.loopback < min limits.max_connections 4))
unfolding accept
served_iff limits s v = (remote s.slots refl, local s.local_slots refl)
  where
    remote :
        (n : ℕ) → s.slots ≡ n → ((take_remote n s).1 ≡ true) ↔ (s.remote < limits.max_connections)
    remote zero e = ground arith
    remote (suc n) e = ground arith

    local :
        (n : ℕ)
        → s.local_slots ≡ n
        → ((take_local n s).1 ≡ true) ↔ (s.loopback < min limits.max_connections 4)
    local zero e = ground arith
    local (suc n) e = ground arith

-- Whatever connects, ends and stops, at most the configured number of remote and four local
-- connections are served at once; and a connection is served exactly while its own kind has room, so
-- that remote ones cannot keep a local health check out.
pub Reach-bounded :
    (limits : ConnectionLimits) {s : Server}
    → Reach (open_server limits) s
    → (s.remote ≤ limits.max_connections)
      × (s.loopback ≤ min limits.max_connections 4)
      × (((accept false s).1 ≡ true) ↔ (s.remote < limits.max_connections))
      × (((accept true s).1 ≡ true) ↔ (s.loopback < min limits.max_connections 4))
Reach-bounded limits {s} r =
    let v = Reach-IsValid limits r (open_server-IsValid limits) in
    let (remote, local) = served_iff limits s v in
    (omega (arith, v.remote_permits), omega (arith, v.local_permits), remote, local)
