-- ===== src/Main/Start.antt =====
-- The branches of `main`: where it starts a server and where it succeeds.
use mathlib.Core.Path.{subst}
use bitcoin_price_tracker.Prelude.{
  ℕ, ◌≤◌, ◌<◌, ◌≡◌, ◌↔◌, ◌⊎◌, refl, sym, ap, true, false, Option, none, some, String, arith,
  Bool-cases, inl, inr,
}
use bitcoin_price_tracker.Prelude.Results.{Result, ok, err}
use bitcoin_price_tracker.Float.{Float64}
use bitcoin_price_tracker.Config.{RuntimeConfig, Parsed, parse}
use bitcoin_price_tracker.Config.{ok as valid, err as invalid}
use bitcoin_price_tracker.Config.Client.{upstream_client, health_client, database_path}
use bitcoin_price_tracker.Storage.Schema.{File, InitError, init_db}
use bitcoin_price_tracker.Main.{
  success, Launched, Exit, Platform, exit_code, health_address, healthy, healthcheck, launch, run,
  with_listener, with_database, with_file, with_client, with_config, is_healthcheck, main,
}

abbrev value_or : {E A : Type 0} → A → Result E A → A
value_or x (ok y) = y
value_or x (err e) = x

at_ok : {E A : Type 0} (P : A → Type 0) {x y : A} → ◌≡◌ {A = Result E A} (ok x) (ok y) → P y → P x
at_ok P {x} {y} e h = subst P (sym (ap (value_or x) e)) h

abbrev config_or : {A : Type 0} → RuntimeConfig A → Parsed (RuntimeConfig A) → RuntimeConfig A
config_or x (valid y) = y
config_or x (invalid e) = x

at_valid :
    {A : Type 0} (P : RuntimeConfig A → Type 0) {x y : RuntimeConfig A}
    → ◌≡◌ {A = Parsed (RuntimeConfig A)} (valid x) (valid y)
    → P y
    → P x
at_valid P {x} {y} e h = subst P (sym (ap (config_or x) e)) h

module _ {A C W : Type 0} ⦃f : Float64 W⦄ (p : Platform A C W) where
  -- The health endpoint of the configured address answers with a success.
  abbrev pub IsHealthy : RuntimeConfig A → Type 0
  IsHealthy config =
      (client : C) × (p.build health_client ≡ ok client)
      × (status : ℕ) × (p.get_health client (health_address p config.bind_address) ≡ ok status)
      × (200 ≤ status)
      × (status < 300)

  healthy_iff :
      (status : ℕ) → (exit_code (healthy p status) ≡ success) ↔ ((200 ≤ status) × (status < 300))
  healthy_iff status = ground arith

  healthcheck_iff :
      (config : RuntimeConfig A) → (exit_code (healthcheck p config) ≡ success) ↔ IsHealthy config
  unfolding healthcheck
  healthcheck_iff config = ground arith

  with_listener_iff :
      (config : RuntimeConfig A) (client : C) (prepared : File W) (b : Result String (Unit {0}))
      (server : Launched A C W)
      → ((with_listener p config client prepared b).launched ≡ some server)
        ↔ ((b ≡ ok tt) × (server ≡ launch p config client))
  with_listener_iff config client prepared (err e) server = ground arith
  with_listener_iff config client prepared (ok tt) server = ground arith

  with_database_iff :
      (config : RuntimeConfig A) (client : C) (i : File W × Option InitError)
      (server : Launched A C W)
      → ((with_database p config client i).launched ≡ some server)
        ↔ ((i.1 ≡ none) × (p.bind config.bind_address ≡ ok tt) × (server ≡ launch p config client))
  with_database_iff config client (file, some e) server = ground arith
  with_database_iff config client (file, none) server =
      ground (arith, with_listener_iff config client file (p.bind config.bind_address) server)

  -- A file is opened and prepared, and the listener bound.
  abbrev pub IsPrepared : RuntimeConfig A → C → Launched A C W → File W → Type 0
  IsPrepared config client server file =
      ((init_db file).1 ≡ none)
      × (p.bind config.bind_address ≡ ok tt)
      × (server ≡ launch p config client)

  with_file_iff :
      (config : RuntimeConfig A) (client : C) (o : Result String (File W)) (server : Launched A C W)
      → ((with_file p config client o).launched ≡ some server)
        ↔ ((file : File W) × (o ≡ ok file) × IsPrepared config client server file)
  with_file_iff config client (err e) server = (λ h. cc, λ (file, e, rest). cc)
  with_file_iff config client (ok file) server =
      let (to, from) = with_database_iff config client (init_db file) server in
      (
        λ h. (file, refl, to h),
        λ (opened, e, rest). from (at_ok (IsPrepared config client server) e rest),
      )

  abbrev pub IsStarted : RuntimeConfig A → Launched A C W → C → Type 0
  IsStarted config server client =
      (file : File W) × (p.open_connection (database_path p.variable) ≡ ok file)
      × IsPrepared config client server file

  with_client_iff :
      (config : RuntimeConfig A) (b : Result String C) (server : Launched A C W)
      → ((with_client p config b).launched ≡ some server)
        ↔ ((client : C) × (b ≡ ok client) × IsStarted config server client)
  with_client_iff config (err e) server = (λ h. cc, λ (client, e, rest). cc)
  with_client_iff config (ok client) server =
      let (to, from) =
        with_file_iff config client (p.open_connection (database_path p.variable)) server in
      (λ h. (client, refl, to h), λ (built, e, rest). from (at_ok (IsStarted config server) e rest))

  -- A process that has not failed before it started a server ends as the server does.
  abbrev pub EndsWell : Exit A C W → Type 0
  EndsWell x =
      (server : Launched A C W) × (x.launched ≡ some server) × (exit_code (run p server) ≡ success)

  with_listener-success :
      (config : RuntimeConfig A) (client : C) (prepared : File W) (b : Result String (Unit {0}))
      → let x = with_listener p config client prepared b in (x.code ≡ success) ↔ EndsWell x
  with_listener-success config client prepared (err e) = (λ h. cc, λ (server, e, h). cc)
  with_listener-success config client prepared (ok bound) = (
    λ h. (launch p config client, refl, h),
    λ (server, e, h).
        let (bound, same) = (with_listener_iff config client prepared (ok bound) server).0 e in
        subst (λ s. exit_code (run p s) ≡ success) same h,
  )

  with_database-success :
      (config : RuntimeConfig A) (client : C) (i : File W × Option InitError)
      → let x = with_database p config client i in (x.code ≡ success) ↔ EndsWell x
  with_database-success config client (file, some e) = (λ h. cc, λ (server, e, h). cc)
  with_database-success config client (file, none) =
      with_listener-success config client file (p.bind config.bind_address)

  with_file-success :
      (config : RuntimeConfig A) (client : C) (o : Result String (File W))
      → let x = with_file p config client o in (x.code ≡ success) ↔ EndsWell x
  with_file-success config client (err e) = (λ h. cc, λ (server, e, h). cc)
  with_file-success config client (ok file) = with_database-success config client (init_db file)

  with_client-success :
      (config : RuntimeConfig A) (b : Result String C)
      → let x = with_client p config b in (x.code ≡ success) ↔ EndsWell x
  with_client-success config (err e) = (λ h. cc, λ (server, e, h). cc)
  with_client-success config (ok client) =
      with_file-success config client (p.open_connection (database_path p.variable))

  -- The configuration is accepted and a server started, which is what `main` does without its argument.
  abbrev pub Launches : Launched A C W → RuntimeConfig A → Type 0
  Launches server config =
      (is_healthcheck p.argument ≡ false)
      × (client : C) × (p.build upstream_client ≡ ok client)
      × IsStarted config server client

  abbrev pub Succeeds : Exit A C W → RuntimeConfig A → Type 0
  Succeeds x config =
      ((is_healthcheck p.argument ≡ true) × IsHealthy config)
      ⊎ ((is_healthcheck p.argument ≡ false) × EndsWell x)

  choose_iff :
      (config : RuntimeConfig A) (server : Launched A C W)
      → ((with_config p (valid config)).launched ≡ some server) ↔ Launches server config
  choose_iff config server = elim (Bool-cases (is_healthcheck p.argument)) [
    | inl h ↦ rw h (λ e. cc, λ rest. cc)
    | inr h ↦ rw h (
        let (to, from) = with_client_iff config (p.build upstream_client) server in
        (
          λ e. let (client, built, started) = to e in (refl, client, built, started),
          λ (chosen, client, built, started). from (client, built, started),
        ))
  ]

  choose-success :
      (config : RuntimeConfig A)
      → let x = with_config p (valid config) in (x.code ≡ success) ↔ Succeeds x config
  choose-success config = elim (Bool-cases (is_healthcheck p.argument)) [
    | inl h ↦ rw h (
        let (to, from) = healthcheck_iff config in
        (
          λ e. inl (refl, to e),
          λ x. elim x [ inl (chosen, rest) ↦ from rest | inr (chosen, rest) ↦ cc ],
        ))
    | inr h ↦ rw h (
        let (to, from) = with_client-success config (p.build upstream_client) in
        (
          λ e. inr (refl, to e),
          λ x. elim x [ inl (chosen, rest) ↦ cc | inr (chosen, rest) ↦ from rest ],
        ))
  ]

  with_config_iff :
      (parsed : Parsed (RuntimeConfig A)) (server : Launched A C W)
      → ((with_config p parsed).launched ≡ some server)
        ↔ ((config : RuntimeConfig A) × (parsed ≡ valid config) × Launches server config)
  with_config_iff (invalid e) server = (λ h. cc, λ (config, e, rest). cc)
  with_config_iff (valid config) server =
      let (to, from) = choose_iff config server in
      (λ h. (config, refl, to h), λ (read, e, rest). from (at_valid (Launches server) e rest))

  with_config-success :
      (parsed : Parsed (RuntimeConfig A))
      → let x = with_config p parsed in
        (x.code ≡ success)
        ↔ ((config : RuntimeConfig A) × (parsed ≡ valid config) × Succeeds x config)
  with_config-success (invalid e) = (λ h. cc, λ (config, e, rest). cc)
  with_config-success (valid config) =
      let (to, from) = choose-success config in
      (
        λ h. (config, refl, to h),
        λ (read, e, rest). from (at_valid (Succeeds (with_config p (valid config))) e rest),
      )

  pub main-Launches :
      (server : Launched A C W)
      → ((main p).launched ≡ some server) ↔ (
          (config : RuntimeConfig A) × (parse p.parse_usize p.parse_address p.port p.default_address
              p.variable
            ≡ valid config)
          × Launches server config)
  unfolding main
  main-Launches server =
      with_config_iff (parse p.parse_usize p.parse_address p.port p.default_address p.variable)
        server

  pub main-Succeeds : ((main p).code ≡ success) ↔ (
      (config : RuntimeConfig A) × (parse p.parse_usize p.parse_address p.port p.default_address
          p.variable
        ≡ valid config)
      × Succeeds (main p) config)
  unfolding main
  main-Succeeds =
      with_config-success (parse p.parse_usize p.parse_address p.port p.default_address p.variable)
