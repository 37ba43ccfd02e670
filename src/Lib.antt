-- ===== src/Lib.antt =====
-- bitcoin_price_tracker: a web service that asks four providers for the price of Bitcoin, stores the
-- latest quotes, and serves an average with a judgement of how fresh it is.
--
-- Parts, and where they are modelled (source files under src/ of the repository):
--
-- * src/refresh.rs, Refresh: `RefreshCoordinator` decides when a refresh may start and which
--   providers it asks (`begin`), and turns the outcome into backoff deadlines (`complete`).
--   Refresh.Begin and Refresh.Plans are about `begin`, Refresh.Settle about `complete`,
--   Refresh.Rotation about the fairness of the round robin, Refresh.Trace about runs.
-- * src/pricing.rs, Source: the four providers, their order and names. Pricing: Pricing.Decode reads
--   an answer up to its limit, Pricing.Payload takes the price out of it, Pricing.Merge merges,
--   orders and summarises quotes, Pricing.Refresh is `fetch_selected_sources` and
--   `refresh_snapshot`. Pricing.Bounded is about the body, Pricing.Accepted about the payloads,
--   Pricing.Merged, Pricing.Ordered and Pricing.Reload about merging, Pricing.Positive and
--   Pricing.Saved about a refresh.
-- * src/errors.rs, Errors: why a request failed, the hint of a `Retry-After` header (Errors.Retry),
--   and the record of the failure that is stored (Errors.Health).
-- * src/config.rs, Config: the settings that are read from the environment (Config.Valid), and those
--   of the clients with the addresses of the providers and of the database (Config.Client).
-- * src/freshness.rs, Freshness: `evaluate_quotes` judges stored quotes (Freshness.Age), picks the
--   newest fresh one of each provider (Freshness.Newest), and reports average, spread
--   (Freshness.Range), coverage and status (Freshness.Status, Freshness.Verdict).
-- * src/presence.rs, Presence: the viewers that keep the service polling (Presence.Viewers), session
--   names and the tests before a refresh (Presence.Sessions).
-- * src/news.rs, News: the feed cache with one background task at a time (News.Cache) and the checks
--   of a fetched feed (News.Feed).
-- * src/models.rs and src/models/source_contract.rs, Models: the records that the parts exchange.
--   Models.Wire has their JSON values, Models.Contract the tests of docs/source-contract.md for
--   these (Models.Conforms).
-- * src/storage.rs, Storage: the rows of the tables and the encodings, the writes of a refresh
--   (Storage.Write), the queries of a load (Storage.Read); Storage.Rows is about single rows,
--   Storage.RoundTrip about lists of them, Storage.Commit and Storage.Saved about a refresh that
--   is stored and Storage.Failure about one that is not. Storage.Schema is `init_db` with the
--   migration and the pruning, Storage.Startup and Storage.Init are about it.
-- * src/handlers.rs and src/state.rs, Handlers: `update_presence`, `cached_prices` and `health`;
--   Handlers.Task is the task that `cached_prices` spawns. Handlers.World is a step relation of
--   requests, the task and a shutdown, Handlers.Responses is about one answer, Handlers.Starts
--   about when a refresh starts, Handlers.Served about the answer after it, Handlers.Contract
--   about the JSON of answers, Handlers.Activation about the first viewer, Handlers.Shutdown and
--   Handlers.Spacing about runs.
-- * src/limits.rs, Limits: the token bucket and the slots of each route group (Limits.Slots), and
--   how many requests a bucket lets through (Limits.Rate).
-- * src/lifecycle.rs, Lifecycle: the connections that are served, and the shutdown
--   (Lifecycle.Connections, Lifecycle.Drain). Lifecycle.Timeline is the same with its clock: the
--   accept loop, the life of a connection and the deadlines (Lifecycle.Grace).
-- * src/app.rs, App: the routes, with the limits and the headers around them and the responses of
--   the handlers; App.Secured is about the headers, App.Isolated about what a request leaves
--   alone, App.Moves about what it does to the handlers' state, App.World about runs of the router
--   beside the tasks. App.Dropped is what a handler that is dropped has written.
-- * src/main.rs, Main: the process from the environment to its exit code. Main.Start is about its
--   branches, Main.Outcome about the server that it starts and its exit code.
-- * src/ui.rs, Ui: the headers of every response and the entity tags of the assets (Ui.Tag,
--   Ui.Revalidation).
--
-- How they interact: a request passes Limits, counts the viewers (Presence), and lets the
-- coordinator plan a refresh (Refresh). A plan spawns a task that owns the coordinator: it asks the
-- planned providers (Pricing), stores what they answer (Storage), reports the outcome back to the
-- coordinator and leaves a report for the next requests. Each response evaluates the stored quotes
-- (Freshness). The feed is independent of this. At a shutdown Lifecycle drains the connections and
-- waits for the task.
--
-- Conventions. A method that mutates its receiver returns the new record. An `Instant` and a
-- `Duration` are nanoseconds in the native numbers, `saturating_duration_since` is the subtraction
-- that stops at 0, and the latest instant that a platform can represent is a parameter of
-- `complete`; the additions that the source writes with `+` on an `Instant` are exact. Wall-clock
-- seconds are signed, and `checked_sub` fails outside an `i64`. The generation counter is a `u64`
-- and wraps, the failure counters are `u32` and saturate. A `HashMap` with string keys is an
-- association list (Dict); nothing depends on its order. A fixed text that a function returns is a
-- constructor. Loops are structural recursion over what the source iterates over, so no fuel is used
-- anywhere.
--
-- The layers of axum are written out in App: a path is compared as text, a route that does not allow
-- the method answers 405, an unknown path 404, and a presence update whose content type is not JSON
-- or whose body is too long 415 or 413. Of the headers only those that the source sets are there. A
-- handler that its deadline drops (`Deadline`) has written what stands before the await it waited
-- at. In App.World a request is one step; the slots of requests that overlap are in Limits.Slots.
--
-- On the timeline of Lifecycle a timer fires at its instant, a task that is aborted ends then, and
-- the loop may be left some time after the shutdown was asked for.
--
-- In Handlers.World what a request reads of the clocks and the store may be any value. A request
-- takes its reads and its writes in one step, or it takes the guard of the coordinator in one step
-- (`acquire`), holds it over its awaits and answers in another (`answer`), finds the guard taken and
-- answers once it is free again (`pass`), or is cut off while it holds it (`drop`). The shutdown
-- takes the guard and drops it in the same way. The task takes one step to look at the flag, one to
-- count the viewers, one for its requests with the transaction, and one for its report. A permit of
-- a semaphore is a counter that is one less while it is held.
--
-- Foreign code is a parameter: the calls of reqwest, httpdate and serde_json that a fetch makes and
-- `str::parse` at `f64` (the record `Libraries`), the header values of http (`HeaderValues`), the
-- hash of an asset, the values and operations of `f64` (Float, with the facts about IEEE 754 that
-- theorems use as the records `IsFloat` and, on whole numbers, `IsExact` of Float.Whole), the error
-- types of reqwest and serde_json, the parsers of numbers and addresses, the JSON form of the stored
-- warnings, and the texts of statuses, numbers and dates. The environment, the arguments, the
-- clients, the listener and the run of a server are the record `Platform` of Main, the extractor of
-- a payload and the assets the record `Outside` of App. A body arrives as a list of chunks that may
-- end in an error. Mutexes show as exclusive steps: the guard of the coordinator is held by one
-- request, by the shutdown, or by the task from its spawn to its end, the feed cache only for the
-- length of a step.
--
-- SQLite is modelled by what its statements mean on lists of rows: a transaction that is not
-- committed leaves the tables as they were, a deleted snapshot takes its price rows with it, and a
-- NaN is stored as NULL. A file of version 0 may lack any of its tables, and the columns that the
-- migration adds come together; it is assumed that a file of another version has the tables of
-- version 1. A file that does not open is a call of `Platform`; other errors of the file system are
-- left out. The `quote_kind` check of `source_prices` always holds of a written row.
--
-- Not modelled: the page and its script, what hyper does on a connection, the signals of the
-- process, the files and threads under SQLite, the parsing of a presence payload, the text of a JSON
-- value, the logging, the async runtime and the system clock.
pub mod App
pub mod Config
pub mod Dict
pub mod Errors
pub mod Float
pub mod Freshness
pub mod Handlers
pub mod Lifecycle
pub mod Limits
pub mod Main
pub mod Models
pub mod News
pub mod Prelude
pub mod Presence
pub mod Pricing
pub mod Refresh
pub mod Source
pub mod Storage
pub mod Tests
pub mod Time
pub mod Ui
