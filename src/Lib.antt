-- ===== src/Lib.antt =====
-- proxycache: a model of the KV-cache routing proxy (package proxycache, in Go), with its theorems.
--
-- The proxy stands before several llama.cpp backends. A chat request is tokenized and cut into
-- blocks, whose hashes are compared with those of the caches saved on disk and held in slots; the
-- matcher chooses a backend, queues the request there, and the pump hands the head of each queue to
-- a worker as slots become free. After the answer the worker may save the slot's cache, which enters
-- the backend's cache ring; the ring keeps the backend within its disk budget.
--
-- Files and what they model:
--   Base: lists and finite maps over native numbers, signed integers, keys, and float64 as an
--     interface (`FloatOps`) with the laws of comparison that a theorem may assume (`FloatLaws`).
--   Config (config.go): the settings that the modelled code reads; Config/Heuristics: the tests
--     that decide whether a cache is saved, and `is_recompute` of app.go. Samples: the settings'
--     defaults, and floats as thousandths, at which the theorems are instantiated.
--   Hashing (hashing.go): `block_hashes_from_tokens` and `lcp_blocks`. The hash and the printing of
--     numbers are parameters.
--   Meta (kvmeta.go): the tree of meta files as a value, `write_meta`, `delete_meta_file`,
--     `increment_recompute_penalty` and the readers; Meta/Search: `find_best_restore_candidate`.
--   Slots (slotmanager.go): the pools of a backend with `ensure_pool`, `try_acquire`, `release`,
--     `should_skip_restore` and the skipped saves. A method takes the state and gives the new one,
--     the clock's reading is an argument, and an id of -1 is `none`.
--   Ring (slotmanager.go): the cache ring with `evict_if_needed` and everything that it calls, and
--     its callers (Ring/Evict): `record_save` for `SaveAfter`, `add_transferred_entry`,
--     `touch_ring` and `init_from_disk`. `deletes` records the calls of `CacheDelete`.
--   Dispatch (matcher.go): `select_backend`, and in Dispatch/Queues the dispatcher's queues:
--     `try_enqueue`, `park_overflow`, `take_parked`, `drop_in_flight` and `pump_backend`, which
--     runs on the slots of Slots.
--     Dispatch/Scan and Dispatch/Match: `match`, from the models of the request to the route and the
--     transfer that it asks for, with the backends' answers as arguments. Dispatch/Arrivals:
--     `handle_arrival` and `drain_overflow`, which take from `match` what `answer_of` makes of it.
--     Dispatch/Migrate: `migrate_stale`, with the transfers that it registers.
--   Worker (processor.go): `process_worker_request` over the slots and the ring of one backend.
--     Its parts are Worker/Acquire (`acquire_slot_on_backend`), Worker/Restore (the key to restore,
--     the wait for a transfer, the flush of a skipped save, `do_worker_restore`), Worker/Save
--     (`save_after` and the accounts of app.go), Worker/Stream (`serve_stream` and `cleanup` of
--     app.go) and Worker/Process (the request from its blocks to its answer). What the backend
--     answers is a record of arguments; the trace lists what the client and the dispatcher see.
--   Metrics (metrics.go): the record buffer of `MetricsCollector` with its index by id, the
--     counters, and in Metrics and Metrics/Queries the queries on it.
--   Registry (backendmanager.go): the merge of what the backends list as their models, and the
--     lookups of a model's backends and context sizes.
--   Transfer (transfer.go): the tracker of transfers in flight, and `run_cache_transfer`, whose file
--     moves are answers given in advance (`TransferEnv`).
--   Theorems stand in the child modules named for what they prove, tests and instances of the
--   theorems in the modules Tests.
--
-- How the code is read:
--   A method is one step: a lock is held throughout it, but for `match`, `drainOverflow`, the pump
--   and the worker, which let go of it between their rounds and calls and are modelled without
--   other goroutines in between, except for the worker's search for a slot. Where the order of
--   calls matters a theorem speaks of any sequence of steps (`Slots.Exclusion.Steps`,
--   `Ring.History.ring_run`). Logging is left out. Go maps are association lists; a theorem holds
--   for every order of theirs.
--   Loops are structural recursion over the list that they run through. Two run on a count:
--   `chunks` on the number of tokens, of which every round takes one or more, and `visits` on the
--   number of candidates, as in the source. The pump's loop takes a request off the queue in each
--   round and is recursion on the queue; the wake-ups of its workers are calls of their own.
--   The loops that wait for another goroutine run on fuel and answer `none` without enough of it:
--   the loop that acquires a slot, where a round that sleeps sees the slots that others leave, and
--   the wait for a transfer, where `wait / 100 + 2` polls always suffice.
--   Sizes are unbounded integers: byte counts stay far below 2^63.
--
-- Not modelled: HTTP, the dashboard, the building of JSON bodies and the reader and writer of a
-- stream (`ReadLoop`, `run`) in app.go, whose end is an argument of `serve_stream`; the
-- diagnostics of `match`, `rescanMigratedTarget`, `Stop` and `AbortAll` in matcher.go; the models
-- named by a common prefix, the liveness loop and the requests of slot counts in backendmanager.go;
-- the performance figures and summaries of metrics.go; the file moves of transfer.go; the clients
-- llamaclient.go and cacheagent.go and the agent cache-agent/main.go, which are input and output;
-- logger.go, entry.go and the old Python program under archive/. JSON is not modelled: a meta file
-- is what the accessors read in it. The backend's answers to a save, a restore
-- and a chat are parameters. Failing writes of meta files are left out, failing removals are
-- modelled.
pub mod Base
pub mod Config
pub mod Samples
pub mod Hashing
pub mod Slots
pub mod Meta
pub mod Ring
pub mod Dispatch
pub mod Transfer
pub mod Worker
pub mod Metrics
pub mod Registry
