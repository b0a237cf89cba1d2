-- ===== src/Worker/Tests.antt =====
-- The worker on one backend, and the theorems applied to it.
use proxycache.Base.{
  or_else, ℕ, ◌*◌, ℤ, pos, ◌+ℤ◌, leb, ◌≡◌, ◌≢◌, refl, inl, inr, String, true, false, none, some,
  List, [], ◌∷◌, arith, eqb, if◌then◌else◌, string_eq, nat_eq, lookup_or, lookup, insert,
}
use proxycache.Samples.{milli, defaults}
use proxycache.Slots.{Slots, CacheHitType, busy, get_kv_state, try_acquire, flush_save_skipped}
use proxycache.Ring.{Ring, RingEnv}
use proxycache.Ring.Sums.{sum_sizes}
use proxycache.Ring.History.{IsKept}
use proxycache.Worker.{Worker, WorkerEnv, RouteDecision, ProcRequest}
use proxycache.Worker.Acquire.{Attempts, got, acquire_slot_on_backend}
use proxycache.Worker.Restore.{Polls, resolve_restore_key}
use proxycache.Worker.Save.{Serving, ChatAnswer}
use proxycache.Worker.Stream.{StreamEnd, StreamAnswer, cleanup}
use proxycache.Worker.Process.{Answers, request_blocks, serve, process_worker_request}
use proxycache.Worker.Released.{
  process_worker_request-releases, process_worker_request-gives_back, given_back,
}
use proxycache.Worker.Kept.{process_worker_request-IsKept}
use proxycache.Worker.Answered.{times, is_reply, is_end, process_worker_request-answers}
use proxycache.Worker.Trying.{EndsFair, acquire_slot_on_backend-Fair, acquire_slot_on_backend-ends}
use proxycache.Worker.Waits.{
  LeavesAt, Ticks, resolve_restore_key_iff, wait_for_transfer_complete-ends,
}
use proxycache.Worker.Failures.{serve-failed, process_worker_request-put_back, cleanup_incomplete}

-- Slot 0 is taken for the request, slot 1 is free.
abbrev two_slots : Slots ℤ
two_slots = record {
  backend_id = "gpu:1";
  slot_pools = ("llama", 0 ∷ 1 ∷ []) ∷ [];
  in_use = (0, true) ∷ (1, false) ∷ [];
  last_used = (0, pos 7000) ∷ [];
  slot_kv_state = (0, "a" ∷ []) ∷ [];
  slot_save_skipped = [];
  slot_acquired_at = (0, pos 7000) ∷ [];
  slot_duration_ema = pos 0;
}

abbrev ring_env : RingEnv ℤ
ring_env = record {
  backend_id = "gpu:1";
  max_size_gb = pos 2000;
  words_per_block = 100;
  removes = λ k. true;
}

abbrev env : WorkerEnv ℤ
env = record {
  cfg = defaults;
  ring_env = ring_env;
  now = pos 8000;
  released_at = pos 9000;
  n_ctx = pos 16384;
  cache_enabled = true;
  save_slot = λ s key model. some (true, pos 5000);
  restore_slot = λ s key model. true;
  exists = λ key. false;
  arrived = λ key. true;
  in_flight = λ key. true;
  remote_size = λ key. pos 1000000;
}

-- Tokens are numbers, printed as one mark each; the hash is the text itself.
abbrev join_itoa : List ℕ → String
join_itoa [] = ""
join_itoa (t ∷ ts) = "t"

abbrev route : RouteDecision ℤ ℕ
route = record {
  model_name = "llama";
  prompt_tokens = pos 200;
  first_token_ids = 1 ∷ 2 ∷ [];
  backend_token_ids = [];
  backend_blocks = ("gpu:1", "b" ∷ "c" ∷ []) ∷ [];
  backend_cache_ratios = ("gpu:1", pos 100) ∷ [];
  hit_type = some CacheHitType.disk_restore;
  best_ratio = pos 500;
  restore_key = "k1";
  restore_backend = "gpu:2";
  disk_restore_key = "k1";
  disk_restore_backend = "gpu:2";
}

abbrev req : ProcRequest ℤ ℕ
req = record {
  stream = false;
  migrated_from = "";
  message_score = none;
  class_score = pos 0;
  t0 = pos 1000;
  route = route;
}

abbrev streaming : ProcRequest ℤ ℕ
streaming = record req { stream = true }

abbrev no_entries : Ring ℤ
no_entries = record { cache_ring = []; total_bytes = pos 0; metas = []; deletes = [] }

abbrev idle : Worker ℤ
idle = record { slots = two_slots; ring = no_entries; events = [] }

abbrev ended : StreamEnd
ended = record {
  stream_complete = false;
  cancelled = true;
  sse_prompt_tokens = pos 0;
  sse_cached_tokens = pos 0;
}

abbrev works : Answers
works = record {
  chat = ChatAnswer.answered (record { cached_tokens = pos 150; llm_prompt_tokens = pos 200 });
  stream = StreamAnswer.streamed ended;
}

abbrev fails : Answers
fails = record { chat = ChatAnswer.chat_failed; stream = StreamAnswer.bad_status 500 }

-- Another worker takes slot 1 before the first attempt and gives it back before the second.
abbrev attempts : Attempts ℤ
attempts = record {
  before = λ i b. record b { in_use = insert 1 (eqb i 0) b.in_use };
  refresh = λ i b. b;
  now = λ i. pos 8000;
  gone = λ i. false;
  gone_after = λ i. false;
  gone_asleep = λ i. eqb i 3;
  serves = λ i. true;
}

-- The whole run: two blocks of tokens are saved under the request's key.
run_saves :
    (process_worker_request
      (λ s. s)
      join_itoa
      env
      works
      attempts
      5
      req
      (some 0)
      idle).ring.total_bytes
    ≡ pos 5000
unfolding process_worker_request lookup lookup_or flush_save_skipped ◌+ℤ◌
run_saves = refl

process_worker_request-releases_example :
    let after =
      process_worker_request (λ s. s) join_itoa env works attempts 5 streaming (some 0) idle in
    ((t : ℕ) → busy after.slots t ≡ (if eqb 0 t then false else busy two_slots t))
    × (after.slots.slot_pools ≡ two_slots.slot_pools)
process_worker_request-releases_example =
    process_worker_request-releases env (λ s. s) join_itoa works attempts 5 streaming 0 idle

process_worker_request-gives_back_example :
    let after = process_worker_request (λ s. s) join_itoa env works attempts 5 req none idle in
    let (result, b) = acquire_slot_on_backend attempts "llama" 5 0 two_slots in
    busy after.slots 1 ≡ (if given_back result 1 then false else busy b 1)
process_worker_request-gives_back_example =
    process_worker_request-gives_back env (λ s. s) join_itoa works attempts 5 req idle refl 1

no_entries-IsKept : IsKept ring_env no_entries
unfolding sum_sizes
no_entries-IsKept = record { inv = record { accounted = refl; distinct = tt }; within = inr refl }

process_worker_request-IsKept_example :
    IsKept ring_env
      (process_worker_request (λ s. s) join_itoa env works attempts 5 req (some 0) idle).ring
process_worker_request-IsKept_example =
    process_worker_request-IsKept env (λ s. s) join_itoa works attempts 5 req (some 0) idle
      no_entries-IsKept

process_worker_request-answers_example :
    let after = process_worker_request (λ s. s) join_itoa env fails attempts 5 req (some 0) idle in
    (times is_reply after.events ≡ 1) × (times is_end after.events ≡ 1)
process_worker_request-answers_example =
    process_worker_request-answers env req (λ s. s) join_itoa fails attempts 5 0 idle

second_attempt : (acquire_slot_on_backend attempts "llama" 5 0 two_slots).0 ≡ some (got 1 none)
unfolding acquire_slot_on_backend lookup lookup_or try_acquire insert
second_attempt = refl

not-none : (acquire_slot_on_backend attempts "llama" 5 0 two_slots).0 ≢ none
not-none e = ground (arith, second_attempt)

acquire_slot_on_backend-Fair_example :
    EndsFair attempts "llama" 5 0 two_slots (acquire_slot_on_backend attempts "llama" 5 0 two_slots)
acquire_slot_on_backend-Fair_example =
    acquire_slot_on_backend-Fair attempts "llama" 5 0 two_slots not-none

acquire_slot_on_backend-ends_example :
    (acquire_slot_on_backend attempts "none" 4 0 two_slots).0 ≢ none
acquire_slot_on_backend-ends_example =
    acquire_slot_on_backend-ends attempts "none" 3 4 0 two_slots (inl refl) (omega arith)
      (omega arith)

resolve_restore_key_iff_example : (resolve_restore_key env route "gpu:1" false).1 ≡ "k1"
resolve_restore_key_iff_example = resolve_restore_key_iff env route "gpu:1" false

-- The transfer runs for three polls.
abbrev polls : Polls
polls = record { in_flight = λ i. leb i 2; clock = λ i. i * 100; gone = λ i. false }

ticks : Ticks polls
ticks i = omega arith

wait_for_transfer_complete-ends_example : (n : ℕ) × LeavesAt polls 5000 52 0 n
wait_for_transfer_complete-ends_example = wait_for_transfer_complete-ends polls 5000 ticks

serve-failed_example :
    get_kv_state (serve (λ s. s) join_itoa env fails req 0 (some ("a" ∷ [])) idle).slots 0
    ≡ some ("b" ∷ "c" ∷ [])
unfolding lookup_or
serve-failed_example =
    serve-failed env (λ s. s) join_itoa fails req 0 (some ("a" ∷ [])) idle refl tt

process_worker_request-put_back_example :
    let after =
      process_worker_request (λ s. s) join_itoa env fails attempts 5 streaming (some 0) idle in
    get_kv_state after.slots 0
    ≡ some (or_else (request_blocks env streaming) (get_kv_state two_slots 0))
process_worker_request-put_back_example =
    process_worker_request-put_back env (λ s. s) join_itoa fails attempts 5 streaming 0 idle refl
      refl tt

abbrev serving : Serving
serving = record {
  slot = 0;
  key = "k2";
  blocks = "b" ∷ [];
  restored = some true;
  routing_reason = "cache_hit";
  eff_restore_key = "k1";
  eff_restore_backend = "gpu:1";
}

cleanup_incomplete_example :
    let after = cleanup env streaming serving ended idle in
    (get_kv_state after.slots 0 ≡ none) × (after.ring ≡ no_entries)
cleanup_incomplete_example =
    cleanup_incomplete env (λ s. s) join_itoa streaming serving ended idle refl
