-- ===== src/Dispatch/Tests.antt =====
-- matcher.go on two backends: choices and pump runs, and the theorems applied to them.
use proxycache.Base.{
  ℕ, ℤ, pos, ◌≡◌, refl, ◌↔◌, ◌%◌, ◌&&◌, String, true, false, none, some, List, [], ◌∷◌, arith, any,
  length, if◌then◌else◌, str_eq, lookup, lookup_or, insert, string_eq, nat_eq,
}
use proxycache.Config.{Config}
use proxycache.Samples.{milli, defaults}
use proxycache.Slots.{Slots, new_backend_slot_manager, ensure_pool, try_acquire, release, get_pool}
use proxycache.Dispatch.{CandidateBackend, HitInfo, select_backend}
use proxycache.Dispatch.Choice.{
  IsFallback, AllFull, select_backend-none_iff, select_backend-IsFallback, select_backend-hit,
}
use proxycache.Dispatch.Hits.{OnHit}
use proxycache.Dispatch.Rotation.{select_backend-rotation}
use proxycache.Dispatch.Queues.{ProcRequest, acquired, pump_queue, Dispatcher, try_enqueue}
use proxycache.Dispatch.Bounds.{
  enqueued, pumped, finished, queue_run, IsBounded, queue_run-IsBounded,
}
use proxycache.Dispatch.Pump.{Separate, Splits, pump_queue-Splits}
use proxycache.Dispatch.Grants.{Takes, Stopped, pump_queue-Takes, pump_queue-Stopped}
use proxycache.Dispatch.Migrate.{Registered, migrate_stale}
use proxycache.Dispatch.Moves.{targets, times_queued, migrate_stale-times}
use proxycache.Dispatch.Arrivals.{routed, drain_overflow}
use proxycache.Dispatch.Drains.{Drained, drain_overflow-Drained}

abbrev cands : List CandidateBackend
cands =
    record { backend_id = "gpu:1"; model_name = "llama" }
    ∷ record { backend_id = "gpu:2"; model_name = "llama" }
    ∷ []

abbrev hit : HitInfo
hit = record { backend = "gpu:1"; canonical = "llama" }

-- Three requests wait on the first backend and one on the second.
abbrev depths : String → ℕ
depths b = if str_eq b "gpu:1" then 3 else 1

abbrev one_each : String → ℕ
one_each b = 1

hit_taken : select_backend defaults one_each cands (some hit) 1 ≡ (some 0, "cache_hit")
unfolding select_backend
hit_taken = refl

saturated_hit : select_backend defaults depths cands (some hit) 0 ≡ (some 1, "fallback_round_robin")
unfolding select_backend
saturated_hit = refl

select_backend-none_iff_example :
    ((select_backend defaults depths cands (some hit) 0).0 ≡ none) ↔ AllFull defaults depths cands
select_backend-none_iff_example =
    select_backend-none_iff defaults depths cands (some hit) 0 (omega arith)

select_backend-IsFallback_example :
    IsFallback defaults depths cands "gpu:1" true
      (select_backend defaults depths cands (some hit) 0).0
select_backend-IsFallback_example =
    select_backend-IsFallback defaults depths cands (some hit) 0 (omega arith) refl

select_backend-hit_example :
    (i : ℕ) × (c : CandidateBackend) × (select_backend defaults one_each cands (some hit) 1
      ≡ (some i, "cache_hit"))
    × OnHit hit cands i c
    × (any (λ d. str_eq d.backend_id hit.backend && str_eq d.model_name hit.canonical) cands ≡ true
        → c.model_name ≡ hit.canonical)
select_backend-hit_example = select_backend-hit defaults one_each cands hit 1 refl

select_backend-rotation_example :
    select_backend defaults one_each cands none 5
    ≡ (some (5 % length cands), "fallback_round_robin")
select_backend-rotation_example =
    select_backend-rotation defaults one_each cands 5 1 (omega arith) (omega arith)
      (refl, (refl, tt))

abbrev slots : Slots ℤ
slots = ensure_pool (new_backend_slot_manager "gpu:1") "llama" 1

abbrev gone : ProcRequest ℤ
gone = record {
  id = 1;
  model_name = "llama";
  cancelled = true;
  enqueued_at = pos 0;
  migrated_from = "";
  disk_restore_key = "";
  disk_restore_backend = "";
}

abbrev waiting : ProcRequest ℤ
waiting = record {
  id = 2;
  model_name = "llama";
  cancelled = false;
  enqueued_at = pos 0;
  migrated_from = "";
  disk_restore_key = "";
  disk_restore_backend = "";
}

abbrev late : ProcRequest ℤ
late = record {
  id = 3;
  model_name = "llama";
  cancelled = false;
  enqueued_at = pos 0;
  migrated_from = "";
  disk_restore_key = "";
  disk_restore_backend = "";
}

abbrev queue : List (ProcRequest ℤ)
queue = gone ∷ waiting ∷ late ∷ []

-- The first request's client has gone: its slot goes to the second, and the third waits.
pump_run : (pump_queue defaults (pos 1000) queue [] slots).started ≡ (waiting, acquired 0) ∷ []
unfolding pump_queue try_acquire release get_pool ensure_pool new_backend_slot_manager lookup
    lookup_or insert
pump_run = refl

queue-Separate : Separate queue []
queue-Separate = (refl, refl, (refl, refl, (refl, refl, tt)))

pump_queue-Splits_example : Splits queue [] (pump_queue defaults (pos 1000) queue [] slots)
pump_queue-Splits_example = pump_queue-Splits defaults (pos 1000) queue [] slots queue-Separate

pump_queue-Takes_example : Takes slots (pump_queue defaults (pos 1000) queue [] slots)
pump_queue-Takes_example = pump_queue-Takes defaults (pos 1000) queue [] slots queue-Separate

pump_queue-Stopped_example : Stopped (pos 1000) (pump_queue defaults (pos 1000) queue [] slots)
pump_queue-Stopped_example = pump_queue-Stopped defaults (pos 1000) queue [] slots queue-Separate

abbrev two_queued : Dispatcher ℤ
two_queued = record {
  workers = ("gpu:1", record { queue = waiting ∷ late ∷ []; in_flight = [] }) ∷ [];
  overflow = [];
  discarded = [];
}

abbrev cap_of_two : Config ℤ
cap_of_two = record defaults { backend_queue_max = 2 }

full_queue : (try_enqueue cap_of_two (pos 1000) gone "gpu:1" two_queued).0 ≡ false
unfolding try_enqueue lookup lookup_or
full_queue = refl

abbrev no_queues : Dispatcher ℤ
no_queues = record { workers = []; overflow = []; discarded = [] }

no_queues-IsBounded : IsBounded defaults no_queues
unfolding lookup lookup_or
no_queues-IsBounded b = omega arith

queue_run-IsBounded_example : IsBounded defaults (
    queue_run defaults no_queues (
      enqueued (pos 0) gone "gpu:1"
      ∷ enqueued (pos 0) waiting "gpu:1"
      ∷ pumped (pos 1000) "gpu:1" slots
      ∷ finished "gpu:1" waiting
      ∷ []))
queue_run-IsBounded_example =
    queue_run-IsBounded defaults no_queues
      (enqueued (pos 0) gone "gpu:1"
        ∷ enqueued (pos 0) waiting "gpu:1"
        ∷ pumped (pos 1000) "gpu:1" slots
        ∷ finished "gpu:1" waiting
        ∷ [])
      no_queues-IsBounded

-- Two backends, of which the second is idle when a request without a disk key waits on the first.
abbrev registered : Registered
registered = record { key_order = "gpu:1" ∷ "gpu:2" ∷ []; up = λ b. true; serves = λ model b. true }

one_moves :
    targets defaults registered
      (pos 300000)
      (migrate_stale defaults registered (pos 300000) two_queued).moves
    ≡ "gpu:2" ∷ []
unfolding migrate_stale lookup lookup_or insert
one_moves = refl

migrate_stale-times_example :
    times_queued 2 (migrate_stale defaults registered (pos 300000) two_queued).queues.workers ≡ 1
migrate_stale-times_example = migrate_stale-times defaults registered (pos 300000) 2 two_queued

-- Nothing is known of the model of the request in front.
abbrev parked_two : Dispatcher ℤ
parked_two = record two_queued { overflow = gone ∷ waiting ∷ late ∷ [] }

drain_overflow-Drained_example :
    Drained defaults
      (pos 1000)
      (λ req. routed "gpu:1")
      parked_two
      (drain_overflow defaults (pos 1000) (λ req. routed "gpu:1") parked_two)
drain_overflow-Drained_example =
    drain_overflow-Drained defaults (pos 1000) (λ req. routed "gpu:1") parked_two
