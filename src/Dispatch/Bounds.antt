-- ===== src/Dispatch/Bounds.antt =====
-- The queues of matcher.go over any history of the dispatcher: arrivals, parked requests, pumps,
-- finished workers and the emptying at shutdown.
use proxycache.Base.{
  ◌≤◌, ◌≡◌, refl, inl, inr, String, Bool, true, false, ◌&&◌, Option, none, some, List, [], ◌∷◌,
  ◌++◌, Map, arith, length, length-append, lookup, lookup_or, insert, lookup_or-insert, ltb, leb,
  if◌then◌else◌, str_eq, str_eq_iff, string_eq, FloatOps, Bool-cases, Option-cases,
}
use proxycache.Config.{Config}
use proxycache.Slots.{Slots}
use proxycache.Dispatch.Queues.{
  ProcRequest, BackendWorker, Dispatcher, Grant, Pumped, idle_worker, get_worker, queue_depth,
  try_enqueue, park_overflow, take_queues, take_parked, drop_in_flight, grant_for, give_back,
  drop_request, pump_round, pump_queue, pump_backend,
}

module _ {F : Type 0} ⦃fl : FloatOps F⦄ where
  -- A request is accepted exactly when the backend's queue is below the cap. It then goes to the end
  -- of that queue with the time noted, and no other queue changes.
  pub try_enqueue_lem :
      (cfg : Config F) (now : F) (req : ProcRequest F) (backend other : String) (d : Dispatcher F)
      → let (ok, d') = try_enqueue cfg now req backend d in
        (ok ≡ ltb (queue_depth d backend) cfg.backend_queue_max)
        × ((get_worker d' other).queue ≡ (
            if ok && str_eq backend other
            then (get_worker d other).queue ++ record req { enqueued_at = now } ∷ []
            else (get_worker d other).queue))
  unfolding try_enqueue queue_depth
  try_enqueue_lem cfg now req backend other d =
      elim (Bool-cases (leb cfg.backend_queue_max (length (get_worker d backend).queue))) [
        | inl full ↦
            rw (full, try_enqueue)
              (
                ground arith,
                ground (
                  arith,
                  str_eq_iff backend other,
                  lookup_or-insert idle_worker backend other (get_worker d backend) d.workers,
                ),
              )
        | inr room ↦
            rw (room, try_enqueue)
              (
                ground arith,
                ground (
                  arith,
                  str_eq_iff backend other,
                  lookup_or-insert idle_worker backend other
                      (record {
                        queue =
                            (get_worker d backend).queue ++ record req { enqueued_at = now } ∷ [];
                        in_flight = (get_worker d backend).in_flight;
                      })
                      d.workers,
                ),
              )
      ]

-- One step of the dispatcher on its queues. A pump comes with the slots of its backend.
pub data QueueOp (F : Type 0) : Type 0 where
  enqueued : F → ProcRequest F → String → QueueOp F
  parked : ProcRequest F → QueueOp F
  pumped : F → String → Slots F → QueueOp F
  finished : String → ProcRequest F → QueueOp F
  emptied : QueueOp F

module _ {F : Type 0} ⦃fl : FloatOps F⦄ (cfg : Config F) where
  unfoldable pub queue_step : Dispatcher F → QueueOp F → Dispatcher F
  unfolding try_enqueue park_overflow pump_backend drop_in_flight take_parked
  queue_step d (enqueued now req backend) = (try_enqueue cfg now req backend d).1
  queue_step d (parked req) = park_overflow req d
  queue_step d (pumped now backend slots) = (pump_backend cfg now backend d slots).1
  queue_step d (finished backend req) = drop_in_flight backend req d
  queue_step d emptied = (take_parked d).1

  unfoldable pub queue_run : Dispatcher F → List (QueueOp F) → Dispatcher F
  unfolding queue_step
  queue_run d [] = d
  queue_run d (op ∷ ops) = queue_run (queue_step d op) ops

  -- No queue is longer than the cap.
  abbrev pub IsBounded : Dispatcher F → Type 0
  IsBounded d = (b : String) → length (get_worker d b).queue ≤ cfg.backend_queue_max

  pump_round-le :
      (now : F) (req : ProcRequest F) (queue in_flight : List (ProcRequest F)) (slots : Slots F)
      (g : Option Grant) (c : Bool) (loop : List (ProcRequest F) → Slots F → Pumped F)
      → ((i : List (ProcRequest F)) (s : Slots F) → length (loop i s).queue ≤ length queue)
      → length (pump_round cfg now req queue in_flight slots g c loop).queue ≤ length (req ∷ queue)
  unfolding pump_round
  pump_round-le now req queue in_flight slots none c loop h = omega arith
  pump_round-le now req queue in_flight slots (some g) true loop h =
      let k = h (drop_request req.id (in_flight ++ req ∷ [])) (give_back cfg g slots now) in
      omega arith
  pump_round-le now req queue in_flight slots (some g) false loop h =
      let k = h (in_flight ++ req ∷ []) slots in omega arith

  pump_queue-le :
      (now : F) (queue in_flight : List (ProcRequest F)) (slots : Slots F)
      → length (pump_queue cfg now queue in_flight slots).queue ≤ length queue
  unfolding pump_queue
  pump_queue-le now [] in_flight slots = omega arith
  pump_queue-le now (req ∷ queue) in_flight slots =
      pump_round-le now req queue in_flight (grant_for slots req.model_name in_flight now).1
        (grant_for slots req.model_name in_flight now).0 req.cancelled (pump_queue cfg now queue)
        (pump_queue-le now queue)

  set_worker-IsBounded :
      (d : Dispatcher F) (workers : Map String (BackendWorker F)) (backend : String)
      (w : BackendWorker F)
      → IsBounded d
      → workers ≡ insert backend w d.workers
      → length w.queue ≤ cfg.backend_queue_max
      → (b : String) → length (lookup_or idle_worker b workers).queue ≤ cfg.backend_queue_max
  set_worker-IsBounded d workers backend w h e l b =
      let at = h b in ground (arith, lookup_or-insert idle_worker backend b w d.workers)

  try_enqueue-IsBounded :
      (now : F) (req : ProcRequest F) (backend : String) (d : Dispatcher F)
      → IsBounded d
      → IsBounded (try_enqueue cfg now req backend d).1
  unfolding queue_depth
  try_enqueue-IsBounded now req backend d h b =
      let at = h b in
      let (ok, queue) = try_enqueue_lem cfg now req backend b d in
      let longer = length-append (get_worker d b).queue (record req { enqueued_at = now } ∷ []) in
      ground (arith, str_eq_iff backend b)

  pump_backend-IsBounded :
      (now : F) (backend : String) (d : Dispatcher F) (slots : Slots F)
      → IsBounded d
      → IsBounded (pump_backend cfg now backend d slots).1
  unfolding pump_backend lookup_or
  pump_backend-IsBounded now backend d slots h = elim (Option-cases (lookup backend d.workers)) [
    | inl e ↦ rw (e, pump_backend) h
    | inr (w, e) ↦
        rw (e, pump_backend)
          (set_worker-IsBounded d _ backend _ h refl (
            let l = pump_queue-le now w.queue w.in_flight slots in
            let at = h backend in ground arith))
  ]

  take_queues-empty :
      (ws : Map String (BackendWorker F)) (b : String)
      → (lookup_or idle_worker b (take_queues ws).1).queue ≡ []
  unfolding take_queues lookup_or lookup
  take_queues-empty [] b = refl
  take_queues-empty ((backend, w) ∷ ws) b = ground (arith, take_queues-empty ws b)

  queue_step-IsBounded :
      (d : Dispatcher F) (op : QueueOp F) → IsBounded d → IsBounded (queue_step d op)
  unfolding queue_step park_overflow drop_in_flight take_parked
  queue_step-IsBounded d (enqueued now req backend) h = try_enqueue-IsBounded now req backend d h
  queue_step-IsBounded d (parked req) h = h
  queue_step-IsBounded d (pumped now backend slots) h = pump_backend-IsBounded now backend d slots h
  queue_step-IsBounded d (finished backend req) h =
      set_worker-IsBounded d _ backend _ h refl (h backend)
  queue_step-IsBounded d emptied h = λ b. let e = take_queues-empty d.workers b in ground arith

  -- If no backend's queue is longer than the cap, then this stays so after arrivals, parked
  -- requests, pumps, finished workers and the emptying of all queues, in any order.
  pub queue_run-IsBounded :
      (d : Dispatcher F) (ops : List (QueueOp F)) → IsBounded d → IsBounded (queue_run d ops)
  unfolding queue_run
  queue_run-IsBounded d [] h = h
  queue_run-IsBounded d (op ∷ ops) h =
      queue_run-IsBounded (queue_step d op) ops (queue_step-IsBounded d op h)
