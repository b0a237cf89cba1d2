-- ===== src/Dispatch/Queues.antt =====
-- The request dispatcher of matcher.go: the queues of the backends, the overflow queue, and the
-- pump that hands requests to workers. A request is what the queues need of it; what the
-- dispatcher discards, it appends to `discarded`.
use proxycache.Base.{
  ℕ, String, Bool, true, false, Option, none, some, List, [], ◌∷◌, ◌++◌, Map, lookup, lookup_or,
  insert, length, eqb, leb, if◌then◌else◌, string_eq, FloatOps,
}
use proxycache.Config.{Config}
use proxycache.Slots.{Slots, get_pool, try_acquire, release}

-- `id` stands for the pointer of the request; the model and the disk key are those of its route,
-- which every queued request has.
pub record ProcRequest (F : Type 0) : Type 0 where
  pub id : ℕ
  pub model_name : String
  pub cancelled : Bool
  pub enqueued_at : F
  pub migrated_from : String
  pub disk_restore_key : String
  pub disk_restore_backend : String

pub record BackendWorker (F : Type 0) : Type 0 where
  pub queue : List (ProcRequest F)
  pub in_flight : List (ProcRequest F)

pub record Dispatcher (F : Type 0) : Type 0 where
  pub workers : Map String (BackendWorker F)
  pub overflow : List (ProcRequest F)
  pub discarded : List (ProcRequest F)

-- A slot that the pump hands to a worker: an acquired one, or none yet (-2: the worker discovers
-- the pool itself).
pub data Grant : Type 0 where
  acquired : ℕ → Grant
  bootstrap : Grant

-- What one call of `pumpBackend` leaves: the queue, the requests in flight, the slots, the workers
-- that it started with their grants, and the requests that it discarded.
pub record Pumped (F : Type 0) : Type 0 where
  pub queue : List (ProcRequest F)
  pub in_flight : List (ProcRequest F)
  pub slots : Slots F
  pub started : List (ProcRequest F × Grant)
  pub dropped : List (ProcRequest F)

-- The first entry that is the request goes.
unfoldable pub drop_request : {F : Type 0} → ℕ → List (ProcRequest F) → List (ProcRequest F)
drop_request id [] = []
drop_request id (r ∷ rs) = let rest = drop_request id rs in if eqb r.id id then rs else r ∷ rest

module _ {F : Type 0} ⦃fl : FloatOps F⦄ where
  abbrev pub idle_worker : BackendWorker F
  idle_worker = record { queue = []; in_flight = [] }

  -- `getWorkerLocked`, which adds a missing worker.
  abbrev pub get_worker : Dispatcher F → String → BackendWorker F
  get_worker d backend = lookup_or idle_worker backend d.workers

  abbrev pub set_worker : Dispatcher F → String → BackendWorker F → Dispatcher F
  set_worker d backend w = record d { workers = insert backend w d.workers }

  unfoldable pub queue_depth : Dispatcher F → String → ℕ
  queue_depth d backend = length (get_worker d backend).queue

  unfoldable pub try_enqueue :
      Config F → F → ProcRequest F → String → Dispatcher F → Bool × Dispatcher F
  try_enqueue cfg now req backend d =
      let w = get_worker d backend in
      if leb cfg.backend_queue_max (length w.queue) then (false, set_worker d backend w) else (
        true,
        set_worker d backend
            (record w { queue = w.queue ++ record req { enqueued_at = now } ∷ [] }),
      )

  -- Also `Requeue`, but for its wake-up.
  unfoldable pub park_overflow : ProcRequest F → Dispatcher F → Dispatcher F
  park_overflow req d = record d { overflow = d.overflow ++ req ∷ [] }

  unfoldable pub take_queues :
      Map String (BackendWorker F) → List (ProcRequest F) × Map String (BackendWorker F)
  take_queues [] = ([], [])
  take_queues ((backend, w) ∷ ws) =
      let (reqs, rest) = take_queues ws in
      (w.queue ++ reqs, (backend, record w { queue = [] }) ∷ rest)

  unfoldable pub take_parked : Dispatcher F → List (ProcRequest F) × Dispatcher F
  unfolding take_queues
  take_parked d =
      let (reqs, workers) = take_queues d.workers in
      (d.overflow ++ reqs, record d { workers = workers; overflow = [] })

  unfoldable pub drop_in_flight : String → ProcRequest F → Dispatcher F → Dispatcher F
  unfolding drop_request
  drop_in_flight backend req d =
      let w = get_worker d backend in
      set_worker d backend (record w { in_flight = drop_request req.id w.in_flight })

  -- The slot for the head of the queue: none where the pump stops.
  unfoldable pub grant_for : Slots F → String → List (ProcRequest F) → F → Option Grant × Slots F
  grant_for slots model in_flight now = elim (get_pool slots model) [
    | some (s ∷ ss) ↦
        let (slot, after) = try_acquire slots model now in
        (elim slot [ none ↦ none | some t ↦ some (acquired t) ], after)
    | _ ↦ (if eqb (length in_flight) 0 then some bootstrap else none, slots)
  ]

  unfoldable pub give_back : Config F → Grant → Slots F → F → Slots F
  give_back cfg (acquired slot) slots now = (release cfg slots slot now).1
  give_back cfg bootstrap slots now = slots

  -- A round of the loop of `pumpBackend`, from the slot for the head of the queue on. A request
  -- whose client has gone gives its slot back; any other is put in flight and started. The last
  -- argument is the rest of the loop.
  unfoldable pub pump_round :
      Config F
      → F
      → ProcRequest F
      → List (ProcRequest F)
      → List (ProcRequest F)
      → Slots F
      → Option Grant
      → Bool
      → (List (ProcRequest F) → Slots F → Pumped F)
      → Pumped F
  unfolding give_back drop_request
  pump_round cfg now req queue in_flight slots none cancelled loop = record {
    queue = req ∷ queue;
    in_flight = in_flight;
    slots = slots;
    started = [];
    dropped = [];
  }
  pump_round cfg now req queue in_flight slots (some grant) true loop =
      let rest =
        loop (drop_request req.id (in_flight ++ req ∷ [])) (give_back cfg grant slots now) in
      record rest { dropped = req ∷ rest.dropped }
  pump_round cfg now req queue in_flight slots (some grant) false loop =
      let rest = loop (in_flight ++ req ∷ []) slots in
      record rest { started = (req, grant) ∷ rest.started }

  unfoldable pub pump_queue :
      Config F → F → List (ProcRequest F) → List (ProcRequest F) → Slots F → Pumped F
  unfolding grant_for pump_round
  pump_queue cfg now [] in_flight slots = record {
    queue = [];
    in_flight = in_flight;
    slots = slots;
    started = [];
    dropped = [];
  }
  pump_queue cfg now (req ∷ queue) in_flight slots =
      let (grant, after) = grant_for slots req.model_name in_flight now in
      pump_round cfg now req queue in_flight after grant req.cancelled (pump_queue cfg now queue)

  unfoldable pub pump_backend :
      Config F
      → F
      → String
      → Dispatcher F
      → Slots F
      → List (ProcRequest F × Grant) × Dispatcher F × Slots F
  unfolding pump_queue
  pump_backend cfg now backend d slots = elim (lookup backend d.workers) [
    | none ↦ ([], d, slots)
    | some w ↦
        let p = pump_queue cfg now w.queue w.in_flight slots in
        (
          p.started,
          record d {
            workers =
                insert backend (record { queue = p.queue; in_flight = p.in_flight }) d.workers;
            discarded = d.discarded ++ p.dropped;
          },
          p.slots,
        )
  ]
