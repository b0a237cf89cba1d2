-- ===== src/Dispatch/Migrate.antt =====
-- `migrateStale` of matcher.go: requests that have waited for long move to idle backends.
use proxycache.Base.{
  pos, String, Bool, false, not, ◌&&◌, ◌||◌, Option, none, some, List, [], ◌∷◌, ◌++◌, Map, length,
  ltb, if◌then◌else◌, str_eq, string_eq, FloatOps,
}
use proxycache.Config.{Config}
use proxycache.Dispatch.Queues.{ProcRequest, BackendWorker, Dispatcher, get_worker, set_worker}
use proxycache.Transfer.Once.{drop_string}

-- What a pass has done: the targets that are still idle, the queues, and the moves, with the request
-- as it was, its source and its target.
pub record Migration (F : Type 0) : Type 0 where
  pub idle : List String
  pub queues : Dispatcher F
  pub moves : List (ProcRequest F × String × String)

-- The registry at the time of the pass: its backends in order, which are up, and which list a model.
pub record Registered : Type 0 where
  pub key_order : List String
  pub up : String → Bool
  pub serves : String → String → Bool

unfoldable pub first_target : Registered → String → String → List String → Option String
first_target reg model src [] = none
first_target reg model src (t ∷ ts) =
    let rest = first_target reg model src ts in
    if not (str_eq t src) && reg.serves model t then some t else rest

module _ {F : Type 0} ⦃fl : FloatOps F⦄ where
  abbrev pub has_work : BackendWorker F → Bool
  has_work w = ltb 0 (length w.queue) || ltb 0 (length w.in_flight)

  unfoldable pub is_idle : Registered → Dispatcher F → String → Bool
  is_idle reg d b = if not (reg.up b) then false else not (has_work (get_worker d b))

  unfoldable pub idle_backends : Registered → Dispatcher F → List String → List String
  unfolding is_idle
  idle_backends reg d [] = []
  idle_backends reg d (b ∷ bs) =
      let rest = idle_backends reg d bs in if is_idle reg d b then b ∷ rest else rest

  -- How long a request waits before it moves: twice as long without a disk key.
  unfoldable pub needed_age : Config F → ProcRequest F → F
  needed_age cfg req =
      if str_eq req.disk_restore_key ""
      then fl.mul (fl.of_int (pos 2)) cfg.queue_migration_after
      else cfg.queue_migration_after

  unfoldable pub is_stale : Config F → F → ProcRequest F → Bool
  unfolding needed_age
  is_stale cfg now req =
      str_eq req.migrated_from "" && not (fl.lt (fl.sub now req.enqueued_at) (needed_age cfg req))

  unfoldable pub target_for :
      Config F → Registered → F → String → List String → ProcRequest F → Option String
  unfolding is_stale first_target
  target_for cfg reg now src idle req =
      let target = first_target reg req.model_name src idle in
      if is_stale cfg now req then target else none

  unfoldable pub move_to : F → String → ProcRequest F → String → Migration F → Migration F
  unfolding drop_string
  move_to now src req t st =
      let w = get_worker st.queues t in
      record {
        idle = drop_string t st.idle;
        queues = set_worker st.queues t (record w {
          queue = w.queue ++ record req { enqueued_at = now; migrated_from = src } ∷ [];
        });
        moves = st.moves ++ (req, src, t) ∷ [];
      }

  -- The loop over one queue: what stays in it, and the pass after it.
  unfoldable pub migrate_queue :
      Config F
      → Registered
      → F
      → String
      → List (ProcRequest F)
      → Migration F
      → List (ProcRequest F) × Migration F
  unfolding target_for move_to
  migrate_queue cfg reg now src [] st = ([], st)
  migrate_queue cfg reg now src (req ∷ reqs) st =
      let (kept, after) = migrate_queue cfg reg now src reqs st in
      elim (target_for cfg reg now src st.idle req) [
        | none ↦ (req ∷ kept, after)
        | some t ↦ migrate_queue cfg reg now src reqs (move_to now src req t st)
      ]

  unfoldable pub migrate_from : Config F → Registered → F → String → Migration F → Migration F
  unfolding migrate_queue
  migrate_from cfg reg now src st =
      let (kept, after) = migrate_queue cfg reg now src (get_worker st.queues src).queue st in
      record after {
        queues =
            set_worker after.queues src (record (get_worker after.queues src) { queue = kept });
      }

  unfoldable pub migrate_all : Config F → Registered → F → List String → Migration F → Migration F
  unfolding migrate_from
  migrate_all cfg reg now [] st = st
  migrate_all cfg reg now (src ∷ srcs) st =
      migrate_all cfg reg now srcs (migrate_from cfg reg now src st)

  abbrev pub keys_of : Map String (BackendWorker F) → List String
  keys_of [] = []
  keys_of ((k, w) ∷ ws) = k ∷ keys_of ws

  -- The pass over the backends that have a queue when it starts. A target that gets its queue in the
  -- pass holds only the request that moved there, which does not move again.
  unfoldable pub migrate_stale : Config F → Registered → F → Dispatcher F → Migration F
  unfolding migrate_all idle_backends
  migrate_stale cfg reg now d =
      migrate_all cfg reg now (keys_of d.workers)
        (record { idle = idle_backends reg d reg.key_order; queues = d; moves = [] })

  -- The transfers that follow: the source, the target and the key.
  unfoldable pub transfers_of :
      List (ProcRequest F × String × String) → List (String × String × String)
  transfers_of [] = []
  transfers_of ((req, src, t) ∷ moves) =
      let rest = transfers_of moves in
      if not (str_eq req.disk_restore_key "") && not (str_eq req.disk_restore_backend t)
      then (req.disk_restore_backend, t, req.disk_restore_key) ∷ rest
      else rest
