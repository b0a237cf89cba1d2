-- ===== src/Dispatch/Moves.antt =====
-- What a pass of `migrateStale` (matcher.go) does to the queues of its backends.
use proxycache.Base.{
  pos, ℕ, suc, ◌+◌, ◌≡◌, refl, ap, ◌∙◌, inl, inr, String, true, false, some, List, [], ◌∷◌, ◌++◌,
  Map, All, arith, insert, lookup, lookup_or, lookup_or-insert, eqb, if◌then◌else◌, str_eq,
  str_eq_iff, string_eq, ◌==◌, Bool-cases, Option-cases, FloatOps,
}
use proxycache.Config.{Config}
use proxycache.Ring.{has_string}
use proxycache.Transfer.Once.{Unrepeated}
use proxycache.Dispatch.Queues.{ProcRequest, BackendWorker, Dispatcher, idle_worker, get_worker}
use proxycache.Dispatch.Migrate.{
  Migration, Registered, is_idle, is_stale, first_target, needed_age, target_for, move_to,
  migrate_queue, migrate_from, migrate_all, keys_of, migrate_stale,
}

-- How often a request stands in a queue, and in all queues.
abbrev pub times_in : {F : Type 0} → ℕ → List (ProcRequest F) → ℕ
times_in id [] = 0
times_in id (r ∷ rs) = let rest = times_in id rs in if eqb r.id id then suc rest else rest

abbrev pub times_queued : {F : Type 0} → ℕ → Map String (BackendWorker F) → ℕ
times_queued id [] = 0
times_queued id ((b, w) ∷ ws) = times_in id w.queue + times_queued id ws

module _ {F : Type 0} ⦃fl : FloatOps F⦄ where
  times_in-append :
      (id : ℕ) (rs qs : List (ProcRequest F))
      → times_in id (rs ++ qs) ≡ times_in id rs + times_in id qs
  times_in-append id [] qs = ground arith
  times_in-append id (r ∷ rs) qs = ground (arith, times_in-append id rs qs)

  times_queued-insert :
      (id : ℕ) (b : String) (w : BackendWorker F) (ws : Map String (BackendWorker F))
      → times_queued id (insert b w ws) + times_in id (lookup_or idle_worker b ws).queue
        ≡ times_queued id ws + times_in id w.queue
  unfolding lookup_or lookup insert
  times_queued-insert id b w [] = ground arith
  times_queued-insert id b w ((c, v) ∷ ws) = elim (Bool-cases (c == b)) [
    | inl t ↦ ground arith
    | inr f ↦ ground (arith, times_queued-insert id b w ws)
  ]

  move_to-times :
      (id : ℕ) (now : F) (src : String) (req : ProcRequest F) (t : String) (st : Migration F)
      → times_queued id (move_to now src req t st).queues.workers
        ≡ times_queued id st.queues.workers + times_in id (req ∷ [])
  unfolding move_to
  move_to-times id now src req t st =
      let w = get_worker st.queues t in
      let moved : ProcRequest F = record req { enqueued_at = now; migrated_from = src } in
      let queue = w.queue ++ moved ∷ [] in
      let total = times_queued-insert id t (record w { queue = queue }) st.queues.workers in
      let ends = times_in-append id w.queue (moved ∷ []) in omega arith

  move_to-other :
      (now : F) (src : String) (req : ProcRequest F) (t : String) (st : Migration F) (b : String)
      → str_eq t b ≡ false
      → get_worker (move_to now src req t st).queues b ≡ get_worker st.queues b
  unfolding move_to
  move_to-other now src req t st b other =
      let w = get_worker st.queues t in
      let moved : ProcRequest F = record req { enqueued_at = now; migrated_from = src } in
      let grown : BackendWorker F = record w { queue = w.queue ++ moved ∷ [] } in
      lookup_or-insert idle_worker t b grown st.queues.workers
      ∙ ap (λ c. if c then grown else get_worker st.queues b) other

  module _ (cfg : Config F) (reg : Registered) (now : F) where
    migrate_queue-times :
        (id : ℕ) (src : String) (reqs : List (ProcRequest F)) (st : Migration F)
        → let (kept, after) = migrate_queue cfg reg now src reqs st in
          times_queued id after.queues.workers + times_in id kept
          ≡ times_queued id st.queues.workers + times_in id reqs
    unfolding migrate_queue
    migrate_queue-times id src [] st = refl
    migrate_queue-times id src (req ∷ reqs) st =
        elim (Option-cases (target_for cfg reg now src st.idle req)) [
          | inl e ↦
              let rest = migrate_queue-times id src reqs st in
              rw (e, migrate_queue) (ground (arith, rest))
          | inr (t, e) ↦
              let rest = migrate_queue-times id src reqs (move_to now src req t st) in
              let moved = move_to-times id now src req t st in
              rw (e, migrate_queue) (ground (arith, rest, moved))
        ]

    first_target-other :
        (model src t : String) (ts : List String)
        → first_target reg model src ts ≡ some t
        → (str_eq t src ≡ false) × (reg.serves model t ≡ true) × (has_string t ts ≡ true)
    unfolding first_target
    first_target-other model src t [] h = ground arith
    first_target-other model src t (u ∷ us) h =
        ground (arith, first_target-other model src t us, str_eq_iff u t)

    -- The request has not moved before, and has waited for the configured time, or for twice as long
    -- without a disk key.
    abbrev pub Waited : ProcRequest F → Type 0
    Waited req =
        (req.migrated_from ≡ "")
        × (fl.lt (fl.sub now req.enqueued_at) (
              if str_eq req.disk_restore_key ""
              then fl.mul (fl.of_int (pos 2)) cfg.queue_migration_after
              else cfg.queue_migration_after)
            ≡ false)

    -- A target is another backend, which is idle and lists the model, and the request is stale.
    target_for-Fair :
        (src t : String) (idle : List String) (req : ProcRequest F)
        → target_for cfg reg now src idle req ≡ some t
        → Waited req
          × (str_eq t src ≡ false)
          × (reg.serves req.model_name t ≡ true)
          × (has_string t idle ≡ true)
    unfolding target_for is_stale needed_age
    target_for-Fair src t idle req h =
        let stale : is_stale cfg now req ≡ true = ground arith in
        let (other, serves, there) = first_target-other req.model_name src t idle (ground arith) in
        ((ground (arith, str_eq_iff req.migrated_from ""), ground arith), other, serves, there)

    migrate_queue-source :
        (src : String) (reqs : List (ProcRequest F)) (st : Migration F)
        → get_worker (migrate_queue cfg reg now src reqs st).1.queues src ≡ get_worker st.queues src
    unfolding migrate_queue
    migrate_queue-source src [] st = refl
    migrate_queue-source src (req ∷ reqs) st =
        elim (Option-cases (target_for cfg reg now src st.idle req)) [
          | inl e ↦ rw (e, migrate_queue) (migrate_queue-source src reqs st)
          | inr (t, e) ↦
              rw (e, migrate_queue)
                (migrate_queue-source src reqs (move_to now src req t st)
                  ∙ move_to-other now src req t st src (target_for-Fair src t st.idle req e).1)
        ]

    migrate_from-times :
        (id : ℕ) (src : String) (st : Migration F)
        → times_queued id (migrate_from cfg reg now src st).queues.workers
          ≡ times_queued id st.queues.workers
    unfolding migrate_from
    migrate_from-times id src st =
        let reqs = (get_worker st.queues src).queue in
        let (kept, after) = migrate_queue cfg reg now src reqs st in
        let same =
          ap (λ (w : BackendWorker F). times_in id w.queue) (migrate_queue-source src reqs st) in
        let total = migrate_queue-times id src reqs st in
        let put =
          times_queued-insert id src (record (get_worker after.queues src) { queue = kept })
            after.queues.workers in
        omega arith

    migrate_all-times :
        (id : ℕ) (srcs : List String) (st : Migration F)
        → times_queued id (migrate_all cfg reg now srcs st).queues.workers
          ≡ times_queued id st.queues.workers
    unfolding migrate_all
    migrate_all-times id [] st = refl
    migrate_all-times id (src ∷ srcs) st =
        migrate_all-times id srcs (migrate_from cfg reg now src st) ∙ migrate_from-times id src st

    -- A pass neither loses nor duplicates a request: every request stands in the queues as often
    -- after it as before.
    pub migrate_stale-times :
        (id : ℕ) (d : Dispatcher F)
        → times_queued id (migrate_stale cfg reg now d).queues.workers ≡ times_queued id d.workers
    unfolding migrate_stale
    migrate_stale-times id d = migrate_all-times id (keys_of d.workers) _

    abbrev pub targets : List (ProcRequest F × String × String) → List String
    targets [] = []
    targets ((req, src, t) ∷ moves) = t ∷ targets moves

    -- A move is from another backend to an idle one that lists the model, of a request that waited
    -- long enough and never moved before.
    abbrev pub Fair : Dispatcher F → ProcRequest F × String × String → Type 0
    Fair d (req, src, t) =
        Waited req
        × (str_eq t src ≡ false)
        × (reg.serves req.model_name t ≡ true)
        × (is_idle reg d t ≡ true)

    -- The moves of a pass so far are fair, their targets differ and are idle no more.
    record IsPass (d : Dispatcher F) (st : Migration F) : Type 0 where
      fair : All (Fair d) st.moves
      once : Unrepeated (targets st.moves)
      apart : (t : String) → has_string t st.idle ≡ true → has_string t (targets st.moves) ≡ false
      idle_once : Unrepeated st.idle
      within : (t : String) → has_string t st.idle ≡ true → is_idle reg d t ≡ true
