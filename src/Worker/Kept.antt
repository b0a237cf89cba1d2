-- ===== src/Worker/Kept.antt =====
-- processor.go and slotmanager.go: the cache ring over a whole request, with the save, the flush
-- of a skipped save, the touch of a restore and the recompute penalty.
use proxycache.Base.{ℕ, String, Option, none, some, List, if_both, leb_ℤ, FloatOps}
use proxycache.Slots.{set_kv_state, mark_save_skipped, flush_save_skipped, invalidate}
use proxycache.Ring.History.{IsKept, record_save-IsKept, touch_ring-IsKept}
use proxycache.Worker.{Worker, WorkerEnv, ProcRequest}
use proxycache.Worker.Acquire.{
  Attempts, Acquisition, got, client_gone, handed_back, acquire_slot_on_backend,
}
use proxycache.Worker.Process.{Answers, process_worker_request}
use proxycache.Worker.Steps.{Stable, Ended, process_worker_request-Stable, after_acquire-Ended}

module _ {F : Type 0} ⦃fl : FloatOps F⦄ (env : WorkerEnv F) where
  abbrev pub HasRing : Worker F → Type 0
  HasRing w = IsKept env.ring_env w.ring

  HasRing-Stable : Stable env HasRing
  unfolding set_kv_state mark_save_skipped flush_save_skipped invalidate
  HasRing-Stable = record {
    tracks = λ s blocks w k. k;
    forgets = λ s w k. k;
    skips = λ s entry w k. k;
    flushes = λ s w k. k;
    saves = λ model key blocks n size w k.
        record_save-IsKept env.ring_env env.now model key blocks n size w.ring k.inv;
    touches = λ key w k. touch_ring-IsKept env.ring_env env.now key w.ring k;
    penalizes = λ key backend w k. record {
      inv = record { accounted = k.inv.accounted; distinct = k.inv.distinct };
      within = k.within;
    };
  }

  HasRing-Ended :
      (result : Option Acquisition) (w : Worker F)
      → Ended HasRing (λ s. HasRing) result w
      → HasRing w
  HasRing-Ended (some (got s prev)) w k = k
  HasRing-Ended (some client_gone) w k = k
  HasRing-Ended (some handed_back) w k = k
  HasRing-Ended none w k = k

  -- A cache ring whose books are right and that fits its budget is so after a request, whether the
  -- request came with a slot or without one, and whatever the backend and the client do.
  pub process_worker_request-IsKept :
      {T : Type 0} (sha256_hex : String → String) (join_itoa : List T → String) (answers : Answers)
      (acq : Attempts F) (fuel : ℕ) (req : ProcRequest F T) (slot : Option ℕ) (w : Worker F)
      → IsKept env.ring_env w.ring
      → IsKept env.ring_env
          (process_worker_request sha256_hex join_itoa env answers acq fuel req slot w).ring
  unfolding process_worker_request
  process_worker_request-IsKept sha256_hex join_itoa answers acq fuel req (some s) w k =
      process_worker_request-Stable env HasRing HasRing-Stable (λ e v p. p) (λ s. HasRing)
        (λ s v p. p) (λ s e v p. p) sha256_hex join_itoa answers acq fuel req s w k
  process_worker_request-IsKept sha256_hex join_itoa answers acq fuel req none w k =
      let (result, b) = acquire_slot_on_backend acq req.route.model_name fuel 0 w.slots in
      if_both HasRing (leb_ℤ env.n_ctx req.route.prompt_tokens) k (
        HasRing-Ended result _ (
          after_acquire-Ended env HasRing HasRing-Stable (λ e v p. p) (λ s. HasRing) (λ s v p. p)
            (λ s e v p. p) sha256_hex join_itoa answers req result (record w { slots = b }) k))
