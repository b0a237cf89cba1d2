-- ===== src/Worker/Released.antt =====
-- processor.go and app.go: the marks of the slot pools over a whole request.
use proxycache.Base.{
  ℕ, ◌≡◌, refl, ap, ◌∙◌, String, Bool, false, Option, none, some, List, Map, lookup_or, arith,
  insert, eqb, lookup_or-insert, leb_ℤ, if◌then◌else◌, FloatOps, nat_eq, string_eq,
}
use proxycache.Slots.{
  Slots, busy, release, set_kv_state, mark_save_skipped, flush_save_skipped, invalidate,
}
use proxycache.Worker.{Worker, WorkerEnv, ProcRequest, release_slot}
use proxycache.Worker.Acquire.{
  Attempts, Acquisition, got, client_gone, handed_back, acquire_slot_on_backend,
}
use proxycache.Worker.Process.{Answers, process_worker_request}
use proxycache.Worker.Steps.{Stable, process_worker_request-Stable, Ended, after_acquire-Ended}

-- The marks of a worker's slots are `m`.
abbrev pub HasMarks : {F : Type 0} → Map ℕ Bool × Map String (List ℕ) → Worker F → Type 0
HasMarks m w = (w.slots.in_use ≡ m.0) × (w.slots.slot_pools ≡ m.1)

-- The slot that an acquisition gave is free again, where there is one.
abbrev pub given_back : Option Acquisition → ℕ → Bool
given_back (some (got s prev)) t = eqb s t
given_back (some client_gone) t = false
given_back (some handed_back) t = false
given_back none t = false

module _ {F : Type 0} ⦃fl : FloatOps F⦄ (env : WorkerEnv F) where
  HasMarks-Stable : (m : Map ℕ Bool × Map String (List ℕ)) → Stable env (HasMarks m)
  unfolding set_kv_state mark_save_skipped flush_save_skipped invalidate
  HasMarks-Stable m = record {
    tracks = λ s blocks w p. p;
    forgets = λ s w p. p;
    skips = λ s entry w p. p;
    flushes = λ s w p. p;
    saves = λ model key blocks n size w p. p;
    touches = λ key w p. p;
    penalizes = λ key backend w p. p;
  }

  release_slot-HasMarks :
      (m : Map ℕ Bool × Map String (List ℕ)) (s : ℕ) (w : Worker F)
      → HasMarks m w
      → HasMarks (insert s false m.0, m.1) (release_slot env s w)
  unfolding release
  release_slot-HasMarks m s w p = ground arith

  -- After a request that came with slot `s`, slot `s` is free, every other slot has the mark that it
  -- had before, and the pools are the same: whatever the backend and the client do.
  pub process_worker_request-releases :
      {T : Type 0} (sha256_hex : String → String) (join_itoa : List T → String) (answers : Answers)
      (acq : Attempts F) (fuel : ℕ) (req : ProcRequest F T) (s : ℕ) (w : Worker F)
      → let after =
          process_worker_request sha256_hex join_itoa env answers acq fuel req (some s) w in
        ((t : ℕ) → busy after.slots t ≡ (if eqb s t then false else busy w.slots t))
        × (after.slots.slot_pools ≡ w.slots.slot_pools)
  process_worker_request-releases sha256_hex join_itoa answers acq fuel req s w =
      let m : Map ℕ Bool × Map String (List ℕ) = (w.slots.in_use, w.slots.slot_pools) in
      let (used, pools) =
        process_worker_request-Stable env (HasMarks m) (HasMarks-Stable m) (λ e v p. p)
          (λ t. HasMarks (insert t false m.0, m.1)) (release_slot-HasMarks m) (λ t e v q. q)
          sha256_hex join_itoa answers acq fuel req s w (refl, refl) in
      (λ t. ap (lookup_or false t) used ∙ lookup_or-insert false s t false w.slots.in_use, pools)

  Ended-busy :
      (b : Slots F) (w : Worker F) (result : Option Acquisition) (t : ℕ)
      → Ended
          (HasMarks (b.in_use, b.slot_pools))
          (λ u. HasMarks (insert u false b.in_use, b.slot_pools))
          result
          w
      → busy w.slots t ≡ (if given_back result t then false else busy b t)
  Ended-busy b w (some (got s prev)) t (used, pools) =
      ap (lookup_or false t) used ∙ lookup_or-insert false s t false b.in_use
  Ended-busy b w (some client_gone) t (used, pools) = ap (lookup_or false t) used
  Ended-busy b w (some handed_back) t (used, pools) = ap (lookup_or false t) used
  Ended-busy b w none t (used, pools) = ap (lookup_or false t) used

  -- A request that came without a slot, for a prompt that fits the context: the slot that the worker
  -- acquired, if it did, is free afterwards, and every other mark is as the acquisition left it.
  pub process_worker_request-gives_back :
      {T : Type 0} (sha256_hex : String → String) (join_itoa : List T → String) (answers : Answers)
      (acq : Attempts F) (fuel : ℕ) (req : ProcRequest F T) (w : Worker F)
      → leb_ℤ env.n_ctx req.route.prompt_tokens ≡ false
      → let after = process_worker_request sha256_hex join_itoa env answers acq fuel req none w in
        let (result, b) = acquire_slot_on_backend acq req.route.model_name fuel 0 w.slots in
        (t : ℕ) → busy after.slots t ≡ (if given_back result t then false else busy b t)
  unfolding process_worker_request
  process_worker_request-gives_back sha256_hex join_itoa answers acq fuel req w fits t =
      let (result, b) = acquire_slot_on_backend acq req.route.model_name fuel 0 w.slots in
      let m : Map ℕ Bool × Map String (List ℕ) = (b.in_use, b.slot_pools) in
      rw fits (
        Ended-busy b _ result t (
          after_acquire-Ended env (HasMarks m) (HasMarks-Stable m) (λ e v p. p)
            (λ u. HasMarks (insert u false m.0, m.1)) (release_slot-HasMarks m) (λ u e v q. q)
            sha256_hex join_itoa answers req result (record w { slots = b }) (refl, refl)))
