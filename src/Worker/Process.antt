-- ===== src/Worker/Process.antt =====
-- `processWorkerRequest` of processor.go: one request from its arrival at the worker to its end.
use proxycache.Base.{
  ℕ, String, Bool, true, not, ◌&&◌, ◌||◌, Option, none, some, List, [], ◌∷◌, or_else, lookup_or,
  leb_ℤ, if◌then◌else◌, str_eq, string_eq, FloatOps,
}
use proxycache.Hashing.{meta_key, block_hashes_from_tokens}
use proxycache.Slots.{CacheHitType, get_kv_state, set_kv_state, should_skip_restore}
use proxycache.Worker.{
  Worker, WorkerEnv, RouteDecision, ProcRequest, replied, chat_error, routed, touched, discarded,
  requeued, finished, log, on_slots, release_slot,
}
use proxycache.Worker.Restore.{Restored, resolve_restore_key, flush_skipped_save, do_worker_restore}
use proxycache.Worker.Acquire.{
  Attempts, Acquisition, got, client_gone, handed_back, acquire_slot_on_backend,
}
use proxycache.Worker.Save.{Serving, ChatAnswer, is_hit, process_non_stream}
use proxycache.Worker.Stream.{StreamAnswer, serve_stream}

-- The backend's answer to a chat, by the way it was asked.
pub record Answers : Type 0 where
  pub chat : ChatAnswer
  pub stream : StreamAnswer

module _ {F T : Type 0} where
  -- The coordinates of the cache that the slot now holds.
  unfoldable pub eff_restore : RouteDecision F T → String → String → String × String
  eff_restore dec be restore_key =
      if not (is_hit dec.hit_type)
      then ("", "")
      else if str_eq be dec.restore_backend
      then (dec.restore_key, dec.restore_backend)
      else if not (str_eq restore_key "")
      then (restore_key, be)
      else ("", "")

  unfoldable pub routing_reason : RouteDecision F T → String → String
  routing_reason dec be = elim dec.hit_type [
    | none ↦ "no_cache_entry"
    | some CacheHitType.skip ↦
        if str_eq be dec.restore_backend then "pending_slot_hit" else "cache_backend_unavailable"
    | some CacheHitType.disk_restore ↦
        if str_eq be dec.restore_backend then "cache_hit" else "cache_backend_unavailable"
  ]

  -- Whether the cache of a migrated request came along; none where the question does not arise.
  unfoldable pub cache_migrated : ProcRequest F T → String → Restored → Option Bool
  cache_migrated req restore_key done =
      if not (str_eq req.migrated_from "") && not (str_eq req.route.disk_restore_key "")
      then some (not (str_eq restore_key "") || done.skipped)
      else none

  -- `servingTokenIDs`.
  abbrev serving_tokens : RouteDecision F T → String → List T
  serving_tokens dec be = elim (lookup_or [] be dec.backend_token_ids) [
    | [] ↦ dec.first_token_ids
    | t ∷ ts ↦ t ∷ ts
  ]

module _ {F T : Type 0} ⦃fl : FloatOps F⦄ where
  abbrev pub request_blocks : WorkerEnv F → ProcRequest F T → List String
  request_blocks env req = lookup_or [] env.ring_env.backend_id req.route.backend_blocks

  -- `canSkip`: the slot still holds what the request needs.
  unfoldable pub can_skip_at :
      WorkerEnv F → ProcRequest F T → ℕ → Option (List String) → Worker F → Bool
  unfolding should_skip_restore
  can_skip_at env req s prev_kv w =
      should_skip_restore env.cfg w.slots s (request_blocks env req) prev_kv true

  -- The slot's blocks are tracked, then the skipped save is written before the restore clobbers it.
  unfoldable pub track_and_flush :
      WorkerEnv F → ProcRequest F T → ℕ → Option (List String) → Worker F → Worker F
  unfolding set_kv_state flush_skipped_save can_skip_at
  track_and_flush env req s prev_kv w =
      flush_skipped_save env s (request_blocks env req) (can_skip_at env req s prev_kv w)
        req.route.model_name env.ring_env.backend_id
        (on_slots (λ b. set_kv_state b s (request_blocks env req)) w)

  unfoldable pub key_to_restore :
      WorkerEnv F → ProcRequest F T → ℕ → Option (List String) → Worker F → String
  unfolding resolve_restore_key can_skip_at
  key_to_restore env req s prev_kv w =
      (resolve_restore_key env req.route env.ring_env.backend_id
        (can_skip_at env req s prev_kv w)).1

  unfoldable pub restore_slot_of :
      WorkerEnv F → ProcRequest F T → ℕ → Option (List String) → Worker F → Restored × Worker F
  unfolding track_and_flush key_to_restore do_worker_restore
  restore_slot_of env req s prev_kv w =
      do_worker_restore env s (key_to_restore env req s prev_kv w) (request_blocks env req) prev_kv
        req.route.model_name (track_and_flush env req s prev_kv w)

module _ {F T : Type 0} ⦃fl : FloatOps F⦄ (sha256_hex : String → String)
    (join_itoa : List T → String) where
  -- Before the request is sent. `WordsPerBlock` = 0 has panicked when the request was matched.
  unfoldable pub prepare :
      WorkerEnv F → ProcRequest F T → ℕ → Option (List String) → Worker F → Serving × Worker F
  unfolding restore_slot_of key_to_restore eff_restore routing_reason cache_migrated meta_key
      block_hashes_from_tokens
  prepare env req s prev_kv w =
      let dec = req.route in
      let be = env.ring_env.backend_id in
      let restore_key = key_to_restore env req s prev_kv w in
      let (done, ready) = restore_slot_of env req s prev_kv w in
      let tokens = serving_tokens dec be in
      (
        record {
          slot = s;
          key = meta_key sha256_hex join_itoa dec.model_name tokens;
          blocks =
              or_else []
                (block_hashes_from_tokens sha256_hex join_itoa tokens env.cfg.words_per_block);
          restored = done.restored;
          routing_reason = routing_reason dec be;
          eff_restore_key = (eff_restore dec be restore_key).0;
          eff_restore_backend = (eff_restore dec be restore_key).1;
        },
        log (routed (routing_reason dec be) done.restored (cache_migrated req restore_key done))
            (log touched ready),
      )

  -- With a slot in hand.
  unfoldable pub serve :
      WorkerEnv F → Answers → ProcRequest F T → ℕ → Option (List String) → Worker F → Worker F
  unfolding prepare process_non_stream serve_stream
  serve env answers req s prev_kv w =
      let (sv, ready) = prepare env req s prev_kv w in
      if req.stream
      then serve_stream env req sv prev_kv answers.stream ready
      else process_non_stream env req sv answers.chat ready

  -- After `acquireSlotOnBackend`. A client that is gone is finished by `discard`, and a request that
  -- is handed back stays alive; without a result the worker still tries.
  unfoldable pub after_acquire :
      WorkerEnv F → Answers → ProcRequest F T → Option Acquisition → Worker F → Worker F
  unfolding serve
  after_acquire env answers req none w = w
  after_acquire env answers req (some (got s prev_kv)) w =
      log finished (serve env answers req s prev_kv w)
  after_acquire env answers req (some client_gone) w = log finished (log discarded w)
  after_acquire env answers req (some handed_back) w = log requeued w

  abbrev pub release_given : WorkerEnv F → Option ℕ → Worker F → Worker F
  release_given env none w = w
  release_given env (some s) w = release_slot env s w

  -- `slot` is what the pump acquired for the request, none where it comes without a slot.
  unfoldable pub process_worker_request :
      WorkerEnv F → Answers → Attempts F → ℕ → ProcRequest F T → Option ℕ → Worker F → Worker F
  unfolding get_kv_state acquire_slot_on_backend after_acquire serve
  process_worker_request env answers acq fuel req slot w =
      let too_long : Worker F =
        log finished (
          log (replied 400) (log (chat_error none "prompt_too_long") (release_given env slot w))) in
      let (result, slots) = acquire_slot_on_backend acq req.route.model_name fuel 0 w.slots in
      if leb_ℤ env.n_ctx req.route.prompt_tokens then too_long else elim slot [
        | some s ↦ log finished (serve env answers req s (get_kv_state w.slots s) w)
        | none ↦ after_acquire env answers req result (record w { slots = slots })
      ]
