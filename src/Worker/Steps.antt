-- ===== src/Worker/Steps.antt =====
-- processor.go and app.go: what a request does between the acquisition and the release of its slot,
-- as a handful of steps.
use proxycache.Base.{
  ℕ, ℤ, String, Bool, true, Option, none, some, List, if_both, not, ◌&&◌, str_eq, ltb, length, pos,
  leb_ℤ, Option-cases, inl, inr, FloatOps,
}
use proxycache.Slots.{
  SaveSkipEntry, get_kv_state, should_skip_restore, set_kv_state, mark_save_skipped,
  flush_save_skipped, invalidate,
}
use proxycache.Config.Heuristics.{should_skip_save_heuristic, should_save_cache}
use proxycache.Meta.{increment_recompute_penalty}
use proxycache.Ring.Evict.{record_save, touch_ring}
use proxycache.Worker.{
  Worker, WorkerEnv, ProcRequest, Event, log, on_slots, release_slot, restore, track_blocks,
  keep_saved, save_after,
}
use proxycache.Worker.Restore.{Restored, flush_entry, flush_skipped_save, do_worker_restore}
use proxycache.Worker.Save.{
  Serving, Usage, ChatAnswer, is_hit, serving_ratio, skip_entry, restore_prev_kv, recompute_check,
  chat_checked, save_or_skip, complete_chat, process_non_stream,
}
use proxycache.Worker.Stream.{
  StreamEnd, StreamAnswer, llm_tokens, stream_checked, stream_save, end_stream, cleanup,
  serve_stream,
}
use proxycache.Worker.Process.{
  Answers, request_blocks, can_skip_at, track_and_flush, key_to_restore, restore_slot_of, prepare,
  serve, after_acquire, process_worker_request,
}
use proxycache.Worker.Acquire.{Attempts, Acquisition, got, client_gone, handed_back}

-- What every step but a log entry and the release keeps.
pub record Stable {F : Type 0} ⦃fl : FloatOps F⦄ (env : WorkerEnv F) (P : Worker F → Type 0)
    : Type 0 where
  pub tracks :
      (s : ℕ) (blocks : List String) (w : Worker F)
      → P w
      → P (on_slots (λ b. set_kv_state b s blocks) w)
  pub forgets : (s : ℕ) (w : Worker F) → P w → P (on_slots (λ b. invalidate b s) w)
  pub skips :
      (s : ℕ) (entry : SaveSkipEntry F) (w : Worker F)
      → P w
      → P (on_slots (λ b. mark_save_skipped b s entry) w)
  pub flushes : (s : ℕ) (w : Worker F) → P w → P (on_slots (λ b. (flush_save_skipped b s).1) w)
  pub saves :
      (model key : String) (blocks : List String) (n size : ℤ) (w : Worker F)
      → P w
      → P (record w { ring = record_save env.ring_env env.now model key blocks n size w.ring })
  pub touches :
      (key : String) (w : Worker F) → P w → P (record w { ring = touch_ring env.now key w.ring })
  pub penalizes :
      (key backend : String) (w : Worker F)
      → P w
      → P (record w {
        ring = record w.ring {
          metas = increment_recompute_penalty w.ring.metas key backend env.now;
        };
      })

module _ {F : Type 0} ⦃fl : FloatOps F⦄ (env : WorkerEnv F) (P : Worker F → Type 0)
    (stable : Stable env P) where
  restore_lem :
      (s : ℕ) (key model : String) (touch : Bool) (w : Worker F)
      → P w
      → P (restore env s key model touch w).1
  unfolding restore
  restore_lem s key model touch w p = if_both P _ (stable.touches key w p) p

  save_after-Stable :
      (model : String) (s : ℕ) (key : String) (blocks : List String) (n : ℤ) (w : Worker F)
      → P w
      → P (save_after env model s key blocks n w).1
  unfolding save_after keep_saved track_blocks
  save_after-Stable model s key blocks n w p =
      if_both (λ (v : (Bool × ℤ) × Worker F). P v.1) env.cache_enabled
        (if_both P _
          (stable.saves model key blocks n _ _ (if_both P _ (stable.tracks s blocks w p) p))
          (if_both P _ (stable.tracks s blocks w p) p))
        p

  pub restore_prev_kv-Stable :
      (s : ℕ) (prev : Option (List String)) (w : Worker F) → P w → P (restore_prev_kv s prev w)
  unfolding restore_prev_kv
  restore_prev_kv-Stable s none w p = p
  restore_prev_kv-Stable s (some blocks) w p = stable.tracks s blocks w p

  flush_entry-Stable :
      (s : ℕ) (blocks : List String) (can_skip : Bool) (model be : String) (entry : SaveSkipEntry F)
      (w : Worker F)
      → P w
      → P (flush_entry env s blocks can_skip model be entry w)
  unfolding flush_entry
  flush_entry-Stable s blocks can_skip model be entry w p =
      if_both P _
        (stable.tracks s blocks _
          (save_after-Stable model s entry.key entry.blocks entry.n_tokens w p))
        p

  flush_skipped_save-Stable :
      (s : ℕ) (blocks : List String) (can_skip : Bool) (model be : String) (w : Worker F)
      → P w
      → P (flush_skipped_save env s blocks can_skip model be w)
  unfolding flush_skipped_save
  flush_skipped_save-Stable s blocks can_skip model be w p =
      elim (Option-cases (flush_save_skipped w.slots s).0) [
        | inl e ↦ rw (e, flush_skipped_save) (stable.flushes s w p)
        | inr (entry, e) ↦
            rw (e, flush_skipped_save)
              (flush_entry-Stable s blocks can_skip model be entry _ (stable.flushes s w p))
      ]

  do_worker_restore-Stable :
      (s : ℕ) (key : String) (blocks : List String) (prev : Option (List String)) (model : String)
      (w : Worker F)
      → P w
      → P (do_worker_restore env s key blocks prev model w).1
  unfolding do_worker_restore
  do_worker_restore-Stable s key blocks prev model w p =
      let called = restore_lem s key model true w p in
      if_both (λ (v : Restored × Worker F). P v.1) (ltb 0 (length blocks))
        (if_both (λ (v : Restored × Worker F). P v.1)
          (should_skip_restore env.cfg w.slots s blocks prev true) p
          (if_both (λ (v : Restored × Worker F). P v.1) (not (str_eq key "")) called p))
        (if_both (λ (v : Restored × Worker F). P v.1) (not (str_eq key "")) called p)

  recompute_check-Stable :
      (cached llm : ℤ) (key backend : String) (w : Worker F)
      → P w
      → P (recompute_check env cached llm key backend w).1
  unfolding recompute_check
  recompute_check-Stable cached llm key backend w p =
      if_both P _ (if_both P _ (stable.penalizes key backend w p) p) p

  pub save_or_skip-Stable :
      {T : Type 0} (req : ProcRequest F T) (sv : Serving) (recompute : Bool) (w : Worker F)
      → P w
      → P (save_or_skip env req sv recompute w).1
  unfolding save_or_skip
  save_or_skip-Stable req sv recompute w p =
      let skipped =
        stable.skips sv.slot (skip_entry req.route (serving_ratio env req.route) recompute sv) w
          p in
      let saved =
        save_after-Stable req.route.model_name sv.slot sv.key sv.blocks req.route.prompt_tokens w
          p in
      if_both (λ (v : (Bool × ℤ) × Worker F). P v.1)
        (should_skip_save_heuristic env.cfg req.route.prompt_tokens env.n_ctx req.message_score)
        skipped
        (if_both (λ (v : (Bool × ℤ) × Worker F). P v.1)
          (should_save_cache env.cfg (serving_ratio env req.route) recompute) saved skipped)

  pub chat_checked-Stable :
      {T : Type 0} (req : ProcRequest F T) (sv : Serving) (usage : Usage) (w : Worker F)
      → P w
      → P (chat_checked env req sv usage w).1
  unfolding chat_checked
  chat_checked-Stable req sv usage w p =
      if_both (λ (v : Bool × Worker F). P v.1) (is_hit req.route.hit_type)
        (recompute_check-Stable usage.cached_tokens usage.llm_prompt_tokens sv.eff_restore_key
          sv.eff_restore_backend w p)
        p

  stream_checked-Stable :
      {T : Type 0} (req : ProcRequest F T) (sv : Serving) (end : StreamEnd) (w : Worker F)
      → P w
      → P (stream_checked env req sv end w).1
  unfolding stream_checked
  stream_checked-Stable req sv end w p =
      if_both (λ (v : Bool × Worker F). P v.1)
        (is_hit req.route.hit_type && not (str_eq sv.eff_restore_backend ""))
        (recompute_check-Stable end.sse_cached_tokens (llm_tokens req.route end) sv.eff_restore_key
          sv.eff_restore_backend w p)
        p

  stream_save-Stable :
      {T : Type 0} (req : ProcRequest F T) (sv : Serving) (end : StreamEnd) (w : Worker F)
      → P w
      → P (stream_save env req sv end w).1
  unfolding stream_save
  stream_save-Stable req sv end w p =
      save_or_skip-Stable req sv (stream_checked env req sv end w).0
        (stream_checked env req sv end w).1 (stream_checked-Stable req sv end w p)

  pub end_stream-Stable :
      {T : Type 0} (req : ProcRequest F T) (sv : Serving) (end : StreamEnd) (w : Worker F)
      → P w
      → P (end_stream env req sv end w).1
  unfolding end_stream
  end_stream-Stable req sv end w p =
      if_both (λ (v : (Bool × ℤ) × Worker F). P v.1) end.stream_complete
        (stream_save-Stable req sv end w p) (stable.forgets sv.slot w p)

module _ {F : Type 0} ⦃fl : FloatOps F⦄ (env : WorkerEnv F) (P : Worker F → Type 0)
    (stable : Stable env P) where
  pub restore_slot_of-Stable :
      {T : Type 0} (req : ProcRequest F T) (s : ℕ) (prev : Option (List String)) (w : Worker F)
      → P w
      → P (restore_slot_of env req s prev w).1
  unfolding restore_slot_of track_and_flush
  restore_slot_of-Stable req s prev w p =
      do_worker_restore-Stable env P stable s (key_to_restore env req s prev w)
        (request_blocks env req) prev req.route.model_name (track_and_flush env req s prev w)
        (flush_skipped_save-Stable env P stable s (request_blocks env req)
          (can_skip_at env req s prev w) req.route.model_name env.ring_env.backend_id
          (on_slots (λ b. set_kv_state b s (request_blocks env req)) w)
          (stable.tracks s (request_blocks env req) w p))

-- What holds at the end of a request that came without a slot, by what the acquisition gave.
abbrev pub Ended :
    {F : Type 0}
    → (Worker F → Type 0)
    → (ℕ → Worker F → Type 0)
    → Option Acquisition
    → Worker F
    → Type 0
Ended P Q (some (got s prev)) w = Q s w
Ended P Q (some client_gone) w = P w
Ended P Q (some handed_back) w = P w
Ended P Q none w = P w

module _ {F : Type 0} ⦃fl : FloatOps F⦄ (env : WorkerEnv F) (P : Worker F → Type 0)
    (stable : Stable env P) (logged : (e : Event) (w : Worker F) → P w → P (log e w)) where
  complete_chat-Stable :
      {T : Type 0} (req : ProcRequest F T) (sv : Serving) (usage : Usage) (w : Worker F)
      → P w
      → P (complete_chat env req sv usage w)
  unfolding complete_chat
  complete_chat-Stable req sv usage w p = logged _ _ (
      logged _ _ (
        logged _ _ (
          save_or_skip-Stable env P stable req sv (chat_checked env req sv usage w).0
            (chat_checked env req sv usage w).1
            (chat_checked-Stable env P stable req sv usage w p))))

  pub prepare-Stable :
      {T : Type 0} (sha256_hex : String → String) (join_itoa : List T → String)
      (req : ProcRequest F T) (s : ℕ) (prev : Option (List String)) (w : Worker F)
      → P w
      → P (prepare sha256_hex join_itoa env req s prev w).1
  unfolding prepare
  prepare-Stable sha256_hex join_itoa req s prev w p =
      logged _ _ (logged _ _ (restore_slot_of-Stable env P stable req s prev w p))

  -- Where the slot is released, and what holds after it where `P` holds before.
  module _ (Q : ℕ → Worker F → Type 0)
      (released : (s : ℕ) (w : Worker F) → P w → Q s (release_slot env s w))
      (logged_after : (s : ℕ) (e : Event) (w : Worker F) → Q s w → Q s (log e w)) where
    process_non_stream-Stable :
        {T : Type 0} (req : ProcRequest F T) (sv : Serving) (answer : ChatAnswer) (w : Worker F)
        → P w
        → Q sv.slot (process_non_stream env req sv answer w)
    unfolding process_non_stream
    process_non_stream-Stable req sv ChatAnswer.timeout w p =
        released sv.slot _ (logged _ _ (logged _ _ p))
    process_non_stream-Stable req sv ChatAnswer.connection_error w p = logged_after sv.slot _ _ (
        logged_after sv.slot _ _
          (released sv.slot _ (restore_prev_kv-Stable env P stable sv.slot _ w p)))
    process_non_stream-Stable req sv ChatAnswer.chat_failed w p =
        released sv.slot _
          (logged _ _ (logged _ _ (restore_prev_kv-Stable env P stable sv.slot _ w p)))
    process_non_stream-Stable req sv ChatAnswer.no_body w p =
        released sv.slot _
          (logged _ _ (logged _ _ (restore_prev_kv-Stable env P stable sv.slot _ w p)))
    process_non_stream-Stable req sv (ChatAnswer.answered usage) w p =
        released sv.slot _ (complete_chat-Stable req sv usage w p)

    cleanup-Stable :
        {T : Type 0} (req : ProcRequest F T) (sv : Serving) (end : StreamEnd) (w : Worker F)
        → P w
        → Q sv.slot (cleanup env req sv end w)
    unfolding cleanup
    cleanup-Stable req sv end w p =
        let free = released sv.slot _ (end_stream-Stable env P stable req sv end w p) in
        if_both (Q sv.slot) (fl.lt (fl.of_int (pos 0)) req.t0)
          (logged_after sv.slot _ _ (logged_after sv.slot _ _ free)) free

    serve_stream-Stable :
        {T : Type 0} (req : ProcRequest F T) (sv : Serving) (old : Option (List String))
        (answer : StreamAnswer) (w : Worker F)
        → P w
        → Q sv.slot (serve_stream env req sv old answer w)
    unfolding serve_stream
    serve_stream-Stable req sv old StreamAnswer.timeout w p =
        logged_after sv.slot _ _ (released sv.slot _ (logged _ _ p))
    serve_stream-Stable req sv old StreamAnswer.connection_error w p = logged_after sv.slot _ _ (
        logged_after sv.slot _ _
          (released sv.slot _ (restore_prev_kv-Stable env P stable sv.slot old w p)))
    serve_stream-Stable req sv old StreamAnswer.chat_failed w p = logged_after sv.slot _ _ (
        logged_after sv.slot _ _
          (released sv.slot _ (restore_prev_kv-Stable env P stable sv.slot old w p)))
    serve_stream-Stable req sv old (StreamAnswer.bad_status status) w p =
        logged_after sv.slot _ _
          (released sv.slot _ (logged _ _ (restore_prev_kv-Stable env P stable sv.slot old w p)))
    serve_stream-Stable req sv old (StreamAnswer.streamed end) w p =
        cleanup-Stable req sv end _ (logged _ _ p)

    pub serve-Stable :
        {T : Type 0} (sha256_hex : String → String) (join_itoa : List T → String)
        (answers : Answers) (req : ProcRequest F T) (s : ℕ) (prev : Option (List String))
        (w : Worker F)
        → P w
        → Q s (serve sha256_hex join_itoa env answers req s prev w)
    unfolding serve prepare
    serve-Stable sha256_hex join_itoa answers req s prev w p =
        let sv = (prepare sha256_hex join_itoa env req s prev w).0 in
        let ready = prepare-Stable sha256_hex join_itoa req s prev w p in
        if_both (Q s) req.stream (serve_stream-Stable req sv prev answers.stream _ ready)
          (process_non_stream-Stable req sv answers.chat _ ready)

    pub process_worker_request-Stable :
        {T : Type 0} (sha256_hex : String → String) (join_itoa : List T → String)
        (answers : Answers) (acq : Attempts F) (fuel : ℕ) (req : ProcRequest F T) (s : ℕ)
        (w : Worker F)
        → P w
        → Q s (process_worker_request sha256_hex join_itoa env answers acq fuel req (some s) w)
    unfolding process_worker_request
    process_worker_request-Stable sha256_hex join_itoa answers acq fuel req s w p =
        if_both (Q s) (leb_ℤ env.n_ctx req.route.prompt_tokens)
          (logged_after s _ _ (logged_after s _ _ (logged_after s _ _ (released s w p))))
          (logged_after s _ _
            (serve-Stable sha256_hex join_itoa answers req s (get_kv_state w.slots s) w p))

    pub after_acquire-Ended :
        {T : Type 0} (sha256_hex : String → String) (join_itoa : List T → String)
        (answers : Answers) (req : ProcRequest F T) (result : Option Acquisition) (w : Worker F)
        → P w
        → Ended P Q result (after_acquire sha256_hex join_itoa env answers req result w)
    unfolding after_acquire
    after_acquire-Ended sha256_hex join_itoa answers req none w p = p
    after_acquire-Ended sha256_hex join_itoa answers req (some (got s prev)) w p =
        logged_after s _ _ (serve-Stable sha256_hex join_itoa answers req s prev w p)
    after_acquire-Ended sha256_hex join_itoa answers req (some client_gone) w p =
        logged _ _ (logged _ _ p)
    after_acquire-Ended sha256_hex join_itoa answers req (some handed_back) w p = logged _ _ p
