-- ===== src/Worker/Answered.antt =====
-- processor.go and app.go: what a request's worker tells its client and the dispatcher.
use proxycache.Base.{
  ℕ, suc, ◌≡◌, refl, ap, ◌∙◌, String, Bool, true, false, Option, none, some, List, [], ◌∷◌, leb_ℤ,
  pos, if◌then◌else◌, if_both, FloatOps,
}
use proxycache.Slots.{get_kv_state}
use proxycache.Worker.{Worker, WorkerEnv, ProcRequest, Event, replied, finished}
use proxycache.Worker.Save.{
  Serving, Usage, ChatAnswer, chat_checked, complete_chat, restore_prev_kv, process_non_stream,
}
use proxycache.Worker.Stream.{StreamEnd, StreamAnswer, end_stream, cleanup, serve_stream}
use proxycache.Worker.Acquire.{Attempts}
use proxycache.Worker.Process.{Answers, restore_slot_of, prepare, serve, process_worker_request}
use proxycache.Worker.Steps.{
  Stable, save_or_skip-Stable, chat_checked-Stable, end_stream-Stable, restore_slot_of-Stable,
}

abbrev pub is_reply : Event → Bool
is_reply (replied status) = true
is_reply e = false

abbrev pub is_end : Event → Bool
is_end finished = true
is_end e = false

-- How often an event of a kind was logged.
abbrev pub times : (Event → Bool) → List Event → ℕ
times kind [] = 0
times kind (e ∷ es) = let rest = times kind es in if kind e then suc rest else rest

module _ {F : Type 0} ⦃fl : FloatOps F⦄ (env : WorkerEnv F) where
  abbrev Logged : List Event → Worker F → Type 0
  Logged es w = w.events ≡ es

  Logged-Stable : (es : List Event) → Stable env (Logged es)
  Logged-Stable es = record {
    tracks = λ s blocks w p. p;
    forgets = λ s w p. p;
    skips = λ s entry w p. p;
    flushes = λ s w p. p;
    saves = λ model key blocks n size w p. p;
    touches = λ key w p. p;
    penalizes = λ key backend w p. p;
  }

  -- One reply more than before, and no end.
  abbrev Replies : List Event → List Event → Type 0
  Replies es events =
      (times is_reply events ≡ suc (times is_reply es)) × (times is_end events ≡ times is_end es)

  replied-Replies :
      (es events : List Event) (status : ℕ) → events ≡ es → Replies es (replied status ∷ events)
  replied-Replies es events status p = (ap (λ l. suc (times is_reply l)) p, ap (times is_end) p)

  module _ {T : Type 0} (req : ProcRequest F T) where
    complete_chat-Replies :
        (sv : Serving) (usage : Usage) (es : List Event) (w : Worker F)
        → Logged es w
        → Replies es (complete_chat env req sv usage w).events
    unfolding complete_chat
    complete_chat-Replies sv usage es w p = replied-Replies es _ 200 (
        save_or_skip-Stable env (Logged es) (Logged-Stable es) req sv
          (chat_checked env req sv usage w).0 (chat_checked env req sv usage w).1
          (chat_checked-Stable env (Logged es) (Logged-Stable es) req sv usage w p))

    restored_events :
        (s : ℕ) (prev : Option (List String)) (w : Worker F)
        → (restore_prev_kv s prev w).events ≡ w.events
    unfolding restore_prev_kv
    restored_events s none w = refl
    restored_events s (some blocks) w = refl

    process_non_stream-Replies :
        (sv : Serving) (answer : ChatAnswer) (es : List Event) (w : Worker F)
        → Logged es w
        → Replies es (process_non_stream env req sv answer w).events
    unfolding process_non_stream
    process_non_stream-Replies sv ChatAnswer.timeout es w p = replied-Replies es w.events 504 p
    process_non_stream-Replies sv ChatAnswer.connection_error es w p =
        replied-Replies es _ 503 (restored_events sv.slot (get_kv_state w.slots sv.slot) w ∙ p)
    process_non_stream-Replies sv ChatAnswer.chat_failed es w p =
        replied-Replies es _ 500 (restored_events sv.slot (get_kv_state w.slots sv.slot) w ∙ p)
    process_non_stream-Replies sv ChatAnswer.no_body es w p =
        replied-Replies es _ 502 (restored_events sv.slot (get_kv_state w.slots sv.slot) w ∙ p)
    process_non_stream-Replies sv (ChatAnswer.answered usage) es w p =
        complete_chat-Replies sv usage es w p

    -- The reply of a stream is its header, before the cleanup.
    cleanup-Replies :
        (sv : Serving) (end : StreamEnd) (es : List Event) (w : Worker F)
        → Replies es w.events
        → Replies es (cleanup env req sv end w).events
    unfolding cleanup
    cleanup-Replies sv end es w p =
        let kept : (end_stream env req sv end w).1.events ≡ w.events =
          end_stream-Stable env (Logged w.events) (Logged-Stable w.events) req sv end w refl in
        if_both (λ (v : Worker F). Replies es v.events) (fl.lt (fl.of_int (pos 0)) req.t0)
          (ap (times is_reply) kept ∙ p.0, ap (times is_end) kept ∙ p.1)
          (ap (times is_reply) kept ∙ p.0, ap (times is_end) kept ∙ p.1)

    serve_stream-Replies :
        (sv : Serving) (old : Option (List String)) (answer : StreamAnswer) (es : List Event)
        (w : Worker F)
        → Logged es w
        → Replies es (serve_stream env req sv old answer w).events
    unfolding serve_stream
    serve_stream-Replies sv old StreamAnswer.timeout es w p = replied-Replies es w.events 504 p
    serve_stream-Replies sv old StreamAnswer.connection_error es w p =
        replied-Replies es _ 503 (restored_events sv.slot old w ∙ p)
    serve_stream-Replies sv old StreamAnswer.chat_failed es w p =
        replied-Replies es _ 500 (restored_events sv.slot old w ∙ p)
    serve_stream-Replies sv old (StreamAnswer.bad_status status) es w p =
        replied-Replies es _ status (restored_events sv.slot old w ∙ p)
    serve_stream-Replies sv old (StreamAnswer.streamed end) es w p =
        cleanup-Replies sv end es _ (replied-Replies es w.events 200 p)

    serve-Replies :
        (sha256_hex : String → String) (join_itoa : List T → String) (answers : Answers) (s : ℕ)
        (prev : Option (List String)) (w : Worker F)
        → Replies w.events (serve sha256_hex join_itoa env answers req s prev w).events
    unfolding serve prepare
    serve-Replies sha256_hex join_itoa answers s prev w =
        let (sv, ready) = prepare sha256_hex join_itoa env req s prev w in
        let kept : (restore_slot_of env req s prev w).1.events ≡ w.events =
          restore_slot_of-Stable env (Logged w.events) (Logged-Stable w.events) req s prev w refl in
        let served =
          if_both (λ (v : Worker F). Replies ready.events v.events) req.stream
            (serve_stream-Replies sv prev answers.stream ready.events ready refl)
            (process_non_stream-Replies sv answers.chat ready.events ready refl) in
        (served.0 ∙ ap (λ l. suc (times is_reply l)) kept, served.1 ∙ ap (times is_end) kept)

    -- A request that came with a slot gets exactly one answer, and its worker ends it exactly once,
    -- for a prompt that does not fit, for every failure of the backend, and for a request that is
    -- served, as a stream or not.
    pub process_worker_request-answers :
        (sha256_hex : String → String) (join_itoa : List T → String) (answers : Answers)
        (acq : Attempts F) (fuel s : ℕ) (w : Worker F)
        → let after =
            process_worker_request sha256_hex join_itoa env answers acq fuel req (some s) w in
          (times is_reply after.events ≡ suc (times is_reply w.events))
          × (times is_end after.events ≡ suc (times is_end w.events))
    unfolding process_worker_request
    process_worker_request-answers sha256_hex join_itoa answers acq fuel s w =
        let served = serve-Replies sha256_hex join_itoa answers s (get_kv_state w.slots s) w in
        if_both
          (λ (v : Worker F).
            (times is_reply v.events ≡ suc (times is_reply w.events))
            × (times is_end v.events ≡ suc (times is_end w.events)))
          (leb_ℤ env.n_ctx req.route.prompt_tokens) (refl, refl) (served.0, ap suc served.1)
