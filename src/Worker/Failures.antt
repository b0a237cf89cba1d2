-- ===== src/Worker/Failures.antt =====
-- processor.go and app.go: the blocks tracked for the slot of a request that failed.
use proxycache.Base.{
  or_else, leb_ℤ, ℕ, ◌≡◌, refl, ap, ◌∙◌, String, Bool, true, false, Option, none, some, List, arith,
  pos, lookup, lookup-insert, lookup-delete, ==_refl, if◌then◌else◌, if_both, Option-cases, inl,
  inr, FloatOps, nat_eq, string_eq,
}
use proxycache.Slots.{
  SaveSkipEntry, release, set_kv_state, get_kv_state, flush_save_skipped, invalidate,
}
use proxycache.Worker.{Worker, WorkerEnv, ProcRequest, on_slots, restore, release_slot, save_after}
use proxycache.Worker.Acquire.{Attempts}
use proxycache.Worker.Restore.{flush_wanted, flush_entry, flush_skipped_save, do_worker_restore}
use proxycache.Worker.Save.{Serving, ChatAnswer, restore_prev_kv, process_non_stream}
use proxycache.Worker.Stream.{
  StreamEnd, StreamAnswer, stream_save, end_stream, cleanup, serve_stream,
}
use proxycache.Worker.Process.{
  Answers, request_blocks, can_skip_at, track_and_flush, key_to_restore, restore_slot_of, prepare,
  serve, process_worker_request,
}

module _ {F : Type 0} ⦃fl : FloatOps F⦄ (env : WorkerEnv F) where
  -- The blocks tracked for slot `s` are `blocks`.
  abbrev Tracks : ℕ → List String → Worker F → Type 0
  Tracks s blocks w = get_kv_state w.slots s ≡ some blocks

  set_kv_state-get :
      (s : ℕ) (blocks : List String) (w : Worker F)
      → Tracks s blocks (on_slots (λ b. set_kv_state b s blocks) w)
  unfolding set_kv_state get_kv_state
  set_kv_state-get s blocks w =
      lookup-insert s s blocks w.slots.slot_kv_state
      ∙ ap (λ b. if b then some blocks else lookup s w.slots.slot_kv_state) (==_refl s)

  release_slot-Tracks :
      (t : ℕ) (s : ℕ) (w : Worker F)
      → get_kv_state (release_slot env t w).slots s ≡ get_kv_state w.slots s
  unfolding get_kv_state release
  release_slot-Tracks t s w = ground arith

  put_back :
      (sv : Serving) (blocks : List String) (w : Worker F)
      → get_kv_state
          (release_slot env sv.slot (on_slots (λ b. set_kv_state b sv.slot blocks) w)).slots
          sv.slot
        ≡ some blocks
  put_back sv blocks w =
      release_slot-Tracks sv.slot sv.slot (on_slots (λ b. set_kv_state b sv.slot blocks) w)
      ∙ set_kv_state-get sv.slot blocks w

  flush_entry-Tracks :
      (s : ℕ) (blocks : List String) (can_skip : Bool) (model be : String) (entry : SaveSkipEntry F)
      (w : Worker F)
      → Tracks s blocks w
      → Tracks s blocks (flush_entry env s blocks can_skip model be entry w)
  unfolding flush_entry
  flush_entry-Tracks s blocks can_skip model be entry w h =
      if_both (Tracks s blocks) (flush_wanted env w.ring.metas be can_skip entry)
        (set_kv_state-get s blocks
          (save_after env model s entry.key entry.blocks entry.n_tokens w).1)
        h

  flush_skipped_save-Tracks :
      (s : ℕ) (blocks : List String) (can_skip : Bool) (model be : String) (w : Worker F)
      → Tracks s blocks w
      → Tracks s blocks (flush_skipped_save env s blocks can_skip model be w)
  unfolding flush_skipped_save flush_save_skipped get_kv_state
  flush_skipped_save-Tracks s blocks can_skip model be w h =
      elim (Option-cases (flush_save_skipped w.slots s).0) [
        | inl e ↦ rw (e, flush_skipped_save) h
        | inr (entry, e) ↦
            rw (e, flush_skipped_save) (flush_entry-Tracks s blocks can_skip model be entry _ h)
      ]

  restore_get :
      (s t : ℕ) (key model : String) (touch : Bool) (w : Worker F)
      → get_kv_state (restore env t key model touch w).1.slots s ≡ get_kv_state w.slots s
  unfolding restore
  restore_get s t key model touch w = ground arith

  do_worker_restore-get :
      (s t : ℕ) (key : String) (blocks : List String) (prev : Option (List String)) (model : String)
      (w : Worker F)
      → get_kv_state (do_worker_restore env t key blocks prev model w).1.slots s
        ≡ get_kv_state w.slots s
  unfolding do_worker_restore
  do_worker_restore-get s t key blocks prev model w =
      ground (arith, restore_get s t key model true w)

  module _ {T : Type 0} (sha256_hex : String → String) (join_itoa : List T → String) where
    -- When a request is sent, its blocks are the ones tracked for its slot.
    prepare-Tracks :
        (req : ProcRequest F T) (s : ℕ) (prev : Option (List String)) (w : Worker F)
        → Tracks s (request_blocks env req) (prepare sha256_hex join_itoa env req s prev w).1
    unfolding prepare restore_slot_of track_and_flush
    prepare-Tracks req s prev w =
        do_worker_restore-get s s (key_to_restore env req s prev w) (request_blocks env req) prev
          req.route.model_name (track_and_flush env req s prev w)
        ∙ flush_skipped_save-Tracks s (request_blocks env req) (can_skip_at env req s prev w)
            req.route.model_name env.ring_env.backend_id
            (on_slots (λ b. set_kv_state b s (request_blocks env req)) w)
            (set_kv_state-get s (request_blocks env req) w)

    abbrev Fails : ChatAnswer → Type 0
    Fails ChatAnswer.timeout = Unit
    Fails ChatAnswer.connection_error = Unit
    Fails ChatAnswer.chat_failed = Unit
    Fails ChatAnswer.no_body = Unit
    Fails (ChatAnswer.answered usage) = ⊥

    -- `restorePrevKV` puts back what the slot tracks when the chat is sent, so nothing changes.
    process_non_stream-Tracks :
        (req : ProcRequest F T) (sv : Serving) (answer : ChatAnswer) (blocks : List String)
        (w : Worker F)
        → Fails answer
        → Tracks sv.slot blocks w
        → Tracks sv.slot blocks (process_non_stream env req sv answer w)
    unfolding process_non_stream restore_prev_kv
    process_non_stream-Tracks req sv ChatAnswer.timeout blocks w f h =
        release_slot-Tracks sv.slot sv.slot w ∙ h
    process_non_stream-Tracks req sv ChatAnswer.connection_error blocks w f h =
        rw h (put_back sv blocks w)
    process_non_stream-Tracks req sv ChatAnswer.chat_failed blocks w f h =
        rw h (put_back sv blocks w)
    process_non_stream-Tracks req sv ChatAnswer.no_body blocks w f h = rw h (put_back sv blocks w)
    process_non_stream-Tracks req sv (ChatAnswer.answered usage) blocks w f h = elim f [ ]

    -- A chat that fails without a stream leaves the request's own blocks tracked for its slot, for
    -- every kind of failure: the blocks that the slot held before are not put back.
    pub serve-failed :
        (answers : Answers) (req : ProcRequest F T) (s : ℕ) (prev : Option (List String))
        (w : Worker F)
        → req.stream ≡ false
        → Fails answers.chat
        → get_kv_state (serve sha256_hex join_itoa env answers req s prev w).slots s
          ≡ some (request_blocks env req)
    unfolding serve prepare
    serve-failed answers req s prev w single f = rw single (
        process_non_stream-Tracks req (prepare sha256_hex join_itoa env req s prev w).0 answers.chat
          (request_blocks env req) _ f (prepare-Tracks req s prev w))

    -- The answers after which `serveStream` puts the slot's old blocks back.
    abbrev pub PutsBack : StreamAnswer → Type 0
    PutsBack StreamAnswer.timeout = ⊥
    PutsBack StreamAnswer.connection_error = Unit
    PutsBack StreamAnswer.chat_failed = Unit
    PutsBack (StreamAnswer.bad_status status) = Unit
    PutsBack (StreamAnswer.streamed end) = ⊥

    -- The blocks that a slot is left with: its old ones, or the request's where it had none.
    abbrev left_with : ProcRequest F T → Option (List String) → List String
    left_with req prev = or_else (request_blocks env req) prev

    restore_prev_kv-Tracks :
        (req : ProcRequest F T) (sv : Serving) (prev : Option (List String)) (w : Worker F)
        → Tracks sv.slot (request_blocks env req) w
        → Tracks sv.slot
            (left_with req prev)
            (release_slot env sv.slot (restore_prev_kv sv.slot prev w))
    unfolding restore_prev_kv
    restore_prev_kv-Tracks req sv none w h = release_slot-Tracks sv.slot sv.slot w ∙ h
    restore_prev_kv-Tracks req sv (some old) w h = put_back sv old w

    serve_stream-Tracks :
        (req : ProcRequest F T) (sv : Serving) (prev : Option (List String)) (answer : StreamAnswer)
        (w : Worker F)
        → PutsBack answer
        → Tracks sv.slot (request_blocks env req) w
        → Tracks sv.slot (left_with req prev) (serve_stream env req sv prev answer w)
    unfolding serve_stream
    serve_stream-Tracks req sv prev StreamAnswer.timeout w h k = elim h [ ]
    serve_stream-Tracks req sv prev StreamAnswer.connection_error w h k =
        restore_prev_kv-Tracks req sv prev w k
    serve_stream-Tracks req sv prev StreamAnswer.chat_failed w h k =
        restore_prev_kv-Tracks req sv prev w k
    serve_stream-Tracks req sv prev (StreamAnswer.bad_status status) w h k =
        restore_prev_kv-Tracks req sv prev w k
    serve_stream-Tracks req sv prev (StreamAnswer.streamed end) w h k = elim h [ ]

    serve-left_with :
        (answers : Answers) (req : ProcRequest F T) (s : ℕ) (prev : Option (List String))
        (w : Worker F)
        → req.stream ≡ true
        → PutsBack answers.stream
        → Tracks s (left_with req prev) (serve sha256_hex join_itoa env answers req s prev w)
    unfolding serve prepare
    serve-left_with answers req s prev w streams h = rw streams (
        serve_stream-Tracks req (prepare sha256_hex join_itoa env req s prev w).0 prev
          answers.stream _ h (prepare-Tracks req s prev w))

    -- A stream that comes with a slot and does not start, but for a timeout, leaves the slot with
    -- the blocks that it held before the request, if it held any, and with the request's own blocks
    -- otherwise. This is for a prompt that fits the context of the backend.
    pub process_worker_request-put_back :
        (answers : Answers) (acq : Attempts F) (fuel : ℕ) (req : ProcRequest F T) (s : ℕ)
        (w : Worker F)
        → leb_ℤ env.n_ctx req.route.prompt_tokens ≡ false
        → req.stream ≡ true
        → PutsBack answers.stream
        → let after =
            process_worker_request sha256_hex join_itoa env answers acq fuel req (some s) w in
          get_kv_state after.slots s
          ≡ some (or_else (request_blocks env req) (get_kv_state w.slots s))
    unfolding process_worker_request
    process_worker_request-put_back answers acq fuel req s w short streams h =
        rw (short, process_worker_request)
          (serve-left_with answers req s (get_kv_state w.slots s) w streams h)

    forgotten :
        (sv : Serving) (w : Worker F)
        → get_kv_state
            (release_slot env sv.slot (on_slots (λ b. invalidate b sv.slot) w)).slots
            sv.slot
          ≡ none
    unfolding get_kv_state invalidate
    forgotten sv w =
        release_slot-Tracks sv.slot sv.slot (on_slots (λ b. invalidate b sv.slot) w)
        ∙ lookup-delete sv.slot sv.slot w.slots.slot_kv_state
        ∙ ap (λ b. if b then none else lookup sv.slot w.slots.slot_kv_state) (==_refl sv.slot)

    end_stream_incomplete :
        (req : ProcRequest F T) (sv : Serving) (end : StreamEnd) (w : Worker F)
        → end.stream_complete ≡ false
        → end_stream env req sv end w ≡ ((false, pos 0), on_slots (λ b. invalidate b sv.slot) w)
    unfolding end_stream
    end_stream_incomplete req sv end w h =
        ap
          (λ b.
            if b
            then stream_save env req sv end w
            else ((false, pos 0), on_slots (λ c. invalidate c sv.slot) w))
          h

    -- The end of a stream that did not complete forgets the slot's blocks and saves nothing.
    pub cleanup_incomplete :
        (req : ProcRequest F T) (sv : Serving) (end : StreamEnd) (w : Worker F)
        → end.stream_complete ≡ false
        → let after = cleanup env req sv end w in
          (get_kv_state after.slots sv.slot ≡ none) × (after.ring ≡ w.ring)
    unfolding cleanup
    cleanup_incomplete req sv end w h =
        rw (end_stream_incomplete req sv end w h, cleanup)
          (if_both (λ (v : Worker F). (get_kv_state v.slots sv.slot ≡ none) × (v.ring ≡ w.ring))
            (fl.lt (fl.of_int (pos 0)) req.t0) (forgotten sv w, refl) (forgotten sv w, refl))
