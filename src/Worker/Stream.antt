-- ===== src/Worker/Stream.antt =====
-- `serveStream` of app.go, and the save and the cleanup of its `StreamState`.
use proxycache.Base.{
  ℕ, ℤ, pos, String, Bool, false, not, ◌&&◌, Option, none, some, List, if◌then◌else◌, str_eq,
  FloatOps,
}
use proxycache.Config.Heuristics.{is_zero, is_recompute}
use proxycache.Slots.{CacheHitType, invalidate}
use proxycache.Meta.{MetaDoc, MetaTree, read_meta}
use proxycache.Worker.{
  Worker, WorkerEnv, RouteDecision, ProcRequest, Event, replied, chat_error, completed, latency,
  log, on_slots, release_slot,
}
use proxycache.Worker.Save.{
  Serving, is_hit, restore_prev_kv, meta_n_tokens, recompute_check, save_or_skip, type_of,
}

-- How the copy of a stream ended: the fields of `StreamState` that its cleanup reads.
pub record StreamEnd : Type 0 where
  pub stream_complete : Bool
  pub cancelled : Bool
  pub sse_prompt_tokens : ℤ
  pub sse_cached_tokens : ℤ

pub data StreamAnswer : Type 0 where
  timeout connection_error chat_failed : StreamAnswer
  bad_status : ℕ → StreamAnswer
  streamed : StreamEnd → StreamAnswer

abbrev pub status_of : StreamEnd → String
status_of end =
    if end.stream_complete
    then "complete"
    else if end.cancelled
    then "cancelled"
    else "backend_error"

-- The `restored` of the last record.
abbrev pub restored_of : Option CacheHitType → String → Option Bool
restored_of none key = some false
restored_of (some CacheHitType.disk_restore) key = some (not (str_eq key ""))
restored_of (some CacheHitType.skip) key = none

module _ {F : Type 0} ⦃fl : FloatOps F⦄ where
  -- The prompt's tokens as the backend counted them, else as the proxy did.
  abbrev pub llm_tokens : {T : Type 0} → RouteDecision F T → StreamEnd → ℤ
  llm_tokens dec end =
      if is_zero end.sse_prompt_tokens then dec.prompt_tokens else end.sse_prompt_tokens

  unfoldable pub stream_checked :
      {T : Type 0}
      → WorkerEnv F
      → ProcRequest F T
      → Serving
      → StreamEnd
      → Worker F
      → Bool × Worker F
  unfolding recompute_check
  stream_checked env req sv end w =
      if is_hit req.route.hit_type && not (str_eq sv.eff_restore_backend "")
      then recompute_check env end.sse_cached_tokens (llm_tokens req.route end) sv.eff_restore_key
          sv.eff_restore_backend w
      else (false, w)

  unfoldable pub stream_save :
      {T : Type 0}
      → WorkerEnv F
      → ProcRequest F T
      → Serving
      → StreamEnd
      → Worker F
      → (Bool × ℤ) × Worker F
  unfolding stream_checked save_or_skip
  stream_save env req sv end w =
      let (recompute, checked) = stream_checked env req sv end w in
      save_or_skip env req sv recompute checked

  -- The recompute test of the last record, which charges no penalty.
  unfoldable pub recompute_seen :
      {T : Type 0} → RouteDecision F T → Serving → StreamEnd → MetaTree F → Bool
  unfolding is_recompute meta_n_tokens read_meta
  recompute_seen dec sv end metas =
      let doc : Option (MetaDoc F) =
        if not (str_eq sv.eff_restore_key "")
        then read_meta metas sv.eff_restore_key sv.eff_restore_backend
        else none in
      is_hit dec.hit_type
      && is_recompute F end.sse_cached_tokens (llm_tokens dec end)
          (meta_n_tokens doc (llm_tokens dec end))

  -- An incomplete stream leaves the slot's content unknown.
  unfoldable pub end_stream :
      {T : Type 0}
      → WorkerEnv F
      → ProcRequest F T
      → Serving
      → StreamEnd
      → Worker F
      → (Bool × ℤ) × Worker F
  unfolding stream_save invalidate
  end_stream env req sv end w =
      if end.stream_complete
      then stream_save env req sv end w
      else ((false, pos 0), on_slots (λ b. invalidate b sv.slot) w)

  -- The body of `cleanup`, which `cleanupOnce` runs a single time.
  unfoldable pub cleanup :
      {T : Type 0} → WorkerEnv F → ProcRequest F T → Serving → StreamEnd → Worker F → Worker F
  unfolding end_stream recompute_seen
  cleanup env req sv end w =
      let ((ok, size), kept) = end_stream env req sv end w in
      let free = release_slot env sv.slot kept in
      if fl.lt (fl.of_int (pos 0)) req.t0
      then log (latency (type_of req)) (
          log
            (completed (status_of end) (restored_of req.route.hit_type sv.eff_restore_key)
              (recompute_seen req.route sv end free.ring.metas) ok size)
            free)
      else free

  -- `old_kv` are the slot's blocks before the request.
  unfoldable pub serve_stream :
      {T : Type 0}
      → WorkerEnv F
      → ProcRequest F T
      → Serving
      → Option (List String)
      → StreamAnswer
      → Worker F
      → Worker F
  unfolding restore_prev_kv cleanup
  serve_stream env req sv old_kv answer w =
      let restored = restore_prev_kv sv.slot old_kv w in
      let error : Event = chat_error (some sv.slot) sv.routing_reason in
      elim answer [
        | timeout ↦ log (replied 504) (release_slot env sv.slot (log error w))
        | connection_error ↦ log (replied 503) (log error (release_slot env sv.slot restored))
        | chat_failed ↦ log (replied 500) (log error (release_slot env sv.slot restored))
        | bad_status status ↦ log (replied status) (release_slot env sv.slot (log error restored))
        | streamed end ↦ cleanup env req sv end (log (replied 200) w)
      ]
