-- ===== src/Worker/Save.antt =====
-- `processNonStream` of processor.go: the answer of the backend, and what is saved after it.
use proxycache.Base.{
  ℕ, ℤ, pos, String, Bool, true, false, not, ◌&&◌, Option, none, some, List, lookup_or,
  if◌then◌else◌, str_eq, string_eq, FloatOps,
}
use proxycache.Config.Heuristics.{should_skip_save_heuristic, should_save_cache, is_recompute}
use proxycache.Slots.{SaveSkipEntry, CacheHitType, set_kv_state, get_kv_state, mark_save_skipped}
use proxycache.Meta.{MetaDoc, MetaTree, read_meta, increment_recompute_penalty}
use proxycache.Worker.{
  Worker, WorkerEnv, RouteDecision, ProcRequest, Event, replied, chat_error, completed, latency,
  log, on_slots, release_slot, save_after,
}

abbrev pub is_hit : Option CacheHitType → Bool
is_hit none = false
is_hit (some hit) = true

-- What a request is served with: its slot and save key, its blocks, and the coordinates of the
-- cache that it was restored from.
pub record Serving : Type 0 where
  pub slot : ℕ
  pub key : String
  pub blocks : List String
  pub restored : Option Bool
  pub routing_reason : String
  pub eff_restore_key : String
  pub eff_restore_backend : String

-- `prompt_tokens` and `cached_tokens` of a usage object, 0 where they are missing.
pub record Usage : Type 0 where
  pub cached_tokens : ℤ
  pub llm_prompt_tokens : ℤ

pub data ChatAnswer : Type 0 where
  timeout connection_error chat_failed no_body : ChatAnswer
  answered : Usage → ChatAnswer

module _ {F : Type 0} ⦃fl : FloatOps F⦄ where
  unfoldable pub restore_prev_kv : ℕ → Option (List String) → Worker F → Worker F
  unfolding set_kv_state
  restore_prev_kv s none w = w
  restore_prev_kv s (some blocks) w = on_slots (λ b. set_kv_state b s blocks) w

module _ {F : Type 0} ⦃fl : FloatOps F⦄ where
  unfoldable pub meta_n_tokens : Option (MetaDoc F) → ℤ → ℤ
  meta_n_tokens none fallback = fallback
  meta_n_tokens (some doc) fallback = elim doc.n_tokens [ none ↦ fallback | some n ↦ fl.to_int n ]

  -- `kvMeta.ReadMeta` where there are coordinates to read at.
  abbrev pub cache_meta : MetaTree F → String → String → Option (MetaDoc F)
  cache_meta metas key backend =
      if not (str_eq key "") && not (str_eq backend "") then read_meta metas key backend else none

  abbrev pub type_of : {T : Type 0} → ProcRequest F T → String
  type_of req = if fl.le (fl.dec 4 1) req.class_score then "summarization" else "conversation"

  -- The penalty of a restore that was of no use.
  abbrev pub penalize : WorkerEnv F → String → String → Worker F → Worker F
  penalize env key backend w =
      if not (str_eq key "") && not (str_eq backend "")
      then record w {
        ring = record w.ring {
          metas = increment_recompute_penalty w.ring.metas key backend env.now;
        };
      }
      else w

  unfoldable pub recompute_check :
      WorkerEnv F → ℤ → ℤ → String → String → Worker F → Bool × Worker F
  unfolding is_recompute meta_n_tokens increment_recompute_penalty read_meta
  recompute_check env cached_tokens llm_prompt_tokens key backend w =
      let cache_n_tokens = meta_n_tokens (cache_meta w.ring.metas key backend) llm_prompt_tokens in
      let happened = is_recompute F cached_tokens llm_prompt_tokens cache_n_tokens in
      (happened, if happened then penalize env key backend w else w)

  abbrev pub skip_entry : {T : Type 0} → RouteDecision F T → F → Bool → Serving → SaveSkipEntry F
  skip_entry dec ratio recompute sv = record {
    key = sv.key;
    model = dec.model_name;
    blocks = sv.blocks;
    n_tokens = dec.prompt_tokens;
    hit_type = dec.hit_type;
    serving_ratio = ratio;
    recompute = recompute;
    legacy = false;
  }

  -- `dec.backendCacheRatios[beID]`.
  abbrev pub serving_ratio : {T : Type 0} → WorkerEnv F → RouteDecision F T → F
  serving_ratio env dec =
      lookup_or (fl.of_int (pos 0)) env.ring_env.backend_id dec.backend_cache_ratios

  -- The save, or the note that there was none.
  unfoldable pub save_or_skip :
      {T : Type 0}
      → WorkerEnv F
      → ProcRequest F T
      → Serving
      → Bool
      → Worker F
      → (Bool × ℤ) × Worker F
  unfolding should_skip_save_heuristic should_save_cache save_after mark_save_skipped
  save_or_skip env req sv recompute w =
      let dec = req.route in
      let ratio = serving_ratio env dec in
      let skipped : (Bool × ℤ) × Worker F = (
        (false, pos 0),
        on_slots (λ b. mark_save_skipped b sv.slot (skip_entry dec ratio recompute sv)) w,
      ) in
      if should_skip_save_heuristic env.cfg dec.prompt_tokens env.n_ctx req.message_score
      then skipped
      else if should_save_cache env.cfg ratio recompute
      then save_after env dec.model_name sv.slot sv.key sv.blocks dec.prompt_tokens w
      else skipped

  -- The recompute test only follows a hit.
  unfoldable pub chat_checked :
      {T : Type 0} → WorkerEnv F → ProcRequest F T → Serving → Usage → Worker F → Bool × Worker F
  unfolding recompute_check
  chat_checked env req sv usage w =
      if is_hit req.route.hit_type
      then recompute_check env usage.cached_tokens usage.llm_prompt_tokens sv.eff_restore_key
          sv.eff_restore_backend w
      else (false, w)

  -- A chat that was answered.
  unfoldable pub complete_chat :
      {T : Type 0} → WorkerEnv F → ProcRequest F T → Serving → Usage → Worker F → Worker F
  unfolding chat_checked save_or_skip
  complete_chat env req sv usage w =
      let (recompute, checked) = chat_checked env req sv usage w in
      let ((ok, size), saved) = save_or_skip env req sv recompute checked in
      log (replied 200) (
        log (latency (type_of req))
          (log (completed "complete" sv.restored recompute ok (if ok then size else pos 0)) saved))

  -- Every path but the one of a lost connection leaves the release to the deferred call.
  unfoldable pub process_non_stream :
      {T : Type 0} → WorkerEnv F → ProcRequest F T → Serving → ChatAnswer → Worker F → Worker F
  unfolding restore_prev_kv get_kv_state complete_chat
  process_non_stream env req sv answer w =
      let restored = restore_prev_kv sv.slot (get_kv_state w.slots sv.slot) w in
      let error : Event = chat_error (some sv.slot) sv.routing_reason in
      elim answer [
        | timeout ↦ release_slot env sv.slot (log (replied 504) (log error w))
        | connection_error ↦ log (replied 503) (log error (release_slot env sv.slot restored))
        | chat_failed ↦ release_slot env sv.slot (log (replied 500) (log error restored))
        | no_body ↦ release_slot env sv.slot (log (replied 502) (log error restored))
        | answered usage ↦ release_slot env sv.slot (complete_chat env req sv usage w)
      ]
