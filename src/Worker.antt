-- ===== src/Worker.antt =====
-- processor.go: one request on its backend, from the restore to the release of the slot. The state
-- is the backend's slot pools and cache ring, and what the worker did that others see; what the
-- backend, the other backends and the clock answer are arguments.
pub mod Acquire
pub mod Restore
pub mod Save
pub mod Stream
pub mod Process
pub mod Steps
pub mod Released
pub mod Kept
pub mod Answered
pub mod Trying
pub mod Waits
pub mod Failures
pub mod Tests
use proxycache.Base.{
  ℕ, ℤ, pos, String, Bool, true, false, ◌&&◌, Option, none, some, List, [], ◌∷◌, Map, length, eqb,
  ltb, ltb_ℤ, or_else, if◌then◌else◌, FloatOps,
}
use proxycache.Config.{Config}
use proxycache.Slots.{Slots, CacheHitType, release, set_kv_state}
use proxycache.Ring.{Ring, RingEnv}
use proxycache.Ring.Evict.{record_save, touch_ring}

pub data Event : Type 0 where
  -- `WriteJSON` with a status.
  replied : ℕ → Event
  -- `recordChatError` with a slot, -1 as `none`, and a routing reason.
  chat_error : Option ℕ → String → Event
  -- `Metrics.Record` before the request is sent: routing reason, restored, cache_migrated.
  routed : String → Option Bool → Option Bool → Event
  -- `Metrics.Record` at the end: status, restored, recompute, saved, cached size.
  completed : String → Option Bool → Bool → Bool → ℤ → Event
  -- The two latency averages, under the request's type.
  latency : String → Event
  touched discarded requeued finished : Event

-- `events` has the newest first.
pub record Worker (F : Type 0) : Type 0 where
  pub slots : Slots F
  pub ring : Ring F
  pub events : List Event

-- What a request meets outside the proxy's own state. `n_ctx` is the answer of `GetBackendNCtx`,
-- `save_slot` none where the call fails; `exists` and `arrived` are the backend's answers on a cache
-- file before and after the wait for a transfer, and `in_flight` and `remote_size` what is known of
-- the key at the other backend before it.
pub record WorkerEnv (F : Type 0) : Type 0 where
  pub cfg : Config F
  pub ring_env : RingEnv F
  pub now : F
  pub released_at : F
  pub n_ctx : ℤ
  pub cache_enabled : Bool
  pub save_slot : ℕ → String → String → Option (Bool × ℤ)
  pub restore_slot : ℕ → String → String → Bool
  pub exists : String → Bool
  pub arrived : String → Bool
  pub in_flight : String → Bool
  pub remote_size : String → ℤ

-- `RouteDecision`, with `selected.ModelName` as the model.
pub record RouteDecision (F T : Type 0) : Type 0 where
  pub model_name : String
  pub prompt_tokens : ℤ
  pub first_token_ids : List T
  pub backend_token_ids : Map String (List T)
  pub backend_blocks : Map String (List String)
  pub backend_cache_ratios : Map String F
  pub hit_type : Option CacheHitType
  pub best_ratio : F
  pub restore_key : String
  pub restore_backend : String
  pub disk_restore_key : String
  pub disk_restore_backend : String

-- `message_score` is what `ClassifyRequest` makes of the messages when the save is decided, none for
-- a request without messages; `class_score` is `reqClass.Score`.
pub record ProcRequest (F T : Type 0) : Type 0 where
  pub stream : Bool
  pub migrated_from : String
  pub message_score : Option F
  pub class_score : F
  pub t0 : F
  pub route : RouteDecision F T

module _ {F : Type 0} where
  abbrev pub log : Event → Worker F → Worker F
  log event w = record w { events = event ∷ w.events }

  abbrev pub on_slots : (Slots F → Slots F) → Worker F → Worker F
  on_slots f w = record w { slots = f w.slots }

module _ {F : Type 0} ⦃fl : FloatOps F⦄ where
  abbrev pub release_slot : WorkerEnv F → ℕ → Worker F → Worker F
  release_slot env s = on_slots (λ b. (release env.cfg b s env.released_at).1)

  -- `Restore`: the ring's entry is touched after a restore that succeeded.
  unfoldable pub restore : WorkerEnv F → ℕ → String → String → Bool → Worker F → Bool × Worker F
  unfolding touch_ring
  restore env s key model touch w =
      let restored = env.restore_slot s key model in
      (restored, if restored && touch then record w { ring = touch_ring env.now key w.ring } else w)

  -- The parts of `SaveAfter` after the call of the backend: the slot's state, then the ring's entry.
  unfoldable pub track_blocks : ℕ → List String → Worker F → Worker F
  unfolding set_kv_state
  track_blocks s blocks w =
      if ltb 0 (length blocks) then on_slots (λ b. set_kv_state b s blocks) w else w

  unfoldable pub keep_saved :
      WorkerEnv F → String → String → List String → ℤ → Bool × ℤ → Worker F → Worker F
  unfolding record_save
  keep_saved env model key blocks n_tokens (ok, size) w =
      if ok && ltb_ℤ (pos 0) size
      then record w {
        ring = record_save env.ring_env env.now model key blocks n_tokens size w.ring;
      }
      else w

  unfoldable pub save_after :
      WorkerEnv F → String → ℕ → String → List String → ℤ → Worker F → (Bool × ℤ) × Worker F
  unfolding keep_saved track_blocks
  save_after env model s key blocks n_tokens w =
      let saved = or_else (false, pos 0) (env.save_slot s key model) in
      if env.cache_enabled
      then (saved, keep_saved env model key blocks n_tokens saved (track_blocks s blocks w))
      else ((false, pos 0), w)
