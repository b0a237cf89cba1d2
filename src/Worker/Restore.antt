-- ===== src/Worker/Restore.antt =====
-- What processor.go does to a slot before the request is sent: the skipped save that is written at
-- last, the key to restore from, the wait for a transfer, and the restore itself.
use proxycache.Base.{
  ℕ, zero, suc, ℤ, pos, String, Bool, true, false, not, ◌&&◌, ◌||◌, Option, none, some, List,
  length, ltb_ℤ, ltb, str_eq, if◌then◌else◌, FloatOps,
}
use proxycache.Config.{Config}
use proxycache.Config.Heuristics.{should_skip_save_heuristic}
use proxycache.Slots.{
  SaveSkipEntry, CacheHitType, set_kv_state, flush_save_skipped, should_skip_restore,
}
use proxycache.Meta.{MetaTree}
use proxycache.Meta.Search.{find_best_restore_candidate}
use proxycache.Worker.{Worker, WorkerEnv, RouteDecision, on_slots, restore, save_after}

abbrev pub is_skip : Option CacheHitType → Bool
is_skip none = false
is_skip (some CacheHitType.disk_restore) = false
is_skip (some CacheHitType.skip) = true

module _ {F : Type 0} ⦃fl : FloatOps F⦄ where
  -- Durations are nanoseconds.
  abbrev pub min_wait : Config F → ℤ
  min_wait cfg = fl.to_int (fl.mul cfg.cache_transfer_wait (fl.of_int (pos 1000000000)))

  abbrev pub estimate : Config F → ℤ → ℤ
  estimate cfg size_bytes = fl.to_int (
      fl.mul
        (fl.div (fl.of_int size_bytes)
          (fl.mul (fl.of_int (pos 1048576)) cfg.cache_transfer_assumed_mbps))
        (fl.of_int (pos 1000000000)))

  unfoldable pub transfer_wait_for : Config F → ℤ → ℤ
  transfer_wait_for cfg size_bytes =
      if ltb_ℤ (pos 0) size_bytes && fl.lt (fl.of_int (pos 0)) cfg.cache_transfer_assumed_mbps
      then (if ltb_ℤ (min_wait cfg) (estimate cfg size_bytes)
          then estimate cfg size_bytes
          else min_wait cfg)
      else min_wait cfg

  -- The wait, where there is one, and the key, empty where there is nothing to restore.
  unfoldable pub resolve_restore_key :
      {T : Type 0} → WorkerEnv F → RouteDecision F T → String → Bool → Option ℤ × String
  unfolding transfer_wait_for
  resolve_restore_key env dec be can_skip =
      if str_eq dec.disk_restore_key ""
      then (none, "")
      else if str_eq be dec.disk_restore_backend
      then (if not can_skip && is_skip dec.hit_type && str_eq dec.restore_backend be
          then (none, dec.disk_restore_key)
          else if can_skip
          then (none, "")
          else (none, dec.disk_restore_key))
      else (
        if env.in_flight dec.disk_restore_key
            then some (transfer_wait_for env.cfg (env.remote_size dec.disk_restore_key))
            else none,
        if env.arrived dec.disk_restore_key then dec.disk_restore_key else "",
      )

  -- The decision of `flushSkippedSave` on the entry that it took out.
  unfoldable pub flush_wanted : WorkerEnv F → MetaTree F → String → Bool → SaveSkipEntry F → Bool
  unfolding should_skip_save_heuristic find_best_restore_candidate
  flush_wanted env metas be can_skip entry =
      if entry.legacy
      then true
      else if not can_skip && not (env.exists entry.key)
      then (if should_skip_save_heuristic env.cfg entry.n_tokens env.n_ctx none
          then false
          else elim (find_best_restore_candidate metas entry.blocks env.cfg.words_per_block
              env.cfg.lcp_th entry.model be) [
                | none ↦ true
                | some (_, ratio) ↦ fl.le ratio env.cfg.cache_save_ratio_threshold
              ])
      else false

  -- `SaveAfter` tracks the older blocks again, so this request's are put back.
  unfoldable pub flush_entry :
      WorkerEnv F → ℕ → List String → Bool → String → String → SaveSkipEntry F → Worker F → Worker F
  unfolding flush_wanted save_after
  flush_entry env s blocks can_skip model be entry w =
      let (_, saved) = save_after env model s entry.key entry.blocks entry.n_tokens w in
      if flush_wanted env w.ring.metas be can_skip entry
      then on_slots (λ b. set_kv_state b s blocks) saved
      else w

  unfoldable pub flush_skipped_save :
      WorkerEnv F → ℕ → List String → Bool → String → String → Worker F → Worker F
  unfolding flush_entry
  flush_skipped_save env s blocks can_skip model be w =
      let (entry, b) = flush_save_skipped w.slots s in
      elim entry [
        | none ↦ record w { slots = b }
        | some e ↦ flush_entry env s blocks can_skip model be e (record w { slots = b })
      ]

-- The restore in front of a request: whether the slot's cache was restored (nil is `none`), and
-- whether the restore was skipped.
pub record Restored : Type 0 where
  pub restored : Option Bool
  pub skipped : Bool

module _ {F : Type 0} ⦃fl : FloatOps F⦄ where
  unfoldable pub do_worker_restore :
      WorkerEnv F
      → ℕ
      → String
      → List String
      → Option (List String)
      → String
      → Worker F
      → Restored × Worker F
  unfolding should_skip_restore restore
  do_worker_restore env s key blocks prev_blocks model w =
      let called : Restored × Worker F =
        (record { restored = some true; skipped = false }, (restore env s key model true w).1) in
      if ltb 0 (length blocks)
      then (if should_skip_restore env.cfg w.slots s blocks prev_blocks true
          then (record { restored = some false; skipped = true }, w)
          else if not (str_eq key "")
          then called
          else (record { restored = some false; skipped = false }, w))
      else if not (str_eq key "")
      then called
      else (record { restored = none; skipped = false }, w)

-- `waitForTransferComplete`: how many times the loop sleeps. Poll `i` reads the tracker, the clock
-- (in milliseconds) and the client's state.
pub record Polls : Type 0 where
  pub in_flight : ℕ → Bool
  pub clock : ℕ → ℕ
  pub gone : ℕ → Bool

unfoldable pub wait_for_transfer_complete : Polls → ℕ → ℕ → ℕ → Option ℕ
wait_for_transfer_complete polls deadline zero i = none
wait_for_transfer_complete polls deadline (suc fuel) i =
    let rest = wait_for_transfer_complete polls deadline fuel (suc i) in
    if not (polls.in_flight i)
    then some i
    else if ltb deadline (polls.clock i) || polls.gone i
    then some i
    else rest
