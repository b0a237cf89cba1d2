-- ===== src/Slots.antt =====
-- The slot pools of slotmanager.go: `BackendSlotManager` without its cache ring (Ring.antt).
-- A method returns the new state; a slot id of -1 is `none`; `now` is the reading of the clock.
pub mod Acquire
pub mod Pools
pub mod Exclusion
pub mod Skip
pub mod Tests
use proxycache.Base.{
  ℕ, zero, suc, ◌+◌, ◌-◌, ℤ, pos, String, Bool, true, false, not, ◌&&◌, ◌||◌, Option, none, some,
  List, [], ◌∷◌, Map, lookup, lookup_or, insert, delete, any, length, ltb, leb, eqb, if◌then◌else◌,
  FloatOps, nat_eq, string_eq,
}
use proxycache.Config.{Config}
use proxycache.Hashing.{lcp_blocks}

pub data CacheHitType : Type 0 where
  disk_restore skip : CacheHitType

pub record SaveSkipEntry (F : Type 0) : Type 0 where
  pub key : String
  pub model : String
  pub blocks : List String
  pub n_tokens : ℤ
  pub hit_type : Option CacheHitType
  pub serving_ratio : F
  pub recompute : Bool
  pub legacy : Bool

pub record Slots (F : Type 0) : Type 0 where
  pub backend_id : String
  pub slot_pools : Map String (List ℕ)
  pub in_use : Map ℕ Bool
  pub last_used : Map ℕ F
  pub slot_kv_state : Map ℕ (List String)
  pub slot_save_skipped : Map ℕ (SaveSkipEntry F)
  pub slot_acquired_at : Map ℕ F
  pub slot_duration_ema : F

-- `b.inUse[s]`: a slot that the map does not hold is free.
abbrev pub busy : {F : Type 0} → Slots F → ℕ → Bool
busy b s = lookup_or false s b.in_use

-- The ids `i, i + 1, …` of `n` slots.
unfoldable pub slot_ids : ℕ → ℕ → List ℕ
slot_ids i zero = []
slot_ids i (suc n) = i ∷ slot_ids (i + 1) n

-- Some model has more than one slot here.
abbrev pub multi_slot : Map String (List ℕ) → Bool
multi_slot [] = false
multi_slot ((_, pool) ∷ pools) = ltb 1 (length pool) || multi_slot pools

module _ {F : Type 0} ⦃fl : FloatOps F⦄ where
  unfoldable pub new_backend_slot_manager : String → Slots F
  new_backend_slot_manager id = record {
    backend_id = id;
    slot_pools = [];
    in_use = [];
    last_used = [];
    slot_kv_state = [];
    slot_save_skipped = [];
    slot_acquired_at = [];
    slot_duration_ema = fl.of_int (pos 0);
  }

  -- The loops of `EnsurePool`: a slot that is new to the model starts as free …
  unfoldable pub reset_slot : List ℕ → ℕ → Slots F → Slots F
  reset_slot old s b = if any (eqb s) old then b else record b {
    last_used = insert s (fl.of_int (pos 0)) b.last_used;
    in_use = insert s false b.in_use;
  }

  unfoldable pub reset_slots : List ℕ → List ℕ → Slots F → Slots F
  unfolding reset_slot
  reset_slots old [] b = b
  reset_slots old (s ∷ ss) b = reset_slots old ss (reset_slot old s b)

  -- … and a free slot past the new end is forgotten.
  unfoldable pub drop_slot : ℕ → ℕ → Slots F → Slots F
  drop_slot n s b =
      if leb n s && not (busy b s)
      then record b {
        last_used = delete s b.last_used;
        in_use = delete s b.in_use;
        slot_kv_state = delete s b.slot_kv_state;
        slot_save_skipped = delete s b.slot_save_skipped;
      }
      else b

  unfoldable pub drop_slots : ℕ → List ℕ → Slots F → Slots F
  unfolding drop_slot
  drop_slots n [] b = b
  drop_slots n (s ∷ ss) b = drop_slots n ss (drop_slot n s b)

  abbrev set_pool : String → List ℕ → Slots F → Slots F
  set_pool model pool b = record b { slot_pools = insert model pool b.slot_pools }

  unfoldable pub ensure_pool : Slots F → String → ℕ → Slots F
  unfolding reset_slots drop_slots slot_ids
  ensure_pool b model n = elim (lookup model b.slot_pools) [
    | none ↦ set_pool model (slot_ids 0 n) (reset_slots [] (slot_ids 0 n) b)
    | some old ↦ set_pool model (slot_ids 0 n) (drop_slots n old (reset_slots old (slot_ids 0 n) b))
  ]

  unfoldable pub get_pool : Slots F → String → Option (List ℕ)
  get_pool b model = lookup model b.slot_pools

  -- The first free slot of a pool.
  unfoldable pub first_free : Slots F → List ℕ → Option ℕ
  first_free b [] = none
  first_free b (s ∷ ss) = let rest = first_free b ss in if busy b s then rest else some s

  -- `lastUsed[s] < lastUsed[best]` makes `s` the slot found so far.
  unfoldable pub older : Slots F → ℕ → ℕ → ℕ
  older b best s =
      if fl.lt (lookup_or (fl.of_int (pos 0)) s b.last_used)
        (lookup_or (fl.of_int (pos 0)) best b.last_used)
      then s
      else best

  -- The least recently used slot: the second loop of `TryAcquire`, from the slot found so far.
  unfoldable pub oldest_from : Slots F → List ℕ → ℕ → ℕ
  unfolding older
  oldest_from b [] best = best
  oldest_from b (s ∷ ss) best = oldest_from b ss (older b best s)

  abbrev pub take_slot : Slots F → ℕ → F → Option ℕ × Slots F
  take_slot b s now = (
    some s,
    record b {
      in_use = insert s true b.in_use;
      last_used = insert s now b.last_used;
      slot_acquired_at = insert s now b.slot_acquired_at;
    },
  )

  unfoldable pub acquire_from : Slots F → List ℕ → F → Option ℕ × Slots F
  unfolding first_free oldest_from
  acquire_from b [] now = (none, b)
  acquire_from b (s ∷ ss) now = elim (first_free b (s ∷ ss)) [
    | some free ↦ take_slot b free now
    | none ↦
        let slot = oldest_from b ss s in if busy b slot then (none, b) else take_slot b slot now
  ]

  unfoldable pub try_acquire : Slots F → String → F → Option ℕ × Slots F
  unfolding acquire_from
  try_acquire b model now = elim (lookup model b.slot_pools) [
    | none ↦ (none, b)
    | some pool ↦ acquire_from b pool now
  ]

  -- The duration that `Release` reports, or `none` for a slot that was never acquired.
  unfoldable pub release : Config F → Slots F → ℕ → F → Option F × Slots F
  release cfg b s now =
      let freed : Slots F = record b { in_use = insert s false b.in_use } in
      elim (lookup s b.slot_acquired_at) [
        | none ↦ (none, freed)
        | some acquired ↦
            let duration = fl.sub now acquired in
            let old =
              if fl.le b.slot_duration_ema (fl.of_int (pos 0))
              then cfg.cache_hit_wait_ema_initial
              else b.slot_duration_ema in
            let ema =
              fl.min
                (fl.add (fl.mul cfg.cache_hit_wait_ema_alpha duration)
                  (fl.mul (fl.sub (fl.of_int (pos 1)) cfg.cache_hit_wait_ema_alpha) old))
                cfg.cache_hit_wait_ema_max in
            (
              some duration,
              record freed {
                slot_acquired_at = delete s b.slot_acquired_at;
                slot_duration_ema =
                    if fl.lt ema cfg.cache_hit_wait_ema_min
                    then cfg.cache_hit_wait_ema_min
                    else ema;
              },
            )
      ]

  unfoldable pub invalidate : Slots F → ℕ → Slots F
  invalidate b s = record b { slot_kv_state = delete s b.slot_kv_state }

  unfoldable pub get_kv_state : Slots F → ℕ → Option (List String)
  get_kv_state b s = lookup s b.slot_kv_state

  unfoldable pub set_kv_state : Slots F → ℕ → List String → Slots F
  set_kv_state b s blocks = record b { slot_kv_state = insert s blocks b.slot_kv_state }

  unfoldable pub get_slot_duration_ema : Config F → Slots F → F
  get_slot_duration_ema cfg b =
      if fl.lt (fl.of_int (pos 0)) b.slot_duration_ema
      then b.slot_duration_ema
      else cfg.cache_hit_wait_ema_initial

  unfoldable pub mark_save_skipped : Slots F → ℕ → SaveSkipEntry F → Slots F
  mark_save_skipped b s entry = record b { slot_save_skipped = insert s entry b.slot_save_skipped }

  unfoldable pub flush_save_skipped : Slots F → ℕ → Option (SaveSkipEntry F) × Slots F
  flush_save_skipped b s =
      (lookup s b.slot_save_skipped, record b { slot_save_skipped = delete s b.slot_save_skipped })

  abbrev count_busy : Slots F → List ℕ → ℕ
  count_busy b [] = 0
  count_busy b (s ∷ ss) = (if busy b s then 1 else 0) + count_busy b ss

  unfoldable pub count_in_use : Slots F → String → ℕ
  count_in_use b model = elim (lookup model b.slot_pools) [
    | none ↦ 0
    | some pool ↦ count_busy b pool
  ]

  -- `float64(diff) / float64(maxLen)` and the ratio tests of `ShouldSkipRestore`, for a non-empty
  -- `prev` that is no longer than the request.
  unfoldable pub skip_ratio_passes : Config F → List String → List String → Bool
  skip_ratio_passes cfg req prev =
      let n_prev = length prev in
      let n_req = length req in
      let diff = n_req - n_prev in
      let max_len = if ltb n_prev n_req then n_req else n_prev in
      let diff_pct =
        if ltb 0 max_len
        then fl.div (fl.of_int (pos diff)) (fl.of_int (pos max_len))
        else fl.of_int (pos 0) in
      let low = if ltb n_prev n_req then n_prev else n_req in
      let denom = if ltb low 1 then 1 else low in
      if fl.lt cfg.kv_cache_skip_max_block_diff diff_pct
      then false
      else fl.le cfg.kv_cache_skip_threshold
          (fl.div (fl.of_int (pos (lcp_blocks req prev))) (fl.of_int (pos denom)))

  unfoldable pub skip_with : Config F → Slots F → List String → List String → Bool
  unfolding skip_ratio_passes
  skip_with cfg b req [] = false
  skip_with cfg b req (p ∷ prev) =
      if multi_slot b.slot_pools
      then false
      else if ltb (length req) (length (p ∷ prev))
      then false
      else skip_ratio_passes cfg req (p ∷ prev)

  -- `prev_passed` is false where the caller gave no previous blocks; nil blocks are `none`.
  unfoldable pub should_skip_restore :
      Config F → Slots F → ℕ → List String → Option (List String) → Bool → Bool
  unfolding skip_with
  should_skip_restore cfg b s req prev false = elim (lookup s b.slot_kv_state) [
    | none ↦ false
    | some blocks ↦ skip_with cfg b req blocks
  ]
  should_skip_restore cfg b s req none true = false
  should_skip_restore cfg b s req (some blocks) true = skip_with cfg b req blocks
