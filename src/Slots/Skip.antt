-- ===== src/Slots/Skip.antt =====
-- slotmanager.go: when a restore is skipped, what a release does to the occupancy average, and
-- the skipped saves.
use proxycache.Base.{
  ℕ, ◌-◌, ◌≤◌, ◌≡◌, refl, ◌≢◌, ◌↔◌, String, true, false, none, some, List, [], ◌∷◌, arith, eqb, pos,
  length, lookup, insert, lookup-insert, lookup-delete, lookup_or-insert, FloatOps, FloatLaws,
  if◌then◌else◌, nat_eq, string_eq,
}
use proxycache.Config.{Config}
use proxycache.Hashing.{lcp_blocks}
use proxycache.Slots.{
  Slots, SaveSkipEntry, busy, multi_slot, release, should_skip_restore, skip_ratio_passes,
  mark_save_skipped, flush_save_skipped,
}

module _ {F : Type 0} ⦃fl : FloatOps F⦄ where
  skip_ratio_passes_lem :
      (cfg : Config F) (req : List String) (p : String) (prev : List String)
      → length (p ∷ prev) ≤ length req
      → skip_ratio_passes cfg req (p ∷ prev) ≡ (
          if fl.lt cfg.kv_cache_skip_max_block_diff (
            fl.div
              (fl.of_int (pos (length req - length (p ∷ prev))))
              (fl.of_int (pos (length req))))
          then false
          else fl.le cfg.kv_cache_skip_threshold (
              fl.div
                (fl.of_int (pos (lcp_blocks req (p ∷ prev))))
                (fl.of_int (pos (length (p ∷ prev))))))
  unfolding skip_ratio_passes
  skip_ratio_passes_lem cfg req p prev h = ground arith

  -- With the caller's previous blocks given, a restore is skipped exactly when there are some, every
  -- pool has at most one slot, they are no longer than the request's, the request is longer by at
  -- most the allowed share of its own length, and the shared prefix covers the required share of
  -- the previous blocks.
  pub should_skip_restore_iff :
      (cfg : Config F) (b : Slots F) (s : ℕ) (req prev : List String)
      → (should_skip_restore cfg b s req (some prev) true ≡ true) ↔ (
          (prev ≢ [])
          × (multi_slot b.slot_pools ≡ false)
          × (length prev ≤ length req)
          × (fl.lt cfg.kv_cache_skip_max_block_diff
                (fl.div (fl.of_int (pos (length req - length prev))) (fl.of_int (pos (length req))))
              ≡ false)
          × (fl.le cfg.kv_cache_skip_threshold
                (fl.div (fl.of_int (pos (lcp_blocks req prev))) (fl.of_int (pos (length prev))))
              ≡ true))
  unfolding should_skip_restore
  should_skip_restore_iff cfg b s req [] = (λ h. ground arith, λ h. absurd (h.0 refl))
  should_skip_restore_iff cfg b s req (p ∷ prev) =
      ground (arith, skip_ratio_passes_lem cfg req p prev)

  -- The average before it is clamped.
  abbrev ema_of : Config F → Slots F → F → F → F
  ema_of cfg b now acquired = fl.add (fl.mul cfg.cache_hit_wait_ema_alpha (fl.sub now acquired)) (
      fl.mul (fl.sub (fl.of_int (pos 1)) cfg.cache_hit_wait_ema_alpha) (
        if fl.le b.slot_duration_ema (fl.of_int (pos 0))
        then cfg.cache_hit_wait_ema_initial
        else b.slot_duration_ema))

  -- Where float comparison obeys the laws of `FloatLaws` and the configured lower bound is not
  -- above the upper one: the release of a slot that had been acquired frees that slot and no
  -- other, and leaves the occupancy average between the two bounds.
  pub release_bounds :
      FloatLaws fl
      → (cfg : Config F) (b : Slots F) (s : ℕ) (now acquired : F)
      → fl.le cfg.cache_hit_wait_ema_min cfg.cache_hit_wait_ema_max ≡ true
      → lookup s b.slot_acquired_at ≡ some acquired
      → let b' = (release cfg b s now).1 in
        (fl.le cfg.cache_hit_wait_ema_min b'.slot_duration_ema ≡ true)
        × (fl.le b'.slot_duration_ema cfg.cache_hit_wait_ema_max ≡ true)
        × (lookup s b'.slot_acquired_at ≡ none)
        × ((t : ℕ) → busy b' t ≡ (if eqb s t then false else busy b t))
  unfolding release
  release_bounds laws cfg b s now acquired h e =
      rw (e, release)
        (
          ground (
            arith,
            laws.le_refl cfg.cache_hit_wait_ema_min,
            laws.min-le_right (ema_of cfg b now acquired) cfg.cache_hit_wait_ema_max,
            laws.le_of_not-lt (fl.min (ema_of cfg b now acquired) cfg.cache_hit_wait_ema_max)
                cfg.cache_hit_wait_ema_min,
          ),
          ground (
            arith,
            laws.le_refl cfg.cache_hit_wait_ema_min,
            laws.min-le_right (ema_of cfg b now acquired) cfg.cache_hit_wait_ema_max,
          ),
          ground (arith, lookup-delete s s b.slot_acquired_at),
          λ t. ground (arith, lookup_or-insert false s t false b.in_use),
        )

  -- A skipped save is handed back once, by the next flush of its slot; other slots keep theirs.
  pub flush-mark :
      (b : Slots F) (s t : ℕ) (entry : SaveSkipEntry F)
      → let marked = mark_save_skipped b s entry in
        let flushed = (flush_save_skipped marked s).1 in
        ((flush_save_skipped marked s).0 ≡ some entry)
        × ((flush_save_skipped flushed t).0
            ≡ (if eqb s t then none else (flush_save_skipped b t).0))
  unfolding mark_save_skipped flush_save_skipped
  flush-mark b s t entry = ground (
    arith,
    lookup-insert s s entry b.slot_save_skipped,
    lookup-insert s t entry b.slot_save_skipped,
    lookup-delete s t (insert s entry b.slot_save_skipped),
  )
