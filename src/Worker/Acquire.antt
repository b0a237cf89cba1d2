-- ===== src/Worker/Acquire.antt =====
-- `acquireSlotOnBackend` of processor.go: the slot of a request that comes without one.
use proxycache.Base.{
  ℕ, zero, suc, String, Bool, true, false, not, Option, none, some, List, [], ◌∷◌, if◌then◌else◌,
  FloatOps,
}
use proxycache.Slots.{Slots, get_pool, get_kv_state, try_acquire}

-- What attempt `i` meets: what the other goroutines did to the slots before it, what
-- `RefreshSlotCounts` does to them, the clock, whether the client is gone at the first test, after
-- the refresh and after the sleep, and whether the registry still lists the model here.
pub record Attempts (F : Type 0) : Type 0 where
  pub before : ℕ → Slots F → Slots F
  pub refresh : ℕ → Slots F → Slots F
  pub now : ℕ → F
  pub gone : ℕ → Bool
  pub gone_after : ℕ → Bool
  pub gone_asleep : ℕ → Bool
  pub serves : ℕ → Bool

-- The slot with its previous blocks, or why there is none.
pub data Acquisition : Type 0 where
  got : ℕ → Option (List String) → Acquisition
  client_gone handed_back : Acquisition

abbrev pub is_empty_pool : Option (List ℕ) → Bool
is_empty_pool none = true
is_empty_pool (some []) = true
is_empty_pool (some (s ∷ ss)) = false

module _ {F : Type 0} ⦃fl : FloatOps F⦄ where
  -- The end of a round: none where the loop goes on.
  abbrev pub after_sleep : Attempts F → ℕ → Slots F → Option Acquisition × Slots F
  after_sleep acq i b = (if acq.gone_asleep i then some client_gone else none, b)

  abbrev pub on_slot :
      Option ℕ × Slots F → Option Acquisition × Slots F → Option Acquisition × Slots F
  on_slot (none, b) otherwise = otherwise
  on_slot (some s, b) otherwise = (some (got s (get_kv_state b s)), b)

  -- The second half of a round, where the model has no pool.
  unfoldable pub refresh_round : Attempts F → String → ℕ → Slots F → Option Acquisition × Slots F
  unfolding try_acquire get_kv_state
  refresh_round acq model i b =
      let refreshed = acq.refresh i b in
      if acq.gone_after i
      then (some client_gone, refreshed)
      else if not (acq.serves i)
      then (some handed_back, refreshed)
      else on_slot (try_acquire refreshed model (acq.now i))
          (after_sleep acq i (try_acquire refreshed model (acq.now i)).1)

  unfoldable pub acquire_round : Attempts F → String → ℕ → Slots F → Option Acquisition × Slots F
  unfolding try_acquire get_kv_state refresh_round get_pool
  acquire_round acq model i b =
      let (slot, tried) = try_acquire (acq.before i b) model (acq.now i) in
      on_slot (slot, tried)
        (if acq.gone i
          then (some client_gone, tried)
          else if is_empty_pool (get_pool tried model)
          then refresh_round acq model i tried
          else after_sleep acq i tried)

  abbrev pub again :
      (Slots F → Option Acquisition × Slots F)
      → Option Acquisition × Slots F
      → Option Acquisition × Slots F
  again rest (none, b) = rest b
  again rest (some result, b) = (some result, b)

  -- The loop, from attempt `i`: none where the fuel is used up and the worker still tries.
  unfoldable pub acquire_slot_on_backend :
      Attempts F → String → ℕ → ℕ → Slots F → Option Acquisition × Slots F
  unfolding acquire_round
  acquire_slot_on_backend acq model zero i b = (none, b)
  acquire_slot_on_backend acq model (suc fuel) i b =
      again (acquire_slot_on_backend acq model fuel (suc i)) (acquire_round acq model i b)
