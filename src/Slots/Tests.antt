-- ===== src/Slots/Tests.antt =====
-- slotmanager.go on a backend with two slots: runs, and the theorems applied to them.
use proxycache.Base.{
  ltb, pos, ◌≡◌, refl, ◌↔◌, String, true, false, length, insert, ◌≤◌, ◌-◌, none, some, [], ◌∷◌, All,
  lookup, lookup_or, string_eq, nat_eq, ℤ, ℕ, List, ◌≢◌, if◌then◌else◌, eqb,
}
use proxycache.Samples.{milli, milli_laws, defaults}
use proxycache.Slots.{
  slot_ids, Slots, SaveSkipEntry, busy, new_backend_slot_manager, ensure_pool, try_acquire, release,
  multi_slot, should_skip_restore,
}
use proxycache.Slots.Acquire.{pool_of, try_acquire-none_iff}
use proxycache.Slots.Exclusion.{
  drop_held, acquired, released, here, next, IsExclusive, Steps-IsExclusive, acquire-new_pool,
}
use proxycache.Hashing.{lcp_blocks}
use proxycache.Slots.Skip.{should_skip_restore_iff, release_bounds}

abbrev two_slots : Slots ℤ
two_slots = ensure_pool (new_backend_slot_manager "gpu") "llama" 2

abbrev one_taken : Slots ℤ
one_taken = (try_acquire two_slots "llama" (pos 1000)).1

both_taken : (try_acquire (try_acquire one_taken "llama" (pos 2000)).1 "llama" (pos 3000)).0 ≡ none
unfolding try_acquire ensure_pool new_backend_slot_manager lookup lookup_or insert
both_taken = refl

Steps-IsExclusive_example :
    IsExclusive (record { slots = (release defaults one_taken 0 (pos 4000)).1; held = [] })
unfolding try_acquire ensure_pool new_backend_slot_manager lookup lookup_or insert drop_held
Steps-IsExclusive_example =
    Steps-IsExclusive defaults
      (next
        (next here (acquired (record { slots = two_slots; held = [] }) "llama" (pos 1000) 0 refl))
        (released (record { slots = one_taken; held = 0 ∷ [] }) 0 (pos 4000) refl))
      (record { once = tt; marked = tt })

acquire-new_pool_example :
    let after = ensure_pool one_taken "qwen" 2 in
    (pool_of after "qwen" ≡ 0 ∷ 1 ∷ [])
    × ((s : ℕ) → busy after s ≡ (if ltb s 2 then false else busy one_taken s))
    × ((try_acquire after "qwen" (pos 2000)).0 ≡ some 0)
unfolding try_acquire ensure_pool new_backend_slot_manager lookup lookup_or insert slot_ids
acquire-new_pool_example = acquire-new_pool one_taken "qwen" 1 (pos 2000) refl

try_acquire-none_iff_example :
    ((try_acquire one_taken "llama" (pos 2000)).0 ≡ none)
    ↔ All (λ s. busy one_taken s ≡ true) (pool_of one_taken "llama")
try_acquire-none_iff_example = try_acquire-none_iff one_taken "llama" (pos 2000)

release_bounds_example :
    let b = (release defaults one_taken 0 (pos 5000)).1 in
    (milli.le (pos 10000) b.slot_duration_ema ≡ true)
    × (milli.le b.slot_duration_ema (pos 300000) ≡ true)
    × (lookup 0 b.slot_acquired_at ≡ none)
    × ((t : ℕ) → busy b t ≡ (if eqb 0 t then false else busy one_taken t))
unfolding try_acquire ensure_pool new_backend_slot_manager lookup lookup_or insert
release_bounds_example =
    release_bounds milli_laws defaults one_taken 0 (pos 5000) (pos 1000) refl refl

abbrev one_slot : Slots ℤ
one_slot = ensure_pool (new_backend_slot_manager "gpu") "llama" 1

-- Ten blocks after nine: the difference is a tenth, and the nine are shared.
skipped_restore :
    should_skip_restore defaults one_slot 0
      ("a" ∷ "b" ∷ "c" ∷ "d" ∷ "e" ∷ "f" ∷ "g" ∷ "h" ∷ "i" ∷ "j" ∷ [])
      (some ("a" ∷ "b" ∷ "c" ∷ "d" ∷ "e" ∷ "f" ∷ "g" ∷ "h" ∷ "i" ∷ []))
      true
    ≡ true
unfolding should_skip_restore ensure_pool new_backend_slot_manager lcp_blocks lookup insert
skipped_restore = refl

abbrev previous : List String
previous = "a" ∷ []

abbrev request : List String
request = "a" ∷ "b" ∷ []

should_skip_restore_iff_example :
    (should_skip_restore defaults one_slot 0 request (some previous) true ≡ true) ↔ (
      (previous ≢ [])
      × (multi_slot one_slot.slot_pools ≡ false)
      × (length previous ≤ length request)
      × (milli.lt (pos 100) (milli.div (milli.of_int (pos (2 - 1))) (milli.of_int (pos 2))) ≡ false)
      × (milli.le
            (pos 900)
            (milli.div (milli.of_int (pos (lcp_blocks request previous))) (milli.of_int (pos 1)))
          ≡ true))
should_skip_restore_iff_example = should_skip_restore_iff defaults one_slot 0 request previous

abbrev skip_entry : SaveSkipEntry ℤ
skip_entry = record {
  key = "k1";
  model = "llama";
  blocks = "a" ∷ [];
  n_tokens = pos 100;
  hit_type = none;
  serving_ratio = pos 0;
  recompute = false;
  legacy = false;
}
