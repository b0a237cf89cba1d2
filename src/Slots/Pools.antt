-- ===== src/Slots/Pools.antt =====
-- `EnsurePool` of slotmanager.go: what a new slot count does to the marks and to the pools.
use proxycache.Base.{
  ℕ, inl, inr, zero, suc, ◌+◌, ◌≡◌, refl, ◌∙◌, String, Bool, false, not, ◌&&◌, List, [], ◌∷◌, arith,
  any, eqb, ltb, leb, lookup, lookup_or-insert, lookup_or-delete, lookup-insert, FloatOps,
  if◌then◌else◌, Option-cases, nat_eq, string_eq, str_eq,
}
use proxycache.Slots.{
  Slots, busy, slot_ids, reset_slot, reset_slots, drop_slot, drop_slots, ensure_pool,
}
use proxycache.Slots.Acquire.{pool_of}

abbrev pub is_slot : ℕ → List ℕ → Bool
is_slot s pool = any (eqb s) pool

slot_ids-any : (i n s : ℕ) → is_slot s (slot_ids i n) ≡ leb i s && ltb s (i + n)
unfolding slot_ids
slot_ids-any i zero s = ground arith
slot_ids-any i (suc n) s = ground (arith, slot_ids-any (i + 1) n s)

is_slot_of_eq : (s t : ℕ) (pool : List ℕ) → s ≡ t → is_slot s pool ≡ is_slot t pool
is_slot_of_eq s t pool e = rw e

busy_of_eq : {F : Type 0} (b : Slots F) (s t : ℕ) → s ≡ t → busy b s ≡ busy b t
busy_of_eq b s t e = rw e

module _ {F : Type 0} ⦃fl : FloatOps F⦄ where
  reset_slot-busy :
      (old : List ℕ) (t : ℕ) (b : Slots F) (s : ℕ)
      → busy (reset_slot old t b) s ≡ (if eqb s t && not (is_slot s old) then false else busy b s)
  unfolding reset_slot
  reset_slot-busy old t b s =
      ground (arith, lookup_or-insert false t s false b.in_use, is_slot_of_eq s t old)

  reset_slots-busy :
      (old ss : List ℕ) (b : Slots F) (s : ℕ)
      → busy (reset_slots old ss b) s
        ≡ (if is_slot s ss && not (is_slot s old) then false else busy b s)
  unfolding reset_slots
  reset_slots-busy old [] b s = refl
  reset_slots-busy old (t ∷ ts) b s =
      ground (arith, reset_slots-busy old ts (reset_slot old t b) s, reset_slot-busy old t b s)

  reset_slot-pools :
      (old : List ℕ) (t : ℕ) (b : Slots F) → (reset_slot old t b).slot_pools ≡ b.slot_pools
  unfolding reset_slot
  reset_slot-pools old t b = ground arith

  reset_slots-pools :
      (old ss : List ℕ) (b : Slots F) → (reset_slots old ss b).slot_pools ≡ b.slot_pools
  unfolding reset_slots
  reset_slots-pools old [] b = refl
  reset_slots-pools old (t ∷ ts) b =
      reset_slots-pools old ts (reset_slot old t b) ∙ reset_slot-pools old t b

  drop_slot-busy : (n t : ℕ) (b : Slots F) (s : ℕ) → busy (drop_slot n t b) s ≡ busy b s
  unfolding drop_slot
  drop_slot-busy n t b s = ground (arith, lookup_or-delete false t s b.in_use, busy_of_eq b s t)

  -- A slot that is in use keeps its mark: only free slots are forgotten.
  drop_slots-busy :
      (n : ℕ) (ss : List ℕ) (b : Slots F) (s : ℕ) → busy (drop_slots n ss b) s ≡ busy b s
  unfolding drop_slots
  drop_slots-busy n [] b s = refl
  drop_slots-busy n (t ∷ ts) b s = drop_slots-busy n ts (drop_slot n t b) s ∙ drop_slot-busy n t b s

  drop_slot-pools : (n t : ℕ) (b : Slots F) → (drop_slot n t b).slot_pools ≡ b.slot_pools
  unfolding drop_slot
  drop_slot-pools n t b = ground arith

  drop_slots-pools :
      (n : ℕ) (ss : List ℕ) (b : Slots F) → (drop_slots n ss b).slot_pools ≡ b.slot_pools
  unfolding drop_slots
  drop_slots-pools n [] b = refl
  drop_slots-pools n (t ∷ ts) b = drop_slots-pools n ts (drop_slot n t b) ∙ drop_slot-pools n t b

  -- After `EnsurePool` a slot id below the new count that the model's old pool did not hold is
  -- marked free, whoever uses it, and every other slot keeps its mark.
  pub busy-ensure_pool :
      (b : Slots F) (model : String) (n s : ℕ)
      → busy (ensure_pool b model n) s
        ≡ (if ltb s n && not (is_slot s (pool_of b model)) then false else busy b s)
  unfolding ensure_pool
  busy-ensure_pool b model n s = elim (Option-cases (lookup model b.slot_pools)) [
    | inl e ↦
        rw (e, ensure_pool)
          (ground (arith, reset_slots-busy [] (slot_ids 0 n) b s, slot_ids-any 0 n s))
    | inr (old, e) ↦
        rw (e, ensure_pool)
          (ground (
            arith,
            drop_slots-busy n old (reset_slots old (slot_ids 0 n) b) s,
            reset_slots-busy old (slot_ids 0 n) b s,
            slot_ids-any 0 n s,
          ))
  ]

  -- The model's pool becomes the slots below the new count; the other models keep theirs.
  pub pool_of-ensure_pool :
      (b : Slots F) (model other : String) (n : ℕ)
      → pool_of (ensure_pool b model n) other
        ≡ (if str_eq model other then slot_ids 0 n else pool_of b other)
  unfolding ensure_pool
  pool_of-ensure_pool b model other n = elim (Option-cases (lookup model b.slot_pools)) [
    | inl e ↦
        rw (e, ensure_pool)
          (ground (
            arith,
            lookup-insert model other (slot_ids 0 n) (reset_slots [] (slot_ids 0 n) b).slot_pools,
            reset_slots-pools [] (slot_ids 0 n) b,
          ))
    | inr (old, e) ↦
        rw (e, ensure_pool)
          (ground (
            arith,
            lookup-insert model other (slot_ids 0 n)
                (drop_slots n old (reset_slots old (slot_ids 0 n) b)).slot_pools,
            drop_slots-pools n old (reset_slots old (slot_ids 0 n) b),
            reset_slots-pools old (slot_ids 0 n) b,
          ))
  ]
