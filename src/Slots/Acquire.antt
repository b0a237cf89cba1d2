-- ===== src/Slots/Acquire.antt =====
-- `TryAcquire` of slotmanager.go: which slot it hands out, and when it hands out none.
use proxycache.Base.{
  ℕ, ◌≡◌, refl, ap, subst, ◌⊎◌, inl, inr, ◌↔◌, String, true, false, Option, none, some, List, [],
  ◌∷◌, ◌++◌, arith, All, eqb, lookup, lookup_or-insert, or_else, FloatOps, if◌then◌else◌,
  Bool-cases, Option-cases, nat_eq, string_eq,
}
use proxycache.Slots.{
  Slots, busy, first_free, older, oldest_from, acquire_from, take_slot, try_acquire,
}

-- The slots of a model, none for an unknown one.
abbrev pub pool_of : {F : Type 0} → Slots F → String → List ℕ
pool_of b model = or_else [] (lookup model b.slot_pools)

module _ {F : Type 0} ⦃fl : FloatOps F⦄ where
  first_free-All :
      (b : Slots F) (pool : List ℕ) → first_free b pool ≡ none → All (λ s. busy b s ≡ true) pool
  unfolding first_free
  first_free-All b [] h = tt
  first_free-All b (s ∷ ss) h = ground (arith, first_free-All b ss)

  All-first_free :
      (b : Slots F) (pool : List ℕ) → All (λ s. busy b s ≡ true) pool → first_free b pool ≡ none
  unfolding first_free
  All-first_free b [] h = refl
  All-first_free b (s ∷ ss) h = ground (arith, All-first_free b ss)

  -- A pool split at its first free slot.
  abbrev pub FirstFree : Slots F → List ℕ → ℕ → Type 0
  FirstFree b pool s =
      (before : List ℕ) × (after : List ℕ) × (pool ≡ before ++ s ∷ after)
      × All (λ t. busy b t ≡ true) before
      × (busy b s ≡ false)

  first_free-FirstFree :
      (b : Slots F) (pool : List ℕ) (s : ℕ) → first_free b pool ≡ some s → FirstFree b pool s
  unfolding first_free
  first_free-FirstFree b [] s h = ground arith
  first_free-FirstFree b (t ∷ ts) s h = elim (Bool-cases (busy b t)) [
    | inl held ↦
        let (before, after, e, all, free) = first_free-FirstFree b ts s (ground arith) in
        (t ∷ before, after, ground arith, (held, all), free)
    | inr free ↦ ([], ts, ground arith, tt, ground arith)
  ]

  not-All_middle :
      (b : Slots F) (before after : List ℕ) (s : ℕ)
      → busy b s ≡ false
      → All (λ t. busy b t ≡ true) (before ++ s ∷ after)
      → ⊥
  not-All_middle b [] after s free all = ground arith
  not-All_middle b (t ∷ before) after s free all = not-All_middle b before after s free all.1

  -- A free slot at the head is the one that is found.
  pub FirstFree-head :
      (b : Slots F) (x : ℕ) (xs : List ℕ) (s : ℕ)
      → FirstFree b (x ∷ xs) s
      → busy b x ≡ false
      → s ≡ x
  FirstFree-head b x xs s ([], after, e, _, _) f = ground arith
  FirstFree-head b x xs s (y ∷ before, after, e, all, _) f = ground arith

  pub FirstFree-not-All :
      (b : Slots F) (pool : List ℕ) (s : ℕ)
      → FirstFree b pool s
      → All (λ t. busy b t ≡ true) pool
      → ⊥
  FirstFree-not-All b pool s (before, after, e, _, free) all =
      not-All_middle b before after s free (subst (All (λ t. busy b t ≡ true)) e all)

  older-busy :
      (b : Slots F) (best s : ℕ)
      → busy b best ≡ true
      → busy b s ≡ true
      → busy b (older b best s) ≡ true
  unfolding older
  older-busy b best s h k = ground arith

  oldest_from-busy :
      (b : Slots F) (pool : List ℕ) (best : ℕ)
      → busy b best ≡ true
      → All (λ s. busy b s ≡ true) pool
      → busy b (oldest_from b pool best) ≡ true
  unfolding oldest_from
  oldest_from-busy b [] best h a = h
  oldest_from-busy b (s ∷ ss) best h a =
      oldest_from-busy b ss (older b best s) (older-busy b best s h a.0) a.1

  -- What `TryAcquire` may do with a pool.
  abbrev pub Acquires : Slots F → List ℕ → F → Option ℕ × Slots F → Type 0
  Acquires b pool now r =
      (All (λ s. busy b s ≡ true) pool × (r ≡ (none, b)))
      ⊎ ((s : ℕ) × FirstFree b pool s × (r ≡ take_slot b s now))

  acquire_from-Acquires :
      (b : Slots F) (pool : List ℕ) (now : F) → Acquires b pool now (acquire_from b pool now)
  unfolding acquire_from
  acquire_from-Acquires b [] now = inl (tt, refl)
  acquire_from-Acquires b (s ∷ ss) now = elim (Option-cases (first_free b (s ∷ ss))) [
    | inl e ↦
        let all = first_free-All b (s ∷ ss) e in
        inl (all, ground (arith, oldest_from-busy b ss s all.0 all.1))
    | inr (t, e) ↦ inr (t, first_free-FirstFree b (s ∷ ss) t e, ground arith)
  ]

  pub try_acquire-Acquires :
      (b : Slots F) (model : String) (now : F)
      → Acquires b (pool_of b model) now (try_acquire b model now)
  unfolding try_acquire
  try_acquire-Acquires b model now = elim (Option-cases (lookup model b.slot_pools)) [
    | inl e ↦ rw (e, try_acquire) (inl (tt, refl))
    | inr (pool, e) ↦ rw (e, try_acquire) (acquire_from-Acquires b pool now)
  ]

  -- No slot is handed out exactly when the model has none or all of its slots are in use.
  pub try_acquire-none_iff :
      (b : Slots F) (model : String) (now : F)
      → ((try_acquire b model now).0 ≡ none) ↔ All (λ s. busy b s ≡ true) (pool_of b model)
  try_acquire-none_iff b model now = elim (try_acquire-Acquires b model now) [
    | inl (all, e) ↦ (λ _. all, λ _. ap (λ r. r.0) e)
    | inr (s, free, e) ↦ (λ h. ground arith, λ all. absurd (FirstFree-not-All b _ s free all))
  ]

  -- A slot that is handed out is the first free slot of the model's pool. It is in use afterwards,
  -- and no other slot's mark and no pool changes.
  pub try_acquire-some :
      (b : Slots F) (model : String) (now : F) (s : ℕ)
      → (try_acquire b model now).0 ≡ some s
      → FirstFree b (pool_of b model) s
        × ((t : ℕ) → busy (try_acquire b model now).1 t ≡ (if eqb s t then true else busy b t))
        × ((try_acquire b model now).1.slot_pools ≡ b.slot_pools)
  try_acquire-some b model now s h = elim (try_acquire-Acquires b model now) [
    | inl (all, e) ↦ ground arith
    | inr (t, free, e) ↦
        let same : t ≡ s = ground arith in
        (
          subst (FirstFree b (pool_of b model)) same free,
          λ u. ground (arith, lookup_or-insert false t u true b.in_use),
          ground arith,
        )
  ]
