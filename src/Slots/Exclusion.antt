-- ===== src/Slots/Exclusion.antt =====
-- Who holds which slot: the calls of slotmanager.go on the marks, as steps, and a first pool of
-- `EnsurePool`.
use proxycache.Base.{
  ℕ, suc, ◌≡◌, ap, ◌≢◌, String, true, false, none, some, List, [], ◌∷◌, All, arith, inl, inr, subst,
  sym, eqb, ltb, str_eq_iff, lookup, lookup_or-insert, FloatOps, if◌then◌else◌, Bool-cases, nat_eq,
  string_eq,
}
use proxycache.Config.{Config}
use proxycache.Slots.{
  Slots, SaveSkipEntry, busy, slot_ids, try_acquire, release, ensure_pool, set_kv_state, invalidate,
  mark_save_skipped, flush_save_skipped,
}
use proxycache.Slots.Acquire.{
  pool_of, try_acquire-some, try_acquire-Acquires, Acquires, FirstFree, FirstFree-head,
}
use proxycache.Slots.Pools.{is_slot, busy-ensure_pool, pool_of-ensure_pool}

-- The slots with the requests that hold one, newest first.
pub record World (F : Type 0) : Type 0 where
  pub slots : Slots F
  pub held : List ℕ

unfoldable pub drop_held : ℕ → List ℕ → List ℕ
drop_held s [] = []
drop_held s (t ∷ ts) = if eqb s t then ts else t ∷ drop_held s ts

-- No slot is held twice.
abbrev pub Distinct : List ℕ → Type 0
Distinct [] = Unit {0}
Distinct (s ∷ ss) = All (λ t. s ≢ t) ss × Distinct ss

drop_held-ne : (s t : ℕ) (ss : List ℕ) → All (λ u. t ≢ u) ss → All (λ u. t ≢ u) (drop_held s ss)
unfolding drop_held
drop_held-ne s t [] h = tt
drop_held-ne s t (u ∷ us) h = elim (Bool-cases (eqb s u)) [
  | inl e ↦ rw (e, drop_held) h.1
  | inr e ↦ rw (e, drop_held) (h.0, drop_held-ne s t us h.1)
]

-- What is left after a release is distinct, and does not hold the slot.
drop_held-Distinct :
    (s : ℕ) (ss : List ℕ)
    → Distinct ss
    → Distinct (drop_held s ss) × All (λ u. s ≢ u) (drop_held s ss)
unfolding drop_held
drop_held-Distinct s [] h = (tt, tt)
drop_held-Distinct s (u ∷ us) h = elim (Bool-cases (eqb s u)) [
  | inl e ↦
      rw (e, drop_held)
        (let same : s ≡ u = ground arith in (h.1, subst (λ v. All (λ t. v ≢ t) us) (sym same) h.0))
  | inr e ↦
      rw (e, drop_held)
        (let (d, a) = drop_held-Distinct s us h.1 in
          ((drop_held-ne s u us h.0, d), (ground arith, a)))
]

module _ {F : Type 0} ⦃fl : FloatOps F⦄ where
  pub release-busy :
      (cfg : Config F) (b : Slots F) (s t : ℕ) (now : F)
      → busy (release cfg b s now).1 t ≡ (if eqb s t then false else busy b t)
  unfolding release
  release-busy cfg b s t now = ground (arith, lookup_or-insert false s t false b.in_use)

  -- A request takes a slot or gives its own back; a pool is resized while every held slot belongs to
  -- the model's old pool; or the tracked KV state changes.
  pub data Step (cfg : Config F) : World F → World F → Type 0 where
    acquired :
        (w : World F) (model : String) (now : F) (s : ℕ)
        → (try_acquire w.slots model now).0 ≡ some s
        → Step cfg w (record { slots = (try_acquire w.slots model now).1; held = s ∷ w.held })
    released :
        (w : World F) (s : ℕ) (now : F)
        → is_slot s w.held ≡ true
        → Step cfg w (record { slots = (release cfg w.slots s now).1; held = drop_held s w.held })
    resized :
        (w : World F) (model : String) (n : ℕ)
        → All (λ s. is_slot s (pool_of w.slots model) ≡ true) w.held
        → Step cfg w (record w { slots = ensure_pool w.slots model n })
    tracked :
        (w : World F) (s : ℕ) (blocks : List String)
        → Step cfg w (record w { slots = set_kv_state w.slots s blocks })
    invalidated : (w : World F) (s : ℕ) → Step cfg w (record w { slots = invalidate w.slots s })
    skipped :
        (w : World F) (s : ℕ) (entry : SaveSkipEntry F)
        → Step cfg w (record w { slots = mark_save_skipped w.slots s entry })
    flushed :
        (w : World F) (s : ℕ) → Step cfg w (record w { slots = (flush_save_skipped w.slots s).1 })

  pub data Steps (cfg : Config F) (w : World F) : World F → Type 0 where
    here : Steps cfg w w
    next : {v u : World F} → Steps cfg w v → Step cfg v u → Steps cfg w u

  -- Every held slot is held once and is marked in use.
  pub record IsExclusive (w : World F) : Type 0 where
    pub once : Distinct w.held
    pub marked : All (λ s. busy w.slots s ≡ true) w.held

  All-mono :
      (b c : Slots F) (ss : List ℕ)
      → ((t : ℕ) → busy b t ≡ true → busy c t ≡ true)
      → All (λ s. busy b s ≡ true) ss
      → All (λ s. busy c s ≡ true) ss
  All-mono b c [] f h = tt
  All-mono b c (s ∷ ss) f h = (f s h.0, All-mono b c ss f h.1)

  free-All-ne :
      (b : Slots F) (s : ℕ) (ss : List ℕ)
      → busy b s ≡ false
      → All (λ t. busy b t ≡ true) ss
      → All (λ t. s ≢ t) ss
  free-All-ne b s [] f h = tt
  free-All-ne b s (t ∷ ts) f h = (λ e. ground arith, free-All-ne b s ts f h.1)

  drop_held-marked :
      (b c : Slots F) (s : ℕ) (ss : List ℕ)
      → ((t : ℕ) → s ≢ t → busy b t ≡ true → busy c t ≡ true)
      → All (λ t. s ≢ t) (drop_held s ss)
      → All (λ t. busy b t ≡ true) ss
      → All (λ t. busy c t ≡ true) (drop_held s ss)
  unfolding drop_held
  drop_held-marked b c s [] f = λ d h. tt
  drop_held-marked b c s (u ∷ us) f = elim (Bool-cases (eqb s u)) [
    | inl e ↦ rw (e, drop_held) (λ d h. go us d h.1)
    | inr e ↦ rw (e, drop_held) (λ d h. (f u d.0 h.0, drop_held-marked b c s us f d.1 h.1))
  ]
    where
      go :
          (ts : List ℕ)
          → All (λ t. s ≢ t) ts
          → All (λ t. busy b t ≡ true) ts
          → All (λ t. busy c t ≡ true) ts
      go [] d h = tt
      go (t ∷ ts) d h = (f t d.0 h.0, go ts d.1 h.1)

  pool-marked :
      (b : Slots F) (model : String) (n : ℕ) (ss : List ℕ)
      → All (λ s. is_slot s (pool_of b model) ≡ true) ss
      → All (λ s. busy b s ≡ true) ss
      → All (λ s. busy (ensure_pool b model n) s ≡ true) ss
  pool-marked b model n [] p h = tt
  pool-marked b model n (s ∷ ss) p h =
      (ground (arith, busy-ensure_pool b model n s), pool-marked b model n ss p.1 h.1)

  Step-IsExclusive : (cfg : Config F) {w v : World F} → Step cfg w v → IsExclusive w → IsExclusive v
  Step-IsExclusive cfg (acquired w model now s e) x =
      let ((_, _, _, _, free), marks, _) = try_acquire-some w.slots model now s e in
      record {
        once = (free-All-ne w.slots s w.held free x.marked, x.once);
        marked = (
          ground (arith, marks s),
          All-mono w.slots (try_acquire w.slots model now).1 w.held (λ t h. ground (arith, marks t))
              x.marked,
        );
      }
  Step-IsExclusive cfg (released w s now e) x =
      let (once, others) = drop_held-Distinct s w.held x.once in
      record {
        once = once;
        marked =
            drop_held-marked w.slots (release cfg w.slots s now).1 s w.held
              (λ t ne h. ground (arith, release-busy cfg w.slots s t now)) others x.marked;
      }
  Step-IsExclusive cfg (resized w model n p) x = record {
    once = x.once;
    marked = pool-marked w.slots model n w.held p x.marked;
  }
  Step-IsExclusive cfg (tracked w s blocks) x =
      unfold set_kv_state in record { once = x.once; marked = x.marked }
  Step-IsExclusive cfg (invalidated w s) x =
      unfold invalidate in record { once = x.once; marked = x.marked }
  Step-IsExclusive cfg (skipped w s entry) x =
      unfold mark_save_skipped in record { once = x.once; marked = x.marked }
  Step-IsExclusive cfg (flushed w s) x =
      unfold flush_save_skipped in record { once = x.once; marked = x.marked }

  -- If at the start no slot is held by two requests and every held slot is marked in use, then
  -- this stays so after any history of acquisitions, releases by holders, changes of the tracked
  -- state and skipped saves, and of resizes made while every held slot belongs to the resized
  -- pool.
  pub Steps-IsExclusive :
      (cfg : Config F) {w v : World F} → Steps cfg w v → IsExclusive w → IsExclusive v
  Steps-IsExclusive cfg here x = x
  Steps-IsExclusive cfg (next h st) x = Step-IsExclusive cfg st (Steps-IsExclusive cfg h x)

  -- The first pool of a model, of one slot or more, is the slots below its size, and all of them
  -- are marked free, also those in use for another model of the backend; other slots keep their
  -- marks. The next acquisition for the model hands out slot 0.
  pub acquire-new_pool :
      (b : Slots F) (model : String) (n : ℕ) (now : F)
      → lookup model b.slot_pools ≡ none
      → let after = ensure_pool b model (suc n) in
        (pool_of after model ≡ slot_ids 0 (suc n))
        × ((s : ℕ) → busy after s ≡ (if ltb s (suc n) then false else busy b s))
        × ((try_acquire after model now).0 ≡ some 0)
  unfolding slot_ids
  acquire-new_pool b model n now e = (
    pool,
    λ s. ground (arith, busy-ensure_pool b model (suc n) s),
    first_slot (try_acquire-Acquires (ensure_pool b model (suc n)) model now),
  )
    where
      pool : pool_of (ensure_pool b model (suc n)) model ≡ 0 ∷ slot_ids 1 n
      pool = ground (arith, pool_of-ensure_pool b model model (suc n), str_eq_iff model model)

      free : busy (ensure_pool b model (suc n)) 0 ≡ false
      free = ground (arith, busy-ensure_pool b model (suc n) 0)

      first_slot :
          Acquires
            (ensure_pool b model (suc n))
            (pool_of (ensure_pool b model (suc n)) model)
            now
            (try_acquire (ensure_pool b model (suc n)) model now)
          → (try_acquire (ensure_pool b model (suc n)) model now).0 ≡ some 0
      first_slot (inl (all, r)) =
          let h = subst (All (λ s. busy (ensure_pool b model (suc n)) s ≡ true)) pool all in
          cc (free, h.0)
      first_slot (inr (s, first, r)) =
          let h =
            FirstFree-head (ensure_pool b model (suc n)) 0 (slot_ids 1 n) s
              (subst (λ p. FirstFree (ensure_pool b model (suc n)) p s) pool first) free in
          cc (ap (λ v. v.0) r, h)
