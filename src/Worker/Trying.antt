-- ===== src/Worker/Trying.antt =====
-- `acquireSlotOnBackend` of processor.go: what it may give, and that it ends.
use proxycache.Base.{
  ℕ, zero, suc, ◌+◌, ◌≤◌, ◌<◌, ◌≡◌, ◌≢◌, refl, sym, ap, subst, ◌∙◌, ◌⊎◌, inl, inr, String, true,
  false, not, Option, none, some, arith, eqb, eqb_iff, if_both, if◌then◌else◌, Bool-cases, FloatOps,
  ==_refl, nat_eq, string_eq,
}
use proxycache.Slots.{Slots, busy, get_pool, get_kv_state, try_acquire}
use proxycache.Slots.Acquire.{
  pool_of, FirstFree, FirstFree-not-All, try_acquire-none_iff, try_acquire-some,
}
use proxycache.Worker.Acquire.{
  Attempts, Acquisition, got, client_gone, handed_back, is_empty_pool, after_sleep, on_slot,
  refresh_round, acquire_round, again, acquire_slot_on_backend,
}

module _ {F : Type 0} ⦃fl : FloatOps F⦄ (acq : Attempts F) (model : String) where
  -- The loop comes from attempt `i` with slots `b` to attempt `j` with slots `c`: every attempt
  -- before `j` went on.
  pub data Comes (j : ℕ) (c : Slots F) : ℕ → Slots F → Type 0 where
    here : Comes j c j c
    went_on :
        (i : ℕ) (b d : Slots F)
        → acquire_round acq model i b ≡ (none, d)
        → Comes j c (suc i) d
        → Comes j c i b

  -- The slots on which attempt `i` calls `TryAcquire`: as it finds them, and after a refresh where
  -- the model has no pool.
  abbrev pub OnTried : ℕ → Slots F → Slots F → Type 0
  OnTried i b tried =
      let mid = (try_acquire (acq.before i b) model (acq.now i)).1 in
      (tried ≡ acq.before i b)
      ⊎ ((is_empty_pool (get_pool mid model) ≡ true) × (tried ≡ acq.refresh i mid))

  -- What attempt `i` on slots `b` may end with.
  abbrev pub Fair : ℕ → Slots F → Option Acquisition × Slots F → Type 0
  Fair i b (none, after) = Unit
  Fair i b (some (got s prev), after) =
      (tried : Slots F) × OnTried i b tried
      × FirstFree tried (pool_of tried model) s
      × (after ≡ (try_acquire tried model (acq.now i)).1)
      × (busy after s ≡ true)
      × (prev ≡ get_kv_state after s)
  Fair i b (some client_gone, after) =
      (acq.gone i ≡ true) ⊎ ((acq.gone_after i ≡ true) ⊎ (acq.gone_asleep i ≡ true))
  Fair i b (some handed_back, after) = acq.serves i ≡ false

  -- The slot of a `TryAcquire`, for a result and slots that are its answer.
  on_slot-Fair :
      (i : ℕ) (b tried : Slots F) (r : Option ℕ × Slots F) (rest : Option Acquisition × Slots F)
      → OnTried i b tried
      → r ≡ try_acquire tried model (acq.now i)
      → ((s : ℕ) → r.0 ≡ some s → FirstFree tried (pool_of tried model) s × (busy r.1 s ≡ true))
      → Fair i b rest
      → Fair i b (on_slot r rest)
  on_slot-Fair i b tried (none, c) rest on e h k = k
  on_slot-Fair i b tried (some s, c) rest on e h k =
      (tried, on, (h s refl).0, ap (λ r. r.1) e, (h s refl).1, refl)

  tried-busy :
      (i : ℕ) (tried : Slots F) (s : ℕ)
      → (try_acquire tried model (acq.now i)).0 ≡ some s
      → FirstFree tried (pool_of tried model) s
        × (busy (try_acquire tried model (acq.now i)).1 s ≡ true)
  tried-busy i tried s e =
      let (first, marks, _) = try_acquire-some tried model (acq.now i) s e in
      (first, marks s ∙ ap (λ b. if b then true else busy tried s) (==_refl s))

  after_sleep-Fair : (i : ℕ) (b c : Slots F) → Fair i b (after_sleep acq i c)
  after_sleep-Fair i b c = elim (Bool-cases (acq.gone_asleep i)) [
    | inl t ↦ rw t (inr (inr t))
    | inr f ↦ rw f tt
  ]

  refresh_round-Fair :
      (i : ℕ) (b mid : Slots F)
      → OnTried i b (acq.refresh i mid)
      → Fair i b (refresh_round acq model i mid)
  unfolding refresh_round
  refresh_round-Fair i b mid on = elim (Bool-cases (acq.gone_after i)) [
    | inl t ↦ rw (t, refresh_round) (inr (inl t))
    | inr f ↦ elim (Bool-cases (acq.serves i)) [
      | inl t ↦
          rw (f, t, refresh_round)
            (on_slot-Fair i b (acq.refresh i mid) _ _ on refl (tried-busy i (acq.refresh i mid))
              (after_sleep-Fair i b _))
      | inr unserved ↦ rw (f, unserved, refresh_round) unserved
    ]
  ]

  acquire_round-Fair : (i : ℕ) (b : Slots F) → Fair i b (acquire_round acq model i b)
  unfolding acquire_round
  acquire_round-Fair i b =
      let mid = (try_acquire (acq.before i b) model (acq.now i)).1 in
      let otherwise : Fair i b (
          if is_empty_pool (get_pool mid model)
          then refresh_round acq model i mid
          else after_sleep acq i mid) =
        elim (Bool-cases (is_empty_pool (get_pool mid model))) [
          | inl t ↦ rw t (refresh_round-Fair i b mid (inr (t, refl)))
          | inr f ↦ rw f (after_sleep-Fair i b mid)
        ] in
      on_slot-Fair i b (acq.before i b) _ _ (inl refl) refl (tried-busy i (acq.before i b))
        (elim (Bool-cases (acq.gone i))
          as (λ x. Fair i b (
            if acq.gone i
            then (some client_gone, mid)
            else if is_empty_pool (get_pool mid model)
            then refresh_round acq model i mid
            else after_sleep acq i mid)) [ inl t ↦ rw t (inl t) | inr f ↦ rw f otherwise ])

  -- Where the loop ends: the attempt that ended it, the slots that it found, and what it gave.
  abbrev pub EndsFair : ℕ → ℕ → Slots F → Option Acquisition × Slots F → Type 0
  EndsFair fuel i b r =
      (j : ℕ) × (c : Slots F) × (j < i + fuel)
      × Comes j c i b
      × (r ≡ acquire_round acq model j c)
      × Fair j c r

  again-EndsFair :
      (i fuel : ℕ) (b : Slots F) (rest : Slots F → Option Acquisition × Slots F)
      (r : Option Acquisition × Slots F)
      → acquire_round acq model i b ≡ r
      → Fair i b r
      → ((d : Slots F) → (rest d).0 ≢ none → EndsFair fuel (suc i) d (rest d))
      → (again rest r).0 ≢ none
      → EndsFair (suc fuel) i b (again rest r)
  again-EndsFair i fuel b rest (some result, after) e h k n = (i, b, omega arith, here, sym e, h)
  again-EndsFair i fuel b rest (none, d) e h k n =
      let (j, c, u, comes, same, fair) = k d n in
      (j, c, omega arith, went_on i b d e comes, same, fair)

  -- A result of the acquisition is the result of an attempt that the loop comes to: a slot was the
  -- first free one of the model's pool in the slots that the attempt found, or that its refresh
  -- left where the model had no pool, is marked as in use, and comes with the blocks tracked for it;
  -- the client counts as gone only if a test of that attempt says so; and a request is handed back
  -- only if the registry does not list the model for the backend at that attempt.
  pub acquire_slot_on_backend-Fair :
      (fuel i : ℕ) (b : Slots F)
      → (acquire_slot_on_backend acq model fuel i b).0 ≢ none
      → EndsFair fuel i b (acquire_slot_on_backend acq model fuel i b)
  unfolding acquire_slot_on_backend
  acquire_slot_on_backend-Fair zero i b n = absurd (n refl)
  acquire_slot_on_backend-Fair (suc fuel) i b n =
      again-EndsFair i fuel b _ (acquire_round acq model i b) refl (acquire_round-Fair i b)
        (acquire_slot_on_backend-Fair fuel (suc i)) n

  -- What ends the loop at attempt `n`: the client is gone when the sleep ends, or a slot is free
  -- whatever the earlier attempts saw.
  abbrev pub EndsAt : ℕ → Type 0
  EndsAt n =
      (acq.gone_asleep n ≡ true)
      ⊎ ((b : Slots F) → (s : ℕ) × FirstFree (acq.before n b) (pool_of (acq.before n b) model) s)

  on_slot-some :
      (r : Option ℕ × Slots F) (rest : Option Acquisition × Slots F)
      → rest.0 ≢ none
      → (on_slot r rest).0 ≢ none
  on_slot-some (none, b) rest h = h
  on_slot-some (some s, b) rest h = λ e. ground arith

  on_slot-got :
      (r : Option ℕ × Slots F) (rest : Option Acquisition × Slots F)
      → r.0 ≢ none
      → (on_slot r rest).0 ≢ none
  on_slot-got (none, b) rest h = absurd (h refl)
  on_slot-got (some s, b) rest h = λ e. ground arith

  after_sleep-some :
      (n : ℕ) (b : Slots F) → acq.gone_asleep n ≡ true → (after_sleep acq n b).0 ≢ none
  after_sleep-some n b gone = λ e. ground arith

  abbrev Result : Option Acquisition × Slots F → Type 0
  Result r = r.0 ≢ none

  refresh_round-ends :
      (n : ℕ) (b : Slots F) → acq.gone_asleep n ≡ true → Result (refresh_round acq model n b)
  unfolding refresh_round
  refresh_round-ends n b gone =
      if_both Result (acq.gone_after n) (λ e. ground arith)
        (if_both Result (not (acq.serves n)) (λ e. ground arith)
          (on_slot-some (try_acquire (acq.refresh n b) model (acq.now n)) _
            (after_sleep-some n (try_acquire (acq.refresh n b) model (acq.now n)).1 gone)))

  acquire_round-ends : (n : ℕ) (b : Slots F) → EndsAt n → Result (acquire_round acq model n b)
  unfolding acquire_round
  acquire_round-ends n b (inl gone) =
      let tried = (try_acquire (acq.before n b) model (acq.now n)).1 in
      on_slot-some (try_acquire (acq.before n b) model (acq.now n)) _ (
        if_both Result (acq.gone n) (λ e. ground arith)
          (if_both Result (is_empty_pool (get_pool tried model)) (refresh_round-ends n tried gone)
            (after_sleep-some n tried gone)))
  acquire_round-ends n b (inr free) =
      let (s, first) = free b in
      on_slot-got (try_acquire (acq.before n b) model (acq.now n)) _ (λ e.
        FirstFree-not-All (acq.before n b) _ s first
          ((try_acquire-none_iff (acq.before n b) model (acq.now n)).0 e))

  again-some :
      (rest : Slots F → Option Acquisition × Slots F) (r : Option Acquisition × Slots F)
      → (r.0 ≢ none) ⊎ ((b : Slots F) → (rest b).0 ≢ none)
      → (again rest r).0 ≢ none
  again-some rest (some result, b) h = λ e. ground arith
  again-some rest (none, b) (inl h) = absurd (h refl)
  again-some rest (none, b) (inr h) = h b

  -- The acquisition ends: an attempt at which the client is gone after the sleep, or a slot is free
  -- whatever happened before, is the last one, and fuel up to it is enough.
  pub acquire_slot_on_backend-ends :
      (n fuel i : ℕ) (b : Slots F)
      → EndsAt n
      → i ≤ n
      → n < i + fuel
      → (acquire_slot_on_backend acq model fuel i b).0 ≢ none
  unfolding acquire_slot_on_backend
  acquire_slot_on_backend-ends n zero i b h l u = absurd (omega arith)
  acquire_slot_on_backend-ends n (suc fuel) i b h l u =
      again-some _ (acquire_round acq model i b) (elim (Bool-cases (eqb i n)) [
        | inl same ↦ inl (
            subst (λ j. (acquire_round acq model j b).0 ≢ none) (sym ((eqb_iff i n).0 same))
              (acquire_round-ends n b h))
        | inr later ↦
            inr (λ c. acquire_slot_on_backend-ends n fuel (suc i) c h (ground arith) (omega arith))
      ])
