-- ===== src/Dispatch/Grants.antt =====
-- `pumpBackend` of matcher.go: the slots that it hands out, and when it stops.
use proxycache.Base.{
  ℕ, ◌≡◌, refl, sym, ap, ◌∙◌, subst, ◌⊎◌, inl, inr, true, false, ◌||◌, none, some, List, [], ◌∷◌,
  ◌++◌, arith, All, eqb, if◌then◌else◌, Bool-cases, Option-cases, FloatOps, ◌≢◌,
}
use proxycache.Config.{Config}
use proxycache.Slots.{Slots, busy}
use proxycache.Slots.Exclusion.{Distinct}
use proxycache.Slots.Pools.{is_slot}
use proxycache.Dispatch.Queues.{
  ProcRequest, Grant, acquired, bootstrap, Pumped, grant_for, give_back, pump_queue,
}
use proxycache.Dispatch.Pump.{
  slots_of, Separate, IsGrant, grant_for-IsGrant, grant_for-none, give_back-IsGrant, stop, dropped,
  started, drop_round, start_round, Separate-snoc,
}

module _ {F : Type 0} where
  -- The slots handed out are distinct and were free, and are what the pump adds to those in use.
  abbrev pub Takes : Slots F → Pumped F → Type 0
  Takes b p =
      Distinct (slots_of p.started)
      × All (λ s. busy b s ≡ false) (slots_of p.started)
      × ((t : ℕ) → busy p.slots t ≡ is_slot t (slots_of p.started) || busy b t)

  All-same :
      (b c : Slots F) (ss : List ℕ)
      → ((t : ℕ) → busy c t ≡ busy b t)
      → All (λ s. busy c s ≡ false) ss
      → All (λ s. busy b s ≡ false) ss
  All-same b c [] e a = tt
  All-same b c (s ∷ ss) e a = (sym (e s) ∙ a.0, All-same b c ss e a.1)

  Takes-same :
      (b c : Slots F) (p : Pumped F) → ((t : ℕ) → busy c t ≡ busy b t) → Takes c p → Takes b p
  Takes-same b c p e (d, a, h) = (
    d,
    All-same b c (slots_of p.started) e a,
    λ t. let now = h t in let same = e t in ground arith,
  )

  -- What is free once `s` is in use is not `s`, and was free before.
  free_after :
      (b c : Slots F) (s : ℕ) (ss : List ℕ)
      → ((t : ℕ) → busy c t ≡ (if eqb s t then true else busy b t))
      → All (λ u. busy c u ≡ false) ss
      → All (λ u. s ≢ u) ss × All (λ u. busy b u ≡ false) ss
  free_after b c s [] e a = (tt, tt)
  free_after b c s (u ∷ us) e a =
      let rest = free_after b c s us e a.1 in
      let at = e u in let free = a.0 in ((λ h. ground arith, rest.0), (ground arith, rest.1))

  Takes-acquired :
      (b c : Slots F) (req : ProcRequest F) (s : ℕ) (p : Pumped F)
      → busy b s ≡ false
      → ((t : ℕ) → busy c t ≡ (if eqb s t then true else busy b t))
      → Takes c p
      → Takes b (started req (acquired s) p)
  Takes-acquired b c req s p f e (d, a, h) =
      let (new, free) = free_after b c s (slots_of p.started) e a in
      ((new, d), (f, free), λ t. let now = h t in let at = e t in ground arith)

module _ {F : Type 0} ⦃fl : FloatOps F⦄ where
  Takes-started :
      (b c : Slots F) (req : ProcRequest F) (g : Grant) (p : Pumped F)
      → IsGrant b (some g) c
      → Takes c p
      → Takes b (started req g p)
  Takes-started b c req (acquired s) p g h = Takes-acquired b c req s p g.0 g.1 h
  Takes-started b c req bootstrap p g h = Takes-same b c p g h

  -- If no request of the queue is in flight or queued twice, then after the pump exactly those
  -- slots are in use that were before or that a started worker was given; no slot is given twice,
  -- and none that was in use. So a request that is dropped leaks no slot.
  pub pump_queue-Takes :
      (cfg : Config F) (now : F) (queue in_flight : List (ProcRequest F)) (slots : Slots F)
      → Separate queue in_flight
      → Takes slots (pump_queue cfg now queue in_flight slots)
  unfolding pump_queue
  pump_queue-Takes cfg now [] in_flight slots d = (tt, tt, λ t. refl)
  pump_queue-Takes cfg now (req ∷ queue) in_flight slots d =
      elim (Option-cases (grant_for slots req.model_name in_flight now).0) [
        | inl e ↦
            subst (Takes slots) (sym (stop cfg now req queue in_flight slots e))
              (tt, tt, subst (λ g. IsGrant slots g after) e grant)
        | inr (g, e) ↦ elim (Bool-cases req.cancelled) [
          | inl gone ↦
              subst (Takes slots) (sym (drop_round cfg now req queue in_flight slots g e gone d.1))
                (Takes-same slots (give_back cfg g after now)
                  (dropped req (pump_queue cfg now queue in_flight (give_back cfg g after now)))
                  (give_back-IsGrant cfg slots after g now
                    (subst (λ z. IsGrant slots z after) e grant))
                  (pump_queue-Takes cfg now queue in_flight
                    (give_back cfg g (grant_for slots req.model_name in_flight now).1 now) d.2))
          | inr there ↦
              subst (Takes slots) (sym (start_round cfg now req queue in_flight slots g e there)) (
                Takes-started slots after req g
                  (pump_queue cfg now queue (in_flight ++ req ∷ []) after)
                  (subst (λ z. IsGrant slots z after) e grant)
                  (pump_queue-Takes cfg now queue (in_flight ++ req ∷ [])
                    (grant_for slots req.model_name in_flight now).1
                    (Separate-snoc queue in_flight req d.0 d.2)))
        ]
      ]
    where
      after : Slots F
      after = (grant_for slots req.model_name in_flight now).1

      grant : IsGrant slots (grant_for slots req.model_name in_flight now).0 after
      grant = grant_for-IsGrant slots req.model_name in_flight now

  abbrev pub Stopped : F → Pumped F → Type 0
  Stopped now p =
      (p.queue ≡ [])
      ⊎ ((req : ProcRequest F) × (rest : List (ProcRequest F)) × (p.queue ≡ req ∷ rest)
          × ((grant_for p.slots req.model_name p.in_flight now).0 ≡ none))

  -- If no request of the queue is in flight or queued twice, the pump stops only with an empty
  -- queue, or with a head of the queue that gets no slot from the slots that it leaves.
  pub pump_queue-Stopped :
      (cfg : Config F) (now : F) (queue in_flight : List (ProcRequest F)) (slots : Slots F)
      → Separate queue in_flight
      → Stopped now (pump_queue cfg now queue in_flight slots)
  unfolding pump_queue
  pump_queue-Stopped cfg now [] in_flight slots d = inl refl
  pump_queue-Stopped cfg now (req ∷ queue) in_flight slots d =
      elim (Option-cases (grant_for slots req.model_name in_flight now).0) [
        | inl e ↦ subst (Stopped now) (sym (stop cfg now req queue in_flight slots e)) (
            inr (
              req,
              queue,
              refl,
              ap (λ b. (grant_for b req.model_name in_flight now).0)
                    (grant_for-none slots req.model_name in_flight now e)
                  ∙ e,
            ))
        | inr (g, e) ↦ elim (Bool-cases req.cancelled) [
          | inl gone ↦
              subst (Stopped now) (sym (drop_round cfg now req queue in_flight slots g e gone d.1))
                (pump_queue-Stopped cfg now queue in_flight
                  (give_back cfg g (grant_for slots req.model_name in_flight now).1 now) d.2)
          | inr there ↦
              subst (Stopped now) (sym (start_round cfg now req queue in_flight slots g e there)) (
                pump_queue-Stopped cfg now queue (in_flight ++ req ∷ [])
                  (grant_for slots req.model_name in_flight now).1
                  (Separate-snoc queue in_flight req d.0 d.2))
        ]
      ]
