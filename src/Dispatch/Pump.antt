-- ===== src/Dispatch/Pump.antt =====
-- `pumpBackend` of matcher.go: order and conservation of the requests, and the slots it takes.
use proxycache.Base.{
  ℕ, ◌≡◌, refl, sym, ap, ◌∙◌, subst, inl, inr, String, Bool, true, false, not, ◌||◌, Option, none,
  some, length, List, [], ◌∷◌, ◌++◌, map, arith, keep, lookup_or-insert, eqb, if◌then◌else◌,
  Bool-cases, Option-cases, nat_eq, string_eq, FloatOps,
}
use proxycache.Config.{Config}
use proxycache.Slots.{Slots, busy, get_pool, try_acquire}
use proxycache.Slots.Acquire.{Acquires, pool_of, try_acquire-Acquires}
use proxycache.Slots.Exclusion.{release-busy}
use proxycache.Dispatch.Queues.{
  ProcRequest, Grant, acquired, bootstrap, Pumped, drop_request, grant_for, give_back, pump_round,
  pump_queue,
}

-- The slots that the started workers were given.
abbrev pub slots_of : {F : Type 0} → List (ProcRequest F × Grant) → List ℕ
slots_of [] = []
slots_of ((_, acquired s) ∷ xs) = s ∷ slots_of xs
slots_of ((_, bootstrap) ∷ xs) = slots_of xs

abbrev pub has_id : {F : Type 0} → ℕ → List (ProcRequest F) → Bool
has_id id [] = false
has_id id (r ∷ rs) = eqb r.id id || has_id id rs

-- No request of the queue is in flight or a second time in the queue.
abbrev pub Separate : {F : Type 0} → List (ProcRequest F) → List (ProcRequest F) → Type 0
Separate [] in_flight = Unit
Separate (r ∷ rs) in_flight =
    (has_id r.id rs ≡ false) × (has_id r.id in_flight ≡ false) × Separate rs in_flight

module _ {F : Type 0} where
  drop_request-append :
      (req : ProcRequest F) (rs : List (ProcRequest F))
      → has_id req.id rs ≡ false
      → drop_request req.id (rs ++ req ∷ []) ≡ rs
  unfolding drop_request
  drop_request-append req [] h = ground arith
  drop_request-append req (r ∷ rs) h = ground (arith, drop_request-append req rs)

  has_id-append :
      (id : ℕ) (xs ys : List (ProcRequest F)) → has_id id (xs ++ ys) ≡ has_id id xs || has_id id ys
  has_id-append id [] ys = refl
  has_id-append id (x ∷ xs) ys = ground (arith, has_id-append id xs ys)

  pub Separate-snoc :
      (queue in_flight : List (ProcRequest F)) (req : ProcRequest F)
      → has_id req.id queue ≡ false
      → Separate queue in_flight
      → Separate queue (in_flight ++ req ∷ [])
  Separate-snoc [] in_flight req h s = tt
  Separate-snoc (r ∷ rs) in_flight req h s = (
    s.0,
    ground (arith, has_id-append r.id in_flight (req ∷ []), s.1),
    Separate-snoc rs in_flight req (ground arith) s.2,
  )

  abbrev pub dropped : ProcRequest F → Pumped F → Pumped F
  dropped req p = record p { dropped = req ∷ p.dropped }

  abbrev pub started : ProcRequest F → Grant → Pumped F → Pumped F
  started req g p = record p { started = (req, g) ∷ p.started }

module _ {F : Type 0} ⦃fl : FloatOps F⦄ where
  -- What a grant is: a free slot, in use afterwards, or nothing changed.
  abbrev pub IsGrant : Slots F → Option Grant → Slots F → Type 0
  IsGrant b none after = (t : ℕ) → busy after t ≡ busy b t
  IsGrant b (some bootstrap) after = (t : ℕ) → busy after t ≡ busy b t
  IsGrant b (some (acquired s)) after =
      (busy b s ≡ false) × ((t : ℕ) → busy after t ≡ (if eqb s t then true else busy b t))

  bootstrap-IsGrant : (b : Slots F) (t : Bool) → IsGrant b (if t then some bootstrap else none) b
  bootstrap-IsGrant b true = λ t. refl
  bootstrap-IsGrant b false = λ t. refl

  acquired-IsGrant :
      (b : Slots F) (pool : List ℕ) (now : F) (r : Option ℕ × Slots F)
      → Acquires b pool now r
      → IsGrant b (elim r.0 [ none ↦ none | some t ↦ some (acquired t) ]) r.1
  acquired-IsGrant b pool now (none, after) (inl (all, e)) = λ t. ground arith
  acquired-IsGrant b pool now (some s, after) (inl (all, e)) = ground arith
  acquired-IsGrant b pool now (none, after) (inr (s, free, e)) = ground arith
  acquired-IsGrant b pool now (some u, after) (inr (s, (_, _, _, _, free), e)) =
      (ground arith, λ t. ground (arith, lookup_or-insert false s t true b.in_use))

  pub grant_for-IsGrant :
      (b : Slots F) (model : String) (in_flight : List (ProcRequest F)) (now : F)
      → let (grant, after) = grant_for b model in_flight now in IsGrant b grant after
  unfolding grant_for
  grant_for-IsGrant b model in_flight now = elim (Option-cases (get_pool b model)) [
    | inl e ↦ rw (e, grant_for) (bootstrap-IsGrant b (eqb (length in_flight) 0))
    | inr ([], e) ↦ rw (e, grant_for) (bootstrap-IsGrant b (eqb (length in_flight) 0))
    | inr (s ∷ ss, e) ↦
        rw (e, grant_for)
          (acquired-IsGrant b (pool_of b model) now (try_acquire b model now)
            (try_acquire-Acquires b model now))
  ]

  kept-none :
      (b : Slots F) (pool : List ℕ) (now : F) (r : Option ℕ × Slots F)
      → Acquires b pool now r
      → (elim r.0 [ none ↦ none | some t ↦ some (acquired t) ]) ≡ none
      → r.1 ≡ b
  kept-none b pool now (none, after) (inl (all, e)) h = ap (λ z. z.1) e
  kept-none b pool now (some s, after) a h = ground arith
  kept-none b pool now (none, after) (inr (s, free, e)) h = ground arith

  -- Without a grant nothing changes.
  pub grant_for-none :
      (b : Slots F) (model : String) (in_flight : List (ProcRequest F)) (now : F)
      → (grant_for b model in_flight now).0 ≡ none
      → (grant_for b model in_flight now).1 ≡ b
  unfolding grant_for
  grant_for-none b model in_flight now h = elim (Option-cases (get_pool b model)) [
    | inl e ↦ rw (e, grant_for) refl
    | inr ([], e) ↦ rw (e, grant_for) refl
    | inr (s ∷ ss, e) ↦
        rw (e, grant_for)
          (kept-none b (pool_of b model) now (try_acquire b model now)
            (try_acquire-Acquires b model now) (ground arith))
  ]

  -- A grant that is given back leaves the marks as they were.
  pub give_back-IsGrant :
      (cfg : Config F) (b after : Slots F) (g : Grant) (now : F)
      → IsGrant b (some g) after
      → (t : ℕ) → busy (give_back cfg g after now) t ≡ busy b t
  unfolding give_back
  give_back-IsGrant cfg b after (acquired s) now g t =
      ground (arith, release-busy cfg after s t now, g.0, g.1 t)
  give_back-IsGrant cfg b after bootstrap now g t = g t

  -- The three ways that a round goes.
  pub stop :
      (cfg : Config F) (now : F) (req : ProcRequest F) (queue in_flight : List (ProcRequest F))
      (slots : Slots F)
      → (grant_for slots req.model_name in_flight now).0 ≡ none
      → pump_queue cfg now (req ∷ queue) in_flight slots ≡ record {
        queue = req ∷ queue;
        in_flight = in_flight;
        slots = (grant_for slots req.model_name in_flight now).1;
        started = [];
        dropped = [];
      }
  unfolding pump_queue pump_round
  stop cfg now req queue in_flight slots e =
      ap
        (λ z.
          pump_round cfg now req queue in_flight (grant_for slots req.model_name in_flight now).1 z
            req.cancelled (pump_queue cfg now queue))
        e

  pub drop_round :
      (cfg : Config F) (now : F) (req : ProcRequest F) (queue in_flight : List (ProcRequest F))
      (slots : Slots F) (g : Grant)
      → (grant_for slots req.model_name in_flight now).0 ≡ some g
      → req.cancelled ≡ true
      → has_id req.id in_flight ≡ false
      → pump_queue cfg now (req ∷ queue) in_flight slots
        ≡ dropped req (
            pump_queue cfg now queue in_flight
              (give_back cfg g (grant_for slots req.model_name in_flight now).1 now))
  unfolding pump_queue pump_round
  drop_round cfg now req queue in_flight slots g e c h =
      let after = (grant_for slots req.model_name in_flight now).1 in
      let loop = pump_queue cfg now queue in
      ap (λ z. pump_round cfg now req queue in_flight after z req.cancelled loop) e
      ∙ ap (λ z. pump_round cfg now req queue in_flight after (some g) z loop) c
      ∙ ap (λ z. dropped req (loop z (give_back cfg g after now)))
          (drop_request-append req in_flight h)

  pub start_round :
      (cfg : Config F) (now : F) (req : ProcRequest F) (queue in_flight : List (ProcRequest F))
      (slots : Slots F) (g : Grant)
      → (grant_for slots req.model_name in_flight now).0 ≡ some g
      → req.cancelled ≡ false
      → pump_queue cfg now (req ∷ queue) in_flight slots
        ≡ started req g (
            pump_queue cfg now queue
              (in_flight ++ req ∷ [])
              (grant_for slots req.model_name in_flight now).1)
  unfolding pump_queue pump_round
  start_round cfg now req queue in_flight slots g e c =
      let after = (grant_for slots req.model_name in_flight now).1 in
      let loop = pump_queue cfg now queue in
      ap (λ z. pump_round cfg now req queue in_flight after z req.cancelled loop) e
      ∙ ap (λ z. pump_round cfg now req queue in_flight after (some g) z loop) c

  -- The requests that were taken off the queue: the started ones and the dropped ones, in order.
  abbrev pub Splits : List (ProcRequest F) → List (ProcRequest F) → Pumped F → Type 0
  Splits queue in_flight p =
      (taken : List (ProcRequest F)) × (queue ≡ taken ++ p.queue)
      × (map (λ x. x.0) p.started ≡ keep (λ r. not r.cancelled) taken)
      × (p.dropped ≡ keep (λ r. r.cancelled) taken)
      × (p.in_flight ≡ in_flight ++ map (λ x. x.0) p.started)

  append_assoc :
      (xs ys : List (ProcRequest F)) (y : ProcRequest F) → (xs ++ y ∷ []) ++ ys ≡ xs ++ y ∷ ys
  append_assoc [] ys y = refl
  append_assoc (x ∷ xs) ys y = ap (λ zs. x ∷ zs) (append_assoc xs ys y)

  append_nil : (xs : List (ProcRequest F)) → xs ≡ xs ++ []
  append_nil [] = refl
  append_nil (x ∷ xs) = ap (λ zs. x ∷ zs) (append_nil xs)

  keep_yes :
      (p : ProcRequest F → Bool) (r : ProcRequest F) (rs : List (ProcRequest F))
      → p r ≡ true
      → r ∷ keep p rs ≡ keep p (r ∷ rs)
  keep_yes p r rs h = ground arith

  keep_no :
      (p : ProcRequest F → Bool) (r : ProcRequest F) (rs : List (ProcRequest F))
      → p r ≡ false
      → keep p rs ≡ keep p (r ∷ rs)
  keep_no p r rs h = ground arith

  dropped-Splits :
      (req : ProcRequest F) (queue in_flight : List (ProcRequest F)) (p : Pumped F)
      → req.cancelled ≡ true
      → Splits queue in_flight p
      → Splits (req ∷ queue) in_flight (dropped req p)
  dropped-Splits req queue in_flight p c (taken, q, st, dr, fli) = (
    req ∷ taken,
    ap (λ z. req ∷ z) q,
    st ∙ keep_no (λ r. not r.cancelled) req taken (ap not c),
    ap (λ z. req ∷ z) dr ∙ keep_yes (λ r. r.cancelled) req taken c,
    fli,
  )

  started-Splits :
      (req : ProcRequest F) (g : Grant) (queue in_flight : List (ProcRequest F)) (p : Pumped F)
      → req.cancelled ≡ false
      → Splits queue (in_flight ++ req ∷ []) p
      → Splits (req ∷ queue) in_flight (started req g p)
  started-Splits req g queue in_flight p c (taken, q, st, dr, fli) = (
    req ∷ taken,
    ap (λ z. req ∷ z) q,
    ap (λ z. req ∷ z) st ∙ keep_yes (λ r. not r.cancelled) req taken (ap not c),
    dr ∙ keep_no (λ r. r.cancelled) req taken c,
    fli ∙ append_assoc in_flight (map (λ x. x.0) p.started) req,
  )

  -- If no request of the queue is in flight or queued twice, the pump takes a prefix of the queue.
  -- It starts the requests of the prefix whose client is there, in order, and puts them in flight
  -- behind the others; it drops the rest of the prefix.
  pub pump_queue-Splits :
      (cfg : Config F) (now : F) (queue in_flight : List (ProcRequest F)) (slots : Slots F)
      → Separate queue in_flight
      → Splits queue in_flight (pump_queue cfg now queue in_flight slots)
  unfolding pump_queue
  pump_queue-Splits cfg now [] in_flight slots d = ([], refl, refl, refl, append_nil in_flight)
  pump_queue-Splits cfg now (req ∷ queue) in_flight slots d =
      elim (Option-cases (grant_for slots req.model_name in_flight now).0) [
        | inl e ↦
            subst (Splits (req ∷ queue) in_flight) (sym (stop cfg now req queue in_flight slots e))
              ([], refl, refl, refl, append_nil in_flight)
        | inr (g, e) ↦ elim (Bool-cases req.cancelled) [
          | inl gone ↦
              subst (Splits (req ∷ queue) in_flight)
                (sym (drop_round cfg now req queue in_flight slots g e gone d.1))
                (dropped-Splits req queue in_flight
                  (pump_queue cfg now queue in_flight
                    (give_back cfg g (grant_for slots req.model_name in_flight now).1 now))
                  gone
                  (pump_queue-Splits cfg now queue in_flight
                    (give_back cfg g (grant_for slots req.model_name in_flight now).1 now) d.2))
          | inr there ↦
              subst (Splits (req ∷ queue) in_flight)
                (sym (start_round cfg now req queue in_flight slots g e there))
                (started-Splits req g queue in_flight
                  (pump_queue cfg now queue (in_flight ++ req ∷ [])
                    (grant_for slots req.model_name in_flight now).1)
                  there
                  (pump_queue-Splits cfg now queue (in_flight ++ req ∷ [])
                    (grant_for slots req.model_name in_flight now).1
                    (Separate-snoc queue in_flight req d.0 d.2)))
        ]
      ]
