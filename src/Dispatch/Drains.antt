-- ===== src/Dispatch/Drains.antt =====
-- The pass over the overflow queue (`drainOverflow` of matcher.go): where each request goes.
use proxycache.Base.{
  ◌≤◌, ◌<◌, ◌≡◌, ◌≢◌, refl, ap, ◌⊎◌, inl, inr, String, Bool, true, false, List, [], ◌∷◌, ◌++◌,
  arith, length, lookup_or-insert, leb, if◌then◌else◌, str_eq, str_eq_iff, string_eq, Bool-cases,
  if_cases, FloatOps,
}
use proxycache.Config.{Config}
use proxycache.Dispatch.Queues.{
  ProcRequest, Dispatcher, idle_worker, get_worker, queue_depth, try_enqueue,
}
use proxycache.Dispatch.Arrivals.{
  MatchAnswer, failed, routed, discard, place, drain_one, drain_from, drain_overflow,
}

module _ {F : Type 0} ⦃fl : FloatOps F⦄ (cfg : Config F) (now : F)
    (answer : ProcRequest F → MatchAnswer) where
  -- The same queues and requests in flight on every backend, and the same discarded requests.
  abbrev pub SameQueues : Dispatcher F → Dispatcher F → Type 0
  SameQueues d after =
      (after.discarded ≡ d.discarded)
      × ((other : String) → get_worker after other ≡ get_worker d other)

  -- The request is at the end of the backend's queue with the time noted, and nothing else changed.
  abbrev pub Queued : ProcRequest F → String → Dispatcher F → Dispatcher F → Type 0
  Queued req backend d after =
      (after.discarded ≡ d.discarded)
      × ((other : String)
          → get_worker after other ≡ (
              if str_eq backend other
              then record (get_worker d backend) {
                queue = (get_worker d backend).queue ++ record req { enqueued_at = now } ∷ [];
              }
              else get_worker d other))

  -- How a request is disposed of: discarded if its client has gone; otherwise gone with its error
  -- response, or queued on the backend that it is routed to, below the cap.
  abbrev pub Disposed : ProcRequest F → Dispatcher F → Dispatcher F → Type 0
  Disposed req d after =
      ((req.cancelled ≡ true)
        × (after.discarded ≡ d.discarded ++ req ∷ [])
        × ((other : String) → get_worker after other ≡ get_worker d other))
      ⊎ (((req.cancelled ≡ false) × (answer req ≡ failed) × SameQueues d after)
          ⊎ ((req.cancelled ≡ false)
              × ((backend : String) × (answer req ≡ routed backend)
                  × (backend ≢ "")
                  × (queue_depth d backend < cfg.backend_queue_max)
                  × Queued req backend d after)))

  -- A live request that is routed to no backend, or to one whose queue is at the cap.
  abbrev pub NoPlace : ProcRequest F → Dispatcher F → Type 0
  NoPlace req d =
      (req.cancelled ≡ false)
      × ((backend : String) × (answer req ≡ routed backend)
          × ((backend ≡ "") ⊎ (cfg.backend_queue_max ≤ queue_depth d backend)))

  -- The requests are disposed of one after the other.
  pub data Disposes : List (ProcRequest F) → Dispatcher F → Dispatcher F → Type 0 where
    over : (d : Dispatcher F) → Disposes [] d d
    next :
        (req : ProcRequest F) (reqs : List (ProcRequest F)) (d mid after : Dispatcher F)
        → Disposed req d mid
        → Disposes reqs mid after
        → Disposes (req ∷ reqs) d after

  abbrev RoundEnd : ProcRequest F → Dispatcher F → Bool × Dispatcher F → Type 0
  RoundEnd req d (ok, after) =
      ((ok ≡ true) × Disposed req d after) ⊎ ((ok ≡ false) × NoPlace req d × SameQueues d after)

  enqueue-RoundEnd :
      (req : ProcRequest F) (backend : String) (d : Dispatcher F)
      → req.cancelled ≡ false
      → answer req ≡ routed backend
      → backend ≢ ""
      → RoundEnd req d (try_enqueue cfg now req backend d)
  unfolding try_enqueue queue_depth
  enqueue-RoundEnd req backend d live e named =
      elim (Bool-cases (leb cfg.backend_queue_max (length (get_worker d backend).queue))) [
        | inl full ↦
            rw (full, try_enqueue)
              (inr (
                refl,
                (live, (backend, e, inr (ground arith))),
                (
                  refl,
                  λ other. ground (
                    arith,
                    str_eq_iff backend other,
                    lookup_or-insert idle_worker backend other (get_worker d backend) d.workers,
                  ),
                ),
              ))
        | inr room ↦
            rw (room, try_enqueue)
              (inl (
                refl,
                inr (
                    inr (
                      live,
                      (
                        backend,
                        e,
                        named,
                        ground arith,
                        (
                          refl,
                          λ other.
                              lookup_or-insert idle_worker backend other
                                (record (get_worker d backend) {
                                  queue =
                                      (get_worker d backend).queue
                                      ++ record req { enqueued_at = now } ∷ [];
                                })
                                d.workers,
                        ),
                      ),
                    )),
              ))
      ]

  place-RoundEnd :
      (req : ProcRequest F) (backend : String) (d : Dispatcher F)
      → req.cancelled ≡ false
      → answer req ≡ routed backend
      → RoundEnd req d (place cfg now req backend d)
  unfolding place
  place-RoundEnd req backend d live e = elim (Bool-cases (str_eq backend "")) [
    | inl t ↦
        let unnamed : backend ≡ "" = ground (arith, str_eq_iff backend "") in
        rw (t, place) (inr (refl, (live, (backend, e, inl unnamed)), (refl, λ other. refl)))
    | inr f ↦
        let named : backend ≢ "" = ground (arith, str_eq_iff backend "") in
        rw (f, place) (enqueue-RoundEnd req backend d live e named)
  ]

  drain_one-RoundEnd :
      (a : MatchAnswer) (req : ProcRequest F) (d : Dispatcher F)
      → answer req ≡ a
      → RoundEnd req d (drain_one cfg now a req d)
  unfolding drain_one discard
  drain_one-RoundEnd failed req d e =
      if_cases (λ (after : Dispatcher F). RoundEnd req d (true, after)) req.cancelled
        (λ t. inl (refl, inl (t, refl, λ other. refl)))
        (λ f. inl (refl, inr (inl (f, e, (refl, λ other. refl)))))
  drain_one-RoundEnd (routed backend) req d e =
      if_cases (RoundEnd req d) req.cancelled (λ t. inl (refl, inl (t, refl, λ other. refl)))
        (λ f. place-RoundEnd req backend d f e)

  -- The pass splits the overflow queue: a first part that is disposed of in order, and the rest,
  -- which stays as it is, empty or headed by a request without a place.
  abbrev pub DrainedOf : List (ProcRequest F) → Dispatcher F → Dispatcher F → Type 0
  DrainedOf reqs d after =
      (done : List (ProcRequest F)) × (left : List (ProcRequest F)) × (mid : Dispatcher F) × (reqs
        ≡ done ++ left)
      × Disposes done d mid
      × SameQueues mid after
      × (after.overflow ≡ left)
      × ((left ≡ [])
          ⊎ ((req : ProcRequest F) × (later : List (ProcRequest F)) × (left ≡ req ∷ later)
              × NoPlace req mid))

  drain_from-DrainedOf :
      (reqs : List (ProcRequest F)) (d : Dispatcher F)
      → DrainedOf reqs d (drain_from cfg now answer reqs d)
  unfolding drain_from
  drain_from-DrainedOf [] d = ([], [], d, refl, over d, (refl, λ other. refl), refl, inl refl)
  drain_from-DrainedOf (req ∷ reqs) d =
      let after = (drain_one cfg now (answer req) req d).1 in
      elim (drain_one-RoundEnd (answer req) req d refl) [
        | inl (t, ended) ↦
            let (done, left, mid, e, all, same, rest, stop) = drain_from-DrainedOf reqs after in
            rw (t, drain_from)
              (
                req ∷ done,
                left,
                mid,
                ap (λ l. req ∷ l) e,
                next req done d after mid ended all,
                same,
                rest,
                stop,
              )
        | inr (f, no_place, same) ↦
            rw (f, drain_from)
              ([], req ∷ reqs, d, refl, over d, same, refl, inr (req, reqs, refl, no_place))
      ]

  abbrev pub Drained : Dispatcher F → Dispatcher F → Type 0
  Drained d after = DrainedOf d.overflow d after

  -- The pass over the overflow queue disposes of requests from the front, in order: a request whose
  -- client has gone is discarded, one that `match` refuses leaves the queue with its error response,
  -- and one that is routed to a backend with room is put at the end of that backend's queue with the
  -- time noted. Nothing else changes in the queues, the requests in flight and the discarded ones. What is left of the overflow queue is its
  -- rest as it was, empty or headed by a live request that is routed to no backend or to one whose
  -- queue is at the cap.
  pub drain_overflow-Drained : (d : Dispatcher F) → Drained d (drain_overflow cfg now answer d)
  unfolding drain_overflow
  drain_overflow-Drained d = drain_from-DrainedOf d.overflow d
