-- ===== src/Dispatch/Arrivals.antt =====
-- `handleArrival` and `drainOverflow` of matcher.go: a request that arrives, and the pass over the
-- overflow queue. What `match` makes of a request is an argument: it asks the backends.
use proxycache.Base.{
  String, Bool, true, false, List, [], ◌∷◌, ◌++◌, if◌then◌else◌, str_eq, FloatOps,
}
use proxycache.Config.{Config}
use proxycache.Dispatch.Queues.{ProcRequest, Dispatcher, try_enqueue, park_overflow}

-- An error that is written already, or the selected backend, empty for none.
pub data MatchAnswer : Type 0 where
  failed : MatchAnswer
  routed : String → MatchAnswer

module _ {F : Type 0} ⦃fl : FloatOps F⦄ where
  unfoldable pub discard : ProcRequest F → Dispatcher F → Dispatcher F
  discard req d = record d { discarded = d.discarded ++ req ∷ [] }

  -- The request goes to the selected backend, if there is one with room.
  unfoldable pub place : Config F → F → ProcRequest F → String → Dispatcher F → Bool × Dispatcher F
  unfolding try_enqueue
  place cfg now req backend d =
      if str_eq backend "" then (false, d) else try_enqueue cfg now req backend d

  unfoldable pub handle_arrival :
      Config F → F → MatchAnswer → ProcRequest F → Dispatcher F → Dispatcher F
  unfolding place park_overflow discard
  handle_arrival cfg now failed req d = if req.cancelled then discard req d else d
  handle_arrival cfg now (routed backend) req d =
      let (ok, placed) = place cfg now req backend d in
      if req.cancelled then discard req d else if ok then placed else park_overflow req placed

  -- One round of the loop: whether the pass goes on, and the state after it.
  unfoldable pub drain_one :
      Config F → F → MatchAnswer → ProcRequest F → Dispatcher F → Bool × Dispatcher F
  unfolding place discard
  drain_one cfg now failed req d = (true, if req.cancelled then discard req d else d)
  drain_one cfg now (routed backend) req d =
      if req.cancelled then (true, discard req d) else place cfg now req backend d

  -- The pass: a request that has no place yet is put back in front, which ends it.
  unfoldable pub drain_from :
      Config F
      → F
      → (ProcRequest F → MatchAnswer)
      → List (ProcRequest F)
      → Dispatcher F
      → Dispatcher F
  unfolding drain_one
  drain_from cfg now answer [] d = record d { overflow = [] }
  drain_from cfg now answer (req ∷ reqs) d =
      let (ok, after) = drain_one cfg now (answer req) req d in
      let rest = drain_from cfg now answer reqs after in
      if ok then rest else record after { overflow = req ∷ reqs }

  unfoldable pub drain_overflow :
      Config F → F → (ProcRequest F → MatchAnswer) → Dispatcher F → Dispatcher F
  unfolding drain_from
  drain_overflow cfg now answer d = drain_from cfg now answer d.overflow d
