-- ===== src/Dispatch.antt =====
-- matcher.go: the choice of a backend for a request (`SelectBackend`), the scan of the caches before
-- it (Scan, Match), and the queues of the request dispatcher (Queues, Arrivals, Migrate).
pub mod Select
pub mod Hits
pub mod Choice
pub mod Rotation
pub mod Queues
pub mod Pump
pub mod Grants
pub mod Bounds
pub mod Migrate
pub mod Moves
pub mod Arrivals
pub mod Drains
pub mod Scan
pub mod Scanned
pub mod Match
pub mod Routes
pub mod Strongest
pub mod MatchTests
pub mod Tests
use proxycache.Base.{
  ℕ, zero, suc, ◌+◌, ◌%◌, String, Bool, true, false, not, ◌&&◌, Option, none, some, List, [], ◌∷◌,
  length, get_elem?, eqb, ltb, leb, if◌then◌else◌, str_eq, Option-cases,
}
use proxycache.Config.{Config}

pub record CandidateBackend : Type 0 where
  pub backend_id : String
  pub model_name : String

pub record HitInfo : Type 0 where
  pub backend : String
  pub canonical : String

-- `hit.Backend`, empty without a hit.
abbrev pub hit_backend : Option HitInfo → String
hit_backend none = ""
hit_backend (some hit) = hit.backend

abbrev pub has_hit : Option HitInfo → Bool
has_hit hit = not (str_eq (hit_backend hit) "")

-- `cands[i].BackendID`. The loops index within the list only.
abbrev pub backend_at : List CandidateBackend → ℕ → String
backend_at cands i = elim (get_elem? cands i) [ none ↦ "" | some c ↦ c.backend_id ]

-- The loop over the candidates of the hit backend: from position `i` on, with the first such
-- candidate found so far.
unfoldable pub hit_from : HitInfo → ℕ → Option ℕ → List CandidateBackend → Option ℕ
hit_from hit i first [] = first
hit_from hit i first (c ∷ cs) =
    let skipped = hit_from hit (suc i) first cs in
    let noted = hit_from hit (suc i) (elim first [ none ↦ some i | some j ↦ some j ]) cs in
    if not (str_eq c.backend_id hit.backend)
    then skipped
    else if str_eq c.model_name hit.canonical
    then some i
    else noted

-- The indices `(start + k) % n` of a loop over `k`, for the given number of rounds.
unfoldable pub visits : ℕ → ℕ → ℕ → ℕ → List ℕ
visits n start k zero = []
visits n start k (suc rounds) = (start + k) % n ∷ visits n start (suc k) rounds

-- The loop that moves `start` to the first candidate that is not on the hit backend.
unfoldable pub first_other : List CandidateBackend → String → ℕ → List ℕ → ℕ
first_other cands hit start [] = start
first_other cands hit start (i ∷ is) =
    let rest = first_other cands hit start is in if str_eq (backend_at cands i) hit then rest else i

-- Where the fallback starts.
unfoldable pub start_of : List CandidateBackend → Option HitInfo → ℕ → ℕ
unfolding first_other visits
start_of cands hit start_idx =
    let n = length cands in
    let start = start_idx % n in
    if has_hit hit then first_other cands (hit_backend hit) start (visits n start 0 n) else start

module _ {F : Type 0} (cfg : Config F) (pending_of : String → ℕ) where
  -- One round of the loop of `pick`, with the best index and its depth so far.
  unfoldable pub pick_step :
      List CandidateBackend → String → Bool → Option (ℕ × ℕ) → ℕ → Option (ℕ × ℕ)
  pick_step cands hit allow_hit best i =
      let backend = backend_at cands i in
      if not allow_hit && str_eq backend hit
      then best
      else if leb cfg.backend_queue_max (pending_of backend)
      then best
      else elim best [
        | none ↦ some (i, pending_of backend)
        | some (j, depth) ↦
            if ltb (pending_of backend) depth then some (i, pending_of backend) else some (j, depth)
      ]

  unfoldable pub pick_from :
      List CandidateBackend → String → Bool → Option (ℕ × ℕ) → List ℕ → Option (ℕ × ℕ)
  unfolding pick_step
  pick_from cands hit allow_hit best [] = best
  pick_from cands hit allow_hit best (i ∷ is) =
      pick_from cands hit allow_hit (pick_step cands hit allow_hit best i) is

  -- The two passes of the fallback, from position `start`.
  unfoldable pub fallback : List CandidateBackend → Option HitInfo → ℕ → Option ℕ × String
  unfolding pick_from visits
  fallback cands hit start =
      let n = length cands in
      let order = visits n start 0 n in
      elim (pick_from cands (hit_backend hit) (not (has_hit hit)) none order) [
        | some (i, _) ↦ (some i, "fallback_round_robin")
        | none ↦
            if has_hit hit
            then elim (pick_from cands (hit_backend hit) true none order) [
              | some (i, _) ↦ (some i, "fallback_round_robin")
              | none ↦ (none, "all_queues_full")
            ]
            else (none, "all_queues_full")
      ]

  -- The candidate on a hit backend below the limit, if there is one.
  unfoldable pub hit_choice : List CandidateBackend → Option HitInfo → Option ℕ
  unfolding hit_from
  hit_choice cands none = none
  hit_choice cands (some hit) =
      if has_hit (some hit) && ltb (pending_of hit.backend) cfg.cache_hit_queue_limit
      then hit_from hit 0 none cands
      else none

  -- An index of -1 is `none`.
  unfoldable pub select_backend : List CandidateBackend → Option HitInfo → ℕ → Option ℕ × String
  unfolding fallback start_of hit_choice
  select_backend [] hit start_idx = (none, "no_candidates")
  select_backend (c ∷ cs) hit start_idx = elim (hit_choice (c ∷ cs) hit) [
    | some i ↦ (some i, "cache_hit")
    | none ↦ fallback (c ∷ cs) hit (start_of (c ∷ cs) hit start_idx)
  ]
