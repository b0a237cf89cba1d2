-- ===== src/Dispatch/Choice.antt =====
-- `SelectBackend` of matcher.go: when it finds a backend, and which.
use proxycache.Base.{
  ◌≢◌, ℕ, ◌%◌, ◌≤◌, ◌<◌, ◌≡◌, refl, ap, ◌∙◌, subst, ◌⊎◌, inl, inr, ◌↔◌, String, Bool, true, false,
  not, ◌&&◌, Option, none, some, List, [], ◌∷◌, arith, All, any, length, get_elem?, ltb,
  if◌then◌else◌, str_eq, Bool-cases, Option-cases,
}
use proxycache.Config.{Config}
use proxycache.Dispatch.{
  CandidateBackend, HitInfo, hit_backend, has_hit, hit_from, visits, pick_from, fallback, start_of,
  hit_choice, select_backend,
}
use proxycache.Dispatch.Select.{
  visits-All, visits-bounds, first_other-bounds, IsPick, IsPick-least, is_open, depth_at,
  pick_from-IsPick,
}
use proxycache.Dispatch.Hits.{
  get_elem?_lt, lt-get_elem?, All-middle, OnHit, same_candidate, hit_from-OnHit, hit_from-not_any,
  hit_from-none, hit_from-model,
}

module _ {F : Type 0} (cfg : Config F) (pending_of : String → ℕ) where
  -- A cache hit on a backend below the limit that is among the candidates.
  abbrev pub hit_usable : List CandidateBackend → Option HitInfo → Bool
  hit_usable cands hit =
      has_hit hit
      && ltb (pending_of (hit_backend hit)) cfg.cache_hit_queue_limit
      && any (λ c. str_eq c.backend_id (hit_backend hit)) cands

  hit_choice-not_usable :
      (cands : List CandidateBackend) (hit : Option HitInfo)
      → hit_usable cands hit ≡ false
      → hit_choice cfg pending_of cands hit ≡ none
  unfolding hit_choice
  hit_choice-not_usable cands none h = refl
  hit_choice-not_usable cands (some hit) h = ground (arith, hit_from-not_any hit 0 cands)

  start_of-bounds :
      (cands : List CandidateBackend) (hit : Option HitInfo) (start_idx : ℕ)
      → 0 < length cands
      → start_of cands hit start_idx < length cands
  unfolding start_of
  start_of-bounds cands hit start_idx h =
      let base : start_idx % length cands < length cands = omega arith in
      elim (Bool-cases (has_hit hit)) [
        | inl t ↦
            rw (t, start_of)
              (first_other-bounds cands (hit_backend hit) (length cands) _
                (visits (length cands) (start_idx % length cands) 0 (length cands)) base
                (visits-bounds (length cands) (start_idx % length cands) 0 (length cands) h))
        | inr f ↦ rw (f, start_of) base
      ]

  -- The choice among the open candidates of a pass, none only if no candidate is open.
  abbrev pub IsLeast : List CandidateBackend → String → Bool → Option ℕ → Type 0
  IsLeast cands hit allow none =
      (j : ℕ) → j < length cands → is_open cfg pending_of cands hit allow j ≡ false
  IsLeast cands hit allow (some i) =
      (i < length cands)
      × (is_open cfg pending_of cands hit allow i ≡ true)
      × ((j : ℕ)
          → j < length cands
          → is_open cfg pending_of cands hit allow j ≡ true
          → depth_at cfg pending_of cands i ≤ depth_at cfg pending_of cands j)

  abbrev index_of : Option (ℕ × ℕ) → Option ℕ
  index_of none = none
  index_of (some (i, d)) = some i

  IsPick-IsLeast :
      (cands : List CandidateBackend) (hit : String) (allow : Bool) (start : ℕ)
      (best : Option (ℕ × ℕ))
      → start < length cands
      → IsPick
          (is_open cfg pending_of cands hit allow)
          (depth_at cfg pending_of cands)
          (visits (length cands) start 0 (length cands))
          best
      → IsLeast cands hit allow (index_of best)
  IsPick-IsLeast cands hit allow start none h p = λ j hj. visits-All _ (length cands) start j h hj p
  IsPick-IsLeast cands hit allow start (some (i, d)) h (before, after, e, o, ed, lo, hi) = (
    All-middle (λ k. k < length cands) before after i
        (subst (All (λ k. k < length cands)) e
          (visits-bounds (length cands) start 0 (length cands) (omega arith))),
    o,
    λ j hj. visits-All _ (length cands) start j h hj (
        IsPick-least (is_open cfg pending_of cands hit allow) (depth_at cfg pending_of cands)
          (visits (length cands) start 0 (length cands)) i d (before, after, e, o, ed, lo, hi)),
  )

  pass-IsLeast :
      (cands : List CandidateBackend) (hit : String) (allow : Bool) (start : ℕ)
      → start < length cands
      → IsLeast cands hit allow (
          index_of (
            pick_from cfg pending_of cands hit allow none
              (visits (length cands) start 0 (length cands))))
  pass-IsLeast cands hit allow start h = IsPick-IsLeast cands hit allow start _ h (
      pick_from-IsPick cfg pending_of cands hit allow
        (visits (length cands) start 0 (length cands)))

  -- A least-loaded open candidate, first without the hit backend, then, if no other is open, with
  -- it. The flag says whether there is a hit.
  abbrev pub IsFallback : List CandidateBackend → String → Bool → Option ℕ → Type 0
  IsFallback cands hit b r =
      (IsLeast cands hit (not b) r × (r ≢ none))
      ⊎ (IsLeast cands hit (not b) none × IsLeast cands hit true r)

  fallback-IsFallback :
      (cands : List CandidateBackend) (hit : Option HitInfo) (start : ℕ)
      → start < length cands
      → IsFallback cands (hit_backend hit) (has_hit hit) (fallback cfg pending_of cands hit start).0
  unfolding fallback
  fallback-IsFallback cands hit start h =
      go (has_hit hit) (pass (not (has_hit hit))) (pass true)
        (pass-IsLeast cands (hit_backend hit) (not (has_hit hit)) start h)
        (pass-IsLeast cands (hit_backend hit) true start h)
    where
      pass : Bool → Option (ℕ × ℕ)
      pass allow =
          pick_from cfg pending_of cands (hit_backend hit) allow none
            (visits (length cands) start 0 (length cands))

      choose : Bool → Option (ℕ × ℕ) → Option (ℕ × ℕ) → Option ℕ × String
      choose b first second = elim first [
        | some (i, _) ↦ (some i, "fallback_round_robin")
        | none ↦
            if b
            then elim second [
              | some (i, _) ↦ (some i, "fallback_round_robin")
              | none ↦ (none, "all_queues_full")
            ]
            else (none, "all_queues_full")
      ]

      go :
          (b : Bool) (first second : Option (ℕ × ℕ))
          → IsLeast cands (hit_backend hit) (not b) (index_of first)
          → IsLeast cands (hit_backend hit) true (index_of second)
          → IsFallback cands (hit_backend hit) b (choose b first second).0
      go b (some (i, d)) second p q = inl (p, λ e. ground arith)
      go true none (some (i, d)) p q = inr (p, q)
      go true none none p q = inr (p, q)
      go false none second p q = inr (p, p)

  -- With candidates and without a usable hit, the chosen candidate has the shortest queue of the
  -- candidates with room that are not on the hit backend; only when none of those has room may it
  -- be on the hit backend, and none is chosen only when that has no room either.
  pub select_backend-IsFallback :
      (cands : List CandidateBackend) (hit : Option HitInfo) (start_idx : ℕ)
      → 0 < length cands
      → hit_usable cands hit ≡ false
      → IsFallback cands
          (hit_backend hit)
          (has_hit hit)
          (select_backend cfg pending_of cands hit start_idx).0
  unfolding select_backend
  select_backend-IsFallback [] hit start_idx h u = absurd (omega arith)
  select_backend-IsFallback (c ∷ cs) hit start_idx h u =
      rw (hit_choice-not_usable (c ∷ cs) hit u, select_backend)
        (fallback-IsFallback (c ∷ cs) hit (start_of (c ∷ cs) hit start_idx)
          (start_of-bounds (c ∷ cs) hit start_idx h))

  -- With a usable hit, the chosen candidate is on the hit backend, and of the hit's own model if a
  -- candidate on that backend is.
  pub select_backend-hit :
      (cands : List CandidateBackend) (hit : HitInfo) (start_idx : ℕ)
      → hit_usable cands (some hit) ≡ true
      → (i : ℕ) × (c : CandidateBackend) × (select_backend cfg pending_of cands (some hit) start_idx
          ≡ (some i, "cache_hit"))
        × OnHit hit cands i c
        × (any (λ d. str_eq d.backend_id hit.backend && str_eq d.model_name hit.canonical) cands
              ≡ true
            → c.model_name ≡ hit.canonical)
  unfolding select_backend hit_choice
  select_backend-hit [] hit start_idx u = ground arith
  select_backend-hit (x ∷ xs) hit start_idx u = elim (Option-cases (hit_from hit 0 none (x ∷ xs))) [
    | inl e ↦ ground (arith, hit_from-none hit 0 none (x ∷ xs) e)
    | inr (i, e) ↦ elim (hit_from-OnHit hit 0 none (x ∷ xs) i e) [
      | inl bad ↦ ground arith
      | inr (k, c, same, on) ↦ (
        k,
        c,
        ground arith,
        on,
        λ a.
            let (m, d, e', on', model) = hit_from-model hit 0 none (x ∷ xs) a in
            let at : m ≡ k = ground arith in
            ap (λ z. z.model_name)
              (same_candidate (x ∷ xs) k c d on.0
                (subst (λ z. get_elem? (x ∷ xs) z ≡ some d) at on'.0))
            ∙ model,
      )
    ]
  ]

  -- Every candidate's queue is at the cap.
  abbrev pub AllFull : List CandidateBackend → Type 0
  AllFull cands =
      (i : ℕ) (c : CandidateBackend)
      → get_elem? cands i ≡ some c
      → cfg.backend_queue_max ≤ pending_of c.backend_id

  closed-full :
      (cands : List CandidateBackend) (hit : String) → IsLeast cands hit true none → AllFull cands
  closed-full cands hit l i c e = let closed = l i (lt-get_elem? cands i c e) in ground arith

  full-closed :
      (cands : List CandidateBackend) (hit : String) (allow : Bool) (i : ℕ)
      → AllFull cands
      → IsLeast cands hit allow (some i)
      → ⊥
  full-closed cands hit allow i full (hi, o, _) =
      let (c, e) = get_elem?_lt cands i hi in let f = full i c e in ground arith

  not_usable_of_full :
      (cands : List CandidateBackend) (hit : Option HitInfo)
      → cfg.cache_hit_queue_limit ≤ cfg.backend_queue_max
      → AllFull cands
      → hit_usable cands hit ≡ false
  not_usable_of_full cands none l full = refl
  not_usable_of_full cands (some hit) l full = elim (Bool-cases (hit_usable cands (some hit))) [
    | inr f ↦ f
    | inl t ↦
        let (i, c, e, on, _) = select_backend-hit cands hit 0 t in
        let f = full i c on.0 in ground arith
  ]

  IsFallback-none_iff :
      (cands : List CandidateBackend) (hit : String) (b : Bool) (r : Option ℕ)
      → IsFallback cands hit b r
      → (r ≡ none) ↔ AllFull cands
  IsFallback-none_iff cands hit b none (inl (l, some_r)) = absurd (some_r refl)
  IsFallback-none_iff cands hit b none (inr (_, l)) = (λ _. closed-full cands hit l, λ _. refl)
  IsFallback-none_iff cands hit b (some i) (inl (l, _)) =
      (λ h. ground arith, λ full. absurd (full-closed cands hit (not b) i full l))
  IsFallback-none_iff cands hit b (some i) (inr (_, l)) =
      (λ h. ground arith, λ full. absurd (full-closed cands hit true i full l))

  -- No backend is found exactly when every candidate's queue is at the cap, as long as the limit
  -- for cache hits is not above the cap.
  pub select_backend-none_iff :
      (cands : List CandidateBackend) (hit : Option HitInfo) (start_idx : ℕ)
      → cfg.cache_hit_queue_limit ≤ cfg.backend_queue_max
      → ((select_backend cfg pending_of cands hit start_idx).0 ≡ none) ↔ AllFull cands
  unfolding select_backend
  select_backend-none_iff [] hit start_idx l = (λ _ i c e. ground arith, λ _. refl)
  select_backend-none_iff (x ∷ xs) none start_idx l =
      IsFallback-none_iff (x ∷ xs) "" false _
        (select_backend-IsFallback (x ∷ xs) none start_idx (omega arith) refl)
  select_backend-none_iff (x ∷ xs) (some hit) start_idx l =
      elim (Bool-cases (hit_usable (x ∷ xs) (some hit))) [
        | inl t ↦
            let (i, c, e, _, _) = select_backend-hit (x ∷ xs) hit start_idx t in
            (
              λ h. ground arith,
              λ full. let f = not_usable_of_full (x ∷ xs) (some hit) l full in ground arith,
            )
        | inr f ↦
            IsFallback-none_iff (x ∷ xs) hit.backend (has_hit (some hit)) _
              (select_backend-IsFallback (x ∷ xs) (some hit) start_idx (omega arith) f)
      ]
