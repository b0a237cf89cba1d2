-- ===== src/Dispatch/Rotation.antt =====
-- `SelectBackend` of matcher.go among equally loaded candidates.
use proxycache.Base.{
  ℕ, zero, suc, ◌+◌, ◌%◌, ◌<◌, ◌≡◌, refl, ap, ◌∙◌, subst, String, Bool, true, Option, none, some,
  List, [], ◌∷◌, arith, All, length,
}
use native.Mathlib.Nat.{mod-eq_of_lt}
use proxycache.Config.{Config}
use proxycache.Dispatch.{
  CandidateBackend, visits, pick_from, fallback, start_of, hit_choice, select_backend,
}
use proxycache.Dispatch.Select.{visits-bounds, IsPick, is_open, depth_at, pick_from-IsPick}
use proxycache.Dispatch.Hits.{All-middle}

module _ {F : Type 0} (cfg : Config F) (pending_of : String → ℕ) where
  index-depth :
      (cands : List CandidateBackend) (depth j : ℕ)
      → All (λ c. pending_of c.backend_id ≡ depth) cands
      → j < length cands
      → depth_at cfg pending_of cands j ≡ depth
  index-depth [] depth j a h = absurd (omega arith)
  index-depth (x ∷ xs) depth zero a h = a.0
  index-depth (x ∷ xs) depth (suc j) a h = index-depth xs depth j a.1 (omega arith)

  visits-depth :
      (cands : List CandidateBackend) (depth : ℕ) (order : List ℕ)
      → All (λ c. pending_of c.backend_id ≡ depth) cands
      → All (λ j. j < length cands) order
      → All (λ j. depth_at cfg pending_of cands j ≡ depth) order
  visits-depth cands depth [] a h = tt
  visits-depth cands depth (j ∷ js) a h =
      (index-depth cands depth j a h.0, visits-depth cands depth js a h.1)

  -- Where all candidates of the order are equally deep, the first open one at its head is picked.
  uniform-head :
      (free : ℕ → Bool) (depth : ℕ → ℕ) (d x : ℕ) (xs : List ℕ) (best : Option (ℕ × ℕ))
      → free x ≡ true
      → All (λ j. depth j ≡ d) (x ∷ xs)
      → IsPick free depth (x ∷ xs) best
      → (e : ℕ) × (best ≡ some (x, e))
  uniform-head free depth d x xs none o a p = ground arith
  uniform-head free depth d x xs (some (i, e)) o a ([], after, same, _, _, _, _) = (e, ground arith)
  uniform-head free depth d x xs (some (i, e)) o a (y ∷ ys, after, same, _, _, lo, _) =
      let at_i =
        All-middle (λ j. depth j ≡ d) (y ∷ ys) after i (subst (All (λ j. depth j ≡ d)) same a) in
      let head : y ≡ x = ground arith in
      let less = lo.0 (ap free head ∙ o) in
      let at_y : depth y ≡ d = ap depth head ∙ a.0 in absurd (omega arith)

  visits-head : (n start m : ℕ) → start < n → visits n start 0 (suc m) ≡ start ∷ visits n start 1 m
  unfolding visits
  visits-head n start m h =
      let right : start + 0 ≡ start = omega arith in
      let at : (start + 0) % n ≡ start = ap (λ j. j % n) right ∙ mod-eq_of_lt h in rw at refl

  fallback-rotation :
      (c : CandidateBackend) (cs : List CandidateBackend) (start depth : ℕ)
      → start < suc (length cs)
      → depth < cfg.backend_queue_max
      → All (λ x. pending_of x.backend_id ≡ depth) (c ∷ cs)
      → fallback cfg pending_of (c ∷ cs) none start ≡ (some start, "fallback_round_robin")
  unfolding fallback
  fallback-rotation c cs start depth h l a =
      let n = suc (length cs) in
      let head = visits-head n start (length cs) h in
      let deep =
        visits-depth (c ∷ cs) depth (visits n start 0 n) a
          (visits-bounds n start 0 n (omega arith)) in
      let at = index-depth (c ∷ cs) depth start a h in
      let room : is_open cfg pending_of (c ∷ cs) "" true start ≡ true = ground arith in
      let (e, picked) =
        uniform-head (is_open cfg pending_of (c ∷ cs) "" true) (depth_at cfg pending_of (c ∷ cs))
          depth start (visits n start 1 (length cs))
          (pick_from cfg pending_of (c ∷ cs) "" true none (visits n start 0 n)) room
          (subst (All (λ j. depth_at cfg pending_of (c ∷ cs) j ≡ depth)) head deep)
          (subst
            (λ o.
              IsPick (is_open cfg pending_of (c ∷ cs) "" true) (depth_at cfg pending_of (c ∷ cs)) o
                (pick_from cfg pending_of (c ∷ cs) "" true none (visits n start 0 n)))
            head (pick_from-IsPick cfg pending_of (c ∷ cs) "" true (visits n start 0 n))) in
      rw (picked, fallback) refl

  -- Without a hit, candidates whose queues are equally long and below the cap are taken in
  -- rotation from the starting index.
  pub select_backend-rotation :
      (cands : List CandidateBackend) (start_idx depth : ℕ)
      → 0 < length cands
      → depth < cfg.backend_queue_max
      → All (λ c. pending_of c.backend_id ≡ depth) cands
      → select_backend cfg pending_of cands none start_idx
        ≡ (some (start_idx % length cands), "fallback_round_robin")
  unfolding select_backend start_of hit_choice
  select_backend-rotation [] start_idx depth h l a = absurd (omega arith)
  select_backend-rotation (c ∷ cs) start_idx depth h l a =
      fallback-rotation c cs (start_idx % suc (length cs)) depth (omega arith) l a
