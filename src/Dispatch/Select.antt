-- ===== src/Dispatch/Select.antt =====
-- The fallback of `SelectBackend` (matcher.go): the visiting order and the least-loaded choice.
use proxycache.Base.{
  ℕ, zero, suc, ◌+◌, ◌-◌, ◌%◌, ◌≤◌, ◌<◌, ◌≡◌, refl, sym, ap, ◌∙◌, subst, inl, inr, String, Bool,
  true, false, not, ◌&&◌, Option, none, some, List, [], ◌∷◌, ◌++◌, arith, All, All-append, ltb, leb,
  if◌then◌else◌, str_eq, Bool-cases,
}
use native.Mathlib.Nat.{mod-eq_of_lt, add-mod_right}
use proxycache.Config.{Config}
use proxycache.Dispatch.{CandidateBackend, backend_at, visits, first_other, pick_step, pick_from}

visits-at {ℓ} :
    (P : ℕ → Type ℓ) (n start k rounds m : ℕ)
    → k ≤ m
    → m < k + rounds
    → All P (visits n start k rounds)
    → P ((start + m) % n)
unfolding visits
visits-at P n start k zero m l h a = absurd (omega arith)
visits-at P n start k (suc rounds) m l h a = elim (Bool-cases (leb m k)) [
  | inl t ↦ let same : k ≡ m = ground arith in subst (λ j. P ((start + j) % n)) same a.0
  | inr f ↦ visits-at P n start (suc k) rounds m (ground arith) (omega arith) a.1
]

-- Every index is visited.
pub visits-All {ℓ} :
    (P : ℕ → Type ℓ) (n start i : ℕ) → start < n → i < n → All P (visits n start 0 n) → P i
visits-All P n start i hs hi a = elim (Bool-cases (leb start i)) [
  | inl t ↦
      let e : start + (i - start) ≡ i = ground arith in
      subst P (ap (λ j. j % n) e ∙ mod-eq_of_lt hi)
        (visits-at P n start 0 n (i - start) (omega arith) (omega arith) a)
  | inr f ↦
      let gap : i < start = ground arith in
      let e : start + (i + n - start) ≡ i + n = omega arith in
      subst P (ap (λ j. j % n) e ∙ add-mod_right i n ∙ mod-eq_of_lt hi)
        (visits-at P n start 0 n (i + n - start) (omega arith) (omega arith) a)
]

-- Only indices are visited.
pub visits-bounds : (n start k rounds : ℕ) → 0 < n → All (λ i. i < n) (visits n start k rounds)
unfolding visits
visits-bounds n start k zero h = tt
visits-bounds n start k (suc rounds) h = (omega arith, visits-bounds n start (suc k) rounds h)

pub first_other-bounds :
    (cands : List CandidateBackend) (hit : String) (n start : ℕ) (order : List ℕ)
    → start < n
    → All (λ i. i < n) order
    → first_other cands hit start order < n
unfolding first_other
first_other-bounds cands hit n start [] h a = h
first_other-bounds cands hit n start (i ∷ is) h a =
    ground (arith, first_other-bounds cands hit n start is h a.1)

-- The first of the least-loaded open candidates in the order, or none when none is open.
abbrev pub IsPick : (ℕ → Bool) → (ℕ → ℕ) → List ℕ → Option (ℕ × ℕ) → Type 0
IsPick free depth order none = All (λ j. free j ≡ false) order
IsPick free depth order (some (i, d)) =
    (before : List ℕ) × (after : List ℕ) × (order ≡ before ++ i ∷ after)
    × (free i ≡ true)
    × (d ≡ depth i)
    × All (λ j. free j ≡ true → depth i < depth j) before
    × All (λ j. free j ≡ true → depth i ≤ depth j) after

closed-vacuous :
    (free : ℕ → Bool) (P : ℕ → Type 0) (order : List ℕ)
    → All (λ j. free j ≡ false) order
    → All (λ j. free j ≡ true → P j) order
closed-vacuous free P [] a = tt
closed-vacuous free P (j ∷ js) a = (λ h. ground arith, closed-vacuous free P js a.1)

deeper :
    (free : ℕ → Bool) (depth : ℕ → ℕ) (a b : ℕ) (order : List ℕ)
    → a < b
    → All (λ j. free j ≡ true → b ≤ depth j) order
    → All (λ j. free j ≡ true → a < depth j) order
deeper free depth a b [] h all = tt
deeper free depth a b (j ∷ js) h all =
    (λ o. let k = all.0 o in omega arith, deeper free depth a b js h all.1)

weaker :
    (free : ℕ → Bool) (depth : ℕ → ℕ) (b : ℕ) (order : List ℕ)
    → All (λ j. free j ≡ true → b < depth j) order
    → All (λ j. free j ≡ true → b ≤ depth j) order
weaker free depth b [] all = tt
weaker free depth b (j ∷ js) all =
    (λ o. let k = all.0 o in omega arith, weaker free depth b js all.1)

-- A picked candidate is no deeper than any open one in the order.
pub IsPick-least :
    (free : ℕ → Bool) (depth : ℕ → ℕ) (order : List ℕ) (i d : ℕ)
    → IsPick free depth order (some (i, d))
    → All (λ j. free j ≡ true → depth i ≤ depth j) order
IsPick-least free depth order i d (before, after, e, o, ed, lo, hi) =
    subst (All (λ j. free j ≡ true → depth i ≤ depth j)) (sym e) (
      All-append _ before (i ∷ after) (weaker free depth (depth i) before lo)
        (λ _. omega arith, hi))

-- One round on the best index so far.
abbrev step : (ℕ → Bool) → (ℕ → ℕ) → Option (ℕ × ℕ) → ℕ → Option (ℕ × ℕ)
step free depth none i = if free i then some (i, depth i) else none
step free depth (some (j, d)) i =
    if free i && ltb (depth i) d then some (i, depth i) else some (j, d)

append_assoc : (xs ys : List ℕ) (y i : ℕ) → (xs ++ y ∷ ys) ++ i ∷ [] ≡ xs ++ y ∷ (ys ++ i ∷ [])
append_assoc [] ys y i = refl
append_assoc (x ∷ xs) ys y i = ap (λ zs. x ∷ zs) (append_assoc xs ys y i)

step-IsPick :
    (free : ℕ → Bool) (depth : ℕ → ℕ) (seen : List ℕ) (best : Option (ℕ × ℕ)) (i : ℕ)
    → IsPick free depth seen best
    → IsPick free depth (seen ++ i ∷ []) (step free depth best i)
step-IsPick free depth seen none i p = elim (Bool-cases (free i)) [
  | inl t ↦
      let e : some (i, depth i) ≡ step free depth none i = ground arith in
      subst (IsPick free depth (seen ++ i ∷ [])) e
        (seen, [], refl, t, refl, closed-vacuous free _ seen p, tt)
  | inr f ↦
      let e : none ≡ step free depth none i = ground arith in
      subst (IsPick free depth (seen ++ i ∷ [])) e (All-append _ seen (i ∷ []) p (f, tt))
]
step-IsPick free depth seen (some (j, d)) i (before, after, e, o, ed, lo, hi) =
    elim (Bool-cases (free i && ltb (depth i) d)) [
      | inl t ↦
          let same : some (i, depth i) ≡ step free depth (some (j, d)) i = ground arith in
          subst (IsPick free depth (seen ++ i ∷ [])) same (
            seen,
            [],
            refl,
            ground arith,
            refl,
            deeper free depth (depth i) (depth j) seen (ground arith)
                (IsPick-least free depth seen j d (before, after, e, o, ed, lo, hi)),
            tt,
          )
      | inr f ↦
          let same : some (j, d) ≡ step free depth (some (j, d)) i = ground arith in
          subst (IsPick free depth (seen ++ i ∷ [])) same (
            before,
            after ++ i ∷ [],
            ap (λ xs. xs ++ i ∷ []) e ∙ append_assoc before after j i,
            o,
            ed,
            lo,
            All-append _ after (i ∷ []) hi (λ h. ground arith, tt),
          )
    ]

append_middle : (xs ys : List ℕ) (y : ℕ) → (xs ++ y ∷ []) ++ ys ≡ xs ++ y ∷ ys
append_middle [] ys y = refl
append_middle (x ∷ xs) ys y = ap (λ zs. x ∷ zs) (append_middle xs ys y)

append_nil : (xs : List ℕ) → xs ++ [] ≡ xs
append_nil [] = refl
append_nil (x ∷ xs) = ap (λ zs. x ∷ zs) (append_nil xs)

module _ {F : Type 0} (cfg : Config F) (pending_of : String → ℕ) where
  -- A candidate that a pass may take: not on the hit backend where that is barred, with room.
  abbrev pub is_open : List CandidateBackend → String → Bool → ℕ → Bool
  is_open cands hit allow_hit i =
      not (not allow_hit && str_eq (backend_at cands i) hit)
      && ltb (pending_of (backend_at cands i)) cfg.backend_queue_max

  abbrev pub depth_at : List CandidateBackend → ℕ → ℕ
  depth_at cands i = pending_of (backend_at cands i)

  pick_step-step :
      (cands : List CandidateBackend) (hit : String) (allow : Bool) (best : Option (ℕ × ℕ)) (i : ℕ)
      → step (is_open cands hit allow) (depth_at cands) best i
        ≡ pick_step cfg pending_of cands hit allow best i
  unfolding pick_step
  pick_step-step cands hit allow none i = ground arith
  pick_step-step cands hit allow (some (j, d)) i = ground arith

  pick_from-seen :
      (cands : List CandidateBackend) (hit : String) (allow : Bool) (best : Option (ℕ × ℕ))
      (seen order : List ℕ)
      → IsPick (is_open cands hit allow) (depth_at cands) seen best
      → IsPick
          (is_open cands hit allow)
          (depth_at cands)
          (seen ++ order)
          (pick_from cfg pending_of cands hit allow best order)
  unfolding pick_from
  pick_from-seen cands hit allow best seen [] p =
      subst (λ o. IsPick (is_open cands hit allow) (depth_at cands) o best) (sym (append_nil seen))
        p
  pick_from-seen cands hit allow best seen (i ∷ is) p =
      subst
        (λ o. IsPick (is_open cands hit allow) (depth_at cands) o (
          pick_from cfg pending_of cands hit allow (pick_step cfg pending_of cands hit allow best i)
            is))
        (append_middle seen is i)
        (pick_from-seen cands hit allow (pick_step cfg pending_of cands hit allow best i)
          (seen ++ i ∷ []) is
          (subst (IsPick (is_open cands hit allow) (depth_at cands) (seen ++ i ∷ []))
            (pick_step-step cands hit allow best i)
            (step-IsPick (is_open cands hit allow) (depth_at cands) seen best i p)))

  -- A pass picks the first of the least-loaded open candidates in its order, and none exactly when
  -- no candidate of the order is open.
  pub pick_from-IsPick :
      (cands : List CandidateBackend) (hit : String) (allow : Bool) (order : List ℕ)
      → IsPick
          (is_open cands hit allow)
          (depth_at cands)
          order
          (pick_from cfg pending_of cands hit allow none order)
  pick_from-IsPick cands hit allow order = pick_from-seen cands hit allow none [] order tt
