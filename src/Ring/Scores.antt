-- ===== src/Ring/Scores.antt =====
-- `scoreEntries` of slotmanager.go: the scored keys and their order.
use proxycache.Base.{
  ℕ, suc, ◌≡◌, refl, String, Bool, false, ◌||◌, List, [], ◌∷◌, Map, arith, str_eq, str_eq_iff,
  FloatOps, FloatLaws,
}
use proxycache.Ring.{
  RingEntry, RingScored, has_key, entry_score, insert_scored, score_from, score_entries,
}
use proxycache.Ring.Sums.{DistinctKeys}

module _ {F : Type 0} where
  abbrev pub has_scored : String → List (RingScored F) → Bool
  has_scored k [] = false
  has_scored k (s ∷ ss) = str_eq s.key k || has_scored k ss

  abbrev pub DistinctScored : List (RingScored F) → Type 0
  DistinctScored [] = Unit {0}
  DistinctScored (s ∷ ss) = (has_scored s.key ss ≡ false) × DistinctScored ss

  -- No entry's key is among the scored ones.
  abbrev Unscored : List (RingScored F) → List (RingEntry F) → Type 0
  Unscored scored [] = Unit {0}
  Unscored scored (e ∷ es) = (has_scored e.key scored ≡ false) × Unscored scored es

  -- Scores fall along the list.
  abbrev pub WorstFirst : FloatOps F → List (RingScored F) → Type 0
  WorstFirst fl [] = Unit {0}
  WorstFirst fl (s ∷ []) = Unit {0}
  WorstFirst fl (s ∷ t ∷ ss) = (fl.lt s.score t.score ≡ false) × WorstFirst fl (t ∷ ss)

module _ {F : Type 0} ⦃fl : FloatOps F⦄ where
  has_scored-insert :
      (k : String) (x : RingScored F) (ys : List (RingScored F))
      → has_scored k (insert_scored x ys) ≡ str_eq x.key k || has_scored k ys
  unfolding insert_scored
  has_scored-insert k x [] = refl
  has_scored-insert k x (y ∷ ys) = ground (arith, has_scored-insert k x ys)

  DistinctScored-insert :
      (x : RingScored F) (ys : List (RingScored F))
      → has_scored x.key ys ≡ false
      → DistinctScored ys
      → DistinctScored (insert_scored x ys)
  unfolding insert_scored
  DistinctScored-insert x [] h d = (refl, tt)
  DistinctScored-insert x (y ∷ ys) h d = ground (
    arith,
    has_scored-insert y.key x ys,
    DistinctScored-insert x ys,
    str_eq_iff x.key y.key,
    str_eq_iff y.key x.key,
  )

  entry_score-key :
      (m : Map String (List String)) (ring : List (RingEntry F)) (now : F) (i : ℕ) (e : RingEntry F)
      → (entry_score m ring now i e).key ≡ e.key
  unfolding entry_score
  entry_score-key m ring now i e = refl

  has_scored-score_from :
      (m : Map String (List String)) (ring : List (RingEntry F)) (now : F) (k : String)
      (scored : List (RingScored F)) (i : ℕ) (es : List (RingEntry F))
      → has_scored k (score_from m ring now scored i es) ≡ has_scored k scored || has_key k es
  unfolding score_from
  has_scored-score_from m ring now k scored i [] = ground arith
  has_scored-score_from m ring now k scored i (e ∷ es) = ground (
    arith,
    has_scored-score_from m ring now k (insert_scored (entry_score m ring now i e) scored) (suc i)
        es,
    has_scored-insert k (entry_score m ring now i e) scored,
    entry_score-key m ring now i e,
  )

  Unscored-insert :
      (x : RingScored F) (scored : List (RingScored F)) (es : List (RingEntry F))
      → has_key x.key es ≡ false
      → Unscored scored es
      → Unscored (insert_scored x scored) es
  Unscored-insert x scored [] h u = tt
  Unscored-insert x scored (e ∷ es) h u = (
    ground
        (arith, has_scored-insert e.key x scored, str_eq_iff x.key e.key, str_eq_iff e.key x.key),
    Unscored-insert x scored es (ground arith) u.1,
  )

  DistinctScored-score_from :
      (m : Map String (List String)) (ring : List (RingEntry F)) (now : F)
      (scored : List (RingScored F)) (i : ℕ) (es : List (RingEntry F))
      → DistinctScored scored
      → Unscored scored es
      → DistinctKeys es
      → DistinctScored (score_from m ring now scored i es)
  unfolding score_from
  DistinctScored-score_from m ring now scored i [] d u k = d
  DistinctScored-score_from m ring now scored i (e ∷ es) d u k =
      let x = entry_score m ring now i e in
      let same : x.key ≡ e.key = entry_score-key m ring now i e in
      DistinctScored-score_from m ring now (insert_scored x scored) (suc i) es
        (DistinctScored-insert x scored (ground arith) d)
        (Unscored-insert x scored es (ground arith) u.1) k.1

  Unscored-nil : (es : List (RingEntry F)) → Unscored [] es
  Unscored-nil [] = tt
  Unscored-nil (e ∷ es) = (refl, Unscored-nil es)

  -- Every key of the ring is scored, and no other.
  pub has_scored-score_entries :
      (ring : List (RingEntry F)) (m : Map String (List String)) (now : F) (k : String)
      → has_scored k (score_entries ring m now) ≡ has_key k ring
  unfolding score_entries
  has_scored-score_entries ring m now k = has_scored-score_from m ring now k [] 0 ring

  -- A ring with distinct keys has each key scored once.
  pub score_entries-DistinctScored :
      (ring : List (RingEntry F)) (m : Map String (List String)) (now : F)
      → DistinctKeys ring
      → DistinctScored (score_entries ring m now)
  unfolding score_entries
  score_entries-DistinctScored ring m now d =
      DistinctScored-score_from m ring now [] 0 ring tt (Unscored-nil ring) d

  insert_scored-WorstFirst :
      (laws : FloatLaws fl) (x : RingScored F) (ys : List (RingScored F))
      → WorstFirst fl ys
      → WorstFirst fl (insert_scored x ys)
  unfolding insert_scored
  insert_scored-WorstFirst laws x [] w = tt
  insert_scored-WorstFirst laws x (y ∷ []) w =
      ground (arith, laws.le_of_lt y.score x.score, laws.not-lt_of_le y.score x.score)
  insert_scored-WorstFirst laws x (y ∷ z ∷ zs) w = ground (
    arith,
    laws.le_of_lt y.score x.score,
    laws.not-lt_of_le y.score x.score,
    insert_scored-WorstFirst laws x (z ∷ zs) w.1,
  )

  score_from-WorstFirst :
      (laws : FloatLaws fl) (m : Map String (List String)) (ring : List (RingEntry F)) (now : F)
      (scored : List (RingScored F)) (i : ℕ) (es : List (RingEntry F))
      → WorstFirst fl scored
      → WorstFirst fl (score_from m ring now scored i es)
  unfolding score_from
  score_from-WorstFirst laws m ring now scored i [] w = w
  score_from-WorstFirst laws m ring now scored i (e ∷ es) w =
      score_from-WorstFirst laws m ring now (insert_scored (entry_score m ring now i e) scored)
        (suc i) es (insert_scored-WorstFirst laws (entry_score m ring now i e) scored w)

  -- Where float comparison obeys the laws of `FloatLaws`, the list that `scoreEntries` gives runs
  -- from the highest score, which is evicted first, down.
  pub score_entries-WorstFirst :
      FloatLaws fl
      → (ring : List (RingEntry F)) (m : Map String (List String)) (now : F)
      → WorstFirst fl (score_entries ring m now)
  unfolding score_entries
  score_entries-WorstFirst laws ring m now = score_from-WorstFirst laws m ring now [] 0 ring tt
