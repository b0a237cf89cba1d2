-- ===== src/Ring/Budget.antt =====
-- What `EvictIfNeeded` of slotmanager.go does to the ring's total.
use proxycache.Base.{
  ℤ, ◌-ℤ◌, int_laws, ◌≡◌, refl, sym, subst, ap, ◌⊎◌, inl, inr, ◌∙◌, String, Bool, true, false, ◌||◌,
  List, [], ◌∷◌, All, Map, length, eqb, arith, if◌then◌else◌, str_eq, str_eq_iff, Bool-cases,
  FloatOps,
}
use proxycache.Ring.{
  RingEntry, RingScored, Ring, RingEnv, has_key, has_string, size_of, remove_from, fits,
  keys_to_evict, score_entries,
}
use proxycache.Ring.Evict.{evict_scored, evict_if_needed}
use proxycache.Ring.Sums.{sum_sizes, without, DistinctKeys, remove_from-total, remove_from-ring}
use proxycache.Ring.Accounts.{RingInv, sum_from_nil, pruned-RingInv, evict_if_needed-RingInv}
use proxycache.Ring.Scores.{
  has_scored, DistinctScored, has_scored-score_entries, score_entries-DistinctScored,
}

module _ {F : Type 0} where
  -- A key that no entry has changes nothing.
  without_absent :
      (k : String) (keys : List String) (es : List (RingEntry F))
      → has_key k es ≡ false
      → without (k ∷ keys) es ≡ without keys es
  without_absent k keys [] h = refl
  without_absent k keys (e ∷ es) h =
      ground (arith, without_absent k keys es, str_eq_iff k e.key, str_eq_iff e.key k)

  -- One more key takes the size of its entry off the rest.
  sum_sizes-without :
      (k : String) (keys : List String) (es : List (RingEntry F))
      → DistinctKeys es
      → has_string k keys ≡ false
      → sum_sizes (without (k ∷ keys) es) ≡ sum_sizes (without keys es) -ℤ size_of k es
  unfolding sum_sizes size_of
  sum_sizes-without k keys [] d h = omega int_laws
  sum_sizes-without k keys (e ∷ es) d h = elim (Bool-cases (str_eq e.key k)) [
    | inl t ↦
        let same : e.key ≡ k = ground (arith, str_eq_iff e.key k) in
        let back : str_eq k e.key ≡ true = ground (arith, str_eq_iff k e.key) in
        let fresh : has_string e.key keys ≡ false = ground arith in
        let rest = without_absent k keys es (ground arith) in
        rw (back, fresh, t, rest) (omega int_laws)
    | inr f ↦
        let back : str_eq k e.key ≡ false =
          ground (arith, str_eq_iff k e.key, str_eq_iff e.key k) in
        let ih = sum_sizes-without k keys es d.1 h in
        elim (Bool-cases (has_string e.key keys)) [
          | inl old ↦ rw (back, f, old) ih
          | inr new ↦ rw (back, f, new) (omega int_laws)
        ]
  ]

  -- Nothing is left of a ring whose keys are all evicted.
  without-All :
      (keys : List String) (es : List (RingEntry F))
      → All (λ e. has_string e.key keys ≡ true) es
      → without keys es ≡ []
  without-All keys [] h = refl
  without-All keys (e ∷ es) h = ground (arith, without-All keys es h.1)

  still_fresh :
      (k : String) (keys : List String) (ss : List (RingScored F))
      → has_scored k ss ≡ false
      → All (λ s. has_string s.key keys ≡ false) ss
      → All (λ s. has_string s.key (k ∷ keys) ≡ false) ss
  still_fresh k keys [] h f = tt
  still_fresh k keys (s ∷ ss) h f = (
    ground (arith, str_eq_iff k s.key, str_eq_iff s.key k),
    still_fresh k keys ss (ground arith) f.1,
  )

  no_string : (ss : List (RingScored F)) → All (λ s. has_string s.key [] ≡ false) ss
  no_string [] = tt
  no_string (s ∷ ss) = (refl, no_string ss)

  scored_string :
      (keys : List String) (k : String) (ss : List (RingScored F))
      → All (λ s. has_string s.key keys ≡ true) ss
      → has_scored k ss ≡ true
      → has_string k keys ≡ true
  scored_string keys k [] a h = ground arith
  scored_string keys k (s ∷ ss) a h =
      ground (arith, str_eq_iff s.key k, scored_string keys k ss a.1)

  without_nil : (es : List (RingEntry F)) → without [] es ≡ es
  without_nil [] = refl
  without_nil (e ∷ es) = ap (◌∷◌ e) (without_nil es)

  has_key-All :
      (P : String → Type 0) (es : List (RingEntry F))
      → ((k : String) → has_key k es ≡ true → P k)
      → All (λ e. P e.key) es
  has_key-All P [] f = tt
  has_key-All P (e ∷ es) f = (
    f e.key (ground (arith, str_eq_iff e.key e.key)),
    has_key-All P es (λ k h. f k (ground arith)),
  )

module _ {F : Type 0} ⦃fl : FloatOps F⦄ where
  keys_to_evict_mono :
      (env : RingEnv F) (ring : List (RingEntry F)) (k : String) (keys : List String) (p : ℤ)
      (scored : List (RingScored F))
      → has_string k keys ≡ true
      → has_string k (keys_to_evict env ring keys p scored) ≡ true
  unfolding keys_to_evict
  keys_to_evict_mono env ring k keys p [] h = h
  keys_to_evict_mono env ring k keys p (s ∷ ss) h =
      ground (arith, keys_to_evict_mono env ring k (s.key ∷ keys) (p -ℤ size_of s.key ring) ss)

  -- The rest fits, or every scored key is taken.
  abbrev Stops : RingEnv F → List (RingEntry F) → List (RingScored F) → List String → Type 0
  Stops env ring scored keys =
      (fits env (sum_sizes (without keys ring)) ≡ true)
      ⊎ All (λ s. has_string s.key keys ≡ true) scored

  keys_to_evict_step :
      (env : RingEnv F) (ring : List (RingEntry F)) (keys : List String) (p : ℤ) (s : RingScored F)
      (ss : List (RingScored F))
      → keys_to_evict env ring keys p (s ∷ ss) ≡ (
          if fits env p
          then keys
          else keys_to_evict env ring (s.key ∷ keys) (p -ℤ size_of s.key ring) ss)
  unfolding keys_to_evict
  keys_to_evict_step env ring keys p s ss = refl

  keys_to_evict-Stops :
      (env : RingEnv F) (ring : List (RingEntry F)) (keys : List String) (p : ℤ)
      (scored : List (RingScored F))
      → DistinctKeys ring
      → DistinctScored scored
      → All (λ s. has_string s.key keys ≡ false) scored
      → p ≡ sum_sizes (without keys ring)
      → Stops env ring scored (keys_to_evict env ring keys p scored)
  keys_to_evict-Stops env ring keys p [] d ds fresh e = inr tt
  keys_to_evict-Stops env ring keys p (s ∷ ss) d ds fresh e =
      subst (Stops env ring (s ∷ ss)) (sym (keys_to_evict_step env ring keys p s ss)) (
        go (fits env p) refl (
          keys_to_evict-Stops env ring (s.key ∷ keys) (p -ℤ size_of s.key ring) ss d ds.1
            (still_fresh s.key keys ss ds.0 fresh.1)
            (rw e (sym (sum_sizes-without s.key keys ring d fresh.0)))))
    where
      more : List String
      more = keys_to_evict env ring (s.key ∷ keys) (p -ℤ size_of s.key ring) ss

      taken : has_string s.key more ≡ true
      taken =
          keys_to_evict_mono env ring s.key (s.key ∷ keys) (p -ℤ size_of s.key ring) ss
            (ground (arith, str_eq_iff s.key s.key))

      go :
          (b : Bool)
          → fits env p ≡ b
          → Stops env ring ss more
          → Stops env ring (s ∷ ss) (if b then keys else more)
      go true t rest = inl (subst (λ z. fits env z ≡ true) e t)
      go false f rest = elim rest [ inl done ↦ inl done | inr all ↦ inr (taken, all) ]

  pub evict_scored-fits :
      (env : RingEnv F) (now : F) (blocks : Map String (List String)) (r : Ring F)
      → RingInv r
      → (fits env (evict_scored env now blocks r).total_bytes ≡ true)
        ⊎ ((evict_scored env now blocks r).cache_ring ≡ [])
  unfolding evict_scored
  evict_scored-fits env now blocks r v =
      elim (Bool-cases (eqb (length r.cache_ring) 0 || fits env r.total_bytes)) [
        | inl t ↦ rw (t, evict_scored) (nothing_to_do r.cache_ring t)
        | inr f ↦
            rw (f, evict_scored)
              (subst (λ z. (fits env z ≡ true) ⊎ (evicted.cache_ring ≡ [])) (sym total)
                (subst (λ es. (fits env (sum_sizes es) ≡ true) ⊎ (es ≡ [])) (sym rest) outcome))
      ]
    where
      ring : List (RingEntry F)
      ring = r.cache_ring

      scored : List (RingScored F)
      scored = score_entries ring blocks now

      keys : List String
      keys = keys_to_evict env ring [] r.total_bytes scored

      evicted : Ring F
      evicted = remove_from env keys [] ring r

      rest : evicted.cache_ring ≡ without keys ring
      rest = remove_from-ring env keys [] ring r

      total : evicted.total_bytes ≡ sum_sizes evicted.cache_ring
      total = remove_from-total env keys [] ring r (sum_from_nil _ ring v.accounted)

      stops : Stops env ring scored keys
      stops =
          keys_to_evict-Stops env ring [] r.total_bytes scored v.distinct
            (score_entries-DistinctScored ring blocks now v.distinct) (no_string scored)
            (v.accounted ∙ ap sum_sizes (sym (without_nil ring)))

      outcome : (fits env (sum_sizes (without keys ring)) ≡ true) ⊎ (without keys ring ≡ [])
      outcome = elim stops [
        | inl done ↦ inl done
        | inr all ↦ inr (
            without-All keys ring (
              has_key-All (λ k. has_string k keys ≡ true) ring
                (λ k h.
                  scored_string keys k scored all
                    (has_scored-score_entries ring blocks now k ∙ h))))
      ]

      nothing_to_do :
          (es : List (RingEntry F))
          → eqb (length es) 0 || fits env r.total_bytes ≡ true
          → (fits env r.total_bytes ≡ true) ⊎ (es ≡ [])
      nothing_to_do [] t = inr refl
      nothing_to_do (e ∷ es) t = inl (ground arith)

  -- On a ring whose total is the sum of the sizes of its entries and whose keys are distinct:
  -- after `EvictIfNeeded` the total is within the backend's budget, or the ring is empty; and the
  -- total is still the sum of the sizes of the entries that are left.
  pub evict_if_needed-fits :
      (env : RingEnv F) (now : F) (r : Ring F)
      → RingInv r
      → let r' = evict_if_needed env now r in
        ((fits env r'.total_bytes ≡ true) ⊎ (r'.cache_ring ≡ []))
        × (r'.total_bytes ≡ sum_sizes r'.cache_ring)
  unfolding evict_if_needed
  evict_if_needed-fits env now r v = (
    elim (Bool-cases (fits env r.total_bytes)) [
      | inl t ↦ rw (t, evict_if_needed) (inl t)
      | inr f ↦ rw (f, evict_if_needed) (evict_scored-fits env now _ _ (pruned-RingInv env r v))
    ],
    (evict_if_needed-RingInv env now r v).accounted,
  )
