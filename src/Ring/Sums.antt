-- ===== src/Ring/Sums.antt =====
-- Sums of the sizes in the cache ring of slotmanager.go, over the loops that change them.
use proxycache.Base.{
  ℤ, pos, ◌+ℤ◌, int_laws, ◌≡◌, refl, inl, inr, sym, subst, ◌||◌, ◌∙◌, ◌⊎◌, String, false, not, List,
  [], ◌∷◌, ◌++◌, keep, Map, insert, arith, string_eq, Bool-cases,
}
use mathlib.Core.List.{append_assoc, append-nil}
use proxycache.Meta.{get_blocks}
use proxycache.Ring.{
  RingEntry, Ring, RingEnv, has_string, has_key, delete_entry, prune_from, remove_from,
}

blocks_cases :
    (bs : List String) → (bs ≡ []) ⊎ ((b : String) × (rest : List String) × (bs ≡ b ∷ rest))
blocks_cases [] = inl refl
blocks_cases (b ∷ rest) = inr (b, rest, refl)

module _ {F : Type 0} where
  unfoldable pub sum_sizes : List (RingEntry F) → ℤ
  sum_sizes [] = pos 0
  sum_sizes (e ∷ es) = e.size +ℤ sum_sizes es

  pub sum_sizes-append :
      (xs ys : List (RingEntry F)) → sum_sizes (xs ++ ys) ≡ sum_sizes xs +ℤ sum_sizes ys
  unfolding sum_sizes
  sum_sizes-append [] ys = omega int_laws
  sum_sizes-append (x ∷ xs) ys = let ih = sum_sizes-append xs ys in omega int_laws

  -- The entries that an eviction of the keys leaves, in order.
  abbrev pub without : List String → List (RingEntry F) → List (RingEntry F)
  without keys es = keep (λ e. not (has_string e.key keys)) es

  pub remove_from-ring :
      (env : RingEnv F) (keys : List String) (remaining es : List (RingEntry F)) (r : Ring F)
      → (remove_from env keys remaining es r).cache_ring ≡ remaining ++ without keys es
  unfolding remove_from
  remove_from-ring env keys remaining [] r = sym (append-nil remaining)
  remove_from-ring env keys remaining (e ∷ es) r = elim (Bool-cases (has_string e.key keys)) [
    | inl t ↦ rw (t, remove_from) (remove_from-ring env keys remaining es _ ∙ ground arith)
    | inr f ↦
        rw (f, remove_from)
          (remove_from-ring env keys (remaining ++ e ∷ []) es r
            ∙ append_assoc remaining (e ∷ []) (without keys es)
            ∙ ground arith)
  ]

  pub remove_from-total :
      (env : RingEnv F) (keys : List String) (remaining es : List (RingEntry F)) (r : Ring F)
      → r.total_bytes ≡ sum_sizes remaining +ℤ sum_sizes es
      → (remove_from env keys remaining es r).total_bytes
        ≡ sum_sizes (remove_from env keys remaining es r).cache_ring
  unfolding remove_from sum_sizes delete_entry
  remove_from-total env keys remaining [] r h = omega int_laws
  remove_from-total env keys remaining (e ∷ es) r h = elim (Bool-cases (has_string e.key keys)) [
    | inl t ↦ rw (t, remove_from) (remove_from-total env keys remaining es _ (omega int_laws))
    | inr f ↦
        rw (f, remove_from)
          (remove_from-total env keys (remaining ++ e ∷ []) es r
            (let split = sum_sizes-append remaining (e ∷ []) in omega int_laws))
  ]

  -- The loop of `pruneOrphans` keeps the books: what leaves the ring leaves the total.
  pub prune_from-total :
      (env : RingEnv F) (blocks : Map String (List String)) (valid es : List (RingEntry F))
      (r : Ring F)
      → r.total_bytes ≡ sum_sizes valid +ℤ sum_sizes es
      → (prune_from env blocks valid es r).2.total_bytes
        ≡ sum_sizes (prune_from env blocks valid es r).1
  unfolding prune_from sum_sizes delete_entry
  prune_from-total env blocks valid [] r h = omega int_laws
  prune_from-total env blocks valid (e ∷ es) r h =
      elim (blocks_cases (get_blocks r.metas e.key env.backend_id)) [
        | inl none_left ↦
            rw (none_left, prune_from) (prune_from-total env blocks valid es _ (omega int_laws))
        | inr (b, bs, some_left) ↦
            rw (some_left, prune_from)
              (prune_from-total env (insert e.key (b ∷ bs) blocks) (valid ++ e ∷ []) es r
                (let split = sum_sizes-append valid (e ∷ []) in omega int_laws))
      ]

  -- No two entries have one key.
  abbrev pub DistinctKeys : List (RingEntry F) → Type 0
  DistinctKeys [] = Unit {0}
  DistinctKeys (e ∷ es) = (has_key e.key es ≡ false) × DistinctKeys es

  pub has_key-append :
      (k : String) (xs ys : List (RingEntry F))
      → has_key k (xs ++ ys) ≡ has_key k xs || has_key k ys
  has_key-append k [] ys = refl
  has_key-append k (x ∷ xs) ys = ground (arith, has_key-append k xs ys)

  -- Dropping the entry in the middle keeps the keys distinct.
  pub DistinctKeys-middle :
      (xs : List (RingEntry F)) (e : RingEntry F) (ys : List (RingEntry F))
      → DistinctKeys (xs ++ e ∷ ys)
      → DistinctKeys (xs ++ ys)
  DistinctKeys-middle [] e ys d = d.1
  DistinctKeys-middle (x ∷ xs) e ys d = (
    ground (arith, has_key-append x.key xs ys, has_key-append x.key xs (e ∷ ys)),
    DistinctKeys-middle xs e ys d.1,
  )

  pub prune_from-DistinctKeys :
      (env : RingEnv F) (blocks : Map String (List String)) (valid es : List (RingEntry F))
      (r : Ring F)
      → DistinctKeys (valid ++ es)
      → DistinctKeys (prune_from env blocks valid es r).1
  unfolding prune_from delete_entry
  prune_from-DistinctKeys env blocks valid [] r d = subst DistinctKeys (append-nil valid) d
  prune_from-DistinctKeys env blocks valid (e ∷ es) r d =
      elim (blocks_cases (get_blocks r.metas e.key env.backend_id)) [
        | inl none_left ↦
            rw (none_left, prune_from)
              (prune_from-DistinctKeys env blocks valid es _ (DistinctKeys-middle valid e es d))
        | inr (b, bs, some_left) ↦
            rw (some_left, prune_from)
              (prune_from-DistinctKeys env (insert e.key (b ∷ bs) blocks) (valid ++ e ∷ []) es r
                (subst DistinctKeys (sym (append_assoc valid (e ∷ []) es)) d))
      ]
