-- ===== src/Ring/Accounts.antt =====
-- The books of the cache ring of slotmanager.go: its total and its keys, over each operation.
use proxycache.Base.{
  ℤ, eqb, ◌+ℤ◌, ◌-ℤ◌, int_laws, ◌≡◌, refl, sym, subst, inl, inr, String, Bool, true, false, ◌||◌,
  List, [], ◌∷◌, ◌++◌, keep, Map, length, arith, str_eq, str_eq_iff, string_eq, Bool-cases,
  FloatOps,
}
use proxycache.Meta.{MetaTree}
use proxycache.Ring.{RingEntry, Ring, RingEnv, has_key, size_of, prune_orphans, fits}
use proxycache.Ring.Evict.{evict_scored, evict_if_needed, replace_entry, touch_entry, touch_ring}
use proxycache.Ring.Sums.{
  sum_sizes, sum_sizes-append, DistinctKeys, has_key-append, prune_from-total,
  prune_from-DistinctKeys, remove_from-total, remove_from-ring,
}

pub record RingInv {F : Type 0} (r : Ring F) : Type 0 where
  pub accounted : r.total_bytes ≡ sum_sizes r.cache_ring
  pub distinct : DistinctKeys r.cache_ring

module _ {F : Type 0} where
  pub sum_from_nil :
      (t : ℤ) (es : List (RingEntry F))
      → t ≡ sum_sizes es
      → t ≡ sum_sizes {F = F} [] +ℤ sum_sizes es
  unfolding sum_sizes
  sum_from_nil t es h = omega int_laws

  has_key-keep :
      (p : RingEntry F → Bool) (k : String) (es : List (RingEntry F))
      → has_key k es ≡ false
      → has_key k (keep p es) ≡ false
  has_key-keep p k [] h = refl
  has_key-keep p k (e ∷ es) h = ground (arith, has_key-keep p k es)

  pub DistinctKeys-keep :
      (p : RingEntry F → Bool) (es : List (RingEntry F))
      → DistinctKeys es
      → DistinctKeys (keep p es)
  DistinctKeys-keep p [] d = tt
  DistinctKeys-keep p (e ∷ es) d =
      ground (arith, has_key-keep p e.key es d.0, DistinctKeys-keep p es d.1)

  -- A new key at the end.
  pub DistinctKeys-snoc :
      (es : List (RingEntry F)) (e : RingEntry F)
      → DistinctKeys es
      → has_key e.key es ≡ false
      → DistinctKeys (es ++ e ∷ [])
  DistinctKeys-snoc [] e d h = (refl, tt)
  DistinctKeys-snoc (x ∷ xs) e d h = (
    ground
        (arith, has_key-append x.key xs (e ∷ []), str_eq_iff x.key e.key, str_eq_iff e.key x.key),
    DistinctKeys-snoc xs e d.1 (ground arith),
  )

  pub sum_sizes-snoc :
      (es : List (RingEntry F)) (e : RingEntry F) (t : ℤ)
      → t ≡ sum_sizes es
      → t +ℤ e.size ≡ sum_sizes (es ++ e ∷ [])
  unfolding sum_sizes
  sum_sizes-snoc es e t h = let split = sum_sizes-append es (e ∷ []) in omega int_laws

module _ {F : Type 0} ⦃fl : FloatOps F⦄ where
  evict_scored-RingInv :
      (env : RingEnv F) (now : F) (blocks : Map String (List String)) (r : Ring F)
      → RingInv r
      → RingInv (evict_scored env now blocks r)
  unfolding evict_scored
  evict_scored-RingInv env now blocks r v =
      elim (Bool-cases (eqb (length r.cache_ring) 0 || fits env r.total_bytes)) [
        | inl t ↦ rw (t, evict_scored) v
        | inr f ↦
            rw (f, evict_scored)
              (record {
                accounted =
                    remove_from-total env _ [] r.cache_ring r
                      (sum_from_nil _ r.cache_ring v.accounted);
                distinct =
                    subst DistinctKeys (sym (remove_from-ring env _ [] r.cache_ring r))
                      (DistinctKeys-keep _ r.cache_ring v.distinct);
              })
      ]

  pub pruned-RingInv :
      (env : RingEnv F) (r : Ring F)
      → RingInv r
      → let p = prune_orphans env r in RingInv (record p.2 { cache_ring = p.1 })
  unfolding prune_orphans
  pruned-RingInv env r v = record {
    accounted = prune_from-total env [] [] r.cache_ring r (sum_from_nil _ r.cache_ring v.accounted);
    distinct = prune_from-DistinctKeys env [] [] r.cache_ring r v.distinct;
  }

  pub evict_if_needed-RingInv :
      (env : RingEnv F) (now : F) (r : Ring F) → RingInv r → RingInv (evict_if_needed env now r)
  unfolding evict_if_needed
  evict_if_needed-RingInv env now r v = elim (Bool-cases (fits env r.total_bytes)) [
    | inl t ↦ rw (t, evict_if_needed) v
    | inr f ↦ rw (f, evict_if_needed) (evict_scored-RingInv env now _ _ (pruned-RingInv env r v))
  ]

  replace_entry-key :
      (new : RingEntry F) (es : List (RingEntry F)) (k : String)
      → has_key k (replace_entry new es) ≡ has_key k es
  unfolding replace_entry
  replace_entry-key new [] k = refl
  replace_entry-key new (e ∷ es) k =
      ground (arith, str_eq_iff e.key new.key, replace_entry-key new es k)

  replace_entry-DistinctKeys :
      (new : RingEntry F) (es : List (RingEntry F))
      → DistinctKeys es
      → DistinctKeys (replace_entry new es)
  unfolding replace_entry
  replace_entry-DistinctKeys new [] d = tt
  replace_entry-DistinctKeys new (e ∷ es) d = ground (
    arith,
    str_eq_iff e.key new.key,
    replace_entry-key new es e.key,
    replace_entry-DistinctKeys new es d.1,
  )

  sum_sizes-replace_entry :
      (new : RingEntry F) (es : List (RingEntry F))
      → has_key new.key es ≡ true
      → sum_sizes (replace_entry new es) ≡ sum_sizes es -ℤ size_of new.key es +ℤ new.size
  unfolding replace_entry sum_sizes size_of
  sum_sizes-replace_entry new [] h = ground arith
  sum_sizes-replace_entry new (e ∷ es) h = elim (Bool-cases (str_eq e.key new.key)) [
    | inl t ↦ rw t (omega int_laws)
    | inr f ↦ rw f (let ih = sum_sizes-replace_entry new es (ground arith) in omega int_laws)
  ]

  pub replaced-RingInv :
      (entry : RingEntry F) (metas : MetaTree F) (r : Ring F)
      → has_key entry.key r.cache_ring ≡ true
      → RingInv r
      → RingInv (record r {
        cache_ring = replace_entry entry r.cache_ring;
        total_bytes = r.total_bytes -ℤ size_of entry.key r.cache_ring +ℤ entry.size;
        metas = metas;
      })
  replaced-RingInv entry metas r h v = record {
    accounted =
        (let sum = sum_sizes-replace_entry entry r.cache_ring h in
          let old = v.accounted in omega int_laws);
    distinct = replace_entry-DistinctKeys entry r.cache_ring v.distinct;
  }

  pub appended-RingInv :
      (entry : RingEntry F) (metas : MetaTree F) (r : Ring F)
      → has_key entry.key r.cache_ring ≡ false
      → RingInv r
      → RingInv (record r {
        cache_ring = r.cache_ring ++ entry ∷ [];
        total_bytes = r.total_bytes +ℤ entry.size;
        metas = metas;
      })
  appended-RingInv entry metas r h v = record {
    accounted = sum_sizes-snoc r.cache_ring entry r.total_bytes v.accounted;
    distinct = DistinctKeys-snoc r.cache_ring entry v.distinct h;
  }

  touch_entry-key :
      (now : F) (key : String) (es : List (RingEntry F)) (k : String)
      → has_key k (touch_entry now key es) ≡ has_key k es
  unfolding touch_entry
  touch_entry-key now key [] k = refl
  touch_entry-key now key (e ∷ es) k = ground (arith, touch_entry-key now key es k)

  touch_entry-books :
      (now : F) (key : String) (es : List (RingEntry F))
      → DistinctKeys es
      → DistinctKeys (touch_entry now key es) × (sum_sizes (touch_entry now key es) ≡ sum_sizes es)
  unfolding touch_entry sum_sizes
  touch_entry-books now key [] d = (tt, refl)
  touch_entry-books now key (e ∷ es) d =
      ground (arith, touch_entry-key now key es e.key, touch_entry-books now key es d.1)

  pub touch_ring-RingInv :
      (now : F) (key : String) (r : Ring F) → RingInv r → RingInv (touch_ring now key r)
  unfolding touch_ring
  touch_ring-RingInv now key r v = ground (arith, touch_entry-books now key r.cache_ring v.distinct)
