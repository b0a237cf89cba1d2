-- ===== src/Ring/History.antt =====
-- The cache ring of slotmanager.go over any history of a backend: loaded at startup, then saves,
-- transfers and restores in any order.
use proxycache.Base.{
  ℤ, pos_part, neg_part, eqb, ◌&&◌, ◌++◌, ◌≡◌, refl, ◌⊎◌, inl, inr, String, Bool, true, false, List,
  [], ◌∷◌, arith, FloatOps, str_eq_iff, Bool-cases,
}
use proxycache.Meta.{sanitize_backend_dir, get_cache_size, get_last_used_time}
use proxycache.Ring.{RingEntry, Ring, RingEnv, has_key, has_string, fits}
use proxycache.Ring.Evict.{
  record_save, add_transferred_entry, touch_ring, touch_entry, touch_entry, evict_if_needed,
  load_key, load_keys, init_from_disk,
}
use proxycache.Ring.Sums.{has_key-append}
use proxycache.Ring.Accounts.{
  RingInv, evict_if_needed-RingInv, replaced-RingInv, appended-RingInv, touch_ring-RingInv,
}
use proxycache.Ring.Budget.{evict_if_needed-fits}

-- One call on the ring, with the clock reading it is made at.
pub data RingOp (F : Type 0) : Type 0 where
  saved : F → String → String → List String → ℤ → ℤ → RingOp F
  transferred : F → String → ℤ → RingOp F
  restored : F → String → RingOp F

module _ {F : Type 0} ⦃fl : FloatOps F⦄ where
  unfoldable pub ring_step : RingEnv F → Ring F → RingOp F → Ring F
  ring_step env r (saved now model key blocks n_tokens size) =
      record_save env now model key blocks n_tokens size r
  ring_step env r (transferred now key size) = add_transferred_entry env now key size r
  ring_step env r (restored now key) = touch_ring now key r

  unfoldable pub ring_run : RingEnv F → Ring F → List (RingOp F) → Ring F
  unfolding ring_step
  ring_run env r [] = r
  ring_run env r (op ∷ ops) = ring_run env (ring_step env r op) ops

  -- The books are right, the keys distinct, and the ring fits its budget or is empty.
  pub record IsKept (env : RingEnv F) (r : Ring F) : Type 0 where
    pub inv : RingInv r
    pub within : (fits env r.total_bytes ≡ true) ⊎ (r.cache_ring ≡ [])

  evicted-IsKept :
      (env : RingEnv F) (now : F) (r : Ring F) → RingInv r → IsKept env (evict_if_needed env now r)
  evicted-IsKept env now r v = record {
    inv = evict_if_needed-RingInv env now r v;
    within = (evict_if_needed-fits env now r v).0;
  }

  -- A save that reached the disk leaves the ring kept, whether or not it holds the key.
  pub record_save-IsKept :
      (env : RingEnv F) (now : F) (model key : String) (blocks : List String) (n_tokens size : ℤ)
      (r : Ring F)
      → RingInv r
      → IsKept env (record_save env now model key blocks n_tokens size r)
  unfolding record_save
  record_save-IsKept env now model key blocks n_tokens size r v =
      elim (Bool-cases (has_key key r.cache_ring)) [
        | inl t ↦ rw (t, record_save) (evicted-IsKept env now _ (replaced-RingInv entry _ r t v))
        | inr f ↦ rw (f, record_save) (evicted-IsKept env now _ (appended-RingInv entry _ r f v))
      ]
    where
      entry : RingEntry F
      entry = record { key = key; size = size; ts = now }

  -- So does the registration of a transferred file.
  pub add_transferred_entry-IsKept :
      (env : RingEnv F) (now : F) (key : String) (size : ℤ) (r : Ring F)
      → IsKept env r
      → IsKept env (add_transferred_entry env now key size r)
  unfolding add_transferred_entry
  add_transferred_entry-IsKept env now key size r k = elim (Bool-cases (has_key key r.cache_ring)) [
    | inl t ↦ rw (t, add_transferred_entry) k
    | inr f ↦
        rw (f, add_transferred_entry)
          (evicted-IsKept env now _ (appended-RingInv entry r.metas r f k.inv))
  ]
    where
      entry : RingEntry F
      entry = record { key = key; size = size; ts = now }

  pub touch_ring-IsKept :
      (env : RingEnv F) (now : F) (key : String) (r : Ring F)
      → IsKept env r
      → IsKept env (touch_ring now key r)
  unfolding touch_ring touch_entry
  touch_ring-IsKept env now key r k = record {
    inv = touch_ring-RingInv now key r k.inv;
    within = elim k.within [ inl t ↦ inl t | inr e ↦ inr (rw e refl) ];
  }

  ring_step-IsKept :
      (env : RingEnv F) (r : Ring F) (op : RingOp F)
      → IsKept env r
      → IsKept env (ring_step env r op)
  unfolding ring_step
  ring_step-IsKept env r (saved now model key blocks n_tokens size) k =
      record_save-IsKept env now model key blocks n_tokens size r k.inv
  ring_step-IsKept env r (transferred now key size) k =
      add_transferred_entry-IsKept env now key size r k
  ring_step-IsKept env r (restored now key) k = touch_ring-IsKept env now key r k

  -- If a ring's total is the sum of the sizes of its entries, its keys are distinct, and it fits
  -- its budget or is empty, then this stays so after saves that succeeded, transfers and restores
  -- in any order.
  pub ring_run-IsKept :
      (env : RingEnv F) (r : Ring F) (ops : List (RingOp F))
      → IsKept env r
      → IsKept env (ring_run env r ops)
  unfolding ring_run
  ring_run-IsKept env r [] k = k
  ring_run-IsKept env r (op ∷ ops) k =
      ring_run-IsKept env (ring_step env r op) ops (ring_step-IsKept env r op k)

  -- The keys of a directory scan are distinct, and none is in the ring yet.
  unfoldable pub Fresh : List String → List (RingEntry F) → Type 0
  Fresh [] es = Unit
  Fresh (k ∷ ks) es = (has_string k ks ≡ false) × (has_key k es ≡ false) × Fresh ks es

  Fresh-snoc :
      (ks : List String) (es : List (RingEntry F)) (e : RingEntry F)
      → Fresh ks es
      → has_string e.key ks ≡ false
      → Fresh ks (es ++ e ∷ [])
  unfolding Fresh
  Fresh-snoc [] es e f h = tt
  Fresh-snoc (k ∷ ks) es e f h = (
    f.0,
    ground (arith, has_key-append k es (e ∷ []), str_eq_iff k e.key, str_eq_iff e.key k, f.1),
    Fresh-snoc ks es e f.2 (ground arith),
  )

  load_key-RingInv :
      (env : RingEnv F) (file_size : String → ℤ) (mtime : String → F) (k : String) (r : Ring F)
      → has_key k r.cache_ring ≡ false
      → RingInv r
      → RingInv (load_key env file_size mtime k r)
  unfolding load_key
  load_key-RingInv env file_size mtime k r h v = elim (Bool-cases (is_zero size)) [
    | inl t ↦ rw (t, load_key) v
    | inr f ↦ rw (f, load_key) (appended-RingInv entry r.metas r h v)
  ]
    where
      size : ℤ
      size = get_cache_size r.metas (sanitize_backend_dir env.backend_id) k (file_size k)

      is_zero : ℤ → Bool
      is_zero n = eqb (pos_part n) 0 && eqb (neg_part n) 0

      entry : RingEntry F
      entry = record {
        key = k;
        size = size;
        ts = get_last_used_time r.metas k (sanitize_backend_dir env.backend_id) (mtime k);
      }

  load_key-Fresh :
      (env : RingEnv F) (file_size : String → ℤ) (mtime : String → F) (k : String)
      (ks : List String) (r : Ring F)
      → Fresh (k ∷ ks) r.cache_ring
      → Fresh ks (load_key env file_size mtime k r).cache_ring
  unfolding load_key Fresh
  load_key-Fresh env file_size mtime k ks r f = ground (
    arith,
    Fresh-snoc ks r.cache_ring
        (record {
          key = k;
          size = get_cache_size r.metas (sanitize_backend_dir env.backend_id) k (file_size k);
          ts = get_last_used_time r.metas k (sanitize_backend_dir env.backend_id) (mtime k);
        })
        f.2 f.0,
    f.2,
  )

  load_keys-RingInv :
      (env : RingEnv F) (file_size : String → ℤ) (mtime : String → F) (ks : List String)
      (r : Ring F)
      → Fresh ks r.cache_ring
      → RingInv r
      → RingInv (load_keys env file_size mtime ks r)
  unfolding load_keys Fresh
  load_keys-RingInv env file_size mtime [] r f v = v
  load_keys-RingInv env file_size mtime (k ∷ ks) r f v =
      load_keys-RingInv env file_size mtime ks _ (load_key-Fresh env file_size mtime k ks r f)
        (load_key-RingInv env file_size mtime k r f.1 v)

  -- Startup from a directory whose keys are distinct and not in the ring keeps the total equal to
  -- the sum of the sizes of the entries, the keys distinct, and the ring within its budget or
  -- empty, if that was so before.
  pub init_from_disk-IsKept :
      (env : RingEnv F) (now : F) (dir_exists : Bool) (file_size : String → ℤ) (mtime : String → F)
      (ks : List String) (r : Ring F)
      → Fresh ks r.cache_ring
      → IsKept env r
      → IsKept env (init_from_disk env now dir_exists file_size mtime ks r)
  unfolding init_from_disk
  init_from_disk-IsKept env now false file_size mtime ks r f k = k
  init_from_disk-IsKept env now true file_size mtime ks r f k =
      evicted-IsKept env now _ (load_keys-RingInv env file_size mtime ks r f k.inv)
