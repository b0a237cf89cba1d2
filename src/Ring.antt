-- ===== src/Ring.antt =====
-- The cache ring of slotmanager.go: what `BackendSlotManager` keeps under `RingMu`, with the meta
-- files that its methods read and delete.
pub mod Evict
pub mod Sums
pub mod Accounts
pub mod Budget
pub mod Scores
pub mod History
pub mod Tests
use proxycache.Base.{
  ℕ, suc, ◌+◌, ◌*◌, ℤ, pos, ◌+ℤ◌, ◌-ℤ◌, String, Bool, true, false, ◌||◌, not, Option, none, some,
  List, [], ◌∷◌, ◌++◌, Map, lookup, insert, or_else, length, eqb, ltb, if◌then◌else◌, str_eq,
  string_eq, FloatOps,
}
use proxycache.Hashing.{lcp_blocks}
use proxycache.Meta.{MetaTree, get_blocks, delete_meta_file}

pub record RingEntry (F : Type 0) : Type 0 where
  pub key : String
  pub size : ℤ
  pub ts : F

-- `deletes` are the keys for which `CacheDelete` was called, in order.
pub record Ring (F : Type 0) : Type 0 where
  pub cache_ring : List (RingEntry F)
  pub total_bytes : ℤ
  pub metas : MetaTree F
  pub deletes : List String

-- The backend, its budget in GB, and whether the removal of a key's meta file succeeds.
pub record RingEnv (F : Type 0) : Type 0 where
  pub backend_id : String
  pub max_size_gb : F
  pub words_per_block : ℕ
  pub removes : String → Bool

pub record RingScored (F : Type 0) : Type 0 where
  pub key : String
  pub score : F

abbrev pub has_string : String → List String → Bool
has_string k [] = false
has_string k (j ∷ js) = str_eq j k || has_string k js

module _ {F : Type 0} where
  unfoldable pub delete_entry : RingEnv F → String → Ring F → Ring F
  delete_entry env key r = record r {
    metas = (delete_meta_file (env.removes key) key r.metas).1;
    deletes = r.deletes ++ key ∷ [];
  }

  -- The loop of `pruneOrphans`: the blocks and the entries kept so far, and the entries left.
  unfoldable pub prune_from :
      RingEnv F
      → Map String (List String)
      → List (RingEntry F)
      → List (RingEntry F)
      → Ring F
      → Map String (List String) × List (RingEntry F) × Ring F
  prune_from env blocks valid [] r = (blocks, valid, r)
  prune_from env blocks valid (e ∷ es) r = elim (get_blocks r.metas e.key env.backend_id) [
    | [] ↦
        prune_from env blocks valid es
          (delete_entry env e.key (record r { total_bytes = r.total_bytes -ℤ e.size }))
    | b ∷ bs ↦ prune_from env (insert e.key (b ∷ bs) blocks) (valid ++ e ∷ []) es r
  ]

  unfoldable pub prune_orphans :
      RingEnv F → Ring F → Map String (List String) × List (RingEntry F) × Ring F
  unfolding prune_from delete_entry
  prune_orphans env r = prune_from env [] [] r.cache_ring r

  -- The size of the first entry with the key.
  unfoldable pub size_of : String → List (RingEntry F) → ℤ
  size_of key [] = pos 0
  size_of key (e ∷ es) = if str_eq e.key key then e.size else size_of key es

  abbrev pub has_key : String → List (RingEntry F) → Bool
  has_key key [] = false
  has_key key (e ∷ es) = str_eq e.key key || has_key key es

  -- The last loop of `EvictIfNeeded`: the entries kept so far, and the entries left.
  unfoldable pub remove_from :
      RingEnv F → List String → List (RingEntry F) → List (RingEntry F) → Ring F → Ring F
  unfolding delete_entry
  remove_from env keys remaining [] r = record r { cache_ring = remaining }
  remove_from env keys remaining (e ∷ es) r =
      let evicted =
        remove_from env keys remaining es
          (delete_entry env e.key (record r { total_bytes = r.total_bytes -ℤ e.size })) in
      let kept = remove_from env keys (remaining ++ e ∷ []) es r in
      if has_string e.key keys then evicted else kept

module _ {F : Type 0} ⦃fl : FloatOps F⦄ where
  -- The inner loop of `scoreEntries`: the largest share of `blocks` that another entry's blocks
  -- cover, over the entries from position `j` on.
  unfoldable pub max_lcp_ratio :
      Map String (List String) → List String → ℕ → F → ℕ → List (RingEntry F) → F
  max_lcp_ratio blocks_map blocks i best j [] = best
  max_lcp_ratio blocks_map blocks i best j (other ∷ others) =
      let other_blocks = or_else [] (lookup other.key blocks_map) in
      let denom =
        if fl.lt (fl.of_int (pos (length blocks))) (fl.of_int (pos 1))
        then fl.of_int (pos 1)
        else fl.of_int (pos (length blocks)) in
      let ratio = fl.div (fl.of_int (pos (lcp_blocks blocks other_blocks))) denom in
      max_lcp_ratio blocks_map blocks i
        (if eqb i j || eqb (length other_blocks) 0
          then best
          else if fl.lt best ratio
          then ratio
          else best)
        (suc j) others

  unfoldable pub entry_score :
      Map String (List String) → List (RingEntry F) → F → ℕ → RingEntry F → RingScored F
  unfolding max_lcp_ratio
  entry_score blocks_map ring now i e =
      let stale = fl.sub now e.ts in
      let blocks = or_else [] (lookup e.key blocks_map) in
      let uniqueness =
        fl.sub (fl.dec 1 0) (max_lcp_ratio blocks_map blocks i (fl.of_int (pos 0)) 0 ring) in
      record {
        key = e.key;
        score =
            if eqb (length blocks) 0
            then fl.mul stale (fl.dec 2 0)
            else fl.mul stale (fl.sub (fl.dec 2 0) uniqueness);
      }

  -- The stable sort by score, worst first.
  unfoldable pub insert_scored : RingScored F → List (RingScored F) → List (RingScored F)
  insert_scored x [] = x ∷ []
  insert_scored x (y ∷ ys) = if fl.lt y.score x.score then x ∷ y ∷ ys else y ∷ insert_scored x ys

  unfoldable pub score_from :
      Map String (List String)
      → List (RingEntry F)
      → F
      → List (RingScored F)
      → ℕ
      → List (RingEntry F)
      → List (RingScored F)
  unfolding entry_score insert_scored
  score_from blocks_map ring now scored i [] = scored
  score_from blocks_map ring now scored i (e ∷ es) =
      score_from blocks_map ring now (insert_scored (entry_score blocks_map ring now i e) scored)
        (suc i) es

  unfoldable pub score_entries :
      List (RingEntry F) → Map String (List String) → F → List (RingScored F)
  unfolding score_from
  score_entries ring blocks_map now = score_from blocks_map ring now [] 0 ring

  abbrev pub max_bytes : RingEnv F → F
  max_bytes env =
      fl.mul (fl.mul (fl.mul env.max_size_gb (fl.of_int (pos 1024))) (fl.of_int (pos 1024)))
        (fl.of_int (pos 1024))

  abbrev pub fits : RingEnv F → ℤ → Bool
  fits env total = fl.le (fl.of_int total) (max_bytes env)

  -- The keys to evict: the worst ones, until the projected total fits.
  unfoldable pub keys_to_evict :
      RingEnv F → List (RingEntry F) → List String → ℤ → List (RingScored F) → List String
  unfolding size_of
  keys_to_evict env ring keys projected [] = keys
  keys_to_evict env ring keys projected (s ∷ ss) =
      let more = keys_to_evict env ring (s.key ∷ keys) (projected -ℤ size_of s.key ring) ss in
      if fits env projected then keys else more
