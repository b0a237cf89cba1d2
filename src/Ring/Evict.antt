-- ===== src/Ring/Evict.antt =====
-- `EvictIfNeeded` of slotmanager.go and its callers.
use proxycache.Base.{
  ℤ, pos_part, neg_part, ◌+ℤ◌, ◌-ℤ◌, String, Bool, ◌&&◌, ◌||◌, List, [], ◌∷◌, ◌++◌, Map, length,
  eqb, if◌then◌else◌, str_eq, FloatOps,
}
use proxycache.Meta.{sanitize_backend_dir, write_meta, get_cache_size, get_last_used_time}
use proxycache.Ring.{
  RingEntry, Ring, RingEnv, has_key, size_of, prune_orphans, remove_from, score_entries, fits,
  keys_to_evict,
}

module _ {F : Type 0} ⦃fl : FloatOps F⦄ where
  -- After the orphans are gone: evict by score if the ring is still over its budget.
  unfoldable pub evict_scored : RingEnv F → F → Map String (List String) → Ring F → Ring F
  unfolding remove_from score_entries keys_to_evict
  evict_scored env now blocks_map r =
      if eqb (length r.cache_ring) 0 || fits env r.total_bytes
      then r
      else remove_from env
          (keys_to_evict env r.cache_ring [] r.total_bytes
            (score_entries r.cache_ring blocks_map now))
          [] r.cache_ring r

  unfoldable pub evict_if_needed : RingEnv F → F → Ring F → Ring F
  unfolding prune_orphans evict_scored
  evict_if_needed env now r =
      let (blocks_map, valid, pruned) = prune_orphans env r in
      if fits env r.total_bytes
      then r
      else evict_scored env now blocks_map (record pruned { cache_ring = valid })

  -- The loop of `SaveAfter` over the ring: the first entry with the key is replaced.
  unfoldable pub replace_entry : RingEntry F → List (RingEntry F) → List (RingEntry F)
  replace_entry new [] = []
  replace_entry new (e ∷ es) = if str_eq e.key new.key then new ∷ es else e ∷ replace_entry new es

  -- The ring's part of `SaveAfter`, for a save that succeeded with a positive size.
  unfoldable pub record_save :
      RingEnv F → F → String → String → List String → ℤ → ℤ → Ring F → Ring F
  unfolding replace_entry evict_if_needed write_meta
  record_save env now model key blocks n_tokens size r =
      let entry : RingEntry F = record { key = key; size = size; ts = now } in
      let metas =
        write_meta r.metas key n_tokens blocks env.words_per_block model env.backend_id size now in
      evict_if_needed env now (
        if has_key key r.cache_ring
        then record r {
          cache_ring = replace_entry entry r.cache_ring;
          total_bytes = r.total_bytes -ℤ size_of key r.cache_ring +ℤ size;
          metas = metas;
        }
        else record r {
          cache_ring = r.cache_ring ++ entry ∷ [];
          total_bytes = r.total_bytes +ℤ size;
          metas = metas;
        })

  -- `AddTransferredEntry`: a key that the ring holds already is left alone.
  unfoldable pub add_transferred_entry : RingEnv F → F → String → ℤ → Ring F → Ring F
  unfolding evict_if_needed
  add_transferred_entry env now key size r =
      if has_key key r.cache_ring
      then r
      else evict_if_needed env now (record r {
        cache_ring = r.cache_ring ++ record { key = key; size = size; ts = now } ∷ [];
        total_bytes = r.total_bytes +ℤ size;
      })

  unfoldable pub touch_entry : F → String → List (RingEntry F) → List (RingEntry F)
  touch_entry now key [] = []
  touch_entry now key (e ∷ es) =
      if str_eq e.key key then record e { ts = now } ∷ es else e ∷ touch_entry now key es

  unfoldable pub touch_ring : F → String → Ring F → Ring F
  unfolding touch_entry
  touch_ring now key r = record r { cache_ring = touch_entry now key r.cache_ring }

  -- One round of the loop of `InitFromDisk` over the keys that have a meta file, with the size and
  -- the modification time that the backend reports for a cache file.
  unfoldable pub load_key : RingEnv F → (String → ℤ) → (String → F) → String → Ring F → Ring F
  unfolding get_cache_size get_last_used_time sanitize_backend_dir
  load_key env file_size mtime key r =
      let size = get_cache_size r.metas (sanitize_backend_dir env.backend_id) key (file_size key) in
      if eqb (pos_part size) 0 && eqb (neg_part size) 0 then r else record r {
        cache_ring =
            r.cache_ring
            ++ record {
              key = key;
              size = size;
              ts = get_last_used_time r.metas key (sanitize_backend_dir env.backend_id) (mtime key);
            }
              ∷ [];
        total_bytes = r.total_bytes +ℤ size;
      }

  unfoldable pub load_keys : RingEnv F → (String → ℤ) → (String → F) → List String → Ring F → Ring F
  unfolding load_key
  load_keys env file_size mtime [] r = r
  load_keys env file_size mtime (key ∷ keys) r =
      load_keys env file_size mtime keys (load_key env file_size mtime key r)

  -- Without the backend's meta directory there is nothing to load.
  unfoldable pub init_from_disk :
      RingEnv F → F → Bool → (String → ℤ) → (String → F) → List String → Ring F → Ring F
  unfolding load_keys evict_if_needed
  init_from_disk env now dir_exists file_size mtime keys r =
      if dir_exists then evict_if_needed env now (load_keys env file_size mtime keys r) else r
