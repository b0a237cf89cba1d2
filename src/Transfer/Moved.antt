-- ===== src/Transfer/Moved.antt =====
-- `runCacheTransfer` of transfer.go: when a transfer is registered at its destination.
use proxycache.Base.{
  sym, subst, ◌<◌, ◌+ℤ◌, ◌++◌, ℤ, ◌≡◌, refl, ◌↔◌, String, Bool, true, false, ◌&&◌, ◌||◌, not, List,
  [], ◌∷◌, All, arith, pos_part, eqb, ◌⊎◌, inl, inr, if◌then◌else◌, Bool-cases, FloatOps, string_eq,
}
use proxycache.Meta.{MetaTree, get_blocks, get_last_used_time, write_meta}
use proxycache.Meta.Store.{read_meta-write_meta}
use proxycache.Ring.{Ring, RingEnv, has_key, fits}
use proxycache.Ring.Evict.{add_transferred_entry, evict_if_needed}
use proxycache.Ring.History.{IsKept, add_transferred_entry-IsKept}
use proxycache.Transfer.{TransferEnv, all_moved, move_files, run_cache_transfer}

all_moved_iff :
    (move : String → Bool) (scs : List String)
    → (all_moved move scs ≡ true) ↔ All (λ sc. move sc ≡ true) scs
unfolding all_moved
all_moved_iff move [] = (λ _. tt, λ _. refl)
all_moved_iff move (sc ∷ scs) =
    let ih = all_moved_iff move scs in
    (λ h. (ground arith, ih.0 (ground arith)), λ a. let rest = ih.1 a.1 in ground (arith, a.0))

-- One file is moved from source to destination, by the way that their agents allow.
abbrev pub file_moves : TransferEnv → String → Bool
file_moves env f =
    if env.src_agent
    then (if env.dst_agent then env.agent_transfer f else env.fetch f && env.stream_to_file f)
    else (if env.dst_agent then env.upload f else env.copy_local f)

all_moved_ext :
    (f g : String → Bool) (scs : List String)
    → ((sc : String) → f sc ≡ g sc)
    → all_moved f scs ≡ all_moved g scs
unfolding all_moved
all_moved_ext f g [] e = refl
all_moved_ext f g (sc ∷ scs) e = ground (arith, e sc, all_moved_ext f g scs e)

move_files_eq :
    (env : TransferEnv) (key : String)
    → env.src_agent && env.dst_agent ≡ false
    → move_files env key ≡ all_moved (file_moves env) (key ∷ env.sidecars)
unfolding move_files all_moved
move_files_eq env key h = elim (Bool-cases env.src_agent) [
  | inl s ↦
      let streamed =
        all_moved_ext (λ f. env.fetch f && env.stream_to_file f) (file_moves env) env.sidecars
          (λ f. ground arith) in
      ground arith
  | inr s ↦ elim (Bool-cases env.dst_agent) [
    | inl d ↦
        let uploaded = all_moved_ext env.upload (file_moves env) env.sidecars (λ f. ground arith) in
        ground arith
    | inr d ↦
        let copied =
          all_moved_ext env.copy_local (file_moves env) env.sidecars (λ f. ground arith) in
        ground arith
  ]
]

-- Unless both backends have an agent, which then moves the sidecars itself, the transfer succeeds
-- exactly when the main file and every sidecar are moved.
pub move_files_iff :
    (env : TransferEnv) (key : String)
    → env.src_agent && env.dst_agent ≡ false
    → (move_files env key ≡ true) ↔ All (λ f. file_moves env f ≡ true) (key ∷ env.sidecars)
unfolding move_files
move_files_iff env key h =
    ground (arith, move_files_eq env key h, all_moved_iff (file_moves env) (key ∷ env.sidecars))

-- Every file arrives: an agent moves the main file with its sidecars to another agent; otherwise the
-- main file and each sidecar are moved one by one.
abbrev pub Moves : TransferEnv → String → Type 0
Moves env key =
    ((env.src_agent && env.dst_agent ≡ true) × (env.agent_transfer key ≡ true))
    ⊎ ((env.src_agent && env.dst_agent ≡ false)
        × All (λ f. file_moves env f ≡ true) (key ∷ env.sidecars))

move_files-Moves : (env : TransferEnv) (key : String) → (move_files env key ≡ true) ↔ Moves env key
unfolding move_files
move_files-Moves env key = elim (Bool-cases (env.src_agent && env.dst_agent)) [
  | inl both ↦ (
    λ m. inl (both, ground arith),
    λ w. elim w [ inl (b, t) ↦ ground arith | inr (b, all) ↦ absurd (ground arith) ],
  )
  | inr not_both ↦
      let (to, from) = move_files_iff env key not_both in
      (
        λ m. inr (not_both, to m),
        λ w. elim w [ inl (b, t) ↦ absurd (ground arith) | inr (b, all) ↦ from all ],
      )
]

-- The source has the file, both backends are known, and every file arrives.
abbrev pub CanMove : TransferEnv → String → Type 0
CanMove env key =
    (0 < pos_part env.size) × (env.src_known ≡ true) × (env.dst_known ≡ true) × Moves env key

module _ {F : Type 0} ⦃fl : FloatOps F⦄ where
  -- The ring of the destination stays kept, whether or not a transfer succeeds.
  pub run_cache_transfer-IsKept :
      (env : TransferEnv) (dst : RingEnv F) (now : F) (src key : String) (r : Ring F)
      → IsKept dst r
      → let (ok, r') = run_cache_transfer env dst now src key r in
        (ok ≡ (
          not (eqb (pos_part env.size) 0) && env.src_known && env.dst_known && move_files env key))
        × (ok ≡ true ⊎ (r' ≡ r))
        × IsKept dst r'
  unfolding run_cache_transfer
  run_cache_transfer-IsKept env dst now src key r k =
      elim (Bool-cases (eqb (pos_part env.size) 0)) [
        | inl z ↦ rw (z, run_cache_transfer) (ground arith, inr refl, k)
        | inr z ↦ elim (Bool-cases (not env.src_known || not env.dst_known)) [
          | inl u ↦ rw (z, u, run_cache_transfer) (ground arith, inr refl, k)
          | inr u ↦ elim (Bool-cases (move_files env key)) [
            | inl m ↦
                rw (z, u, m, run_cache_transfer)
                  (
                    ground arith,
                    inl refl,
                    add_transferred_entry-IsKept dst now key env.size _ (with_metas _ k),
                  )
            | inr m ↦ rw (z, u, m, run_cache_transfer) (ground arith, inr refl, k)
          ]
        ]
      ]
    where
      with_metas : (m : MetaTree F) → IsKept dst r → IsKept dst (record r { metas = m })
      with_metas m kept = record {
        inv = record { accounted = kept.inv.accounted; distinct = kept.inv.distinct };
        within = kept.within;
      }

  -- A new key is entered with the size and the time, where the budget has room for it.
  add_transferred_entry-room :
      (dst : RingEnv F) (now : F) (key : String) (size : ℤ) (r : Ring F)
      → has_key key r.cache_ring ≡ false
      → fits dst (r.total_bytes +ℤ size) ≡ true
      → add_transferred_entry dst now key size r ≡ record r {
        cache_ring = r.cache_ring ++ record { key = key; size = size; ts = now } ∷ [];
        total_bytes = r.total_bytes +ℤ size;
      }
  unfolding add_transferred_entry evict_if_needed
  add_transferred_entry-room dst now key size r absent room =
      rw (absent, room, add_transferred_entry, evict_if_needed) refl

  -- The destination after a transfer that registered the key: one entry more, of the file's size, and
  -- a meta file with the blocks of the source's.
  abbrev pub Registered : TransferEnv → RingEnv F → F → String → String → Ring F → Ring F → Type 0
  Registered env dst now src key r after =
      (after.cache_ring ≡ r.cache_ring ++ record { key = key; size = env.size; ts = now } ∷ [])
      × (after.total_bytes ≡ r.total_bytes +ℤ env.size)
      × (after.deletes ≡ r.deletes)
      × (get_blocks after.metas key dst.backend_id ≡ get_blocks r.metas key src)
      × ((t : F) → get_last_used_time after.metas key dst.backend_id t ≡ now)

  added-Registered :
      (env : TransferEnv) (dst : RingEnv F) (now : F) (src key model : String) (n_tokens : ℤ)
      (r : Ring F)
      → has_key key r.cache_ring ≡ false
      → fits dst (r.total_bytes +ℤ env.size) ≡ true
      → Registered env dst now src key r (
          add_transferred_entry dst now key env.size (record r {
            metas =
                write_meta r.metas key n_tokens
                  (get_blocks r.metas key src)
                  dst.words_per_block
                  model
                  dst.backend_id
                  env.size
                  now;
          }))
  unfolding get_blocks get_last_used_time
  added-Registered env dst now src key model n_tokens r absent room =
      let metas =
        write_meta r.metas key n_tokens (get_blocks r.metas key src) dst.words_per_block model
          dst.backend_id env.size now in
      let reads =
        read_meta-write_meta r.metas key n_tokens (get_blocks r.metas key src) dst.words_per_block
          model dst.backend_id env.size now in
      subst (Registered env dst now src key r)
        (sym (
          add_transferred_entry-room dst now key env.size (record r { metas = metas }) absent room))
        (refl, refl, refl, rw (reads, get_blocks) refl, λ t. rw (reads, get_last_used_time) refl)

  -- For a key that the destination's ring does not hold and a size that its budget has room for, a
  -- transfer either is reported as done, and then the source has a file of positive size, both
  -- backends are known, the files are moved (by the agents if both backends have one, and otherwise
  -- the main file and every sidecar one by one), and the destination has one entry more, of the
  -- file's size, with a meta file that holds the source's blocks and the time; or it is not reported
  -- as done, and then one of these conditions on source, backends and files fails and nothing
  -- changes.
  pub run_cache_transfer-Registered :
      (env : TransferEnv) (dst : RingEnv F) (now : F) (src key : String) (r : Ring F)
      → has_key key r.cache_ring ≡ false
      → fits dst (r.total_bytes +ℤ env.size) ≡ true
      → let (ok, after) = run_cache_transfer env dst now src key r in
        ((ok ≡ true) × CanMove env key × Registered env dst now src key r after)
        ⊎ ((ok ≡ false) × (¬ CanMove env key) × (after ≡ r))
  unfolding run_cache_transfer get_blocks get_last_used_time
  run_cache_transfer-Registered env dst now src key r absent room =
      elim (Bool-cases (eqb (pos_part env.size) 0)) [
        | inl z ↦ rw (z, run_cache_transfer) (inr (refl, λ c. ground (arith, c.0), refl))
        | inr z ↦ elim (Bool-cases (not env.src_known || not env.dst_known)) [
          | inl u ↦ rw (z, u, run_cache_transfer) (inr (refl, λ c. ground (arith, c.1, c.2), refl))
          | inr u ↦ elim (Bool-cases (move_files env key)) [
            | inl m ↦
                rw (z, u, m, run_cache_transfer)
                  (inl (
                    refl,
                    (ground arith, ground arith, ground arith, (move_files-Moves env key).0 m),
                    added-Registered env dst now src key _ _ r absent room,
                  ))
            | inr m ↦
                rw (z, u, m, run_cache_transfer)
                  (inr (refl, λ c. ground (arith, (move_files-Moves env key).1 c.3), refl))
          ]
        ]
      ]
