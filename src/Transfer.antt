-- ===== src/Transfer.antt =====
-- transfer.go: peer-to-peer cache transfers. The file moves themselves are answers of the backends
-- and of the file system, given in advance; the tracker and what a transfer registers are modelled.
pub mod Once
pub mod Moved
pub mod Tests
use proxycache.Base.{
  ℕ, ℤ, pos_part, String, Bool, true, false, ◌&&◌, ◌||◌, not, Option, none, some, List, [], ◌∷◌,
  Map, lookup_or, append, or_else, insert, delete, eqb, if◌then◌else◌, string_eq, FloatOps,
}
use proxycache.Meta.{MetaDoc, MetaTree, read_meta, get_blocks, write_meta}
use proxycache.Ring.{Ring, RingEnv}
use proxycache.Ring.Evict.{add_transferred_entry}

abbrev pub transfer_id_for : String → String → String
transfer_id_for key dst = append key (append "|" dst)

-- The tracker is its map of ids in flight.
abbrev pub TransferTracker : Type 0
TransferTracker = Map String Bool

unfoldable pub transfer_in_flight : TransferTracker → String → String → Bool
transfer_in_flight t key dst = lookup_or false (transfer_id_for key dst) t

-- `exists` is the answer of the destination on its own file. The Boolean is the result: a goroutine
-- for the transfer was started.
unfoldable pub request_cache_transfer :
    Bool → String → String → TransferTracker → Bool × TransferTracker
unfolding transfer_in_flight
request_cache_transfer exists dst key t =
    if transfer_in_flight t key dst
    then (false, t)
    else if exists
    then (false, t)
    else (true, insert (transfer_id_for key dst) true t)

-- The deferred end of the goroutine.
unfoldable pub finish_transfer : String → String → TransferTracker → TransferTracker
finish_transfer dst key t = delete (transfer_id_for key dst) t

-- What the backends and the file system answer: the size of the file at the source, whether the two
-- backends are known and have an agent, the sidecars, and for each way of moving a file, whether it
-- succeeds.
pub record TransferEnv : Type 0 where
  pub size : ℤ
  pub src_known : Bool
  pub dst_known : Bool
  pub src_agent : Bool
  pub dst_agent : Bool
  pub sidecars : List String
  pub agent_transfer : String → Bool
  pub copy_local : String → Bool
  pub upload : String → Bool
  pub fetch : String → Bool
  pub stream_to_file : String → Bool

-- The loops over the sidecars, which stop at the first failure.
unfoldable pub all_moved : (String → Bool) → List String → Bool
all_moved move [] = true
all_moved move (sc ∷ scs) = let rest = all_moved move scs in if move sc then rest else false

-- The four cases by the agents of the two backends.
unfoldable pub move_files : TransferEnv → String → Bool
unfolding all_moved
move_files env key =
    if env.src_agent && env.dst_agent
    then env.agent_transfer key
    else if not env.src_agent && not env.dst_agent
    then (if env.copy_local key then all_moved env.copy_local env.sidecars else false)
    else if not env.src_agent
    then (if env.upload key then all_moved env.upload env.sidecars else false)
    else if not (env.fetch key)
    then false
    else if env.stream_to_file key
    then all_moved (λ sc. env.fetch sc && env.stream_to_file sc) env.sidecars
    else false

module _ {F : Type 0} ⦃fl : FloatOps F⦄ where
  -- `modelID` and `nTokens`, empty and zero without a meta file at the source.
  abbrev model_of : Option (MetaDoc F) → String
  model_of none = ""
  model_of (some doc) = doc.model_id

  abbrev tokens_of : Option (MetaDoc F) → ℤ
  tokens_of none = ℤ.pos 0
  tokens_of (some doc) =
      or_else (ℤ.pos 0) (elim doc.n_tokens [ none ↦ none | some n ↦ some (fl.to_int n) ])

  -- `runCacheTransfer`, on the ring of the destination and the meta files that it holds. The
  -- Boolean says whether the transfer is reported as done.
  unfoldable pub run_cache_transfer :
      TransferEnv → RingEnv F → F → String → String → Ring F → Bool × Ring F
  unfolding move_files write_meta add_transferred_entry read_meta get_blocks
  run_cache_transfer env dst now src key r =
      if eqb (pos_part env.size) 0
      then (false, r)
      else if not env.src_known || not env.dst_known
      then (false, r)
      else if move_files env key
      then (
        true,
        add_transferred_entry dst now key env.size (record r {
          metas =
              write_meta r.metas key (tokens_of (read_meta r.metas key src))
                (get_blocks r.metas key src) dst.words_per_block
                (model_of (read_meta r.metas key src)) dst.backend_id env.size now;
        }),
      )
      else (false, r)
