-- ===== src/Dispatch/Scan.antt =====
-- The scan of `match` in matcher.go: the caches of the backends are compared with the request, and
-- the best hit is noted. The diagnostics are left out, but for the ratios that the route keeps.
use proxycache.Base.{
  ℕ, suc, pos, String, Bool, true, false, ◌&&◌, ◌||◌, Option, none, some, List, [], ◌∷◌, Map,
  insert, or_else, length, eqb, ltb, if◌then◌else◌, str_eq, string_eq, FloatOps,
}
use proxycache.Config.{Config}
use proxycache.Hashing.{block_hashes_from_tokens, lcp_blocks}
use proxycache.Meta.{MetaTree}
use proxycache.Meta.Search.{find_best_restore_candidate}
use proxycache.Slots.{CacheHitType, disk_restore, skip}
use proxycache.Dispatch.{HitInfo}

-- What a backend answers to the template and the tokenization of the messages.
pub data Tokenized (T : Type 0) : Type 0 where
  token_ids : List T → Tokenized T
  status_error : ℕ → Tokenized T
  conn_error : Tokenized T
  other_error : Tokenized T

-- The answers of the others, at a pair of a model and a backend: the liveness, the tokens, and the
-- KV states of the backend's slots in the order of the map. `round` is `math.Round`.
pub record ScanEnv (F T : Type 0) : Type 0 where
  pub live : String → String → Bool
  pub tokens : String → String → Tokenized T
  pub hash : String → String
  pub join : List T → String
  pub cache_enabled : String → Bool
  pub kv_states : String → List (List String)
  pub tree : MetaTree F
  pub round : F → F

-- The variables of the scan: `hit`, the three of the best disk cache, and the fields of the route
-- that the scan sets.
pub record Scan (F T : Type 0) : Type 0 where
  pub hit : Option HitInfo
  pub hit_type : Option CacheHitType
  pub best_ratio : F
  pub restore_key : String
  pub restore_backend : String
  pub canonical_name : String
  pub best_disk_key : String
  pub best_disk_backend : String
  pub best_disk_ratio : F
  pub backend_token_ids : Map String (List T)
  pub backend_blocks : Map String (List String)
  pub backend_cache_ratios : Map String F

module _ {F : Type 0} ⦃fl : FloatOps F⦄ where
  abbrev zero_ratio : F
  zero_ratio = fl.of_int (pos 0)

  -- The ratio of a slot's blocks, none for a slot that holds more than the request.
  unfoldable pub pending_ratio : List String → List String → Option F
  pending_ratio blocks kv =
      if ltb (suc (length blocks)) (length kv)
      then none
      else if eqb (length blocks) 0
      then some zero_ratio
      else some (fl.div (fl.of_int (pos (lcp_blocks blocks kv))) (fl.of_int (pos (length blocks))))

module _ {F T : Type 0} ⦃fl : FloatOps F⦄ where
  unfoldable pub start_scan : String → Scan F T
  start_scan canonical = record {
    hit = none;
    hit_type = none;
    best_ratio = zero_ratio;
    restore_key = "";
    restore_backend = "";
    canonical_name = canonical;
    best_disk_key = "";
    best_disk_backend = "";
    best_disk_ratio = zero_ratio;
    backend_token_ids = [];
    backend_blocks = [];
    backend_cache_ratios = [];
  }

  abbrev pub no_hit : Scan F T → Bool
  no_hit s = elim s.hit [ none ↦ true | some h ↦ false ]

  unfoldable pub note_best_disk : String → String → F → Scan F T → Scan F T
  note_best_disk backend key ratio s =
      if str_eq s.best_disk_key "" || fl.lt s.best_disk_ratio ratio
      then record s { best_disk_key = key; best_disk_backend = backend; best_disk_ratio = ratio }
      else s

  abbrev pub set_hit : String → String → CacheHitType → String → F → Scan F T → Scan F T
  set_hit model backend kind key ratio s = record s {
    best_ratio = ratio;
    restore_key = key;
    restore_backend = backend;
    canonical_name = model;
    hit_type = some kind;
    hit = some (record { backend = backend; canonical = model });
  }

  unfoldable pub note_disk_hit : String → String → String → F → Scan F T → Scan F T
  note_disk_hit model backend key ratio s =
      if no_hit s || fl.lt s.best_ratio ratio
      then set_hit model backend disk_restore key ratio s
      else s

  -- The candidate on disk.
  unfoldable pub note_disk : String → String → Option (String × F) → Scan F T → Scan F T
  unfolding note_best_disk note_disk_hit
  note_disk model backend none s = s
  note_disk model backend (some (key, ratio)) s =
      note_disk_hit model backend key ratio (note_best_disk backend key ratio s)

  unfoldable pub note_slot : Config F → String → String → Option F → Scan F T → Scan F T
  note_slot cfg model backend none s = s
  note_slot cfg model backend (some ratio) s =
      if fl.le cfg.lcp_th ratio && (no_hit s || fl.le s.best_ratio ratio)
      then set_hit model backend skip "" ratio s
      else s

  unfoldable pub note_slots :
      Config F → String → String → List String → List (List String) → Scan F T → Scan F T
  unfolding note_slot pending_ratio
  note_slots cfg model backend blocks [] s = s
  note_slots cfg model backend blocks (kv ∷ kvs) s =
      note_slots cfg model backend blocks kvs
        (note_slot cfg model backend (pending_ratio blocks kv) s)

  unfoldable pub round4 : ScanEnv F T → F → F
  round4 env v = fl.div (env.round (fl.mul v (fl.of_int (pos 10000)))) (fl.of_int (pos 10000))

  -- `beBest` over the slots' ratios, from the one of the disk on.
  unfoldable pub best_of_slots : ScanEnv F T → List String → F → List (List String) → F
  unfolding round4 pending_ratio
  best_of_slots env blocks best [] = best
  best_of_slots env blocks best (kv ∷ kvs) =
      let r : F = elim (pending_ratio blocks kv) [ none ↦ zero_ratio | some v ↦ round4 env v ] in
      best_of_slots env blocks (if fl.lt best r then r else best) kvs

  unfoldable pub note_ratio : String → F → Scan F T → Scan F T
  note_ratio backend best s =
      if fl.lt zero_ratio best
      then record s { backend_cache_ratios = insert backend best s.backend_cache_ratios }
      else s

  -- The blocks on a backend; the block size of the settings is positive.
  abbrev pub blocks_of : Config F → ScanEnv F T → List T → List String
  blocks_of cfg env ts =
      or_else [] (block_hashes_from_tokens env.hash env.join ts cfg.words_per_block)

  abbrev pub disk_of : Config F → ScanEnv F T → List String → String → String → Option (String × F)
  disk_of cfg env blocks model backend =
      find_best_restore_candidate env.tree blocks cfg.words_per_block cfg.lcp_th model backend

  -- The part of a round for a backend with a cache.
  unfoldable pub scan_cache :
      Config F → ScanEnv F T → String → String → List String → Scan F T → Scan F T
  unfolding note_disk note_slots best_of_slots note_ratio round4
  scan_cache cfg env model backend blocks s =
      let disk = disk_of cfg env blocks model backend in
      let kvs = env.kv_states backend in
      let from : F = elim disk [ none ↦ zero_ratio | some c ↦ round4 env c.1 ] in
      note_ratio backend (best_of_slots env blocks from kvs)
        (note_slots cfg model backend blocks kvs (note_disk model backend disk s))

  -- The round for the tokens of a backend.
  unfoldable pub scan_tokens :
      Config F → ScanEnv F T → String → String → List T → Scan F T → Scan F T
  unfolding scan_cache
  scan_tokens cfg env model backend ts s =
      let blocks = blocks_of cfg env ts in
      let noted : Scan F T = record s {
        backend_token_ids = insert backend ts s.backend_token_ids;
        backend_blocks = insert backend blocks s.backend_blocks;
      } in
      if env.cache_enabled backend then scan_cache cfg env model backend blocks noted else noted

  -- The tokenization of a round: a backend that is not reached is skipped, and any other error ends
  -- the scan with the response 500, which is `none` here.
  unfoldable pub scan_answer :
      Config F → ScanEnv F T → String → String → Tokenized T → Scan F T → Option (Scan F T)
  unfolding scan_tokens
  scan_answer cfg env model backend (token_ids ts) s = some (scan_tokens cfg env model backend ts s)
  scan_answer cfg env model backend conn_error s = some s
  scan_answer cfg env model backend (status_error code) s = none
  scan_answer cfg env model backend other_error s = none

  unfoldable pub scan_pair : Config F → ScanEnv F T → String × String → Scan F T → Option (Scan F T)
  unfolding scan_answer
  scan_pair cfg env (model, backend) s =
      if env.live model backend
      then scan_answer cfg env model backend (env.tokens model backend) s
      else some s

  -- The two loops, over the pairs of an option and a backend of it.
  unfoldable pub scan_pairs :
      Config F → ScanEnv F T → List (String × String) → Scan F T → Option (Scan F T)
  unfolding scan_pair
  scan_pairs cfg env [] s = some s
  scan_pairs cfg env (pair ∷ pairs) s = elim (scan_pair cfg env pair s) [
    | none ↦ none
    | some t ↦ scan_pairs cfg env pairs t
  ]
