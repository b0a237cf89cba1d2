-- ===== src/Meta.antt =====
-- kvmeta.go: the meta files under META_DIR, one directory for each backend. The tree of files is an
-- argument; JSON is read through what the accessors of kvmeta.go make of a file.
pub mod Store
pub mod Search
pub mod Best
pub mod Tests
use Prim.Native.Char.{Char, code}
use Prim.Native.String
use Prim.Native.Nat.{Ordering}
use proxycache.Base.{
  ℕ, ℤ, pos, pos_part, neg_part, String, Bool, true, false, ◌&&◌, Option, none, some, List, [], ◌∷◌,
  Map, lookup, delete, or_else, length, eqb, ltb, leb, if◌then◌else◌, str_eq, string_eq, FloatOps,
  ◌+◌, ◌≡◌, refl, arith,
}
use proxycache.Hashing.{lcp_blocks}

-- What the accessors read in a meta file that is valid JSON: absent fields are empty or zero.
pub record MetaDoc (F : Type 0) : Type 0 where
  pub key : String
  pub model_id : String
  pub backend : String
  pub n_tokens : Option F
  pub wpb : F
  pub blocks : List String
  pub cache_size : F
  pub recompute_penalty : F
  pub last_read : Option F
  pub last_written : Option F
  pub timestamp : Option F

-- A file whose content is no valid JSON has no document.
pub record MetaFile (F : Type 0) : Type 0 where
  pub doc : Option (MetaDoc F)
  pub mtime : F

abbrev pub MetaDir : Type 0 → Type 0
MetaDir F = Map String (MetaFile F)

-- Directory name, then cache key, each in the order in which the file system lists them.
abbrev pub MetaTree : Type 0 → Type 0
MetaTree F = Map String (MetaDir F)

-- `SanitizeBackendDir` of hashing.go.
unfoldable pub sanitize_backend_dir : String → String
sanitize_backend_dir String.[] = String.[]
sanitize_backend_dir (String.◌∷◌ c s) =
    String.◌∷◌ (if eqb (code c) b':' then "-" else c) (sanitize_backend_dir s)

abbrev str_lt : String → String → Bool
str_lt s t = elim (String.compare s t) [ Ordering.lt ↦ true | _ ↦ false ]

-- A new entry goes to its place in the listing, which is by name.
unfoldable pub put {ℓ} : {V : Type ℓ} → String → V → Map String V → Map String V
put k v [] = (k, v) ∷ []
put k v ((j, w) ∷ m) =
    if str_eq j k
    then (k, v) ∷ m
    else if str_lt k j
    then (k, v) ∷ (j, w) ∷ m
    else (j, w) ∷ put k v m

module _ {F : Type 0} where
  -- `MetaDirPath` and `MetaFilePath`, and what stands there.
  unfoldable pub meta_dir : MetaTree F → String → MetaDir F
  unfolding sanitize_backend_dir
  meta_dir tree backend = or_else [] (lookup (sanitize_backend_dir backend) tree)

  unfoldable pub meta_file : MetaTree F → String → String → Option (MetaFile F)
  unfolding meta_dir
  meta_file tree key backend = lookup key (meta_dir tree backend)

  unfoldable pub read_meta : MetaTree F → String → String → Option (MetaDoc F)
  unfolding meta_file
  read_meta tree key backend = elim (meta_file tree key backend) [
    | none ↦ none
    | some file ↦ file.doc
  ]

  -- A missing file has no blocks; nil and the empty list serve every caller alike.
  unfoldable pub get_blocks : MetaTree F → String → String → List String
  unfolding read_meta
  get_blocks tree key backend = elim (read_meta tree key backend) [
    | none ↦ []
    | some doc ↦ doc.blocks
  ]

abbrev pub put_file : {F : Type 0} → MetaTree F → String → String → MetaFile F → MetaTree F
put_file tree dir key file = put dir (put key file (or_else [] (lookup dir tree))) tree

-- `DeleteMetaFile`: the first directory that holds the key loses it, if the removal succeeds; the
-- loop then returns. The Boolean is the method's result.
unfoldable pub delete_meta_file : {F : Type 0} → Bool → String → MetaTree F → Bool × MetaTree F
delete_meta_file removed key [] = (false, [])
delete_meta_file removed key ((dir, files) ∷ tree) =
    let rest = delete_meta_file removed key tree in
    elim (lookup key files) [
      | none ↦ (rest.0, (dir, files) ∷ rest.1)
      | some _ ↦ (removed, (dir, if removed then delete key files else files) ∷ tree)
    ]

module _ {F : Type 0} ⦃fl : FloatOps F⦄ where
  -- The document that `WriteMeta` fills in: the penalty starts at 0 again.
  abbrev pub new_doc : String → ℤ → List String → ℕ → String → String → ℤ → F → MetaDoc F
  new_doc key n_tokens blocks wpb model backend size now = record {
    key = key;
    model_id = model;
    backend = backend;
    n_tokens = some (fl.of_int n_tokens);
    wpb = fl.of_int (pos wpb);
    blocks = blocks;
    cache_size = fl.of_int size;
    recompute_penalty = fl.of_int (pos 0);
    last_read = none;
    last_written = some now;
    timestamp = none;
  }

  -- `WriteMeta` where every file operation succeeds; the directory is made if it is missing.
  unfoldable pub write_meta :
      MetaTree F → String → ℤ → List String → ℕ → String → String → ℤ → F → MetaTree F
  unfolding put sanitize_backend_dir
  write_meta tree key n_tokens blocks wpb model backend size now =
      put_file tree (sanitize_backend_dir backend) key (record {
        doc = some (new_doc key n_tokens blocks wpb model backend size now);
        mtime = now;
      })

  -- `IncrementRecomputePenalty`: a missing or unreadable file stays as it is.
  unfoldable pub increment_recompute_penalty : MetaTree F → String → String → F → MetaTree F
  unfolding read_meta put sanitize_backend_dir
  increment_recompute_penalty tree key backend now = elim (read_meta tree key backend) [
    | none ↦ tree
    | some doc ↦ put_file tree (sanitize_backend_dir backend) key (record {
      doc =
          some
            (record doc { recompute_penalty = fl.add doc.recompute_penalty (fl.of_int (pos 1)) });
      mtime = now;
    })
  ]

  -- `GetCacheSize`, with the size of the cache file itself as the fallback.
  unfoldable pub get_cache_size : MetaTree F → String → String → ℤ → ℤ
  unfolding read_meta
  get_cache_size tree backend key file_size = elim (read_meta tree key backend) [
    | none ↦ file_size
    | some doc ↦
        let size = fl.to_int doc.cache_size in
        if eqb (pos_part size) 0 && eqb (neg_part size) 0 then file_size else size
  ]

  -- `GetLastUsedTime`, with the modification time of the cache file as the fallback.
  unfoldable pub get_last_used_time : MetaTree F → String → String → F → F
  unfolding read_meta
  get_last_used_time tree key backend mtime = elim (read_meta tree key backend) [
    | none ↦ mtime
    | some doc ↦ or_else (or_else (or_else mtime doc.timestamp) doc.last_written) doc.last_read
  ]
