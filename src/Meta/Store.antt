-- ===== src/Meta/Store.antt =====
-- The meta files of kvmeta.go after a write, a penalty and a deletion.
use proxycache.Base.{
  Option, negsuc, zero, suc, pos_part, neg_part, eqb, ◌≢◌, ◌∙◌, Bool-cases, ℕ, ℤ, pos, ◌≡◌, ◌⊎◌,
  ◌++◌, refl, inl, inr, String, Bool, true, false, ◌&&◌, none, some, List, [], ◌∷◌, arith, Map,
  lookup, delete, or_else, if◌then◌else◌, str_eq, str_eq_iff, string_eq, FloatOps, Option-cases,
}
use proxycache.Meta.{
  MetaDoc, MetaFile, MetaDir, MetaTree, sanitize_backend_dir, put, meta_dir, meta_file, read_meta,
  new_doc, put_file, write_meta, get_blocks, get_cache_size, get_last_used_time,
  increment_recompute_penalty, delete_meta_file,
}

lookup-put {ℓ} :
    {V : Type ℓ} (k j : String) (v : V) (m : Map String V)
    → lookup j (put k v m) ≡ (if str_eq k j then some v else lookup j m)
unfolding lookup put
lookup-put k j v [] = refl
lookup-put k j v ((i, w) ∷ m) =
    ground
      (arith, str_eq_iff i k, str_eq_iff i j, str_eq_iff k j, str_eq_iff j j, lookup-put k j v m)

meta_file-put_file :
    {F : Type 0} (tree : MetaTree F) (dir key other backend : String) (file : MetaFile F)
    → meta_file (put_file tree dir key file) other backend ≡ (
        if str_eq dir (sanitize_backend_dir backend) && str_eq key other
        then some file
        else meta_file tree other backend)
unfolding meta_file meta_dir
meta_file-put_file tree dir key other backend file = ground (
  arith,
  str_eq_iff dir (sanitize_backend_dir backend),
  lookup-put dir (sanitize_backend_dir backend) (put key file (or_else [] (lookup dir tree))) tree,
  lookup-put key other file (or_else [] (lookup dir tree)),
)

read_meta-put_file :
    {F : Type 0} (tree : MetaTree F) (dir key other backend : String) (file : MetaFile F)
    → read_meta (put_file tree dir key file) other backend ≡ (
        if str_eq dir (sanitize_backend_dir backend) && str_eq key other
        then file.doc
        else read_meta tree other backend)
unfolding read_meta
read_meta-put_file tree dir key other backend file =
    ground (arith, meta_file-put_file tree dir key other backend file)

read_meta_same :
    {F : Type 0} (tree : MetaTree F) (key other backend backend' : String)
    → sanitize_backend_dir backend ≡ sanitize_backend_dir backend'
    → key ≡ other
    → read_meta tree other backend' ≡ read_meta tree key backend
unfolding read_meta meta_file meta_dir
read_meta_same tree key other backend backend' p q = ground arith

module _ {F : Type 0} ⦃fl : FloatOps F⦄ where
  meta_file-write_meta :
      (tree : MetaTree F) (key other : String) (n_tokens : ℤ) (blocks : List String) (wpb : ℕ)
      (model backend backend' : String) (size : ℤ) (now : F)
      → meta_file (write_meta tree key n_tokens blocks wpb model backend size now) other backend'
        ≡ (if str_eq (sanitize_backend_dir backend) (sanitize_backend_dir backend')
              && str_eq key other
            then some (record {
              doc = some (new_doc key n_tokens blocks wpb model backend size now);
              mtime = now;
            })
            else meta_file tree other backend')
  unfolding write_meta
  meta_file-write_meta tree key other n_tokens blocks wpb model backend backend' size now =
      meta_file-put_file tree (sanitize_backend_dir backend) key other backend' _

  -- The document that `WriteMeta` leaves, of the key on its own backend.
  pub read_meta-write_meta :
      (tree : MetaTree F) (key : String) (n_tokens : ℤ) (blocks : List String) (wpb : ℕ)
      (model backend : String) (size : ℤ) (now : F)
      → read_meta (write_meta tree key n_tokens blocks wpb model backend size now) key backend
        ≡ some (new_doc key n_tokens blocks wpb model backend size now)
  unfolding read_meta
  read_meta-write_meta tree key n_tokens blocks wpb model backend size now = ground (
    arith,
    meta_file-write_meta tree key key n_tokens blocks wpb model backend backend size now,
    str_eq_iff (sanitize_backend_dir backend) (sanitize_backend_dir backend),
    str_eq_iff key key,
  )

  -- A penalty of a readable file goes up by one and nothing else of any document changes; without a
  -- readable file no document changes.
  pub read_meta-increment :
      (tree : MetaTree F) (key other backend backend' : String) (now : F)
      → read_meta (increment_recompute_penalty tree key backend now) other backend' ≡ (
          if str_eq (sanitize_backend_dir backend) (sanitize_backend_dir backend')
            && str_eq key other
          then elim (read_meta tree key backend) [
            | none ↦ none
            | some doc ↦ some (record doc {
              recompute_penalty = fl.add doc.recompute_penalty (fl.of_int (pos 1));
            })
          ]
          else read_meta tree other backend')
  unfolding increment_recompute_penalty
  read_meta-increment tree key other backend backend' now =
      elim (Option-cases (read_meta tree key backend)) [
        | inl e ↦
            rw (e, increment_recompute_penalty)
              (ground (
                arith,
                str_eq_iff (sanitize_backend_dir backend) (sanitize_backend_dir backend'),
                str_eq_iff key other,
                read_meta_same tree key other backend backend',
              ))
        | inr (doc, e) ↦
            rw (e, increment_recompute_penalty)
              (read_meta-put_file tree (sanitize_backend_dir backend) key other backend' _)
      ]

-- The test of `GetCacheSize` for a size.
abbrev is_no_size : ℤ → Bool
is_no_size n = eqb (pos_part n) 0 && eqb (neg_part n) 0

is_no_size-pos : (n : ℤ) → n ≢ pos 0 → is_no_size n ≡ false
is_no_size-pos (pos zero) h = absurd (h refl)
is_no_size-pos (pos (suc k)) h = ground arith
is_no_size-pos (negsuc k) h = ground arith

size_of_read :
    (size read m : ℤ) → read ≡ size → size ≢ pos 0 → (if is_no_size read then m else read) ≡ size
size_of_read size read m e h = rw (e, is_no_size-pos size h) refl

module _ {F : Type 0} ⦃fl : FloatOps F⦄ where
  -- The penalty that a search counts, 0 without a readable file.
  abbrev pub penalty_of : Option (MetaDoc F) → F
  penalty_of none = fl.of_int (pos 0)
  penalty_of (some doc) = doc.recompute_penalty

  -- Every reader of a meta file answers as the file of the key held on the backend before.
  abbrev pub SameReads : MetaTree F → MetaTree F → String → String → Type 0
  SameReads before after key backend =
      (get_blocks after key backend ≡ get_blocks before key backend)
      × ((n : ℤ) → get_cache_size after backend key n ≡ get_cache_size before backend key n)
      × ((t : F) → get_last_used_time after key backend t ≡ get_last_used_time before key backend t)
      × (penalty_of (read_meta after key backend) ≡ penalty_of (read_meta before key backend))

  SameReads-of_eq :
      (before after : MetaTree F) (key backend : String)
      → read_meta after key backend ≡ read_meta before key backend
      → SameReads before after key backend
  unfolding get_blocks get_cache_size get_last_used_time
  SameReads-of_eq before after key backend e =
      rw (e, get_blocks, get_cache_size, get_last_used_time) (refl, λ n. refl, λ t. refl, refl)

  -- The tree after `n` penalties for a key.
  unfoldable pub penalized : ℕ → String → String → F → MetaTree F → MetaTree F
  penalized zero key backend now tree = tree
  penalized (suc n) key backend now tree =
      increment_recompute_penalty (penalized n key backend now tree) key backend now

  penalized-others :
      (n : ℕ) (key other backend backend' : String) (now : F) (tree : MetaTree F)
      → (str_eq (sanitize_backend_dir backend) (sanitize_backend_dir backend') && str_eq key other)
        ≡ false
      → read_meta (penalized n key backend now tree) other backend' ≡ read_meta tree other backend'
  unfolding penalized
  penalized-others zero key other backend backend' now tree f = refl
  penalized-others (suc n) key other backend backend' now tree f = ground (
    arith,
    read_meta-increment (penalized n key backend now tree) key other backend backend' now,
    penalized-others n key other backend backend' now tree f,
  )

  write_meta-others :
      (tree : MetaTree F) (key other : String) (n_tokens : ℤ) (blocks : List String) (wpb : ℕ)
      (model backend backend' : String) (size : ℤ) (now : F)
      → (str_eq (sanitize_backend_dir backend) (sanitize_backend_dir backend') && str_eq key other)
        ≡ false
      → read_meta (write_meta tree key n_tokens blocks wpb model backend size now) other backend'
        ≡ read_meta tree other backend'
  unfolding read_meta
  write_meta-others tree key other n_tokens blocks wpb model backend backend' size now f = ground (
    arith,
    meta_file-write_meta tree key other n_tokens blocks wpb model backend backend' size now,
  )

  -- What `WriteMeta` stores, the readers give back: after any number of penalties for a key, a write
  -- of the key for a backend makes `GetBlocks` give the blocks, `GetCacheSize` the size, and
  -- `GetLastUsedTime` the time of the write, and the penalty is 0 again; for every other key, and
  -- for every backend with another directory, the readers answer as before. This is for a size that
  -- is not 0 and that a float holds exactly.
  pub write_meta-reads :
      (tree : MetaTree F) (key : String) (n_tokens : ℤ) (blocks : List String) (wpb : ℕ)
      (model backend : String) (size : ℤ) (now : F) (n : ℕ)
      → fl.to_int (fl.of_int size) ≡ size
      → size ≢ pos 0
      → let before = penalized n key backend now tree in
        let after = write_meta before key n_tokens blocks wpb model backend size now in
        (get_blocks after key backend ≡ blocks)
        × ((m : ℤ) → get_cache_size after backend key m ≡ size)
        × ((t : F) → get_last_used_time after key backend t ≡ now)
        × (penalty_of (read_meta after key backend) ≡ fl.of_int (pos 0))
        × ((other backend' : String)
            → ((str_eq (sanitize_backend_dir backend) (sanitize_backend_dir backend')
                  && str_eq key other)
                ≡ true)
              ⊎ SameReads tree after other backend')
  unfolding get_blocks get_cache_size get_last_used_time
  write_meta-reads tree key n_tokens blocks wpb model backend size now n e h =
      let before = penalized n key backend now tree in
      rw
        (
          read_meta-write_meta before key n_tokens blocks wpb model backend size now,
          get_blocks,
          get_cache_size,
          get_last_used_time,
        )
        (
          refl,
          λ m. size_of_read size _ m e h,
          λ t. refl,
          refl,
          λ other backend'.
              elim (Bool-cases (
                str_eq (sanitize_backend_dir backend) (sanitize_backend_dir backend')
                && str_eq key other)) [
                  | inl t ↦ inl t
                  | inr f ↦ inr (
                      SameReads-of_eq tree _ other backend' (
                        write_meta-others before key other n_tokens blocks wpb model backend
                          backend' size now f
                        ∙ penalized-others n key other backend backend' now tree f))
                ],
        )

module _ {F : Type 0} where
  -- No directory of the tree holds a file for the key.
  abbrev pub Lacks : String → MetaTree F → Type 0
  Lacks key [] = Unit {0}
  Lacks key ((dir, files) ∷ tree) = (lookup key files ≡ none) × Lacks key tree

  -- If the removal succeeds, `DeleteMetaFile` removes the file of the first directory that has one
  -- and stops there: the copies that later directories hold stay.
  pub delete_meta_file_first :
      (key dir : String) (files : MetaDir F) (file : MetaFile F) (before after : MetaTree F)
      → Lacks key before
      → lookup key files ≡ some file
      → delete_meta_file true key (before ++ (dir, files) ∷ after)
        ≡ (true, before ++ (dir, delete key files) ∷ after)
  unfolding delete_meta_file
  delete_meta_file_first key dir files file [] after l e = ground arith
  delete_meta_file_first key dir files file ((d, fs) ∷ before) after l e =
      ground (arith, delete_meta_file_first key dir files file before after l.1 e)

  -- Where no directory holds the key, or the removal fails, nothing is deleted and the result says
  -- so.
  pub delete_meta_file_none :
      (removed : Bool) (key : String) (tree : MetaTree F)
      → (removed ≡ false) ⊎ Lacks key tree
      → delete_meta_file removed key tree ≡ (false, tree)
  unfolding delete_meta_file
  delete_meta_file_none removed key [] h = refl
  delete_meta_file_none removed key ((d, fs) ∷ tree) (inl e) =
      ground (arith, delete_meta_file_none removed key tree (inl e))
  delete_meta_file_none removed key ((d, fs) ∷ tree) (inr l) =
      ground (arith, delete_meta_file_none removed key tree (inr l.1))
