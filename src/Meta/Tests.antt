-- ===== src/Meta/Tests.antt =====
-- kvmeta.go on a tree with two backends: runs, and the theorems applied to them.
use proxycache.Base.{
  arith, ◌⊎◌, ℤ, pos, ◌≡◌, refl, String, true, ◌&&◌, none, some, List, [], ◌∷◌, ◌++◌, lookup,
  delete, str_eq, string_eq,
}
use proxycache.Hashing.{lcp_blocks}
use proxycache.Samples.{milli, milli_laws}
use proxycache.Meta.{
  get_blocks, get_cache_size, get_last_used_time, read_meta, MetaFile, MetaTree,
  sanitize_backend_dir, meta_dir, write_meta, delete_meta_file,
}
use proxycache.Meta.Store.{
  penalized, penalty_of, SameReads, write_meta-reads, delete_meta_file_first,
}
use proxycache.Meta.Search.{scan_all_meta, find_best_restore_candidate}
use proxycache.Meta.Best.{IsBestAnswer, find_best-IsBestAnswer}

abbrev blocks : List String
blocks = "a" ∷ "b" ∷ []

abbrev tree : MetaTree ℤ
tree =
    write_meta (write_meta [] "k1" (pos 200) blocks 100 "llama" "gpu:1" (pos 64) (pos 1000)) "k1"
      (pos 200) blocks 100 "llama" "gpu:2" (pos 64) (pos 2000)

-- The request extends the cached prompt: the key is found, with two of three blocks shared.
found_key :
    find_best_restore_candidate tree ("a" ∷ "b" ∷ "c" ∷ []) 100 (pos 200) "llama" "gpu:1"
    ≡ some ("k1", pos 666)
unfolding find_best_restore_candidate write_meta meta_dir lookup lcp_blocks
found_key = refl

find_best-IsBestAnswer_example :
    IsBestAnswer
      ("a" ∷ "b" ∷ "c" ∷ [])
      100
      (pos 200)
      "llama"
      "gpu:1"
      (scan_all_meta tree "gpu:1")
      (find_best_restore_candidate tree ("a" ∷ "b" ∷ "c" ∷ []) 100 (pos 200) "llama" "gpu:1")
find_best-IsBestAnswer_example =
    find_best-IsBestAnswer ("a" ∷ "b" ∷ "c" ∷ []) 100 (pos 200) "llama" "gpu:1" milli_laws tree

-- Two penalties stand before the write.
write_meta-reads_example :
    let before = penalized 2 "k2" "gpu:1" (pos 3000) tree in
    let after = write_meta before "k2" (pos 200) blocks 100 "llama" "gpu:1" (pos 64) (pos 3000) in
    (get_blocks after "k2" "gpu:1" ≡ blocks)
    × ((m : ℤ) → get_cache_size after "gpu:1" "k2" m ≡ pos 64)
    × ((t : ℤ) → get_last_used_time after "k2" "gpu:1" t ≡ pos 3000)
    × (penalty_of (read_meta after "k2" "gpu:1") ≡ pos 0)
    × ((other backend' : String)
        → ((str_eq (sanitize_backend_dir "gpu:1") (sanitize_backend_dir backend')
              && str_eq "k2" other)
            ≡ true)
          ⊎ SameReads tree after other backend')
write_meta-reads_example =
    write_meta-reads tree "k2" (pos 200) blocks 100 "llama" "gpu:1" (pos 64) (pos 3000) 2 refl
      (λ e. ground arith)

abbrev file : MetaFile ℤ
file = record { doc = none; mtime = pos 0 }

-- Two backends hold the key: only the first loses its copy.
delete_meta_file_first_example :
    delete_meta_file true "k1"
      ([] ++ ("gpu-1", ("k1", file) ∷ []) ∷ ("gpu-2", ("k1", file) ∷ []) ∷ [])
    ≡ (true, [] ++ ("gpu-1", delete "k1" (("k1", file) ∷ [])) ∷ ("gpu-2", ("k1", file) ∷ []) ∷ [])
unfolding lookup
delete_meta_file_first_example =
    delete_meta_file_first "k1" "gpu-1" (("k1", file) ∷ []) file []
      (("gpu-2", ("k1", file) ∷ []) ∷ []) tt refl
