-- ===== src/Meta/Search.antt =====
-- The restore-candidate search of kvmeta.go: `ScanAllMeta`, `FindRestoreCandidate` and
-- `FindBestRestoreCandidate`.
use proxycache.Base.{
  ℕ, ℤ, pos, pos_part, neg_part, String, Bool, true, false, not, ◌&&◌, Option, none, some, List, [],
  ◌∷◌, length, eqb, ltb, leb, if◌then◌else◌, str_eq, FloatOps,
}
use proxycache.Hashing.{lcp_blocks}
use proxycache.Meta.{MetaDoc, MetaFile, MetaDir, MetaTree, meta_dir, read_meta}

-- `int(wpb) == wpb`.
abbrev pub is_nat : ℤ → ℕ → Bool
is_nat z n = eqb (pos_part z) n && eqb (neg_part z) 0

module _ {F : Type 0} ⦃fl : FloatOps F⦄ where
  -- The stable sort of `ScanAllMeta` by modification time, newest first.
  unfoldable pub insert_newest : MetaFile F → List (MetaFile F) → List (MetaFile F)
  insert_newest f [] = f ∷ []
  insert_newest f (g ∷ gs) = if fl.lt g.mtime f.mtime then f ∷ g ∷ gs else g ∷ insert_newest f gs

  unfoldable pub sort_newest : List (MetaFile F) → MetaDir F → List (MetaFile F)
  unfolding insert_newest
  sort_newest sorted [] = sorted
  sort_newest sorted ((_, f) ∷ files) = sort_newest (insert_newest f sorted) files

  -- Unreadable files are left out.
  unfoldable pub read_docs : List (MetaFile F) → List (MetaDoc F)
  read_docs [] = []
  read_docs (f ∷ fs) = let rest = read_docs fs in elim f.doc [ none ↦ rest | some d ↦ d ∷ rest ]

  unfoldable pub scan_all_meta : MetaTree F → String → List (MetaDoc F)
  unfolding sort_newest read_docs
  scan_all_meta tree backend = read_docs (sort_newest [] (meta_dir tree backend))

  unfoldable pub math_max_float : F → F → F
  math_max_float a b = if fl.lt b a then a else b

  -- The share of the request's blocks that the candidate's blocks cover from the start.
  unfoldable pub lcp_ratio : List String → List String → F
  unfolding math_max_float
  lcp_ratio req cand =
      fl.div (fl.of_int (pos (lcp_blocks req cand)))
        (math_max_float (fl.of_int (pos 1)) (fl.of_int (pos (length req))))

  unfoldable pub find_restore_candidate :
      MetaTree F → String → ℕ → F → List String → String → Option (String × F)
  unfolding lcp_ratio
  find_restore_candidate tree key wpb th req backend = elim (read_meta tree key backend) [
    | none ↦ none
    | some doc ↦
        if not (is_nat (fl.to_int doc.wpb) wpb)
        then none
        else if ltb (length req) (length doc.blocks)
        then none
        else if fl.le th (lcp_ratio req doc.blocks)
        then some (key, lcp_ratio req doc.blocks)
        else none
  ]

  -- The four `continue`s of the loop.
  unfoldable pub eligible : List String → ℕ → String → String → MetaDoc F → Bool
  eligible req wpb model backend doc =
      str_eq doc.model_id model
      && str_eq doc.backend backend
      && is_nat (fl.to_int doc.wpb) wpb
      && leb (length doc.blocks) (length req)

  -- The ratio, lowered by a tenth for each penalty.
  unfoldable pub score : List String → MetaDoc F → F
  unfolding lcp_ratio math_max_float
  score req doc = fl.mul (lcp_ratio req doc.blocks) (
      math_max_float (fl.of_int (pos 0))
        (fl.sub (fl.of_int (pos 1)) (fl.mul (fl.dec 1 1) doc.recompute_penalty)))

-- The variables of the loop.
pub record Best (F : Type 0) : Type 0 where
  pub key : String
  pub ratio : F
  pub score : F
  pub found : Bool

module _ {F : Type 0} ⦃fl : FloatOps F⦄ where
  unfoldable pub better : List String → ℕ → F → String → String → Best F → MetaDoc F → Best F
  unfolding eligible score lcp_ratio
  better req wpb th model backend best doc =
      if eligible req wpb model backend doc
        && (fl.le th (lcp_ratio req doc.blocks) && fl.lt best.score (score req doc))
      then record {
        key = doc.key;
        ratio = lcp_ratio req doc.blocks;
        score = score req doc;
        found = true;
      }
      else best

  unfoldable pub best_from :
      List String → ℕ → F → String → String → Best F → List (MetaDoc F) → Best F
  unfolding better
  best_from req wpb th model backend best [] = best
  best_from req wpb th model backend best (doc ∷ docs) =
      best_from req wpb th model backend (better req wpb th model backend best doc) docs

  abbrev pub no_best : Best F
  no_best = record { key = ""; ratio = fl.of_int (pos 0); score = fl.of_int (pos 0); found = false }

  unfoldable pub find_best_restore_candidate :
      MetaTree F → List String → ℕ → F → String → String → Option (String × F)
  unfolding best_from scan_all_meta
  find_best_restore_candidate tree req wpb th model backend =
      let best = best_from req wpb th model backend no_best (scan_all_meta tree backend) in
      if best.found then some (best.key, best.ratio) else none
