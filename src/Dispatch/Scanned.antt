-- ===== src/Dispatch/Scanned.antt =====
-- What the scan of `match` (matcher.go) notes: the hit, and the best cache on disk.
use proxycache.Base.{
  arith, ◌≡◌, refl, ap, ◌∙◌, subst, ◌⊎◌, inl, inr, ℕ, ◌+◌, pos, String, true, ◌||◌, ◌&&◌, str_eq,
  Option, none, some, List, [], ◌∷◌, Bool-cases, Option-cases, FloatOps, get_elem?, suc,
}
use proxycache.Config.{Config}
use proxycache.Slots.{CacheHitType, disk_restore, skip}
use proxycache.Dispatch.{HitInfo}
use proxycache.Dispatch.Scan.{
  Tokenized, token_ids, status_error, conn_error, other_error, ScanEnv, Scan, no_hit,
  note_best_disk, note_disk_hit, note_disk, pending_ratio, note_slot, note_slots, note_ratio,
  blocks_of, disk_of, scan_cache, scan_tokens, scan_answer, scan_pair, scan_pairs,
}

module _ {F T : Type 0} ⦃fl : FloatOps F⦄ (cfg : Config F) (env : ScanEnv F T) where
  -- The pair's tokens, from a live backend with a cache.
  abbrev pub HasTokens : String → String → List T → Type 0
  HasTokens model backend ts =
      (env.live model backend ≡ true)
      × (env.tokens model backend ≡ token_ids ts)
      × (env.cache_enabled backend ≡ true)

  abbrev pub HasDisk : String → String → String → F → Type 0
  HasDisk model backend key ratio =
      (ts : List T) × HasTokens model backend ts
      × (disk_of cfg env (blocks_of cfg env ts) model backend ≡ some (key, ratio))

  abbrev pub HasSlot : String → String → F → Type 0
  HasSlot model backend ratio =
      (ts : List T) × (kv : List String) × (i : ℕ) × HasTokens model backend ts
      × (get_elem? (env.kv_states backend) i ≡ some kv)
      × (pending_ratio (blocks_of cfg env ts) kv ≡ some ratio)
      × (fl.le cfg.lcp_th ratio ≡ true)

  -- The hit of a route: none and nothing noted, or a pair whose backend has what the hit stands on.
  abbrev pub HitOf : Option HitInfo → Option CacheHitType → F → String → String → String → Type 0
  HitOf none kind ratio key backend model = (kind ≡ none) × (key ≡ "") × (backend ≡ "")
  HitOf (some hit) kind ratio key backend model =
      (backend ≡ hit.backend)
      × (model ≡ hit.canonical)
      × (((kind ≡ some disk_restore) × HasDisk hit.canonical hit.backend key ratio)
          ⊎ ((kind ≡ some skip) × (key ≡ "") × HasSlot hit.canonical hit.backend ratio))

  abbrev pub DiskOf : String → String → F → Type 0
  DiskOf key backend ratio =
      ((key ≡ "") × (backend ≡ "")) ⊎ ((model : String) × HasDisk model backend key ratio)

  abbrev pub IsScanned : Scan F T → Type 0
  IsScanned s =
      HitOf s.hit s.hit_type s.best_ratio s.restore_key s.restore_backend s.canonical_name
      × DiskOf s.best_disk_key s.best_disk_backend s.best_disk_ratio

  -- A scan that went wrong has noted nothing.
  abbrev pub IsScan : Option (Scan F T) → Type 0
  IsScan none = Unit
  IsScan (some s) = IsScanned s

  note_best_disk-IsScanned :
      (model backend key : String) (ratio : F) (s : Scan F T)
      → HasDisk model backend key ratio
      → IsScanned s
      → IsScanned (note_best_disk backend key ratio s)
  unfolding note_best_disk
  note_best_disk-IsScanned model backend key ratio s h p =
      elim (Bool-cases (str_eq s.best_disk_key "" || fl.lt s.best_disk_ratio ratio)) [
        | inl t ↦ rw (t, note_best_disk) (p.0, inr (model, h))
        | inr f ↦ rw (f, note_best_disk) p
      ]

  note_disk_hit-IsScanned :
      (model backend key : String) (ratio : F) (s : Scan F T)
      → HasDisk model backend key ratio
      → IsScanned s
      → IsScanned (note_disk_hit model backend key ratio s)
  unfolding note_disk_hit
  note_disk_hit-IsScanned model backend key ratio s h p =
      elim (Bool-cases (no_hit s || fl.lt s.best_ratio ratio)) [
        | inl t ↦ rw (t, note_disk_hit) ((refl, refl, inl (refl, h)), p.1)
        | inr f ↦ rw (f, note_disk_hit) p
      ]

  note_disk-IsScanned :
      (model backend : String) (ts : List T) (found : Option (String × F)) (s : Scan F T)
      → HasTokens model backend ts
      → disk_of cfg env (blocks_of cfg env ts) model backend ≡ found
      → IsScanned s
      → IsScanned (note_disk model backend found s)
  unfolding note_disk
  note_disk-IsScanned model backend ts none s h e p = p
  note_disk-IsScanned model backend ts (some (key, ratio)) s h e p =
      note_disk_hit-IsScanned model backend key ratio _ (ts, h, e)
        (note_best_disk-IsScanned model backend key ratio s (ts, h, e) p)

  note_slot-IsScanned :
      (model backend : String) (ts : List T) (kv : List String) (i : ℕ) (found : Option F)
      (s : Scan F T)
      → HasTokens model backend ts
      → get_elem? (env.kv_states backend) i ≡ some kv
      → pending_ratio (blocks_of cfg env ts) kv ≡ found
      → IsScanned s
      → IsScanned (note_slot cfg model backend found s)
  unfolding note_slot
  note_slot-IsScanned model backend ts kv i none s h m e p = p
  note_slot-IsScanned model backend ts kv i (some ratio) s h m e p =
      elim (Bool-cases (fl.le cfg.lcp_th ratio && (no_hit s || fl.le s.best_ratio ratio))) [
        | inl t ↦
            let high : fl.le cfg.lcp_th ratio ≡ true = ground arith in
            rw (t, note_slot) ((refl, refl, inr (refl, refl, (ts, kv, i, h, m, e, high))), p.1)
        | inr f ↦ rw (f, note_slot) p
      ]

  note_slots-IsScanned :
      (model backend : String) (ts : List T) (kvs : List (List String)) (from : ℕ) (s : Scan F T)
      → HasTokens model backend ts
      → ((i : ℕ) → get_elem? (env.kv_states backend) (from + i) ≡ get_elem? kvs i)
      → IsScanned s
      → IsScanned (note_slots cfg model backend (blocks_of cfg env ts) kvs s)
  unfolding note_slots
  note_slots-IsScanned model backend ts [] from s h m p = p
  note_slots-IsScanned model backend ts (kv ∷ kvs) from s h m p =
      note_slots-IsScanned model backend ts kvs (suc from) _ h
        (λ i. ap (get_elem? (env.kv_states backend)) (omega arith) ∙ m (suc i))
        (note_slot-IsScanned model backend ts kv (from + 0) _ s h (m 0) refl p)

  note_ratio-IsScanned :
      (backend : String) (best : F) (s : Scan F T)
      → IsScanned s
      → IsScanned (note_ratio backend best s)
  unfolding note_ratio
  note_ratio-IsScanned backend best s p = elim (Bool-cases (fl.lt (fl.of_int (pos 0)) best)) [
    | inl t ↦ rw (t, note_ratio) p
    | inr f ↦ rw (f, note_ratio) p
  ]

  scan_tokens-IsScanned :
      (model backend : String) (ts : List T) (s : Scan F T)
      → env.live model backend ≡ true
      → env.tokens model backend ≡ token_ids ts
      → IsScanned s
      → IsScanned (scan_tokens cfg env model backend ts s)
  unfolding scan_tokens
  scan_tokens-IsScanned model backend ts s l e p = elim (Bool-cases (env.cache_enabled backend)) [
    | inl t ↦
        rw (t, scan_tokens, scan_cache)
          (note_ratio-IsScanned backend _ _ (
            note_slots-IsScanned model backend ts (env.kv_states backend) 0 _ (l, e, t)
              (λ i. ap (get_elem? (env.kv_states backend)) (omega arith))
              (note_disk-IsScanned model backend ts _ _ (l, e, t) refl p)))
    | inr f ↦ rw (f, scan_tokens) p
  ]

  scan_answer-IsScan :
      (model backend : String) (answer : Tokenized T) (s : Scan F T)
      → env.live model backend ≡ true
      → env.tokens model backend ≡ answer
      → IsScanned s
      → IsScan (scan_answer cfg env model backend answer s)
  unfolding scan_answer
  scan_answer-IsScan model backend (token_ids ts) s l e p =
      scan_tokens-IsScanned model backend ts s l e p
  scan_answer-IsScan model backend (status_error code) s l e p = tt
  scan_answer-IsScan model backend conn_error s l e p = p
  scan_answer-IsScan model backend other_error s l e p = tt

  scan_pair-IsScan :
      (pair : String × String) (s : Scan F T) → IsScanned s → IsScan (scan_pair cfg env pair s)
  unfolding scan_pair
  scan_pair-IsScan (model, backend) s p = elim (Bool-cases (env.live model backend)) [
    | inl t ↦
        rw (t, scan_pair) (scan_answer-IsScan model backend (env.tokens model backend) s t refl p)
    | inr f ↦ rw (f, scan_pair) p
  ]

  pub scan_pairs-IsScan :
      (pairs : List (String × String)) (s : Scan F T)
      → IsScanned s
      → IsScan (scan_pairs cfg env pairs s)
  unfolding scan_pairs
  scan_pairs-IsScan [] s p = p
  scan_pairs-IsScan (pair ∷ pairs) s p = elim (Option-cases (scan_pair cfg env pair s)) [
    | inl n ↦ rw (n, scan_pairs) tt
    | inr (t, e) ↦
        rw (e, scan_pairs) (scan_pairs-IsScan pairs t (subst IsScan e (scan_pair-IsScan pair s p)))
  ]
