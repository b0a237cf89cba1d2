-- ===== src/Dispatch/Strongest.antt =====
-- The hit that the scan of `match` (matcher.go) notes, among the caches and slots that it sees.
use proxycache.Base.{
  ap, ◌∙◌, ◌⊎◌, if_both, subst, arith, ◌≡◌, refl, sym, inl, inr, ℕ, zero, suc, String, true, false,
  ◌||◌, ◌&&◌, Option, none, some, List, [], ◌∷◌, get_elem?, str_eq, Bool-cases, Option-cases,
  FloatOps, FloatLaws, not-lt_of_lt, pos,
}
use proxycache.Config.{Config}
use proxycache.Dispatch.Scan.{
  Tokenized, token_ids, status_error, conn_error, other_error, ScanEnv, Scan, no_hit,
  note_best_disk, note_disk_hit, note_disk, pending_ratio, note_slot, note_slots, note_ratio,
  blocks_of, disk_of, scan_cache, scan_tokens, scan_answer, scan_pair, scan_pairs,
}
use proxycache.Dispatch.Scanned.{HasTokens}

module _ {F T : Type 0} ⦃fl : FloatOps F⦄ where
  -- There is a hit, and its ratio is not below the given one.
  abbrev pub Reaches : F → Scan F T → Type 0
  Reaches ratio s = (no_hit s ≡ false) × (fl.lt s.best_ratio ratio ≡ false)

  abbrev Reaching : F → Option (Scan F T) → Type 0
  Reaching ratio none = Unit
  Reaching ratio (some s) = Reaches ratio s

module _ {F T : Type 0} ⦃fl : FloatOps F⦄ (laws : FloatLaws fl) (cfg : Config F)
    (env : ScanEnv F T) where
  note_best_disk-Reaches :
      (r : F) (backend key : String) (ratio : F) (s : Scan F T)
      → Reaches r s
      → Reaches r (note_best_disk backend key ratio s)
  unfolding note_best_disk
  note_best_disk-Reaches r backend key ratio s h =
      elim (Bool-cases (str_eq s.best_disk_key "" || fl.lt s.best_disk_ratio ratio)) [
        | inl t ↦ rw (t, note_best_disk) h
        | inr f ↦ rw (f, note_best_disk) h
      ]

  note_disk_hit-Reaches :
      (r : F) (model backend key : String) (ratio : F) (s : Scan F T)
      → Reaches r s
      → Reaches r (note_disk_hit model backend key ratio s)
  unfolding note_disk_hit
  note_disk_hit-Reaches r model backend key ratio s h =
      elim (Bool-cases (no_hit s || fl.lt s.best_ratio ratio)) [
        | inl t ↦
            let up : fl.lt s.best_ratio ratio ≡ true = ground arith in
            rw (t, note_disk_hit) (refl, not-lt_of_lt laws s.best_ratio ratio r up h.1)
        | inr f ↦ rw (f, note_disk_hit) h
      ]

  -- The ratio that is tested is reached.
  note_disk_hit-Reached :
      (model backend key : String) (ratio : F) (s : Scan F T)
      → Reaches ratio (note_disk_hit model backend key ratio s)
  unfolding note_disk_hit
  note_disk_hit-Reached model backend key ratio s =
      elim (Bool-cases (no_hit s || fl.lt s.best_ratio ratio)) [
        | inl t ↦ rw (t, note_disk_hit) (refl, laws.not-lt_of_le ratio ratio (laws.le_refl ratio))
        | inr f ↦ rw (f, note_disk_hit) (ground arith, ground arith)
      ]

  note_disk-Reaches :
      (r : F) (model backend : String) (found : Option (String × F)) (s : Scan F T)
      → Reaches r s
      → Reaches r (note_disk model backend found s)
  unfolding note_disk
  note_disk-Reaches r model backend none s h = h
  note_disk-Reaches r model backend (some (key, ratio)) s h =
      note_disk_hit-Reaches r model backend key ratio _
        (note_best_disk-Reaches r backend key ratio s h)

  note_slot-Reaches :
      (r : F) (model backend : String) (found : Option F) (s : Scan F T)
      → Reaches r s
      → Reaches r (note_slot cfg model backend found s)
  unfolding note_slot
  note_slot-Reaches r model backend none s h = h
  note_slot-Reaches r model backend (some ratio) s h =
      elim (Bool-cases (fl.le cfg.lcp_th ratio && (no_hit s || fl.le s.best_ratio ratio))) [
        | inl t ↦
            let up : fl.le s.best_ratio ratio ≡ true = ground arith in
            let below : fl.le r ratio ≡ true =
              laws.le_trans r s.best_ratio ratio (laws.le_of_not-lt s.best_ratio r h.1) up in
            rw (t, note_slot) (refl, laws.not-lt_of_le r ratio below)
        | inr f ↦ rw (f, note_slot) h
      ]

  note_slots-Reaches :
      (r : F) (model backend : String) (blocks : List String) (kvs : List (List String))
      (s : Scan F T)
      → Reaches r s
      → Reaches r (note_slots cfg model backend blocks kvs s)
  unfolding note_slots
  note_slots-Reaches r model backend blocks [] s h = h
  note_slots-Reaches r model backend blocks (kv ∷ kvs) s h =
      note_slots-Reaches r model backend blocks kvs _
        (note_slot-Reaches r model backend (pending_ratio blocks kv) s h)

  note_ratio-Reaches :
      (r : F) (backend : String) (best : F) (s : Scan F T)
      → Reaches r s
      → Reaches r (note_ratio backend best s)
  unfolding note_ratio
  note_ratio-Reaches r backend best s h = elim (Bool-cases (fl.lt (fl.of_int (pos 0)) best)) [
    | inl t ↦ rw (t, note_ratio) h
    | inr f ↦ rw (f, note_ratio) h
  ]

  scan_cache-Reaches :
      (r : F) (model backend : String) (blocks : List String) (s : Scan F T)
      → Reaches r s
      → Reaches r (scan_cache cfg env model backend blocks s)
  unfolding scan_cache
  scan_cache-Reaches r model backend blocks s h = note_ratio-Reaches r backend _ _ (
      note_slots-Reaches r model backend blocks (env.kv_states backend) _
        (note_disk-Reaches r model backend (disk_of cfg env blocks model backend) s h))

  scan_tokens-Reaches :
      (r : F) (model backend : String) (ts : List T) (s : Scan F T)
      → Reaches r s
      → Reaches r (scan_tokens cfg env model backend ts s)
  unfolding scan_tokens
  scan_tokens-Reaches r model backend ts s h =
      if_both (Reaches r) (env.cache_enabled backend)
        (scan_cache-Reaches r model backend (blocks_of cfg env ts) _ h) h

  scan_answer-Reaching :
      (r : F) (model backend : String) (answer : Tokenized T) (s : Scan F T)
      → Reaches r s
      → Reaching r (scan_answer cfg env model backend answer s)
  unfolding scan_answer
  scan_answer-Reaching r model backend (token_ids ts) s h =
      scan_tokens-Reaches r model backend ts s h
  scan_answer-Reaching r model backend (status_error code) s h = tt
  scan_answer-Reaching r model backend conn_error s h = h
  scan_answer-Reaching r model backend other_error s h = tt

  scan_pair-Reaching :
      (r : F) (pair : String × String) (s : Scan F T)
      → Reaches r s
      → Reaching r (scan_pair cfg env pair s)
  unfolding scan_pair
  scan_pair-Reaching r (model, backend) s h =
      if_both (Reaching r) (env.live model backend)
        (scan_answer-Reaching r model backend (env.tokens model backend) s h) h

  scan_pairs-Reaching :
      (r : F) (pairs : List (String × String)) (s : Scan F T)
      → Reaches r s
      → Reaching r (scan_pairs cfg env pairs s)
  unfolding scan_pairs
  scan_pairs-Reaching r [] s h = h
  scan_pairs-Reaching r (pair ∷ pairs) s h = elim (Option-cases (scan_pair cfg env pair s)) [
    | inl n ↦ rw (n, scan_pairs) tt
    | inr (t, e) ↦
        rw (e, scan_pairs)
          (scan_pairs-Reaching r pairs t (subst (Reaching r) e (scan_pair-Reaching r pair s h)))
  ]

  note_disk-Reached :
      (model backend key : String) (ratio : F) (found : Option (String × F)) (s : Scan F T)
      → found ≡ some (key, ratio)
      → Reaches ratio (note_disk model backend found s)
  unfolding note_disk
  note_disk-Reached model backend key ratio found s e =
      subst (λ o. Reaches ratio (note_disk model backend o s)) (sym e)
        (note_disk_hit-Reached model backend key ratio _)

  scan_cache-Reached :
      (model backend key : String) (ratio : F) (blocks : List String) (s : Scan F T)
      → disk_of cfg env blocks model backend ≡ some (key, ratio)
      → Reaches ratio (scan_cache cfg env model backend blocks s)
  unfolding scan_cache
  scan_cache-Reached model backend key ratio blocks s d = note_ratio-Reaches ratio backend _ _ (
      note_slots-Reaches ratio model backend blocks (env.kv_states backend) _
        (note_disk-Reached model backend key ratio _ s d))

  -- Noting a slot whose ratio is high enough reaches it.
  note_slot-Reached :
      (model backend : String) (ratio : F) (found : Option F) (s : Scan F T)
      → found ≡ some ratio
      → fl.le cfg.lcp_th ratio ≡ true
      → Reaches ratio (note_slot cfg model backend found s)
  unfolding note_slot
  note_slot-Reached model backend ratio found s e high =
      elim (Bool-cases (fl.le cfg.lcp_th ratio && (no_hit s || fl.le s.best_ratio ratio))) [
        | inl t ↦ rw (e, t, note_slot) (refl, laws.not-lt_of_le ratio ratio (laws.le_refl ratio))
        | inr f ↦
            let hit : no_hit s ≡ false = ground arith in
            let above : fl.lt s.best_ratio ratio ≡ false =
              ground (arith, laws.le_of_lt s.best_ratio ratio) in
            rw (e, f, note_slot) (hit, above)
      ]

  note_slots-Reached :
      (model backend : String) (ratio : F) (blocks : List String) (kvs : List (List String))
      (s : Scan F T) (i : ℕ) (kv : List String)
      → get_elem? kvs i ≡ some kv
      → pending_ratio blocks kv ≡ some ratio
      → fl.le cfg.lcp_th ratio ≡ true
      → Reaches ratio (note_slots cfg model backend blocks kvs s)
  unfolding note_slots
  note_slots-Reached model backend ratio blocks [] s i kv m e high = absurd (ground arith)
  note_slots-Reached model backend ratio blocks (k ∷ kvs) s zero kv m e high =
      let same : k ≡ kv = ground arith in
      note_slots-Reaches ratio model backend blocks kvs _
        (note_slot-Reached model backend ratio _ s (ap (pending_ratio blocks) same ∙ e) high)
  note_slots-Reached model backend ratio blocks (k ∷ kvs) s (suc i) kv m e high =
      note_slots-Reached model backend ratio blocks kvs _ i kv m e high

  -- What a backend has for the request's blocks: a candidate on disk, or a slot whose ratio is not
  -- below the threshold.
  abbrev pub Offers : String → String → List T → F → Type 0
  Offers model backend ts ratio =
      ((key : String) × (disk_of cfg env (blocks_of cfg env ts) model backend ≡ some (key, ratio)))
      ⊎ ((i : ℕ) × (kv : List String) × (get_elem? (env.kv_states backend) i ≡ some kv)
          × (pending_ratio (blocks_of cfg env ts) kv ≡ some ratio)
          × (fl.le cfg.lcp_th ratio ≡ true))

  scan_cache-Offered :
      (model backend : String) (ratio : F) (ts : List T) (s : Scan F T)
      → Offers model backend ts ratio
      → Reaches ratio (scan_cache cfg env model backend (blocks_of cfg env ts) s)
  unfolding scan_cache
  scan_cache-Offered model backend ratio ts s (inl (key, d)) =
      scan_cache-Reached model backend key ratio (blocks_of cfg env ts) s d
  scan_cache-Offered model backend ratio ts s (inr (i, kv, m, e, high)) =
      note_ratio-Reaches ratio backend _ _ (
        note_slots-Reached model backend ratio (blocks_of cfg env ts) (env.kv_states backend) _ i kv
          m e high)

  -- The round of a pair reaches what its backend offers.
  scan_pair-Reached :
      (model backend : String) (ratio : F) (ts : List T) (s : Scan F T)
      → HasTokens cfg env model backend ts
      → Offers model backend ts ratio
      → Reaching ratio (scan_pair cfg env (model, backend) s)
  unfolding scan_pair scan_answer scan_tokens
  scan_pair-Reached model backend ratio ts s (l, e, c) o =
      rw (l, scan_pair)
        (rw (e, scan_answer) (rw (c, scan_tokens) (scan_cache-Offered model backend ratio ts _ o)))

  pairs-Reached :
      (pairs : List (String × String)) (s : Scan F T) (i : ℕ) (model backend : String) (ts : List T)
      (ratio : F)
      → get_elem? pairs i ≡ some (model, backend)
      → HasTokens cfg env model backend ts
      → Offers model backend ts ratio
      → Reaching ratio (scan_pairs cfg env pairs s)
  unfolding scan_pairs
  pairs-Reached [] s i model backend ts ratio m h d = absurd (ground arith)
  pairs-Reached (pair ∷ pairs) s zero model backend ts ratio m h d =
      let same : pair ≡ (model, backend) = ground arith in
      let first : Reaching ratio (scan_pair cfg env pair s) =
        subst (λ p. Reaching ratio (scan_pair cfg env p s)) (sym same)
          (scan_pair-Reached model backend ratio ts s h d) in
      elim (Option-cases (scan_pair cfg env pair s)) [
        | inl n ↦ rw (n, scan_pairs) tt
        | inr (t, e) ↦
            rw (e, scan_pairs) (scan_pairs-Reaching ratio pairs t (subst (Reaching ratio) e first))
      ]
  pairs-Reached (pair ∷ pairs) s (suc i) model backend ts ratio m h d =
      elim (Option-cases (scan_pair cfg env pair s)) [
        | inl n ↦ rw (n, scan_pairs) tt
        | inr (t, e) ↦ rw (e, scan_pairs) (pairs-Reached pairs t i model backend ts ratio m h d)
      ]

  -- On floats that compare as finite numbers do (`FloatLaws`), a scan that ends well notes the
  -- strongest hit: where a pair that it visits is of a live backend with a cache, and that backend
  -- has for the request's blocks a candidate on disk, or a slot whose ratio is not below the
  -- threshold, the scan has a hit, and the ratio of the candidate or slot is not above the hit's.
  pub scan_pairs-Reached :
      (pairs : List (String × String)) (s after : Scan F T) (i : ℕ) (model backend : String)
      (ts : List T) (ratio : F)
      → scan_pairs cfg env pairs s ≡ some after
      → get_elem? pairs i ≡ some (model, backend)
      → HasTokens cfg env model backend ts
      → Offers model backend ts ratio
      → Reaches ratio after
  scan_pairs-Reached pairs s after i model backend ts ratio e m h d =
      subst (Reaching ratio) e (pairs-Reached pairs s i model backend ts ratio m h d)
