-- ===== src/Dispatch/Routes.antt =====
-- The routes that `match` (matcher.go) answers, with their candidates and transfers.
use proxycache.Base.{
  ◌≡◌, ◌≢◌, refl, inl, inr, ℕ, String, Bool, true, false, not, ◌&&◌, Option, none, some, List, [],
  ◌∷◌, arith, All, All-append, Bool-cases, if_both, str_eq, str_eq_iff, FloatOps, pos, leb_ℤ,
  length, eqb,
}
use proxycache.Config.{Config}
use proxycache.Registry.{DiscoveredModel}
use proxycache.Dispatch.{CandidateBackend, backend_at}
use proxycache.Dispatch.Scan.{
  Tokenized, token_ids, status_error, conn_error, other_error, Scan, start_scan,
}
use proxycache.Dispatch.Scanned.{HasDisk, DiskOf, IsScanned, IsScan, scan_pairs-IsScan}
use proxycache.Dispatch.Match.{
  MatchEnv, MatchResult, rejected, matched, options_of, first_live, min_n_ctx, pairs_of, pair_key,
  has_candidate, candidates_from, transfer_for, choose, after_scan, match_sized, match_live,
  match_options, match_request,
}

module _ {F T : Type 0} ⦃fl : FloatOps F⦄ (cfg : Config F) (env : MatchEnv F T) where
  -- The transfer moves a cache that the source has, to another backend.
  abbrev pub IsTransfer : Option (String × String × String) → Type 0
  IsTransfer none = Unit
  IsTransfer (some (source, target, key)) =
      (target ≢ source)
      × ((model : String) × (ratio : F) × HasDisk cfg env.scan model source key ratio)

  abbrev pub IsRouted : MatchResult F T → Type 0
  IsRouted (rejected code) = Unit
  IsRouted (matched m) =
      IsScanned cfg env.scan m.scan
      × All (λ c. env.live_choice c.model_name c.backend_id ≡ true) m.candidates
      × IsTransfer m.transfer

  candidates_from-All :
      (cands : List CandidateBackend) (pairs : List (String × String))
      → All (λ c. env.live_choice c.model_name c.backend_id ≡ true) cands
      → All
          (λ c. env.live_choice c.model_name c.backend_id ≡ true)
          (candidates_from env.live_choice cands pairs)
  unfolding candidates_from
  candidates_from-All cands [] h = h
  candidates_from-All cands ((model, be) ∷ pairs) h =
      elim (Bool-cases
        (env.live_choice model be && not (has_candidate (pair_key be model) cands))) [
          | inl t ↦
              let live : env.live_choice model be ≡ true = ground arith in
              rw (t, candidates_from)
                (candidates_from-All _ pairs (All-append _ cands _ h (live, tt)))
          | inr f ↦ rw (f, candidates_from) (candidates_from-All cands pairs h)
        ]

  transfer_for-IsTransfer :
      (s : Scan F T) (backend : String)
      → DiskOf cfg env.scan s.best_disk_key s.best_disk_backend s.best_disk_ratio
      → IsTransfer (transfer_for cfg env s backend)
  unfolding transfer_for
  transfer_for-IsTransfer s backend (inl (k, b)) =
      let cond : Bool =
        not (str_eq s.best_disk_key "") && not (str_eq backend s.best_disk_backend) in
      let e : cond ≡ false = ground (arith, str_eq_iff s.best_disk_key "") in
      rw (e, transfer_for) tt
  transfer_for-IsTransfer s backend (inr (model, h)) =
      elim (Bool-cases
        (not (str_eq s.best_disk_key "") && not (str_eq backend s.best_disk_backend))) [
          | inl t ↦
              let other : backend ≢ s.best_disk_backend =
                ground (arith, str_eq_iff backend s.best_disk_backend) in
              rw (t, transfer_for) (other, (model, s.best_disk_ratio, h))
          | inr f ↦ rw (f, transfer_for) tt
        ]

  selected-IsTransfer :
      (s : Scan F T) (cands : List CandidateBackend) (selected : Option ℕ)
      → DiskOf cfg env.scan s.best_disk_key s.best_disk_backend s.best_disk_ratio
      → IsTransfer
          (elim selected [ none ↦ none | some i ↦ transfer_for cfg env s (backend_at cands i) ])
  selected-IsTransfer s cands none h = tt
  selected-IsTransfer s cands (some i) h = transfer_for-IsTransfer s (backend_at cands i) h

  after_scan-IsRouted :
      (options : List DiscoveredModel) (ts : List T) (start : ℕ) (o : Option (Scan F T))
      → IsScan cfg env.scan o
      → IsRouted (after_scan cfg env options ts start o).0
  unfolding after_scan choose
  after_scan-IsRouted options ts start none h = tt
  after_scan-IsRouted options ts start (some s) h =
      (h, candidates_from-All [] (pairs_of options) tt, selected-IsTransfer s _ _ h.1)

  match_sized-IsRouted :
      (opt : DiscoveredModel) (opts : List DiscoveredModel) (answer : Tokenized T) (start : ℕ)
      → IsRouted (match_sized cfg env opt opts answer start).0
  unfolding match_sized start_scan
  match_sized-IsRouted opt opts (token_ids ts) start =
      if_both (λ (r : MatchResult F T × ℕ). IsRouted r.0)
        (leb_ℤ (min_n_ctx opt.n_ctx opts) (pos (length ts))) tt
        (after_scan-IsRouted (opt ∷ opts) ts start _ (
          scan_pairs-IsScan cfg env.scan (pairs_of (opt ∷ opts)) (start_scan opt.name)
            ((refl, refl, refl), inl (refl, refl))))
  match_sized-IsRouted opt opts (status_error code) start = tt
  match_sized-IsRouted opt opts conn_error start = tt
  match_sized-IsRouted opt opts other_error start = tt

  match_live-IsRouted :
      (opt : DiscoveredModel) (opts : List DiscoveredModel) (be : Option String) (start : ℕ)
      → IsRouted (match_live cfg env opt opts be start).0
  unfolding match_live
  match_live-IsRouted opt opts none start = tt
  match_live-IsRouted opt opts (some be) start = match_sized-IsRouted opt opts (env.sizing be) start

  match_options-IsRouted :
      (options : List DiscoveredModel) (start : ℕ)
      → IsRouted (match_options cfg env options start).0
  unfolding match_options
  match_options-IsRouted [] start = tt
  match_options-IsRouted (opt ∷ opts) start =
      if_both (λ (r : MatchResult F T × ℕ). IsRouted r.0) (eqb (length opt.backends) 0) tt
        (match_live-IsRouted opt opts (first_live env.live_first opt.backends) start)

  -- A match either ends with an error response, or routes on what is there: the cache hit that it
  -- notes is a cache on disk or the KV state of a slot, with the ratio noted, of a live backend
  -- that has a cache; its candidates are live; and a transfer that it asks for moves a cache that
  -- the source has on disk, to another backend.
  pub match_request-IsRouted : (start : ℕ) → IsRouted (match_request cfg env start).0
  unfolding match_request
  match_request-IsRouted start =
      match_options-IsRouted (options_of env.known env.rediscovered) start
