-- ===== src/Meta/Best.antt =====
-- The candidate that `FindBestRestoreCandidate` of kvmeta.go finds.
use proxycache.Base.{
  ℕ, pos, ◌≡◌, refl, inl, inr, ◌⊎◌, String, Bool, true, false, ◌&&◌, Option, none, some, List, [],
  ◌∷◌, All, arith, FloatOps, FloatLaws, not-lt_of_lt, lt_of_le_lt, subst,
}
use mathlib.Core.List.{Memᴰ}
use proxycache.Meta.{MetaDoc, MetaTree}
use proxycache.Meta.Search.{
  Best, scan_all_meta, lcp_ratio, eligible, score, better, best_from, no_best,
  find_best_restore_candidate,
}

module _ {F : Type 0} ⦃fl : FloatOps F⦄ (req : List String) (wpb : ℕ) (th : F)
    (model backend : String) where
  -- A document that the search may choose.
  abbrev pub is_candidate : MetaDoc F → Bool
  is_candidate doc = eligible req wpb model backend doc && fl.le th (lcp_ratio req doc.blocks)

  abbrev Unbeaten : F → MetaDoc F → Type 0
  Unbeaten s doc = is_candidate doc ≡ true → fl.lt s (score req doc) ≡ false

  abbrev FoundIn : Best F → List (MetaDoc F) → Type 0
  FoundIn best docs =
      (doc : MetaDoc F) × Memᴰ doc docs
      × (is_candidate doc ≡ true)
      × (best ≡ record {
        key = doc.key;
        ratio = lcp_ratio req doc.blocks;
        score = score req doc;
        found = true;
      })
      × (fl.lt (fl.of_int (pos 0)) (score req doc) ≡ true)

  better-found :
      (laws : FloatLaws fl) (best : Best F) (doc : MetaDoc F)
      → fl.le (fl.of_int (pos 0)) best.score ≡ true
      → (better req wpb th model backend best doc ≡ best)
        ⊎ ((is_candidate doc ≡ true)
            × (better req wpb th model backend best doc ≡ record {
              key = doc.key;
              ratio = lcp_ratio req doc.blocks;
              score = score req doc;
              found = true;
            })
            × (fl.lt (fl.of_int (pos 0)) (score req doc) ≡ true))
  unfolding better
  better-found laws best doc h =
      ground (arith, lt_of_le_lt laws (fl.of_int (pos 0)) best.score (score req doc))

  best_from-found :
      (laws : FloatLaws fl) (docs : List (MetaDoc F)) (best : Best F)
      → fl.le (fl.of_int (pos 0)) best.score ≡ true
      → (best_from req wpb th model backend best docs ≡ best)
        ⊎ FoundIn (best_from req wpb th model backend best docs) docs
  unfolding best_from
  best_from-found laws [] best h = inl refl
  best_from-found laws (doc ∷ docs) best h = elim (better-found laws best doc h) [
    | inl same ↦ rw same (elim (best_from-found laws docs best h) [
      | inl e ↦ inl e
      | inr (d, m, c', q, p') ↦ inr (d, Memᴰ.tail m, c', q, p')
    ])
    | inr (c, e, p) ↦ rw e (elim (best_from-found laws docs _ (laws.le_of_lt _ _ p)) [
      | inl q ↦ inr (doc, Memᴰ.head refl, c, q, p)
      | inr (d, m, c', q, p') ↦ inr (d, Memᴰ.tail m, c', q, p')
    ])
  ]

  better_mono :
      (laws : FloatLaws fl) (best : Best F) (doc : MetaDoc F) (x : F)
      → fl.lt best.score x ≡ false
      → fl.lt (better req wpb th model backend best doc).score x ≡ false
  unfolding better
  better_mono laws best doc x h = ground (arith, not-lt_of_lt laws best.score (score req doc) x)

  better-Unbeaten :
      (laws : FloatLaws fl) (best : Best F) (doc : MetaDoc F)
      → Unbeaten (better req wpb th model backend best doc).score doc
  unfolding better
  better-Unbeaten laws best doc c =
      ground
        (arith, laws.not-lt_of_le (score req doc) (score req doc), laws.le_refl (score req doc))

  best_from_mono :
      (laws : FloatLaws fl) (best : Best F) (docs : List (MetaDoc F)) (x : F)
      → fl.lt best.score x ≡ false
      → fl.lt (best_from req wpb th model backend best docs).score x ≡ false
  unfolding best_from
  best_from_mono laws best [] x h = h
  best_from_mono laws best (doc ∷ docs) x h =
      best_from_mono laws (better req wpb th model backend best doc) docs x
        (better_mono laws best doc x h)

  best_from-Unbeaten :
      (laws : FloatLaws fl) (docs : List (MetaDoc F)) (best : Best F)
      → All (Unbeaten (best_from req wpb th model backend best docs).score) docs
  unfolding best_from
  best_from-Unbeaten laws [] best = tt
  best_from-Unbeaten laws (doc ∷ docs) best = (
    λ c.
        best_from_mono laws (better req wpb th model backend best doc) docs (score req doc)
          (better-Unbeaten laws best doc c),
    best_from-Unbeaten laws docs (better req wpb th model backend best doc),
  )

  -- What the search may answer: nothing, and then no candidate among the scanned files has a
  -- positive score; or the key and ratio of a candidate whose score is positive and which no other
  -- candidate beats.
  abbrev pub IsBestAnswer : List (MetaDoc F) → Option (String × F) → Type 0
  IsBestAnswer docs none = All (Unbeaten (fl.of_int (pos 0))) docs
  IsBestAnswer docs (some (key, ratio)) =
      (doc : MetaDoc F) × Memᴰ doc docs
      × (is_candidate doc ≡ true)
      × (key ≡ doc.key)
      × (ratio ≡ lcp_ratio req doc.blocks)
      × (fl.lt (fl.of_int (pos 0)) (score req doc) ≡ true)
      × All (Unbeaten (score req doc)) docs

  -- Where float comparison obeys the laws of `FloatLaws`: the answer of `FindBestRestoreCandidate`
  -- is the key and the ratio of a scanned file that is eligible and reaches the threshold, with a
  -- positive score that no other such file beats; without an answer no such file has a positive
  -- score.
  pub find_best-IsBestAnswer :
      FloatLaws fl
      → (tree : MetaTree F)
      → IsBestAnswer
          (scan_all_meta tree backend)
          (find_best_restore_candidate tree req wpb th model backend)
  unfolding find_best_restore_candidate
  find_best-IsBestAnswer laws tree =
      let docs = scan_all_meta tree backend in
      let all = best_from-Unbeaten laws docs no_best in
      elim (best_from-found laws docs no_best (laws.le_refl _)) [
        | inl e ↦ rw e (subst (λ b. All (Unbeaten b.score) docs) e all)
        | inr (doc, m, c, e, p) ↦
            rw e (doc, m, c, refl, refl, p, subst (λ b. All (Unbeaten b.score) docs) e all)
      ]
