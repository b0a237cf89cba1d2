-- ===== src/Dispatch/Hits.antt =====
-- The loop of `SelectBackend` (matcher.go) over the candidates of the hit backend.
use proxycache.Base.{
  ℕ, zero, suc, ◌+◌, ◌<◌, ◌≡◌, refl, ◌∙◌, ◌⊎◌, inl, inr, true, false, ◌&&◌, Option, none, some,
  List, [], ◌∷◌, ◌++◌, arith, All, any, length, get_elem?, str_eq, str_eq_iff, Bool-cases,
}
use proxycache.Dispatch.{CandidateBackend, HitInfo, hit_from}

pub get_elem?_lt :
    (cands : List CandidateBackend) (i : ℕ)
    → i < length cands
    → (c : CandidateBackend) × (get_elem? cands i ≡ some c)
get_elem?_lt [] i h = absurd (omega arith)
get_elem?_lt (c ∷ cs) zero h = (c, refl)
get_elem?_lt (c ∷ cs) (suc i) h = get_elem?_lt cs i (omega arith)

pub lt-get_elem? :
    (cands : List CandidateBackend) (i : ℕ) (c : CandidateBackend)
    → get_elem? cands i ≡ some c
    → i < length cands
lt-get_elem? [] i c h = ground arith
lt-get_elem? (x ∷ xs) zero c h = omega arith
lt-get_elem? (x ∷ xs) (suc i) c h = let ih = lt-get_elem? xs i c h in omega arith

pub All-middle : (P : ℕ → Type 0) (xs ys : List ℕ) (i : ℕ) → All P (xs ++ i ∷ ys) → P i
All-middle P [] ys i a = a.0
All-middle P (x ∷ xs) ys i a = All-middle P xs ys i a.1

pub same_candidate :
    (cands : List CandidateBackend) (i : ℕ) (c d : CandidateBackend)
    → get_elem? cands i ≡ some c
    → get_elem? cands i ≡ some d
    → c ≡ d
same_candidate cands i c d h k = ground arith

-- A candidate on the hit backend, at position `k`.
abbrev pub OnHit : HitInfo → List CandidateBackend → ℕ → CandidateBackend → Type 0
OnHit hit cs k c = (get_elem? cs k ≡ some c) × (c.backend_id ≡ hit.backend)

abbrev Found : HitInfo → ℕ → List CandidateBackend → ℕ → Type 0
Found hit i cs j = (k : ℕ) × (c : CandidateBackend) × (j ≡ i + k) × OnHit hit cs k c

pub Found-suc :
    (hit : HitInfo) (i : ℕ) (c : CandidateBackend) (cs : List CandidateBackend) (j : ℕ)
    → Found hit (suc i) cs j
    → Found hit i (c ∷ cs) j
Found-suc hit i c cs j (k, d, e, on) = (suc k, d, omega arith, on)

pub hit_from-OnHit :
    (hit : HitInfo) (i : ℕ) (first : Option ℕ) (cs : List CandidateBackend) (j : ℕ)
    → hit_from hit i first cs ≡ some j
    → (first ≡ some j) ⊎ Found hit i cs j
unfolding hit_from
hit_from-OnHit hit i first [] j h = inl h
hit_from-OnHit hit i first (c ∷ cs) j h = elim (Bool-cases (str_eq c.backend_id hit.backend)) [
  | inr f ↦
      let later : hit_from hit (suc i) first cs ≡ some j = ground arith in
      elim (hit_from-OnHit hit (suc i) first cs j later) [
        | inl e ↦ inl e
        | inr found ↦ inr (Found-suc hit i c cs j found)
      ]
  | inl t ↦
      let on : c.backend_id ≡ hit.backend = (str_eq_iff c.backend_id hit.backend).0 t in
      elim (Bool-cases (str_eq c.model_name hit.canonical)) [
        | inl m ↦ inr (0, c, ground arith, (refl, on))
        | inr m ↦
            noted on first (λ e. ground arith)
              (hit_from-OnHit hit (suc i) (elim first [ none ↦ some i | some x ↦ some x ]) cs j)
              refl
      ]
]
  where
    noted :
        c.backend_id ≡ hit.backend
        → (o : Option ℕ)
        → (first ≡ o
            → hit_from hit (suc i) (elim o [ none ↦ some i | some x ↦ some x ]) cs ≡ some j)
        → (hit_from hit (suc i) (elim o [ none ↦ some i | some x ↦ some x ]) cs ≡ some j
            → ((elim o [ none ↦ some i | some x ↦ some x ]) ≡ some j) ⊎ Found hit (suc i) cs j)
        → first ≡ o
        → (first ≡ some j) ⊎ Found hit i (c ∷ cs) j
    noted on none h ih e = elim (ih (h e)) [
      | inl same ↦ inr (0, c, ground arith, (refl, on))
      | inr found ↦ inr (Found-suc hit i c cs j found)
    ]
    noted on (some x) h ih e = elim (ih (h e)) [
      | inl same ↦ inl (e ∙ same)
      | inr found ↦ inr (Found-suc hit i c cs j found)
    ]

-- Without a candidate on the hit backend the loop finds none.
pub hit_from-not_any :
    (hit : HitInfo) (i : ℕ) (cs : List CandidateBackend)
    → any (λ c. str_eq c.backend_id hit.backend) cs ≡ false
    → hit_from hit i none cs ≡ none
unfolding hit_from
hit_from-not_any hit i [] h = refl
hit_from-not_any hit i (c ∷ cs) h = ground (arith, hit_from-not_any hit (suc i) cs)

pub hit_from-none :
    (hit : HitInfo) (i : ℕ) (first : Option ℕ) (cs : List CandidateBackend)
    → hit_from hit i first cs ≡ none
    → (first ≡ none) × (any (λ c. str_eq c.backend_id hit.backend) cs ≡ false)
unfolding hit_from
hit_from-none hit i first [] h = (h, refl)
hit_from-none hit i none (c ∷ cs) h =
    ground (arith, hit_from-none hit (suc i) none cs, hit_from-none hit (suc i) (some i) cs)
hit_from-none hit i (some x) (c ∷ cs) h = ground (arith, hit_from-none hit (suc i) (some x) cs)

-- With a candidate of the hit's own model on the hit backend, such a one is chosen.
pub hit_from-model :
    (hit : HitInfo) (i : ℕ) (first : Option ℕ) (cs : List CandidateBackend)
    → any (λ c. str_eq c.backend_id hit.backend && str_eq c.model_name hit.canonical) cs ≡ true
    → (k : ℕ) × (c : CandidateBackend) × (hit_from hit i first cs ≡ some (i + k))
      × OnHit hit cs k c
      × (c.model_name ≡ hit.canonical)
unfolding hit_from
hit_from-model hit i first [] h = ground arith
hit_from-model hit i first (c ∷ cs) h =
    elim (Bool-cases (str_eq c.backend_id hit.backend && str_eq c.model_name hit.canonical)) [
      | inl t ↦ (
        0,
        c,
        ground arith,
        (refl, ground (arith, str_eq_iff c.backend_id hit.backend)),
        ground (arith, str_eq_iff c.model_name hit.canonical),
      )
      | inr f ↦
          let rest : any (λ d. str_eq d.backend_id hit.backend && str_eq d.model_name hit.canonical)
                cs
              ≡ true =
            ground arith in
          elim (Bool-cases (str_eq c.backend_id hit.backend)) [
            | inr away ↦
                let (k, d, e, on, m) = hit_from-model hit (suc i) first cs rest in
                (suc k, d, ground arith, on, m)
            | inl there ↦
                let (k, d, e, on, m) =
                  hit_from-model hit (suc i) (elim first [ none ↦ some i | some x ↦ some x ]) cs
                    rest in
                (suc k, d, ground arith, on, m)
          ]
    ]
