-- ===== src/Hashing/Blocks.antt =====
-- The loop of `BlockHashesFromTokens` in hashing.go, and what equal block hashes say of the tokens.
use proxycache.Base.{
  ℕ, zero, suc, ◌+◌, ◌*◌, ◌≤◌, ◌<◌, ◌≡◌, refl, ap, String, List, [], ◌∷◌, ◌++◌, map, arith, take,
  drop, length, length-drop, length-take-le, some, All,
}
use mathlib.Core.List.{flatten}
use native.Mathlib.Nat.{suc-add}
use proxycache.Hashing.{chunks, count_tokens, block_hashes_from_tokens, lcp_blocks}
use proxycache.Hashing.Lcp.{lcp_blocks_iff}

module _ {ℓ} {A : Type ℓ} where
  take-nil : (n : ℕ) → take {A = A} n [] ≡ []
  take-nil zero = refl
  take-nil (suc n) = refl

  drop-nil : (n : ℕ) → drop {A = A} n [] ≡ []
  drop-nil zero = refl
  drop-nil (suc n) = refl

  take-add : (m n : ℕ) (xs : List A) → take (m + n) xs ≡ take m xs ++ take n (drop m xs)
  take-add zero n xs = ground arith
  take-add (suc m) n [] = ground (arith, take-nil (suc m + n), take-nil n)
  take-add (suc m) n (x ∷ xs) = rw (suc-add m n) (ground (arith, take-add m n xs))

  take-take_add : (m n : ℕ) (xs : List A) → take m (take (m + n) xs) ≡ take m xs
  take-take_add zero n xs = ground arith
  take-take_add (suc m) n [] = ground (arith, take-nil (suc m + n))
  take-take_add (suc m) n (x ∷ xs) = rw (suc-add m n) (ground (arith, take-take_add m n xs))

  drop-take_add : (m n : ℕ) (xs : List A) → drop m (take (m + n) xs) ≡ take n (drop m xs)
  drop-take_add zero n xs = ground arith
  drop-take_add (suc m) n [] = ground (arith, take-nil (suc m + n), take-nil n)
  drop-take_add (suc m) n (x ∷ xs) = rw (suc-add m n) (ground (arith, drop-take_add m n xs))

  take-append-drop : (n : ℕ) (xs : List A) → take n xs ++ drop n xs ≡ xs
  take-append-drop zero xs = refl
  take-append-drop (suc n) [] = refl
  take-append-drop (suc n) (x ∷ xs) = ground (arith, take-append-drop n xs)

  pub flatten-chunks :
      (fuel wpb : ℕ) (ts : List A) → 0 < wpb → length ts ≤ fuel → flatten (chunks fuel wpb ts) ≡ ts
  unfolding chunks flatten
  flatten-chunks zero wpb [] h e = refl
  flatten-chunks zero wpb (t ∷ ts) h e = absurd (omega arith)
  flatten-chunks (suc fuel) wpb [] h e = refl
  flatten-chunks (suc fuel) wpb (t ∷ ts) h e =
      rw (flatten-chunks fuel wpb (drop wpb (t ∷ ts)) h (omega (arith, length-drop wpb (t ∷ ts))))
        (take-append-drop wpb (t ∷ ts))

  chunks-All : (fuel wpb : ℕ) (ts : List A) → All (λ b. length b ≤ wpb) (chunks fuel wpb ts)
  unfolding chunks
  chunks-All zero wpb ts = tt
  chunks-All (suc fuel) wpb [] = tt
  chunks-All (suc fuel) wpb (t ∷ ts) =
      (length-take-le wpb (t ∷ ts), chunks-All fuel wpb (drop wpb (t ∷ ts)))

  count_tokens_lem : (ts : List A) → count_tokens ts ≡ length ts
  count_tokens_lem [] = refl
  count_tokens_lem (t ∷ ts) = ap suc (count_tokens_lem ts)

  count_tokens-le : (ts : List A) → length ts ≤ count_tokens ts
  count_tokens-le ts = omega (arith, count_tokens_lem ts)

module _ {T : Type 0} (hash : List T → String) where
  -- With a collision-free hash, `k` equal block hashes mean equal tokens.
  take_of_hashes :
      ((a b : List T) → hash a ≡ hash b → a ≡ b)
      → (k f g wpb : ℕ) (ts us : List T) → k ≤ length (map hash (chunks f wpb ts))
      → k ≤ length (map hash (chunks g wpb us))
      → take k (map hash (chunks f wpb ts)) ≡ take k (map hash (chunks g wpb us))
      → take (k * wpb) ts ≡ take (k * wpb) us
  unfolding chunks
  take_of_hashes inj zero f g wpb ts us h i e = ground arith
  take_of_hashes inj (suc k) zero g wpb ts us h i e = absurd (omega arith)
  take_of_hashes inj (suc k) (suc f) zero wpb ts us h i e = absurd (omega arith)
  take_of_hashes inj (suc k) (suc f) (suc g) wpb [] us h i e = absurd (omega arith)
  take_of_hashes inj (suc k) (suc f) (suc g) wpb (t ∷ ts) [] h i e = absurd (omega arith)
  take_of_hashes inj (suc k) (suc f) (suc g) wpb (t ∷ ts) (u ∷ us) h i e = ground (
    arith,
    take-add wpb (k * wpb) (t ∷ ts),
    take-add wpb (k * wpb) (u ∷ us),
    inj (take wpb (t ∷ ts)) (take wpb (u ∷ us)),
    take_of_hashes inj k f g wpb (drop wpb (t ∷ ts)) (drop wpb (u ∷ us)),
  )

  -- Without any assumption, equal tokens have equal block hashes, and there are `k` of them.
  hashes_of_take :
      (k f g wpb : ℕ) (ts us : List T)
      → 0 < wpb
      → length ts ≤ f
      → length us ≤ g
      → k * wpb ≤ length ts
      → k * wpb ≤ length us
      → take (k * wpb) ts ≡ take (k * wpb) us
      → (k ≤ length (map hash (chunks f wpb ts)))
        × (k ≤ length (map hash (chunks g wpb us)))
        × (take k (map hash (chunks f wpb ts)) ≡ take k (map hash (chunks g wpb us)))
  unfolding chunks
  hashes_of_take zero f g wpb ts us p hf hg ht hu e = ground arith
  hashes_of_take (suc k) f g wpb [] us p hf hg ht hu e = absurd (grind arith)
  hashes_of_take (suc k) f g wpb (t ∷ ts) [] p hf hg ht hu e = absurd (grind arith)
  hashes_of_take (suc k) zero g wpb (t ∷ ts) (u ∷ us) p hf hg ht hu e = absurd (omega arith)
  hashes_of_take (suc k) (suc f) zero wpb (t ∷ ts) (u ∷ us) p hf hg ht hu e = absurd (omega arith)
  hashes_of_take (suc k) (suc f) (suc g) wpb (t ∷ ts) (u ∷ us) p hf hg ht hu e = ground (
    arith,
    hashes_of_take k f g wpb (drop wpb (t ∷ ts)) (drop wpb (u ∷ us)),
    length-drop wpb (t ∷ ts),
    length-drop wpb (u ∷ us),
    take-take_add wpb (k * wpb) (t ∷ ts),
    take-take_add wpb (k * wpb) (u ∷ us),
    drop-take_add wpb (k * wpb) (t ∷ ts),
    drop-take_add wpb (k * wpb) (u ∷ us),
  )

module _ {T : Type 0} (sha256_hex : String → String) (join_itoa : List T → String) where
  -- If no two blocks collide under sha256 of their joined tokens, prompts whose block hashes share
  -- their first blocks agree on all the tokens of those blocks.
  pub take_of_lcp_blocks :
      ((a b : List T) → sha256_hex (join_itoa a) ≡ sha256_hex (join_itoa b) → a ≡ b)
      → (ts us : List T) (wpb : ℕ) {bs cs : List String}
      → block_hashes_from_tokens sha256_hex join_itoa ts wpb ≡ some bs
      → block_hashes_from_tokens sha256_hex join_itoa us wpb ≡ some cs
      → take (lcp_blocks bs cs * wpb) ts ≡ take (lcp_blocks bs cs * wpb) us
  unfolding block_hashes_from_tokens
  take_of_lcp_blocks inj ts us wpb {bs} {cs} p q = ground (
    arith,
    lcp_blocks_iff (lcp_blocks bs cs) bs cs,
    take_of_hashes (λ (b : List T). sha256_hex (join_itoa b)) inj (lcp_blocks bs cs)
        (count_tokens ts) (count_tokens us) wpb ts us,
  )

  -- Whatever the hash: when two prompts have `k` whole blocks of tokens and agree on them, their
  -- block hashes share at least `k` blocks.
  pub le-lcp_blocks_of_tokens :
      (k wpb : ℕ) (ts us : List T) {bs cs : List String}
      → block_hashes_from_tokens sha256_hex join_itoa ts wpb ≡ some bs
      → block_hashes_from_tokens sha256_hex join_itoa us wpb ≡ some cs
      → k * wpb ≤ length ts
      → k * wpb ≤ length us
      → take (k * wpb) ts ≡ take (k * wpb) us
      → k ≤ lcp_blocks bs cs
  unfolding block_hashes_from_tokens
  le-lcp_blocks_of_tokens k wpb ts us {bs} {cs} p q ht hu e = ground (
    arith,
    lcp_blocks_iff k bs cs,
    count_tokens-le ts,
    count_tokens-le us,
    hashes_of_take (λ (b : List T). sha256_hex (join_itoa b)) k (count_tokens ts) (count_tokens us)
        wpb ts us,
  )

  -- With a positive block size the blocks exist, each has at most `wpb` tokens, and joined together
  -- they are the prompt.
  pub blocks_partition :
      (ts : List T) (wpb : ℕ)
      → 0 < wpb
      → let blocks = chunks (count_tokens ts) wpb ts in
        (block_hashes_from_tokens sha256_hex join_itoa ts wpb
          ≡ some (map (λ b. sha256_hex (join_itoa b)) blocks))
        × (flatten blocks ≡ ts)
        × All (λ b. length b ≤ wpb) blocks
  unfolding block_hashes_from_tokens
  blocks_partition ts wpb h = (
    ground arith,
    flatten-chunks (count_tokens ts) wpb ts h (count_tokens-le ts),
    chunks-All (count_tokens ts) wpb ts,
  )
