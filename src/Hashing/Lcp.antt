-- ===== src/Hashing/Lcp.antt =====
-- What `LCPBlocks` of hashing.go computes: the length of the longest common prefix.
use proxycache.Base.{
  ℕ, zero, suc, ◌≤◌, ◌≡◌, refl, String, List, [], ◌∷◌, arith, take, length, ◌↔◌, str_eq_iff,
}
use proxycache.Hashing.{lcp_blocks}

pub lcp_blocks_comm : (xs ys : List String) → lcp_blocks xs ys ≡ lcp_blocks ys xs
unfolding lcp_blocks
lcp_blocks_comm [] [] = refl
lcp_blocks_comm [] (y ∷ ys) = refl
lcp_blocks_comm (x ∷ xs) [] = refl
lcp_blocks_comm (x ∷ xs) (y ∷ ys) =
    ground (arith, str_eq_iff x y, str_eq_iff y x, lcp_blocks_comm xs ys)

pub lcp_blocks-le : (xs ys : List String) → lcp_blocks xs ys ≤ length xs
unfolding lcp_blocks
lcp_blocks-le [] ys = omega arith
lcp_blocks-le (x ∷ xs) [] = omega arith
lcp_blocks-le (x ∷ xs) (y ∷ ys) = ground (arith, lcp_blocks-le xs ys)

-- The two lists agree on their first `lcp_blocks` blocks.
pub take-lcp_blocks :
    (xs ys : List String) → take (lcp_blocks xs ys) xs ≡ take (lcp_blocks xs ys) ys
unfolding lcp_blocks
take-lcp_blocks [] [] = refl
take-lcp_blocks [] (y ∷ ys) = refl
take-lcp_blocks (x ∷ xs) [] = refl
take-lcp_blocks (x ∷ xs) (y ∷ ys) = ground (arith, str_eq_iff x y, take-lcp_blocks xs ys)

-- `k` shared leading blocks are counted.
pub le-lcp_blocks :
    (k : ℕ) (xs ys : List String) → k ≤ length xs → take k xs ≡ take k ys → k ≤ lcp_blocks xs ys
unfolding lcp_blocks
le-lcp_blocks zero xs ys h e = omega arith
le-lcp_blocks (suc k) [] ys h e = absurd (omega arith)
le-lcp_blocks (suc k) (x ∷ xs) [] h e = ground arith
le-lcp_blocks (suc k) (x ∷ xs) (y ∷ ys) h e = ground (arith, str_eq_iff x y, le-lcp_blocks k xs ys)

-- `k` is at most the result exactly when both lists have `k` blocks and agree on them.
pub lcp_blocks_iff :
    (k : ℕ) (xs ys : List String)
    → (k ≤ lcp_blocks xs ys) ↔ ((k ≤ length xs) × (k ≤ length ys) × (take k xs ≡ take k ys))
unfolding lcp_blocks
lcp_blocks_iff zero xs ys = ground arith
lcp_blocks_iff (suc k) [] ys = ground arith
lcp_blocks_iff (suc k) (x ∷ xs) [] = ground arith
lcp_blocks_iff (suc k) (x ∷ xs) (y ∷ ys) = ground (arith, str_eq_iff x y, lcp_blocks_iff k xs ys)
