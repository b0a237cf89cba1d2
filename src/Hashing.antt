-- ===== src/Hashing.antt =====
-- hashing.go: block hashes of a prompt's tokens, and the longest common prefix of two block lists.
-- Hash and decimal printing are parameters; the loops are the source's.
pub mod Blocks
pub mod Lcp
pub mod Tests
use proxycache.Base.{
  ℕ, zero, suc, ◌+◌, String, Bool, true, false, Option, none, some, List, [], ◌∷◌, map, eqb,
  if◌then◌else◌, take, drop, str_eq, append,
}

-- `i += wpb` over the token list: the tokens of one block, then the rest. The fuel is the number
-- of tokens, and every round with `wpb > 0` takes at least one.
unfoldable pub chunks {ℓ} : {A : Type ℓ} → ℕ → ℕ → List A → List (List A)
chunks zero wpb ts = []
chunks (suc fuel) wpb [] = []
chunks (suc fuel) wpb (t ∷ ts) = take wpb (t ∷ ts) ∷ chunks fuel wpb (drop wpb (t ∷ ts))

abbrev count_tokens {ℓ} : {A : Type ℓ} → List A → ℕ
count_tokens [] = 0
count_tokens (t ∷ ts) = suc (count_tokens ts)

module _ {T : Type 0} (sha256_hex : String → String) (join_itoa : List T → String) where
  -- sha256 of the comma-joined token ids of one block.
  unfoldable pub block_hash : List T → String
  block_hash block = sha256_hex (join_itoa block)

  -- `MetaKey`: the name and the token ids of the whole prompt.
  unfoldable pub meta_key : String → List T → String
  meta_key canonical ts = sha256_hex (append canonical (append "\n" (join_itoa ts)))

  -- `none` stands for the panic of the division by zero at `wpb = 0`.
  unfoldable pub block_hashes_from_tokens : List T → ℕ → Option (List String)
  unfolding block_hash chunks
  block_hashes_from_tokens ts wpb =
      if eqb wpb 0 then none else some (map block_hash (chunks (count_tokens ts) wpb ts))

-- The number of leading blocks that two lists share.
unfoldable pub lcp_blocks : List String → List String → ℕ
lcp_blocks [] ys = 0
lcp_blocks (x ∷ xs) [] = 0
lcp_blocks (x ∷ xs) (y ∷ ys) = let rest = lcp_blocks xs ys in if str_eq x y then suc rest else 0
