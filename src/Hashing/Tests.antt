-- ===== src/Hashing/Tests.antt =====
-- hashing.go on small prompts: characters for token ids, joined to a text, and no hash collisions.
use Prim.Native.Char.{Char}
use proxycache.Base.{◌*◌, ◌≡◌, refl, ap, String, some, List, [], ◌∷◌, arith, take}
use proxycache.Hashing.{block_hashes_from_tokens, lcp_blocks}
use proxycache.Hashing.Blocks.{take_of_lcp_blocks}

abbrev text_of : List Char → String
text_of [] = String.[]
text_of (c ∷ cs) = String.◌∷◌ c (text_of cs)

abbrev chars_of : String → List Char
chars_of String.[] = []
chars_of (String.◌∷◌ c s) = c ∷ chars_of s

abbrev same : String → String
same s = s

chars_of-text_of : (cs : List Char) → chars_of (text_of cs) ≡ cs
chars_of-text_of [] = refl
chars_of-text_of (c ∷ cs) = ap (λ ds. c ∷ ds) (chars_of-text_of cs)

text_of_inj : (a b : List Char) → text_of a ≡ text_of b → a ≡ b
text_of_inj a b h = ground (arith, chars_of-text_of a, chars_of-text_of b, ap chars_of h)

abbrev prompt : List Char
prompt = "a" ∷ "b" ∷ "c" ∷ "d" ∷ "e" ∷ []

abbrev longer : List Char
longer = "a" ∷ "b" ∷ "c" ∷ "d" ∷ "f" ∷ "g" ∷ []

prompt_hashes : block_hashes_from_tokens same text_of prompt 2 ≡ some ("ab" ∷ "cd" ∷ "e" ∷ [])
unfolding block_hashes_from_tokens
prompt_hashes = refl

longer_hashes : block_hashes_from_tokens same text_of longer 2 ≡ some ("ab" ∷ "cd" ∷ "fg" ∷ [])
unfolding block_hashes_from_tokens
longer_hashes = refl

take_of_lcp_blocks_example :
    take (lcp_blocks ("ab" ∷ "cd" ∷ "e" ∷ []) ("ab" ∷ "cd" ∷ "fg" ∷ []) * 2) prompt
    ≡ take (lcp_blocks ("ab" ∷ "cd" ∷ "e" ∷ []) ("ab" ∷ "cd" ∷ "fg" ∷ []) * 2) longer
take_of_lcp_blocks_example =
    take_of_lcp_blocks same text_of text_of_inj prompt longer 2 prompt_hashes longer_hashes

abbrev left : List String
left = "a" ∷ "b" ∷ []

abbrev right : List String
right = "a" ∷ "c" ∷ []
