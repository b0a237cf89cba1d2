-- ===== src/Dispatch/MatchTests.antt =====
-- `match` of matcher.go on two backends, of which the first has the cache on disk and a long queue.
use proxycache.Base.{
  inl, ℤ, pos, ◌≡◌, refl, String, true, Option, none, some, List, [], ◌∷◌, append, lookup, insert,
  or_else, str_eq, if◌then◌else◌, string_eq,
}
use proxycache.Config.{Config}
use proxycache.Samples.{milli, milli_laws, defaults}
use proxycache.Hashing.{lcp_blocks, block_hashes_from_tokens}
use proxycache.Meta.{MetaTree, meta_dir, write_meta}
use proxycache.Meta.Search.{find_best_restore_candidate}
use proxycache.Dispatch.{select_backend}
use proxycache.Registry.{DiscoveredModel}
use proxycache.Dispatch.Arrivals.{routed}
use proxycache.Dispatch.Scan.{ScanEnv, Scan, token_ids, scan_pairs, start_scan, disk_of, blocks_of}
use proxycache.Dispatch.Match.{
  MatchEnv, MatchResult, rejected, matched, after_scan, match_request, answer_of,
}
use proxycache.Dispatch.Strongest.{Reaches, scan_pairs-Reached}
use proxycache.Dispatch.Routes.{IsRouted, match_request-IsRouted}

abbrev settings : Config ℤ
settings = record defaults { words_per_block = 2 }

abbrev join_all : List String → String
join_all [] = ""
join_all (t ∷ ts) = append t (join_all ts)

abbrev cached : MetaTree ℤ
cached = write_meta [] "k1" (pos 4) ("ab" ∷ "cd" ∷ []) 2 "llama" "gpu:1" (pos 64) (pos 1000)

abbrev prompt : List String
prompt = "a" ∷ "b" ∷ "c" ∷ "d" ∷ "e" ∷ []

abbrev answers : ScanEnv ℤ String
answers = record {
  live = λ model be. true;
  tokens = λ model be. token_ids prompt;
  hash = λ t. t;
  join = join_all;
  cache_enabled = λ be. true;
  kv_states = λ be. if str_eq be "gpu:2" then ("ab" ∷ "xy" ∷ []) ∷ [] else [];
  tree = cached;
  round = λ v. v;
}

abbrev llama : DiscoveredModel
llama = record {
  name = "llama";
  n_ctx = pos 4096;
  backends = "gpu:1" ∷ "gpu:2" ∷ [];
  backend_n_ctx = [];
  total_slots = 2;
}

abbrev env : MatchEnv ℤ String
env = record {
  scan = answers;
  known = llama ∷ [];
  rediscovered = [];
  live_first = λ be. true;
  sizing = λ be. token_ids prompt;
  live_choice = λ model be. true;
  pending_of = λ be. if str_eq be "gpu:1" then 3 else 1;
}

abbrev transfer_of : MatchResult ℤ String → Option (String × String × String)
transfer_of (rejected code) = none
transfer_of (matched m) = m.transfer

-- The hit's queue is too long: the second backend takes the request.
second_taken : answer_of (match_request settings env 0).0 ≡ routed "gpu:2"
unfolding match_request answer_of after_scan scan_pairs start_scan select_backend lookup insert
    write_meta meta_dir lcp_blocks find_best_restore_candidate block_hashes_from_tokens
second_taken = refl

-- The cache of the hit goes to the backend that takes the request.
cache_moves : transfer_of (match_request settings env 0).0 ≡ some ("gpu:1", "gpu:2", "k1")
unfolding match_request after_scan scan_pairs start_scan select_backend lookup insert write_meta
    meta_dir lcp_blocks find_best_restore_candidate block_hashes_from_tokens
cache_moves = refl

match_request-IsRouted_example : IsRouted settings env (match_request settings env 0).0
match_request-IsRouted_example = match_request-IsRouted settings env 0

abbrev both : List (String × String)
both = ("llama", "gpu:1") ∷ ("llama", "gpu:2") ∷ []

abbrev before : Scan ℤ String
before = start_scan "llama"

abbrev after : Scan ℤ String
after = or_else before (scan_pairs settings answers both before)

scan_ends : scan_pairs settings answers both before ≡ some after
unfolding scan_pairs start_scan lookup insert write_meta meta_dir lcp_blocks
    find_best_restore_candidate block_hashes_from_tokens
scan_ends = refl

found :
    disk_of settings answers (blocks_of settings answers prompt) "llama" "gpu:1"
    ≡ some ("k1", pos 666)
unfolding lookup insert write_meta meta_dir lcp_blocks find_best_restore_candidate
    block_hashes_from_tokens
found = refl

scan_pairs-Reached_example : Reaches (pos 666) after
scan_pairs-Reached_example =
    scan_pairs-Reached milli_laws settings answers both before after 0 "llama" "gpu:1" prompt
      (pos 666) scan_ends refl (refl, refl, refl) (inl ("k1", found))
