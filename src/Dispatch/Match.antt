-- ===== src/Dispatch/Match.antt =====
-- `match` of matcher.go: the tests of a request before the scan, the scan over the backends of its
-- models, and the choice of a backend with the transfer that it asks for.
use proxycache.Base.{
  ℕ, ◌+◌, ◌%◌, ℤ, pos, leb_ℤ, ltb_ℤ, String, Bool, false, not, ◌&&◌, ◌||◌, Option, none, some, List,
  [], ◌∷◌, ◌++◌, length, eqb, append, if◌then◌else◌, str_eq, string_eq, FloatOps,
}
use proxycache.Config.{Config}
use proxycache.Registry.{DiscoveredModel}
use proxycache.Worker.{RouteDecision}
use proxycache.Dispatch.{CandidateBackend, backend_at, select_backend}
use proxycache.Dispatch.Arrivals.{MatchAnswer, failed, routed}
use proxycache.Dispatch.Scan.{
  Tokenized, token_ids, status_error, conn_error, other_error, ScanEnv, Scan, start_scan,
  scan_pairs,
}

-- The answers outside the scan: the models of the request, before and after another discovery, the
-- liveness and the tokens where the prompt is sized, the liveness for the candidates, the depths of
-- the queues, and whether a transfer is accepted.
pub record MatchEnv (F T : Type 0) : Type 0 where
  pub scan : ScanEnv F T
  pub known : List DiscoveredModel
  pub rediscovered : List DiscoveredModel
  pub live_first : String → Bool
  pub sizing : String → Tokenized T
  pub live_choice : String → String → Bool
  pub pending_of : String → ℕ

-- The response of an early error, with its status, or a route. `selected` is the index of the
-- candidate, none where no queue has room. `transfer` is the source, the target and the key of the
-- cache transfer that the match requests.
pub record Matched (F T : Type 0) : Type 0 where
  pub scan : Scan F T
  pub first_token_ids : List T
  pub candidates : List CandidateBackend
  pub selected : Option ℕ
  pub transfer : Option (String × String × String)

pub data MatchResult (F T : Type 0) : Type 0 where
  rejected : ℕ → MatchResult F T
  matched : Matched F T → MatchResult F T

-- `options`, after another discovery where there are none.
unfoldable pub options_of : List DiscoveredModel → List DiscoveredModel → List DiscoveredModel
options_of [] again = again
options_of (opt ∷ opts) again = opt ∷ opts

unfoldable pub first_live : (String → Bool) → List String → Option String
first_live live [] = none
first_live live (be ∷ bes) = let rest = first_live live bes in if live be then some be else rest

unfoldable pub min_n_ctx : ℤ → List DiscoveredModel → ℤ
min_n_ctx n [] = n
min_n_ctx n (opt ∷ opts) = min_n_ctx (if ltb_ℤ opt.n_ctx n then opt.n_ctx else n) opts

-- The pairs of an option's model with its backends, in the order of the two loops.
unfoldable pub pairs_with : String → List String → List (String × String)
pairs_with model [] = []
pairs_with model (be ∷ bes) = (model, be) ∷ pairs_with model bes

unfoldable pub pairs_of : List DiscoveredModel → List (String × String)
unfolding pairs_with
pairs_of [] = []
pairs_of (opt ∷ opts) = pairs_with opt.name opt.backends ++ pairs_of opts

abbrev pub pair_key : String → String → String
pair_key be model = append be (append "|" model)

-- `seen`: the joined text of the pair is that of a candidate.
unfoldable pub has_candidate : String → List CandidateBackend → Bool
has_candidate key [] = false
has_candidate key (c ∷ cs) = str_eq (pair_key c.backend_id c.model_name) key || has_candidate key cs

unfoldable pub candidates_from :
    (String → String → Bool)
    → List CandidateBackend
    → List (String × String)
    → List CandidateBackend
unfolding has_candidate
candidates_from live cands [] = cands
candidates_from live cands ((model, be) ∷ pairs) =
    candidates_from live
      (if live model be && not (has_candidate (pair_key be model) cands)
        then cands ++ record { backend_id = be; model_name = model } ∷ []
        else cands)
      pairs

module _ {F T : Type 0} ⦃fl : FloatOps F⦄ (cfg : Config F) (env : MatchEnv F T) where
  -- The transfer of the best disk cache to a selected backend that does not hold it.
  unfoldable pub transfer_for : Scan F T → String → Option (String × String × String)
  transfer_for s backend =
      if not (str_eq s.best_disk_key "") && not (str_eq backend s.best_disk_backend)
      then some (s.best_disk_backend, backend, s.best_disk_key)
      else none

  -- The end of `match`, from the candidates on. `start` is the round-robin index of the model.
  unfoldable pub choose : List DiscoveredModel → List T → ℕ → Scan F T → MatchResult F T × ℕ
  unfolding candidates_from pairs_of transfer_for
  choose options ts start s =
      let cands = candidates_from env.live_choice [] (pairs_of options) in
      let selected = (select_backend cfg env.pending_of cands s.hit start).0 in
      (
        matched (record {
          scan = s;
          first_token_ids = ts;
          candidates = cands;
          selected = selected;
          transfer = elim selected [ none ↦ none | some i ↦ transfer_for s (backend_at cands i) ];
        }),
        elim selected [ none ↦ start | some i ↦ (i + 1) % length cands ],
      )

  unfoldable pub after_scan :
      List DiscoveredModel → List T → ℕ → Option (Scan F T) → MatchResult F T × ℕ
  unfolding choose
  after_scan options ts start none = (rejected 500, start)
  after_scan options ts start (some s) = choose options ts start s

  -- From the sizing of the prompt on, with the statuses of `handleTokenizeError`.
  unfoldable pub match_sized :
      DiscoveredModel → List DiscoveredModel → Tokenized T → ℕ → MatchResult F T × ℕ
  unfolding after_scan min_n_ctx pairs_of
  match_sized opt opts (token_ids ts) start =
      if leb_ℤ (min_n_ctx opt.n_ctx opts) (pos (length ts))
      then (rejected 400, start)
      else after_scan (opt ∷ opts) ts start
          (scan_pairs cfg env.scan (pairs_of (opt ∷ opts)) (start_scan opt.name))
  match_sized opt opts (status_error code) start = (rejected code, start)
  match_sized opt opts conn_error start = (rejected 503, start)
  match_sized opt opts other_error start = (rejected 500, start)

  unfoldable pub match_live :
      DiscoveredModel → List DiscoveredModel → Option String → ℕ → MatchResult F T × ℕ
  unfolding match_sized
  match_live opt opts none start = (rejected 503, start)
  match_live opt opts (some be) start = match_sized opt opts (env.sizing be) start

  unfoldable pub match_options : List DiscoveredModel → ℕ → MatchResult F T × ℕ
  unfolding match_live first_live
  match_options [] start = (rejected 400, start)
  match_options (opt ∷ opts) start =
      if eqb (length opt.backends) 0
      then (rejected 502, start)
      else match_live opt opts (first_live env.live_first opt.backends) start

  -- `match`: its response or route, and the next round-robin index of the model.
  unfoldable pub match_request : ℕ → MatchResult F T × ℕ
  unfolding match_options options_of
  match_request start = match_options (options_of env.known env.rediscovered) start

-- The route that the worker takes, with the model of a selected candidate.
unfoldable pub route_of : {F T : Type 0} → Matched F T → String → RouteDecision F T
route_of m model = record {
  model_name = model;
  prompt_tokens = pos (length m.first_token_ids);
  first_token_ids = m.first_token_ids;
  backend_token_ids = m.scan.backend_token_ids;
  backend_blocks = m.scan.backend_blocks;
  backend_cache_ratios = m.scan.backend_cache_ratios;
  hit_type = m.scan.hit_type;
  best_ratio = m.scan.best_ratio;
  restore_key = m.scan.restore_key;
  restore_backend = m.scan.restore_backend;
  disk_restore_key = m.scan.best_disk_key;
  disk_restore_backend = m.scan.best_disk_backend;
}

-- What the arrival of a request makes of it.
unfoldable pub answer_of : {F T : Type 0} → MatchResult F T → MatchAnswer
answer_of (rejected code) = failed
answer_of (matched m) = routed (elim m.selected [ none ↦ "" | some i ↦ backend_at m.candidates i ])
