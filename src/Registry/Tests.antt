-- ===== src/Registry/Tests.antt =====
-- A discovery over three backends, of which one is down, and the theorem applied to it.
use proxycache.Base.{
  ℤ, pos, ◌≡◌, refl, String, Bool, false, not, Option, some, List, [], ◌∷◌, lookup, lookup_or,
  insert, str_eq, string_eq, if◌then◌else◌,
}
use proxycache.Registry.{
  BackendManager, discover_own_models, serves_model, get_model_n_ctx, get_backend_n_ctx,
}
use proxycache.Registry.Merged.{discover_own_models-serves}

abbrev up : String → Bool
up be = not (str_eq be "gpu:3")

abbrev discover : String → Option (List (String × ℤ))
discover be =
    if str_eq be "gpu:1"
    then some (("llama-3", pos 8192) ∷ ("qwen", pos 4096) ∷ [])
    else some (("llama-3", pos 4096) ∷ [])

abbrev keys : List String
keys = "gpu:1" ∷ "gpu:2" ∷ "gpu:3" ∷ []

abbrev empty : BackendManager
empty = record { discovered_models = []; model_order = [] }

abbrev found : BackendManager
found = (discover_own_models up discover keys empty).1

smallest : get_model_n_ctx (pos 16384) found "llama-3" ≡ pos 4096
unfolding discover_own_models get_model_n_ctx lookup lookup_or insert
smallest = refl

of_backend : get_backend_n_ctx (pos 16384) found "llama-3" "gpu:1" ≡ pos 8192
unfolding discover_own_models get_backend_n_ctx lookup lookup_or insert
of_backend = refl

discover_own_models-serves_example : serves_model found "llama-3" "gpu:3" ≡ false
unfolding discover_own_models lookup lookup_or insert
discover_own_models-serves_example =
    discover_own_models-serves up discover keys empty "llama-3" "gpu:3" refl
