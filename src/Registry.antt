-- ===== src/Registry.antt =====
-- The model registry of backendmanager.go: discovery over the backends, and what is asked of it.
-- What a backend answers is an argument. Synthetic models are left out.
pub mod Merged
pub mod Tests
use Prim.Native.String
use proxycache.Base.{
  ℕ, zero, suc, ◌+◌, ℤ, pos, ltb_ℤ, String, Bool, true, false, not, ◌&&◌, ◌||◌, Option, none, some,
  List, [], ◌∷◌, ◌++◌, map, Map, lookup, lookup_or, insert, or_else, if◌then◌else◌, str_eq,
  string_eq,
}
use proxycache.Ring.{has_string}

pub record DiscoveredModel : Type 0 where
  pub name : String
  pub n_ctx : ℤ
  pub backends : List String
  pub backend_n_ctx : Map String ℤ
  pub total_slots : ℕ

pub record BackendManager : Type 0 where
  pub discovered_models : Map String DiscoveredModel
  pub model_order : List String

-- A backend and the context size that it reports for a model.
pub record BeCtx : Type 0 where
  pub be : String
  pub n_ctx : ℤ

-- What the first loop of `discoverModelsCtx` collects.
pub record Discovered : Type 0 where
  pub all_discovered : Map String (List BeCtx)
  pub first_seen : List String

unfoldable pub add_model : String → String × ℤ → Discovered → Discovered
add_model be (name, n_ctx) d =
    let entry : BeCtx = record { be = be; n_ctx = n_ctx } in
    record {
      all_discovered =
          insert name (lookup_or [] name d.all_discovered ++ entry ∷ []) d.all_discovered;
      first_seen = elim (lookup name d.all_discovered) [
        | none ↦ d.first_seen ++ name ∷ []
        | some entries ↦ d.first_seen
      ];
    }

unfoldable pub add_models : String → List (String × ℤ) → Discovered → Discovered
unfolding add_model
add_models be [] d = d
add_models be (m ∷ ms) d = add_models be ms (add_model be m d)

-- One round of the loop over the backends, from the state of the backend and its answer: one that
-- is down is not asked, and an error ends the discovery.
unfoldable pub collect_one :
    Bool → Option (List (String × ℤ)) → String → Discovered → Option Discovered
unfolding add_models
collect_one false answer be d = some d
collect_one true none be d = none
collect_one true (some models) be d = some (add_models be models d)

unfoldable pub collect :
    (String → Bool)
    → (String → Option (List (String × ℤ)))
    → List String
    → Discovered
    → Option Discovered
unfolding collect_one
collect up discover [] d = some d
collect up discover (be ∷ bes) d = elim (collect_one (up be) (discover be) be d) [
  | none ↦ none
  | some after ↦ collect up discover bes after
]

-- The smallest context size so far.
unfoldable pub min_ctx : ℤ → List BeCtx → ℤ
min_ctx best [] = best
min_ctx best (e ∷ es) = min_ctx (if ltb_ℤ e.n_ctx best then e.n_ctx else best) es

unfoldable pub first_min_ctx : List BeCtx → ℤ
unfolding min_ctx
first_min_ctx [] = pos 0
first_min_ctx (e ∷ es) = min_ctx e.n_ctx es

unfoldable pub sizes_of : Map String ℤ → List BeCtx → Map String ℤ
sizes_of sizes [] = sizes
sizes_of sizes (e ∷ es) = sizes_of (insert e.be e.n_ctx sizes) es

abbrev pub backends_of : List BeCtx → List String
backends_of [] = []
backends_of (e ∷ es) = e.be ∷ backends_of es

unfoldable pub merged_model : String → List BeCtx → DiscoveredModel
unfolding first_min_ctx sizes_of
merged_model name entries = record {
  name = name;
  n_ctx = first_min_ctx entries;
  backends = backends_of entries;
  backend_n_ctx = sizes_of [] entries;
  total_slots = 0;
}

unfoldable pub merge_models :
    Map String (List BeCtx) → List String → Map String DiscoveredModel → Map String DiscoveredModel
unfolding merged_model
merge_models all [] merged = merged
merge_models all (name ∷ names) merged =
    merge_models all names (insert name (merged_model name (lookup_or [] name all)) merged)

-- `discoverModelsCtx` up to the synthetic models: one that fails leaves the registry as it is.
unfoldable pub discover_own_models :
    (String → Bool)
    → (String → Option (List (String × ℤ)))
    → List String
    → BackendManager
    → Bool × BackendManager
unfolding collect merge_models
discover_own_models up discover keys bm =
    elim (collect up discover keys (record { all_discovered = []; first_seen = [] })) [
      | none ↦ (false, bm)
      | some d ↦ (
        true,
        record {
          discovered_models = merge_models d.all_discovered d.first_seen [];
          model_order = d.first_seen;
        },
      )
    ]

-- `GetModelNCtx` and `GetBackendNCtx`, with the default of the settings.
unfoldable pub get_model_n_ctx : ℤ → BackendManager → String → ℤ
get_model_n_ctx default_n_ctx bm name = elim (lookup name bm.discovered_models) [
  | none ↦ default_n_ctx
  | some info ↦ info.n_ctx
]

unfoldable pub get_backend_n_ctx : ℤ → BackendManager → String → String → ℤ
get_backend_n_ctx default_n_ctx bm name be = elim (lookup name bm.discovered_models) [
  | none ↦ default_n_ctx
  | some info ↦ lookup_or default_n_ctx be info.backend_n_ctx
]

unfoldable pub serves_model : BackendManager → String → String → Bool
serves_model bm name be = elim (lookup name bm.discovered_models) [
  | none ↦ false
  | some info ↦ has_string be info.backends
]

-- `strings.Contains`.
abbrev pub starts_with : String → String → Bool
starts_with s String.[] = true
starts_with String.[] (String.◌∷◌ c p) = false
starts_with (String.◌∷◌ d s) (String.◌∷◌ c p) =
    let rest = starts_with s p in
    if str_eq (String.◌∷◌ d String.[]) (String.◌∷◌ c String.[]) then rest else false

abbrev pub contains : String → String → Bool
contains String.[] p = starts_with String.[] p
contains (String.◌∷◌ c s) p = starts_with (String.◌∷◌ c s) p || contains s p

-- The registered models of a list of names that pass a test, in order.
unfoldable pub models_where :
    (DiscoveredModel → Bool) → Map String DiscoveredModel → List String → List DiscoveredModel
models_where test models [] = []
models_where test models (name ∷ names) =
    let rest = models_where test models names in
    elim (lookup name models) [ none ↦ rest | some info ↦ if test info then info ∷ rest else rest ]

-- `to_lower` is `strings.ToLower`.
unfoldable pub get_discovered_models :
    (String → String) → BackendManager → String → List DiscoveredModel
unfolding models_where
get_discovered_models to_lower bm model_name =
    if str_eq model_name "any"
    then models_where (λ info. true) bm.discovered_models bm.model_order
    else elim (lookup model_name bm.discovered_models) [
      | some info ↦ info ∷ []
      | none ↦
          models_where (λ info. contains (to_lower info.name) (to_lower model_name))
            bm.discovered_models bm.model_order
    ]

-- The loop at the end of `refreshSlotCountsCtx`: the slots of a model over its backends.
unfoldable pub total_of : Map String (Map String ℕ) → String → List String → ℕ
total_of counts name [] = 0
total_of counts name (be ∷ bes) =
    lookup_or 0 name (lookup_or [] be counts) + total_of counts name bes

unfoldable pub update_totals :
    Map String (Map String ℕ)
    → List String
    → Map String DiscoveredModel
    → Map String DiscoveredModel
unfolding total_of
update_totals counts [] models = models
update_totals counts (name ∷ names) models = elim (lookup name models) [
  | none ↦ update_totals counts names models
  | some info ↦
      update_totals counts names
        (insert name (record info { total_slots = total_of counts name info.backends }) models)
]
