-- ===== src/Config/Heuristics.antt =====
-- The save heuristics of config.go, and the recompute test of app.go. The score is what
-- `ClassifyRequest` makes of the messages, none where there are no messages.
use proxycache.Base.{
  ℤ, pos, pos_part, neg_part, Bool, true, false, ◌&&◌, ◌||◌, Option, none, some, eqb, ltb_ℤ,
  if◌then◌else◌, FloatOps,
}
use proxycache.Config.{Config}

abbrev pub is_zero : ℤ → Bool
is_zero z = eqb (pos_part z) 0 && eqb (neg_part z) 0

module _ {F : Type 0} ⦃fl : FloatOps F⦄ where
  unfoldable pub should_skip_save_heuristic : Config F → ℤ → ℤ → Option F → Bool
  should_skip_save_heuristic cfg prompt_tokens n_ctx score =
      if ltb_ℤ (pos 0) n_ctx
        && fl.le cfg.cache_save_ctx_threshold (fl.div (fl.of_int prompt_tokens) (fl.of_int n_ctx))
      then true
      else elim score [ none ↦ false | some s ↦ fl.le (fl.dec 4 1) s ]

  unfoldable pub should_save_cache : Config F → F → Bool → Bool
  should_save_cache cfg best_ratio recompute_happened =
      recompute_happened || fl.le best_ratio cfg.cache_save_ratio_threshold

-- The answer of the backend against what the cache should have covered.
unfoldable pub is_recompute : (F : Type 0) ⦃fl : FloatOps F⦄ → ℤ → ℤ → ℤ → Bool
is_recompute F ⦃fl⦄ cached_tokens llm_prompt_tokens cache_n_tokens =
    if is_zero llm_prompt_tokens
    then false
    else (let expected =
          if ltb_ℤ llm_prompt_tokens cache_n_tokens then llm_prompt_tokens else cache_n_tokens in
        if is_zero expected
        then false
        else fl.lt (fl.of_int cached_tokens) (fl.mul (fl.of_int expected) (fl.dec 7 1)))
