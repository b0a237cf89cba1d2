-- ===== src/Config.antt =====
-- The settings of config.go that the modelled code reads. The environment fills them at startup;
-- here they are a record, and every operation that reads one takes it as an argument.
pub mod Heuristics
use proxycache.Base.{ℕ, ℤ}

pub record Config (F : Type 0) : Type 0 where
  pub words_per_block : ℕ
  pub lcp_th : F
  pub default_n_ctx : ℤ
  pub kv_cache_skip_threshold : F
  pub kv_cache_skip_max_block_diff : F
  pub cache_save_ratio_threshold : F
  pub cache_save_ctx_threshold : F
  pub cache_hit_wait_ema_min : F
  pub cache_hit_wait_ema_alpha : F
  pub cache_hit_wait_ema_initial : F
  pub cache_hit_wait_ema_max : F
  pub metrics_retention : ℕ
  pub missing_models_retry_interval : F
  pub backend_queue_max : ℕ
  pub cache_hit_queue_limit : ℕ
  pub cache_transfer_wait : F
  pub cache_transfer_assumed_mbps : F
  pub queue_migration_after : F
