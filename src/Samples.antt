-- ===== src/Samples.antt =====
-- Values at which the theorems are instantiated: floats as thousandths, and the default settings.
use proxycache.Base.{
  ◌+◌, ◌*◌, ◌/◌, ◌^◌, ℤ, pos, pos_part, neg_part, sub_ℕ, ltb_ℤ, leb_ℤ, if◌then◌else◌, FloatOps,
  FloatLaws, arith, ◌≡◌, true, false,
}
use proxycache.Config.{Config}

abbrev milli_mul : ℤ → ℤ → ℤ
milli_mul a b =
    sub_ℕ ((pos_part a * pos_part b + neg_part a * neg_part b) / 1000)
      ((pos_part a * neg_part b + neg_part a * pos_part b) / 1000)

-- For a positive divisor.
abbrev milli_div : ℤ → ℤ → ℤ
milli_div a b = sub_ℕ (pos_part a * 1000 / pos_part b) (neg_part a * 1000 / pos_part b)

instance abbrev pub milli : FloatOps ℤ
milli = record {
  of_int = λ n. sub_ℕ (1000 * pos_part n) (1000 * neg_part n);
  to_int = λ a. sub_ℕ (pos_part a / 1000) (neg_part a / 1000);
  dec = λ m k. pos (m * 1000 / 10 ^ k);
  add = λ a b. sub_ℕ (pos_part a + pos_part b) (neg_part a + neg_part b);
  sub = λ a b. sub_ℕ (pos_part a + neg_part b) (neg_part a + pos_part b);
  mul = milli_mul;
  div = milli_div;
  min = λ a b. if ltb_ℤ a b then a else b;
  lt = ltb_ℤ;
  le = leb_ℤ;
}

milli_le_refl : (a : ℤ) → leb_ℤ a a ≡ true
milli_le_refl a = ground arith

milli_le_of_not-lt : (a b : ℤ) → ltb_ℤ a b ≡ false → leb_ℤ b a ≡ true
milli_le_of_not-lt a b h = ground arith

milli_le_of_lt : (a b : ℤ) → ltb_ℤ a b ≡ true → leb_ℤ a b ≡ true
milli_le_of_lt a b h = ground arith

milli_not-lt_of_le : (a b : ℤ) → leb_ℤ a b ≡ true → ltb_ℤ b a ≡ false
milli_not-lt_of_le a b h = ground arith

milli_not-le_of_lt : (a b : ℤ) → ltb_ℤ a b ≡ true → leb_ℤ b a ≡ false
milli_not-le_of_lt a b h = ground arith

milli_le_trans : (a b c : ℤ) → leb_ℤ a b ≡ true → leb_ℤ b c ≡ true → leb_ℤ a c ≡ true
milli_le_trans a b c h k = ground arith

milli_min-le_right : (a b : ℤ) → leb_ℤ (if ltb_ℤ a b then a else b) b ≡ true
milli_min-le_right a b = ground arith

pub milli_laws : FloatLaws milli
milli_laws = record {
  le_refl = milli_le_refl;
  le_of_not-lt = milli_le_of_not-lt;
  le_of_lt = milli_le_of_lt;
  not-lt_of_le = milli_not-lt_of_le;
  not-le_of_lt = milli_not-le_of_lt;
  le_trans = milli_le_trans;
  min-le_right = milli_min-le_right;
}

-- The defaults of config.go.
abbrev pub defaults : Config ℤ
defaults = record {
  words_per_block = 100;
  lcp_th = pos 200;
  default_n_ctx = pos 16384;
  kv_cache_skip_threshold = pos 900;
  kv_cache_skip_max_block_diff = pos 100;
  cache_save_ratio_threshold = pos 800;
  cache_save_ctx_threshold = pos 700;
  cache_hit_wait_ema_min = pos 10000;
  cache_hit_wait_ema_alpha = pos 200;
  cache_hit_wait_ema_initial = pos 30000;
  cache_hit_wait_ema_max = pos 300000;
  metrics_retention = 200;
  missing_models_retry_interval = pos 30000;
  backend_queue_max = 5;
  cache_hit_queue_limit = 2;
  cache_transfer_wait = pos 5000;
  cache_transfer_assumed_mbps = pos 100000;
  queue_migration_after = pos 120000;
}
