-- ===== src/Metrics/Counters.antt =====
-- `incrementCounters` of metrics.go: the rows of counters and their totals.
use proxycache.Base.{
  ℕ, suc, ◌+◌, ◌≤◌, ◌≡◌, refl, ap, ◌∙◌, sym, subst, String, Bool, true, false, Option, none, some,
  List, [], ◌∷◌, Map, arith, lookup, lookup_or, lookup_or-insert, insert, if_both, str_eq,
  string_eq, ◌==◌, Bool-cases, Option-cases, inl, inr,
}
use proxycache.Metrics.{
  Record, RecordEnv, text_at, Counts, MetricsCollector, no_counts, count, bump, increment_counters,
  count_request, push, record_request, record_metrics, record_all,
}

-- Every request is a hit or a miss, recomputes are hits, and a save is done or skipped at most once.
abbrev pub Adds : Counts → Type 0
Adds c =
    (c.total ≡ c.hits + c.misses) × (c.recomputes ≤ c.hits) × (c.saved + c.save_skipped ≤ c.total)

count-Adds :
    (hit recompute : Bool) (saved : Option Bool) (c : Counts)
    → Adds c
    → Adds (count hit recompute saved c)
unfolding count
count-Adds true true none c h = ground arith
count-Adds true true (some true) c h = ground arith
count-Adds true true (some false) c h = ground arith
count-Adds true false none c h = ground arith
count-Adds true false (some true) c h = ground arith
count-Adds true false (some false) c h = ground arith
count-Adds false r none c h = ground arith
count-Adds false r (some true) c h = ground arith
count-Adds false r (some false) c h = ground arith

abbrev pub sum_totals : Map String Counts → ℕ
sum_totals [] = 0
sum_totals ((k, c) ∷ rows) = c.total + sum_totals rows

abbrev pub AllAdd : Map String Counts → Type 0
AllAdd rows = (key : String) → Adds (lookup_or no_counts key rows)

sum_totals-insert :
    (key : String) (c : Counts) (rows : Map String Counts)
    → c.total ≡ suc (lookup_or no_counts key rows).total
    → sum_totals (insert key c rows) ≡ suc (sum_totals rows)
unfolding lookup_or lookup insert
sum_totals-insert key c [] h = ground arith
sum_totals-insert key c ((k, d) ∷ rows) h = elim (Bool-cases (k == key)) [
  | inl t ↦ ground arith
  | inr f ↦ ground (arith, sum_totals-insert key c rows)
]

-- All rows add up, and so do the rows of the models and of the backends.
pub record IsCounted {V : Type 0} (m : MetricsCollector V) : Type 0 where
  pub adds : Adds m.counts
  pub models_add : AllAdd m.model_counters
  pub backends_add : AllAdd m.backend_counters
  pub models_sum : sum_totals m.model_counters ≡ m.counts.total
  pub backends_sum : sum_totals m.backend_counters ≡ m.counts.total
  pub restores : m.restore_successes + m.restore_failures ≤ m.counts.total

module _ (hit recompute : Bool) (saved : Option Bool) where
  bump-AllAdd :
      (key : String) (rows : Map String Counts)
      → AllAdd rows
      → AllAdd (bump key (count hit recompute saved) rows)
  unfolding bump
  bump-AllAdd key rows h k =
      subst Adds (sym (lookup_or-insert no_counts key k _ rows))
        (if_both Adds (key == k) (count-Adds hit recompute saved _ (h key)) (h k))

  sum_totals-bump :
      (key : String) (rows : Map String Counts)
      → sum_totals (bump key (count hit recompute saved) rows) ≡ suc (sum_totals rows)
  unfolding bump count
  sum_totals-bump key rows = sum_totals-insert key _ rows refl

  module _ {V : Type 0} (m : MetricsCollector V) (h : IsCounted m) where
    increment_counters-IsCounted :
        (model backend : String) (restored : Option Bool)
        → IsCounted (increment_counters model backend hit recompute saved restored m)
    unfolding increment_counters count
    increment_counters-IsCounted model backend restored = record {
      adds = count-Adds hit recompute saved m.counts h.adds;
      models_add = bump-AllAdd model m.model_counters h.models_add;
      backends_add = bump-AllAdd backend m.backend_counters h.backends_add;
      models_sum = sum_totals-bump model m.model_counters ∙ ap suc h.models_sum;
      backends_sum = sum_totals-bump backend m.backend_counters ∙ ap suc h.backends_sum;
      restores = counted restored;
    }
      where
        counted :
            (r : Option Bool)
            → (increment_counters model backend hit recompute saved r m).restore_successes
                + (increment_counters model backend hit recompute saved r m).restore_failures
              ≤ suc m.counts.total
        counted none = let k = h.restores in omega arith
        counted (some true) = let k = h.restores in omega arith
        counted (some false) = let k = h.restores in omega arith

module _ {V : Type 0} (env : RecordEnv V) where
  count_request-IsCounted :
      (ctx : Record V) (m : MetricsCollector V) → IsCounted m → IsCounted (count_request ctx m)
  unfolding count_request
  count_request-IsCounted ctx m h =
      if_both IsCounted _ (increment_counters-IsCounted _ _ _ m h _ _ _) h

  -- What the counters of a collector say does not depend on its buffer.
  IsCounted-buffer :
      (buffer : List (Record V)) (by_id : Map String ℕ) (m : MetricsCollector V)
      → IsCounted m
      → IsCounted (record m { buffer = buffer; by_id = by_id })
  IsCounted-buffer buffer by_id m h = record {
    adds = h.adds;
    models_add = h.models_add;
    backends_add = h.backends_add;
    models_sum = h.models_sum;
    backends_sum = h.backends_sum;
    restores = h.restores;
  }

  push-IsCounted :
      (entry : Record V) (m : MetricsCollector V) → IsCounted m → IsCounted (push entry m)
  unfolding push
  push-IsCounted entry m h = IsCounted-buffer _ _ m h

  record_request-IsCounted :
      (ctx : Record V) (m : MetricsCollector V) → IsCounted m → IsCounted (record_request env ctx m)
  unfolding record_request
  record_request-IsCounted ctx m h =
      elim (Option-cases (lookup (text_at "request_id" ctx) m.by_id)) [
        | inl e ↦ rw (e, record_request) (count_request-IsCounted ctx _ (push-IsCounted _ m h))
        | inr (i, e) ↦
            rw (e, record_request) (count_request-IsCounted ctx _ (IsCounted-buffer _ m.by_id m h))
      ]

  -- Whatever is recorded, every row of counters adds up: requests are hits or misses, recomputes are
  -- hits, saves done or skipped are at most the requests; the rows of the models and the rows of the
  -- backends each sum to the number of requests, and the restores are at most that number.
  pub record_all-IsCounted :
      (ctxs : List (Record V)) (m : MetricsCollector V)
      → IsCounted m
      → IsCounted (record_all env ctxs m)
  unfolding record_all record_metrics
  record_all-IsCounted [] m h = h
  record_all-IsCounted (ctx ∷ ctxs) m h = record_all-IsCounted ctxs (record_metrics env ctx m) (
      if_both IsCounted (str_eq (text_at "event" ctx) "") (record_request-IsCounted ctx m h)
        (push-IsCounted _ m h))
