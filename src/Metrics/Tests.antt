-- ===== src/Metrics/Tests.antt =====
-- A collector that keeps two records, and the theorems applied to it.
use proxycache.Base.{
  ℕ, ◌≡◌, ◌≢◌, refl, String, true, none, List, [], ◌∷◌, All, arith, lookup, lookup_or, insert,
  string_eq,
}
use proxycache.Metrics.{
  text, flag, value, Record, RecordEnv, MetricsCollector, is_event, text_at, new_metrics_collector,
  rebuild_by_id, record_all,
}
use proxycache.Metrics.Counters.{IsCounted, record_all-IsCounted}
use proxycache.Metrics.Index.{IsIndexed, IsCall, record_all-IsIndexed}

abbrev env : RecordEnv ℕ
env = record {
  now = value 7;
  latency = λ ctx. value 0;
  no_slot = value 0;
  no_json = value 0;
  preview = λ ctx. "";
}

abbrev arrival : String → Record ℕ
arrival id = ("request_id", text id) ∷ ("status", text "incomplete") ∷ []

abbrev completion : Record ℕ
completion =
    ("request_id", text "r2")
    ∷ ("model", text "llama")
    ∷ ("cache_hit", flag true)
    ∷ ("saved", flag true)
    ∷ []

abbrev diagnostic : Record ℕ
diagnostic = ("event", text "liveness_change") ∷ []

-- Two requests, an event, and the end of the second: the first has left the buffer.
abbrev calls : List (Record ℕ)
calls = arrival "r1" ∷ arrival "r2" ∷ diagnostic ∷ completion ∷ []

abbrev empty : MetricsCollector ℕ
empty = new_metrics_collector 2

abbrev seen : MetricsCollector ℕ
seen = record_all env calls empty

seen_ids : seen.by_id ≡ ("r2", 0) ∷ []
unfolding record_all lookup insert new_metrics_collector
seen_ids = refl

seen_total : seen.counts.total ≡ 1
unfolding record_all lookup insert new_metrics_collector
seen_total = refl

empty-IsCounted : IsCounted empty
unfolding new_metrics_collector lookup_or lookup
empty-IsCounted = record {
  adds = (refl, omega arith, omega arith);
  models_add = λ key. (refl, omega arith, omega arith);
  backends_add = λ key. (refl, omega arith, omega arith);
  models_sum = refl;
  backends_sum = refl;
  restores = omega arith;
}

record_all-IsCounted_example : IsCounted seen
record_all-IsCounted_example = record_all-IsCounted env calls empty empty-IsCounted

empty-IsIndexed : IsIndexed empty
unfolding new_metrics_collector rebuild_by_id
empty-IsIndexed = record { bounded = omega arith; rebuilt = refl }

calls-IsCall : All IsCall calls
unfolding text_at is_event lookup
calls-IsCall = (refl, (refl, (refl, (refl, tt))))

record_all-IsIndexed_example : IsIndexed seen
record_all-IsIndexed_example = record_all-IsIndexed env calls empty calls-IsCall empty-IsIndexed

seen-IsIndexed : IsIndexed seen
seen-IsIndexed = record_all-IsIndexed env calls empty calls-IsCall empty-IsIndexed

seen_r2 : lookup "r2" seen.by_id ≢ none
unfolding lookup
seen_r2 e = ground (arith, seen_ids)
