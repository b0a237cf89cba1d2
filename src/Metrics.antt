-- ===== src/Metrics.antt =====
-- metrics.go: the buffer of request records and events, its index by request id, and the counters.
-- A record is a map of fields; what a field may hold beside a text or a flag is a parameter.
pub mod Counters
pub mod Index
pub mod Queries
pub mod Tests
use proxycache.Base.{
  ℕ, zero, suc, ◌+◌, ◌-◌, String, Bool, true, false, not, ◌&&◌, Option, none, some, List, [], ◌∷◌,
  ◌++◌, Map, lookup, lookup_or, insert, length, drop, ltb, get_elem?, if◌then◌else◌, str_eq,
  string_eq,
}

pub data Value (V : Type 0) : Type 0 where
  text : String → Value V
  flag : Bool → Value V
  nil : Value V
  value : V → Value V

abbrev pub Record : Type 0 → Type 0
Record V = Map String (Value V)

pub record Counts : Type 0 where
  pub total : ℕ
  pub hits : ℕ
  pub misses : ℕ
  pub recomputes : ℕ
  pub saved : ℕ
  pub save_skipped : ℕ

pub record MetricsCollector (V : Type 0) : Type 0 where
  pub retention : ℕ
  pub buffer : List (Record V)
  pub by_id : Map String ℕ
  pub counts : Counts
  pub restore_successes : ℕ
  pub restore_failures : ℕ
  pub model_counters : Map String Counts
  pub backend_counters : Map String Counts

abbrev pub index_tag : ℕ → Map String ℕ → String → Bool → Map String ℕ
index_tag i by_id id event = if not (str_eq id "") && not event then insert id i by_id else by_id

module _ {V : Type 0} where
  -- `r[k].(string)` and `r[k].(bool)`: empty and false for a field that is missing or of another type.
  abbrev pub as_text : Option (Value V) → String
  as_text none = ""
  as_text (some (text s)) = s
  as_text (some (flag b)) = ""
  as_text (some nil) = ""
  as_text (some (value v)) = ""

  abbrev as_flag : Option (Value V) → Bool
  as_flag none = false
  as_flag (some (text s)) = false
  as_flag (some (flag b)) = b
  as_flag (some nil) = false
  as_flag (some (value v)) = false

  unfoldable pub text_at : String → Record V → String
  text_at field r = as_text (lookup field r)

  unfoldable pub flag_at : String → Record V → Bool
  flag_at field r = as_flag (lookup field r)

  -- The flag of a type switch on `bool`.
  unfoldable pub flag_of : Option (Value V) → Option Bool
  flag_of none = none
  flag_of (some (text s)) = none
  flag_of (some (flag b)) = some b
  flag_of (some nil) = none
  flag_of (some (value v)) = none

  abbrev pub event_value : Option (Value V) → Bool
  event_value none = false
  event_value (some nil) = false
  event_value (some (text s)) = not (str_eq s "")
  event_value (some (flag b)) = true
  event_value (some (value v)) = true

  unfoldable pub is_event : Record V → Bool
  is_event r = event_value (lookup "event" r)

  -- `for k, v := range new { old[k] = v }`, from the last field to the first: the order is open.
  unfoldable pub merge : Record V → Record V → Record V
  merge old [] = old
  merge old ((k, v) ∷ fields) = insert k v (merge old fields)

  unfoldable pub trim_buffer : ℕ → List (Record V) → List (Record V)
  trim_buffer retention buffer =
      if ltb retention (length buffer) then drop (length buffer - retention) buffer else buffer

  -- The loop of `rebuildByID`, from position `i` on.
  unfoldable pub index_one : ℕ → Map String ℕ → Record V → Map String ℕ
  unfolding text_at is_event
  index_one i by_id r = index_tag i by_id (text_at "request_id" r) (is_event r)

  unfoldable pub index_from : ℕ → Map String ℕ → List (Record V) → Map String ℕ
  unfolding index_one
  index_from i by_id [] = by_id
  index_from i by_id (r ∷ rs) = index_from (suc i) (index_one i by_id r) rs

  unfoldable pub rebuild_by_id : List (Record V) → Map String ℕ
  unfolding index_from
  rebuild_by_id buffer = index_from 0 [] buffer

  -- An entry at the end, then the trim and the new index.
  unfoldable pub push : Record V → MetricsCollector V → MetricsCollector V
  unfolding trim_buffer rebuild_by_id
  push entry m =
      let buffer = trim_buffer m.retention (m.buffer ++ entry ∷ []) in
      record m { buffer = buffer; by_id = rebuild_by_id buffer }

abbrev pub no_counts : Counts
no_counts = record { total = 0; hits = 0; misses = 0; recomputes = 0; saved = 0; save_skipped = 0 }

-- One request on a row of counters.
unfoldable pub count : Bool → Bool → Option Bool → Counts → Counts
count hit recompute saved c = record {
  total = suc c.total;
  hits = if hit then suc c.hits else c.hits;
  misses = if hit then c.misses else suc c.misses;
  recomputes = if hit && recompute then suc c.recomputes else c.recomputes;
  saved = elim saved [ none ↦ c.saved | some true ↦ suc c.saved | some false ↦ c.saved ];
  save_skipped = elim saved [
    | none ↦ c.save_skipped
    | some true ↦ c.save_skipped
    | some false ↦ suc c.save_skipped
  ];
}

unfoldable pub bump : String → (Counts → Counts) → Map String Counts → Map String Counts
bump key f counters = insert key (f (lookup_or no_counts key counters)) counters

unfoldable pub increment_counters :
    {V : Type 0}
    → String
    → String
    → Bool
    → Bool
    → Option Bool
    → Option Bool
    → MetricsCollector V
    → MetricsCollector V
unfolding count bump
increment_counters model backend hit recompute saved restored m = record m {
  counts = count hit recompute saved m.counts;
  restore_successes = elim restored [
    | none ↦ m.restore_successes
    | some true ↦ suc m.restore_successes
    | some false ↦ m.restore_successes
  ];
  restore_failures = elim restored [
    | none ↦ m.restore_failures
    | some true ↦ m.restore_failures
    | some false ↦ suc m.restore_failures
  ];
  model_counters = bump model (count hit recompute saved) m.model_counters;
  backend_counters = bump backend (count hit recompute saved) m.backend_counters;
}

abbrev pub or_text : String → String → String
or_text s d = if str_eq s "" then d else s

-- `now` is the clock, `latency` the `latency_ms` of a call as a number, `no_slot` and `no_json` the
-- values of their fields where a call has none, and `preview` is `ExtractPromptPreview` of the
-- call's JSON, empty where there is none.
pub record RecordEnv (V : Type 0) : Type 0 where
  pub now : Value V
  pub latency : Record V → Value V
  pub no_slot : Value V
  pub no_json : Value V
  pub preview : Record V → String

module _ {V : Type 0} where
  abbrev pub or_nil : Option (Value V) → Value V
  or_nil none = nil
  or_nil (some v) = v

  abbrev pub field_or : Value V → Option (Value V) → Value V
  field_or d none = d
  field_or d (some v) = v

  unfoldable pub request_defaults : RecordEnv V → Record V → Record V
  unfolding text_at flag_at
  request_defaults env ctx =
      ("timestamp", env.now)
      ∷ ("model", text (or_text (text_at "model" ctx) "unknown"))
      ∷ ("backend", text (or_text (text_at "backend" ctx) "unknown"))
      ∷ ("cache_hit", flag (flag_at "cache_hit" ctx))
      ∷ ("restored", or_nil (lookup "restored" ctx))
      ∷ ("recompute", flag (flag_at "recompute" ctx))
      ∷ ("saved", or_nil (lookup "saved" ctx))
      ∷ ("latency_ms", env.latency ctx)
      ∷ ("status", text (or_text (text_at "status" ctx) "complete"))
      ∷ []

  unfoldable pub request_record : RecordEnv V → Record V → Record V
  unfolding merge text_at request_defaults
  request_record env ctx =
      let slot = field_or env.no_slot (lookup "slot_id" ctx) in
      insert "prompt_preview" (text (or_text (text_at "prompt_preview" ctx) (env.preview ctx)))
        (insert "slot_id" slot (merge (request_defaults env ctx) ctx))

  -- A record that is there already keeps its time of arrival, and its preview where the new one is
  -- empty; its JSON is replaced where the call brings one.
  abbrev pub keep_time : Option (Value V) → Record V → Record V
  keep_time none r = r
  keep_time (some nil) r = r
  keep_time (some (text s)) r = insert "timestamp" (text s) r
  keep_time (some (flag b)) r = insert "timestamp" (flag b) r
  keep_time (some (value v)) r = insert "timestamp" (value v) r

  abbrev pub new_json : Option (Value V) → Option (Value V) → Record V → Record V
  new_json (some old) (some json) r = insert "full_request_json" json r
  new_json (some old) none r = r
  new_json none json r = r

  unfoldable pub update_record : Record V → Record V → Bool → Record V → Record V
  unfolding merge text_at
  update_record ctx fields complete old =
      let timed = keep_time (lookup "timestamp" old) (merge old fields) in
      let json = new_json (lookup "full_request_json" timed) (lookup "request_json" ctx) timed in
      let previewed =
        if str_eq (text_at "prompt_preview" fields) ""
          && not (str_eq (text_at "prompt_preview" old) "")
        then insert "prompt_preview" (text (text_at "prompt_preview" old)) json
        else json in
      if complete then insert "status" (text "complete") previewed else previewed

  abbrev pub update_at : (Record V → Record V) → ℕ → List (Record V) → List (Record V)
  update_at f i [] = []
  update_at f zero (r ∷ rs) = f r ∷ rs
  update_at f (suc i) (r ∷ rs) = r ∷ update_at f i rs

  -- The counters move where the request is complete.
  unfoldable pub count_request : Record V → MetricsCollector V → MetricsCollector V
  unfolding increment_counters text_at flag_at flag_of
  count_request ctx m =
      if str_eq (or_text (text_at "status" ctx) "complete") "complete"
      then increment_counters (or_text (text_at "model" ctx) "unknown")
          (or_text (text_at "backend" ctx) "unknown") (flag_at "cache_hit" ctx)
          (flag_at "recompute" ctx) (flag_of (lookup "saved" ctx)) (flag_of (lookup "restored" ctx))
          m
      else m

  unfoldable pub record_request : RecordEnv V → Record V → MetricsCollector V → MetricsCollector V
  unfolding request_record update_record count_request push text_at
  record_request env ctx m =
      let fields = request_record env ctx in
      let complete = str_eq (or_text (text_at "status" ctx) "complete") "complete" in
      elim (lookup (text_at "request_id" ctx) m.by_id) [
        | some i ↦
            count_request ctx
              (record m { buffer = update_at (update_record ctx fields complete) i m.buffer })
        | none ↦
            let json = field_or env.no_json (lookup "request_json" ctx) in
            count_request ctx (push (insert "full_request_json" json fields) m)
      ]

  unfoldable pub new_metrics_collector : ℕ → MetricsCollector V
  new_metrics_collector retention = record {
    retention = retention;
    buffer = [];
    by_id = [];
    counts = no_counts;
    restore_successes = 0;
    restore_failures = 0;
    model_counters = [];
    backend_counters = [];
  }

  -- `Record`: a diagnostic event is only appended.
  unfoldable pub record_metrics : RecordEnv V → Record V → MetricsCollector V → MetricsCollector V
  unfolding record_request merge push text_at
  record_metrics env ctx m =
      if str_eq (text_at "event" ctx) ""
      then record_request env ctx m
      else push (merge (("timestamp", env.now) ∷ []) ctx) m

  unfoldable pub record_all :
      RecordEnv V → List (Record V) → MetricsCollector V → MetricsCollector V
  unfolding record_metrics
  record_all env [] m = m
  record_all env (ctx ∷ ctxs) m = record_all env ctxs (record_metrics env ctx m)
