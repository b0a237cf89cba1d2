-- ===== src/Metrics/Index.antt =====
-- The buffer of metrics.go with its retention, and its index `ByID`.
use proxycache.Base.{
  ℕ, zero, suc, ◌+◌, ◌-◌, ◌≤◌, ◌≡◌, refl, ap, ◌∙◌, sym, subst, ◌⊎◌, inl, inr, String, Bool, false,
  not, ◌&&◌, Option, none, some, List, [], ◌∷◌, ◌++◌, Map, arith, lookup, lookup-insert, insert,
  All, length, length-drop, get_elem?, if_both, str_eq, str_eq_iff, string_eq, Bool-cases,
  Option-cases,
}
use proxycache.Metrics.{
  Record, RecordEnv, Value, text, flag, nil, value, MetricsCollector, text_at, is_event, merge,
  as_text, event_value, trim_buffer, index_tag, index_one, index_from, rebuild_by_id, push,
  increment_counters, count_request, request_defaults, request_record, keep_time, new_json,
  update_record, update_at, or_text, record_request, record_metrics, record_all,
}

module _ {V : Type 0} where
  -- The record of a request with the id.
  abbrev pub IsOf : String → Record V → Type 0
  IsOf id r = (text_at "request_id" r ≡ id) × (is_event r ≡ false) × (str_eq id "" ≡ false)

  index_one-IsOf :
      (j : ℕ) (by_id : Map String ℕ) (r : Record V) (id : String) (i : ℕ)
      → lookup id (index_one j by_id r) ≡ some i
      → (lookup id by_id ≡ some i) ⊎ ((i ≡ j) × IsOf id r)
  unfolding index_one
  index_one-IsOf j by_id r id i h = elim (Bool-cases (str_eq (text_at "request_id" r) "")) [
    | inl t ↦ ground arith
    | inr f ↦ elim (Bool-cases (is_event r)) [
      | inl t ↦ ground arith
      | inr g ↦ ground (
        arith,
        lookup-insert (text_at "request_id" r) id j by_id,
        str_eq_iff (text_at "request_id" r) id,
      )
    ]
  ]

  index_from-IsOf :
      (rs : List (Record V)) (j : ℕ) (by_id : Map String ℕ) (id : String) (i : ℕ)
      → lookup id (index_from j by_id rs) ≡ some i
      → (lookup id by_id ≡ some i)
        ⊎ ((k : ℕ) × (r : Record V) × (i ≡ j + k) × (get_elem? rs k ≡ some r) × IsOf id r)
  unfolding index_from
  index_from-IsOf [] j by_id id i h = inl h
  index_from-IsOf (r ∷ rs) j by_id id i h =
      elim (index_from-IsOf rs (suc j) (index_one j by_id r) id i h) [
        | inr (k, q, e, at, of_id) ↦ inr (suc k, q, omega arith, at, of_id)
        | inl e ↦ elim (index_one-IsOf j by_id r id i e) [
          | inl old ↦ inl old
          | inr (same, of_id) ↦ inr (0, r, omega arith, refl, of_id)
        ]
      ]

  -- What the index holds of a record.
  abbrev Alike : Record V → Record V → Type 0
  Alike r q = (text_at "request_id" r ≡ text_at "request_id" q) × (is_event r ≡ is_event q)

  index_from-update_at :
      (f : Record V → Record V) (rs : List (Record V)) (k j : ℕ) (by_id : Map String ℕ)
      → ((r : Record V) → get_elem? rs k ≡ some r → Alike (f r) r)
      → index_from j by_id (update_at f k rs) ≡ index_from j by_id rs
  unfolding index_from index_one
  index_from-update_at f [] k j by_id h = refl
  index_from-update_at f (r ∷ rs) zero j by_id h =
      let (id, event) = h r refl in
      ap (λ t. index_from (suc j) (index_tag j by_id t (is_event (f r))) rs) id
      ∙ ap (λ b. index_from (suc j) (index_tag j by_id (text_at "request_id" r) b) rs) event
  index_from-update_at f (r ∷ rs) (suc k) j by_id h =
      index_from-update_at f rs k (suc j) (index_one j by_id r) h

  abbrev new_or : Option (Value V) → Option (Value V) → Option (Value V)
  new_or none old = old
  new_or (some v) old = some v

  new_or-none : (o : Option (Value V)) → new_or o none ≡ o
  new_or-none none = refl
  new_or-none (some v) = refl

  lookup-merge :
      (k : String) (old new : Record V)
      → lookup k (merge old new) ≡ new_or (lookup k new) (lookup k old)
  unfolding merge lookup
  lookup-merge k old [] = refl
  lookup-merge k old ((i, v) ∷ new) =
      ground (arith, lookup-merge k old new, lookup-insert i k v (merge old new))

  insert_other :
      (j k : String) (v : Value V) (r : Record V)
      → str_eq j k ≡ false
      → lookup k (insert j v r) ≡ lookup k r
  insert_other j k v r h = ground (arith, lookup-insert j k v r)

  -- A field that no update sets by itself.
  abbrev Plain : RecordEnv V → Record V → String → Type 0
  Plain env ctx k =
      (str_eq "timestamp" k ≡ false)
      × (str_eq "full_request_json" k ≡ false)
      × (str_eq "prompt_preview" k ≡ false)
      × (str_eq "status" k ≡ false)
      × (str_eq "slot_id" k ≡ false)
      × (lookup k (request_defaults env ctx) ≡ none)

  lookup-keep_time :
      (t : Option (Value V)) (k : String) (r : Record V)
      → str_eq "timestamp" k ≡ false
      → lookup k (keep_time t r) ≡ lookup k r
  lookup-keep_time none k r h = refl
  lookup-keep_time (some nil) k r h = refl
  lookup-keep_time (some (text s)) k r h = insert_other "timestamp" k _ r h
  lookup-keep_time (some (flag b)) k r h = insert_other "timestamp" k _ r h
  lookup-keep_time (some (value v)) k r h = insert_other "timestamp" k _ r h

  lookup-new_json :
      (old json : Option (Value V)) (k : String) (r : Record V)
      → str_eq "full_request_json" k ≡ false
      → lookup k (new_json old json r) ≡ lookup k r
  lookup-new_json none json k r h = refl
  lookup-new_json (some old) none k r h = refl
  lookup-new_json (some old) (some json) k r h = insert_other "full_request_json" k json r h

  lookup-request_record :
      (env : RecordEnv V) (ctx : Record V) (k : String)
      → Plain env ctx k
      → lookup k (request_record env ctx) ≡ lookup k ctx
  unfolding request_record
  lookup-request_record env ctx k (_, _, preview, _, slot, plain) =
      insert_other "prompt_preview" k _ _ preview
      ∙ insert_other "slot_id" k _ _ slot
      ∙ lookup-merge k (request_defaults env ctx) ctx
      ∙ ap (new_or (lookup k ctx)) plain
      ∙ new_or-none (lookup k ctx)

  lookup-update_record :
      (env : RecordEnv V) (ctx : Record V) (complete : Bool) (r : Record V) (k : String)
      → Plain env ctx k
      → lookup k (update_record ctx (request_record env ctx) complete r)
        ≡ new_or (lookup k ctx) (lookup k r)
  unfolding update_record
  lookup-update_record env ctx complete r k p =
      let (time, full, preview, status, _, _) = p in
      let fields = request_record env ctx in
      let Goal : Record V → Type 0 = λ q. lookup k q ≡ new_or (lookup k ctx) (lookup k r) in
      let timed = keep_time (lookup "timestamp" r) (merge r fields) in
      let json = new_json (lookup "full_request_json" timed) (lookup "request_json" ctx) timed in
      let merged =
        lookup-merge k r fields
        ∙ ap (λ o. new_or o (lookup k r)) (lookup-request_record env ctx k p) in
      let at_json : Goal json =
        lookup-new_json _ _ k timed full
        ∙ lookup-keep_time (lookup "timestamp" r) k _ time
        ∙ merged in
      let previewed =
        if_both Goal
          (str_eq (text_at "prompt_preview" fields) ""
            && not (str_eq (text_at "prompt_preview" r) ""))
          (insert_other "prompt_preview" k _ json preview ∙ at_json) at_json in
      if_both Goal complete (insert_other "status" k _ _ status ∙ previewed) previewed

  id-Plain : (env : RecordEnv V) (ctx : Record V) → Plain env ctx "request_id"
  unfolding request_defaults lookup
  id-Plain env ctx = (refl, refl, refl, refl, refl, refl)

  event-Plain : (env : RecordEnv V) (ctx : Record V) → Plain env ctx "event"
  unfolding request_defaults lookup
  event-Plain env ctx = (refl, refl, refl, refl, refl, refl)

  text-new_or :
      (new old : Option (Value V))
      → as_text old ≡ as_text new
      → as_text (new_or new old) ≡ as_text old
  text-new_or none old h = refl
  text-new_or (some v) old h = sym h

  event-new_or :
      (new old : Option (Value V))
      → event_value old ≡ false
      → event_value new ≡ false
      → event_value (new_or new old) ≡ event_value old
  event-new_or none old h k = refl
  event-new_or (some v) old h k = k ∙ sym h

  -- An update keeps the fields that the index reads.
  update_record-Alike :
      (env : RecordEnv V) (ctx : Record V) (complete : Bool) (r : Record V)
      → IsOf (text_at "request_id" ctx) r
      → is_event ctx ≡ false
      → Alike (update_record ctx (request_record env ctx) complete r) r
  unfolding text_at is_event
  update_record-Alike env ctx complete r (same, request, _) e = (
    ap as_text (lookup-update_record env ctx complete r "request_id" (id-Plain env ctx))
        ∙ text-new_or (lookup "request_id" ctx) (lookup "request_id" r) same,
    ap event_value (lookup-update_record env ctx complete r "event" (event-Plain env ctx))
        ∙ event-new_or (lookup "event" ctx) (lookup "event" r) request e,
  )

  -- The buffer keeps to its retention, and the index is what a rebuild gives.
  pub record IsIndexed (m : MetricsCollector V) : Type 0 where
    pub bounded : length m.buffer ≤ m.retention
    pub rebuilt : m.by_id ≡ rebuild_by_id m.buffer

  length-trim_buffer : (n : ℕ) (rs : List (Record V)) → length (trim_buffer n rs) ≤ n
  unfolding trim_buffer
  length-trim_buffer n rs = ground (arith, length-drop (length rs - n) rs)

  push-IsIndexed : (entry : Record V) (m : MetricsCollector V) → IsIndexed (push entry m)
  unfolding push
  push-IsIndexed entry m = record {
    bounded = length-trim_buffer m.retention (m.buffer ++ entry ∷ []);
    rebuilt = refl;
  }

  count_request-IsIndexed :
      (ctx : Record V) (m : MetricsCollector V) → IsIndexed m → IsIndexed (count_request ctx m)
  unfolding count_request increment_counters
  count_request-IsIndexed ctx m h =
      if_both IsIndexed _ (record { bounded = h.bounded; rebuilt = h.rebuilt }) h

  length-update_at :
      (f : Record V → Record V) (i : ℕ) (rs : List (Record V))
      → length (update_at f i rs) ≡ length rs
  length-update_at f i [] = refl
  length-update_at f zero (r ∷ rs) = refl
  length-update_at f (suc i) (r ∷ rs) = ap suc (length-update_at f i rs)

  -- What the index finds is a request's record with that id.
  pub by_id-IsOf :
      (m : MetricsCollector V) (id : String) (i : ℕ)
      → IsIndexed m
      → lookup id m.by_id ≡ some i
      → (r : Record V) × (get_elem? m.buffer i ≡ some r) × IsOf id r
  unfolding rebuild_by_id lookup
  by_id-IsOf m id i h e =
      elim (index_from-IsOf m.buffer 0 [] id i (sym (ap (lookup id) h.rebuilt) ∙ e)) [
        | inl absent ↦ ground arith
        | inr (k, r, same, at, of_id) ↦
            let here : k ≡ i = omega arith in
            (r, subst (λ j. get_elem? m.buffer j ≡ some r) here at, of_id)
      ]

  some_inj : {a b : Record V} → (some a ≡ some b) → a ≡ b
  some_inj h = ground arith

  -- A field `event` of a call is a text, where there is one.
  abbrev pub IsCall : Record V → Type 0
  IsCall ctx = is_event ctx ≡ not (str_eq (text_at "event" ctx) "")

  record_request-IsIndexed :
      (env : RecordEnv V) (ctx : Record V) (m : MetricsCollector V)
      → is_event ctx ≡ false
      → IsIndexed m
      → IsIndexed (record_request env ctx m)
  unfolding record_request rebuild_by_id
  record_request-IsIndexed env ctx m request h =
      let id = text_at "request_id" ctx in
      let fields = request_record env ctx in
      let complete = str_eq (or_text (text_at "status" ctx) "complete") "complete" in
      elim (Option-cases (lookup id m.by_id)) [
        | inl e ↦ rw (e, record_request) (count_request-IsIndexed ctx _ (push-IsIndexed _ m))
        | inr (i, e) ↦
            let (r, at, of_id) = by_id-IsOf m id i h e in
            let keeps =
              index_from-update_at (update_record ctx fields complete) m.buffer i 0 [] (λ q at_q.
                update_record-Alike env ctx complete q
                  (subst (IsOf id) (some_inj (sym at ∙ at_q)) of_id) request) in
            rw (e, record_request)
              (count_request-IsIndexed ctx _ (record {
                bounded =
                    subst (λ n. n ≤ m.retention)
                      (sym (length-update_at (update_record ctx fields complete) i m.buffer))
                      h.bounded;
                rebuilt = h.rebuilt ∙ sym keeps;
              }))
      ]

  -- If at the start the buffer is no longer than the retention and the index by request id is the
  -- one that a rebuild from the buffer gives, this stays so whatever is recorded, as long as the
  -- field `event` of each record is a text where it is there and not nil.
  pub record_all-IsIndexed :
      (env : RecordEnv V) (ctxs : List (Record V)) (m : MetricsCollector V)
      → All IsCall ctxs
      → IsIndexed m
      → IsIndexed (record_all env ctxs m)
  unfolding record_all record_metrics
  record_all-IsIndexed env [] m calls h = h
  record_all-IsIndexed env (ctx ∷ ctxs) m (call, calls) h =
      record_all-IsIndexed env ctxs (record_metrics env ctx m) calls
        (elim (Bool-cases (str_eq (text_at "event" ctx) "")) [
          | inl t ↦ rw (t, record_metrics) (record_request-IsIndexed env ctx m (call ∙ ap not t) h)
          | inr f ↦ rw (f, record_metrics) (push-IsIndexed _ m)
        ])
