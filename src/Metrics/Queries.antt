-- ===== src/Metrics/Queries.antt =====
-- The queries of metrics.go over the buffer: one request, and the pages of requests and events.
use proxycache.Base.{
  ℕ, zero, suc, ◌+◌, ◌-◌, ◌≤◌, ◌≡◌, ◌≢◌, refl, ap, ◌∙◌, sym, ℤ, pos, pos_part, ◌+ℤ◌, ltb_ℤ, String,
  not, ◌&&◌, Option, none, some, List, [], ◌∷◌, ◌++◌, arith, keep, lookup, length, take, drop, ltb,
  get_elem?, if◌then◌else◌, str_eq, string_eq, int_laws, length-drop, ltb→lt, Bool-cases, ◌||◌, ◌<◌,
  Option-cases, inl, inr,
}
use proxycache.Metrics.{Record, MetricsCollector, text_at, is_event}
use proxycache.Metrics.Index.{IsIndexed, IsOf, by_id-IsOf}

pos_plus : (a b : ℕ) → pos a +ℤ pos b ≡ pos (a + b)
pos_plus a b = omega int_laws

module _ {V : Type 0} where
  abbrev pub reversed : List (Record V) → List (Record V)
  reversed [] = []
  reversed (r ∷ rs) = reversed rs ++ r ∷ []

  -- The copies are the records: nothing changes them later.
  unfoldable pub get_request_by_id : String → MetricsCollector V → Option (Record V)
  get_request_by_id id m = elim (lookup id m.by_id) [ none ↦ none | some i ↦ get_elem? m.buffer i ]

  unfoldable pub reversed_non_events : MetricsCollector V → List (Record V)
  unfolding is_event
  reversed_non_events m = keep (λ r. not (is_event r)) (reversed m.buffer)

  -- `requests[a:b]`, none where the slice panics.
  abbrev pub slice : ℕ → ℤ → List (Record V) → Option (List (Record V))
  slice a b rs = if ltb_ℤ b (pos a) then none else some (take (pos_part b - a) (drop a rs))

  -- From an offset to an end, which is cut to the length.
  unfoldable pub page : ℕ → ℤ → List (Record V) → Option (List (Record V))
  page from end rs =
      if ltb (length rs) from
      then some []
      else slice from (if ltb_ℤ (pos (length rs)) end then pos (length rs) else end) rs

  -- A negative offset counts as 0.
  unfoldable pub get_requests : ℤ → ℤ → MetricsCollector V → Option (List (Record V))
  unfolding reversed_non_events ◌+ℤ◌ page
  get_requests limit offset m =
      page (pos_part offset) (pos (pos_part offset) +ℤ limit) (reversed_non_events m)

  abbrev count_requests : List (Record V) → ℕ
  count_requests [] = 0
  count_requests (r ∷ rs) =
      let rest = count_requests rs in if not (is_event r) then suc rest else rest

  unfoldable pub get_total_count : MetricsCollector V → ℕ
  unfolding is_event
  get_total_count m = count_requests m.buffer

  unfoldable pub get_events : String → ℕ → MetricsCollector V → List (Record V)
  unfolding is_event text_at
  get_events event_type limit m =
      let events =
        keep (λ r. is_event r && (str_eq event_type "" || str_eq (text_at "event" r) event_type))
          (reversed m.buffer) in
      if ltb 0 limit && ltb limit (length events) then take limit events else events

  -- A lookup by id in an indexed collector gives a request's record with that id, and none only for
  -- an id that the index does not hold.
  pub get_request_by_id-IsOf :
      (m : MetricsCollector V) (id : String)
      → IsIndexed m
      → (lookup id m.by_id ≢ none)
      → (r : Record V) × (get_request_by_id id m ≡ some r) × IsOf id r
  unfolding get_request_by_id
  get_request_by_id-IsOf m id h found = elim (Option-cases (lookup id m.by_id)) [
    | inl e ↦ absurd (found e)
    | inr (i, e) ↦
        let (r, at, of_id) = by_id-IsOf m id i h e in (r, rw (e, get_request_by_id) at, of_id)
  ]

  length-take : (n : ℕ) (rs : List (Record V)) → length (take n rs) ≤ length rs
  length-take zero rs = omega arith
  length-take (suc n) [] = omega arith
  length-take (suc n) (r ∷ rs) = omega (arith, length-take n rs)

  take_all : (n : ℕ) (rs : List (Record V)) → length rs ≤ n → take n rs ≡ rs
  take_all zero [] h = refl
  take_all zero (r ∷ rs) h = absurd (omega arith)
  take_all (suc n) [] h = refl
  take_all (suc n) (r ∷ rs) h = ap (λ l. r ∷ l) (take_all n rs (omega arith))

  take_min : (a b : ℕ) (rs : List (Record V)) → length rs ≤ a → a ≤ b → take a rs ≡ take b rs
  take_min a b rs h k = take_all a rs h ∙ sym (take_all b rs (omega arith))

  drop_past : (n : ℕ) (rs : List (Record V)) → length rs < n → drop n rs ≡ []
  drop_past zero rs h = absurd (omega arith)
  drop_past (suc n) [] h = refl
  drop_past (suc n) (r ∷ rs) h = drop_past n rs (omega arith)

  take-nil : (n : ℕ) → take {A = Record V} n [] ≡ []
  take-nil zero = refl
  take-nil (suc n) = refl

  page_lem :
      (limit from : ℕ) (rs : List (Record V))
      → page from (pos (from + limit)) rs ≡ some (take limit (drop from rs))
  unfolding page
  page_lem limit from rs = elim (Bool-cases (ltb (length rs) from)) [
    | inl t ↦ rw (t, drop_past from rs (ltb→lt (length rs) from t), take-nil limit) refl
    | inr f ↦ elim (Bool-cases (ltb (length rs) (from + limit))) [
      | inl t ↦
          ground (arith, take_min (length rs - from) limit (drop from rs), length-drop from rs)
      | inr g ↦ ground arith
    ]
  ]

  -- A page of requests, for a limit that is not negative, is the slice of that length of the
  -- requests, newest first, from the offset on; a negative offset counts as 0, and events are left
  -- out.
  pub get_requests_lem :
      (limit : ℕ) (offset : ℤ) (m : MetricsCollector V)
      → get_requests (pos limit) offset m
        ≡ some (take limit (drop (pos_part offset) (reversed_non_events m)))
  unfolding get_requests
  get_requests_lem limit offset m =
      ap (λ end. page (pos_part offset) end (reversed_non_events m))
        (pos_plus (pos_part offset) limit)
      ∙ page_lem limit (pos_part offset) (reversed_non_events m)
