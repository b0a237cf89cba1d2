-- ===== src/Transfer/Once.antt =====
-- The transfer tracker of transfer.go over any history of requests and ends.
use proxycache.Base.{
  ◌≡◌, String, Bool, true, false, List, [], ◌∷◌, arith, lookup_or, lookup_or-insert,
  lookup_or-delete, if◌then◌else◌, str_eq, str_eq_iff, string_eq, Bool-cases, inl, inr,
}
use proxycache.Ring.{has_string}
use proxycache.Transfer.{
  TransferTracker, transfer_id_for, transfer_in_flight, request_cache_transfer, finish_transfer,
}

-- The tracker with the ids of the transfers whose goroutines run.
pub record Transfers : Type 0 where
  pub tracker : TransferTracker
  pub running : List String

-- A request with the destination's answer on its own file, or the end of a transfer.
pub data TransferOp : Type 0 where
  requested : Bool → String → String → TransferOp
  ended : String → String → TransferOp

unfoldable pub drop_string : String → List String → List String
drop_string s [] = []
drop_string s (t ∷ ts) = let rest = drop_string s ts in if str_eq t s then ts else t ∷ rest

-- Only a transfer that runs ends.
unfoldable pub transfer_step : Transfers → TransferOp → Transfers
unfolding request_cache_transfer finish_transfer drop_string
transfer_step w (requested exists dst key) =
    let (ok, tracker) = request_cache_transfer exists dst key w.tracker in
    record {
      tracker = tracker;
      running = if ok then transfer_id_for key dst ∷ w.running else w.running;
    }
transfer_step w (ended dst key) =
    if has_string (transfer_id_for key dst) w.running
    then record {
      tracker = finish_transfer dst key w.tracker;
      running = drop_string (transfer_id_for key dst) w.running;
    }
    else w

unfoldable pub transfer_run : Transfers → List TransferOp → Transfers
unfolding transfer_step
transfer_run w [] = w
transfer_run w (op ∷ ops) = transfer_run (transfer_step w op) ops

abbrev pub Unrepeated : List String → Type 0
Unrepeated [] = Unit
Unrepeated (s ∷ ss) = (has_string s ss ≡ false) × Unrepeated ss

-- No id runs twice, and the tracker marks exactly the ids that run.
pub record IsTracked (w : Transfers) : Type 0 where
  pub once : Unrepeated w.running
  pub marked : (id : String) → lookup_or false id w.tracker ≡ has_string id w.running

pub has_string-drop_string :
    (s t : String) (ss : List String)
    → Unrepeated ss
    → has_string t (drop_string s ss) ≡ (if str_eq s t then false else has_string t ss)
unfolding drop_string
has_string-drop_string s t [] u = ground arith
has_string-drop_string s t (x ∷ xs) u =
    ground
      (arith, str_eq_iff x s, str_eq_iff x t, str_eq_iff s t, has_string-drop_string s t xs u.1)

pub drop_string-Unrepeated :
    (s : String) (ss : List String) → Unrepeated ss → Unrepeated (drop_string s ss)
unfolding drop_string
drop_string-Unrepeated s [] u = tt
drop_string-Unrepeated s (x ∷ xs) u =
    ground (arith, has_string-drop_string s x xs u.1, drop_string-Unrepeated s xs u.1)

request-IsTracked :
    (w : Transfers) (exists : Bool) (dst key : String)
    → IsTracked w
    → IsTracked (transfer_step w (requested exists dst key))
unfolding transfer_step request_cache_transfer transfer_in_flight
request-IsTracked w exists dst key k = record {
  once = (let at = k.marked (transfer_id_for key dst) in ground (arith, k.once));
  marked = λ id.
      let at = k.marked (transfer_id_for key dst) in
      let there = k.marked id in
      ground (arith, lookup_or-insert false (transfer_id_for key dst) id true w.tracker);
}

end-IsTracked :
    (w : Transfers) (dst key : String) → IsTracked w → IsTracked (transfer_step w (ended dst key))
unfolding transfer_step finish_transfer
end-IsTracked w dst key k = elim (Bool-cases (has_string (transfer_id_for key dst) w.running)) [
  | inr f ↦ rw (f, transfer_step) k
  | inl t ↦
      rw (t, transfer_step)
        (record {
          once = drop_string-Unrepeated (transfer_id_for key dst) w.running k.once;
          marked = λ id.
              let there = k.marked id in
              ground (
                arith,
                lookup_or-delete false (transfer_id_for key dst) id w.tracker,
                has_string-drop_string (transfer_id_for key dst) id w.running k.once,
              );
        })
]

-- If no transfer of a key to a destination runs twice and the tracker marks exactly those that
-- run, then this stays so after requests and ends of running transfers in any order.
pub transfer_run-IsTracked :
    (w : Transfers) (ops : List TransferOp) → IsTracked w → IsTracked (transfer_run w ops)
unfolding transfer_run
transfer_run-IsTracked w [] k = k
transfer_run-IsTracked w (requested exists dst key ∷ ops) k =
    transfer_run-IsTracked (transfer_step w (requested exists dst key)) ops
      (request-IsTracked w exists dst key k)
transfer_run-IsTracked w (ended dst key ∷ ops) k =
    transfer_run-IsTracked (transfer_step w (ended dst key)) ops (end-IsTracked w dst key k)
