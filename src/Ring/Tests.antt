-- ===== src/Ring/Tests.antt =====
-- The cache ring of slotmanager.go on a small history, and the theorems applied to it.
use proxycache.Base.{
  ◌+ℤ◌, ◌-ℤ◌, lookup, insert, string_eq, ℤ, pos, ◌≡◌, refl, ◌⊎◌, inr, String, true, List, [], ◌∷◌,
  Map,
}
use proxycache.Hashing.{lcp_blocks}
use proxycache.Meta.{get_blocks}
use proxycache.Samples.{milli}
use proxycache.Ring.{RingEntry, Ring, RingEnv, fits}
use proxycache.Ring.Evict.{record_save, add_transferred_entry, touch_ring, evict_if_needed}
use proxycache.Ring.Sums.{sum_sizes}
use proxycache.Ring.Accounts.{RingInv}
use proxycache.Ring.Budget.{evict_if_needed-fits}
use proxycache.Ring.History.{
  RingOp, saved, transferred, restored, ring_run, IsKept, ring_run-IsKept,
}

-- A budget of 2 * 1024^3 bytes.
abbrev env : RingEnv ℤ
env = record {
  backend_id = "gpu:1";
  max_size_gb = pos 2000;
  words_per_block = 100;
  removes = λ k. true;
}

abbrev no_entries : Ring ℤ
no_entries = record { cache_ring = []; total_bytes = pos 0; metas = []; deletes = [] }

abbrev history : List (RingOp ℤ)
history =
    saved (pos 1000) "llama" "k1" ("a" ∷ "b" ∷ []) (pos 200) (pos 1500000000)
    ∷ restored (pos 2000) "k1"
    ∷ saved (pos 3000) "llama" "k2" ("a" ∷ "c" ∷ []) (pos 200) (pos 1500000000)
    ∷ transferred (pos 4000) "k3" (pos 100)
    ∷ []

empty-RingInv : RingInv no_entries
unfolding sum_sizes
empty-RingInv = record { accounted = refl; distinct = tt }

ring_run-IsKept_example : IsKept env (ring_run env no_entries history)
ring_run-IsKept_example =
    ring_run-IsKept env no_entries history (record { inv = empty-RingInv; within = inr refl })

-- The older of two entries over the budget is evicted.
evicted_run : (ring_run env no_entries history).deletes ≡ "k1" ∷ []
unfolding ring_run add_transferred_entry record_save touch_ring get_blocks lookup insert lcp_blocks
    ◌+ℤ◌ ◌-ℤ◌
evicted_run = refl

abbrev entries : List (RingEntry ℤ)
entries =
    record { key = "k1"; size = pos 1500000000; ts = pos 1000 }
    ∷ record { key = "k2"; size = pos 1500000000; ts = pos 2000 }
    ∷ []

abbrev over_budget : Ring ℤ
over_budget = record {
  cache_ring = entries;
  total_bytes = pos 3000000000;
  metas = [];
  deletes = [];
}

over_budget-RingInv : RingInv over_budget
unfolding sum_sizes ◌+ℤ◌
over_budget-RingInv = record { accounted = refl; distinct = (refl, (refl, tt)) }

evict_if_needed-fits_example :
    let r = evict_if_needed env (pos 9000) over_budget in
    ((fits env r.total_bytes ≡ true) ⊎ (r.cache_ring ≡ []))
    × (r.total_bytes ≡ sum_sizes r.cache_ring)
evict_if_needed-fits_example = evict_if_needed-fits env (pos 9000) over_budget over_budget-RingInv

abbrev known_blocks : Map String (List String)
known_blocks = ("k1", "a" ∷ "b" ∷ []) ∷ ("k2", "a" ∷ "c" ∷ []) ∷ []
