-- ===== src/Transfer/Tests.antt =====
-- transfer.go between two backends without agents, and the theorems applied to it.
use proxycache.Base.{
  ◌+ℤ◌, ℤ, pos, ◌≡◌, refl, ◌⊎◌, true, false, not, [], ◌∷◌, lookup_or, lookup, string_eq, str_eq,
}
use proxycache.Samples.{milli}
use proxycache.Ring.{Ring, RingEnv}
use proxycache.Transfer.{TransferEnv, move_files, run_cache_transfer}
use proxycache.Transfer.Moved.{CanMove, Registered, run_cache_transfer-Registered}
use proxycache.Transfer.Once.{
  Transfers, requested, ended, transfer_run, IsTracked, transfer_run-IsTracked,
}

-- The second sidecar cannot be copied.
abbrev env : TransferEnv
env = record {
  size = pos 100;
  src_known = true;
  dst_known = true;
  src_agent = false;
  dst_agent = false;
  sidecars = "k1.ckpt" ∷ "k1.ckpt.1" ∷ [];
  agent_transfer = λ f. false;
  copy_local = λ f. not (str_eq f "k1.ckpt.1");
  upload = λ f. false;
  fetch = λ f. false;
  stream_to_file = λ f. false;
}

incomplete : move_files env "k1" ≡ false
unfolding move_files
incomplete = refl

abbrev complete : TransferEnv
complete = record env { sidecars = "k1.ckpt" ∷ [] }

abbrev dst : RingEnv ℤ
dst = record {
  backend_id = "gpu:2";
  max_size_gb = pos 2000;
  words_per_block = 100;
  removes = λ k. true;
}

abbrev no_entries : Ring ℤ
no_entries = record { cache_ring = []; total_bytes = pos 0; metas = []; deletes = [] }

run_cache_transfer-Registered_example :
    let (ok, r) = run_cache_transfer complete dst (pos 5000) "gpu:1" "k1" no_entries in
    ((ok ≡ true)
      × CanMove complete "k1"
      × Registered complete dst (pos 5000) "gpu:1" "k1" no_entries r)
    ⊎ ((ok ≡ false) × (¬ CanMove complete "k1") × (r ≡ no_entries))
unfolding ◌+ℤ◌
run_cache_transfer-Registered_example =
    run_cache_transfer-Registered complete dst (pos 5000) "gpu:1" "k1" no_entries refl refl

abbrev none_running : Transfers
none_running = record { tracker = []; running = [] }

none_running-IsTracked : IsTracked none_running
unfolding lookup_or lookup
none_running-IsTracked = record { once = tt; marked = λ id. refl }

transfer_run-IsTracked_example : IsTracked (
    transfer_run none_running
      (requested false "gpu:2" "k1" ∷ requested false "gpu:2" "k1" ∷ ended "gpu:2" "k1" ∷ []))
transfer_run-IsTracked_example =
    transfer_run-IsTracked none_running
      (requested false "gpu:2" "k1" ∷ requested false "gpu:2" "k1" ∷ ended "gpu:2" "k1" ∷ [])
      none_running-IsTracked
