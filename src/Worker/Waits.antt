-- ===== src/Worker/Waits.antt =====
-- processor.go: which key a request is restored from, and the bounded wait for a transfer.
use proxycache.Base.{
  ℕ, zero, suc, ◌+◌, ◌*◌, ◌≤◌, ◌<◌, ◌/◌, ℤ, pos, ltb_ℤ, ◌≤ℤ◌, ◌≡◌, ◌⊎◌, inl, inr, String, Bool,
  true, false, not, ◌&&◌, some, arith, ltb, eqb, eqb_iff, subst, ltb→lt, if◌then◌else◌, str_eq,
  Bool-cases, FloatOps,
}
use proxycache.Config.{Config}
use proxycache.Worker.{WorkerEnv, RouteDecision}
use proxycache.Worker.Restore.{
  Polls, min_wait, estimate, transfer_wait_for, resolve_restore_key, wait_for_transfer_complete,
}

module _ {F : Type 0} ⦃fl : FloatOps F⦄ where
  -- There is a key to restore from exactly when the request has a disk cache that is on its backend
  -- and the slot is not warm already, or that is on another backend and has arrived here.
  pub resolve_restore_key_iff :
      {T : Type 0} (env : WorkerEnv F) (dec : RouteDecision F T) (be : String) (can_skip : Bool)
      → let here : Bool = str_eq be dec.disk_restore_backend in
        let usable : Bool =
          not (str_eq dec.disk_restore_key "")
          && (if here then not can_skip else env.arrived dec.disk_restore_key) in
        (resolve_restore_key env dec be can_skip).1 ≡ (if usable then dec.disk_restore_key else "")
  unfolding resolve_restore_key
  resolve_restore_key_iff env dec be can_skip = ground arith

  -- For a file of known size and a positive transfer rate, the wait for a transfer is at least the
  -- configured wait and at least the time that the file takes at that rate, and no longer than the
  -- larger of the two.
  pub transfer_wait_for-max :
      (cfg : Config F) (size : ℤ)
      → ltb_ℤ (pos 0) size ≡ true
      → fl.lt (fl.of_int (pos 0)) cfg.cache_transfer_assumed_mbps ≡ true
      → let wait = transfer_wait_for cfg size in
        (min_wait cfg ≤ℤ wait)
        × (estimate cfg size ≤ℤ wait)
        × ((wait ≡ min_wait cfg) ⊎ (wait ≡ estimate cfg size))
  unfolding transfer_wait_for
  transfer_wait_for-max cfg size h k = (ground arith, ground arith, ground arith)

-- The clock moves on by the time of one sleep between two polls.
abbrev pub Ticks : Polls → Type 0
Ticks polls = (i : ℕ) → polls.clock i + 100 ≤ polls.clock (suc i)

-- Why the loop left at poll `n`.
abbrev pub Over : Polls → ℕ → ℕ → Type 0
Over polls deadline n =
    (polls.in_flight n ≡ false) ⊎ ((deadline < polls.clock n) ⊎ (polls.gone n ≡ true))

-- Why the loop stays after poll `m`.
abbrev pub Stays : Polls → ℕ → ℕ → Type 0
Stays polls deadline m =
    (polls.in_flight m ≡ true) × (polls.clock m ≤ deadline) × (polls.gone m ≡ false)

-- The loop from poll `i` on leaves at poll `n`, and had to stay after every poll before.
abbrev pub LeavesAt : Polls → ℕ → ℕ → ℕ → ℕ → Type 0
LeavesAt polls deadline fuel i n =
    (wait_for_transfer_complete polls deadline fuel i ≡ some n)
    × Over polls deadline n
    × ((m : ℕ) → i ≤ m → m < n → Stays polls deadline m)

wait_round :
    (polls : Polls) (deadline fuel i : ℕ)
    → (polls.clock i ≤ deadline → (n : ℕ) × LeavesAt polls deadline fuel (suc i) n)
    → (n : ℕ) × LeavesAt polls deadline (suc fuel) i n
unfolding wait_for_transfer_complete
wait_round polls deadline fuel i later = elim (Bool-cases (polls.in_flight i)) [
  | inr f ↦ (i, (ground arith, inl f, λ m l u. absurd (omega arith)))
  | inl t ↦ elim (Bool-cases (ltb deadline (polls.clock i))) [
    | inl over ↦ (
      i,
      (
        ground arith,
        inr (inl (ltb→lt deadline (polls.clock i) over)),
        λ m l u. absurd (omega arith),
      ),
    )
    | inr early ↦ elim (Bool-cases (polls.gone i)) [
      | inl g ↦ (i, (ground arith, inr (inr g), λ m l u. absurd (omega arith)))
      | inr stays ↦
          let (n, (e, over, before)) = later (ground arith) in
          (
            n,
            (
              ground arith,
              over,
              λ m l u. elim (Bool-cases (eqb i m)) [
                | inl same ↦
                    subst (Stays polls deadline) ((eqb_iff i m).0 same) (t, ground arith, stays)
                | inr other ↦ before m (ground arith) u
              ],
            ),
          )
    ]
  ]
]

wait_from :
    (polls : Polls) (deadline fuel i : ℕ)
    → Ticks polls
    → deadline < polls.clock i + fuel * 100
    → (n : ℕ) × LeavesAt polls deadline (suc fuel) i n
wait_from polls deadline zero i ticks enough =
    wait_round polls deadline zero i (λ h. absurd (omega arith))
wait_from polls deadline (suc fuel) i ticks enough =
    wait_round polls deadline (suc fuel) i
      (λ h. wait_from polls deadline fuel (suc i) ticks (omega (arith, ticks i)))

-- If the clock moves on by 100 ms or more between two polls, the wait for a transfer ends, within
-- two polls more than the wait holds sleeps of 100 ms: at the first poll at which the transfer is
-- over, the deadline is past or the client is gone.
pub wait_for_transfer_complete-ends :
    (polls : Polls) (wait : ℕ)
    → Ticks polls
    → (n : ℕ) × LeavesAt polls (polls.clock 0 + wait) (suc (wait / 100 + 1)) 0 n
wait_for_transfer_complete-ends polls wait ticks =
    wait_from polls (polls.clock 0 + wait) (wait / 100 + 1) 0 ticks (omega arith)
