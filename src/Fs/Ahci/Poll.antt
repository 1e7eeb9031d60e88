-- ===== src/Fs/Ahci/Poll.antt =====
-- The polling loops of a transfer: when they end, and with what.
use ryanos.Prelude.{
  ℕ, zero, suc, ◌<◌, ◌≡◌, refl, ◌∙◌, Bool, true, false, some, arith, ◌==◌, ◌⊎◌, inl, inr,
  Bool-cases, ◌^◌,
}
use ryanos.Fs.Ahci.{Hba, has, task_file_data, command_issue, interrupt_status}
use ryanos.Fs.Ahci.Transfer.{wait_ready, wait_done}

module _ {D : Type 0} (hba : Hba D) where
  -- The device after the status was read `n` times, and whether it is busy at the next reading.
  unfoldable pub after : ℕ → D → D
  after zero d = d
  after (suc n) d = after n (hba.read_register task_file_data d).0

  unfoldable pub busy_at : ℕ → D → Bool
  unfolding after
  busy_at n d = has (hba.read_register task_file_data (after n d)).1 0x88

  -- The wait ends at the first reading that is not busy, or is hung.
  pub data Ready (left : ℕ) (d : D) : D × Bool → Type 0 where
    ready :
        (n : ℕ)
        → n < left
        → ((k : ℕ) → k < n → busy_at k d ≡ true)
        → busy_at n d ≡ false
        → Ready left d (after (suc n) d, false)
    hung : ((k : ℕ) → k < left → busy_at k d ≡ true) → Ready left d (after (suc left) d, true)

  later :
      (n : ℕ) (d : D)
      → busy_at 0 d ≡ true
      → ((k : ℕ) → k < n → busy_at k (hba.read_register task_file_data d).0 ≡ true)
      → (k : ℕ) → k < suc n
      → busy_at k d ≡ true
  unfolding busy_at after
  later n d now rest zero h = now
  later n d now rest (suc k) h = rest k (omega arith)

  Ready-later :
      (left : ℕ) (d : D) {r : D × Bool}
      → busy_at 0 d ≡ true
      → Ready left (hba.read_register task_file_data d).0 r
      → Ready (suc left) d r
  unfolding after busy_at
  Ready-later left d now (ready n small before here) =
      ready (suc n) (omega arith) (later n d now before) here
  Ready-later left d now (hung all) = hung (later left d now all)

  pub wait_ready-Ready : (left : ℕ) (d : D) → Ready left d (wait_ready hba left d)
  unfolding wait_ready after busy_at
  wait_ready-Ready zero d = hung (λ k h. absurd (omega arith))
  wait_ready-Ready (suc left) d = elim (Bool-cases (busy_at 0 d)) [
    | inl busy ↦
        rw (wait_ready, busy)
          (Ready-later left d busy (wait_ready-Ready left (hba.read_register task_file_data d).0))
    | inr free ↦ rw (wait_ready, free) (ready 0 (omega arith) (λ k h. absurd (omega arith)) free)
  ]

  -- The device after `n` rounds of the second wait, what it shows then, and the state behind it.
  unfoldable pub polled : ℕ → D → D
  polled zero d = d
  polled (suc n) d =
      polled n (hba.read_register interrupt_status (hba.read_register command_issue d).0).0

  unfoldable pub done_at : ℕ → D → Bool
  unfolding polled
  done_at n d = (hba.read_register command_issue (polled n d)).1 == 0

  unfoldable pub failed_at : ℕ → D → Bool
  unfolding polled
  failed_at n d =
      has (hba.read_register interrupt_status (hba.read_register command_issue (polled n d)).0).1
        (2 ^ 30)

  -- Round `n` is the first one that finds the command done or failed.
  pub record Settles (n : ℕ) (d : D) : Type 0 where
    pub pending : (k : ℕ) → k < n → (done_at k d ≡ false) × (failed_at k d ≡ false)
    pub settled : (done_at n d ≡ true) ⊎ ((done_at n d ≡ false) × (failed_at n d ≡ true))

  wait_done-pending :
      (fuel : ℕ) (d : D)
      → done_at 0 d ≡ false
      → failed_at 0 d ≡ false
      → wait_done hba (suc fuel) d
        ≡ wait_done hba fuel
            (hba.read_register interrupt_status (hba.read_register command_issue d).0).0
  unfolding wait_done done_at failed_at polled
  wait_done-pending fuel d wait fine = rw (wait_done, wait, fine) refl

  Settles-later :
      (n : ℕ) (d : D)
      → Settles (suc n) d
      → Settles n (hba.read_register interrupt_status (hba.read_register command_issue d).0).0
  unfolding done_at failed_at polled
  Settles-later n d s = record {
    pending = λ k h. s.pending (suc k) (omega arith);
    settled = s.settled;
  }

  pub wait_done_lem :
      (n fuel : ℕ) (d : D)
      → n < fuel
      → Settles n d
      → (d' : D) × (wait_done hba fuel d ≡ some (d', done_at n d))
  unfolding wait_done done_at failed_at polled
  wait_done_lem n zero d enough s = absurd (omega arith)
  wait_done_lem zero (suc fuel) d enough s = elim s.settled [
    | inl done ↦ ((hba.read_register command_issue d).0, rw (wait_done, done) refl)
    | inr (wait, failed) ↦ (
      (hba.read_register interrupt_status (hba.read_register command_issue d).0).0,
      rw (wait_done, wait, failed) refl,
    )
  ]
  wait_done_lem (suc n) (suc fuel) d enough s =
      let (wait, fine) = s.pending 0 (omega arith) in
      let (d', e) =
        wait_done_lem n fuel
          (hba.read_register interrupt_status (hba.read_register command_issue d).0).0 (omega arith)
          (Settles-later n d s) in
      (d', wait_done-pending fuel d wait fine ∙ e)
