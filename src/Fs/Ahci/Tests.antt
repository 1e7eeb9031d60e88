-- ===== src/Fs/Ahci/Tests.antt =====
-- Small devices: one that runs a command in one round of polling, and one that keeps its bases.
use ryanos.Prelude.{
  ℕ, zero, suc, ◌+◌, ◌*◌, ◌<◌, ◌≤◌, ◌≡◌, [], ◌∷◌, length, ◌≢◌, ◌∙◌, refl, false, none, some, arith,
  inl, if◌then◌else◌, ◌==◌,
}
use ryanos.Prelude.Bits.{bit}
use ryanos.Memory.PageTables.{PageSource}
use ryanos.Fs.Ahci.{
  Register, command_list_base, command_list_base_upper, fis_base_address, fis_base_address_upper,
  interrupt_status, command_status, task_file_data, command_issue, Memory, Hba, zero_header,
  zero_fis, zero_prdt_entry,
}
use ryanos.Fs.Ahci.Transfer.{read, write}
use ryanos.Fs.Ahci.Poll.{polled, done_at, failed_at, Settles}
use ryanos.Fs.Ahci.Outcome.{Outcome, transfers-Outcome}
use ryanos.Fs.Ahci.Configure.{
  wait_stopped, and_status, or_status, wait_idle, stop_cmd, start_cmd, configure,
}
use ryanos.Fs.Ahci.Headers.{requested, page_given}
use ryanos.Fs.Ahci.Configured.{Remembers, Configured, Apart, configure-Configured}
use ryanos.Fs.Ahci.Probe.{sata, satapi, HbaPort, AhciDriver, probe_ports}
use ryanos.Fs.Ahci.Ports.{Probed, probe_ports-Probed}
use ryanos.Fs.Ahci.Drives.{drive_of, drives}

-- The state is what `command_issue` reads next; the reading clears it.
abbrev one_round : Hba ℕ
one_round = record { read_register = get; write_register = put }
  where
    get : Register → ℕ → ℕ × ℕ
    get command_issue d = (0, d)
    get command_list_base d = (d, 0x5000)
    get r d = (d, 0)

    put : Register → ℕ → Memory → ℕ → ℕ
    put command_issue v m d = v
    put r v m d = d

abbrev blank : Memory
blank = record {
  headers = λ a i. record zero_header { command_table_base_address = 0x6000 };
  tables = λ a. record { command_fis = zero_fis; prdt_entry = λ e. zero_prdt_entry };
  received = λ a i. 0;
}

one_round-Settles : (e : ℕ) → (p : ℕ) × (p < 2) × Settles one_round p e
unfolding polled done_at failed_at
one_round-Settles zero =
    (0, omega arith, record { pending = λ k h. absurd (omega arith); settled = inl refl })
one_round-Settles (suc n) = (1, omega arith, record { pending = pending; settled = inl refl })
  where
    pending :
        (k : ℕ)
        → k < 1
        → (done_at one_round k (suc n) ≡ false) × (failed_at one_round k (suc n) ≡ false)
    pending zero h = (ground arith, refl)
    pending (suc k) h = absurd (omega arith)

transfers-Outcome_example :
    Outcome one_round 0 0x25 0x123456 4 0x700000 0 blank
      (read one_round 2 0x123456 4 0x700000 0 blank)
    × Outcome one_round 1 0x35 0x123456 4 0x700000 0 blank
        (write one_round 2 0x123456 4 0x700000 0 blank)
transfers-Outcome_example =
    transfers-Outcome one_round 2 0x123456 4 0x700000 0 blank (omega arith) (omega arith)
      one_round-Settles

-- A device that is never running, and shows the two words of its list as they were written.
abbrev keeping : Hba (ℕ × ℕ)
keeping = record { read_register = get; write_register = put }
  where
    get : Register → ℕ × ℕ → (ℕ × ℕ) × ℕ
    get command_list_base (b, u) = ((b, u), b)
    get command_list_base_upper (b, u) = ((b, u), u)
    get r (b, u) = ((b, u), 0)

    put : Register → ℕ → Memory → ℕ × ℕ → ℕ × ℕ
    put command_list_base v m (b, u) = (v, u)
    put command_list_base_upper v m (b, u) = (b, v)
    put r v m (b, u) = (b, u)

abbrev keeping_bases : Remembers keeping
keeping_bases = record {
  base = λ d. d.0;
  upper = λ d. d.1;
  base_read = λ d. refl;
  upper_read = λ d. refl;
  base_put = λ v m d whole. refl;
  upper_put = λ v m d. refl;
  base_kept = base_kept;
  upper_kept = upper_kept;
  gets_keep = gets_keep;
}
  where
    base_kept :
        (r : Register) (v : ℕ) (m : Memory) (d : ℕ × ℕ)
        → r ≢ command_list_base
        → (keeping.write_register r v m d).0 ≡ d.0
    base_kept command_list_base v m d ne = absurd (ne refl)
    base_kept command_list_base_upper v m d ne = refl
    base_kept fis_base_address v m d ne = refl
    base_kept fis_base_address_upper v m d ne = refl
    base_kept interrupt_status v m d ne = refl
    base_kept command_status v m d ne = refl
    base_kept task_file_data v m d ne = refl
    base_kept command_issue v m d ne = refl

    upper_kept :
        (r : Register) (v : ℕ) (m : Memory) (d : ℕ × ℕ)
        → r ≢ command_list_base_upper
        → (keeping.write_register r v m d).1 ≡ d.1
    upper_kept command_list_base v m d ne = refl
    upper_kept command_list_base_upper v m d ne = absurd (ne refl)
    upper_kept fis_base_address v m d ne = refl
    upper_kept fis_base_address_upper v m d ne = refl
    upper_kept interrupt_status v m d ne = refl
    upper_kept command_status v m d ne = refl
    upper_kept task_file_data v m d ne = refl
    upper_kept command_issue v m d ne = refl

    gets_keep :
        (r : Register) (d : ℕ × ℕ)
        → ((keeping.read_register r d).0.0 ≡ d.0) × ((keeping.read_register r d).0.1 ≡ d.1)
    gets_keep command_list_base d = (refl, refl)
    gets_keep command_list_base_upper d = (refl, refl)
    gets_keep fis_base_address d = (refl, refl)
    gets_keep fis_base_address_upper d = (refl, refl)
    gets_keep interrupt_status d = (refl, refl)
    gets_keep command_status d = (refl, refl)
    gets_keep task_file_data d = (refl, refl)
    gets_keep command_issue d = (refl, refl)

-- Pages from 0x10000 on.
abbrev upwards : PageSource ℕ
upwards = record { request_page = λ f. (f + 1, 0x10000 + f * 4096) }

keeping-stops : (m : Memory) (e : ℕ × ℕ) → (e' : ℕ × ℕ) × (stop_cmd keeping 1 m e ≡ some e')
unfolding stop_cmd wait_stopped and_status
keeping-stops m (b, u) = ((b, u), refl)

keeping-starts :
    (m : Memory) (e : ℕ × ℕ)
    → (e' : ℕ × ℕ) × (start_cmd keeping 1 m e ≡ some e') × (e'.0 ≡ e.0) × (e'.1 ≡ e.1)
unfolding start_cmd wait_idle or_status
keeping-starts m (b, u) = ((b, u), refl, refl, refl)

first_page : page_given upwards 0 0 ≡ 0x10000
unfolding page_given requested
first_page = refl

requested-upwards : (j f : ℕ) → requested upwards j f ≡ f + j
unfolding requested
requested-upwards zero f = omega arith
requested-upwards (suc j) f = requested-upwards j (f + 1) ∙ omega arith

pages_upwards : (j : ℕ) → page_given upwards j 0 ≡ 0x10000 + j * 4096
unfolding page_given
pages_upwards j = let e = requested-upwards j 0 in omega (arith, e)

pages-Apart : Apart keeping keeping_bases upwards 0
pages-Apart j h =
    let table = pages_upwards (suc (suc j)) in
    (omega (arith, table), λ e. omega (arith, table, e, first_page))

configure-Configured_example :
    (d' : ℕ × ℕ) × (m' : Memory) × (f' : ℕ) × (configure keeping upwards 1 (0, 0) blank 0
      ≡ some (d', m', f'))
    × Configured keeping keeping_bases upwards 0 d' m' f'
configure-Configured_example =
    configure-Configured keeping keeping_bases upwards 1 (0, 0) blank 0 (omega (arith, first_page))
      (omega (arith, first_page)) pages-Apart keeping-stops keeping-starts

-- A SATA drive on port 1 and a drive of packets on port 5; ports 0 to 5 are implemented.
abbrev two_drives : ℕ → HbaPort
two_drives i =
    if i == 1
    then record { sata_status = 0x113; signature = 0x101 }
    else if i == 5
    then record { sata_status = 0x113; signature = 0xEB140101 }
    else record { sata_status = 0; signature = 0xffffffff }

abbrev no_ports : AhciDriver
no_ports = record { ports = λ k. none; port_count = 0; disk_drive = none; overrun = false }

two_listed : drives 0x3f two_drives 32 0 ≡ (sata, 1) ∷ (satapi, 5) ∷ []
unfolding drives drive_of bit
two_listed = refl

two_fit : no_ports.port_count + length (drives 0x3f two_drives 32 0) ≤ 32
two_fit = let e = two_listed in rw e (omega arith)

probe_ports-Probed_example :
    Probed (drives 0x3f two_drives 32 0) no_ports (probe_ports 0x3f two_drives no_ports)
probe_ports-Probed_example = probe_ports-Probed 0x3f two_drives no_ports two_fit
