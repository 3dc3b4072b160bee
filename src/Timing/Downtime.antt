-- ===== src/Timing/Downtime.antt =====
-- arm64_files/migrate.c, lines 266-325 and 607-665: the stall that a thread sees when it faults on
-- a migration entry, and the buffer behind /sys/kernel/debug/mig_downtime.
use memory_migration_cs.Base.{
  ℕ, zero, suc, ◌+◌, ◌-◌, ◌%◌, ◌^◌, ◌≤◌, ◌<◌, min, ◌≡◌, Bool, false, Option, none, some, List, [],
  ◌∷◌, update, ltb, if◌then◌else◌, arith,
}
use memory_migration_cs.Timing.{sub64, atomic_inc, lt_signed}

-- `struct mig_downtime_record`.
pub record DowntimeRecord : Type 0 where
  pub total_start_ns : ℕ
  pub wait_start_ns : ℕ
  pub total_end_ns : ℕ
  pub fault_addr : ℕ
  pub pfn : ℕ
  pub page_order : ℕ
  pub cpu : ℕ
  pub pid : ℕ
  pub was_already_done : Bool

abbrev pub zero_downtime : DowntimeRecord
zero_downtime = record {
  total_start_ns = 0;
  wait_start_ns = 0;
  total_end_ns = 0;
  fault_addr = 0;
  pfn = 0;
  page_order = 0;
  cpu = 0;
  pid = 0;
  was_already_done = false;
}

abbrev pub dt_bufsize : ℕ
dt_bufsize = 8192

-- `dt_records` and `dt_record_idx`.
pub record DowntimeBuffer : Type 0 where
  pub slots : ℕ → DowntimeRecord
  pub idx : ℕ

-- What stands in the page table when the fault handler has taken its lock.
pub data Entry : Type 0 where
  present : Entry
  swap : Entry
  migration : Entry

-- How `__migration_entry_wait` leaves: it sleeps in `migration_entry_wait_on_locked`, which drops
-- the lock, or it drops the lock itself.
pub data Wait : Type 0 where
  slept unlocked : Wait

unfoldable pub entry_wait : Entry → Wait
entry_wait migration = slept
entry_wait present = unlocked
entry_wait swap = unlocked

-- The record of one wait.
abbrev downtime_of : (t₀ t₁ t₂ address cpu pid : ℕ) → DowntimeRecord
downtime_of t₀ t₁ t₂ address cpu pid = record zero_downtime {
  total_start_ns = t₀;
  fault_addr = address;
  cpu = cpu;
  pid = pid;
  wait_start_ns = t₁;
  total_end_ns = t₂;
}

-- `migration_entry_wait`. The clock is read three times; the last reading follows the wait and
-- may depend on how it went. `none` is a write at a negative index.
unfoldable pub migration_entry_wait :
    (t₀ t₁ : ℕ) (t₂ : Wait → ℕ) (address cpu pid : ℕ)
    → Entry
    → DowntimeBuffer
    → Option DowntimeBuffer
unfolding entry_wait
migration_entry_wait t₀ t₁ t₂ address cpu pid e b =
    let rec = downtime_of t₀ t₁ (t₂ (entry_wait e)) address cpu pid in
    let count = atomic_inc b.idx in
    let i = (count + 2 ^ 32 - 1) % 2 ^ 32 in
    if lt_signed i dt_bufsize
    then if ltb i (2 ^ 31)
      then some (record { slots = update b.slots i rec; idx = count })
      else none
    else some (record b { idx = count })

-- `dt_timing_write`.
unfoldable pub dt_timing_write : DowntimeBuffer → DowntimeBuffer
dt_timing_write b = record { slots = λ i. zero_downtime; idx = 0 }

-- A row of `dt_timing_show`: the record, `wait_ns` and `total_ns`.
pub record DowntimeRow : Type 0 where
  pub source : DowntimeRecord
  pub wait_ns : ℕ
  pub total_ns : ℕ

unfoldable pub downtime_row : DowntimeRecord → DowntimeRow
downtime_row r = record {
  source = r;
  wait_ns = sub64 r.total_end_ns r.wait_start_ns;
  total_ns = sub64 r.total_end_ns r.total_start_ns;
}

unfoldable pub downtime_rows : (ℕ → DowntimeRecord) → ℕ → ℕ → List DowntimeRow
downtime_rows slots i zero = []
downtime_rows slots i (suc n) = downtime_row (slots i) ∷ downtime_rows slots (i + 1) n

unfoldable pub dt_timing_show : DowntimeBuffer → List DowntimeRow
unfolding downtime_rows
dt_timing_show b = downtime_rows b.slots 0 (if ltb b.idx (2 ^ 31) then min b.idx dt_bufsize else 0)

-- With a clock that does not run backwards, a fault that finds room in the buffer writes one row,
-- in the next slot. Its stall lies within its total time, and it leaves the row's columns
-- `was_already_done`, `pfn` and `page_order` at 0, whether the thread slept or the migration had
-- finished.
pub migration_entry_wait_row :
    (t₀ t₁ : ℕ) (t₂ : Wait → ℕ) (address cpu pid : ℕ) (e : Entry) (b : DowntimeBuffer)
    → t₀ ≤ t₁
    → t₁ ≤ t₂ (entry_wait e)
    → t₂ (entry_wait e) < 2 ^ 64
    → b.idx < dt_bufsize
    → (b' : DowntimeBuffer) × (migration_entry_wait t₀ t₁ t₂ address cpu pid e b ≡ some b')
      × (b'.idx ≡ b.idx + 1)
      × let row = downtime_row (b'.slots b.idx) in
        (row.wait_ns ≤ row.total_ns)
        × (row.wait_ns ≡ t₂ (entry_wait e) - t₁)
        × (row.source.was_already_done ≡ false)
        × (row.source.pfn ≡ 0)
        × (row.source.page_order ≡ 0)
        × (row.source.fault_addr ≡ address)
unfolding migration_entry_wait downtime_row
migration_entry_wait_row t₀ t₁ t₂ address cpu pid e b h k u room =
    let wraps : (b.idx + 1) % 2 ^ 32 ≡ b.idx + 1 = omega arith in
    let back : (b.idx + 1 + 2 ^ 32 - 1) % 2 ^ 32 ≡ b.idx = omega arith in
    (
      record {
        slots = update b.slots b.idx (downtime_of t₀ t₁ (t₂ (entry_wait e)) address cpu pid);
        idx = b.idx + 1;
      },
      rw (wraps, back) (ground arith),
      omega arith,
      ground arith,
    )
