-- ===== src/Timing.antt =====
-- arm64_files/migrate.c, lines 78-248: the ring of migration timing records behind
-- /sys/kernel/debug/mig_timing.
pub mod Ring
pub mod Columns
pub mod Downtime
use memory_migration_cs.Base.{
  ℕ, zero, suc, ◌+◌, ◌-◌, ◌%◌, ◌^◌, min, Bool, Option, none, some, List, [], ◌∷◌, update, ltb,
  if◌then◌else◌, Rc, success,
}

-- u64 subtraction and addition wrap.
abbrev pub sub64 : ℕ → ℕ → ℕ
sub64 a b = (a + 2 ^ 64 - b) % 2 ^ 64

-- `struct mig_stage_timing`: u64 nanoseconds.
pub record StageTiming : Type 0 where
  pub lock_start_ns : ℕ
  pub lock_end_ns : ℕ
  pub unmap_start_ns : ℕ
  pub unmap_end_ns : ℕ
  pub copy_start_ns : ℕ
  pub copy_end_ns : ℕ
  pub remap_start_ns : ℕ
  pub remap_end_ns : ℕ
  pub unlock_start_ns : ℕ
  pub unlock_end_ns : ℕ

-- `struct mig_timing_record`. The `int` flags that are only 0 or 1 are Booleans.
pub record TimingRecord : Type 0 where
  pub stages : StageTiming
  pub total_start_ns : ℕ
  pub total_end_ns : ℕ
  pub src_pfn : ℕ
  pub dst_pfn : ℕ
  pub page_order : ℕ
  pub src_nid : ℕ
  pub dst_nid : ℕ
  pub mapcount : ℕ
  pub cpu : ℕ
  pub pid : ℕ
  pub lock_contended : Bool
  pub page_was_mapped : Bool
  pub is_anon : Bool
  pub result : Rc
  pub try_migrate_start_ns : ℕ
  pub try_migrate_end_ns : ℕ
  pub rocm_path : Bool
  pub ro_swap_start_ns : ℕ
  pub ro_swap_end_ns : ℕ
  pub seq : ℕ

abbrev pub zero_stages : StageTiming
zero_stages = record {
  lock_start_ns = 0;
  lock_end_ns = 0;
  unmap_start_ns = 0;
  unmap_end_ns = 0;
  copy_start_ns = 0;
  copy_end_ns = 0;
  remap_start_ns = 0;
  remap_end_ns = 0;
  unlock_start_ns = 0;
  unlock_end_ns = 0;
}

-- `struct mig_timing_record rec = {}`.
abbrev pub zero_record : TimingRecord
zero_record = record {
  stages = zero_stages;
  total_start_ns = 0;
  total_end_ns = 0;
  src_pfn = 0;
  dst_pfn = 0;
  page_order = 0;
  src_nid = 0;
  dst_nid = 0;
  mapcount = 0;
  cpu = 0;
  pid = 0;
  lock_contended = Bool.false;
  page_was_mapped = Bool.false;
  is_anon = Bool.false;
  result = success;
  try_migrate_start_ns = 0;
  try_migrate_end_ns = 0;
  rocm_path = Bool.false;
  ro_swap_start_ns = 0;
  ro_swap_end_ns = 0;
  seq = 0;
}

abbrev pub mig_timing_bufsize : ℕ
mig_timing_bufsize = 16384

-- `mig_records`, `mig_record_idx` and `mig_record_seq`. An `atomic_t` is a 32-bit pattern, which
-- is negative from 2^31 on.
pub record RecordBuffer : Type 0 where
  pub slots : ℕ → TimingRecord
  pub idx : ℕ
  pub next_seq : ℕ

-- `atomic_inc_return`: the new pattern.
abbrev pub atomic_inc : ℕ → ℕ
atomic_inc n = (n + 1) % 2 ^ 32

-- A signed comparison of a 32-bit pattern with a bound that is not negative.
abbrev pub lt_signed : ℕ → ℕ → Bool
lt_signed i bound = if ltb i (2 ^ 31) then ltb i bound else Bool.true

-- `mig_timing_store`: `none` is a write in front of the array, at a negative index.
unfoldable pub mig_timing_store : ℕ → ℕ → TimingRecord → RecordBuffer → Option RecordBuffer
mig_timing_store cpu pid rec b =
    let seq = atomic_inc b.next_seq in
    let stamped = record rec { cpu = cpu; pid = pid; seq = seq } in
    let count = atomic_inc b.idx in
    let i = (count + 2 ^ 32 - 1) % 2 ^ 32 in
    if lt_signed i mig_timing_bufsize
    then if ltb i (2 ^ 31)
      then some (record { slots = update b.slots i stamped; idx = count; next_seq = seq })
      else none
    else some (record b { idx = count; next_seq = seq })

-- `mig_timing_write`: any write clears the buffer.
unfoldable pub mig_timing_write : RecordBuffer → RecordBuffer
mig_timing_write b = record { slots = λ i. zero_record; idx = 0; next_seq = 0 }

-- The columns of a row that are computed (the others are copied from the record).
pub record Row : Type 0 where
  pub source : TimingRecord
  pub lock_ns : ℕ
  pub unmap_ns : ℕ
  pub copy_ns : ℕ
  pub remap_ns : ℕ
  pub unlock_ns : ℕ
  pub total_ns : ℕ
  pub overhead_ns : ℕ
  pub try_migrate_ns : ℕ
  pub ro_swap_ns : ℕ

abbrev positive_difference : ℕ → ℕ → ℕ
positive_difference b a = if ltb a b then sub64 b a else 0

-- The body of the loop of `mig_timing_show`.
unfoldable pub row_of : TimingRecord → Row
row_of r =
    let s = r.stages in
    let lock_ns = sub64 s.lock_end_ns s.lock_start_ns in
    let unmap_ns = sub64 s.unmap_end_ns s.unmap_start_ns in
    let copy_ns = sub64 s.copy_end_ns s.copy_start_ns in
    let remap_ns = sub64 s.remap_end_ns s.remap_start_ns in
    let unlock_ns = sub64 s.unlock_end_ns s.unlock_start_ns in
    let total_ns = sub64 r.total_end_ns r.total_start_ns in
    let accounted = (lock_ns + unmap_ns + copy_ns + remap_ns + unlock_ns) % 2 ^ 64 in
    record {
      source = r;
      lock_ns = lock_ns;
      unmap_ns = unmap_ns;
      copy_ns = copy_ns;
      remap_ns = remap_ns;
      unlock_ns = unlock_ns;
      total_ns = total_ns;
      overhead_ns = if ltb accounted total_ns then sub64 total_ns accounted else 0;
      try_migrate_ns = positive_difference r.try_migrate_end_ns r.try_migrate_start_ns;
      ro_swap_ns = positive_difference r.ro_swap_end_ns r.ro_swap_start_ns;
    }

-- `for (i = from; i < from + n; i++)` over the slots.
unfoldable pub rows_from : (ℕ → TimingRecord) → ℕ → ℕ → List Row
rows_from slots i zero = []
rows_from slots i (suc n) = row_of (slots i) ∷ rows_from slots (i + 1) n

-- `mig_timing_show`, its rows without the header line. A negative count makes no round.
unfoldable pub mig_timing_show : RecordBuffer → List Row
unfolding rows_from
mig_timing_show b =
    rows_from b.slots 0 (if ltb b.idx (2 ^ 31) then min b.idx mig_timing_bufsize else 0)
