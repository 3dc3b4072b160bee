-- ===== src/Timing/Columns.antt =====
-- The computed columns of /sys/kernel/debug/mig_timing (`mig_timing_show` of
-- arm64_files/migrate.c), and the index of `mig_timing_store`.
use memory_migration_cs.Base.{ℕ, ◌+◌, ◌-◌, ◌^◌, ◌≤◌, ◌<◌, ◌≡◌, ◌⊎◌, none, arith, ◌≢◌}
use memory_migration_cs.Timing.{TimingRecord, RecordBuffer, sub64, mig_timing_store, row_of}

-- The timestamps of a record, as one clock that does not run backwards gives them. The stages of
-- the standard path follow one another; the copy of the ROCM path comes before its PTE swap, which
-- counts as the unmap stage.
pub record IsStandardOrder (r : TimingRecord) : Type 0 where
  pub lock_begins : r.total_start_ns ≤ r.stages.lock_start_ns
  pub locks : r.stages.lock_start_ns ≤ r.stages.lock_end_ns
  pub unmap_begins : r.stages.lock_end_ns ≤ r.stages.unmap_start_ns
  pub unmaps : r.stages.unmap_start_ns ≤ r.stages.unmap_end_ns
  pub copy_begins : r.stages.unmap_end_ns ≤ r.stages.copy_start_ns
  pub copies : r.stages.copy_start_ns ≤ r.stages.copy_end_ns
  pub remap_begins : r.stages.copy_end_ns ≤ r.stages.remap_start_ns
  pub remaps : r.stages.remap_start_ns ≤ r.stages.remap_end_ns
  pub unlock_begins : r.stages.remap_end_ns ≤ r.stages.unlock_start_ns
  pub unlocks : r.stages.unlock_start_ns ≤ r.stages.unlock_end_ns
  pub ends : r.stages.unlock_end_ns ≤ r.total_end_ns
  pub in_u64 : r.total_end_ns < 2 ^ 64

pub record IsRocmOrder (r : TimingRecord) : Type 0 where
  pub lock_begins : r.total_start_ns ≤ r.stages.lock_start_ns
  pub locks : r.stages.lock_start_ns ≤ r.stages.lock_end_ns
  pub copy_begins : r.stages.lock_end_ns ≤ r.stages.copy_start_ns
  pub copies : r.stages.copy_start_ns ≤ r.stages.copy_end_ns
  pub swap_begins : r.stages.copy_end_ns ≤ r.stages.unmap_start_ns
  pub swaps : r.stages.unmap_start_ns ≤ r.stages.unmap_end_ns
  pub remap_begins : r.stages.unmap_end_ns ≤ r.stages.remap_start_ns
  pub remaps : r.stages.remap_start_ns ≤ r.stages.remap_end_ns
  pub unlock_begins : r.stages.remap_end_ns ≤ r.stages.unlock_start_ns
  pub unlocks : r.stages.unlock_start_ns ≤ r.stages.unlock_end_ns
  pub ends : r.stages.unlock_end_ns ≤ r.total_end_ns
  pub in_u64 : r.total_end_ns < 2 ^ 64

sub64-of_le : (a b : ℕ) → a ≤ b → b < 2 ^ 64 → sub64 b a ≡ b - a
sub64-of_le a b h k = omega arith

-- For a record in either order of the stages, the columns of a row account for the whole time: the
-- five stages and the overhead add up to the total, and no column is a wrapped difference.
pub row_of-accounts :
    (r : TimingRecord)
    → IsStandardOrder r ⊎ IsRocmOrder r
    → let row = row_of r in
      (row.lock_ns + row.unmap_ns + row.copy_ns + row.remap_ns + row.unlock_ns + row.overhead_ns
        ≡ row.total_ns)
      × (row.total_ns ≡ r.total_end_ns - r.total_start_ns)
unfolding row_of
row_of-accounts r h = ground arith

-- For an index below 2^32, a commit writes in front of the array exactly when the index has
-- passed 2^31, where the signed comparison with the buffer's size holds of a negative number.
pub mig_timing_store-fault :
    (cpu pid : ℕ) (r : TimingRecord) (b : RecordBuffer)
    → b.idx < 2 ^ 32
    → (2 ^ 31 ≤ b.idx → mig_timing_store cpu pid r b ≡ none)
      × (b.idx < 2 ^ 31 → mig_timing_store cpu pid r b ≢ none)
unfolding mig_timing_store
mig_timing_store-fault cpu pid r b h = ground arith
