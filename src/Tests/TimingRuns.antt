-- ===== src/Tests/TimingRuns.antt =====
-- Records, commits and faults, and what the debugfs files of arm64_files/migrate.c show of them.
use memory_migration_cs.Base.{
  ℕ, ◌+◌, ◌-◌, ◌≤◌, ◌<◌, ◌^◌, none, some, List, [], ◌∷◌, ◌≡◌, ◌≢◌, refl, false, map, take, inl,
  arith, success,
}
use memory_migration_cs.Timing.{
  TimingRecord, RecordBuffer, zero_stages, zero_record, row_of, mig_timing_bufsize,
  mig_timing_store, mig_timing_write, mig_timing_show,
}
use memory_migration_cs.Timing.Ring.{Commit, numbered, store_all, show-first_commits}
use memory_migration_cs.Timing.Columns.{IsStandardOrder, row_of-accounts, mig_timing_store-fault}
use memory_migration_cs.Timing.Downtime.{
  DowntimeBuffer, zero_downtime, migration, Wait, slept, unlocked, entry_wait, migration_entry_wait,
  downtime_row, migration_entry_wait_row,
}

abbrev finished : TimingRecord
finished = record zero_record {
  stages = record {
    lock_start_ns = 11;
    lock_end_ns = 13;
    unmap_start_ns = 14;
    unmap_end_ns = 24;
    copy_start_ns = 25;
    copy_end_ns = 65;
    remap_start_ns = 66;
    remap_end_ns = 70;
    unlock_start_ns = 71;
    unlock_end_ns = 73;
  };
  total_start_ns = 10;
  total_end_ns = 74;
  result = success;
}

abbrev commits : List Commit
commits =
    record { on_cpu = 0; by_pid = 5; body = finished }
    ∷ record { on_cpu = 1; by_pid = 6; body = zero_record }
    ∷ []

abbrev cleared : RecordBuffer
cleared = record { slots = λ i. zero_record; idx = 0; next_seq = 0 }

abbrev wrapped : RecordBuffer
wrapped = record cleared { idx = 2 ^ 31 }

show-first_commits_example :
    (b' : RecordBuffer) × (store_all commits (mig_timing_write cleared) ≡ some b')
    × (mig_timing_show b' ≡ map row_of (take mig_timing_bufsize (numbered 0 commits)))
show-first_commits_example = show-first_commits commits cleared (omega arith)

finished-IsStandardOrder : IsStandardOrder finished
finished-IsStandardOrder = record {
  lock_begins = omega arith;
  locks = omega arith;
  unmap_begins = omega arith;
  unmaps = omega arith;
  copy_begins = omega arith;
  copies = omega arith;
  remap_begins = omega arith;
  remaps = omega arith;
  unlock_begins = omega arith;
  unlocks = omega arith;
  ends = omega arith;
  in_u64 = omega arith;
}

row_of-accounts_example :
    let row = row_of finished in
    (row.lock_ns + row.unmap_ns + row.copy_ns + row.remap_ns + row.unlock_ns + row.overhead_ns
      ≡ row.total_ns)
    × (row.total_ns ≡ finished.total_end_ns - finished.total_start_ns)
row_of-accounts_example = row_of-accounts finished (inl finished-IsStandardOrder)

-- The columns of the record.
finished_columns : ((row_of finished).copy_ns ≡ 40) × ((row_of finished).overhead_ns ≡ 6)
unfolding row_of
finished_columns = (refl, refl)

abbrev refused : TimingRecord
refused = record zero_record { stages = record zero_stages { unlock_end_ns = 500 } }

-- A record without an unlock start: the column shows the clock.
refused_columns : (row_of refused).unlock_ns ≡ 500
unfolding row_of
refused_columns = refl

mig_timing_store-fault_example :
    (2 ^ 31 ≤ wrapped.idx → mig_timing_store 0 5 finished wrapped ≡ none)
    × (wrapped.idx < 2 ^ 31 → mig_timing_store 0 5 finished wrapped ≢ none)
mig_timing_store-fault_example = mig_timing_store-fault 0 5 finished wrapped (omega arith)

abbrev faults : DowntimeBuffer
faults = record { slots = λ i. zero_downtime; idx = 2 }

-- The clock after the wait.
abbrev woken : Wait → ℕ
woken slept = 900
woken unlocked = 130

migration_entry_wait_row_example :
    (b' : DowntimeBuffer) × (migration_entry_wait 100 120 woken 4096 1 77 migration faults
      ≡ some b')
    × (b'.idx ≡ 3)
    × let row = downtime_row (b'.slots 2) in
      (row.wait_ns ≤ row.total_ns)
      × (row.wait_ns ≡ woken (entry_wait migration) - 120)
      × (row.source.was_already_done ≡ false)
      × (row.source.pfn ≡ 0)
      × (row.source.page_order ≡ 0)
      × (row.source.fault_addr ≡ 4096)
unfolding entry_wait
migration_entry_wait_row_example =
    migration_entry_wait_row 100 120 woken 4096 1 77 migration faults (omega arith) (omega arith)
      (omega arith) (omega arith)
