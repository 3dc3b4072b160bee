-- ===== src/Lib.antt =====
-- Page migration with stage timing, for Linux 6.1.4 on ARM64 (arm64_files/migrate.c): the kernel's
-- mm/migrate.c, instrumented with nanosecond timestamps for the five stages of a migration (lock,
-- unmap, copy, remap, unlock), and extended by ROCM, a fast path that copies a read-only file page
-- first and then swaps its page table entries. The timings are read from two files in debugfs.
--
-- A migration runs like this. `migrate_pages` takes a list of pages and tries each up to ten times;
-- a try of a single page allocates a new one and runs `__unmap_and_move` (or
-- `unmap_and_move_huge_page`), which locks both folios, replaces the page table entries by
-- migration entries, moves the mapping, the flags and the content (`move_to_new_folio`), turns the
-- migration entries into entries for the new folio (`remove_migration_ptes`) and unlocks; at its
-- end `mig_timing_store` keeps the record. A thread that meets a migration entry waits in
-- `migration_entry_wait`, which writes a record of its own.
--
-- Benchmarks run beside it in user space. arm64_files/mig_bench_e.c lets worker threads access a
-- buffer while a migrator moves it by `move_pages`, and arm64_files/mig_bench_rocm.c reads the
-- timings back from debugfs.
--
-- The files, about arm64_files/migrate.c but for Bench:
-- - Base: lists measured by native numbers, Boolean tests, error codes (Errno, Rc) and modes
--   (Mode).
-- - Timing: `mig_timing_record` (TimingRecord), the buffer `mig_records` with its two counters
--   (RecordBuffer), `mig_timing_store`, `mig_timing_write` and `mig_timing_show`. Timing/Ring has
--   what the buffer keeps, Timing/Columns what the columns add up to, Timing/Downtime the second
--   buffer with `migration_entry_wait`, `dt_timing_write` and `dt_timing_show`.
-- - Folio: the state of one migration (Migration): both folios with their flags and counts, the
--   slot of the page cache, the buffers, and the page table entries that the reverse map finds.
--   Folio/Cache has `folio_migrate_mapping` and `migrate_huge_page_move_mapping`, Folio/Handover
--   what they move; Folio/Flags `folio_migrate_flags`, `folio_migrate_copy` and `migrate_folio`;
--   Folio/Buffers `buffer_migrate_folio` and `filemap_migrate_folio`; Folio/Move `writeout`,
--   `fallback_migrate_folio` and `move_to_new_folio`, with what they refuse and what they leave in
--   Folio/Move/Refuses and Folio/Move/Leaves; Folio/Restore `remove_migration_ptes`;
--   Folio/Rocm the eligibility test and the swap of the fast path, with its theorems in
--   Folio/Rocm/Eligible and Folio/Rocm/Swap; Folio/Isolate `isolate_movable_page` and
--   `putback_movable_pages`.
-- - Unmap: `__unmap_and_move`, as steps on the state of a call (Run): the migration, the record
--   being filled, how often the clock was read, the return value, and the calls of
--   `mig_timing_store`. The clock and the functions of other files are in the record Kernel. Unmap
--   itself has the exits and the ROCM path, Unmap/Pipeline the guards and the standard path.
--   Unmap/Release and Unmap/Ends are about how a call ends, Unmap/Timeline and Unmap/Timely about
--   its timestamps, Unmap/Accepts about the ROCM path, Unmap/Refused about a folio under
--   writeback. Unmap/Huge is `unmap_and_move_huge_page`
--   from its lock to its record, and Unmap/HugeEnds is about its end. Unmap/Page is
--   `unmap_and_move`, around the run of a page, and Unmap/HugePage the rest of
--   `unmap_and_move_huge_page`. Unmap/Mover makes of both the moves that Batch takes, each page
--   with a Kernel of its own; behind a BUG_ON their state is `none`.
-- - Batch: the loop of `migrate_pages` over a list of pages, with `try_split_thp`; Batch/Driver has
--   `migrate_pages` around that loop. The moves of single pages and `split_huge_page_to_list` are
--   the record Mover. Batch/Counts and Batch/Loop carry the invariants, Batch/Conserve,
--   Batch/Outcome and Batch/Rounds the theorems; Batch/Single is about a list of one page.
-- - Numa: `migrate_misplaced_page` with `numamigrate_isolate_page`, a client of `migrate_pages`;
--   Numa/Balanced is about what it leaves behind.
-- - Syscall: the state of `do_pages_move` (Request), with `store_status`, `do_move_pages_to_node`
--   and `add_page_for_migration`; Syscall/Loop has `move_pages_and_store_status` and
--   `do_pages_move`. It calls `migrate_pages` of Batch/Driver, with a Mover for each node.
--   Syscall/Empties is about the list of isolated pages, Syscall/Collects and Syscall/Statuses
--   about the user's statuses. Syscall/Stat is `do_pages_stat`, with its chunks, and Syscall/Entry
--   `find_mm_struct` and `kernel_move_pages` with their checks.
-- - Bench: arm64_files/mig_bench_e.c, with the statistics of a phase (PStats) and the reservoir of
--   latencies (`record_latency`), which Bench/Reservoir is about; Bench/Percentiles has
--   `compute_pct`. Bench/Worker is the loop of a worker thread, an iteration at a time
--   (Bench/Worker/Counts and Bench/Worker/Loop carry its invariant); Bench/Migrator is the migrator
--   with its chunks; Bench/Phases is the threads together as a step relation, each step one
--   iteration of one thread or a signal of `run_bench`, with Bench/Phases/Reached and
--   Bench/Phases/Joins about its states.
-- - Bench/Csv: the text that `mig_timing_show` prints for the rows of Timing, a list of bytes, and
--   `strtoull`; Bench/Csv/Lines is `find_col` and `parse_csv_file` of arm64_files/mig_bench_rocm.c.
--   Bench/Csv/Digits is about numbers in text, Bench/Csv/Rows about a row, Bench/Csv/Parsed about
--   whole files. Bench/Stats is its `compute_stats`. Bench/Filter is `timing_read_filtered` of
--   arm64_files/mig_bench.c, with Bench/Filter/Printed about what it writes.
-- - Bench/Multi: the statistics of a worker of arm64_files/mig_bench_rocm_mt.c, with its stalls,
--   which Bench/Multi/Seen is about.
-- - Tests: concrete runs.
--
-- Conventions. A w-bit number keeps its wrap-around (`% 2 ^ w`, sub64); counters of references and
-- mappings are natural numbers. An error is a value (`Rc`, `fail e`), and a BUG_ON is `none` where
-- a function can meet one. A run of the kernel is sequential (the threads of the benchmark
-- interleave): what other threads do between two steps comes in through the parameters. VM_BUG_ON
-- checks, memory barriers, TLB flushes, tracing, VM event counters and memory cgroups have no
-- counterpart. The content of a folio is one number. What `move_pages_and_store_status` adds up is an
-- `int`, of 32 bits; the loop index of `do_pages_move`, an `int` too, is a natural number, which is
-- the same as long as there are fewer than 2^31 pages.
--
-- `migrate_pages` has at most two rounds of ten passes: ten is the source's own bound, and a third
-- round would need a THP among the pages that a split has left. `none` stands for it. The loop of
-- `do_pages_stat` has one round for each page, and needs one for sixteen. All other recursion is on
-- lists or on the number of pages.
--
-- Numbers are printed with twenty digits at most, which do for 64 bits. The loop of the migrator of
-- mig_bench_e.c has one round more than the buffer has pages, since each chunk has a page at least.
-- `qsort`, the product of a fraction with an index, the conversion to `double`, the clock and
-- `move_pages` are parameters of the benchmark's model.
--
-- Not modelled: the allocation of the new page (`alloc_migration_target`,
-- `alloc_misplaced_dst_page`), and the registration of the debugfs files. Of the benchmarks,
-- floating-point statistics, set-up and output, the rest of mig_bench.c and of mig_bench_rocm_mt.c,
-- and the programs in x86_files. The x86 port is kept as patches and text copies.
pub mod Base
pub mod Timing
pub mod Batch
pub mod Folio
pub mod Numa
pub mod Unmap
pub mod Syscall
pub mod Bench
pub mod Tests
