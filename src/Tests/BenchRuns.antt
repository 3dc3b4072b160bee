-- ===== src/Tests/BenchRuns.antt =====
-- Runs of the benchmark programs arm64_files/mig_bench_e.c and arm64_files/mig_bench_rocm.c.
use memory_migration_cs.Base.{
  none, Option, length, ◌++◌, ℕ, zero, suc, ◌+◌, ◌-◌, ◌≤◌, ◌<◌, min, leb, true, some, List, [], ◌∷◌,
  ◌≡◌, inl, inr, refl, sym, ap, ◌∙◌, map, Bool-cases, arith,
}
use memory_migration_cs.Timing.{RecordBuffer, zero_record, mig_timing_show}
use memory_migration_cs.Syscall.{on_node, no_node}
use memory_migration_cs.Bench.{no_stats, pat_rand, op_rmw, buf_pages}
use memory_migration_cs.Bench.Reservoir.{Timed, record_all, IsReservoir}
use memory_migration_cs.Bench.Worker.{Worker}
use memory_migration_cs.Bench.Percentiles.{
  Libc, IsLibc, InOrder, Seen, compute_pct, compute_pct-record_all,
}
use memory_migration_cs.Bench.Migrator.{
  Machine, Migrator, migrator, IsMigrator, migrator-IsMigrator,
}
use memory_migration_cs.Bench.Phases.{
  Config, System, launched, signals, Steps, stop, later, Thread, exited, Pass, returned,
}
use memory_migration_cs.Bench.Phases.Reached.{IsSystem, Steps-IsSystem}
use memory_migration_cs.Bench.Phases.Joins.{Steps-joins}
use memory_migration_cs.Bench.Csv.{
  print_csv, join, newline, lock_ns_name, unmap_ns_name, copy_ns_name, remap_ns_name, total_ns_name,
}
use memory_migration_cs.Bench.Csv.Lines.{parse_csv_file, rows}
use memory_migration_cs.Bench.Csv.Lines.{CsvRow, Parsed, columns_of, find_col, fgets}
use memory_migration_cs.Bench.Csv.{print_rows}
use memory_migration_cs.Bench.Csv.Rows.{csv_row_of}
use memory_migration_cs.Bench.Csv.Parsed.{header, parse_csv_file-print_csv}
use memory_migration_cs.Bench.Filter.{timing_read_filtered, with_order}
use memory_migration_cs.Bench.Filter.Printed.{timing_read_filtered-print_csv}
use memory_migration_cs.Bench.Multi.{Op, timed, untimed, no_ops, record_ops, latencies, latest}
use memory_migration_cs.Bench.Multi.Seen.{IsPhaseStat, record_ops-IsPhaseStat}
use memory_migration_cs.Bench.Stats.{
  compute_stats, count_rows, IsStats, kept, HoldsColumns, compute_stats-paths,
}

-- Of these operations two are timed, one of them a stall.
abbrev operations : List Op
operations = untimed ∷ timed 5 300 ∷ untimed ∷ timed 9 7000 ∷ []

record_ops-IsPhaseStat_example :
    IsPhaseStat
      (latencies operations)
      (latest none (latencies operations))
      (record_ops operations no_ops)
record_ops-IsPhaseStat_example = record_ops-IsPhaseStat operations

-- The smallest entry in every place does what is relied on of `qsort`.
abbrev smallest : ℕ → (ℕ → ℕ) → ℕ
smallest zero a = a 0
smallest (suc n) a = min (smallest n a) (a (suc n))

smallest-entry : (n : ℕ) (a : ℕ → ℕ) → (j : ℕ) × (j < suc n) × (smallest n a ≡ a j)
smallest-entry zero a = (0, omega arith, refl)
smallest-entry (suc n) a =
    let (j, l, e) = smallest-entry n a in
    elim (Bool-cases (leb (smallest n a) (a (suc n)))) [
      | inl b ↦ (j, omega (arith, l), ground (arith, e))
      | inr b ↦ (suc n, omega arith, ground arith)
    ]

abbrev libc : Libc ℕ
libc = record {
  qsort = λ n a i. smallest (n - 1) a;
  scaled = λ f k. 0;
  to_double = λ x. x;
  le_double = leb;
  zero_double = 0;
}

libc-IsLibc : IsLibc libc
libc-IsLibc = record {
  sorted = λ n a i j l m. omega arith;
  from_array = λ n a i l. below n a i l;
  shrinks = λ f k l. omega arith;
  grows = λ f g k l. omega arith;
  converts = λ x y l. ground arith;
  zero_equal = refl;
}
  where
    below : (n : ℕ) (a : ℕ → ℕ) (i : ℕ) → i < n → (j : ℕ) × (j < n) × (smallest (n - 1) a ≡ a j)
    below zero a i l = absurd (omega arith)
    below (suc n) a i l =
        let same : n ≡ suc n - 1 = omega arith in
        let (j, m, e) = smallest-entry n a in (j, m, ap (λ (x : ℕ). smallest x a) (sym same) ∙ e)

-- The generator has been stepped between the two operations.
abbrev two_timed : List Timed
two_timed = (7, 300) ∷ (9, 120) ∷ []

compute_pct-record_all_example :
    let p = (compute_pct libc (record_all two_timed no_stats)).1 in
    IsReservoir (300 ∷ 120 ∷ []) (record_all two_timed no_stats)
    × InOrder libc p
    × (0 < 2
        → Seen libc (300 ∷ 120 ∷ []) p.p50
          × Seen libc (300 ∷ 120 ∷ []) p.p95
          × Seen libc (300 ∷ 120 ∷ []) p.p99
          × Seen libc (300 ∷ 120 ∷ []) p.p999)
compute_pct-record_all_example = compute_pct-record_all libc libc-IsLibc two_timed

abbrev machine : Machine ℕ
machine = record { move_pages = λ w n pgs st. (w + n, λ i. on_node 1); phase_at = λ off. 2 }

migrator-IsMigrator_example :
    (s : Migrator ℕ) × (migrator machine 0x10000 512 (λ i. no_node) 0 ≡ some s)
    × IsMigrator 0x10000 s
    × (((off : ℕ) → 2 ≤ 2) → s.attempted ≡ buf_pages)
migrator-IsMigrator_example = migrator-IsMigrator machine 0x10000 512 (omega arith) (λ i. no_node) 0

abbrev config : Config
config = record { pat = pat_rand; op = op_rmw; nthreads = 2; chunk_pages = 512 }

-- Phase 1 has been signalled.
abbrev begun : System
begun = record {
  phase = 0 + 1;
  words = λ i. 0;
  threads = λ i. Thread.spinning;
  pass = Pass.waiting;
}

begun-Steps : Steps config (launched (λ i. 0)) begun
begun-Steps = later stop (signals (omega arith))

Steps-IsSystem_example : IsSystem begun
Steps-IsSystem_example = Steps-IsSystem config (λ i. 0) begun begun-Steps

Steps-joins_example :
    (t : System) × Steps config begun t
    × (t.phase ≡ 4)
    × ((i : ℕ) → i < 2 → (w : Worker) × (t.threads i ≡ exited w))
    × (t.pass ≡ returned)
Steps-joins_example = Steps-joins config (λ i. 0) begun begun-Steps

-- One record was stored.
abbrev buffer : RecordBuffer
buffer = record {
  slots = λ i. record zero_record { total_end_ns = 1234; rocm_path = true };
  idx = 1;
  next_seq = 1;
}

parse_csv_file-print_csv_example :
    parse_csv_file (print_csv buffer) ≡ rows (map csv_row_of (mig_timing_show buffer))
parse_csv_file-print_csv_example = parse_csv_file-print_csv buffer

compute_stats-paths_example :
    (rs : List CsvRow) × (parse_csv_file (print_csv buffer) ≡ rows rs)
    × (length rs ≡ length (mig_timing_show buffer))
    × (count_rows (some 0) rs + count_rows (some 1) rs ≡ length rs)
    × ((f : Option ℕ) → IsStats (count_rows f rs) (compute_stats f rs))
    × ((f : Option ℕ) → HoldsColumns (kept f rs) (compute_stats f rs))
    × ((compute_stats (some 1) rs).true_stall ≡ (compute_stats (some 1) rs).ro_swap)
    × ((compute_stats (some 0) rs).true_stall ≡ (compute_stats (some 0) rs).stall)
compute_stats-paths_example = compute_stats-paths buffer

timing_read_filtered-print_csv_example :
    timing_read_filtered 0 (print_csv buffer)
    ≡ header ++ (newline ∷ print_rows (with_order 0 (mig_timing_show buffer)))
timing_read_filtered-print_csv_example = timing_read_filtered-print_csv 0 buffer (λ j. omega arith)

-- A file whose header lacks `unlock_ns` and has a row: lock_ns,unmap_ns,copy_ns,remap_ns,total_ns.
abbrev five_columns : List ℕ
five_columns =
    join (lock_ns_name ∷ unmap_ns_name ∷ copy_ns_name ∷ remap_ns_name ∷ total_ns_name ∷ [])

no_unlock_ns :
    parse_csv_file (five_columns ++ (newline ∷ (49 ∷ newline ∷ []))) ≡ Parsed.out_of_bounds
unfolding parse_csv_file columns_of find_col fgets
no_unlock_ns = refl
