-- ===== src/Bench.antt =====
-- arm64_files/mig_bench_e.c: a benchmark of page migration under load. Worker threads access a
-- buffer of 131072 pages through three phases while a migrator moves it to another node.
pub mod Reservoir
pub mod Percentiles
pub mod Migrator
pub mod Phases
pub mod Csv
pub mod Stats
pub mod Filter
pub mod Multi
pub mod Worker
use memory_migration_cs.Base.{
  ℕ, ◌+◌, ◌*◌, ◌%◌, ◌^◌, ◌<◌, ltb, Bool, true, false, List, [], ◌∷◌, if◌then◌else◌, update,
}

-- PAGE_SZ, BUF_PAGES, MAX_SAMPLES and SAMPLE_EVERY.
abbrev pub page_sz : ℕ
page_sz = 4096

abbrev pub buf_pages : ℕ
buf_pages = 131072

abbrev pub max_samples : ℕ
max_samples = 10000

abbrev pub sample_every : ℕ
sample_every = 64

-- `access_pat_t` and `op_type_t`.
pub data AccessPat : Type 0 where
  pat_seq pat_rand pat_stride16 : AccessPat

pub data OpType : Type 0 where
  op_read op_write op_rmw : OpType

-- `pstats_t` without its percentiles.
pub record PStats : Type 0 where
  pub ops : ℕ
  pub bytes : ℕ
  pub dur_ns : ℕ
  pub samp : ℕ → ℕ
  pub n_samp : ℕ
  pub n_seen : ℕ

-- As `calloc` leaves it.
abbrev pub no_stats : PStats
no_stats = record { ops = 0; bytes = 0; dur_ns = 0; samp = λ i. 0; n_samp = 0; n_seen = 0 }

-- A step of a linear congruential generator of 64 bits.
unfoldable pub lcg : (addend rng : ℕ) → ℕ
lcg addend rng = (rng * 6364136223846793005 + addend) % 2 ^ 64

-- The reservoir behind a timed operation: the state of the generator and the statistics.
unfoldable pub record_latency : (lat : ℕ) → ℕ × PStats → ℕ × PStats
record_latency lat (rng, s) =
    let seen = record s { n_seen = s.n_seen + 1 } in
    let rng' = lcg 1 rng in
    let r = rng' % (s.n_seen + 1) in
    if ltb s.n_samp max_samples
    then (rng, record seen { samp = update s.samp s.n_samp lat; n_samp = s.n_samp + 1 })
    else if ltb r max_samples
    then (rng', record seen { samp = update s.samp r lat })
    else (rng', seen)
