-- ===== src/Bench/Multi.antt =====
-- arm64_files/mig_bench_rocm_mt.c: the statistics that a worker thread keeps of a phase, with the
-- stalls.
pub mod Seen
use memory_migration_cs.Base.{
  ℕ, zero, suc, ◌+◌, ◌%◌, ◌^◌, ◌≤◌, ◌<◌, min, ltb, ◌==◌, Bool, true, false, Option, none, some,
  List, [], ◌∷◌, ◌++◌, ◌≡◌, inl, inr, refl, sym, subst, ap, ◌∙◌, if◌then◌else◌, update, length,
  length-append, append-nil, append_assoc, Bool-cases, arith,
}
use memory_migration_cs.Bench.Reservoir.{Among, Among-append, Among-last}

-- MAX_SAMPLES and STALL_THRESH_NS.
abbrev pub mt_max_samples : ℕ
mt_max_samples = 100000

abbrev pub stall_thresh_ns : ℕ
stall_thresh_ns = 5000

-- `phase_stat_t` without what is computed at the end.
pub record PhaseStat : Type 0 where
  pub ops : ℕ
  pub samp : ℕ → ℕ
  pub n_samp : ℕ
  pub n_seen : ℕ
  pub stall_count : ℕ
  pub stall_sum_ns : ℕ

abbrev pub no_ops : PhaseStat
no_ops = record {
  ops = 0;
  samp = λ i. 0;
  n_samp = 0;
  n_seen = 0;
  stall_count = 0;
  stall_sum_ns = 0;
}

-- An operation: timed, with the state of the generator and the latency, or not timed.
pub data Op : Type 0 where
  timed : (rng lat : ℕ) → Op
  untimed : Op

-- `ps[pi].ops++`.
abbrev pub count_op : PhaseStat → PhaseStat
count_op s = record s { ops = (s.ops + 1) % 2 ^ 64 }

-- The reservoir: when it is full, an entry is replaced.
unfoldable pub keep_sample : (rng lat : ℕ) → PhaseStat → PhaseStat
keep_sample rng lat s =
    if ltb s.n_samp mt_max_samples
    then record s { samp = update s.samp s.n_samp lat; n_samp = s.n_samp + 1 }
    else record s { samp = update s.samp (rng % s.n_samp) lat }

-- The count of stalls.
unfoldable pub count_stall : (lat : ℕ) → PhaseStat → PhaseStat
count_stall lat s =
    if ltb stall_thresh_ns lat
    then record s {
      stall_count = (s.stall_count + 1) % 2 ^ 64;
      stall_sum_ns = (s.stall_sum_ns + lat) % 2 ^ 64;
    }
    else s

abbrev pub see_op : PhaseStat → PhaseStat
see_op s = record s { n_seen = s.n_seen + 1 }

unfoldable pub record_op : Op → PhaseStat → PhaseStat
unfolding keep_sample count_stall
record_op (timed rng lat) s = count_stall lat (keep_sample rng lat (see_op (count_op s)))
record_op untimed s = count_op s

-- The operations of a phase.
unfoldable pub record_ops : List Op → PhaseStat → PhaseStat
unfolding record_op
record_ops [] s = s
record_ops (o ∷ os) s = record_ops os (record_op o s)

-- The latencies of timed operations, the last of them, and how many of them are stalls, and their
-- sum.
abbrev pub latencies : List Op → List ℕ
latencies [] = []
latencies (timed rng lat ∷ os) = lat ∷ latencies os
latencies (untimed ∷ os) = latencies os

abbrev pub latest : Option ℕ → List ℕ → Option ℕ
latest l [] = l
latest l (x ∷ xs) = latest (some x) xs

abbrev pub stalls : List ℕ → ℕ
stalls [] = 0
stalls (x ∷ xs) = if ltb stall_thresh_ns x then stalls xs + 1 else stalls xs

abbrev pub stall_time : List ℕ → ℕ
stall_time [] = 0
stall_time (x ∷ xs) = if ltb stall_thresh_ns x then stall_time xs + x else stall_time xs
