-- ===== src/Bench/Worker.antt =====
-- A worker thread of arm64_files/mig_bench_e.c: the loop that accesses the buffer, through the phases
-- that the main thread signals.
pub mod Counts
pub mod Loop
use Prim.Native.Nat.{◌/◌, bit_xor}
use memory_migration_cs.Base.{
  ℕ, ◌+◌, ◌-◌, ◌*◌, ◌%◌, ◌^◌, ◌<◌, ltb, leb, ◌==◌, Bool, true, false, not, List, [], ◌∷◌,
  if◌then◌else◌, update,
}
use memory_migration_cs.Timing.{sub64}
use memory_migration_cs.Bench.{
  AccessPat, pat_seq, pat_rand, pat_stride16, OpType, op_read, op_write, op_rmw, PStats, no_stats,
  lcg, record_latency, page_sz, buf_pages, sample_every,
}

-- The local variables of the loop, the statistics of the phases and the buffer's words, by offset.
pub record Worker : Type 0 where
  pub rng : ℕ
  pub pidx : ℕ
  pub op_cnt : ℕ
  pub cur_ph : ℕ
  pub pi : ℕ
  pub phase_start : ℕ
  pub ps : ℕ → PStats
  pub words : ℕ → ℕ

-- What an iteration reads: the phase, the clock at a transition, and the clock around the operation.
pub record Reading : Type 0 where
  pub ph : ℕ
  pub now : ℕ
  pub t0 : ℕ
  pub t1 : ℕ

-- The page is advanced by the pattern.
unfoldable pub advance : AccessPat → Worker → Worker
advance pat_seq w = record w { pidx = (w.pidx + 1) % buf_pages }
advance pat_rand w =
    let rng' = lcg 1442695040888963407 w.rng in
    record w { rng = rng'; pidx = (rng' / 2 ^ 17) % buf_pages }
advance pat_stride16 w = record w { pidx = (w.pidx + 16) % buf_pages }

-- The operation on the page's first word.
unfoldable pub perform : OpType → Worker → Worker
perform op_read w = w
perform op_write w = record w { words = update w.words (w.pidx * page_sz) w.op_cnt }
perform op_rmw w =
    let at = w.pidx * page_sz in record w { words = update w.words at ((w.words at + 1) % 2 ^ 64) }

-- The latency of a timed operation goes to the reservoir of the phase.
abbrev pub keep_latency : ℕ × PStats → Worker → Worker
keep_latency (rng, s) w = record w { rng = rng; ps = update w.ps w.pi s }

-- `ps[pi].ops++; ps[pi].bytes += 8;`
abbrev pub count_op : Worker → Worker
count_op w =
    let s = w.ps w.pi in
    record w {
      ps =
          update w.ps w.pi
            (record s { ops = (s.ops + 1) % 2 ^ 64; bytes = (s.bytes + 8) % 2 ^ 64 });
    }

-- From `++op_cnt` to the end of the iteration.
unfoldable pub operate : OpType → Reading → Worker → Worker
unfolding perform record_latency
operate op r w =
    let begun = record w { op_cnt = (w.op_cnt + 1) % 2 ^ 64 } in
    let done = perform op begun in
    if begun.op_cnt % sample_every == 0
    then count_op (keep_latency (record_latency (sub64 r.t1 r.t0) (done.rng, done.ps done.pi)) done)
    else count_op done

-- `ps[pi].dur_ns = now - phase_start`.
abbrev pub close_phase : Reading → Worker → Worker
close_phase r w =
    let s = w.ps w.pi in
    record w { ps = update w.ps w.pi (record s { dur_ns = sub64 r.now w.phase_start }) }

abbrev pub enter_phase : Reading → Worker → Worker
enter_phase r w = record w { cur_ph = r.ph; pi = r.ph - 1; phase_start = r.now; op_cnt = 0 }

-- An iteration goes on, or has left the loop.
pub data Turn : Type 0 where
  goes_on : Worker → Turn
  leaves : Worker → Turn

unfoldable pub iteration : AccessPat → OpType → Reading → Worker → Turn
unfolding advance operate
iteration pat op r w =
    if r.ph == w.cur_ph
    then goes_on (operate op r (advance pat w))
    else if leb 4 r.ph
    then leaves (close_phase r w)
    else goes_on (operate op r (advance pat (enter_phase r (close_phase r w))))

-- The loop over what is read; the worker is still in it at the end of the list.
unfoldable pub access_loop : AccessPat → OpType → List Reading → Worker → Turn
unfolding iteration
access_loop pat op [] w = goes_on w
access_loop pat op (r ∷ rs) w = elim (iteration pat op r w) [
  | goes_on w' ↦ access_loop pat op rs w'
  | leaves w' ↦ leaves w'
]

-- The start of thread `tid` of `nthreads`: the loop begins in phase 1, at the time `now`.
unfoldable pub worker_start : (tid nthreads now : ℕ) → (words : ℕ → ℕ) → Worker
worker_start tid nthreads now words = record {
  rng = bit_xor 0xdeadbeefcafe0000 ((tid * 0x9e3779b97f4a7c15) % 2 ^ 64);
  pidx = (tid * (buf_pages / nthreads)) % buf_pages;
  op_cnt = 0;
  cur_ph = 1;
  pi = 0;
  phase_start = now;
  ps = λ i. no_stats;
  words = words;
}
