-- ===== src/Bench/Worker/Loop.antt =====
-- The loop of a worker thread of arm64_files/mig_bench_e.c, through its phases.
use memory_migration_cs.Base.{
  ℕ, ◌+◌, ◌-◌, ◌%◌, ◌^◌, ◌≤◌, ◌<◌, leb, ◌==◌, ◌≡◌, Bool, true, false, inl, inr, refl, sym, ap, ◌∙◌,
  subst, if◌then◌else◌, List, [], ◌∷◌, Bool-cases, arith,
}
use memory_migration_cs.Timing.{sub64}
use memory_migration_cs.Bench.{
  AccessPat, pat_seq, pat_rand, pat_stride16, OpType, op_read, op_write, op_rmw, PStats,
}
use memory_migration_cs.Bench.Worker.{
  Worker, Reading, Turn, goes_on, leaves, advance, perform, operate, close_phase, enter_phase,
  iteration, access_loop, worker_start,
}
use memory_migration_cs.Bench.Worker.Counts.{
  IsCounted, IsWorker, IsWorker-operate, IsWorker-advance, update_same,
}

-- What closing a phase changes is its duration.
IsWorker-close_phase : (r : Reading) (w : Worker) → IsWorker w → IsWorker (close_phase r w)
IsWorker-close_phase r w h = record {
  in_buffer = h.in_buffer;
  in_stats = h.in_stats;
  phase = h.phase;
  counted = λ j. elim (Bool-cases (w.pi == j)) [
    | inl e ↦ rw e (same_counts (w.ps w.pi) (h.counted w.pi))
    | inr e ↦ rw e (h.counted j)
  ];
  current = h.current ∙ sym (ap (λ (s : PStats). s.ops) (update_same w.ps w.pi closed));
  later = λ j l. let other : (w.pi == j) ≡ false = ground arith in rw other (h.later j l);
}
  where
    closed : PStats
    closed = record (w.ps w.pi) { dur_ns = sub64 r.now w.phase_start }

    same_counts :
        (s : PStats) → IsCounted s → IsCounted (record s { dur_ns = sub64 r.now w.phase_start })
    same_counts s k = record { eight_bytes = k.eight_bytes; one_in_64 = k.one_in_64; kept = k.kept }

-- A later phase begins with nothing counted.
IsWorker-enter_phase :
    (r : Reading) (w : Worker)
    → IsWorker w
    → w.cur_ph < r.ph
    → r.ph < 4
    → IsWorker (enter_phase r w)
IsWorker-enter_phase r w h after before = record {
  in_buffer = h.in_buffer;
  in_stats = omega arith;
  phase = omega (arith, h.phase);
  counted = h.counted;
  current = sym (h.later (r.ph - 1) (omega (arith, h.phase)));
  later = λ j l. h.later j (omega (arith, h.phase));
}

-- A property of the worker, whether it goes on or leaves.
abbrev pub Either : (Worker → Type 0) → Turn → Type 0
Either P (goes_on w) = P w
Either P (leaves w) = P w

-- The phases that are read do not decrease, which the main thread provides for.
abbrev pub Ascending : ℕ → List Reading → Type 0
Ascending p [] = Unit
Ascending p (r ∷ rs) = (p ≤ r.ph) × Ascending r.ph rs

-- Going on, the worker is in the phase that it has read.
abbrev pub After : ℕ → Turn → Type 0
After p (goes_on w) = IsWorker w × (w.cur_ph ≡ p)
After p (leaves w) = IsWorker w

cur_ph-if :
    (b : Bool) (v w : Worker) (p : ℕ)
    → v.cur_ph ≡ p
    → w.cur_ph ≡ p
    → (if b then v else w).cur_ph ≡ p
cur_ph-if true v w p h g = h
cur_ph-if false v w p h g = g

cur_ph-operate : (op : OpType) (r : Reading) (w : Worker) → (operate op r w).cur_ph ≡ w.cur_ph
unfolding operate perform
cur_ph-operate op_read r w = cur_ph-if ((w.op_cnt + 1) % 2 ^ 64 % 64 == 0) _ _ w.cur_ph refl refl
cur_ph-operate op_write r w = cur_ph-if ((w.op_cnt + 1) % 2 ^ 64 % 64 == 0) _ _ w.cur_ph refl refl
cur_ph-operate op_rmw r w = cur_ph-if ((w.op_cnt + 1) % 2 ^ 64 % 64 == 0) _ _ w.cur_ph refl refl

cur_ph-advance : (pat : AccessPat) (w : Worker) → (advance pat w).cur_ph ≡ w.cur_ph
unfolding advance
cur_ph-advance pat_seq w = refl
cur_ph-advance pat_rand w = refl
cur_ph-advance pat_stride16 w = refl

pub After-iteration :
    (pat : AccessPat) (op : OpType) (r : Reading) (w : Worker)
    → IsWorker w
    → w.cur_ph ≤ r.ph
    → After r.ph (iteration pat op r w)
unfolding iteration
After-iteration pat op r w h le = elim (Bool-cases (r.ph == w.cur_ph)) [
  | inl e ↦ rw e (
    IsWorker-operate op r _ (IsWorker-advance pat w h),
    cur_ph-operate op r (advance pat w) ∙ cur_ph-advance pat w ∙ ground arith,
  )
  | inr e ↦ rw e (elim (Bool-cases (leb 4 r.ph)) [
    | inl f ↦ rw f (IsWorker-close_phase r w h)
    | inr f ↦
        let entered =
          IsWorker-enter_phase r (close_phase r w) (IsWorker-close_phase r w h) (ground arith)
            (ground arith) in
        rw f (
          IsWorker-operate op r _ (IsWorker-advance pat _ entered),
          cur_ph-operate op r _ ∙ cur_ph-advance pat (enter_phase r (close_phase r w)),
        )
  ])
]

Either-access_loop :
    (pat : AccessPat) (op : OpType) (rs : List Reading) (w : Worker)
    → IsWorker w
    → Ascending w.cur_ph rs
    → Either IsWorker (access_loop pat op rs w)
unfolding access_loop
Either-access_loop pat op [] w h a = h
Either-access_loop pat op (r ∷ rs) w h a =
    next (λ v k b. Either-access_loop pat op rs v k b) (iteration pat op r w)
      (After-iteration pat op r w h a.0)
  where
    next :
        ((v : Worker)
          → IsWorker v
          → Ascending v.cur_ph rs
          → Either IsWorker (access_loop pat op rs v))
        → (t : Turn) → After r.ph t
        → Either IsWorker (elim t [ goes_on w' ↦ access_loop pat op rs w' | leaves w' ↦ leaves w' ])
    next go (goes_on w') k = go w' k.0 (subst (λ (p : ℕ). Ascending p rs) (sym k.1) a.1)
    next go (leaves w') k = k

pub IsWorker-worker_start :
    (tid nthreads now : ℕ) (words : ℕ → ℕ) → IsWorker (worker_start tid nthreads now words)
unfolding worker_start
IsWorker-worker_start tid nthreads now words = record {
  in_buffer = omega arith;
  in_stats = omega arith;
  phase = refl;
  counted = λ i. record { eight_bytes = refl; one_in_64 = refl; kept = refl };
  current = refl;
  later = λ i l. refl;
}

-- A worker, whatever its pattern and operation, and whatever it reads of the clock, accesses the
-- words of the buffer alone and the statistics of three phases alone, if the phases that it reads
-- begin at 1 and do not decrease. In each phase it counts eight bytes for each operation and one
-- timed operation in 64, up to wrap-around, and its reservoir holds what was timed, MAX_SAMPLES at
-- most.
pub access_loop-IsWorker :
    (pat : AccessPat) (op : OpType) (tid nthreads now : ℕ) (words : ℕ → ℕ) (rs : List Reading)
    → Ascending 1 rs
    → Either IsWorker (access_loop pat op rs (worker_start tid nthreads now words))
unfolding worker_start
access_loop-IsWorker pat op tid nthreads now words rs a =
    Either-access_loop pat op rs (worker_start tid nthreads now words)
      (IsWorker-worker_start tid nthreads now words) a
