-- ===== src/Bench/Phases.antt =====
-- The threads of arm64_files/mig_bench_e.c together: `run_bench` signals the phases, and the workers
-- and the migrator follow them, interleaved in any order.
pub mod Reached
pub mod Joins
use memory_migration_cs.Base.{ℕ, ◌+◌, ◌≤◌, ◌<◌, ◌==◌, if◌then◌else◌, ◌≡◌}
use memory_migration_cs.Bench.{AccessPat, OpType, buf_pages}
use memory_migration_cs.Bench.Worker.{
  Worker, Reading, Turn, goes_on, leaves, iteration, worker_start,
}

-- Where a worker stands: it spins until phase 1, it is in its loop, or it has left it.
pub data Thread : Type 0 where
  spinning : Thread
  looping : Worker → Thread
  exited : Worker → Thread

-- Where the migrator stands: it spins until phase 2, its pass has come to a page, or it has returned.
pub data Pass : Type 0 where
  waiting : Pass
  at_page : ℕ → Pass
  returned : Pass

-- `bench_cfg_t`, as far as the threads read it.
pub record Config : Type 0 where
  pub pat : AccessPat
  pub op : OpType
  pub nthreads : ℕ
  pub chunk_pages : ℕ

-- The shared state: the phase, the words of the buffer, and the threads.
pub record System : Type 0 where
  pub phase : ℕ
  pub words : ℕ → ℕ
  pub threads : ℕ → Thread
  pub pass : Pass

abbrev pub set_thread : (ℕ → Thread) → ℕ → Thread → ℕ → Thread
set_thread f i t j = if i == j then t else f j

-- How an iteration leaves the thread and the buffer.
abbrev pub thread_of : Turn → Thread
thread_of (goes_on w) = looping w
thread_of (leaves w) = exited w

abbrev pub words_of : Turn → ℕ → ℕ
words_of (goes_on w) = w.words
words_of (leaves w) = w.words

-- A worker works on the words of the buffer as they are.
abbrev pub turn_of : Config → System → Reading → Worker → Turn
turn_of c s r w = iteration c.pat c.op r (record w { words = s.words })

-- A worker's own steps, by the phase: the end of its spinning, and an iteration, whatever the
-- clock reads.
pub data WorkerStep (c : Config) (s : System) (i : ℕ) : System → Type 0 where
  begins :
      (now : ℕ)
      → s.threads i ≡ spinning
      → 0 < s.phase
      → WorkerStep c s i (record s {
        threads = set_thread s.threads i (looping (worker_start i c.nthreads now s.words));
      })
  iterates :
      (r : Reading) (w : Worker)
      → s.threads i ≡ looping w
      → r.ph ≡ s.phase
      → WorkerStep c s i (record s {
        threads = set_thread s.threads i (thread_of (turn_of c s r w));
        words = words_of (turn_of c s r w);
      })

-- The steps of `run_bench`, of a worker and of the migrator.
pub data Step (c : Config) (s : System) : System → Type 0 where
  signals : s.phase < 4 → Step c s (record s { phase = s.phase + 1 })
  works : (i : ℕ) {t : System} → i < c.nthreads → WorkerStep c s i t → Step c s t
  sets_out : s.pass ≡ waiting → 2 ≤ s.phase → Step c s (record s { pass = at_page 0 })
  moves_chunk :
      (off : ℕ)
      → s.pass ≡ at_page off
      → off < buf_pages
      → s.phase ≤ 2
      → Step c s (record s { pass = at_page (off + c.chunk_pages) })
  breaks_off :
      (off : ℕ)
      → s.pass ≡ at_page off
      → off < buf_pages
      → 2 < s.phase
      → Step c s (record s { pass = returned })
  comes_to_end :
      (off : ℕ) → s.pass ≡ at_page off → buf_pages ≤ off → Step c s (record s { pass = returned })

abbrev pub launched : (ℕ → ℕ) → System
launched words = record { phase = 0; words = words; threads = λ i. spinning; pass = waiting }

-- Sequences of steps.
pub data Steps (c : Config) (s : System) : System → Type 0 where
  stop : Steps c s s
  later : {t u : System} → Steps c s t → Step c t u → Steps c s u
