-- ===== src/Bench/Phases/Reached.antt =====
-- The invariant of every state that the threads of arm64_files/mig_bench_e.c reach.
use memory_migration_cs.Base.{ℕ, ◌+◌, ◌≤◌, ◌==◌, inl, inr, subst, Bool-cases, arith}
use memory_migration_cs.Bench.Worker.{Worker, Turn, goes_on, leaves, worker_start}
use memory_migration_cs.Bench.Worker.Counts.{IsWorker}
use memory_migration_cs.Bench.Worker.Loop.{After, After-iteration, IsWorker-worker_start}
use memory_migration_cs.Bench.Phases.{
  Thread, spinning, looping, exited, Config, System, set_thread, thread_of, turn_of, WorkerStep,
  begins, iterates, Step, signals, works, sets_out, moves_chunk, breaks_off, comes_to_end, launched,
  Steps, stop, later,
}

-- A worker has its invariant, and is not ahead of the phase that is signalled.
abbrev pub IsThread : ℕ → Thread → Type 0
IsThread p spinning = Unit
IsThread p (looping w) = IsWorker w × (w.cur_ph ≤ p)
IsThread p (exited w) = IsWorker w

pub record IsSystem (s : System) : Type 0 where
  pub few : s.phase ≤ 4
  pub sound : (i : ℕ) → IsThread s.phase (s.threads i)

IsThread-later : (p : ℕ) (t : Thread) → IsThread p t → IsThread (p + 1) t
IsThread-later p spinning h = tt
IsThread-later p (looping w) h = (h.0, omega (arith, h.1))
IsThread-later p (exited w) h = h

IsThread-set :
    (p : ℕ) (f : ℕ → Thread) (i : ℕ) (t : Thread)
    → ((j : ℕ) → IsThread p (f j))
    → IsThread p t
    → (j : ℕ) → IsThread p (set_thread f i t j)
IsThread-set p f i t h k j = elim (Bool-cases (i == j)) [ inl e ↦ rw e k | inr e ↦ rw e (h j) ]

IsThread-turn : (p : ℕ) (t : Turn) → After p t → IsThread p (thread_of t)
IsThread-turn p (goes_on w) h = (h.0, omega (arith, h.1))
IsThread-turn p (leaves w) h = h

IsWorker-words : (w : Worker) (words : ℕ → ℕ) → IsWorker w → IsWorker (record w { words = words })
IsWorker-words w words h = record {
  in_buffer = h.in_buffer;
  in_stats = h.in_stats;
  phase = h.phase;
  counted = h.counted;
  current = h.current;
  later = h.later;
}

IsSystem-WorkerStep :
    (c : Config) (s : System) (i : ℕ) (t : System) → WorkerStep c s i t → IsSystem s → IsSystem t
unfolding worker_start
IsSystem-WorkerStep c s i t (begins now e l) h = record {
  few = h.few;
  sound =
      IsThread-set s.phase s.threads i _ h.sound
        (IsWorker-worker_start i c.nthreads now s.words, omega (arith, l));
}
IsSystem-WorkerStep c s i t (iterates r w e q) h =
    let here : IsThread s.phase (looping w) = subst (IsThread s.phase) e (h.sound i) in
    record {
      few = h.few;
      sound = IsThread-set s.phase s.threads i _ h.sound (
          subst (λ (p : ℕ). IsThread p (thread_of (turn_of c s r w))) q
            (IsThread-turn r.ph (turn_of c s r w) (
              After-iteration c.pat c.op r _ (IsWorker-words w s.words here.0)
                (omega (arith, here.1, q)))));
    }

IsSystem-Step : (c : Config) (s t : System) → Step c s t → IsSystem s → IsSystem t
IsSystem-Step c s t (signals l) h = record {
  few = omega (arith, l);
  sound = λ i. IsThread-later s.phase (s.threads i) (h.sound i);
}
IsSystem-Step c s t (works i l st) h = IsSystem-WorkerStep c s i t st h
IsSystem-Step c s t (sets_out e l) h = record { few = h.few; sound = h.sound }
IsSystem-Step c s t (moves_chunk off e l p) h = record { few = h.few; sound = h.sound }
IsSystem-Step c s t (breaks_off off e l p) h = record { few = h.few; sound = h.sound }
IsSystem-Step c s t (comes_to_end off e l) h = record { few = h.few; sound = h.sound }

pub IsSystem-Steps : (c : Config) (s t : System) → IsSystem s → Steps c s t → IsSystem t
IsSystem-Steps c s t h stop = h
IsSystem-Steps c s t h (later {t = u} st l) = IsSystem-Step c u t l (IsSystem-Steps c s u h st)

-- In every state that the threads can reach, in any order of their steps, each worker that is in its
-- loop or has left it accesses the words of the buffer and the statistics of three phases alone,
-- with the counts of `IsWorker`, and no worker in its loop is ahead of the phase that is signalled.
pub Steps-IsSystem :
    (c : Config) (words : ℕ → ℕ) (s : System) → Steps c (launched words) s → IsSystem s
Steps-IsSystem c words s st =
    IsSystem-Steps c (launched words) s (record { few = omega arith; sound = λ i. tt }) st
