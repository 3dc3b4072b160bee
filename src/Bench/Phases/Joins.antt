-- ===== src/Bench/Phases/Joins.antt =====
-- The end of the threads of arm64_files/mig_bench_e.c, which `run_bench` waits for.
use memory_migration_cs.Base.{
  ℕ, zero, suc, ◌+◌, ◌-◌, ◌≤◌, ◌<◌, ◌==◌, leb, ltb, true, false, inl, inr, refl, sym, ap, ◌∙◌,
  subst, ◌≡◌, ◌≢◌, Bool-cases, arith,
}
use memory_migration_cs.Bench.{buf_pages}
use memory_migration_cs.Bench.Worker.{Worker, Reading, leaves, iteration, close_phase, worker_start}
use memory_migration_cs.Bench.Worker.Counts.{IsWorker}
use memory_migration_cs.Bench.Phases.Reached.{IsThread, IsSystem, IsSystem-Steps, Steps-IsSystem}
use memory_migration_cs.Bench.Phases.{
  Thread, spinning, looping, exited, Pass, waiting, at_page, returned, Config, System, set_thread,
  thread_of, WorkerStep, iterates, signals, works, sets_out, breaks_off, comes_to_end, launched,
  Steps, stop, later,
}

Steps-append : (c : Config) (s t u : System) → Steps c s t → Steps c t u → Steps c s u
Steps-append c s t u h stop = h
Steps-append c s t u h (later k st) = later (Steps-append c s t _ h k) st

set_thread-same : (f : ℕ → Thread) (i : ℕ) (t : Thread) → set_thread f i t i ≡ t
set_thread-same f i t = let same : (i == i) ≡ true = ground arith in rw same refl

set_thread-other : (f : ℕ → Thread) (i j : ℕ) (t : Thread) → j ≢ i → set_thread f i t j ≡ f j
set_thread-other f i j t d = let other : (i == j) ≡ false = ground arith in rw other refl

abbrev HasExited : Thread → Type 0
HasExited t = (w : Worker) × (t ≡ exited w)

-- What was gained stays while another thread goes on.
abbrev Keeps : ℕ → System → System → Type 0
Keeps i s t =
    (t.phase ≡ s.phase) × (t.pass ≡ s.pass) × ((j : ℕ) → j ≢ i → t.threads j ≡ s.threads j)

-- At phase 4 an iteration leaves the loop, whatever the clock reads.
iteration-leaves :
    (pat : _) (op : _) (r : Reading) (w : Worker)
    → IsWorker w
    → r.ph ≡ 4
    → iteration pat op r w ≡ leaves (close_phase r w)
unfolding iteration
iteration-leaves pat op r w h e =
    let moved : (r.ph == w.cur_ph) ≡ false = ground (arith, h.in_stats, h.phase) in
    let done : leb 4 r.ph ≡ true = ground arith in rw moved (rw done refl)

module _ (c : Config) (i : ℕ) (named : i < c.nthreads) where
  -- A worker in its loop leaves it by one step.
  exit_looping :
      (s : System) (w : Worker)
      → IsSystem s
      → s.phase ≡ 4
      → s.threads i ≡ looping w
      → (t : System) × Steps c s t × HasExited (t.threads i) × Keeps i s t
  exit_looping s w h p e =
      let r : Reading = record { ph = 4; now = 0; t0 = 0; t1 = 0 } in
      let here : IsThread s.phase (looping w) = subst (IsThread s.phase) e (h.sound i) in
      let left =
        iteration-leaves c.pat c.op r (record w { words = s.words }) (rewords w s.words here.0)
          refl in
      (
        _,
        later stop (works i named (iterates r w e (sym p))),
        (
          close_phase r (record w { words = s.words }),
          set_thread-same s.threads i _ ∙ ap thread_of left,
        ),
        (refl, refl, λ j d. set_thread-other s.threads i j _ d),
      )
    where
      rewords : (w : Worker) (words : ℕ → ℕ) → IsWorker w → IsWorker (record w { words = words })
      rewords w words h = record {
        in_buffer = h.in_buffer;
        in_stats = h.in_stats;
        phase = h.phase;
        counted = h.counted;
        current = h.current;
        later = h.later;
      }

  exit_thread :
      (s : System) (v : Thread)
      → IsSystem s
      → s.phase ≡ 4
      → s.threads i ≡ v
      → (t : System) × Steps c s t × HasExited (t.threads i) × Keeps i s t
  exit_thread s spinning h p e =
      let begun = WorkerStep.begins 0 e (omega (arith, p)) in
      let first = later stop (works i named begun) in
      let (t, st, x, k) =
        exit_looping _ (worker_start i c.nthreads 0 s.words) (IsSystem-Steps c s _ h first) p
          (set_thread-same s.threads i _) in
      (
        t,
        Steps-append c s _ t first st,
        x,
        (k.0, k.1, λ j d. k.2 j d ∙ set_thread-other s.threads i j _ d),
      )
  exit_thread s (looping w) h p e = exit_looping s w h p e
  exit_thread s (exited w) h p e = (s, stop, (w, e), (refl, refl, λ j d. refl))

module _ (c : Config) where
  signal_all : (k : ℕ) (s : System) → s.phase + k ≡ 4 → (t : System) × Steps c s t × (t.phase ≡ 4)
  signal_all zero s e = (s, stop, omega (arith, e))
  signal_all (suc k) s e =
      let (t, st, p) = signal_all k (record s { phase = s.phase + 1 }) (omega (arith, e)) in
      (t, Steps-append c s _ t (later stop (signals (omega (arith, e)))) st, p)

  exit_all :
      (k : ℕ) (s : System)
      → k ≤ c.nthreads
      → IsSystem s
      → s.phase ≡ 4
      → (t : System) × Steps c s t × (t.phase ≡ 4) × ((i : ℕ) → i < k → HasExited (t.threads i))
  exit_all zero s le h p = (s, stop, p, λ i l. absurd (omega arith))
  exit_all (suc k) s le h p =
      let (t, st, q, x) = exit_all k s (omega arith) h p in
      let (u, st', y, keep) =
        exit_thread c k (omega arith) t (t.threads k) (IsSystem-Steps c s t h st) q refl in
      (
        u,
        Steps-append c s t u st st',
        keep.0 ∙ q,
        λ i l. elim (Bool-cases (i == k)) [
          | inl e ↦
              let here : k ≡ i = ground arith in subst (λ (n : ℕ). HasExited (u.threads n)) here y
          | inr e ↦ subst HasExited (sym (keep.2 i (ground arith))) (x i (ground arith))
        ],
      )

  finish_pass :
      (s : System) (v : Pass)
      → s.phase ≡ 4
      → s.pass ≡ v
      → (t : System) × Steps c s t × (t.pass ≡ returned) × (t.phase ≡ 4) × (t.threads ≡ s.threads)
  finish_pass s waiting p e = (
    _,
    later (later stop (sets_out e (omega (arith, p))))
        (breaks_off 0 refl (omega arith) (omega (arith, p))),
    refl,
    p,
    refl,
  )
  finish_pass s (at_page off) p e = elim (Bool-cases (ltb off buf_pages)) [
    | inl b ↦ (_, later stop (breaks_off off e (ground arith) (omega (arith, p))), refl, p, refl)
    | inr b ↦ (_, later stop (comes_to_end off e (ground arith)), refl, p, refl)
  ]
  finish_pass s returned p e = (s, stop, e, p, refl)

-- From every state that the threads can reach, steps lead to a state in which phase 4 is signalled,
-- every worker has left its loop and the migrator has returned: the joins of `run_bench` do not
-- wait for ever on a thread that cannot go on.
pub Steps-joins :
    (c : Config) (words : ℕ → ℕ) (s : System)
    → Steps c (launched words) s
    → (t : System) × Steps c s t
      × (t.phase ≡ 4)
      × ((i : ℕ) → i < c.nthreads → (w : Worker) × (t.threads i ≡ exited w))
      × (t.pass ≡ returned)
Steps-joins c words s st =
    let h = Steps-IsSystem c words s st in
    let (t, a, p) = signal_all c (4 - s.phase) s (omega (arith, h.few)) in
    let (u, b, q, x) = exit_all c c.nthreads t (omega arith) (IsSystem-Steps c s t h a) p in
    let (v, d, e, r, same) = finish_pass c u u.pass q refl in
    (
      v,
      Steps-append c s u v (Steps-append c s t u a b) d,
      r,
      λ i l. subst (λ (f : ℕ → Thread). HasExited (f i)) (sym same) (x i l),
      e,
    )
