-- ===== src/Bench/Worker/Counts.antt =====
-- The counts of a worker thread of arm64_files/mig_bench_e.c, through one operation.
use memory_migration_cs.Base.{
  ℕ, ◌+◌, ◌*◌, ◌%◌, ◌^◌, ◌<◌, min, ltb, ◌==◌, ◌≡◌, ◌≢◌, true, false, inl, inr, refl, sym, ap, ◌∙◌,
  subst, if◌then◌else◌, update, Bool-cases, arith,
}
use memory_migration_cs.Timing.{sub64}
use memory_migration_cs.Bench.{
  AccessPat, pat_seq, pat_rand, pat_stride16, OpType, op_read, op_write, op_rmw, PStats,
  max_samples, buf_pages, lcg, record_latency,
}
use memory_migration_cs.Bench.Worker.{
  Worker, Reading, advance, perform, keep_latency, count_op, operate,
}

-- Eight bytes for each operation, one timed operation in 64, and a reservoir that holds what fits.
pub record IsCounted (s : PStats) : Type 0 where
  pub eight_bytes : s.bytes ≡ (8 * s.ops) % 2 ^ 64
  pub one_in_64 : (64 * s.n_seen + s.ops % 64) % 2 ^ 64 ≡ s.ops
  pub kept : s.n_samp ≡ min s.n_seen max_samples

-- The phases behind the current one have no operations yet.
pub record IsWorker (w : Worker) : Type 0 where
  pub in_buffer : w.pidx < buf_pages
  pub in_stats : w.pi < 3
  pub phase : w.cur_ph ≡ w.pi + 1
  pub counted : (i : ℕ) → IsCounted (w.ps i)
  pub current : w.op_cnt ≡ (w.ps w.pi).ops
  pub later : (i : ℕ) → w.pi < i → (w.ps i).ops ≡ 0

abbrev bump : PStats → PStats
bump s = record s { ops = (s.ops + 1) % 2 ^ 64; bytes = (s.bytes + 8) % 2 ^ 64 }

IsCounted-bump :
    (s : PStats) → IsCounted s → (((s.ops + 1) % 2 ^ 64) % 64 == 0) ≡ false → IsCounted (bump s)
IsCounted-bump s h e =
    let odd : ((s.ops + 1) % 2 ^ 64) % 64 ≢ 0 = ground arith in
    record {
      eight_bytes = omega (arith, h.eight_bytes);
      one_in_64 = omega (arith, h.one_in_64);
      kept = h.kept;
    }

-- What `record_latency` does to the counts.
record_latency-counts :
    (lat rng : ℕ) (s : PStats)
    → s.n_samp ≡ min s.n_seen max_samples
    → let t = (record_latency lat (rng, s)).1 in
      (t.ops ≡ s.ops)
      × (t.bytes ≡ s.bytes)
      × (t.n_seen ≡ s.n_seen + 1)
      × (t.n_samp ≡ min t.n_seen max_samples)
unfolding record_latency
record_latency-counts lat rng s h = elim (Bool-cases (ltb s.n_samp max_samples)) [
  | inl e ↦ rw e (refl, refl, refl, ground arith)
  | inr e ↦ rw e (elim (Bool-cases (ltb (lcg 1 rng % (s.n_seen + 1)) max_samples)) [
    | inl f ↦ rw f (refl, refl, refl, ground arith)
    | inr f ↦ rw f (refl, refl, refl, ground arith)
  ])
]

IsCounted-sampled :
    (s t : PStats)
    → IsCounted s
    → (t.ops ≡ s.ops)
      × (t.bytes ≡ s.bytes)
      × (t.n_seen ≡ s.n_seen + 1)
      × (t.n_samp ≡ min t.n_seen max_samples)
    → (((s.ops + 1) % 2 ^ 64) % 64 == 0) ≡ true
    → IsCounted (bump t)
IsCounted-sampled s t h (a, b, c, d) e =
    let even : ((s.ops + 1) % 2 ^ 64) % 64 ≡ 0 = ground arith in
    record {
      eight_bytes = omega (arith, h.eight_bytes, a, b);
      one_in_64 = omega (arith, h.one_in_64, a, c);
      kept = d;
    }

pub update_same : (f : ℕ → PStats) (i : ℕ) (s : PStats) → update f i s i ≡ s
update_same f i s = let same : (i == i) ≡ true = ground arith in rw same refl

update_other : (f : ℕ → PStats) (i j : ℕ) (s : PStats) → (i == j) ≡ false → update f i s j ≡ f j
update_other f i j s e = rw e refl

-- An operation is counted in the statistics of the current phase alone.
record IsCountedOp (w v : Worker) : Type 0 where
  same_page : v.pidx ≡ w.pidx
  same_index : v.pi ≡ w.pi
  same_phase : v.cur_ph ≡ w.cur_ph
  next_count : v.op_cnt ≡ (w.op_cnt + 1) % 2 ^ 64
  next_ops : (v.ps w.pi).ops ≡ ((w.ps w.pi).ops + 1) % 2 ^ 64
  counted_here : IsCounted (v.ps w.pi)
  same_others : (j : ℕ) → (w.pi == j) ≡ false → v.ps j ≡ w.ps j

IsWorker-IsCountedOp : (w v : Worker) → IsWorker w → IsCountedOp w v → IsWorker v
IsWorker-IsCountedOp w v h c = record {
  in_buffer = omega (arith, h.in_buffer, c.same_page);
  in_stats = omega (arith, h.in_stats, c.same_index);
  phase = omega (arith, h.phase, c.same_phase, c.same_index);
  counted = λ j. elim (Bool-cases (w.pi == j)) [
    | inl e ↦
        let here : w.pi ≡ j = ground arith in
        subst (λ (x : ℕ). IsCounted (v.ps x)) here c.counted_here
    | inr e ↦ subst IsCounted (sym (c.same_others j e)) (h.counted j)
  ];
  current =
      subst (λ (x : ℕ). v.op_cnt ≡ (v.ps x).ops) (sym c.same_index)
        (omega (arith, c.next_count, c.next_ops, h.current));
  later = λ j l.
      let other : (w.pi == j) ≡ false = ground (arith, c.same_index) in
      subst (λ (s : PStats). s.ops ≡ 0) (sym (c.same_others j other))
        (h.later j (omega (arith, c.same_index)));
}

module _ (w : Worker) (h : IsWorker w) (words : ℕ → ℕ) where
  abbrev begun : Worker
  begun = record w { op_cnt = (w.op_cnt + 1) % 2 ^ 64; words = words }

  abbrev here : PStats
  here = w.ps w.pi

  IsCountedOp-count_op :
      ((w.op_cnt + 1) % 2 ^ 64 % 64 == 0) ≡ false → IsCountedOp w (count_op begun)
  IsCountedOp-count_op e = record {
    same_page = refl;
    same_index = refl;
    same_phase = refl;
    next_count = refl;
    next_ops = ap (λ (s : PStats). s.ops) (update_same w.ps w.pi (bump here));
    counted_here = subst IsCounted (sym (update_same w.ps w.pi (bump here))) (
        IsCounted-bump here (h.counted w.pi)
          (subst (λ (x : ℕ). ((x + 1) % 2 ^ 64 % 64 == 0) ≡ false) h.current e));
    same_others = λ j d. update_other w.ps w.pi j (bump here) d;
  }

  -- With a latency.
  module _ (lat : ℕ) where
    abbrev kept_stats : PStats
    kept_stats = (record_latency lat (w.rng, here)).1

    abbrev kept_ps : ℕ → PStats
    kept_ps = update w.ps w.pi kept_stats

    bumped : update kept_ps w.pi (bump (kept_ps w.pi)) w.pi ≡ bump kept_stats
    bumped = update_same kept_ps w.pi _ ∙ ap bump (update_same w.ps w.pi kept_stats)

    IsCountedOp-keep_latency :
        ((w.op_cnt + 1) % 2 ^ 64 % 64 == 0) ≡ true
        → IsCountedOp w (count_op (keep_latency (record_latency lat (w.rng, here)) begun))
    IsCountedOp-keep_latency e =
        let c = record_latency-counts lat w.rng here (h.counted w.pi).kept in
        record {
          same_page = refl;
          same_index = refl;
          same_phase = refl;
          next_count = refl;
          next_ops = ap (λ (s : PStats). s.ops) bumped ∙ ap (λ (x : ℕ). (x + 1) % 2 ^ 64) c.0;
          counted_here = subst IsCounted (sym bumped) (
              IsCounted-sampled here kept_stats (h.counted w.pi) c
                (subst (λ (x : ℕ). ((x + 1) % 2 ^ 64 % 64 == 0) ≡ true) h.current e));
          same_others = λ j d.
              update_other kept_ps w.pi j (bump (kept_ps w.pi)) d
              ∙ update_other w.ps w.pi j kept_stats d;
        }

    IsWorker-counted : IsWorker (
        if (w.op_cnt + 1) % 2 ^ 64 % 64 == 0
        then count_op (keep_latency (record_latency lat (w.rng, here)) begun)
        else count_op begun)
    IsWorker-counted = elim (Bool-cases ((w.op_cnt + 1) % 2 ^ 64 % 64 == 0)) [
      | inl e ↦ rw e (IsWorker-IsCountedOp w _ h (IsCountedOp-keep_latency e))
      | inr e ↦ rw e (IsWorker-IsCountedOp w _ h (IsCountedOp-count_op e))
    ]

pub IsWorker-operate :
    (op : OpType) (r : Reading) (w : Worker) → IsWorker w → IsWorker (operate op r w)
unfolding operate perform
IsWorker-operate op_read r w h = IsWorker-counted w h w.words (sub64 r.t1 r.t0)
IsWorker-operate op_write r w h = IsWorker-counted w h _ (sub64 r.t1 r.t0)
IsWorker-operate op_rmw r w h = IsWorker-counted w h _ (sub64 r.t1 r.t0)

pub IsWorker-advance : (pat : AccessPat) (w : Worker) → IsWorker w → IsWorker (advance pat w)
unfolding advance
IsWorker-advance pat_seq w h = record {
  in_buffer = omega arith;
  in_stats = h.in_stats;
  phase = h.phase;
  counted = h.counted;
  current = h.current;
  later = h.later;
}
IsWorker-advance pat_rand w h = record {
  in_buffer = omega arith;
  in_stats = h.in_stats;
  phase = h.phase;
  counted = h.counted;
  current = h.current;
  later = h.later;
}
IsWorker-advance pat_stride16 w h = record {
  in_buffer = omega arith;
  in_stats = h.in_stats;
  phase = h.phase;
  counted = h.counted;
  current = h.current;
  later = h.later;
}
