-- ===== src/Bench/Multi/Seen.antt =====
-- What the statistics of a phase (arm64_files/mig_bench_rocm_mt.c) say of its operations.
use memory_migration_cs.Base.{
  ℕ, ◌+◌, ◌%◌, ◌^◌, ◌<◌, min, ltb, ◌==◌, true, Option, none, some, List, [], ◌∷◌, ◌++◌, ◌≡◌, inl,
  inr, refl, sym, subst, if◌then◌else◌, update, length, length-append, append-nil, append_assoc,
  Bool-cases, arith,
}
use memory_migration_cs.Bench.Reservoir.{Among, Among-append, Among-last}
use native.Mathlib.Nat.{mod-lt}
use memory_migration_cs.Bench.Multi.{
  mt_max_samples, stall_thresh_ns, PhaseStat, no_ops, Op, timed, untimed, count_op, keep_sample,
  count_stall, see_op, record_op, record_ops, latencies, latest, stalls, stall_time,
}

-- The last latency stands in the reservoir.
abbrev pub Holds : PhaseStat → Option ℕ → Type 0
Holds s none = Unit
Holds s (some l) = (j : ℕ) × (j < s.n_samp) × (s.samp j ≡ l)

-- The statistics against what was seen.
pub record IsPhaseStat (seen : List ℕ) (last : Option ℕ) (s : PhaseStat) : Type 0 where
  pub counted : s.n_seen ≡ length seen
  pub filled : s.n_samp ≡ min (length seen) mt_max_samples
  pub drawn : (i : ℕ) → i < s.n_samp → Among (s.samp i) seen
  pub holds_last : Holds s last
  pub stalled : s.stall_count ≡ stalls seen % 2 ^ 64
  pub stall_ns : s.stall_sum_ns ≡ stall_time seen % 2 ^ 64

stalls-append :
    (xs : List ℕ) (y : ℕ)
    → stalls (xs ++ (y ∷ [])) ≡ (if ltb stall_thresh_ns y then stalls xs + 1 else stalls xs)
stalls-append [] y = refl
stalls-append (x ∷ xs) y = ground (arith, stalls-append xs y)

stall_time-append :
    (xs : List ℕ) (y : ℕ)
    → stall_time (xs ++ (y ∷ []))
      ≡ (if ltb stall_thresh_ns y then stall_time xs + y else stall_time xs)
stall_time-append [] y = ground arith
stall_time-append (x ∷ xs) y = ground (arith, stall_time-append xs y)

-- The reservoir after one more latency.
record IsKept (seen : List ℕ) (lat n : ℕ) (s : PhaseStat) : Type 0 where
  size : s.n_samp ≡ n
  entries : (i : ℕ) → i < s.n_samp → Among (s.samp i) (seen ++ (lat ∷ []))
  holds : Holds s (some lat)

module _ (seen : List ℕ) (last : Option ℕ) (s : PhaseStat) (h : IsPhaseStat seen last s)
    (rng lat : ℕ) where
  longer : length (seen ++ (lat ∷ [])) ≡ length seen + 1
  longer = omega (arith, length-append seen (lat ∷ []))

  updated : (at : ℕ) → update s.samp at lat at ≡ lat
  updated at = let same : (at == at) ≡ true = ground arith in rw same refl

  abbrev begun : PhaseStat
  begun = see_op (count_op s)

  IsKept-keep_sample :
      IsKept seen lat (min (length seen + 1) mt_max_samples) (keep_sample rng lat begun)
  unfolding keep_sample
  IsKept-keep_sample = elim (Bool-cases (ltb s.n_samp mt_max_samples)) [
    | inl e ↦ rw e (record {
      size = ground (arith, h.filled);
      entries = λ i l. elim (Bool-cases (s.n_samp == i)) [
        | inl f ↦ rw f (Among-last lat seen)
        | inr f ↦ rw f (Among-append (s.samp i) seen (lat ∷ []) (h.drawn i (ground arith)))
      ];
      holds = (s.n_samp, omega arith, updated s.n_samp);
    })
    | inr e ↦ rw e (record {
      size = ground (arith, h.filled);
      entries = λ i l. elim (Bool-cases (rng % s.n_samp == i)) [
        | inl f ↦ rw f (Among-last lat seen)
        | inr f ↦ rw f (Among-append (s.samp i) seen (lat ∷ []) (h.drawn i l))
      ];
      holds = (rng % s.n_samp, mod-lt rng (ground arith), updated (rng % s.n_samp));
    })
  ]

  -- Sampling touches no count but its own.
  same_counts :
      let k = keep_sample rng lat begun in
      (k.n_seen ≡ s.n_seen + 1)
      × (k.stall_count ≡ s.stall_count)
      × (k.stall_sum_ns ≡ s.stall_sum_ns)
  unfolding keep_sample
  same_counts = elim (Bool-cases (ltb s.n_samp mt_max_samples)) [
    | inl e ↦ rw e (refl, refl, refl)
    | inr e ↦ rw e (refl, refl, refl)
  ]

  IsPhaseStat-count_stall :
      (k : PhaseStat)
      → (k.n_seen ≡ s.n_seen + 1)
        × (k.stall_count ≡ s.stall_count)
        × (k.stall_sum_ns ≡ s.stall_sum_ns)
      → IsKept seen lat (min (length seen + 1) mt_max_samples) k
      → IsPhaseStat (seen ++ (lat ∷ [])) (some lat) (count_stall lat k)
  unfolding count_stall
  IsPhaseStat-count_stall k (a, b, c) g = elim (Bool-cases (ltb stall_thresh_ns lat)) [
    | inl e ↦ rw e (record {
      counted = omega (arith, a, h.counted, longer);
      filled = omega (arith, g.size, longer);
      drawn = g.entries;
      holds_last = g.holds;
      stalled = ground (arith, b, h.stalled, stalls-append seen lat);
      stall_ns = ground (arith, c, h.stall_ns, stall_time-append seen lat);
    })
    | inr e ↦ rw e (record {
      counted = omega (arith, a, h.counted, longer);
      filled = omega (arith, g.size, longer);
      drawn = g.entries;
      holds_last = g.holds;
      stalled = ground (arith, b, h.stalled, stalls-append seen lat);
      stall_ns = ground (arith, c, h.stall_ns, stall_time-append seen lat);
    })
  ]

IsPhaseStat-record_op :
    (seen : List ℕ) (last : Option ℕ) (s : PhaseStat)
    → IsPhaseStat seen last s
    → (rng lat : ℕ) → IsPhaseStat (seen ++ (lat ∷ [])) (some lat) (record_op (timed rng lat) s)
unfolding record_op
IsPhaseStat-record_op seen last s h rng lat =
    IsPhaseStat-count_stall seen last s h rng lat (keep_sample rng lat (see_op (count_op s)))
      (same_counts seen last s h rng lat) (IsKept-keep_sample seen last s h rng lat)

IsPhaseStat-record_ops :
    (os : List Op) (seen : List ℕ) (last : Option ℕ) (s : PhaseStat)
    → IsPhaseStat seen last s
    → IsPhaseStat (seen ++ latencies os) (latest last (latencies os)) (record_ops os s)
unfolding record_ops record_op
IsPhaseStat-record_ops [] seen last s h =
    subst (λ (l : List ℕ). IsPhaseStat l last s) (sym (append-nil seen)) h
IsPhaseStat-record_ops (timed rng lat ∷ os) seen last s h =
    subst
      (λ (l : List ℕ).
        IsPhaseStat l (latest (some lat) (latencies os))
          (record_ops os (record_op (timed rng lat) s)))
      (append_assoc seen (lat ∷ []) (latencies os))
      (IsPhaseStat-record_ops os (seen ++ (lat ∷ [])) (some lat) (record_op (timed rng lat) s)
        (IsPhaseStat-record_op seen last s h rng lat))
IsPhaseStat-record_ops (untimed ∷ os) seen last s h =
    IsPhaseStat-record_ops os seen last (count_op s) (record {
      counted = h.counted;
      filled = h.filled;
      drawn = h.drawn;
      holds_last = holds last h.holds_last;
      stalled = h.stalled;
      stall_ns = h.stall_ns;
    })
  where
    holds : (l : Option ℕ) → Holds s l → Holds (count_op s) l
    holds none k = tt
    holds (some x) k = k

-- Whatever operations a phase has, the reservoir holds as many latencies as were timed, MAX_SAMPLES
-- at most, each of them one that was timed, and the last one for certain. The stalls that are
-- counted are the latencies above the threshold, and so is their sum, up to wrap-around.
pub record_ops-IsPhaseStat :
    (os : List Op) → IsPhaseStat (latencies os) (latest none (latencies os)) (record_ops os no_ops)
record_ops-IsPhaseStat os = IsPhaseStat-record_ops os [] none no_ops (record {
  counted = refl;
  filled = omega arith;
  drawn = λ i l. absurd (omega arith);
  holds_last = tt;
  stalled = refl;
  stall_ns = refl;
})
