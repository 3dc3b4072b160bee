-- ===== src/Bench/Percentiles.antt =====
-- `compute_pct` of arm64_files/mig_bench_e.c: the percentiles of a reservoir. `qsort`, the
-- floating-point index `(int)(f * (n - 1))` and the conversion to `double` are parameters; the mean and the deviation are left out.
use memory_migration_cs.Base.{
  ℕ, zero, suc, ◌-◌, ◌≤◌, ◌<◌, Bool, true, ◌≡◌, refl, ap, List, [], ◌∷◌, length, arith,
}
use memory_migration_cs.Bench.{PStats, no_stats}
use memory_migration_cs.Bench.Reservoir.{
  Among, IsReservoir, Timed, seen_by, record_all, record_all-IsReservoir,
}

-- `qsort` of so many entries, the index for a fraction in thousandths, and the type `double` with the
-- conversion from 64 bits, its order and 0.
pub record Libc (Double : Type 0) : Type 0 where
  pub qsort : ℕ → (ℕ → ℕ) → ℕ → ℕ
  pub scaled : (permille : ℕ) → ℕ → ℕ
  pub to_double : ℕ → Double
  pub le_double : Double → Double → Bool
  pub zero_double : Double

-- What is relied on: the entries are sorted and come from the array, the product of a fraction
-- below 1 is not larger than the other factor and grows with the fraction, and the conversion, which
-- rounds, keeps the order.
pub record IsLibc {Double : Type 0} (c : Libc Double) : Type 0 where
  pub sorted : (n : ℕ) (a : ℕ → ℕ) (i j : ℕ) → i ≤ j → j < n → c.qsort n a i ≤ c.qsort n a j
  pub from_array : (n : ℕ) (a : ℕ → ℕ) (i : ℕ) → i < n → (j : ℕ) × (j < n) × (c.qsort n a i ≡ a j)
  pub shrinks : (f k : ℕ) → f ≤ 1000 → c.scaled f k ≤ k
  pub grows : (f g k : ℕ) → f ≤ g → c.scaled f k ≤ c.scaled g k
  pub converts : (x y : ℕ) → x ≤ y → c.le_double (c.to_double x) (c.to_double y) ≡ true
  pub zero_equal : c.le_double c.zero_double c.zero_double ≡ true

pub record Percentiles (Double : Type 0) : Type 0 where
  pub p50 : Double
  pub p95 : Double
  pub p99 : Double
  pub p999 : Double

module _ {Double : Type 0} where
  abbrev pub pct_of : Libc Double → (n : ℕ) → (ℕ → ℕ) → ℕ → Double
  pct_of c n samp f = c.to_double (samp (c.scaled f (n - 1)))

  abbrev pub percentiles_of : Libc Double → ℕ → (ℕ → ℕ) → Percentiles Double
  percentiles_of c n samp = record {
    p50 = pct_of c n samp 500;
    p95 = pct_of c n samp 950;
    p99 = pct_of c n samp 990;
    p999 = pct_of c n samp 999;
  }

  -- The samples are sorted in place.
  abbrev pub pct_by : Libc Double → ℕ → PStats → PStats × Percentiles Double
  pct_by c zero s = (
    s,
    record { p50 = c.zero_double; p95 = c.zero_double; p99 = c.zero_double; p999 = c.zero_double },
  )
  pct_by c (suc n) s =
      let samp = c.qsort (suc n) s.samp in (record s { samp = samp }, percentiles_of c (suc n) samp)

  unfoldable pub compute_pct : Libc Double → PStats → PStats × Percentiles Double
  compute_pct c s = pct_by c s.n_samp s

  -- The percentiles in their order.
  abbrev pub InOrder : Libc Double → Percentiles Double → Type 0
  InOrder c p =
      (c.le_double p.p50 p.p95 ≡ true)
      × (c.le_double p.p95 p.p99 ≡ true)
      × (c.le_double p.p99 p.p999 ≡ true)

  -- A latency that was seen, as a `double`.
  abbrev pub Seen : Libc Double → List ℕ → Double → Type 0
  Seen c lats p = (x : ℕ) × Among x lats × (p ≡ c.to_double x)

  -- A percentile of a nonempty reservoir is one of its samples, converted.
  abbrev IsSample : Libc Double → PStats → Double → Type 0
  IsSample c s x = (j : ℕ) × (j < s.n_samp) × (x ≡ c.to_double (s.samp j))

  abbrev Sampled : Libc Double → PStats → Percentiles Double → Type 0
  Sampled c s p =
      InOrder c p
      × (0 < s.n_samp
          → IsSample c s p.p50 × IsSample c s p.p95 × IsSample c s p.p99 × IsSample c s p.p999)

  module _ (c : Libc Double) (ok : IsLibc c) where
    pct_of-IsSample :
        (n f : ℕ) (a : ℕ → ℕ)
        → f ≤ 1000
        → (j : ℕ) × (j < suc n) × (pct_of c (suc n) (c.qsort (suc n) a) f ≡ c.to_double (a j))
    pct_of-IsSample n f a le =
        let (j, lt, e) =
          ok.from_array (suc n) a (c.scaled f (suc n - 1))
            (omega (arith, ok.shrinks f (suc n - 1) le)) in
        (j, lt, ap c.to_double e)

    pct_of-InOrder :
        (n f g : ℕ) (a : ℕ → ℕ)
        → f ≤ g
        → g ≤ 1000
        → c.le_double
            (pct_of c (suc n) (c.qsort (suc n) a) f)
            (pct_of c (suc n) (c.qsort (suc n) a) g)
          ≡ true
    pct_of-InOrder n f g a le small = ok.converts _ _ (
        ok.sorted (suc n) a (c.scaled f (suc n - 1)) (c.scaled g (suc n - 1))
          (ok.grows f g (suc n - 1) le) (omega (arith, ok.shrinks g (suc n - 1) small)))

    Sampled-pct_by : (s : PStats) (n : ℕ) → s.n_samp ≡ n → Sampled c s (pct_by c n s).1
    Sampled-pct_by s zero e =
        ((ok.zero_equal, ok.zero_equal, ok.zero_equal), λ l. absurd (omega (arith, e)))
    Sampled-pct_by s (suc n) e = (
      (
        pct_of-InOrder n 500 950 s.samp (omega arith) (omega arith),
        pct_of-InOrder n 950 990 s.samp (omega arith) (omega arith),
        pct_of-InOrder n 990 999 s.samp (omega arith) (omega arith),
      ),
      λ l. (
        sample 500 (omega arith),
        sample 950 (omega arith),
        sample 990 (omega arith),
        sample 999 (omega arith),
      ),
    )
      where
        sample : (f : ℕ) → f ≤ 1000 → IsSample c s (pct_of c (suc n) (c.qsort (suc n) s.samp) f)
        sample f le = let (j, lt, q) = pct_of-IsSample n f s.samp le in (j, omega (arith, lt, e), q)

-- The reservoir of a phase, whatever the generator's state at each timed operation, holds as many
-- latencies as were seen, MAX_SAMPLES at most, each slot one of them, and all of them in order until
-- it is full. The percentiles of a phase are in order as `double`s, and if an operation was timed in
-- it, each of them is the `double` of a latency that was seen: no index into the reservoir is out
-- of bounds. This relies on a `qsort` that sorts, on a product with a fraction that neither
-- exceeds the other factor nor falls as the fraction grows, and on a conversion to `double` that
-- keeps the order.
pub compute_pct-record_all :
    {Double : Type 0} (c : Libc Double)
    → IsLibc c
    → (ops : List Timed)
    → let p = (compute_pct c (record_all ops no_stats)).1 in
      IsReservoir (seen_by ops) (record_all ops no_stats)
      × InOrder c p
      × (0 < length ops
          → Seen c (seen_by ops) p.p50
            × Seen c (seen_by ops) p.p95
            × Seen c (seen_by ops) p.p99
            × Seen c (seen_by ops) p.p999)
unfolding compute_pct
compute_pct-record_all {Double} c ok ops =
    let s = record_all ops no_stats in
    let h = record_all-IsReservoir ops in
    let (in_order, samples) = Sampled-pct_by c ok s s.n_samp refl in
    (
      h,
      in_order,
      λ l.
          let (e, f, g, i) = samples (omega (arith, h.filled, timed ops)) in
          (seen s h _ e, seen s h _ f, seen s h _ g, seen s h _ i),
    )
  where
    timed : (l : List Timed) → length (seen_by l) ≡ length l
    timed [] = refl
    timed ((rng, lat) ∷ l) = ap suc (timed l)

    seen :
        (s : PStats)
        → IsReservoir (seen_by ops) s
        → (x : Double) → IsSample c s x
        → Seen c (seen_by ops) x
    seen s h x (j, l, e) = (s.samp j, h.drawn j l, e)
