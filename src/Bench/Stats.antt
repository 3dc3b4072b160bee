-- ===== src/Bench/Stats.antt =====
-- `compute_stats` of arm64_files/mig_bench_rocm.c: the columns of the rows of one path. The means and
-- deviations (floating point) are left out.
use memory_migration_cs.Base.{
  ℕ, suc, ◌+◌, ◌%◌, ◌^◌, ◌==◌, Bool, true, false, Option, none, some, List, [], ◌∷◌, ◌≡◌, ◌⊎◌, inl,
  inr, refl, ap, ◌∙◌, if◌then◌else◌, length, map, All, Bool-cases, arith,
}
use memory_migration_cs.Timing.{Row, RecordBuffer, mig_timing_show}
use memory_migration_cs.Bench.Csv.{print_csv}
use memory_migration_cs.Bench.Csv.Lines.{CsvRow, rows, parse_csv_file}
use memory_migration_cs.Bench.Csv.Rows.{csv_row_of, bit}
use memory_migration_cs.Bench.Csv.Parsed.{parse_csv_file-print_csv}

-- `filter_rocm`: `none` is a negative one, for all rows.
abbrev pub matches : Option ℕ → CsvRow → Bool
matches none r = true
matches (some f) r = r.rocm_path == f

-- The arrays and the counts.
pub record Stats : Type 0 where
  pub lock : List ℕ
  pub unmap : List ℕ
  pub copy : List ℕ
  pub remap : List ℕ
  pub unlock : List ℕ
  pub total : List ℕ
  pub ro_swap : List ℕ
  pub stall : List ℕ
  pub true_stall : List ℕ
  pub n_rocm : ℕ
  pub n_standard : ℕ

abbrev pub no_rows : Stats
no_rows = record {
  lock = [];
  unmap = [];
  copy = [];
  remap = [];
  unlock = [];
  total = [];
  ro_swap = [];
  stall = [];
  true_stall = [];
  n_rocm = 0;
  n_standard = 0;
}

-- `unmap_ns + copy_ns + remap_ns`.
abbrev pub stall_of : CsvRow → ℕ
stall_of r = (r.unmap_ns + r.copy_ns + r.remap_ns) % 2 ^ 64

-- A row that matches, in front of those behind it.
abbrev pub put_row : CsvRow → Stats → Stats
put_row r s = record {
  lock = r.lock_ns ∷ s.lock;
  unmap = r.unmap_ns ∷ s.unmap;
  copy = r.copy_ns ∷ s.copy;
  remap = r.remap_ns ∷ s.remap;
  unlock = r.unlock_ns ∷ s.unlock;
  total = r.total_ns ∷ s.total;
  ro_swap = r.ro_swap_ns ∷ s.ro_swap;
  stall = stall_of r ∷ s.stall;
  true_stall = (if r.rocm_path == 1 then r.ro_swap_ns else stall_of r) ∷ s.true_stall;
  n_rocm = if r.rocm_path == 1 then s.n_rocm + 1 else s.n_rocm;
  n_standard = if r.rocm_path == 1 then s.n_standard else s.n_standard + 1;
}

unfoldable pub compute_stats : Option ℕ → List CsvRow → Stats
compute_stats f [] = no_rows
compute_stats f (r ∷ rs) =
    let rest = compute_stats f rs in if matches f r then put_row r rest else rest

-- `cnt`, which is `n_total`.
unfoldable pub count_rows : Option ℕ → List CsvRow → ℕ
count_rows f [] = 0
count_rows f (r ∷ rs) = let rest = count_rows f rs in if matches f r then rest + 1 else rest

-- The arrays have the counted length, and each row is counted for one path.
pub record IsStats (n : ℕ) (s : Stats) : Type 0 where
  pub filled :
      (length s.lock ≡ n)
      × (length s.unmap ≡ n)
      × (length s.copy ≡ n)
      × (length s.remap ≡ n)
      × (length s.unlock ≡ n)
      × (length s.total ≡ n)
      × (length s.ro_swap ≡ n)
      × (length s.stall ≡ n)
      × (length s.true_stall ≡ n)
  pub paths : s.n_rocm + s.n_standard ≡ n

IsStats-put_row : (r : CsvRow) (n : ℕ) (s : Stats) → IsStats n s → IsStats (n + 1) (put_row r s)
IsStats-put_row r n s h =
    let (a, b, c, d, e, f, g, i, j) = h.filled in
    record {
      filled = (
        omega (arith, a),
        omega (arith, b),
        omega (arith, c),
        omega (arith, d),
        omega (arith, e),
        omega (arith, f),
        omega (arith, g),
        omega (arith, i),
        omega (arith, j),
      );
      paths = ground (arith, h.paths);
    }

pub compute_stats-IsStats :
    (f : Option ℕ) (rs : List CsvRow) → IsStats (count_rows f rs) (compute_stats f rs)
unfolding compute_stats count_rows
compute_stats-IsStats f [] = record {
  filled = (refl, refl, refl, refl, refl, refl, refl, refl, refl);
  paths = refl;
}
compute_stats-IsStats f (r ∷ rs) = elim (Bool-cases (matches f r)) [
  | inl e ↦
      rw (e, compute_stats, count_rows)
        (IsStats-put_row r (count_rows f rs) (compute_stats f rs) (compute_stats-IsStats f rs))
  | inr e ↦ rw (e, compute_stats, count_rows) (compute_stats-IsStats f rs)
]

-- Every row is of one of the two paths.
abbrev Marked : CsvRow → Type 0
Marked r = (r.rocm_path ≡ 0) ⊎ (r.rocm_path ≡ 1)

count_rows-paths :
    (rs : List CsvRow) → All Marked rs → count_rows (some 0) rs + count_rows (some 1) rs ≡ length rs
unfolding count_rows
count_rows-paths [] h = refl
count_rows-paths (r ∷ rs) h = marked h.0 (count_rows-paths rs h.1)
  where
    marked :
        Marked r
        → count_rows (some 0) rs + count_rows (some 1) rs ≡ length rs
        → count_rows (some 0) (r ∷ rs) + count_rows (some 1) (r ∷ rs) ≡ length (r ∷ rs)
    marked (inl e) g = ground (arith, e, g)
    marked (inr e) g = ground (arith, e, g)

Marked-map : (rs : List Row) → All Marked (map csv_row_of rs)
Marked-map [] = tt
Marked-map (r ∷ rs) = (marked r.source.rocm_path, Marked-map rs)
  where
    marked : (b : Bool) → (bit b ≡ 0) ⊎ (bit b ≡ 1)
    marked true = inr refl
    marked false = inl refl

length-map : (rs : List Row) → length (map csv_row_of rs) ≡ length rs
length-map [] = refl
length-map (r ∷ rs) = ap suc (length-map rs)

-- The stall that a thread sees is the time of the swap on the ROCM path, and that of the three
-- stages otherwise.
stall-rocm :
    (rs : List CsvRow)
    → ((compute_stats (some 1) rs).true_stall ≡ (compute_stats (some 1) rs).ro_swap)
      × ((compute_stats (some 1) rs).n_standard ≡ 0)
unfolding compute_stats
stall-rocm [] = (refl, refl)
stall-rocm (r ∷ rs) = elim (Bool-cases (r.rocm_path == 1)) [
  | inl e ↦
      let (a, b) = stall-rocm rs in
      rw (e, compute_stats) (ap (λ (l : List ℕ). r.ro_swap_ns ∷ l) a, b)
  | inr e ↦ rw (e, compute_stats) (stall-rocm rs)
]

stall-standard :
    (rs : List CsvRow)
    → ((compute_stats (some 0) rs).true_stall ≡ (compute_stats (some 0) rs).stall)
      × ((compute_stats (some 0) rs).n_rocm ≡ 0)
unfolding compute_stats
stall-standard [] = (refl, refl)
stall-standard (r ∷ rs) = elim (Bool-cases (r.rocm_path == 0)) [
  | inl e ↦
      let (a, b) = stall-standard rs in
      let standard : (r.rocm_path == 1) ≡ false = ground arith in
      rw (e, compute_stats) (rw standard (ap (λ (l : List ℕ). stall_of r ∷ l) a, b))
  | inr e ↦ rw (e, compute_stats) (stall-standard rs)
]

-- The rows that are kept.
abbrev pub kept : Option ℕ → List CsvRow → List CsvRow
kept f [] = []
kept f (r ∷ rs) = let rest = kept f rs in if matches f r then r ∷ rest else rest

-- Each array holds its column of the rows that match, in their order; a stall is the sum of the
-- three stages as 64 bits.
pub record HoldsColumns (rs : List CsvRow) (s : Stats) : Type 0 where
  pub locks : s.lock ≡ map (λ r. r.lock_ns) rs
  pub unmaps : s.unmap ≡ map (λ r. r.unmap_ns) rs
  pub copies : s.copy ≡ map (λ r. r.copy_ns) rs
  pub remaps : s.remap ≡ map (λ r. r.remap_ns) rs
  pub unlocks : s.unlock ≡ map (λ r. r.unlock_ns) rs
  pub totals : s.total ≡ map (λ r. r.total_ns) rs
  pub swaps : s.ro_swap ≡ map (λ r. r.ro_swap_ns) rs
  pub stalls : s.stall ≡ map (λ r. (r.unmap_ns + r.copy_ns + r.remap_ns) % 2 ^ 64) rs

HoldsColumns-put_row :
    (r : CsvRow) (rs : List CsvRow) (s : Stats)
    → HoldsColumns rs s
    → HoldsColumns (r ∷ rs) (put_row r s)
HoldsColumns-put_row r rs s h = record {
  locks = ap (λ (l : List ℕ). r.lock_ns ∷ l) h.locks;
  unmaps = ap (λ (l : List ℕ). r.unmap_ns ∷ l) h.unmaps;
  copies = ap (λ (l : List ℕ). r.copy_ns ∷ l) h.copies;
  remaps = ap (λ (l : List ℕ). r.remap_ns ∷ l) h.remaps;
  unlocks = ap (λ (l : List ℕ). r.unlock_ns ∷ l) h.unlocks;
  totals = ap (λ (l : List ℕ). r.total_ns ∷ l) h.totals;
  swaps = ap (λ (l : List ℕ). r.ro_swap_ns ∷ l) h.swaps;
  stalls = ap (λ (l : List ℕ). (r.unmap_ns + r.copy_ns + r.remap_ns) % 2 ^ 64 ∷ l) h.stalls;
}

compute_stats-HoldsColumns :
    (f : Option ℕ) (rs : List CsvRow) → HoldsColumns (kept f rs) (compute_stats f rs)
unfolding compute_stats
compute_stats-HoldsColumns f [] = record {
  locks = refl;
  unmaps = refl;
  copies = refl;
  remaps = refl;
  unlocks = refl;
  totals = refl;
  swaps = refl;
  stalls = refl;
}
compute_stats-HoldsColumns f (r ∷ rs) = elim (Bool-cases (matches f r)) [
  | inl e ↦
      rw (e, compute_stats)
        (HoldsColumns-put_row r (kept f rs) (compute_stats f rs) (compute_stats-HoldsColumns f rs))
  | inr e ↦ rw (e, compute_stats) (compute_stats-HoldsColumns f rs)
]

-- From what the kernel prints of a buffer, the benchmark reads a row for each row shown, and each
-- row is counted for exactly one path. With any filter the arrays are filled up to the count of the
-- rows that match, and hold their columns in order, the stall of a row being the sum of its unmap,
-- copy and remap times as 64 bits. For the rows of the ROCM path the stall that a thread sees is
-- the time of the swap; for those of the standard path it is that sum.
pub compute_stats-paths :
    (b : RecordBuffer)
    → (rs : List CsvRow) × (parse_csv_file (print_csv b) ≡ rows rs)
      × (length rs ≡ length (mig_timing_show b))
      × (count_rows (some 0) rs + count_rows (some 1) rs ≡ length rs)
      × ((f : Option ℕ) → IsStats (count_rows f rs) (compute_stats f rs))
      × ((f : Option ℕ) → HoldsColumns (kept f rs) (compute_stats f rs))
      × ((compute_stats (some 1) rs).true_stall ≡ (compute_stats (some 1) rs).ro_swap)
      × ((compute_stats (some 0) rs).true_stall ≡ (compute_stats (some 0) rs).stall)
compute_stats-paths b =
    let rs = map csv_row_of (mig_timing_show b) in
    (
      rs,
      parse_csv_file-print_csv b,
      length-map (mig_timing_show b),
      count_rows-paths rs (Marked-map (mig_timing_show b)) ∙ refl,
      λ f. compute_stats-IsStats f rs,
      λ f. compute_stats-HoldsColumns f rs,
      (stall-rocm rs).0,
      (stall-standard rs).0,
    )
