-- ===== src/Bench/Csv/Rows.antt =====
-- A row that the kernel has printed, as the benchmark reads it (arm64_files/mig_bench_rocm.c).
use memory_migration_cs.Base.{
  ℕ, zero, suc, ◌+◌, ◌*◌, ◌%◌, ◌^◌, ◌≤◌, ◌<◌, ◌==◌, Bool, true, false, some, List, [], ◌∷◌, ◌++◌,
  ◌≡◌, refl, ap, ◌∙◌, if◌then◌else◌, update, length, length-append, All, All-append, append_assoc,
  arith,
}
use memory_migration_cs.Timing.{TimingRecord, Row, sub64, row_of}
use memory_migration_cs.Bench.Csv.{
  newline, comma, print_bool, row_texts, join, header_names, strtoull,
}
use memory_migration_cs.Bench.Csv.Digits.{
  IsField, IsField-print_u64, Reads-print_u64, IsField-print_bool, IsField-print_rc, Reads,
}
use memory_migration_cs.Bench.Csv.Lines.{
  fgets, fields_from, after_number, CsvRow, Columns, columns_of, find_col, row_from,
}

abbrev pub OneLine : List ℕ → Type 0
OneLine = All (λ b. (b == newline) ≡ false)

-- A line that fits is read whole.
pub fgets-line :
    (n : ℕ) (text rest : List ℕ)
    → OneLine text
    → length text < n
    → fgets n (text ++ (newline ∷ rest)) ≡ (text ++ (newline ∷ []), rest)
unfolding fgets
fgets-line zero text rest h l = absurd (omega arith)
fgets-line (suc n) [] rest h l = refl
fgets-line (suc n) (b ∷ text) rest h l =
    rw (h.0)
      (ap (λ (x : List ℕ × List ℕ). (b ∷ x.0, x.1)) (fgets-line n text rest h.1 (omega arith)))

-- The columns that the header has.
abbrev pub columns : Columns
columns = record {
  lock = some 12;
  unmap = some 13;
  copy = some 14;
  remap = some 15;
  unlock = some 16;
  total = some 17;
  rocm = some 21;
  ro_swap = some 22;
}

pub columns_of-header : columns_of (join header_names ++ (newline ∷ [])) ≡ columns
unfolding columns_of find_col
columns_of-header = refl

-- The numbers that the texts of a row are read as.
abbrev Fields : List (List ℕ) → List ℕ → Type 0
Fields [] [] = Unit
Fields [] (v ∷ vs) = ⊥
Fields (t ∷ ts) [] = ⊥
Fields (t ∷ ts) (v ∷ vs) = Reads t v × Fields ts vs

-- An array with these numbers from an index on.
abbrev fill : ℕ → List ℕ → (ℕ → ℕ) → ℕ → ℕ
fill c [] f = f
fill c (v ∷ vs) f = fill (c + 1) vs (update f c v)

fields_from-join :
    (ts : List (List ℕ)) (vs : List ℕ) (c : ℕ) (f : ℕ → ℕ)
    → Fields ts vs
    → fields_from (length ts) c (join ts ++ (newline ∷ [])) f ≡ fill c vs f
unfolding fields_from
fields_from-join [] [] c f h = refl
fields_from-join [] (v ∷ vs) c f h = absurd h
fields_from-join (t ∷ ts) [] c f h = absurd h
fields_from-join (t ∷ []) (v ∷ []) c f h = ap (after_number (λ p' g. g) c f) (h.0 newline [] refl)
fields_from-join (t ∷ []) (v ∷ w ∷ vs) c f h = absurd (h.1)
fields_from-join (t ∷ u ∷ ts) (v ∷ vs) c f h =
    ap
      (λ (p : List ℕ).
        after_number (λ p' g. fields_from (length (u ∷ ts)) (c + 1) p' g) c f (strtoull p))
      (append_assoc t (comma ∷ join (u ∷ ts)) (newline ∷ []))
    ∙ ap (after_number (λ p' g. fields_from (length (u ∷ ts)) (c + 1) p' g) c f)
        (h.0 comma (join (u ∷ ts) ++ (newline ∷ [])) refl)
    ∙ fields_from-join (u ∷ ts) vs (c + 1) (update f c v) h.1

-- A row is one line, that fits.
pub OneLine-join : (ts : List (List ℕ)) → All IsField ts → OneLine (join ts)
OneLine-join [] h = tt
OneLine-join (t ∷ []) h = h.0.one_line
OneLine-join (t ∷ u ∷ ts) h =
    All-append (λ b. (b == newline) ≡ false) t (comma ∷ join (u ∷ ts)) h.0.one_line
      (refl, OneLine-join (u ∷ ts) h.1)

pub length_le-join : (ts : List (List ℕ)) → All IsField ts → length (join ts) ≤ 22 * length ts
length_le-join [] h = omega arith
length_le-join (t ∷ []) h = omega (arith, h.0.short)
length_le-join (t ∷ u ∷ ts) h =
    omega (arith, h.0.short, length-append t (comma ∷ join (u ∷ ts)), length_le-join (u ∷ ts) h.1)

abbrev pub bit : Bool → ℕ
bit b = if b then 1 else 0

-- What the benchmark keeps of a row.
abbrev pub csv_row_of : Row → CsvRow
csv_row_of r = record {
  lock_ns = r.lock_ns;
  unmap_ns = r.unmap_ns;
  copy_ns = r.copy_ns;
  remap_ns = r.remap_ns;
  unlock_ns = r.unlock_ns;
  total_ns = r.total_ns;
  ro_swap_ns = r.ro_swap_ns;
  rocm_path = bit r.source.rocm_path;
}

-- The durations have 64 bits.
pub record Is64 (r : Row) : Type 0 where
  lock : r.lock_ns < 2 ^ 64
  unmap : r.unmap_ns < 2 ^ 64
  copy : r.copy_ns < 2 ^ 64
  remap : r.remap_ns < 2 ^ 64
  unlock : r.unlock_ns < 2 ^ 64
  total : r.total_ns < 2 ^ 64
  ro_swap : r.ro_swap_ns < 2 ^ 64

sub64_lt : (a b : ℕ) → sub64 a b < 2 ^ 64
sub64_lt a b = omega arith

pub Is64-row_of : (r : TimingRecord) → Is64 (row_of r)
unfolding row_of
Is64-row_of r = record {
  lock = sub64_lt _ _;
  unmap = sub64_lt _ _;
  copy = sub64_lt _ _;
  remap = sub64_lt _ _;
  unlock = sub64_lt _ _;
  total = sub64_lt _ _;
  ro_swap = let small = sub64_lt r.ro_swap_end_ns r.ro_swap_start_ns in ground (arith, small);
}

pub IsField-row : (r : Row) → All IsField (row_texts r)
IsField-row r =
    let c = r.source in
    (
      IsField-print_u64 c.seq,
      (
        IsField-print_u64 c.cpu,
        (
          IsField-print_u64 c.pid,
          (
            IsField-print_u64 c.src_pfn,
            (
              IsField-print_u64 c.dst_pfn,
              (
                IsField-print_u64 c.page_order,
                (
                  IsField-print_u64 c.src_nid,
                  (
                    IsField-print_u64 c.dst_nid,
                    (
                      IsField-print_u64 c.mapcount,
                      (
                        IsField-print_bool c.is_anon,
                        (
                          IsField-print_bool c.page_was_mapped,
                          (
                            IsField-print_bool c.lock_contended,
                            (
                              IsField-print_u64 r.lock_ns,
                              (
                                IsField-print_u64 r.unmap_ns,
                                (
                                  IsField-print_u64 r.copy_ns,
                                  (
                                    IsField-print_u64 r.remap_ns,
                                    (
                                      IsField-print_u64 r.unlock_ns,
                                      (
                                        IsField-print_u64 r.total_ns,
                                        (
                                          IsField-print_u64 r.overhead_ns,
                                          (
                                            IsField-print_rc c.result,
                                            (
                                              IsField-print_u64 r.try_migrate_ns,
                                              (
                                                IsField-print_bool c.rocm_path,
                                                (IsField-print_u64 r.ro_swap_ns, tt),
                                              ),
                                            ),
                                          ),
                                        ),
                                      ),
                                    ),
                                  ),
                                ),
                              ),
                            ),
                          ),
                        ),
                      ),
                    ),
                  ),
                ),
              ),
            ),
          ),
        ),
      ),
    )

Reads-bool : (b : Bool) → Reads (print_bool b) (bit b)
unfolding strtoull
Reads-bool true c rest e = rw e refl
Reads-bool false c rest e = rw e refl

-- The numbers of a row, in the order of the columns.
abbrev row_values : Row → List ℕ
row_values r =
    let c = r.source in
    (IsField-print_u64 c.seq).read_as
    ∷ (IsField-print_u64 c.cpu).read_as
    ∷ (IsField-print_u64 c.pid).read_as
    ∷ (IsField-print_u64 c.src_pfn).read_as
    ∷ (IsField-print_u64 c.dst_pfn).read_as
    ∷ (IsField-print_u64 c.page_order).read_as
    ∷ (IsField-print_u64 c.src_nid).read_as
    ∷ (IsField-print_u64 c.dst_nid).read_as
    ∷ (IsField-print_u64 c.mapcount).read_as
    ∷ (IsField-print_bool c.is_anon).read_as
    ∷ (IsField-print_bool c.page_was_mapped).read_as
    ∷ (IsField-print_bool c.lock_contended).read_as
    ∷ r.lock_ns
    ∷ r.unmap_ns
    ∷ r.copy_ns
    ∷ r.remap_ns
    ∷ r.unlock_ns
    ∷ r.total_ns
    ∷ (IsField-print_u64 r.overhead_ns).read_as
    ∷ (IsField-print_rc c.result).read_as
    ∷ (IsField-print_u64 r.try_migrate_ns).read_as
    ∷ bit c.rocm_path
    ∷ r.ro_swap_ns
    ∷ []

Fields-row : (r : Row) → Is64 r → Fields (row_texts r) (row_values r)
Fields-row r h =
    let c = r.source in
    (
      (IsField-print_u64 c.seq).reads,
      (
        (IsField-print_u64 c.cpu).reads,
        (
          (IsField-print_u64 c.pid).reads,
          (
            (IsField-print_u64 c.src_pfn).reads,
            (
              (IsField-print_u64 c.dst_pfn).reads,
              (
                (IsField-print_u64 c.page_order).reads,
                (
                  (IsField-print_u64 c.src_nid).reads,
                  (
                    (IsField-print_u64 c.dst_nid).reads,
                    (
                      (IsField-print_u64 c.mapcount).reads,
                      (
                        (IsField-print_bool c.is_anon).reads,
                        (
                          (IsField-print_bool c.page_was_mapped).reads,
                          (
                            (IsField-print_bool c.lock_contended).reads,
                            (
                              Reads-print_u64 r.lock_ns h.lock,
                              (
                                Reads-print_u64 r.unmap_ns h.unmap,
                                (
                                  Reads-print_u64 r.copy_ns h.copy,
                                  (
                                    Reads-print_u64 r.remap_ns h.remap,
                                    (
                                      Reads-print_u64 r.unlock_ns h.unlock,
                                      (
                                        Reads-print_u64 r.total_ns h.total,
                                        (
                                          (IsField-print_u64 r.overhead_ns).reads,
                                          (
                                            (IsField-print_rc c.result).reads,
                                            (
                                              (IsField-print_u64 r.try_migrate_ns).reads,
                                              (
                                                Reads-bool c.rocm_path,
                                                (Reads-print_u64 r.ro_swap_ns h.ro_swap, tt),
                                              ),
                                            ),
                                          ),
                                        ),
                                      ),
                                    ),
                                  ),
                                ),
                              ),
                            ),
                          ),
                        ),
                      ),
                    ),
                  ),
                ),
              ),
            ),
          ),
        ),
      ),
    )

abbrev row_of_fields : (ℕ → ℕ) → CsvRow
row_of_fields fields = record {
  lock_ns = fields 12;
  unmap_ns = fields 13;
  copy_ns = fields 14;
  remap_ns = fields 15;
  unlock_ns = fields 16;
  total_ns = fields 17;
  ro_swap_ns = fields 22;
  rocm_path = fields 21 % 2 ^ 32;
}

bit-small : (b : Bool) → bit b % 2 ^ 32 ≡ bit b
bit-small true = refl
bit-small false = refl

abbrev pub read_row : List ℕ → CsvRow
read_row = row_from columns (record { lock = 12; unmap = 13; copy = 14; remap = 15; total = 17 }) 16

-- A line of the file gives the row that it was printed from.
pub read_row-join :
    (r : Row) → Is64 r → read_row (join (row_texts r) ++ (newline ∷ [])) ≡ csv_row_of r
unfolding row_from
read_row-join r h =
    ap row_of_fields (fields_from-join (row_texts r) (row_values r) 0 (λ c. 0) (Fields-row r h))
    ∙ ap (λ (n : ℕ). record (csv_row_of r) { rocm_path = n }) (bit-small r.source.rocm_path)
