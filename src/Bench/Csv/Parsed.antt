-- ===== src/Bench/Csv/Parsed.antt =====
-- The benchmark reads from debugfs/mig_timing what the kernel has measured.
use memory_migration_cs.Base.{
  ℕ, zero, suc, ◌+◌, ◌^◌, ◌≤◌, ◌<◌, min, ltb, ◌==◌, Bool, true, false, List, [], ◌∷◌, ◌++◌, ◌≡◌,
  inl, inr, refl, ap, ◌∙◌, if◌then◌else◌, length, map, Bool-cases, arith,
}
use memory_migration_cs.Timing.{
  TimingRecord, RecordBuffer, mig_timing_bufsize, row_of, rows_from, mig_timing_show,
}
use memory_migration_cs.Bench.Csv.{newline, row_texts, join, header_names, print_rows, print_csv}
use memory_migration_cs.Bench.Csv.Lines.{
  CsvRow, Columns, rows, rows_of_lines, parse_text, with_columns, required, parse_csv_file,
}
use memory_migration_cs.Bench.Csv.Rows.{
  OneLine, fgets-line, OneLine-join, length_le-join, csv_row_of, Is64-row_of, IsField-row,
  columns_of-header, read_row, read_row-join,
}

-- The first line, and the rest.
rows_of_lines-line :
    (row : List ℕ → CsvRow) (left : ℕ) (text rest : List ℕ)
    → OneLine text
    → length text < 2047
    → rows_of_lines row (suc left) (text ++ (newline ∷ rest))
      ≡ row (text ++ (newline ∷ [])) ∷ rows_of_lines row left rest
unfolding rows_of_lines
rows_of_lines-line row left [] rest h l =
    ap (λ (x : List ℕ × List ℕ). row x.0 ∷ rows_of_lines row left x.1) (fgets-line 2047 [] rest h l)
rows_of_lines-line row left (b ∷ text) rest h l =
    ap (λ (x : List ℕ × List ℕ). row x.0 ∷ rows_of_lines row left x.1)
      (fgets-line 2047 (b ∷ text) rest h l)

-- All rows, as many as there is room for.
rows_of_lines-print_rows :
    (left n i : ℕ) (slots : ℕ → TimingRecord)
    → n ≤ left
    → rows_of_lines read_row left (print_rows (rows_from slots i n))
      ≡ map csv_row_of (rows_from slots i n)
unfolding rows_of_lines rows_from
rows_of_lines-print_rows zero zero i slots l = refl
rows_of_lines-print_rows (suc left) zero i slots l = refl
rows_of_lines-print_rows zero (suc n) i slots l = absurd (omega arith)
rows_of_lines-print_rows (suc left) (suc n) i slots l =
    let r = row_of (slots i) in
    let fields = IsField-row r in
    rows_of_lines-line read_row left (join (row_texts r)) (print_rows (rows_from slots (i + 1) n))
      (OneLine-join (row_texts r) fields) (omega (arith, length_le-join (row_texts r) fields))
    ∙ ap (λ (x : CsvRow). x ∷ rows_of_lines read_row left (print_rows (rows_from slots (i + 1) n)))
        (read_row-join r (Is64-row_of (slots i)))
    ∙ ap (λ (xs : List CsvRow). csv_row_of r ∷ xs)
        (rows_of_lines-print_rows left n (i + 1) slots (omega (arith, l)))

abbrev pub header : List ℕ
header = join header_names

abbrev pub is_one_line : List ℕ → Bool
is_one_line [] = true
is_one_line (b ∷ bs) = let rest = is_one_line bs in if b == newline then false else rest

pub OneLine-is_one_line : (text : List ℕ) → is_one_line text ≡ true → OneLine text
OneLine-is_one_line [] h = tt
OneLine-is_one_line (b ∷ bs) h = elim (Bool-cases (b == newline)) [
  | inl e ↦ absurd (ground arith)
  | inr e ↦ (e, OneLine-is_one_line bs (ground arith))
]

-- What the benchmark reads from the file that the kernel has printed is, for each row and in their
-- order, the five durations, the total, the time of the swap and the mark of the ROCM path that the
-- row was printed from, whatever the buffer holds.
pub parse_csv_file-print_csv :
    (b : RecordBuffer) → parse_csv_file (print_csv b) ≡ rows (map csv_row_of (mig_timing_show b))
unfolding parse_csv_file print_csv mig_timing_show
parse_csv_file-print_csv b =
    let n = if ltb b.idx (2 ^ 31) then min b.idx mig_timing_bufsize else 0 in
    let text = print_rows (rows_from b.slots 0 n) in
    ap parse_text (fgets-line 2047 header text (OneLine-is_one_line header refl) (omega arith))
    ∙ ap (λ (k : Columns). with_columns k (required k.lock k.unmap k.copy k.remap k.total) text)
        columns_of-header
    ∙ ap rows (rows_of_lines-print_rows 16384 n 0 b.slots (ground arith))
