-- ===== src/Bench/Csv/Lines.antt =====
-- `parse_csv_file` of arm64_files/mig_bench_rocm.c, from the bytes of a file to its rows.
use memory_migration_cs.Base.{
  ℕ, zero, suc, ◌+◌, ◌%◌, ◌^◌, max, ◌==◌, Bool, true, false, Option, none, some, List, [], ◌∷◌,
  ◌++◌, if◌then◌else◌, update, take,
}
use memory_migration_cs.Bench.Csv.{
  newline, comma, strtoull, lock_ns_name, unmap_ns_name, copy_ns_name, remap_ns_name,
  unlock_ns_name, total_ns_name, rocm_path_name, ro_swap_ns_name,
}

-- `fgets` with room for so many bytes besides the 0: a line with its newline, and the rest.
unfoldable pub fgets : ℕ → List ℕ → List ℕ × List ℕ
fgets zero bs = ([], bs)
fgets (suc n) [] = ([], [])
fgets (suc n) (b ∷ bs) =
    let (line, rest) = fgets n bs in if b == newline then (b ∷ [], bs) else (b ∷ line, rest)

-- The line without its newline.
abbrev pub strip : List ℕ → List ℕ
strip [] = []
strip (b ∷ bs) = let rest = strip bs in if b == newline then [] else b ∷ rest

-- `strcmp(a, b) == 0`.
abbrev pub same_text : List ℕ → List ℕ → Bool
same_text [] [] = true
same_text [] (y ∷ ys) = false
same_text (x ∷ xs) [] = false
same_text (x ∷ xs) (y ∷ ys) = let rest = same_text xs ys in if x == y then rest else false

-- The tokens of `strtok` at commas, none of them empty; `token` is the one being read, reversed.
abbrev pub end_token : List ℕ → List (List ℕ) → List (List ℕ)
end_token [] ts = ts
end_token (b ∷ bs) ts = ((b ∷ bs) ∷ ts)

abbrev pub tokens_from : (token : List ℕ) → List ℕ → List (List ℕ)
tokens_from token [] = end_token token []
tokens_from token (b ∷ bs) =
    let next = tokens_from [] bs in
    let more = tokens_from (token ++ (b ∷ [])) bs in
    if b == comma then end_token token next else more

abbrev pub index_of : List ℕ → (idx : ℕ) → List (List ℕ) → Option ℕ
index_of name idx [] = none
index_of name idx (t ∷ ts) =
    let rest = index_of name (idx + 1) ts in if same_text t name then some idx else rest

-- `none` is the index -1.
unfoldable pub find_col : List ℕ → List ℕ → Option ℕ
find_col header name = index_of name 0 (tokens_from [] (strip (take 1023 header)))

pub record CsvRow : Type 0 where
  pub lock_ns : ℕ
  pub unmap_ns : ℕ
  pub copy_ns : ℕ
  pub remap_ns : ℕ
  pub unlock_ns : ℕ
  pub total_ns : ℕ
  pub ro_swap_ns : ℕ
  pub rocm_path : ℕ

-- The eight column indices.
pub record Columns : Type 0 where
  pub lock : Option ℕ
  pub unmap : Option ℕ
  pub copy : Option ℕ
  pub remap : Option ℕ
  pub unlock : Option ℕ
  pub total : Option ℕ
  pub rocm : Option ℕ
  pub ro_swap : Option ℕ

unfoldable pub columns_of : List ℕ → Columns
unfolding find_col
columns_of line = record {
  lock = find_col line lock_ns_name;
  unmap = find_col line unmap_ns_name;
  copy = find_col line copy_ns_name;
  remap = find_col line remap_ns_name;
  unlock = find_col line unlock_ns_name;
  total = find_col line total_ns_name;
  rocm = find_col line rocm_path_name;
  ro_swap = find_col line ro_swap_ns_name;
}

-- Behind a number: at a comma the loop goes on, and at any other byte it ends.
abbrev pub after_number : (next : List ℕ → (ℕ → ℕ) → ℕ → ℕ) → (c : ℕ) → (ℕ → ℕ) → ℕ × List ℕ → ℕ → ℕ
after_number next c fields (v, []) = update fields c v
after_number next c fields (v, e ∷ p) =
    if e == comma then next p (update fields c v) else update fields c v

-- The loop over the fields of a line, with `left` columns to go.
unfoldable pub fields_from : (left c : ℕ) → List ℕ → (ℕ → ℕ) → ℕ → ℕ
fields_from zero c p fields = fields
fields_from (suc left) c p fields =
    after_number (λ p' f. fields_from left (c + 1) p' f) c fields (strtoull p)

-- The number of columns that are looked into.
abbrev pub max_with : Option ℕ → ℕ → ℕ
max_with none m = m
max_with (some c) m = max c m

abbrev pub column_count : Columns → ℕ
column_count k =
    1
    + max_with k.ro_swap (
        max_with k.rocm (
          max_with k.total (
            max_with k.unlock
              (max_with k.remap (max_with k.copy (max_with k.unmap (max_with k.lock 0)))))))

-- A column that an old kernel does not have counts as 0.
abbrev pub field_or_zero : (ℕ → ℕ) → Option ℕ → ℕ
field_or_zero fields none = 0
field_or_zero fields (some c) = fields c

-- What comes of a file: an error, a read in front of the array of fields, or rows.
pub data Parsed : Type 0 where
  bad_file : Parsed
  out_of_bounds : Parsed
  rows : List CsvRow → Parsed

-- The columns that must be there, with the column `unlock_ns` as it was found.
pub record Required : Type 0 where
  pub lock : ℕ
  pub unmap : ℕ
  pub copy : ℕ
  pub remap : ℕ
  pub total : ℕ

unfoldable pub row_from : Columns → Required → (unlock : ℕ) → List ℕ → CsvRow
unfolding fields_from
row_from k q unlock line =
    let fields = fields_from (column_count k) 0 line (λ c. 0) in
    record {
      lock_ns = fields q.lock;
      unmap_ns = fields q.unmap;
      copy_ns = fields q.copy;
      remap_ns = fields q.remap;
      unlock_ns = fields unlock;
      total_ns = fields q.total;
      ro_swap_ns = field_or_zero fields k.ro_swap;
      rocm_path = field_or_zero fields k.rocm % 2 ^ 32;
    }

-- The lines, 16384 at most.
unfoldable pub rows_of_lines : (row : List ℕ → CsvRow) → (left : ℕ) → List ℕ → List CsvRow
unfolding fgets
rows_of_lines row zero text = []
rows_of_lines row (suc left) [] = []
rows_of_lines row (suc left) (b ∷ bs) =
    let (line, rest) = fgets 2047 (b ∷ bs) in row line ∷ rows_of_lines row left rest

-- `fields[col_unlock]`, where the header may not have had the column.
abbrev pub parse_rows : Columns → Required → Option ℕ → List ℕ → Parsed
parse_rows k q (some unlock) text = rows (rows_of_lines (row_from k q unlock) 16384 text)
parse_rows k q none [] = rows []
parse_rows k q none (b ∷ bs) = out_of_bounds

-- The test of the columns `lock_ns`, `unmap_ns`, `copy_ns`, `remap_ns` and `total_ns`.
abbrev pub required : Option ℕ → Option ℕ → Option ℕ → Option ℕ → Option ℕ → Option Required
required (some l) (some u) (some c) (some r) (some t) =
    some (record { lock = l; unmap = u; copy = c; remap = r; total = t })
required l u c r t = none

abbrev pub with_columns : Columns → Option Required → List ℕ → Parsed
with_columns k none text = bad_file
with_columns k (some q) text = parse_rows k q k.unlock text

abbrev pub parse_text : List ℕ × List ℕ → Parsed
parse_text ([], text) = bad_file
parse_text (b ∷ line, text) =
    let k = columns_of (b ∷ line) in
    with_columns k (required k.lock k.unmap k.copy k.remap k.total) text

-- The file, which is there and can be read.
unfoldable pub parse_csv_file : List ℕ → Parsed
unfolding columns_of fgets row_from rows_of_lines
parse_csv_file text = parse_text (fgets 2047 text)
