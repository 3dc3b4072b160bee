-- ===== src/Bench/Filter.antt =====
-- `timing_read_filtered` of arm64_files/mig_bench.c: the rows of debugfs/mig_timing for pages of
-- one order.
pub mod Printed
use memory_migration_cs.Base.{
  ℕ, zero, suc, ◌+◌, ◌-◌, ◌*◌, ◌%◌, ◌^◌, ◌≤◌, ◌<◌, min, ltb, leb, ◌&&◌, ◌==◌, Bool, true, false,
  Option, none, some, List, [], ◌∷◌, ◌++◌, ◌≡◌, ◌≢◌, inl, inr, refl, sym, ap, ◌∙◌, subst,
  if◌then◌else◌, length, length-append, All, All-map, append-nil, append_assoc, take, Bool-cases,
  arith,
}
use memory_migration_cs.Timing.{
  TimingRecord, Row, RecordBuffer, row_of, rows_from, mig_timing_show, mig_timing_bufsize,
}
use memory_migration_cs.Bench.Csv.{
  newline, comma, minus, is_digit, is_space, decimal, print_u64, row_texts, join, print_rows,
  print_csv, digits, signed, skip_spaces,
}
use memory_migration_cs.Bench.Csv.Digits.{
  IsDigit, IsDigit-decimal, positive-decimal, value, value-decimal, pow10,
}
use memory_migration_cs.Bench.Csv.Lines.{fgets, end_token, tokens_from}

-- `atoi`: `strtol` saturates at 63 bits, and an `int` keeps the low 32 bits of it.
abbrev pub positive_int : ℕ × List ℕ → ℕ × List ℕ
positive_int (v, bs) = (min v (2 ^ 63 - 1) % 2 ^ 32, bs)

abbrev pub negative_int : ℕ × List ℕ → ℕ × List ℕ
negative_int (v, bs) = ((2 ^ 64 - min v (2 ^ 63)) % 2 ^ 32, bs)

abbrev pub int_of : List ℕ → ℕ × List ℕ
int_of [] = (0, [])
int_of (b ∷ bs) =
    if b == minus
    then signed bs negative_int bs
    else if b == 43
    then signed bs positive_int bs
    else signed bs positive_int (b ∷ bs)

unfoldable pub atoi : List ℕ → ℕ
atoi text = (int_of (skip_spaces text)).0

-- The loop over the tokens.
abbrev pub field_at : ℕ → List (List ℕ) → Option (List ℕ)
field_at n [] = none
field_at zero (t ∷ ts) = some t
field_at (suc n) (t ∷ ts) = field_at n ts

-- -1 if there is no field 5.
abbrev pub order_in : Option (List ℕ) → ℕ
order_in none = 2 ^ 32 - 1
order_in (some t) = atoi t

unfoldable pub order_of : List ℕ → ℕ
order_of line = order_in (field_at 5 (tokens_from [] (take 1023 line)))

-- The lines behind the header, `fuel` of them at most: those of the order are written.
unfoldable pub filter_lines : (target fuel : ℕ) → List ℕ → List ℕ
unfolding order_of
filter_lines target zero text = []
filter_lines target (suc fuel) [] = []
filter_lines target (suc fuel) (b ∷ bs) =
    let (line, text) = fgets 1023 (b ∷ bs) in
    let rest = filter_lines target fuel text in
    if order_of line == target then line ++ rest else rest

-- What is written, of what is read. Each line has a byte at least.
unfoldable pub timing_read_filtered : (target : ℕ) → List ℕ → List ℕ
unfolding filter_lines
timing_read_filtered target text =
    let (line, rest) = fgets 1023 text in line ++ filter_lines target (length text) rest

-- The rows of an order.
abbrev pub with_order : ℕ → List Row → List Row
with_order target [] = []
with_order target (r ∷ rs) =
    let rest = with_order target rs in if r.source.page_order == target then r ∷ rest else rest
