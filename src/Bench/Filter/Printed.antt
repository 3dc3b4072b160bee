-- ===== src/Bench/Filter/Printed.antt =====
-- What `timing_read_filtered` (arm64_files/mig_bench.c) writes of a file that the kernel has printed.
use memory_migration_cs.Base.{
  ℕ, zero, suc, ◌+◌, ◌-◌, ◌*◌, ◌%◌, ◌^◌, ◌≤◌, ◌<◌, min, ltb, ◌==◌, Bool, true, false, List, [], ◌∷◌,
  ◌++◌, ◌≡◌, refl, sym, ap, ◌∙◌, subst, if◌then◌else◌, length, length-append, All, All-map,
  append-nil, append_assoc, take, arith,
}
use memory_migration_cs.Timing.{
  TimingRecord, Row, RecordBuffer, row_of, rows_from, mig_timing_show, mig_timing_bufsize,
}
use memory_migration_cs.Bench.Csv.{
  newline, comma, minus, is_space, decimal, print_u64, row_texts, join, print_rows, print_csv,
  digits,
}
use memory_migration_cs.Bench.Csv.Digits.{
  IsDigit, IsDigit-decimal, positive-decimal, value, value-decimal,
}
use memory_migration_cs.Bench.Csv.Lines.{end_token, tokens_from}
use memory_migration_cs.Bench.Csv.Rows.{
  OneLine, fgets-line, OneLine-join, length_le-join, IsField-row,
}
use memory_migration_cs.Bench.Csv.Parsed.{header, OneLine-is_one_line}
use memory_migration_cs.Bench.Filter.{
  positive_int, atoi, field_at, order_in, order_of, filter_lines, timing_read_filtered, with_order,
}

-- A text that `strtok` finds whole.
abbrev IsToken : List ℕ → Type 0
IsToken t = (1 ≤ length t) × All (λ b. (b == comma) ≡ false) t

tokens_from-comma :
    (t token rest : List ℕ)
    → All (λ b. (b == comma) ≡ false) t
    → tokens_from token (t ++ (comma ∷ rest)) ≡ end_token (token ++ t) (tokens_from [] rest)
tokens_from-comma [] token rest h =
    ap (λ (x : List ℕ). end_token x (tokens_from [] rest)) (sym (append-nil token))
tokens_from-comma (b ∷ t) token rest h = rw (h.0) (
    tokens_from-comma t (token ++ (b ∷ [])) rest h.1
    ∙ ap (λ (x : List ℕ). end_token x (tokens_from [] rest)) (append_assoc token (b ∷ []) t))

end_token-first : (t : List ℕ) (ts : List (List ℕ)) → 1 ≤ length t → end_token t ts ≡ t ∷ ts
end_token-first [] ts h = absurd (omega arith)
end_token-first (b ∷ t) ts h = refl

tokens_from-join :
    (t u : List ℕ) (ts : List (List ℕ))
    → IsToken t
    → tokens_from [] (join (t ∷ u ∷ ts) ++ (newline ∷ []))
      ≡ t ∷ tokens_from [] (join (u ∷ ts) ++ (newline ∷ []))
tokens_from-join t u ts h =
    ap (tokens_from []) (append_assoc t (comma ∷ join (u ∷ ts)) (newline ∷ []))
    ∙ tokens_from-comma t [] (join (u ∷ ts) ++ (newline ∷ [])) h.1
    ∙ end_token-first t _ h.0

IsToken-print_u64 : (n : ℕ) → IsToken (print_u64 n)
IsToken-print_u64 n = (
  positive-decimal 19 n,
  All-map (decimal 20 n) (λ b d. ground (arith, d)) (IsDigit-decimal 20 n),
)

-- `atoi` reads what `%d` has printed.
digits_whole : (ds : List ℕ) (acc : ℕ) → All IsDigit ds → digits ds acc ≡ (value ds acc, [])
digits_whole [] acc h = refl
digits_whole (d ∷ ds) acc h = rw (h.0) (digits_whole ds (acc * 10 + (d - 48)) h.1)

atoi-digits :
    (ds : List ℕ)
    → All IsDigit ds
    → 1 ≤ length ds
    → atoi ds ≡ min (value ds 0) (2 ^ 63 - 1) % 2 ^ 32
unfolding atoi
atoi-digits [] h l = absurd (omega arith)
atoi-digits (d ∷ ds) h l =
    let plain : is_space d ≡ false = ground (arith, h.0) in
    let unsigned : (d == minus) ≡ false = ground (arith, h.0) in
    let no_plus : (d == 43) ≡ false = ground (arith, h.0) in
    rw (plain, atoi)
      (rw unsigned (
        rw no_plus (
          rw (h.0) (
            ap (λ (x : ℕ × List ℕ). (positive_int x).0)
              (digits_whole ds (0 * 10 + (d - 48)) h.1)))))

atoi-print_u64 : (n : ℕ) → n < 2 ^ 31 → atoi (print_u64 n) ≡ n
atoi-print_u64 n l =
    atoi-digits (decimal 20 n) (IsDigit-decimal 20 n) (positive-decimal 19 n)
    ∙ omega (arith, value-decimal 20 n (omega arith))

take_whole : (n : ℕ) (xs : List ℕ) → length xs ≤ n → take n xs ≡ xs
take_whole zero [] h = refl
take_whole zero (x ∷ xs) h = absurd (omega arith)
take_whole (suc n) [] h = refl
take_whole (suc n) (x ∷ xs) h = ap (λ (l : List ℕ). x ∷ l) (take_whole n xs (omega arith))

-- A row with its newline.
abbrev line_of : Row → List ℕ
line_of r = join (row_texts r) ++ (newline ∷ [])

length-line_of : (r : Row) → length (join (row_texts r)) ≤ 506
length-line_of r = omega (arith, length_le-join (row_texts r) (IsField-row r))

-- The first texts up to an index are tokens, and one more text follows.
abbrev Tokens : ℕ → List (List ℕ) → Type 0
Tokens n [] = ⊥
Tokens n (t ∷ []) = ⊥
Tokens zero (t ∷ u ∷ ts) = IsToken t
Tokens (suc n) (t ∷ u ∷ ts) = IsToken t × Tokens n (u ∷ ts)

field_at-join :
    (n : ℕ) (ts : List (List ℕ))
    → Tokens n ts
    → field_at n (tokens_from [] (join ts ++ (newline ∷ []))) ≡ field_at n ts
field_at-join n [] h = absurd h
field_at-join n (t ∷ []) h = absurd h
field_at-join zero (t ∷ u ∷ ts) h = ap (field_at 0) (tokens_from-join t u ts h)
field_at-join (suc n) (t ∷ u ∷ ts) h =
    ap (field_at (suc n)) (tokens_from-join t u ts h.0) ∙ field_at-join n (u ∷ ts) h.1

-- The sixth column of a row is the order.
order_of-line_of :
    (r : Row) → r.source.page_order < 2 ^ 31 → order_of (line_of r) ≡ r.source.page_order
unfolding order_of
order_of-line_of r l =
    let c = r.source in
    let short : length (line_of r) ≤ 1023 =
      omega (arith, length-line_of r, length-append (join (row_texts r)) (newline ∷ [])) in
    ap (λ (x : List ℕ). order_in (field_at 5 (tokens_from [] x)))
      (take_whole 1023 (line_of r) short)
    ∙ ap order_in (
        field_at-join 5 (row_texts r) (
          IsToken-print_u64 c.seq,
          (
            IsToken-print_u64 c.cpu,
            (
              IsToken-print_u64 c.pid,
              (
                IsToken-print_u64 c.src_pfn,
                (IsToken-print_u64 c.dst_pfn, IsToken-print_u64 c.page_order),
              ),
            ),
          ),
        ))
    ∙ atoi-print_u64 c.page_order l

-- One line, which is written or not.
filter_lines-line :
    (target fuel : ℕ) (text rest : List ℕ)
    → OneLine text
    → length text < 1023
    → filter_lines target (suc fuel) (text ++ (newline ∷ rest)) ≡ (
        if order_of (text ++ (newline ∷ [])) == target
        then (text ++ (newline ∷ [])) ++ filter_lines target fuel rest
        else filter_lines target fuel rest)
unfolding filter_lines
filter_lines-line target fuel [] rest h l =
    ap
      (λ (x : List ℕ × List ℕ).
        if order_of x.0 == target
        then x.0 ++ filter_lines target fuel x.1
        else filter_lines target fuel x.1)
      (fgets-line 1023 [] rest h l)
filter_lines-line target fuel (b ∷ text) rest h l =
    ap
      (λ (x : List ℕ × List ℕ).
        if order_of x.0 == target
        then x.0 ++ filter_lines target fuel x.1
        else filter_lines target fuel x.1)
      (fgets-line 1023 (b ∷ text) rest h l)

source-row_of : (r : TimingRecord) → (row_of r).source ≡ r
unfolding row_of
source-row_of r = refl

-- A row that is written, or not.
print_rows-if :
    (c : Bool) (r : Row) (rs : List Row) (text : List ℕ)
    → text ≡ print_rows rs
    → (if c then line_of r ++ text else text) ≡ print_rows (if c then r ∷ rs else rs)
print_rows-if true r rs text e =
    append_assoc (join (row_texts r)) (newline ∷ []) text
    ∙ ap (λ (x : List ℕ). join (row_texts r) ++ (newline ∷ x)) e
print_rows-if false r rs text e = e

filter_lines-print_rows :
    (target fuel n i : ℕ) (slots : ℕ → TimingRecord)
    → ((j : ℕ) → (slots j).page_order < 2 ^ 31)
    → n ≤ fuel
    → filter_lines target fuel (print_rows (rows_from slots i n))
      ≡ print_rows (with_order target (rows_from slots i n))
unfolding filter_lines rows_from
filter_lines-print_rows target zero zero i slots small l = refl
filter_lines-print_rows target (suc fuel) zero i slots small l = refl
filter_lines-print_rows target zero (suc n) i slots small l = absurd (omega arith)
filter_lines-print_rows target (suc fuel) (suc n) i slots small l =
    let r = row_of (slots i) in
    let text = print_rows (rows_from slots (i + 1) n) in
    let again = filter_lines-print_rows target fuel n (i + 1) slots small (omega (arith, l)) in
    filter_lines-line target fuel (join (row_texts r)) text
      (OneLine-join (row_texts r) (IsField-row r)) (omega (arith, length-line_of r))
    ∙ ap
        (λ (o : ℕ).
          if o == target
          then line_of r ++ filter_lines target fuel text
          else filter_lines target fuel text)
        (order_of-line_of r (
          subst (λ (x : TimingRecord). x.page_order < 2 ^ 31) (sym (source-row_of (slots i)))
            (small i)))
    ∙ print_rows-if (r.source.page_order == target) r
        (with_order target (rows_from slots (i + 1) n)) (filter_lines target fuel text) again

length_le-print_rows : (rs : List Row) → length rs ≤ length (print_rows rs)
length_le-print_rows [] = omega arith
length_le-print_rows (r ∷ rs) =
    omega
      (arith, length-append (join (row_texts r)) (newline ∷ print_rows rs), length_le-print_rows rs)

length-rows_from : (slots : ℕ → TimingRecord) (i n : ℕ) → length (rows_from slots i n) ≡ n
unfolding rows_from
length-rows_from slots i zero = refl
length-rows_from slots i (suc n) = ap suc (length-rows_from slots (i + 1) n)

-- From what the kernel prints of a buffer the filter writes the header and the rows of the pages of
-- the order that is asked for, all of them and in their order, as they were printed. This holds of
-- buffers whose orders are numbers that an `int` can have.
pub timing_read_filtered-print_csv :
    (target : ℕ) (b : RecordBuffer)
    → ((j : ℕ) → (b.slots j).page_order < 2 ^ 31)
    → timing_read_filtered target (print_csv b)
      ≡ header ++ (newline ∷ print_rows (with_order target (mig_timing_show b)))
unfolding timing_read_filtered print_csv mig_timing_show
timing_read_filtered-print_csv target b small =
    let n = if ltb b.idx (2 ^ 31) then min b.idx mig_timing_bufsize else 0 in
    let rows = rows_from b.slots 0 n in
    let text = header ++ (newline ∷ print_rows rows) in
    let enough : n ≤ length text = omega (
      arith,
      length-append header (newline ∷ print_rows rows),
      length_le-print_rows rows,
      length-rows_from b.slots 0 n,
    ) in
    ap (λ (x : List ℕ × List ℕ). x.0 ++ filter_lines target (length text) x.1)
      (fgets-line 1023 header (print_rows rows) (OneLine-is_one_line header refl) (omega arith))
    ∙ ap (λ (x : List ℕ). (header ++ (newline ∷ [])) ++ x)
        (filter_lines-print_rows target (length text) n 0 b.slots small enough)
    ∙ append_assoc header (newline ∷ []) (print_rows (with_order target rows))
