-- ===== src/Bench/Csv.antt =====
-- The text of debugfs/mig_timing, as `mig_timing_show` of arm64_files/migrate.c prints it and as
-- arm64_files/mig_bench_rocm.c reads it. A text is a list of bytes.
pub mod Digits
pub mod Lines
pub mod Rows
pub mod Parsed
use Prim.Native.Nat.{◌/◌}
use memory_migration_cs.Base.{
  ℕ, zero, suc, ◌+◌, ◌-◌, ◌*◌, ◌%◌, ◌^◌, max, min, leb, ltb, ◌==◌, ◌&&◌, ◌||◌, Bool, true, false,
  Option, none, some, List, [], ◌∷◌, ◌++◌, if◌then◌else◌, update, Errno, Rc, success, fail, eagain,
  ebusy, enomem, enosys, einval, eio, efault, enoent, enodev, eacces, eperm, esrch, eexist, other,
  take,
}
use memory_migration_cs.Timing.{Row, RecordBuffer, mig_timing_show}

abbrev pub newline : ℕ
newline = 10

abbrev pub comma : ℕ
comma = 44

abbrev pub minus : ℕ
minus = 45

abbrev pub is_digit : ℕ → Bool
is_digit b = leb 48 b && leb b 57

-- The decimal digits of a number, at most `fuel` of them: 20 do for 64 bits.
unfoldable pub decimal : (fuel n : ℕ) → List ℕ
decimal zero n = []
decimal (suc fuel) n =
    let front = decimal fuel (n / 10) in
    if ltb n 10 then (48 + n) ∷ [] else front ++ ((48 + n % 10) ∷ [])

-- `%llu`, and `%d` of a number that is not negative.
abbrev pub print_u64 : ℕ → List ℕ
print_u64 n = decimal 20 n

abbrev pub print_bool : Bool → List ℕ
print_bool b = if b then 49 ∷ [] else 48 ∷ []

-- The numbers of errors, in asm-generic/errno-base.h and errno.h.
abbrev pub errno_number : Errno → ℕ
errno_number eagain = 11
errno_number ebusy = 16
errno_number enomem = 12
errno_number enosys = 38
errno_number einval = 22
errno_number eio = 5
errno_number efault = 14
errno_number enoent = 2
errno_number enodev = 19
errno_number eacces = 13
errno_number eperm = 1
errno_number esrch = 3
errno_number eexist = 17
errno_number (other n) = n

-- `%d` of a result.
abbrev pub print_rc : Rc → List ℕ
print_rc success = 48 ∷ []
print_rc (fail e) = minus ∷ print_u64 (errno_number e)

-- The arguments of `seq_printf`, in order.
abbrev pub row_texts : Row → List (List ℕ)
row_texts r =
    let c = r.source in
    print_u64 c.seq
    ∷ print_u64 c.cpu
    ∷ print_u64 c.pid
    ∷ print_u64 c.src_pfn
    ∷ print_u64 c.dst_pfn
    ∷ print_u64 c.page_order
    ∷ print_u64 c.src_nid
    ∷ print_u64 c.dst_nid
    ∷ print_u64 c.mapcount
    ∷ print_bool c.is_anon
    ∷ print_bool c.page_was_mapped
    ∷ print_bool c.lock_contended
    ∷ print_u64 r.lock_ns
    ∷ print_u64 r.unmap_ns
    ∷ print_u64 r.copy_ns
    ∷ print_u64 r.remap_ns
    ∷ print_u64 r.unlock_ns
    ∷ print_u64 r.total_ns
    ∷ print_u64 r.overhead_ns
    ∷ print_rc c.result
    ∷ print_u64 r.try_migrate_ns
    ∷ print_bool c.rocm_path
    ∷ print_u64 r.ro_swap_ns
    ∷ []

-- Texts with commas between them.
abbrev pub join : List (List ℕ) → List ℕ
join [] = []
join (t ∷ []) = t
join (t ∷ u ∷ ts) = t ++ (comma ∷ join (u ∷ ts))

-- The names of the columns.
abbrev pub seq_name : List ℕ
seq_name = 115 ∷ 101 ∷ 113 ∷ []

abbrev pub cpu_name : List ℕ
cpu_name = 99 ∷ 112 ∷ 117 ∷ []

abbrev pub pid_name : List ℕ
pid_name = 112 ∷ 105 ∷ 100 ∷ []

abbrev pub src_pfn_name : List ℕ
src_pfn_name = 115 ∷ 114 ∷ 99 ∷ 95 ∷ 112 ∷ 102 ∷ 110 ∷ []

abbrev pub dst_pfn_name : List ℕ
dst_pfn_name = 100 ∷ 115 ∷ 116 ∷ 95 ∷ 112 ∷ 102 ∷ 110 ∷ []

abbrev pub page_order_name : List ℕ
page_order_name = 112 ∷ 97 ∷ 103 ∷ 101 ∷ 95 ∷ 111 ∷ 114 ∷ 100 ∷ 101 ∷ 114 ∷ []

abbrev pub src_nid_name : List ℕ
src_nid_name = 115 ∷ 114 ∷ 99 ∷ 95 ∷ 110 ∷ 105 ∷ 100 ∷ []

abbrev pub dst_nid_name : List ℕ
dst_nid_name = 100 ∷ 115 ∷ 116 ∷ 95 ∷ 110 ∷ 105 ∷ 100 ∷ []

abbrev pub mapcount_name : List ℕ
mapcount_name = 109 ∷ 97 ∷ 112 ∷ 99 ∷ 111 ∷ 117 ∷ 110 ∷ 116 ∷ []

abbrev pub is_anon_name : List ℕ
is_anon_name = 105 ∷ 115 ∷ 95 ∷ 97 ∷ 110 ∷ 111 ∷ 110 ∷ []

abbrev pub page_was_mapped_name : List ℕ
page_was_mapped_name =
    112 ∷ 97 ∷ 103 ∷ 101 ∷ 95 ∷ 119 ∷ 97 ∷ 115 ∷ 95 ∷ 109 ∷ 97 ∷ 112 ∷ 112 ∷ 101 ∷ 100 ∷ []

abbrev pub lock_contended_name : List ℕ
lock_contended_name =
    108 ∷ 111 ∷ 99 ∷ 107 ∷ 95 ∷ 99 ∷ 111 ∷ 110 ∷ 116 ∷ 101 ∷ 110 ∷ 100 ∷ 101 ∷ 100 ∷ []

abbrev pub lock_ns_name : List ℕ
lock_ns_name = 108 ∷ 111 ∷ 99 ∷ 107 ∷ 95 ∷ 110 ∷ 115 ∷ []

abbrev pub unmap_ns_name : List ℕ
unmap_ns_name = 117 ∷ 110 ∷ 109 ∷ 97 ∷ 112 ∷ 95 ∷ 110 ∷ 115 ∷ []

abbrev pub copy_ns_name : List ℕ
copy_ns_name = 99 ∷ 111 ∷ 112 ∷ 121 ∷ 95 ∷ 110 ∷ 115 ∷ []

abbrev pub remap_ns_name : List ℕ
remap_ns_name = 114 ∷ 101 ∷ 109 ∷ 97 ∷ 112 ∷ 95 ∷ 110 ∷ 115 ∷ []

abbrev pub unlock_ns_name : List ℕ
unlock_ns_name = 117 ∷ 110 ∷ 108 ∷ 111 ∷ 99 ∷ 107 ∷ 95 ∷ 110 ∷ 115 ∷ []

abbrev pub total_ns_name : List ℕ
total_ns_name = 116 ∷ 111 ∷ 116 ∷ 97 ∷ 108 ∷ 95 ∷ 110 ∷ 115 ∷ []

abbrev pub overhead_ns_name : List ℕ
overhead_ns_name = 111 ∷ 118 ∷ 101 ∷ 114 ∷ 104 ∷ 101 ∷ 97 ∷ 100 ∷ 95 ∷ 110 ∷ 115 ∷ []

abbrev pub result_name : List ℕ
result_name = 114 ∷ 101 ∷ 115 ∷ 117 ∷ 108 ∷ 116 ∷ []

abbrev pub try_migrate_ns_name : List ℕ
try_migrate_ns_name =
    116 ∷ 114 ∷ 121 ∷ 95 ∷ 109 ∷ 105 ∷ 103 ∷ 114 ∷ 97 ∷ 116 ∷ 101 ∷ 95 ∷ 110 ∷ 115 ∷ []

abbrev pub rocm_path_name : List ℕ
rocm_path_name = 114 ∷ 111 ∷ 99 ∷ 109 ∷ 95 ∷ 112 ∷ 97 ∷ 116 ∷ 104 ∷ []

abbrev pub ro_swap_ns_name : List ℕ
ro_swap_ns_name = 114 ∷ 111 ∷ 95 ∷ 115 ∷ 119 ∷ 97 ∷ 112 ∷ 95 ∷ 110 ∷ 115 ∷ []

abbrev pub header_names : List (List ℕ)
header_names =
    seq_name ∷ cpu_name ∷ pid_name ∷ src_pfn_name ∷ dst_pfn_name ∷ page_order_name ∷ src_nid_name
    ∷ dst_nid_name ∷ mapcount_name ∷ is_anon_name ∷ page_was_mapped_name ∷ lock_contended_name
    ∷ lock_ns_name ∷ unmap_ns_name ∷ copy_ns_name ∷ remap_ns_name ∷ unlock_ns_name ∷ total_ns_name
    ∷ overhead_ns_name ∷ result_name ∷ try_migrate_ns_name ∷ rocm_path_name ∷ ro_swap_ns_name ∷ []

-- A line for each row.
abbrev pub print_rows : List Row → List ℕ
print_rows [] = []
print_rows (r ∷ rs) = join (row_texts r) ++ (newline ∷ print_rows rs)

-- The whole file.
unfoldable pub print_csv : RecordBuffer → List ℕ
unfolding mig_timing_show
print_csv b = join header_names ++ (newline ∷ print_rows (mig_timing_show b))

-- `strtoull`: the digits in front, and what follows them.
abbrev pub digits : List ℕ → ℕ → ℕ × List ℕ
digits [] acc = (acc, [])
digits (b ∷ bs) acc =
    let rest = digits bs (acc * 10 + (b - 48)) in if is_digit b then rest else (acc, b ∷ bs)

-- The largest number of 64 bits stands for those that are larger.
abbrev pub saturated : ℕ × List ℕ → ℕ × List ℕ
saturated (v, bs) = (min v (2 ^ 64 - 1), bs)

abbrev pub negated : ℕ × List ℕ → ℕ × List ℕ
negated (v, bs) = (if ltb v (2 ^ 64) then (2 ^ 64 - v) % 2 ^ 64 else 2 ^ 64 - 1, bs)

-- Behind a sign there must be a digit; else the whole text is left.
abbrev pub signed : List ℕ → (ℕ × List ℕ → ℕ × List ℕ) → List ℕ → ℕ × List ℕ
signed text sign [] = (0, text)
signed text sign (b ∷ bs) = if is_digit b then sign (digits (b ∷ bs) 0) else (0, text)

abbrev pub is_space : ℕ → Bool
is_space b = b == 32 || (leb 9 b && leb b 13)

abbrev pub skip_spaces : List ℕ → List ℕ
skip_spaces [] = []
skip_spaces (b ∷ bs) = let rest = skip_spaces bs in if is_space b then rest else b ∷ bs

abbrev pub number : List ℕ → List ℕ → ℕ × List ℕ
number text [] = (0, text)
number text (b ∷ bs) =
    if b == minus
    then signed text negated bs
    else if b == 43
    then signed text saturated bs
    else signed text saturated (b ∷ bs)

unfoldable pub strtoull : List ℕ → ℕ × List ℕ
strtoull text = number text (skip_spaces text)
