-- ===== src/Bench/Csv/Digits.antt =====
-- `strtoull` reads what `%llu` has printed.
use Prim.Native.Nat.{◌/◌}
use memory_migration_cs.Base.{
  ℕ, zero, suc, ◌+◌, ◌-◌, ◌*◌, ◌%◌, ◌^◌, ◌≤◌, ◌<◌, min, ltb, ◌==◌, Bool, true, false, List, [], ◌∷◌,
  ◌++◌, ◌≡◌, inl, inr, refl, ap, subst, length, length-append, All, All-append, All-map, Bool-cases,
  arith, Rc, success, fail,
}
use memory_migration_cs.Bench.Csv.{
  is_digit, is_space, decimal, print_u64, print_bool, print_rc, errno_number, minus, newline,
  digits, saturated, negated, strtoull,
}

abbrev pub IsDigit : ℕ → Type 0
IsDigit b = is_digit b ≡ true

-- The number that digits stand for, behind those of `acc`.
abbrev pub value : List ℕ → ℕ → ℕ
value [] acc = acc
value (b ∷ bs) acc = value bs (acc * 10 + (b - 48))

abbrev pub pow10 : ℕ → ℕ
pow10 zero = 1
pow10 (suc n) = 10 * pow10 n

IsDigit-48 : (n : ℕ) → n < 10 → IsDigit (48 + n)
IsDigit-48 n l = ground arith

pub IsDigit-decimal : (fuel n : ℕ) → All IsDigit (decimal fuel n)
unfolding decimal
IsDigit-decimal zero n = tt
IsDigit-decimal (suc fuel) n = elim (Bool-cases (ltb n 10)) [
  | inl e ↦ rw (e, decimal) (IsDigit-48 n (ground arith), tt)
  | inr e ↦
      rw (e, decimal)
        (All-append IsDigit (decimal fuel (n / 10)) _ (IsDigit-decimal fuel (n / 10))
          (IsDigit-48 (n % 10) (omega arith), tt))
]

length_le-decimal : (fuel n : ℕ) → length (decimal fuel n) ≤ fuel
unfolding decimal
length_le-decimal zero n = omega arith
length_le-decimal (suc fuel) n = elim (Bool-cases (ltb n 10)) [
  | inl e ↦ rw (e, decimal) (omega arith)
  | inr e ↦
      rw (e, decimal)
        (omega (
          arith,
          length-append (decimal fuel (n / 10)) ((48 + n % 10) ∷ []),
          length_le-decimal fuel (n / 10),
        ))
]

value-append : (xs : List ℕ) (b acc : ℕ) → value (xs ++ (b ∷ [])) acc ≡ value xs acc * 10 + (b - 48)
value-append [] b acc = refl
value-append (x ∷ xs) b acc = value-append xs b (acc * 10 + (x - 48))

pub value-decimal : (fuel n : ℕ) → n < pow10 fuel → value (decimal fuel n) 0 ≡ n
unfolding decimal
value-decimal zero n l = omega arith
value-decimal (suc fuel) n l = elim (Bool-cases (ltb n 10)) [
  | inl e ↦ rw (e, decimal) (omega arith)
  | inr e ↦
      rw (e, decimal)
        (omega (
          arith,
          value-append (decimal fuel (n / 10)) (48 + n % 10) 0,
          value-decimal fuel (n / 10) (omega arith),
        ))
]

-- All digits are read, up to a byte that is none.
digits-append :
    (ds : List ℕ) (b : ℕ) (rest : List ℕ) (acc : ℕ)
    → All IsDigit ds
    → is_digit b ≡ false
    → digits (ds ++ (b ∷ rest)) acc ≡ (value ds acc, b ∷ rest)
digits-append [] b rest acc h e = rw e refl
digits-append (d ∷ ds) b rest acc h e =
    rw (h.0) (digits-append ds b rest (acc * 10 + (d - 48)) h.1 e)

-- `strtoull` reads a number from a text, up to any byte that is no digit.
abbrev pub Reads : List ℕ → ℕ → Type 0
Reads text v =
    (b : ℕ) (rest : List ℕ) → is_digit b ≡ false → strtoull (text ++ (b ∷ rest)) ≡ (v, b ∷ rest)

Reads-digits :
    (ds : List ℕ) → All IsDigit ds → 1 ≤ length ds → Reads ds (min (value ds 0) (2 ^ 64 - 1))
unfolding strtoull
Reads-digits [] h l b rest e = absurd (omega arith)
Reads-digits (d ∷ ds) h l b rest e =
    let plain : is_space d ≡ false = ground (arith, h.0) in
    let unsigned : (d == minus) ≡ false = ground (arith, h.0) in
    let no_plus : (d == 43) ≡ false = ground (arith, h.0) in
    rw plain (
      rw unsigned
        (rw no_plus (rw (h.0) (ap saturated (digits-append ds b rest (0 * 10 + (d - 48)) h.1 e)))))

pub positive-decimal : (fuel n : ℕ) → 1 ≤ length (decimal (suc fuel) n)
unfolding decimal
positive-decimal fuel n = elim (Bool-cases (ltb n 10)) [
  | inl e ↦ rw (e, decimal) (omega arith)
  | inr e ↦
      rw (e, decimal) (omega (arith, length-append (decimal fuel (n / 10)) ((48 + n % 10) ∷ [])))
]

pub Reads-print_u64 : (n : ℕ) → n < 2 ^ 64 → Reads (print_u64 n) n
Reads-print_u64 n l =
    subst (Reads (print_u64 n)) (omega (arith, value-decimal 20 n (omega arith)))
      (Reads-digits (decimal 20 n) (IsDigit-decimal 20 n) (positive-decimal 19 n))

-- A text that is read as some number, and can stand in a row.
pub record IsField (text : List ℕ) : Type 0 where
  pub read_as : ℕ
  pub reads : Reads text read_as
  pub short : length text ≤ 21
  pub one_line : All (λ b. (b == newline) ≡ false) text

IsField-digits : (ds : List ℕ) → All IsDigit ds → 1 ≤ length ds → length ds ≤ 21 → IsField ds
IsField-digits ds h l m = record {
  read_as = min (value ds 0) (2 ^ 64 - 1);
  reads = Reads-digits ds h l;
  short = m;
  one_line = All-map ds (λ b d. ground (arith, d)) h;
}

pub IsField-print_u64 : (n : ℕ) → IsField (print_u64 n)
IsField-print_u64 n =
    IsField-digits (decimal 20 n) (IsDigit-decimal 20 n) (positive-decimal 19 n)
      (omega (arith, length_le-decimal 20 n))

pub IsField-print_bool : (b : Bool) → IsField (print_bool b)
IsField-print_bool true = IsField-digits (49 ∷ []) (refl, tt) (omega arith) (omega arith)
IsField-print_bool false = IsField-digits (48 ∷ []) (refl, tt) (omega arith) (omega arith)

Reads-negative :
    (ds : List ℕ) → All IsDigit ds → 1 ≤ length ds → Reads (minus ∷ ds) (negated (value ds 0, [])).0
unfolding strtoull
Reads-negative [] h l b rest e = absurd (omega arith)
Reads-negative (d ∷ ds) h l b rest e =
    rw (h.0) (ap negated (digits-append ds b rest (0 * 10 + (d - 48)) h.1 e))

pub IsField-print_rc : (rc : Rc) → IsField (print_rc rc)
IsField-print_rc success = IsField-digits (48 ∷ []) (refl, tt) (omega arith) (omega arith)
IsField-print_rc (fail e) =
    let text = print_u64 (errno_number e) in
    record {
      read_as = (negated (value text 0, [])).0;
      reads =
          Reads-negative text (IsDigit-decimal 20 (errno_number e))
            (positive-decimal 19 (errno_number e));
      short = omega (arith, length_le-decimal 20 (errno_number e));
      one_line = (refl, (IsField-print_u64 (errno_number e)).one_line);
    }
