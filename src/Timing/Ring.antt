-- ===== src/Timing/Ring.antt =====
-- What the timing buffer of arm64_files/migrate.c keeps and shows, over any sequence of commits.
use memory_migration_cs.Base.{
  ℕ, zero, suc, ◌+◌, ◌-◌, ◌^◌, ◌%◌, ◌≤◌, ◌<◌, min, ◌≡◌, refl, ap, ◌∙◌, Option, none, some, true,
  false, List, [], ◌∷◌, ◌++◌, map, take, length, append-nil, append_assoc, update, arith, ◌==◌, ltb,
  if◌then◌else◌, Bool-cases, inl, inr,
}
use memory_migration_cs.Timing.{
  TimingRecord, RecordBuffer, mig_timing_bufsize, mig_timing_store, mig_timing_write,
  mig_timing_show, rows_from, row_of, zero_record,
}

-- A call of `mig_timing_store`: the CPU, the thread and the record.
pub record Commit : Type 0 where
  pub on_cpu : ℕ
  pub by_pid : ℕ
  pub body : TimingRecord

abbrev pub stamp : ℕ → Commit → TimingRecord
stamp n c = record c.body { cpu = c.on_cpu; pid = c.by_pid; seq = n }

-- The records of a sequence of commits, numbered from 1 if `n` is 0.
abbrev pub numbered : ℕ → List Commit → List TimingRecord
numbered n [] = []
numbered n (c ∷ cs) = stamp (n + 1) c ∷ numbered (n + 1) cs

pub store_all : List Commit → RecordBuffer → Option RecordBuffer
store_all [] b = some b
store_all (c ∷ cs) b = elim (mig_timing_store c.on_cpu c.by_pid c.body b) [
  | none ↦ none
  | some b' ↦ store_all cs b'
]

rows_from-update :
    (f : ℕ → TimingRecord) (i : ℕ) (v : TimingRecord) (j n : ℕ)
    → j + n ≤ i
    → rows_from (update f i v) j n ≡ rows_from f j n
unfolding rows_from
rows_from-update f i v j zero h = refl
rows_from-update f i v j (suc n) h = ground (arith, rows_from-update f i v (j + 1) n (omega arith))

take_nil : (n : ℕ) → map row_of (take n []) ≡ []
take_nil zero = refl
take_nil (suc n) = refl

rows_from-suc :
    (f : ℕ → TimingRecord) (j n : ℕ)
    → rows_from f j (suc n) ≡ rows_from f j n ++ row_of (f (j + n)) ∷ []
unfolding rows_from
rows_from-suc f j zero = let e : j + 0 ≡ j = omega arith in rw e
rows_from-suc f j (suc n) =
    let e : j + suc n ≡ j + 1 + n = omega arith in
    rw e (ap (λ t. row_of (f j) ∷ t) (rows_from-suc f (j + 1) n))

-- The slots after the commit of `v` at count `k`.
abbrev slots_with : (ℕ → TimingRecord) → ℕ → TimingRecord → ℕ → TimingRecord
slots_with f k v = if ltb k mig_timing_bufsize then update f k v else f

-- The buffer after `k` commits, as its counters stand below 2^31.
abbrev at_count : (ℕ → TimingRecord) → ℕ → RecordBuffer
at_count f k = record { slots = f; idx = k; next_seq = k }

mig_timing_store-below :
    (c : Commit) (f : ℕ → TimingRecord) (k : ℕ)
    → k + 1 < 2 ^ 31
    → mig_timing_store c.on_cpu c.by_pid c.body (at_count f k)
      ≡ some (at_count (slots_with f k (stamp (k + 1) c)) (k + 1))
unfolding mig_timing_store
mig_timing_store-below c f k h =
    let wraps : (k + 1) % 2 ^ 32 ≡ k + 1 = omega arith in
    let back : (k + 1 + 2 ^ 32 - 1) % 2 ^ 32 ≡ k = omega arith in rw (wraps, back) (ground arith)

-- A slot is written: the rows grow by one.
rows_from-update_self :
    (f : ℕ → TimingRecord) (k : ℕ) (v : TimingRecord)
    → rows_from (update f k v) 0 (suc k) ≡ rows_from f 0 k ++ row_of v ∷ []
rows_from-update_self f k v =
    let none_added : 0 + k ≡ k = omega arith in
    let same : (k == k) ≡ true = ground arith in
    rw (rows_from-suc, none_added, rows_from-update f k v 0 k (omega arith), same)

-- `d` slots are left after this one.
rows_from-slots_with :
    (f : ℕ → TimingRecord) (k d : ℕ) (v : TimingRecord) (rest : List TimingRecord)
    → mig_timing_bufsize - k ≡ suc d
    → rows_from (slots_with f k v) 0 (min (k + 1) mig_timing_bufsize) ++ map row_of (take d rest)
      ≡ rows_from f 0 (min k mig_timing_bufsize)
        ++ map row_of (take (mig_timing_bufsize - k) (v ∷ rest))
rows_from-slots_with f k d v rest e =
    let below : ltb k mig_timing_bufsize ≡ true = ground arith in
    let small : min k mig_timing_bufsize ≡ k = omega arith in
    let small' : min (k + 1) mig_timing_bufsize ≡ suc k = omega arith in
    rw (below, small, small', e, rows_from-update_self, append_assoc)

-- The buffer is full: the record is dropped.
rows_from-dropped :
    (f : ℕ → TimingRecord) (k : ℕ) (v : TimingRecord) (rest : List TimingRecord)
    → mig_timing_bufsize - k ≡ 0
    → rows_from (slots_with f k v) 0 (min (k + 1) mig_timing_bufsize)
      ≡ rows_from f 0 (min k mig_timing_bufsize)
rows_from-dropped f k v rest e =
    let above : ltb k mig_timing_bufsize ≡ false = ground arith in
    let full : min k mig_timing_bufsize ≡ mig_timing_bufsize = omega arith in
    let full' : min (k + 1) mig_timing_bufsize ≡ mig_timing_bufsize = omega arith in
    rw (above, full, full')

take_none : (xs : List TimingRecord) (n : ℕ) → n ≡ 0 → map row_of (take n xs) ≡ []
take_none xs n e = rw e

rows_from-step :
    (f : ℕ → TimingRecord) (k : ℕ) (v : TimingRecord) (rest : List TimingRecord)
    → rows_from (slots_with f k v) 0 (min (k + 1) mig_timing_bufsize)
        ++ map row_of (take (mig_timing_bufsize - (k + 1)) rest)
      ≡ rows_from f 0 (min k mig_timing_bufsize)
        ++ map row_of (take (mig_timing_bufsize - k) (v ∷ rest))
rows_from-step f k v rest = elim (Bool-cases (ltb k mig_timing_bufsize)) [
  | inl p ↦ rows_from-slots_with f k (mig_timing_bufsize - (k + 1)) v rest (ground arith)
  | inr p ↦
      let z : mig_timing_bufsize - k ≡ 0 = ground arith in
      let z' : mig_timing_bufsize - (k + 1) ≡ 0 = omega arith in
      rw (rows_from-dropped f k v rest z, take_none rest _ z', take_none (v ∷ rest) _ z)
]

store_all-rows :
    (cs : List Commit) (f : ℕ → TimingRecord) (k : ℕ)
    → k + length cs < 2 ^ 31
    → (g : ℕ → TimingRecord) × (store_all cs (at_count f k) ≡ some (at_count g (k + length cs)))
      × (rows_from g 0 (min (k + length cs) mig_timing_bufsize)
          ≡ rows_from f 0 (min k mig_timing_bufsize)
            ++ map row_of (take (mig_timing_bufsize - k) (numbered k cs)))
unfolding store_all
store_all-rows [] f k h = let e : k + 0 ≡ k = omega arith in (f, rw e, rw (e, take-nil, append-nil))
  where
    take-nil : map row_of (take (mig_timing_bufsize - k) []) ≡ []
    take-nil = take_nil _
store_all-rows (c ∷ cs) f k h =
    let (g, stored, shown) =
      store_all-rows cs (slots_with f k (stamp (k + 1) c)) (k + 1) (omega arith) in
    let e : k + suc (length cs) ≡ k + 1 + length cs = omega arith in
    (
      g,
      rw (mig_timing_store-below c f k (omega arith), store_all, e) stored,
      rw e (shown ∙ rows_from-step f k (stamp (k + 1) c) (numbered (k + 1) cs)),
    )

-- After a write to the file and any fewer than 2^31 commits, none of which faults, the file shows
-- the first 16384 of them, in the order of the commits and numbered from 1; later ones are
-- dropped, and never overwrite an earlier one.
pub show-first_commits :
    (cs : List Commit) (b : RecordBuffer)
    → length cs < 2 ^ 31
    → (b' : RecordBuffer) × (store_all cs (mig_timing_write b) ≡ some b')
      × (mig_timing_show b' ≡ map row_of (take mig_timing_bufsize (numbered 0 cs)))
unfolding mig_timing_write mig_timing_show
show-first_commits cs b h =
    let (g, stored, shown) = store_all-rows cs (λ i. zero_record) 0 (omega arith) in
    let e : 0 + length cs ≡ length cs = omega arith in
    let below : ltb (length cs) (2 ^ 31) ≡ true = ground arith in
    (at_count g (length cs), rw e at stored, rw below (rw e at shown))
