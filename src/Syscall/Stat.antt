-- ===== src/Syscall/Stat.antt =====
-- arm64_files/migrate.c, lines 2839-2939: `do_pages_stat`, which reads the addresses and writes the
-- statuses in chunks of 16.
use memory_migration_cs.Base.{
  ℕ, zero, suc, ◌+◌, ◌-◌, min, ◌==◌, ltb, leb, ◌≤◌, ◌<◌, Bool, true, ◌&&◌, not, ◌≡◌, refl,
  if◌then◌else◌, Rc, success, fail, efault, enoent, arith,
}
use memory_migration_cs.Syscall.{
  Status, on_node, failed, Lookup, bad_vma, lookup_error, no_page, found,
}

-- The user's addresses by index; whether `copy_from_user` of a chunk succeeds, and how many of a
-- chunk's entries `copy_to_user` writes; what `follow_page` finds at an address.
pub record StatKernel : Type 0 where
  pub address_at : ℕ → ℕ
  pub can_read : (first nr : ℕ) → Bool
  pub copied : (first nr : ℕ) → ℕ
  pub follow_page : ℕ → Lookup

-- One round of `do_pages_stat_array`.
unfoldable pub stat_of : Lookup → Status
stat_of bad_vma = failed efault
stat_of (lookup_error e) = failed e
stat_of no_page = failed enoent
stat_of (found f) = if f.zone_device then failed enoent else on_node f.nid

-- The statuses with `nr` entries from `first` on written.
unfoldable pub do_pages_stat_array : StatKernel → (first nr : ℕ) → (ℕ → Status) → ℕ → Status
do_pages_stat_array k first nr st j =
    if leb first j && ltb j (first + nr) then stat_of (k.follow_page (k.address_at j)) else st j

-- The loop over the chunks: how many pages are left, and the statuses. No chunk is empty, so
-- `nr_pages` rounds are enough.
unfoldable pub stat_loop :
    StatKernel → (rounds first nr_pages : ℕ) → (ℕ → Status) → ℕ × (ℕ → Status)
stat_loop k zero first nr st = (nr, st)
stat_loop k (suc rounds) first zero st = (zero, st)
stat_loop k (suc rounds) first (suc n) st =
    let chunk = min (suc n) 16 in
    let written = do_pages_stat_array k first (k.copied first chunk) st in
    let rest = stat_loop k rounds (first + chunk) (suc n - chunk) written in
    if not (k.can_read first chunk)
    then (suc n, st)
    else if k.copied first chunk == chunk
    then rest
    else (suc n, written)

-- `return nr_pages ? -EFAULT : 0;`
abbrev pub stat_result : ℕ → Rc
stat_result zero = success
stat_result (suc n) = fail efault

unfoldable pub do_pages_stat : StatKernel → (nr_pages : ℕ) → (ℕ → Status) → Rc × (ℕ → Status)
do_pages_stat k nr st = let (left, st') = stat_loop k nr 0 nr st in (stat_result left, st')

-- What the loop has written when no page is left.
abbrev pub Written : StatKernel → (first nr : ℕ) → (st st' : ℕ → Status) → Type 0
Written k first nr st st' =
    (j : ℕ)
    → ((first ≤ j → j < first + nr → st' j ≡ stat_of (k.follow_page (k.address_at j)))
        × (j < first → st' j ≡ st j)
        × (first + nr ≤ j → st' j ≡ st j))

written-stat_loop :
    (k : StatKernel) (rounds first nr : ℕ) (st : ℕ → Status)
    → (stat_loop k rounds first nr st).0 ≡ 0
    → Written k first nr st (stat_loop k rounds first nr st).1
unfolding stat_loop do_pages_stat_array
written-stat_loop k zero first zero st h j = (λ a b. absurd (omega arith), λ a. refl, λ a. refl)
written-stat_loop k zero first (suc n) st h j = absurd (omega arith)
written-stat_loop k (suc rounds) first zero st h j =
    (λ a b. absurd (omega arith), λ a. refl, λ a. refl)
written-stat_loop k (suc rounds) first (suc n) st h j =
    let chunk = min (suc n) 16 in
    let written = do_pages_stat_array k first (k.copied first chunk) st in
    ground (
      arith,
      λ (e : (stat_loop k rounds (first + chunk) (suc n - chunk) written).0 ≡ 0).
          written-stat_loop k rounds (first + chunk) (suc n - chunk) written e j,
    )

-- All pages are stated if every chunk can be read and written.
left-stat_loop :
    (k : StatKernel)
    → ((first nr : ℕ) → k.can_read first nr ≡ true)
    → ((first nr : ℕ) → k.copied first nr ≡ nr)
    → (rounds first nr : ℕ) (st : ℕ → Status) → nr ≤ rounds
    → (stat_loop k rounds first nr st).0 ≡ 0
unfolding stat_loop
left-stat_loop k r c zero first nr st h = omega arith
left-stat_loop k r c (suc rounds) first zero st h = refl
left-stat_loop k r c (suc rounds) first (suc n) st h =
    let chunk = min (suc n) 16 in
    let written = do_pages_stat_array k first (k.copied first chunk) st in
    ground (
      arith,
      r first chunk,
      c first chunk,
      left-stat_loop k r c rounds (first + chunk) (suc n - chunk) written (omega arith),
    )

-- `do_pages_stat` returns 0 if the user's arrays never fault; and whenever it returns 0, the status
-- of each of the pages is what `do_pages_stat_array` says of its address, and nothing else is
-- written.
pub do_pages_stat_lem :
    (k : StatKernel) (nr : ℕ) (st : ℕ → Status)
    → (((first n : ℕ) → k.can_read first n ≡ true)
        → ((first n : ℕ) → k.copied first n ≡ n)
        → (do_pages_stat k nr st).0 ≡ success)
      × ((do_pages_stat k nr st).0 ≡ success → Written k 0 nr st (do_pages_stat k nr st).1)
unfolding do_pages_stat
do_pages_stat_lem k nr st = (
  λ r c. let e = left-stat_loop k r c nr 0 nr st (omega arith) in ground (arith, e),
  λ h. written-stat_loop k nr 0 nr st (none_left (stat_loop k nr 0 nr st).0 h),
)
  where
    none_left : (n : ℕ) → stat_result n ≡ success → n ≡ 0
    none_left zero e = refl
    none_left (suc n) e = cc
