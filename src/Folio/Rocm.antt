-- ===== src/Folio/Rocm.antt =====
-- arm64_files/migrate.c, lines 1400-1678: the read-only fast path (ROCM), which copies the page
-- while it is still mapped and then swaps its page table entries in place.
pub mod Eligible
pub mod Swap
use memory_migration_cs.Base.{
  ℕ, zero, suc, ◌+◌, ◌-◌, Bool, true, false, ◌&&◌, ◌||◌, not, Option, none, some, List, [], ◌∷◌,
  leb, ltb, ◌==◌, if◌then◌else◌, Mode, sync,
}
use memory_migration_cs.Folio.{
  Folio, AddressSpace, PteBits, Entry, present, migration, device, pmd, Vma, Migration,
}

-- A frame of the folio: `page_vma_mapped_walk` visits the entries that map one, and a PMD.
abbrev pub maps : Folio → ℕ → Bool
maps f p = leb f.pfn p && ltb p (f.pfn + f.nr_pages)

-- `rocm_check_one_pte_readonly`: whether the walk of a mapping meets a writable entry. A PMD,
-- writable or not, is passed over, since `pvmw.pte` is NULL there.
unfoldable pub found_writable : Folio → List Entry → Bool
found_writable f [] = false
found_writable f (present p b ∷ es) =
    let rest = found_writable f es in if maps f p && b.write then true else rest
found_writable f (e ∷ es) = found_writable f es

-- `rmap_walk` with that callback, which ends the walk at the first writable entry.
unfoldable pub walk_writable : Folio → List Vma → Bool
unfolding found_writable
walk_writable f [] = false
walk_writable f (v ∷ vs) =
    let rest = walk_writable f vs in if found_writable f v.entries then true else rest

-- `folio_rmap_all_readonly`.
unfoldable pub folio_rmap_all_readonly : Folio → List Vma → Bool
unfolding walk_writable
folio_rmap_all_readonly f rmap = not (walk_writable f rmap)

abbrev pub is_sync : Mode → Bool
is_sync sync = true
is_sync _ = false

-- The end of `folio_all_mappings_readonly`, for `folio->mapping`.
unfoldable pub mapping_readonly : Folio → Option AddressSpace → List Vma → Bool
unfolding folio_rmap_all_readonly
mapping_readonly f none rmap = false
mapping_readonly f (some a) rmap =
    if not a.can_writeback then true else folio_rmap_all_readonly f rmap

-- `folio_all_mappings_readonly`.
unfoldable pub folio_all_mappings_readonly : Folio → Option AddressSpace → List Vma → Mode → Bool
unfolding mapping_readonly
folio_all_mappings_readonly f mapping rmap mode =
    if not (is_sync mode)
    then false
    else if f.dirty
    then false
    else if f.swapcache
    then false
    else if f.ksm
    then false
    else if f.anon
    then false
    else mapping_readonly f mapping rmap

-- `struct rocm_swap_ctx`, without `dst`.
pub record SwapContext : Type 0 where
  pub n_swapped : ℕ
  pub n_to_put : ℕ

-- The entry that takes the place of an entry of the old folio.
unfoldable pub swapped_pte : Vma → PteBits → PteBits
swapped_pte v old = record (v.page_prot) {
  soft_dirty = v.page_prot.soft_dirty || old.soft_dirty;
  young = v.page_prot.young && old.young;
  exclusive = false;
}

-- What a walk leaves: the entries (or mappings), the context, and whether it goes on.
pub record Walked (A : Type 0) : Type 0 where
  pub left : List A
  pub context : SwapContext
  pub going : Bool

-- The body of the loop of `rocm_swap_one_pte`, over the entries of a mapping.
unfoldable pub rocm_swap_one_pte : Folio → Folio → Vma → List Entry → SwapContext → Walked Entry
unfolding swapped_pte
rocm_swap_one_pte src dst v [] c = record { left = []; context = c; going = true }
rocm_swap_one_pte src dst v (pmd x ∷ es) c = record {
  left = pmd x ∷ es;
  context = c;
  going = false;
}
rocm_swap_one_pte src dst v (present p b ∷ es) c =
    let mapped = maps src p in
    let counted : SwapContext = record { n_swapped = c.n_swapped + 1; n_to_put = c.n_to_put + 1 } in
    let rest = rocm_swap_one_pte src dst v es (if mapped then counted else c) in
    let new = present (dst.pfn + (p - src.pfn)) (swapped_pte v b) in
    let left = (if mapped then new else present p b) ∷ rest.left in record rest { left = left }
rocm_swap_one_pte src dst v (e ∷ es) c =
    let rest = rocm_swap_one_pte src dst v es c in record rest { left = e ∷ rest.left }

-- `rmap_walk(src, &rwc)`: the mappings behind one that ends the walk are not visited.
unfoldable pub rocm_walk : Folio → Folio → List Vma → SwapContext → Walked Vma
unfolding rocm_swap_one_pte
rocm_walk src dst [] c = record { left = []; context = c; going = true }
rocm_walk src dst (v ∷ vs) c =
    let one = rocm_swap_one_pte src dst v v.entries c in
    let v' = record v { entries = one.left } in
    let rest = rocm_walk src dst vs one.context in
    if one.going
    then record rest { left = v' ∷ rest.left }
    else record { left = v' ∷ vs; context = one.context; going = false }

-- `if (ctx.n_swapped == 0) return -1;`, or the count.
abbrev pub swapped_count : ℕ → Option ℕ
swapped_count zero = none
swapped_count (suc n) = some (suc n)

-- `rocm_swap_ptes`: `none` is -1. Each swap takes a mapping from `src`, and a reference and a mapping
-- are added to `dst`; the references to `src` are dropped at the end, if any entry was swapped.
unfoldable pub rocm_swap_ptes : Migration → Option ℕ × Migration
unfolding rocm_walk
rocm_swap_ptes m =
    let w = rocm_walk m.src m.dst m.rmap (record { n_swapped = 0; n_to_put = 0 }) in
    let n = w.context.n_swapped in
    (
      swapped_count n,
      record m {
        rmap = w.left;
        src = record (m.src) {
          mapcount = m.src.mapcount - n;
          refcount = m.src.refcount - (if n == 0 then 0 else w.context.n_to_put);
        };
        dst = record (m.dst) { refcount = m.dst.refcount + n; mapcount = m.dst.mapcount + n };
      },
    )
