-- ===== src/Folio/Cache.antt =====
-- arm64_files/migrate.c, lines 705-867: the page cache's slot moves from one folio to the other.
use memory_migration_cs.Base.{
  ℕ, ◌+◌, ◌-◌, Bool, false, ◌&&◌, ◌||◌, not, Option, none, some, List, [], ◌∷◌, ◌++◌, ◌==◌,
  if◌then◌else◌, Rc, success, fail, eagain,
}
use memory_migration_cs.Folio.{
  Folio, AddressSpace, Stat, nr_file_pages, nr_shmem, nr_swapcache, nr_file_dirty,
  nr_zone_write_pending, StatUpdate, less, more, Migration,
}

-- `folio_expected_refs`.
unfoldable pub folio_expected_refs : Option AddressSpace → Folio → ℕ
folio_expected_refs none f = 1
folio_expected_refs (some a) f = if f.has_private then 1 + f.nr_pages + 1 else 1 + f.nr_pages

-- A statistic moves between the zones.
abbrev moved : ℕ → ℕ → Stat → ℕ → List StatUpdate
moved old new stat nr = less old stat nr ∷ more new stat nr ∷ []

-- The accounting for a move to another zone.
unfoldable pub zone_updates :
    AddressSpace → (old new nr : ℕ) → (swapbacked swapcache dirty : Bool) → List StatUpdate
zone_updates a old new nr swapbacked swapcache dirty =
    if old == new
    then []
    else moved old new nr_file_pages nr
      ++ ((if swapbacked && not swapcache then moved old new nr_shmem nr else [])
          ++ ((if swapcache then moved old new nr_swapcache nr else [])
              ++ (if dirty && a.can_writeback
                  then moved old new nr_file_dirty nr ++ moved old new nr_zone_write_pending nr
                  else [])))

-- What the new folio takes over, with the cache's references to it.
unfoldable pub take_over : Folio → Folio → Folio
take_over dst src = record dst {
  index = src.index;
  mapping = src.mapping;
  refcount = dst.refcount + src.nr_pages;
  swapbacked = dst.swapbacked || src.swapbacked;
  swapcache = dst.swapcache || (src.swapbacked && src.swapcache);
  private = if src.swapbacked && src.swapcache then src.private else dst.private;
  dirty = dst.dirty || src.dirty;
}

-- `folio_migrate_mapping`. `freeze` is `folio_ref_freeze`: whether it takes the count, given what
-- the count is and what is expected.
unfoldable pub folio_migrate_mapping :
    (ℕ → ℕ → Bool) → Option AddressSpace → ℕ → Migration → Rc × Migration
unfolding folio_expected_refs take_over
folio_migrate_mapping freeze none extra m =
    if m.src.refcount == folio_expected_refs none m.src + extra
    then (
      success,
      record m {
        dst = record (m.dst) {
          index = m.src.index;
          mapping = m.src.mapping;
          swapbacked = m.dst.swapbacked || m.src.swapbacked;
        };
      },
    )
    else (fail eagain, m)
folio_migrate_mapping freeze (some a) extra m =
    let expected = folio_expected_refs (some a) m.src + extra in
    if freeze m.src.refcount expected
    then (
      success,
      record m {
        dst = take_over m.dst m.src;
        src = record (m.src) { dirty = false; refcount = expected - m.src.nr_pages };
        slot = m.dst.pfn;
        stats =
            m.stats
            ++ zone_updates a m.src.zone m.dst.zone m.src.nr_pages m.src.swapbacked m.src.swapcache
                m.src.dirty;
      },
    )
    else (fail eagain, m)

-- `migrate_huge_page_move_mapping`. `folio_has_private` is PG_private or PG_private_2.
unfoldable pub migrate_huge_page_move_mapping : (ℕ → ℕ → Bool) → Migration → Rc × Migration
migrate_huge_page_move_mapping freeze m =
    let expected = if m.src.has_private || m.src.private_2 then 2 + 1 else 2 in
    if freeze m.src.refcount expected
    then (
      success,
      record m {
        dst = record (m.dst) {
          index = m.src.index;
          mapping = m.src.mapping;
          refcount = m.dst.refcount + 1;
        };
        slot = m.dst.pfn;
        src = record (m.src) { refcount = expected - 1 };
      },
    )
    else (fail eagain, m)
