-- ===== src/Folio/Handover.antt =====
-- What `folio_migrate_mapping` and `migrate_huge_page_move_mapping` of arm64_files/migrate.c hand
-- over, and what a failure leaves alone.
use memory_migration_cs.Base.{
  ℕ, ◌+◌, Bool, true, false, Option, none, some, List, [], ◌∷◌, ◌++◌, ◌≡◌, ◌⊎◌, success, fail,
  eagain, arith, ◌==◌, ◌&&◌, not, if◌then◌else◌, ap, ◌∙◌,
}
use memory_migration_cs.Folio.{
  AddressSpace, Stat, nr_file_pages, nr_shmem, nr_swapcache, nr_file_dirty, nr_zone_write_pending,
  StatUpdate, less, more, Migration,
}
use memory_migration_cs.Folio.Cache.{
  folio_expected_refs, zone_updates, take_over, folio_migrate_mapping,
  migrate_huge_page_move_mapping,
}

-- What the code relies on of `folio_ref_freeze`: it takes the count only if it is the expected one.
abbrev pub IsExact : (ℕ → ℕ → Bool) → Type 0
IsExact freeze = (count expected : ℕ) → freeze count expected ≡ true → count ≡ expected

-- The sum that the updates take from statistics, and the sum that they add.
abbrev pub taken : List StatUpdate → ℕ
taken [] = 0
taken (less z s n ∷ us) = n + taken us
taken (more z s n ∷ us) = taken us

abbrev pub added : List StatUpdate → ℕ
added [] = 0
added (less z s n ∷ us) = added us
added (more z s n ∷ us) = n + added us

taken-append : (us vs : List StatUpdate) → taken (us ++ vs) ≡ taken us + taken vs
taken-append [] vs = omega arith
taken-append (less z s n ∷ us) vs = omega (arith, taken-append us vs)
taken-append (more z s n ∷ us) vs = taken-append us vs

added-append : (us vs : List StatUpdate) → added (us ++ vs) ≡ added us + added vs
added-append [] vs = omega arith
added-append (less z s n ∷ us) vs = added-append us vs
added-append (more z s n ∷ us) vs = omega (arith, added-append us vs)

zone_updates-balance :
    (a : AddressSpace) (old new nr : ℕ) (swapbacked swapcache dirty : Bool)
    → taken (zone_updates a old new nr swapbacked swapcache dirty)
      ≡ added (zone_updates a old new nr swapbacked swapcache dirty)
unfolding zone_updates
zone_updates-balance a old new nr swapbacked swapcache dirty = ground arith

abbrev pub is_stat : Stat → Stat → Bool
is_stat nr_file_pages nr_file_pages = true
is_stat nr_shmem nr_shmem = true
is_stat nr_swapcache nr_swapcache = true
is_stat nr_file_dirty nr_file_dirty = true
is_stat nr_zone_write_pending nr_zone_write_pending = true
is_stat s t = false

-- What updates take from one statistic of one zone, and what they add to it.
abbrev pub lost : (zone : ℕ) → Stat → List StatUpdate → ℕ
lost zone stat [] = 0
lost zone stat (less z s n ∷ us) =
    (if z == zone && is_stat s stat then n else 0) + lost zone stat us
lost zone stat (more z s n ∷ us) = lost zone stat us

abbrev pub gained : (zone : ℕ) → Stat → List StatUpdate → ℕ
gained zone stat [] = 0
gained zone stat (less z s n ∷ us) = gained zone stat us
gained zone stat (more z s n ∷ us) =
    (if z == zone && is_stat s stat then n else 0) + gained zone stat us

lost-append :
    (zone : ℕ) (stat : Stat) (us vs : List StatUpdate)
    → lost zone stat (us ++ vs) ≡ lost zone stat us + lost zone stat vs
lost-append zone stat [] vs = omega arith
lost-append zone stat (less z s n ∷ us) vs = ground (arith, lost-append zone stat us vs)
lost-append zone stat (more z s n ∷ us) vs = lost-append zone stat us vs

gained-append :
    (zone : ℕ) (stat : Stat) (us vs : List StatUpdate)
    → gained zone stat (us ++ vs) ≡ gained zone stat us + gained zone stat vs
gained-append zone stat [] vs = omega arith
gained-append zone stat (less z s n ∷ us) vs = gained-append zone stat us vs
gained-append zone stat (more z s n ∷ us) vs = ground (arith, gained-append zone stat us vs)

-- Whether the pages of a folio are counted in a statistic: each page of the page cache is a file
-- page, those that are swap-backed and not in the swap cache are shared memory, those in the swap
-- cache have a statistic of their own, and so have the dirty ones with a mapping that can write back.
abbrev pub is_counted : (can_writeback swapbacked swapcache dirty : Bool) → Stat → Bool
is_counted w b c d nr_file_pages = true
is_counted w b c d nr_shmem = b && not c
is_counted w b c d nr_swapcache = c
is_counted w b c d nr_file_dirty = d && w
is_counted w b c d nr_zone_write_pending = d && w

zone_updates-lost :
    (a : AddressSpace) (old new nr : ℕ) (b c d : Bool) (zone : ℕ) (stat : Stat)
    → lost zone stat (zone_updates a old new nr b c d) ≡ (
        if not (old == new) && (old == zone && is_counted a.can_writeback b c d stat)
        then nr
        else 0)
unfolding zone_updates
zone_updates-lost a old new nr b c d zone nr_file_pages = ground arith
zone_updates-lost a old new nr b c d zone nr_shmem = ground arith
zone_updates-lost a old new nr b c d zone nr_swapcache = ground arith
zone_updates-lost a old new nr b c d zone nr_file_dirty = ground arith
zone_updates-lost a old new nr b c d zone nr_zone_write_pending = ground arith

zone_updates-gained :
    (a : AddressSpace) (old new nr : ℕ) (b c d : Bool) (zone : ℕ) (stat : Stat)
    → gained zone stat (zone_updates a old new nr b c d) ≡ (
        if not (old == new) && (new == zone && is_counted a.can_writeback b c d stat)
        then nr
        else 0)
unfolding zone_updates
zone_updates-gained a old new nr b c d zone nr_file_pages = ground arith
zone_updates-gained a old new nr b c d zone nr_shmem = ground arith
zone_updates-gained a old new nr b c d zone nr_swapcache = ground arith
zone_updates-gained a old new nr b c d zone nr_file_dirty = ground arith
zone_updates-gained a old new nr b c d zone nr_zone_write_pending = ground arith

-- The statistics of the zones from one state to the next: if the folios are of different zones,
-- each statistic that counts the old folio's pages loses them in its zone and gains them in the
-- zone of the new folio; no other statistic changes, and none if the zones are the same.
abbrev pub StatsMoved : AddressSpace → Migration → Migration → Type 0
StatsMoved a m m' =
    (zone : ℕ) (stat : Stat)
    → let counted = is_counted a.can_writeback m.src.swapbacked m.src.swapcache m.src.dirty stat in
      let other = not (m.src.zone == m.dst.zone) in
      (lost zone stat m'.stats
        ≡ lost zone stat m.stats
          + (if other && (m.src.zone == zone && counted) then m.src.nr_pages else 0))
      × (gained zone stat m'.stats
          ≡ gained zone stat m.stats
            + (if other && (m.dst.zone == zone && counted) then m.src.nr_pages else 0))

StatsMoved-folio_migrate_mapping :
    (freeze : ℕ → ℕ → Bool) (a : AddressSpace) (extra : ℕ) (m m' : Migration)
    → folio_migrate_mapping freeze (some a) extra m ≡ (success, m')
    → StatsMoved a m m'
unfolding folio_migrate_mapping
StatsMoved-folio_migrate_mapping freeze a extra m m' h zone stat =
    let us =
      zone_updates a m.src.zone m.dst.zone m.src.nr_pages m.src.swapbacked m.src.swapcache
        m.src.dirty in
    let appended : m'.stats ≡ m.stats ++ us = ground arith in
    (
      ap (lost zone stat) appended
          ∙ lost-append zone stat m.stats us
          ∙ ap (λ (n : ℕ). lost zone stat m.stats + n)
              (zone_updates-lost a m.src.zone m.dst.zone m.src.nr_pages m.src.swapbacked
                m.src.swapcache m.src.dirty zone stat),
      ap (gained zone stat) appended
          ∙ gained-append zone stat m.stats us
          ∙ ap (λ (n : ℕ). gained zone stat m.stats + n)
              (zone_updates-gained a m.src.zone m.dst.zone m.src.nr_pages m.src.swapbacked
                m.src.swapcache m.src.dirty zone stat),
    )

-- A move of the mapping, whether to an anonymous folio's bare state or in a page cache, either
-- changes nothing and returns -EAGAIN, or returns success.
pub folio_migrate_mapping-fails :
    (freeze : ℕ → ℕ → Bool) (mapping : Option AddressSpace) (extra : ℕ) (m : Migration)
    → (folio_migrate_mapping freeze mapping extra m ≡ (fail eagain, m))
      ⊎ ((folio_migrate_mapping freeze mapping extra m).0 ≡ success)
unfolding folio_migrate_mapping
folio_migrate_mapping-fails freeze none extra m = ground arith
folio_migrate_mapping-fails freeze (some a) extra m = ground arith

-- The move of `nr` pages from `m` to `m'`: the cache's references go from the old folio to the new,
-- and so do the slot, the place in the mapping, the dirty flag and, by the statistics, the pages.
pub record IsHandedOver (m m' : Migration) : Type 0 where
  pub refs_dropped : m'.src.refcount + m.src.nr_pages ≡ m.src.refcount
  pub refs_added : m'.dst.refcount ≡ m.dst.refcount + m.src.nr_pages
  pub slot_moved : m'.slot ≡ m.dst.pfn
  pub mapping_moved : m'.dst.mapping ≡ m.src.mapping
  pub index_moved : m'.dst.index ≡ m.src.index
  pub clean : m'.src.dirty ≡ false
  pub dirty_kept : m.src.dirty ≡ true → m'.dst.dirty ≡ true
  pub balanced : taken m'.stats + added m.stats ≡ added m'.stats + taken m.stats
  pub entries_kept : m'.rmap ≡ m.rmap
  pub bytes_kept : m'.dst.bytes ≡ m.dst.bytes

IsHandedOver-folio_migrate_mapping :
    (freeze : ℕ → ℕ → Bool)
    → IsExact freeze
    → (a : AddressSpace) (extra : ℕ) (m m' : Migration)
    → folio_migrate_mapping freeze (some a) extra m ≡ (success, m')
    → IsHandedOver m m'
unfolding folio_migrate_mapping take_over folio_expected_refs
IsHandedOver-folio_migrate_mapping freeze exact a extra m m' h = ground (
  arith,
  exact m.src.refcount (folio_expected_refs (some a) m.src + extra),
  zone_updates-balance a m.src.zone m.dst.zone m.src.nr_pages m.src.swapbacked m.src.swapcache
      m.src.dirty,
  taken-append m.stats (
      zone_updates a m.src.zone m.dst.zone m.src.nr_pages m.src.swapbacked m.src.swapcache
        m.src.dirty),
  added-append m.stats (
      zone_updates a m.src.zone m.dst.zone m.src.nr_pages m.src.swapbacked m.src.swapcache
        m.src.dirty),
)

-- If freezing takes only the expected count, a successful move in a page cache, whatever extra
-- references are expected, hands the folio over as a whole: no reference is lost or gained, the slot
-- and the dirty flag move, and between different zones each statistic that counts the pages loses them in
-- the old zone and gains them in the new one, while no other statistic changes.
pub folio_migrate_mapping-hands_over :
    (freeze : ℕ → ℕ → Bool)
    → IsExact freeze
    → (a : AddressSpace) (extra : ℕ) (m m' : Migration)
    → folio_migrate_mapping freeze (some a) extra m ≡ (success, m')
    → IsHandedOver m m' × StatsMoved a m m'
folio_migrate_mapping-hands_over freeze exact a extra m m' h = (
  IsHandedOver-folio_migrate_mapping freeze exact a extra m m' h,
  StatsMoved-folio_migrate_mapping freeze a extra m m' h,
)

-- If freezing takes only the expected count, a move of a huge page either changes nothing and
-- returns -EAGAIN, or moves the slot and one reference.
pub migrate_huge_page_move_mapping-hands_over :
    (freeze : ℕ → ℕ → Bool)
    → IsExact freeze
    → (m : Migration)
    → (migrate_huge_page_move_mapping freeze m ≡ (fail eagain, m))
      ⊎ (let (rc, m') = migrate_huge_page_move_mapping freeze m in
          (rc ≡ success)
          × (m'.src.refcount + 1 ≡ m.src.refcount)
          × (m'.dst.refcount ≡ m.dst.refcount + 1)
          × (m'.slot ≡ m.dst.pfn)
          × (m'.dst.mapping ≡ m.src.mapping)
          × (m'.dst.index ≡ m.src.index))
unfolding migrate_huge_page_move_mapping
migrate_huge_page_move_mapping-hands_over freeze exact m =
    ground (arith, exact m.src.refcount 2, exact m.src.refcount 3)
