-- ===== src/Folio.antt =====
-- The state that a migration in arm64_files/migrate.c works on: the two folios, the page cache slot
-- and the entries of the page tables. Page flags and counters are fields, and the kernel's
-- `folio_test_*`, `folio_set_*` and `folio_get` read and write them.
pub mod Cache
pub mod Handover
pub mod Flags
pub mod Restore
pub mod Rocm
pub mod Buffers
pub mod Move
pub mod Isolate
use memory_migration_cs.Base.{ℕ, ◌+◌, ◌-◌, Bool, true, false, Option, none, some, List}

-- `struct folio`. `mapping` is the number of the address space; `anon`, `ksm`, `movable` and
-- `isolated` are what the low bits of the pointer and PG_isolated say. `bytes` stands for the
-- page's content. `has_private` is PG_private, and `private_2` is PG_private_2.
pub record Folio : Type 0 where
  pub pfn : ℕ
  pub nid : ℕ
  pub zone : ℕ
  pub order : ℕ
  pub nr_pages : ℕ
  pub refcount : ℕ
  pub mapcount : ℕ
  pub index : ℕ
  pub mapping : Option ℕ
  pub bytes : ℕ
  pub private : Option ℕ
  pub cpupid : Option ℕ
  pub anon : Bool
  pub ksm : Bool
  pub movable : Bool
  pub isolated : Bool
  pub large : Bool
  pub hugetlb : Bool
  pub device_private : Bool
  pub locked : Bool
  pub has_private : Bool
  pub private_2 : Bool
  pub error : Bool
  pub referenced : Bool
  pub uptodate : Bool
  pub active : Bool
  pub unevictable : Bool
  pub workingset : Bool
  pub checked : Bool
  pub mappedtodisk : Bool
  pub dirty : Bool
  pub young : Bool
  pub idle : Bool
  pub swapbacked : Bool
  pub swapcache : Bool
  pub readahead : Bool
  pub writeback : Bool

-- What the code asks of a `struct address_space`: `mapping_can_writeback`, and which methods its
-- operations have.
pub record AddressSpace : Type 0 where
  pub id : ℕ
  pub can_writeback : Bool
  pub has_migrate_folio : Bool
  pub has_writepage : Bool

-- The bits of a page table entry that the code reads or writes. `exclusive` is what RMAP_EXCLUSIVE
-- says of the page when the entry is added to the reverse map.
pub record PteBits : Type 0 where
  pub write : Bool
  pub young : Bool
  pub dirty : Bool
  pub soft_dirty : Bool
  pub uffd_wp : Bool
  pub exclusive : Bool

-- The kind of a migration entry: `is_writable_migration_entry`, `is_readable_migration_entry`, or
-- readable and exclusive.
pub data Access : Type 0 where
  writable readable readable_exclusive : Access

-- What a walk of the reverse map meets in a page table: an entry that maps a page frame; a
-- migration entry, with the index of its page in the folio, its kind and its bits; an entry for a
-- frame of device memory, writable or not; or a PMD that maps the whole folio, writable or not.
pub data Entry : Type 0 where
  present : ℕ → PteBits → Entry
  migration : ℕ → Access → PteBits → Entry
  device : ℕ → Bool → PteBits → Entry
  pmd : Bool → Entry

-- A mapping of the folio: `vm_page_prot` as `mk_pte` spreads it, VM_WRITE, and the entries.
pub record Vma : Type 0 where
  pub page_prot : PteBits
  pub may_write : Bool
  pub entries : List Entry

-- The statistics that `folio_migrate_mapping` moves from one zone to another.
pub data Stat : Type 0 where
  nr_file_pages nr_shmem nr_swapcache nr_file_dirty nr_zone_write_pending : Stat

pub data StatUpdate : Type 0 where
  less : ℕ → Stat → ℕ → StatUpdate
  more : ℕ → Stat → ℕ → StatUpdate

-- A buffer head: PG lock, `b_count`, and the page that it points into.
pub record Buffer : Type 0 where
  pub busy : Bool
  pub b_count : ℕ
  pub b_page : ℕ

-- The state of one migration. `slot` is the frame that the page cache has at the folio's index.
pub record Migration : Type 0 where
  pub src : Folio
  pub dst : Folio
  pub slot : ℕ
  pub stats : List StatUpdate
  pub buffers : List Buffer
  pub rmap : List Vma
