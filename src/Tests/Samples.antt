-- ===== src/Tests/Samples.antt =====
-- Folios, mappings and functions of the kernel that the tests of arm64_files/migrate.c start from.
use memory_migration_cs.Base.{
  ℕ, ◌==◌, Bool, true, false, none, some, [], ◌∷◌, min, arith, success, fail, eagain,
}
use memory_migration_cs.Folio.{
  Folio, AddressSpace, PteBits, present, migration, readable, writable, Vma, Migration,
}
use memory_migration_cs.Folio.Flags.{Numa}
use memory_migration_cs.Folio.Handover.{IsExact}
use memory_migration_cs.Folio.Move.{Callbacks, written}
use memory_migration_cs.Unmap.{Kernel}

-- A clean page of a file at frame 7, and a new page at frame 9.
abbrev pub blank : Folio
blank = record {
  pfn = 9;
  nid = 1;
  zone = 1;
  order = 0;
  nr_pages = 1;
  refcount = 1;
  mapcount = 0;
  index = 0;
  mapping = none;
  bytes = 0;
  private = none;
  cpupid = none;
  anon = false;
  ksm = false;
  movable = false;
  isolated = false;
  large = false;
  hugetlb = false;
  device_private = false;
  locked = false;
  has_private = false;
  private_2 = false;
  error = false;
  referenced = false;
  uptodate = false;
  active = false;
  unevictable = false;
  workingset = false;
  checked = false;
  mappedtodisk = false;
  dirty = false;
  young = false;
  idle = false;
  swapbacked = false;
  swapcache = false;
  readahead = false;
  writeback = false;
}

abbrev pub file_page : Folio
file_page = record blank {
  pfn = 7;
  nid = 0;
  zone = 0;
  refcount = 2;
  index = 4;
  mapping = some 3;
  bytes = 42;
  uptodate = true;
  referenced = true;
}

abbrev pub file_space : AddressSpace
file_space = record { id = 3; can_writeback = true; has_migrate_folio = true; has_writepage = true }

abbrev pub read_only : PteBits
read_only = record {
  write = false;
  young = true;
  dirty = false;
  soft_dirty = true;
  uffd_wp = false;
  exclusive = false;
}

-- Its mapping by a thread that reads it, and one in which it awaits the end of a migration.
abbrev pub reader : Vma
reader = record {
  page_prot = record read_only { soft_dirty = false };
  may_write = false;
  entries = present 7 read_only ∷ present 20 read_only ∷ [];
}

abbrev pub awaiting : Vma
awaiting = record reader {
  may_write = true;
  entries =
      migration 0 writable read_only ∷ present 20 read_only ∷ migration 0 readable read_only ∷ [];
}

abbrev pub unmapped : Migration
unmapped = record { src = file_page; dst = blank; slot = 7; stats = []; buffers = []; rmap = [] }

abbrev pub mapped : Migration
mapped = record unmapped {
  src = record file_page { refcount = 3; mapcount = 1 };
  rmap = reader ∷ [];
}

abbrev pub freeze : ℕ → ℕ → Bool
freeze = ◌==◌

pub freeze-IsExact : IsExact freeze
freeze-IsExact n k h = ground arith

abbrev pub numa : Numa
numa = record { tiering = false; is_toptier = λ n. true }

abbrev pub callbacks : Callbacks
callbacks = record {
  migrate_folio_op = λ mode m. (success, m);
  writepage = λ m. (written, m);
  clear_dirty_for_io = λ m. (true, record m { src = record (m.src) { dirty = false } });
  release_folio = λ m. (false, m);
  migrate_page_op = λ mode m. (fail eagain, m);
  is_movable = λ m. m.src.movable;
}

abbrev pub kernel : Kernel
kernel = record {
  now = λ t. min t 1000000;
  cpu = 1;
  pid = 100;
  memalloc = false;
  get_anon_vma = λ m. true;
  wait_writeback = λ m. record m { src = record (m.src) { writeback = false } };
  try_to_migrate = λ m. record m { src = record (m.src) { mapcount = 0; refcount = 2 } };
  try_to_free_buffers = λ m. m;
  freeze = freeze;
  numa = numa;
  callbacks = callbacks;
  space = some file_space;
  lru_space = some file_space;
}
