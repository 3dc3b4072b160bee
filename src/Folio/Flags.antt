-- ===== src/Folio/Flags.antt =====
-- arm64_files/migrate.c, lines 872-1009: `folio_migrate_flags`, `folio_migrate_copy` and
-- `migrate_folio_extra`.
use memory_migration_cs.Base.{
  ℕ, Bool, true, false, ◌&&◌, ◌||◌, not, xor, Option, none, some, ◌≡◌, ◌≢◌, if◌then◌else◌, Mode,
  async, sync_light, sync, sync_no_copy, Rc, success, fail, eagain, arith, ◌⊎◌, inl, inr, refl,
}
use memory_migration_cs.Folio.{Folio, AddressSpace, Migration}
use memory_migration_cs.Folio.Cache.{folio_migrate_mapping}

-- The NUMA balancing that the flags' move consults: NUMA_BALANCING_MEMORY_TIERING, and which nodes
-- are in the top tier.
pub record Numa : Type 0 where
  pub tiering : Bool
  pub is_toptier : ℕ → Bool

-- The copy of `page_cpupid_xchg_last`'s value: `none` is -1.
unfoldable pub migrated_cpupid : Numa → Folio → Folio → Option ℕ
migrated_cpupid n dst src =
    if n.tiering && xor (n.is_toptier src.nid) (n.is_toptier dst.nid) then none else src.cpupid

-- The flags of the new folio. PG_active and PG_unevictable go over one or the other. The end of a
-- writeback of the new folio clears PG_readahead, which is the same bit as PG_reclaim.
unfoldable pub flags_of : Numa → Folio → Folio → Folio
unfolding migrated_cpupid
flags_of n dst src = record dst {
  error = dst.error || src.error;
  referenced = dst.referenced || src.referenced;
  uptodate = dst.uptodate || src.uptodate;
  active = dst.active || src.active;
  unevictable = dst.unevictable || (not src.active && src.unevictable);
  workingset = dst.workingset || src.workingset;
  checked = dst.checked || src.checked;
  mappedtodisk = dst.mappedtodisk || src.mappedtodisk;
  dirty = dst.dirty || src.dirty;
  young = dst.young || src.young;
  idle = dst.idle || src.idle;
  cpupid = migrated_cpupid n dst src;
  writeback = false;
  readahead = (not dst.writeback && dst.readahead) || src.readahead;
}

-- What is left of the old folio's flags.
unfoldable pub flags_left : Folio → Folio
flags_left src = record src {
  active = false;
  unevictable = src.active && src.unevictable;
  cpupid = none;
  swapcache = false;
  has_private = false;
  private = if src.hugetlb then src.private else none;
}

-- `folio_migrate_flags`. KSM, the page owner and the memory cgroup take note of the move elsewhere.
unfoldable pub folio_migrate_flags : Numa → Migration → Migration
unfolding flags_of flags_left
folio_migrate_flags n m = record m { dst = flags_of n m.dst m.src; src = flags_left m.src }

-- `folio_copy`.
unfoldable pub folio_copy : Migration → Migration
folio_copy m = record m { dst = record (m.dst) { bytes = m.src.bytes } }

-- `folio_migrate_copy`.
unfoldable pub folio_migrate_copy : Numa → Migration → Migration
unfolding folio_copy folio_migrate_flags
folio_migrate_copy n m = folio_migrate_flags n (folio_copy m)

-- `mode != MIGRATE_SYNC_NO_COPY`.
abbrev pub copies : Mode → Bool
copies sync_no_copy = false
copies mode = true

-- The end that the migration functions share: the copy with the flags, or the flags alone.
unfoldable pub copy_or_flags : Numa → Mode → Migration → Migration
unfolding folio_migrate_copy folio_migrate_flags
copy_or_flags n mode m = if copies mode then folio_migrate_copy n m else folio_migrate_flags n m

abbrev pub then_copy : Numa → Mode → Rc × Migration → Rc × Migration
then_copy n mode (success, m) = (success, copy_or_flags n mode m)
then_copy n mode (fail e, m) = (fail e, m)

-- `migrate_folio_extra`: `none` is the BUG_ON of a folio under writeback.
unfoldable pub migrate_folio_extra :
    (ℕ → ℕ → Bool) → Numa → Option AddressSpace → Mode → ℕ → Migration → Option (Rc × Migration)
unfolding copy_or_flags
migrate_folio_extra freeze n mapping mode extra m =
    if m.src.writeback
    then none
    else some (then_copy n mode (folio_migrate_mapping freeze mapping extra m))

-- `migrate_folio`.
unfoldable pub migrate_folio :
    (ℕ → ℕ → Bool) → Numa → Option AddressSpace → Mode → Migration → Option (Rc × Migration)
unfolding migrate_folio_extra
migrate_folio freeze n mapping mode m = migrate_folio_extra freeze n mapping mode 0 m

-- A flag of the old folio is one of the new.
abbrev pub Keeps : Bool → Bool → Type 0
Keeps old new = old ≡ true → new ≡ true

-- What a reader of the new folio finds of the old one's state.
pub record IsCarried (src dst : Folio) : Type 0 where
  pub error_kept : Keeps src.error dst.error
  pub referenced_kept : Keeps src.referenced dst.referenced
  pub uptodate_kept : Keeps src.uptodate dst.uptodate
  pub active_kept : Keeps src.active dst.active
  pub unevictable_kept : src.active ≡ false → Keeps src.unevictable dst.unevictable
  pub workingset_kept : Keeps src.workingset dst.workingset
  pub checked_kept : Keeps src.checked dst.checked
  pub mappedtodisk_kept : Keeps src.mappedtodisk dst.mappedtodisk
  pub dirty_kept : Keeps src.dirty dst.dirty
  pub young_kept : Keeps src.young dst.young
  pub idle_kept : Keeps src.idle dst.idle
  pub readahead_kept : Keeps src.readahead dst.readahead

-- What `folio_migrate_flags` and the copy carry over, from a state that the mapping's move has left.
IsCarried-copy_or_flags :
    (n : Numa) (mode : Mode) (m : Migration)
    → let m' = copy_or_flags n mode m in
      IsCarried m.src m'.dst
      × (copies mode ≡ true → m'.dst.bytes ≡ m.src.bytes)
      × (copies mode ≡ false → m'.dst.bytes ≡ m.dst.bytes)
      × (m'.dst.mapping ≡ m.dst.mapping)
      × (m'.src.swapcache ≡ false)
      × (m'.src.has_private ≡ false)
      × (m.dst.dirty ≡ true → m'.dst.dirty ≡ true)
unfolding copy_or_flags
IsCarried-copy_or_flags n async m = ground arith
IsCarried-copy_or_flags n sync_light m = ground arith
IsCarried-copy_or_flags n sync m = ground arith
IsCarried-copy_or_flags n sync_no_copy m = ground arith

-- The fields of the old folio that the mapping's move does not touch, and the dirty flag.
record IsSameBut (m m' : Migration) : Type 0 where
  same_error : m'.src.error ≡ m.src.error
  same_referenced : m'.src.referenced ≡ m.src.referenced
  same_uptodate : m'.src.uptodate ≡ m.src.uptodate
  same_active : m'.src.active ≡ m.src.active
  same_unevictable : m'.src.unevictable ≡ m.src.unevictable
  same_workingset : m'.src.workingset ≡ m.src.workingset
  same_checked : m'.src.checked ≡ m.src.checked
  same_mappedtodisk : m'.src.mappedtodisk ≡ m.src.mappedtodisk
  same_young : m'.src.young ≡ m.src.young
  same_idle : m'.src.idle ≡ m.src.idle
  same_readahead : m'.src.readahead ≡ m.src.readahead
  same_bytes : m'.src.bytes ≡ m.src.bytes
  kept_bytes : m'.dst.bytes ≡ m.dst.bytes
  same_mapping : m'.dst.mapping ≡ m.src.mapping
  dirty_somewhere : m.src.dirty ≡ true → (m'.src.dirty ≡ true) ⊎ (m'.dst.dirty ≡ true)

IsSameBut-folio_migrate_mapping :
    (freeze : ℕ → ℕ → Bool) (mapping : Option AddressSpace) (extra : ℕ) (m : Migration)
    → (folio_migrate_mapping freeze mapping extra m ≡ (fail eagain, m))
      ⊎ (((folio_migrate_mapping freeze mapping extra m).0 ≡ success)
          × IsSameBut m (folio_migrate_mapping freeze mapping extra m).1)
unfolding folio_migrate_mapping
IsSameBut-folio_migrate_mapping freeze none extra m = ground arith
IsSameBut-folio_migrate_mapping freeze (some a) extra m = ground arith

-- What a migration function of a folio promises, with the return value `rc`.
pub record IsMigrated (mode : Mode) (m : Migration) (rc : Rc) (m' : Migration) : Type 0 where
  pub carried : rc ≡ success → IsCarried m.src m'.dst
  pub copied : rc ≡ success → copies mode ≡ true → m'.dst.bytes ≡ m.src.bytes
  pub not_copied : rc ≡ success → copies mode ≡ false → m'.dst.bytes ≡ m.dst.bytes
  pub mapped : rc ≡ success → m'.dst.mapping ≡ m.src.mapping
  pub released : rc ≡ success → (m'.src.swapcache ≡ false) × (m'.src.has_private ≡ false)
  pub unchanged : rc ≢ success → (rc ≡ fail eagain) × (m' ≡ m)

IsMigrated-of_success :
    (n : Numa) (mode : Mode) (m : Migration) (r : Rc × Migration)
    → r.0 ≡ success
    → IsSameBut m r.1
    → IsMigrated mode m (then_copy n mode r).0 (then_copy n mode r).1
IsMigrated-of_success n mode m (success, m') e same = record {
  carried = λ z. ground (arith, IsCarried-copy_or_flags n mode m');
  copied = λ z c. ground (arith, IsCarried-copy_or_flags n mode m');
  not_copied = λ z c. ground (arith, IsCarried-copy_or_flags n mode m');
  mapped = λ z. ground (arith, IsCarried-copy_or_flags n mode m');
  released = λ z. ground (arith, IsCarried-copy_or_flags n mode m');
  unchanged = λ ne. absurd (ne refl);
}
IsMigrated-of_success n mode m (fail x, m') e same = cc

pub IsMigrated-then_copy :
    (freeze : ℕ → ℕ → Bool) (n : Numa) (mapping : Option AddressSpace) (mode : Mode) (extra : ℕ)
    (m : Migration)
    → let r = then_copy n mode (folio_migrate_mapping freeze mapping extra m) in
      IsMigrated mode m r.0 r.1
IsMigrated-then_copy freeze n mapping mode extra m =
    elim (IsSameBut-folio_migrate_mapping freeze mapping extra m) [
      | inl e ↦ rw e (ground arith)
      | inr (ok, same) ↦
          IsMigrated-of_success n mode m (folio_migrate_mapping freeze mapping extra m) ok same
    ]
