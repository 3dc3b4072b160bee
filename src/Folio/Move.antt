-- ===== src/Folio/Move.antt =====
-- arm64_files/migrate.c, lines 1193-1352: `writeout`, `fallback_migrate_folio` and
-- `move_to_new_folio`, which chooses the migration function of the folio.
pub mod Refuses
pub mod Leaves
use memory_migration_cs.Base.{
  ℕ, Bool, true, false, ◌||◌, not, Option, none, some, ◌≡◌, ◌⊎◌, inl, inr, refl, if◌then◌else◌,
  Mode, sync, is_full_sync, Rc, success, fail, eagain, ebusy, einval, eio, arith, Errno, Bool-cases,
  ap, ◌∙◌,
}
use memory_migration_cs.Folio.{Folio, AddressSpace, Migration}
use memory_migration_cs.Folio.Flags.{Numa, migrate_folio}
use memory_migration_cs.Folio.Restore.{remove_migration_ptes}

-- What `a_ops->writepage` returns: a negative error, 0, or AOP_WRITEPAGE_ACTIVATE, with which it
-- has not unlocked the page.
pub data Written : Type 0 where
  write_error written activate : Written

-- The code that `move_to_new_folio` calls and that is not in this file: the operations of the
-- address space, those of a movable page, and the release of a folio's private data.
pub record Callbacks : Type 0 where
  pub migrate_folio_op : Mode → Migration → Rc × Migration
  pub writepage : Migration → Written × Migration
  pub clear_dirty_for_io : Migration → Bool × Migration
  pub release_folio : Migration → Bool × Migration
  pub migrate_page_op : Mode → Migration → Rc × Migration
  pub is_movable : Migration → Bool

-- `folio_lock`, when the caller is the only one to take it.
abbrev pub lock_src : Migration → Migration
lock_src m = record m { src = record (m.src) { locked = true } }

-- The migration entries of the folio are turned back into entries that map it.
abbrev pub restore_src : Migration → Migration
restore_src m =
    let (rmap, f) = remove_migration_ptes m.src m.rmap in record m { rmap = rmap; src = f }

abbrev pub after_write : Written × Migration → Rc × Migration
after_write (write_error, m) = (fail eio, lock_src m)
after_write (written, m) = (fail eagain, lock_src m)
after_write (activate, m) = (fail eagain, m)

-- `writeout`. With AOP_WRITEPAGE_ACTIVATE the folio is still locked.
unfoldable pub writeout : Callbacks → AddressSpace → Migration → Rc × Migration
writeout c a m =
    let (cleared, m') = c.clear_dirty_for_io m in
    if not a.has_writepage
    then (fail einval, m)
    else if not cleared
    then (fail eagain, m')
    else after_write (c.writepage (restore_src m'))

-- `mode == MIGRATE_SYNC ? -EAGAIN : -EBUSY`.
abbrev pub busy_or_again : Mode → Errno
busy_or_again sync = eagain
busy_or_again mode = ebusy

-- `fallback_migrate_folio`: `none` is a BUG_ON.
unfoldable pub fallback_migrate_folio :
    (ℕ → ℕ → Bool) → Numa → Callbacks → AddressSpace → Mode → Migration → Option (Rc × Migration)
fallback_migrate_folio freeze n c a mode m =
    let (gone, m') = c.release_folio m in
    if m.src.dirty
    then some (if is_full_sync mode then writeout c a m else (fail ebusy, m))
    else if m.src.has_private
    then if gone
      then migrate_folio freeze n (some a) mode m'
      else some (fail (busy_or_again mode), m')
    else migrate_folio freeze n (some a) mode m

-- The choice of the function for a folio on the LRU, by `folio_mapping(src)`.
unfoldable pub migrate_lru :
    (ℕ → ℕ → Bool)
    → Numa
    → Callbacks
    → Option AddressSpace
    → Mode
    → Migration
    → Option (Rc × Migration)
unfolding fallback_migrate_folio
migrate_lru freeze n c none mode m = migrate_folio freeze n none mode m
migrate_lru freeze n c (some a) mode m =
    if a.has_migrate_folio
    then some (c.migrate_folio_op mode m)
    else fallback_migrate_folio freeze n c a mode m

-- After a success: a movable page is no longer isolated, and the old folio leaves its mapping, unless
-- the low bits of the pointer are to stay (`folio_mapping_flags`).
unfoldable pub leave_mapping : Folio → Folio
leave_mapping f = record f {
  isolated = if f.movable then false else f.isolated;
  mapping = if f.anon || f.movable then f.mapping else none;
}

abbrev pub after_move : Rc × Migration → Rc × Migration
after_move (success, m) = (success, record m { src = leave_mapping m.src })
after_move (fail e, m) = (fail e, m)

abbrev pub after_lru : Option (Rc × Migration) → Option (Rc × Migration)
after_lru none = none
after_lru (some r) = some (after_move r)

-- `move_to_new_folio`. `lru` is `!__PageMovable(&src->page)`.
unfoldable pub move_to_new_folio :
    (ℕ → ℕ → Bool)
    → Numa
    → Callbacks
    → Option AddressSpace
    → (lru : Bool) → Mode
    → Migration
    → Option (Rc × Migration)
unfolding migrate_lru leave_mapping
move_to_new_folio freeze n c mapping lru mode m =
    if lru
    then after_lru (migrate_lru freeze n c mapping mode m)
    else if c.is_movable m
    then some (after_move (c.migrate_page_op mode m))
    else some (success, record m { src = record (m.src) { isolated = false } })
