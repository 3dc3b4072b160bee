-- ===== src/Unmap/Pipeline.antt =====
-- arm64_files/migrate.c, lines 1680-2066, continued: the stages of the standard path, the guards in
-- front of them, and the whole of `__unmap_and_move`. `none` is a BUG_ON of a migration function.
use memory_migration_cs.Base.{
  ℕ, Bool, true, false, ◌&&◌, ◌||◌, not, Option, none, some, [], ltb, if◌then◌else◌, Mode, Rc, fail,
  eagain, ebusy, is_async, is_full_sync, is_success,
}
use memory_migration_cs.Timing.{zero_record}
use memory_migration_cs.Folio.{Folio, Migration}
use memory_migration_cs.Folio.Restore.{remove_migration_ptes}
use memory_migration_cs.Folio.Rocm.{folio_all_mappings_readonly}
use memory_migration_cs.Folio.Move.{move_to_new_folio}
use memory_migration_cs.Unmap.{
  Kernel, Run, set_src_locked, set_dst_locked, stamp, stamp_stage, skip_unmap, skip_copy,
  skip_remap, out, out_unlock, out_unlock_both, snapshot, rocm_path, add_lru,
}

-- `folio_mapped`.
abbrev pub is_mapped : Folio → Bool
is_mapped f = ltb 0 f.mapcount

module _ (k : Kernel) (force : Bool) (mode : Mode) (lru : Bool) where
  -- Stage 3 with `move_to_new_folio`, or skipped while the page is still mapped.
  abbrev pub copied : Run → Rc × Migration → Run
  copied s (rc, m) =
      stamp_stage k (λ t g. record g { copy_end_ns = t }) (record s { mig = m; rc = rc })

  abbrev pub copied_or_bug : Run → Option (Rc × Migration) → Option Run
  copied_or_bug s none = none
  copied_or_bug s (some r) = some (copied s r)

  unfoldable pub move_stage : Run → Option Run
  move_stage s =
      let begun = stamp_stage k (λ t g. record g { copy_start_ns = t }) s in
      copied_or_bug begun
        (move_to_new_folio k.freeze k.numa k.callbacks k.lru_space lru mode begun.mig)

  unfoldable pub copy_stage : Run → Option Run
  copy_stage s = if is_mapped s.mig.src then some (skip_copy k s) else move_stage s

  -- Stage 4: `remove_migration_ptes(src, rc == MIGRATEPAGE_SUCCESS ? dst : src, false)`.
  abbrev pub remap : Run → Run
  remap s =
      let begun = stamp_stage k (λ t g. record g { remap_start_ns = t }) s in
      let m = begun.mig in
      let (rmap_dst, dst) = remove_migration_ptes m.dst m.rmap in
      let (rmap_src, src) = remove_migration_ptes m.src m.rmap in
      let remapped = record begun {
        mig =
            if is_success s.rc
            then record m { dst = dst; rmap = rmap_dst }
            else record m { src = src; rmap = rmap_src };
      } in
      stamp_stage k (λ t g. record g { remap_end_ns = t }) remapped

  unfoldable pub remap_stage : Run → Run
  remap_stage s = if s.was_mapped then remap s else skip_remap k s

  -- Stages 4 and 5.
  abbrev pub finish_standard : Option Run → Option Run
  finish_standard none = none
  finish_standard (some s) = some (out_unlock_both k (remap_stage (add_lru k s)))

  -- Stages 3 to 5 of the standard path.
  unfoldable pub standard_path : Run → Option Run
  standard_path s = finish_standard (copy_stage s)

  -- Stage 2: `try_to_migrate`.
  unfoldable pub unmap_stage : Run → Run
  unmap_stage s =
      let begun = stamp_stage k (λ t g. record g { unmap_start_ns = t }) s in
      let trying = stamp k (λ t r. record r { try_migrate_start_ns = t }) begun in
      let tried = record trying { mig = k.try_to_migrate trying.mig } in
      let ended = stamp k (λ t r. record r { try_migrate_end_ns = t }) tried in
      let unmapped = stamp_stage k (λ t g. record g { unmap_end_ns = t }) ended in
      record unmapped { was_mapped = true; rec = record (unmapped.rec) { page_was_mapped = true } }

  unfoldable pub mapped_path : Run → Option Run
  mapped_path s =
      if folio_all_mappings_readonly s.mig.src k.space s.mig.rmap mode
      then some (rocm_path k s)
      else standard_path (unmap_stage s)

  -- `!src->mapping` with private data: the buffers are freed, and the call is tried again later.
  unfoldable pub orphan_path : Run → Run
  orphan_path s =
      let unmapped = skip_unmap k s in
      let freed = record unmapped { mig = k.try_to_free_buffers unmapped.mig } in
      out_unlock_both k (skip_remap k (skip_copy k freed))

  -- A movable page that is not on the LRU.
  abbrev pub finish_movable : Option Run → Option Run
  finish_movable none = none
  finish_movable (some s) = some (out_unlock_both k (skip_remap k s))

  unfoldable pub movable_path : Run → Option Run
  movable_path s = finish_movable (move_stage (skip_unmap k s))

  -- From the lock of the new folio on.
  unfoldable pub path_of_mapping : Option ℕ → Run → Option Run
  path_of_mapping none s =
      if s.mig.src.has_private
      then some (orphan_path s)
      else standard_path (record (skip_unmap k s) {
        rec = record ((skip_unmap k s).rec) { page_was_mapped = false };
      })
  path_of_mapping (some a) s =
      if is_mapped s.mig.src
      then mapped_path s
      else standard_path (record (skip_unmap k s) {
        rec = record ((skip_unmap k s).rec) { page_was_mapped = false };
      })

  abbrev pub with_dst : Run → Run
  with_dst s = record s {
    mig = set_dst_locked true s.mig;
    rec = record (s.rec) { dst_pfn = s.mig.dst.pfn; dst_nid = s.mig.dst.nid };
  }

  unfoldable pub both_locked : Run → Option Run
  both_locked s =
      let t = with_dst s in if lru then path_of_mapping t.mig.src.mapping t else movable_path t

  -- `folio_get_anon_vma`, then `folio_trylock(dst)`.
  unfoldable pub lock_dst : Run → Option Run
  lock_dst s =
      let f = s.mig.src in
      let held = record s {
        anon_vma = if f.anon && not f.ksm then k.get_anon_vma s.mig else s.anon_vma;
      } in
      if s.mig.dst.locked then some (out_unlock k held) else both_locked held

  -- The wait for a writeback.
  unfoldable pub src_locked : Run → Option Run
  src_locked s =
      let t = stamp_stage k (λ t g. record g { lock_end_ns = t }) s in
      if t.mig.src.writeback
      then if is_full_sync mode
        then if force
          then lock_dst (record t { mig = k.wait_writeback t.mig })
          else some (out_unlock k t)
        else some (out_unlock k (record t { rc = fail ebusy }))
      else lock_dst t

  -- Stage 1: a locked folio is waited for, or given up.
  unfoldable pub lock_stage : Run → Option Run
  lock_stage s =
      let taken = record s { mig = set_src_locked true s.mig } in
      if s.mig.src.locked
      then if not force || is_async mode || k.memalloc
        then some (out k s)
        else src_locked (record taken { rec = record (taken.rec) { lock_contended = true } })
      else src_locked taken

abbrev pub begin : Migration → Run
begin m = record {
  mig = m;
  rec = zero_record;
  ticks = 0;
  rc = fail eagain;
  was_mapped = false;
  anon_vma = false;
  on_lru = false;
  commits = [];
}

-- `__unmap_and_move`.
unfoldable pub unmap_and_move_folio : Kernel → Bool → Mode → Migration → Option Run
unmap_and_move_folio k force mode m =
    lock_stage k force mode (not m.src.movable) (snapshot k (begin m))
