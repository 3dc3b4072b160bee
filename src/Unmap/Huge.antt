-- ===== src/Unmap/Huge.antt =====
-- arm64_files/migrate.c, lines 2167-2333: `unmap_and_move_huge_page`, from the lock of the hugetlb
-- folio to the store of its record.
use memory_migration_cs.Base.{
  Bool, true, false, ◌&&◌, ◌||◌, not, Option, none, some, [], ◌∷◌, ◌++◌, if◌then◌else◌, Mode, fail,
  ebusy, is_full_sync,
}
use memory_migration_cs.Timing.{TimingRecord}
use memory_migration_cs.Timing.Ring.{Commit}
use memory_migration_cs.Folio.{Migration}
use memory_migration_cs.Folio.Move.{move_to_new_folio}
use memory_migration_cs.Unmap.{
  Kernel, Run, set_src_locked, set_dst_locked, stamp, stamp_stage, on_stages,
}
use memory_migration_cs.Unmap.Pipeline.{is_mapped, begin, copied_or_bug, remap}

-- What it asks besides: `hugetlb_page_subpool` and no mapping, and whether
-- `hugetlb_page_mapping_lock_write` finds the mapping of a file page.
pub record HugeKernel : Type 0 where
  pub kernel : Kernel
  pub orphan_subpool : Migration → Bool
  pub lock_mapping : Migration → Bool

module _ (h : HugeKernel) (force : Bool) (mode : Mode) where
  abbrev k : Kernel
  k = h.kernel

  -- The record as it is stored, with every field read at the end.
  abbrev pub huge_record : Run → TimingRecord
  huge_record s =
      let m = s.mig in
      record (s.rec) {
        total_end_ns = s.rec.stages.unlock_end_ns;
        src_pfn = m.src.pfn;
        dst_pfn = m.dst.pfn;
        page_order = m.src.order;
        src_nid = m.src.nid;
        dst_nid = m.dst.nid;
        mapcount = m.src.mapcount;
        is_anon = m.src.anon;
        result = s.rc;
      }

  abbrev pub huge_store : Run → Commit
  huge_store s = record { on_cpu = k.cpu; by_pid = k.pid; body = huge_record s }

  unfoldable pub huge_commit : Run → Run
  huge_commit s = record s { rec = huge_record s; commits = s.commits ++ (huge_store s ∷ []) }

  -- `out_unlock`.
  unfoldable pub huge_out_unlock : Run → Run
  huge_out_unlock s = huge_commit (
      stamp_stage k (λ t g. record g { unlock_end_ns = t })
        (record s { mig = set_src_locked false s.mig }))

  -- `put_anon`.
  unfoldable pub put_anon : Run → Run
  put_anon s = huge_out_unlock (record s { anon_vma = false })

  -- `unlock_put_anon`.
  unfoldable pub unlock_put_anon : Run → Run
  unlock_put_anon s =
      let begun = stamp_stage k (λ t g. record g { unlock_start_ns = t }) s in
      put_anon (record begun { mig = set_dst_locked false begun.mig })

  -- Stages 4 and 5.
  abbrev pub huge_remap : Run → Run
  huge_remap s =
      if s.was_mapped
      then remap k force mode true s
      else stamp_stage k (λ t g. record g { remap_end_ns = t })
          (stamp_stage k (λ t g. record g { remap_start_ns = t }) s)

  abbrev pub huge_finish : Option Run → Option Run
  huge_finish none = none
  huge_finish (some s) = some (unlock_put_anon (huge_remap s))

  -- Stage 3: the copy is made if the unmapping was complete.
  unfoldable pub huge_copy : Run → Option Run
  huge_copy s =
      let begun = stamp_stage k (λ t g. record g { copy_start_ns = t }) s in
      let kept = stamp_stage k (λ t g. record g { copy_end_ns = t }) begun in
      if is_mapped begun.mig.src
      then huge_finish (some kept)
      else huge_finish (
          copied_or_bug k force mode true begun (
            move_to_new_folio k.freeze k.numa k.callbacks k.lru_space (not begun.mig.src.movable)
              mode begun.mig))

  abbrev pub huge_unmapped : Run → Run
  huge_unmapped s =
      let ended = stamp_stage k (λ t g. record g { unmap_end_ns = t }) s in
      record ended {
        rec = record (ended.rec) {
          try_migrate_end_ns = ended.rec.stages.unmap_end_ns;
          page_was_mapped = s.was_mapped;
        };
      }

  -- Stage 2: for a file page the mapping is locked first.
  unfoldable pub huge_unmap : Run → Option Run
  huge_unmap s =
      let begun = stamp_stage k (λ t g. record g { unmap_start_ns = t }) s in
      let begun' = record begun {
        rec = record (begun.rec) { try_migrate_start_ns = begun.rec.stages.unmap_start_ns };
      } in
      let tried = record begun' { mig = k.try_to_migrate begun'.mig; was_mapped = true } in
      if is_mapped begun'.mig.src
      then if not begun'.mig.src.anon && not (h.lock_mapping begun'.mig)
        then some (unlock_put_anon begun')
        else huge_copy (huge_unmapped tried)
      else huge_copy (huge_unmapped begun')

  -- The old folio is locked.
  unfoldable pub huge_locked : Run → Option Run
  huge_locked s =
      let t = stamp_stage k (λ t g. record g { lock_end_ns = t }) s in
      let held = record t { anon_vma = if t.mig.src.anon then k.get_anon_vma t.mig else false } in
      if h.orphan_subpool t.mig
      then some (huge_out_unlock (record t { rc = fail ebusy }))
      else if held.mig.dst.locked
      then some (put_anon held)
      else huge_unmap (record held { mig = set_dst_locked true held.mig })

  abbrev pub huge_begin : Migration → Run
  huge_begin m =
      let s = stamp k (λ t r. record r { total_start_ns = t }) (begin m) in
      on_stages k (λ g. record g { lock_start_ns = s.rec.total_start_ns }) s

  -- Stage 1: a locked folio is waited for if the call is forced and fully synchronous.
  unfoldable pub unmap_and_move_huge_folio : Migration → Option Run
  unmap_and_move_huge_folio m =
      let s = huge_begin m in
      let taken = record s { mig = set_src_locked true s.mig } in
      if m.src.locked
      then if not force || not (is_full_sync mode)
        then some (stamp_stage k (λ t g. record g { lock_end_ns = t }) s)
        else huge_locked (record taken { rec = record (taken.rec) { lock_contended = true } })
      else huge_locked taken
