-- ===== src/Unmap.antt =====
-- arm64_files/migrate.c, lines 1680-2066: `__unmap_and_move`, the five stages of the migration of one
-- folio, with the timestamps that it takes on the way.
pub mod Pipeline
pub mod Release
pub mod Ends
pub mod Timeline
pub mod Timely
pub mod Accepts
pub mod Huge
pub mod HugeEnds
pub mod Page
pub mod HugePage
pub mod Mover
pub mod Refused
use memory_migration_cs.Base.{
  ℕ, suc, ◌+◌, ◌-◌, Bool, true, false, ◌&&◌, ◌||◌, not, Option, none, some, List, [], ◌∷◌, ◌++◌,
  ltb, if◌then◌else◌, Mode, Rc, success, fail, eagain, ebusy, is_async, is_full_sync, is_eagain,
  is_success,
}
use memory_migration_cs.Timing.{StageTiming, TimingRecord, zero_record}
use memory_migration_cs.Timing.Ring.{Commit}
use memory_migration_cs.Folio.{Folio, AddressSpace, Migration}
use memory_migration_cs.Folio.Cache.{folio_migrate_mapping}
use memory_migration_cs.Folio.Flags.{Numa, folio_copy, folio_migrate_flags}
use memory_migration_cs.Folio.Restore.{remove_migration_ptes}
use memory_migration_cs.Folio.Rocm.{folio_all_mappings_readonly, rocm_swap_ptes}
use memory_migration_cs.Folio.Move.{Callbacks, move_to_new_folio}

-- What the migration meets of the kernel: the clock by the number of the reading, the CPU and thread,
-- PF_MEMALLOC, and the functions of other files. `space` is the address space of `src->mapping`, and
-- `lru_space` that of `folio_mapping(src)`.
pub record Kernel : Type 0 where
  pub now : ℕ → ℕ
  pub cpu : ℕ
  pub pid : ℕ
  pub memalloc : Bool
  pub get_anon_vma : Migration → Bool
  pub wait_writeback : Migration → Migration
  pub try_to_migrate : Migration → Migration
  pub try_to_free_buffers : Migration → Migration
  pub freeze : ℕ → ℕ → Bool
  pub numa : Numa
  pub callbacks : Callbacks
  pub space : Option AddressSpace
  pub lru_space : Option AddressSpace

-- The state of a call: the folios, the record, how often the clock was read, the local variables
-- `rc`, `page_was_mapped` and `anon_vma` (whether a reference is held), whether the new folio has
-- been given to the LRU, and the calls of `mig_timing_store`.
pub record Run : Type 0 where
  pub mig : Migration
  pub rec : TimingRecord
  pub ticks : ℕ
  pub rc : Rc
  pub was_mapped : Bool
  pub anon_vma : Bool
  pub on_lru : Bool
  pub commits : List Commit

abbrev pub set_src_locked : Bool → Migration → Migration
set_src_locked b m = record m { src = record (m.src) { locked = b } }

abbrev pub set_dst_locked : Bool → Migration → Migration
set_dst_locked b m = record m { dst = record (m.dst) { locked = b } }

module _ (k : Kernel) where
  open k use {now}

  -- One reading of the clock, put where `set` says.
  abbrev pub stamp : (ℕ → TimingRecord → TimingRecord) → Run → Run
  stamp set s = record s { rec = set (now s.ticks) s.rec; ticks = s.ticks + 1 }

  abbrev pub stamp_stage : (ℕ → StageTiming → StageTiming) → Run → Run
  stamp_stage set s = record s {
    rec = record (s.rec) { stages = set (now s.ticks) s.rec.stages };
    ticks = s.ticks + 1;
  }

  abbrev pub on_stages : (StageTiming → StageTiming) → Run → Run
  on_stages f s = record s { rec = record (s.rec) { stages = f s.rec.stages } }

  -- A stage that is skipped: its start is read, and its end is the same.
  abbrev pub skip_unmap : Run → Run
  skip_unmap s = stamp_stage (λ t g. record g { unmap_start_ns = t; unmap_end_ns = t }) s

  abbrev pub skip_copy : Run → Run
  skip_copy s = stamp_stage (λ t g. record g { copy_start_ns = t; copy_end_ns = t }) s

  abbrev pub skip_remap : Run → Run
  skip_remap s = stamp_stage (λ t g. record g { remap_start_ns = t; remap_end_ns = t }) s

  -- `out`: the reference to the new folio is dropped after a success.
  unfoldable pub out : Run → Run
  out s =
      if is_success s.rc
      then record s {
        mig = record (s.mig) { dst = record (s.mig.dst) { refcount = s.mig.dst.refcount - 1 } };
      }
      else s

  -- `if (rc == MIGRATEPAGE_SUCCESS || rc != -EAGAIN) mig_timing_store(&rec);`
  unfoldable pub commit : Run → Run
  commit s =
      if is_success s.rc || not (is_eagain s.rc)
      then record s {
        commits = s.commits ++ (record { on_cpu = k.cpu; by_pid = k.pid; body = s.rec } ∷ []);
      }
      else s

  -- `out_unlock`.
  unfoldable pub out_unlock : Run → Run
  out_unlock s =
      let put = record s { anon_vma = false; mig = set_src_locked false s.mig } in
      let unlocked = stamp_stage (λ t g. record g { unlock_end_ns = t }) put in
      let ended = stamp (λ t r. record r { result = s.rc; total_end_ns = t }) unlocked in
      out (commit ended)

  -- `out_unlock_both`.
  unfoldable pub out_unlock_both : Run → Run
  out_unlock_both s =
      let begun = stamp_stage (λ t g. record g { unlock_start_ns = t }) s in
      out_unlock (record begun { mig = set_dst_locked false begun.mig })

  -- The record's fields that are read before any change, and the start of the lock stage.
  unfoldable pub snapshot : Run → Run
  snapshot s =
      let f = s.mig.src in
      let begun =
        stamp
          (λ t r. record r {
            total_start_ns = t;
            src_pfn = f.pfn;
            page_order = f.order;
            src_nid = f.nid;
            is_anon = f.anon;
            mapcount = f.mapcount;
          })
          s in
      stamp_stage (λ t g. record g { lock_start_ns = t }) begun

  -- The ROCM path: the copy, then the swap. `true` says that it goes on behind it, `false` that it
  -- has jumped to `out_unlock_both`.
  abbrev pub rocm_copied : Run → Run
  rocm_copied s =
      let begun = stamp_stage (λ t g. record g { copy_start_ns = t }) s in
      let copied = record begun { mig = folio_copy begun.mig } in
      let ended = stamp_stage (λ t g. record g { copy_end_ns = t }) copied in
      let swapping = stamp_stage (λ t g. record g { unmap_start_ns = t }) ended in
      stamp (λ t r. record r { ro_swap_start_ns = t }) swapping

  -- After the swap: the mapping is moved, and a failure of that counts as a success.
  abbrev pub rocm_moved : Migration → Run → Run
  rocm_moved m s =
      let swapped = stamp (λ t r. record r { ro_swap_end_ns = t }) (record s { mig = m }) in
      let unmapped = stamp_stage (λ t g. record g { unmap_end_ns = t }) swapped in
      let (rc, moved) = folio_migrate_mapping k.freeze k.space 0 unmapped.mig in
      let flagged = record unmapped { mig = folio_migrate_flags k.numa moved; rc = success } in
      let remapped = skip_remap flagged in
      record remapped {
        was_mapped = true;
        rec = record (remapped.rec) { page_was_mapped = true; rocm_path = true };
      }

  -- The swap found no entry in front of a PMD.
  abbrev pub rocm_aborted : Migration → Run → Run
  rocm_aborted m s =
      let swapped = stamp (λ t r. record r { ro_swap_end_ns = t }) (record s { mig = m }) in
      let unmapped = stamp_stage (λ t g. record g { unmap_end_ns = t }) swapped in
      record (skip_remap unmapped) { rc = fail eagain }

  -- `folio_add_lru(dst)` after a success.
  abbrev pub add_lru : Run → Run
  add_lru s = if is_success s.rc then record s { on_lru = true } else s

  -- The end of the ROCM path.
  unfoldable pub rocm_path : Run → Run
  rocm_path s =
      let c = rocm_copied s in
      let (n, m) = rocm_swap_ptes c.mig in
      elim n [
        | none ↦ out_unlock_both (rocm_aborted m c)
        | some swapped ↦ out_unlock_both (add_lru (rocm_moved m c))
      ]
