-- ===== src/Tests/UnmapRuns.antt =====
-- Whole migrations of single folios by arm64_files/migrate.c, lines 1680-2333.
use memory_migration_cs.Base.{
  true, false, ◌&&◌, ◌||◌, not, none, some, Option, ◌∷◌, [], ◌≡◌, ◌≢◌, refl, arith, sync, success,
  fail, eagain, is_async, is_full_sync, ◌⊎◌, async, ebusy,
}
use memory_migration_cs.Folio.{Migration}
use memory_migration_cs.Folio.Cache.{folio_migrate_mapping}
use memory_migration_cs.Folio.Flags.{folio_copy}
use memory_migration_cs.Folio.Rocm.{rocm_swap_ptes}
use memory_migration_cs.Unmap.{Run, rocm_path, rocm_copied, set_src_locked, set_dst_locked}
use memory_migration_cs.Unmap.Pipeline.{begin, unmap_and_move_folio}
use memory_migration_cs.Unmap.Release.{Ends}
use memory_migration_cs.Unmap.Ends.{unmap_and_move_folio-Ends}
use memory_migration_cs.Unmap.Timeline.{IsClock, Timely}
use memory_migration_cs.Unmap.Timely.{unmap_and_move_folio-Timely}
use memory_migration_cs.Unmap.Accepts.{rocm_path-accepts}
use memory_migration_cs.Unmap.Huge.{HugeKernel, unmap_and_move_huge_folio}
use memory_migration_cs.Unmap.HugeEnds.{HugeEnds, unmap_and_move_huge_folio-ends}
use memory_migration_cs.Unmap.Page.{
  Allocation, Moving, SettlesAll, unmap_and_move, unmap_and_move-SettlesAll,
}
use memory_migration_cs.Batch.Driver.{Batch, migrate_pages}
use memory_migration_cs.Batch.Counts.{IsMover}
use memory_migration_cs.Batch.Outcome.{IsTold}
use memory_migration_cs.Unmap.HugePage.{HugeMoving}
use memory_migration_cs.Batch.Rounds.{SplitsToBase}
use memory_migration_cs.Timing.Ring.{Commit}
use memory_migration_cs.Unmap.Refused.{IsShownRefused, unmap_and_move_folio-IsShownRefused}
use memory_migration_cs.Unmap.Mover.{Pages, Setup, kernel_mover, migrate_pages-kernel_mover}
use memory_migration_cs.Tests.BatchRuns.{page}
use memory_migration_cs.Tests.Samples.{blank, mapped, kernel}

unmap_and_move_folio-Ends_example :
    ((mapped.src.locked && (not true || is_async sync || kernel.memalloc)) ≡ true
      → (s : Run) × (unmap_and_move_folio kernel true sync mapped ≡ some s)
        × (s.mig ≡ mapped)
        × (s.rc ≡ fail eagain)
        × (s.commits ≡ []))
    × ((mapped.src.locked && (not true || is_async sync || kernel.memalloc)) ≡ false
        → Ends (unmap_and_move_folio kernel true sync mapped))
unmap_and_move_folio-Ends_example = unmap_and_move_folio-Ends kernel true sync mapped

clock : IsClock kernel.now
clock = record { forwards = λ t. omega arith; in_u64 = λ t. omega arith }

unmap_and_move_folio-Timely_example : Timely (unmap_and_move_folio kernel true sync mapped)
unmap_and_move_folio-Timely_example = unmap_and_move_folio-Timely kernel clock true sync mapped

-- A page that the ROCM path has locked, with one reference more than the page cache and its mapping
-- hold.
abbrev pinned : Run
pinned = begin (
    set_dst_locked true
      (set_src_locked true (record mapped { src = record (mapped.src) { refcount = 4 } })))

rocm_path-accepts_example :
    let r = rocm_path kernel pinned in
    let swapped = (rocm_swap_ptes (rocm_copied kernel pinned).mig).1 in
    (r.rc ≡ success)
    × (r.mig.dst.bytes ≡ 42)
    × (r.mig.src.mapping ≡ some 3)
    × ((folio_migrate_mapping kernel.freeze kernel.space 0 swapped).0 ≢ success
        → (r.mig.slot ≡ 7) × (r.mig.dst.mapping ≡ none))
unfolding rocm_swap_ptes folio_copy
rocm_path-accepts_example = rocm_path-accepts kernel pinned 1 refl

abbrev huge_kernel : HugeKernel
huge_kernel = record { kernel = kernel; orphan_subpool = λ m. false; lock_mapping = λ m. true }

unmap_and_move_huge_folio-ends_example :
    ((mapped.src.locked && (not false || not (is_full_sync sync))) ≡ true
      → (s : Run) × (unmap_and_move_huge_folio huge_kernel false sync mapped ≡ some s)
        × (s.mig ≡ mapped)
        × (s.rc ≡ fail eagain)
        × (s.commits ≡ []))
    × ((mapped.src.locked && (not false || not (is_full_sync sync))) ≡ false
        → HugeEnds (unmap_and_move_huge_folio huge_kernel false sync mapped))
unmap_and_move_huge_folio-ends_example =
    unmap_and_move_huge_folio-ends huge_kernel false sync mapped

abbrev allocation : Allocation
allocation = record { thp_supported = false; get_new_page = λ m. some blank }

abbrev moving : Moving
moving = record { mig = mapped; commits = []; isolated_dropped = 0; given_back = 0 }

unmap_and_move-SettlesAll_example :
    SettlesAll moving (unmap_and_move allocation kernel false sync false moving)
unmap_and_move-SettlesAll_example =
    unmap_and_move-SettlesAll allocation kernel false sync false moving

abbrev huge_moving : HugeMoving
huge_moving = record {
  mig = mapped;
  commits = [];
  old_put_back = 0;
  new_put_back = 0;
  given_back = 0;
}

-- No THP can be split here.
-- Each page with a kernel of its own: the process that moves it is named after the frame.
abbrev setup : Setup
setup = record {
  kernel = λ n. record kernel { pid = n };
  allocation = λ n. allocation;
  huge_kernel = λ n. huge_kernel;
  huge_allocation =
      λ n. record { supported = true; get_new_page = λ m. some blank; has_put = true };
  mode = sync;
  keeps_ref = false;
  split = λ w p. (w, none);
}

abbrev all_pages : Pages
all_pages = record { moving = λ n. moving; huge = λ n. huge_moving }

setup-SplitsToBase : SplitsToBase (kernel_mover setup)
setup-SplitsToBase none p head tails h = absurd (cc)
setup-SplitsToBase (some v) p head tails h = absurd (cc)

migrate_pages-kernel_mover_example :
    IsMover (kernel_mover setup)
    × (b : Batch (Option Pages)) × (migrate_pages
          (kernel_mover setup)
          false
          (page 3 ∷ page 4 ∷ [])
          (some all_pages)
        ≡ some b)
    × ((b.world ≡ none) ⊎ ((v : Pages) × (b.world ≡ some v) × IsTold b))
migrate_pages-kernel_mover_example =
    migrate_pages-kernel_mover setup setup-SplitsToBase false (page 3 ∷ page 4 ∷ []) all_pages

-- A folio that is being written back.
abbrev in_writeback : Migration
in_writeback = record mapped { src = record (mapped.src) { writeback = true } }

unmap_and_move_folio-IsShownRefused_example :
    (s : Run) × (unmap_and_move_folio kernel true async in_writeback ≡ some s)
    × (s.rc ≡ fail ebusy)
    × (s.mig ≡ set_src_locked false in_writeback)
    × (c : Commit) × (s.commits ≡ c ∷ [])
    × IsShownRefused kernel c
unmap_and_move_folio-IsShownRefused_example =
    unmap_and_move_folio-IsShownRefused kernel true async in_writeback refl refl refl
