-- ===== src/Unmap/Mover.antt =====
-- The moves of single pages that `migrate_pages` (arm64_files/migrate.c, lines 2424-2433) calls,
-- made of `unmap_and_move` and `unmap_and_move_huge_page`.
use memory_migration_cs.Base.{
  ℕ, ◌==◌, Bool, Option, none, some, List, ◌≡◌, ◌⊎◌, inl, inr, refl, if◌then◌else◌, Mode,
}
use memory_migration_cs.Batch.{Page, Attempt, released, stays, returned, Mover}
use memory_migration_cs.Batch.Counts.{IsMover, IsPlaced}
use memory_migration_cs.Batch.Driver.{Batch, migrate_pages}
use memory_migration_cs.Batch.Outcome.{IsTold, migrate_pages-verdict}
use memory_migration_cs.Batch.Rounds.{SplitsToBase, migrate_pages-returns}
use memory_migration_cs.Unmap.{Kernel}
use memory_migration_cs.Unmap.Huge.{HugeKernel}
use memory_migration_cs.Unmap.Page.{
  Allocation, Moving, SettlesAll, unmap_and_move, unmap_and_move-SettlesAll,
}
use memory_migration_cs.Unmap.HugePage as Huge

-- The states of the pages, by frame number.
pub record Pages : Type 0 where
  pub moving : ℕ → Moving
  pub huge : ℕ → Huge.HugeMoving

-- What a call of `migrate_pages` passes on. Each page, by frame number, has what the kernel does for
-- it: its address space and mappings, and the allocation of its new page.
pub record Setup : Type 0 where
  pub kernel : ℕ → Kernel
  pub allocation : ℕ → Allocation
  pub huge_kernel : ℕ → HugeKernel
  pub huge_allocation : ℕ → Huge.HugeAllocation
  pub mode : Mode
  pub keeps_ref : Bool
  pub split : Pages → Page → Pages × Option (Page × List Page)

-- The attempt at one page in the state of all. The state `none` says that a BUG_ON has been met: the
-- run has ended there, and what is computed behind it stands for nothing.
abbrev pub lift : {A : Type 0} → (A → Pages) → Option (Attempt A) → Attempt (Option Pages)
lift put none = released none
lift put (some (released v)) = released (some (put v))
lift put (some (stays e v)) = stays e (some (put v))
lift put (some (returned e v)) = returned e (some (put v))

abbrev pub split_page :
    (Pages → Page → Pages × Option (Page × List Page))
    → Option Pages
    → Page
    → Option Pages × Option (Page × List Page)
split_page split none p = (none, none)
split_page split (some w) p = let (v, r) = split w p in (some v, r)

abbrev pub set_moving : Pages → ℕ → Moving → Pages
set_moving w pfn v = record w { moving = λ n. if pfn == n then v else w.moving n }

abbrev pub set_huge : Pages → ℕ → Huge.HugeMoving → Pages
set_huge w pfn v = record w { huge = λ n. if pfn == n then v else w.huge n }

module _ (c : Setup) where
  abbrev pub move_page : Option Pages → Page → Bool → Attempt (Option Pages)
  move_page none p force = released none
  move_page (some w) p force = lift (set_moving w p.pfn) (
      unmap_and_move (c.allocation p.pfn) (c.kernel p.pfn) force c.mode c.keeps_ref
        (w.moving p.pfn))

  abbrev pub move_huge_page : Option Pages → Page → Bool → Attempt (Option Pages)
  move_huge_page none p force = released none
  move_huge_page (some w) p force = lift (set_huge w p.pfn) (
      Huge.unmap_and_move_huge_page (c.huge_allocation p.pfn) (c.huge_kernel p.pfn) force c.mode
        (w.huge p.pfn))

  abbrev pub kernel_mover : Mover (Option Pages)
  kernel_mover = record {
    unmap_and_move = move_page;
    unmap_and_move_huge_page = move_huge_page;
    split = split_page c.split;
  }

  lift-IsPlaced :
      (w : Pages) (put : Moving → Pages) (v : Moving) (o : Option (Attempt Moving))
      → SettlesAll v o
      → IsPlaced (lift put o)
  lift-IsPlaced w put v none h = tt
  lift-IsPlaced w put v (some (released u)) h = tt
  lift-IsPlaced w put v (some (stays e u)) h = h.1
  lift-IsPlaced w put v (some (returned e u)) h = h.1

  lift-IsPlaced_huge :
      (w : Pages) (put : Huge.HugeMoving → Pages) (v : Huge.HugeMoving)
      (o : Option (Attempt Huge.HugeMoving))
      → Huge.SettlesAll v o
      → IsPlaced (lift put o)
  lift-IsPlaced_huge w put v none h = tt
  lift-IsPlaced_huge w put v (some (released u)) h = tt
  lift-IsPlaced_huge w put v (some (stays e u)) h = h.1
  lift-IsPlaced_huge w put v (some (returned e u)) h = h.1

  kernel_mover-IsMover : IsMover kernel_mover
  kernel_mover-IsMover = record {
    places = λ w p force. placed w p force;
    places_huge = λ w p force. placed_huge w p force;
  }
    where
      placed : (w : Option Pages) (p : Page) (force : Bool) → IsPlaced (move_page w p force)
      placed none p force = tt
      placed (some w) p force = lift-IsPlaced w (set_moving w p.pfn) (w.moving p.pfn) _ (
          unmap_and_move-SettlesAll (c.allocation p.pfn) (c.kernel p.pfn) force c.mode c.keeps_ref
            (w.moving p.pfn))

      placed_huge :
          (w : Option Pages) (p : Page) (force : Bool) → IsPlaced (move_huge_page w p force)
      placed_huge none p force = tt
      placed_huge (some w) p force = lift-IsPlaced_huge w (set_huge w p.pfn) (w.huge p.pfn) _ (
          Huge.unmap_and_move_huge_page-SettlesAll (c.huge_allocation p.pfn) (c.huge_kernel p.pfn)
            force c.mode (w.huge p.pfn))

-- `unmap_and_move` and `unmap_and_move_huge_page` are moves of single pages as `migrate_pages`
-- expects them. So a run of `migrate_pages` with these moves either meets a BUG_ON, or returns, and
-- then its value is 0 exactly if no page is left on the list, and the number of pages left if it
-- is a count and no THP was split. This relies on splits into base pages.
pub migrate_pages-kernel_mover :
    (c : Setup)
    → SplitsToBase (kernel_mover c)
    → (nosplit : Bool) (from : List Page) (w : Pages)
    → IsMover (kernel_mover c)
      × (b : Batch (Option Pages)) × (migrate_pages (kernel_mover c) nosplit from (some w) ≡ some b)
      × ((b.world ≡ none) ⊎ ((v : Pages) × (b.world ≡ some v) × IsTold b))
migrate_pages-kernel_mover c splits nosplit from w =
    let (b, e) = migrate_pages-returns (kernel_mover c) splits nosplit from (some w) in
    let told =
      migrate_pages-verdict (kernel_mover c) nosplit (kernel_mover-IsMover c) from (some w) b e in
    (kernel_mover-IsMover c, b, e, ended b told b.world refl)
  where
    ended :
        (b : Batch (Option Pages))
        → IsTold b
        → (o : Option Pages) → b.world ≡ o
        → (b.world ≡ none) ⊎ ((v : Pages) × (b.world ≡ some v) × IsTold b)
    ended b told none e = inl e
    ended b told (some v) e = inr (v, e, told)
