-- ===== src/Numa.antt =====
-- arm64_files/migrate.c, lines 3035-3175: NUMA balancing, which moves one misplaced page to another
-- node by `migrate_pages`.
pub mod Balanced
use memory_migration_cs.Base.{
  ℕ, zero, suc, ◌+◌, ◌-◌, ◌==◌, ltb, Bool, true, false, ◌&&◌, not, Option, none, some, List, [],
  ◌∷◌, ◌≡◌, ◌⊎◌, inl, inr, refl, sym, ap, ◌∙◌, subst, if◌then◌else◌, Errno, Bool-cases, arith,
}
use memory_migration_cs.Batch.{Page, is_thp, Mover}
use memory_migration_cs.Batch.Driver.{Batch, Verdict, count, error, migrate_pages}
use memory_migration_cs.Batch.Counts.{IsMover}
use memory_migration_cs.Batch.Outcome.{IsTold, migrate_pages-verdict}
use memory_migration_cs.Batch.Rounds.{IsBase, migrate_pages-returns}
use memory_migration_cs.Batch.Single.{SplitsThp, SplitsThp-SplitsToBase, migrate_pages-single}

-- A zone: whether it is managed, and `zone_watermark_ok` for the high watermark and so many pages.
pub record Zone : Type 0 where
  pub managed : Bool
  pub watermark_ok : ℕ → Bool

-- The target node. `tiering` is NUMA_BALANCING_MEMORY_TIERING.
pub record Node : Type 0 where
  pub nid : ℕ
  pub nr_zones : ℕ
  pub node_zones : ℕ → Zone
  pub tiering : Bool

-- What is asked of the misplaced page.
pub record Misplaced : Type 0 where
  pub page : Page
  pub nid : ℕ
  pub mapcount : ℕ
  pub total_mapcount : ℕ
  pub file_lru : Bool
  pub dirty : Bool

-- The functions of other files.
pub record NumaKernel (W : Type 0) : Type 0 where
  pub isolate_lru_page : W → Page → W × Option Errno
  pub putback_lru_page : W → Page → W
  pub mover : (target : ℕ) → Mover W
  pub is_toptier : ℕ → Bool

-- The world, the pages that NR_ISOLATED_* has gained here (a move that succeeds takes them off
-- itself), the references of the caller that were dropped, the zones whose kswapd was woken, and two
-- counts of events.
pub record Balancing (W : Type 0) : Type 0 where
  pub world : W
  pub isolated : ℕ
  pub puts : ℕ
  pub woken : List (Option ℕ)
  pub numa_migrated : ℕ
  pub promoted : ℕ

-- From the zone below `z` down.
unfoldable pub balanced_below : Node → ℕ → (z : ℕ) → Bool
balanced_below n nr zero = false
balanced_below n nr (suc z) =
    let rest = balanced_below n nr z in
    let zone = n.node_zones z in
    if not zone.managed then rest else if not (zone.watermark_ok nr) then rest else true

unfoldable pub migrate_balanced_pgdat : Node → ℕ → Bool
migrate_balanced_pgdat n nr = balanced_below n nr n.nr_zones

-- The zone whose kswapd is woken: the last managed one, or `none` for the index -1.
unfoldable pub last_managed : Node → (z : ℕ) → Option ℕ
last_managed n zero = none
last_managed n (suc z) =
    let rest = last_managed n z in if (n.node_zones z).managed then some z else rest

-- `list_del(&page->lru)`.
abbrev pub list_del : Page → List Page → List Page
list_del p [] = []
list_del p (q ∷ qs) = if q.pfn == p.pfn then qs else q ∷ list_del p qs

module _ {W : Type 0} where
  abbrev pub put_page : Balancing W → Balancing W
  put_page s = record s { puts = s.puts + 1 }

  -- Behind `isolate_lru_page`.
  abbrev pub isolated_page : Misplaced → Balancing W → W × Option Errno → Bool × Balancing W
  isolated_page p s (w, some e) = (false, record s { world = w })
  isolated_page p s (w, none) =
      (true, put_page (record s { world = w; isolated = s.isolated + p.page.nr }))

  unfoldable pub numamigrate_isolate_page :
      NumaKernel W → Node → Misplaced → Balancing W → Bool × Balancing W
  unfolding migrate_balanced_pgdat last_managed
  numamigrate_isolate_page k n p s =
      if is_thp p.page.kind && ltb 1 p.total_mapcount
      then (false, s)
      else if not (migrate_balanced_pgdat n p.page.nr)
      then (
        false,
        if not n.tiering then s else record s { woken = last_managed n n.nr_zones ∷ s.woken },
      )
      else isolated_page p s (k.isolate_lru_page s.world p.page)

  -- With `nr_remaining` the page that is left on the list goes back to its LRU list.
  abbrev pub put_back : NumaKernel W → Misplaced → Balancing W → List Page → List Page × Balancing W
  put_back k p s [] = ([], s)
  put_back k p s (q ∷ qs) = (
    list_del p.page (q ∷ qs),
    record s { isolated = s.isolated - p.page.nr; world = k.putback_lru_page s.world p.page },
  )

  -- The counts of events.
  abbrev pub count_events : NumaKernel W → Node → Misplaced → ℕ → Balancing W → Balancing W
  count_events k n p zero s = s
  count_events k n p (suc moved) s = record s {
    numa_migrated = s.numa_migrated + suc moved;
    promoted =
        if not (k.is_toptier p.nid) && k.is_toptier n.nid
        then s.promoted + suc moved
        else s.promoted;
  }

  -- The BUG_ON, which is `none`, and the return.
  abbrev pub unless_bug : Bool → List Page × Balancing W → Option (Bool × Balancing W)
  unless_bug isolated ([], s) = some (isolated, s)
  unless_bug isolated (q ∷ qs, s) = none

  -- Behind `migrate_pages`.
  unfoldable pub after_migration :
      NumaKernel W
      → Node
      → Misplaced
      → Balancing W
      → Batch W
      → Verdict
      → Option (Bool × Balancing W)
  after_migration k n p s b (count zero) =
      unless_bug true
        (b.from, count_events k n p b.counters.nr_succeeded (record s { world = b.world }))
  after_migration k n p s b v =
      let (left, t) = put_back k p (record s { world = b.world }) b.from in
      unless_bug false (left, count_events k n p b.counters.nr_succeeded t)

  abbrev pub migrated :
      NumaKernel W → Node → Misplaced → Balancing W → Option (Batch W) → Option (Bool × Balancing W)
  migrated k n p s none = none
  migrated k n p s (some b) = after_migration k n p s b b.rc

  -- `if (!isolated) goto out`, or the migration of the list with this page alone.
  unfoldable pub if_isolated :
      NumaKernel W → Node → Misplaced → Bool × Balancing W → Option (Bool × Balancing W)
  unfolding after_migration
  if_isolated k n p (false, s) = some (false, put_page s)
  if_isolated k n p (true, s) =
      migrated k n p s (migrate_pages (k.mover n.nid) true (p.page ∷ []) s.world)

  unfoldable pub migrate_misplaced_page :
      NumaKernel W → Node → Misplaced → (exec : Bool) → Balancing W → Option (Bool × Balancing W)
  unfolding if_isolated numamigrate_isolate_page
  migrate_misplaced_page k n p exec s =
      if not (p.mapcount == 1) && p.file_lru && exec
      then some (false, put_page s)
      else if p.file_lru && p.dirty
      then some (false, put_page s)
      else if_isolated k n p (numamigrate_isolate_page k n p s)
