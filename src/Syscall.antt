-- ===== src/Syscall.antt =====
-- arm64_files/migrate.c, lines 2608-2709: the parts of the system call `move_pages` that move a
-- list of pages and put a page on it. `none` is a run of `migrate_pages` that does not end.
pub mod Loop
pub mod Empties
pub mod Stat
pub mod Collects
pub mod Statuses
pub mod Entry
use memory_migration_cs.Base.{
  ℕ, zero, suc, ◌+◌, ◌-◌, ◌==◌, ltb, Bool, true, false, ◌&&◌, ◌||◌, not, Option, none, some, List,
  [], ◌∷◌, ◌++◌, if◌then◌else◌, update, Errno, eacces, eexist, efault, enodev, enoent,
}
use memory_migration_cs.Batch.{Page, Mover, hugetlb, PageKind, is_hugetlb}
use memory_migration_cs.Batch.Driver.{Batch, Verdict, count, error, migrate_pages}

-- What stands in the user's array of statuses: a node, NUMA_NO_NODE, or an error.
pub data Status : Type 0 where
  on_node : ℕ → Status
  no_node : Status
  failed : Errno → Status

abbrev pub status_of : Option ℕ → Status
status_of none = no_node
status_of (some n) = on_node n

-- What `follow_page` finds: an error, no page, or a page with what is asked of it.
pub record Found : Type 0 where
  pub page : Page
  pub nid : ℕ
  pub mapcount : ℕ
  pub zone_device : Bool
  pub is_head : Bool

pub data Lookup : Type 0 where
  bad_vma : Lookup
  lookup_error : Errno → Lookup
  no_page : Lookup
  found : Found → Lookup

-- The user's arrays, where a reading or writing can fault, the nodes, and the functions of other
-- files. `node_at` gives `none` for a fault and `some none` for a negative number.
pub record MoveKernel (W : Type 0) : Type 0 where
  pub page_at : ℕ → Option ℕ
  pub node_at : ℕ → Option (Option ℕ)
  pub can_put : ℕ → Bool
  pub max_nodes : ℕ
  pub has_memory : ℕ → Bool
  pub task_nodes : ℕ → Bool
  pub lookup : W → ℕ → Lookup
  pub isolate_hugetlb : W → Page → W × Option Errno
  pub isolate_lru_page : W → Page → W × Option Errno
  pub mover : Option ℕ → Mover W
  pub putback_movable_pages : W → List Page → W

-- The local variables of `do_pages_move`, the array of statuses and the world.
pub record Request (W : Type 0) : Type 0 where
  pub world : W
  pub pagelist : List Page
  pub status : ℕ → Status
  pub start : ℕ
  pub current_node : Option ℕ

-- `store_status`: what was written stays written when a later writing faults.
unfoldable pub store_status :
    (ℕ → Bool) → (ℕ → Status) → (start : ℕ) → Status → (nr : ℕ) → Verdict × (ℕ → Status)
store_status can_put st start v zero = (count 0, st)
store_status can_put st start v (suc nr) = elim (can_put start) [
  | true ↦ store_status can_put (update st start v) (start + 1) v nr
  | false ↦ (error efault, st)
]

-- What `add_page_for_migration` returns: an error, 0 or 1.
pub data Added : Type 0 where
  queued on_target : Added
  not_added : Errno → Added

module _ {W : Type 0} (k : MoveKernel W) where
  -- `if (err) putback_movable_pages(pagelist);`
  abbrev pub put_back_rest : Request W → Verdict → Batch W → Request W
  put_back_rest s (count zero) b = record s { world = b.world; pagelist = b.from }
  put_back_rest s v b = record s { world = k.putback_movable_pages b.world b.from; pagelist = [] }

  abbrev pub after_migrate_pages : Request W → Option (Batch W) → Option (Verdict × Request W)
  after_migrate_pages s none = none
  after_migrate_pages s (some b) = some (b.rc, put_back_rest s b.rc b)

  unfoldable pub do_move_pages_to_node : Request W → Option ℕ → Option (Verdict × Request W)
  do_move_pages_to_node s target =
      after_migrate_pages s (migrate_pages (k.mover target) false s.pagelist s.world)

  -- An isolated page goes to the end of the list.
  abbrev pub isolated : Request W → Page → W × Option Errno → Added × Request W
  isolated s p (w, none) = (queued, record s { world = w; pagelist = s.pagelist ++ (p ∷ []) })
  isolated s p (w, some e) = (not_added e, record s { world = w })

  -- The tests of a page that is there. For a tail of a huge page the return value is that of the
  -- test in front, -EACCES.
  abbrev pub isolate_found : Request W → Found → Added × Request W
  isolate_found s f =
      if is_hugetlb f.page.kind
      then if f.is_head
        then isolated s f.page (k.isolate_hugetlb s.world f.page)
        else (not_added eacces, s)
      else isolated s f.page (k.isolate_lru_page s.world f.page)

  abbrev pub add_found : Request W → (node : ℕ) → (migrate_all : Bool) → Lookup → Added × Request W
  add_found s node migrate_all bad_vma = (not_added efault, s)
  add_found s node migrate_all (lookup_error e) = (not_added e, s)
  add_found s node migrate_all no_page = (not_added enoent, s)
  add_found s node migrate_all (found f) =
      if f.zone_device
      then (not_added enoent, s)
      else if f.nid == node
      then (on_target, s)
      else if ltb 1 f.mapcount && not migrate_all
      then (not_added eacces, s)
      else isolate_found s f

  unfoldable pub add_page_for_migration :
      Request W → (addr node : ℕ) → (migrate_all : Bool) → Added × Request W
  add_page_for_migration s addr node migrate_all =
      add_found s node migrate_all (k.lookup s.world addr)
