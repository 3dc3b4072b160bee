-- ===== src/Syscall/Loop.antt =====
-- arm64_files/migrate.c, lines 2711-2834: `do_pages_move`, the loop over the user's array of pages.
use memory_migration_cs.Base.{
  ℕ, zero, suc, ◌+◌, ◌-◌, ◌%◌, ◌^◌, ◌==◌, ltb, Bool, ◌||◌, not, Option, none, some, List, [], ◌∷◌,
  if◌then◌else◌, Errno, eacces, eexist, efault, enodev,
}
use memory_migration_cs.Batch.{Page}
use memory_migration_cs.Batch.Driver.{Verdict, count, error}
use memory_migration_cs.Syscall.{
  Status, status_of, Request, MoveKernel, store_status, Added, do_move_pages_to_node,
  add_page_for_migration, on_node, failed, queued, on_target, not_added,
}

module _ {W : Type 0} (k : MoveKernel W) where
  -- A positive return value counts the pages that were not tried too. The sum is an `int`: of 32
  -- bits, which from 2^31 on are those of a negative value.
  abbrev pub after_move :
      (target : Option ℕ)
      → (i nr_pages : ℕ) → Option (Verdict × Request W)
      → Option (Verdict × Request W)
  after_move target i nr_pages none = none
  after_move target i nr_pages (some (count zero, s)) =
      let (err, st) = store_status k.can_put s.status s.start (status_of target) (i - s.start) in
      some (err, record s { status = st })
  after_move target i nr_pages (some (count (suc n), s)) =
      some (count ((suc n + (nr_pages - i)) % 2 ^ 32), s)
  after_move target i nr_pages (some (error e, s)) = some (error e, s)

  abbrev pub move_listed :
      (target : Option ℕ) → (i nr_pages : ℕ) → Request W → List Page → Option (Verdict × Request W)
  move_listed target i nr_pages s [] = some (count 0, s)
  move_listed target i nr_pages s (p ∷ ps) =
      after_move target i nr_pages (do_move_pages_to_node k s target)

  unfoldable pub move_pages_and_store_status :
      (target : Option ℕ) → (i nr_pages : ℕ) → Request W → Option (Verdict × Request W)
  move_pages_and_store_status target i nr_pages s = move_listed target i nr_pages s s.pagelist

  -- `out_flush`: an error that has come before is kept.
  abbrev pub keep_error : Verdict → Option (Verdict × Request W) → Option (Verdict × Request W)
  keep_error v none = none
  keep_error (count n) (some (err, s)) = some (err, s)
  keep_error (error e) (some (err, s)) = some (error e, s)

  unfoldable pub out_flush : (i nr_pages : ℕ) → Verdict → Request W → Option (Verdict × Request W)
  out_flush i nr_pages v s = keep_error v (move_pages_and_store_status s.current_node i nr_pages s)

  -- The guards of one round: the page's address and its node, or the error to leave with.
  abbrev pub node_allowed : ℕ → ℕ → Verdict × Option (ℕ × ℕ)
  node_allowed addr node =
      if not (ltb node k.max_nodes) || not (k.has_memory node)
      then (error enodev, none)
      else if not (k.task_nodes node)
      then (error eacces, none)
      else (count 0, some (addr, node))

  abbrev pub read_node : ℕ → Option (Option ℕ) → Verdict × Option (ℕ × ℕ)
  read_node addr none = (error efault, none)
  read_node addr (some none) = (error enodev, none)
  read_node addr (some (some node)) = node_allowed addr node

  abbrev pub read_page : (i : ℕ) → Option ℕ → Verdict × Option (ℕ × ℕ)
  read_page i none = (error efault, none)
  read_page i (some addr) = read_node addr (k.node_at i)

  unfoldable pub read_request : (i : ℕ) → Verdict × Option (ℕ × ℕ)
  read_request i = read_page i (k.page_at i)

  -- `err--` for a positive return value: page `i` is accounted for already.
  abbrev pub account_one : Verdict → Verdict
  account_one (count n) = count (if ltb n (2 ^ 31) then n - 1 else n)
  account_one (error e) = error e

  -- How a round goes on after `move_pages_and_store_status`: with `next`, or to `out`.
  abbrev pub if_moved :
      (Verdict → Verdict)
      → (Request W → Option (Verdict × Request W))
      → Option (Verdict × Request W)
      → Option (Verdict × Request W)
  if_moved leave next none = none
  if_moved leave next (some (count zero, s)) = next s
  if_moved leave next (some (v, s)) = some (leave v, s)

  -- A page that was not queued: its status is stored, and the pages in front of it are moved.
  abbrev pub report :
      (migrate : Request W → Option (Verdict × Request W))
      → (flush : Verdict → Request W → Option (Verdict × Request W))
      → (next : Request W → Option (Verdict × Request W)) → Request W
      → Verdict × (ℕ → Status)
      → Option (Verdict × Request W)
  report migrate flush next s (error e, st) = flush (error e) (record s { status = st })
  report migrate flush next s (count n, st) =
      if_moved account_one (λ t. next (record t { current_node = none }))
        (migrate (record s { status = st }))

  -- `-EEXIST` is reported as `-EFAULT`.
  abbrev pub reported : Errno → Errno
  reported eexist = efault
  reported e = e

  abbrev pub after_add :
      (i nr_pages node : ℕ)
      → (Request W → Option (Verdict × Request W))
      → Added × Request W
      → Option (Verdict × Request W)
  after_add i nr_pages node next (queued, s) = next s
  after_add i nr_pages node next (on_target, s) =
      report (move_pages_and_store_status (some node) i nr_pages) (out_flush i nr_pages) next s
        (store_status k.can_put s.status i (on_node node) 1)
  after_add i nr_pages node next (not_added e, s) =
      report (move_pages_and_store_status (some node) i nr_pages) (out_flush i nr_pages) next s
        (store_status k.can_put s.status i (failed (reported e)) 1)

  abbrev pub add_step :
      (migrate_all : Bool)
      → (i nr_pages addr node : ℕ) → (Request W → Option (Verdict × Request W))
      → Request W
      → Option (Verdict × Request W)
  add_step migrate_all i nr_pages addr node next s =
      after_add i nr_pages node next (add_page_for_migration k s addr node migrate_all)

  -- The change of the node: the pages that are listed for the old one are moved first.
  abbrev pub at_node :
      (migrate_all : Bool)
      → (i nr_pages addr node : ℕ) → (Request W → Option (Verdict × Request W))
      → Request W
      → Option ℕ
      → Option (Verdict × Request W)
  at_node migrate_all i nr_pages addr node next s none =
      add_step migrate_all i nr_pages addr node next
        (record s { current_node = some node; start = i })
  at_node migrate_all i nr_pages addr node next s (some c) =
      if c == node
      then add_step migrate_all i nr_pages addr node next s
      else if_moved (λ v. v)
          (λ t.
            add_step migrate_all i nr_pages addr node next
              (record t { current_node = some node; start = i }))
          (move_pages_and_store_status (some c) i nr_pages s)

  abbrev pub one_page :
      (migrate_all : Bool)
      → (i nr_pages : ℕ) → (Request W → Option (Verdict × Request W))
      → Request W
      → Verdict × Option (ℕ × ℕ)
      → Option (Verdict × Request W)
  one_page migrate_all i nr_pages next s (v, none) = out_flush i nr_pages v s
  one_page migrate_all i nr_pages next s (v, some (addr, node)) =
      at_node migrate_all i nr_pages addr node next s s.current_node

  -- The loop, with `left` of `nr_pages` pages left. The index and `start` are of type `int` in the
  -- source: the same numbers as long as there are fewer than 2^31 pages.
  unfoldable pub move_loop :
      (migrate_all : Bool) → (left i nr_pages : ℕ) → Request W → Option (Verdict × Request W)
  move_loop migrate_all zero i nr_pages s = out_flush i nr_pages (count 0) s
  move_loop migrate_all (suc left) i nr_pages s =
      one_page migrate_all i nr_pages (move_loop migrate_all left (i + 1) nr_pages) s
        (read_request i)

  unfoldable pub do_pages_move :
      (migrate_all : Bool) → (nr_pages : ℕ) → (ℕ → Status) → W → Option (Verdict × Request W)
  do_pages_move migrate_all nr_pages st w =
      move_loop migrate_all nr_pages 0 nr_pages
        (record { world = w; pagelist = []; status = st; start = 0; current_node = none })
