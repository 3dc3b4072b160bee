-- ===== src/Tests/SyscallRuns.antt =====
-- Calls of `move_pages`, by arm64_files/migrate.c, lines 2608-3020.
use memory_migration_cs.Base.{
  arith, Bool, Errno, ◌≡◌, success, ℕ, ◌+◌, ◌<◌, ◌==◌, ltb, true, false, none, some, if◌then◌else◌,
}
use memory_migration_cs.Syscall.{Request, no_node, MoveKernel, Lookup, no_page, found}
use memory_migration_cs.Syscall.Loop.{do_pages_move}
use memory_migration_cs.Syscall.Empties.{Emptied, do_pages_move-Emptied}
use memory_migration_cs.Syscall.Collects.{Stated}
use memory_migration_cs.Syscall.Statuses.{do_pages_move-Stated}
use memory_migration_cs.Syscall.Stat.{StatKernel, Written, do_pages_stat, do_pages_stat_lem}
use memory_migration_cs.Batch.Driver.{Verdict, count, error}
use memory_migration_cs.Syscall.Entry.{
  Task, Caller, Flags, Left, kernel_move_pages, kernel_move_pages_lem,
}
use memory_migration_cs.Tests.EagerRuns.{
  eager, eager-IsMover, eager-SplitsToBase, migrate_pages-eager,
}
use memory_migration_cs.Tests.BatchRuns.{page, mover, mover-IsMover, mover-SplitsToBase}

-- Frames 5 and 6 are mapped at their own numbers, on node 0, and nothing else is mapped.
abbrev mapped_at : ℕ → Lookup
mapped_at n =
    if n == 5
    then found
        (record { page = page 5; nid = 0; mapcount = 1; zone_device = false; is_head = true })
    else no_page

-- The pages 5, 8 and 5 again are to go to node 1, where the array of nodes ends after two entries.
abbrev machine : MoveKernel ℕ
machine = record {
  page_at = λ i. some (if i == 1 then 8 else 5);
  node_at = λ i. if ltb i 2 then some (some 1) else none;
  can_put = λ i. true;
  max_nodes = 2;
  has_memory = λ n. true;
  task_nodes = λ n. true;
  lookup = λ w n. mapped_at n;
  isolate_hugetlb = λ w p. (w, none);
  isolate_lru_page = λ w p. (w + 1, none);
  mover = λ target. mover;
  putback_movable_pages = λ w ps. w;
}

do_pages_move-Emptied_example : Emptied (do_pages_move machine false 3 (λ i. no_node) 0)
do_pages_move-Emptied_example =
    do_pages_move-Emptied machine (λ target. mover-IsMover) (λ target. mover-SplitsToBase) false 3
      (λ i. no_node) 0

-- Here each of three pages has its node.
abbrev wide : MoveKernel ℕ
wide = record machine { page_at = λ i. some (5 + i); node_at = λ i. some (some 1) }

-- Here every page is moved.
abbrev moving : MoveKernel ℕ
moving = record wide { mover = λ target. eager }

do_pages_move-Stated_example :
    (r : Verdict × Request ℕ) × (do_pages_move moving false 3 (λ i. no_node) 0 ≡ some r)
    × (r.0 ≡ count 0 → (j : ℕ) → j < 3 → Stated moving j (r.1.status j))
do_pages_move-Stated_example =
    do_pages_move-Stated moving (λ target. eager-IsMover) (λ target. eager-SplitsToBase) false 3
      (record {
        indices = omega arith;
        counts = λ target ps w b n l e z.
            let nothing : n ≡ 0 = cc (migrate_pages-eager ps w b e) in omega (arith, nothing);
      })
      (λ i. no_node) 0

-- Forty addresses, of which the first is mapped; nothing faults.
abbrev reader : StatKernel
reader = record {
  address_at = λ i. i + 5;
  can_read = λ first n. true;
  copied = λ first n. n;
  follow_page = mapped_at;
}

do_pages_stat_example :
    (((first n : ℕ) → true ≡ true)
      → ((first n : ℕ) → n ≡ n)
      → (do_pages_stat reader 40 (λ i. no_node)).0 ≡ success)
    × ((do_pages_stat reader 40 (λ i. no_node)).0 ≡ success
        → Written reader 0 40 (λ i. no_node) (do_pages_stat reader 40 (λ i. no_node)).1)
do_pages_stat_example = do_pages_stat_lem reader 40 (λ i. no_node)

-- The task 5 may be found, but not accessed.
abbrev guarded : Task
guarded = record { may_access = false; security = none; mm = some 9; mems_allowed = λ n. true }

abbrev caller : Caller
caller = record {
  current_mm = 1;
  current_mems = λ n. true;
  find_task = λ pid. some guarded;
  can_nice = false;
}

abbrev flags : Flags
flags = record { move = true; move_all = false; other = false }

kernel_move_pages_example :
    ((nodes : Bool)
      → false ≡ false
      → (e : Errno) × (kernel_move_pages
            (λ m. machine)
            (λ m. reader)
            caller
            flags
            5
            nodes
            3
            (λ i. no_node)
            0
          ≡ some (error e, λ i. no_node, 0)))
    × ((r : Left ℕ) × (kernel_move_pages
            (λ m. machine)
            (λ m. reader)
            caller
            flags
            5
            false
            3
            (λ i. no_node)
            0
          ≡ some r)
        × (r.2 ≡ 0))
kernel_move_pages_example =
    kernel_move_pages_lem (λ m. machine) (λ m. reader) caller flags 5 3 (λ i. no_node) 0
