-- ===== src/Syscall/Entry.antt =====
-- arm64_files/migrate.c, lines 2941-3020: `find_mm_struct` and `kernel_move_pages`, the checks in
-- front of a move.
use memory_migration_cs.Base.{
  ℕ, ◌==◌, Bool, true, false, ◌&&◌, ◌||◌, not, Option, none, some, ◌≡◌, refl, if◌then◌else◌, Rc,
  success, fail, Errno, einval, eperm, esrch, arith,
}
use memory_migration_cs.Batch.Driver.{Verdict, count, error}
use memory_migration_cs.Syscall.{Status, Request, MoveKernel}
use memory_migration_cs.Syscall.Loop.{do_pages_move}
use memory_migration_cs.Syscall.Stat.{StatKernel, do_pages_stat}

-- Another task: `ptrace_may_access`, `security_task_movememory`, its mm and its cpuset's nodes.
pub record Task : Type 0 where
  pub may_access : Bool
  pub security : Option Errno
  pub mm : Option ℕ
  pub mems_allowed : ℕ → Bool

-- The caller: its own mm and nodes, the tasks by pid, and CAP_SYS_NICE.
pub record Caller : Type 0 where
  pub current_mm : ℕ
  pub current_mems : ℕ → Bool
  pub find_task : ℕ → Option Task
  pub can_nice : Bool

-- MPOL_MF_MOVE, MPOL_MF_MOVE_ALL, and whether any other bit is set.
pub record Flags : Type 0 where
  pub move : Bool
  pub move_all : Bool
  pub other : Bool

-- An mm with the nodes that it may use, or an error pointer.
pub data FoundMm : Type 0 where
  found_mm : ℕ → (ℕ → Bool) → FoundMm
  no_mm : Errno → FoundMm

abbrev pub mm_or_einval : (ℕ → Bool) → Option ℕ → FoundMm
mm_or_einval mems none = no_mm einval
mm_or_einval mems (some m) = found_mm m mems

abbrev pub mm_if_secure : Task → Option Errno → FoundMm
mm_if_secure t none = mm_or_einval t.mems_allowed t.mm
mm_if_secure t (some e) = no_mm e

abbrev pub mm_of_task : Option Task → FoundMm
mm_of_task none = no_mm esrch
mm_of_task (some t) = if t.may_access then mm_if_secure t t.security else no_mm eperm

unfoldable pub find_mm_struct : Caller → (pid : ℕ) → FoundMm
find_mm_struct c pid =
    if pid == 0 then found_mm c.current_mm c.current_mems else mm_of_task (c.find_task pid)

-- What a call leaves: the return value, the user's statuses and the world.
abbrev pub Left : Type 0 → Type 0
Left W = Verdict × (ℕ → Status) × W

abbrev pub verdict_of : Rc → Verdict
verdict_of success = count 0
verdict_of (fail e) = error e

module _ {W : Type 0} (kernel_of : ℕ → MoveKernel W) (stat_of_mm : ℕ → StatKernel) where
  abbrev pub left_by_move : Option (Verdict × Request W) → Option (Left W)
  left_by_move none = none
  left_by_move (some (v, s)) = some (v, s.status, s.world)

  -- `nodes` says that the array of nodes is given.
  abbrev pub with_mm :
      (nodes move_all : Bool) (nr_pages : ℕ) → (ℕ → Status) → W → FoundMm → Option (Left W)
  with_mm nodes move_all nr st w (no_mm e) = some (error e, st, w)
  with_mm true move_all nr st w (found_mm m mems) =
      left_by_move (do_pages_move (record (kernel_of m) { task_nodes = mems }) move_all nr st w)
  with_mm false move_all nr st w (found_mm m mems) =
      let (rc, st') = do_pages_stat (stat_of_mm m) nr st in some (verdict_of rc, st', w)

  unfoldable pub kernel_move_pages :
      Caller → Flags → (pid : ℕ) (nodes : Bool) (nr_pages : ℕ) → (ℕ → Status) → W → Option (Left W)
  kernel_move_pages c flags pid nodes nr st w =
      if flags.other
      then some (error einval, st, w)
      else if flags.move_all && not c.can_nice
      then some (error eperm, st, w)
      else with_mm nodes flags.move_all nr st w (find_mm_struct c pid)

-- Who may move whose pages.
abbrev pub has_mm : Option Errno → Option ℕ → Bool
has_mm none (some m) = true
has_mm none none = false
has_mm (some e) m = false

abbrev pub is_accessible : Option Task → Bool
is_accessible none = false
is_accessible (some t) = t.may_access && has_mm t.security t.mm

abbrev pub is_permitted : Caller → Flags → ℕ → Bool
is_permitted c flags pid =
    (not flags.other && (not flags.move_all || c.can_nice))
    && (pid == 0 || is_accessible (c.find_task pid))

module _ {W : Type 0} (kernel_of : ℕ → MoveKernel W) (stat_of_mm : ℕ → StatKernel) where
  abbrev Refuses : (ℕ → Status) → W → Option (Left W) → Type 0
  Refuses st w o = (e : Errno) × (o ≡ some (error e, st, w))

  refuses-task :
      (nodes all : Bool) (nr : ℕ) (st : ℕ → Status) (w : W) (t : Option Task)
      → is_accessible t ≡ false
      → Refuses st w (with_mm kernel_of stat_of_mm nodes all nr st w (mm_of_task t))
  refuses-task nodes all nr st w none h = (esrch, refl)
  refuses-task nodes all nr st w (some t) h = secured t.may_access t.security t.mm h
    where
      secured :
          (b : Bool) (s : Option Errno) (m : Option ℕ)
          → (b && has_mm s m) ≡ false
          → Refuses st w (
              with_mm kernel_of stat_of_mm nodes all nr st w
                (mm_of_task (some (record t { may_access = b; security = s; mm = m }))))
      secured false s m e = (eperm, refl)
      secured true (some x) m e = (x, refl)
      secured true none none e = (einval, refl)
      secured true none (some m) e = cc

  Refuses-if :
      (b : Bool) (st : ℕ → Status) (w : W) (x y : Option (Left W))
      → (b ≡ true → Refuses st w x)
      → (b ≡ false → Refuses st w y)
      → Refuses st w (if b then x else y)
  Refuses-if true st w x y h g = h refl
  Refuses-if false st w x y h g = g refl

  refused :
      (c : Caller) (flags : Flags) (pid : ℕ) (nodes : Bool) (nr : ℕ) (st : ℕ → Status) (w : W)
      → is_permitted c flags pid ≡ false
      → Refuses st w (kernel_move_pages kernel_of stat_of_mm c flags pid nodes nr st w)
  unfolding kernel_move_pages find_mm_struct
  refused c flags pid nodes nr st w h =
      Refuses-if flags.other st w _ _ (λ o. (einval, refl))
        λ o.
          Refuses-if (flags.move_all && not c.can_nice) st w _ _ (λ n. (eperm, refl))
            λ n. by_pid (pid == 0) (c.find_task pid) (ground arith)
    where
      by_pid :
          (b : Bool) (t : Option Task)
          → (b || is_accessible t) ≡ false
          → Refuses st w (
              with_mm kernel_of stat_of_mm nodes flags.move_all nr st w
                (if b then found_mm c.current_mm c.current_mems else mm_of_task t))
      by_pid true t e = cc
      by_pid false t e = refuses-task nodes flags.move_all nr st w t e

  -- The call has returned, with the world as it was.
  abbrev Reads : W → Option (Left W) → Type 0
  Reads w o = (r : Left W) × (o ≡ some r) × (r.2 ≡ w)

  Reads-if :
      (b : Bool) (w : W) (x y : Option (Left W))
      → Reads w x
      → Reads w y
      → Reads w (if b then x else y)
  Reads-if true w x y h g = h
  Reads-if false w x y h g = g

  Reads-with_mm :
      (all : Bool) (nr : ℕ) (st : ℕ → Status) (w : W) (f : FoundMm)
      → Reads w (with_mm kernel_of stat_of_mm false all nr st w f)
  Reads-with_mm all nr st w (no_mm e) = ((error e, st, w), refl, refl)
  Reads-with_mm all nr st w (found_mm m mems) =
      let (rc, st') = do_pages_stat (stat_of_mm m) nr st in ((verdict_of rc, st', w), refl, refl)

  Reads-kernel_move_pages :
      (c : Caller) (flags : Flags) (pid : ℕ) (nr : ℕ) (st : ℕ → Status) (w : W)
      → Reads w (kernel_move_pages kernel_of stat_of_mm c flags pid false nr st w)
  unfolding kernel_move_pages
  Reads-kernel_move_pages c flags pid nr st w =
      Reads-if flags.other w _ _ ((error einval, st, w), refl, refl)
        (Reads-if (flags.move_all && not c.can_nice) w _ _ ((error eperm, st, w), refl, refl)
          (Reads-with_mm flags.move_all nr st w (find_mm_struct c pid)))

-- A call of `move_pages` that is not permitted (an unknown flag, MPOL_MF_MOVE_ALL without
-- CAP_SYS_NICE, or the pages of another task that the caller may not access or that has no mm)
-- returns an error and changes nothing: neither the statuses nor any page. A call without an array
-- of nodes returns and moves no page.
pub kernel_move_pages_lem :
    {W : Type 0} (kernel_of : ℕ → MoveKernel W) (stat_of_mm : ℕ → StatKernel) (c : Caller)
    (flags : Flags) (pid nr : ℕ) (st : ℕ → Status) (w : W)
    → ((nodes : Bool)
        → is_permitted c flags pid ≡ false
        → (e : Errno) × (kernel_move_pages kernel_of stat_of_mm c flags pid nodes nr st w
            ≡ some (error e, st, w)))
      × ((r : Left W) × (kernel_move_pages kernel_of stat_of_mm c flags pid false nr st w ≡ some r)
          × (r.2 ≡ w))
kernel_move_pages_lem kernel_of stat_of_mm c flags pid nr st w = (
  λ nodes h. refused kernel_of stat_of_mm c flags pid nodes nr st w h,
  Reads-kernel_move_pages kernel_of stat_of_mm c flags pid nr st w,
)
