-- ===== src/Unmap/Page.antt =====
-- arm64_files/migrate.c, lines 2073-2146: `unmap_and_move`, from the allocation of the new page to
-- the put-back of the one that is not needed. `none` is a BUG_ON of a migration function.
use memory_migration_cs.Base.{
  ℕ, ◌+◌, ◌-◌, ◌==◌, Bool, true, false, ◌&&◌, not, Option, none, some, List, ◌++◌, ◌≡◌, ◌≢◌, ◌⊎◌,
  inl, inr, refl, if◌then◌else◌, Mode, Errno, enosys, enomem, eagain, Rc, success, fail, arith,
}
use memory_migration_cs.Timing.Ring.{Commit}
use memory_migration_cs.Folio.{Folio, Migration}
use memory_migration_cs.Batch.{Attempt, released, stays, returned}
use memory_migration_cs.Batch.Counts.{IsPlaced}
use memory_migration_cs.Unmap.{Kernel, Run}
use memory_migration_cs.Unmap.Pipeline.{unmap_and_move_folio}

-- `thp_migration_supported()`, and `get_new_page`, which can fail.
pub record Allocation : Type 0 where
  pub thp_supported : Bool
  pub get_new_page : Migration → Option Folio

-- The state between the tries of a page: the migration, the records stored, how many pages
-- NR_ISOLATED_* has lost, and how often a new page was given back, by `put_new_page` or `put_page`.
pub record Moving : Type 0 where
  pub mig : Migration
  pub commits : List Commit
  pub isolated_dropped : ℕ
  pub given_back : ℕ

-- Behind `out` with success. `keeps_ref` is `reason == MR_MEMORY_FAILURE`.
unfoldable pub release_page : (keeps_ref : Bool) → Moving → Moving
release_page keeps_ref w =
    let f = w.mig.src in
    record w {
      isolated_dropped = if f.movable then w.isolated_dropped else w.isolated_dropped + f.nr_pages;
      mig =
          if keeps_ref
          then w.mig
          else record (w.mig) { src = record f { refcount = f.refcount - 1 } };
    }

-- Behind `out` with an error: the new page is given back.
unfoldable pub restore_page : Errno → Moving → Attempt Moving
restore_page eagain w = stays eagain (record w { given_back = w.given_back + 1 })
restore_page e w = returned e (record w { given_back = w.given_back + 1 })

abbrev pub settle : (keeps_ref : Bool) → Rc → Moving → Attempt Moving
settle keeps_ref success w = released (release_page keeps_ref w)
settle keeps_ref (fail e) w = restore_page e w

-- What `__unmap_and_move` has made of the two folios.
abbrev pub settle_run : (keeps_ref : Bool) → Moving → Option Run → Option (Attempt Moving)
settle_run keeps_ref w none = none
settle_run keeps_ref w (some s) =
    some (settle keeps_ref s.rc (record w { mig = s.mig; commits = w.commits ++ s.commits }))

abbrev pub with_new_page :
    Kernel
    → (force : Bool) → Mode
    → (keeps_ref : Bool) → Moving
    → Option Folio
    → Option (Attempt Moving)
with_new_page k force mode keeps_ref w none = some (stays enomem w)
with_new_page k force mode keeps_ref w (some f) =
    settle_run keeps_ref w
      (unmap_and_move_folio k force mode (record (w.mig) { dst = record f { private = none } }))

-- The page was freed by others: its last reference is the one of the isolation.
abbrev pub freed : Moving → Moving
freed w = record w {
  mig = record (w.mig) { src = record (w.mig.src) { active = false; unevictable = false } };
}

unfoldable pub unmap_and_move :
    Allocation
    → Kernel
    → (force : Bool) → Mode
    → (keeps_ref : Bool) → Moving
    → Option (Attempt Moving)
unfolding release_page
unmap_and_move a k force mode keeps_ref w =
    if not a.thp_supported && w.mig.src.large
    then some (stays enosys w)
    else if w.mig.src.refcount == 1
    then some (released (release_page keeps_ref (freed w)))
    else with_new_page k force mode keeps_ref w (a.get_new_page w.mig)

-- How a try leaves the new page and the lists: a success keeps the new page; -ENOSYS and -ENOMEM in
-- front of the allocation change nothing; any other error gives the new page back, once, and the old
-- page stays on its list exactly if the error is -EAGAIN.
abbrev pub Settles : Moving → Attempt Moving → Type 0
Settles w (released w') = w'.given_back ≡ w.given_back
Settles w (stays e w') =
    ((e ≡ eagain) × (w'.given_back ≡ w.given_back + 1)) ⊎ (((e ≡ enosys) ⊎ (e ≡ enomem)) × (w' ≡ w))
Settles w (returned e w') = (e ≢ eagain) × (w'.given_back ≡ w.given_back + 1)

abbrev pub SettlesAll : Moving → Option (Attempt Moving) → Type 0
SettlesAll w none = Unit
SettlesAll w (some r) = Settles w r × IsPlaced r

SettlesAll-if :
    (b : Bool) (w : Moving) (x y : Option (Attempt Moving))
    → SettlesAll w x
    → SettlesAll w y
    → SettlesAll w (if b then x else y)
SettlesAll-if true w x y h g = h
SettlesAll-if false w x y h g = g

SettlesAll-settle :
    (keeps_ref : Bool) (rc : Rc) (w v : Moving)
    → v.given_back ≡ w.given_back
    → SettlesAll w (some (settle keeps_ref rc v))
unfolding restore_page release_page
SettlesAll-settle keeps_ref success w v h = (h, tt)
SettlesAll-settle keeps_ref (fail eagain) w v h = (inl (refl, omega (arith, h)), tt)
SettlesAll-settle keeps_ref (fail e) w v h = ((λ c. cc, omega (arith, h)), tt)

SettlesAll-settle_run :
    (keeps_ref : Bool) (w : Moving) (o : Option Run) → SettlesAll w (settle_run keeps_ref w o)
SettlesAll-settle_run keeps_ref w none = tt
SettlesAll-settle_run keeps_ref w (some s) =
    SettlesAll-settle keeps_ref s.rc w (record w { mig = s.mig; commits = w.commits ++ s.commits })
      refl

SettlesAll-with_new_page :
    (k : Kernel) (force : Bool) (mode : Mode) (keeps_ref : Bool) (w : Moving) (o : Option Folio)
    → SettlesAll w (with_new_page k force mode keeps_ref w o)
SettlesAll-with_new_page k force mode keeps_ref w none = (inr (inr refl, refl), tt)
SettlesAll-with_new_page k force mode keeps_ref w (some f) =
    SettlesAll-settle_run keeps_ref w
      (unmap_and_move_folio k force mode (record (w.mig) { dst = record f { private = none } }))

-- `unmap_and_move` gives the new page back exactly once after each error that comes behind its
-- allocation, and never after a success; an error in front of the allocation, -ENOSYS or -ENOMEM,
-- leaves everything as it was. The old page stays on its list only with -EAGAIN or these
-- two errors, and is moved to the list of failures with any other: what `migrate_pages` relies on.
pub unmap_and_move-SettlesAll :
    (a : Allocation) (k : Kernel) (force : Bool) (mode : Mode) (keeps_ref : Bool) (w : Moving)
    → SettlesAll w (unmap_and_move a k force mode keeps_ref w)
unfolding unmap_and_move
unmap_and_move-SettlesAll a k force mode keeps_ref w =
    SettlesAll-if (not a.thp_supported && w.mig.src.large) w _ _ (inr (inl refl, refl), tt)
      (SettlesAll-if (w.mig.src.refcount == 1) w _ _ (refl, tt)
        (SettlesAll-with_new_page k force mode keeps_ref w (a.get_new_page w.mig)))
