-- ===== src/Unmap/HugePage.antt =====
-- arm64_files/migrate.c, lines 2167-2333: `unmap_and_move_huge_page` around the run of the folio: the
-- tests in front of the allocation of the new page, and the put-backs at `out`.
use memory_migration_cs.Base.{
  ℕ, ◌+◌, ◌==◌, Bool, true, false, not, Option, none, some, List, ◌++◌, ◌≡◌, ◌≢◌, ◌⊎◌, inl, inr,
  refl, if◌then◌else◌, Mode, enosys, enomem, eagain, Rc, success, fail, arith,
}
use memory_migration_cs.Timing.Ring.{Commit}
use memory_migration_cs.Folio.{Folio, Migration}
use memory_migration_cs.Batch.{Attempt, released, stays, returned}
use memory_migration_cs.Batch.Counts.{IsPlaced}
use memory_migration_cs.Unmap.{Run}
use memory_migration_cs.Unmap.Huge.{HugeKernel, unmap_and_move_huge_folio}

-- `hugepage_migration_supported`, `get_new_page`, and whether the caller has given a `put_new_page`.
pub record HugeAllocation : Type 0 where
  pub supported : Bool
  pub get_new_page : Migration → Option Folio
  pub has_put : Bool

-- The state between the tries of a page: the migration, the records stored, how often
-- `putback_active_hugepage` was called for the old page and for a new one, and `put_new_page`.
pub record HugeMoving : Type 0 where
  pub mig : Migration
  pub commits : List Commit
  pub old_put_back : ℕ
  pub new_put_back : ℕ
  pub given_back : ℕ

-- `if (put_new_page) put_new_page(new_hpage, private); else putback_active_hugepage(new_hpage);`
abbrev pub put_new : (has_put : Bool) → HugeMoving → HugeMoving
put_new true w = record w { given_back = w.given_back + 1 }
put_new false w = record w { new_put_back = w.new_put_back + 1 }

abbrev pub put_old : HugeMoving → HugeMoving
put_old w = record w { old_put_back = w.old_put_back + 1 }

-- `out`. With success `put_new_page` is NULL by now.
unfoldable pub huge_out : (has_put : Bool) → Rc → HugeMoving → Attempt HugeMoving
huge_out has_put success w = released (put_new false (put_old w))
huge_out has_put (fail eagain) w = stays eagain (put_new has_put w)
huge_out has_put (fail e) w = returned e (put_new has_put w)

abbrev pub out_of_run : Bool → HugeMoving → Option Run → Option (Attempt HugeMoving)
out_of_run has_put w none = none
out_of_run has_put w (some s) =
    some (huge_out has_put s.rc (record w { mig = s.mig; commits = w.commits ++ s.commits }))

abbrev pub with_new_hpage :
    HugeAllocation
    → HugeKernel
    → (force : Bool) → Mode
    → HugeMoving
    → Option Folio
    → Option (Attempt HugeMoving)
with_new_hpage a h force mode w none = some (stays enomem w)
with_new_hpage a h force mode w (some f) =
    out_of_run a.has_put w (unmap_and_move_huge_folio h force mode (record (w.mig) { dst = f }))

unfoldable pub unmap_and_move_huge_page :
    HugeAllocation → HugeKernel → (force : Bool) → Mode → HugeMoving → Option (Attempt HugeMoving)
unfolding huge_out
unmap_and_move_huge_page a h force mode w =
    if not a.supported
    then some (stays enosys w)
    else if w.mig.src.refcount == 1
    then some (released (put_old w))
    else with_new_hpage a h force mode w (a.get_new_page w.mig)

-- How a try leaves the pages: with success the old page is put back once, and the new page is made
-- active at most once and never given back; behind the allocation an error hands the new page back
-- once, in one of the two ways, and keeps the old page.
abbrev pub Settles : HugeMoving → Attempt HugeMoving → Type 0
Settles w (released v) =
    (v.old_put_back ≡ w.old_put_back + 1)
    × (v.given_back ≡ w.given_back)
    × ((v.new_put_back ≡ w.new_put_back) ⊎ (v.new_put_back ≡ w.new_put_back + 1))
Settles w (stays e v) =
    ((e ≡ eagain)
      × (v.old_put_back ≡ w.old_put_back)
      × (v.given_back + v.new_put_back ≡ w.given_back + w.new_put_back + 1))
    ⊎ (((e ≡ enosys) ⊎ (e ≡ enomem)) × (v ≡ w))
Settles w (returned e v) =
    (e ≢ eagain)
    × (v.old_put_back ≡ w.old_put_back)
    × (v.given_back + v.new_put_back ≡ w.given_back + w.new_put_back + 1)

abbrev pub SettlesAll : HugeMoving → Option (Attempt HugeMoving) → Type 0
SettlesAll w none = Unit
SettlesAll w (some r) = Settles w r × IsPlaced r

put_new-once :
    (has_put : Bool) (w : HugeMoving)
    → ((put_new has_put w).old_put_back ≡ w.old_put_back)
      × ((put_new has_put w).given_back + (put_new has_put w).new_put_back
          ≡ w.given_back + w.new_put_back + 1)
put_new-once true w = (refl, omega arith)
put_new-once false w = (refl, omega arith)

SettlesAll-huge_out :
    (has_put : Bool) (rc : Rc) (w : HugeMoving) (mig : Migration) (commits : List Commit)
    → SettlesAll w (some (huge_out has_put rc (record w { mig = mig; commits = commits })))
unfolding huge_out
SettlesAll-huge_out has_put success w mig commits = ((refl, refl, inr refl), tt)
SettlesAll-huge_out has_put (fail eagain) w mig commits =
    let (a, b) = put_new-once has_put (record w { mig = mig; commits = commits }) in
    (inl (refl, a, b), tt)
SettlesAll-huge_out has_put (fail e) w mig commits =
    let (a, b) = put_new-once has_put (record w { mig = mig; commits = commits }) in
    ((λ c. cc, a, b), tt)

SettlesAll-out_of_run :
    (has_put : Bool) (w : HugeMoving) (o : Option Run) → SettlesAll w (out_of_run has_put w o)
SettlesAll-out_of_run has_put w none = tt
SettlesAll-out_of_run has_put w (some s) =
    SettlesAll-huge_out has_put s.rc w s.mig (w.commits ++ s.commits)

SettlesAll-with_new_hpage :
    (a : HugeAllocation) (h : HugeKernel) (force : Bool) (mode : Mode) (w : HugeMoving)
    (o : Option Folio)
    → SettlesAll w (with_new_hpage a h force mode w o)
SettlesAll-with_new_hpage a h force mode w none = (inr (inr refl, refl), tt)
SettlesAll-with_new_hpage a h force mode w (some f) =
    SettlesAll-out_of_run a.has_put w
      (unmap_and_move_huge_folio h force mode (record (w.mig) { dst = f }))

SettlesAll-if :
    (b : Bool) (w : HugeMoving) (x y : Option (Attempt HugeMoving))
    → SettlesAll w x
    → SettlesAll w y
    → SettlesAll w (if b then x else y)
SettlesAll-if true w x y h g = h
SettlesAll-if false w x y h g = g

-- A try of a huge page settles both pages, and places the old one as `migrate_pages` expects.
pub unmap_and_move_huge_page-SettlesAll :
    (a : HugeAllocation) (h : HugeKernel) (force : Bool) (mode : Mode) (w : HugeMoving)
    → SettlesAll w (unmap_and_move_huge_page a h force mode w)
unfolding unmap_and_move_huge_page
unmap_and_move_huge_page-SettlesAll a h force mode w =
    SettlesAll-if (not a.supported) w _ _ (inr (inl refl, refl), tt)
      (SettlesAll-if (w.mig.src.refcount == 1) w _ _ ((refl, refl, inl refl), tt)
        (SettlesAll-with_new_hpage a h force mode w (a.get_new_page w.mig)))
