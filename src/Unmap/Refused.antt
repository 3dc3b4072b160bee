-- ===== src/Unmap/Refused.antt =====
-- What `__unmap_and_move` (arm64_files/migrate.c) records of a folio under writeback that it refuses,
-- and what `mig_timing_show` makes of the record.
use memory_migration_cs.Base.{
  ◌^◌, ◌<◌, Bool, true, false, some, [], ◌∷◌, ◌≡◌, refl, Mode, fail, ebusy, is_full_sync, arith,
}
use memory_migration_cs.Timing.{row_of}
use memory_migration_cs.Timing.Ring.{Commit}
use memory_migration_cs.Folio.{Migration}
use memory_migration_cs.Unmap.{
  Kernel, Run, set_src_locked, stamp_stage, out, commit, out_unlock, snapshot,
}
use memory_migration_cs.Unmap.Pipeline.{src_locked, lock_stage, begin, unmap_and_move_folio}

-- The record of a call that was left before the unmap stage: the three stages in the middle are
-- shown with no length, and the unlock stage with the value of the clock itself.
pub record IsShownRefused (k : Kernel) (c : Commit) : Type 0 where
  pub no_unmap : (row_of c.body).unmap_ns ≡ 0
  pub no_copy : (row_of c.body).copy_ns ≡ 0
  pub no_remap : (row_of c.body).remap_ns ≡ 0
  pub clock_shown : k.now 3 < 2 ^ 64 → (row_of c.body).unlock_ns ≡ k.now 3
  pub result_kept : c.body.result ≡ fail ebusy

-- The state in which the call is refused, and the one in which it returns.
abbrev at_writeback : Kernel → Migration → Run
at_writeback k m =
    let taken = record (snapshot k (begin m)) { mig = set_src_locked true m } in
    stamp_stage k (λ t g. record g { lock_end_ns = t }) taken

abbrev refused : Kernel → Migration → Run
refused k m = out_unlock k (record (at_writeback k m) { rc = fail ebusy })

runs_refused :
    (k : Kernel) (force : Bool) (mode : Mode) (m : Migration)
    → m.src.writeback ≡ true
    → m.src.locked ≡ false
    → is_full_sync mode ≡ false
    → unmap_and_move_folio k force mode m ≡ some (refused k m)
unfolding unmap_and_move_folio lock_stage src_locked snapshot
runs_refused k force mode m w l f = rw (l, unmap_and_move_folio) (rw w (rw f refl))

-- A folio under writeback that is not locked is refused with -EBUSY, unless the mode is MIGRATE_SYNC
-- or MIGRATE_SYNC_NO_COPY: it is unlocked again and nothing else of the migration has changed. One
-- record is stored, which has no start of the unlock stage, so that `mig_timing_show` prints the
-- clock's value itself as the length of that stage, if it fits 64 bits.
pub unmap_and_move_folio-IsShownRefused :
    (k : Kernel) (force : Bool) (mode : Mode) (m : Migration)
    → m.src.writeback ≡ true
    → m.src.locked ≡ false
    → is_full_sync mode ≡ false
    → (s : Run) × (unmap_and_move_folio k force mode m ≡ some s)
      × (s.rc ≡ fail ebusy)
      × (s.mig ≡ set_src_locked false m)
      × (c : Commit) × (s.commits ≡ c ∷ [])
      × IsShownRefused k c
unfolding snapshot out_unlock commit out row_of
unmap_and_move_folio-IsShownRefused k force mode m w l f =
    let s = refused k m in
    (
      s,
      runs_refused k force mode m w l f,
      refl,
      refl,
      record { on_cpu = k.cpu; by_pid = k.pid; body = s.rec },
      refl,
      record {
        no_unmap = refl;
        no_copy = refl;
        no_remap = refl;
        clock_shown = λ small. ground arith;
        result_kept = refl;
      },
    )
