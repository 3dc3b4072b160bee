-- ===== src/Folio/Move/Refuses.antt =====
-- When `writeout` and `fallback_migrate_folio` of arm64_files/migrate.c refuse a folio.
use memory_migration_cs.Base.{
  ℕ, Bool, true, false, some, ◌≡◌, ◌≢◌, ◌⊎◌, inl, inr, refl, if◌then◌else◌, Mode, async, sync_light,
  sync, sync_no_copy, is_full_sync, Rc, success, fail, eagain, ebusy, einval, eio, arith, Errno,
  Bool-cases, ◌∙◌,
}
use memory_migration_cs.Folio.{AddressSpace, Migration}
use memory_migration_cs.Folio.Flags.{Numa}
use memory_migration_cs.Folio.Restore.{remove_migration_ptes}
use memory_migration_cs.Folio.Move.{
  Callbacks, Written, write_error, written, activate, lock_src, restore_src, after_write, writeout,
  fallback_migrate_folio,
}

-- The new folio and the page cache's slot are as they were.
abbrev pub IsUntouched : Migration → Migration → Type 0
IsUntouched m m' = (m'.dst ≡ m.dst) × (m'.slot ≡ m.slot)

-- What is relied on of the address space's functions: a write-out changes neither the new folio nor
-- the page cache's slot. Clearing the dirty flag leaves the lock alone, and so does `writepage` when
-- it returns AOP_WRITEPAGE_ACTIVATE; otherwise it may have unlocked the page.
pub record IsWriter (c : Callbacks) : Type 0 where
  pub clears_untouched : (m : Migration) → IsUntouched m (c.clear_dirty_for_io m).1
  pub clears_locked : (m : Migration) → (c.clear_dirty_for_io m).1.src.locked ≡ m.src.locked
  pub writes_untouched : (m : Migration) → IsUntouched m (c.writepage m).1
  pub activates_locked :
      (m : Migration) → (c.writepage m).0 ≡ activate → (c.writepage m).1.src.locked ≡ m.src.locked

-- The errors of a write-out, behind which the old folio is locked.
abbrev pub IsRefusal : Migration → Rc × Migration → Type 0
IsRefusal m r =
    (e : Errno) × (m' : Migration) × (r ≡ (fail e, m'))
    × ((e ≡ einval) ⊎ (e ≡ eagain) ⊎ (e ≡ eio))
    × IsUntouched m m'
    × (m'.src.locked ≡ true)

IsUntouched-restore_src :
    (m : Migration) → IsUntouched m (restore_src m) × ((restore_src m).src.locked ≡ m.src.locked)
unfolding remove_migration_ptes
IsUntouched-restore_src m = ((refl, refl), refl)

module _ (c : Callbacks) (ok : IsWriter c) (m : Migration) (held : m.src.locked ≡ true) where
  IsRefusal-after_write :
      (w : Written × Migration)
      → IsUntouched m w.1
      → (w.0 ≡ activate → w.1.src.locked ≡ true)
      → IsRefusal m (after_write w)
  IsRefusal-after_write (write_error, x) u l = (eio, lock_src x, refl, inr (inr refl), u, refl)
  IsRefusal-after_write (written, x) u l = (eagain, lock_src x, refl, inr (inl refl), u, refl)
  IsRefusal-after_write (activate, x) u l = (eagain, x, refl, inr (inl refl), u, l refl)

  IsRefusal-writeout : (a : AddressSpace) → IsRefusal m (writeout c a m)
  unfolding writeout
  IsRefusal-writeout a =
      let x = (c.clear_dirty_for_io m).1 in
      let u = ok.clears_untouched m in
      let l = ok.clears_locked m in
      let (v, k) = IsUntouched-restore_src x in
      let w = ok.writes_untouched (restore_src x) in
      elim (Bool-cases a.has_writepage) [
        | inr e ↦ rw (e, writeout) (einval, m, refl, inl refl, (refl, refl), held)
        | inl e ↦ elim (Bool-cases (c.clear_dirty_for_io m).0) [
          | inr g ↦ rw (e, g, writeout) (eagain, x, refl, inr (inl refl), u, l ∙ held)
          | inl g ↦
              rw (e, g, writeout)
                (IsRefusal-after_write (c.writepage (restore_src x))
                  (w.0 ∙ v.0 ∙ u.0, w.1 ∙ v.1 ∙ u.1)
                  λ q. ok.activates_locked (restore_src x) q ∙ k ∙ l ∙ held)
        ]
      ]

fallback_of_dirty :
    (freeze : ℕ → ℕ → Bool) (n : Numa) (c : Callbacks) (a : AddressSpace) (mode : Mode)
    (m : Migration)
    → m.src.dirty ≡ true
    → fallback_migrate_folio freeze n c a mode m
      ≡ some (if is_full_sync mode then writeout c a m else (fail ebusy, m))
unfolding fallback_migrate_folio
fallback_of_dirty freeze n c a mode m d = rw (d, fallback_migrate_folio)

-- The return for a dirty folio: an error, by the mode.
pub record IsRefused (mode : Mode) (m : Migration) (r : Rc × Migration) : Type 0 where
  pub not_moved : (r.0 ≢ success) × IsUntouched m r.1
  pub unchanged : (mode ≡ async) ⊎ (mode ≡ sync_light) → r ≡ (fail ebusy, m)
  pub written_out : (mode ≡ sync) ⊎ (mode ≡ sync_no_copy) → IsRefusal m r

IsRefused-of_error :
    (mode : Mode) (m : Migration) (r : Rc × Migration)
    → ((mode ≡ async) ⊎ (mode ≡ sync_light) → r ≡ (fail ebusy, m))
    → IsRefusal m r
    → IsRefused mode m r
IsRefused-of_error mode m r f h =
    let (e, m', q, why, u, l) = h in
    record { not_moved = (λ z. cc, ground (arith, u)); unchanged = f; written_out = λ g. h }

IsRefused-by_mode :
    (mode : Mode) (m : Migration) (w : Rc × Migration)
    → IsRefusal m w
    → IsRefused mode m (if is_full_sync mode then w else (fail ebusy, m))
IsRefused-by_mode async m w h = record {
  not_moved = (λ z. cc, (refl, refl));
  unchanged = λ o. refl;
  written_out = λ o. ground arith;
}
IsRefused-by_mode sync_light m w h = record {
  not_moved = (λ z. cc, (refl, refl));
  unchanged = λ o. refl;
  written_out = λ o. ground arith;
}
IsRefused-by_mode sync m w h = IsRefused-of_error sync m w (λ o. ground arith) h
IsRefused-by_mode sync_no_copy m w h = IsRefused-of_error sync_no_copy m w (λ o. ground arith) h

-- A dirty folio without a migration function of its own is never moved, whatever the mode: each
-- return is an error, and the new folio and the page cache's slot are as they were. In the modes
-- MIGRATE_ASYNC and MIGRATE_SYNC_LIGHT the error is -EBUSY and nothing has changed; in the others it
-- is one of the write-out, and the old folio, locked before, is locked again. A clean folio whose
-- private data cannot be released is refused with -EAGAIN in the mode MIGRATE_SYNC, and with -EBUSY
-- in the others. This relies on a write-out that touches neither the new folio nor the slot, and
-- that leaves the page locked with AOP_WRITEPAGE_ACTIVATE.
pub fallback_migrate_folio-refuses :
    (freeze : ℕ → ℕ → Bool) (n : Numa) (c : Callbacks)
    → IsWriter c
    → (a : AddressSpace) (mode : Mode) (m : Migration) → m.src.locked ≡ true
    → (m.src.dirty ≡ true
        → (r : Rc × Migration) × (fallback_migrate_folio freeze n c a mode m ≡ some r)
          × IsRefused mode m r)
      × (m.src.dirty ≡ false
          → m.src.has_private ≡ true
          → (c.release_folio m).0 ≡ false
          → (e : Errno) × (fallback_migrate_folio freeze n c a mode m
              ≡ some (fail e, (c.release_folio m).1))
            × (mode ≡ sync → e ≡ eagain)
            × (mode ≢ sync → e ≡ ebusy))
unfolding fallback_migrate_folio
fallback_migrate_folio-refuses freeze n c ok a mode m held = (
  λ d. (
    if is_full_sync mode then writeout c a m else (fail ebusy, m),
    fallback_of_dirty freeze n c a mode m d,
    IsRefused-by_mode mode m (writeout c a m) (IsRefusal-writeout c ok m held a),
  ),
  λ d p g. kept mode d p g,
)
  where
    kept :
        (x : Mode)
        → m.src.dirty ≡ false
        → m.src.has_private ≡ true
        → (c.release_folio m).0 ≡ false
        → (e : Errno) × (fallback_migrate_folio freeze n c a x m
            ≡ some (fail e, (c.release_folio m).1))
          × (x ≡ sync → e ≡ eagain)
          × (x ≢ sync → e ≡ ebusy)
    kept async d p g = (ebusy, ground arith, λ q. cc, λ q. refl)
    kept sync_light d p g = (ebusy, ground arith, λ q. cc, λ q. refl)
    kept sync d p g = (eagain, ground arith, λ q. refl, λ q. absurd (q refl))
    kept sync_no_copy d p g = (ebusy, ground arith, λ q. cc, λ q. refl)
