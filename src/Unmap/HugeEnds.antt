-- ===== src/Unmap/HugeEnds.antt =====
-- How `unmap_and_move_huge_page` (arm64_files/migrate.c) ends: its lock, its anon_vma and its record.
use memory_migration_cs.Base.{
  Bool, true, false, ◌&&◌, ◌||◌, not, Option, none, some, List, [], ◌∷◌, ◌++◌, ◌≡◌, refl, ap, sym,
  subst, inl, inr, if◌then◌else◌, Mode, Rc, fail, eagain, is_full_sync, arith, Bool-cases,
}
use memory_migration_cs.Timing.Ring.{Commit}
use memory_migration_cs.Folio.{Migration}
use memory_migration_cs.Folio.Move.{move_to_new_folio}
use memory_migration_cs.Unmap.{Run, set_src_locked, stamp_stage}
use memory_migration_cs.Unmap.Pipeline.{is_mapped, copied_or_bug, copied}
use memory_migration_cs.Unmap.Huge.{
  HugeKernel, huge_store, huge_commit, huge_out_unlock, put_anon, unlock_put_anon, huge_remap,
  huge_finish, huge_copy, huge_unmap, huge_locked, huge_begin, unmap_and_move_huge_folio,
}

-- The end of a call: the old folio is unlocked, the anon_vma is put, and one record is stored, with
-- the return value, -EAGAIN too.
pub record IsHugeEnded (s : Run) : Type 0 where
  pub src_unlocked : s.mig.src.locked ≡ false
  pub anon_put : s.anon_vma ≡ false
  pub one_record : (c : Commit) × (s.commits ≡ c ∷ []) × (c.body.result ≡ s.rc)

abbrev pub HugeEnds : Option Run → Type 0
HugeEnds none = Unit
HugeEnds (some s) = IsHugeEnded s

HugeEnds-if :
    (b : Bool) (x y : Option Run) → HugeEnds x → HugeEnds y → HugeEnds (if b then x else y)
HugeEnds-if true x y f g = f
HugeEnds-if false x y f g = g

module _ (h : HugeKernel) (force : Bool) (mode : Mode) where
  ended-huge_out_unlock :
      (s : Run) → s.commits ≡ [] → s.anon_vma ≡ false → IsHugeEnded (huge_out_unlock h force mode s)
  unfolding huge_out_unlock huge_commit
  ended-huge_out_unlock s c a = record {
    src_unlocked = refl;
    anon_put = a;
    one_record = (stored, ap (λ (cs : List Commit). cs ++ (stored ∷ [])) c, refl);
  }
    where
      stored : Commit
      stored = huge_store h force mode (
          stamp_stage h.kernel (λ t g. record g { unlock_end_ns = t })
            (record s { mig = set_src_locked false s.mig }))

  ended-put_anon : (s : Run) → s.commits ≡ [] → IsHugeEnded (put_anon h force mode s)
  unfolding put_anon
  ended-put_anon s c = ended-huge_out_unlock (record s { anon_vma = false }) c refl

  ended-unlock_put_anon : (s : Run) → s.commits ≡ [] → IsHugeEnded (unlock_put_anon h force mode s)
  unfolding unlock_put_anon
  ended-unlock_put_anon s c = ended-put_anon _ c

  commits-huge_remap : (s : Run) → s.commits ≡ [] → (huge_remap h force mode s).commits ≡ []
  commits-huge_remap s c = ground arith

  ended-huge_copied :
      (s : Run) (o : Option (Rc × Migration))
      → s.commits ≡ []
      → HugeEnds (huge_finish h force mode (copied_or_bug h.kernel force mode true s o))
  ended-huge_copied s none c = tt
  ended-huge_copied s (some (rc, m)) c =
      ended-unlock_put_anon _ (commits-huge_remap (copied h.kernel force mode true s (rc, m)) c)

  ended-huge_copy : (s : Run) → s.commits ≡ [] → HugeEnds (huge_copy h force mode s)
  unfolding huge_copy
  ended-huge_copy s c =
      let begun = stamp_stage h.kernel (λ t g. record g { copy_start_ns = t }) s in
      let kept = stamp_stage h.kernel (λ t g. record g { copy_end_ns = t }) begun in
      HugeEnds-if (is_mapped s.mig.src) _ _
        (ended-unlock_put_anon (huge_remap h force mode kept) (commits-huge_remap kept c))
        (ended-huge_copied begun
          (move_to_new_folio h.kernel.freeze h.kernel.numa h.kernel.callbacks h.kernel.lru_space
            (not s.mig.src.movable) mode begun.mig)
          c)

  ended-huge_unmap : (s : Run) → s.commits ≡ [] → HugeEnds (huge_unmap h force mode s)
  unfolding huge_unmap
  ended-huge_unmap s c =
      HugeEnds-if (is_mapped s.mig.src) _ _
        (HugeEnds-if (not s.mig.src.anon && not (h.lock_mapping s.mig)) _ _
          (ended-unlock_put_anon _ c) (ended-huge_copy _ c))
        (ended-huge_copy _ c)

  ended-huge_locked :
      (s : Run) → s.commits ≡ [] → s.anon_vma ≡ false → HugeEnds (huge_locked h force mode s)
  unfolding huge_locked
  ended-huge_locked s c a =
      HugeEnds-if (h.orphan_subpool s.mig) _ _ (ended-huge_out_unlock _ c a)
        (HugeEnds-if s.mig.dst.locked _ _ (ended-put_anon _ c) (ended-huge_unmap _ c))

  ended-huge_begin :
      (m : Migration)
      → (m.src.locked && (not force || not (is_full_sync mode))) ≡ false
      → HugeEnds (unmap_and_move_huge_folio h force mode m)
  unfolding unmap_and_move_huge_folio
  ended-huge_begin m g = elim (Bool-cases m.src.locked) [
    | inl c ↦
        let waits : (not force || not (is_full_sync mode)) ≡ false = ground arith in
        subst HugeEnds (sym (lock-waits c waits)) (ended-huge_locked _ refl refl)
    | inr c ↦ subst HugeEnds (sym (lock-free c)) (ended-huge_locked _ refl refl)
  ]
    where
      taken : Run
      taken = let s = huge_begin h force mode m in record s { mig = set_src_locked true s.mig }

      lock-waits :
          m.src.locked ≡ true
          → (not force || not (is_full_sync mode)) ≡ false
          → unmap_and_move_huge_folio h force mode m
            ≡ huge_locked h force mode
                (record taken { rec = record (taken.rec) { lock_contended = true } })
      lock-waits c w = rw (w, unmap_and_move_huge_folio) (simp c)

      lock-free :
          m.src.locked ≡ false
          → unmap_and_move_huge_folio h force mode m ≡ huge_locked h force mode taken
      lock-free c = simp c

-- A call that finds the huge folio locked and may not wait (it is not forced, or the mode is neither
-- MIGRATE_SYNC nor MIGRATE_SYNC_NO_COPY) returns -EAGAIN with both folios as they were and nothing
-- recorded. Any other call, unless it meets a BUG_ON, ends with the old folio unlocked and no
-- reference to an anon_vma held, and has stored exactly one record, with its return value.
pub unmap_and_move_huge_folio-ends :
    (h : HugeKernel) (force : Bool) (mode : Mode) (m : Migration)
    → ((m.src.locked && (not force || not (is_full_sync mode))) ≡ true
        → (s : Run) × (unmap_and_move_huge_folio h force mode m ≡ some s)
          × (s.mig ≡ m)
          × (s.rc ≡ fail eagain)
          × (s.commits ≡ []))
      × ((m.src.locked && (not force || not (is_full_sync mode))) ≡ false
          → HugeEnds (unmap_and_move_huge_folio h force mode m))
unfolding unmap_and_move_huge_folio
unmap_and_move_huge_folio-ends h force mode m =
    (λ c. (given_up, ground arith, refl, refl, refl), ended-huge_begin h force mode m)
  where
    given_up : Run
    given_up =
        stamp_stage h.kernel (λ t g. record g { lock_end_ns = t }) (huge_begin h force mode m)
