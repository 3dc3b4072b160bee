-- ===== src/Unmap/Ends.antt =====
-- How `__unmap_and_move` (arm64_files/migrate.c) ends on each of its paths.
use memory_migration_cs.Base.{
  ℕ, Bool, true, false, ◌||◌, not, Option, none, some, [], ◌≡◌, inl, inr, refl, Mode, Rc, fail,
  eagain, arith, Bool-cases, is_async, sym, subst, ◌&&◌, is_full_sync,
}
use memory_migration_cs.Folio.{Migration}
use memory_migration_cs.Folio.Rocm.{folio_all_mappings_readonly}
use memory_migration_cs.Folio.Move.{move_to_new_folio}
use memory_migration_cs.Unmap.{
  Kernel, Run, out, snapshot, stamp_stage, set_src_locked, set_dst_locked, skip_unmap,
}
use memory_migration_cs.Unmap.Pipeline.{
  copied_or_bug, move_stage, copy_stage, remap_stage, finish_standard, standard_path, unmap_stage,
  mapped_path, orphan_path, finish_movable, movable_path, path_of_mapping, both_locked, lock_dst,
  src_locked, lock_stage, begin, is_mapped, with_dst, unmap_and_move_folio,
}
use memory_migration_cs.Unmap.Release.{
  Ends, Ends-if, IsEnded-out_unlock, IsEnded-out_unlock_both, commits-add_lru, IsEnded-rocm_path,
}

module _ (k : Kernel) (force : Bool) (mode : Mode) (lru : Bool) where
  commits-remap_stage : (s : Run) → s.commits ≡ [] → (remap_stage k force mode lru s).commits ≡ []
  unfolding remap_stage
  commits-remap_stage s h = ground arith

  ended-finish_standard :
      (o : Option Run)
      → ((s : Run) → o ≡ some s → s.commits ≡ [])
      → Ends (finish_standard k force mode lru o)
  ended-finish_standard none h = tt
  ended-finish_standard (some s) h =
      IsEnded-out_unlock_both k _ (commits-remap_stage _ (commits-add_lru k s (h s refl)))

  commits-copied_or_bug :
      (s t : Run) (o : Option (Rc × Migration))
      → s.commits ≡ []
      → copied_or_bug k force mode lru s o ≡ some t
      → t.commits ≡ []
  commits-copied_or_bug s t none h e = cc
  commits-copied_or_bug s t (some (rc, m)) h e = ground arith

  commits-move_stage :
      (s t : Run) → s.commits ≡ [] → move_stage k force mode lru s ≡ some t → t.commits ≡ []
  unfolding move_stage
  commits-move_stage s t h e =
      let begun = stamp_stage k (λ t g. record g { copy_start_ns = t }) s in
      commits-copied_or_bug begun t
        (move_to_new_folio k.freeze k.numa k.callbacks k.lru_space lru mode begun.mig) h e

  commits-copy_stage :
      (s t : Run) → s.commits ≡ [] → copy_stage k force mode lru s ≡ some t → t.commits ≡ []
  unfolding copy_stage
  commits-copy_stage s t h e = elim (Bool-cases (is_mapped s.mig.src)) [
    | inl c ↦ let kept = rw (c, copy_stage) at e in ground arith
    | inr c ↦ commits-move_stage s t h (rw (c, copy_stage) at e)
  ]

  ended-standard_path : (s : Run) → s.commits ≡ [] → Ends (standard_path k force mode lru s)
  unfolding standard_path
  ended-standard_path s h =
      ended-finish_standard (copy_stage k force mode lru s) (λ t e. commits-copy_stage s t h e)

  ended-movable_path : (s : Run) → s.commits ≡ [] → Ends (movable_path k force mode lru s)
  unfolding movable_path
  ended-movable_path s h =
      ended-finish_movable (move_stage k force mode lru (skip_unmap k s))
        (λ t e. commits-move_stage _ t h e)
    where
      ended-finish_movable :
          (o : Option Run)
          → ((t : Run) → o ≡ some t → t.commits ≡ [])
          → Ends (finish_movable k force mode lru o)
      ended-finish_movable none g = tt
      ended-finish_movable (some t) g = IsEnded-out_unlock_both k _ (g t refl)

  ended-mapped_path : (s : Run) → s.commits ≡ [] → Ends (mapped_path k force mode lru s)
  unfolding mapped_path unmap_stage
  ended-mapped_path s h =
      Ends-if (folio_all_mappings_readonly s.mig.src k.space s.mig.rmap mode) _ _
        (IsEnded-rocm_path k s h) (ended-standard_path (unmap_stage k force mode lru s) h)

  ended-path_of_mapping :
      (a : Option ℕ) (s : Run) → s.commits ≡ [] → Ends (path_of_mapping k force mode lru a s)
  unfolding path_of_mapping orphan_path
  ended-path_of_mapping none s h =
      Ends-if s.mig.src.has_private _ _ (IsEnded-out_unlock_both k _ h) (ended-standard_path _ h)
  ended-path_of_mapping (some a) s h =
      Ends-if (is_mapped s.mig.src) _ _ (ended-mapped_path s h) (ended-standard_path _ h)

  ended-both_locked : (s : Run) → s.commits ≡ [] → Ends (both_locked k force mode lru s)
  unfolding both_locked
  ended-both_locked s h =
      Ends-if lru _ _
        (ended-path_of_mapping (set_dst_locked true s.mig).src.mapping (with_dst k force mode lru s)
          h)
        (ended-movable_path (with_dst k force mode lru s) h)

  ended-lock_dst : (s : Run) → s.commits ≡ [] → Ends (lock_dst k force mode lru s)
  unfolding lock_dst
  ended-lock_dst s h =
      Ends-if s.mig.dst.locked _ _ (IsEnded-out_unlock k _ h) (ended-both_locked _ h)

  ended-src_locked : (s : Run) → s.commits ≡ [] → Ends (src_locked k force mode lru s)
  unfolding src_locked
  ended-src_locked s h =
      Ends-if s.mig.src.writeback _ _
        (Ends-if (is_full_sync mode) _ _
          (Ends-if force _ _ (ended-lock_dst _ h) (IsEnded-out_unlock k _ h))
          (IsEnded-out_unlock k _ h))
        (ended-lock_dst _ h)

  ended-lock_stage :
      (s : Run)
      → s.commits ≡ []
      → (s.mig.src.locked && (not force || is_async mode || k.memalloc)) ≡ false
      → Ends (lock_stage k force mode lru s)
  unfolding lock_stage
  ended-lock_stage s h g = elim (Bool-cases s.mig.src.locked) [
    | inl c ↦
        let waits : (not force || is_async mode || k.memalloc) ≡ false = ground arith in
        subst Ends (sym (lock-waits c waits)) (ended-src_locked _ h)
    | inr c ↦ subst Ends (sym (lock-free c)) (ended-src_locked _ h)
  ]
    where
      lock-waits :
          s.mig.src.locked ≡ true
          → (not force || is_async mode || k.memalloc) ≡ false
          → lock_stage k force mode lru s
            ≡ src_locked k force mode lru (record s {
              mig = set_src_locked true s.mig;
              rec = record (s.rec) { lock_contended = true };
            })
      lock-waits c w = rw (w, lock_stage) (simp c)

      lock-free :
          s.mig.src.locked ≡ false
          → lock_stage k force mode lru s
            ≡ src_locked k force mode lru (record s { mig = set_src_locked true s.mig })
      lock-free c = simp c

module _ (k : Kernel) (force : Bool) (mode : Mode) (lru : Bool) where
  lock_stage-gives_up :
      (m : Migration)
      → (m.src.locked && (not force || is_async mode || k.memalloc)) ≡ true
      → lock_stage k force mode lru (snapshot k (begin m)) ≡ some (snapshot k (begin m))
  unfolding lock_stage out snapshot
  lock_stage-gives_up m c = ground arith

-- A call of `__unmap_and_move` that finds the old folio locked and may not wait (it is not forced,
-- or the mode is MIGRATE_ASYNC, or the thread is allocating memory) returns -EAGAIN with both
-- folios as they were and nothing recorded. Any other call, unless it meets a BUG_ON, ends with the
-- old folio unlocked and no reference to an anon_vma held, and has stored one record with its
-- return value if that is not -EAGAIN, and none if it is.
pub unmap_and_move_folio-Ends :
    (k : Kernel) (force : Bool) (mode : Mode) (m : Migration)
    → ((m.src.locked && (not force || is_async mode || k.memalloc)) ≡ true
        → (s : Run) × (unmap_and_move_folio k force mode m ≡ some s)
          × (s.mig ≡ m)
          × (s.rc ≡ fail eagain)
          × (s.commits ≡ []))
      × ((m.src.locked && (not force || is_async mode || k.memalloc)) ≡ false
          → Ends (unmap_and_move_folio k force mode m))
unfolding unmap_and_move_folio snapshot
unmap_and_move_folio-Ends k force mode m = (
  λ c. (
    snapshot k (begin m),
    lock_stage-gives_up k force mode (not m.src.movable) m c,
    refl,
    refl,
    refl,
  ),
  λ c. ended-lock_stage k force mode (not m.src.movable) (snapshot k (begin m)) refl c,
)
