-- ===== src/Unmap/Timely.antt =====
-- The timestamps of the records of `__unmap_and_move` (arm64_files/migrate.c): on each path the
-- stages follow one another, so that the columns of /sys/kernel/debug/mig_timing add up.
use memory_migration_cs.Base.{
  ℕ, ◌+◌, ◌≤◌, Bool, true, ◌||◌, not, Option, none, some, [], ◌≡◌, inl, inr, refl, Mode, Rc, fail,
  eagain, ebusy, arith, Bool-cases, All, subst, sym, ◌∙◌, is_full_sync, is_async,
}
use memory_migration_cs.Folio.{Migration}
use memory_migration_cs.Folio.Rocm.{folio_all_mappings_readonly}
use memory_migration_cs.Folio.Move.{move_to_new_folio}
use memory_migration_cs.Unmap.{
  Kernel, Run, out, out_unlock, snapshot, add_lru, stamp_stage, set_dst_locked, skip_unmap,
  skip_copy, skip_remap,
}
use memory_migration_cs.Unmap.Release.{IsEnded-out_unlock, rc-out_unlock}
use memory_migration_cs.Unmap.Pipeline.{
  copied_or_bug, move_stage, copy_stage, remap_stage, finish_standard, standard_path, unmap_stage,
  mapped_path, orphan_path, finish_movable, movable_path, path_of_mapping, both_locked, lock_dst,
  src_locked, lock_stage, begin, is_mapped, with_dst, unmap_and_move_folio,
}
use memory_migration_cs.Unmap.Timeline.{
  IsTimely, Timely, Timely-if, IsClock, Locked, Unmapped, Copied, Remapped, IsTimely-out,
  Timely-standard, readings, Timely-rocm_path,
}

module _ (k : Kernel) (clock : IsClock k.now) (force : Bool) (mode : Mode) (lru : Bool) where
  Remapped-remap_stage :
      (s : Run) → Copied k clock s → Remapped k clock (remap_stage k force mode lru s)
  unfolding remap_stage
  Remapped-remap_stage s h = ground (arith, readings k clock s.ticks)

  Copied-add_lru : (s : Run) → Copied k clock s → Copied k clock (add_lru k s)
  Copied-add_lru s h = ground arith

  Timely-finish_standard :
      (o : Option Run)
      → ((s : Run) → o ≡ some s → Copied k clock s)
      → Timely (finish_standard k force mode lru o)
  Timely-finish_standard none h = tt
  Timely-finish_standard (some s) h =
      Timely-standard k clock (remap_stage k force mode lru (add_lru k s))
        (Remapped-remap_stage (add_lru k s) (Copied-add_lru s (h s refl)))

  Copied-copied_or_bug :
      (s t : Run) (o : Option (Rc × Migration))
      → Unmapped k clock s
      → copied_or_bug k force mode lru (stamp_stage k (λ t g. record g { copy_start_ns = t }) s) o
        ≡ some t
      → Copied k clock t
  Copied-copied_or_bug s t none h e = cc
  Copied-copied_or_bug s t (some (rc, m)) h e = ground (arith, readings k clock s.ticks)

  Copied-move_stage :
      (s t : Run) → Unmapped k clock s → move_stage k force mode lru s ≡ some t → Copied k clock t
  unfolding move_stage
  Copied-move_stage s t h e =
      Copied-copied_or_bug s t
        (move_to_new_folio k.freeze k.numa k.callbacks k.lru_space lru mode s.mig) h e

  Copied-copy_stage :
      (s t : Run) → Unmapped k clock s → copy_stage k force mode lru s ≡ some t → Copied k clock t
  unfolding copy_stage
  Copied-copy_stage s t h e = elim (Bool-cases (is_mapped s.mig.src)) [
    | inl c ↦ let kept = rw (c, copy_stage) at e in ground (arith, readings k clock s.ticks)
    | inr c ↦ Copied-move_stage s t h (rw (c, copy_stage) at e)
  ]

  Timely-standard_path : (s : Run) → Unmapped k clock s → Timely (standard_path k force mode lru s)
  unfolding standard_path
  Timely-standard_path s h =
      Timely-finish_standard (copy_stage k force mode lru s) (λ t e. Copied-copy_stage s t h e)

  Unmapped-skip_unmap : (s : Run) → Locked k clock s → Unmapped k clock (skip_unmap k s)
  Unmapped-skip_unmap s h = ground (arith, readings k clock s.ticks)

  Timely-finish_movable :
      (o : Option Run)
      → ((t : Run) → o ≡ some t → Copied k clock t)
      → Timely (finish_movable k force mode lru o)
  Timely-finish_movable none h = tt
  Timely-finish_movable (some t) h =
      Timely-standard k clock (skip_remap k t) (remapped-skip_remap t (h t refl))
    where
      remapped-skip_remap : (t : Run) → Copied k clock t → Remapped k clock (skip_remap k t)
      remapped-skip_remap t h = ground (arith, readings k clock t.ticks)

  Timely-movable_path : (s : Run) → Locked k clock s → Timely (movable_path k force mode lru s)
  unfolding movable_path
  Timely-movable_path s h =
      Timely-finish_movable (move_stage k force mode lru (skip_unmap k s))
        (λ t e. Copied-move_stage (skip_unmap k s) t (Unmapped-skip_unmap s h) e)

  Unmapped-unmap_stage :
      (s : Run) → Locked k clock s → Unmapped k clock (unmap_stage k force mode lru s)
  unfolding unmap_stage
  Unmapped-unmap_stage s h = ground (arith, readings k clock s.ticks)

  Timely-mapped_path : (s : Run) → Locked k clock s → Timely (mapped_path k force mode lru s)
  unfolding mapped_path
  Timely-mapped_path s h =
      Timely-if (folio_all_mappings_readonly s.mig.src k.space s.mig.rmap mode) _ _
        (Timely-rocm_path k clock s h)
        (Timely-standard_path (unmap_stage k force mode lru s) (Unmapped-unmap_stage s h))

  -- The folio has lost its mapping, and its buffers are freed instead.
  Remapped-orphan :
      (s : Run) (m : Migration)
      → Locked k clock s
      → Remapped k clock (skip_remap k (skip_copy k (record (skip_unmap k s) { mig = m })))
  Remapped-orphan s m h = ground (arith, readings k clock s.ticks)

  Timely-path_of_mapping :
      (a : Option ℕ) (s : Run) → Locked k clock s → Timely (path_of_mapping k force mode lru a s)
  unfolding path_of_mapping orphan_path
  Timely-path_of_mapping none s h =
      Timely-if s.mig.src.has_private _ _
        (Timely-standard k clock _ (Remapped-orphan s (k.try_to_free_buffers s.mig) h))
        (Timely-standard_path _ (Unmapped-skip_unmap s h))
  Timely-path_of_mapping (some a) s h =
      Timely-if (is_mapped s.mig.src) _ _ (Timely-mapped_path s h)
        (Timely-standard_path _ (Unmapped-skip_unmap s h))

  Timely-both_locked : (s : Run) → Locked k clock s → Timely (both_locked k force mode lru s)
  unfolding both_locked
  Timely-both_locked s h =
      Timely-if lru _ _
        (Timely-path_of_mapping (set_dst_locked true s.mig).src.mapping
          (with_dst k force mode lru s) h)
        (Timely-movable_path (with_dst k force mode lru s) h)

  -- Of the exits by `out_unlock`, -EAGAIN stores nothing, and -EBUSY a record without an unlock
  -- stage.
  Timely-out_unlock_again :
      (s : Run) → s.commits ≡ [] → s.rc ≡ fail eagain → Timely (some (out_unlock k s))
  Timely-out_unlock_again s h e =
      subst (All IsTimely) (sym ((IsEnded-out_unlock k s h).not_recorded (rc-out_unlock k s ∙ e)))
        tt

  Timely-out_unlock_busy :
      (s : Run) → Locked k clock s → Timely (some (out_unlock k (record s { rc = fail ebusy })))
  unfolding out_unlock
  Timely-out_unlock_busy s h = IsTimely-out k clock _ h.3 (inr (inr (refl, h.4)))

  Timely-lock_dst :
      (s : Run) → Locked k clock s → s.rc ≡ fail eagain → Timely (lock_dst k force mode lru s)
  unfolding lock_dst
  Timely-lock_dst s h e =
      Timely-if s.mig.dst.locked _ _ (Timely-out_unlock_again _ h.3 e) (Timely-both_locked _ h)

  Locked-stamp :
      (s : Run)
      → s.rec.total_start_ns ≤ s.rec.stages.lock_start_ns
      → s.rec.stages.lock_start_ns ≤ k.now s.ticks
      → s.commits ≡ []
      → s.rec.stages.unlock_start_ns ≡ 0
      → Locked k clock (stamp_stage k (λ t g. record g { lock_end_ns = t }) s)
  Locked-stamp s a b c d = ground (arith, readings k clock s.ticks)

  Timely-src_locked :
      (s : Run)
      → s.rec.total_start_ns ≤ s.rec.stages.lock_start_ns
      → s.rec.stages.lock_start_ns ≤ k.now s.ticks
      → s.commits ≡ []
      → s.rec.stages.unlock_start_ns ≡ 0
      → s.rc ≡ fail eagain
      → Timely (src_locked k force mode lru s)
  unfolding src_locked
  Timely-src_locked s a b c d e =
      Timely-if s.mig.src.writeback _ _
        (Timely-if (is_full_sync mode) _ _
          (Timely-if force _ _ (Timely-lock_dst _ l e) (Timely-out_unlock_again _ c e))
          (Timely-out_unlock_busy (stamp_stage k (λ t g. record g { lock_end_ns = t }) s) l))
        (Timely-lock_dst _ l e)
    where
      l : Locked k clock (stamp_stage k (λ t g. record g { lock_end_ns = t }) s)
      l = Locked-stamp s a b c d

  Timely-lock_stage : (m : Migration) → Timely (lock_stage k force mode lru (snapshot k (begin m)))
  unfolding lock_stage snapshot out
  Timely-lock_stage m =
      Timely-if m.src.locked _ _
        (Timely-if (not force || is_async mode || k.memalloc) _ _ tt
          (Timely-src_locked _ (clock.forwards 0) (clock.forwards (0 + 1)) refl refl refl))
        (Timely-src_locked _ (clock.forwards 0) (clock.forwards (0 + 1)) refl refl refl)

-- With a clock that does not run backwards and stays below 2^64, every record that
-- `__unmap_and_move` stores has its stages in the standard order or in that of the ROCM path, except
-- the record of a folio that is refused with -EBUSY while under writeback: that one has no start of
-- its unlock stage. This holds whatever the functions of other files do.
pub unmap_and_move_folio-Timely :
    (k : Kernel)
    → IsClock k.now
    → (force : Bool) (mode : Mode) (m : Migration) → Timely (unmap_and_move_folio k force mode m)
unfolding unmap_and_move_folio
unmap_and_move_folio-Timely k clock force mode m =
    Timely-lock_stage k clock force mode (not m.src.movable) m
