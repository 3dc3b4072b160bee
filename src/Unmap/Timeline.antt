-- ===== src/Unmap/Timeline.antt =====
-- How far the timestamps of a call of `__unmap_and_move` (arm64_files/migrate.c) have come, and the
-- records of its exits and of its ROCM path.
use memory_migration_cs.Base.{
  ℕ, ◌+◌, ◌^◌, ◌≤◌, ◌<◌, Bool, true, false, ◌||◌, not, Option, none, some, [], ◌∷◌, ◌++◌, ◌≡◌, ◌⊎◌,
  inl, inr, fail, ebusy, arith, Option-cases, All, subst, sym, if◌then◌else◌, is_success, is_eagain,
}
use memory_migration_cs.Timing.{TimingRecord}
use memory_migration_cs.Timing.Ring.{Commit}
use memory_migration_cs.Timing.Columns.{IsStandardOrder, IsRocmOrder}
use memory_migration_cs.Folio.Rocm.{rocm_swap_ptes}
use memory_migration_cs.Unmap.{
  Kernel, Run, out, commit, out_unlock, out_unlock_both, rocm_path, add_lru, rocm_copied,
  rocm_moved, rocm_aborted, stamp, stamp_stage, set_src_locked, set_dst_locked,
}
use memory_migration_cs.Unmap.Release.{fields-out}

-- A record that left by `out_unlock` with -EBUSY, before any stage behind the lock.
abbrev pub IsRefused : TimingRecord → Type 0
IsRefused r = (r.result ≡ fail ebusy) × (r.stages.unlock_start_ns ≡ 0)

abbrev pub IsTimely : Commit → Type 0
IsTimely c = IsStandardOrder c.body ⊎ (IsRocmOrder c.body ⊎ IsRefused c.body)

abbrev pub Timely : Option Run → Type 0
Timely none = Unit
Timely (some s) = All IsTimely s.commits

pub Timely-if : (b : Bool) (x y : Option Run) → Timely x → Timely y → Timely (if b then x else y)
Timely-if true x y h g = h
Timely-if false x y h g = g

-- The clock of the kernel: it does not run backwards, and stays below 2^64.
pub record IsClock (now : ℕ → ℕ) : Type 0 where
  pub forwards : (t : ℕ) → now t ≤ now (t + 1)
  pub in_u64 : (t : ℕ) → now t < 2 ^ 64

module _ (k : Kernel) (clock : IsClock k.now) where
  -- How far the stages have come.
  abbrev pub Locked : Run → Type 0
  Locked s =
      (s.rec.total_start_ns ≤ s.rec.stages.lock_start_ns)
      × (s.rec.stages.lock_start_ns ≤ s.rec.stages.lock_end_ns)
      × (s.rec.stages.lock_end_ns ≤ k.now s.ticks)
      × (s.commits ≡ [])
      × (s.rec.stages.unlock_start_ns ≡ 0)

  abbrev pub Unmapped : Run → Type 0
  Unmapped s =
      (s.rec.total_start_ns ≤ s.rec.stages.lock_start_ns)
      × (s.rec.stages.lock_start_ns ≤ s.rec.stages.lock_end_ns)
      × (s.rec.stages.lock_end_ns ≤ s.rec.stages.unmap_start_ns)
      × (s.rec.stages.unmap_start_ns ≤ s.rec.stages.unmap_end_ns)
      × (s.rec.stages.unmap_end_ns ≤ k.now s.ticks)
      × (s.commits ≡ [])

  abbrev pub Copied : Run → Type 0
  Copied s =
      (s.rec.total_start_ns ≤ s.rec.stages.lock_start_ns)
      × (s.rec.stages.lock_start_ns ≤ s.rec.stages.lock_end_ns)
      × (s.rec.stages.lock_end_ns ≤ s.rec.stages.unmap_start_ns)
      × (s.rec.stages.unmap_start_ns ≤ s.rec.stages.unmap_end_ns)
      × (s.rec.stages.unmap_end_ns ≤ s.rec.stages.copy_start_ns)
      × (s.rec.stages.copy_start_ns ≤ s.rec.stages.copy_end_ns)
      × (s.rec.stages.copy_end_ns ≤ k.now s.ticks)
      × (s.commits ≡ [])

  abbrev pub Remapped : Run → Type 0
  Remapped s =
      (s.rec.total_start_ns ≤ s.rec.stages.lock_start_ns)
      × (s.rec.stages.lock_start_ns ≤ s.rec.stages.lock_end_ns)
      × (s.rec.stages.lock_end_ns ≤ s.rec.stages.unmap_start_ns)
      × (s.rec.stages.unmap_start_ns ≤ s.rec.stages.unmap_end_ns)
      × (s.rec.stages.unmap_end_ns ≤ s.rec.stages.copy_start_ns)
      × (s.rec.stages.copy_start_ns ≤ s.rec.stages.copy_end_ns)
      × (s.rec.stages.copy_end_ns ≤ s.rec.stages.remap_start_ns)
      × (s.rec.stages.remap_start_ns ≤ s.rec.stages.remap_end_ns)
      × (s.rec.stages.remap_end_ns ≤ k.now s.ticks)
      × (s.commits ≡ [])

  -- The run as it stands when its record is stored.
  abbrev closing : Run → Run
  closing s =
      let begun = stamp_stage k (λ t g. record g { unlock_start_ns = t }) s in
      let unlocked =
        stamp_stage k (λ t g. record g { unlock_end_ns = t })
          (record begun {
            anon_vma = false;
            mig = set_src_locked false (set_dst_locked false begun.mig);
          }) in
      stamp k (λ t r. record r { result = s.rc; total_end_ns = t }) unlocked

  IsTimely-commit :
      (s : Run)
      → s.commits ≡ []
      → IsTimely (record { on_cpu = k.cpu; by_pid = k.pid; body = s.rec })
      → All IsTimely (commit k s).commits
  unfolding commit
  IsTimely-commit s h t = timely-choice (is_success s.rc || not (is_eagain s.rc))
    where
      timely-choice :
          (b : Bool)
          → All IsTimely
              (if b
                then record s {
                  commits =
                      s.commits ++ (record { on_cpu = k.cpu; by_pid = k.pid; body = s.rec } ∷ []);
                }
                else s).commits
      timely-choice true = rw h (t, tt)
      timely-choice false = rw h tt

  pub IsTimely-out :
      (s : Run)
      → s.commits ≡ []
      → IsTimely (record { on_cpu = k.cpu; by_pid = k.pid; body = s.rec })
      → All IsTimely (out k (commit k s)).commits
  IsTimely-out s h t =
      subst (All IsTimely) (sym (fields-out k (commit k s)).2) (IsTimely-commit s h t)

  commits_of_closing :
      (s : Run)
      → s.commits ≡ []
      → IsTimely (record { on_cpu = k.cpu; by_pid = k.pid; body = (closing s).rec })
      → Timely (some (out_unlock_both k s))
  unfolding out_unlock_both out_unlock
  commits_of_closing s h t = IsTimely-out (closing s) h t

  pub Timely-standard : (s : Run) → Remapped s → Timely (some (out_unlock_both k s))
  Timely-standard s h = commits_of_closing s h.9 (
      inl (
        omega (
          arith,
          clock.forwards s.ticks,
          clock.forwards (s.ticks + 1),
          clock.forwards (s.ticks + 1 + 1),
          clock.in_u64 (s.ticks + 1 + 1),
        )))

  -- Ten readings in a row.
  pub readings :
      (t : ℕ)
      → (k.now t ≤ k.now (t + 1))
        × (k.now (t + 1) ≤ k.now (t + 1 + 1))
        × (k.now (t + 1 + 1) ≤ k.now (t + 1 + 1 + 1))
        × (k.now (t + 1 + 1 + 1) ≤ k.now (t + 1 + 1 + 1 + 1))
        × (k.now (t + 1 + 1 + 1 + 1) ≤ k.now (t + 1 + 1 + 1 + 1 + 1))
        × (k.now (t + 1 + 1 + 1 + 1 + 1) ≤ k.now (t + 1 + 1 + 1 + 1 + 1 + 1))
        × (k.now (t + 1 + 1 + 1 + 1 + 1 + 1) ≤ k.now (t + 1 + 1 + 1 + 1 + 1 + 1 + 1))
        × (k.now (t + 1 + 1 + 1 + 1 + 1 + 1 + 1) ≤ k.now (t + 1 + 1 + 1 + 1 + 1 + 1 + 1 + 1))
        × (k.now (t + 1 + 1 + 1 + 1 + 1 + 1 + 1 + 1)
            ≤ k.now (t + 1 + 1 + 1 + 1 + 1 + 1 + 1 + 1 + 1))
        × (k.now (t + 1 + 1 + 1 + 1 + 1 + 1 + 1 + 1 + 1) < 2 ^ 64)
  readings t = (
    clock.forwards t,
    clock.forwards (t + 1),
    clock.forwards (t + 1 + 1),
    clock.forwards (t + 1 + 1 + 1),
    clock.forwards (t + 1 + 1 + 1 + 1),
    clock.forwards (t + 1 + 1 + 1 + 1 + 1),
    clock.forwards (t + 1 + 1 + 1 + 1 + 1 + 1),
    clock.forwards (t + 1 + 1 + 1 + 1 + 1 + 1 + 1),
    clock.forwards (t + 1 + 1 + 1 + 1 + 1 + 1 + 1 + 1),
    clock.in_u64 (t + 1 + 1 + 1 + 1 + 1 + 1 + 1 + 1 + 1),
  )

  -- The ROCM path, whether the swap succeeds or is given up.
  pub Timely-rocm_path : (s : Run) → Locked s → Timely (some (rocm_path k s))
  unfolding rocm_path
  Timely-rocm_path s h = elim (Option-cases (rocm_swap_ptes (rocm_copied k s).mig).0) [
    | inl e ↦
        rw (e, rocm_path)
          (commits_of_closing
            (rocm_aborted k (rocm_swap_ptes (rocm_copied k s).mig).1 (rocm_copied k s)) h.3
            (inr (inl in_order)))
    | inr (n, e) ↦
        rw (e, rocm_path)
          (commits_of_closing
            (add_lru k (rocm_moved k (rocm_swap_ptes (rocm_copied k s).mig).1 (rocm_copied k s)))
            h.3 (inr (inl in_order')))
  ]
    where
      in_order :
          IsRocmOrder
            (closing
              (rocm_aborted k (rocm_swap_ptes (rocm_copied k s).mig).1 (rocm_copied k s))).rec
      in_order = omega (arith, readings s.ticks)

      in_order' :
          IsRocmOrder
            (closing (
              add_lru k
                (rocm_moved k (rocm_swap_ptes (rocm_copied k s).mig).1 (rocm_copied k s)))).rec
      in_order' = omega (arith, readings s.ticks)
